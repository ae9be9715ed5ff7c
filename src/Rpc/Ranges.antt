-- ===== src/Rpc/Ranges.antt =====
-- The range of CAL transactions of GetCalTxRange (tendermintrpc/rpc.go).
use chainpoint_core.Prelude.{
  ℕ, zero, suc, ◌+◌, ◌≤◌, ◌<◌, ℤ, pos, inc64, inc64_pos, ◌-ℤ◌, pos_part, int64_half, leb_ℤ, List,
  [], ◌++◌, append_assoc, false, ltb, if◌then◌else◌, Bool-cases, inl, inr, Option, none, some, ◌≡◌,
  refl, ap, sym, ◌∙◌, arith,
}
use chainpoint_core.Calendar.{ResultTx}
use chainpoint_core.Rpc.{
  TmClient, ResultTxSearch, get_tx_by_int, cal_txs_from, get_cal_tx_range, RpcError,
}

abbrev pub both : Option (List ResultTx) → Option (List ResultTx) → Option (List ResultTx)
both (some a) (some b) = some (a ++ b)
both none b = none
both (some a) none = none

both_assoc : (a b c : Option (List ResultTx)) → both (both a b) c ≡ both a (both b c)
both_assoc none b c = refl
both_assoc (some a) none c = refl
both_assoc (some a) (some b) none = refl
both_assoc (some a) (some b) (some c) = ap some (append_assoc a b c)

module _ (client : TmClient) where
  abbrev txs_of : Option ResultTxSearch → Option (List ResultTx)
  txs_of none = none
  txs_of (some r) = some (if ltb 0 r.total_count then r.txs else [])

  round_with :
      (r : Option ResultTxSearch) (more : Option (List ResultTx))
      → elim r [
        | none ↦ none
        | some x ↦ elim more [
          | none ↦ none
          | some m ↦ some (if ltb 0 x.total_count then x.txs ++ m else m)
        ]
      ]
        ≡ both (txs_of r) more
  round_with none more = refl
  round_with (some x) none = refl
  round_with (some x) (some m) = elim (Bool-cases (ltb 0 x.total_count)) [
    | inl e ↦ rw e refl
    | inr e ↦ rw e refl
  ]

  round :
      (n : ℕ) (i : ℤ)
      → cal_txs_from client (suc n) i
        ≡ both (txs_of (get_tx_by_int client i)) (cal_txs_from client n (inc64 i))
  unfolding cal_txs_from
  round n i = round_with (get_tx_by_int client i) (cal_txs_from client n (inc64 i))

  both_nil : (a : Option (List ResultTx)) → both (some []) a ≡ a
  both_nil none = refl
  both_nil (some a) = refl

  cal_txs_from-append :
      (m n i : ℕ)
      → i + (m + n) < int64_half
      → cal_txs_from client (m + n) (pos i)
        ≡ both (cal_txs_from client m (pos i)) (cal_txs_from client n (pos (i + m)))
  unfolding cal_txs_from
  cal_txs_from-append zero n i h =
      let at : i ≡ i + 0 = omega arith in
      let count : 0 + n ≡ n = omega arith in
      ap (λ k. cal_txs_from client k (pos i)) count
      ∙ ap (λ k. cal_txs_from client n (pos k)) at
      ∙ sym (both_nil (cal_txs_from client n (pos (i + 0))))
  cal_txs_from-append (suc m) n i h =
      let count : suc m + n ≡ suc (m + n) = omega arith in
      let at : i + 1 + m ≡ i + suc m = omega arith in
      let first = txs_of (get_tx_by_int client (pos i)) in
      ap (λ k. cal_txs_from client k (pos i)) count
      ∙ round (m + n) (pos i)
      ∙ ap (λ k. both first (cal_txs_from client (m + n) k)) (inc64_pos i (omega arith))
      ∙ ap (both first) (cal_txs_from-append m n (i + 1) (omega arith))
      ∙ ap
          (λ k.
            both first (both (cal_txs_from client m (pos (i + 1))) (cal_txs_from client n (pos k))))
          at
      ∙ sym (
          both_assoc first (cal_txs_from client m (pos (i + 1)))
            (cal_txs_from client n (pos (i + suc m))))
      ∙ ap (λ x. both x (cal_txs_from client n (pos (i + suc m))))
          (ap (λ k. both first (cal_txs_from client m k)) (sym (inc64_pos i (omega arith)))
            ∙ sym (round m (pos i)))

  abbrev outcome : Option (List ResultTx) → List ResultTx × Option RpcError
  outcome none = ([], some RpcError.client_failed)
  outcome (some txs) = (txs, none)

  range_of :
      (a m : ℕ)
      → 1 ≤ m
      → get_cal_tx_range client (pos a) (pos (a + m)) ≡ outcome (cal_txs_from client m (pos a))
  unfolding get_cal_tx_range ◌-ℤ◌
  range_of a m h =
      let not_empty : leb_ℤ (pos (a + m)) (pos a) ≡ false = ground arith in
      let count : pos_part (pos (a + m) -ℤ pos a) ≡ m = ground arith in
      rw (not_empty, count) (as_outcome (cal_txs_from client m (pos a)))
    where
      as_outcome :
          (x : Option (List ResultTx))
          → elim x [ none ↦ ([], some RpcError.client_failed) | some txs ↦ (txs, none) ] ≡ outcome x
      as_outcome none = refl
      as_outcome (some txs) = refl

  outcome-some :
      (x : Option (List ResultTx)) (txs : List ResultTx) → outcome x ≡ (txs, none) → x ≡ some txs
  outcome-some none txs e = cc
  outcome-some (some t) txs e = cc

  -- Two ranges of CALs that meet, neither of them empty: when the client answers, the CALs of the whole
  -- range are those of the first part followed by those of the second, so that anchors whose ranges
  -- meet neither lose nor repeat a CAL.
  pub get_cal_tx_range-split :
      (a m n : ℕ) (first second : List ResultTx)
      → 1 ≤ m
      → 1 ≤ n
      → a + (m + n) < int64_half
      → get_cal_tx_range client (pos a) (pos (a + m)) ≡ (first, none)
      → get_cal_tx_range client (pos (a + m)) (pos (a + m + n)) ≡ (second, none)
      → get_cal_tx_range client (pos a) (pos (a + m + n)) ≡ (first ++ second, none)
  get_cal_tx_range-split a m n first second h k b e1 e2 =
      let x1 = outcome-some (cal_txs_from client m (pos a)) first (sym (range_of a m h) ∙ e1) in
      let x2 =
        outcome-some (cal_txs_from client n (pos (a + m))) second
          (sym (range_of (a + m) n k) ∙ e2) in
      let at : a + m + n ≡ a + (m + n) = omega arith in
      ap (λ e. get_cal_tx_range client (pos a) (pos e)) at
      ∙ range_of a (m + n) (omega arith)
      ∙ ap outcome (
          cal_txs_from-append m n a b
          ∙ ap (λ x. both x (cal_txs_from client n (pos (a + m)))) x1
          ∙ ap (both (some first)) x2)
