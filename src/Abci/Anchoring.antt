-- ===== src/Abci/Anchoring.antt =====
-- The range of CAL transactions that StartAnchoring hands to the anchor engine.
use chainpoint_core.Prelude.{
  ℕ, ◌≤◌, ◌<◌, ℤ, pos, negsuc, ◌≤ℤ◌, ◌<ℤ◌, ◌-ℤ◌, ◌+ℤ◌, sub64, wrap64_of_IsInt64, ltb_ℤ, int64_half,
  Bool, true, false, ◌&&◌, ◌++◌, List, [], ◌∷◌, ◌≡◌, refl, subst, arith,
}
use chainpoint_core.Abci.{App, Spawn}
use chainpoint_core.Abci.Counters.{Counters, counters_of}
use chainpoint_core.Abci.Block.{start_anchoring, is_due, has_cals, when}

-- The counters are integers that are not negative, in order: the CALs of the block are among all the
-- CALs, and those among all the transactions.
pub record IsOrdered (c : Counters) : Type 0 where
  pub current : pos 0 ≤ℤ c.current_cal
  pub cals : c.current_cal ≤ℤ c.latest_cal
  pub all : c.latest_cal ≤ℤ c.tx_int
  pub bounded : c.tx_int <ℤ pos int64_half

-- The difference of two integers that are not negative fits.
sub64_pos : (m n : ℕ) → m < int64_half → n < int64_half → sub64 (pos m) (pos n) ≡ pos m -ℤ pos n
unfolding sub64 ◌-ℤ◌
sub64_pos m n h k = wrap64_of_IsInt64 (pos m -ℤ pos n) (ground arith)

range_pos :
    (b l c : ℕ)
    → c ≤ l
    → l < int64_half
    → b < int64_half
    → ltb_ℤ (pos c) (sub64 (pos l) (pos b)) ≡ true
    → (pos b <ℤ sub64 (pos l) (pos c)) × (sub64 (pos l) (pos c) +ℤ pos c ≡ pos l)
unfolding ◌-ℤ◌ ◌+ℤ◌
range_pos b l c h k m t =
    let p : ltb_ℤ (pos c) (pos l -ℤ pos b) ≡ true =
      subst (λ x. ltb_ℤ (pos c) x ≡ true) (sub64_pos l b k m) t in
    rw (sub64_pos l c k (omega arith)) (ground arith)

-- The range test of StartAnchoring, on counters in order.
cals_range :
    (begin latest current : ℤ)
    → pos 0 ≤ℤ current
    → current ≤ℤ latest
    → latest <ℤ pos int64_half
    → pos 0 ≤ℤ begin
    → begin <ℤ pos int64_half
    → ltb_ℤ current (sub64 latest begin) ≡ true
    → (begin <ℤ sub64 latest current) × (sub64 latest current +ℤ current ≡ latest)
cals_range (pos b) (pos l) (pos c) h k m n o t =
    range_pos b l c (omega arith) (omega arith) (omega arith) t
cals_range (negsuc b) l c h k m n o t = absurd (omega arith)
cals_range (pos b) (negsuc l) c h k m n o t = absurd (omega arith)
cals_range (pos b) (pos l) (negsuc c) h k m n o t = absurd (omega arith)

-- `P` holds of every range that is handed to the anchor engine.
abbrev pub EachRange : (ℤ → ℤ → Type 0) → List Spawn → Type 0
EachRange P [] = Unit {0}
EachRange P (Spawn.anchor_to_chain b e ∷ rest) = P b e × EachRange P rest
EachRange P (_ ∷ rest) = EachRange P rest

ranges_when :
    (P : ℤ → ℤ → Type 0) (a d : Bool) (h b e : ℤ)
    → (d ≡ true → P b e)
    → EachRange P (when a (Spawn.anchor_calendar h ∷ []) ++ when d (Spawn.anchor_to_chain b e ∷ []))
ranges_when P true true h b e p = (p refl, tt)
ranges_when P false true h b e p = (p refl, tt)
ranges_when P true false h b e p = tt
ranges_when P false false h b e p = tt

last_true : (a b c : Bool) → (a && (b && c)) ≡ true → c ≡ true
last_true a b c h = ground arith

-- When the counters are in order and the start of the range is not negative, StartAnchoring hands over
-- only ranges that begin where the last anchor ended, are not empty, and end so that with the CALs of
-- the current block they reach the latest CAL: no CAL of the current block is anchored early.
pub start_anchoring-ranges :
    {D : Type 0} (app : App D)
    → IsOrdered (counters_of app.state)
    → pos 0 ≤ℤ app.state.begin_cal_tx_int
    → app.state.begin_cal_tx_int <ℤ pos int64_half
    → EachRange
        (λ b e.
          (b ≡ app.state.begin_cal_tx_int)
          × (b <ℤ e)
          × (e +ℤ app.state.current_cal_ints ≡ app.state.latest_cal_tx_int))
        (start_anchoring app).1
unfolding start_anchoring
start_anchoring-ranges app o h k =
    let s = app.state in
    let top : s.latest_cal_tx_int <ℤ pos int64_half = omega arith in
    ranges_when _ (s.chain_synced && app.config.do_cal)
      (is_due app && (s.chain_synced && has_cals s)) s.height s.begin_cal_tx_int
      (sub64 s.latest_cal_tx_int s.current_cal_ints)
      (λ due.
        let (lt, eq) =
          cals_range s.begin_cal_tx_int s.latest_cal_tx_int s.current_cal_ints o.current o.cals top
            h k (last_true (is_due app) s.chain_synced (has_cals s) due) in
        (refl, lt, eq))
