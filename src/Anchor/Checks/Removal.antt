-- ===== src/Anchor/Checks/Removal.antt =====
-- FindAndRemoveBtcCheck (anchor/bitcoin/bitcoinanchor.go) as a filter of the stored checks.
use chainpoint_core.Prelude.{
  Str, str_eq, str_eq_iff, str_eq_refl, true, false, Bool-cases, inl, inr, Option, none, some, List,
  [], ◌∷◌, ◌++◌, append-nil, append_assoc, ◌≡◌, refl, ap, sym, ◌∙◌, if◌then◌else◌,
}
use chainpoint_core.Types.{AnchorRange}
use chainpoint_core.LevelDb.{DbOps, DbLaws, StringsJson, StringsJsonLaws}
use chainpoint_core.LevelDb.KvStore.{StoreError, get_array, remove_first}
use chainpoint_core.LevelDb.KvStore.Arrays.{
  ArrayOp, Arrays, array_step, IsView, Works, run, run-IsView,
}
use chainpoint_core.ProofDb.{Json}
use chainpoint_core.Anchor.{AnchorJson, check_btc_tx_ids_key}
use chainpoint_core.Anchor.Checks.{is_check_of, remove_checks, find_and_remove_btc_check}

-- The checks that stay: those of other roots, and texts that are no checks.
unfoldable pub kept : Json AnchorRange → Str → List Str → List Str
kept j root [] = []
kept j root (s ∷ ss) = let rest = kept j root ss in if is_check_of j root s then rest else s ∷ rest

module _ (j : Json AnchorRange) (root : Str) where
  differs :
      (x s : Str) → is_check_of j root x ≡ false → is_check_of j root s ≡ true → str_eq x s ≡ false
  differs x s c h = elim (Bool-cases (str_eq x s)) [
    | inl e ↦ absurd (apart (sym c ∙ ap (is_check_of j root) ((str_eq_iff x s).0 e) ∙ h))
    | inr e ↦ e
  ]
    where
      apart : false ≡ true → ⊥
      apart e = cc

  -- The first occurrence of a check is not among those that stay.
  remove_first-kept :
      (pre ss : List Str) (s : Str)
      → is_check_of j root s ≡ true
      → remove_first s (kept j root pre ++ s ∷ ss) ≡ kept j root pre ++ ss
  unfolding remove_first kept
  remove_first-kept [] ss s h = rw (str_eq_refl s) refl
  remove_first-kept (x ∷ pre) ss s h = elim (Bool-cases (is_check_of j root x)) [
    | inl c ↦ rw c (remove_first-kept pre ss s h)
    | inr c ↦ rw (c, differs x s c h) (ap (◌∷◌ x) (remove_first-kept pre ss s h))
  ]

  kept-append : (a b : List Str) → kept j root (a ++ b) ≡ kept j root a ++ kept j root b
  unfolding kept
  kept-append [] b = refl
  kept-append (x ∷ a) b = elim (Bool-cases (is_check_of j root x)) [
    | inl c ↦ rw c (kept-append a b)
    | inr c ↦ rw c (ap (◌∷◌ x) (kept-append a b))
  ]

  -- The next text moves to the part that was looked at.
  kept-gone :
      (pre ss : List Str) (s : Str)
      → is_check_of j root s ≡ true
      → kept j root pre ++ ss ≡ kept j root (pre ++ s ∷ []) ++ ss
  unfolding kept
  kept-gone pre ss s c =
      ap (λ l. l ++ ss) (sym (kept-append pre (s ∷ []) ∙ (rw c (append-nil (kept j root pre)))))

  kept-stays :
      (pre ss : List Str) (s : Str)
      → is_check_of j root s ≡ false
      → kept j root pre ++ s ∷ ss ≡ kept j root (pre ++ s ∷ []) ++ ss
  unfolding kept
  kept-stays pre ss s c =
      sym (append_assoc (kept j root pre) (s ∷ []) ss)
      ∙ ap (λ l. l ++ ss) (sym (kept-append pre (s ∷ []) ∙ (rw c refl)))

module _ {D : Type 0} (ops : DbOps D) (js : StringsJson) (aj : AnchorJson) (dl : DbLaws D ops)
    (jl : StringsJsonLaws js) (P : Str → Type 0) (of_kind : P check_btc_tx_ids_key)
    (works : (d : D) → Works ops js d) (no_empty : (aj.anchor_range.decode []).1 ≡ true)
    (root : Str) where
  -- The arrays after the loop: those of a function that differs only at the checks.
  abbrev pub Filtered : D × Option StoreError → Arrays → List Str → Type 0
  Filtered r f left =
      (r.1 ≡ none)
      × ((g : Arrays) × IsView ops js P r.0 g
          × (g check_btc_tx_ids_key ≡ left)
          × ((k : Str) → str_eq check_btc_tx_ids_key k ≡ false → g k ≡ f k))

  check_is_text : (s : Str) → is_check_of aj.anchor_range root s ≡ true → str_eq s [] ≡ false
  unfolding str_eq
  check_is_text [] h = absurd (no_check (rw no_empty at h))
    where
      no_check : false ≡ true → ⊥
      no_check e = cc
  check_is_text (c ∷ s) h = refl

  skip_step :
      (s : Str) (ss : List Str) (d : D)
      → is_check_of aj.anchor_range root s ≡ false
      → remove_checks ops js aj root (s ∷ ss) d ≡ remove_checks ops js aj root ss d
  unfolding remove_checks
  skip_step s ss d c = rw (remove_checks, c) refl

  del_step :
      (s : Str) (ss : List Str) (d : D)
      → is_check_of aj.anchor_range root s ≡ true
      → (run ops js (ArrayOp.deleted check_btc_tx_ids_key s) d).1 ≡ none
      → remove_checks ops js aj root (s ∷ ss) d
        ≡ remove_checks ops js aj root ss (run ops js (ArrayOp.deleted check_btc_tx_ids_key s) d).0
  unfolding remove_checks run
  del_step s ss d c e = rw (remove_checks, c, e) refl

  loop_Filtered :
      (pre ss : List Str) (d : D) (f : Arrays)
      → IsView ops js P d f
      → f check_btc_tx_ids_key ≡ kept aj.anchor_range root pre ++ ss
      → Filtered (remove_checks ops js aj root ss d) f (kept aj.anchor_range root (pre ++ ss))
  unfolding remove_checks kept
  loop_Filtered pre [] d f v e = (
    refl,
    (
      f,
      v,
      e
          ∙ append-nil (kept aj.anchor_range root pre)
          ∙ ap (kept aj.anchor_range root) (sym (append-nil pre)),
      λ k n. refl,
    ),
  )
  loop_Filtered pre (s ∷ ss) d f v e = elim (Bool-cases (is_check_of aj.anchor_range root s)) [
    | inl c ↦
        let (fine, view) =
          run-IsView ops js dl jl P (ArrayOp.deleted check_btc_tx_ids_key s) d f of_kind v
            (works d) in
        let f' = array_step (ArrayOp.deleted check_btc_tx_ids_key s) f in
        let now : f' check_btc_tx_ids_key ≡ kept aj.anchor_range root (pre ++ s ∷ []) ++ ss =
          rw (str_eq_refl check_btc_tx_ids_key, check_is_text s c)
            (ap (remove_first s) e
              ∙ remove_first-kept aj.anchor_range root pre ss s c
              ∙ kept-gone aj.anchor_range root pre ss s c) in
        let (none_failed, (g, seen, left, others)) =
          loop_Filtered (pre ++ s ∷ []) ss (run ops js (ArrayOp.deleted check_btc_tx_ids_key s) d).0
            f' view now in
        rw (del_step s ss d c fine) (
          none_failed,
          (
            g,
            seen,
            left ∙ ap (kept aj.anchor_range root) (append_assoc pre (s ∷ []) ss),
            λ k n. others k n ∙ (rw n refl),
          ),
        )
    | inr c ↦
        let (none_failed, (g, seen, left, others)) =
          loop_Filtered (pre ++ s ∷ []) ss d f v (e ∙ kept-stays aj.anchor_range root pre ss s c) in
        rw (skip_step s ss d c) (
          none_failed,
          (g, seen, left ∙ ap (kept aj.anchor_range root) (append_assoc pre (s ∷ []) ss), others),
        )
  ]

  start_step :
      (d : D) (l : List Str)
      → get_array ops js d check_btc_tx_ids_key ≡ (l, none)
      → find_and_remove_btc_check ops js aj root d ≡ remove_checks ops js aj root l d
  unfolding find_and_remove_btc_check
  start_step d l e =
      ap
        (λ (r : List Str × Option StoreError). elim r.1 [
          | some err ↦ (d, some err)
          | none ↦ remove_checks ops js aj root r.0 d
        ])
        e

  -- On a database whose writes do not fail and whose arrays of some kind, the stored checks among them,
  -- are those of a function, FindAndRemoveBtcCheck returns no error and removes from the checks
  -- exactly those of the given root, every occurrence of them; the rest keep their order, and
  -- the other arrays of the kind stay as they were. The empty text must not read as a check.
  pub find_and_remove_btc_check-Filtered :
      (d : D) (f : Arrays)
      → IsView ops js P d f
      → Filtered
          (find_and_remove_btc_check ops js aj root d)
          f
          (kept aj.anchor_range root (f check_btc_tx_ids_key))
  unfolding kept
  find_and_remove_btc_check-Filtered d f v =
      rw (start_step d (f check_btc_tx_ids_key) (v.reads check_btc_tx_ids_key of_kind))
        (loop_Filtered [] (f check_btc_tx_ids_key) d f v refl)
