-- ===== src/Anchor/Confirm/Removal.antt =====
-- Lists of stored texts of which some are taken out one by one, each with its first occurrence, as
-- MonitorConfirmedTx (anchor/bitcoin/bitcoinanchor.go) does.
use chainpoint_core.Prelude.{
  ℕ, suc, ◌≤◌, Str, str_eq, str_eq_iff, str_eq_refl, Bool, true, false, not, Bool-cases, inl, inr,
  List, [], ◌∷◌, ◌≡◌, refl, ap, subst, ◌∙◌, arith, if◌then◌else◌,
}
use chainpoint_core.LevelDb.KvStore.{remove_first}
use chainpoint_core.Merkle.{Each}

-- The texts that a test holds of.
abbrev pub select : (Str → Bool) → List Str → List Str
select p [] = []
select p (s ∷ ss) = if p s then s ∷ select p ss else select p ss

abbrev pub count : Str → List Str → ℕ
count t [] = 0
count t (s ∷ ss) = if str_eq s t then suc (count t ss) else count t ss

module _ (gone : Str → Bool) where
  abbrev pub stays : Str → Bool
  stays s = not (gone s)

  -- No text that goes is in the list more often than in another.
  abbrev pub Covered : List Str → List Str → Type 0
  Covered l ss = (t : Str) → gone t ≡ true → count t l ≤ count t ss

  differs : (s t : Str) → gone s ≡ false → gone t ≡ true → str_eq s t ≡ false
  differs s t n h = elim (Bool-cases (str_eq s t)) [
    | inl e ↦ absurd (let q = ap gone ((str_eq_iff s t).0 e) in cc)
    | inr e ↦ e
  ]

  pub select-remove_first :
      (s : Str) (l : List Str) → gone s ≡ true → select stays (remove_first s l) ≡ select stays l
  unfolding remove_first
  select-remove_first s [] h = refl
  select-remove_first s (x ∷ l) h = elim (Bool-cases (str_eq x s)) [
    | inl e ↦ rw (e, ap gone ((str_eq_iff x s).0 e) ∙ h) refl
    | inr e ↦ elim (Bool-cases (gone x)) [
      | inl g ↦ rw (e, g) (select-remove_first s l h)
      | inr g ↦ rw (e, g) (ap (◌∷◌ x) (select-remove_first s l h))
    ]
  ]

  count-removed :
      (s : Str) (l : List Str) (n : ℕ) → count s l ≤ suc n → count s (remove_first s l) ≤ n
  unfolding remove_first
  count-removed s [] n h = omega arith
  count-removed s (x ∷ l) n h = elim (Bool-cases (str_eq x s)) [
    | inl e ↦ rw e (let k : suc (count s l) ≤ suc n = rw e at h in omega (arith, k))
    | inr e ↦ rw (e, e) (count-removed s l n (rw e at h))
  ]

  count_less : (t x : Str) (l : List Str) → count t l ≤ count t (x ∷ l)
  count_less t x l = ground arith

  count-others : (t s : Str) (l : List Str) → count t (remove_first s l) ≤ count t l
  unfolding remove_first
  count-others t s [] = omega arith
  count-others t s (x ∷ l) = elim (Bool-cases (str_eq x s)) [
    | inl e ↦ rw e (count_less t x l)
    | inr e ↦ elim (Bool-cases (str_eq x t)) [
      | inl f ↦ rw (e, f) (omega (arith, count-others t s l))
      | inr f ↦ rw (e, f) (count-others t s l)
    ]
  ]

  -- Removing one occurrence keeps pace with a step of the loop.
  pub Covered-remove_first :
      (s : Str) (l ss : List Str) → Covered l (s ∷ ss) → Covered (remove_first s l) ss
  unfolding remove_first
  Covered-remove_first s l ss c = λ t g. elim (Bool-cases (str_eq s t)) [
    | inl e ↦
        let q = (str_eq_iff s t).0 e in
        subst (λ x. count x (remove_first s l) ≤ count x ss) q
          (count-removed s l (count s ss) (let k = c s (ap gone q ∙ g) in rw (str_eq_refl s) at k))
    | inr e ↦ let k = c t g in omega (arith, count-others t s l, (rw e at k))
  ]

  pub Covered-again : (s : Str) (l ss : List Str) → Covered l ss → Covered (remove_first s l) ss
  Covered-again s l ss c = λ t g. omega (arith, count-others t s l, c t g)

  pub Covered-skip :
      (s : Str) (l ss : List Str) → gone s ≡ false → Covered l (s ∷ ss) → Covered l ss
  Covered-skip s l ss n c = λ t g. let k = c t g in (rw (differs s t n g) at k)

  pub select_all : (l : List Str) → Covered l [] → select stays l ≡ l
  select_all [] c = refl
  select_all (x ∷ l) c = elim (Bool-cases (gone x)) [
    | inl g ↦ absurd (let k = c x g in let q = rw (str_eq_refl x) at k in omega (arith, q))
    | inr g ↦ rw g (ap (◌∷◌ x) (select_all l (λ t h. omega (arith, c t h, count_less t x l))))
  ]

pub select-same :
    (p q : Str → Bool) (l : List Str) → Each (λ s. p s ≡ q s) l → select p l ≡ select q l
select-same p q [] e = refl
select-same p q (s ∷ l) (e, es) = elim (Bool-cases (q s)) [
  | inl k ↦ rw (e, k) (ap (◌∷◌ s) (select-same p q l es))
  | inr k ↦ rw (e, k) (select-same p q l es)
]
