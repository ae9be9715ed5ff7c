-- ===== src/TxRateLimiter/Bucket.antt =====
-- What the token bucket of `RateLimitUpdate`, `IsHabitualViolator` and `UpdateAcceptTx` guarantees.
use chainpoint_core.Prelude.{
  ℕ, suc, ◌^◌, ◌≤◌, ◌<◌, ℤ, pos, negsuc, IsInt64, true, false, ◌≡◌, ◌≢◌, refl, arith, sub64, wrap64,
  wrap64-IsInt64, ◌-ℤ◌, Bool-cases, inl, inr, subst, sym, ap, ◌∙◌,
}
use chainpoint_core.Types.{RateLimit}
use chainpoint_core.FloatOps.{FloatOps, FloatLaws, IsNan, IsFinite}
use chainpoint_core.TxRateLimiter.{rate_limit_update, is_habitual_violator, update_accept_tx}

-- After any update the bucket does not exceed the allowed rate, whatever it held and whatever time
-- has passed.
pub rate_limit_update_capped :
    (fl : FloatOps) (laws : FloatLaws fl) (h : ℤ) (limit : RateLimit)
    → fl.lt (fl.of_int64 limit.allowed_rate) (rate_limit_update fl h limit).bucket ≡ false
unfolding rate_limit_update
rate_limit_update_capped fl laws h limit =
    ground (arith, laws.lt_irrefl (fl.of_int64 limit.allowed_rate))

-- A limit with a numeric bucket, an allowed rate of `a` and a period that is not 0.
pub record IsLimit (a : ℕ) (limit : RateLimit) : Type 0 where
  pub allowed : limit.allowed_rate ≡ pos a
  pub small : a < 2 ^ 23
  pub period : limit.per_blocks ≢ pos 0
  pub period_int64 : IsInt64 limit.per_blocks
  pub number : ¬ IsNan limit.bucket

-- The bucket is a number, and holds at most `n` tokens.
pub record AtMost (fl : FloatOps) (n : ℕ) (x : ℕ) : Type 0 where
  pub number : ¬ IsNan x
  pub le : fl.lt (fl.of_int64 (pos n)) x ≡ false

sub64_self : (h : ℤ) → sub64 h h ≡ pos 0
unfolding sub64 wrap64 ◌-ℤ◌
sub64_self (pos n) = ground arith
sub64_self (negsuc n) = ground arith

sub64-IsInt64 : (a b : ℤ) → IsInt64 (sub64 a b)
unfolding sub64
sub64-IsInt64 a b = wrap64-IsInt64 (a -ℤ b)

pos-IsInt64 : (n : ℕ) → n < 2 ^ 23 → IsInt64 (pos n)
pos-IsInt64 n h = omega arith

module _ (fl : FloatOps) (laws : FloatLaws fl) (a : ℕ) (h : ℤ) (limit : RateLimit)
    (ok : IsLimit a limit) where
  allowed-IsInt64 : IsInt64 limit.allowed_rate
  allowed-IsInt64 = subst IsInt64 (sym ok.allowed) (pos-IsInt64 a ok.small)

  -- The tokens that come in over `d` blocks.
  abbrev refill : ℤ → ℕ
  refill d =
      fl.mul (fl.of_int64 d)
        (fl.div (fl.of_int64 limit.allowed_rate) (fl.of_int64 limit.per_blocks))

  refill-IsFinite : (d : ℤ) → IsInt64 d → IsFinite (refill d)
  refill-IsFinite d hd =
      laws.refill_finite d limit.allowed_rate limit.per_blocks hd allowed-IsInt64 ok.period_int64
        ok.period

  abbrev filled : ℕ
  filled = fl.add limit.bucket (refill (sub64 h limit.last_check))

  update_bucket :
      (P : ℕ → Type 0)
      → (fl.lt (fl.of_int64 limit.allowed_rate) filled ≡ true → P (fl.of_int64 limit.allowed_rate))
      → (fl.lt (fl.of_int64 limit.allowed_rate) filled ≡ false → P filled)
      → P (rate_limit_update fl h limit).bucket
  unfolding rate_limit_update
  update_bucket P p q = elim (Bool-cases (fl.lt (fl.of_int64 limit.allowed_rate) filled)) [
    | inl e ↦ rw e (p e)
    | inr e ↦ rw e (q e)
  ]

  update_number : ¬ IsNan (rate_limit_update fl h limit).bucket
  update_number =
      update_bucket (λ x. ¬ IsNan x)
        (λ _. let f = laws.of_int64_finite limit.allowed_rate allowed-IsInt64 in omega arith)
        (λ _.
          laws.add_not_nan limit.bucket (refill (sub64 h limit.last_check)) ok.number
            (refill-IsFinite (sub64 h limit.last_check) (sub64-IsInt64 h limit.last_check)))

  -- After an update a limit holds at most its allowed rate.
  pub update-AtMost : AtMost fl a (rate_limit_update fl h limit).bucket
  update-AtMost = record {
    number = update_number;
    le =
        subst (λ x. fl.lt (fl.of_int64 x) (rate_limit_update fl h limit).bucket ≡ false) ok.allowed
          (rate_limit_update_capped fl laws h limit);
  }

  pub update-IsLimit : IsLimit a (rate_limit_update fl h limit)
  unfolding rate_limit_update
  update-IsLimit = record {
    allowed = ok.allowed;
    small = ok.small;
    period = ok.period;
    period_int64 = ok.period_int64;
    number = update_number;
  }

  filled_again :
      (m : ℕ)
      → limit.last_check ≡ h
      → fl.lt (fl.of_int64 (pos m)) limit.bucket ≡ false
      → fl.lt (fl.of_int64 (pos m)) filled ≡ false
  filled_again m e b =
      subst (λ d. fl.lt (fl.of_int64 (pos m)) (fl.add limit.bucket (refill d)) ≡ false)
        (sym (sub64_self h) ∙ ap (sub64 h) (sym e))
        (laws.no_refill m limit.bucket limit.allowed_rate limit.per_blocks allowed-IsInt64
          ok.period_int64 ok.period b)

  -- A second update at one height adds nothing.
  pub update_again :
      (m : ℕ)
      → m ≤ a
      → limit.last_check ≡ h
      → AtMost fl m limit.bucket
      → AtMost fl m (rate_limit_update fl h limit).bucket
  update_again m le e b = record {
    number = update_number;
    le =
        let f = filled_again m e b.le in
        update_bucket (λ x. fl.lt (fl.of_int64 (pos m)) x ≡ false)
          (λ over.
            let under = laws.lt_of_le m a filled le f in
            cc (subst (λ x. fl.lt (fl.of_int64 x) filled ≡ true) ok.allowed over))
          (λ _. f);
  }

-- After the refill of height `h` the limit has at most `n` tokens.
pub record Holds (fl : FloatOps) (a n : ℕ) (h : ℤ) (limit : RateLimit) : Type 0 where
  pub limit_ok : IsLimit a limit
  pub within : n ≤ a
  pub tokens : AtMost fl n (rate_limit_update fl h limit).bucket

module _ (fl : FloatOps) (laws : FloatLaws fl) (a : ℕ) (h : ℤ) (limit : RateLimit) where
  update_last_check : (rate_limit_update fl h limit).last_check ≡ h
  unfolding rate_limit_update
  update_last_check = refl

  accepted : RateLimit
  accepted = update_accept_tx fl (rate_limit_update fl h limit)

  accepted_last_check : accepted.last_check ≡ h
  unfolding accepted update_accept_tx rate_limit_update
  accepted_last_check = refl

  accepted-IsLimit : IsLimit a limit → IsLimit a accepted
  unfolding accepted update_accept_tx
  accepted-IsLimit ok =
      let u = update-IsLimit fl laws a h limit ok in
      record {
        allowed = u.allowed;
        small = u.small;
        period = u.period;
        period_int64 = u.period_int64;
        number = laws.sub_one_not_nan (rate_limit_update fl h limit).bucket u.number;
      }

  accepted-AtMost :
      (n : ℕ)
      → n < 2 ^ 23
      → AtMost fl (suc n) (rate_limit_update fl h limit).bucket
      → AtMost fl n accepted.bucket
  unfolding accepted update_accept_tx
  accepted-AtMost n small b = record {
    number = laws.sub_one_not_nan (rate_limit_update fl h limit).bucket b.number;
    le = laws.sub_one_le n (rate_limit_update fl h limit).bucket small b.le;
  }

  -- A refused transaction leaves the tokens of the height as they are.
  pub Holds-refused : (n : ℕ) → Holds fl a n h limit → Holds fl a n h (rate_limit_update fl h limit)
  Holds-refused n holds =
      let u = update-IsLimit fl laws a h limit holds.limit_ok in
      record {
        limit_ok = u;
        within = holds.within;
        tokens =
            update_again fl laws a h (rate_limit_update fl h limit) u n holds.within
              update_last_check holds.tokens;
      }

  -- An accepted transaction takes a token of the height.
  pub Holds-accepted :
      (n : ℕ)
      → Holds fl a (suc n) h limit
      → Holds fl a n h (update_accept_tx fl (rate_limit_update fl h limit))
  unfolding accepted
  Holds-accepted n holds =
      let ok = accepted-IsLimit holds.limit_ok in
      let small = holds.limit_ok.small in
      let within = holds.within in
      record {
        limit_ok = ok;
        within = omega arith;
        tokens =
            update_again fl laws a h accepted ok n (omega arith) accepted_last_check
              (accepted-AtMost n (omega arith) holds.tokens);
      }

  -- With no token left the core is a habitual violator.
  pub Holds-zero :
      Holds fl a 0 h limit → is_habitual_violator fl (rate_limit_update fl h limit) ≡ true
  unfolding is_habitual_violator
  Holds-zero holds =
      laws.lt_one (rate_limit_update fl h limit).bucket holds.tokens.number holds.tokens.le
