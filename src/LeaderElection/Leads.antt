-- ===== src/LeaderElection/Leads.antt =====
-- When a node says that it leads.
use chainpoint_core.Prelude.{
  ℤ, Str, str_eq, str_eq_iff, Bool, false, not, ◌&&◌, Option, none, some, List, [], ◌∷◌, ◌≡◌, arith,
  Bool-cases, inl, inr,
}
use chainpoint_core.Types.{AnchorState, AnchorConfig, Validator}
use chainpoint_core.LeaderElection.{
  Election, is_listed, i_am_leader, announce, elect_sorted, elect_among, elect_allowed,
  determine_validator_leader, elect_chain_contributor_as_leader_naive,
  elect_chain_contributor_as_leader, elect_validator_as_leader,
}

-- The node is among the leaders, and is not catching up.
abbrev pub leads : Str → Bool → Bool × List Str → Bool
leads own catching_up r = not catching_up && is_listed r.1 own

i_am_leader-leads :
    (own : Str) (c : Bool) (l : List Str) → i_am_leader own c l ≡ (not c && is_listed l own)
unfolding i_am_leader is_listed
i_am_leader-leads own c [] = ground arith
i_am_leader-leads own c (x ∷ l) =
    ground (arith, i_am_leader-leads own c l, str_eq_iff x own, str_eq_iff own x)

announce-leads :
    (own : Str) (c : Bool) (r : Option (List Str))
    → (announce own c r).0 ≡ leads own c (announce own c r)
unfolding is_listed
announce-leads own c none = ground arith
announce-leads own c (some l) = i_am_leader-leads own c l

no_leader-leads : (own : Str) (c : Bool) → false ≡ leads own c (false, [])
unfolding is_listed
no_leader-leads own c = ground arith

module _ (el : Election) where
  elect_sorted-leads :
      (n : ℤ) (s : AnchorState) (l : List Str)
      → (elect_sorted el n s l).0 ≡ leads s.id s.tm_state.catching_up (elect_sorted el n s l)
  elect_sorted-leads n s [] = no_leader-leads s.id s.tm_state.catching_up
  elect_sorted-leads n s (k ∷ l) = announce-leads s.id s.tm_state.catching_up _

  elect_allowed-leads :
      (n : ℤ) (seed : Str) (c : Bool) (own : Str) (l : List Validator)
      → (elect_allowed el n seed c own l).0 ≡ leads own c (elect_allowed el n seed c own l)
  elect_allowed-leads n seed c own [] = no_leader-leads own c
  elect_allowed-leads n seed c own (v ∷ l) = announce-leads own c _

  -- In each of the three elections a node says that it leads exactly when it is among the leaders that
  -- it announces and is not catching up: by its id among contributors, by its address among validators.
  pub elections-leads :
      (n : ℤ) (blacklist : List Str) (s : AnchorState) (config : AnchorConfig)
      → let c = s.tm_state.catching_up in
        let naive = elect_chain_contributor_as_leader_naive el n blacklist s in
        let recent = elect_chain_contributor_as_leader el n blacklist s in
        let validator = elect_validator_as_leader el n blacklist s config in
        (naive.0 ≡ leads s.id c naive)
        × (recent.0 ≡ leads s.id c recent)
        × (validator.0 ≡ leads config.file_pv_address c validator)
  unfolding elect_chain_contributor_as_leader_naive elect_chain_contributor_as_leader
      elect_validator_as_leader elect_among determine_validator_leader
  elections-leads n blacklist s config =
      let c = s.tm_state.catching_up in
      elim (Bool-cases (str_eq s.id [])) [
        | inl e ↦ rw e (
          no_leader-leads s.id c,
          no_leader-leads s.id c,
          no_leader-leads config.file_pv_address c,
        )
        | inr e ↦ rw e (
          elect_sorted-leads n s _,
          elect_sorted-leads n s _,
          elect_allowed-leads n s.tm_state.latest_block_hash c config.file_pv_address _,
        )
      ]
