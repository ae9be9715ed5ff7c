-- ===== src/Tests/Leaders.antt =====
-- The election of leaders at work.
use mathlib.Core.List.{Perm, Permᴰ}
use chainpoint_core.Prelude.{Bool, Str, List, pos, str, str_eq, keys, false, [], ◌∷◌, ◌≡◌, refl}
use chainpoint_core.Types.{AnchorState}
use chainpoint_core.LeaderElection.{
  elect_among, elect_chain_contributor_as_leader_naive, elect_chain_contributor_as_leader,
  elect_validator_as_leader,
}
use chainpoint_core.LeaderElection.Leads.{leads, elections-leads}
use chainpoint_core.LeaderElection.Deterministic.{elect_among_of_perm, leaders_agree}
use chainpoint_core.Tests.Fixtures.{toy_election, toy_state, toy_key, toy_config}

-- The same cores, visited in the other order, by the core "a".
abbrev other_state : AnchorState
other_state = record toy_state {
  id = str "a";
  core_keys = (str "a", toy_key) ∷ (str "c", toy_key) ∷ [];
}

swapped : Perm (keys toy_state.core_keys) (keys other_state.core_keys)
unfolding keys
swapped = ∣ Permᴰ.swap refl refl ∣₁

elect_among_of_perm_example :
    elect_among toy_election (pos 1) [] toy_state (keys toy_state.core_keys)
    ≡ elect_among toy_election (pos 1) [] toy_state (keys other_state.core_keys)
elect_among_of_perm_example =
    elect_among_of_perm toy_election (pos 1) [] toy_state (keys toy_state.core_keys)
      (keys other_state.core_keys) swapped

toy_id : str_eq toy_state.id [] ≡ false
unfolding str_eq
toy_id = refl

other_id : str_eq other_state.id [] ≡ false
unfolding str_eq
other_id = refl

leaders_agree_example :
    (elect_chain_contributor_as_leader_naive toy_election (pos 1) [] toy_state).1
    ≡ (elect_chain_contributor_as_leader_naive toy_election (pos 1) [] other_state).1
leaders_agree_example =
    leaders_agree toy_election (pos 1) [] toy_state other_state toy_id other_id swapped refl

abbrev naive : Bool × List Str
naive = elect_chain_contributor_as_leader_naive toy_election (pos 1) [] toy_state

abbrev recent : Bool × List Str
recent = elect_chain_contributor_as_leader toy_election (pos 1) [] toy_state

abbrev by_validators : Bool × List Str
by_validators = elect_validator_as_leader toy_election (pos 1) [] toy_state toy_config

elections-leads_example :
    (naive.0 ≡ leads (str "c") false naive)
    × (recent.0 ≡ leads (str "c") false recent)
    × (by_validators.0 ≡ leads [] false by_validators)
elections-leads_example = elections-leads toy_election (pos 1) [] toy_state toy_config
