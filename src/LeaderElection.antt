-- ===== src/LeaderElection.antt =====
-- leaderelection/tmleader.go: the leaders among the cores that contributed to the chain, and among the
-- validators. The choice itself is the library seededelection, a parameter.
pub mod Deterministic
pub mod Peers
pub mod Leads
use chainpoint_core.Prelude.{
  ℤ, pos, Str, keys, Bool, true, false, not, ◌&&◌, ◌||◌, Option, none, some, List, [], ◌∷◌, map,
  str_eq, if◌then◌else◌,
}
use chainpoint_core.Types.{AnchorState, AnchorConfig, Validator, Peer}
use chainpoint_core.TxRateLimiter.{get_last_n_submitters, any_address}
use chainpoint_core.Sorting.{str_leb, sort, sort_strings}

-- seededelection.ElectLeaders on strings and on validators: the candidates, how many to choose, and
-- the seed; nil is `none`.
pub record Election : Type 0 where
  pub elect_strings : List Str → ℤ → Str → Option (List Str)
  pub elect_validators : List Validator → ℤ → Str → Option (List Validator)
  pub elect_peers : List Peer → ℤ → Str → Option (List Peer)

-- The inner loop over the blacklist.
unfoldable pub is_listed : List Str → Str → Bool
is_listed [] k = false
is_listed (id ∷ ids) k = str_eq k id || is_listed ids k

-- The keys that are not blacklisted.
unfoldable pub allowed_keys : List Str → List Str → List Str
unfolding is_listed
allowed_keys blacklist [] = []
allowed_keys blacklist (k ∷ ks) =
    let rest = allowed_keys blacklist ks in if is_listed blacklist k then rest else k ∷ rest

-- The loop that looks for this node among the leaders.
unfoldable pub i_am_leader : Str → Bool → List Str → Bool
i_am_leader own catching_up [] = false
i_am_leader own catching_up (leader ∷ rest) =
    (str_eq leader own && not catching_up) || i_am_leader own catching_up rest

abbrev pub no_leader : Bool × List Str
no_leader = (false, [])

abbrev pub announce : Str → Bool → Option (List Str) → Bool × List Str
announce own catching_up none = no_leader
announce own catching_up (some leaders) = (i_am_leader own catching_up leaders, leaders)

module _ (el : Election) where
  abbrev pub elect_sorted : ℤ → AnchorState → List Str → Bool × List Str
  elect_sorted num_leaders state [] = no_leader
  elect_sorted num_leaders state (k ∷ ks) =
      announce state.id state.tm_state.catching_up
        (el.elect_strings (k ∷ ks) num_leaders state.tm_state.latest_block_hash)

  -- The part that both elections of contributors share: `contributors` are the keys of a map, in the
  -- order in which the range statement visits them.
  unfoldable pub elect_among : ℤ → List Str → AnchorState → List Str → Bool × List Str
  elect_among num_leaders blacklist state contributors =
      elect_sorted num_leaders state (sort_strings (allowed_keys blacklist contributors))

  -- ElectChainContributorAsLeaderNaive
  unfoldable pub elect_chain_contributor_as_leader_naive :
      ℤ → List Str → AnchorState → Bool × List Str
  unfolding elect_among
  elect_chain_contributor_as_leader_naive num_leaders blacklist state =
      if str_eq state.id []
      then no_leader
      else elect_among num_leaders blacklist state (keys state.core_keys)

  -- ElectChainContributorAsLeader
  unfoldable pub elect_chain_contributor_as_leader : ℤ → List Str → AnchorState → Bool × List Str
  unfolding elect_among
  elect_chain_contributor_as_leader num_leaders blacklist state =
      if str_eq state.id []
      then no_leader
      else elect_among num_leaders blacklist state (keys (get_last_n_submitters (pos 128) state))

  -- `a.Address.String() > b.Address.String()`, as the order of the sort
  abbrev pub address_geb : Validator → Validator → Bool
  address_geb a b = str_leb b.address a.address

  -- GetSortedValidatorList
  unfoldable pub get_sorted_validator_list : List Validator → List Validator
  get_sorted_validator_list = sort address_geb

  unfoldable pub allowed_validators : List Str → List Validator → List Validator
  unfolding is_listed
  allowed_validators blacklist [] = []
  allowed_validators blacklist (v ∷ vs) =
      let rest = allowed_validators blacklist vs in
      if is_listed blacklist v.address then rest else v ∷ rest

  abbrev addresses : Option (List Validator) → Option (List Str)
  addresses none = none
  addresses (some vs) = some (map (λ v. v.address) vs)

  abbrev pub elect_allowed : ℤ → Str → Bool → Str → List Validator → Bool × List Str
  elect_allowed num_leaders seed catching_up address [] = no_leader
  elect_allowed num_leaders seed catching_up address (v ∷ vs) =
      announce address catching_up (addresses (el.elect_validators (v ∷ vs) num_leaders seed))

  -- determineValidatorLeader; the filter of an empty list is empty, so one test serves for both.
  unfoldable pub determine_validator_leader :
      ℤ → List Str → Bool → List Validator → Str → Str → Bool × List Str
  unfolding get_sorted_validator_list allowed_validators
  determine_validator_leader num_leaders blacklist catching_up validators seed address =
      elect_allowed num_leaders seed catching_up address
        (allowed_validators blacklist (get_sorted_validator_list validators))

  -- ElectValidatorAsLeader
  unfoldable pub elect_validator_as_leader :
      ℤ → List Str → AnchorState → AnchorConfig → Bool × List Str
  unfolding determine_validator_leader
  elect_validator_as_leader num_leaders blacklist state config =
      if str_eq state.id []
      then no_leader
      else determine_validator_leader num_leaders blacklist state.tm_state.catching_up
          state.validators state.tm_state.latest_block_hash config.file_pv_address

-- AmValidator: the answer, and whether the status is there
unfoldable pub am_validator : AnchorState → Bool × Bool
am_validator state =
    if str_eq state.id []
    then (false, true)
    else (any_address state.tm_state.validator_address state.validators, false)
