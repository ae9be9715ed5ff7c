-- ===== src/LeaderElection/Peers.antt =====
-- The election among peers of leaderelection/tmleader.go, and util.DetermineIP.
use chainpoint_core.Prelude.{
  ℕ, suc, ℤ, Str, str, Bool, true, ◌&&◌, ◌||◌, Option, none, some, List, [], ◌∷◌, ◌++◌, map,
  contains, str_eq, leb, ◌==◌, take, drop, if◌then◌else◌, Run, returns, panics, ◌>>=◌,
}
use chainpoint_core.Types.{AnchorState, Peer, TmStatus}
use chainpoint_core.Sorting.{str_leb, sort}
use chainpoint_core.LeaderElection.{Election, is_listed, announce, no_leader}

-- strings.Index and strings.LastIndex of one byte; -1 is `none`.
unfoldable pub index : ℕ → Str → Option ℕ
index c [] = none
index c (x ∷ xs) =
    let rest = index c xs in
    if x == c then some 0 else elim rest [ none ↦ none | some i ↦ some (suc i) ]

unfoldable pub last_index : ℕ → Str → Option ℕ
last_index c [] = none
last_index c (x ∷ xs) = elim (last_index c xs) [
  | some i ↦ some (suc i)
  | none ↦ if x == c then some 0 else none
]

-- `s[:i]` and `s[i:j]`, which panic on -1 and on i > j
abbrev slice_to : Str → Option ℕ → Run Str
slice_to s none = panics
slice_to s (some j) = returns (take j s)

abbrev slice : Str → Option ℕ → Option ℕ → Run Str
slice s (some i) (some j) = if leb i j then returns (drop i (take j s)) else panics
slice s _ _ = panics

abbrev listen_host : Str → Run Str
listen_host [] = returns []
listen_host (c ∷ cs) =
    let addr = c ∷ cs in
    if contains addr (str "//") && contains addr (str ":")
    then slice addr (last_index b'/' addr) (last_index b':' addr)
    else slice_to addr (last_index b':' addr)

abbrev is_private : Str → Bool
is_private octet = str_eq octet (str "10") || (str_eq octet (str "172") || str_eq octet (str "192"))

-- DetermineIP
unfoldable pub determine_ip : Peer → Run Str
unfolding index last_index
determine_ip peer = slice_to peer.remote_ip (index b'.' peer.remote_ip) >>= λ octet.
    if is_private octet then listen_host peer.listen_addr else returns peer.remote_ip

-- The loop that fills the array of nodes. The code also writes the address back into the list it
-- reads, which is left out.
unfoldable pub with_ips : List Peer → Run (List Peer)
unfolding determine_ip
with_ips [] = returns []
with_ips (p ∷ peers) =
    determine_ip p >>= λ ip. with_ips peers >>= λ rest. returns (record p { remote_ip = ip } ∷ rest)

abbrev self_peer : TmStatus → Peer
self_peer status = record {
  id = status.node_id;
  remote_ip = str "127.0.0.1";
  listen_addr = status.listen_addr;
}

-- `a.ID() > b.ID()`, as the order of the sort
abbrev id_geb : Peer → Peer → Bool
id_geb a b = str_leb b.id a.id

-- GetSortedPeerList
unfoldable pub get_sorted_peer_list : TmStatus → List Peer → Run (List Peer)
unfolding with_ips
get_sorted_peer_list status peers =
    with_ips peers >>= λ nodes. returns (sort id_geb (nodes ++ self_peer status ∷ []))

-- GetPeers
unfoldable pub get_peers : AnchorState → TmStatus → List Peer → Run (List Peer)
unfolding get_sorted_peer_list
get_peers state status peers =
    if str_eq state.id [] then returns [] else get_sorted_peer_list status peers

unfoldable pub allowed_peers : List Str → List Peer → List Peer
allowed_peers blacklist [] = []
allowed_peers blacklist (p ∷ ps) =
    let rest = allowed_peers blacklist ps in if is_listed blacklist p.id then rest else p ∷ rest

abbrev ids_of : Option (List Peer) → Option (List Str)
ids_of none = none
ids_of (some ps) = some (map (λ p. p.id) ps)

module _ (el : Election) where
  -- determineLeader; a node without peers leads.
  unfoldable pub determine_leader : ℤ → List Str → TmStatus → List Peer → Run (Bool × List Str)
  unfolding get_sorted_peer_list allowed_peers
  determine_leader num_leaders blacklist status [] = returns (true, status.node_id ∷ [])
  determine_leader num_leaders blacklist status (p ∷ ps) =
      get_sorted_peer_list status (p ∷ ps) >>= λ nodes. returns (
        announce status.node_id status.catching_up (
          ids_of
            (el.elect_peers (allowed_peers blacklist nodes) num_leaders status.latest_block_hash)))

  -- ElectPeerAsLeader
  unfoldable pub elect_peer_as_leader : ℤ → List Str → AnchorState → Run (Bool × List Str)
  unfolding determine_leader
  elect_peer_as_leader num_leaders blacklist state =
      if str_eq state.id []
      then returns no_leader
      else determine_leader num_leaders blacklist state.tm_state state.tm_net_info
