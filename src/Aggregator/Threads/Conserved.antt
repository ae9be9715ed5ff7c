-- ===== src/Aggregator/Threads/Conserved.antt =====
-- No hash is lost or aggregated twice by the threads.
use chainpoint_core.Prelude.{
  ℕ, ◌+◌, Str, str_eq, length-pad, true, false, Bool-cases, inl, inr, Option, none, some, List, [],
  ◌∷◌, ◌++◌, length, ltb, ◌≡◌, refl, ap, arith, if◌then◌else◌,
}
use chainpoint_core.Types.{HashItem, AggState, Aggregation}
use chainpoint_core.Strconv.Hex.{hex_encode, hex_decode}
use chainpoint_core.Merkle.{MerkleOps, Each}
use chainpoint_core.Calendar.{OpsJson}
use chainpoint_core.Types.{OpsState}
use chainpoint_core.Aggregator.{
  drand_text, leaf_of, leaves_of, ops_of, agg_states_from, aggregation_of, process_aggregation,
}
use chainpoint_core.Aggregator.Threads.{
  Slice, Pool, queued, aggregated, consume, end_thread, Step, Reach,
}

-- How often a proof id occurs with a hash.
abbrev one : Str → Str → Str → ℕ
one id hash x = if str_eq hash [] then 0 else if str_eq x id then 1 else 0

abbrev pub in_items : Str → List HashItem → ℕ
in_items id [] = 0
in_items id (h ∷ hs) = one id h.hash h.proof_id + in_items id hs

abbrev pub in_states : Str → List AggState → ℕ
in_states id [] = 0
in_states id (s ∷ ss) = one id s.hash s.proof_id + in_states id ss

abbrev pub in_slices : Str → List Slice → ℕ
in_slices id [] = 0
in_slices id (s ∷ ss) = in_items id s + in_slices id ss

abbrev pub in_aggs : Str → List Aggregation → ℕ
in_aggs id [] = 0
in_aggs id (a ∷ as') = in_states id a.agg_states + in_aggs id as'

-- Every id that was added with a hash is as often in the queues, in the slices and in the aggregations taken.
abbrev pub Conserved : Pool → Type 0
Conserved p =
    (id : Str)
    → in_items id p.hashes
        + in_slices id p.slices
        + in_aggs id p.aggregations
        + in_aggs id p.collected
      ≡ in_items id p.accepted

-- The length of the hashes, and of the leaves of a batch.
abbrev pub IsHash : Str → Type 0
IsHash s = length s ≡ 32

module _ (id : Str) where
  items-append : (a b : List HashItem) → in_items id (a ++ b) ≡ in_items id a + in_items id b
  items-append [] b = omega arith
  items-append (x ∷ a) b = omega (arith, items-append a b)

  slices-append : (a b : List Slice) → in_slices id (a ++ b) ≡ in_slices id a + in_slices id b
  slices-append [] b = omega arith
  slices-append (x ∷ a) b = omega (arith, slices-append a b)

  aggs-append : (a b : List Aggregation) → in_aggs id (a ++ b) ≡ in_aggs id a + in_aggs id b
  aggs-append [] b = omega arith
  aggs-append (x ∷ a) b = omega (arith, aggs-append a b)

module _ (mt : MerkleOps) (js : OpsJson) (sha : Str → Str) (batch_size : ℕ)
    (encodes : (ops : OpsState) → (t : Str) × (js.encode ops ≡ some t))
    (sized : (s : Str) → length (sha s) ≡ 32)
    (rooted : (l : Str) (ls : List Str)
      → Each IsHash (l ∷ ls)
      → str_eq (mt.root (l ∷ ls)) [] ≡ false) where
  states_of :
      (id drand agg_id agg_root : Str) (leaves : List Str) (i : ℕ) (hs : List HashItem)
      → in_states id (agg_states_from mt js drand agg_id agg_root leaves i hs) ≡ in_items id hs
  unfolding agg_states_from
  states_of id drand agg_id agg_root leaves i [] = refl
  states_of id drand agg_id agg_root leaves i (h ∷ hs) =
      let (t, e) = encodes (ops_of mt js drand leaves i) in
      rw (agg_states_from, e)
        (ap (λ n. one id h.hash h.proof_id + n)
          (states_of id drand agg_id agg_root leaves (i + 1) hs))

  -- A batch with an id has a state for each hash, and a root.
  batch_states :
      (id drand ulid : Str) (h : HashItem) (hs : List HashItem)
      → in_states id (process_aggregation mt js sha drand (some ulid) (h ∷ hs)).agg_states
        ≡ in_items id (h ∷ hs)
  unfolding process_aggregation aggregation_of
  batch_states id drand ulid h hs =
      states_of id drand ulid (hex_encode (mt.root (leaves_of sha drand (h ∷ hs))))
        (leaves_of sha drand (h ∷ hs)) 0 (h ∷ hs)

  encoded_root : (r : Str) → str_eq r [] ≡ false → str_eq (hex_encode r) [] ≡ false
  unfolding hex_encode str_eq
  encoded_root [] e = e
  encoded_root (b ∷ bs) e = refl

  leaf_of-IsHash : (drand hash : Str) → IsHash (leaf_of sha drand hash)
  unfolding leaf_of
  leaf_of-IsHash drand hash = elim (Bool-cases (str_eq drand [])) [
    | inl e ↦ rw e (length-pad 32 (hex_decode hash).0)
    | inr e ↦ rw e (sized (drand_text drand ++ (hex_decode hash).0))
  ]

  leaves_of-IsHash : (drand : Str) (hs : List HashItem) → Each IsHash (leaves_of sha drand hs)
  unfolding leaves_of
  leaves_of-IsHash drand [] = tt
  leaves_of-IsHash drand (h ∷ hs) = (leaf_of-IsHash drand h.hash, leaves_of-IsHash drand hs)

  batch_root :
      (drand ulid : Str) (h : HashItem) (hs : List HashItem)
      → str_eq (process_aggregation mt js sha drand (some ulid) (h ∷ hs)).agg_root [] ≡ false
  unfolding process_aggregation aggregation_of leaves_of
  batch_root drand ulid h hs =
      encoded_root (mt.root (leaves_of sha drand (h ∷ hs))) (
        rooted (leaf_of sha drand h.hash) (leaves_of sha drand hs)
          (leaves_of-IsHash drand (h ∷ hs)))

  end_thread_lem :
      (id drand ulid : Str) (slice : Slice)
      → in_aggs id (queued (end_thread mt js sha batch_size drand (some ulid) slice))
        ≡ in_items id slice
  unfolding end_thread
  end_thread_lem id drand ulid [] = refl
  end_thread_lem id drand ulid (h ∷ hs) =
      rw (end_thread, batch_root drand ulid h hs) (omega (arith, batch_states id drand ulid h hs))

  -- What a list keeps and what it gives away, together.
  abbrev Splits : Str → Slice × Option Aggregation → Slice → Type 0
  Splits id r slice = in_items id r.0 + in_aggs id (queued r.1) ≡ in_items id slice

  aggregated_lem :
      (id drand : Str) (ulid : Option Str) (more : Slice)
      → Splits id
          (aggregated mt js sha batch_size more (process_aggregation mt js sha drand ulid more))
          more
  unfolding process_aggregation str_eq
  aggregated_lem id drand ulid [] = refl
  aggregated_lem id drand none (h ∷ hs) = omega arith
  aggregated_lem id drand (some u) (h ∷ hs) =
      rw (batch_root drand u h hs) (omega (arith, batch_states id drand u h hs))

  no_hash : (id : Str) (item : HashItem) → str_eq item.hash [] ≡ true → in_items id (item ∷ []) ≡ 0
  no_hash id item e = rw e refl

  consume_lem :
      (id drand : Str) (ulid : Option Str) (item : HashItem) (slice : Slice)
      → Splits id (consume mt js sha batch_size drand ulid item slice) (slice ++ item ∷ [])
  unfolding consume
  consume_lem id drand ulid item slice = elim (Bool-cases (str_eq item.hash [])) [
    | inl e ↦ rw e (omega (arith, items-append id slice (item ∷ []), no_hash id item e))
    | inr e ↦ elim (Bool-cases (ltb batch_size (length (slice ++ item ∷ [])))) [
      | inl full ↦ rw (e, full) (aggregated_lem id drand ulid (slice ++ item ∷ []))
      | inr room ↦ rw (e, room) (omega arith)
    ]
  ]

  step-Conserved : (p q : Pool) → Step mt js sha batch_size p q → Conserved p → Conserved q
  step-Conserved p q (Step.added _ item) c = λ id.
      omega
        (arith, c id, items-append id p.hashes (item ∷ []), items-append id p.accepted (item ∷ []))
  step-Conserved p q (Step.taken drand ulid item rest before after slice aggs collected accepted)
        c =
      λ id.
        let (left, agg) = consume mt js sha batch_size drand ulid item slice in
        omega (
          arith,
          c id,
          slices-append id before (slice ∷ after),
          slices-append id before (left ∷ after),
          aggs-append id aggs (queued agg),
          items-append id slice (item ∷ []),
          consume_lem id drand ulid item slice,
        )
  step-Conserved p q (Step.ended drand ulid hashes before after slice aggs collected accepted) c =
      λ id. omega (
        arith,
        c id,
        slices-append id before (slice ∷ after),
        slices-append id before after,
        aggs-append id aggs (queued (end_thread mt js sha batch_size drand (some ulid) slice)),
        end_thread_lem id drand ulid slice,
      )
  step-Conserved p q (Step.begun _) c = λ id. omega (arith, c id)
  step-Conserved p q (Step.reset _) c =
      λ id. omega (arith, c id, aggs-append id p.collected p.aggregations)

  -- When JSON holds every list of operations, the hash function makes 32 bytes and no tree of leaves
  -- of 32 bytes has an empty root, then in every order of steps of the threads, of AddHashItem and of
  -- AggregateAndReset on an open channel, in which an ending thread has an id for its batch, each proof
  -- id stands, with a hash that is not empty, as often in the queues, in the threads' slices and in
  -- the aggregations taken as it was added with one: no such hash is lost, and none is aggregated
  -- twice. Items with an empty hash may be added, and are not counted.
  pub Reach-Conserved : (p q : Pool) → Reach mt js sha batch_size p q → Conserved p → Conserved q
  Reach-Conserved p q (Reach.here _) c = c
  Reach-Conserved p q (Reach.then_step _ r _ before s) c =
      step-Conserved r q s (Reach-Conserved p r before c)
