-- ===== src/Aggregator/Threads.antt =====
-- aggregator/aggregator.go: the threads of StartAggregation, which take hashes from one queue and put
-- aggregations into another, as steps in any order. The queues are in the order of goconcurrentqueue.
pub mod Conserved
use chainpoint_core.Prelude.{
  ℕ, Str, str_eq, Option, none, some, List, [], ◌∷◌, ◌++◌, length, ltb, if◌then◌else◌,
}
use chainpoint_core.Types.{HashItem, Aggregation}
use chainpoint_core.Merkle.{MerkleOps}
use chainpoint_core.Calendar.{OpsJson}
use chainpoint_core.Aggregator.{process_aggregation}

-- The hashes that a thread holds.
abbrev pub Slice : Type 0
Slice = List HashItem

-- The two queues, the slices of the threads, the aggregations that AggregateAndReset has taken, and
-- the items that were ever added.
pub record Pool : Type 0 where
  pub hashes : List HashItem
  pub slices : List Slice
  pub aggregations : List Aggregation
  pub collected : List Aggregation
  pub accepted : List HashItem

abbrev pub queued : Option Aggregation → List Aggregation
queued none = []
queued (some agg) = agg ∷ []

module _ (mt : MerkleOps) (js : OpsJson) (sha : Str → Str) (batch_size : ℕ) where
  abbrev pub aggregated : Slice → Aggregation → Slice × Option Aggregation
  aggregated slice agg = if str_eq agg.agg_root [] then (slice, none) else ([], some agg)

  -- A round of a thread on a hash: `ulid` is the id that the generator has for a batch.
  unfoldable pub consume : Str → Option Str → HashItem → Slice → Slice × Option Aggregation
  unfolding process_aggregation
  consume latest_time ulid hash slice =
      let more = slice ++ hash ∷ [] in
      if str_eq hash.hash []
      then (slice, none)
      else if ltb batch_size (length more)
      then aggregated more (process_aggregation mt js sha latest_time ulid more)
      else (more, none)

  -- The end of a thread. Hashes that cannot be aggregated are dropped.
  unfoldable pub end_thread : Str → Option Str → Slice → Option Aggregation
  unfolding process_aggregation
  end_thread latest_time ulid [] = none
  end_thread latest_time ulid (h ∷ hs) =
      (aggregated (h ∷ hs) (process_aggregation mt js sha latest_time ulid (h ∷ hs))).1

  -- What can happen next: a hash comes in, a thread takes one, a thread ends with an id for its batch,
  -- a thread begins, or AggregateAndReset, on an open channel, takes the aggregations.
  -- AddHashItem takes items without a hash too, which a thread drops.
  pub data Step : Pool → Pool → Type 0 where
    added :
        (p : Pool) (item : HashItem)
        → Step p (record p { hashes = p.hashes ++ item ∷ []; accepted = p.accepted ++ item ∷ [] })
    taken :
        (latest_time : Str) (ulid : Option Str) (item : HashItem) (rest : List HashItem)
        (before after : List Slice) (slice : Slice) (aggs collected : List Aggregation)
        (accepted : List HashItem)
        → Step
            (record {
              hashes = item ∷ rest;
              slices = before ++ slice ∷ after;
              aggregations = aggs;
              collected = collected;
              accepted = accepted;
            })
            (record {
              hashes = rest;
              slices = before ++ (consume latest_time ulid item slice).0 ∷ after;
              aggregations = aggs ++ queued (consume latest_time ulid item slice).1;
              collected = collected;
              accepted = accepted;
            })
    ended :
        (latest_time ulid : Str) (hashes : List HashItem) (before after : List Slice)
        (slice : Slice) (aggs collected : List Aggregation) (accepted : List HashItem)
        → Step
            (record {
              hashes = hashes;
              slices = before ++ slice ∷ after;
              aggregations = aggs;
              collected = collected;
              accepted = accepted;
            })
            (record {
              hashes = hashes;
              slices = before ++ after;
              aggregations = aggs ++ queued (end_thread latest_time (some ulid) slice);
              collected = collected;
              accepted = accepted;
            })
    begun : (p : Pool) → Step p (record p { slices = [] ∷ p.slices })
    reset :
        (p : Pool)
        → Step p (record p { aggregations = []; collected = p.collected ++ p.aggregations })

  pub data Reach : Pool → Pool → Type 0 where
    here : (p : Pool) → Reach p p
    then_step : (p q r : Pool) → Reach p q → Step q r → Reach p r
