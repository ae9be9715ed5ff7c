-- ===== src/Aggregator/Queue.antt =====
-- aggregator/aggregator.go: the queues of the aggregator. The queue is goconcurrentqueue's FIFO, a
-- parameter of the model; its items are of any type.
use chainpoint_core.Prelude.{
  ℕ, zero, suc, Bool, true, false, Option, none, some, List, [], ◌∷◌, ◌++◌, length, ◌≡◌, refl, ap,
  sym, subst,
}
use chainpoint_core.Types.{HashItem, Aggregation}

-- An item of a queue: of the type that is asserted, or of another.
pub data Held (A : Type 0) : Type 0 where
  asserted : A → Held A
  other : Held A

-- GetLen, Enqueue with whether it failed, and Dequeue, where no item is the error.
pub record QueueOps (A Q : Type 0) : Type 0 where
  pub get_len : Q → ℕ
  pub enqueue : Q → A → Q × Bool
  pub dequeue : Q → Option (Held A) × Q

-- What the queue documents: the items leave in the order in which they came.
pub record QueueLaws (A Q : Type 0) (qo : QueueOps A Q) : Type 0 where
  pub items : Q → List (Held A)
  pub len : (q : Q) → qo.get_len q ≡ length (items q)
  pub first :
      (q : Q) (a : Held A) (rest : List (Held A))
      → items q ≡ a ∷ rest
      → ((qo.dequeue q).0 ≡ some a) × (items (qo.dequeue q).1 ≡ rest)
  pub last :
      (q : Q) (a : A)
      → (qo.enqueue q a).1 ≡ false
      → items (qo.enqueue q a).0 ≡ items q ++ Held.asserted a ∷ []
  pub none_left : (q : Q) → items q ≡ [] → (qo.dequeue q).0 ≡ none

abbrev empty_item : HashItem
empty_item = record { proof_id = []; hash = [] }

abbrev item_or_empty : Option (Held HashItem) → HashItem
item_or_empty none = empty_item
item_or_empty (some (Held.asserted h)) = h
item_or_empty (some Held.other) = empty_item

module _ {Q : Type 0} (qo : QueueOps HashItem Q) where
  -- AddHashItem; an error is only logged.
  unfoldable pub add_hash_item : HashItem → Q → Q
  add_hash_item item q = (qo.enqueue q item).0

  -- HeadHashItem
  unfoldable pub head_hash_item : Q → HashItem × Q
  head_hash_item q = let (item, q') = qo.dequeue q in (item_or_empty item, q')

-- The channel TempStop: not made yet, open, or closed.
pub data Stop : Type 0 where
  unmade opened closed : Stop

-- What AggregateAndReset leaves: what it returns, where nil is none, the queue, the channel, and
-- whether RestartMutex stays locked.
pub record Reset (Q : Type 0) : Type 0 where
  pub returned : Option (List Aggregation)
  pub queue : Q
  pub stop : Stop
  pub keeps_lock : Bool

module _ {Q : Type 0} (qo : QueueOps Aggregation Q) where
  -- The loop of AggregateAndReset over the length that it has read, and whether it returned early,
  -- where Dequeue fails or the item is no Aggregation.
  unfoldable pub drain : ℕ → Q → List Aggregation × Q × Bool
  drain zero q = ([], q, false)
  drain (suc n) q =
      let (found, q') = qo.dequeue q in
      elim found [
        | none ↦ ([], q', true)
        | some h ↦ elim h [
          | Held.other ↦ ([], q', true)
          | Held.asserted a ↦ let (rest, q'', early) = drain n q' in (a ∷ rest, q'', early)
        ]
      ]

  abbrev drained : List Aggregation × Q × Bool → Reset Q
  drained (aggs, q, early) = record {
    returned = some aggs;
    queue = q;
    stop = Stop.closed;
    keeps_lock = early;
  }

  -- The panic of `close` is recovered, and nil is returned.
  abbrev recovered : Stop → Q → Reset Q
  recovered stop q = record { returned = none; queue = q; stop = stop; keeps_lock = false }

  -- AggregateAndReset, with the queue of the time at which RestartMutex is locked. Closing a channel
  -- that is not open panics.
  unfoldable pub aggregate_and_reset : Stop → Q → Reset Q
  unfolding drain
  aggregate_and_reset Stop.opened q = drained (drain (qo.get_len q) q)
  aggregate_and_reset stop q = recovered stop q

  -- The aggregations before the first item that is none, the items after that one, and whether there
  -- is such an item.
  abbrev pub front : List (Held Aggregation) → List Aggregation
  front [] = []
  front (Held.asserted a ∷ rest) = a ∷ front rest
  front (Held.other ∷ rest) = []

  abbrev pub behind : List (Held Aggregation) → List (Held Aggregation)
  behind [] = []
  behind (Held.asserted a ∷ rest) = behind rest
  behind (Held.other ∷ rest) = rest

  abbrev pub has_other : List (Held Aggregation) → Bool
  has_other [] = false
  has_other (Held.asserted a ∷ rest) = has_other rest
  has_other (Held.other ∷ rest) = true

  module _ (laws : QueueLaws Aggregation Q qo) where
    drain-items :
        (items : List (Held Aggregation)) (q : Q)
        → laws.items q ≡ items
        → let (got, left, early) = drain (length items) q in
          (got ≡ front items) × (laws.items left ≡ behind items) × (early ≡ has_other items)
    unfolding drain
    drain-items [] q e = (refl, e, refl)
    drain-items (Held.asserted a ∷ rest) q e =
        let (got, left) = laws.first q (Held.asserted a) rest e in
        let (all, kept, early) = drain-items rest (qo.dequeue q).1 left in
        rw (drain, got) (ap (◌∷◌ a) all, kept, early)
    drain-items (Held.other ∷ rest) q e =
        let (got, left) = laws.first q Held.other rest e in rw (drain, got) (refl, left, refl)

    -- What AggregateAndReset does with the channel in each state.
    abbrev pub HandsOver : Stop → Q → Reset Q → Type 0
    HandsOver Stop.opened q r =
        (r.returned ≡ some (front (laws.items q)))
        × (laws.items r.queue ≡ behind (laws.items q))
        × (r.keeps_lock ≡ has_other (laws.items q))
        × (r.stop ≡ Stop.closed)
    HandsOver stop q r =
        (r.returned ≡ none) × (r.queue ≡ q) × (r.keeps_lock ≡ false) × (r.stop ≡ stop)

    -- AggregateAndReset on an open channel closes it and hands over the queued aggregations, in the
    -- order in which they were queued: all of them, leaving the queue empty and RestartMutex unlocked,
    -- unless an item is no Aggregation, where those before the first such item are returned, the items
    -- behind it stay, and RestartMutex stays locked. On a channel that is closed or was never made it
    -- returns nil and leaves the queue, the channel and RestartMutex.
    pub aggregate_and_reset-items :
        (stop : Stop) (q : Q) → HandsOver stop q (aggregate_and_reset stop q)
    unfolding aggregate_and_reset
    aggregate_and_reset-items Stop.unmade q = (refl, refl, refl, refl)
    aggregate_and_reset-items Stop.closed q = (refl, refl, refl, refl)
    aggregate_and_reset-items Stop.opened q =
        let (got, left, early) =
          subst
            (λ n.
              let (got, left, early) = drain n q in
              (got ≡ front (laws.items q))
              × (laws.items left ≡ behind (laws.items q))
              × (early ≡ has_other (laws.items q)))
            (sym (laws.len q)) (drain-items (laws.items q) q refl) in
        (ap some got, left, early, refl)
