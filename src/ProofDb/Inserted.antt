-- ===== src/ProofDb/Inserted.antt =====
-- What the inserts leave in the arrays of the cache, and what the lookups then find.
use mathlib.Core.List.{append-nil, append_assoc}
use chainpoint_core.Prelude.{
  ℤ, Str, str, str_eq, str_eq_iff, has_prefix, true, false, none, some, List, [], ◌∷◌, ◌++◌, ◌≡◌,
  refl, sym, ap, ◌∙◌, subst, Bool-cases, ◌⊎◌, inl, inr,
}
use chainpoint_core.Types.{AggState}
use chainpoint_core.Strconv.{format_int}
use chainpoint_core.LevelDb.{DbOps, DbLaws, StringsJson, StringsJsonLaws, IsAscii}
use chainpoint_core.LevelDb.KvStore.{set, get_array, append}
use chainpoint_core.LevelDb.KvStore.Arrays.{ArrayOp, Arrays, at, IsView, Works, run, run-IsView}
use chainpoint_core.ProofDb.{
  Json, RecordsJson, RecordKeys, agg_keys, store_record, bulk_insert, bulk_insert_agg_state,
  collect, proof_ids, get_proof_ids_by_agg_ids, ids_of_aggs,
}

-- A record has this JSON text, which is ASCII, and the text decodes to the record.
pub record IsStored (A : Type 0) (j : Json A) (a : A) (t : Str) : Type 0 where
  pub encodes : j.encode a ≡ some t
  pub ascii : IsAscii t
  pub decodes : j.decode t ≡ (a, false)

abbrev pub AllStored : {A : Type 0} → Json A → List A → List Str → Type 0
AllStored j [] [] = Unit {0}
AllStored {A} j (a ∷ items) (t ∷ ts) = IsStored A j a t × AllStored j items ts
AllStored j _ _ = ⊥

-- Two arrays grow by the text.
abbrev pub recorded : RecordKeys → Str → Arrays → Arrays
recorded keys t f =
    let g = at keys.by_id (f keys.by_id ++ t ∷ []) f in
    at keys.by_other (g keys.by_other ++ t ∷ []) g

abbrev pub recorded_all : {A : Type 0} → (A → RecordKeys) → List A → List Str → Arrays → Arrays
recorded_all keys (a ∷ items) (t ∷ ts) f = recorded_all keys items ts (recorded (keys a) t f)
recorded_all keys _ _ f = f

abbrev pub EachHas : {A : Type 0} → (A → Type 0) → List A → Type 0
EachHas P [] = Unit {0}
EachHas P (a ∷ l) = P a × EachHas P l

-- The keys that do not begin with the word of the times.
abbrev pub Apart : Str → Str → Type 0
Apart word k = has_prefix k word ≡ false

-- The keys of the arrays of a record are of a kind, and the key of its time begins with the word.
pub record KeysApart (P : Str → Type 0) (word : Str) (keys : RecordKeys) : Type 0 where
  pub by_id : P keys.by_id
  pub by_other : P keys.by_other
  pub created : has_prefix keys.created word ≡ true

module _ {D : Type 0} (ops : DbOps D) (js : StringsJson) (dl : DbLaws D ops)
    (jl : StringsJsonLaws js) where
  -- The writes of the database never fail.
  abbrev pub AlwaysWorks : Type 0
  AlwaysWorks = (d : D) → Works ops js d

  module _ (works : AlwaysWorks) (P : Str → Type 0) (word : Str)
      (apart : (k : Str) → P k → Apart word k) where
    created_other : (c k : Str) → has_prefix c word ≡ true → P k → str_eq c k ≡ false
    created_other c k p i = elim (Bool-cases (str_eq c k)) [
      | inl e ↦ absurd (
          let s = (str_eq_iff c k).0 e in
          let r : has_prefix k word ≡ true = subst (λ x. has_prefix x word ≡ true) s p in
          let q = apart k i in cc)
      | inr e ↦ e
    ]

    append-IsView :
        (d : D) (k v : Str) (f : Arrays)
        → P k
        → IsAscii v
        → IsView ops js P d f
        → ((append ops js d k v).1 ≡ none)
          × IsView ops js P (append ops js d k v).0 (at k (f k ++ v ∷ []) f)
    unfolding run
    append-IsView d k v f i a w =
        run-IsView ops js dl jl P (ArrayOp.appended k v a) d f i w (works d)

    set-IsView :
        (d : D) (c v : Str) (f : Arrays)
        → has_prefix c word ≡ true
        → IsView ops js P d f
        → IsView ops js P (set ops d c v).0 f
    unfolding set get_array
    set-IsView d c v f p w = record {
      reads =
          λ k i. rw (dl.get-set d c v k ((works d).sets c v), created_other c k p i) (w.reads k i);
      text = w.text;
    }

    store_record-IsView :
        (now : ℤ) (keys : RecordKeys) (t : Str) (d : D) (f : Arrays)
        → KeysApart P word keys
        → IsAscii t
        → IsView ops js P d f
        → ((store_record ops js (append ops js) now keys t d).1 ≡ false)
          × IsView ops js P (store_record ops js (append ops js) now keys t d).0 (recorded keys t f)
    store_record-IsView now keys t d f k a w =
        let (e1, w1) = append-IsView d keys.by_id t f k.by_id a w in
        let d1 = (append ops js d keys.by_id t).0 in
        let (e2, w2) =
          append-IsView d1 keys.by_other t (at keys.by_id (f keys.by_id ++ t ∷ []) f) k.by_other a
            w1 in
        let d2 = (append ops js d1 keys.by_other t).0 in
        (
          rw (e1, e2) refl,
          set-IsView d2 keys.created (format_int now) (recorded keys t f) k.created w2,
        )

    bulk_insert-cons :
        {A : Type 0} (j : Json A) (keys : A → RecordKeys) (now : ℤ) (a : A) (t : Str)
        (items : List A) (d : D)
        → j.encode a ≡ some t
        → (store_record ops js (append ops js) now (keys a) t d).1 ≡ false
        → bulk_insert ops js (append ops js) j.encode keys now (a ∷ items) d
          ≡ bulk_insert ops js
              (append ops js)
              j.encode
              keys
              now
              items
              (store_record ops js (append ops js) now (keys a) t d).0
    unfolding bulk_insert
    bulk_insert-cons j keys now a t items d p q = rw (p, q, bulk_insert)

    -- The loop of the inserts, on records that JSON holds.
    bulk_insert-IsView :
        {A : Type 0} (j : Json A) (keys : A → RecordKeys) (now : ℤ)
        → ((a : A) → KeysApart P word (keys a))
        → (items : List A) (ts : List Str) (d : D) (f : Arrays) → AllStored j items ts
        → IsView ops js P d f
        → let r = bulk_insert ops js (append ops js) j.encode keys now items d in
          (r.1 ≡ none) × IsView ops js P r.0 (recorded_all keys items ts f)
    unfolding bulk_insert
    bulk_insert-IsView j keys now fits [] [] d f s w = (refl, w)
    bulk_insert-IsView j keys now fits (a ∷ items) (t ∷ ts) d f (s, ss) w =
        let (e, w') = store_record-IsView now (keys a) t d f (fits a) s.ascii w in
        let d' = (store_record ops js (append ops js) now (keys a) t d).0 in
        let ih = bulk_insert-IsView j keys now fits items ts d' (recorded (keys a) t f) ss w' in
        subst (λ r. (r.1 ≡ none) × IsView ops js P r.0 (recorded_all keys (a ∷ items) (t ∷ ts) f))
          (sym (bulk_insert-cons j keys now a t items d s.encodes e)) ih
    bulk_insert-IsView j keys now fits [] (t ∷ ts) d f s w = elim s [ ]
    bulk_insert-IsView j keys now fits (a ∷ items) [] d f s w = elim s [ ]

recorded_at :
    (keys : RecordKeys) (k t : Str) (f : Arrays)
    → str_eq keys.by_id k ≡ true
    → str_eq keys.by_other k ≡ false
    → recorded keys t f k ≡ f k ++ t ∷ []
recorded_at keys k t f e o = rw (o, e) (ap (λ x. f x ++ t ∷ []) ((str_eq_iff keys.by_id k).0 e))

-- The array of a key that all the records have as their id gets all their texts, in order.
recorded_all_at :
    {A : Type 0} (j : Json A) (keys : A → RecordKeys) (k : Str)
    → ((a : A) → str_eq (keys a).by_other k ≡ false)
    → (items : List A) (ts : List Str) (f : Arrays) → AllStored j items ts
    → EachHas (λ a. str_eq (keys a).by_id k ≡ true) items
    → recorded_all keys items ts f k ≡ f k ++ ts
recorded_all_at j keys k o [] [] f s h = sym (append-nil (f k))
recorded_all_at j keys k o (a ∷ items) (t ∷ ts) f (s, ss) (e, h) =
    recorded_all_at j keys k o items ts (recorded (keys a) t f) ss h
    ∙ ap (λ l. l ++ ts) (recorded_at (keys a) k t f e (o a))
    ∙ append_assoc (f k) (t ∷ []) ts
recorded_all_at j keys k o [] (t ∷ ts) f s h = elim s [ ]
recorded_all_at j keys k o (a ∷ items) [] f s h = elim s [ ]

-- The keys of the arrays in which the states of aggregations stand.
abbrev pub AggArray : Str → Type 0
AggArray k = (id : Str) × ((k ≡ str "aggstate:" ++ id) ⊎ (k ≡ str "aggstate_by_proof:" ++ id))

module _ {D : Type 0} (ops : DbOps D) (js : StringsJson) (dl : DbLaws D ops)
    (jl : StringsJsonLaws js) (rj : RecordsJson) where
  stored_ids :
      (items : List AggState) (ts : List Str)
      → AllStored rj.agg items ts
      → proof_ids rj.agg ts ≡ ids_of_aggs items
  unfolding proof_ids ids_of_aggs
  stored_ids [] [] s = refl
  stored_ids (a ∷ items) (t ∷ ts) (s, ss) = rw (s.decodes, stored_ids items ts ss) refl
  stored_ids [] (t ∷ ts) s = elim s [ ]
  stored_ids (a ∷ items) [] s = elim s [ ]

  ids_append :
      (l ts : List Str) → proof_ids rj.agg (l ++ ts) ≡ proof_ids rj.agg l ++ proof_ids rj.agg ts
  unfolding proof_ids
  ids_append [] ts = refl
  ids_append (s ∷ l) ts = ap (λ x. (rj.agg.decode s).0.proof_id ∷ x) (ids_append l ts)

  one_read :
      (d : D) (id : Str) (l : List Str)
      → get_array ops js d (str "aggstate:" ++ id) ≡ (l, none)
      → get_proof_ids_by_agg_ids ops js rj (id ∷ []) d ≡ (proof_ids rj.agg l, none)
  unfolding get_proof_ids_by_agg_ids collect
  one_read d id l e =
      rw (collect, e)
        (ap (λ r. (proof_ids rj.agg r.0 ++ [], none)) e
          ∙ ap (λ x. (x, none)) (append-nil (proof_ids rj.agg l)))

  agg_apart : (a : AggState) → KeysApart AggArray (str "aggstateCreated:") (agg_keys a)
  unfolding has_prefix
  agg_apart a = record {
    by_id = (a.agg_id, inl refl);
    by_other = (a.proof_id, inr refl);
    created = refl;
  }

  by_proof_apart :
      (a : AggState) (id : Str) → str_eq (agg_keys a).by_other (str "aggstate:" ++ id) ≡ false
  unfolding str_eq
  by_proof_apart a id = refl

  array-Apart : (k : Str) → AggArray k → Apart (str "aggstateCreated:") k
  unfolding has_prefix
  array-Apart k (id, inl e) = rw e refl
  array-Apart k (id, inr e) = rw e refl

  -- On a database whose writes never fail and whose arrays under the keys aggstate: and
  -- aggstate_by_proof: can be read and are of ASCII texts, BulkInsertAggState of the
  -- states of one aggregation, which JSON holds as ASCII texts, returns no error, and
  -- GetProofIdsByAggIds of its id then returns the ids it returned before and those of the new states,
  -- in their order.
  pub bulk_insert_agg_state-get :
      AlwaysWorks ops js dl jl
      → (now : ℤ) (id : Str) (items : List AggState) (ts : List Str) (d : D) (f : Arrays)
      → IsView ops js AggArray d f
      → AllStored rj.agg items ts
      → EachHas (λ a. str_eq (str "aggstate:" ++ a.agg_id) (str "aggstate:" ++ id) ≡ true) items
      → let (d', e) = bulk_insert_agg_state ops js rj now items d in
        (e ≡ none)
        × (get_proof_ids_by_agg_ids ops js rj (id ∷ []) d
            ≡ (proof_ids rj.agg (f (str "aggstate:" ++ id)), none))
        × (get_proof_ids_by_agg_ids ops js rj (id ∷ []) d'
            ≡ (proof_ids rj.agg (f (str "aggstate:" ++ id)) ++ ids_of_aggs items, none))
  unfolding bulk_insert_agg_state
  bulk_insert_agg_state-get works now id items ts d f w s h =
      let k = str "aggstate:" ++ id in
      let (e, w') =
        bulk_insert-IsView ops js dl jl works AggArray (str "aggstateCreated:") array-Apart rj.agg
          agg_keys now agg_apart items ts d f s w in
      let all = recorded_all_at rj.agg agg_keys k (λ a. by_proof_apart a id) items ts f s h in
      (
        e,
        one_read d id (f k) (w.reads k (id, inl refl)),
        one_read _ id _ (w'.reads k (id, inl refl))
            ∙ ap (λ l. (l, none))
                (ap (proof_ids rj.agg) all
                  ∙ ids_append (f k) ts
                  ∙ ap (λ l. proof_ids rj.agg (f k) ++ l) (stored_ids items ts s)),
      )
