-- ===== src/Tests/Store.antt =====
-- The cache at work, over an association list.
use chainpoint_core.Prelude.{
  pos, true, false, ℕ, Str, str, Dict, lookup, lookup-insert, lookup-delete, str_eq, none, some,
  List, [], ◌∷◌, ◌++◌, ◌==◌, ◌≡◌, refl, ap, ◌∙◌, arith, if◌then◌else◌, Bool-cases, inl, inr,
}
use chainpoint_core.LevelDb.{DbLaws, StringsJson, StringsJsonLaws, IsAscii, AllAscii}
use chainpoint_core.LevelDb.KvStore.{get_array}
use chainpoint_core.LevelDb.KvStore.Arrays.{
  ArrayOp, Arrays, IsView, Works, run, array_step, run-IsView,
}
use chainpoint_core.Types.{AggState}
use chainpoint_core.ProofDb.{
  RecordsJson, bulk_insert_agg_state, get_proof_ids_by_agg_ids, proof_ids, ids_of_aggs,
}
use chainpoint_core.ProofDb.Inserted.{
  AllStored, EachHas, AggArray, AlwaysWorks, bulk_insert_agg_state-get,
}
use chainpoint_core.Tests.Fixtures.{toy_db}

pub toy_db-DbLaws : DbLaws (Dict Str) toy_db
toy_db-DbLaws = record {
  get-set = λ d k v j e. elim (Bool-cases (str_eq k j)) [
    | inl p ↦ rw (lookup-insert, p) refl
    | inr p ↦ rw (lookup-insert, p) refl
  ];
  get-delete = λ d k j e. elim (Bool-cases (str_eq k j)) [
    | inl p ↦ rw (lookup-delete, p) refl
    | inr p ↦ rw (lookup-delete, p) refl
  ];
}

-- Texts that each end in the byte 200.
abbrev toy_encode : List Str → Str
toy_encode [] = []
toy_encode (s ∷ l) = s ++ 200 ∷ toy_encode l

abbrev onto_first : ℕ → List Str → List Str
onto_first c [] = (c ∷ []) ∷ []
onto_first c (s ∷ l) = (c ∷ s) ∷ l

abbrev toy_decode : Str → List Str
toy_decode [] = []
toy_decode (c ∷ cs) = let rest = toy_decode cs in if c == 200 then [] ∷ rest else onto_first c rest

abbrev pub toy_json : StringsJson
toy_json = record { json_of_strings = toy_encode; strings_of_json = λ s. some (toy_decode s) }

toy_decode-append : (s : Str) (t : Str) → IsAscii s → toy_decode (s ++ 200 ∷ t) ≡ s ∷ toy_decode t
toy_decode-append [] t a = refl
toy_decode-append (c ∷ cs) t (p, a) =
    let ih = toy_decode-append cs t a in
    elim (Bool-cases (c == 200)) [ inl e ↦ absurd (ground arith) | inr e ↦ rw (e, ih) refl ]

toy_decode-encode : (l : List Str) → AllAscii l → toy_decode (toy_encode l) ≡ l
toy_decode-encode [] a = refl
toy_decode-encode (s ∷ l) (p, a) =
    toy_decode-append s (toy_encode l) p ∙ ap (λ r. s ∷ r) (toy_decode-encode l a)

pub toy_json-StringsJsonLaws : StringsJsonLaws toy_json
toy_json-StringsJsonLaws = record { round_trip = λ l a. ap some (toy_decode-encode l a) }

abbrev pub EveryKey : Str → Type 0
EveryKey k = Unit {0}

pub empty-IsView : IsView toy_db toy_json EveryKey [] (λ k. [])
unfolding get_array lookup
empty-IsView = record { reads = λ k i. refl; text = λ k i. tt }

toy-Works : Works toy_db toy_json []
toy-Works = record { sets = λ k v. refl; deletes = λ k. refl }

abbrev appending : ArrayOp
appending = ArrayOp.appended (str "k") (str "v") (omega arith, tt)

run-IsView_example :
    ((run toy_db toy_json appending []).1 ≡ none)
    × IsView toy_db toy_json EveryKey
        (run toy_db toy_json appending []).0
        (array_step appending (λ k. []))
run-IsView_example =
    run-IsView toy_db toy_json toy_db-DbLaws toy_json-StringsJsonLaws EveryKey appending []
      (λ k. []) tt empty-IsView toy-Works

toy_always : AlwaysWorks toy_db toy_json toy_db-DbLaws toy_json-StringsJsonLaws
toy_always d = record { sets = λ k v. refl; deletes = λ k. refl }

-- A state of the aggregation "g", stored as its proof id.
abbrev state_of : Str → AggState
state_of proof_id = record {
  proof_id = proof_id;
  hash = [];
  agg_id = str "g";
  agg_state = [];
  agg_root = [];
}

abbrev toy_records : RecordsJson
toy_records = record {
  agg = record { encode = λ a. some a.proof_id; decode = λ s. (state_of s, false) };
  cal = record {
    encode = λ c. none;
    decode = λ s. (record { agg_id = []; cal_id = []; cal_state = [] }, true);
  };
  anchor_agg = record {
    encode = λ a. none;
    decode = λ s. (record { cal_id = []; anchor_btc_agg_id = []; anchor_btc_agg_state = [] }, true);
  };
  btc_tx = record {
    encode = λ t. none;
    decode = λ s. (record { anchor_btc_agg_id = []; btc_tx_id = []; btc_tx_state = [] }, true);
  };
  proof = record { encode = λ p. none; decode = λ s. (record { proof_id = []; proof = [] }, true) };
}

abbrev two_states : List AggState
two_states = state_of (str "p") ∷ state_of (str "q") ∷ []

two_stored : AllStored toy_records.agg two_states (str "p" ∷ str "q" ∷ [])
two_stored = (
  record { encodes = refl; ascii = (omega arith, tt); decodes = refl },
  (record { encodes = refl; ascii = (omega arith, tt); decodes = refl }, tt),
)

-- A database after a commit, with a key and a proof, which are no arrays, and a state of "g".
abbrev used_db : Dict Str
used_db =
    (str "aggstate:g", toy_json.json_of_strings (str "o" ∷ []))
    ∷ (str "chainpoint", str "{}")
    ∷ (str "proof:o", str "{}")
    ∷ []

abbrev used_arrays : Arrays
used_arrays k = if str_eq (str "aggstate:g") k then str "o" ∷ [] else []

used_reads : (k : Str) → AggArray k → get_array toy_db toy_json used_db k ≡ (used_arrays k, none)
unfolding get_array lookup str_eq
used_reads k (id, inl e) = elim (Bool-cases (str_eq (str "g") id)) [
  | inl g ↦ rw (e, g) refl
  | inr g ↦ rw (e, g) refl
]
used_reads k (id, inr e) = rw e refl

used_text : (k : Str) → AggArray k → AllAscii (used_arrays k)
used_text k i = elim (Bool-cases (str_eq (str "aggstate:g") k)) [
  | inl g ↦ rw g (omega arith, tt)
  | inr g ↦ rw g tt
]

used_db-IsView : IsView toy_db toy_json AggArray used_db used_arrays
used_db-IsView = record { reads = used_reads; text = used_text }

same_aggregation :
    EachHas
      (λ a. str_eq (str "aggstate:" ++ a.agg_id) (str "aggstate:" ++ str "g") ≡ true)
      two_states
unfolding str_eq
same_aggregation = (refl, (refl, tt))

bulk_insert_agg_state-get_example :
    let (d', e) = bulk_insert_agg_state toy_db toy_json toy_records (pos 9) two_states used_db in
    (e ≡ none)
    × (get_proof_ids_by_agg_ids toy_db toy_json toy_records (str "g" ∷ []) used_db
        ≡ (proof_ids toy_records.agg (str "o" ∷ []), none))
    × (get_proof_ids_by_agg_ids toy_db toy_json toy_records (str "g" ∷ []) d'
        ≡ (proof_ids toy_records.agg (str "o" ∷ []) ++ ids_of_aggs two_states, none))
unfolding str_eq
bulk_insert_agg_state-get_example =
    bulk_insert_agg_state-get toy_db toy_json toy_db-DbLaws toy_json-StringsJsonLaws toy_records
      toy_always (pos 9) (str "g") two_states (str "p" ∷ str "q" ∷ []) used_db used_arrays
      used_db-IsView two_stored same_aggregation
