-- ===== src/LevelDb/KvStore/Arrays.antt =====
-- The arrays of the cache against a function from keys to lists.
use chainpoint_core.Prelude.{
  Str, str_eq, Bool, true, false, Option, none, List, [], ◌∷◌, ◌++◌, ◌≡◌, refl, ap, if◌then◌else◌,
  Bool-cases, inl, inr,
}
use chainpoint_core.LevelDb.{DbOps, DbLaws, StringsJson, StringsJsonLaws, IsAscii, AllAscii}
use chainpoint_core.LevelDb.KvStore.{
  StoreError, call_error, remove_first, put, get_array, set_array, update, append, del,
}

-- The calls that change arrays, with ASCII values.
pub data ArrayOp : Type 0 where
  appended : (key value : Str) → IsAscii value → ArrayOp
  stored : (key : Str) (values : List Str) → AllAscii values → ArrayOp
  deleted : (key value : Str) → ArrayOp

abbrev pub op_key : ArrayOp → Str
op_key (ArrayOp.appended k v a) = k
op_key (ArrayOp.stored k l a) = k
op_key (ArrayOp.deleted k v) = k

-- The abstract arrays: every key has a list.
abbrev pub Arrays : Type 0
Arrays = Str → List Str

abbrev pub at : Str → List Str → Arrays → Arrays
at k l f j = if str_eq k j then l else f j

abbrev pub array_step : ArrayOp → Arrays → Arrays
array_step (ArrayOp.appended k v a) f = at k (f k ++ v ∷ []) f
array_step (ArrayOp.stored k l a) f = at k l f
array_step (ArrayOp.deleted k v) f = at k (if str_eq v [] then [] else remove_first v (f k)) f

AllAscii-append : (l : List Str) (v : Str) → AllAscii l → IsAscii v → AllAscii (l ++ v ∷ [])
AllAscii-append [] v a b = (b, tt)
AllAscii-append (x ∷ l) v (p, a) b = (p, AllAscii-append l v a b)

AllAscii-remove_first : (v : Str) (l : List Str) → AllAscii l → AllAscii (remove_first v l)
unfolding remove_first
AllAscii-remove_first v [] a = tt
AllAscii-remove_first v (x ∷ l) (p, a) = elim (Bool-cases (str_eq x v)) [
  | inl e ↦ rw e a
  | inr e ↦ rw e (p, AllAscii-remove_first v l a)
]

AllAscii-at :
    (k : Str) (l : List Str) (f : Arrays) (j : Str)
    → AllAscii l
    → AllAscii (f j)
    → AllAscii (at k l f j)
AllAscii-at k l f j a b = elim (Bool-cases (str_eq k j)) [ inl e ↦ rw e a | inr e ↦ rw e b ]

no_error : {D : Type 0} (r : D × Bool) → (put r).1 ≡ none → r.1 ≡ false
no_error (d, true) e = cc
no_error (d, false) e = refl

module _ {D : Type 0} (ops : DbOps D) (js : StringsJson) where
  -- Every key of a kind, `P`, reads as the list that the function gives it, and the lists are of ASCII texts.
  pub record IsView (P : Str → Type 0) (d : D) (f : Arrays) : Type 0 where
    pub reads : (k : Str) → P k → get_array ops js d k ≡ (f k, none)
    pub text : (k : Str) → P k → AllAscii (f k)

  -- The writes of the database do not fail.
  pub record Works (d : D) : Type 0 where
    pub sets : (k v : Str) → (ops.set d k v).1 ≡ false
    pub deletes : (k : Str) → (ops.delete d k).1 ≡ false

  -- The call of the cache that an operation stands for.
  unfoldable pub run : ArrayOp → D → D × Option StoreError
  run (ArrayOp.appended k v a) d = append ops js d k v
  run (ArrayOp.stored k l a) d = set_array ops js d k l
  run (ArrayOp.deleted k v) d = del ops js d k v

  module _ (dl : DbLaws D ops) (jl : StringsJsonLaws js) (P : Str → Type 0) where
    put_reads :
        (d : D) (k : Str) (l : List Str) (f : Arrays)
        → IsView P d f
        → AllAscii l
        → (ops.set d k (js.json_of_strings l)).1 ≡ false
        → (j : Str) → P j
        → get_array ops js (ops.set d k (js.json_of_strings l)).0 j ≡ (at k l f j, none)
    unfolding get_array
    put_reads d k l f w a e j i = elim (Bool-cases (str_eq k j)) [
      | inl p ↦ rw (dl.get-set d k (js.json_of_strings l) j e, p, jl.round_trip l a) refl
      | inr p ↦ rw (dl.get-set d k (js.json_of_strings l) j e, p) (w.reads j i)
    ]

    delete_reads :
        (d : D) (k : Str) (f : Arrays)
        → IsView P d f
        → (ops.delete d k).1 ≡ false
        → (j : Str) → P j
        → get_array ops js (ops.delete d k).0 j ≡ (at k [] f j, none)
    unfolding get_array
    delete_reads d k f w e j i = elim (Bool-cases (str_eq k j)) [
      | inl p ↦ rw (dl.get-delete d k j e, p) refl
      | inr p ↦ rw (dl.get-delete d k j e, p) (w.reads j i)
    ]

    put-IsView :
        (d : D) (k : Str) (l : List Str) (f : Arrays)
        → IsView P d f
        → AllAscii l
        → (put (ops.set d k (js.json_of_strings l))).1 ≡ none
        → IsView P (put (ops.set d k (js.json_of_strings l))).0 (at k l f)
    put-IsView d k l f w a e = record {
      reads = λ j i. put_reads d k l f w a (no_error (ops.set d k (js.json_of_strings l)) e) j i;
      text = λ j i. AllAscii-at k l f j a (w.text j i);
    }

    delete-IsView :
        (d : D) (k : Str) (f : Arrays)
        → IsView P d f
        → (put (ops.delete d k)).1 ≡ none
        → IsView P (put (ops.delete d k)).0 (at k [] f)
    delete-IsView d k f w e = record {
      reads = λ j i. delete_reads d k f w (no_error (ops.delete d k) e) j i;
      text = λ j i. AllAscii-at k [] f j tt (w.text j i);
    }

    updated :
        (d : D) (k : Str) (change : List Str → List Str) (f : Arrays)
        → P k
        → IsView P d f
        → AllAscii (change (f k))
        → (update ops js d k change (get_array ops js d k)).1 ≡ none
        → IsView P (update ops js d k change (get_array ops js d k)).0 (at k (change (f k)) f)
    updated d k change f i w a e =
        rw (w.reads k i) (put-IsView d k (change (f k)) f w a (rw (w.reads k i) at e))

    run_no_error-IsView :
        (op : ArrayOp) (d : D) (f : Arrays)
        → P (op_key op)
        → IsView P d f
        → (run op d).1 ≡ none
        → IsView P (run op d).0 (array_step op f)
    unfolding run append set_array del
    run_no_error-IsView (ArrayOp.appended k v a) d f i w e =
        updated d k (λ l. l ++ v ∷ []) f i w (AllAscii-append (f k) v (w.text k i) a) e
    run_no_error-IsView (ArrayOp.stored k l a) d f i w e = put-IsView d k l f w a e
    run_no_error-IsView (ArrayOp.deleted k v) d f i w e = elim (Bool-cases (str_eq v [])) [
      | inl p ↦ rw p (delete-IsView d k f w (rw p at e))
      | inr p ↦ rw p (
          updated d k (remove_first v) f i w (AllAscii-remove_first v (f k) (w.text k i))
            (rw p at e))
    ]

    Works-put : (d : D) (k v : Str) → Works d → (put (ops.set d k v)).1 ≡ none
    Works-put d k v w = ap call_error (w.sets k v)

    Works-update :
        (d : D) (k : Str) (change : List Str → List Str) (f : Arrays)
        → P k
        → IsView P d f
        → Works d
        → (update ops js d k change (get_array ops js d k)).1 ≡ none
    Works-update d k change f h v w = rw (v.reads k h) (Works-put d k _ w)

    run-Works :
        (op : ArrayOp) (d : D) (f : Arrays)
        → P (op_key op)
        → IsView P d f
        → Works d
        → (run op d).1 ≡ none
    unfolding run append set_array del
    run-Works (ArrayOp.appended k v a) d f h i w = Works-update d k (λ l. l ++ v ∷ []) f h i w
    run-Works (ArrayOp.stored k l a) d f h i w = Works-put d k _ w
    run-Works (ArrayOp.deleted k v) d f h i w = elim (Bool-cases (str_eq v [])) [
      | inl p ↦ rw p (ap call_error (w.deletes k))
      | inr p ↦ rw p (Works-update d k (remove_first v) f h i w)
    ]

    -- On a database whose writes do not fail, and whose arrays under the keys of some kind are those of
    -- a function from keys to lists of ASCII texts, a call with ASCII values on a key of the kind
    -- returns no error and changes the arrays as the function is changed: Append adds at the end,
    -- SetArray replaces, Del removes the first occurrence, or with the empty string the whole array;
    -- the other keys of the kind keep theirs.
    pub run-IsView :
        (op : ArrayOp) (d : D) (f : Arrays)
        → P (op_key op)
        → IsView P d f
        → Works d
        → ((run op d).1 ≡ none) × IsView P (run op d).0 (array_step op f)
    run-IsView op d f h i w =
        let e = run-Works op d f h i w in (e, run_no_error-IsView op d f h i e)
