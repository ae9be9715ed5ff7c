-- ===== src/LevelDb/KvStore.antt =====
-- database/level/cache.go: the cache, single values and arrays of strings over the database.
pub mod Arrays
use chainpoint_core.Prelude.{
  Str, str_eq, Bool, true, false, Option, none, some, List, [], ◌∷◌, ◌++◌, if◌then◌else◌,
}
use chainpoint_core.LevelDb.{DbOps, StringsJson}

-- The errors of the database and of JSON.
pub data StoreError : Type 0 where
  failed_call bad_array : StoreError

abbrev pub call_error : Bool → Option StoreError
call_error true = some failed_call
call_error false = none

-- The loop of Del: the first occurrence goes.
unfoldable pub remove_first : Str → List Str → List Str
remove_first value [] = []
remove_first value (v ∷ vs) =
    let rest = remove_first value vs in if str_eq v value then vs else v ∷ rest

abbrev text_of : Option Str × Bool → Str × Option StoreError
text_of (none, failed) = ([], call_error failed)
text_of (some s, failed) = (s, call_error failed)

abbrev pub put {ℓ} : {D : Type ℓ} → D × Bool → D × Option StoreError
put (d, failed) = (d, call_error failed)

module _ {D : Type 0} (ops : DbOps D) where
  -- Get; a missing key reads as the empty string
  unfoldable pub get : D → Str → Str × Option StoreError
  get d key = text_of (ops.get d key)

  -- Set
  unfoldable pub set : D → Str → Str → D × Option StoreError
  set d key value = put (ops.set d key value)

  module _ (js : StringsJson) where
    abbrev pub parsed : Option (List Str) → List Str × Option StoreError
    parsed none = ([], some bad_array)
    parsed (some arr) = (arr, none)

    abbrev pub array_of : Option Str × Bool → List Str × Option StoreError
    array_of (b, true) = ([], some failed_call)
    array_of (none, false) = ([], none)
    array_of (some b, false) = parsed (js.strings_of_json b)

    -- GetArray
    unfoldable pub get_array : D → Str → List Str × Option StoreError
    get_array d key = array_of (ops.get d key)

    -- SetArray
    unfoldable pub set_array : D → Str → List Str → D × Option StoreError
    set_array d key values = put (ops.set d key (js.json_of_strings values))

    abbrev pub update :
        D → Str → (List Str → List Str) → List Str × Option StoreError → D × Option StoreError
    update d key change (results, some e) = (d, some e)
    update d key change (results, none) = put (ops.set d key (js.json_of_strings (change results)))

    -- Append
    unfoldable pub append : D → Str → Str → D × Option StoreError
    unfolding get_array
    append d key value = update d key (λ results. results ++ value ∷ []) (get_array d key)

    -- Del; the empty string stands for the whole key
    unfoldable pub del : D → Str → Str → D × Option StoreError
    unfolding get_array
    del d key value =
        if str_eq value []
        then put (ops.delete d key)
        else update d key (remove_first value) (get_array d key)
