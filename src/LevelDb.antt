-- ===== src/LevelDb.antt =====
-- The key-value store under the application, a tm-db database, and the JSON of a list of strings:
-- parameters of the model. A call returns whether it failed; a missing key reads as nothing.
pub mod KvStore
use chainpoint_core.Prelude.{
  ◌<◌, Str, str_eq, Bool, true, false, ltb, ◌&&◌, arith, Option, none, some, List, [], ◌∷◌, ◌≡◌,
  if◌then◌else◌,
}

pub record DbOps (D : Type 0) : Type 0 where
  pub get : D → Str → Option Str × Bool
  pub set : D → Str → Str → D × Bool
  pub delete : D → Str → D × Bool

-- What tm-db documents of calls that do not fail.
pub record DbLaws (D : Type 0) (ops : DbOps D) : Type 0 where
  pub get-set :
      (d : D) (k v j : Str)
      → (ops.set d k v).1 ≡ false
      → ops.get (ops.set d k v).0 j ≡ (if str_eq k j then (some v, false) else ops.get d j)
  pub get-delete :
      (d : D) (k j : Str)
      → (ops.delete d k).1 ≡ false
      → ops.get (ops.delete d k).0 j ≡ (if str_eq k j then (none, false) else ops.get d j)

-- json.Marshal and json.Unmarshal at []string
pub record StringsJson : Type 0 where
  pub json_of_strings : List Str → Str
  pub strings_of_json : Str → Option (List Str)

abbrev pub IsAscii : Str → Type 0
IsAscii [] = Unit {0}
IsAscii (c ∷ cs) = (c < 128) × IsAscii cs

-- The test of a text, and what it shows.
unfoldable pub is_ascii : Str → Bool
is_ascii [] = true
is_ascii (c ∷ cs) = ltb c 128 && is_ascii cs

pub is_ascii-IsAscii : (s : Str) → is_ascii s ≡ true → IsAscii s
unfolding is_ascii
is_ascii-IsAscii [] h = tt
is_ascii-IsAscii (c ∷ cs) h = (ground arith, is_ascii-IsAscii cs (ground arith))

abbrev pub AllAscii : List Str → Type 0
AllAscii [] = Unit {0}
AllAscii (s ∷ l) = IsAscii s × AllAscii l

-- A list of ASCII texts reads back. (Bytes that are not UTF-8 do not.)
pub record StringsJsonLaws (js : StringsJson) : Type 0 where
  pub round_trip : (l : List Str) → AllAscii l → js.strings_of_json (js.json_of_strings l) ≡ some l
