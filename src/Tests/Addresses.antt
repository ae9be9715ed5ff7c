-- ===== src/Tests/Addresses.antt =====
-- The helpers of util/util.go at work.
use chainpoint_core.Prelude.{Str, str, List, [], ◌∷◌, ◌++◌, ◌≡◌, refl, arith, returns}
use chainpoint_core.Strconv.Hex.{IsBytes}
use chainpoint_core.Util.Arrays.{
  array_contains, uniquify_strings, AllDifferent, uniquify_strings-AllDifferent,
}
use chainpoint_core.Util.Ip.{ip2int, int2ip, ip2int-int2ip}

abbrev mapped : Str
mapped = 0 ∷ 0 ∷ 0 ∷ 0 ∷ 0 ∷ 0 ∷ 0 ∷ 0 ∷ 0 ∷ 0 ∷ 255 ∷ 255 ∷ []

ip2int-int2ip_example :
    IsBytes (int2ip 3232235777)
    × (ip2int (int2ip 3232235777) ≡ returns 3232235777)
    × (ip2int (mapped ++ int2ip 3232235777) ≡ returns 3232235777)
ip2int-int2ip_example = ip2int-int2ip 3232235777 mapped (omega arith) refl

abbrev three_strings : List Str
three_strings = str "a" ∷ str "b" ∷ str "a" ∷ []

uniquify_strings-AllDifferent_example :
    AllDifferent (uniquify_strings three_strings)
    × ((item : Str)
        → array_contains (uniquify_strings three_strings) item ≡ array_contains three_strings item)
uniquify_strings-AllDifferent_example = uniquify_strings-AllDifferent three_strings
