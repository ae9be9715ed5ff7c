-- ===== src/Util/Ip.antt =====
-- util/util.go: an IPv4 address as a uint32, and back.
use chainpoint_core.Prelude.{
  ℕ, zero, suc, length-append, ◌+◌, ◌*◌, ◌/◌, ◌%◌, ◌^◌, ◌<◌, ◌==◌, Str, [], ◌∷◌, ◌++◌, length, drop,
  true, ◌≡◌, refl, ap, arith, if◌then◌else◌, Run, returns, panics,
}
use chainpoint_core.Strconv.Hex.{IsBytes}

-- binary.BigEndian.Uint32, which panics on fewer than four bytes
unfoldable pub uint32 : Str → Run ℕ
uint32 (a ∷ b ∷ c ∷ d ∷ rest) = returns (a * 16777216 + b * 65536 + c * 256 + d)
uint32 _ = panics

-- Ip2Int
unfoldable pub ip2int : Str → Run ℕ
unfolding uint32
ip2int ip = if length ip == 16 then uint32 (drop 12 ip) else uint32 ip

-- Int2Ip
unfoldable pub int2ip : ℕ → Str
int2ip nn = (nn / 16777216) % 256 ∷ (nn / 65536) % 256 ∷ (nn / 256) % 256 ∷ nn % 256 ∷ []

same_number :
    (n : ℕ)
    → n < 2 ^ 32
    → n / 16777216 % 256 * 16777216 + n / 65536 % 256 * 65536 + n / 256 % 256 * 256 + n % 256 ≡ n
same_number n h = omega arith

drop_mapped : (n : ℕ) (a c : Str) → length a ≡ n → drop n (a ++ c) ≡ c
drop_mapped zero [] c e = refl
drop_mapped zero (x ∷ a) c e = absurd (omega arith)
drop_mapped (suc n) [] c e = absurd (omega arith)
drop_mapped (suc n) (x ∷ a) c e = drop_mapped n a c (omega arith)

-- Int2Ip makes four bytes of a uint32, of which Ip2Int makes the number again, as it does when they are
-- the last four of an address of 16 bytes.
pub ip2int-int2ip :
    (nn : ℕ) (mapped : Str)
    → nn < 2 ^ 32
    → length mapped ≡ 12
    → IsBytes (int2ip nn)
      × (ip2int (int2ip nn) ≡ returns nn)
      × (ip2int (mapped ++ int2ip nn) ≡ returns nn)
unfolding ip2int int2ip uint32
ip2int-int2ip nn mapped h l =
    let sixteen : (length (mapped ++ int2ip nn) == 16) ≡ true =
      ground (arith, length-append mapped (int2ip nn)) in
    (
      (omega arith, (omega arith, (omega arith, (omega arith, tt)))),
      ap returns (same_number nn h),
      rw (sixteen, drop_mapped 12 mapped (int2ip nn) l) (ap returns (same_number nn h)),
    )
