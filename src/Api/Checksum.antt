-- ===== src/Api/Checksum.antt =====
-- api/addon/v1alpha1/addon_types.go, `CalculateChecksum`: `hash/adler32` and the verb `%x`.
use addon_manager.Common.{
  ℕ, zero, suc, ◌+◌, ◌*◌, ◌/◌, ◌%◌, String, ◌≡◌, refl, List, [], ◌∷◌, ltb, if◌then◌else◌, ◌+++◌,
  hex_digit,
}

-- The two running sums of Adler-32, over the bytes in order.
adler_sums : ℕ → ℕ → List ℕ → ℕ
adler_sums a b [] = b * 65536 + a
adler_sums a b (x ∷ xs) = adler_sums ((a + x) % 65521) ((b + a + x) % 65521) xs

-- `adler32.Checksum`.
unfoldable pub adler32 : List ℕ → ℕ
unfolding adler_sums
adler32 bytes = adler_sums 1 0 bytes

-- The digits of `n` before `acc`, at most `fuel` and one more of them.
unfoldable pub hex_from : ℕ → ℕ → String → String
unfolding hex_digit
hex_from zero n acc = hex_digit (n % 16) +++ acc
hex_from (suc fuel) n acc =
    let more = hex_from fuel (n / 16) (hex_digit (n % 16) +++ acc) in
    if ltb n 16 then hex_digit n +++ acc else more

-- `fmt.Sprintf("%x", n)` of a `uint32`: at most eight digits.
unfoldable pub hex : ℕ → String
unfolding hex_from
hex n = hex_from 7 n ""

wikipedia_sum : hex (adler32 (0x57 ∷ 0x69 ∷ 0x6b ∷ 0x69 ∷ [])) ≡ "3da0195"
unfolding hex adler32 hex_digit
wikipedia_sum = refl
