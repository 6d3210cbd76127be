-- ===== src/Hex.antt =====
-- src/proto.rs, `hex`: two lower-case digits for each byte.
use egdod.Prelude.{
  ℕ, ◌+◌, ◌*◌, ◌/◌, ◌%◌, ◌<◌, ◌≡◌, refl, Bool, true, ◌&&◌, ◌||◌, [], ◌∷◌, Bytes, length, ltb, leb,
  if◌then◌else◌, All, arith,
}

abbrev pub hex_digit : ℕ → ℕ
hex_digit n = if ltb n 10 then 48 + n else 87 + n

unfoldable pub hex : Bytes → Bytes
hex [] = []
hex (b ∷ bs) = hex_digit (b / 16) ∷ hex_digit (b % 16) ∷ hex bs

abbrev pub is_lower_hex : ℕ → Bool
is_lower_hex c = (leb 48 c && leb c 57) || (leb 97 c && leb c 102)

pub length-hex : (b : Bytes) → length (hex b) ≡ 2 * length b
unfolding hex
length-hex [] = refl
length-hex (x ∷ b) = omega (arith, length-hex b)

-- The digits of one byte determine it.
hex_byte_inj :
    (a b : ℕ)
    → a < 256
    → b < 256
    → hex_digit (a / 16) ≡ hex_digit (b / 16)
    → hex_digit (a % 16) ≡ hex_digit (b % 16)
    → a ≡ b
hex_byte_inj a b ha hb hi lo = ground arith

-- Two byte strings with the same digits are equal.
hex_inj : (a b : Bytes) → All (λ x. x < 256) a → All (λ x. x < 256) b → hex a ≡ hex b → a ≡ b
unfolding hex
hex_inj [] [] ha hb e = refl
hex_inj [] (y ∷ b) ha hb e = cc
hex_inj (x ∷ a) [] ha hb e = cc
hex_inj (x ∷ a) (y ∷ b) ha hb e = ground (arith, hex_byte_inj x y, hex_inj a b ha.1 hb.1)

pub hex_digits : (b : Bytes) → All (λ x. x < 256) b → All (λ c. is_lower_hex c ≡ true) (hex b)
unfolding hex
hex_digits [] h = tt
hex_digits (x ∷ b) h = (ground arith, (ground arith, hex_digits b h.1))
