-- ===== src/Text.antt =====
-- Rust's `str`, as its list of Unicode scalar values, with the methods that the code calls:
-- the UTF-8 bytes, their number (`len`), `trim().is_empty()`, and `std::str::from_utf8` on bytes.
use m_i_o.Prelude.{
  ℕ, zero, suc, ◌+◌, ◌/◌, ◌%◌, Bool, true, false, ◌&&◌, ◌||◌, Option, none, some, List, [], ◌∷◌,
  ◌++◌, ltb, nat_beq, between, if◌then◌else◌, length, all,
}
use Prim.Native.Char.{code}
use Prim.Native.String.{String}

abbrev pub Str : Type 0
Str = List ℕ

-- A literal's scalar values.
abbrev pub lit : String → Str
lit String.[] = []
lit (String.◌∷◌ c s) = code c ∷ lit s

-- The UTF-8 encoding of one scalar value.
unfoldable pub encode_char : ℕ → List ℕ
encode_char c =
    if ltb c 0x80
    then c ∷ []
    else if ltb c 0x800
    then (0xc0 + c / 64) ∷ (0x80 + c % 64) ∷ []
    else if ltb c 0x10000
    then (0xe0 + c / 4096) ∷ (0x80 + c / 64 % 64) ∷ (0x80 + c % 64) ∷ []
    else (0xf0 + c / 262144) ∷ (0x80 + c / 4096 % 64) ∷ (0x80 + c / 64 % 64) ∷ (0x80 + c % 64) ∷ []

unfoldable pub bytes : Str → List ℕ
unfolding encode_char
bytes [] = []
bytes (c ∷ s) = encode_char c ++ bytes s

-- `str::len`: the number of bytes.
unfoldable pub len : Str → ℕ
unfolding bytes
len s = length (bytes s)

-- `char::is_whitespace` (the property White_Space).
unfoldable pub is_whitespace : ℕ → Bool
is_whitespace c =
    between 9 13 c
    || nat_beq c 32
    || nat_beq c 0x85
    || nat_beq c 0xa0
    || nat_beq c 0x1680
    || between 0x2000 0x200a c
    || nat_beq c 0x2028
    || nat_beq c 0x2029
    || nat_beq c 0x202f
    || nat_beq c 0x205f
    || nat_beq c 0x3000

-- `s.trim().is_empty()`: trimming leaves nothing exactly if every character is white space.
unfoldable pub is_blank : Str → Bool
unfolding is_whitespace all
is_blank s = all is_whitespace s

-- What a leading byte announces: how many bytes follow, and the range of the next.
lead : ℕ → Option (ℕ × ℕ × ℕ)
lead b =
    if ltb b 0x80
    then some (0, 0x80, 0xbf)
    else if between 0xc2 0xdf b
    then some (1, 0x80, 0xbf)
    else if nat_beq b 0xe0
    then some (2, 0xa0, 0xbf)
    else if nat_beq b 0xed
    then some (2, 0x80, 0x9f)
    else if between 0xe1 0xef b
    then some (2, 0x80, 0xbf)
    else if nat_beq b 0xf0
    then some (3, 0x90, 0xbf)
    else if between 0xf1 0xf3 b
    then some (3, 0x80, 0xbf)
    else if nat_beq b 0xf4
    then some (3, 0x80, 0x8f)
    else none

utf8_rest : ℕ → ℕ → ℕ → List ℕ → Bool
unfolding lead
utf8_rest zero lo hi [] = true
utf8_rest (suc n) lo hi [] = false
utf8_rest zero lo hi (b ∷ bs) = elim (lead b) [
  | none ↦ false
  | some (n, lo', hi') ↦ utf8_rest n lo' hi' bs
]
utf8_rest (suc n) lo hi (b ∷ bs) = between lo hi b && utf8_rest n 0x80 0xbf bs

-- `std::str::from_utf8(input).is_ok()`.
unfoldable pub is_utf8 : List ℕ → Bool
unfolding utf8_rest
is_utf8 bs = utf8_rest 0 0x80 0xbf bs
