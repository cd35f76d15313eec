-- ===== src/Utf8/Encode.antt =====
-- The encoding of runes in UTF-8, as RFC 3629 has it, and utf8.DecodeRune of it.
use mnm.Prelude.{
  ℕ, ◌+◌, ◌/◌, ◌%◌, ◌<◌, ◌≤◌, ◌≡◌, inl, inr, Bool, true, refl, ◌||◌, ◌&&◌, [], ◌∷◌, ◌++◌, Text,
  length, ltb, leb, if◌then◌else◌, arith, Bool-cases,
}
use mnm.Utf8.{is_tail, two_bytes, three_bytes, four_bytes, decode_rune}

-- The byte that goes on an encoding with these six bits.
abbrev pub tail_byte : ℕ → ℕ
tail_byte n = 0x80 + n % 0x40

unfoldable pub encode_rune : ℕ → Text
encode_rune r =
    if ltb r 0x80
    then r ∷ []
    else if ltb r 0x800
    then (0xc0 + r / 0x40) ∷ tail_byte r ∷ []
    else if ltb r 0x10000
    then (0xe0 + r / 0x1000) ∷ tail_byte (r / 0x40) ∷ tail_byte r ∷ []
    else (0xf0 + r / 0x40000) ∷ tail_byte (r / 0x1000) ∷ tail_byte (r / 0x40) ∷ tail_byte r ∷ []

-- A Unicode scalar value.
abbrev pub is_scalar : ℕ → Bool
is_scalar r = ltb r 0xd800 || leb 0xe000 r && ltb r 0x110000

decode_one : (a : ℕ) (s : Text) → a < 0x80 → decode_rune (a ∷ s) ≡ record { code = a; width = 1 }
unfolding decode_rune
decode_one a [] h = ground arith
decode_one a (b ∷ []) h = ground arith
decode_one a (b ∷ c ∷ []) h = ground arith
decode_one a (b ∷ c ∷ d ∷ s) h = ground arith

decode_two : (a b : ℕ) (s : Text) → 0xc2 ≤ a → a ≤ 0xdf → decode_rune (a ∷ b ∷ s) ≡ two_bytes a b
unfolding decode_rune
decode_two a b [] h g = ground arith
decode_two a b (c ∷ []) h g = ground arith
decode_two a b (c ∷ d ∷ s) h g = ground arith

decode_three :
    (a b c : ℕ) (s : Text) → 0xe0 ≤ a → a ≤ 0xef → decode_rune (a ∷ b ∷ c ∷ s) ≡ three_bytes a b c
unfolding decode_rune
decode_three a b c [] h g = ground arith
decode_three a b c (d ∷ s) h g = ground arith

decode_four :
    (a b c d : ℕ) (s : Text)
    → 0xf0 ≤ a
    → a ≤ 0xf4
    → decode_rune (a ∷ b ∷ c ∷ d ∷ s) ≡ four_bytes a b c d
unfolding decode_rune
decode_four a b c d s h g = ground arith

two_lem :
    (r : ℕ) (s : Text)
    → 0x80 ≤ r
    → r < 0x800
    → decode_rune ((0xc0 + r / 0x40) ∷ tail_byte r ∷ s) ≡ record { code = r; width = 2 }
unfolding two_bytes is_tail
two_lem r s h g =
    rw (decode_two (0xc0 + r / 0x40) (tail_byte r) s (omega arith) (omega arith)) (ground arith)

three_lem :
    (r : ℕ) (s : Text)
    → 0x800 ≤ r
    → r < 0x10000
    → is_scalar r ≡ true
    → decode_rune ((0xe0 + r / 0x1000) ∷ tail_byte (r / 0x40) ∷ tail_byte r ∷ s)
      ≡ record { code = r; width = 3 }
unfolding three_bytes is_tail
three_lem r s h g k =
    rw
      (decode_three (0xe0 + r / 0x1000) (tail_byte (r / 0x40)) (tail_byte r) s (omega arith)
        (omega arith))
      (ground arith)

four_lem :
    (r : ℕ) (s : Text)
    → 0x10000 ≤ r
    → r < 0x110000
    → decode_rune
        ((0xf0 + r / 0x40000) ∷ tail_byte (r / 0x1000) ∷ tail_byte (r / 0x40) ∷ tail_byte r ∷ s)
      ≡ record { code = r; width = 4 }
unfolding four_bytes is_tail
four_lem r s h g =
    rw
      (decode_four (0xf0 + r / 0x40000) (tail_byte (r / 0x1000)) (tail_byte (r / 0x40))
        (tail_byte r) s (omega arith) (omega arith))
      (ground arith)

-- Decoding what starts with an encoded rune gives that rune and its width.
pub decode_rune-encode_rune :
    (r : ℕ) (s : Text)
    → is_scalar r ≡ true
    → decode_rune (encode_rune r ++ s) ≡ record { code = r; width = length (encode_rune r) }
unfolding encode_rune
decode_rune-encode_rune r s h = elim (Bool-cases (ltb r 0x80)) [
  | inl a ↦ rw a (decode_one r s (ground arith))
  | inr a ↦ rw a (elim (Bool-cases (ltb r 0x800)) [
    | inl b ↦ rw b (two_lem r s (ground arith) (ground arith))
    | inr b ↦ rw b (elim (Bool-cases (ltb r 0x10000)) [
      | inl c ↦ rw c (three_lem r s (ground arith) (ground arith) h)
      | inr c ↦ rw c (four_lem r s (ground arith) (ground arith))
    ])
  ])
]

pub width_positive : (b : ℕ) (s : Text) → 1 ≤ (decode_rune (b ∷ s)).width
unfolding decode_rune two_bytes three_bytes four_bytes
width_positive a [] = ground arith
width_positive a (b ∷ []) = ground arith
width_positive a (b ∷ c ∷ []) = ground arith
width_positive a (b ∷ c ∷ d ∷ s) = ground arith

pub encode_rune-cons : (r : ℕ) → (b : ℕ) × ((t : Text) × (encode_rune r ≡ b ∷ t))
unfolding encode_rune
encode_rune-cons r = elim (Bool-cases (ltb r 0x80)) [
  | inl a ↦ rw a (_, (_, refl))
  | inr a ↦ rw a (elim (Bool-cases (ltb r 0x800)) [
    | inl b ↦ rw b (_, (_, refl))
    | inr b ↦ rw b (elim (Bool-cases (ltb r 0x10000)) [
      | inl c ↦ rw c (_, (_, refl))
      | inr c ↦ rw c (_, (_, refl))
    ])
  ])
]
