-- ===== src/Utf8.antt =====
-- utf8.DecodeRune of Go's library, which userdb.go (invalidInput) and qlib/qlib.go (_checkPing) call.
pub mod Encode
use mnm.Prelude.{ℕ, ◌+◌, ◌-◌, ◌*◌, Bool, ◌&&◌, [], ◌∷◌, Text, ltb, leb, ◌==◌, if◌then◌else◌}

abbrev pub rune_error : ℕ
rune_error = 0xfffd

-- The rune, and the number of bytes that it takes.
pub record Rune : Type 0 where
  pub code : ℕ
  pub width : ℕ

abbrev invalid : Rune
invalid = record { code = rune_error; width = 1 }

unfoldable is_tail : ℕ → Bool
is_tail b = leb 0x80 b && leb b 0xbf

unfoldable two_bytes : ℕ → ℕ → Rune
unfolding is_tail
two_bytes a b =
    if is_tail b then record { code = (a - 0xc0) * 64 + (b - 0x80); width = 2 } else invalid

-- No overlong form and no surrogate.
unfoldable three_bytes : ℕ → ℕ → ℕ → Rune
unfolding is_tail
three_bytes a b c =
    if leb (if a == 0xe0 then 0xa0 else 0x80) b
      && leb b (if a == 0xed then 0x9f else 0xbf)
      && is_tail c
    then record { code = ((a - 0xe0) * 64 + (b - 0x80)) * 64 + (c - 0x80); width = 3 }
    else invalid

-- No overlong form, and no rune above 0x10ffff.
unfoldable four_bytes : ℕ → ℕ → ℕ → ℕ → Rune
unfolding is_tail
four_bytes a b c d =
    if leb (if a == 0xf0 then 0x90 else 0x80) b
      && leb b (if a == 0xf4 then 0x8f else 0xbf)
      && is_tail c
      && is_tail d
    then record {
      code = (((a - 0xf0) * 64 + (b - 0x80)) * 64 + (c - 0x80)) * 64 + (d - 0x80);
      width = 4;
    }
    else invalid

-- An invalid or incomplete sequence gives RuneError, at the width of one byte.
unfoldable pub decode_rune : Text → Rune
unfolding two_bytes three_bytes four_bytes
decode_rune [] = record { code = rune_error; width = 0 }
decode_rune (a ∷ []) = if ltb a 0x80 then record { code = a; width = 1 } else invalid
decode_rune (a ∷ b ∷ []) =
    if ltb a 0x80
    then record { code = a; width = 1 }
    else if leb 0xc2 a && leb a 0xdf
    then two_bytes a b
    else invalid
decode_rune (a ∷ b ∷ c ∷ []) =
    if ltb a 0x80
    then record { code = a; width = 1 }
    else if leb 0xc2 a && leb a 0xdf
    then two_bytes a b
    else if leb 0xe0 a && leb a 0xef
    then three_bytes a b c
    else invalid
decode_rune (a ∷ b ∷ c ∷ d ∷ s) =
    if ltb a 0x80
    then record { code = a; width = 1 }
    else if leb 0xc2 a && leb a 0xdf
    then two_bytes a b
    else if leb 0xe0 a && leb a 0xef
    then three_bytes a b c
    else if leb 0xf0 a && leb a 0xf4
    then four_bytes a b c d
    else invalid
