-- ===== src/UserDb/Input.antt =====
-- userdb.go, invalidInput and invalidAscii, over the bytes of a string.
use mnm.Prelude.{
  ℕ, zero, suc, Bool, true, false, not, ◌&&◌, ◌||◌, [], ◌∷◌, Text, leb, ◌==◌, all, drop, length,
  if◌then◌else◌,
}
use mnm.Utf8.{rune_error, decode_rune}

-- `is_print` is unicode.IsPrint. Each round takes a byte at least, so that the number of bytes is
-- fuel enough.
input_loop : (ℕ → Bool) → ℕ → Text → Bool
input_loop is_print fuel [] = false
input_loop is_print zero (b ∷ s) = false
input_loop is_print (suc fuel) (b ∷ s) =
    let r = decode_rune (b ∷ s) in
    let rest = input_loop is_print fuel (drop r.width (b ∷ s)) in
    if r.code == rune_error || not (is_print r.code) then true else rest

unfoldable pub invalid_input : (ℕ → Bool) → Text → Bool
unfolding input_loop
invalid_input is_print s = input_loop is_print (length s) s

-- A byte of a character beyond ASCII is refused as the character is.
unfoldable pub invalid_ascii : Text → Bool
invalid_ascii s = not (all (λ a. leb 0x20 a && leb a 0x7e) s)
