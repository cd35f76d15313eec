-- ===== src/UserDb/Names/Escape.antt =====
-- url.QueryUnescape undoes url.QueryEscape, and a temporary file's name gives back the record's.
use mnm.Prelude.{
  ℕ, ◌+◌, ◌/◌, ◌%◌, ◌*◌, ◌<◌, ◌≡◌, refl, true, false, Option, none, some, [], ◌∷◌, ◌++◌, arith,
  Text, ◌==◌, All, Bool-cases, ==_iff, inl, inr, sym,
}
use mathlib.Core.Option
use mnm.UserDb.Names.{
  is_unreserved, upper_hex, escape_byte, escape, plain, unescape, unhex, unhex_pair,
}

abbrev pub IsBytes : Text → Type 0
IsBytes s = All (λ b. b < 256) s

unescape-plain : (c : ℕ) (s : Text) → (c == b'%') ≡ false → unescape (c ∷ s) ≡ plain c (unescape s)
unfolding unescape
unescape-plain c [] h = rw h
unescape-plain c (x ∷ []) h = rw h
unescape-plain c (x ∷ y ∷ s) h = rw h

unhex-upper_hex : (d : ℕ) → d < 16 → unhex (upper_hex d) ≡ some d
unfolding unhex upper_hex
unhex-upper_hex d h = ground arith

unescape-percent :
    (b : ℕ) (s : Text)
    → b < 256
    → unescape (b'%' ∷ upper_hex (b / 16) ∷ upper_hex (b % 16) ∷ s)
      ≡ Option.map (λ r. b ∷ r) (unescape s)
unfolding unescape
unescape-percent b s h =
    rw (unhex-upper_hex (b / 16) (omega arith), unhex-upper_hex (b % 16) (omega arith), unhex_pair)
      (join (unescape s))
  where
    same : b / 16 * 16 + b % 16 ≡ b
    same = omega arith

    join :
        (r : Option Text) → unhex_pair (some (b / 16)) (some (b % 16)) r ≡ Option.map (λ r. b ∷ r) r
    join none = refl
    join (some r) = rw same

unreserved_plain : (b : ℕ) → is_unreserved b ≡ true → ((b == b'%') ≡ false) × ((b == b'+') ≡ false)
unfolding is_unreserved
unreserved_plain b h = ground arith

-- One escaped byte is read back, whatever follows it.
unescape-escape_byte :
    (b : ℕ) (s : Text)
    → b < 256
    → unescape (escape_byte b ++ s) ≡ Option.map (λ r. b ∷ r) (unescape s)
unfolding escape_byte plain
unescape-escape_byte b s h = elim (Bool-cases (is_unreserved b)) [
  | inl kept ↦ let (p, q) = unreserved_plain b kept in rw kept (rw (unescape-plain b s p) (rw q))
  | inr other ↦ elim (Bool-cases (b == b' ')) [
    | inl space ↦
        rw (other, space) (rw (unescape-plain b'+' s refl) (rw (sym ((==_iff b b' ').0 space))))
    | inr rest ↦ rw (other, rest) (unescape-percent b s h)
  ]
]

-- url.QueryUnescape gives back a string of bytes that url.QueryEscape escaped.
pub unescape-escape : (s : Text) → IsBytes s → unescape (escape s) ≡ some s
unfolding escape
unescape-escape [] h = unfold unescape in refl
unescape-escape (b ∷ s) h = rw (unescape-escape_byte b (escape s) h.0) (rw (unescape-escape s h.1))
