-- ===== src/Qlib/Ping/Chars.antt =====
-- The count of UTF-16 units in the data of a ping: how long it takes, and what it is of valid text.
use mnm.Prelude.{
  ℕ, zero, suc, ◌+◌, ◌*◌, ◌≤◌, ◌≡◌, refl, sym, ◌∙◌, ap, subst, true, false, some, List, [], ◌∷◌,
  ◌++◌, Text, length, drop, length-append, drop-append, ltb, leb, ◌==◌, if◌then◌else◌, All, arith,
}
use mnm.Utf8.{rune_error, decode_rune}
use mnm.Utf8.Encode.{
  encode_rune, is_scalar, decode_rune-encode_rune, width_positive, encode_rune-cons,
}
use mnm.Qlib.Header.{pos}
use mnm.Qlib.Op.{Ending}
use mnm.Qlib.Stream.{Stream}
use mnm.Qlib.Ping.{full, passes, fill, utf16_len, check_chars, check_filled, check_ping}

drop_shorter : (n : ℕ) (b : ℕ) (s : Text) → 1 ≤ n → length (drop n (b ∷ s)) ≤ length s
drop_shorter zero b s h = absurd (omega arith)
drop_shorter (suc n) b s h = length-drop n s
  where
    length-drop : (n : ℕ) (s : Text) → length (drop n s) ≤ length s
    length-drop zero s = omega arith
    length-drop (suc n) [] = omega arith
    length-drop (suc n) (x ∷ s) = omega (arith, length-drop n s)

-- The loop over the data ends: with as many rounds as there are bytes, more rounds change nothing.
pub utf16_len-fuel :
    (f g n : ℕ) (s : Text) → length s ≤ f → length s ≤ g → utf16_len f n s ≡ utf16_len g n s
unfolding utf16_len
utf16_len-fuel f g n [] h k = refl
utf16_len-fuel zero g n (b ∷ s) h k = absurd (omega arith)
utf16_len-fuel (suc f) zero n (b ∷ s) h k = absurd (omega arith)
utf16_len-fuel (suc f) (suc g) n (b ∷ s) h k =
    let r = decode_rune (b ∷ s) in
    let shorter : length (drop r.width (b ∷ s)) ≤ length s =
      drop_shorter r.width b s (width_positive b s) in
    rw
      (utf16_len-fuel f g (n + (if leb 0x10000 r.code then 2 else 1)) (drop r.width (b ∷ s))
        (omega (arith, shorter)) (omega (arith, shorter)))
      refl

-- Runes in UTF-8, and their count in UTF-16.
unfoldable pub encode : List ℕ → Text
encode [] = []
encode (r ∷ rs) = encode_rune r ++ encode rs

abbrev pub units : List ℕ → ℕ
units [] = 0
units (r ∷ rs) = (if leb 0x10000 r then 2 else 1) + units rs

-- A scalar value other than RuneError.
abbrev pub IsPlain : ℕ → Type 0
IsPlain r = (is_scalar r ≡ true) × ((r == rune_error) ≡ false)

utf16_len-rune :
    (f n r b : ℕ) (t s : Text)
    → encode_rune r ≡ b ∷ t
    → IsPlain r
    → utf16_len (suc f) n (b ∷ t ++ s) ≡ utf16_len f (n + (if leb 0x10000 r then 2 else 1)) s
unfolding utf16_len
utf16_len-rune f n r b t s e p =
    let d : decode_rune (b ∷ t ++ s) ≡ record { code = r; width = length (b ∷ t) } =
      subst (λ x. decode_rune (x ++ s) ≡ record { code = r; width = length x }) e
        (decode_rune-encode_rune r s p.0) in
    rw d (rw p.1 (rw (drop-append t s) refl))

module _ (r b : ℕ) (t : Text) (rs : List ℕ) (e : encode_rune r ≡ b ∷ t) (p : IsPlain r)
    (others : (g m : ℕ)
      → length (encode rs) ≤ g
      → utf16_len g m (encode rs) ≡ some (m + units rs)) where
  utf16_len-first :
      (f n : ℕ)
      → length (b ∷ t ++ encode rs) ≤ f
      → utf16_len f n (b ∷ t ++ encode rs) ≡ some (n + units (r ∷ rs))
  utf16_len-first zero n h = absurd (omega arith)
  utf16_len-first (suc f) n h =
      utf16_len-rune f n r b t (encode rs) e p
      ∙ others f (n + (if leb 0x10000 r then 2 else 1)) (omega (arith, length-append t (encode rs)))
      ∙ ap some (omega arith)

-- With as many rounds as there are bytes or more, the count of encoded runes is the count of their
-- UTF-16 units, if all are scalar values and none is RuneError.
pub utf16_len-encode :
    (f n : ℕ) (rs : List ℕ)
    → length (encode rs) ≤ f
    → All IsPlain rs
    → utf16_len f n (encode rs) ≡ some (n + units rs)
unfolding encode
utf16_len-encode f n [] h p = unfold utf16_len in ap some (omega arith)
utf16_len-encode f n (r ∷ rs) h p =
    let (b, (t, e)) = encode_rune-cons r in
    subst
      (λ x.
        length (x ++ encode rs) ≤ f → utf16_len f n (x ++ encode rs) ≡ some (n + units (r ∷ rs)))
      (sym e) (utf16_len-first r b t rs e p.0 (λ g m k. utf16_len-encode g m rs k p.1) f n) h

length-encode_rune : (r : ℕ) → length (encode_rune r) ≤ (if leb 0x10000 r then 2 else 1) * 3
unfolding encode_rune
length-encode_rune r = ground arith

length-encode : (rs : List ℕ) → length (encode rs) ≤ units rs * 3
unfolding encode
length-encode [] = omega arith
length-encode (r ∷ rs) =
    omega (arith, length-append (encode_rune r) (encode rs), length-encode_rune r, length-encode rs)

fill-there :
    (n : ℕ) (e : Ending) (b : Text) (ps : List Text) → length b ≡ n → fill n e b ps ≡ full b ps
unfolding fill
fill-there n e b [] h = ground arith
fill-there n e b (p ∷ ps) h = ground arith

check_chars-encode :
    (rs : List ℕ) (left : List Text)
    → All IsPlain rs
    → units rs ≤ 140
    → check_chars (encode rs) left ≡ passes (encode rs) left
unfolding check_chars
check_chars-encode rs left p h =
    let few : ltb 140 (0 + units rs) ≡ false = ground arith in
    rw (utf16_len-encode (length (encode rs)) 0 rs (omega arith) p, check_chars) (rw few refl)

-- A ping passes if the data that came with its header are runes in UTF-8, all scalar values but
-- RuneError, of at most 140 UTF-16 units together.
pub check_ping-encode :
    (space : ℕ) (rs : List ℕ) (s : Stream)
    → All IsPlain rs
    → units rs ≤ 140
    → check_ping space (pos (length (encode rs))) (encode rs) s ≡ passes (encode rs) s.pieces
unfolding check_ping check_filled
check_ping-encode space rs s p h =
    let n = length (encode rs) in
    let fits : ltb 420 n ≡ false = ground (arith, length-encode rs) in
    let there : ltb n n ≡ false = ground arith in
    rw (fits, there)
      (rw (fill-there n s.ending (encode rs) s.pieces refl) (check_chars-encode rs s.pieces p h))
