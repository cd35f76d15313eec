-- ===== src/Qlib/Store/Ids.antt =====
-- The identifiers of messages: later ones come later in the order of sort.Strings.
use mnm.Prelude.{
  ℕ, zero, suc, ◌+◌, ◌*◌, ◌%◌, ◌/◌, ◌^◌, ◌<◌, ◌≡◌, refl, sym, ◌∙◌, true, false, ◌&&◌, [], ◌∷◌, ◌++◌,
  Text, arith, length, length-append, leb, ◌==◌, if◌then◌else◌, eq_text,
}
use native.Mathlib.Nat.{pow-succ'}
use mnm.Prelude.Order.{leb_text}
use mnm.UserDb.Model.{hex_digit}
use mnm.Qlib.Op.{ok}
use mnm.Qlib.Store.{Store, hex_from, make_id, max_uint64}

length-hex_from : (k n : ℕ) → length (hex_from k n) ≡ k
unfolding hex_from
length-hex_from zero n = refl
length-hex_from (suc k) n = rw length-append (omega (arith, length-hex_from k (n / 16)))

eq_text-snoc :
    (xs ys : Text) (c d : ℕ)
    → length xs ≡ length ys
    → eq_text (xs ++ c ∷ []) (ys ++ d ∷ []) ≡ eq_text xs ys && c == d
unfolding eq_text
eq_text-snoc [] [] c d h = ground arith
eq_text-snoc [] (y ∷ ys) c d h = absurd (omega arith)
eq_text-snoc (x ∷ xs) [] c d h = absurd (omega arith)
eq_text-snoc (x ∷ xs) (y ∷ ys) c d h = ground (arith, eq_text-snoc xs ys c d)

leb_text-snoc :
    (xs ys : Text) (c d : ℕ)
    → length xs ≡ length ys
    → leb_text (xs ++ c ∷ []) (ys ++ d ∷ []) ≡ (if eq_text xs ys then leb c d else leb_text xs ys)
unfolding leb_text eq_text
leb_text-snoc [] [] c d h = ground arith
leb_text-snoc [] (y ∷ ys) c d h = absurd (omega arith)
leb_text-snoc (x ∷ xs) [] c d h = absurd (omega arith)
leb_text-snoc (x ∷ xs) (y ∷ ys) c d h = ground (arith, leb_text-snoc xs ys c d)

div_lt_pow : (k n : ℕ) → n < 16 ^ suc k → n / 16 < 16 ^ k
div_lt_pow k n h = let e : 16 ^ suc k ≡ 16 * 16 ^ k = pow-succ' 16 k in omega (arith, e)

digit-eq : (a b : ℕ) → (hex_digit (a % 16) == hex_digit (b % 16)) ≡ (a % 16 == b % 16)
digit-eq a b = ground arith

digit-leb : (a b : ℕ) → leb (hex_digit (a % 16)) (hex_digit (b % 16)) ≡ leb (a % 16) (b % 16)
digit-leb a b = ground arith

module _ (k a b : ℕ) where
  same_length : length (hex_from k a) ≡ length (hex_from k b)
  same_length = length-hex_from k a ∙ sym (length-hex_from k b)

eq_text-hex_from :
    (k a b : ℕ) → a < 16 ^ k → b < 16 ^ k → eq_text (hex_from k a) (hex_from k b) ≡ (a == b)
unfolding hex_from eq_text
eq_text-hex_from zero a b h g = ground arith
eq_text-hex_from (suc k) a b h g =
    rw
      (eq_text-snoc (hex_from k (a / 16)) (hex_from k (b / 16)) _ _
        (same_length k (a / 16) (b / 16)))
      (rw (eq_text-hex_from k (a / 16) (b / 16) (div_lt_pow k a h) (div_lt_pow k b g))
        (rw (digit-eq a b) (ground arith)))

-- Numbers below 16 ^ k, written by k digits each, stand in the order of the numbers.
pub leb_text-hex_from :
    (k a b : ℕ) → a < 16 ^ k → b < 16 ^ k → leb_text (hex_from k a) (hex_from k b) ≡ leb a b
unfolding hex_from leb_text
leb_text-hex_from zero a b h g = ground arith
leb_text-hex_from (suc k) a b h g =
    rw
      (leb_text-snoc (hex_from k (a / 16)) (hex_from k (b / 16)) _ _
        (same_length k (a / 16) (b / 16)))
      (rw (eq_text-hex_from k (a / 16) (b / 16) (div_lt_pow k a h) (div_lt_pow k b g)) (
        rw (leb_text-hex_from k (a / 16) (b / 16) (div_lt_pow k a h) (div_lt_pow k b g))
          (rw (digit-leb a b) (ground arith))))

-- Until the counter wraps, an identifier that is made later differs from an earlier one and comes
-- after it in the order by which a node's messages are sent.
pub make_id-ordered :
    (s t : Store)
    → s.next_id < t.next_id
    → t.next_id + 1 < max_uint64
    → (a : Text) × (b : Text) × ((make_id s).0 ≡ ok a)
      × ((make_id t).0 ≡ ok b)
      × (leb_text a b ≡ true)
      × (eq_text a b ≡ false)
unfolding make_id
make_id-ordered s t h g =
    let e : (s.next_id + 1) % max_uint64 ≡ s.next_id + 1 = omega arith in
    let f : (t.next_id + 1) % max_uint64 ≡ t.next_id + 1 = omega arith in
    let m : ℕ = (s.next_id + 1) % max_uint64 in
    let n : ℕ = (t.next_id + 1) % max_uint64 in
    let small_m : m < 16 ^ 16 = omega arith in
    let small_n : n < 16 ^ 16 = omega arith in
    (
      hex_from 16 m,
      hex_from 16 n,
      refl,
      refl,
      leb_text-hex_from 16 m n small_m small_n ∙ ground (arith, e, f),
      eq_text-hex_from 16 m n small_m small_n ∙ ground (arith, e, f),
    )
