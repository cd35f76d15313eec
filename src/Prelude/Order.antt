-- ===== src/Prelude/Order.antt =====
-- Byte strings in the order of sort.Strings, and that sort.
use Prim.Native.Nat.{ℕ, suc, ◌+◌}
use mathlib.Core.Path.{◌≡◌, refl}
use mathlib.Core.Logic.{◌⊎◌, inl, inr}
use mathlib.Core.Bool.{Bool, true, false, ◌&&◌, ◌||◌}
use mathlib.Core.List.{List, [], ◌∷◌, ◌++◌}
use native.Mathlib.Omega.{arith}
use mnm.Prelude.Tests.{ltb, ◌==◌, if◌then◌else◌, Bool-cases}
use mnm.Prelude.Lists.{All}
use mnm.Prelude.Texts.{Text, eq_text}

-- At most, byte by byte; a prefix comes first.
unfoldable pub leb_text : Text → Text → Bool
leb_text [] ys = true
leb_text (x ∷ xs) [] = false
leb_text (x ∷ xs) (y ∷ ys) = ltb x y || (x == y) && leb_text xs ys

pub leb_text_total : (xs ys : Text) → (leb_text xs ys ≡ true) ⊎ (leb_text ys xs ≡ true)
unfolding leb_text
leb_text_total [] ys = inl refl
leb_text_total (x ∷ xs) [] = inr refl
leb_text_total (x ∷ xs) (y ∷ ys) = ground (arith, leb_text_total xs ys)

pub leb_text_trans :
    (xs ys zs : Text) → leb_text xs ys ≡ true → leb_text ys zs ≡ true → leb_text xs zs ≡ true
unfolding leb_text
leb_text_trans [] ys zs h g = refl
leb_text_trans (x ∷ xs) [] zs h g = cc
leb_text_trans (x ∷ xs) (y ∷ ys) [] h g = cc
leb_text_trans (x ∷ xs) (y ∷ ys) (z ∷ zs) h g = ground (arith, leb_text_trans xs ys zs)

unfoldable pub insert_text : Text → List Text → List Text
insert_text x [] = x ∷ []
insert_text x (y ∷ ys) =
    let rest = insert_text x ys in if leb_text x y then x ∷ y ∷ ys else y ∷ rest

-- sort.Strings
unfoldable pub sort_texts : List Text → List Text
unfolding insert_text
sort_texts [] = []
sort_texts (x ∷ xs) = insert_text x (sort_texts xs)

-- Each text is at most all that follow it.
abbrev pub IsSorted : List Text → Type 0
IsSorted [] = Unit {0}
IsSorted (x ∷ xs) = All (λ y. leb_text x y ≡ true) xs × IsSorted xs

All-insert_text :
    (z x : Text) (ys : List Text)
    → leb_text z x ≡ true
    → All (λ y. leb_text z y ≡ true) ys
    → All (λ y. leb_text z y ≡ true) (insert_text x ys)
unfolding insert_text
All-insert_text z x [] h a = (h, tt)
All-insert_text z x (y ∷ ys) h a = elim (Bool-cases (leb_text x y)) [
  | inl e ↦ rw e (h, a)
  | inr e ↦ rw e (a.0, All-insert_text z x ys h a.1)
]

All-le_trans :
    (x y : Text) (ys : List Text)
    → leb_text x y ≡ true
    → All (λ z. leb_text y z ≡ true) ys
    → All (λ z. leb_text x z ≡ true) ys
All-le_trans x y [] h a = tt
All-le_trans x y (z ∷ ys) h a = (leb_text_trans x y z h a.0, All-le_trans x y ys h a.1)

pub insert_text-IsSorted : (x : Text) (ys : List Text) → IsSorted ys → IsSorted (insert_text x ys)
unfolding insert_text
insert_text-IsSorted x [] s = (tt, tt)
insert_text-IsSorted x (y ∷ ys) s = elim (Bool-cases (leb_text x y)) [
  | inl e ↦ rw e ((e, All-le_trans x y ys e s.0), s)
  | inr e ↦ rw e (All-insert_text y x ys (other e) s.0, insert_text-IsSorted x ys s.1)
]
  where
    other : leb_text x y ≡ false → leb_text y x ≡ true
    other e = ground (arith, leb_text_total x y)

pub sort_texts-IsSorted : (xs : List Text) → IsSorted (sort_texts xs)
unfolding sort_texts
sort_texts-IsSorted [] = tt
sort_texts-IsSorted (x ∷ xs) = insert_text-IsSorted x (sort_texts xs) (sort_texts-IsSorted xs)

-- How often a text stands in a list.
abbrev pub count : Text → List Text → ℕ
count z [] = 0
count z (x ∷ xs) = if eq_text z x then suc (count z xs) else count z xs

pub count-append : (z : Text) (xs ys : List Text) → count z (xs ++ ys) ≡ count z xs + count z ys
count-append z [] ys = omega arith
count-append z (x ∷ xs) ys = ground (arith, count-append z xs ys)

pub count-insert_text :
    (z x : Text) (ys : List Text) → count z (insert_text x ys) ≡ count z (x ∷ ys)
unfolding insert_text
count-insert_text z x [] = refl
count-insert_text z x (y ∷ ys) = ground (arith, count-insert_text z x ys)

pub count-sort_texts : (z : Text) (xs : List Text) → count z (sort_texts xs) ≡ count z xs
unfolding sort_texts
count-sort_texts z [] = refl
count-sort_texts z (x ∷ xs) =
    ground (arith, count-insert_text z x (sort_texts xs), count-sort_texts z xs)
