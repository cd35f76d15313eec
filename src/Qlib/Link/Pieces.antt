-- ===== src/Qlib/Link/Pieces.antt =====
-- Bytes that come in pieces: what a prefix of them holds, and what is copied from them.
use mathlib.Core.List.{append_assoc}
use mnm.Prelude.{
  ℕ, zero, suc, ◌+◌, ◌-◌, ◌≤◌, ◌≡◌, ◌∙◌, ap, sym, inl, inr, refl, List, [], ◌∷◌, ◌++◌, Text, length,
  take, drop, leb, arith, Bool-cases, length-append, take-append, drop-append, append-take-drop,
  length-take, length-drop,
}
use mnm.Qlib.Stream.{copy_pieces}

take-prefix : (n : ℕ) (s t : Text) → n ≤ length s → take n (s ++ t) ≡ take n s
take-prefix zero s t h = refl
take-prefix (suc n) [] t h = absurd (omega arith)
take-prefix (suc n) (b ∷ s) t h = rw (take-prefix n s t (omega arith)) refl

drop-prefix : (n : ℕ) (s t : Text) → n ≤ length s → drop n (s ++ t) ≡ drop n s ++ t
drop-prefix zero s t h = refl
drop-prefix (suc n) [] t h = absurd (omega arith)
drop-prefix (suc n) (b ∷ s) t h = drop-prefix n s t (omega arith)

-- The bytes that all pieces hold.
abbrev pub joined : List Text → Text
joined [] = []
joined (p ∷ ps) = p ++ joined ps

-- Bounds the reads that take all pieces: each takes a piece whole or a byte at least.
abbrev pub size : List Text → ℕ
size [] = 0
size (p ∷ ps) = length p + 1 + size ps

-- A text that two splits make: the longer first part begins with the shorter one.
module _ (s t u v : Text) (e : s ++ t ≡ u ++ v) (h : length u ≤ length s) where
  pub prefix-take : take (length u) s ≡ u
  prefix-take = sym (take-prefix (length u) s t h) ∙ ap (take (length u)) e ∙ take-append u v

  pub prefix-drop : drop (length u) s ++ t ≡ v
  prefix-drop = sym (drop-prefix (length u) s t h) ∙ ap (drop (length u)) e ∙ drop-append u v

-- copyN copies a first part of the pieces, all of it if there is as much, and leaves the others.
pub copy_pieces-joined :
    (n : ℕ) (ps : List Text)
    → ((copy_pieces n ps).0 ++ joined (copy_pieces n ps).2 ≡ joined ps)
      × (size (copy_pieces n ps).2 ≤ size ps)
unfolding copy_pieces
copy_pieces-joined zero ps = (refl, omega arith)
copy_pieces-joined (suc n) [] = (refl, omega arith)
copy_pieces-joined (suc n) (p ∷ ps) = elim (Bool-cases (leb (length p) (suc n))) [
  | inl e ↦
      let (same, less) = copy_pieces-joined (suc n - length p) ps in
      rw e (
        append_assoc p (copy_pieces (suc n - length p) ps).0
              (joined (copy_pieces (suc n - length p) ps).2)
            ∙ ap (λ x. p ++ x) same,
        omega (arith, less),
      )
  | inr e ↦ rw e (
    sym (append_assoc (take (suc n) p) (drop (suc n) p) (joined ps))
        ∙ ap (λ x. x ++ joined ps) (append-take-drop (suc n) p),
    omega (arith, length-drop (suc n) p),
  )
]

pub length-copy_pieces :
    (n : ℕ) (ps : List Text) → n ≤ length (joined ps) → length (copy_pieces n ps).0 ≡ n
unfolding copy_pieces
length-copy_pieces zero ps h = refl
length-copy_pieces (suc n) [] h = absurd (omega arith)
length-copy_pieces (suc n) (p ∷ ps) h =
    let sizes = length-append p (joined ps) in
    elim (Bool-cases (leb (length p) (suc n))) [
      | inl e ↦
          let fits : length p ≤ suc n = ground (arith, e) in
          let rest = length-copy_pieces (suc n - length p) ps (omega (arith, sizes, h)) in
          rw e (rw length-append (omega (arith, rest, fits)))
      | inr e ↦ rw e (length-take (suc n) p (ground (arith, e)))
    ]
