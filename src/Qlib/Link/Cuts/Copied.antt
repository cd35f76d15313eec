-- ===== src/Qlib/Link/Cuts/Copied.antt =====
-- A message whose header is in the buffer: its data, of which the handler copies what is not there.
use mathlib.Core.List.{append-nil, append_assoc}
use mnm.Prelude.{
  ℕ, suc, ◌+◌, ◌-◌, ◌<◌, ◌≤◌, ◌≡◌, ◌∙◌, ◌⊎◌, ap, sym, inl, inr, refl, Option, none, some, List, [],
  ◌∷◌, ◌++◌, Text, length, take, drop, ltb, leb, arith, Bool-cases, length-append, drop-add,
  length-drop, eq_nil_of_length,
}
use mnm.Qlib.Header.{pos, Header}
use mnm.Qlib.Quit.{Quit}
use mnm.Qlib.Op.{Ending, Result, ok, err, panic}
use mnm.Qlib.Stream.{copy_pieces}
use mnm.Qlib.Frame.{hex_length, rest_of, again, step, answered, advance}
use mnm.Qlib.Frame.Stream.{packed, IsMessage, proceed}
use mnm.Qlib.Link.Pieces.{
  joined, size, prefix-take, prefix-drop, copy_pieces-joined, length-copy_pieces,
}
use mnm.Qlib.Link.Cuts.{with_left, copying}
use mnm.Qlib.Link.Cuts.Arriving.{take-all, step-whole}

-- What follows an answer goes by the bytes that come after the message.
module _ {S : Type 0} (unmarshal : Text → Option Header)
    (handle : ℕ → Header → Text → S → Result (Option Quit) × S) (buf : Text) (f : ℕ) where
  advance-proceed :
      (s : S)
      → advance unmarshal handle s buf (pos f) ≡ proceed unmarshal handle (ok none, s) (drop f buf)
  unfolding advance rest_of
  advance-proceed s = elim (Bool-cases (ltb f (length buf))) [
    | inl e ↦ rw (advance, e) (more_left (drop f buf) (ground (arith, e, length-drop f buf)))
    | inr e ↦
        let z : drop f buf ≡ [] =
          eq_nil_of_length (drop f buf) (ground (arith, e, length-drop f buf)) in
        rw (advance, e) (rw z refl)
  ]
    where
      more_left : (b : Text) → 0 < length b → again s b ≡ proceed unmarshal handle (ok none, s) b
      more_left [] h = absurd (omega arith)
      more_left (x ∷ b) h = refl

  answered-proceed :
      (r : Result (Option Quit) × S)
      → answered unmarshal handle buf (pos f) r ≡ proceed unmarshal handle r (drop f buf)
  unfolding answered
  answered-proceed (ok (some q), s) = refl
  answered-proceed (ok none, s) = advance-proceed s
  answered-proceed (err e, s) = refl
  answered-proceed (panic, s) = refl

-- The data that are there, with those copied, are the body; the others come after it.
abbrev pub Taken : Text → Text → Text → List Text → Type 0
Taken body more tail ps =
    let c = copy_pieces (length body - length (take (length body) tail)) ps in
    (take (length body) tail ++ c.0 ≡ body)
    × (drop (length body) tail ++ joined c.2 ≡ more)
    × (size c.2 ≤ size ps)

pub taken :
    (body more tail : Text) (ps : List Text)
    → tail ++ joined ps ≡ body ++ more
    → Taken body more tail ps
unfolding copy_pieces
taken body more tail ps same = elim (Bool-cases (leb (length body) (length tail))) [
  | inl e ↦
      let fits : length body ≤ length tail = ground (arith, e) in
      let first = prefix-take tail (joined ps) body more same fits in
      let zero_left : length body - length body ≡ 0 = omega arith in
      rw first (
        rw zero_left
          (append-nil body, prefix-drop tail (joined ps) body more same fits, omega arith))
  | inr e ↦
      let short : length tail ≤ length body = ground (arith, e) in
      let all_there = take-all (length body) tail short in
      let sizes = length-append tail (joined ps) in
      let sizes' = length-append body more in
      let lengths = ap (λ (s : Text). length s) same in
      let n : ℕ = length body - length tail in
      let c = copy_pieces n ps in
      let count = length-copy_pieces n ps (omega (arith, sizes, sizes', lengths, short)) in
      let (join, less) = copy_pieces-joined n ps in
      let joint = append_assoc tail c.0 (joined c.2) ∙ ap (λ s. tail ++ s) join ∙ same in
      let full : length (tail ++ c.0) ≡ length body =
        omega (arith, length-append tail c.0, count, short) in
      let fits : length body ≤ length (tail ++ c.0) = omega (arith, full) in
      let first = prefix-take (tail ++ c.0) (joined c.2) body more joint fits in
      let last = prefix-drop (tail ++ c.0) (joined c.2) body more joint fits in
      let gone : drop (length body) tail ≡ [] =
        eq_nil_of_length (drop (length body) tail)
          (omega (arith, length-drop (length body) tail, short)) in
      let gone' : drop (length body) (tail ++ c.0) ≡ [] =
        eq_nil_of_length (drop (length body) (tail ++ c.0))
          (omega (arith, length-drop (length body) (tail ++ c.0), full)) in
      rw all_there (
        sym (take-all (length body) (tail ++ c.0) (omega (arith, full))) ∙ first,
        rw gone (rw gone' at last),
        less,
      )
]

module _ {T : Type 0} (unmarshal : Text → Option Header) (ending : Ending)
    (answer : Header → Text → T → Result (Option Quit) × T) {head : Text} {h : Header} {body : Text}
    (m : IsMessage unmarshal (copying unmarshal ending answer) head h body) (more buf : Text)
    (ps : List Text) (same : buf ++ joined ps ≡ packed head body more) (t : T) (e : ℕ)
    (at : (e ≡ 0) ⊎ (e ≡ length head + 4)) (long : length head + 4 ≤ length buf)
    (sized : length body < 0x4000000000000000) where
  abbrev copy : ℕ → Header → Text → T × List Text → Result (Option Quit) × (T × List Text)
  copy = copying unmarshal ending answer

  -- The bytes after the header are the body and what follows it.
  tail-joined : drop (length head + 4) buf ++ joined ps ≡ body ++ more
  tail-joined =
      let four_more : length head + 4 ≡ suc (suc (suc (suc (length head)))) = omega arith in
      rw four_more (
        prefix-drop buf (joined ps) (hex_length (length head) ++ head) (body ++ more) same
          (omega (arith, long)))

  -- A message whose header is there is answered by its whole body, and all that follows it is left.
  pub step-copying :
      (left : Text) × (ps' : List Text) × (step unmarshal copy (t, ps) buf e
        ≡ proceed unmarshal copy (with_left ps' (answer h body t)) left)
      × (left ++ joined ps' ≡ more)
      × (size ps' ≤ size ps)
      × (length left < length buf)
  step-copying =
      let tail = drop (length head + 4) buf in
      let c = copy_pieces (length body - length (take (length body) tail)) ps in
      let (all_of, rest_of', less) = taken body more tail ps tail-joined in
      let left : drop (length head + 4 + length body) buf ≡ drop (length body) tail =
        drop-add (length head + 4) (length body) buf in
      (
        drop (length body) tail,
        c.2,
        step-whole unmarshal copy m more buf (joined ps) same (t, ps) e at long sized
            ∙ answered-proceed unmarshal copy buf (length head + 4 + length body) _
            ∙ rw left (rw m.sized (rw all_of refl)),
        rest_of',
        less,
        omega (arith, length-drop (length body) tail, length-drop (length head + 4) buf, long),
      )
