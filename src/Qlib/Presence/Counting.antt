-- ===== src/Qlib/Presence/Counting.antt =====
-- References to a user's set: a node that comes and goes leaves the sets as they were, and the last
-- one to go gives the users to tell.
use mnm.Prelude.{
  ◌-◌, ◌<◌, ◌≤◌, ◌≡◌, ◌⊎◌, inl, inr, refl, sym, ◌∙◌, ap, true, false, none, some, [], ◌∷◌, Text,
  arith, lookup, insert, delete, lookup-insert, lookup-delete, ◌==◌, any, eq_text, eq_of_eq_text,
  eq_text_refl, Bool-cases,
}
use mnm.Qlib.Presence.{
  OhiSet, Ohi, notifies, count_up, count_down, first_ref, ref, unref, told, get_ohi_to,
}

-- No key stands twice.
abbrev pub IsKeyed : Ohi → Type 0
IsKeyed [] = Unit {0}
IsKeyed ((k, s) ∷ rest) = (lookup k rest ≡ none) × IsKeyed rest

-- The user has no set, or one that is referred to.
abbrev pub IsCounted : Text → Ohi → Type 0
IsCounted from ohi =
    (lookup from ohi ≡ none)
    ⊎ ((s : OhiSet) × (lookup from ohi ≡ some s) × (1 ≤ s.refcount) × (s.refcount < 0xFFFFFFFF))

module _ (from : Text) (ohi : Ohi) where
  ref-none : lookup from ohi ≡ none → ref from ohi ≡ insert from first_ref ohi
  unfolding ref
  ref-none e = rw (ref, e) refl

  unref-missing : lookup from ohi ≡ none → unref from ohi ≡ none
  unfolding unref
  unref-missing e = rw (unref, e) refl

  module _ (s : OhiSet) (e : lookup from ohi ≡ some s) where
    ref-some : ref from ohi ≡ insert from (record s { refcount = count_up s.refcount }) ohi
    unfolding ref
    ref-some = rw (ref, e) refl

    unref-last :
        (count_down s.refcount == 0) ≡ true → unref from ohi ≡ some (delete from ohi, told s.uid)
    unfolding unref
    unref-last z = rw (unref, e) (rw z refl)

    unref-more :
        (count_down s.refcount == 0) ≡ false
        → unref from ohi
          ≡ some (insert from (record s { refcount = count_down s.refcount }) ohi, [])
    unfolding unref
    unref-more z = rw (unref, e) (rw z refl)

found_inserted : (from : Text) (s : OhiSet) (ohi : Ohi) → lookup from (insert from s ohi) ≡ some s
found_inserted from s ohi = rw lookup-insert (rw (eq_text_refl from) refl)

-- A user with no set, or one whose count is from 1 to 2 ^ 32 - 2: after a reference is taken and let
-- go no one is told, and all sets are as before.
pub unref-ref :
    (from : Text) (ohi : Ohi)
    → IsCounted from ohi
    → (ohi' : Ohi) × (unref from (ref from ohi) ≡ some (ohi', []))
      × ((k : Text) → lookup k ohi' ≡ lookup k ohi)
unref-ref from ohi (inl e) = (
  delete from (insert from first_ref ohi),
  rw (ref-none from ohi e) (
      unref-last from (insert from first_ref ohi) first_ref (found_inserted from first_ref ohi) refl
      ∙ (unfold told in refl)),
  λ k. ground (
    arith,
    lookup-delete from k (insert from first_ref ohi),
    lookup-insert from k first_ref ohi,
    eq_of_eq_text from k,
    e,
  ),
)
unref-ref from ohi (inr (s, e, least, most)) =
    let up : OhiSet = record s { refcount = count_up s.refcount } in
    let down : OhiSet = record s { refcount = count_down (count_up s.refcount) } in
    let back : count_down (count_up s.refcount) ≡ s.refcount = omega (arith, least, most) in
    let more : (count_down (count_up s.refcount) == 0) ≡ false = ground (arith, back, least) in
    let same : down ≡ s = ap (λ n. record s { refcount = n }) back in
    (
      insert from down (insert from up ohi),
      rw (ref-some from ohi s e)
          (unref-more from (insert from up ohi) up (found_inserted from up ohi) more),
      λ k. rw same (
          rw lookup-insert (elim (Bool-cases (eq_text from k)) [
            | inl f ↦ rw f (sym (rw (← eq_of_eq_text from k f) e))
            | inr f ↦ rw f (rw lookup-insert (rw f refl))
          ])),
    )

-- A user's set with a count of 1 or more: when the last reference goes, the set goes too, and the
-- users that the set has for true are told; before, no one is told, and the count is one less.
pub unref_lem :
    (from : Text) (ohi : Ohi) (s : OhiSet)
    → lookup from ohi ≡ some s
    → 1 ≤ s.refcount
    → s.refcount < 0x100000000
    → ((s.refcount ≡ 1) × (unref from ohi ≡ some (delete from ohi, told s.uid)))
      ⊎ ((1 < s.refcount)
          × (unref from ohi ≡ some (insert from (record s { refcount = s.refcount - 1 }) ohi, [])))
unref_lem from ohi s e least most = elim (Bool-cases (s.refcount == 1)) [
  | inl one ↦ inl (ground (arith, one), unref-last from ohi s e (ground (arith, one)))
  | inr many ↦
      let down : count_down s.refcount ≡ s.refcount - 1 = omega (arith, least, most) in
      inr (
        ground (arith, many, least),
        rw (unref-more from ohi s e (ground (arith, down, many, least))) (rw down refl),
      )
]

-- On a map with each key once, getOhiTo lists exactly the users whose set has this one for true.
pub get_ohi_to_lem :
    (to from : Text) (ohi : Ohi)
    → IsKeyed ohi
    → any (eq_text from) (get_ohi_to to ohi)
      ≡ (elim (lookup from ohi) [ none ↦ false | some s ↦ notifies to s ])
unfolding get_ohi_to lookup
get_ohi_to_lem to from [] d = refl
get_ohi_to_lem to from ((k, s) ∷ ohi) (n, d) = elim (Bool-cases (eq_text k from)) [
  | inl e ↦
      let none_left : lookup from ohi ≡ none = rw (← eq_of_eq_text k from e) n in
      let own : eq_text from k ≡ true = rw (eq_of_eq_text k from e) (eq_text_refl from) in
      let rest : any (eq_text from) (get_ohi_to to ohi) ≡ false =
        get_ohi_to_lem to from ohi d ∙ (rw none_left refl) in
      elim (Bool-cases (notifies to s)) [
        | inl j ↦ rw (any, e, j) (rw own refl)
        | inr j ↦ rw (any, e, j) rest
      ]
  | inr e ↦
      let other : eq_text from k ≡ false =
        ground (arith, e, eq_of_eq_text from k, eq_text_refl k) in
      elim (Bool-cases (notifies to s)) [
        | inl j ↦ rw (any, e, j) (rw other (get_ohi_to_lem to from ohi d))
        | inr j ↦ rw (any, e, j) (get_ohi_to_lem to from ohi d)
      ]
]
