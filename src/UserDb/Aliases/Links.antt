-- ===== src/UserDb/Aliases/Links.antt =====
-- The links of root/alias that putRecord leaves as they are.
use mnm.Prelude.{
  ℕ, ◌≡◌, refl, sym, ap, ◌⊎◌, ◌∙◌, inl, inr, Bool, true, false, not, some, List, [], ◌∷◌, ◌++◌,
  Text, arith, all, lookup, lookup-insert, lookup-delete, eq_text, eq_of_eq_text, eq_text_refl,
  is_empty, Bool-cases, Option-cases,
}
use mnm.UserDb.Model.{Alias, Object, RecordType, user, group, a_user, User, alias, clear_touched}
use mnm.UserDb.Disk.{
  Disk, Action, create, write, link_temp, remove_file, link_file, remove_link, symlink, remove_temp,
  discard_temp, act, run,
}
use mnm.UserDb.Op.{UserDb}
use mnm.UserDb.Names.{escape, unescape, file_name}
use mnm.UserDb.Names.Escape.{IsBytes, unescape-escape}
use mnm.UserDb.Record.{touched_links, link_actions, put_actions, put_record, summed}
use mnm.UserDb.Aliases.{mark_defunct, new_alias}

module _ (f : Text) where
  -- A call that does not concern the link f.
  abbrev spares : Action → Bool
  spares (remove_link n) = not (eq_text n f)
  spares (symlink target n) = not (eq_text n f)
  spares _ = true

  act-spares :
      (x : Action) (d d' : Disk)
      → spares x ≡ true
      → act x d ≡ some d'
      → lookup f d'.links ≡ lookup f d.links
  unfolding act
  act-spares (create n) d d' h e = ground arith
  act-spares (write n o) d d' h e = ground arith
  act-spares (link_temp from to) d d' h e = ground arith
  act-spares (remove_file user n) d d' h e = ground arith
  act-spares (remove_file group n) d d' h e = ground arith
  act-spares (remove_file alias n) d d' h e = ground arith
  act-spares (link_file from user n) d d' h e = ground arith
  act-spares (link_file from group n) d d' h e = ground arith
  act-spares (link_file from alias n) d d' h e = ground arith
  act-spares (remove_link n) d d' h e = ground (arith, lookup-delete n f d.links)
  act-spares (symlink target n) d d' h e = ground (arith, lookup-insert n f target d.links)
  act-spares (remove_temp n) d d' h e = ground arith
  act-spares (discard_temp n) d d' h e = ground arith

  run-spares :
      (xs : List Action) (d d' : Disk)
      → all spares xs ≡ true
      → run xs d ≡ some d'
      → lookup f d'.links ≡ lookup f d.links
  unfolding run
  run-spares [] d d' h e = ground arith
  run-spares (x ∷ xs) d d' h e = elim (Option-cases (act x d)) [
    | inl n ↦ absurd (ground (arith, n))
    | inr (d₁, n) ↦
        run-spares xs d₁ d' (ground arith) (ground (arith, n)) ∙ act-spares x d d₁ (ground arith) n
  ]

  -- No link of this name is made.
  abbrev pub is_clear : List (Text × Text) → Bool
  is_clear ps = all (λ p. not (eq_text p.0 f)) ps

  link_actions_then-spares :
      (ps : List (Text × Text)) (rest : List Action)
      → is_clear ps ≡ true
      → all spares rest ≡ true
      → all spares (link_actions ps ++ rest) ≡ true
  unfolding link_actions
  link_actions_then-spares [] rest h g = g
  link_actions_then-spares (p ∷ ps) rest h g = ground (arith, link_actions_then-spares ps rest)

  -- putRecord of a user leaves a link that is not one of its touched aliases.
  pub put_record-links :
      (crc : Object → ℕ) (n : Text) (u : User) (db : UserDb)
      → is_clear (touched_links n u.aliases) ≡ true
      → lookup f (put_record crc user n (a_user u) db).1.disk.links ≡ lookup f db.disk.links
  unfolding put_record
  put_record-links crc n u db h =
      elim (Option-cases (run (put_actions user n (summed crc (a_user u))) db.disk)) [
        | inl e ↦ rw e refl
        | inr (d, e) ↦ rw e (
            run-spares (put_actions user n (summed crc (a_user u))) db.disk d
              (link_actions_then-spares (touched_links n u.aliases) _ h refl) e)
      ]

-- putRecord does not touch the cache of aliases.
pub alias-put_record :
    (crc : Object → ℕ) (t : RecordType) (n : Text) (o : Object) (db : UserDb)
    → (put_record crc t n o db).1.alias ≡ db.alias
unfolding put_record
alias-put_record crc t n o db = ground arith

-- The names of aliases that are not the same have different links.
escape-apart :
    (a b : Text)
    → IsBytes a
    → IsBytes b
    → eq_text a b ≡ false
    → eq_text (escape a) (escape b) ≡ false
escape-apart a b p q h = elim (Bool-cases (eq_text (escape a) (escape b))) [
  | inr e ↦ e
  | inl e ↦
      let same : some a ≡ some b =
        sym (unescape-escape a p)
        ∙ ap unescape (eq_of_eq_text (escape a) (escape b) e)
        ∙ unescape-escape b q in
      absurd (ground (arith, h, same, eq_text_refl a))
]

-- The links of the aliases that AddAlias and DropAlias save are those of the names they are given.
module _ (b n : Text) (bytes : IsBytes b) where
  abbrev pub IsOther : Text → Type 0
  IsOther a = (is_empty a ≡ true) ⊎ (IsBytes a × (eq_text a b ≡ false))

  IsOther-escape :
      (a : Text) → IsOther a → (is_empty a ≡ true) ⊎ (eq_text (escape a) (escape b) ≡ false)
  IsOther-escape a (inl e) = inl e
  IsOther-escape a (inr (p, e)) = inr (escape-apart a b p bytes e)

  touched_links-clear_touched : (xs : List Alias) → touched_links n (clear_touched xs) ≡ []
  unfolding touched_links clear_touched
  touched_links-clear_touched [] = refl
  touched_links-clear_touched (x ∷ xs) = touched_links-clear_touched xs

  pub added-is_clear :
      (nat en : Text) (xs : List Alias)
      → IsOther nat
      → IsOther en
      → is_clear (escape b) (touched_links n (clear_touched xs ++ new_alias nat en ∷ [])) ≡ true
  unfolding touched_links clear_touched file_name
  added-is_clear nat en [] h g = ground (arith, IsOther-escape nat h, IsOther-escape en g)
  added-is_clear nat en (x ∷ xs) h g = added-is_clear nat en xs h g

  pub dropped-is_clear :
      (a : Text) (xs : List Alias)
      → IsBytes a
      → eq_text a b ≡ false
      → is_clear (escape b) (touched_links n (mark_defunct a (clear_touched xs))) ≡ true
  unfolding touched_links clear_touched file_name mark_defunct
  dropped-is_clear a [] p h = refl
  dropped-is_clear a (x ∷ xs) p h = elim (Bool-cases (eq_text a x.nat)) [
    | inl e ↦
        let same : escape x.nat ≡ escape a = ap escape (sym (eq_of_eq_text a x.nat e)) in
        rw e (ground (arith, same, escape-apart a b p bytes h, touched_links-clear_touched xs))
    | inr e ↦ elim (Bool-cases (eq_text a x.en)) [
      | inl f ↦
          let same : escape x.en ≡ escape a = ap escape (sym (eq_of_eq_text a x.en f)) in
          rw (e, f)
            (ground (arith, same, escape-apart a b p bytes h, touched_links-clear_touched xs))
      | inr f ↦ rw (e, f) (dropped-is_clear a xs p h)
    ]
  ]
