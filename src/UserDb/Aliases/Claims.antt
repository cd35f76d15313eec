-- ===== src/UserDb/Aliases/Claims.antt =====
-- AddAlias takes names that were free, or the user's already, and saves no other links.
use mnm.Prelude.{
  ℕ, ◌≡◌, ◌⊎◌, inl, inr, refl, sym, subst, ◌∙◌, Bool, true, false, not, ◌&&◌, [], ◌∷◌, ◌++◌, List,
  Text, arith, insert, eq_text, eq_of_eq_text, is_empty, if◌then◌else◌, Bool-cases,
}
use mnm.UserDb.Model.{alias_taken, Alias, Object, a_user, User, user, clear_touched}
use mnm.UserDb.Op.{UserDb, ok, err, continue}
use mnm.UserDb.Names.{escape, file_name}
use mnm.UserDb.Names.Escape.{IsBytes}
use mnm.UserDb.Record.{put_record}
use mnm.UserDb.Aliases.{alias_uid, new_alias, claim, check_free, set_named_alias}
use mnm.UserDb.Aliases.Targets.{
  Stable, Stable-refl, target, disk_target, IsLoaded, alias_uid-insert, eq_nil,
}
use mnm.UserDb.Aliases.Links.{put_record-links, added-is_clear, alias-put_record, IsOther}

-- A name that a user may take: none, or one with no target, or with this user for target.
abbrev pub IsFree : Text → Text → UserDb → Type 0
IsFree a uid db = (is_empty a ≡ true) ⊎ ((alias_uid a db ≡ []) ⊎ (alias_uid a db ≡ uid))

check_free_cases :
    (a uid : Text) (db : UserDb)
    → (IsFree a uid db × (check_free a uid db ≡ (ok tt, db)))
      ⊎ (check_free a uid db ≡ (err alias_taken, db))
unfolding check_free
check_free_cases a uid db =
    ground (arith, eq_nil (alias_uid a db), eq_of_eq_text (alias_uid a db) uid)

-- o.alias[a] = uid, unless the name is empty.
abbrev pub named : Text → Text → UserDb → UserDb
named a uid db = if is_empty a then db else record db { alias = insert a uid db.alias }

set_named_alias_lem :
    (a uid : Text) (db : UserDb) → set_named_alias a uid db ≡ (ok tt, named a uid db)
set_named_alias_lem a uid db = elim (Bool-cases (is_empty a)) [ inl e ↦ rw e | inr e ↦ rw e ]

-- AddAlias takes its names together, or neither.
claim_cases :
    (nat en uid : Text) (db : UserDb)
    → (IsFree nat uid db
        × IsFree en uid db
        × (claim nat en uid db ≡ (ok tt, named en uid (named nat uid db))))
      ⊎ (claim nat en uid db ≡ (err alias_taken, db))
unfolding claim
claim_cases nat en uid db = elim (check_free_cases nat uid db) [
  | inr e ↦ inr (rw e)
  | inl (f, e) ↦ elim (check_free_cases en uid db) [
    | inr g ↦ inr (rw e (rw g))
    | inl (k, g) ↦ inl (
      f,
      k,
      rw e (
          rw g
            (rw (set_named_alias_lem nat uid db) (set_named_alias_lem en uid (named nat uid db)))),
    )
  ]
]

-- A name that is empty, or of bytes and looked up.
abbrev pub IsFit : Text → UserDb → Type 0
IsFit a db = (is_empty a ≡ true) ⊎ (IsBytes a × IsLoaded a db)

disk-named : (a uid : Text) (db : UserDb) → (named a uid db).disk ≡ db.disk
disk-named a uid db = elim (Bool-cases (is_empty a)) [ inl e ↦ rw e | inr e ↦ rw e ]

-- Whether the name b is taken as a.
abbrev takes : Text → Text → Bool
takes a b = not (is_empty a) && eq_text a b

alias_uid-named :
    (a uid b : Text) (db : UserDb)
    → alias_uid b (named a uid db) ≡ (if takes a b then uid else alias_uid b db)
alias_uid-named a uid b db = elim (Bool-cases (is_empty a)) [
  | inl e ↦ rw e
  | inr e ↦ rw e (alias_uid-insert a uid b db)
]

module _ (uid b : Text) (bytes : IsBytes b) (d d' : UserDb) where
  -- A name that is taken had no target, or this one.
  taken-Stable :
      (a : Text)
      → takes a b ≡ true
      → IsFit a d
      → IsFree a uid d
      → alias_uid b d' ≡ uid
      → (target b d ≡ []) ⊎ (target b d' ≡ target b d)
  taken-Stable a same fit free e =
      let it : a ≡ b = eq_of_eq_text a b (ground (arith, same)) in
      let loaded : alias_uid b d ≡ target b d =
        subst (λ x. IsLoaded x d) it
          (elim fit [
            | inl blank ↦ absurd (ground (arith, same, blank))
            | inr (p, loaded) ↦ loaded
          ]) in
      let had : (alias_uid b d ≡ []) ⊎ (alias_uid b d ≡ uid) =
        subst (λ x. (alias_uid x d ≡ []) ⊎ (alias_uid x d ≡ uid)) it
          (elim free [ inl blank ↦ absurd (ground (arith, same, blank)) | inr had ↦ had ]) in
      elim had [
        | inl n ↦ inl (sym loaded ∙ n)
        | inr n ↦ elim (Bool-cases (is_empty uid)) [
          | inl blank ↦ inl (sym loaded ∙ n ∙ eq_nil uid blank)
          | inr filled ↦ inr (rw (e, filled) (sym n ∙ loaded))
        ]
      ]

  other-Stable :
      alias_uid b d' ≡ alias_uid b d → disk_target b d' ≡ disk_target b d → target b d' ≡ target b d
  other-Stable e f = rw (e, f) refl

  IsOther-fit : (a : Text) → takes a b ≡ false → IsFit a d → IsOther b uid bytes a
  IsOther-fit a h (inl e) = inl e
  IsOther-fit a h (inr (p, e)) = elim (Bool-cases (is_empty a)) [
    | inl e ↦ inl e
    | inr e ↦ inr (p, ground (arith, h, e))
  ]

module _ (crc : Object → ℕ) (uid nat en : Text) (u : User) (xs : List Alias) where
  abbrev pub saving : User
  saving = record u { aliases = clear_touched xs ++ new_alias nat en ∷ [] }

  module _ (d : UserDb) where
    abbrev taken : UserDb
    taken = named en uid (named nat uid d)

    abbrev saved : UserDb
    saved = (put_record crc user uid (a_user saving) taken).1

    saved-alias :
        (b : Text)
        → alias_uid b saved
          ≡ (if takes en b then uid else if takes nat b then uid else alias_uid b d)
    saved-alias b =
        rw (alias-put_record crc user uid (a_user saving) taken)
          (rw (alias_uid-named en uid b (named nat uid d)) (rw (alias_uid-named nat uid b d) refl))

    saved-links :
        (b : Text) (bytes : IsBytes b)
        → IsOther b uid bytes nat
        → IsOther b uid bytes en
        → disk_target b saved ≡ disk_target b d
    unfolding file_name
    saved-links b bytes h k =
        rw
          (put_record-links (escape b) crc uid saving taken
            (added-is_clear b uid bytes nat en xs h k))
          (rw (disk-named en uid (named nat uid d)) (rw (disk-named nat uid d) refl))

    saved-Stable : IsFit nat d → IsFit en d → IsFree nat uid d → IsFree en uid d → Stable d saved
    saved-Stable p q f g b bytes = elim (Bool-cases (takes en b)) [
      | inl h ↦ taken-Stable uid b bytes d saved en h q g (saved-alias b ∙ (rw h refl))
      | inr h ↦ elim (Bool-cases (takes nat b)) [
        | inl k ↦ taken-Stable uid b bytes d saved nat k p f (saved-alias b ∙ (rw (h, k) refl))
        | inr k ↦ inr (
            other-Stable uid b bytes d saved (saved-alias b ∙ (rw (h, k) refl)) (
              saved-links b bytes (IsOther-fit uid b bytes d saved nat k p)
                (IsOther-fit uid b bytes d saved en h q)))
      ]
    ]

    -- The names are taken and saved, or the user is told that one is another's.
    pub claim-Stable :
        IsFit nat d
        → IsFit en d
        → Stable d (continue (claim nat en uid d) (λ _. put_record crc user uid (a_user saving))).1
    claim-Stable p q = elim (claim_cases nat en uid d) [
      | inr e ↦ rw e (Stable-refl d)
      | inl (f, g, e) ↦ rw e (saved-Stable p q f g)
    ]
