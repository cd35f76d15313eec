-- ===== src/UserDb/Aliases/Ownership.antt =====
-- AddAlias: an alias never passes from one user to another.
use mnm.Prelude.{
  ℕ, ◌≡◌, inl, inr, Bool, false, ◌&&◌, Option, [], ◌∷◌, ◌++◌, Text, arith, eq_text, is_empty,
  if◌then◌else◌, Bool-cases,
}
use mnm.UserDb.Model.{Object, Group, User, a_user, user, clear_touched}
use mnm.UserDb.Op.{UserDb, Result, ok, err, panic, Op, pure, continue, ◌>>=◌, ◌>>◌}
use mnm.UserDb.Names.Escape.{IsBytes}
use mnm.UserDb.Input.{invalid_input, invalid_ascii}
use mnm.UserDb.Fetch.{fetch_user, fetch_group}
use mnm.UserDb.Users.{found_user}
use mnm.UserDb.Record.{put_record}
use mnm.UserDb.Aliases.{
  add_alias, owner_of, add_valid_alias, checked_alias, claim, new_alias, try_lookup,
}
use mnm.UserDb.Aliases.Targets.{
  Stable, Stable-refl, Fills, Fills-IsLoaded, IsLoaded, try_lookup-IsLoaded,
}
use mnm.UserDb.Aliases.Filling.{
  Filling, Filling-bind, pure-Filling, continue-Stable, found_user-Filling, fetch_user-Filling,
  fetch_group-Filling, try_lookup-Filling,
}
use mnm.UserDb.Aliases.Claims.{IsFit, claim-Stable}

-- An operation that leaves every alias that has a target with that target.
pub record KeepsAliases {ℓ} {A : Type ℓ} (m : Op A) : Type ℓ where
  pub at : (db : UserDb) → Stable db (m db).1

Fills-IsFit : (db d : UserDb) (a : Text) → Fills db d → IsFit a db → IsFit a d
Fills-IsFit db d a h (inl e) = inl e
Fills-IsFit db d a h (inr (p, e)) = inr (p, Fills-IsLoaded db d a h e)

module _ (crc : Object → ℕ) (is_print : ℕ → Bool) (uid : Text) where
  owner_of-Filling : (a : Text) → Filling (owner_of crc is_print uid a)
  unfolding owner_of
  owner_of-Filling a = elim (Bool-cases (is_empty a)) [
    | inl e ↦ rw e (pure-Filling uid)
    | inr e ↦ rw e (
        Filling-bind (fetch_group crc a false) (λ _. try_lookup a) (fetch_group-Filling crc a false)
          λ _. try_lookup-Filling a e)
  ]

  looked_up :
      (a : Text) (p : Result (Option Group) × UserDb) (x : Text)
      → is_empty a ≡ false
      → (continue p (λ _. try_lookup a)).0 ≡ ok x
      → IsLoaded a (continue p (λ _. try_lookup a)).1
  looked_up a (ok g, d) x named h = try_lookup-IsLoaded a named d
  looked_up a (err e, d) x named h = absurd (ground arith)
  looked_up a (panic, d) x named h = absurd (ground arith)

  owner_of-IsFit :
      (a : Text) (d : UserDb) (x : Text)
      → IsBytes a
      → (owner_of crc is_print uid a d).0 ≡ ok x
      → IsFit a (owner_of crc is_print uid a d).1
  unfolding owner_of
  owner_of-IsFit a d x bytes h = elim (Bool-cases (is_empty a)) [
    | inl e ↦ inl e
    | inr e ↦ rw e (inr (bytes, looked_up a (fetch_group crc a false d) x e (ground (arith, h, e))))
  ]

  module _ (nat en : Text) (nat_bytes : IsBytes nat) (en_bytes : IsBytes en) where
    finish : User → Text → Text → Op (Unit {0})
    finish u nat_uid en_uid = if eq_text nat_uid uid && eq_text en_uid uid then pure tt else do
      claim nat en uid
      put_record crc user uid
          (a_user (record u { aliases = clear_touched u.aliases ++ new_alias nat en ∷ [] }))

    finish-Stable :
        (u : User) (nat_uid en_uid : Text) (d : UserDb)
        → IsFit nat d
        → IsFit en d
        → Stable d (finish u nat_uid en_uid d).1
    unfolding finish
    finish-Stable u nat_uid en_uid d p q =
        elim (Bool-cases (eq_text nat_uid uid && eq_text en_uid uid)) [
          | inl e ↦ rw e (Stable-refl d)
          | inr e ↦ rw e (claim-Stable crc uid nat en u u.aliases d p q)
        ]

    owners-Stable :
        (u : User) (d : UserDb)
        → Stable d
            ((owner_of crc is_print uid nat >>= λ nat_uid.
                owner_of crc is_print uid en >>= λ en_uid. finish u nat_uid en_uid)
              d).1
    owners-Stable u d =
        continue-Stable d (owner_of crc is_print uid nat d) _ ((owner_of-Filling nat).at d)
          λ nat_uid e.
            let d1 = (owner_of crc is_print uid nat d).1 in
            continue-Stable d1 (owner_of crc is_print uid en d1) _ ((owner_of-Filling en).at d1)
              λ en_uid f.
                finish-Stable u nat_uid en_uid (owner_of crc is_print uid en d1).1
                  (Fills-IsFit d1 _ nat ((owner_of-Filling en).at d1)
                    (owner_of-IsFit nat d nat_uid nat_bytes e))
                  (owner_of-IsFit en d1 en_uid en_bytes f)

    add_valid_alias-KeepsAliases : KeepsAliases (add_valid_alias crc is_print uid nat en)
    unfolding add_valid_alias finish
    add_valid_alias-KeepsAliases = record {
      at = λ db.
          continue-Stable db (fetch_user crc uid false db) _
            ((fetch_user-Filling crc uid false).at db)
            λ found e.
              let d = (fetch_user crc uid false db).1 in
              continue-Stable d (found_user found d) _ ((found_user-Filling found).at d)
                λ u f. owners-Stable u (found_user found d).1;
    }

    checked_alias-KeepsAliases : KeepsAliases (checked_alias crc is_print uid nat en)
    unfolding checked_alias
    checked_alias-KeepsAliases = elim (Bool-cases (invalid_input is_print nat)) [
      | inl e ↦ rw e (record { at = Stable-refl })
      | inr e ↦ elim (Bool-cases (invalid_ascii en)) [
        | inl f ↦ rw (e, f) (record { at = Stable-refl })
        | inr f ↦ rw (e, f) add_valid_alias-KeepsAliases
      ]
    ]

  -- AddAlias of names of bytes, whatever its outcome, leaves every alias of bytes that has a target, in
  -- the cache or on disk, with that target.
  pub add_alias-KeepsAliases :
      (nat en : Text) → IsBytes nat → IsBytes en → KeepsAliases (add_alias crc is_print uid nat en)
  unfolding add_alias
  add_alias-KeepsAliases nat en p q = elim (Bool-cases (eq_text nat en)) [
    | inr e ↦ rw e (checked_alias-KeepsAliases nat en p q)
    | inl e ↦ elim (Bool-cases (is_empty nat)) [
      | inl f ↦ rw (e, f) (record { at = Stable-refl })
      | inr f ↦ rw (e, f) (checked_alias-KeepsAliases [] en tt q)
    ]
  ]
