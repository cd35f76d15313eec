-- ===== src/UserDb/Aliases/Retired.antt =====
-- DropAlias retires an alias of its user's own, and touches no other.
use mnm.Prelude.{
  ℕ, ◌≡◌, ◌⊎◌, inl, inr, refl, sym, ◌∙◌, subst, Bool, false, not, Text, [], insert, eq_text,
  eq_of_eq_text, is_empty, if◌then◌else◌, Bool-cases,
}
use mnm.UserDb.Model.{a_user, clear_touched, Object, User, user, alias_defunct_uid, alias_invalid}
use mnm.UserDb.Fetch.{fetch_user}
use mnm.UserDb.Users.{found_user}
use mnm.UserDb.Op.{pure, UserDb, Result, ok, err, panic, Op, raise, continue, ◌>>=◌, ◌>>◌}
use mnm.UserDb.Names.{escape, file_name}
use mnm.UserDb.Names.Escape.{IsBytes}
use mnm.UserDb.Record.{put_record}
use mnm.UserDb.Aliases.{alias_uid, try_lookup, set_alias, drop_alias, is_dropped, mark_defunct}
use mnm.UserDb.Aliases.Links.{alias-put_record, put_record-links, dropped-is_clear}
use mnm.UserDb.Aliases.Targets.{
  target, disk_target, Fills, Fills-target, try_lookup_lem, alias_uid-insert,
}
use mnm.UserDb.Aliases.Filling.{fetch_user-Filling, found_user-Filling}

-- Every alias that had a target has it still, but for `a`, which may have gone from `uid` to defunct.
abbrev pub Retires : Text → Text → UserDb → UserDb → Type 0
Retires a uid db db' =
    (b : Text)
    → IsBytes b
    → (target b db ≡ [])
      ⊎ ((target b db' ≡ target b db)
          ⊎ ((b ≡ a) × (target b db ≡ uid) × (target b db' ≡ alias_defunct_uid)))

module _ (a uid : Text) where
  Retires-Fills : (db d : UserDb) → Fills db d → Retires a uid db d
  Retires-Fills db d h b bytes = inr (inl (Fills-target db d b h))

  Retires-after : (db d d' : UserDb) → Fills db d → Retires a uid d d' → Retires a uid db d'
  Retires-after db d d' h g b bytes =
      subst
        (λ t.
          (t ≡ [])
          ⊎ ((target b d' ≡ t) ⊎ ((b ≡ a) × (t ≡ uid) × (target b d' ≡ alias_defunct_uid))))
        (Fills-target db d b h) (g b bytes)

  continue-Retires {ℓ κ} :
      {A : Type ℓ} {B : Type κ} (db : UserDb) (p : Result A × UserDb) (f : A → Op B)
      → Fills db p.1
      → ((x : A) → Retires a uid p.1 (f x p.1).1)
      → Retires a uid db (continue p f).1
  continue-Retires db (ok x, d) f h g = Retires-after db d (f x d).1 h (g x)
  continue-Retires db (err e, d) f h g = Retires-Fills db d h
  continue-Retires db (panic, d) f h g = Retires-Fills db d h

module _ (crc : Object → ℕ) (uid a : Text) (a_bytes : IsBytes a) (named : is_empty a ≡ false) where
  module _ (u : User) where
    abbrev dropping : User
    dropping = record u { aliases = mark_defunct a (clear_touched u.aliases) }

    finish : Text → Op (Unit {0})
    finish owner =
        if not (eq_text owner uid)
        then raise alias_invalid
        else do set_alias a alias_defunct_uid; put_record crc user uid (a_user dropping)

    module _ (d : UserDb) where
      abbrev marked : UserDb
      marked = record d { alias = insert a alias_defunct_uid d.alias }

      abbrev dropped : UserDb
      dropped = (put_record crc user uid (a_user dropping) marked).1

      dropped-alias :
          (b : Text)
          → alias_uid b dropped ≡ (if eq_text a b then alias_defunct_uid else alias_uid b d)
      dropped-alias b =
          rw (alias-put_record crc user uid (a_user dropping) marked)
            (alias_uid-insert a alias_defunct_uid b d)

      dropped-links :
          (b : Text) → IsBytes b → eq_text a b ≡ false → disk_target b dropped ≡ disk_target b d
      unfolding file_name
      dropped-links b bytes h =
          rw
            (put_record-links (escape b) crc uid dropping marked
              (dropped-is_clear b uid bytes a u.aliases a_bytes h))
            refl

      dropped-Retires : target a d ≡ uid → Retires a uid d dropped
      dropped-Retires own b bytes = elim (Bool-cases (eq_text a b)) [
        | inr e ↦ inr (inl (rw (dropped-alias b, e, dropped-links b bytes e) refl))
        | inl e ↦
            let it : a ≡ b = eq_of_eq_text a b e in
            inr (inr (sym it, subst (λ x. target x d ≡ uid) it own, rw (dropped-alias b, e) refl))
      ]

      finish-Retires : (owner : Text) → target a d ≡ owner → Retires a uid d (finish owner d).1
      unfolding finish
      finish-Retires owner h = elim (Bool-cases (eq_text owner uid)) [
        | inr e ↦ rw e (λ b bytes. inr (inl refl))
        | inl e ↦ rw e (dropped-Retires (h ∙ eq_of_eq_text owner uid e))
      ]

    answer-Retires : (db : UserDb) → Retires a uid db (continue (try_lookup a db) finish).1
    answer-Retires db =
        let (d, e, h, l) = try_lookup_lem a named db in
        rw e (
          Retires-after a uid db d (finish (target a db) d).1 h
            (finish-Retires d (target a db) (Fills-target db d a h)))

    checked : Op (Unit {0})
    unfolding finish
    checked = if is_dropped a u.aliases then pure tt else do owner ← try_lookup a; finish owner

    checked-Retires : (db : UserDb) → Retires a uid db (checked db).1
    unfolding checked
    checked-Retires db = elim (Bool-cases (is_dropped a u.aliases)) [
      | inl e ↦ rw e (λ b bytes. inr (inl refl))
      | inr e ↦ rw e (answer-Retires db)
    ]

  -- DropAlias of a name of bytes that is not empty, whatever its outcome: every alias of bytes that has
  -- a target, in the cache or on disk, keeps it, but for the alias dropped, whose target may go from
  -- this user to the defunct mark.
  pub drop_alias-Retires :
      (is_print : ℕ → Bool) (db : UserDb) → Retires a uid db (drop_alias crc is_print uid a db).1
  unfolding drop_alias finish checked
  drop_alias-Retires is_print db =
      continue-Retires a uid db (fetch_user crc uid false db) _
        ((fetch_user-Filling crc uid false).at db)
        λ found.
          let d = (fetch_user crc uid false db).1 in
          continue-Retires a uid d (found_user found d) _ ((found_user-Filling found).at d)
            λ u. checked-Retires u (found_user found d).1
