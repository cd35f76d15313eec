-- ===== src/UserDb/Groups/Inviting.antt =====
-- GroupInvite into a group that has members, and GroupAlias: who may, and what it does to the group.
use mnm.Prelude.{
  ℕ, ◌≡◌, refl, inl, inr, Bool, true, false, Text, Dict, eq_text, eq_of_eq_text, Bool-cases,
}
use mnm.UserDb.Model.{
  Object, Group, Member, invited, user_invalid, alias_invalid, member_joined, member_at,
}
use mnm.UserDb.Op.{UserDb, Result, ok, err}
use mnm.UserDb.Cached.{fetch_group-HasGroup}
use mnm.UserDb.Aliases.{alias_uid}
use mnm.UserDb.Groups.{group_alias, is_joined, is_invited}
use mnm.UserDb.Groups.Joining.{
  HasMembers, HasAlias, try_lookup-HasAlias, SetsMember, put_member_lem,
}

module _ (crc : Object → ℕ) (is_print : ℕ → Bool) (gid : Text) (g : Group) (ms : Dict Member) where
  -- What GroupInvite does, and when; `uid` is the alias's user and `owner` that of the inviting alias.
  pub data InvitesMember (a uid owner by_uid : Text) (db : UserDb) (p : Result Text × UserDb)
      : Type 0 where
    not_own :
        eq_text owner by_uid ≡ false
        → p ≡ (err alias_invalid, db)
        → InvitesMember a uid owner by_uid db p
    not_member :
        owner ≡ by_uid
        → is_joined (member_at by_uid g).status ≡ false
        → p ≡ (err user_invalid, db)
        → InvitesMember a uid owner by_uid db p
    again :
        is_joined (member_at by_uid g).status ≡ true
        → is_invited (member_at uid g).status ≡ true
        → p ≡ (ok uid, db)
        → InvitesMember a uid owner by_uid db p
    is_member :
        is_joined (member_at by_uid g).status ≡ true
        → is_joined (member_at uid g).status ≡ true
        → p ≡ (err member_joined, db)
        → InvitesMember a uid owner by_uid db p
    invites :
        owner ≡ by_uid
        → is_joined (member_at by_uid g).status ≡ true
        → is_invited (member_at uid g).status ≡ false
        → is_joined (member_at uid g).status ≡ false
        → (db' : UserDb) × (p ≡ (ok uid, db'))
          × SetsMember crc gid g ms uid (record { alias = a; status = invited }) db db'
        → InvitesMember a uid owner by_uid db p

  -- What GroupAlias does, and when.
  pub data Renames (uid new : Text) (db : UserDb) (p : Result Text × UserDb) : Type 0 where
    refused :
        is_joined (member_at uid g).status ≡ false
        → p ≡ (err user_invalid, db)
        → Renames uid new db p
    same :
        is_joined (member_at uid g).status ≡ true
        → new ≡ (member_at uid g).alias
        → p ≡ (ok new, db)
        → Renames uid new db p
    others :
        is_joined (member_at uid g).status ≡ true
        → eq_text (alias_uid new db) uid ≡ false
        → p ≡ (err alias_invalid, db)
        → Renames uid new db p
    renames :
        is_joined (member_at uid g).status ≡ true
        → alias_uid new db ≡ uid
        → (db' : UserDb) × (p ≡ (ok (member_at uid g).alias, db'))
          × SetsMember crc gid g ms uid (record (member_at uid g) { alias = new }) db db'
        → Renames uid new db p

  -- GroupAlias on a group in the cache, with an alias in the cache: only a joined member changes its
  -- alias, and only to one of its own; the new alias is in the cache and in the file, and the old one is
  -- returned. An alias that it has already is returned, and nothing changes.
  pub group_alias_lem :
      (uid new : Text) (db : UserDb)
      → HasMembers gid g ms db
      → HasAlias new (alias_uid new db) db
      → Renames uid new db (group_alias crc is_print gid uid new db)
  unfolding group_alias
  group_alias_lem uid new db h own =
      let found = fetch_group-HasGroup crc gid false h.cached in
      let m : Member = member_at uid g in
      elim (Bool-cases (is_joined m.status)) [
        | inr f ↦ refused f (rw found (rw f refl))
        | inl j ↦ elim (Bool-cases (eq_text new m.alias)) [
          | inl k ↦ same j (eq_of_eq_text new m.alias k) (rw found (rw (j, k) refl))
          | inr k ↦ elim (Bool-cases (eq_text (alias_uid new db) uid)) [
            | inr q ↦ others j q (rw found (rw (j, k) (rw (try_lookup-HasAlias own) (rw q refl))))
            | inl q ↦
                let (db', e, p) =
                  put_member_lem crc gid g ms is_print uid (record m { alias = new }) db h in
                renames j (eq_of_eq_text (alias_uid new db) uid q)
                  (db', rw found (rw (j, k) (rw (try_lookup-HasAlias own) (rw q (rw e refl)))), p)
          ]
        ]
      ]
