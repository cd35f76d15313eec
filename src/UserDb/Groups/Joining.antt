-- ===== src/UserDb/Groups/Joining.antt =====
-- GroupJoin: who may join, and what joining does to the group.
use mnm.Prelude.{
  ℕ, ◌≡◌, ◌⊎◌, inl, inr, Bool, true, false, ◌||◌, ◌&&◌, refl, some, Text, Dict, arith, insert,
  eq_text, eq_of_eq_text, is_empty, if◌then◌else◌, Bool-cases,
}
use mnm.UserDb.Model.{Object, Group, Member, joined, user_invalid, alias_invalid, member_at}
use mnm.UserDb.Op.{pure, UserDb, Result, ok, err, Op, ◌>>=◌, ◌>>◌}
use mnm.UserDb.Cached.{HasGroup, fetch_group-HasGroup, PutGroup, put_record-group}
use mnm.UserDb.Aliases.{alias_uid, try_lookup}
use mnm.UserDb.Aliases.Targets.{try_lookup-cached}
use mnm.UserDb.Groups.{put_member, group_join, joined_alias, is_joined, is_invited}

-- The group is in the cache with these members.
pub record HasMembers (gid : Text) (g : Group) (ms : Dict Member) (db : UserDb) : Type 0 where
  pub cached : HasGroup gid g db
  pub made : g.uid ≡ some ms

-- The alias is in the cache with this target.
pub record HasAlias (a uid : Text) (db : UserDb) : Type 0 where
  pub named : is_empty a ≡ false
  pub owned : is_empty uid ≡ false
  pub target : alias_uid a db ≡ uid

pub try_lookup-HasAlias :
    {a uid : Text} {db : UserDb} → HasAlias a uid db → try_lookup a db ≡ (ok uid, db)
try_lookup-HasAlias {a} {uid} {db} h =
    rw (try_lookup-cached a db h.named (rw h.target h.owned), h.target)

module _ (crc : Object → ℕ) (gid : Text) (g : Group) (ms : Dict Member) where
  -- The member is in the cached group and in its file.
  abbrev pub SetsMember : Text → Member → UserDb → UserDb → Type 0
  SetsMember uid m db db' = PutGroup crc gid (record g { uid = some (insert uid m ms) }) db db'

  pub put_member_lem :
      (is_print : ℕ → Bool) (uid : Text) (m : Member) (db : UserDb)
      → HasMembers gid g ms db
      → (db' : UserDb) × (put_member crc is_print gid g uid m db ≡ (ok tt, db'))
        × SetsMember uid m db db'
  unfolding put_member
  put_member_lem is_print uid m db h =
      let (db', e, p) =
        put_record-group crc gid (record g { uid = some (insert uid m ms) }) db h.cached.quiet in
      (db', rw (h.made, e), p)

module _ (crc : Object → ℕ) (is_print : ℕ → Bool) (gid uid : Text) (g : Group)
    (ms : Dict Member) where
  -- The alias given, or else the member's.
  abbrev pub chosen : Text → Text
  chosen new = if is_empty new then (member_at uid g).alias else new

  -- Whether the member is joined already, under the alias that it asks for.
  abbrev pub is_there : Text → Bool
  is_there new =
      is_joined (member_at uid g).status && (is_empty new || eq_text new (member_at uid g).alias)

  -- What GroupJoin does, and when; the cases exclude each other.
  pub data JoinsGroup (new : Text) (db : UserDb) (p : Result Text × UserDb) : Type 0 where
    stays : is_there new ≡ true → p ≡ (ok (member_at uid g).alias, db) → JoinsGroup new db p
    refused :
        is_joined (member_at uid g).status ≡ false
        → is_invited (member_at uid g).status ≡ false
        → p ≡ (err user_invalid, db)
        → JoinsGroup new db p
    not_own :
        (is_joined (member_at uid g).status ≡ true) ⊎ (is_invited (member_at uid g).status ≡ true)
        → is_there new ≡ false
        → is_empty new ≡ false
        → eq_text (alias_uid new db) uid ≡ false
        → p ≡ (err alias_invalid, db)
        → JoinsGroup new db p
    joins :
        (is_joined (member_at uid g).status ≡ true) ⊎ (is_invited (member_at uid g).status ≡ true)
        → is_there new ≡ false
        → (is_empty new ≡ true) ⊎ (alias_uid new db ≡ uid)
        → (db' : UserDb) × (p ≡ (ok (chosen new), db'))
          × SetsMember crc gid g ms uid (record { alias = chosen new; status = joined }) db db'
        → JoinsGroup new db p

  module _ (db : UserDb) (h : HasMembers gid g ms db) where
    entering : Text → Op Text
    entering new = do
      a ← joined_alias crc is_print uid new (member_at uid g)
      put_member crc is_print gid g uid (record { alias = a; status = joined })
      pure a

    enters :
        (a : Text)
        → (db' : UserDb) × ((do
          put_member crc is_print gid g uid (record { alias = a; status = joined })
          pure a)
              db
            ≡ (ok a, db'))
          × SetsMember crc gid g ms uid (record { alias = a; status = joined }) db db'
    enters a =
        let (db', e, p) =
          put_member_lem crc gid g ms is_print uid (record { alias = a; status = joined }) db h in
        (db', rw e, p)

    entering-JoinsGroup :
        (new : Text)
        → (is_empty new ≡ true) ⊎ HasAlias new (alias_uid new db) db
        → (is_joined (member_at uid g).status ≡ true) ⊎ (is_invited (member_at uid g).status ≡ true)
        → is_there new ≡ false
        → JoinsGroup new db (entering new db)
    unfolding entering joined_alias
    entering-JoinsGroup new own i k = elim own [
      | inl n ↦ joins i k (inl n) (rw n (enters (member_at uid g).alias))
      | inr o ↦ elim (Bool-cases (eq_text (alias_uid new db) uid)) [
        | inl q ↦
            joins i k (inr (eq_of_eq_text (alias_uid new db) uid q))
              (rw (o.named, try_lookup-HasAlias o) (rw q (enters new)))
        | inr q ↦ not_own i k o.named q (rw (o.named, try_lookup-HasAlias o) (rw q))
      ]
    ]

    -- GroupJoin on a group in the cache, with an alias that is empty or in the cache: a joined member that
    -- gives no other alias stays as it is; one that is neither joined nor invited is refused, and so is
    -- another's alias; any other joins, or changes its alias, in the cache and in the file.
    pub group_join_lem :
        (new : Text)
        → (is_empty new ≡ true) ⊎ HasAlias new (alias_uid new db) db
        → JoinsGroup new db (group_join crc is_print gid uid new db)
    unfolding group_join entering
    group_join_lem new own = elim (Bool-cases (is_joined (member_at uid g).status)) [
      | inr j ↦ elim (Bool-cases (is_invited (member_at uid g).status)) [
        | inl i ↦
            rw (fetch_group-HasGroup crc gid false h.cached)
              (rw (j, i) (entering-JoinsGroup new own (inr i) (rw j refl)))
        | inr i ↦ refused j i (rw (fetch_group-HasGroup crc gid false h.cached) (rw (j, i)))
      ]
      | inl j ↦ elim (Bool-cases (is_empty new || eq_text new (member_at uid g).alias)) [
        | inl n ↦ stays (rw j n) (rw (fetch_group-HasGroup crc gid false h.cached) (rw j (rw n)))
        | inr n ↦
            rw (fetch_group-HasGroup crc gid false h.cached)
              (rw j (rw n (ground (arith, entering-JoinsGroup new own (inl j) (rw j n)))))
      ]
    ]
