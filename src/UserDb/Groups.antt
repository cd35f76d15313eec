-- ===== src/UserDb/Groups.antt =====
-- userdb.go, the operations on groups: GroupInvite, GroupJoin, GroupAlias, GroupQuit and
-- GroupGetUsers.
pub mod Joining
pub mod Inviting
pub mod Quitting
pub mod Listing
mod Tests
use mnm.Prelude.{
  ℕ, Bool, true, false, not, ◌&&◌, ◌||◌, Option, none, some, List, [], ◌∷◌, Text, Dict, is_empty,
  insert, delete, eq_text, if◌then◌else◌,
}
use mnm.UserDb.Model.{
  Status, invited, joined, barred, Member, Group, Object, a_group, group, entries, member_at,
  argument, user_invalid, alias_taken, alias_invalid, member_joined, group_invalid,
}
use mnm.UserDb.Op.{ok, Op, pure, raise, deref, ◌>>=◌, ◌>>◌}
use mnm.UserDb.Record.{put_record}
use mnm.UserDb.Fetch.{fetch_group}
use mnm.UserDb.Aliases.{alias_uid, try_lookup}
use mnm.UserDb.Input.{invalid_input}

abbrev pub is_invited : Status → Bool
is_invited invited = true
is_invited _ = false

abbrev pub is_joined : Status → Bool
is_joined joined = true
is_joined _ = false

abbrev pub is_barred : Status → Bool
is_barred barred = true
is_barred _ = false

-- aGroup == nil
abbrev pub found_group : Option Group → Op Group
found_group none = raise group_invalid
found_group (some g) = pure g

-- The keys of the joined members.
unfoldable pub joined_uids : Dict Member → List Text
joined_uids [] = []
joined_uids ((uid, m) ∷ rest) =
    let others = joined_uids rest in if is_joined m.status then uid ∷ others else others

-- delete(o.group, iGid)
abbrev forget_group : Text → Op (Unit {0})
forget_group gid db = (ok tt, record db { group = delete gid db.group })

abbrev cached_uid : Text → Op Text
cached_uid a db = (ok (alias_uid a db), db)

refuse_name : Text → Text → Op Text
refuse_name gid taken = do
  forget_group gid
  if not (is_empty taken) then raise alias_taken else raise argument

module _ (crc : Object → ℕ) (is_print : ℕ → Bool) where
  -- The member is set in the cached record, which is then saved.
  unfoldable pub put_member : Text → Group → Text → Member → Op (Unit {0})
  put_member gid g uid m = do
    members ← deref g.uid
    put_record crc group gid (a_group (record g { uid = some (insert uid m members) }))

  -- A group that is new takes its name unless an alias has it.
  invite_first : Text → Group → Text → Text → Text → Text → Op Text
  unfolding put_member refuse_name
  invite_first gid g uid a by_alias by_uid = do
    try_lookup gid
    taken ← cached_uid gid
    if not (is_empty taken) || invalid_input is_print gid then refuse_name gid taken else do
      members ← deref g.uid
      let creator : Member = record { alias = by_alias; status = joined }
      put_member gid (record g { uid = some (insert by_uid creator members) }) uid
          (record { alias = a; status = invited })
      pure uid

  unfoldable pub invite_next : Text → Group → Text → Text → Text → Op Text
  unfolding put_member
  invite_next gid g uid a by_uid =
      if not (is_joined (member_at by_uid g).status)
      then raise user_invalid
      else if is_invited (member_at uid g).status
      then pure uid
      else if is_joined (member_at uid g).status
      then raise member_joined
      else do put_member gid g uid (record { alias = a; status = invited }); pure uid

  unfoldable pub group_invite : Text → Text → Text → Text → Op Text
  unfolding invite_first invite_next
  group_invite gid a by_alias by_uid = do
    aliased ← try_lookup by_alias
    if is_empty aliased || not (eq_text aliased by_uid) then raise alias_invalid else do
      uid ← try_lookup a
      if is_empty uid then raise alias_invalid else do
        found ← fetch_group crc gid true
        g ← deref found
        if is_empty (entries g.uid)
            then invite_first gid g uid a by_alias by_uid
            else invite_next gid g uid a by_uid

  -- The new alias of a member: one of the user's own, or the one it has.
  joined_alias : Text → Text → Member → Op Text
  joined_alias uid new_alias m = if is_empty new_alias then pure m.alias else do
    owner ← try_lookup new_alias
    if not (eq_text owner uid) then raise alias_invalid else pure new_alias

  unfoldable pub group_join : Text → Text → Text → Op Text
  unfolding joined_alias put_member
  group_join gid uid new_alias = do
    found ← fetch_group crc gid false
    g ← found_group found
    let m = member_at uid g
    if is_joined m.status && (is_empty new_alias || eq_text new_alias m.alias)
        then pure m.alias
        else if not (is_invited m.status) && not (is_joined m.status)
        then raise user_invalid
        else do
          a ← joined_alias uid new_alias m
          put_member gid g uid (record { alias = a; status = joined })
          pure a

  unfoldable pub group_alias : Text → Text → Text → Op Text
  unfolding put_member
  group_alias gid uid new_alias = do
    found ← fetch_group crc gid false
    g ← found_group found
    let m = member_at uid g
    if not (is_joined m.status)
        then raise user_invalid
        else if eq_text new_alias m.alias
        then pure new_alias
        else do
          owner ← try_lookup new_alias
          if not (eq_text owner uid)
              then raise alias_invalid
              else do put_member gid g uid (record m { alias = new_alias }); pure m.alias

  -- The quitting member, or the joined member that drops another.
  quit_as : Text → Group → Text → Text → Text → Op Text
  unfolding put_member
  quit_as gid g uid a by_uid =
      let self = (do put_member gid g uid (record { alias = a; status = invited }); pure uid) in
      let other = (do put_member gid g uid (record { alias = a; status = barred }); pure uid) in
      if eq_text by_uid uid
      then (if is_invited (member_at uid g).status then pure uid else self)
      else if not (is_joined (member_at by_uid g).status)
      then raise user_invalid
      else if is_barred (member_at uid g).status
      then pure uid
      else other

  unfoldable pub group_quit : Text → Text → Text → Op Text
  unfolding quit_as
  group_quit gid a by_uid = do
    found ← fetch_group crc gid false
    g ← found_group found
    uid ← try_lookup a
    if is_empty uid || not (eq_text a (member_at uid g).alias)
        then raise alias_invalid
        else quit_as gid g uid a by_uid

  unfoldable pub group_get_users : Text → Text → Op (List Text)
  unfolding joined_uids
  group_get_users gid by_uid = do
    found ← fetch_group crc gid false
    g ← found_group found
    let s = (member_at by_uid g).status
    if not (is_joined s) && not (is_invited s)
        then raise user_invalid
        else pure (joined_uids (entries g.uid))
