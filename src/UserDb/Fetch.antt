-- ===== src/UserDb/Fetch.antt =====
-- userdb.go, fetchUser and fetchGroup: a record from the cache or from its file.
-- The locks are left out: an operation runs alone, and the second look at a map that fetchUser takes
-- under the write lock is kept as it is written.
use mnm.Prelude.{
  ℕ, Bool, ◌&&◌, ◌||◌, Option, none, some, [], Text, all, lookup, insert, leb, ◌==◌, if◌then◌else◌,
}
use mnm.UserDb.Model.{User, Group, Object, a_user, a_group, user, group, argument}
use mnm.UserDb.Op.{ok, Op, pure, raise, crash, ◌>>=◌}
use mnm.UserDb.Record.{get_record}

-- The characters of a Uid. A byte of a character beyond ASCII is not one.
abbrev pub is_uid_char : ℕ → Bool
is_uid_char a =
    leb b'A' a && leb a b'Z'
    || leb b'0' a && leb a b'9'
    || a == b'+'
    || a == b'%'
    || leb b'a' a && leb a b'z'

-- The type assertions aObj.(*tUser) and aObj.(*tGroup).
abbrev pub as_user : Object → Op User
as_user (a_user u) = pure u
as_user (a_group g) = crash

abbrev pub as_group : Object → Op Group
as_group (a_user u) = crash
as_group (a_group g) = pure g

-- The map is checked again before the record is added to it.
unfoldable pub cache_user : Text → User → Op (Option User)
cache_user uid u db = elim (lookup uid db.user) [
  | some present ↦ (ok (some present), db)
  | none ↦ (ok (some u), record db { user = insert uid u db.user })
]

unfoldable pub cache_group : Text → Group → Op (Option Group)
cache_group gid g db = elim (lookup gid db.group) [
  | some present ↦ (ok (some present), db)
  | none ↦ (ok (some g), record db { group = insert gid g db.group })
]

-- A nil map says that there is no file: the record is made, or not found.
keep_user : Text → Bool → User → Op (Option User)
unfolding cache_user
keep_user uid make u = elim u.nodes [
  | none ↦ if make then cache_user uid (record u { nodes = some [] }) else pure none
  | some _ ↦ cache_user uid u
]

keep_group : Text → Bool → Group → Op (Option Group)
unfolding cache_group
keep_group gid make g = elim g.uid [
  | none ↦ if make then cache_group gid (record g { uid = some [] }) else pure none
  | some _ ↦ cache_group gid g
]

module _ (crc : Object → ℕ) where
  load_user : Text → Bool → Op (Option User)
  unfolding keep_user
  load_user uid make = do o ← get_record crc user uid; u ← as_user o; keep_user uid make u

  load_group : Text → Bool → Op (Option Group)
  unfolding keep_group
  load_group gid make = do o ← get_record crc group gid; g ← as_group o; keep_group gid make g

  -- fetchUser; `make` is eFetchMake.
  unfoldable pub fetch_user : Text → Bool → Op (Option User)
  unfolding load_user
  fetch_user uid make db =
      if all is_uid_char uid
      then elim (lookup uid db.user) [ some u ↦ (ok (some u), db) | none ↦ load_user uid make db ]
      else raise argument db

  -- fetchGroup
  unfoldable pub fetch_group : Text → Bool → Op (Option Group)
  unfolding load_group
  fetch_group gid make db = elim (lookup gid db.group) [
    | some g ↦ (ok (some g), db)
    | none ↦ load_group gid make db
  ]
