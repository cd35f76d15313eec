-- ===== src/UserDb/Cached.antt =====
-- The two ends of every operation: a record that is in the cache is fetched as it is, and a record
-- is put on directories with no temporary file.
use mnm.Prelude.{
  ℕ, ◌≡◌, refl, Bool, true, some, [], Text, all, lookup, insert, lookup-insert, eq_text_refl,
}
use mnm.UserDb.Model.{User, Group, Object, a_user, a_group, user, group}
use mnm.UserDb.Op.{UserDb, ok}
use mnm.UserDb.Record.{put_record}
use mnm.UserDb.Open.Outcome.{IsSaved}
use mnm.UserDb.Open.Save.{put_saves}
use mnm.UserDb.Fetch.{fetch_user, fetch_group, is_uid_char}

-- The user is in the cache, and no transaction is pending.
pub record HasUser (uid : Text) (u : User) (db : UserDb) : Type 0 where
  pub named : all is_uid_char uid ≡ true
  pub cached : lookup uid db.user ≡ some u
  pub quiet : db.disk.temp ≡ []

pub record HasGroup (gid : Text) (g : Group) (db : UserDb) : Type 0 where
  pub cached : lookup gid db.group ≡ some g
  pub quiet : db.disk.temp ≡ []

module _ (crc : Object → ℕ) where
  pub fetch_user-HasUser :
      (uid : Text) (make : Bool) {u : User} {db : UserDb}
      → HasUser uid u db
      → fetch_user crc uid make db ≡ (ok (some u), db)
  unfolding fetch_user
  fetch_user-HasUser uid make h = rw h.named (rw h.cached)

  pub fetch_group-HasGroup :
      (gid : Text) (make : Bool) {g : Group} {db : UserDb}
      → HasGroup gid g db
      → fetch_group crc gid make db ≡ (ok (some g), db)
  unfolding fetch_group
  fetch_group-HasGroup gid make h = rw (h.cached, fetch_group)

  abbrev pub summed_user : User → User
  summed_user u = record u { check_sum = crc (a_user (record u { check_sum = 0 })) }

  abbrev pub summed_group : Group → Group
  summed_group g = record g { check_sum = crc (a_group (record g { check_sum = 0 })) }

  -- The cache and the file hold the record with its sum; all other records are as they were.
  pub record PutUser (uid : Text) (u : User) (db db' : UserDb) : Type 0 where
    pub users : db'.user ≡ insert uid (summed_user u) db.user
    pub aliases : db'.alias ≡ db.alias
    pub groups : db'.group ≡ db.group
    pub quiet : db'.disk.temp ≡ []
    pub saved : IsSaved (a_user (summed_user u)) uid db.disk db'.disk

  pub record PutGroup (gid : Text) (g : Group) (db db' : UserDb) : Type 0 where
    pub users : db'.user ≡ db.user
    pub aliases : db'.alias ≡ db.alias
    pub groups : db'.group ≡ insert gid (summed_group g) db.group
    pub quiet : db'.disk.temp ≡ []
    pub saved : IsSaved (a_group (summed_group g)) gid db.disk db'.disk

  pub put_record-user :
      (uid : Text) (u : User) (db : UserDb)
      → db.disk.temp ≡ []
      → (db' : UserDb) × (put_record crc user uid (a_user u) db ≡ (ok tt, db'))
        × PutUser uid u db db'
  unfolding put_record
  put_record-user uid u db quiet =
      let (d', e, q, s) = put_saves (a_user (summed_user u)) uid db.disk quiet in
      (
        record db { user = insert uid (summed_user u) db.user; disk = d' },
        (rw e),
        record { users = refl; aliases = refl; groups = refl; quiet = q; saved = s },
      )

  pub put_record-group :
      (gid : Text) (g : Group) (db : UserDb)
      → db.disk.temp ≡ []
      → (db' : UserDb) × (put_record crc group gid (a_group g) db ≡ (ok tt, db'))
        × PutGroup gid g db db'
  unfolding put_record
  put_record-group gid g db quiet =
      let (d', e, q, s) = put_saves (a_group (summed_group g)) gid db.disk quiet in
      (
        record db { group = insert gid (summed_group g) db.group; disk = d' },
        (rw e),
        record { users = refl; aliases = refl; groups = refl; quiet = q; saved = s },
      )

  pub PutUser-HasUser :
      {uid : Text} {u : User} {db db' : UserDb}
      → all is_uid_char uid ≡ true
      → PutUser uid u db db'
      → HasUser uid (summed_user u) db'
  PutUser-HasUser {uid} named p = record {
    named = named;
    cached = rw p.users (rw lookup-insert (rw (eq_text_refl uid)));
    quiet = p.quiet;
  }

  pub PutGroup-HasGroup :
      {gid : Text} {g : Group} {db db' : UserDb}
      → PutGroup gid g db db'
      → HasGroup gid (summed_group g) db'
  PutGroup-HasGroup {gid} p = record {
    cached = rw p.groups (rw lookup-insert (rw (eq_text_refl gid)));
    quiet = p.quiet;
  }
