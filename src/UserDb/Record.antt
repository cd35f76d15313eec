-- ===== src/UserDb/Record.antt =====
-- userdb.go, getRecord, putRecord and complete: records in their files, written by a transaction
-- that NewUserDb completes after a crash.
use mnm.Prelude.{
  ℕ, Bool, ◌++◌, Option, none, some, List, [], ◌∷◌, Text, lookup, insert, is_empty, ◌==◌,
  if◌then◌else◌,
}
use mnm.UserDb.Model.{
  Alias, Object, a_user, a_group, RecordType, user, alias, group, zero_user, zero_group,
  alias_defunct_uid, checksum,
}
use mnm.UserDb.Disk.{
  Disk, Contents, document, directory, Action, create, write, link_temp, remove_file, link_file,
  remove_link, symlink, remove_temp, discard_temp, run, and_then,
}
use mnm.UserDb.Op.{UserDb, Result, ok, err, panic, Op}
use mnm.UserDb.Names.{file_name, file_temp, tmp_suffix}

abbrev pub sum_of : Object → ℕ
sum_of (a_user u) = u.check_sum
sum_of (a_group g) = g.check_sum

abbrev pub with_sum : ℕ → Object → Object
with_sum n (a_user u) = a_user (record u { check_sum = n })
with_sum n (a_group g) = a_group (record g { check_sum = n })

-- The zero object of a type; getRecord panics on another type.
abbrev pub zero_object : RecordType → Option Object
zero_object user = some (a_user zero_user)
zero_object group = some (a_group zero_group)
zero_object alias = none

-- json.Unmarshal into the zero object: the two types share only the field CheckSum.
unfoldable pub unmarshal : RecordType → Contents → Option Object
unmarshal user (document (a_user u)) = some (a_user u)
unmarshal user (document (a_group g)) = some (a_user (record zero_user { check_sum = g.check_sum }))
unmarshal group (document (a_group g)) = some (a_group g)
unmarshal group (document (a_user u)) =
    some (a_group (record zero_group { check_sum = u.check_sum }))
unmarshal _ _ = none

-- `crc` is checkSum after json.Marshal.
module _ (crc : Object → ℕ) where
  unfoldable pub verify : Option Object → Result Object
  verify none = err checksum
  verify (some o) = if crc (with_sum 0 o) == sum_of o then ok (with_sum 0 o) else err checksum

  read : RecordType → Object → Option Contents → Result Object
  unfolding verify unmarshal
  read t zero none = ok zero
  read t zero (some c) = verify (unmarshal t c)

  -- getRecord, for users and groups. An empty name is the directory's, which cannot be read.
  unfoldable pub get_record : RecordType → Text → Op Object
  unfolding read
  get_record t n db = elim (zero_object t) [
    | none ↦ (panic, db)
    | some zero ↦
        if is_empty (file_name t n)
        then (panic, db)
        else (read t zero (lookup (file_name t n) (directory t db.disk)), db)
  ]

-- getRecord, for aliases: the target of the symbolic link.
unfoldable pub get_alias : Text → Op (Option Text)
get_alias n db = (ok (lookup (file_name alias n) db.disk.links), db)

abbrev pub links_of : Object → List Alias
links_of (a_user u) = u.aliases
links_of (a_group g) = []

-- The calls of fLink: the link's name, and its target.
abbrev pub link_target : Text → Bool → Text
link_target uid defunct = if defunct then alias_defunct_uid else uid

unfoldable pub touched_links : Text → List Alias → List (Text × Text)
touched_links uid [] = []
touched_links uid (a ∷ rest) =
    (if a.en_touched then (file_name alias a.en, link_target uid a.en_defunct) ∷ [] else [])
    ++ ((if a.nat_touched then (file_name alias a.nat, link_target uid a.nat_defunct) ∷ [] else [])
        ++ touched_links uid rest)

-- fLink
unfoldable pub link_actions : List (Text × Text) → List Action
link_actions [] = []
link_actions ((name, target) ∷ rest) = remove_link name ∷ symlink target name ∷ link_actions rest

abbrev pub tmp_of : RecordType → Text → Text
tmp_of t n = file_temp t n ++ tmp_suffix

-- complete, in two parts: the file is put in place, then its aliases are linked and the temporary
-- files removed.
abbrev pub place_actions : RecordType → Text → List Action
place_actions t n = remove_file t (file_name t n) ∷ link_file (file_temp t n) t (file_name t n) ∷ []

abbrev pub finish_actions : RecordType → Text → Object → List Action
finish_actions t n o =
    link_actions (touched_links n (links_of o))
    ++ remove_temp (file_temp t n) ∷ discard_temp (tmp_of t n) ∷ []

abbrev pub complete_actions : RecordType → Text → Object → List Action
complete_actions t n o = place_actions t n ++ finish_actions t n o

-- putRecord, up to the call of complete.
abbrev pub start_actions : RecordType → Text → Object → List Action
start_actions t n o =
    create (tmp_of t n) ∷ write (tmp_of t n) o ∷ link_temp (tmp_of t n) (file_temp t n) ∷ []

-- putRecord, with complete.
abbrev pub put_actions : RecordType → Text → Object → List Action
put_actions t n o = start_actions t n o ++ complete_actions t n o

-- The object that complete reads back from a user's file when it is given none. A group's file is
-- not read: a group has no aliases.
reread : RecordType → Text → Disk → Option Object
unfolding unmarshal
reread user n d = and_then (lookup (file_name user n) d.users) (unmarshal user)
reread group n d = some (a_group zero_group)
reread alias n d = none

unfoldable pub complete : RecordType → Text → Option Object → Disk → Option Disk
unfolding reread
complete t n (some o) d = run (complete_actions t n o) d
complete t n none d =
    and_then (run (place_actions t n) d)
      λ d'. and_then (reread t n d') λ o. run (finish_actions t n o) d'

-- The cached object that a pointer leads to.
abbrev pub store : Text → Object → UserDb → UserDb
store n (a_user u) db = record db { user = insert n u db.user }
store n (a_group g) db = record db { group = insert n g db.group }

abbrev pub on_disk : Option Disk → UserDb → Result (Unit {0}) × UserDb
on_disk none db = (panic, db)
on_disk (some d) db = (ok tt, record db { disk = d })

module _ (crc : Object → ℕ) where
  -- The object's CheckSum as putRecord leaves it.
  abbrev pub summed : Object → Object
  summed o = with_sum (crc (with_sum 0 o)) o

  -- putRecord of the object that the caller has just changed in the cache.
  unfoldable pub put_record : RecordType → Text → Object → Op (Unit {0})
  put_record t n o db =
      let o' = summed o in on_disk (run (put_actions t n o') db.disk) (store n o' db)
