-- ===== src/UserDb/Disk.antt =====
-- The directories of a database and the system calls that userdb.go makes on them.
-- A directory maps a file's name to what the file holds. Files are written once and then only
-- linked and removed, so that two links to one file are two entries with the same contents.
use mnm.Prelude.{
  ◌≡◌, refl, inl, inr, Option, none, some, List, [], ◌∷◌, ◌++◌, Text, Dict, lookup, insert, delete,
  Option-cases,
}
use mnm.UserDb.Model.{Object, RecordType, user, alias, group}

-- A file holds the JSON text of a record, or text that json.Unmarshal refuses.
pub data Contents : Type 0 where
  document : Object → Contents
  garbage : Contents

-- root/temp, root/user, root/group, and the symbolic links of root/alias.
pub record Disk : Type 0 where
  pub temp : Dict Contents
  pub users : Dict Contents
  pub groups : Dict Contents
  pub links : Dict Text

abbrev pub directory : RecordType → Disk → Dict Contents
directory user d = d.users
directory group d = d.groups
directory alias d = []

abbrev pub with_directory : RecordType → Dict Contents → Disk → Disk
with_directory user m d = record d { users = m }
with_directory group m d = record d { groups = m }
with_directory alias m d = d

-- One system call that changes a directory.
pub data Action : Type 0 where
  create : Text → Action
  write : Text → Object → Action
  link_temp : Text → Text → Action
  remove_file : RecordType → Text → Action
  link_file : Text → RecordType → Text → Action
  remove_link : Text → Action
  symlink : Text → Text → Action
  remove_temp : Text → Action
  discard_temp : Text → Action

-- os.Link: the source must be there, and the target must not.
abbrev link_into : Option Contents → Text → Dict Contents → Option (Dict Contents)
link_into none to m = none
link_into (some c) to m = elim (lookup to m) [ none ↦ some (insert to c m) | some _ ↦ none ]

abbrev put_temp : Option (Dict Contents) → Disk → Option Disk
put_temp none d = none
put_temp (some m) d = some (record d { temp = m })

abbrev put_file : RecordType → Option (Dict Contents) → Disk → Option Disk
put_file t none d = none
put_file t (some m) d = some (with_directory t m d)

-- `none` is an error that the caller panics on. A new file holds no valid text until it is written.
unfoldable pub act : Action → Disk → Option Disk
act (create n) d = elim (lookup n d.temp) [
  | none ↦ some (record d { temp = insert n garbage d.temp })
  | some _ ↦ none
]
act (write n o) d = some (record d { temp = insert n (document o) d.temp })
act (link_temp from to) d = put_temp (link_into (lookup from d.temp) to d.temp) d
act (remove_file t n) d = some (with_directory t (delete n (directory t d)) d)
act (link_file from t n) d = put_file t (link_into (lookup from d.temp) n (directory t d)) d
act (remove_link n) d = some (record d { links = delete n d.links })
act (symlink target n) d = elim (lookup n d.links) [
  | none ↦ some (record d { links = insert n target d.links })
  | some _ ↦ none
]
act (remove_temp n) d = elim (lookup n d.temp) [
  | none ↦ none
  | some _ ↦ some (record d { temp = delete n d.temp })
]
act (discard_temp n) d = some (record d { temp = delete n d.temp })

-- The calls in order, up to the first that fails.
unfoldable pub run : List Action → Disk → Option Disk
unfolding act
run [] d = some d
run (a ∷ rest) d = elim (act a d) [ none ↦ none | some d' ↦ run rest d' ]

abbrev pub and_then {ℓ κ} : {A : Type ℓ} {B : Type κ} → Option A → (A → Option B) → Option B
and_then none f = none
and_then (some a) f = f a

pub run-append : (xs ys : List Action) (d : Disk) → run (xs ++ ys) d ≡ and_then (run xs d) (run ys)
unfolding run
run-append [] ys d = refl
run-append (x ∷ xs) ys d = elim (Option-cases (act x d)) [
  | inl e ↦ rw (e, run) refl
  | inr (d', e) ↦ rw (e, run) (run-append xs ys d')
]
