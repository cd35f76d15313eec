-- ===== src/UserDb/Open.antt =====
-- userdb.go, NewUserDb: opening a database completes the transactions that a crash cut short.
mod Links
pub mod Outcome
mod Recovery
pub mod Save
pub mod Crash
mod Tests
use mnm.Prelude.{
  Bool, true, false, ◌&&◌, Option, none, some, List, [], ◌∷◌, Text, text, eq_text, if◌then◌else◌,
  map, lookup,
}
use mathlib.Core.Option
use mnm.UserDb.Model.{RecordType, user, group}
use mnm.UserDb.Disk.{Disk, discard_temp, run, and_then}
use mnm.UserDb.Op.{UserDb}
use mnm.UserDb.Names.{tmp_suffix, has_suffix, split_pair, unescape}
use mnm.UserDb.Record.{complete}

-- A transaction that putRecord writes is of a user or of a group.
type_of_name : Text → Option RecordType
type_of_name s =
    if eq_text s (text "user")
    then some user
    else if eq_text s (text "group")
    then some group
    else none

-- The record's name: a user's is not escaped. `none` is reported and passed over.
unescape_id : Text → Text → Option Text
unescape_id kind n = if eq_text kind (text "user") then some n else unescape n

stale_pair : Bool → Option (Text × Text) → Bool
stale_pair stale none = stale
stale_pair stale (some (kind, n)) =
    if eq_text kind (text "user")
    then stale
    else elim (unescape n) [ none ↦ true | some id ↦ false ]

-- Whether the loop's `err` is set after its round for a name, on the directories before the round: it
-- is left set where a name cannot be unescaped, and where a file to remove is gone, as one is that
-- the completion of a transaction has removed; it is not reset for a user's name.
unfoldable pub stale_after : Bool → Text → Disk → Bool
unfolding stale_pair
stale_after stale name d =
    if has_suffix name tmp_suffix
    then elim (lookup name d.temp) [ none ↦ true | some c ↦ false ]
    else stale_pair stale (split_pair name)

-- `other` is complete for a kind that putRecord does not write: it may be anything.
module _ (other : Text → Text → Disk → Option Disk) where
  complete_named : Text → Option RecordType → Text → Disk → Option Disk
  complete_named kind none n d = other kind n d
  complete_named kind (some t) n d = complete t n none d

  -- A name for which `err` is set is reported and passed over; `stale` says that it was set before.
  complete_pair : Bool → Option (Text × Text) → Disk → Option Disk
  unfolding type_of_name complete_named unescape_id
  complete_pair stale none d = some d
  complete_pair stale (some (kind, n)) d =
      if eq_text kind (text "user") && stale then some d else elim (unescape_id kind n) [
        | none ↦ some d
        | some id ↦ complete_named kind (type_of_name kind) id d
      ]

  unfoldable pub recover_one : Bool → Text → Disk → Option Disk
  unfolding complete_pair
  recover_one stale name d =
      if has_suffix name tmp_suffix
      then run (discard_temp name ∷ []) d
      else complete_pair stale (split_pair name) d

  -- The loop over the names that Readdirnames returns, in any order.
  unfoldable pub recover_from : Bool → List Text → Disk → Option Disk
  recover_from stale [] d = some d
  recover_from stale (name ∷ rest) d =
      and_then (recover_one stale name d) (recover_from (stale_after stale name d) rest)

  abbrev pub recover : List Text → Disk → Option Disk
  recover names d = recover_from false names d

abbrev pub keys {ℓ} : {V : Type ℓ} → List (Text × V) → List Text
keys m = map (λ e. e.0) m

-- NewUserDb on directories that are there: the caches are empty.
unfoldable pub new_user_db : (Text → Text → Disk → Option Disk) → Disk → Option UserDb
new_user_db other d =
    Option.map (λ d'. record { user = []; alias = []; group = []; disk = d' })
      (recover other (keys d.temp) d)
