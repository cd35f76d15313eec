-- ===== src/UserDb/Aliases.antt =====
-- userdb.go, the operations on aliases: Lookup, AddAlias and DropAlias.
pub mod Links
pub mod Targets
pub mod Filling
pub mod Claims
pub mod Retired
pub mod Ownership
mod Tests
use mnm.Prelude.{
  ℕ, Bool, true, false, not, ◌&&◌, ◌||◌, Option, none, some, List, [], ◌∷◌, ◌++◌, Text, is_empty,
  lookup, insert, eq_text, if◌then◌else◌,
}
use mnm.UserDb.Model.{
  Alias, Object, a_user, user, alias_defunct_uid, or_zero, clear_touched, argument, unknown_alias,
  alias_taken, alias_invalid,
}
use mnm.UserDb.Op.{UserDb, ok, err, Op, pure, raise, ignoring_error, ◌>>=◌, ◌>>◌}
use mnm.UserDb.Record.{get_alias, put_record}
use mnm.UserDb.Fetch.{fetch_user, fetch_group}
use mnm.UserDb.Users.{found_user}
use mnm.UserDb.Input.{invalid_input, invalid_ascii}

-- The cached target of an alias, the empty string where there is none.
abbrev pub alias_uid : Text → UserDb → Text
alias_uid a db = or_zero [] (lookup a db.alias)

-- The map is checked again before the target is added to it.
cache_alias : Text → Text → Op Text
cache_alias a uid db =
    if is_empty (alias_uid a db)
    then (ok uid, record db { alias = insert a uid db.alias })
    else (ok (alias_uid a db), db)

load_alias : Text → Option Text → Op Text
unfolding cache_alias
load_alias a none = raise unknown_alias
load_alias a (some uid) = cache_alias a uid

-- Lookup
unfoldable pub lookup_alias : Text → Op Text
unfolding load_alias
lookup_alias a db =
    if is_empty a
    then raise argument db
    else if is_empty (alias_uid a db)
    then (do target ← get_alias a; load_alias a target) db
    else (ok (alias_uid a db), db)

-- aUid, _ = o.Lookup(iAlias)
abbrev pub try_lookup : Text → Op Text
try_lookup a = ignoring_error [] (lookup_alias a)

-- o.alias[iAlias] = iUid
abbrev pub set_alias : Text → Text → Op (Unit {0})
set_alias a uid db = (ok tt, record db { alias = insert a uid db.alias })

abbrev pub set_named_alias : Text → Text → Op (Unit {0})
set_named_alias a uid = if is_empty a then pure tt else set_alias a uid

-- Whether the alias is another user's, or a group's name.
abbrev is_taken : Text → Text → UserDb → Bool
is_taken a uid db =
    not (is_empty (alias_uid a db)) && not (eq_text (alias_uid a db) uid)
    || (elim (lookup a db.group) [ none ↦ false | some _ ↦ true ])

check_free : Text → Text → Op (Unit {0})
check_free a uid db =
    if is_empty a
    then (ok tt, db)
    else if is_taken a uid db
    then (err alias_taken, db)
    else (ok tt, db)

-- The names are taken together: both are free, and then both are the user's.
pub claim : Text → Text → Text → Op (Unit {0})
unfolding check_free
claim nat en uid = do
  check_free nat uid
  check_free en uid
  set_named_alias nat uid
  set_named_alias en uid

abbrev pub new_alias : Text → Text → Alias
new_alias nat en = record {
  en = en;
  nat = nat;
  en_defunct = false;
  nat_defunct = false;
  en_touched = not (is_empty en);
  nat_touched = not (is_empty nat);
}

-- Whether an alias was dropped before.
unfoldable pub is_dropped : Text → List Alias → Bool
is_dropped a [] = false
is_dropped a (x ∷ rest) =
    eq_text a x.nat && x.nat_defunct || eq_text a x.en && x.en_defunct || is_dropped a rest

-- The first entry with this name is marked.
unfoldable pub mark_defunct : Text → List Alias → List Alias
mark_defunct a [] = []
mark_defunct a (x ∷ rest) =
    if eq_text a x.nat
    then record x { nat_defunct = true; nat_touched = true } ∷ rest
    else if eq_text a x.en
    then record x { en_defunct = true; en_touched = true } ∷ rest
    else x ∷ mark_defunct a rest

module _ (crc : Object → ℕ) (is_print : ℕ → Bool) where
  -- The Uid that counts for one of the two names: the user's own for a name that is empty.
  owner_of : Text → Text → Op Text
  owner_of uid a = if is_empty a then pure uid else do fetch_group crc a false; try_lookup a

  -- AddAlias, after the checks of its arguments.
  add_valid_alias : Text → Text → Text → Op (Unit {0})
  unfolding owner_of claim
  add_valid_alias uid nat en = do
    found ← fetch_user crc uid false
    u ← found_user found
    nat_uid ← owner_of uid nat
    en_uid ← owner_of uid en
    if eq_text nat_uid uid && eq_text en_uid uid then pure tt else do
      claim nat en uid
      put_record crc user uid
          (a_user (record u { aliases = clear_touched u.aliases ++ new_alias nat en ∷ [] }))

  checked_alias : Text → Text → Text → Op (Unit {0})
  unfolding add_valid_alias
  checked_alias uid nat en =
      if invalid_input is_print nat
      then raise argument
      else if invalid_ascii en
      then raise argument
      else add_valid_alias uid nat en

  -- AddAlias
  unfoldable pub add_alias : Text → Text → Text → Op (Unit {0})
  unfolding checked_alias
  add_alias uid nat en =
      if eq_text nat en
      then (if is_empty nat then raise argument else checked_alias uid [] en)
      else checked_alias uid nat en

  -- DropAlias
  unfoldable pub drop_alias : Text → Text → Op (Unit {0})
  unfolding is_dropped mark_defunct
  drop_alias uid a = do
    found ← fetch_user crc uid false
    u ← found_user found
    if is_dropped a u.aliases then pure tt else do
      owner ← try_lookup a
      if not (eq_text owner uid) then raise alias_invalid else do
        set_alias a alias_defunct_uid
        put_record crc user uid
            (a_user (record u { aliases = mark_defunct a (clear_touched u.aliases) }))
