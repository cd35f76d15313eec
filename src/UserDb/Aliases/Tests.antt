-- ===== src/UserDb/Aliases/Tests.antt =====
-- The theorems on aliases at a user with an alias, and a second user.
use mnm.UserDb.Fetch.{fetch_user}
use mnm.UserDb.Record.{get_alias}
use mnm.UserDb.Names.{file_name, escape}
use mnm.UserDb.Aliases.{lookup_alias}
use mnm.Prelude.{
  ◌≡◌, arith, lookup, eq_text, ℕ, ◌+◌, ◌*◌, refl, Bool, some, [], ◌∷◌, text, leb, length,
}
use mnm.UserDb.Model.{User, Object, a_user, a_group, entries, zero_user, alias_invalid}
use mnm.UserDb.Op.{UserDb, err}
use mnm.UserDb.Aliases.{add_alias, drop_alias}
use mnm.UserDb.Names.Escape.{IsBytes}
use mnm.UserDb.Aliases.Ownership.{KeepsAliases, add_alias-KeepsAliases}
use mnm.UserDb.Aliases.Retired.{Retires, drop_alias-Retires}

abbrev sum : Object → ℕ
sum (a_user u) = 31 * u.non_defunct_nodes_count + length u.aliases
sum (a_group g) = 7 + length (entries g.uid)

-- The printable characters of ASCII, in place of unicode.IsPrint.
abbrev is_print : ℕ → Bool
is_print c = leb 0x20 c

abbrev dave : User
dave = record zero_user { nodes = some []; non_defunct_nodes_count = 1 }

abbrev db : UserDb
db = record {
  user = (text "D", dave) ∷ (text "E", dave) ∷ [];
  alias = (text "dave", text "D") ∷ [];
  group = [];
  disk = record {
    temp = [];
    users = [];
    groups = [];
    links = (text "dave", text "D") ∷ (text "eve", text "E") ∷ [];
  };
}

dave-IsBytes : IsBytes (text "dave")
dave-IsBytes = (omega arith, (omega arith, (omega arith, (omega arith, tt))))

eve-IsBytes : IsBytes (text "eve")
eve-IsBytes = (omega arith, (omega arith, (omega arith, tt)))

-- An alias that is only on disk is not another user's to drop.
not_own : (drop_alias sum is_print (text "D") (text "eve") db).0 ≡ err alias_invalid
unfolding drop_alias fetch_user lookup eq_text lookup_alias get_alias file_name escape
not_own = refl

add_alias-KeepsAliases_example :
    KeepsAliases (add_alias sum is_print (text "D") (text "dave") (text "eve"))
add_alias-KeepsAliases_example =
    add_alias-KeepsAliases sum is_print (text "D") (text "dave") (text "eve") dave-IsBytes
      eve-IsBytes

drop_alias-Retires_example :
    Retires (text "dave") (text "D") db (drop_alias sum is_print (text "D") (text "dave") db).1
drop_alias-Retires_example =
    drop_alias-Retires sum (text "D") (text "dave") dave-IsBytes refl is_print db
