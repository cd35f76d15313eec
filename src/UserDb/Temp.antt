-- ===== src/UserDb/Temp.antt =====
-- userdb.go, the methods for tests: they fill the caches without checks, and nothing on disk.
mod Tests
use mnm.Prelude.{
  Option, none, some, [], ◌∷◌, Text, text, Dict, lookup, insert, eq_text, if◌then◌else◌,
}
use mnm.UserDb.Model.{
  Node, User, Group, Member, Status, invited, joined, zero_user, zero_group, zero_node,
}
use mnm.UserDb.Disk.{Disk}
use mnm.UserDb.Op.{UserDb, ok, panic, Op}

abbrev put_user : Text → User → Op (Unit {0})
put_user uid u db = (ok tt, record db { user = insert uid u db.user })

-- TempUser
unfoldable pub temp_user : Text → Text → Op (Unit {0})
temp_user uid node = put_user uid (record zero_user {
  nodes = some ((node, record zero_node { num = 1 }) ∷ []);
  non_defunct_nodes_count = 1;
})

-- The user is there, and its map of nodes is not nil, or the method panics.
abbrev second_node : Text → Text → User → Option (Dict Node) → Op (Unit {0})
second_node uid node u none db = (panic, db)
second_node uid node u (some m) db =
    put_user uid
      (record u {
        nodes = some (insert node (record zero_node { num = 2 }) m);
        non_defunct_nodes_count = 2;
      })
      db

-- TempNode
unfoldable pub temp_node : Text → Text → Op (Unit {0})
temp_node uid node db = elim (lookup uid db.user) [
  | none ↦ (panic, db)
  | some u ↦ second_node uid node u u.nodes db
]

-- TempAlias
unfoldable pub temp_alias : Text → Text → Op (Unit {0})
temp_alias uid alias db = (ok tt, record db { alias = insert alias uid db.alias })

abbrev temp_status : Text → Status
temp_status gid = if eq_text gid (text "blab") then invited else joined

-- The map of members is not nil, or the method panics.
abbrev join_group : Text → Text → Text → Group → Option (Dict Member) → Op (Unit {0})
join_group gid uid alias g none db = (panic, db)
join_group gid uid alias g (some m) db =
    let member : Member = record { alias = alias; status = temp_status gid } in
    (
      ok tt,
      record db { group = insert gid (record g { uid = some (insert uid member m) }) db.group },
    )

-- TempGroup
unfoldable pub temp_group : Text → Text → Text → Op (Unit {0})
temp_group gid uid alias db = elim (lookup gid db.group) [
  | none ↦ join_group gid uid alias zero_group (some []) db
  | some g ↦ join_group gid uid alias g g.uid db
]

-- Erase: os.RemoveAll of the root; the caches stay.
unfoldable pub erase : Op (Unit {0})
erase db = (ok tt, record db { disk = record { temp = []; users = []; groups = []; links = [] } })
