-- ===== src/UserDb/Temp/Tests.antt =====
-- The methods for tests, on an empty database.
use mnm.Prelude.{◌≡◌, refl, true, [], ◌∷◌, text, lookup, insert, eq_text}
use mnm.UserDb.Model.{qid}
use mnm.UserDb.Op.{UserDb, ok, panic}
use mnm.UserDb.Fetch.{fetch_user, fetch_group}
use mnm.UserDb.Users.{open_nodes, open_qids}
use mnm.UserDb.Groups.{group_get_users, joined_uids}
use mnm.UserDb.Temp.{temp_user, temp_node, temp_group}

abbrev no_db : UserDb
no_db = record {
  user = [];
  alias = [];
  group = [];
  disk = record { temp = []; users = []; groups = []; links = [] };
}

-- The nodes of a user for tests are in service.
temp_nodes :
    (open_nodes
      (λ o. 0)
      (text "u1")
      (temp_node (text "u1") (text "n2") (temp_user (text "u1") (text "n1") no_db).1).1).0
    ≡ ok (text "u1.01" ∷ text "u1.02" ∷ [])
unfolding temp_node temp_user open_nodes lookup insert eq_text fetch_user open_qids qid
temp_nodes = refl

-- A node of a user that is not there panics.
temp_node_panics : (temp_node (text "u1") (text "n1") no_db).0 ≡ panic
unfolding temp_node lookup
temp_node_panics = refl

-- Joined members of a group for tests are listed.
temp_members :
    (group_get_users
      (λ o. 0)
      (λ r. true)
      (text "g1")
      (text "u1")
      (temp_group
        (text "g1")
        (text "u2")
        (text "b")
        (temp_group (text "g1") (text "u1") (text "a") no_db).1).1).0
    ≡ ok (text "u1" ∷ text "u2" ∷ [])
unfolding temp_group group_get_users lookup insert eq_text fetch_group joined_uids
temp_members = refl
