-- ===== src/UserDb/Users.antt =====
-- userdb.go, the operations on users and their nodes: AddUser, AddNode, DropNode, Verify, OpenNodes
-- and CloseNodes.
pub mod Nodes
pub mod Valid
pub mod Sessions
pub mod Creating
pub mod Wrap
pub mod Restart
pub mod Adding
pub mod Dropping
mod Tests
use mnm.Prelude.{
  ℕ, ◌+◌, ◌-◌, ◌%◌, true, false, not, Option, none, some, List, [], ◌∷◌, Text, Dict, length,
  is_empty, insert, leb, ◌==◌, if◌then◌else◌,
}
use mnm.UserDb.Model.{
  Node, User, Object, a_user, user, user_node_max, entries, node_at, qid, clear_touched,
  missing_node, user_invalid, max_nodes, node_invalid, last_node,
}
use mnm.UserDb.Op.{Op, pure, raise, deref, ◌>>=◌, ◌>>◌}
use mnm.UserDb.Record.{put_record}
use mnm.UserDb.Fetch.{fetch_user}

-- aUser == nil
abbrev pub found_user : Option User → Op User
found_user none = raise user_invalid
found_user (some u) = pure u

-- The Qids of the nodes that are not defunct.
unfoldable pub open_qids : Text → Dict Node → List Text
open_qids uid [] = []
open_qids uid ((name, nd) ∷ rest) =
    let others = open_qids uid rest in if nd.defunct then others else qid uid nd.num ∷ others

-- uint8(len(aUser.Nodes))+1
abbrev pub next_num : User → ℕ
next_num u = (length (entries u.nodes) % 256 + 1) % 256

-- The record with the node `name` set, and its aliases no longer touched.
abbrev pub with_node : User → Dict Node → Text → Node → ℕ → User
with_node u nodes name nd count = record u {
  nodes = some (insert name nd nodes);
  non_defunct_nodes_count = count;
  aliases = clear_touched u.aliases;
}

module _ (crc : Object → ℕ) where
  unfoldable pub add_user : Text → Text → List (Text × Text) → Op Text
  add_user uid new_node auth = do
    found ← fetch_user crc uid true
    u ← deref found
    if not (is_empty (entries u.nodes))
        then (if not ((node_at new_node u).num == 1) then raise missing_node else pure (qid uid 1))
        else do
          nodes ← deref u.nodes
          put_record crc user uid (
              a_user (record u {
                nodes = some (insert new_node (record { defunct = false; num = 1 }) nodes);
                non_defunct_nodes_count = u.non_defunct_nodes_count + 1;
                authentication = auth;
              }))
          pure (qid uid 1)

  unfoldable pub add_node : Text → Text → Op Text
  add_node uid new_node = do
    found ← fetch_user crc uid false
    u ← found_user found
    if not ((node_at new_node u).num == 0)
        then raise node_invalid
        else if u.non_defunct_nodes_count == user_node_max
        then raise max_nodes
        else do
          nodes ← deref u.nodes
          let nd : Node = record { defunct = false; num = next_num u }
          put_record crc user uid
              (a_user (with_node u nodes new_node nd (u.non_defunct_nodes_count + 1)))
          pure (qid uid (next_num u))

  unfoldable pub drop_node : Text → Text → Op Text
  drop_node uid node = do
    found ← fetch_user crc uid false
    u ← found_user found
    let nd = node_at node u
    if nd.num == 0
        then raise node_invalid
        else if nd.defunct
        then pure (qid uid nd.num)
        else if leb u.non_defunct_nodes_count 1
        then raise last_node
        else do
          nodes ← deref u.nodes
          put_record crc user uid (
              a_user (
                with_node u nodes node (record nd { defunct = true })
                  (u.non_defunct_nodes_count - 1)))
          pure (qid uid nd.num)

  -- Verify
  unfoldable pub verify_node : Text → Text → Op Text
  verify_node uid node = do
    found ← fetch_user crc uid false
    u ← found_user found
    let nd = node_at node u
    if nd.defunct
        then raise node_invalid
        else if nd.num == 0
        then raise node_invalid
        else pure (qid uid nd.num)

  -- OpenNodes leaves the record locked for reading.
  unfoldable pub open_nodes : Text → Op (List Text)
  open_nodes uid = do
    found ← fetch_user crc uid false
    u ← found_user found
    pure (open_qids uid (entries u.nodes))

  -- CloseNodes gives the lock back.
  unfoldable pub close_nodes : Text → Op (Unit {0})
  close_nodes uid = do found ← fetch_user crc uid false; found_user found; pure tt
