-- ===== src/Qlib/Nodes.antt =====
-- qlib/qlib.go, tNodes and tQueue: the queue of a node, which one link has at a time.
pub mod Exclusive
pub mod Growing
mod Tests
use mnm.Prelude.{
  ℕ, Bool, true, false, not, Option, none, some, List, [], ◌∷◌, ◌++◌, Text, text, Dict, lookup,
  insert, delete, is_empty, if◌then◌else◌,
}
use mnm.Qlib.Op.{Fault, Op, ok, panic, pure, crash, ◌>>=◌, ◌>>◌}
use mnm.Qlib.Presence.{get_ohi_to}
use mnm.Qlib.Store.{get_dir}
use mnm.Qlib.Server.{
  Value, string, strings, Msg, Queue, Nodes, Server, State, Env, in_store, must, get, pack_msg,
  on_link, write_msg,
}

-- getNode
unfoldable pub get_node : Text → Op Server (Unit {0})
get_node n s = elim (lookup n s.nodes) [
  | some q ↦ (ok tt, s)
  | none ↦ (ok tt, record s { nodes = insert n none s.nodes })
]

-- The queue of a node that getNode has made, if it has one.
abbrev pub queue_in : Text → Nodes → Option Queue
queue_in n nodes = elim (lookup n nodes) [ none ↦ none | some q ↦ q ]

abbrev pub set_queue : Text → Queue → Op Server (Unit {0})
set_queue n q s = (ok tt, record s { nodes = insert n (some q) s.nodes })

abbrev pub new_queue : List Text → Queue
new_queue buf = record { has_conn = false; buf = buf; ack = []; ohi = [] }

-- A new queue starts with what the node's directory holds.
abbrev pub found_or_new : Text → Option Queue → Op Server Queue
found_or_new n (some q) = pure q
found_or_new n none = do
  buf ← must (in_store (get_dir n))
  set_queue n (new_queue buf)
  pure (new_queue buf)

-- The queue of the node.
unfoldable pub open_queue : Text → Op Server Queue
unfolding get_node
open_queue n = do get_node n; found ← get (λ s. queue_in n s.nodes); found_or_new n found

-- iMsg["ohi"]
abbrev pub with_ohi : List Text → Msg → Msg
with_ohi from m =
    if is_empty from then delete (text "ohi") m else insert (text "ohi") (strings from) m

abbrev pub if_packed : Msg → Option Text → Op Server (Option Msg)
if_packed m none = crash
if_packed m (some bytes) = pure (some m)

-- The swap of hasConn, and the message that tells of those who are present.
unfoldable pub take_queue : Env → Text → Msg → Text → Queue → Op Server (Option Msg)
take_queue env n m uid q = if q.has_conn then pure none else do
  set_queue n (record q { has_conn = true })
  from ← get (λ s. get_ohi_to uid s.ohi)
  if_packed (with_ohi from m) (pack_msg env (with_ohi from m))

-- queueLink: none where another link has the node, else the message to write.
unfoldable pub queue_link : Env → Text → Msg → Text → Op Server (Option Msg)
unfolding open_queue take_queue
queue_link env n m uid = do q ← open_queue n; take_queue env n m uid q

-- unlink
unfoldable pub unlink : Text → Op Server (Unit {0})
unlink n s = elim (queue_in n s.nodes) [
  | none ↦ (panic, s)
  | some q ↦ set_queue n (record q { has_conn = false }) s
]

-- A field that is left out where it is empty.
abbrev pub omit_empty : Text → Text → Msg
omit_empty k v = if is_empty v then [] else (k, string v) ∷ []

-- ackAsap
unfoldable pub ack_asap : Env → Text → Text → Text → Option Fault → Op State (Unit {0})
ack_asap env id msg_id posted e =
    let error : Msg = elim e [
      | none ↦ []
      | some f ↦ (text "error", string (env.error_text f)) ∷ []
    ] in
    write_msg env (
      error
      ++ ((text "id", string id) ∷ [])
      ++ omit_empty (text "msgid") msg_id
      ++ ((text "op", string (text "ack")) ∷ [])
      ++ omit_empty (text "posted") posted)
