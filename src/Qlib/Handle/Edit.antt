-- ===== src/Qlib/Handle/Edit.antt =====
-- qlib/qlib.go, _handleMsg: the operations on a user's own nodes and aliases, and on whom its
-- presence is told to.
use mnm.Prelude.{
  Bool, true, not, ◌&&◌, ◌||◌, Option, none, some, List, [], ◌∷◌, ◌++◌, Text, text, length,
  is_empty, lookup, insert, ltb, eq_text, if◌then◌else◌,
}
use mnm.UserDb.Users.{add_node, open_nodes, close_nodes}
use mnm.UserDb.Aliases.{add_alias}
use mnm.Qlib.Header.{Header, HeaderFor, zero_header, op_ohi_edit}
use mnm.Qlib.Quit.{msg_header_bad}
use mnm.Qlib.Op.{Fault, too_short, ok, panic, Op, pure, ◌>>=◌, ◌>>◌}
use mnm.Qlib.Presence.{edit, ref}
use mnm.Qlib.Store.{copy_dir}
use mnm.Qlib.Server.{
  string, recipients, Msg, Queue, Server, Tried, worked, failed, State, Env, in_db, in_store,
  ignoring_error, must, try, get, on_server, on_link,
}
use mnm.Qlib.Nodes.{get_node, queue_in, set_queue}
use mnm.Qlib.Post.{entries_of, or_crash, post_msg}
use mnm.Qlib.Handle.{Handler, quits, alias_min_len, to_user, fault_of, answer}
use mnm.Qlib.Handle.Register.{node_sha}

unfoldable pub new_alias : Env → Text → Text → Op State (Tried Msg)
new_alias env uid a = if ltb (length a) alias_min_len then pure (failed too_short) else do
  r ← try (on_server (in_db (add_alias env.check_sum env.is_print uid a [])))
  elim r [
    | failed e ↦ pure (failed e)
    | worked _ ↦ pure (worked ((text "newalias", string a) ∷ []))
  ]

-- The new node gets links to the messages that wait for this one.
unfoldable pub new_node : Env → Text → Text → Text → Op State (Tried Msg)
new_node env uid node name = do
  sha ← or_crash (node_sha env env.random)
  r ← try (on_server (in_db (add_node env.check_sum uid sha)))
  elim r [
    | failed e ↦ pure (failed e)
    | worked qid ↦ do
      must (on_server (in_store (copy_dir node qid)))
      pure (
          worked
            ((text "nodeid", string (env.base32 env.random)) ∷ (text "newnode", string name) ∷ []))
  ]

-- The edit is told to the user's nodes.
unfoldable pub told_edit : Env → Header → Text → Tried Msg → Op State (Option Fault)
told_edit env h uid (failed e) = pure (some e)
told_edit env h uid (worked etc) = do
  r ← try (post_msg env (record h { for_ = to_user uid }) etc [])
  pure (fault_of r)

-- eOpUserEdit
unfoldable pub handle_user_edit : Env → Header → Handler
unfolding new_alias new_node told_edit
handle_user_edit env h =
    if is_empty h.new_node && is_empty h.new_alias
    then quits msg_header_bad
    else if not (is_empty h.new_node) && not (is_empty h.new_alias)
    then quits msg_header_bad
    else do
      uid ← get (λ s. s.link.uid)
      node ← get (λ s. s.link.node)
      etc ←
          if is_empty h.new_alias
          then new_node env uid node h.new_node
          else new_alias env uid h.new_alias
      e ← told_edit env h uid etc
      answer env h.id [] [] e

-- A node that has no queue is not told.
abbrev pub put_ohi : Text → Bool → Text → Option Queue → Op Server (Unit {0})
put_ohi uid on n none = pure tt
put_ohi uid on n (some q) = set_queue n (record q { ohi = q.ohi ++ (uid, on) ∷ [] })

-- _sendOhi, where each queue takes the message in time; true stands for eOhiOn.
unfoldable pub send_ohi : Text → Bool → List Text → Op Server (Unit {0})
send_ohi uid on [] = pure tt
send_ohi uid on (n ∷ ns) = do
  get_node n
  found ← get (λ s. queue_in n s.nodes)
  put_ohi uid on n found
  send_ohi uid on ns

-- Whether all recipients are users: the first who is not is the error.
unfoldable pub check_users : Env → List HeaderFor → Op Server (Unit {0})
check_users env [] = pure tt
check_users env (to ∷ tos) = do
  _ ← in_db (open_nodes env.check_sum to.id)
  ignoring_error tt (in_db (close_nodes env.check_sum to.id))
  check_users env tos

unfoldable pub edit_set : Text → Text → Bool → Op Server Bool
edit_set uid to on s = elim (lookup uid s.ohi) [
  | none ↦ (panic, s)
  | some set ↦ let r = edit to on set in (ok r.1, record s { ohi = insert uid r.0 s.ohi })
]

abbrev pub tell_edited : Env → Text → Bool → Text → Tried (List Text) → Op Server (Unit {0})
tell_edited env uid on to (failed e) = pure tt
tell_edited env uid on to (worked nodes) = do
  send_ohi uid on nodes
  ignoring_error tt (in_db (close_nodes env.check_sum to))

-- Those whose entry changes are told, unless their record cannot be read.
unfoldable pub edit_users : Env → Text → Bool → List HeaderFor → Op Server (Unit {0})
unfolding edit_set send_ohi
edit_users env uid on [] = pure tt
edit_users env uid on (to ∷ tos) = do
  changed ← edit_set uid to.id on
  if not changed
      then pure tt
      else do r ← try (in_db (open_nodes env.check_sum to.id)); tell_edited env uid on to.id r
  edit_users env uid on tos

abbrev turns_on : Text → Bool
turns_on t = eq_text t (text "init") || eq_text t (text "add")

-- o.ohi, referred to once by a link.
unfoldable pub hold_set : Text → Op State (Unit {0})
hold_set uid = do
  held ← get (λ s. s.link.ohi)
  if held then pure tt else do
    on_server (λ s. (ok tt, record s { ohi = ref uid s.ohi }))
    on_link (λ l. record l { ohi = true })

unfoldable pub edit_ohi : Env → Header → Text → Op State (Option Fault)
unfolding edit_users hold_set
edit_ohi env h uid = do
  hold_set uid
  on_server (edit_users env uid (turns_on h.type) (entries_of h.for_))
  if eq_text h.type (text "init") then pure none else do
    r ← try (
        post_msg env (record zero_header { op = op_ohi_edit; for_ = to_user uid })
          ((text "for", recipients (entries_of h.for_)) ∷ (text "type", string h.type) ∷ []) [])
    pure (fault_of r)

-- After the loop over the recipients.
unfoldable pub checked_ohi : Env → Header → Text → Tried (Unit {0}) → Op State (Option Fault)
unfolding edit_ohi
checked_ohi env h uid (failed e) = pure (some e)
checked_ohi env h uid (worked _) = edit_ohi env h uid

-- eOpOhiEdit
unfoldable pub handle_ohi_edit : Env → Header → Handler
unfolding check_users checked_ohi
handle_ohi_edit env h =
    if not (turns_on h.type) && not (eq_text h.type (text "drop")) then quits msg_header_bad else do
      uid ← get (λ s. s.link.uid)
      r ← try (on_server (check_users env (entries_of h.for_)))
      e ← checked_ohi env h uid r
      answer env h.id [] [] e
