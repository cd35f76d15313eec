-- ===== src/Qlib/Handle/Dispatch.antt =====
-- qlib/qlib.go, _handleMsg: the gate that the links' state is for the operations, and the whole.
pub mod Gate
pub mod Identity
mod Tests
use mnm.Prelude.{ℕ, Option, none, some, [], Text, is_empty, not, if◌then◌else◌, List, ◌∷◌}
use mnm.Qlib.Header.{Header, Operation, tmtp_rev, register, login, operation}
use mnm.Qlib.Quit.{
  Quit, msg_op_redundant, msg_need_tmtp_rev, msg_op_disallowed_on, msg_op_disallowed_off,
  msg_logout,
}
use mnm.Qlib.Op.{Result, ok, err, panic, Op, crash, pure}
use mnm.Qlib.Server.{Link, State, Env}
use mnm.Qlib.Handle.{Handler, goes_on, quits}
use mnm.Qlib.Handle.Register.{handle_tmtp_rev, handle_register, handle_login}
use mnm.Qlib.Handle.Edit.{handle_user_edit, handle_ohi_edit}
use mnm.Qlib.Handle.Group.{
  handle_invite, handle_group_edit, handle_post, handle_post_notify, handle_ping, handle_ack,
}

-- The first switch.
unfoldable pub gate : Link → Option Operation → Option Quit
gate l (some Operation.tmtp_rev) = if not (is_empty l.tmtprev) then some msg_op_redundant else none
gate l (some Operation.register) =
    if is_empty l.tmtprev
    then some msg_need_tmtp_rev
    else if not (is_empty l.node)
    then some msg_op_disallowed_on
    else none
gate l (some Operation.login) =
    if is_empty l.tmtprev
    then some msg_need_tmtp_rev
    else if not (is_empty l.node)
    then some msg_op_disallowed_on
    else none
gate l _ = if is_empty l.node then some msg_op_disallowed_off else none

module _ (env : Env) where
  -- The second switch; the number of no operation panics.
  unfoldable pub handle_op : Option Operation → ℕ → Header → Text → Handler
  handle_op none space h bytes = crash
  handle_op (some Operation.tmtp_rev) space h bytes = handle_tmtp_rev env h
  handle_op (some Operation.register) space h bytes = handle_register env h
  handle_op (some Operation.login) space h bytes = handle_login env h h.uid h.node
  handle_op (some Operation.user_edit) space h bytes = handle_user_edit env h
  handle_op (some Operation.ohi_edit) space h bytes = handle_ohi_edit env h
  handle_op (some Operation.group_invite) space h bytes = handle_invite env space h bytes
  handle_op (some Operation.group_edit) space h bytes = handle_group_edit env space h bytes
  handle_op (some Operation.post) space h bytes = handle_post env h bytes
  handle_op (some Operation.post_notify) space h bytes = handle_post_notify env h bytes
  handle_op (some Operation.ping) space h bytes = handle_ping env space h bytes
  handle_op (some Operation.ack) space h bytes = handle_ack h
  handle_op (some Operation.pulse) space h bytes = goes_on
  handle_op (some Operation.quit) space h bytes = quits msg_logout

  unfoldable pub gated : Option Quit → Option Operation → ℕ → Header → Text → Handler
  unfolding handle_op
  gated (some q) o space h bytes = quits q
  gated none o space h bytes = handle_op o space h bytes

  -- _handleMsg of a header, and the data that came with it; `space` is the room that the buffer has
  -- from the data's start.
  unfoldable pub handle_msg : ℕ → Header → Text → Handler
  unfolding gate gated
  handle_msg space h bytes s = gated (gate s.link (operation h.op)) (operation h.op) space h bytes s
