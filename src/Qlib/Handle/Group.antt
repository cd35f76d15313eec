-- ===== src/Qlib/Handle/Group.antt =====
-- qlib/qlib.go, _handleMsg: the operations on groups, and those that send messages to others.
use mnm.Prelude.{
  ℕ, not, ◌&&◌, Option, none, some, List, [], ◌∷◌, ◌++◌, Text, text, length, is_empty, ltb, eq_text,
  if◌then◌else◌,
}
use mnm.UserDb.Aliases.{lookup_alias}
use mnm.UserDb.Groups.{group_invite, group_join, group_alias, group_quit}
use mnm.Qlib.Header.{lt_int, Header, HeaderFor, zero_header, for_user, for_group_all, op_group_edit}
use mnm.Qlib.Quit.{msg_header_bad, msg_datalen_low, msg_for_empty}
use mnm.Qlib.Op.{stream, too_short, not_sender, Op, pure, crash, ◌>>=◌, ◌>>◌}
use mnm.Qlib.Ping.{quit_of}
use mnm.Qlib.Server.{
  string, Msg, Queue, Tried, worked, failed, State, Env, in_db, try, get, on_server,
}
use mnm.Qlib.Nodes.{queue_in, set_queue}
use mnm.Qlib.Post.{entries_of, post_msg, post_notify}
use mnm.Qlib.Handle.{Handler, goes_on, quits, alias_min_len, to_user, fault_of, with_ping, answer}

-- The variables that an act on a group leaves.
pub record Done : Type 0 where
  pub uid : Text
  pub alias : Text
  pub new_alias : Text
  pub mid : Text
  pub posted : Text

unfoldable pub done : Text → Text → Text → Done
done uid a new = record { uid = uid; alias = a; new_alias = new; mid = []; posted = [] }

-- "invite"
unfoldable pub invite : Env → Header → Text → Text → Op State (Tried Done)
invite env h uid bytes = if ltb (length h.gid) alias_min_len then pure (failed too_short) else do
  r ← try (on_server (in_db (group_invite env.check_sum env.is_print h.gid h.to h.from uid)))
  elim r [
    | failed e ↦ pure (failed e)
    | worked other ↦ do
      p ← try (
          post_msg env (record h { act = text "invite"; for_ = to_user other })
            ((text "gid", string h.gid)
              ∷ (text "alias", string h.from)
              ∷ (text "to", string h.to)
              ∷ [])
            bytes)
      elim p [
        | failed e ↦ pure (failed e)
        | worked (mid, posted) ↦ pure (
            worked record { uid = other; alias = h.to; new_alias = []; mid = mid; posted = posted })
      ]
  ]

-- "join"
unfoldable pub join : Env → Header → Text → Op State (Tried Done)
unfolding done
join env h uid = do
  r ← try (on_server (in_db (group_join env.check_sum env.is_print h.gid uid h.new_alias)))
  elim r [ failed e ↦ pure (failed e) | worked a ↦ pure (worked (done [] a [])) ]

-- "alias"
unfoldable pub rename : Env → Header → Text → Op State (Tried Done)
unfolding done
rename env h uid = do
  r ← try (on_server (in_db (group_alias env.check_sum env.is_print h.gid uid h.new_alias)))
  elim r [ failed e ↦ pure (failed e) | worked a ↦ pure (worked (done [] a h.new_alias)) ]

-- "drop"
unfoldable pub leave : Env → Header → Text → Op State (Tried Done)
unfolding done
leave env h uid = do
  r ← try (on_server (in_db (group_quit env.check_sum env.is_print h.gid h.to uid)))
  elim r [ failed e ↦ pure (failed e) | worked other ↦ pure (worked (done other h.to [])) ]

-- The act is told to the group's members, and to one who was dropped.
unfoldable pub told_group : Env → Header → Text → Tried Done → Handler
told_group env h act (failed e) = answer env h.id [] [] (some e)
told_group env h act (worked d) =
    let dropped : List HeaderFor =
      if eq_text act (text "drop") then record { id = d.uid; type = for_user } ∷ [] else [] in
    let new_name : Msg =
      if is_empty d.new_alias then [] else (text "newalias", string d.new_alias) ∷ [] in
    do
      p ← try (
          post_msg env
            (record zero_header {
              op = op_group_edit;
              for_ = some (record { id = h.gid; type = for_group_all } ∷ dropped);
            })
            ((text "gid", string h.gid)
              ∷ (text "act", string act)
              ∷ (text "alias", string d.alias)
              ∷ new_name)
            [])
      answer env h.id d.mid d.posted (fault_of p)

-- eOpGroupInvite, and eOpGroupEdit with that act.
unfoldable pub handle_invite : Env → ℕ → Header → Text → Handler
unfolding invite told_group
handle_invite env space h bytes =
    with_ping space h bytes λ b. do
      uid ← get (λ s. s.link.uid)
      d ← invite env h uid b
      told_group env h (text "invite") d

-- eOpGroupEdit
unfoldable pub handle_group_edit : Env → ℕ → Header → Text → Handler
unfolding join rename leave told_group handle_invite
handle_group_edit env space h bytes =
    if eq_text h.act (text "invite")
    then handle_invite env space h bytes
    else if eq_text h.act (text "join")
    then (do uid ← get (λ s. s.link.uid); d ← join env h uid; told_group env h h.act d)
    else if eq_text h.act (text "alias")
    then (if is_empty h.new_alias
        then quits msg_header_bad
        else do uid ← get (λ s. s.link.uid); d ← rename env h uid; told_group env h h.act d)
    else if eq_text h.act (text "drop")
    then (if is_empty h.to
        then quits msg_header_bad
        else do uid ← get (λ s. s.link.uid); d ← leave env h uid; told_group env h h.act d)
    else quits msg_header_bad

-- The answer to a post: an error of the connection ends the link.
unfoldable pub posted_answer : Env → Header → Tried (Text × Text) → Handler
posted_answer env h (worked (mid, posted)) = answer env h.id mid posted none
posted_answer env h (failed (stream e)) = quits (quit_of e)
posted_answer env h (failed e) = answer env h.id [] [] (some e)

-- eOpPost
unfoldable pub handle_post : Env → Header → Text → Handler
unfolding posted_answer
handle_post env h bytes = do r ← try (post_msg env h [] bytes); posted_answer env h r

-- eOpPostNotify
unfoldable pub handle_post_notify : Env → Header → Text → Handler
unfolding posted_answer
handle_post_notify env h bytes =
    if not (lt_int h.note_len h.data_len)
    then quits msg_datalen_low
    else if h.for_not_self && is_empty (entries_of h.for_)
    then quits msg_for_empty
    else do r ← try (post_notify env h bytes); posted_answer env h r

-- The recipient of a ping is looked up once its sender is known to be the user.
unfoldable pub send_ping : Env → Header → Text → Text → Op State (Tried (Text × Text))
send_ping env h uid bytes = do
  sender ← on_server (in_db (mnm.UserDb.Op.ignoring_error [] (lookup_alias h.from)))
  if not (eq_text sender uid) then pure (failed not_sender) else do
    r ← try (on_server (in_db (lookup_alias h.to)))
    elim r [
      | failed e ↦ pure (failed e)
      | worked other ↦ try (
          post_msg env (record h { for_ = to_user other })
            ((text "alias", string h.from) ∷ (text "to", string h.to) ∷ []) bytes)
    ]

-- eOpPing
unfoldable pub handle_ping : Env → ℕ → Header → Text → Handler
unfolding send_ping
handle_ping env space h bytes = with_ping space h bytes λ b. do
  uid ← get (λ s. s.link.uid)
  r ← send_ping env h uid b
  elim r [
    | worked (mid, posted) ↦ answer env h.id mid posted none
    | failed e ↦ answer env h.id [] [] (some e)
  ]

abbrev pub put_ack : Text → Text → Option Queue → Handler
put_ack node id none = crash
put_ack node id (some q) = do
  on_server (set_queue node (record q { ack = q.ack ++ id ∷ [] }))
  goes_on

-- eOpAck, where the runner of the queue takes the ack in time.
unfoldable pub handle_ack : Header → Handler
handle_ack h = do
  node ← get (λ s. s.link.node)
  found ← get (λ s. queue_in node s.server.nodes)
  put_ack node h.id found
