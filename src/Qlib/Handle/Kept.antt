-- ===== src/Qlib/Handle/Kept.antt =====
-- What the handlers keep: a predicate on the state that does not depend on the link's stream, on what
-- is written and on its set of presence, and that stands what frees no queue.
use mnm.Prelude.{◌≡◌, [], ◌∷◌, ◌++◌, ℕ, refl, Bool, true, Option, none, some, List, Text}
use mnm.Qlib.Header.{Header, HeaderFor}
use mnm.Qlib.Op.{user_db, file_exists, no_file, not_empty, stream, too_short, not_sender, Op}
use mnm.Qlib.Openid.{OpenidToken, Validity, valid, refused}
use mnm.Qlib.Nodes.{queue_link}
use mnm.Qlib.Store.{Store}
use mnm.Qlib.Ping.{Checked, passes, refuses, crashes}
use mnm.Qlib.Server.{
  Msg, Link, Env, Tried, worked, failed, Queue, State, Server, on_server, in_store, in_db,
}
use mnm.Qlib.Nodes.Growing.{set_queue-Grows, queue_link-Growing}
use mnm.Qlib.System.Calls.{check_users-Growing, edit_users-Growing}
use mnm.Qlib.Nodes.{queue_in}
use mnm.Qlib.Stable.{
  on_server-Keeps, on_store-Keeps, on_db-Keeps, Writes, Streams, Serves, Keeps, option-Keeps,
  keeps_rules,
}
use mnm.Qlib.Post.Linked.{ack_asap-Keeps, or_crash-Keeps, post_msg-Keeps, post_notify-Keeps}
use mnm.Qlib.Handle.{Handler, after_check, with_ping}
use mnm.Qlib.Handle.Register.{
  make_uid, handle_login, login_node, after_link, new_user_alias, register_as, register_if,
  register_by, handle_register,
}
use mnm.Qlib.Handle.Edit.{
  new_alias, new_node, told_edit, handle_user_edit, hold_set, check_users, edit_users, edit_ohi,
  checked_ohi, handle_ohi_edit,
}
use mnm.Qlib.Handle.Group.{
  Done, invite, join, rename, leave, told_group, handle_invite, handle_group_edit, posted_answer,
  handle_post, handle_post_notify, send_ping, handle_ping, handle_ack, put_ack,
}

module _ (P : Link → Server → Type 0) (writes : Writes P) (streams : Streams P) (serves : Serves P)
    (env : Env) where
  store-Keeps {ℓ} : {A : Type ℓ} (m : Op Store A) → Keeps P (on_server (in_store m))
  store-Keeps m = on_store-Keeps P serves m

  db-Keeps {ℓ} : {A : Type ℓ} (m : mnm.UserDb.Op.Op A) → Keeps P (on_server (in_db m))
  db-Keeps m = on_db-Keeps P serves m

  after_check-Keeps :
      (next : Text → Handler) (c : Checked)
      → ((b : Text) → Keeps P (next b))
      → Keeps P (after_check next c)
  after_check-Keeps next (refuses q) k = search keeps_rules
  after_check-Keeps next crashes k = search keeps_rules
  after_check-Keeps next (passes b left) k = search (keeps_rules, streams, k)

  with_ping-Keeps :
      (space : ℕ) (h : Header) (bytes : Text) (next : Text → Handler)
      → ((b : Text) → Keeps P (next b))
      → Keeps P (with_ping space h bytes next)
  unfolding with_ping
  with_ping-Keeps space h bytes next k = search (keeps_rules, after_check-Keeps, k)

  told_edit-Keeps : (h : Header) (uid : Text) (r : Tried Msg) → Keeps P (told_edit env h uid r)
  unfolding told_edit
  told_edit-Keeps h uid (failed e) = search keeps_rules
  told_edit-Keeps h uid (worked etc) =
      search (keeps_rules, post_msg-Keeps, writes, streams) depth 12

  pub handle_user_edit-Keeps : (h : Header) → Keeps P (handle_user_edit env h)
  unfolding handle_user_edit new_node new_alias
  handle_user_edit-Keeps h =
      search
        (
          keeps_rules, db-Keeps, store-Keeps, told_edit-Keeps, or_crash-Keeps, ack_asap-Keeps,
          writes, streams,
        )
        depth 20

  told_group-Keeps : (h : Header) (act : Text) (r : Tried Done) → Keeps P (told_group env h act r)
  unfolding told_group
  told_group-Keeps h act (failed e) = search (keeps_rules, ack_asap-Keeps, writes, streams) depth 12
  told_group-Keeps h act (worked d) =
      search (keeps_rules, post_msg-Keeps, ack_asap-Keeps, writes, streams) depth 12

  invite-Keeps : (h : Header) (uid bytes : Text) → Keeps P (invite env h uid bytes)
  unfolding invite
  invite-Keeps h uid bytes =
      search (keeps_rules, db-Keeps, post_msg-Keeps, writes, streams) depth 12

  pub handle_invite-Keeps :
      (space : ℕ) (h : Header) (bytes : Text) → Keeps P (handle_invite env space h bytes)
  unfolding handle_invite
  handle_invite-Keeps space h bytes =
      search (keeps_rules, with_ping-Keeps, told_group-Keeps, invite-Keeps) depth 12

  join-Keeps : (h : Header) (uid : Text) → Keeps P (join env h uid)
  unfolding join
  join-Keeps h uid = search (keeps_rules, db-Keeps)

  rename-Keeps : (h : Header) (uid : Text) → Keeps P (rename env h uid)
  unfolding rename
  rename-Keeps h uid = search (keeps_rules, db-Keeps)

  leave-Keeps : (h : Header) (uid : Text) → Keeps P (leave env h uid)
  unfolding leave
  leave-Keeps h uid = search (keeps_rules, db-Keeps)

  pub handle_group_edit-Keeps :
      (space : ℕ) (h : Header) (bytes : Text) → Keeps P (handle_group_edit env space h bytes)
  unfolding handle_group_edit
  handle_group_edit-Keeps space h bytes =
      search
        (keeps_rules, handle_invite-Keeps, told_group-Keeps, join-Keeps, rename-Keeps, leave-Keeps)
        depth 12

  posted_answer-Keeps : (h : Header) (r : Tried (Text × Text)) → Keeps P (posted_answer env h r)
  unfolding posted_answer
  posted_answer-Keeps h (worked (mid, posted)) =
      search (keeps_rules, ack_asap-Keeps, writes, streams)
  posted_answer-Keeps h (failed (stream e)) = search keeps_rules
  posted_answer-Keeps h (failed (user_db e)) = search (keeps_rules, ack_asap-Keeps, writes, streams)
  posted_answer-Keeps h (failed file_exists) = search (keeps_rules, ack_asap-Keeps, writes, streams)
  posted_answer-Keeps h (failed no_file) = search (keeps_rules, ack_asap-Keeps, writes, streams)
  posted_answer-Keeps h (failed not_empty) = search (keeps_rules, ack_asap-Keeps, writes, streams)
  posted_answer-Keeps h (failed too_short) = search (keeps_rules, ack_asap-Keeps, writes, streams)
  posted_answer-Keeps h (failed not_sender) = search (keeps_rules, ack_asap-Keeps, writes, streams)

  pub handle_post-Keeps : (h : Header) (bytes : Text) → Keeps P (handle_post env h bytes)
  unfolding handle_post
  handle_post-Keeps h bytes =
      search (keeps_rules, post_msg-Keeps, posted_answer-Keeps, writes, streams)

  pub handle_post_notify-Keeps :
      (h : Header) (bytes : Text) → Keeps P (handle_post_notify env h bytes)
  unfolding handle_post_notify
  handle_post_notify-Keeps h bytes =
      search (keeps_rules, post_notify-Keeps, posted_answer-Keeps, writes, streams) depth 12

  send_ping-Keeps : (h : Header) (uid bytes : Text) → Keeps P (send_ping env h uid bytes)
  unfolding send_ping
  send_ping-Keeps h uid bytes =
      search (keeps_rules, db-Keeps, post_msg-Keeps, writes, streams) depth 12

  pub handle_ping-Keeps :
      (space : ℕ) (h : Header) (bytes : Text) → Keeps P (handle_ping env space h bytes)
  unfolding handle_ping
  handle_ping-Keeps space h bytes =
      search (keeps_rules, with_ping-Keeps, send_ping-Keeps, ack_asap-Keeps, writes, streams) depth
        12

  -- The ack is put to the queue that was found.
  acked-Keeps :
      (node id : Text) (o : Option Queue) (s : State)
      → queue_in node s.server.nodes ≡ o
      → P s.link s.server
      → P (put_ack node id o s).1.link (put_ack node id o s).1.server
  acked-Keeps node id none s e p = p
  acked-Keeps node id (some q) s e p =
      serves s.link s.server _
        (set_queue-Grows node q (record q { ack = q.ack ++ id ∷ [] }) s.server e (λ h. h)) p

  pub handle_ack-Keeps : (h : Header) → Keeps P (handle_ack h)
  unfolding handle_ack
  handle_ack-Keeps h s p =
      acked-Keeps s.link.node h.id (queue_in s.link.node s.server.nodes) s refl p

  -- With a set of presence that may be taken.
  module _ (holds : (l : Link) (t : Server) → P l t → P (record l { ohi = true }) t) where
    edits-Keeps :
        (uid : Text) (on : Bool) (tos : List HeaderFor)
        → Keeps P (on_server (edit_users env uid on tos))
    edits-Keeps uid on tos =
        on_server-Keeps P serves (edit_users env uid on tos) (edit_users-Growing env uid on tos)

    checks-Keeps : (tos : List HeaderFor) → Keeps P (on_server (check_users env tos))
    checks-Keeps tos = on_server-Keeps P serves (check_users env tos) (check_users-Growing env tos)

    hold_set-Keeps : (uid : Text) → Keeps P (hold_set uid)
    unfolding hold_set
    hold_set-Keeps uid = search (keeps_rules, holds) depth 12

    edit_ohi-Keeps : (h : Header) (uid : Text) → Keeps P (edit_ohi env h uid)
    unfolding edit_ohi
    edit_ohi-Keeps h uid =
        search (keeps_rules, edits-Keeps, hold_set-Keeps, post_msg-Keeps, writes, streams) depth 12

    checked_ohi-Keeps :
        (h : Header) (uid : Text) (r : Tried (Unit {0})) → Keeps P (checked_ohi env h uid r)
    unfolding checked_ohi
    checked_ohi-Keeps h uid (failed e) = search keeps_rules
    checked_ohi-Keeps h uid (worked _) = search edit_ohi-Keeps

    pub handle_ohi_edit-Keeps : (h : Header) → Keeps P (handle_ohi_edit env h)
    unfolding handle_ohi_edit
    handle_ohi_edit-Keeps h =
        search (keeps_rules, checks-Keeps, checked_ohi-Keeps, ack_asap-Keeps, writes, streams) depth
          12

  -- Where the link may come online.
  module _
      (comes_online : (l : Link) (t : Server) (uid qid : Text)
        → P l t
        → P (record l { expect_pulse = true; uid = uid; node = qid; queue = true }) t) where
    links-Keeps :
        (qid : Text) (m : Msg) (uid : Text) → Keeps P (on_server (queue_link env qid m uid))
    links-Keeps qid m uid =
        on_server-Keeps P serves (queue_link env qid m uid) (queue_link-Growing env qid m uid)

    after_link-Keeps :
        (h : Header) (uid qid : Text) (o : Option Msg) → Keeps P (after_link env h uid qid o)
    after_link-Keeps h uid qid none = search keeps_rules
    after_link-Keeps h uid qid (some m) =
        search (keeps_rules, post_msg-Keeps, writes, streams, comes_online) depth 20

    pub login_node-Keeps : (h : Header) (uid qid : Text) → Keeps P (login_node env h uid qid)
    unfolding login_node
    login_node-Keeps h uid qid = search (keeps_rules, links-Keeps, after_link-Keeps)

  -- With a link that keeps the predicate where it comes online.
  module _ (login_keeps : (h : Header) (uid qid : Text) → Keeps P (login_node env h uid qid)) where
    pub handle_login-Keeps : (h : Header) (uid node : Text) → Keeps P (handle_login env h uid node)
    unfolding handle_login
    handle_login-Keeps h uid node =
        option-Keeps P _ _ (search keeps_rules)
          (λ bytes. search (keeps_rules, db-Keeps, or_crash-Keeps, login_keeps) depth 12)
          (env.unbase32 node)

    register_as-Keeps : (h : Header) (auth : List (Text × Text)) → Keeps P (register_as env h auth)
    unfolding register_as make_uid new_user_alias
    register_as-Keeps h auth =
        search (keeps_rules, store-Keeps, db-Keeps, or_crash-Keeps, handle_login-Keeps, writes)
          depth 20

    register_if-Keeps : (h : Header) (v : Validity) → Keeps P (register_if env h v)
    register_if-Keeps h (refused e) = search keeps_rules
    register_if-Keeps h (valid auth) = search register_as-Keeps

    register_by-Keeps : (h : Header) (o : Option OpenidToken) → Keeps P (register_by env h o)
    register_by-Keeps h none = search (keeps_rules, register_as-Keeps)
    register_by-Keeps h (some tok) = register_if-Keeps h (env.validate tok)

    pub handle_register-Keeps : (h : Header) → Keeps P (handle_register env h)
    unfolding handle_register
    handle_register-Keeps h = search (keeps_rules, register_as-Keeps, register_by-Keeps)
