-- ===== src/Qlib/Handle/Dispatch/Identity.antt =====
-- A link that is online stays the same user's and the same node's.
use mnm.Prelude.{
  ℕ, ◌≡◌, refl, true, false, Option, none, some, Text, is_empty, Bool-cases, inl, inr,
}
use mnm.Qlib.Header.{Header, Operation, operation}
use mnm.Qlib.Server.{Link, Server, State, Env}
use mnm.Qlib.Stable.{OfLink, Writes, Streams, Keeps, link_serves, keeps_rules}
use mnm.Qlib.Handle.Register.{handle_tmtp_rev}
use mnm.Qlib.Handle.Kept.{
  handle_user_edit-Keeps, handle_ohi_edit-Keeps, handle_invite-Keeps, handle_group_edit-Keeps,
  handle_post-Keeps, handle_post_notify-Keeps, handle_ping-Keeps, handle_ack-Keeps,
}
use mnm.Qlib.Handle.Dispatch.{gate, gated, handle_op, handle_msg}

-- The link is of this user and this node.
abbrev pub IsOf : Text → Text → Link → Type 0
IsOf uid node l = (l.uid ≡ uid) × (l.node ≡ node)

module _ (env : Env) (space : ℕ) (h : Header) (bytes : Text) (s : State) where
  IsSame : Link → Type 0
  IsSame = IsOf s.link.uid s.link.node

  writes-IsOf : Writes (OfLink IsSame)
  unfolding IsSame
  writes-IsOf l t w p = p

  streams-IsOf : Streams (OfLink IsSame)
  unfolding IsSame
  streams-IsOf l t r p = p

  holds-IsOf : (l : Link) (t : Server) → IsSame l → IsSame (record l { ohi = true })
  unfolding IsSame
  holds-IsOf l t p = p

  revises-IsOf :
      (l : Link) (t : Server) (rev : Text) → IsSame l → IsSame (record l { tmtprev = rev })
  unfolding IsSame
  revises-IsOf l t rev p = p

  handle_tmtp_rev-IsOf : Keeps (OfLink IsSame) (handle_tmtp_rev env h)
  unfolding handle_tmtp_rev
  handle_tmtp_rev-IsOf = search (keeps_rules, revises-IsOf, writes-IsOf) depth 12

  first : IsSame s.link
  unfolding IsSame
  first = (refl, refl)

  gated-IsOf :
      (o : Option Operation)
      → is_empty s.link.node ≡ false
      → IsSame (gated env (gate s.link o) o space h bytes s).1.link
  unfolding gated gate handle_op
  gated-IsOf none e = rw e first
  gated-IsOf (some Operation.tmtp_rev) e = elim (Bool-cases (is_empty s.link.tmtprev)) [
    | inl g ↦ rw g (handle_tmtp_rev-IsOf s first)
    | inr g ↦ rw g first
  ]
  gated-IsOf (some Operation.register) e = elim (Bool-cases (is_empty s.link.tmtprev)) [
    | inl g ↦ rw g first
    | inr g ↦ rw g (rw e first)
  ]
  gated-IsOf (some Operation.login) e = elim (Bool-cases (is_empty s.link.tmtprev)) [
    | inl g ↦ rw g first
    | inr g ↦ rw g (rw e first)
  ]
  gated-IsOf (some Operation.user_edit) e = rw e (
      handle_user_edit-Keeps (OfLink IsSame) writes-IsOf streams-IsOf (link_serves _) env h s first)
  gated-IsOf (some Operation.ohi_edit) e = rw e (
      handle_ohi_edit-Keeps (OfLink IsSame) writes-IsOf streams-IsOf (link_serves _) env holds-IsOf
        h s first)
  gated-IsOf (some Operation.group_invite) e = rw e (
      handle_invite-Keeps (OfLink IsSame) writes-IsOf streams-IsOf (link_serves _) env space h bytes
        s first)
  gated-IsOf (some Operation.group_edit) e = rw e (
      handle_group_edit-Keeps (OfLink IsSame) writes-IsOf streams-IsOf (link_serves _) env space h
        bytes s first)
  gated-IsOf (some Operation.post) e = rw e (
      handle_post-Keeps (OfLink IsSame) writes-IsOf streams-IsOf (link_serves _) env h bytes s
        first)
  gated-IsOf (some Operation.post_notify) e = rw e (
      handle_post_notify-Keeps (OfLink IsSame) writes-IsOf streams-IsOf (link_serves _) env h bytes
        s first)
  gated-IsOf (some Operation.ping) e = rw e (
      handle_ping-Keeps (OfLink IsSame) writes-IsOf streams-IsOf (link_serves _) env space h bytes s
        first)
  gated-IsOf (some Operation.ack) e =
      rw e (handle_ack-Keeps (OfLink IsSame) writes-IsOf streams-IsOf (link_serves _) env h s first)
  gated-IsOf (some Operation.pulse) e = rw e first
  gated-IsOf (some Operation.quit) e = rw e first

  -- A message to a link that has a node changes neither that node nor the user.
  pub handle_msg-IsOf :
      is_empty s.link.node ≡ false
      → IsOf s.link.uid s.link.node (handle_msg env space h bytes s).1.link
  unfolding handle_msg IsSame
  handle_msg-IsOf e = gated-IsOf (operation h.op) e
