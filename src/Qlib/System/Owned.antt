-- ===== src/Qlib/System/Owned.antt =====
-- What the messages that a link handles do to the queues that are taken.
use mnm.Prelude.{ℕ, ◌≡◌, ap, inl, inr, ◌⊎◌, refl, true, Option, none, some, Text}
use mnm.Qlib.Header.{Header, Operation, operation}
use mnm.Qlib.Quit.{Quit}
use mnm.Qlib.Op.{Result, ok, err, panic, continue, ◌>>◌}
use mnm.Qlib.Server.{Msg, Server, Link, State, Env}
use mnm.Qlib.Nodes.{queue_link}
use mnm.Qlib.Nodes.Exclusive.{IsTaken, TakesIf, queue_link-refuses, queue_link-TakesIf}
use mnm.Qlib.Nodes.Growing.{Grows, queue_link-Growing}
use mnm.Qlib.Stable.{Writes, Streams, Serves, Keeps, write_msg-Keeps, keeps_rules}
use mnm.Qlib.Post.Linked.{post_msg-Keeps}
use mnm.Qlib.Handle.Register.{
  handle_tmtp_rev, login_info, online, tell_login, after_link, login_node,
}
use mnm.Qlib.Handle.Kept.{
  handle_register-Keeps, handle_login-Keeps, handle_user_edit-Keeps, handle_ohi_edit-Keeps,
  handle_invite-Keeps, handle_group_edit-Keeps, handle_post-Keeps, handle_post_notify-Keeps,
  handle_ping-Keeps, handle_ack-Keeps,
}
use mnm.Qlib.Handle.Dispatch.{gate, gated, handle_op, handle_msg}

-- From a link and a server before to those after: no queue is freed, and a link with a queue has its
-- node's, which it had before, or which no link had.
pub record Owned (l0 : Link) (s0 : Server) (l : Link) (t : Server) : Type 0 where
  pub grows : Grows s0 t
  pub owned :
      l.queue ≡ true
      → IsTaken l.node t × (((l0.queue ≡ true) × (l0.node ≡ l.node)) ⊎ (IsTaken l.node s0 → ⊥))

module _ (l0 : Link) (s0 : Server) (env : Env) where
  writes-Owned : Writes (Owned l0 s0)
  writes-Owned l t w p = record { grows = p.grows; owned = p.owned }

  streams-Owned : Streams (Owned l0 s0)
  streams-Owned l t r p = record { grows = p.grows; owned = p.owned }

  serves-Owned : Serves (Owned l0 s0)
  serves-Owned l s t g p = record {
    grows = λ n k. g n (p.grows n k);
    owned = λ e. (g l.node (p.owned e).0, (p.owned e).1);
  }

  holds-Owned : (l : Link) (t : Server) → Owned l0 s0 l t → Owned l0 s0 (record l { ohi = true }) t
  holds-Owned l t p = record { grows = p.grows; owned = p.owned }

  revises-Owned :
      (l : Link) (t : Server) (rev : Text)
      → Owned l0 s0 l t
      → Owned l0 s0 (record l { tmtprev = rev }) t
  revises-Owned l t rev p = record { grows = p.grows; owned = p.owned }

  -- The link that has got a node that no link had.
  abbrev Gets : Text → Link → Server → Type 0
  Gets qid l t = Owned l0 s0 l t × (IsTaken qid t × (IsTaken qid s0 → ⊥))

  writes-Gets : (qid : Text) → Writes (Gets qid)
  writes-Gets qid l t w p = (writes-Owned l t w p.0, p.1)

  module _ (h : Header) (uid qid : Text) where
    tell_login-Owned : Keeps (Owned l0 s0) (tell_login env h uid)
    tell_login-Owned =
        search (keeps_rules, post_msg-Keeps, writes-Owned, streams-Owned, serves-Owned) depth 12

    written-Owned :
        (r : Result (Unit {0}) × State)
        → Gets qid r.1.link r.1.server
        → Owned l0 s0
            (continue r (λ _. do online uid qid; tell_login env h uid)).1.link
            (continue r (λ _. do online uid qid; tell_login env h uid)).1.server
    written-Owned (ok a, s) p =
        tell_login-Owned _ (record { grows = p.0.grows; owned = λ e. (p.1.0, inr p.1.1) })
    written-Owned (err e, s) p = p.0
    written-Owned (panic, s) p = p.0

    login_node-Owned : Keeps (Owned l0 s0) (login_node env h uid qid)
    unfolding login_node
    login_node-Owned s p =
        linked (queue_link env qid login_info uid s.server)
          (queue_link-Growing env qid login_info uid s.server)
          (queue_link-TakesIf env qid uid login_info s.server)
          (λ k. ap (λ r. r.0) (queue_link-refuses env qid uid login_info s.server k))
      where
        linked :
            (r : Result (Option Msg) × Server)
            → Grows s.server r.1
            → TakesIf qid r
            → (IsTaken qid s.server → r.0 ≡ ok none)
            → Owned l0 s0
                (continue (r.0, record s { server = r.1 }) (after_link env h uid qid)).1.link
                (continue (r.0, record s { server = r.1 }) (after_link env h uid qid)).1.server
        linked (ok none, t) g k q = serves-Owned s.link s.server t g p
        linked (err e, t) g k q = serves-Owned s.link s.server t g p
        linked (panic, t) g k q = serves-Owned s.link s.server t g p
        linked (ok (some m), t) g k q =
            let fresh : IsTaken qid s0 → ⊥ =
              λ n. let clash : ok (some m) ≡ ok none = q (p.grows qid n) in cc in
            written-Owned _ (
              write_msg-Keeps (Gets qid) env m (writes-Gets qid) (record s { server = t })
                (serves-Owned s.link s.server t g p, (k, fresh)))

  handle_tmtp_rev-Owned : (h : Header) → Keeps (Owned l0 s0) (handle_tmtp_rev env h)
  unfolding handle_tmtp_rev
  handle_tmtp_rev-Owned h = search (keeps_rules, revises-Owned, writes-Owned) depth 12

  op-Owned :
      (o : Option Operation) (space : ℕ) (h : Header) (bytes : Text)
      → Keeps (Owned l0 s0) (handle_op env o space h bytes)
  unfolding handle_op
  op-Owned none space h bytes = search keeps_rules
  op-Owned (some Operation.tmtp_rev) space h bytes = handle_tmtp_rev-Owned h
  op-Owned (some Operation.register) space h bytes =
      handle_register-Keeps (Owned l0 s0) writes-Owned streams-Owned serves-Owned env
        login_node-Owned h
  op-Owned (some Operation.login) space h bytes =
      handle_login-Keeps (Owned l0 s0) writes-Owned streams-Owned serves-Owned env login_node-Owned
        h h.uid h.node
  op-Owned (some Operation.user_edit) space h bytes =
      handle_user_edit-Keeps (Owned l0 s0) writes-Owned streams-Owned serves-Owned env h
  op-Owned (some Operation.ohi_edit) space h bytes =
      handle_ohi_edit-Keeps (Owned l0 s0) writes-Owned streams-Owned serves-Owned env holds-Owned h
  op-Owned (some Operation.group_invite) space h bytes =
      handle_invite-Keeps (Owned l0 s0) writes-Owned streams-Owned serves-Owned env space h bytes
  op-Owned (some Operation.group_edit) space h bytes =
      handle_group_edit-Keeps (Owned l0 s0) writes-Owned streams-Owned serves-Owned env space h
        bytes
  op-Owned (some Operation.post) space h bytes =
      handle_post-Keeps (Owned l0 s0) writes-Owned streams-Owned serves-Owned env h bytes
  op-Owned (some Operation.post_notify) space h bytes =
      handle_post_notify-Keeps (Owned l0 s0) writes-Owned streams-Owned serves-Owned env h bytes
  op-Owned (some Operation.ping) space h bytes =
      handle_ping-Keeps (Owned l0 s0) writes-Owned streams-Owned serves-Owned env space h bytes
  op-Owned (some Operation.ack) space h bytes =
      handle_ack-Keeps (Owned l0 s0) writes-Owned streams-Owned serves-Owned env h
  op-Owned (some Operation.pulse) space h bytes = search keeps_rules
  op-Owned (some Operation.quit) space h bytes = search keeps_rules

  gated-Owned :
      (g : Option Quit) (o : Option Operation) (space : ℕ) (h : Header) (bytes : Text)
      → Keeps (Owned l0 s0) (gated env g o space h bytes)
  unfolding gated
  gated-Owned (some q) o space h bytes = search keeps_rules
  gated-Owned none o space h bytes = op-Owned o space h bytes

-- A message that a link handles, of any kind, frees no queue. If the link's node is taken where the
-- link has a queue, this is so afterwards too, and then the node is the one that it had with a queue
-- before, or one that was not taken.
pub handle_msg-Owned :
    (env : Env) (space : ℕ) (h : Header) (bytes : Text) (s : State)
    → (s.link.queue ≡ true → IsTaken s.link.node s.server)
    → (let t = (handle_msg env space h bytes s).1 in Owned s.link s.server t.link t.server)
unfolding handle_msg
handle_msg-Owned env space h bytes s p =
    gated-Owned s.link s.server env (gate s.link (operation h.op)) (operation h.op) space h bytes s
      (record { grows = λ n k. k; owned = λ e. (p e, inl (e, refl)) })
