-- ===== src/Qlib/Handle/Dispatch/Gate.antt =====
-- The phases of a link: before it has told its revision, then until it is online, and online.
use mnm.Prelude.{
  ℕ, ◌≡◌, ◌∙◌, ◌⊎◌, inl, inr, refl, Bool, true, false, Option, none, some, Option-cases, Bool-cases,
  Text, text, is_empty, arith, if◌then◌else◌, eq_text, eq_of_eq_text,
}
use mnm.Qlib.Header.{Header, Operation, operation}
use mnm.Qlib.Quit.{Quit}
use mnm.Qlib.Op.{Result, ok, err, panic, continue}
use mnm.Qlib.Stream.{Stream}
use mnm.Qlib.Server.{Msg, Server, Link, State, Env, pack_msg, new_link, write_msg}
use mnm.Qlib.Stable.{OfLink, Writes, Streams, Keeps, link_serves, keeps_rules}
use mnm.Qlib.Handle.{goes_on}
use mnm.Qlib.Handle.Register.{handle_tmtp_rev, handle_register, handle_login}
use mnm.Qlib.Handle.Kept.{
  login_node-Keeps, handle_register-Keeps, handle_login-Keeps, handle_user_edit-Keeps,
  handle_ohi_edit-Keeps, handle_invite-Keeps, handle_group_edit-Keeps, handle_post-Keeps,
  handle_post_notify-Keeps, handle_ping-Keeps, handle_ack-Keeps,
}
use mnm.Qlib.Handle.Dispatch.{gate, gated, handle_op, handle_msg}

-- A link with a node has a queue, one with a queue has told its revision, and one with a set of
-- presence has a queue.
pub record LinkOk (l : Link) : Type 0 where
  pub has_queue : is_empty l.node ≡ false → l.queue ≡ true
  pub revised : l.queue ≡ true → is_empty l.tmtprev ≡ false
  pub held : l.ohi ≡ true → l.queue ≡ true

abbrev IsOnline : Link → Type 0
IsOnline l = LinkOk l × (l.queue ≡ true)

abbrev IsRevised : Link → Type 0
IsRevised l = LinkOk l × (is_empty l.tmtprev ≡ false)

-- The link's stream and what is written do not matter.
module _ (Q : Link → Type 0) (writes : Writes (OfLink Q)) (streams : Streams (OfLink Q)) where
  online_writes : Writes (OfLink (λ l. LinkOk l × Q l))
  online_writes l t w p = (
    record { has_queue = p.0.has_queue; revised = p.0.revised; held = p.0.held },
    writes l t w p.1,
  )

  online_streams : Streams (OfLink (λ l. LinkOk l × Q l))
  online_streams l t r p = (
    record { has_queue = p.0.has_queue; revised = p.0.revised; held = p.0.held },
    streams l t r p.1,
  )

module _ (env : Env) (space : ℕ) (h : Header) (bytes : Text) where
  revision : Text
  revision = if eq_text h.id (text "1") then h.id else text "1"

  revision_not_empty : is_empty revision ≡ false
  unfolding revision
  revision_not_empty = elim (Bool-cases (eq_text h.id (text "1"))) [
    | inl e ↦ rw e (rw (eq_of_eq_text h.id (text "1") e) refl)
    | inr e ↦ rw e refl
  ]

  first-LinkOk : Keeps (OfLink LinkOk) (handle_tmtp_rev env h)
  unfolding handle_tmtp_rev revision
  first-LinkOk = search (keeps_rules, set_revision, set_written) depth 12
    where
      set_revision : (l : Link) (t : Server) → LinkOk l → LinkOk (record l { tmtprev = revision })
      set_revision l t p = record {
        has_queue = p.has_queue;
        revised = λ _. revision_not_empty;
        held = p.held;
      }

      set_written : Writes (OfLink LinkOk)
      set_written l t w p = record { has_queue = p.has_queue; revised = p.revised; held = p.held }

  revised-LinkOk :
      (s : State)
      → LinkOk s.link
      → is_empty s.link.tmtprev ≡ false
      → LinkOk (handle_register env h s).1.link × LinkOk (handle_login env h h.uid h.node s).1.link
  revised-LinkOk s p e =
      let writes = online_writes (λ l. is_empty l.tmtprev ≡ false) (λ l t w q. q) (λ l t r q. q) in
      let streams =
        online_streams (λ l. is_empty l.tmtprev ≡ false) (λ l t w q. q) (λ l t r q. q) in
      let login =
        login_node-Keeps (OfLink IsRevised) writes streams (link_serves _) env comes_online in
      (
        (handle_register-Keeps (OfLink IsRevised) writes streams (link_serves _) env login h s
            (p, e)).0,
        (handle_login-Keeps (OfLink IsRevised) writes streams (link_serves _) env login h h.uid
            h.node s (p, e)).0,
      )
    where
      comes_online :
          (l : Link) (t : Server) (uid qid : Text)
          → IsRevised l
          → IsRevised (record l { expect_pulse = true; uid = uid; node = qid; queue = true })
      comes_online l t uid qid q =
          (record { has_queue = λ _. refl; revised = λ _. q.1; held = λ _. refl }, q.1)

  module _ (s : State) (p : LinkOk s.link) where
    writes-IsOnline : Writes (OfLink IsOnline)
    writes-IsOnline = online_writes (λ l. l.queue ≡ true) (λ l t w q. q) (λ l t r q. q)

    streams-IsOnline : Streams (OfLink IsOnline)
    streams-IsOnline = online_streams (λ l. l.queue ≡ true) (λ l t w q. q) (λ l t r q. q)

    holds-IsOnline : (l : Link) (t : Server) → IsOnline l → IsOnline (record l { ohi = true })
    holds-IsOnline l t q =
        (record { has_queue = q.0.has_queue; revised = q.0.revised; held = λ _. q.1 }, q.1)

    now-IsOnline : is_empty s.link.node ≡ false → IsOnline s.link
    now-IsOnline e = (p, p.has_queue e)

    op-LinkOk :
        (o : Operation)
        → gate s.link (some o) ≡ none
        → LinkOk (handle_op env (some o) space h bytes s).1.link
    unfolding handle_op gate
    op-LinkOk Operation.tmtp_rev e = first-LinkOk s p
    op-LinkOk Operation.register e = (revised-LinkOk s p (ground arith)).0
    op-LinkOk Operation.login e = (revised-LinkOk s p (ground arith)).1
    op-LinkOk Operation.user_edit e =
        (handle_user_edit-Keeps (OfLink IsOnline) writes-IsOnline streams-IsOnline (link_serves _)
          env h s (now-IsOnline (ground arith))).0
    op-LinkOk Operation.ohi_edit e =
        (handle_ohi_edit-Keeps (OfLink IsOnline) writes-IsOnline streams-IsOnline (link_serves _)
          env holds-IsOnline h s (now-IsOnline (ground arith))).0
    op-LinkOk Operation.group_invite e =
        (handle_invite-Keeps (OfLink IsOnline) writes-IsOnline streams-IsOnline (link_serves _) env
          space h bytes s (now-IsOnline (ground arith))).0
    op-LinkOk Operation.group_edit e =
        (handle_group_edit-Keeps (OfLink IsOnline) writes-IsOnline streams-IsOnline (link_serves _)
          env space h bytes s (now-IsOnline (ground arith))).0
    op-LinkOk Operation.post e =
        (handle_post-Keeps (OfLink IsOnline) writes-IsOnline streams-IsOnline (link_serves _) env h
          bytes s (now-IsOnline (ground arith))).0
    op-LinkOk Operation.post_notify e =
        (handle_post_notify-Keeps (OfLink IsOnline) writes-IsOnline streams-IsOnline (link_serves _)
          env h bytes s (now-IsOnline (ground arith))).0
    op-LinkOk Operation.ping e =
        (handle_ping-Keeps (OfLink IsOnline) writes-IsOnline streams-IsOnline (link_serves _) env
          space h bytes s (now-IsOnline (ground arith))).0
    op-LinkOk Operation.ack e =
        (handle_ack-Keeps (OfLink IsOnline) writes-IsOnline streams-IsOnline (link_serves _) env h s
          (now-IsOnline (ground arith))).0
    op-LinkOk Operation.pulse e = p
    op-LinkOk Operation.quit e = p

    gated-LinkOk :
        (g : Option Quit) (o : Option Operation)
        → gate s.link o ≡ g
        → LinkOk (gated env g o space h bytes s).1.link
    unfolding gated
    gated-LinkOk (some q) o e = p
    gated-LinkOk none none e = unfold handle_op in p
    gated-LinkOk none (some o) e = op-LinkOk o e

    handle_msg-LinkOk : LinkOk (handle_msg env space h bytes s).1.link
    unfolding handle_msg
    handle_msg-LinkOk = gated-LinkOk (gate s.link (operation h.op)) (operation h.op) refl

-- The states that a link reaches: from a new one, by handling messages, by what its client sends, and
-- by what other links do to the server.
pub data Reached (env : Env) : State → Type 0 where
  starts : (t : Server) (r : Stream) → Reached env (record { link = new_link r; server = t })
  handles :
      (s : State) (space : ℕ) (h : Header) (bytes : Text)
      → Reached env s
      → Reached env (handle_msg env space h bytes s).1
  receives :
      (s : State) (r : Stream)
      → Reached env s
      → Reached env (record s { link = record s.link { stream = r } })
  meets : (s : State) (t : Server) → Reached env s → Reached env (record s { server = t })

-- In every state that a link reaches from its start, by messages of any kind, between which other
-- links change the server in any way: if it has a node it has a queue, if it has a queue it has told
-- its revision, and if it has a set of presence it has a queue.
pub Reached-LinkOk : (env : Env) (s : State) → Reached env s → LinkOk s.link
Reached-LinkOk env _ (starts t r) = record {
  has_queue = λ e. absurd (ground arith);
  revised = λ e. absurd (ground arith);
  held = λ e. absurd (ground arith);
}
Reached-LinkOk env _ (handles s space h bytes q) =
    handle_msg-LinkOk env space h bytes s (Reached-LinkOk env s q)
Reached-LinkOk env _ (receives s r q) =
    let p = Reached-LinkOk env s q in
    record { has_queue = p.has_queue; revised = p.revised; held = p.held }
Reached-LinkOk env _ (meets s t q) = Reached-LinkOk env s q

-- The operations by which a link may come online.
abbrev pub logs_in : Option Operation → Bool
logs_in (some Operation.register) = true
logs_in (some Operation.login) = true
logs_in _ = false

pub write_msg-server : (env : Env) (m : Msg) (s : State) → (write_msg env m s).1.server ≡ s.server
unfolding write_msg
write_msg-server env m s = elim (Option-cases (pack_msg env m)) [
  | inl e ↦ rw (e, write_msg) refl
  | inr (b, e) ↦ rw (e, write_msg) refl
]

module _ (env : Env) (space : ℕ) (h : Header) (bytes : Text) (s : State) where
  first-server : (handle_tmtp_rev env h s).1.server ≡ s.server
  unfolding handle_tmtp_rev
  first-server = ended _ ∙ write_msg-server env _ _
    where
      ended : (r : Result (Unit {0}) × State) → (continue r (λ _. goes_on)).1.server ≡ r.1.server
      ended (ok a, t) = refl
      ended (err e, t) = refl
      ended (panic, t) = refl

  gated-server :
      (o : Option Operation)
      → is_empty s.link.node ≡ true
      → (logs_in o ≡ false) ⊎ (is_empty s.link.tmtprev ≡ true)
      → (gated env (gate s.link o) o space h bytes s).1.server ≡ s.server
  unfolding gated gate handle_op
  gated-server none e f = rw e refl
  gated-server (some Operation.tmtp_rev) e f = elim (Bool-cases (is_empty s.link.tmtprev)) [
    | inl g ↦ rw g first-server
    | inr g ↦ rw g refl
  ]
  gated-server (some Operation.register) e (inl f) = absurd (ground arith)
  gated-server (some Operation.register) e (inr f) = rw f refl
  gated-server (some Operation.login) e (inl f) = absurd (ground arith)
  gated-server (some Operation.login) e (inr f) = rw f refl
  gated-server (some Operation.user_edit) e f = rw e refl
  gated-server (some Operation.ohi_edit) e f = rw e refl
  gated-server (some Operation.group_invite) e f = rw e refl
  gated-server (some Operation.group_edit) e f = rw e refl
  gated-server (some Operation.post) e f = rw e refl
  gated-server (some Operation.post_notify) e f = rw e refl
  gated-server (some Operation.ping) e f = rw e refl
  gated-server (some Operation.ack) e f = rw e refl
  gated-server (some Operation.pulse) e f = rw e refl
  gated-server (some Operation.quit) e f = rw e refl

  -- A link that is not online changes nothing that other links see, unless it has told its revision
  -- and asks to register or to log in.
  pub handle_msg-server :
      is_empty s.link.node ≡ true
      → (logs_in (operation h.op) ≡ false) ⊎ (is_empty s.link.tmtprev ≡ true)
      → (handle_msg env space h bytes s).1.server ≡ s.server
  unfolding handle_msg
  handle_msg-server e f = gated-server (operation h.op) e f
