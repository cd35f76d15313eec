-- ===== src/Qlib/Post/Linked.antt =====
-- What a post keeps.
use mnm.Prelude.{ℕ, Option, none, some, List, Text}
use mnm.Qlib.Header.{Header, HeaderFor}
use mnm.Qlib.Op.{
  Fault, user_db, file_exists, no_file, not_empty, stream, too_short, not_sender, eof, net_error,
  tls_error, other_error, Op,
}
use mnm.Qlib.Store.{Store}
use mnm.Qlib.Server.{Server, on_server, in_store}
use mnm.Qlib.Stream.{Stream}
use mnm.Qlib.Server.{Msg, Link, State, Env, Tried, worked, failed}
use mnm.Qlib.System.Calls.{queue_msg-Growing}
use mnm.Qlib.Stable.{on_store-Keeps, Writes, Streams, Serves, Keeps, keeps_rules}
use mnm.Qlib.Nodes.{ack_asap}
use mnm.Qlib.Post.{
  queue_from, or_crash, stored, storing, served, post_msg_id, post_msg, post_notify,
}

module _ (P : Link → Server → Type 0) (writes : Writes P) (streams : Streams P)
    (serves : Serves P) where
  store-Keeps {ℓ} : {A : Type ℓ} (m : Op Store A) → Keeps P (on_server (in_store m))
  store-Keeps m = on_store-Keeps P serves m

  pub ack_asap-Keeps :
      (env : Env) (id mid posted : Text) (e : Option Fault) → Keeps P (ack_asap env id mid posted e)
  unfolding ack_asap
  ack_asap-Keeps env id mid posted e = search (keeps_rules, writes)

  queue_from-Keeps :
      (env : Env) (id : Text) (prio : ℕ) (a b : List HeaderFor) (self : _)
      → Keeps P (queue_from env id prio a b self)
  unfolding queue_from
  queue_from-Keeps env id prio a b self s p =
      serves s.link s.server _
        (queue_msg-Growing env s.link.uid s.link.node id prio a b self s.server) p

  pub or_crash-Keeps {ℓ} : {A : Type ℓ} (o : Option A) → Keeps P (or_crash o)
  or_crash-Keeps none s p = p
  or_crash-Keeps (some a) s p = p

  stored-Keeps {ℓ} :
      {A : Type ℓ} (id : Text) (next : Op State A) (r : Tried Stream)
      → Keeps P next
      → Keeps P (stored id next r)
  stored-Keeps id next (worked t) h = search (keeps_rules, store-Keeps, streams, h)
  stored-Keeps id next (failed (stream eof)) h = search (keeps_rules, store-Keeps)
  stored-Keeps id next (failed (stream (net_error q))) h = search (keeps_rules, store-Keeps)
  stored-Keeps id next (failed (stream other_error)) h = search keeps_rules
  stored-Keeps id next (failed (stream tls_error)) h = search keeps_rules
  stored-Keeps id next (failed (user_db e)) h = search keeps_rules
  stored-Keeps id next (failed file_exists) h = search keeps_rules
  stored-Keeps id next (failed no_file) h = search keeps_rules
  stored-Keeps id next (failed not_empty) h = search keeps_rules
  stored-Keeps id next (failed too_short) h = search keeps_rules
  stored-Keeps id next (failed not_sender) h = search keeps_rules

  storing-Keeps {ℓ} :
      {A : Type ℓ} (id head bytes : Text) (len : ℕ) (next : Op State A)
      → Keeps P next
      → Keeps P (storing id head bytes len next)
  unfolding storing
  storing-Keeps id head bytes len next h = search (keeps_rules, store-Keeps, stored-Keeps, h)

  served-Keeps : (env : Env) (h : Header) (id : Text) → Keeps P (served env h id)
  unfolding served
  served-Keeps env h id = search (keeps_rules, queue_from-Keeps)

  pub post_msg_id-Keeps :
      (env : Env) (h : Header) (etc : Msg) (bytes id : Text) (notify : ℕ)
      → Keeps P (post_msg_id env h etc bytes id notify)
  unfolding post_msg_id
  post_msg_id-Keeps env h etc bytes id notify =
      search (keeps_rules, or_crash-Keeps, storing-Keeps, served-Keeps)

  pub post_msg-Keeps :
      (env : Env) (h : Header) (etc : Msg) (bytes : Text) → Keeps P (post_msg env h etc bytes)
  unfolding post_msg
  post_msg-Keeps env h etc bytes = search (keeps_rules, store-Keeps, post_msg_id-Keeps)

  pub post_notify-Keeps :
      (env : Env) (h : Header) (bytes : Text) → Keeps P (post_notify env h bytes)
  unfolding post_notify
  post_notify-Keeps env h bytes =
      search
        (
          keeps_rules, store-Keeps, or_crash-Keeps, storing-Keeps, post_msg_id-Keeps,
          queue_from-Keeps,
        )
        depth 12
