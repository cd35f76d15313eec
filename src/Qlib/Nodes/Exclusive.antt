-- ===== src/Qlib/Nodes/Exclusive.antt =====
-- One link at a time has a node's queue.
use mnm.Prelude.{
  ◌≡◌, inl, inr, refl, true, Option, none, some, Text, lookup, insert, lookup-insert, eq_text_refl,
  Bool-cases,
}
use mnm.Qlib.Op.{Result, ok, err, panic, continue}
use mnm.Qlib.Server.{Msg, Queue, Server, Env, pack_msg}
use mnm.Qlib.Presence.{get_ohi_to}
use mnm.Qlib.Nodes.{get_node, queue_in, open_queue, with_ohi, if_packed, take_queue, queue_link}

-- Whether a link has the node's queue.
abbrev pub IsTaken : Text → Server → Type 0
IsTaken n s = (q : Queue) × ((lookup n s.nodes ≡ some (some q)) × (q.has_conn ≡ true))

-- After the call the link that asked has the queue, if it got it.
abbrev pub TakesIf : Text → Result (Option Msg) × Server → Type 0
TakesIf n (ok (some m), s) = IsTaken n s
TakesIf n (ok none, s) = Unit {0}
TakesIf n (err e, s) = Unit {0}
TakesIf n (panic, s) = Unit {0}

get_node-known :
    (n : Text) (q : Option Queue) (s : Server)
    → lookup n s.nodes ≡ some q
    → get_node n s ≡ (ok tt, s)
unfolding get_node
get_node-known n q s e = rw (e, get_node) refl

pub open_queue-known :
    (n : Text) (q : Queue) (s : Server)
    → lookup n s.nodes ≡ some (some q)
    → open_queue n s ≡ (ok q, s)
unfolding open_queue
open_queue-known n q s e =
    let there : queue_in n s.nodes ≡ some q = rw (e, queue_in) refl in
    rw (get_node-known n (some q) s e) (rw there refl)

module _ (env : Env) (n uid : Text) (m : Msg) where
  -- A link that asks for a queue that is taken is refused, and changes nothing.
  pub queue_link-refuses : (s : Server) → IsTaken n s → queue_link env n m uid s ≡ (ok none, s)
  unfolding queue_link take_queue
  queue_link-refuses s (q, (e, h)) = rw (open_queue-known n q s e) (rw h refl)

  packed-TakesIf :
      (w : Msg) (o : Option Text) (s : Server) → IsTaken n s → TakesIf n (if_packed w o s)
  packed-TakesIf w none s h = tt
  packed-TakesIf w (some b) s h = h

  take_queue-TakesIf : (q : Queue) (s : Server) → TakesIf n (take_queue env n m uid q s)
  unfolding take_queue
  take_queue-TakesIf q s =
      let q' : Queue = record q { has_conn = true } in
      let there : lookup n (insert n (some q') s.nodes) ≡ some (some q') =
        rw (lookup-insert n n (some q') s.nodes) (rw (eq_text_refl n) refl) in
      let told = with_ohi (get_ohi_to uid s.ohi) m in
      elim (Bool-cases q.has_conn) [
        | inl h ↦ rw h tt
        | inr h ↦ rw h (packed-TakesIf told (pack_msg env told) _ (q', (there, refl)))
      ]

  -- A link that gets the queue of a node has it from then on.
  pub queue_link-TakesIf : (s : Server) → TakesIf n (queue_link env n m uid s)
  unfolding queue_link
  queue_link-TakesIf s = continued (open_queue n s)
    where
      continued : (r : Result Queue × Server) → TakesIf n (continue r (take_queue env n m uid))
      continued (ok q, t) = take_queue-TakesIf q t
      continued (err e, t) = tt
      continued (panic, t) = tt

-- What another link gets that asks for the node's queue.
abbrev pub ExcludesIf : Env → Text → Text → Msg → Result (Option Msg) × Server → Type 0
ExcludesIf env n uid m (ok (some _), s) = queue_link env n m uid s ≡ (ok none, s)
ExcludesIf env n uid m (ok none, s) = Unit {0}
ExcludesIf env n uid m (err e, s) = Unit {0}
ExcludesIf env n uid m (panic, s) = Unit {0}

-- If a link gets the queue of a node, the next link that asks for it, with any user and message, is
-- refused, and changes nothing.
pub queue_link-ExcludesIf :
    (env : Env) (n uid other : Text) (m m' : Msg) (s : Server)
    → ExcludesIf env n other m' (queue_link env n m uid s)
queue_link-ExcludesIf env n uid other m m' s =
    excluded (queue_link env n m uid s) (queue_link-TakesIf env n uid m s)
  where
    excluded : (r : Result (Option Msg) × Server) → TakesIf n r → ExcludesIf env n other m' r
    excluded (ok (some _), t) h = queue_link-refuses env n other m' t h
    excluded (ok none, t) h = tt
    excluded (err e, t) h = tt
    excluded (panic, t) h = tt
