-- ===== src/Qlib/Nodes/Growing.antt =====
-- Operations of the server that free no node's queue.
use mnm.Prelude.{
  ◌≡◌, ◌∙◌, ap, sym, inl, inr, refl, Bool, true, false, Bool-cases, Option, none, some,
  Option-cases, List, Text, lookup, insert, lookup-insert, eq_text, eq_of_eq_text, if◌then◌else◌,
  arith,
}
use mnm.Qlib.Op.{Fault, Result, ok, err, panic, Op, pure, continue, ◌>>=◌, ◌>>◌}
use mnm.Qlib.Store.{Store, get_dir}
use mnm.Qlib.Server.{
  Msg, Queue, Nodes, Server, Env, from_db, in_db, in_store, ignoring_error, must, deferring, Tried,
  worked, failed, try, get, or_panic,
}
use mnm.Qlib.Nodes.{
  get_node, queue_in, set_queue, new_queue, found_or_new, open_queue, if_packed, take_queue,
  queue_link,
}
use mnm.Qlib.Nodes.Exclusive.{IsTaken}

-- Each queue that is taken stays taken.
abbrev pub Grows : Server → Server → Type 0
Grows s t = (n : Text) → IsTaken n s → IsTaken n t

abbrev pub Growing {ℓ} : {A : Type ℓ} → Op Server A → Type 0
Growing m = (s : Server) → Grows s (m s).1

pub Grows-refl : (s : Server) → Grows s s
Grows-refl s n p = p

-- Rules for the ways in which operations are put together.
module _ {ℓ κ} {A : Type ℓ} {B : Type κ} where
  pub continue-Growing :
      (s : Server) (r : Result A × Server) (f : A → Op Server B)
      → Grows s r.1
      → ((a : A) → Growing (f a))
      → Grows s (continue r f).1
  continue-Growing s (ok a, t) f g h n p = h a t n (g n p)
  continue-Growing s (err e, t) f g h n p = g n p
  continue-Growing s (panic, t) f g h n p = g n p

  pub bind-Growing :
      (m : Op Server A) (f : A → Op Server B)
      → Growing m
      → ((a : A) → Growing (f a))
      → Growing (m >>= f)
  bind-Growing m f g h s = continue-Growing s (m s) f (g s) h

  pub tried-Growing :
      (f : Fault → Op Server B) (g : A → Op Server B)
      → ((e : Fault) → Growing (f e))
      → ((a : A) → Growing (g a))
      → (r : Tried A) → Growing (elim r [ failed e ↦ f e | worked a ↦ g a ])
  tried-Growing f g h k (failed e) = h e
  tried-Growing f g h k (worked a) = k a

module _ {ℓ} {A : Type ℓ} where
  pub pure-Growing : (a : A) → Growing (pure {S = Server} a)
  pure-Growing a s n p = p

  pub get-Growing : (f : Server → A) → Growing (get f)
  get-Growing f s n p = p

  pub try-Growing : (m : Op Server A) → Growing m → Growing (try m)
  try-Growing m h = h

  pub must-Growing : (m : Op Server A) → Growing m → Growing (must m)
  must-Growing m h = h

  pub ignoring_error-Growing : (z : A) (m : Op Server A) → Growing m → Growing (ignoring_error z m)
  ignoring_error-Growing z m h = h

  pub if-Growing :
      (b : Bool) (m k : Op Server A) → Growing m → Growing k → Growing (if b then m else k)
  if-Growing true m k h g = h
  if-Growing false m k h g = g

  pub deferring-Growing :
      (m : Op Server A) (d : Op Server (Unit {0})) → Growing m → Growing d → Growing (deferring m d)
  deferring-Growing m d h g s n p = g (m s).1 n (h s n p)

  pub in_store-Growing : (m : Op Store A) → Growing (in_store m)
  in_store-Growing m s n p = p

  pub in_db-Growing : (m : mnm.UserDb.Op.Op A) → Growing (in_db m)
  in_db-Growing m s n p = by_result (m s.db)
    where
      by_result : (r : mnm.UserDb.Op.Result A × mnm.UserDb.Op.UserDb) → IsTaken n (from_db s r).1
      by_result (mnm.UserDb.Op.ok a, db) = p
      by_result (mnm.UserDb.Op.err e, db) = p
      by_result (mnm.UserDb.Op.panic, db) = p

pub ruleset growing_rules = (
  bind-Growing, tried-Growing, pure-Growing, get-Growing, try-Growing, must-Growing,
  ignoring_error-Growing, if-Growing, deferring-Growing, in_store-Growing, in_db-Growing,
)

-- What is put under a node's name is taken if the node's queue was.
insert-Grows :
    (n : Text) (v : Option Queue) (s : Server)
    → (IsTaken n s → (q : Queue) × ((v ≡ some q) × (q.has_conn ≡ true)))
    → Grows s (record s { nodes = insert n v s.nodes })
insert-Grows n v s h n' (q, (e, c)) = elim (Bool-cases (eq_text n n')) [
  | inl k ↦
      let own : lookup n s.nodes ≡ some (some q) =
        ap (λ x. lookup x s.nodes) (eq_of_eq_text n n' k) ∙ e in
      let new = h (q, (own, c)) in
      (new.0, (rw lookup-insert (rw k (ap (λ x. some x) new.1.0)), new.1.1))
  | inr k ↦ (q, (rw lookup-insert (rw k e), c))
]

pub queue_in-some :
    (n : Text) (nodes : Nodes) (o : Option Queue) (q : Queue)
    → queue_in n nodes ≡ o
    → lookup n nodes ≡ some (some q)
    → o ≡ some q
queue_in-some n nodes o q e there = sym e ∙ rw (there, queue_in) refl

-- A queue that is put back with its mark as it was, or taken.
pub set_queue-Grows :
    (n : Text) (q q' : Queue) (s : Server)
    → queue_in n s.nodes ≡ some q
    → (q.has_conn ≡ true → q'.has_conn ≡ true)
    → Grows s (set_queue n q' s).1
set_queue-Grows n q q' s found same = insert-Grows n (some q') s λ t.
    let eq : some q ≡ some t.0 = queue_in-some n s.nodes (some q) t.0 found t.1.0 in
    (q', (refl, same (ground (arith, eq, t.1.1))))

pub get_node-Growing : (n : Text) → Growing (get_node n)
unfolding get_node
get_node-Growing n s = elim (Option-cases (lookup n s.nodes)) [
  | inl e ↦ rw (e, get_node) (insert-Grows n none s λ t. absurd (ground (arith, e, t.1.0)))
  | inr (o, e) ↦ rw (e, get_node) (Grows-refl s)
]

found_or_new-Growing :
    (n : Text) (o : Option Queue) (s : Server)
    → queue_in n s.nodes ≡ o
    → Grows s (found_or_new n o s).1
found_or_new-Growing n (some q) s e = Grows-refl s
found_or_new-Growing n none s e =
    by_result (in_store (get_dir n) s).0 (in_store (get_dir n) s).1.store
  where
    by_result :
        (r : Result (List Text)) (st : Store)
        → Grows s
            (continue
              (or_panic r, record s { store = st })
              (λ buf. do set_queue n (new_queue buf); pure (new_queue buf))).1
    by_result (ok buf) st = insert-Grows n (some (new_queue buf)) s λ t.
        let clash : none ≡ some t.0 = queue_in-some n s.nodes none t.0 e t.1.0 in
        absurd (ground (arith, clash))
    by_result (err f) st = Grows-refl s
    by_result panic st = Grows-refl s

open_queue-Growing : (n : Text) → Growing (open_queue n)
unfolding open_queue
open_queue-Growing n =
    bind-Growing (get_node n) _ (get_node-Growing n)
      λ _ s. found_or_new-Growing n (queue_in n s.nodes) s refl

packed-Growing : (w : Msg) (o : Option Text) → Growing (if_packed w o)
packed-Growing w none s n p = p
packed-Growing w (some b) s n p = p

take_queue-Growing :
    (env : Env) (n : Text) (m : Msg) (uid : Text) (q : Queue) → Growing (take_queue env n m uid q)
unfolding take_queue
take_queue-Growing env n m uid q = search (growing_rules, packed-Growing, taken-Growing)
  where
    taken-Growing : Growing (set_queue n (record q { has_conn = true }))
    taken-Growing s =
        insert-Grows n (some (record q { has_conn = true })) s
          λ t. (record q { has_conn = true }, (refl, refl))

-- The call that gives a link the queue of a node frees no other.
pub queue_link-Growing :
    (env : Env) (n : Text) (m : Msg) (uid : Text) → Growing (queue_link env n m uid)
unfolding queue_link
queue_link-Growing env n m uid =
    bind-Growing (open_queue n) _ (open_queue-Growing n) (take_queue-Growing env n m uid)
