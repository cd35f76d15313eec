-- ===== src/Qlib/Stable.antt =====
-- What the operations of a link keep: rules for the ways in which they are put together.
use mnm.Prelude.{
  Bool, true, false, Option, none, some, inl, inr, Option-cases, List, ◌++◌, [], ◌∷◌, if◌then◌else◌,
}
use mnm.Qlib.Op.{Fault, Result, ok, err, panic, Op, pure, raise, crash, continue, ◌>>=◌}
use mnm.Qlib.Stream.{Stream}
use mnm.Qlib.Nodes.Growing.{Grows, Growing, in_db-Growing, in_store-Growing}
use mnm.Qlib.Store.{Store}
use mnm.Qlib.Server.{
  Server, Link, State, Env, Msg, Tried, worked, failed, must, try, deferring, get, on_server, in_db,
  in_store, on_link, pack_msg, write_msg,
}

-- The predicate does not depend on what is written.
abbrev pub Writes : (Link → Server → Type 0) → Type 0
Writes P = (l : Link) (t : Server) (w : List Msg) → P l t → P (record l { written = w }) t

-- The predicate does not depend on what the client sends.
abbrev pub Streams : (Link → Server → Type 0) → Type 0
Streams P = (l : Link) (t : Server) (r : Stream) → P l t → P (record l { stream = r }) t

-- The predicate stands all changes of the server that free no node's queue.
abbrev pub Serves : (Link → Server → Type 0) → Type 0
Serves P = (l : Link) (s t : Server) → Grows s t → P l s → P l t

-- A predicate on the link alone.
abbrev pub OfLink : (Link → Type 0) → Link → Server → Type 0
OfLink L l t = L l

pub link_serves : (L : Link → Type 0) → Serves (OfLink L)
link_serves L l s t g p = p

-- An operation keeps a predicate on the link and the server, however it ends.
abbrev pub Keeps {ℓ} : {A : Type ℓ} → (Link → Server → Type 0) → Op State A → Type 0
Keeps P m = (s : State) → P s.link s.server → P (m s).1.link (m s).1.server

module _ (P : Link → Server → Type 0) where
  module _ {ℓ κ} {A : Type ℓ} {B : Type κ} where
    pub continue-Keeps :
        (r : Result A × State) (f : A → Op State B)
        → ((a : A) → Keeps P (f a))
        → P r.1.link r.1.server
        → P (continue r f).1.link (continue r f).1.server
    continue-Keeps (ok a, t) f g q = g a t q
    continue-Keeps (err e, t) f g q = q
    continue-Keeps (panic, t) f g q = q

    pub bind-Keeps :
        (m : Op State A) (f : A → Op State B)
        → Keeps P m
        → ((a : A) → Keeps P (f a))
        → Keeps P (m >>= f)
    bind-Keeps m f h g s p = continue-Keeps (m s) f g (h s p)

    pub tried-Keeps :
        (f : Fault → Op State B) (g : A → Op State B)
        → ((e : Fault) → Keeps P (f e))
        → ((a : A) → Keeps P (g a))
        → (r : Tried A) → Keeps P (elim r [ failed e ↦ f e | worked a ↦ g a ])
    tried-Keeps f g h k (failed e) = h e
    tried-Keeps f g h k (worked a) = k a

    pub option-Keeps :
        (m : Op State B) (f : A → Op State B)
        → Keeps P m
        → ((a : A) → Keeps P (f a))
        → (o : Option A) → Keeps P (elim o [ none ↦ m | some a ↦ f a ])
    option-Keeps m f h k none = h
    option-Keeps m f h k (some a) = k a

  module _ {ℓ} {A : Type ℓ} where
    pub on_server-Keeps : Serves P → (m : Op Server A) → Growing m → Keeps P (on_server m)
    on_server-Keeps serves m g s p = serves s.link s.server (m s.server).1 (g s.server) p

    pub on_db-Keeps : Serves P → (m : mnm.UserDb.Op.Op A) → Keeps P (on_server (in_db m))
    on_db-Keeps serves m = on_server-Keeps serves (in_db m) (in_db-Growing m)

    pub on_store-Keeps : Serves P → (m : Op Store A) → Keeps P (on_server (in_store m))
    on_store-Keeps serves m = on_server-Keeps serves (in_store m) (in_store-Growing m)

    pub pure-Keeps : (a : A) → Keeps P (pure {S = State} a)
    pure-Keeps a s p = p

    pub get-Keeps : (f : State → A) → Keeps P (get f)
    get-Keeps f s p = p

    pub try-Keeps : (m : Op State A) → Keeps P m → Keeps P (try m)
    try-Keeps m h = h

    pub if-Keeps :
        (b : Bool) (m n : Op State A) → Keeps P m → Keeps P n → Keeps P (if b then m else n)
    if-Keeps true m n h k = h
    if-Keeps false m n h k = k

    pub must-Keeps : (m : Op State A) → Keeps P m → Keeps P (must m)
    must-Keeps m h = h

    pub deferring-Keeps :
        (m : Op State A) (d : Op State (Unit {0})) → Keeps P m → Keeps P d → Keeps P (deferring m d)
    deferring-Keeps m d h g s p = g (m s).1 (h s p)

  pub raise-Keeps {ℓ} : (A : Type ℓ) (e : Fault) → Keeps P (raise {S = State} {A = A} e)
  raise-Keeps A e s p = p

  pub crash-Keeps {ℓ} : (A : Type ℓ) → Keeps P (crash {S = State} {A = A})
  crash-Keeps A s p = p

  pub on_link-Keeps :
      (f : Link → Link) → ((l : Link) (t : Server) → P l t → P (f l) t) → Keeps P (on_link f)
  on_link-Keeps f h s p = h s.link s.server p

  -- A message that is written changes only what was written.
  pub write_msg-Keeps : (env : Env) (m : Msg) → Writes P → Keeps P (write_msg env m)
  unfolding write_msg
  write_msg-Keeps env m h s p = elim (Option-cases (pack_msg env m)) [
    | inl e ↦ rw (e, write_msg) p
    | inr (b, e) ↦ rw (e, write_msg) (h s.link s.server (s.link.written ++ m ∷ []) p)
  ]

-- The rules.
pub ruleset keeps_rules = (
  bind-Keeps, tried-Keeps, option-Keeps, pure-Keeps, get-Keeps, try-Keeps, if-Keeps, must-Keeps,
  deferring-Keeps, raise-Keeps, crash-Keeps, on_link-Keeps, write_msg-Keeps,
)
