-- ===== src/Qlib/Post/Failing.antt =====
-- A post that fails on one of its recipients reaches no one.
use mnm.Prelude.{
  ℕ, ◌≡◌, inl, inr, refl, ◌∙◌, Bool, true, false, Option-cases, Bool-cases, List, [], ◌∷◌, ◌++◌,
  Text, if◌then◌else◌, not, ◌&&◌, eq_text, lookup,
}
use native.Mathlib.Omega.{arith}
use mnm.UserDb.Op.{UserDb}
use mnm.Qlib.Header.{HeaderFor, for_self}
use mnm.Qlib.Op.{Result, ok, err, panic, Op, pure, continue, ◌>>=◌}
use mnm.Qlib.Server.{Server, Env, from_db, in_db, or_panic, must, deferring}
use mnm.Qlib.Nodes.{get_node, queue_in}
use mnm.Qlib.Post.{
  Targets, users_of, tell_queue, with_users, with_targets, serve, put_links, queue_msg,
}

abbrev is_err {ℓ} : {A : Type ℓ} → Result A → Bool
is_err (ok a) = false
is_err (err e) = true
is_err panic = false

-- An operation that returns no error.
abbrev Succeeds {ℓ} : {A : Type ℓ} → Op Server A → Type 0
Succeeds m = (s : Server) → is_err (m s).0 ≡ false

module _ {ℓ κ} {A : Type ℓ} {B : Type κ} where
  bind-Succeeds :
      (m : Op Server A) (f : A → Op Server B)
      → Succeeds m
      → ((a : A) → Succeeds (f a))
      → Succeeds (m >>= f)
  bind-Succeeds m f h g s = continued (m s) (h s)
    where
      continued : (r : Result A × Server) → is_err r.0 ≡ false → is_err (continue r f).0 ≡ false
      continued (ok a, t) e = g a t
      continued (err e, t) h = h
      continued (panic, t) e = refl

module _ {ℓ} {A : Type ℓ} where
  must-Succeeds : (m : Op Server A) → Succeeds (must m)
  must-Succeeds m s = ended (m s).0
    where
      ended : (r : Result A) → is_err (or_panic r) ≡ false
      ended (ok a) = refl
      ended (err e) = refl
      ended panic = refl

get_node-Succeeds : (n : Text) → Succeeds (get_node n)
unfolding get_node
get_node-Succeeds n s = elim (Option-cases (lookup n s.nodes)) [
  | inl e ↦ rw (e, get_node) refl
  | inr (q, e) ↦ rw (e, get_node) refl
]

-- The messages and the queues are as they were.
abbrev Same : Server → Server → Type 0
Same s t = (t.store ≡ s.store) × (t.nodes ≡ s.nodes)

-- An error leaves them so.
abbrev pub FailsClean {ℓ} : {A : Type ℓ} → Server → Result A × Server → Type 0
FailsClean s (ok a, t) = Unit {0}
FailsClean s (err e, t) = Same s t
FailsClean s (panic, t) = Unit {0}

abbrev FailsCleanly {ℓ} : {A : Type ℓ} → Op Server A → Type 0
FailsCleanly m = (s : Server) → FailsClean s (m s)

abbrev Untouching {ℓ} : {A : Type ℓ} → Op Server A → Type 0
Untouching m = (s : Server) → Same s (m s).1

module _ {ℓ} {A : Type ℓ} where
  pure-Untouching : (a : A) → Untouching (pure a)
  pure-Untouching a s = (refl, refl)

  if-Untouching :
      (b : Bool) (m n : Op Server A) → Untouching m → Untouching n → Untouching (if b then m else n)
  if-Untouching true m n h g = h
  if-Untouching false m n h g = g

  if-FailsCleanly :
      (b : Bool) (m n : Op Server A)
      → FailsCleanly m
      → FailsCleanly n
      → FailsCleanly (if b then m else n)
  if-FailsCleanly true m n h g = h
  if-FailsCleanly false m n h g = g

  moved-FailsClean :
      (s t : Server) (r : Result A × Server) → Same s t → FailsClean t r → FailsClean s r
  moved-FailsClean s t (ok a, u) h g = tt
  moved-FailsClean s t (err e, u) h g = (g.0 ∙ h.0, g.1 ∙ h.1)
  moved-FailsClean s t (panic, u) h g = tt

  in_db-Untouching : (m : mnm.UserDb.Op.Op A) → Untouching (in_db m)
  in_db-Untouching m s = called (m s.db)
    where
      called : (r : mnm.UserDb.Op.Result A × UserDb) → Same s (from_db s r).1
      called (mnm.UserDb.Op.ok a, db) = (refl, refl)
      called (mnm.UserDb.Op.err e, db) = (refl, refl)
      called (mnm.UserDb.Op.panic, db) = (refl, refl)

  succeeding-FailsCleanly : (m : Op Server A) → Succeeds m → FailsCleanly m
  succeeding-FailsCleanly m h s = ended (m s) (h s)
    where
      ended : (r : Result A × Server) → is_err r.0 ≡ false → FailsClean s r
      ended (ok a, t) e = tt
      ended (err e, t) h = absurd (ground arith)
      ended (panic, t) e = tt

  deferring-FailsCleanly :
      (m : Op Server A) (d : Op Server (Unit {0}))
      → FailsCleanly m
      → Untouching d
      → FailsCleanly (deferring m d)
  deferring-FailsCleanly m d h g s = ended (m s) (h s)
    where
      ended : (r : Result A × Server) → FailsClean s r → FailsClean s (r.0, (d r.1).1)
      ended (ok a, t) c = tt
      ended (err e, t) c = ((g t).0 ∙ c.0, (g t).1 ∙ c.1)
      ended (panic, t) c = tt

module _ {ℓ κ} {A : Type ℓ} {B : Type κ} where
  bind-FailsCleanly :
      (m : Op Server A) (f : A → Op Server B)
      → Untouching m
      → ((a : A) → FailsCleanly (f a))
      → FailsCleanly (m >>= f)
  bind-FailsCleanly m f h g s = continued (m s) (h s)
    where
      continued : (r : Result A × Server) → Same s r.1 → FailsClean s (continue r f)
      continued (ok a, t) c = moved-FailsClean s t (f a t) c (g a t)
      continued (err e, t) c = c
      continued (panic, t) c = tt

module _ (env : Env) (uid node : Text) where
  tell_queue-Succeeds : (prio_id n : Text) → Succeeds (tell_queue env uid node prio_id n)
  unfolding tell_queue
  tell_queue-Succeeds prio_id n s = elim (Option-cases (queue_in n s.nodes)) [
    | inl e ↦ rw (e, tell_queue) refl
    | inr (q, e) ↦ rw (e, tell_queue) refl
  ]

  serve-Succeeds : (id prio_id n : Text) → Succeeds (serve env uid node id prio_id n)
  unfolding serve
  serve-Succeeds id prio_id n =
      search (bind-Succeeds, must-Succeeds, get_node-Succeeds, tell_queue-Succeeds) depth 12

  put_links-Succeeds :
      (id prio_id : Text) (mine : Bool) (ns : List Text)
      → Succeeds (put_links env uid node id prio_id mine ns)
  unfolding put_links
  put_links-Succeeds id prio_id mine [] s = refl
  put_links-Succeeds id prio_id mine (n ∷ ns) s = elim (Bool-cases (eq_text n node && not mine)) [
    | inl e ↦ rw e (put_links-Succeeds id prio_id mine ns s)
    | inr e ↦ rw e (
        bind-Succeeds (serve env uid node id prio_id n)
          (λ _. put_links env uid node id prio_id mine ns) (serve-Succeeds id prio_id n)
          (λ _. put_links-Succeeds id prio_id mine ns) s)
  ]

  module _ (to : HeaderFor) (next : Targets → Op Server (Unit {0}))
      (ends : (t : Targets) → FailsCleanly (next t)) where
    with_users-FailsCleanly :
        (us : List Text) (t : Targets) → FailsCleanly (with_users env uid node to us t next)
    unfolding with_users
    with_users-FailsCleanly [] t = ends t
    with_users-FailsCleanly (u ∷ us) t =
        let others = with_users-FailsCleanly us in
        search
          (if-FailsCleanly, bind-FailsCleanly, deferring-FailsCleanly, in_db-Untouching, others)
          depth 12

  users_of-Untouching : (to : HeaderFor) → Untouching (users_of env uid node to)
  unfolding users_of
  users_of-Untouching to = search (if-Untouching, in_db-Untouching, pure-Untouching)

  with_targets-FailsCleanly :
      (next : Targets → Op Server (Unit {0}))
      → ((t : Targets) → FailsCleanly (next t))
      → (tos : List HeaderFor) (t : Targets) → FailsCleanly (with_targets env uid node tos t next)
  unfolding with_targets
  with_targets-FailsCleanly next ends [] t = ends t
  with_targets-FailsCleanly next ends (to ∷ tos) t =
      bind-FailsCleanly (users_of env uid node to) _ (users_of-Untouching to)
        (λ us. with_users-FailsCleanly to _ (λ u. with_targets-FailsCleanly next ends tos u) us t)

  -- If _queueMsg returns an error, no message was linked to a node and no queue was told of one:
  -- all recipients are found before the first is served.
  pub queue_msg-FailsClean :
      (id : Text) (prio : ℕ) (for_a for_b : List HeaderFor) (self : Bool) (s : Server)
      → FailsClean s (queue_msg env uid node id prio for_a for_b self s)
  unfolding queue_msg
  queue_msg-FailsClean id prio for_a for_b self s =
      let me : List HeaderFor = if self then record { id = uid; type = for_self } ∷ [] else [] in
      with_targets-FailsCleanly (λ t. put_links env uid node id (prio ∷ id) t.my_uid t.nodes)
        (λ t.
          succeeding-FailsCleanly (put_links env uid node id (prio ∷ id) t.my_uid t.nodes)
            (put_links-Succeeds id (prio ∷ id) t.my_uid t.nodes))
        (for_a ++ me ++ for_b) (record { nodes = []; my_uid = false }) s
