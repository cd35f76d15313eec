-- ===== src/Qlib/Link/End.antt =====
-- The end of a link: its node's queue is free again.
use mnm.Prelude.{
  ◌≡◌, ◌≢◌, ◌∙◌, ap, sym, inl, inr, refl, Bool, true, false, not, ◌&&◌, Option, none, some,
  Option-cases, Bool-cases, List, [], ◌∷◌, ◌++◌, Text, is_empty, lookup, insert, lookup-insert,
  eq_text, eq_of_eq_text, eq_text_refl, arith, if◌then◌else◌,
}
use mnm.UserDb.Users.{open_nodes, close_nodes}
use mnm.Qlib.Quit.{Quit, quit_op}
use mnm.Qlib.Op.{Result, ok, err, panic, Op, pure, continue, ◌>>=◌, ◌>>◌}
use mnm.Qlib.Presence.{unref}
use mnm.Qlib.Server.{
  Msg, Queue, Nodes, Server, State, Env, in_db, Tried, worked, failed, try, from_db, on_server,
  write_msg, pack_msg,
}
use mnm.Qlib.Nodes.{get_node, queue_in, unlink, take_queue, if_packed, queue_link}
use mnm.Qlib.Nodes.Exclusive.{open_queue-known}
use mnm.Qlib.Handle.Dispatch.Gate.{write_msg-server}
use mnm.Qlib.Handle.Edit.{put_ohi, send_ohi}
use mnm.Qlib.Link.{quit_msg, is_quit, tell_opened, tell_users, leave_ohi, end_link}

-- No link has the node's queue, whose buffer is as given.
abbrev pub IsFree : Text → List Text → Nodes → Type 0
IsFree n buf nodes =
    (q : Queue) × (lookup n nodes ≡ some (some q)) × (q.has_conn ≡ false) × (q.buf ≡ buf)

-- After an operation on the server the queue is free if it was.
abbrev Frees {ℓ} : {A : Type ℓ} → Text → List Text → Op Server A → Type 0
Frees n buf m = (s : Server) → IsFree n buf s.nodes → IsFree n buf (m s).1.nodes

module _ (n : Text) (buf : List Text) where
  module _ {ℓ κ} {A : Type ℓ} {B : Type κ} where
    continue-Frees :
        (r : Result A × Server) (f : A → Op Server B)
        → ((a : A) → Frees n buf (f a))
        → IsFree n buf r.1.nodes
        → IsFree n buf (continue r f).1.nodes
    continue-Frees (ok a, s) f h p = h a s p
    continue-Frees (err e, s) f h p = p
    continue-Frees (panic, s) f h p = p

  in_db-Frees {ℓ} : {A : Type ℓ} (m : mnm.UserDb.Op.Op A) → Frees n buf (in_db m)
  in_db-Frees {A} m s p = by_result (m s.db)
    where
      by_result :
          (r : mnm.UserDb.Op.Result A × mnm.UserDb.Op.UserDb) → IsFree n buf (from_db s r).1.nodes
      by_result (mnm.UserDb.Op.ok a, db) = p
      by_result (mnm.UserDb.Op.err e, db) = p
      by_result (mnm.UserDb.Op.panic, db) = p

  -- Another field of a queue, or another node, leaves the queue free.
  set_queue-IsFree :
      (n' : Text) (q q' : Queue) (nodes : Nodes)
      → lookup n' nodes ≡ some (some q)
      → q'.has_conn ≡ q.has_conn
      → q'.buf ≡ q.buf
      → IsFree n buf nodes
      → IsFree n buf (insert n' (some q') nodes)
  set_queue-IsFree n' q q' nodes there same same' (f, e, free, bufs) =
      elim (Bool-cases (eq_text n' n)) [
        | inl k ↦
            let own : some (some q) ≡ some (some f) =
              sym there ∙ ap (λ x. lookup x nodes) (eq_of_eq_text n' n k) ∙ e in
            (q', rw lookup-insert (rw k refl), ground (arith, own), ground (arith, own))
        | inr k ↦ (f, rw lookup-insert (rw k e), free, bufs)
      ]

  differs :
      (n' : Text) (f : Queue) (nodes : Nodes)
      → lookup n' nodes ≡ none
      → lookup n nodes ≡ some (some f)
      → eq_text n' n ≡ false
  differs n' f nodes k e = elim (Bool-cases (eq_text n' n)) [
    | inl same ↦
        let clash : none ≡ some (some f) =
          sym k ∙ ap (λ x. lookup x nodes) (eq_of_eq_text n' n same) ∙ e in
        let never : ⊥ = cc in absurd never
    | inr other ↦ other
  ]

  get_node-Frees : (n' : Text) → Frees n buf (get_node n')
  unfolding get_node
  get_node-Frees n' s (f, e, free, bufs) = elim (Option-cases (lookup n' s.nodes)) [
    | inl k ↦
        let other : eq_text n' n ≡ false = differs n' f s.nodes k e in
        rw (k, get_node) (f, rw lookup-insert (rw other e), free, bufs)
    | inr (o, k) ↦ rw (k, get_node) (f, e, free, bufs)
  ]

  bind-Frees {ℓ κ} :
      {A : Type ℓ} {B : Type κ} (m : Op Server A) (f : A → Op Server B)
      → Frees n buf m
      → ((a : A) → Frees n buf (f a))
      → Frees n buf (m >>= f)
  bind-Frees m f h g s p = continue-Frees (m s) f g (h s p)

  queue_in-some :
      (o : Option (Option Queue)) (q : Queue)
      → (elim o [ none ↦ none | some q' ↦ q' ]) ≡ some q
      → o ≡ some (some q)
  queue_in-some none q e = cc
  queue_in-some (some o) q e = ap (λ x. some x) e

  -- A node that is told of presence keeps all else of its queue.
  put_ohi-Frees :
      (n' uid : Text) (on : Bool) (o : Option Queue) (s : Server)
      → queue_in n' s.nodes ≡ o
      → IsFree n buf s.nodes
      → IsFree n buf (put_ohi uid on n' o s).1.nodes
  put_ohi-Frees n' uid on none s e p = p
  put_ohi-Frees n' uid on (some q) s e p =
      set_queue-IsFree n' q (record q { ohi = q.ohi ++ (uid, on) ∷ [] }) s.nodes
        (queue_in-some (lookup n' s.nodes) q e) refl refl p

  send_ohi-Frees : (uid : Text) (on : Bool) (ns : List Text) → Frees n buf (send_ohi uid on ns)
  unfolding send_ohi
  send_ohi-Frees uid on [] = λ s p. p
  send_ohi-Frees uid on (n' ∷ ns) = bind-Frees (get_node n') _ (get_node-Frees n') λ _ s p.
      continue-Frees (put_ohi uid on n' (queue_in n' s.nodes) s) (λ _. send_ohi uid on ns)
        (λ _. send_ohi-Frees uid on ns) (put_ohi-Frees n' uid on (queue_in n' s.nodes) s refl p)

  module _ (env : Env) where
    tell_opened-Frees :
        (uid to : Text) (r : Tried (List Text)) → Frees n buf (tell_opened env uid to r)
    tell_opened-Frees uid to (failed e) = λ s p. p
    tell_opened-Frees uid to (worked nodes) =
        bind-Frees (send_ohi uid false nodes) _ (send_ohi-Frees uid false nodes)
          λ _. in_db-Frees (close_nodes env.check_sum to)

    tell_users-Frees : (uid : Text) (tos : List Text) → Frees n buf (tell_users env uid tos)
    unfolding tell_users
    tell_users-Frees uid [] = λ s p. p
    tell_users-Frees uid (to ∷ tos) =
        bind-Frees (try (in_db (open_nodes env.check_sum to))) _
          (in_db-Frees (open_nodes env.check_sum to))
          λ r.
            bind-Frees (tell_opened env uid to r) _ (tell_opened-Frees uid to r)
              λ _. tell_users-Frees uid tos

    leave_ohi-Frees : (uid : Text) → Frees n buf (leave_ohi env uid)
    unfolding leave_ohi
    leave_ohi-Frees uid s p = elim (Option-cases (unref uid s.ohi)) [
      | inl e ↦ rw (e, leave_ohi) p
      | inr (r, e) ↦ rw (e, leave_ohi) (tell_users-Frees uid r.1 (record s { ohi = r.0 }) p)
    ]

    -- The end of a link after its queue is unlinked.
    abbrev StateFrees : Op State (Unit {0}) → Type 0
    StateFrees m = (s : State) → IsFree n buf s.server.nodes → IsFree n buf (m s).1.server.nodes

    then-StateFrees :
        (r : Result (Unit {0}) × State) (k : Op State (Unit {0}))
        → StateFrees k
        → IsFree n buf r.1.server.nodes
        → IsFree n buf (continue r (λ _. k)).1.server.nodes
    then-StateFrees (ok a, s) k h p = h s p
    then-StateFrees (err e, s) k h p = p
    then-StateFrees (panic, s) k h p = p

    write_msg-StateFrees : (m : Msg) → StateFrees (write_msg env m)
    write_msg-StateFrees m s p = rw (write_msg-server env m s) p

    if-StateFrees :
        (b : Bool) (m : Op State (Unit {0})) → StateFrees m → StateFrees (if b then m else pure tt)
    if-StateFrees true m h = h
    if-StateFrees false m h = λ s p. p

unlink-IsFree :
    (n : Text) (q : Queue) (s : State) (has : Bool)
    → has ≡ true
    → lookup n s.server.nodes ≡ some (some q)
    → IsFree n q.buf ((if has then on_server (unlink n) else pure tt) s).1.server.nodes
unfolding unlink
unlink-IsFree n q s false has there = let never : ⊥ = cc in absurd never
unlink-IsFree n q s true has there =
    let found : queue_in n s.server.nodes ≡ some q = rw (there, queue_in) refl in
    rw (found, unlink)
      (record q { has_conn = false }, rw lookup-insert (rw (eq_text_refl n) refl), refl, refl)

-- After a link with a queue has ended, for whatever reason, no link has the node's queue, which keeps
-- its buffer. This holds also where the end panics.
pub end_link-IsFree :
    (env : Env) (q : Quit) (s : State) (queue : Queue)
    → s.link.queue ≡ true
    → lookup s.link.node s.server.nodes ≡ some (some queue)
    → IsFree s.link.node queue.buf (end_link env q s).1.server.nodes
unfolding end_link
end_link-IsFree env q s queue has there =
    let n = s.link.node in
    let buf = queue.buf in
    let tells = is_quit (quit_op q) && not (is_empty s.link.tmtprev) in
    let told : Op State (Unit {0}) = if tells then write_msg env (quit_msg q) else pure tt in
    let left : Op State (Unit {0}) =
      if s.link.ohi then on_server (leave_ohi env s.link.uid) else pure tt in
    then-StateFrees n buf env _ (told >> left)
      (λ t p.
        then-StateFrees n buf env (told t) left
          (if-StateFrees n buf env s.link.ohi (on_server (leave_ohi env s.link.uid))
            (λ t'. leave_ohi-Frees n buf env s.link.uid t'.server))
          (if-StateFrees n buf env tells (write_msg env (quit_msg q))
            (write_msg-StateFrees n buf env (quit_msg q)) t p))
      (unlink-IsFree n queue s s.link.queue has there)

-- A queue that is free is given to the next link that asks for it.
queue_link-free :
    (env : Env) (n uid : Text) (m : Msg) (buf : List Text) (s : Server)
    → IsFree n buf s.nodes
    → (queue_link env n m uid s).0 ≢ ok none
unfolding queue_link take_queue
queue_link-free env n uid m buf s (q, e, free, bufs) =
    rw (open_queue-known n q s e) (rw free (packs _ (pack_msg env _) _))
  where
    packs : (w : Msg) (o : Option Text) (t : Server) → (if_packed w o t).0 ≢ ok none
    packs w none t = λ h. cc
    packs w (some b) t = λ h. cc

-- After a link with a queue has ended, for whatever reason, the next link that asks for the node is
-- not refused.
pub end_link-relogin :
    (env : Env) (q : Quit) (s : State) (queue : Queue) (m : Msg) (uid : Text)
    → s.link.queue ≡ true
    → lookup s.link.node s.server.nodes ≡ some (some queue)
    → (queue_link env s.link.node m uid (end_link env q s).1.server).0 ≢ ok none
end_link-relogin env q s queue m uid has there =
    queue_link-free env s.link.node uid m queue.buf (end_link env q s).1.server
      (end_link-IsFree env q s queue has there)
