-- ===== src/Qlib/System/Calls.antt =====
-- The calls of the server in which a link tells, posts and edits free no node's queue.
use mnm.Prelude.{
  ◌≡◌, refl, Bool, Option, none, some, List, [], ◌∷◌, ◌++◌, Text, lookup, inl, inr, Option-cases, ℕ,
}
use mnm.Qlib.Header.{HeaderFor}
use mnm.Qlib.Op.{Op}
use mnm.Qlib.Presence.{unref}
use mnm.Qlib.Elastic.{receive}
use mnm.Qlib.Server.{Queue, Server, Env, Tried, worked, failed}
use mnm.Qlib.Nodes.{get_node, queue_in}
use mnm.Qlib.Nodes.Growing.{
  Grows, Growing, Grows-refl, bind-Growing, growing_rules, set_queue-Grows, get_node-Growing,
}
use mnm.Qlib.Post.{
  Targets, users_of, with_users, with_targets, tell_queue, serve, put_links, queue_msg,
}
use mnm.Qlib.Handle.Edit.{put_ohi, send_ohi, check_users, edit_set, tell_edited, edit_users}
use mnm.Qlib.Link.{tell_opened, tell_users, leave_ohi}

put_ohi-Grows :
    (uid : Text) (on : Bool) (n : Text) (o : Option Queue) (s : Server)
    → queue_in n s.nodes ≡ o
    → Grows s (put_ohi uid on n o s).1
put_ohi-Grows uid on n none s e = Grows-refl s
put_ohi-Grows uid on n (some q) s e =
    set_queue-Grows n q (record q { ohi = q.ohi ++ (uid, on) ∷ [] }) s e (λ h. h)

tell_one-Growing :
    (uid : Text) (on : Bool) (n : Text) → Growing (λ s. put_ohi uid on n (queue_in n s.nodes) s)
tell_one-Growing uid on n s = put_ohi-Grows uid on n (queue_in n s.nodes) s refl

pub send_ohi-Growing : (uid : Text) (on : Bool) (ns : List Text) → Growing (send_ohi uid on ns)
unfolding send_ohi
send_ohi-Growing uid on [] = Grows-refl
send_ohi-Growing uid on (n ∷ ns) = bind-Growing (get_node n) _ (get_node-Growing n) λ _.
    bind-Growing (λ s. put_ohi uid on n (queue_in n s.nodes) s) _ (tell_one-Growing uid on n)
      λ _. send_ohi-Growing uid on ns

module _ (env : Env) where
  pub check_users-Growing : (tos : List HeaderFor) → Growing (check_users env tos)
  unfolding check_users
  check_users-Growing [] = search growing_rules
  check_users-Growing (to ∷ tos) = search (growing_rules, check_users-Growing tos)

  edit_set-Growing : (uid to : Text) (on : Bool) → Growing (edit_set uid to on)
  unfolding edit_set
  edit_set-Growing uid to on s = elim (Option-cases (lookup uid s.ohi)) [
    | inl e ↦ rw (e, edit_set) (Grows-refl s)
    | inr (set, e) ↦ rw (e, edit_set) (λ n p. p)
  ]

  tell_edited-Growing :
      (uid : Text) (on : Bool) (to : Text) (r : Tried (List Text))
      → Growing (tell_edited env uid on to r)
  tell_edited-Growing uid on to (failed e) = search growing_rules
  tell_edited-Growing uid on to (worked ns) = search (growing_rules, send_ohi-Growing)

  pub edit_users-Growing :
      (uid : Text) (on : Bool) (tos : List HeaderFor) → Growing (edit_users env uid on tos)
  unfolding edit_users
  edit_users-Growing uid on [] = search growing_rules
  edit_users-Growing uid on (to ∷ tos) =
      search (growing_rules, edit_set-Growing, tell_edited-Growing, edit_users-Growing uid on tos)

  told_opened-Growing : (uid to : Text) (r : Tried (List Text)) → Growing (tell_opened env uid to r)
  told_opened-Growing uid to (failed e) = search growing_rules
  told_opened-Growing uid to (worked ns) = search (growing_rules, send_ohi-Growing)

  tell_users-Growing : (uid : Text) (tos : List Text) → Growing (tell_users env uid tos)
  unfolding tell_users
  tell_users-Growing uid [] = search growing_rules
  tell_users-Growing uid (to ∷ tos) =
      search (growing_rules, told_opened-Growing, tell_users-Growing uid tos)

  pub leave_ohi-Growing : (uid : Text) → Growing (leave_ohi env uid)
  unfolding leave_ohi
  leave_ohi-Growing uid s = elim (Option-cases (unref uid s.ohi)) [
    | inl e ↦ rw (e, leave_ohi) (Grows-refl s)
    | inr (r, e) ↦ rw (e, leave_ohi) (tell_users-Growing uid r.1 (record s { ohi = r.0 }))
  ]

  module _ (uid node : Text) where
    users_of-Growing : (to : HeaderFor) → Growing (users_of env uid node to)
    unfolding users_of
    users_of-Growing to = search growing_rules

    module _ (next : Targets → Op Server (Unit {0})) (k : (t : Targets) → Growing (next t)) where
      with_users-Growing :
          (to : HeaderFor) (us : List Text) (t : Targets)
          → Growing (with_users env uid node to us t next)
      unfolding with_users
      with_users-Growing to [] t = k t
      with_users-Growing to (u ∷ us) t = search (growing_rules, with_users-Growing to us) depth 12

    with_targets-Growing :
        (next : Targets → Op Server (Unit {0}))
        → ((t : Targets) → Growing (next t))
        → (tos : List HeaderFor) (t : Targets) → Growing (with_targets env uid node tos t next)
    unfolding with_targets
    with_targets-Growing next k [] t = k t
    with_targets-Growing next k (to ∷ tos) t =
        bind-Growing (users_of env uid node to) _ (users_of-Growing to) λ us.
          with_users-Growing (λ t'. with_targets env uid node tos t' next)
            (with_targets-Growing next k tos) to us t

    tell_queue-Growing : (prio_id n : Text) → Growing (tell_queue env uid node prio_id n)
    unfolding tell_queue
    tell_queue-Growing prio_id n s = elim (Option-cases (queue_in n s.nodes)) [
      | inl e ↦ rw (e, tell_queue) (Grows-refl s)
      | inr (q, e) ↦
          rw (e, tell_queue)
            (set_queue-Grows n q (record q { buf = receive prio_id q.buf }) s e (λ h. h))
    ]

    put_links-Growing :
        (id prio_id : Text) (mine : Bool) (ns : List Text)
        → Growing (put_links env uid node id prio_id mine ns)
    unfolding put_links serve
    put_links-Growing id prio_id mine [] = search growing_rules
    put_links-Growing id prio_id mine (n ∷ ns) =
        search
          (
            growing_rules,
            get_node-Growing,
            tell_queue-Growing,
            put_links-Growing id prio_id mine ns,
          )
          depth 12

    pub queue_msg-Growing :
        (id : Text) (prio : ℕ) (for_a for_b : List HeaderFor) (self : Bool)
        → Growing (queue_msg env uid node id prio for_a for_b self)
    unfolding queue_msg
    queue_msg-Growing id prio for_a for_b self = search (with_targets-Growing, put_links-Growing)
