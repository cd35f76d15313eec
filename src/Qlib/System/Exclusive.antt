-- ===== src/Qlib/System/Exclusive.antt =====
-- Each node has one link at a time, in the whole system.
use mnm.Prelude.{
  ℕ, ◌≡◌, ◌∙◌, ap, sym, subst, inl, inr, ◌⊎◌, refl, true, Bool-cases, Option, none, some, ◌==◌,
  if◌then◌else◌, arith,
}
use mnm.Qlib.Quit.{Quit}
use mnm.Qlib.Stream.{Stream}
use mnm.Qlib.Server.{Server, Link, State, Env, new_link}
use mnm.Qlib.Nodes.{queue_in}
use mnm.Qlib.Nodes.Exclusive.{IsTaken}
use mnm.Qlib.Nodes.Growing.{set_queue-Grows}
use mnm.Qlib.Handle.Dispatch.{handle_msg}
use mnm.Qlib.Link.{end_link}
use mnm.Qlib.System.{
  System, put, after, ending, Reached, boots, connects, receives, handles, ends, runs,
}
use mnm.Qlib.System.Ended.{end_link-Taken}
use mnm.Qlib.System.Owned.{Owned, handle_msg-Owned}

-- A link with a queue has its node's, and no other link has that node.
pub record Exclusive (s : System) : Type 0 where
  pub taken : (i : ℕ) (l : Link) → s.links i ≡ some l → l.queue ≡ true → IsTaken l.node s.server
  pub apart :
      (i j : ℕ) (l k : Link)
      → s.links i ≡ some l
      → s.links j ≡ some k
      → l.queue ≡ true
      → k.queue ≡ true
      → l.node ≡ k.node
      → i ≡ j

-- Which link the system has after a step of the link `i`.
put-cases :
    (i j : ℕ) (v : Option Link) (links : ℕ → Option Link) (k : Link)
    → put i v links j ≡ some k
    → ((j ≡ i) × (v ≡ some k)) ⊎ ((j ≡ i → ⊥) × (links j ≡ some k))
put-cases i j v links k e = elim (Bool-cases (j == i)) [
  | inl c ↦ inl (ground (arith, c), subst (λ b. (if b then v else links j) ≡ some k) c e)
  | inr c ↦
      inr ((λ same. ground (arith, c, same)), subst (λ b. (if b then v else links j) ≡ some k) c e)
]

-- A step of one link keeps the invariant if the nodes of the others stay taken, and if its own node,
-- where it has a queue, is taken, and no other's.
module _ (s : System) (i : ℕ) (v : Option Link) (t : Server) (p : Exclusive s)
    (others : (j : ℕ) (k : Link)
      → (j ≡ i → ⊥)
      → s.links j ≡ some k
      → k.queue ≡ true
      → IsTaken k.node t)
    (own : (l : Link) → v ≡ some l → l.queue ≡ true → IsTaken l.node t)
    (alone : (l : Link)
      → v ≡ some l
      → l.queue ≡ true
      → (j : ℕ) (k : Link) → s.links j ≡ some k
      → k.queue ≡ true
      → k.node ≡ l.node
      → j ≡ i) where
  after-Exclusive : Exclusive (after s i v t)
  after-Exclusive = record {
    taken = λ j k e on. elim (put-cases i j v s.links k e) [
      | inl (_, f) ↦ own k f on
      | inr (other, f) ↦ others j k other f on
    ];
    apart = λ j j' k k' e e' on on' same. elim (put-cases i j v s.links k e) [
      | inl (c, f) ↦ elim (put-cases i j' v s.links k' e') [
        | inl (c', f') ↦ c ∙ sym c'
        | inr (other', f') ↦ c ∙ sym (alone k f on j' k' f' on' (sym same))
      ]
      | inr (other, f) ↦ elim (put-cases i j' v s.links k' e') [
        | inl (c', f') ↦ alone k' f' on' j k f on same ∙ sym c'
        | inr (other', f') ↦ p.apart j j' k k' f f' on on' same
      ]
    ];
  }

some_inj : (l k : Link) → some l ≡ some k → l ≡ k
some_inj l k e = ap (λ o. elim o [ none ↦ l | some x ↦ x ]) e

-- The steps of links.
module _ (env : Env) (s : System) (p : Exclusive s) (i : ℕ) where
  connected-Exclusive : (r : Stream) → Exclusive (after s i (some (new_link r)) s.server)
  connected-Exclusive r =
      after-Exclusive s i (some (new_link r)) s.server p (λ j k _ e on. p.taken j k e on)
        (λ l e on. absurd (offline l e on)) (λ l e on. absurd (offline l e on))
    where
      offline : (l : Link) → some (new_link r) ≡ some l → l.queue ≡ true → ⊥
      offline l e on =
          let off : (new_link r).queue ≡ l.queue = ap (λ x. x.queue) (some_inj (new_link r) l e) in
          ground (arith, off, on)

  module _ (l : Link) (there : s.links i ≡ some l) where
    handled-Exclusive :
        (l' : Link) (t : Server) → Owned l s.server l' t → Exclusive (after s i (some l') t)
    handled-Exclusive l' t o =
        after-Exclusive s i (some l') t p (λ j k _ e on. o.grows k.node (p.taken j k e on))
          (λ k e. subst Own (some_inj l' k e) (λ on. (o.owned on).0))
          (λ k e. subst Alone (some_inj l' k e) alone)
      where
        Own : Link → Type 0
        Own k = k.queue ≡ true → IsTaken k.node t

        Alone : Link → Type 0
        Alone k =
            k.queue ≡ true
            → (j : ℕ) (k' : Link) → s.links j ≡ some k'
            → k'.queue ≡ true
            → k'.node ≡ k.node
            → j ≡ i

        alone : Alone l'
        alone on j k f on' same = elim (o.owned on).1 [
          | inl (was, node) ↦ p.apart j i k l f there on' was (same ∙ sym node)
          | inr fresh ↦ absurd (fresh (subst (λ n. IsTaken n s.server) same (p.taken j k f on')))
        ]

    received-Exclusive :
        (r : Stream) → Exclusive (after s i (some (record l { stream = r })) s.server)
    received-Exclusive r =
        handled-Exclusive (record l { stream = r }) s.server
          (record { grows = λ n k. k; owned = λ e. (p.taken i l there e, inl (e, refl)) })

    ended-Exclusive : (q : Quit) → Exclusive (ending env s i l q)
    ended-Exclusive q =
        let t = (end_link env q (record { link = l; server = s.server })).1.server in
        after-Exclusive s i none t p
          (λ j k other e on.
            end_link-Taken env k.node q (record { link = l; server = s.server })
              (λ has same. other (p.apart j i k l e there on has (sym same))) (p.taken j k e on))
          (λ k e. absurd (ground (arith, e))) (λ k e. absurd (ground (arith, e)))

-- In every state that the system reaches, a link with a queue has its node's, and two links with
-- queues have different nodes.
pub Reached-Exclusive : (env : Env) (s : System) → Reached env s → Exclusive s
Reached-Exclusive env _ (boots t) = record {
  taken = λ i l e. absurd (ground (arith, e));
  apart = λ i j l k e. absurd (ground (arith, e));
}
Reached-Exclusive env _ (connects s i r free d) =
    connected-Exclusive env s (Reached-Exclusive env s d) i r
Reached-Exclusive env _ (receives s i l r there d) =
    received-Exclusive env s (Reached-Exclusive env s d) i l there r
Reached-Exclusive env _ (handles s i l space h bytes there d) =
    let p = Reached-Exclusive env s d in
    let before : State = record { link = l; server = s.server } in
    let t = (handle_msg env space h bytes before).1 in
    handled-Exclusive env s p i l there t.link t.server
      (handle_msg-Owned env space h bytes before (p.taken i l there))
Reached-Exclusive env _ (ends s i l q there d) =
    ended-Exclusive env s (Reached-Exclusive env s d) i l there q
Reached-Exclusive env _ (runs s n q q' st there same d) =
    let p = Reached-Exclusive env s d in
    record {
      taken = λ i l e on.
          set_queue-Grows n q q' s.server (rw (there, queue_in) refl) (λ h. same ∙ h) l.node
            (p.taken i l e on);
      apart = p.apart;
    }
