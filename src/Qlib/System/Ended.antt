-- ===== src/Qlib/System/Ended.antt =====
-- What the end of a link does to the queues that are taken.
use mnm.Prelude.{
  Option-cases, ◌≡◌, inl, inr, refl, Bool, true, false, Bool-cases, Text, lookup-insert, eq_text,
  eq_of_eq_text, if◌then◌else◌, not, ◌&&◌, is_empty,
}
use mnm.Qlib.Quit.{Quit, quit_op}
use mnm.Qlib.Op.{Op, ◌>>◌, pure}
use mnm.Qlib.Server.{Server, Link, State, Env, on_server, write_msg}
use mnm.Qlib.Nodes.{queue_in, unlink}
use mnm.Qlib.Nodes.Exclusive.{IsTaken}
use mnm.Qlib.Stable.{
  Writes, Serves, Keeps, bind-Keeps, continue-Keeps, if-Keeps, pure-Keeps, on_server-Keeps,
  write_msg-Keeps,
}
use mnm.Qlib.Link.{quit_msg, is_quit, leave_ohi, end_link}
use mnm.Qlib.System.Calls.{leave_ohi-Growing}

-- The unlink of one node's queue leaves the others as they are.
unlink-others : (n n' : Text) (s : Server) → (n ≡ n' → ⊥) → IsTaken n' s → IsTaken n' (unlink n s).1
unfolding unlink
unlink-others n n' s other (q, (e, c)) = elim (Option-cases (queue_in n s.nodes)) [
  | inl f ↦ rw (f, unlink) (q, (e, c))
  | inr (q', f) ↦ elim (Bool-cases (eq_text n n')) [
    | inl k ↦ absurd (other (eq_of_eq_text n n' k))
    | inr k ↦ rw (f, unlink) (q, (rw lookup-insert (rw k e), c))
  ]
]

module _ (env : Env) (n : Text) where
  abbrev Taken : Link → Server → Type 0
  Taken l t = IsTaken n t

  writes-Taken : Writes Taken
  writes-Taken l t w p = p

  serves-Taken : Serves Taken
  serves-Taken l s t g p = g n p

  unlinks-Taken :
      (l : Link) (has : Bool) (s : State)
      → (has ≡ true → l.node ≡ n → ⊥)
      → IsTaken n s.server
      → IsTaken n ((if has then on_server (unlink l.node) else pure tt) s).1.server
  unlinks-Taken l false s other p = p
  unlinks-Taken l true s other p = unlink-others l.node n s.server (other refl) p

  -- The end of a link leaves each other node's queue taken.
  pub end_link-Taken :
      (q : Quit) (s : State)
      → (s.link.queue ≡ true → s.link.node ≡ n → ⊥)
      → IsTaken n s.server
      → IsTaken n (end_link env q s).1.server
  unfolding end_link
  end_link-Taken q s other p =
      let l = s.link in
      let tells = is_quit (quit_op q) && not (is_empty l.tmtprev) in
      let left : Op State (Unit {0}) = if l.ohi then on_server (leave_ohi env l.uid) else pure tt in
      let left-Taken : Keeps Taken left =
        if-Keeps Taken l.ohi (on_server (leave_ohi env l.uid)) (pure tt)
          (on_server-Keeps Taken serves-Taken (leave_ohi env l.uid) (leave_ohi-Growing env l.uid))
          (pure-Keeps {0} Taken tt) in
      let told : Op State (Unit {0}) = if tells then write_msg env (quit_msg q) else pure tt in
      let told-Taken : Keeps Taken told =
        if-Keeps Taken tells (write_msg env (quit_msg q)) (pure tt)
          (write_msg-Keeps Taken env (quit_msg q) writes-Taken) (pure-Keeps {0} Taken tt) in
      continue-Keeps Taken ((if l.queue then on_server (unlink l.node) else pure tt) s)
        (λ _. told >> left) (λ _. bind-Keeps Taken told (λ _. left) told-Taken (λ _. left-Taken))
        (unlinks-Taken l l.queue s other p)
