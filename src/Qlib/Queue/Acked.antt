-- ===== src/Qlib/Queue/Acked.antt =====
-- A message keeps its link until its ack comes, and then the runner is free for the next.
use mnm.Prelude.{
  ℕ, ◌≡◌, refl, Bool, true, false, not, none, some, List, [], ◌∷◌, Text, all, lookup, delete,
  insert, lookup-insert, lookup-delete, eq_text, eq_text_refl, arith,
}
use mnm.UserDb.Model.{or_zero}
use mnm.Qlib.Op.{ok}
use mnm.Qlib.Store.{Store, get_elem?, with_dir, dir_of, node_sub, send_file, rm_link}
use mnm.Qlib.Queue.{
  Phase, idle, ready, sent, Event, message, presence, connected, acked, off, timeout, Output,
  Runner, Turn, goes, crashes, not_offered, add_written, continues, try_send, take_ack, turn, turns,
}

-- The event is not an ack that names the message `id`.
abbrev pub spares : Text → Event → Bool
spares id (acked i) = not (eq_text i id)
spares id _ = true

-- The message is the runner's.
pub data InHand (m : Text) : Phase → Type 0 where
  is_ready : InHand m (ready m)
  is_sent : InHand m (sent m)

-- And its link, to the file `f`, is in the node's directory.
abbrev pub Held : Text → Text → ℕ → Runner → Type 0
Held dir m f r = InHand m r.phase × (lookup m (dir_of dir r.store) ≡ some f)

-- The events that are offered end with the message held, and without a panic.
abbrev pub HeldAfter : Text → Text → ℕ → Turn → Type 0
HeldAfter dir m f (goes r written) = Held dir m f r
HeldAfter dir m f crashes = true ≡ false
HeldAfter dir m f not_offered = Unit {0}

module _ (node dir : Text) (known : node_sub node ≡ some dir) (prio : ℕ) (id : Text) (f : ℕ) where
  -- The link is there to be sent.
  send_file-there :
      (s : Store)
      → lookup (prio ∷ id) (dir_of dir s) ≡ some f
      → (b : Text) × ((send_file node (prio ∷ id) s).0 ≡ ok b)
  unfolding send_file
  send_file-there s h =
      (or_zero [] (get_elem? s.files f), rw (known, send_file) (rw (h, with_dir) refl))

  try_send-Held :
      (works : Bool) (s : Store) (b : Text)
      → lookup (prio ∷ id) (dir_of dir s) ≡ some f
      → HeldAfter dir (prio ∷ id) f (try_send (prio ∷ id) works s (ok b))
  unfolding try_send
  try_send-Held true s b h = (is_sent, h)
  try_send-Held false s b h = (is_ready, h)

  turn-Held :
      (p : Phase) (e : Event) (s : Store)
      → InHand (prio ∷ id) p
      → lookup (prio ∷ id) (dir_of dir s) ≡ some f
      → spares id e ≡ true
      → HeldAfter dir (prio ∷ id) f (turn node p e s)
  unfolding turn take_ack
  turn-Held _ (message m) s is_ready h g = tt
  turn-Held _ (presence from on) s is_ready h g = (is_ready, h)
  turn-Held _ (connected works) s is_ready h g =
      let (b, e) = send_file-there s h in rw e (try_send-Held works s b h)
  turn-Held _ (acked i) s is_ready h g = tt
  turn-Held _ off s is_ready h g = tt
  turn-Held _ timeout s is_ready h g = tt
  turn-Held _ (message m) s is_sent h g = tt
  turn-Held _ (presence from on) s is_sent h g = (is_sent, h)
  turn-Held _ (connected works) s is_sent h g = tt
  turn-Held _ (acked i) s is_sent h g =
      let other : eq_text i id ≡ false = ground arith in rw other (is_sent, h)
  turn-Held _ off s is_sent h g = (is_ready, h)
  turn-Held _ timeout s is_sent h g = (is_ready, h)

  turns-Held :
      (es : List Event) (r : Runner)
      → Held dir (prio ∷ id) f r
      → all (spares id) es ≡ true
      → HeldAfter dir (prio ∷ id) f (turns node es r)
  unfolding turns
  turns-Held [] r h g = h
  turns-Held (e ∷ es) r h g =
      continued (turn node r.phase e r.store) (turn-Held r.phase e r.store h.0 h.1 (ground arith))
        (λ r' k. turns-Held es r' k (ground arith))
    where
      written-Held :
          (w : List Output) (t : Turn)
          → HeldAfter dir (prio ∷ id) f t
          → HeldAfter dir (prio ∷ id) f (add_written w t)
      written-Held w (goes r more) h = h
      written-Held w crashes h = h
      written-Held w not_offered h = h

      continued :
          (t : Turn)
          → HeldAfter dir (prio ∷ id) f t
          → ((r' : Runner)
              → Held dir (prio ∷ id) f r'
              → HeldAfter dir (prio ∷ id) f (turns node es r'))
          → HeldAfter dir (prio ∷ id) f (continues t (turns node es))
      continued (goes r' w) h k = written-Held w (turns node es r') (k r' h)
      continued crashes h k = h
      continued not_offered h k = tt

  -- The link is gone and the runner waits for the next message.
  abbrev pub Delivered : Turn → Type 0
  Delivered (goes r written) = (r.phase ≡ idle) × (lookup (prio ∷ id) (dir_of dir r.store) ≡ none)
  Delivered crashes = true ≡ false
  Delivered not_offered = true ≡ false

  -- What is still to come for a message that is held.
  abbrev pub finish : Phase → List Event
  finish (ready m) = connected true ∷ acked id ∷ []
  finish (sent m) = acked id ∷ []
  finish idle = []

  add_written-Delivered : (w : List Output) (t : Turn) → Delivered t → Delivered (add_written w t)
  add_written-Delivered w (goes r more) d = d
  add_written-Delivered w crashes d = d
  add_written-Delivered w not_offered d = d

  unlinked : Store → Store
  unlinked s = record s { dirs = insert dir (delete (prio ∷ id) (dir_of dir s)) s.dirs }

  rm_link-there :
      (s : Store)
      → lookup (prio ∷ id) (dir_of dir s) ≡ some f
      → rm_link node (prio ∷ id) s ≡ (ok tt, unlinked s)
  unfolding rm_link unlinked
  rm_link-there s h = rw (known, rm_link) (rw (h, with_dir) refl)

  unlinked-none : (s : Store) → lookup (prio ∷ id) (dir_of dir (unlinked s)) ≡ none
  unfolding unlinked
  unlinked-none s = rw (lookup-insert dir dir (delete (prio ∷ id) (dir_of dir s)) s.dirs) (
      rw (eq_text_refl dir) (
        rw (lookup-delete (prio ∷ id) (prio ∷ id) (dir_of dir s))
          (rw (eq_text_refl (prio ∷ id)) refl)))

  ack-Delivered :
      (s : Store)
      → lookup (prio ∷ id) (dir_of dir s) ≡ some f
      → Delivered (take_ack node (prio ∷ id) id s)
  unfolding take_ack
  ack-Delivered s h = rw (eq_text_refl id) (rw (rm_link-there s h) (refl, unlinked-none s))

  sent-Delivered :
      (s : Store)
      → lookup (prio ∷ id) (dir_of dir s) ≡ some f
      → Delivered (turns node (acked id ∷ []) (record { phase = sent (prio ∷ id); store = s }))
  unfolding turns turn
  sent-Delivered s h = last (take_ack node (prio ∷ id) id s) (ack-Delivered s h)
    where
      last : (t : Turn) → Delivered t → Delivered (continues t (turns node []))
      last (goes r w) d = d
      last crashes d = d
      last not_offered d = d

  ready-Delivered :
      (s : Store)
      → lookup (prio ∷ id) (dir_of dir s) ≡ some f
      → Delivered (
          turns node
            (connected true ∷ acked id ∷ [])
            (record { phase = ready (prio ∷ id); store = s }))
  unfolding turns turn try_send
  ready-Delivered s h =
      let (b, e) = send_file-there s h in
      rw e (
        add_written-Delivered (Output.file b ∷ [])
          (turns node (acked id ∷ []) (record { phase = sent (prio ∷ id); store = s }))
          (sent-Delivered s h))

  abbrev pub DeliverableAfter : Turn → Type 0
  DeliverableAfter (goes r written) = Delivered (turns node (finish r.phase) r)
  DeliverableAfter crashes = true ≡ false
  DeliverableAfter not_offered = Unit {0}

  held-Delivered :
      (p : Phase) (s : Store)
      → InHand (prio ∷ id) p
      → lookup (prio ∷ id) (dir_of dir s) ≡ some f
      → Delivered (turns node (finish p) (record { phase = p; store = s }))
  held-Delivered _ s is_ready h = ready-Delivered s h
  held-Delivered _ s is_sent h = sent-Delivered s h

  -- While the runner has a message whose link is in the node's directory, no events but an ack that
  -- names it lose the message or end in a panic: after them a connection that takes the file, if it
  -- is not sent already, and then the ack, remove the link and leave the runner free.
  pub turns-DeliverableAfter :
      (es : List Event) (r : Runner)
      → Held dir (prio ∷ id) f r
      → all (spares id) es ≡ true
      → DeliverableAfter (turns node es r)
  turns-DeliverableAfter es r h g = after (turns node es r) (turns-Held es r h g)
    where
      after : (t : Turn) → HeldAfter dir (prio ∷ id) f t → DeliverableAfter t
      after (goes r w) h = held-Delivered r.phase r.store h.0 h.1
      after crashes h = h
      after not_offered h = tt
