-- ===== src/Qlib/Queue.antt =====
-- qlib/qlib.go, _runQueue, _waitForMsg and _tryOhi: the runner of a node's queue, which sends one
-- message at a time and waits for its ack.
pub mod Acked
mod Tests
use mnm.Prelude.{
  Bool, true, false, Option, none, some, List, [], ◌∷◌, ◌++◌, Text, eq_text, if◌then◌else◌, ℕ,
}
use mnm.Qlib.Op.{Result, ok, err, panic}
use mnm.Qlib.Store.{Store, send_file, rm_link}

-- _waitForMsg, the label WaitConn with a message, and the label RecvAck.
pub data Phase : Type 0 where
  idle : Phase
  ready : Text → Phase
  sent : Text → Phase

-- What the channels do next: the elastic buffer gives a message, a user's presence is to be told,
-- the connection is free and takes the file or fails, an ack comes, the link goes off, the timer ends.
pub data Event : Type 0 where
  message : Text → Event
  presence : Text → Bool → Event
  connected : Bool → Event
  acked : Text → Event
  off : Event
  timeout : Event

-- What is written to the connection: a file, or the presence of a user, which is dropped where no
-- connection is free.
pub data Output : Type 0 where
  file : Text → Output
  ohi : Text → Bool → Output

pub record Runner : Type 0 where
  pub phase : Phase
  pub store : Store

-- The runner goes on, the process panics, or the select does not offer the event.
pub data Turn : Type 0 where
  goes : Runner → List Output → Turn
  crashes : Turn
  not_offered : Turn

abbrev pub add_written : List Output → Turn → Turn
add_written written (goes r more) = goes r (written ++ more)
add_written written crashes = crashes
add_written written not_offered = not_offered

abbrev pub continues : Turn → (Runner → Turn) → Turn
continues (goes r written) next = add_written written (next r)
continues crashes next = crashes
continues not_offered next = not_offered

-- sendFile into a connection that takes the file, or not.
unfoldable pub try_send : Text → Bool → Store → Result Text → Turn
try_send m true s (ok bytes) = goes (record { phase = sent m; store = s }) (file bytes ∷ [])
try_send m false s (ok bytes) = goes (record { phase = ready m; store = s }) []
try_send m works s (err e) = crashes
try_send m works s panic = crashes

-- The ack of a message names it without its first byte, its priority.
unfoldable pub take_ack : Text → Text → Text → Store → Turn
take_ack node [] id s = crashes
take_ack node (prio ∷ m) id s =
    if eq_text id m
    then goes (record { phase = idle; store = (rm_link node (prio ∷ m) s).1 }) []
    else goes (record { phase = sent (prio ∷ m); store = s }) []

module _ (node : Text) where
  -- The selects of the three places.
  unfoldable pub turn : Phase → Event → Store → Turn
  unfolding try_send take_ack
  turn idle (message m) s = goes (record { phase = ready m; store = s }) []
  turn phase (presence from on) s = goes (record { phase = phase; store = s }) (ohi from on ∷ [])
  turn (ready m) (connected works) s = try_send m works s (send_file node m s).0
  turn (sent m) (acked id) s = take_ack node m id s
  turn (sent m) off s = goes (record { phase = ready m; store = s }) []
  turn (sent m) timeout s = goes (record { phase = ready m; store = s }) []
  turn phase e s = not_offered

  -- A run over events that are offered in this order, with all that is written.
  unfoldable pub turns : List Event → Runner → Turn
  unfolding turn
  turns [] r = goes r []
  turns (e ∷ es) r = continues (turn r.phase e r.store) (λ r'. turns es r')
