-- ===== src/Qlib/Queue/Tests.antt =====
-- A node with one message, which is sent again after a timeout.
use mnm.Prelude.{
  ◌≡◌, refl, true, none, some, List, [], ◌∷◌, Text, text, Dict, lookup, insert, delete, eq_text,
}
use mnm.Qlib.Store.{Store, dir_of, node_sub, send_file}
use mnm.Qlib.Queue.{
  Event, connected, acked, timeout, presence, idle, ready, Runner, goes, file, ohi, turn, turns,
  try_send, take_ack,
}
use mnm.Qlib.Queue.Acked.{DeliverableAfter, is_ready, turns-DeliverableAfter}

abbrev one_message : Store
one_message = record {
  next_id = 1;
  temp = [];
  dirs = (text "u234.01", (text "M1", 0) ∷ []) ∷ [];
  files = text "hello" ∷ [];
}

abbrev runner : Runner
runner = record { phase = ready (text "M1"); store = one_message }

abbrev noise : List Event
noise = connected true ∷ acked (text "0") ∷ presence (text "V") true ∷ timeout ∷ []

sub : node_sub (text "U234.01") ≡ some (text "u234.01")
unfolding node_sub
sub = refl

held_through :
    turns (text "U234.01") noise runner
    ≡ goes runner (file (text "hello") ∷ ohi (text "V") true ∷ [])
unfolding turns turn try_send take_ack send_file node_sub lookup eq_text
held_through = refl

there : lookup (text "M1") (dir_of (text "u234.01") one_message) ≡ some 0
unfolding lookup eq_text
there = refl

spared : mnm.Prelude.all (mnm.Qlib.Queue.Acked.spares (text "1")) noise ≡ true
unfolding eq_text
spared = refl

turns-DeliverableAfter_example :
    DeliverableAfter
      (text "U234.01")
      (text "u234.01")
      sub
      b'M'
      (text "1")
      0
      (turns (text "U234.01") noise runner)
unfolding lookup eq_text
turns-DeliverableAfter_example =
    turns-DeliverableAfter (text "U234.01") (text "u234.01") sub b'M' (text "1") 0 noise runner
      (is_ready, there) spared
