-- ===== src/Qlib/Link/Tests.antt =====
-- The theorems on links at a client that sends a pulse and a post in three pieces, and at the end of
-- the link of a node that is online.
use mnm.Prelude.{
  ℕ, ◌+◌, ◌≡◌, ◌≢◌, refl, Option, none, some, [], ◌∷◌, List, Text, text, arith, length, take, drop,
  eq_text, lookup, if◌then◌else◌,
}
use mnm.Qlib.Header.{pos, Header, zero_header, check}
use mnm.Qlib.Quit.{Quit, msg_logout}
use mnm.Qlib.Op.{Result, ok, eof}
use mnm.Qlib.Stream.{Stream}
use mnm.Qlib.Server.{new_link}
use mnm.Qlib.Frame.Stream.{packed, IsMessage}
use mnm.Qlib.Handle.Dispatch.Gate.{LinkOk}
use mnm.Qlib.Samples.{env, server, online, busy}
use mnm.Qlib.Link.{no_fuel, read_turn, run_reads, link_reader, link_handler, end_link}
use mnm.Qlib.Link.Rounds.{read_turn-ne-no_fuel}
use mnm.Qlib.Link.Cuts.{outcome, cut_reader, copying, Sent, whole}
use mnm.Qlib.Link.Cuts.Reads.{run_reads-whole}
use mnm.Qlib.Nodes.{queue_link}
use mnm.Qlib.Link.End.{end_link-relogin}
use mnm.Qlib.Link.Reaches.{TurnHas, run_reads-LinkOk}

abbrev pulse : Header
pulse = record zero_header { op = 11 }

abbrev post : Header
post = record zero_header {
  op = 7;
  id = text "a";
  data_len = pos 2;
  for_ = some (record { id = text "U"; type = pos 1 } ∷ []);
}

abbrev pulse_head : Text
pulse_head = text "{\"op\":11}"

abbrev post_head : Text
post_head = text "{\"op\":7,\"datalen\":2}"

abbrev unmarshal : Text → Option Header
unmarshal s =
    if eq_text s pulse_head then some pulse else if eq_text s post_head then some post else none

-- Counts the messages and the bytes of data.
abbrev count : Header → Text → ℕ → Result (Option Quit) × ℕ
count h bytes n = (ok none, n + 1000 + length bytes)

pulse-IsMessage : IsMessage unmarshal (copying unmarshal eof count) pulse_head pulse []
unfolding eq_text check
pulse-IsMessage = record {
  read = refl;
  checked = refl;
  sized = refl;
  least = omega arith;
  most = omega arith;
}

post-IsMessage : IsMessage unmarshal (copying unmarshal eof count) post_head post (text "hi")
unfolding eq_text check
post-IsMessage = record {
  read = refl;
  checked = refl;
  sized = refl;
  least = omega arith;
  most = omega arith;
}

abbrev sent : List (Sent unmarshal eof count)
sent =
    record { head = pulse_head; header = pulse; body = []; whole = pulse-IsMessage }
    ∷ record { head = post_head; header = post; body = text "hi"; whole = post-IsMessage }
    ∷ []

abbrev bytes : Text
bytes = packed pulse_head [] (packed post_head (text "hi") [])

abbrev pieces : List Text
pieces = take 7 bytes ∷ take 30 (drop 7 bytes) ∷ drop 37 bytes ∷ []

run_reads-whole_example :
    outcome (
      run_reads
        (cut_reader unmarshal eof count)
        unmarshal
        (copying unmarshal eof count)
        60
        (0, pieces)
        []
        0)
    ≡ some (whole unmarshal eof count sent 0)
run_reads-whole_example =
    run_reads-whole unmarshal eof count 60 sent 0 pieces (omega arith, (omega arith, tt)) refl
      (omega arith)

read_turn-ne-no_fuel_example :
    read_turn
      (cut_reader unmarshal eof count)
      unmarshal
      (copying unmarshal eof count)
      (0, pieces)
      []
      0
    ≢ no_fuel
read_turn-ne-no_fuel_example =
    read_turn-ne-no_fuel unmarshal (copying unmarshal eof count) (cut_reader unmarshal eof count)
      (0, pieces) [] 0

-- The node that has logged out may log in again.
end_link-relogin_example :
    (queue_link env (text "5.01") [] (text "5") (end_link env msg_logout online).1.server).0
    ≢ ok none
unfolding eq_text lookup
end_link-relogin_example = end_link-relogin env msg_logout online busy [] (text "5") refl refl

abbrev arriving : Stream
arriving = record { pieces = pieces; ending = eof }

run_reads-LinkOk_example :
    TurnHas
      (λ s. LinkOk s.link)
      (run_reads link_reader unmarshal
        (link_handler env)
        4
        (record { link = new_link arriving; server = server })
        []
        0)
run_reads-LinkOk_example = run_reads-LinkOk env unmarshal 4 server arriving
