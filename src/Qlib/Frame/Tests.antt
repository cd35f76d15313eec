-- ===== src/Qlib/Frame/Tests.antt =====
-- The theorems on messages at a pulse, at a post with two bytes of data, and at an overlong post.
use mnm.Prelude.{
  ℕ, ◌+◌, ◌≡◌, refl, true, Option, none, some, [], ◌∷◌, List, Text, text, arith, length, eq_text,
  if◌then◌else◌,
}
use mnm.Qlib.Header.{ℤ, pos, Header, zero_header, check}
use mnm.Qlib.Header.Bounds.{Holds, check-Holds}
use mnm.Qlib.Quit.{Quit}
use mnm.Qlib.Op.{Result, ok}
use mnm.Qlib.Frame.{step, parse, panics}
use mnm.Qlib.Frame.Stream.{packed, IsMessage, Message, stream, serve, parse-stream}
use mnm.Qlib.Frame.Overflow.{IsOverlong, step-overlong}

abbrev pulse : Header
pulse = record zero_header { op = 11 }

abbrev post : ℤ → Header
post n = record zero_header {
  op = 7;
  id = text "a";
  data_len = n;
  for_ = some (record { id = text "U"; type = pos 1 } ∷ []);
}

abbrev pulse_head : Text
pulse_head = text "{\"op\":11}"

abbrev post_head : Text
post_head = text "{\"op\":7,\"datalen\":2}"

abbrev overlong_head : Text
overlong_head = text "{\"op\":7,\"datalen\":9223372036854775807}"

-- Reads these three headers.
abbrev unmarshal : Text → Option Header
unmarshal s =
    if eq_text s pulse_head
    then some pulse
    else if eq_text s post_head
    then some (post (pos 2))
    else if eq_text s overlong_head
    then some (post (pos 0x7FFFFFFFFFFFFFFF))
    else none

-- Counts the messages and the bytes of data.
abbrev handle : ℕ → Header → Text → ℕ → Result (Option Quit) × ℕ
handle e h bytes n = (ok none, n + 1000 + length bytes)

pulse-IsMessage : IsMessage unmarshal handle pulse_head pulse []
unfolding eq_text check
pulse-IsMessage = record {
  read = refl;
  checked = refl;
  sized = refl;
  least = omega arith;
  most = omega arith;
}

post-IsMessage : IsMessage unmarshal handle post_head (post (pos 2)) (text "hi")
unfolding eq_text check
post-IsMessage = record {
  read = refl;
  checked = refl;
  sized = refl;
  least = omega arith;
  most = omega arith;
}

post-IsOverlong :
    IsOverlong unmarshal handle overlong_head (post (pos 0x7FFFFFFFFFFFFFFF)) 0x7FFFFFFFFFFFFFFF
unfolding eq_text check
post-IsOverlong = record {
  read = refl;
  checked = refl;
  claimed = refl;
  in_range = omega arith;
  past = omega arith;
  least = omega arith;
  most = omega arith;
}

abbrev sent : List (Message unmarshal handle)
sent =
    record { head = pulse_head; header = pulse; body = []; whole = pulse-IsMessage }
    ∷ record { head = post_head; header = post (pos 2); body = text "hi"; whole = post-IsMessage }
    ∷ []

parse-stream_example :
    parse unmarshal handle 3 0 (stream unmarshal handle sent) 0
    ≡ some (serve unmarshal handle sent 0)
parse-stream_example = parse-stream unmarshal handle sent 0 (omega arith)

step-overlong_example : step unmarshal handle 0 (packed overlong_head (text "x") []) 0 ≡ panics
step-overlong_example = step-overlong unmarshal handle post-IsOverlong b'x' [] 0

post-checked : check (post (pos 2)) ≡ true
unfolding eq_text check
post-checked = refl

check-Holds_example : Holds (pos 2) (pos 0) × Holds (pos 0) (pos 0)
check-Holds_example = check-Holds (post (pos 2)) post-checked
