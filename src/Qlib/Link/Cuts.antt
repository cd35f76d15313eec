-- ===== src/Qlib/Link/Cuts.antt =====
-- A link whose handler copies the data of a message that have not come yet, as recvFile does: what it
-- makes of the messages that the client sends, whole.
pub mod Arriving
pub mod Copied
pub mod Reads
use mnm.Prelude.{ℕ, ◌+◌, ◌-◌, ◌<◌, ◌≡◌, ◌⊎◌, Option, none, some, List, [], ◌∷◌, ◌++◌, Text, length}
use mnm.Qlib.Header.{Header}
use mnm.Qlib.Quit.{Quit}
use mnm.Qlib.Op.{Ending, Result, ok, err, panic}
use mnm.Qlib.Stream.{copy_pieces}
use mnm.Qlib.Ping.{to_nat}
use mnm.Qlib.Frame.Stream.{Message, stream}
use mnm.Qlib.Link.{Reader, ReadTurn, reads, ends, dies, no_fuel, link_quit}

-- How a link comes to its end.
pub data Outcome (T : Type 0) : Type 0 where
  closed : Quit → T → Outcome T
  crashed : Outcome T

module _ {T : Type 0} where
  abbrev pub outcome : ReadTurn (T × List Text) → Option (Outcome T)
  outcome (ends q s) = some (closed q s.0)
  outcome dies = some crashed
  outcome (reads s buf e) = none
  outcome no_fuel = none

  -- What follows an answer, where `next` follows it if the link goes on.
  abbrev pub follow : (T → Outcome T) → Result (Option Quit) × T → Outcome T
  follow next (ok (some q), t) = closed q t
  follow next (ok none, t) = next t
  follow next (err f, t) = crashed
  follow next (panic, t) = crashed

  abbrev pub with_left :
      List Text → Result (Option Quit) × T → Result (Option Quit) × (T × List Text)
  with_left ps r = (r.0, (r.1, ps))

module _ {T : Type 0} (unmarshal : Text → Option Header) (ending : Ending)
    (answer : Header → Text → T → Result (Option Quit) × T) where
  abbrev pub cut_reader : Reader (T × List Text)
  cut_reader = record {
    stream_of = λ s. record { pieces = s.1; ending = ending };
    with_pieces = λ ps s. (s.0, ps);
  }

  -- The handler, which answers a message by its whole data.
  abbrev pub copying : ℕ → Header → Text → T × List Text → Result (Option Quit) × (T × List Text)
  copying e h bytes s =
      let c = copy_pieces (to_nat h.data_len - length bytes) s.1 in
      with_left c.2 (answer h (bytes ++ c.0) s.0)

  abbrev pub Sent : Type 0
  Sent = Message unmarshal copying

  -- The messages answered one after the other, until one ends the link or there are no more.
  abbrev pub whole : List Sent → T → Outcome T
  whole [] t = closed (link_quit ending) t
  whole (m ∷ ms) t = follow (whole ms) (answer m.header m.body t)

  -- No body reaches 2 ^ 62 bytes.
  abbrev pub AreSized : List Sent → Type 0
  AreSized [] = Unit {0}
  AreSized (m ∷ ms) = (length m.body < 0x4000000000000000) × AreSized ms

  -- The bytes in the buffer and those to come are the messages, and aHeadEnd is that of the first, or
  -- not known yet.
  abbrev pub IsAt : List Sent → Text → ℕ → Text → Type 0
  IsAt [] buf e rest = (buf ++ rest ≡ []) × (e ≡ 0)
  IsAt (m ∷ ms) buf e rest =
      (buf ++ rest ≡ stream unmarshal copying (m ∷ ms)) × ((e ≡ 0) ⊎ (e ≡ length m.head + 4))

  -- The buffer does not hold the first message's header whole.
  abbrev pub IsPart : List Sent → Text → Type 0
  IsPart [] buf = Unit {0}
  IsPart (m ∷ ms) buf = length buf < length m.head + 4
