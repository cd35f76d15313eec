-- ===== src/Qlib/Link.antt =====
-- qlib/qlib.go, _runLink: the reads of a link, the messages that they bring, and its end.
pub mod Rounds
pub mod Pieces
pub mod Cuts
pub mod End
pub mod Reaches
mod Tests
use mnm.Prelude.{
  ℕ, zero, suc, ◌+◌, ◌-◌, Bool, true, false, not, ◌&&◌, Option, none, some, List, [], ◌∷◌, ◌++◌,
  Text, text, length, take, drop, is_empty, leb, if◌then◌else◌,
}
use mnm.UserDb.Users.{open_nodes, close_nodes}
use mnm.Qlib.Header.{Header}
use mnm.Qlib.Quit.{
  Quit, QuitOp, eof, fail, quit, quit_op, quit_error, msg_eof, msg_tls_record, msg_fail, msg_conn,
}
use mnm.Qlib.Op.{Ending, net_error, tls_error, other_error, Result, Op, pure, crash, ◌>>=◌, ◌>>◌}
use mnm.Qlib.Stream.{Stream}
use mnm.Qlib.Frame.{Step, waits, quits, panics, again, parse}
use mnm.Qlib.Presence.{unref}
use mnm.Qlib.Server.{
  string, Msg, Server, Link, State, Env, in_db, ignoring_error, Tried, worked, failed, try, get,
  on_server, write_msg,
}
use mnm.Qlib.Nodes.{unlink}
use mnm.Qlib.Handle.{Handler}
use mnm.Qlib.Handle.Edit.{send_ohi}
use mnm.Qlib.Handle.Dispatch.{handle_msg}

-- len(aBuf): kMsgHeaderMaxLen+4
abbrev pub buf_max : ℕ
buf_max = 0x10004

-- What one read gives: bytes and the stream that is left, or no more.
pub data Read : Type 0 where
  got : Text → List Text → Read
  broken : Read

-- o.Read(aBuf[aPos:]): a piece, or as much of it as there is room for.
unfoldable pub read_piece : ℕ → List Text → Read
read_piece room [] = broken
read_piece room (p ∷ ps) =
    if leb (length p) room then got p ps else got (take room p) (drop room p ∷ ps)

-- The message for a read that fails.
abbrev pub link_quit : Ending → Quit
link_quit Ending.eof = msg_eof
link_quit tls_error = msg_tls_record
link_quit (net_error e) = msg_conn e
link_quit other_error = msg_fail

-- What a state has to read from, for the loop of reads.
pub record Reader (S : Type 0) : Type 0 where
  pub stream_of : S → Stream
  pub with_pieces : List Text → S → S

-- The loop after a read: it goes on, with the bytes and aHeadEnd that it has, or the link ends, or
-- the process panics. `no_fuel` is for a loop of the label Parse that is not over.
pub data ReadTurn (S : Type 0) : Type 0 where
  reads : S → Text → ℕ → ReadTurn S
  ends : Quit → S → ReadTurn S
  dies : ReadTurn S
  no_fuel : ReadTurn S

abbrev pub after_parse : {S : Type 0} → Option (Step S) → ReadTurn S
after_parse none = no_fuel
after_parse (some (waits s buf e)) = reads s buf e
after_parse (some (quits s q)) = ends q s
after_parse (some panics) = dies
after_parse (some (again s buf)) = no_fuel

module _ {S : Type 0} (r : Reader S) (unmarshal : Text → Option Header)
    (handle : ℕ → Header → Text → S → Result (Option Quit) × S) where
  -- A round of the outer loop. Each round of the inner one but the last takes a byte at least from the
  -- buffer, so that one more round than there are bytes is enough.
  unfoldable pub after_read : S → Text → ℕ → Read → ReadTurn S
  after_read s buf e broken = ends (link_quit (r.stream_of s).ending) s
  after_read s buf e (got p ps) =
      after_parse
        (parse unmarshal handle (suc (length (buf ++ p))) (r.with_pieces ps s) (buf ++ p) e)

  unfoldable pub read_turn : S → Text → ℕ → ReadTurn S
  unfolding read_piece after_read
  read_turn s buf e = after_read s buf e (read_piece (buf_max - length buf) (r.stream_of s).pieces)

  -- So many reads, unless the link ends before.
  unfoldable pub run_reads : ℕ → S → Text → ℕ → ReadTurn S
  unfolding read_turn
  run_reads zero s buf e = reads s buf e
  run_reads (suc n) s buf e = elim (read_turn s buf e) [
    | reads s' b e' ↦ run_reads n s' b e'
    | ends q s' ↦ ends q s'
    | dies ↦ dies
    | no_fuel ↦ no_fuel
  ]

-- The stream of a link.
abbrev pub link_reader : Reader State
link_reader = record {
  stream_of = λ s. s.link.stream;
  with_pieces = λ ps s. record s {
    link = record s.link { stream = record { pieces = ps; ending = s.link.stream.ending } };
  };
}

-- aQuitMsg
abbrev pub quit_msg : Quit → Msg
quit_msg q = (text "error", string (quit_error q)) ∷ (text "op", string (text "quit")) ∷ []

abbrev pub is_quit : QuitOp → Bool
is_quit quit = true
is_quit _ = false

-- A link after so many reads: it still reads, or it has ended, in order or by a panic.
pub data Run : Type 0 where
  running : State → Text → ℕ → Run
  ended : Result (Unit {0}) × State → Run
  died : Run

module _ (env : Env) where
  abbrev pub tell_opened : Text → Text → Tried (List Text) → Op Server (Unit {0})
  tell_opened uid to (failed e) = pure tt
  tell_opened uid to (worked nodes) = do
    send_ohi uid false nodes
    ignoring_error tt (in_db (close_nodes env.check_sum to))

  -- Those to tell that the user is gone; one whose record cannot be read is passed over.
  unfoldable pub tell_users : Text → List Text → Op Server (Unit {0})
  unfolding send_ohi
  tell_users uid [] = pure tt
  tell_users uid (to ∷ tos) = do
    r ← try (in_db (open_nodes env.check_sum to))
    tell_opened uid to r
    tell_users uid tos

  -- sOhi.unref, whose users are told.
  unfoldable pub leave_ohi : Text → Op Server (Unit {0})
  unfolding tell_users
  leave_ohi uid s = elim (unref uid s.ohi) [
    | none ↦ crash s
    | some (ohi, tos) ↦ tell_users uid tos (record s { ohi = ohi })
  ]

  -- From the end of the loop on; what is printed is left out, and so is the connection's close.
  unfoldable pub end_link : Quit → Op State (Unit {0})
  unfolding leave_ohi
  end_link q = do
    l ← get (λ s. s.link)
    if l.queue then on_server (unlink l.node) else pure tt
    if is_quit (quit_op q) && not (is_empty l.tmtprev) then write_msg env (quit_msg q) else pure tt
    if l.ohi then on_server (leave_ohi l.uid) else pure tt

  -- The handler of the loop, with the room that the buffer has from aHeadEnd on.
  abbrev pub link_handler : ℕ → Header → Text → Handler
  link_handler e h bytes = handle_msg env (buf_max - e) h bytes

  unfoldable pub finish_link : ReadTurn State → Run
  unfolding end_link
  finish_link (reads s buf e) = running s buf e
  finish_link (ends q s) = ended (end_link q s)
  finish_link dies = died
  finish_link no_fuel = died

  -- _runLink
  unfoldable pub run_link : (Text → Option Header) → ℕ → State → Run
  unfolding run_reads finish_link
  run_link unmarshal n s = finish_link (run_reads link_reader unmarshal link_handler n s [] 0)
