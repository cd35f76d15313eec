-- ===== src/Qlib/Handle.antt =====
-- qlib/qlib.go, _handleMsg: what a link does with a message.
pub mod Register
pub mod Edit
pub mod Group
pub mod Kept
pub mod Dispatch
use mnm.Prelude.{
  ℕ, Bool, true, false, not, Option, none, some, List, [], ◌∷◌, ◌++◌, Text, text, is_empty,
  if◌then◌else◌,
}
use mnm.Qlib.Header.{pos, Header, HeaderFor, for_user}
use mnm.Qlib.Quit.{Quit}
use mnm.Qlib.Op.{Fault, Op, pure, crash, ◌>>=◌, ◌>>◌}
use mnm.Qlib.Ping.{Checked, passes, refuses, crashes, check_ping}
use mnm.Qlib.Server.{Tried, worked, failed, State, Env, get, on_link}
use mnm.Qlib.Nodes.{ack_asap}

-- A handler: the message that ends the link, if it does.
abbrev pub Handler : Type 0
Handler = Op State (Option Quit)

abbrev pub goes_on : Handler
goes_on = pure none

abbrev pub quits : Quit → Handler
quits q = pure (some q)

-- kAliasMinLen
abbrev pub alias_min_len : ℕ
alias_min_len = 8

abbrev pub to_user : Text → Option (List HeaderFor)
to_user uid = some (record { id = uid; type = for_user } ∷ [])

abbrev pub fault_of {ℓ} : {A : Type ℓ} → Tried A → Option Fault
fault_of (worked a) = none
fault_of (failed e) = some e

abbrev pub after_check : (Text → Handler) → Checked → Handler
after_check next (refuses q) = quits q
after_check next crashes = crash
after_check next (passes b left) = do
  on_link (λ l. record l { stream = record { pieces = left; ending = l.stream.ending } })
  next b

-- The data of a ping, checked; `space` is the room of the buffer from the data's start.
unfoldable pub with_ping : ℕ → Header → Text → (Text → Handler) → Handler
with_ping space h bytes next = do
  s ← get (λ s. s.link.stream)
  after_check next (check_ping space h.data_len bytes s)

-- An answer to the request `id`.
abbrev pub answer : Env → Text → Text → Text → Option Fault → Handler
answer env id mid posted e = do ack_asap env id mid posted e; goes_on
