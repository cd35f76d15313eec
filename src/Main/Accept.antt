-- ===== src/Main/Accept.antt =====
-- main.go, startServer: the loop that accepts connections, and its pauses.
use mnm.Prelude.{
  ℕ, zero, suc, ◌*◌, ◌≡◌, Bool, true, not, ◌||◌, Option, none, some, List, [], ◌∷◌, ◌++◌, Text,
  text, length, take, eq_text, ltb, if◌then◌else◌,
}

-- kPauseMin and kPauseMax, in nanoseconds.
abbrev pub pause_min : ℕ
pause_min = 1000000

abbrev pub pause_max : ℕ
pause_max = 1000000000

-- An error of Accept: whether it is a net.Error, whether that is temporary, and its text.
pub record AcceptError : Type 0 where
  pub net : Bool
  pub temporary : Bool
  pub error : Text

-- What one call of Accept gives.
pub data AcceptEvent : Type 0 where
  connects : ℕ → AcceptEvent
  fails : AcceptError → AcceptEvent

-- What the loop does: it starts a link, sleeps, or suspends the links for good.
pub data Act : Type 0 where
  new_link : ℕ → Act
  sleep : ℕ → Act
  suspend : Act

-- The loop still accepts, with its pause; or it has returned an error or nil; or the assertion that an
-- error is a net.Error has panicked.
pub data Ended : Type 0 where
  accepting : ℕ → Ended
  returned : Option Text → Ended
  panicked : Ended

pub record Served : Type 0 where
  pub acts : List Act
  pub ended : Ended

abbrev pub after_act : Act → Served → Served
after_act a s = record { acts = a ∷ s.acts; ended = s.ended }

-- strings.Contains
unfoldable pub contains : Text → Text → Bool
contains [] x = eq_text [] x
contains (c ∷ s) x = eq_text (take (length x) (c ∷ s)) x || contains s x

abbrev pub closed_text : Text
closed_text = text "use of closed network connection"

abbrev pub stopped_loop : AcceptError → Served
stopped_loop e = record {
  acts = suspend ∷ [];
  ended = returned (if contains e.error closed_text then none else some e.error);
}

abbrev pub limited : ℕ → ℕ
limited pause = if ltb pause_max pause then pause_max else pause

-- The answer to an error, where `next` is the loop at a pause.
abbrev pub failing : AcceptError → ℕ → (ℕ → Served) → Served
failing e pause next =
    if not e.net
    then record { acts = []; ended = panicked }
    else if not e.temporary
    then stopped_loop e
    else after_act (sleep (limited pause)) (next (limited pause * 2))

-- The loop over what Accept gives.
unfoldable pub accept_loop : ℕ → List AcceptEvent → Served
unfolding contains
accept_loop pause [] = record { acts = []; ended = accepting pause }
accept_loop pause (connects c ∷ es) = after_act (new_link c) (accept_loop pause_min es)
accept_loop pause (fails e ∷ es) = failing e pause (λ p. accept_loop p es)

-- The error of net.Listen or of tls.LoadX509KeyPair, or the loop.
abbrev pub started_loop : Option Text → Option Text → List AcceptEvent → Served
started_loop (some e) cert es = record { acts = []; ended = returned (some e) }
started_loop none (some e) es = record { acts = []; ended = returned (some e) }
started_loop none none es = accept_loop pause_min es

-- startServer
unfoldable pub start_server : Option Text → Option Text → List AcceptEvent → Served
unfolding accept_loop
start_server listen cert es = started_loop listen cert es

-- Errors after which the loop goes on.
abbrev pub IsTemporary : AcceptError → Type 0
IsTemporary e = (e.net ≡ true) × (e.temporary ≡ true)

-- Sleeps that double, each cut to a second.
abbrev pub backoff : ℕ → ℕ → List Act
backoff pause zero = []
backoff pause (suc n) = sleep (limited pause) ∷ backoff (pause * 2) n

-- The acts of a run, put before those of another.
abbrev pub before : List Act → Served → Served
before acts s = record { acts = acts ++ s.acts; ended = s.ended }
