-- ===== src/Main/Tests.antt =====
-- The theorems on main.go at two hosts of which the second answers, and at two errors of Accept.
use mnm.Prelude.{
  ℕ, ◌≡◌, refl, true, false, Option, none, some, List, [], ◌∷◌, Text, text, if◌then◌else◌, ltb,
}
use mnm.Qlib.Header.{pos}
use mnm.Main.Config.{ask_hosts, first_answer, schedule, ask_hosts-schedule, mode_of, testing}
use mnm.Main.Accept.{AcceptError, connects, fails, accept_loop, pause_min, new_link, sleep, suspend}

-- Answers the fourth query and those after it.
abbrev ntp : ℕ → Text → Option ℕ
ntp k host = if ltb k 3 then none else some 1000

abbrev hosts : List Text
hosts = text "a.org" ∷ text "b.org" ∷ []

ask_hosts-schedule_example : ask_hosts ntp 2 0 hosts ≡ first_answer ntp 0 (schedule ntp 2 hosts)
ask_hosts-schedule_example = ask_hosts-schedule ntp 2 0 hosts

abbrev too_many_files : AcceptError
too_many_files = record { net = true; temporary = true; error = text "too many open files" }

abbrev closed : AcceptError
closed = record {
  net = true;
  temporary = false;
  error = text "accept: use of closed network connection";
}

-- The second sleep is twice the first; an interrupt suspends the links.
accepts_and_stops :
    (accept_loop pause_min
      (fails too_many_files ∷ fails too_many_files ∷ connects 7 ∷ fails closed ∷ [])).acts
    ≡ sleep 1000000 ∷ sleep 2000000 ∷ new_link 7 ∷ suspend ∷ []
unfolding accept_loop
accepts_and_stops = refl

counts_clients : mode_of (λ s. some (pos 5)) (text "mnm" ∷ text "5" ∷ []) ≡ testing 5
unfolding mode_of
counts_clients = refl
