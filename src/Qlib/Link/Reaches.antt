-- ===== src/Qlib/Link/Reaches.antt =====
-- The states that the loop of reads brings a link into.
use mnm.Prelude.{
  ℕ, zero, suc, ◌-◌, inl, inr, Option, none, some, List, [], ◌++◌, Text, length, ltb, Bool-cases,
}
use mnm.Qlib.Header.{ℤ, Header}
use mnm.Qlib.Quit.{Quit}
use mnm.Qlib.Op.{Result, ok, err, panic}
use mnm.Qlib.Stream.{Stream}
use mnm.Qlib.Server.{Server, State, Env, new_link}
use mnm.Qlib.Frame.{
  Rest, no_rest, rest, bad_slice, rest_of, Step, waits, quits, panics, again, step, headed, handled,
  answered, advance, read_message, header_end, parse,
}
use mnm.Qlib.Frame.Stream.{after, parse-suc}
use mnm.Qlib.Handle.Dispatch.Gate.{Reached, starts, handles, receives, LinkOk, Reached-LinkOk}
use mnm.Qlib.Link.{
  Read, got, broken, read_piece, Reader, ReadTurn, reads, ends, dies, no_fuel, after_parse,
  after_read, read_turn, run_reads, buf_max, link_reader, link_handler,
}

-- The state after a turn of the outer loop has a property.
abbrev pub TurnHas : {S : Type 0} → (S → Type 0) → ReadTurn S → Type 0
TurnHas P (reads s buf e) = P s
TurnHas P (ends q s) = P s
TurnHas P dies = Unit {0}
TurnHas P no_fuel = Unit {0}

module _ {S : Type 0} (P : S → Type 0) (unmarshal : Text → Option Header)
    (handle : ℕ → Header → Text → S → Result (Option Quit) × S)
    (keep : (e : ℕ) (h : Header) (b : Text) (s : S) → P s → P (handle e h b s).1) where
  -- The state that a round leaves has the property.
  abbrev StepHas : Step S → Type 0
  StepHas (waits s buf e) = P s
  StepHas (quits s q) = P s
  StepHas panics = Unit {0}
  StepHas (again s buf) = P s

  advance-StepHas :
      (s : S) (buf : Text) (end : ℤ) → P s → StepHas (advance unmarshal handle s buf end)
  unfolding advance
  advance-StepHas s buf end p = by_rest (rest_of buf end)
    where
      by_rest :
          (x : Rest)
          → StepHas (elim x [ no_rest ↦ waits s [] 0 | bad_slice ↦ panics | rest b ↦ again s b ])
      by_rest no_rest = p
      by_rest bad_slice = tt
      by_rest (rest b) = p

  answered-StepHas :
      (buf : Text) (end : ℤ) (r : Result (Option Quit) × S)
      → P r.1
      → StepHas (answered unmarshal handle buf end r)
  unfolding answered
  answered-StepHas buf end (ok (some q), s) p = p
  answered-StepHas buf end (ok none, s) p = advance-StepHas s buf end p
  answered-StepHas buf end (err f, s) p = tt
  answered-StepHas buf end (panic, s) p = tt

  handled-StepHas :
      (s : S) (buf : Text) (e : ℕ) (m : Option (Header × Option Text))
      → P s
      → StepHas (handled unmarshal handle s buf e m)
  unfolding handled
  handled-StepHas s buf e none p = p
  handled-StepHas s buf e (some (h, none)) p = tt
  handled-StepHas s buf e (some (h, some b)) p =
      answered-StepHas buf _ (handle e h b s) (keep e h b s p)

  step-StepHas : (s : S) (buf : Text) (e : ℕ) → P s → StepHas (step unmarshal handle s buf e)
  unfolding step headed
  step-StepHas s buf e p = elim (Bool-cases (ltb (length buf) 12)) [
    | inl f ↦ rw f p
    | inr f ↦ rw f (by_end (header_end buf e))
  ]
    where
      by_end : (e' : ℕ) → StepHas (headed unmarshal handle s buf e')
      by_end e' = elim (Bool-cases (ltb e' 12)) [
        | inl g ↦ rw g p
        | inr g ↦ rw g (elim (Bool-cases (ltb (length buf) e')) [
          | inl k ↦ rw k p
          | inr k ↦ rw k (handled-StepHas s buf e' (read_message unmarshal handle buf e') p)
        ])
      ]

  parse-TurnHas :
      (k : ℕ) (s : S) (buf : Text) (e : ℕ)
      → P s
      → TurnHas P (after_parse (parse unmarshal handle k s buf e))
  unfolding parse
  parse-TurnHas zero s buf e p = tt
  parse-TurnHas (suc k) s buf e p =
      rw (parse-suc unmarshal handle k s buf e)
        (by_step (step unmarshal handle s buf e) (step-StepHas s buf e p) (parse-TurnHas k))
    where
      by_step :
          (x : Step S)
          → StepHas x
          → ((s' : S) (b : Text) (e' : ℕ)
              → P s'
              → TurnHas P (after_parse (parse unmarshal handle k s' b e')))
          → TurnHas P (after_parse (after unmarshal handle k x))
      by_step (waits s' b e') q next = q
      by_step (quits s' a) q next = q
      by_step panics q next = tt
      by_step (again s' b) q next = next s' b 0 q

  module _ (r : Reader S) (streams : (ps : List Text) (s : S) → P s → P (r.with_pieces ps s)) where
    turn-TurnHas :
        (s : S) (buf : Text) (e : ℕ) → P s → TurnHas P (read_turn r unmarshal handle s buf e)
    unfolding read_turn after_read
    turn-TurnHas s buf e p = by_read (read_piece (buf_max - length buf) (r.stream_of s).pieces)
      where
        by_read : (x : Read) → TurnHas P (after_read r unmarshal handle s buf e x)
        by_read broken = p
        by_read (got b ps) =
            parse-TurnHas (suc (length (buf ++ b))) (r.with_pieces ps s) (buf ++ b) e
              (streams ps s p)

    -- A property that the handler and the reads keep holds of the state after any number of reads.
    pub run_reads-TurnHas :
        (n : ℕ) (s : S) (buf : Text) (e : ℕ)
        → P s
        → TurnHas P (run_reads r unmarshal handle n s buf e)
    unfolding run_reads
    run_reads-TurnHas zero s buf e p = p
    run_reads-TurnHas (suc n) s buf e p =
        by_turn (read_turn r unmarshal handle s buf e) (turn-TurnHas s buf e p)
          (run_reads-TurnHas n)
      where
        by_turn :
            (x : ReadTurn S)
            → TurnHas P x
            → ((s' : S) (b : Text) (e' : ℕ)
                → P s'
                → TurnHas P (run_reads r unmarshal handle n s' b e'))
            → TurnHas P (elim x [
              | reads s' b e' ↦ run_reads r unmarshal handle n s' b e'
              | ends q s' ↦ ends q s'
              | dies ↦ dies
              | no_fuel ↦ no_fuel
            ])
        by_turn (reads s' b e') q next = next s' b e' q
        by_turn (ends q s') h next = h
        by_turn dies h next = tt
        by_turn no_fuel h next = tt

-- From its start, after any number of reads of any bytes, whether it still reads or is about to end, a
-- link that has a node has a queue, one with a queue has told its revision, and one with a set of
-- presence has a queue.
pub run_reads-LinkOk :
    (env : Env) (unmarshal : Text → Option Header) (n : ℕ) (server : Server) (r : Stream)
    → TurnHas
        (λ s. LinkOk s.link)
        (run_reads link_reader unmarshal
          (link_handler env)
          n
          (record { link = new_link r; server = server })
          []
          0)
run_reads-LinkOk env unmarshal n server r =
    ready (run_reads link_reader unmarshal (link_handler env) n first [] 0) (
      run_reads-TurnHas (Reached env) unmarshal (link_handler env)
        (λ e h b s p. handles s (buf_max - e) h b p) link_reader
        (λ ps s p. receives s (record { pieces = ps; ending = s.link.stream.ending }) p) n first []
        0 (starts server r))
  where
    first : State
    first = record { link = new_link r; server = server }

    ready : (x : ReadTurn State) → TurnHas (Reached env) x → TurnHas (λ s. LinkOk s.link) x
    ready (reads s buf e) p = Reached-LinkOk env s p
    ready (ends q s) p = Reached-LinkOk env s p
    ready dies p = tt
    ready no_fuel p = tt
