-- ===== src/Qlib/Link/Cuts/Reads.antt =====
-- The loop of reads, on messages whose bytes come in any pieces.
use mathlib.Core.List.{append_assoc}
use mnm.Prelude.{
  ℕ, zero, suc, ◌+◌, ◌-◌, ◌<◌, ◌≤◌, ◌≡◌, ◌∙◌, ap, sym, inl, inr, refl, Option, none, some, List, [],
  ◌∷◌, ◌++◌, Text, length, take, drop, ltb, leb, arith, Bool-cases, length-append, length-drop,
  append-take-drop,
}
use mnm.Qlib.Header.{Header}
use mnm.Qlib.Quit.{Quit}
use mnm.Qlib.Op.{Ending, Result, ok, err, panic}
use mnm.Qlib.Frame.{Step, waits, quits, panics, again, parse}
use mnm.Qlib.Frame.Stream.{stream, length-packed, proceed, after, parse-suc, step-empty}
use mnm.Qlib.Link.{
  read_piece, ReadTurn, reads, ends, dies, no_fuel, after_parse, after_read, read_turn, run_reads,
  buf_max, link_quit,
}
use mnm.Qlib.Link.Pieces.{joined, size}
use mnm.Qlib.Link.Cuts.{
  Outcome, closed, crashed, outcome, follow, with_left, cut_reader, copying, Sent, whole, AreSized,
  IsAt, IsPart,
}
use mnm.Qlib.Link.Cuts.Arriving.{step-part}
use mnm.Qlib.Link.Cuts.Copied.{step-copying}

module _ {T : Type 0} (unmarshal : Text → Option Header) (ending : Ending)
    (answer : Header → Text → T → Result (Option Quit) × T) where
  abbrev copy : ℕ → Header → Text → T × List Text → Result (Option Quit) × (T × List Text)
  copy = copying unmarshal ending answer

  abbrev State : Type 0
  State = T × List Text

  abbrev all_of : List (Sent unmarshal ending answer) → T → Outcome T
  all_of = whole unmarshal ending answer

  -- The messages that are left, when the loop waits for bytes, still lead to the outcome.
  abbrev Waits : Outcome T → ℕ → State → Text → ℕ → Type 0
  Waits o n s buf e =
      (ms : List (Sent unmarshal ending answer)) × AreSized unmarshal ending answer ms
      × IsAt unmarshal ending answer ms buf e (joined s.1)
      × IsPart unmarshal ending answer ms buf
      × (all_of ms s.0 ≡ o)
      × (size s.1 ≤ n)

  -- What the loop of the label Parse comes to agrees with the outcome.
  abbrev Agrees : Outcome T → ℕ → Option (Step State) → Type 0
  Agrees o n none = ⊥
  Agrees o n (some (waits s buf e)) = Waits o n s buf e
  Agrees o n (some (quits s q)) = o ≡ closed q s.0
  Agrees o n (some panics) = o ≡ crashed
  Agrees o n (some (again s buf)) = ⊥

  -- An empty buffer, with the messages to come.
  IsAt-empty :
      (ms : List (Sent unmarshal ending answer)) (rest : Text)
      → rest ≡ stream unmarshal copy ms
      → IsAt unmarshal ending answer ms [] 0 rest × IsPart unmarshal ending answer ms []
  IsAt-empty [] rest h = ((h, refl), tt)
  IsAt-empty (m ∷ ms) rest h = ((h, inl refl), omega arith)

  IsAt-start :
      (ms : List (Sent unmarshal ending answer)) (buf rest : Text)
      → buf ++ rest ≡ stream unmarshal copy ms
      → IsAt unmarshal ending answer ms buf 0 rest
  IsAt-start [] buf rest h = (h, refl)
  IsAt-start (m ∷ ms) buf rest h = (h, inl refl)

  weaken :
      (o : Outcome T) (n n' : ℕ) (x : Option (Step State)) → n ≤ n' → Agrees o n x → Agrees o n' x
  weaken o n n' none h a = a
  weaken o n n' (some (waits s buf e)) h (ms, sized, at, part, same, less) =
      (ms, sized, at, part, same, omega (arith, h, less))
  weaken o n n' (some (quits s q)) h a = a
  weaken o n n' (some panics) h a = a
  weaken o n n' (some (again s buf)) h a = a

  parse-Agrees :
      (k : ℕ) (ms : List (Sent unmarshal ending answer)) (t : T) (ps : List Text) (buf : Text)
      (e : ℕ)
      → length buf < k
      → AreSized unmarshal ending answer ms
      → IsAt unmarshal ending answer ms buf e (joined ps)
      → Agrees (all_of ms t) (size ps) (parse unmarshal copy k (t, ps) buf e)
  parse-Agrees zero ms t ps buf e h sized at = absurd (omega arith)
  parse-Agrees (suc k) [] t ps [] e h sized (same, z) =
      rw (parse-suc unmarshal copy k (t, ps) [] e) (
        rw z (rw (step-empty unmarshal copy (t, ps)) ([], tt, (same, refl), tt, refl, omega arith)))
  parse-Agrees (suc k) [] t ps (b ∷ buf) e h sized (same, z) = let never : ⊥ = cc in absurd never
  parse-Agrees (suc k) (m ∷ ms) t ps buf e h sized (same, at) =
      rw (parse-suc unmarshal copy k (t, ps) buf e)
        (elim (Bool-cases (ltb (length buf) (length m.head + 4))) [
          | inl f ↦
              let (e', at', waiting) =
                step-part unmarshal copy m.whole (stream unmarshal copy ms) buf (joined ps) same
                  (t, ps) e at (ground (arith, f)) in
              rw waiting (m ∷ ms, sized, (same, at'), ground (arith, f), refl, omega arith)
          | inr f ↦
              let (left, ps', stepped, same', less, fewer) =
                step-copying unmarshal ending answer m.whole (stream unmarshal copy ms) buf ps same
                  t e at (ground (arith, f)) sized.0 in
              rw stepped (
                by_answer left ps' (answer m.header m.body t) same' less λ t'.
                  parse-Agrees k ms t' ps' left 0 (omega arith) sized.1
                    (IsAt-start ms left (joined ps') same'))
        ])
    where
      by_answer :
          (left : Text) (ps' : List Text) (r : Result (Option Quit) × T)
          → left ++ joined ps' ≡ stream unmarshal copy ms
          → size ps' ≤ size ps
          → ((t' : T) → Agrees (all_of ms t') (size ps') (parse unmarshal copy k (t', ps') left 0))
          → Agrees
              (follow (all_of ms) r)
              (size ps)
              (after unmarshal copy k (proceed unmarshal copy (with_left ps' r) left))
      by_answer left ps' (ok (some q), t') same' less next = refl
      by_answer left ps' (err f, t') same' less next = refl
      by_answer left ps' (panic, t') same' less next = refl
      by_answer [] ps' (ok none, t') same' less next =
          let (at', part) = IsAt-empty ms (joined ps') same' in (ms, sized.1, at', part, refl, less)
      by_answer (b ∷ left) ps' (ok none, t') same' less next =
          weaken _ (size ps') (size ps) _ less (next t')

  -- A turn of the outer loop leads to the outcome, and leaves fewer reads to do.
  abbrev Turns : Outcome T → ℕ → ReadTurn State → Type 0
  Turns o n (reads s buf e) = (k : ℕ) × (k < n) × Waits o k s buf e
  Turns o n (ends q s) = o ≡ closed q s.0
  Turns o n dies = o ≡ crashed
  Turns o n no_fuel = ⊥

  parsed-Turns :
      (o : Outcome T) (k n : ℕ) (x : Option (Step State))
      → k < n
      → Agrees o k x
      → Turns o n (after_parse x)
  parsed-Turns o k n none h a = a
  parsed-Turns o k n (some (waits s buf e)) h a = (k, h, a)
  parsed-Turns o k n (some (quits s q)) h a = a
  parsed-Turns o k n (some panics) h a = a
  parsed-Turns o k n (some (again s buf)) h a = a

  IsAt-assoc :
      (ms : List (Sent unmarshal ending answer)) (buf : Text) (e : ℕ) (p rest : Text)
      → IsAt unmarshal ending answer ms buf e (p ++ rest)
      → IsAt unmarshal ending answer ms (buf ++ p) e rest
  IsAt-assoc [] buf e p rest at = (append_assoc buf p rest ∙ at.0, at.1)
  IsAt-assoc (m ∷ ms) buf e p rest at = (append_assoc buf p rest ∙ at.0, at.1)

  -- The bytes are all read when the messages are all handled.
  all_read :
      (ms : List (Sent unmarshal ending answer)) (t : T) (buf : Text) (e : ℕ)
      → IsPart unmarshal ending answer ms buf
      → IsAt unmarshal ending answer ms buf e []
      → all_of ms t ≡ closed (link_quit ending) t
  all_read [] t buf e part at = refl
  all_read (m ∷ ms) t buf e part (same, at) =
      let sizes = length-packed m.head m.body (stream unmarshal copy ms) in
      let lengths = ap (λ (s : Text). length s) same in
      absurd (omega (arith, sizes, lengths, length-append buf [], part))

  -- There is room for a read.
  room :
      (ms : List (Sent unmarshal ending answer)) (buf rest : Text) (e : ℕ)
      → IsPart unmarshal ending answer ms buf
      → IsAt unmarshal ending answer ms buf e rest
      → length buf < buf_max
  room [] buf rest e part (same, z) =
      omega (arith, length-append buf rest, ap (λ (s : Text). length s) same)
  room (m ∷ ms) buf rest e part at = omega (arith, part, m.whole.most)

  module _ (ms : List (Sent unmarshal ending answer)) (t : T) (buf : Text) (e : ℕ)
      (sized : AreSized unmarshal ending answer ms)
      (part : IsPart unmarshal ending answer ms buf) where
    after_got :
        (p : Text) (ps : List Text) (n : ℕ)
        → IsAt unmarshal ending answer ms buf e (p ++ joined ps)
        → size ps < n
        → Turns
            (all_of ms t)
            n
            (after_parse (parse unmarshal copy (suc (length (buf ++ p))) (t, ps) (buf ++ p) e))
    after_got p ps n at less = parsed-Turns (all_of ms t) (size ps) n _ less (
        parse-Agrees (suc (length (buf ++ p))) ms t ps (buf ++ p) e (omega arith) sized
          (IsAt-assoc ms buf e p (joined ps) at))

    turn-Turns :
        (n : ℕ) (ps : List Text)
        → IsAt unmarshal ending answer ms buf e (joined ps)
        → size ps ≤ n
        → Turns
            (all_of ms t)
            n
            (read_turn (cut_reader unmarshal ending answer) unmarshal copy (t, ps) buf e)
    unfolding read_turn after_read read_piece
    turn-Turns n [] at h = all_read ms t buf e part at
    turn-Turns n (p ∷ ps) at h =
        let free = buf_max - length buf in
        elim (Bool-cases (leb (length p) free)) [
          | inl f ↦ rw f (after_got p ps n at (omega (arith, h)))
          | inr f ↦
              let some_room = room ms buf (p ++ joined ps) e part at in
              let longer : free < length p = ground (arith, f) in
              let cut : p ++ joined ps ≡ take free p ++ (drop free p ++ joined ps) = sym (
                sym (append_assoc (take free p) (drop free p) (joined ps))
                ∙ ap (λ x. x ++ joined ps) (append-take-drop free p)) in
              rw f (
                after_got (take free p) (drop free p ∷ ps) n (rw cut at at)
                  (omega (arith, some_room, h, longer, length-drop free p)))
        ]

  -- The loop of reads comes to the outcome.
  reads-outcome :
      (n : ℕ) (ms : List (Sent unmarshal ending answer)) (t : T) (ps : List Text) (buf : Text)
      (e : ℕ)
      → AreSized unmarshal ending answer ms
      → IsAt unmarshal ending answer ms buf e (joined ps)
      → IsPart unmarshal ending answer ms buf
      → size ps < n
      → outcome (run_reads (cut_reader unmarshal ending answer) unmarshal copy n (t, ps) buf e)
        ≡ some (all_of ms t)
  unfolding run_reads
  reads-outcome zero ms t ps buf e sized at part h = absurd (omega arith)
  reads-outcome (suc n) ms t ps buf e sized at part h =
      by_turn (all_of ms t)
        (read_turn (cut_reader unmarshal ending answer) unmarshal copy (t, ps) buf e)
        (turn-Turns ms t buf e sized part n ps at (omega arith)) (reads-outcome n)
    where
      by_turn :
          (o : Outcome T) (x : ReadTurn State)
          → Turns o n x
          → ((ms' : List (Sent unmarshal ending answer)) (t' : T) (ps' : List Text) (b : Text)
                (e' : ℕ)
              → AreSized unmarshal ending answer ms'
              → IsAt unmarshal ending answer ms' b e' (joined ps')
              → IsPart unmarshal ending answer ms' b
              → size ps' < n
              → outcome
                  (run_reads (cut_reader unmarshal ending answer) unmarshal copy n (t', ps') b e')
                ≡ some (all_of ms' t'))
          → outcome (elim x [
            | reads s' b e' ↦
                run_reads (cut_reader unmarshal ending answer) unmarshal copy n s' b e'
            | ends q s' ↦ ends q s'
            | dies ↦ dies
            | no_fuel ↦ no_fuel
          ])
            ≡ some o
      by_turn o (reads (t', ps') b e') (k, less, (ms', sized', at', part', same, fits)) next =
          next ms' t' ps' b e' sized' at' part' (omega arith) ∙ ap (λ x. some x) same
      by_turn o (ends q s') a next = rw a refl
      by_turn o dies a next = rw a refl
      by_turn o no_fuel a next = absurd a

  -- A client sends messages, each packed with its header and its data of less than 2 ^ 62 bytes, and
  -- the connection gives their bytes in pieces of any lengths. A handler that answers a message by its
  -- whole data, and copies from the connection the data that are not in the buffer, then brings the
  -- link to the end that the messages bring it to one by one, whole: by the first answer that ends it,
  -- by a panic, or by the end of the stream, with the same state. A number of reads above the number
  -- of pieces and bytes is enough.
  pub run_reads-whole :
      (n : ℕ) (ms : List (Sent unmarshal ending answer)) (t : T) (ps : List Text)
      → AreSized unmarshal ending answer ms
      → joined ps ≡ stream unmarshal copy ms
      → size ps < n
      → outcome (run_reads (cut_reader unmarshal ending answer) unmarshal copy n (t, ps) [] 0)
        ≡ some (all_of ms t)
  run_reads-whole n ms t ps sized same h =
      let (at, part) = IsAt-empty ms (joined ps) same in
      reads-outcome n ms t ps [] 0 sized at part h
