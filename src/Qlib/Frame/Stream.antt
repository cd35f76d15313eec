-- ===== src/Qlib/Frame/Stream.antt =====
-- _runLink takes apart what packMsg puts together, message by message.
use mnm.Prelude.{
  ℕ, suc, ◌+◌, ◌-◌, ◌/◌, ◌%◌, ◌<◌, ◌≤◌, ◌≡◌, refl, true, false, Option, none, some, List, [], ◌∷◌,
  ◌++◌, Text, length, take, drop, ltb, if◌then◌else◌, arith, length-append, take-append,
  drop-append, drop-add, eq_nil_of_length, Bool-cases, inl, inr,
}
use mnm.UserDb.Model.{hex_digit}
use mnm.UserDb.Names.{unhex}
use mnm.Qlib.Header.{pos, Header, check}
use mnm.Qlib.Quit.{Quit}
use mnm.Qlib.Op.{Result, ok, err, panic}
use mnm.Qlib.Frame.{
  header_min_len, parse_digits, hex_length, data_end, message_data, no_rest, rest, bad_slice,
  rest_of, Step, waits, quits, panics, again, step, headed, handled, answered, advance,
  read_message, header_end, parse,
}

unhex-hex_digit : (d : ℕ) → d < 16 → unhex (hex_digit d) ≡ some d
unfolding unhex
unhex-hex_digit d h = ground arith

pub parse_digits-hex_length : (n : ℕ) → n < 0x10000 → parse_digits 0 (hex_length n) ≡ n
unfolding parse_digits
parse_digits-hex_length n h =
    rw (parse_digits, unhex-hex_digit (n / 4096) (omega arith))
      (rw (parse_digits, unhex-hex_digit (n / 256 % 16) (omega arith))
        (rw (parse_digits, unhex-hex_digit (n / 16 % 16) (omega arith))
          (rw (parse_digits, unhex-hex_digit (n % 16) (omega arith)) (omega arith))))

drop_four : (n a b c d : ℕ) (xs : Text) → drop (n + 4) (a ∷ b ∷ c ∷ d ∷ xs) ≡ drop n xs
drop_four n a b c d xs = let e : n + 4 ≡ suc (suc (suc (suc n))) = omega arith in rw e refl

pub take_four :
    (n a b c d : ℕ) (xs : Text) → take (n + 4) (a ∷ b ∷ c ∷ d ∷ xs) ≡ a ∷ b ∷ c ∷ d ∷ take n xs
take_four n a b c d xs = let e : n + 4 ≡ suc (suc (suc (suc n))) = omega arith in rw e refl

-- The bytes of a message, with those that follow it.
abbrev pub packed : Text → Text → Text → Text
packed head body more = hex_length (length head) ++ (head ++ (body ++ more))

module _ (head body more : Text) where
  pub length-packed : length (packed head body more) ≡ 4 + length head + length body + length more
  length-packed = rw (length-append, length-append, length-append) (omega arith)

  pub header_end-packed :
      length head < 0x10000 → header_end (packed head body more) 0 ≡ length head + 4
  unfolding header_end
  header_end-packed h = rw (parse_digits-hex_length (length head) h) refl

  pub drop-packed : drop (length head + 4) (packed head body more) ≡ body ++ more
  drop-packed = rw drop_four (drop-append head (body ++ more))

  drop-packed_body : drop (length head + 4 + length body) (packed head body more) ≡ more
  drop-packed_body =
      rw (drop-add (length head + 4) (length body), drop-packed) (drop-append body more)

  module _ (s : length (packed head body more) ≤ 0x10004) where
    data_end-packed :
        data_end (length head + 4) (pos (length body)) ≡ pos (length head + 4 + length body)
    data_end-packed = let small = length-packed in ground (arith, s, small)

    message_data-packed :
        (h : Header)
        → h.data_len ≡ pos (length body)
        → message_data (packed head body more) (length head + 4) h ≡ some body
    unfolding message_data
    message_data-packed h z =
        let cut : length head + 4 + length body - (length head + 4) ≡ length body = omega arith in
        let all_of : take (length head + 4 + length body - (length head + 4))
              (drop (length head + 4) (packed head body more))
            ≡ body =
          rw (cut, drop-packed) (take-append body more) in
        let sizes = length-packed in
        rw z (
          rw data_end-packed (elim (Bool-cases (ltb 0 (length body))) [
            | inl e ↦ ground (arith, all_of, sizes, e)
            | inr e ↦ ground (arith, eq_nil_of_length body, e)
          ]))

    rest_of-packed :
        rest_of (packed head body more) (pos (length head + 4 + length body))
        ≡ (if ltb 0 (length more) then rest more else no_rest)
    unfolding rest_of
    rest_of-packed = rw (length-packed, drop-packed_body) (ground arith)

module _ {ℓ} {S : Type ℓ} (unmarshal : Text → Option Header)
    (handle : ℕ → Header → Text → S → Result (Option Quit) × S) where
  -- A message as packMsg packs it: its head is read to be the header, which gives the body's length.
  pub record IsMessage (head : Text) (h : Header) (body : Text) : Type 0 where
    pub read : unmarshal head ≡ some h
    pub checked : check h ≡ true
    pub sized : h.data_len ≡ pos (length body)
    pub least : header_min_len ≤ length head
    pub most : length head < 0x10000

  -- What follows the answer to a message.
  abbrev pub proceed : Result (Option Quit) × S → Text → Step S
  proceed (ok (some q), s) more = quits s q
  proceed (ok none, s) [] = waits s [] 0
  proceed (ok none, s) (b ∷ more) = again s (b ∷ more)
  proceed (err f, s) more = panics
  proceed (panic, s) more = panics

  module _ {head : Text} {h : Header} {body : Text} (m : IsMessage head h body) (more : Text)
      (s : length (packed head body more) ≤ 0x10004) where
    read_message-packed :
        read_message unmarshal handle (packed head body more) (length head + 4)
        ≡ some (h, some body)
    unfolding read_message
    read_message-packed =
        let cut : drop 4 (take (length head + 4) (packed head body more)) ≡ head =
          rw take_four (take-append head (body ++ more)) in
        rw (read_message, cut)
          (rw m.read (rw m.checked (rw (message_data-packed head body more s h m.sized) refl)))

    advance-packed :
        (st : S)
        → advance unmarshal handle st (packed head body more) (pos (length head + 4 + length body))
          ≡ proceed (ok none, st) more
    unfolding advance
    advance-packed st = rw (advance, rest_of-packed head body more s) (split more)
      where
        split :
            (b : Text)
            → (elim (if ltb 0 (length b) then rest b else no_rest) [
              | no_rest ↦ waits st [] 0
              | bad_slice ↦ panics
              | rest c ↦ again st c
            ])
              ≡ proceed (ok none, st) b
        split [] = refl
        split (b ∷ bs) = ground arith

    answered-packed :
        (r : Result (Option Quit) × S)
        → answered unmarshal handle (packed head body more) (pos (length head + 4 + length body)) r
          ≡ proceed r more
    unfolding answered
    answered-packed (ok (some q), st) = refl
    answered-packed (ok none, st) = advance-packed st
    answered-packed (err f, st) = refl
    answered-packed (panic, st) = refl

    step-packed :
        (st : S)
        → step unmarshal handle st (packed head body more) 0
          ≡ proceed (handle (length head + 4) h body st) more
    unfolding step headed handled
    step-packed st =
        let sizes = length-packed head body more in
        let f1 : ltb (length (packed head body more)) 12 ≡ false = ground (arith, sizes, m.least) in
        let f2 : ltb (length head + 4) 12 ≡ false = ground (arith, m.least) in
        let f3 : ltb (length (packed head body more)) (length head + 4) ≡ false =
          ground (arith, sizes) in
        let d : data_end (length head + 4) h.data_len ≡ pos (length head + 4 + length body) =
          rw m.sized (data_end-packed head body more s) in
        rw (f1, header_end-packed head body more m.most)
          (rw (f2, f3)
            (rw read_message-packed (rw d (answered-packed (handle (length head + 4) h body st)))))

  -- A message with its header, to be sent one after the other.
  pub record Message : Type 0 where
    pub head : Text
    pub header : Header
    pub body : Text
    pub whole : IsMessage head header body

  abbrev pub stream : List Message → Text
  stream [] = []
  stream (m ∷ ms) = packed m.head m.body (stream ms)

  -- What follows an answer, where `next` follows it if the link goes on.
  abbrev pub served : (S → Step S) → Result (Option Quit) × S → Step S
  served next (ok (some q), st) = quits st q
  served next (ok none, st) = next st
  served next (err f, st) = panics
  served next (panic, st) = panics

  -- The handler answers one message after the other until it ends the link.
  abbrev pub serve : List Message → S → Step S
  serve [] st = waits st [] 0
  serve (m ∷ ms) st = served (serve ms) (handle (length m.head + 4) m.header m.body st)

  -- The next round of `parse`.
  abbrev pub after : ℕ → Step S → Option (Step S)
  after k (waits s b e) = some (waits s b e)
  after k (quits s q) = some (quits s q)
  after k panics = some panics
  after k (again s b) = parse unmarshal handle k s b 0

  pub parse-suc :
      (k : ℕ) (st : S) (buf : Text) (e : ℕ)
      → parse unmarshal handle (suc k) st buf e ≡ after k (step unmarshal handle st buf e)
  unfolding parse
  parse-suc k st buf e = same (step unmarshal handle st buf e)
    where
      same :
          (x : Step S)
          → (elim x [
            | waits s b e ↦ some (waits s b e)
            | quits s q ↦ some (quits s q)
            | panics ↦ some panics
            | again s b ↦ parse unmarshal handle k s b 0
          ])
            ≡ after k x
      same (waits s b e) = refl
      same (quits s q) = refl
      same panics = refl
      same (again s b) = refl

  pub step-empty : (st : S) → step unmarshal handle st [] 0 ≡ waits st [] 0
  unfolding step
  step-empty st = refl

  after-serve :
      (ms : List Message) (r : Result (Option Quit) × S)
      → ((st : S) → parse unmarshal handle (suc (length ms)) st (stream ms) 0 ≡ some (serve ms st))
      → after (suc (length ms)) (proceed r (stream ms)) ≡ some (served (serve ms) r)
  after-serve ms (ok (some q), st) next = refl
  after-serve [] (ok none, st) next = refl
  after-serve (m ∷ ms) (ok none, st) next = next st
  after-serve ms (err f, st) next = refl
  after-serve ms (panic, st) next = refl

  -- With aHeadEnd at 0, a buffer of at most 65540 bytes that holds messages packed one
  -- after the other is handled message by message, in order, each with its header and its whole body,
  -- until the handler ends the link; one round more than there are messages is enough.
  pub parse-stream :
      (ms : List Message) (st : S)
      → length (stream ms) ≤ 0x10004
      → parse unmarshal handle (suc (length ms)) st (stream ms) 0 ≡ some (serve ms st)
  parse-stream [] st s = rw (parse-suc, step-empty) refl
  parse-stream (m ∷ ms) st s =
      let sizes = length-packed m.head m.body (stream ms) in
      let fits : length (stream ms) ≤ 0x10004 = omega (arith, sizes, s) in
      rw (parse-suc, step-packed m.whole (stream ms) s st)
        (after-serve ms (handle (length m.head + 4) m.header m.body st)
          (λ st'. parse-stream ms st' fits))
