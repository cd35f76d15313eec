-- ===== src/Qlib/Frame.antt =====
-- qlib/qlib.go, _runLink and packMsg: how the bytes of a link are cut into messages.
pub mod Stream
pub mod Overflow
mod Tests
use mnm.Prelude.{
  ℕ, zero, suc, ◌+◌, ◌-◌, ◌*◌, ◌/◌, ◌%◌, Bool, true, false, not, ◌&&◌, ◌||◌, Option, none, some,
  List, [], ◌∷◌, ◌++◌, Text, length, take, drop, ltb, leb, ◌==◌, if◌then◌else◌,
}
use mnm.UserDb.Model.{hex_digit}
use mnm.UserDb.Names.{unhex}
use mnm.Qlib.Header.{ℤ, pos, negsuc, lt_int, int64, Header, check}
use mnm.Qlib.Quit.{Quit, msg_length_bad, msg_header_bad}
use mnm.Qlib.Op.{Result, ok, err, panic}

-- kMsgHeaderMinLen
abbrev pub header_min_len : ℕ
header_min_len = 8

-- strconv.ParseUint(s, 16, 0): 0 where a character is no digit.
unfoldable pub parse_digits : ℕ → Text → ℕ
parse_digits n [] = n
parse_digits n (c ∷ cs) = elim (unhex c) [ none ↦ 0 | some d ↦ parse_digits (n * 16 + d) cs ]

-- fmt.Sprintf("%04x", n), for n < 2 ^ 16.
abbrev pub hex_length : ℕ → Text
hex_length n =
    hex_digit (n / 4096)
    ∷ hex_digit (n / 256 % 16)
    ∷ hex_digit (n / 16 % 16)
    ∷ hex_digit (n % 16)
    ∷ []

-- aHeadEnd + aHead.DataLen
abbrev pub data_end : ℕ → ℤ → ℤ
data_end e (pos n) = int64 (e + n)
data_end e (negsuc n) = if ltb n e then pos (e - suc n) else negsuc (n - e)

-- aBuf[e:f], which panics unless 0 <= e <= f.
abbrev pub slice : Text → ℕ → ℤ → Option Text
slice buf e (negsuc n) = none
slice buf e (pos f) = if ltb f e then none else some (take (f - e) (drop e buf))

-- aData, where aBuf[:aPos] is `buf`.
unfoldable pub message_data : Text → ℕ → Header → Option Text
message_data buf e h =
    if ltb e (length buf) && lt_int (pos 0) h.data_len
    then (if lt_int (pos (length buf)) (data_end e h.data_len)
        then slice buf e (pos (length buf))
        else slice buf e (data_end e h.data_len))
    else some []

-- The bytes that come after the message, which move to the buffer's start: none left, some left,
-- or a panic.
pub data Rest : Type 0 where
  no_rest : Rest
  rest : Text → Rest
  bad_slice : Rest

unfoldable pub rest_of : Text → ℤ → Rest
rest_of buf (negsuc n) = bad_slice
rest_of buf (pos f) = if ltb f (length buf) then rest (drop f buf) else no_rest

-- aHeadEnd, read from the first four bytes unless it is known.
unfoldable pub header_end : Text → ℕ → ℕ
unfolding parse_digits
header_end buf zero = parse_digits 0 (take 4 buf) + 4
header_end buf (suc e) = suc e

-- The link waits for bytes, with the buffer and aHeadEnd that it has; or it ends; or the process
-- panics; or the bytes after a message are parsed.
pub data Step {ℓ} (S : Type ℓ) : Type ℓ where
  waits : S → Text → ℕ → Step S
  quits : S → Quit → Step S
  panics : Step S
  again : S → Text → Step S

-- `unmarshal` is json.Unmarshal into a tHeader whose Op is eOpEnd; `handle` is _handleMsg, given also
-- aHeadEnd, on which the room for the data of a ping depends. It returns no error.
module _ {ℓ} {S : Type ℓ} (unmarshal : Text → Option Header)
    (handle : ℕ → Header → Text → S → Result (Option Quit) × S) where
  -- A header that the buffer holds whole, and its data as far as they are there.
  unfoldable pub read_message : Text → ℕ → Option (Header × Option Text)
  unfolding message_data
  read_message buf e = elim (unmarshal (drop 4 (take e buf))) [
    | none ↦ none
    | some h ↦ if check h then some (h, message_data buf e h) else none
  ]

  -- The position after an answered message.
  unfoldable pub advance : S → Text → ℤ → Step S
  unfolding rest_of
  advance s buf end = elim (rest_of buf end) [
    | no_rest ↦ waits s [] 0
    | bad_slice ↦ panics
    | rest b ↦ again s b
  ]

  unfoldable pub answered : Text → ℤ → Result (Option Quit) × S → Step S
  unfolding advance
  answered buf end (ok (some q), s) = quits s q
  answered buf end (ok none, s) = advance s buf end
  answered buf end (err f, s) = panics
  answered buf end (panic, s) = panics

  unfoldable pub handled : S → Text → ℕ → Option (Header × Option Text) → Step S
  unfolding answered
  handled s buf e none = quits s msg_header_bad
  handled s buf e (some (h, none)) = panics
  handled s buf e (some (h, some bytes)) = answered buf (data_end e h.data_len) (handle e h bytes s)

  -- From the label Parse to the next wait, jump or break; `e` is aHeadEnd once it is known.
  unfoldable pub headed : S → Text → ℕ → Step S
  unfolding handled read_message
  headed s buf e =
      if ltb e (header_min_len + 4)
      then quits s msg_length_bad
      else if ltb (length buf) e
      then waits s buf e
      else handled s buf e (read_message buf e)

  unfoldable pub step : S → Text → ℕ → Step S
  unfolding headed header_end
  step s buf e =
      if ltb (length buf) (header_min_len + 4)
      then waits s buf e
      else headed s buf (header_end buf e)

  -- goto Parse, at most as often as the fuel says; `none` is for too little fuel.
  unfoldable pub parse : ℕ → S → Text → ℕ → Option (Step S)
  unfolding step
  parse zero s buf e = none
  parse (suc k) s buf e = elim (step s buf e) [
    | waits s' b e' ↦ some (waits s' b e')
    | quits s' q ↦ some (quits s' q)
    | panics ↦ some panics
    | again s' b ↦ parse k s' b 0
  ]
