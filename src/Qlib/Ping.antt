-- ===== src/Qlib/Ping.antt =====
-- qlib/qlib.go, _checkPing: the data of a ping or an invitation, read whole and checked.
pub mod Limits
pub mod Chars
mod Tests
use mnm.Prelude.{
  ℕ, zero, suc, ◌+◌, ◌-◌, ◌*◌, Bool, not, ◌&&◌, Option, none, some, List, [], ◌∷◌, ◌++◌, Text,
  length, take, drop, ltb, leb, ◌==◌, if◌then◌else◌,
}
use mnm.Utf8.{rune_error, decode_rune}
use mnm.Qlib.Header.{ℤ, pos, negsuc, lt_int}
use mnm.Qlib.Quit.{Quit, msg_eof, msg_fail, msg_datalen_high, msg_data_not_utf8, msg_conn}
use mnm.Qlib.Op.{Ending, eof, net_error, tls_error, other_error}
use mnm.Qlib.Stream.{Stream}

abbrev pub ping_char_max : ℕ
ping_char_max = 140

-- The message for a read that fails.
abbrev pub quit_of : Ending → Quit
quit_of eof = msg_eof
quit_of (net_error e) = msg_conn e
quit_of tls_error = msg_fail
quit_of other_error = msg_fail

-- The data after the reads, with what is left on the stream; or the end of the link.
pub data Filled : Type 0 where
  full : Text → List Text → Filled
  cut_off : Quit → Filled

-- The loop of o.Read: each takes a piece, or as much of it as there is room for.
unfoldable pub fill : ℕ → Ending → Text → List Text → Filled
fill n e buf [] = if ltb (length buf) n then cut_off (quit_of e) else full buf []
fill n e buf (p ∷ ps) =
    let more = fill n e (buf ++ p) ps in
    let room = n - length buf in
    if not (ltb (length buf) n)
    then full buf (p ∷ ps)
    else if leb (length p) room
    then more
    else full (buf ++ take room p) (drop room p ∷ ps)

-- The count of UTF-16 units, or none at a rune that is RuneError. Each round takes a byte at least,
-- so that the number of bytes is fuel enough.
unfoldable pub utf16_len : ℕ → ℕ → Text → Option ℕ
utf16_len fuel n [] = some n
utf16_len zero n (b ∷ s) = none
utf16_len (suc fuel) n (b ∷ s) =
    let r = decode_rune (b ∷ s) in
    let rest = utf16_len fuel (n + (if leb 0x10000 r.code then 2 else 1)) (drop r.width (b ∷ s)) in
    if r.code == rune_error then none else rest

-- The message goes on with its data and the stream that is left, or the link ends, or the slice of
-- the buffer panics.
pub data Checked : Type 0 where
  passes : Text → List Text → Checked
  refuses : Quit → Checked
  crashes : Checked

unfoldable pub check_chars : Text → List Text → Checked
unfolding utf16_len
check_chars b left = elim (utf16_len (length b) 0 b) [
  | none ↦ refuses msg_data_not_utf8
  | some n ↦ if ltb ping_char_max n then refuses msg_datalen_high else passes b left
]

unfoldable pub check_filled : Filled → Checked
unfolding check_chars
check_filled (cut_off q) = refuses q
check_filled (full b left) = check_chars b left

-- len(*iData) < int(iHead.DataLen)
abbrev pub is_short : Text → ℤ → Bool
is_short b n = lt_int (pos (length b)) n

abbrev pub to_nat : ℤ → ℕ
to_nat (pos n) = n
to_nat (negsuc n) = 0

-- _checkPing of the data length, the data that came with the header and the stream; `space` is the
-- room that the buffer has from the data's start.
unfoldable pub check_ping : ℕ → ℤ → Text → Stream → Checked
unfolding fill check_filled
check_ping space data_len b s =
    if lt_int (pos (ping_char_max * 3)) data_len
    then refuses msg_datalen_high
    else if is_short b data_len && ltb space (to_nat data_len)
    then crashes
    else check_filled (fill (to_nat data_len) s.ending b s.pieces)
