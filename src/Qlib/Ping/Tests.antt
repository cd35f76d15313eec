-- ===== src/Qlib/Ping/Tests.antt =====
-- Pings that come whole, in pieces, with RuneError, and with a header that fills the buffer.
use mnm.Prelude.{ℕ, ◌≡◌, refl, List, [], ◌∷◌, text, length, arith}
use mnm.Utf8.{decode_rune}
use mnm.Qlib.Header.{pos}
use mnm.Qlib.Quit.{msg_data_not_utf8, msg_eof}
use mnm.Qlib.Op.{eof}
use mnm.Qlib.Stream.{Stream}
use mnm.Qlib.Ping.{passes, refuses, crashes, fill, utf16_len, check_chars, check_filled, check_ping}
use mnm.Qlib.Ping.Chars.{encode, check_ping-encode}
use mnm.Utf8.Encode.{encode_rune}

abbrev in_pieces : Stream
in_pieces = record { pieces = text "b" ∷ text "cd" ∷ []; ending = eof }

abbrev smile : List ℕ
smile = b'h' ∷ 0xe9 ∷ 0x20ac ∷ 0x1f600 ∷ []

read_on : check_ping 100 (pos 3) (text "a") in_pieces ≡ passes (text "abc") (text "d" ∷ [])
unfolding check_ping fill check_filled check_chars utf16_len decode_rune
read_on = refl

ends_early : check_ping 100 (pos 5) (text "a") in_pieces ≡ refuses msg_eof
unfolding check_ping fill check_filled check_chars utf16_len decode_rune
ends_early = refl

-- U+FFFD itself, which is valid UTF-8.
refuses_rune_error :
    check_ping 100 (pos 3) (encode_rune 0xfffd) in_pieces ≡ refuses msg_data_not_utf8
unfolding check_ping fill check_filled check_chars utf16_len decode_rune encode_rune
refuses_rune_error = refl

-- The header takes all of the buffer but two bytes.
no_room : check_ping 2 (pos 3) (text "a") in_pieces ≡ crashes
unfolding check_ping
no_room = refl

check_ping-encode_example :
    check_ping 100 (pos (length (encode smile))) (encode smile) in_pieces
    ≡ passes (encode smile) in_pieces.pieces
check_ping-encode_example =
    check_ping-encode 100 smile in_pieces
      ((refl, refl), ((refl, refl), ((refl, refl), ((refl, refl), tt)))) (omega arith)
