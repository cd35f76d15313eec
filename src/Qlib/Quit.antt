-- ===== src/Qlib/Quit.antt =====
-- qlib/qlib.go: the messages that end a link.
use mnm.Prelude.{Bool, Text, text, if◌then◌else◌}
use mnm.UserDb.Names.{has_suffix}

pub data Quit : Type 0 where
  msg_eof : Quit
  msg_tls_record : Quit
  msg_reset : Quit
  msg_timeout : Quit
  msg_length_bad : Quit
  msg_header_bad : Quit
  msg_base32_bad : Quit
  msg_op_redundant : Quit
  msg_op_disallowed_off : Quit
  msg_op_disallowed_on : Quit
  msg_need_tmtp_rev : Quit
  msg_auth_required : Quit
  msg_register_failure : Quit
  msg_login_failure : Quit
  msg_login_node_online : Quit
  msg_logout : Quit
  msg_datalen_high : Quit
  msg_datalen_low : Quit
  msg_data_not_utf8 : Quit
  msg_for_empty : Quit
  msg_fail : Quit

-- The field Op of a message: whether the client left, failed, or is sent away.
pub data QuitOp : Type 0 where
  eof fail quit : QuitOp

abbrev pub quit_op : Quit → QuitOp
quit_op msg_eof = eof
quit_op msg_tls_record = fail
quit_op msg_reset = fail
quit_op msg_timeout = fail
quit_op msg_fail = fail
quit_op _ = quit

-- The field Error. The one of `msg_fail` is the text of an error, and is only logged.
unfoldable pub quit_error : Quit → Text
quit_error msg_eof = text ""
quit_error msg_tls_record = text "invalid TLS record"
quit_error msg_reset = text "connection reset by peer"
quit_error msg_timeout = text "connection timeout"
quit_error msg_length_bad = text "invalid header length"
quit_error msg_header_bad = text "invalid header"
quit_error msg_base32_bad = text "corrupt base32 value"
quit_error msg_op_redundant = text "disallowed op repetition"
quit_error msg_op_disallowed_off = text "disallowed op on unauthenticated link"
quit_error msg_op_disallowed_on = text "disallowed op on connected link"
quit_error msg_need_tmtp_rev = text "tmtprev was omitted"
quit_error msg_auth_required = text "authentication required"
quit_error msg_register_failure = text "register failure"
quit_error msg_login_failure = text "login failed"
quit_error msg_login_node_online = text "node already connected"
quit_error msg_logout = text "logout ok"
quit_error msg_datalen_high = text "data too long for request type"
quit_error msg_datalen_low = text "data too short for request type"
quit_error msg_data_not_utf8 = text "data not valid UTF8"
quit_error msg_for_empty = text "recipient list empty"
quit_error msg_fail = text ""

-- net.Error: whether it is a timeout, and its text.
pub record NetError : Type 0 where
  pub timeout : Bool
  pub error : Text

-- msgConn
unfoldable pub msg_conn : NetError → Quit
unfolding has_suffix
msg_conn e =
    if e.timeout
    then msg_timeout
    else if has_suffix e.error (text "reset by peer")
    then msg_reset
    else msg_fail
