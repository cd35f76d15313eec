-- ===== src/Qlib/Handle/Dispatch/Tests.antt =====
-- A new link that posts, and one that tells its revision first.
use mnm.Prelude.{◌≡◌, refl, inl, some, [], text}
use mnm.Qlib.Header.{Header, zero_header}
use mnm.Qlib.Quit.{msg_op_disallowed_off}
use mnm.Qlib.Op.{ok}
use mnm.Qlib.Samples.{env, server, offline, online}
use mnm.Qlib.Handle.Dispatch.{gate, gated, handle_msg}
use mnm.Qlib.Handle.Dispatch.Gate.{handle_msg-server}
use mnm.Qlib.Handle.Dispatch.Identity.{IsOf, handle_msg-IsOf}

abbrev post : Header
post = record zero_header { op = 7; id = text "1" }

refused_post : handle_msg env 0 post [] offline ≡ (ok (some msg_op_disallowed_off), offline)
unfolding handle_msg gate gated
refused_post = refl

handle_msg-server_example : (handle_msg env 0 post [] offline).1.server ≡ server
handle_msg-server_example = handle_msg-server env 0 post [] offline refl (inl refl)

handle_msg-IsOf_example : IsOf (text "5") (text "5.01") (handle_msg env 0 post [] online).1.link
handle_msg-IsOf_example = handle_msg-IsOf env 0 post [] online refl
