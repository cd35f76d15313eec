-- ===== src/Qlib/System/Tests.antt =====
-- A system in which a link tells its revision and logs in, another does the same in vain, and the
-- first ends.
use mnm.Prelude.{refl, some, none, [], text}
use mnm.Qlib.Header.{Header, zero_header}
use mnm.Qlib.Op.{eof}
use mnm.Qlib.Stream.{Stream}
use mnm.Qlib.Server.{Link, new_link}
use mnm.Qlib.Samples.{env, server}
use mnm.Qlib.System.{System, after, handling, Reached, boots, connects, handles}
use mnm.Qlib.System.Exclusive.{Exclusive, Reached-Exclusive}

abbrev no_stream : Stream
no_stream = record { pieces = []; ending = eof }

abbrev revision : Header
revision = record zero_header { op = 0; id = text "1" }

abbrev login : Header
login = record zero_header { op = 2; uid = text "5"; node = text "phone====" }

abbrev booted : System
booted = record { links = λ i. none; server = record server { nodes = [] } }

abbrev connected : System
connected = after booted 1 (some (new_link no_stream)) booted.server

abbrev link_of : System → Link
link_of s = elim (s.links 1) [ none ↦ new_link no_stream | some l ↦ l ]

abbrev revised : System
revised = handling env connected 1 (new_link no_stream) 0 revision []

abbrev logged_in : System
logged_in = handling env revised 1 (link_of revised) 0 login []

abbrev again : System
again = after logged_in 2 (some (new_link no_stream)) logged_in.server

logged_in-Reached : Reached env again
logged_in-Reached = connects logged_in 2 no_stream refl (
    handles revised 1 (link_of revised) 0 login [] refl (
      handles connected 1 (new_link no_stream) 0 revision [] refl
        (connects booted 1 no_stream refl (boots server))))

Reached-Exclusive_example : Exclusive again
Reached-Exclusive_example = Reached-Exclusive env again logged_in-Reached
