-- ===== src/Qlib/Post/Tests.antt =====
-- A message to another user, and one to someone who is not there.
use mnm.Qlib.Server.{Server}
use mnm.Qlib.Op.{ok}
use mnm.Qlib.Nodes.{get_node}
use mnm.Qlib.Store.{put_link, node_sub}
use mnm.Prelude.{eq_text, lookup, insert, ◌≡◌, refl, true, false, some, [], ◌∷◌, text}
use mnm.Qlib.Header.{Header, HeaderFor, zero_header, for_user, pos}
use mnm.Qlib.Samples.{env, server, online}
use mnm.Qlib.Post.{put_links, queue_msg, post_msg_id}
use mnm.Qlib.Post.Failing.{FailsClean, queue_msg-FailsClean}
use mnm.Qlib.Post.Delivery.{Removed, post_msg_id-Removed}

abbrev to_other : HeaderFor
to_other = record { id = text "6"; type = for_user }

abbrev to_no_one : HeaderFor
to_no_one = record { id = text "-"; type = for_user }

abbrev header : Header
header = record zero_header { op = 7; id = text "1"; data_len = pos 2; for_ = some (to_other ∷ []) }

queue_msg-FailsClean_example : FailsClean server (
    queue_msg env
      (text "5")
      (text "5.01")
      (text "a")
      b'M'
      (to_other ∷ to_no_one ∷ [])
      []
      true
      server)
queue_msg-FailsClean_example =
    queue_msg-FailsClean env (text "5") (text "5.01") (text "a") b'M' (to_other ∷ to_no_one ∷ []) []
      true server

post_msg_id-Removed_example :
    Removed (text "a") (post_msg_id env header [] (text "hi") (text "a") 0 online)
post_msg_id-Removed_example = post_msg_id-Removed env header [] (text "hi") (text "a") 0 online

-- A server whose message "a" is stored, and still has its temporary name.
abbrev sending : Server
sending = record online.server {
  store = record online.server.store { temp = (text "a", 0) ∷ []; files = text "hi" ∷ [] };
}

put_links-sending :
    (put_links env
      (text "5")
      (text "5.01")
      (text "a")
      (text "Ma")
      false
      (text "6.01" ∷ text "5.01" ∷ [])
      sending).0
    ≡ ok tt
unfolding put_links eq_text get_node lookup put_link node_sub insert
put_links-sending = refl
