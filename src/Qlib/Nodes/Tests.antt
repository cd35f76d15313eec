-- ===== src/Qlib/Nodes/Tests.antt =====
-- The queue of a node, taken once and then refused.
use mnm.Prelude.{◌≡◌, refl, none, [], text, lookup, eq_text}
use mnm.Qlib.Op.{ok}
use mnm.Qlib.Samples.{env, online}
use mnm.Qlib.Nodes.{get_node, open_queue, take_queue, queue_link}

refused : queue_link env (text "5.01") [] (text "5") online.server ≡ (ok none, online.server)
unfolding queue_link open_queue take_queue get_node lookup eq_text
refused = refl
