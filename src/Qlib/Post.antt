-- ===== src/Qlib/Post.antt =====
-- qlib/qlib.go, _postMsg, _postMsgId, _postNotify and _queueMsg: a message and its notice are stored,
-- and linked to the nodes of those that they are for.
pub mod Linked
pub mod Links
pub mod Failing
pub mod Delivery
mod Tests
use mnm.Prelude.{
  ℕ, suc, ◌+◌, ◌-◌, Bool, true, false, not, ◌&&◌, ◌||◌, Option, none, some, List, [], ◌∷◌, ◌++◌,
  Text, text, Dict, length, take, drop, insert, is_empty, any, ltb, leb, ◌==◌, eq_text,
  if◌then◌else◌,
}
use mnm.UserDb.Users.{open_nodes, close_nodes}
use mnm.UserDb.Groups.{group_get_users}
use mnm.Qlib.Header.{
  ℤ, pos, negsuc, is_zero, lt_int, Header, HeaderFor, nth, op_user_edit, for_group_all,
  for_group_excl, for_self, op_post_notify,
}
use mnm.Qlib.Op.{
  Ending, eof, net_error, other_error, Fault, stream, Result, ok, err, panic, Op, pure, raise,
  crash, ◌>>=◌, ◌>>◌,
}
use mnm.UserDb.Model.{or_zero}
use mnm.Qlib.Elastic.{receive}
use mnm.Qlib.Stream.{Stream}
use mnm.Qlib.Store.{make_id, recv_file, rm_file, put_link}
use mnm.Qlib.Ping.{to_nat}
use mnm.Qlib.Server.{
  Value, string, number, natural, Msg, Queue, Server, Link, State, Env, in_db, in_store,
  ignoring_error, must, deferring, Tried, worked, failed, try, pack_msg, get, on_server, on_link,
}
use mnm.Qlib.Nodes.{get_node, queue_in, set_queue}

abbrev pub eq_int : ℤ → ℤ → Bool
eq_int a b = not (lt_int a b) && not (lt_int b a)

-- The difference of two lengths.
abbrev pub minus : ℤ → ℤ → ℤ
minus (pos a) (pos b) = if leb b a then pos (a - b) else negsuc (b - a - 1)
minus (pos a) (negsuc b) = pos (a + suc b)
minus (negsuc a) (pos b) = negsuc (a + b)
minus (negsuc a) (negsuc b) = if leb a b then pos (b - a) else negsuc (a - b - 1)

-- The nodes that a message goes to, and whether it is for the user's own Uid.
pub record Targets : Type 0 where
  pub nodes : List Text
  pub my_uid : Bool

-- aForNodes[aNd] = true; the map's order is that of insertion here.
unfoldable pub add_nodes : List Text → List Text → List Text
add_nodes [] nodes = nodes
add_nodes (n ∷ ns) nodes = add_nodes ns (if any (eq_text n) nodes then nodes else nodes ++ n ∷ [])

-- A nil slice has no elements.
abbrev pub entries_of : Option (List HeaderFor) → List HeaderFor
entries_of none = []
entries_of (some l) = l

-- The names of the operations in sMsgOps.
abbrev pub msg_ops : List Text
msg_ops =
    []
    ∷ text "registered"
    ∷ text "login"
    ∷ text "user"
    ∷ text "ohiedit"
    ∷ text "invite"
    ∷ text "member"
    ∷ text "delivery"
    ∷ text "delivery"
    ∷ text "ping"
    ∷ []

abbrev pub op_name : ℕ → Text
op_name op = or_zero [] (nth op msg_ops)

abbrev pub with_number : Text → ℤ → Msg → Msg
with_number k z m = if is_zero z then m else insert k (number z) m

abbrev pub with_natural : Text → ℕ → Msg → Msg
with_natural k n m = if n == 0 then m else insert k (natural n) m

unfoldable pub merge : Msg → Msg → Msg
merge [] m = m
merge ((k, v) ∷ etc) m = merge etc (insert k v m)

-- The checksum of a header is in the header that is stored.
unfoldable pub summed : Env → Msg → Option Text
summed env m = elim (pack_msg env m) [
  | none ↦ none
  | some bytes ↦ pack_msg env (insert (text "headsum") (natural (env.crc32 bytes)) m)
]

abbrev pub or_crash {ℓ} : {S : Type 0} {A : Type ℓ} → Option A → Op S A
or_crash none = crash
or_crash (some a) = pure a

-- What goes on after recvFile: a connection's error or the end is returned, another error panics,
-- and the temporary file is removed when all has run. After an error nothing reads the stream.
abbrev pub stored {ℓ} : {A : Type ℓ} → Text → Op State A → Tried Stream → Op State A
stored id next (worked left) =
    deferring (do on_link (λ l. record l { stream = left }); next)
      (on_server (in_store (rm_file id)))
stored id next (failed (stream eof)) =
    deferring (raise (stream eof)) (on_server (in_store (rm_file id)))
stored id next (failed (stream (net_error q))) =
    deferring (raise (stream (net_error q))) (on_server (in_store (rm_file id)))
stored id next (failed _) = crash

unfoldable pub storing {ℓ} : {A : Type ℓ} → Text → Text → Text → ℕ → Op State A → Op State A
storing id head bytes len next = do
  s ← get (λ s. s.link.stream)
  r ← try (on_server (in_store (recv_file id head bytes s len)))
  stored id next r

module _ (env : Env) (uid node : Text) where
  unfoldable pub users_of : HeaderFor → Op Server (List Text)
  users_of to =
      if eq_int to.type for_group_all || eq_int to.type for_group_excl
      then in_db (group_get_users env.check_sum env.is_print to.id uid)
      else pure (to.id ∷ [])

  abbrev skips : HeaderFor → Text → Bool
  skips to u = eq_int to.type for_group_excl && eq_text u uid

  abbrev with_user : HeaderFor → Text → List Text → Targets → Targets
  with_user to u nodes t = record {
    nodes = add_nodes nodes t.nodes;
    my_uid = t.my_uid || eq_text u uid && not (eq_int to.type for_self);
  }

  -- The users of one recipient; each stays open until all that follows, `next` at the end, has run.
  unfoldable pub with_users :
      HeaderFor → List Text → Targets → (Targets → Op Server (Unit {0})) → Op Server (Unit {0})
  with_users to [] t next = next t
  with_users to (u ∷ us) t next =
      let skipped = with_users to us t next in
      if skips to u then skipped else do
        nodes ← in_db (open_nodes env.check_sum u)
        deferring (with_users to us (with_user to u nodes t) next)
            (in_db (close_nodes env.check_sum u))

  unfoldable pub with_targets :
      List HeaderFor → Targets → (Targets → Op Server (Unit {0})) → Op Server (Unit {0})
  unfolding users_of with_users
  with_targets [] t next = next t
  with_targets (to ∷ tos) t next = do
    us ← users_of to
    with_users to us t (λ t'. with_targets tos t' next)

  -- aNd.queue.in <- aPrioId
  unfoldable pub tell_queue : Text → Text → Op Server (Unit {0})
  tell_queue prio_id n s = elim (queue_in n s.nodes) [
    | none ↦ (ok tt, s)
    | some q ↦ set_queue n (record q { buf = receive prio_id q.buf }) s
  ]

  -- One node of the set.
  unfoldable pub serve : Text → Text → Text → Op Server (Unit {0})
  unfolding tell_queue
  serve id prio_id n = do get_node n; must (in_store (put_link id n prio_id)); tell_queue prio_id n

  unfoldable pub put_links : Text → Text → Bool → List Text → Op Server (Unit {0})
  unfolding serve
  put_links id prio_id mine [] = pure tt
  put_links id prio_id mine (n ∷ ns) =
      let rest = put_links id prio_id mine ns in
      if eq_text n node && not mine then rest else do serve id prio_id n; rest

  -- _queueMsg
  unfoldable pub queue_msg :
      Text → ℕ → List HeaderFor → List HeaderFor → Bool → Op Server (Unit {0})
  unfolding with_targets put_links
  queue_msg id prio for_a for_b self =
      let me = if self then record { id = uid; type = for_self } ∷ [] else [] in
      with_targets (for_a ++ me ++ for_b) (record { nodes = []; my_uid = false })
        (λ t. put_links id (prio ∷ id) t.my_uid t.nodes)

-- The header of a message that is stored.
unfoldable pub msg_head : Env → Text → Header → Msg → Text → ℕ → Msg
unfolding merge
msg_head env uid h etc id notify = merge etc (
    with_natural (text "notify") notify (
      with_natural (text "datasum") h.data_sum (
        with_number (text "datahead") h.data_head (
          (text "op", string (op_name h.op))
          ∷ (text "id", string id)
          ∷ (text "from", string uid)
          ∷ (text "datalen", number h.data_len)
          ∷ (text "posted", string env.posted)
          ∷ []))))

-- The header of a notice of the message `post_id`.
unfoldable pub note_head : Env → Text → Header → Text → Text → Msg
note_head env uid h id post_id = with_natural (text "datasum") h.note_sum (
    with_number (text "datahead") h.note_head (
      (text "op", string (text "notify"))
      ∷ (text "id", string id)
      ∷ (text "from", string uid)
      ∷ (text "datalen", number h.note_len)
      ∷ (text "posted", string env.posted)
      ∷ (text "postid", string post_id)
      ∷ []))

abbrev pub prio_default : ℕ
prio_default = b'M'

module _ (env : Env) where
  unfoldable pub queue_from :
      Text → ℕ → List HeaderFor → List HeaderFor → Bool → Op State (Unit {0})
  queue_from id prio for_a for_b self s =
      on_server (queue_msg env s.link.uid s.link.node id prio for_a for_b self) s

  unfoldable pub served : Header → Text → Op State (Text × Text)
  unfolding queue_from
  served h id = do
    queue_from id (if h.op == op_user_edit then b'E' else prio_default) (entries_of h.for_) []
        (not (h.op == op_post_notify) || not h.for_not_self)
    pure (id, env.posted)

  -- _postMsgId, with the data that came with the header.
  unfoldable pub post_msg_id : Header → Msg → Text → Text → ℕ → Op State (Text × Text)
  unfolding summed storing msg_head served
  post_msg_id h etc bytes id notify = do
    uid ← get (λ s. s.link.uid)
    head ← or_crash (summed env (msg_head env uid h etc id notify))
    storing id head bytes (to_nat h.data_len) (served h id)

  -- _postMsg
  unfoldable pub post_msg : Header → Msg → Text → Op State (Text × Text)
  unfolding post_msg_id
  post_msg h etc bytes = do id ← on_server (in_store make_id); post_msg_id h etc bytes id 0

  -- _postNotify: the notice comes first in the data.
  unfoldable pub post_notify : Header → Text → Op State (Text × Text)
  unfolding summed storing note_head queue_from post_msg_id
  post_notify h bytes = do
    msg_id ← on_server (in_store make_id)
    note_id ← on_server (in_store make_id)
    uid ← get (λ s. s.link.uid)
    head ← or_crash (summed env (note_head env uid h note_id msg_id))
    let n = to_nat h.note_len
    let note_for_count = length (entries_of h.for_) + length h.note_for
    storing note_id head (take n bytes) n (do
      _ ←
          post_msg_id (record h { data_len = minus h.data_len h.note_len }) [] (drop n bytes) msg_id
            (if h.for_not_self then note_for_count else note_for_count + 1)
      queue_from note_id prio_default h.note_for (entries_of h.for_) true
      pure (msg_id, env.posted))
