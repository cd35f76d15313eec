-- ===== src/UserDb/Users/Wrap.antt =====
-- AddNode numbers a node by a uint8: the 256th node gets the number 0, which says that there is none.
use mnm.Prelude.{
  ℕ, ◌+◌, ◌≡◌, ◌≢◌, refl, false, none, some, arith, Text, Dict, length, lookup, lookup-insert,
  eq_text_refl, ◌==◌,
}
use mnm.UserDb.Model.{Node, User, Object, user, a_user, qid, user_node_max, node_invalid}
use mnm.UserDb.Record.{put_record}
use mnm.UserDb.Op.{UserDb, ok, err, continue}
use mnm.UserDb.Cached.{HasUser, fetch_user-HasUser, put_record-user, PutUser-HasUser, summed_user}
use mnm.UserDb.Users.{add_node, verify_node, with_node}

abbrev zero_numbered : Node
zero_numbered = record { defunct = false; num = 0 }

module _ (crc : Object → ℕ) (uid k : Text) (u : User) (m : Dict Node) (db : UserDb)
    (h : HasUser uid u db) (made : u.nodes ≡ some m) where
  abbrev changed : User
  changed = with_node u m k zero_numbered (u.non_defunct_nodes_count + 1)

  add_node-puts :
      lookup k m ≡ none
      → u.non_defunct_nodes_count ≢ user_node_max
      → length m ≡ 255
      → add_node crc uid k db
        ≡ continue (put_record crc user uid (a_user changed) db) (λ _ db'. (ok (qid uid 0), db'))
  unfolding add_node
  add_node-puts new room long =
      rw (fetch_user-HasUser crc uid false h) (rw made (rw new (rw (neq, long) refl)))
    where
      neq : (u.non_defunct_nodes_count == user_node_max) ≡ false
      neq = ground arith

  verify_node-zero :
      (db' : UserDb)
      → HasUser uid (summed_user crc changed) db'
      → verify_node crc uid k db' ≡ (err node_invalid, db')
  unfolding verify_node
  verify_node-zero db' h' =
      rw (fetch_user-HasUser crc uid false h') (rw lookup-insert (rw (eq_text_refl k)))

  -- When a user in the cache has had 255 nodes and has not 100 in service, AddNode of a new node
  -- succeeds and returns a Qid with number 0, and Verify then refuses that node.
  pub add_node-wraps :
      lookup k m ≡ none
      → u.non_defunct_nodes_count ≢ user_node_max
      → length m ≡ 255
      → (db' : UserDb) × (add_node crc uid k db ≡ (ok (qid uid 0), db'))
        × (verify_node crc uid k db' ≡ (err node_invalid, db'))
  add_node-wraps new room long =
      let (db', e, p) = put_record-user crc uid changed db h.quiet in
      (
        db',
        rw (add_node-puts new room long) (rw e),
        verify_node-zero db' (PutUser-HasUser crc h.named p),
      )
