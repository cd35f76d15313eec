-- ===== src/UserDb/Users/Adding.antt =====
-- AddNode on a user that the cache holds: every outcome.
use mnm.Prelude.{
  ℕ, suc, ◌+◌, ◌%◌, ◌<◌, ◌≡◌, refl, false, none, some, arith, Text, Dict, length, lookup, insert,
  Option-cases, inl, inr, Bool-cases, ◌==◌,
}
use mnm.UserDb.Model.{Node, User, Object, user, a_user, user_node_max, qid, node_invalid, max_nodes}
use mnm.UserDb.Op.{UserDb, Result, ok, err, continue}
use mnm.UserDb.Record.{put_record}
use mnm.UserDb.Cached.{HasUser, fetch_user-HasUser, summed_user}
use mnm.UserDb.Users.{add_node, with_node}
use mnm.UserDb.Users.Valid.{IsValid, new_node, Changed, change}
use mnm.UserDb.Users.Nodes.{active-insert_new, insert_new-IsNumbered}

module _ (crc : Object → ℕ) (uid : Text) (u : User) (m : Dict Node) (db : UserDb) where
  pub data AddsNode (k : Text) : Result Text × UserDb → Type 0 where
    exists : (nd : Node) → lookup k m ≡ some nd → AddsNode k (err node_invalid, db)
    full :
        lookup k m ≡ none
        → u.non_defunct_nodes_count ≡ user_node_max
        → AddsNode k (err max_nodes, db)
    added :
        (db' : UserDb)
        → lookup k m ≡ none
        → u.non_defunct_nodes_count < user_node_max
        → Changed crc uid u m db (insert k (new_node m) m) db'
        → AddsNode k (ok (qid uid (suc (length m))), db')

  module _ (h : HasUser uid u db) (v : IsValid u m) (k : Text) where
    add_node-exists :
        (nd : Node) → lookup k m ≡ some nd → add_node crc uid k db ≡ (err node_invalid, db)
    unfolding add_node
    add_node-exists nd e =
        rw (fetch_user-HasUser crc uid false h) (ground (arith, v.made, v.numbered.in_range k nd e))

    add_node-full :
        lookup k m ≡ none
        → u.non_defunct_nodes_count ≡ user_node_max
        → add_node crc uid k db ≡ (err max_nodes, db)
    unfolding add_node
    add_node-full e c = rw (fetch_user-HasUser crc uid false h) (ground (arith, v.made))

    pub add_node-puts :
        lookup k m ≡ none
        → u.non_defunct_nodes_count < user_node_max
        → length m < 255
        → add_node crc uid k db
          ≡ continue
              (put_record crc user uid
                (a_user (with_node u m k (new_node m) (u.non_defunct_nodes_count + 1)))
                db)
              (λ _ db'. (ok (qid uid (suc (length m))), db'))
    unfolding add_node
    add_node-puts e room short =
        rw (fetch_user-HasUser crc uid false h) (rw v.made (rw e (rw (neq, num) refl)))
      where
        neq : (u.non_defunct_nodes_count == user_node_max) ≡ false
        neq = ground arith

        num : (length m % 256 + 1) % 256 ≡ suc (length m)
        num = omega arith

    pub added-IsValid :
        lookup k m ≡ none
        → u.non_defunct_nodes_count < user_node_max
        → IsValid
            (summed_user crc (with_node u m k (new_node m) (u.non_defunct_nodes_count + 1)))
            (insert k (new_node m) m)
    added-IsValid e room = record {
      made = refl;
      numbered = insert_new-IsNumbered m v.numbered k e;
      counted = omega (arith, active-insert_new k (new_node m) m e, v.counted);
      in_service = omega arith;
      bounded = omega arith;
    }

    -- AddNode on a valid user that has had fewer than 255 nodes: a node that exists is refused, so is
    -- one beyond 100 nodes in service, and any other is added with the next number; the record that
    -- is saved is valid again, with the authentication and the aliases as they were, none touched.
    pub add_node_lem : length m < 255 → AddsNode k (add_node crc uid k db)
    add_node_lem short = elim (Option-cases (lookup k m)) [
      | inr (nd, e) ↦ rw (add_node-exists nd e) (exists nd e)
      | inl e ↦ elim (Bool-cases (u.non_defunct_nodes_count == user_node_max)) [
        | inl c ↦ rw (add_node-full e (ground arith)) (full e (ground arith))
        | inr c ↦
            let room : u.non_defunct_nodes_count < user_node_max = ground (arith, v.bounded) in
            let (db', f, changed) =
              change crc uid u m db h (with_node u m k (new_node m) (u.non_defunct_nodes_count + 1))
                _ (added-IsValid e room) refl refl in
            rw (add_node-puts e room short) (rw f (added db' e room changed))
      ]
    ]
