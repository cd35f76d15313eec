-- ===== src/UserDb/Users/Dropping.antt =====
-- DropNode and Verify on a user that the cache holds: every outcome.
use mnm.Prelude.{
  ℕ, ◌-◌, ◌<◌, ◌≡◌, refl, true, false, none, some, arith, Text, Dict, lookup, insert, Option-cases,
  inl, inr, Bool-cases, ◌==◌, leb,
}
use mnm.UserDb.Model.{Node, User, Object, user, a_user, qid, node_invalid, last_node}
use mnm.UserDb.Op.{UserDb, Result, ok, err, continue}
use mnm.UserDb.Record.{put_record}
use mnm.UserDb.Cached.{HasUser, fetch_user-HasUser, summed_user}
use mnm.UserDb.Users.{drop_node, with_node}
use mnm.UserDb.Users.Valid.{IsValid, Changed, change}
use mnm.UserDb.Users.Nodes.{active-insert_old, insert_old-IsNumbered}

abbrev pub retired : Node → Node
retired nd = record nd { defunct = true }

module _ (crc : Object → ℕ) (uid : Text) (u : User) (m : Dict Node) (db : UserDb) where
  pub data DropsNode (k : Text) : Result Text × UserDb → Type 0 where
    missing : lookup k m ≡ none → DropsNode k (err node_invalid, db)
    dropped_before :
        (nd : Node)
        → lookup k m ≡ some nd
        → nd.defunct ≡ true
        → DropsNode k (ok (qid uid nd.num), db)
    last :
        (nd : Node)
        → lookup k m ≡ some nd
        → nd.defunct ≡ false
        → u.non_defunct_nodes_count ≡ 1
        → DropsNode k (err last_node, db)
    dropped :
        (db' : UserDb) (nd : Node)
        → lookup k m ≡ some nd
        → nd.defunct ≡ false
        → 1 < u.non_defunct_nodes_count
        → Changed crc uid u m db (insert k (retired nd) m) db'
        → DropsNode k (ok (qid uid nd.num), db')

  module _ (h : HasUser uid u db) (v : IsValid u m) (k : Text) where
    drop_node-missing : lookup k m ≡ none → drop_node crc uid k db ≡ (err node_invalid, db)
    unfolding drop_node
    drop_node-missing e = rw (fetch_user-HasUser crc uid false h) (ground (arith, v.made))

    module _ (nd : Node) (e : lookup k m ≡ some nd) where
      drop_node-again : nd.defunct ≡ true → drop_node crc uid k db ≡ (ok (qid uid nd.num), db)
      unfolding drop_node
      drop_node-again d =
          rw (fetch_user-HasUser crc uid false h)
            (ground (arith, v.made, v.numbered.in_range k nd e))

      drop_node-last :
          nd.defunct ≡ false
          → u.non_defunct_nodes_count ≡ 1
          → drop_node crc uid k db ≡ (err last_node, db)
      unfolding drop_node
      drop_node-last d one =
          rw (fetch_user-HasUser crc uid false h)
            (ground (arith, v.made, v.numbered.in_range k nd e))

      pub drop_node-puts :
          nd.defunct ≡ false
          → 1 < u.non_defunct_nodes_count
          → drop_node crc uid k db
            ≡ continue
                (put_record crc user uid
                  (a_user (with_node u m k (retired nd) (u.non_defunct_nodes_count - 1)))
                  db)
                (λ _ db'. (ok (qid uid nd.num), db'))
      unfolding drop_node
      drop_node-puts d many =
          rw (fetch_user-HasUser crc uid false h)
            (rw v.made (rw e (rw (numbered, d, several) refl)))
        where
          numbered : (nd.num == 0) ≡ false
          numbered = ground (arith, v.numbered.in_range k nd e)

          several : leb u.non_defunct_nodes_count 1 ≡ false
          several = ground arith

      retired-IsValid :
          nd.defunct ≡ false
          → 1 < u.non_defunct_nodes_count
          → IsValid
              (summed_user crc (with_node u m k (retired nd) (u.non_defunct_nodes_count - 1)))
              (insert k (retired nd) m)
      retired-IsValid d many = record {
        made = refl;
        numbered = insert_old-IsNumbered m v.numbered k (retired nd) nd e refl;
        counted = ground (arith, active-insert_old k (retired nd) nd m e, v.counted);
        in_service = omega arith;
        bounded = omega (arith, v.bounded);
      }

      drop_node-found : DropsNode k (drop_node crc uid k db)
      drop_node-found = elim (Bool-cases nd.defunct) [
        | inl d ↦ rw (drop_node-again d) (dropped_before nd e d)
        | inr d ↦ elim (Bool-cases (leb u.non_defunct_nodes_count 1)) [
          | inl c ↦
              let one : u.non_defunct_nodes_count ≡ 1 = ground (arith, v.in_service) in
              rw (drop_node-last d one) (last nd e d one)
          | inr c ↦
              let many : 1 < u.non_defunct_nodes_count = ground arith in
              let (db', f, changed) =
                change crc uid u m db h
                  (with_node u m k (retired nd) (u.non_defunct_nodes_count - 1)) _
                  (retired-IsValid d many) refl refl in
              rw (drop_node-puts d many) (rw f (dropped db' nd e d many changed))
        ]
      ]

    -- DropNode on a valid user: an unknown node is refused; a node that was dropped before is reported
    -- and nothing changes; the last node in service is refused; any other is marked defunct under its
    -- number, and the record that is saved is valid again, with the authentication and the aliases as
    -- they were, none touched.
    pub drop_node_lem : DropsNode k (drop_node crc uid k db)
    drop_node_lem = elim (Option-cases (lookup k m)) [
      | inl e ↦ rw (drop_node-missing e) (missing e)
      | inr (nd, e) ↦ drop_node-found nd e
    ]
