-- ===== src/UserDb/Users/Sessions.antt =====
-- AddNode and DropNode as Verify and OpenNodes see them afterwards.
use mnm.Prelude.{
  ℕ, suc, ◌<◌, ◌≡◌, sym, ◌∙◌, ap, false, Option, none, some, arith, Text, Dict, length, lookup,
  insert, lookup-insert, eq_text, subst, if◌then◌else◌, Option-cases, inl, inr, Bool-cases,
}
use mnm.UserDb.Model.{Node, User, Object, qid, node_invalid}
use mnm.UserDb.Op.{UserDb, Result, ok, err}
use mnm.UserDb.Cached.{HasUser, fetch_user-HasUser}
use mnm.UserDb.Users.{add_node, verify_node, open_nodes, open_qids}
use mnm.UserDb.Users.Nodes.{length-open_qids}
use mnm.UserDb.Users.Valid.{IsValid, Changed, new_node}
use mnm.UserDb.Users.Adding.{AddsNode, exists, full, added, add_node_lem}

-- What Verify answers for a node.
abbrev pub verdict : Text → Option Node → Result Text
verdict uid none = err node_invalid
verdict uid (some nd) = if nd.defunct then err node_invalid else ok (qid uid nd.num)

module _ (crc : Object → ℕ) (uid : Text) where
  -- Verify on a valid user in the cache answers the Qid of a node in service and refuses any other, and
  -- changes nothing.
  pub verify_node_lem :
      (u : User) (m : Dict Node) (db : UserDb) (k : Text)
      → HasUser uid u db
      → IsValid u m
      → verify_node crc uid k db ≡ (verdict uid (lookup k m), db)
  unfolding verify_node
  verify_node_lem u m db k h v = elim (Option-cases (lookup k m)) [
    | inl e ↦ rw (fetch_user-HasUser crc uid false h) (ground (arith, v.made))
    | inr (nd, e) ↦
        rw (fetch_user-HasUser crc uid false h) (ground (arith, v.made, v.numbered.in_range k nd e))
  ]

  -- OpenNodes on a valid user in the cache lists the Qids of the nodes in service, as many as the record
  -- counts, and changes nothing.
  pub open_nodes_lem :
      (u : User) (m : Dict Node) (db : UserDb)
      → HasUser uid u db
      → IsValid u m
      → (open_nodes crc uid db ≡ (ok (open_qids uid m), db))
        × (length (open_qids uid m) ≡ u.non_defunct_nodes_count)
  unfolding open_nodes
  open_nodes_lem u m db h v =
      (rw (fetch_user-HasUser crc uid false h) (rw v.made), length-open_qids uid m ∙ sym v.counted)

  module _ (u : User) (m : Dict Node) (db : UserDb) (h : HasUser uid u db) (v : IsValid u m)
      (k : Text) where
    -- After the node `k` is set to `nd`, Verify answers by `nd` for it, and as before for the others.
    abbrev pub Answers : Node → UserDb → Type 0
    Answers nd db' =
        (j : Text)
        → verify_node crc uid j db'
          ≡ (if eq_text k j then verdict uid (some nd) else (verify_node crc uid j db).0, db')

    Changed-Answers :
        (nd : Node) (db' : UserDb) → Changed crc uid u m db (insert k nd m) db' → Answers nd db'
    Changed-Answers nd db' c j =
        rw (verify_node_lem _ (insert k nd m) db' j c.held c.valid, verify_node_lem u m db j h v)
          (rw lookup-insert (elim (Bool-cases (eq_text k j)) [ inl e ↦ rw e | inr e ↦ rw e ]))

    adds-Answers :
        (q : Text) (db' : UserDb) {r : Result Text × UserDb}
        → AddsNode crc uid u m db k r
        → r ≡ (ok q, db')
        → (q ≡ qid uid (suc (length m))) × Answers (new_node m) db'
    adds-Answers q db' (exists nd e) f = cc
    adds-Answers q db' (full e c) f = cc
    adds-Answers q db' (added db'' e room c) f = (
      ground arith,
      subst (Answers (new_node m)) (ap (λ (r : Result Text × UserDb). r.1) f)
          (Changed-Answers (new_node m) db'' c),
    )

    -- When AddNode succeeds on a valid user in the cache that has had fewer than 255 nodes, Verify answers
    -- the Qid that it returned for the new node, and as before for every other node.
    pub add_node-verify :
        (q : Text) (db' : UserDb)
        → length m < 255
        → add_node crc uid k db ≡ (ok q, db')
        → (j : Text)
        → verify_node crc uid j db'
          ≡ (if eq_text k j then ok q else (verify_node crc uid j db).0, db')
    add_node-verify q db' short ran j =
        let (e, answers) = adds-Answers q db' (add_node_lem crc uid u m db h v k short) ran in
        rw e (answers j)
