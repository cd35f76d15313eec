-- ===== src/UserDb/Users/Restart.antt =====
-- A user that was saved is the same after a restart, when the caches are empty.
use mnm.Prelude.{
  ℕ, suc, ◌<◌, ◌≡◌, refl, ◌∙◌, ap, subst, Bool, true, false, some, [], ◌∷◌, Text, Dict, is_empty,
  length, all, lookup, insert, lookup-insert, eq_text_refl, eq_text, if◌then◌else◌, ◌==◌, arith,
  Bool-cases, inl, inr,
}
use mnm.UserDb.Model.{Node, User, Object, user, a_user, qid}
use mnm.UserDb.Disk.{document}
use mnm.UserDb.Names.{file_name}
use mnm.UserDb.Record.{get_record}
use mnm.UserDb.Op.{UserDb, Result, ok}
use mnm.UserDb.Fetch.{fetch_user, cache_user, is_uid_char}
use mnm.UserDb.Cached.{HasUser, fetch_user-HasUser, summed_user}
use mnm.UserDb.Users.{add_node, verify_node}
use mnm.UserDb.Users.Valid.{IsValid, Changed, new_node}
use mnm.UserDb.Users.Adding.{AddsNode, exists, full, added, add_node_lem}
use mnm.UserDb.Users.Sessions.{verify_node_lem, verdict}

-- What NewUserDb makes of directories with no temporary file.
abbrev pub restarted : UserDb → UserDb
restarted db = record { user = []; alias = []; group = []; disk = db.disk }

-- The record as getRecord leaves it.
abbrev pub unsummed : User → User
unsummed u = record u { check_sum = 0 }

==-self : (n : ℕ) → (n == n) ≡ true
==-self n = ground arith

module _ (crc : Object → ℕ) (uid : Text) (u : User) (m : Dict Node) (db : UserDb) where
  abbrev pub IsStored : Type 0
  IsStored = lookup uid db.disk.users ≡ some (document (a_user (summed_user crc u)))

  abbrev loaded : UserDb
  loaded = record (restarted db) { user = (uid, unsummed u) ∷ [] }

  get_record-IsStored :
      is_empty uid ≡ false
      → IsStored
      → get_record crc user uid (restarted db) ≡ (ok (a_user (unsummed u)), restarted db)
  unfolding get_record file_name
  get_record-IsStored filled e =
      rw (filled, e, get_record) (rw (==-self (crc (a_user (unsummed u)))))

  fetch_user-IsStored :
      (make : Bool)
      → is_empty uid ≡ false
      → all is_uid_char uid ≡ true
      → u.nodes ≡ some m
      → IsStored
      → fetch_user crc uid make (restarted db) ≡ (ok (some (unsummed u)), loaded)
  unfolding fetch_user lookup insert cache_user
  fetch_user-IsStored make filled named made e =
      rw named (rw (get_record-IsStored filled e) (rw (made, fetch_user) refl))

  loaded-HasUser : all is_uid_char uid ≡ true → db.disk.temp ≡ [] → HasUser uid (unsummed u) loaded
  unfolding lookup
  loaded-HasUser named quiet = record {
    named = named;
    cached = rw (eq_text_refl uid);
    quiet = quiet;
  }

  same_answer :
      (k : Text)
      → is_empty uid ≡ false
      → all is_uid_char uid ≡ true
      → db.disk.temp ≡ []
      → u.nodes ≡ some m
      → IsStored
      → verify_node crc uid k (restarted db) ≡ verify_node crc uid k loaded
  unfolding verify_node
  same_answer k filled named quiet made e =
      rw (fetch_user-IsStored false filled named made e)
        (rw (fetch_user-HasUser crc uid false (loaded-HasUser named quiet)))

  -- A saved user verifies after a restart as it did before.
  verify_node-restarted :
      (k : Text)
      → is_empty uid ≡ false
      → all is_uid_char uid ≡ true
      → db.disk.temp ≡ []
      → IsStored
      → IsValid (summed_user crc u) m
      → (verify_node crc uid k (restarted db)).0 ≡ verdict uid (lookup k m)
  verify_node-restarted k filled named quiet e v = rw (same_answer k filled named quiet v.made e) (
      rw (verify_node_lem crc uid (unsummed u) m loaded k (loaded-HasUser named quiet) still_valid))
    where
      still_valid : IsValid (unsummed u) m
      still_valid = record {
        made = v.made;
        numbered = v.numbered;
        counted = v.counted;
        in_service = v.in_service;
        bounded = v.bounded;
      }

module _ (crc : Object → ℕ) (uid : Text) (u : User) (m : Dict Node) (db : UserDb) (k : Text) where
  Changed-by :
      (q : Text) (db' : UserDb) {r : Result Text × UserDb}
      → AddsNode crc uid u m db k r
      → r ≡ (ok q, db')
      → (q ≡ qid uid (suc (length m))) × Changed crc uid u m db (insert k (new_node m) m) db'
  Changed-by q db' (exists nd e) f = cc
  Changed-by q db' (full e c) f = cc
  Changed-by q db' (added db'' e room c) f = (
    ground arith,
    subst (Changed crc uid u m db (insert k (new_node m) m))
        (ap (λ (r : Result Text × UserDb). r.1) f) c,
  )

  -- When AddNode succeeds on a valid user in the cache, with a Uid that is not empty, that has had fewer than 255 nodes and the server
  -- is then restarted, Verify answers the returned Qid for the new node, and for every other node what
  -- it answered before AddNode.
  pub add_node-restart :
      (q : Text) (db' : UserDb) (j : Text)
      → is_empty uid ≡ false
      → HasUser uid u db
      → IsValid u m
      → length m < 255
      → add_node crc uid k db ≡ (ok q, db')
      → (verify_node crc uid j (restarted db')).0
        ≡ (if eq_text k j then ok q else (verify_node crc uid j db).0)
  add_node-restart q db' j filled h v short ran =
      let (e, c) = Changed-by q db' (add_node_lem crc uid u m db h v k short) ran in
      verify_node-restarted crc uid c.to (insert k (new_node m) m) db' j filled h.named c.held.quiet
        (stored c) c.valid
      ∙ (rw (verify_node_lem crc uid u m db j h v) (
          rw e
            (rw lookup-insert (elim (Bool-cases (eq_text k j)) [ inl f ↦ rw f | inr f ↦ rw f ]))))
    where
      stored :
          (c : Changed crc uid u m db (insert k (new_node m) m) db')
          → IsStored crc uid c.to (insert k (new_node m) m) db'
      stored c = unfold file_name in c.put.saved.saved
