-- ===== src/UserDb/Users/Creating.antt =====
-- AddUser: a user that is nowhere is made; for one that is there the call is a retry or is refused.
use mnm.Prelude.{
  ℕ, ◌≡◌, refl, true, false, none, some, List, [], ◌∷◌, arith, Text, Dict, is_empty, all, lookup,
  insert, if◌then◌else◌, ◌==◌, eq_of_eq_text,
}
use mnm.UserDb.Model.{
  Node, User, Object, user, a_user, or_zero, zero_node, zero_user, qid, missing_node,
}
use mnm.UserDb.Record.{put_record, get_record}
use mnm.UserDb.Op.{UserDb, ok, err, continue}
use mnm.UserDb.Names.{file_name}
use mnm.UserDb.Fetch.{fetch_user, cache_user, is_uid_char}
use mnm.UserDb.Cached.{HasUser, fetch_user-HasUser, put_record-user, PutUser-HasUser, summed_user}
use mnm.UserDb.Open.Outcome.{IsSaved}
use mnm.UserDb.Users.{add_user}
use mnm.UserDb.Users.Nodes.{active, IsNumbered}
use mnm.UserDb.Users.Valid.{IsValid}

abbrev pub first_node : Node
first_node = record { defunct = false; num = 1 }

abbrev pub first_user : Text → List (Text × Text) → User
first_user k auth = record zero_user {
  nodes = some (insert k first_node []);
  non_defunct_nodes_count = 1;
  authentication = auth;
}

-- A Uid of at least one character, and no record of the user, in the cache or on disk.
pub record IsFresh (uid : Text) (db : UserDb) : Type 0 where
  pub filled : is_empty uid ≡ false
  pub named : all is_uid_char uid ≡ true
  pub uncached : lookup uid db.user ≡ none
  pub unsaved : lookup uid db.disk.users ≡ none
  pub quiet : db.disk.temp ≡ []

module _ (crc : Object → ℕ) (uid k : Text) (auth : List (Text × Text)) (db : UserDb) where
  abbrev made : UserDb
  made = record db { user = insert uid (record zero_user { nodes = some [] }) db.user }

  get_record-none :
      is_empty uid ≡ false
      → lookup uid db.disk.users ≡ none
      → get_record crc user uid db ≡ (ok (a_user zero_user), db)
  unfolding get_record file_name
  get_record-none filled e = rw (filled, e, get_record)

  cache_user-none :
      (u : User)
      → lookup uid db.user ≡ none
      → cache_user uid u db ≡ (ok (some u), record db { user = insert uid u db.user })
  unfolding cache_user
  cache_user-none u e = rw (e, cache_user)

  fetch_user-make :
      IsFresh uid db
      → fetch_user crc uid true db ≡ (ok (some (record zero_user { nodes = some [] })), made)
  unfolding fetch_user
  fetch_user-make h = rw (h.named) (
      rw (h.uncached, fetch_user)
        (rw (get_record-none h.filled h.unsaved) (cache_user-none _ h.uncached)))

  add_user-puts :
      IsFresh uid db
      → add_user crc uid k auth db
        ≡ continue
            (put_record crc user uid (a_user (first_user k auth)) made)
            (λ _ db'. (ok (qid uid 1), db'))
  unfolding add_user
  add_user-puts h = rw (fetch_user-make h)

  first-IsNumbered : IsNumbered (insert k first_node [])
  unfolding insert lookup
  first-IsNumbered = record {
    in_range = λ j x e. ground arith;
    distinct = λ i j a b e f s. ground (arith, eq_of_eq_text k i, eq_of_eq_text k j);
  }

  pub first-IsValid : IsValid (summed_user crc (first_user k auth)) (insert k first_node [])
  first-IsValid = record {
    made = refl;
    numbered = first-IsNumbered;
    counted = unfold active insert in omega arith;
    in_service = omega arith;
    bounded = omega arith;
  }

  -- AddUser of a Uid that is not empty and neither cached nor on disk makes a valid user with the one node, numbered
  -- 1, and the given authentication, and returns that node's Qid. The record is in the cache and saved.
  pub add_user-new :
      IsFresh uid db
      → (db' : UserDb) × (add_user crc uid k auth db ≡ (ok (qid uid 1), db'))
        × HasUser uid (summed_user crc (first_user k auth)) db'
        × IsValid (summed_user crc (first_user k auth)) (insert k first_node [])
        × IsSaved (a_user (summed_user crc (first_user k auth))) uid db.disk db'.disk
  add_user-new h =
      let (db', e, p) = put_record-user crc uid (first_user k auth) made h.quiet in
      (db', rw (add_user-puts h) (rw e), PutUser-HasUser crc h.named p, first-IsValid, p.saved)

  -- AddUser of a valid user in the cache changes nothing: with the user's first node it is a retry and
  -- succeeds, and with any other node it is refused.
  pub add_user-again :
      (u : User) (m : Dict Node)
      → HasUser uid u db
      → IsValid u m
      → add_user crc uid k auth db ≡ (
        (if (or_zero zero_node (lookup k m)).num == 1 then ok (qid uid 1) else err missing_node),
        db,
      )
  unfolding add_user
  add_user-again u [] h v = absurd (unfold active in omega (arith, v.counted, v.in_service))
  add_user-again u (e ∷ m) h v = rw (fetch_user-HasUser crc uid true h) (ground (arith, v.made))
