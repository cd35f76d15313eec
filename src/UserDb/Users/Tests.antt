-- ===== src/UserDb/Users/Tests.antt =====
-- The theorems on users at a user with one node and at the same user with two.
use mnm.Prelude.{
  ℕ, zero, suc, ◌∙◌, ◌+◌, ◌*◌, ◌<◌, ◌≡◌, refl, true, none, some, [], ◌∷◌, arith, Text, text, Dict,
  length, lookup, insert, eq_text, if◌then◌else◌,
}
use mnm.UserDb.Model.{Node, User, Object, a_user, a_group, entries, qid, zero_user, node_invalid}
use mnm.UserDb.Disk.{Disk}
use mnm.UserDb.Op.{UserDb, ok, err}
use mnm.UserDb.Cached.{HasUser, put_record-user, summed_user}
use mnm.UserDb.Users.{add_user, add_node, drop_node, verify_node, with_node}
use mnm.UserDb.Users.Valid.{IsValid, new_node}
use mnm.UserDb.Users.Creating.{first_user, first_node, first-IsValid, IsFresh, add_user-new}
use mnm.UserDb.Users.Adding.{AddsNode, add_node_lem, add_node-puts, added-IsValid}
use mnm.UserDb.Users.Dropping.{DropsNode, drop_node_lem, retired}
use mnm.UserDb.Users.Wrap.{add_node-wraps}
use mnm.UserDb.Open.Outcome.{IsSaved}
use mnm.UserDb.Users.Restart.{add_node-restart, restarted}

-- A sum in place of crc32.
abbrev sum : Object → ℕ
sum (a_user u) = 31 * u.non_defunct_nodes_count + length (entries u.nodes) + length u.aliases
sum (a_group g) = 7 + length (entries g.uid)

abbrev uid : Text
uid = text "5"

abbrev phone : Text
phone = text "phone"

abbrev laptop : Text
laptop = text "laptop"

abbrev empty_disk : Disk
empty_disk = record { temp = []; users = []; groups = []; links = [] }

abbrev empty_db : UserDb
empty_db = record { user = []; alias = []; group = []; disk = empty_disk }

abbrev nodes : Dict Node
nodes = insert phone first_node []

abbrev alice : User
alice = summed_user sum (first_user phone [])

abbrev holding : User → UserDb
holding u = record empty_db { user = (uid, u) ∷ [] }

holding-HasUser : (u : User) → HasUser uid u (holding u)
unfolding lookup eq_text
holding-HasUser u = record { named = refl; cached = refl; quiet = refl }

alice-IsValid : IsValid alice nodes
alice-IsValid = first-IsValid sum uid phone [] empty_db

abbrev nodes2 : Dict Node
nodes2 = insert laptop (new_node nodes) nodes

abbrev alice2 : User
alice2 = summed_user sum (with_node alice nodes laptop (new_node nodes) 2)

no_laptop : lookup laptop nodes ≡ none
unfolding lookup insert eq_text
no_laptop = refl

short_nodes : length nodes < 255
unfolding insert eq_text
short_nodes = omega arith

alice2-IsValid : IsValid alice2 nodes2
alice2-IsValid =
    added-IsValid sum uid alice nodes (holding alice) (holding-HasUser alice) alice-IsValid laptop
      no_laptop (omega arith)

-- AddUser
empty-IsFresh : IsFresh uid empty_db
unfolding lookup
empty-IsFresh = record {
  filled = refl;
  named = refl;
  uncached = refl;
  unsaved = refl;
  quiet = refl;
}

add_user-new_example :
    (db' : UserDb) × (add_user sum uid phone [] empty_db ≡ (ok (qid uid 1), db'))
    × HasUser uid alice db'
    × IsValid alice nodes
    × IsSaved (a_user alice) uid empty_disk db'.disk
add_user-new_example = add_user-new sum uid phone [] empty_db empty-IsFresh

-- AddNode
add_node_lem_example :
    AddsNode sum uid alice nodes (holding alice) laptop (add_node sum uid laptop (holding alice))
add_node_lem_example =
    add_node_lem sum uid alice nodes (holding alice) (holding-HasUser alice) alice-IsValid laptop
      short_nodes

abbrev added_db : UserDb
added_db =
    (put_record-user sum uid (with_node alice nodes laptop (new_node nodes) 2) (holding alice)
      refl).0

laptop_added : add_node sum uid laptop (holding alice) ≡ (ok (qid uid 2), added_db)
unfolding qid insert
laptop_added =
    add_node-puts sum uid alice nodes (holding alice) (holding-HasUser alice) alice-IsValid laptop
      no_laptop (omega arith) short_nodes
    ∙ (rw
        ((put_record-user sum uid (with_node alice nodes laptop (new_node nodes) 2) (holding alice)
          refl).1)
        refl)

add_node-restart_example : (verify_node sum uid laptop (restarted added_db)).0 ≡ (
    if eq_text laptop laptop
    then ok (qid uid 2)
    else (verify_node sum uid laptop (holding alice)).0)
add_node-restart_example =
    add_node-restart sum uid alice nodes (holding alice) laptop (qid uid 2) added_db laptop refl
      (holding-HasUser alice) alice-IsValid short_nodes laptop_added

-- DropNode
drop_node_lem_example :
    DropsNode sum uid alice2 nodes2
      (holding alice2)
      laptop
      (drop_node sum uid laptop (holding alice2))
drop_node_lem_example =
    drop_node_lem sum uid alice2 nodes2 (holding alice2) (holding-HasUser alice2) alice2-IsValid
      laptop

abbrev dropped_db : UserDb
dropped_db =
    (put_record-user sum uid (with_node alice2 nodes2 laptop (retired (new_node nodes)) 1)
      (holding alice2) refl).0

-- 255 nodes, of which one is in service: a node is named by as many bytes as its number.
unfoldable name_of : ℕ → Text
name_of zero = []
name_of (suc n) = b'n' ∷ name_of n

unfoldable many : ℕ → Dict Node
unfolding name_of
many zero = []
many (suc n) = (name_of n, record { defunct = true; num = suc n }) ∷ many n

abbrev bob : User
bob = record zero_user { nodes = some (many 255); non_defunct_nodes_count = 1 }

add_node-wraps_example :
    (db' : UserDb) × (add_node sum uid phone (holding bob) ≡ (ok (qid uid 0), db'))
    × (verify_node sum uid phone db' ≡ (err node_invalid, db'))
unfolding many name_of lookup eq_text
add_node-wraps_example =
    add_node-wraps sum uid phone bob (many 255) (holding bob) (holding-HasUser bob) refl refl
      (ground arith) refl
