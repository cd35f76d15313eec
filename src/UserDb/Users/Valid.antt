-- ===== src/UserDb/Users/Valid.antt =====
-- Valid users, and the saving of one that stays valid.
use mnm.Prelude.{ℕ, suc, ◌≤◌, ◌≡◌, false, some, Text, Dict, length}
use mnm.UserDb.Model.{Node, User, Object, user, a_user, user_node_max, clear_touched}
use mnm.UserDb.Op.{UserDb, ok}
use mnm.UserDb.Record.{put_record}
use mnm.UserDb.Cached.{HasUser, PutUser, put_record-user, PutUser-HasUser, summed_user}
use mnm.UserDb.Users.Nodes.{active, IsNumbered}

-- A user with the nodes `m`: they are numbered, and those in service are counted, 1 to 100 of them.
pub record IsValid (u : User) (m : Dict Node) : Type 0 where
  pub made : u.nodes ≡ some m
  pub numbered : IsNumbered m
  pub counted : u.non_defunct_nodes_count ≡ active m
  pub in_service : 1 ≤ u.non_defunct_nodes_count
  pub bounded : u.non_defunct_nodes_count ≤ user_node_max

abbrev pub new_node : Dict Node → Node
new_node m = record { defunct = false; num = suc (length m) }

module _ (crc : Object → ℕ) (uid : Text) (u : User) (m : Dict Node) (db : UserDb) where
  -- The record is put with the nodes `m'`, its aliases no longer touched, and is valid again.
  pub record Changed (m' : Dict Node) (db' : UserDb) : Type 0 where
    pub to : User
    pub put : PutUser crc uid to db db'
    pub held : HasUser uid (summed_user crc to) db'
    pub valid : IsValid (summed_user crc to) m'
    pub aliases : to.aliases ≡ clear_touched u.aliases
    pub authentication : to.authentication ≡ u.authentication

  module _ (h : HasUser uid u db) where
    -- A record that stays valid is put.
    pub change :
        (w : User) (m' : Dict Node)
        → IsValid (summed_user crc w) m'
        → w.aliases ≡ clear_touched u.aliases
        → w.authentication ≡ u.authentication
        → (db' : UserDb) × (put_record crc user uid (a_user w) db ≡ (ok tt, db')) × Changed m' db'
    change w m' valid aliases authentication =
        let (db', e, p) = put_record-user crc uid w db h.quiet in
        (
          db',
          e,
          record {
            to = w;
            put = p;
            held = PutUser-HasUser crc h.named p;
            valid = valid;
            aliases = aliases;
            authentication = authentication;
          },
        )
