-- ===== src/UserDb/Groups/Quitting.antt =====
-- GroupQuit: a member leaves, or a joined member drops another; and what GroupJoin does afterwards.
use mnm.Prelude.{
  ℕ, ◌≡◌, inl, inr, refl, Bool, true, false, some, [], Text, Dict, arith, lookup, insert,
  lookup-insert, eq_text, eq_text_refl, Bool-cases, subst, ap,
}
use mnm.UserDb.Model.{
  Object, Group, Member, Status, invited, joined, barred, user_invalid, alias_invalid, member_at,
}
use mnm.UserDb.Op.{pure, UserDb, Result, ok, err, Op, ◌>>◌}
use mnm.UserDb.Cached.{fetch_group-HasGroup, PutGroup-HasGroup, summed_group}
use mnm.UserDb.Groups.{
  put_member, group_join, group_quit, quit_as, is_joined, is_invited, is_barred,
}
use mnm.UserDb.Groups.Joining.{
  HasMembers, HasAlias, try_lookup-HasAlias, SetsMember, put_member_lem, JoinsGroup, group_join_lem,
  stays, refused, not_own, joins,
}

module _ (crc : Object → ℕ) (is_print : ℕ → Bool) (gid uid : Text) (g : Group)
    (ms : Dict Member) where
  module _ (a : Text) where
    abbrev Sets : Status → UserDb → Result Text × UserDb → Type 0
    Sets s db p =
        (db' : UserDb) × (p ≡ (ok uid, db'))
        × SetsMember crc gid g ms uid (record { alias = a; status = s }) db db'

    -- What GroupQuit does to the member with this alias, and when; the cases exclude each other.
    pub data QuitsGroup (by_uid : Text) (db : UserDb) (p : Result Text × UserDb) : Type 0 where
      other_alias :
          eq_text a (member_at uid g).alias ≡ false
          → p ≡ (err alias_invalid, db)
          → QuitsGroup by_uid db p
      left_before :
          eq_text a (member_at uid g).alias ≡ true
          → eq_text by_uid uid ≡ true
          → is_invited (member_at uid g).status ≡ true
          → p ≡ (ok uid, db)
          → QuitsGroup by_uid db p
      leaves :
          eq_text a (member_at uid g).alias ≡ true
          → eq_text by_uid uid ≡ true
          → is_invited (member_at uid g).status ≡ false
          → Sets invited db p
          → QuitsGroup by_uid db p
      not_joined :
          eq_text a (member_at uid g).alias ≡ true
          → eq_text by_uid uid ≡ false
          → is_joined (member_at by_uid g).status ≡ false
          → p ≡ (err user_invalid, db)
          → QuitsGroup by_uid db p
      barred_before :
          eq_text a (member_at uid g).alias ≡ true
          → eq_text by_uid uid ≡ false
          → is_joined (member_at by_uid g).status ≡ true
          → is_barred (member_at uid g).status ≡ true
          → p ≡ (ok uid, db)
          → QuitsGroup by_uid db p
      bars :
          eq_text a (member_at uid g).alias ≡ true
          → eq_text by_uid uid ≡ false
          → is_joined (member_at by_uid g).status ≡ true
          → is_barred (member_at uid g).status ≡ false
          → Sets barred db p
          → QuitsGroup by_uid db p

    module _ (db : UserDb) (h : HasMembers gid g ms db) (t : HasAlias a uid db) where
      sets :
          (s : Status)
          → Sets s db (
              (do put_member crc is_print gid g uid (record { alias = a; status = s }); pure uid)
                db)
      sets s =
          let (db', e, p) =
            put_member_lem crc gid g ms is_print uid (record { alias = a; status = s }) db h in
          (db', rw e, p)

      quit_as-QuitsGroup :
          (by_uid : Text)
          → eq_text a (member_at uid g).alias ≡ true
          → QuitsGroup by_uid db (quit_as crc is_print gid g uid a by_uid db)
      unfolding quit_as
      quit_as-QuitsGroup by_uid e = elim (Bool-cases (eq_text by_uid uid)) [
        | inl b ↦ elim (Bool-cases (is_invited (member_at uid g).status)) [
          | inl i ↦ left_before e b i (rw (b, i))
          | inr i ↦ leaves e b i (rw (b, i) (sets invited))
        ]
        | inr b ↦ elim (Bool-cases (is_joined (member_at by_uid g).status)) [
          | inr j ↦ not_joined e b j (rw (b, j))
          | inl j ↦ elim (Bool-cases (is_barred (member_at uid g).status)) [
            | inl i ↦ barred_before e b j i (rw b (rw (j, i)))
            | inr i ↦ bars e b j i (rw b (rw (j, i) (sets barred)))
          ]
        ]
      ]

      -- GroupQuit on a group in the cache, with an alias in the cache: it must be the member's in the group;
      -- the member itself is set to invited unless it is; anyone else must be joined, and sets the member
      -- to barred unless it is.
      pub group_quit_lem :
          (by_uid : Text) → QuitsGroup by_uid db (group_quit crc is_print gid a by_uid db)
      unfolding group_quit
      group_quit_lem by_uid = elim (Bool-cases (eq_text a (member_at uid g).alias)) [
        | inr e ↦ other_alias e (
            rw (fetch_group-HasGroup crc gid false h.cached)
              (rw (try_lookup-HasAlias t) (rw (t.owned, e))))
        | inl e ↦
            rw (fetch_group-HasGroup crc gid false h.cached)
              (rw (try_lookup-HasAlias t) (rw (t.owned, e) (quit_as-QuitsGroup by_uid e)))
      ]

      -- The group once the member is set.
      abbrev pub with_member : Status → Group
      with_member s =
          summed_group crc
            (record g { uid = some (insert uid (record { alias = a; status = s }) ms) })

      pub SetsMember-HasMembers :
          (s : Status) (db' : UserDb)
          → SetsMember crc gid g ms uid (record { alias = a; status = s }) db db'
          → HasMembers gid (with_member s) (insert uid (record { alias = a; status = s }) ms) db'
      SetsMember-HasMembers s db' p = record { cached = PutGroup-HasGroup crc p; made = refl }

      status-with_member :
          (s : Status) → (member_at uid (with_member s)) ≡ record { alias = a; status = s }
      status-with_member s = rw lookup-insert (rw (eq_text_refl uid))

      -- The member tries to join by the alias that it has.
      abbrev pub quit_and_join : Text → Op Text
      quit_and_join by_uid = do
        group_quit crc is_print gid a by_uid
        group_join crc is_print gid uid []

      join_as :
          (s : Status) (db' : UserDb)
          → SetsMember crc gid g ms uid (record { alias = a; status = s }) db db'
          → JoinsGroup crc is_print gid uid
              (with_member s)
              (insert uid (record { alias = a; status = s }) ms)
              []
              db'
              (group_join crc is_print gid uid [] db')
      join_as s db' p =
          group_join_lem crc is_print gid uid (with_member s)
            (insert uid (record { alias = a; status = s }) ms) db' (SetsMember-HasMembers s db' p)
            [] (inl refl)

      join_barred :
          (db' : UserDb) (p : Result Text × UserDb)
          → JoinsGroup crc is_print gid uid
              (with_member barred)
              (insert uid (record { alias = a; status = barred }) ms)
              []
              db'
              p
          → p ≡ (err user_invalid, db')
      join_barred db' p (stays j e) = ground (arith, j, status-with_member barred)
      join_barred db' p (refused j i e) = e
      join_barred db' p (not_own i k n q e) = cc
      join_barred db' p (joins i k n e) = ground (arith, i, status-with_member barred)

      join_invited :
          (db' : UserDb) (p : Result Text × UserDb)
          → JoinsGroup crc is_print gid uid
              (with_member invited)
              (insert uid (record { alias = a; status = invited }) ms)
              []
              db'
              p
          → (db2 : UserDb) × (p ≡ (ok a, db2))
            × SetsMember crc gid
                (with_member invited)
                (insert uid (record { alias = a; status = invited }) ms)
                uid
                (record { alias = a; status = joined })
                db'
                db2
      join_invited db' p (stays j e) = ground (arith, j, status-with_member invited)
      join_invited db' p (refused j i e) = ground (arith, i, status-with_member invited)
      join_invited db' p (not_own i k n q e) = ground (arith, n)
      join_invited db' p (joins i k n (db2, e, q)) =
          subst
            (λ x.
              (d : UserDb) × (p ≡ (ok x, d))
              × SetsMember crc gid (with_member invited)
                  (insert uid (record { alias = a; status = invited }) ms) uid
                  (record { alias = x; status = joined }) db' d)
            (ap (λ m. m.alias) (status-with_member invited)) (db2, e, q)

      module _ (own : eq_text a (member_at uid g).alias ≡ true) where
        -- A barred member of a group in the cache that quits it by its own alias may then join it: it is
        -- joined under that alias.
        pub group_quit-join_barred :
            is_barred (member_at uid g).status ≡ true
            → (db2 : UserDb) × (g2 : Group) × (quit_and_join uid db ≡ (ok a, db2))
              × (lookup gid db2.group ≡ some g2)
              × (member_at uid g2 ≡ record { alias = a; status = joined })
        unfolding group_quit quit_as
        group_quit-join_barred b =
            let i : is_invited (member_at uid g).status ≡ false = ground (arith, b) in
            let (db1, e, p) = sets invited in
            let (db2, f, q) = join_invited db1 _ (join_as invited db1 p) in
            (
              db2,
              _,
              rw (fetch_group-HasGroup crc gid false h.cached) (
                  rw (try_lookup-HasAlias t)
                    (rw (t.owned, own) (rw (eq_text_refl uid, i) (rw e f)))),
              (PutGroup-HasGroup crc q).cached,
              rw lookup-insert (rw (eq_text_refl uid)),
            )

        -- A member that is not barred, of a group in the cache: when another member, who is joined, drops it,
        -- it is refused by GroupJoin afterwards.
        pub group_quit-join_dropped :
            (by_uid : Text)
            → eq_text by_uid uid ≡ false
            → is_joined (member_at by_uid g).status ≡ true
            → is_barred (member_at uid g).status ≡ false
            → (db2 : UserDb) × (quit_and_join by_uid db ≡ (err user_invalid, db2))
        unfolding group_quit quit_as
        group_quit-join_dropped by_uid n j b =
            let (db1, e, p) = sets barred in
            (
              db1,
              rw (fetch_group-HasGroup crc gid false h.cached) (
                  rw (try_lookup-HasAlias t) (
                    rw (t.owned, own)
                      (rw n (rw (j, b) (rw e (join_barred db1 _ (join_as barred db1 p))))))),
            )
