-- ===== src/UserDb/Groups/Listing.antt =====
-- GroupGetUsers: the joined members, for those who may see them.
use mnm.Prelude.{
  ℕ, ◌≡◌, ◌⊎◌, inl, inr, refl, sym, Bool, true, false, ◌||◌, none, [], ◌∷◌, List, Text, Dict, arith,
  lookup, any, eq_text, eq_of_eq_text, eq_text_refl, Bool-cases,
}
use mnm.UserDb.Model.{Object, Group, Member, user_invalid, member_at, or_zero, zero_member}
use mnm.UserDb.Op.{ok, err, UserDb}
use mnm.UserDb.Cached.{fetch_group-HasGroup}
use mnm.UserDb.Groups.{group_get_users, joined_uids, is_joined, is_invited}
use mnm.UserDb.Groups.Joining.{HasMembers}

-- No key stands twice.
abbrev pub IsDict : Dict Member → Type 0
IsDict [] = Unit {0}
IsDict ((k, m) ∷ ms) = (lookup k ms ≡ none) × IsDict ms

-- A Uid is listed exactly if its member is joined.
joined_uids_lem :
    (uid : Text) (ms : Dict Member)
    → IsDict ms
    → any (eq_text uid) (joined_uids ms) ≡ is_joined (or_zero zero_member (lookup uid ms)).status
unfolding joined_uids lookup
joined_uids_lem uid [] d = refl
joined_uids_lem uid ((k, m) ∷ ms) (n, d) = elim (Bool-cases (eq_text k uid)) [
  | inl e ↦
      let same : k ≡ uid = eq_of_eq_text k uid e in
      let none_left : lookup uid ms ≡ none = rw (sym same) n in
      let own : eq_text uid k ≡ true = rw same (eq_text_refl uid) in
      let step : any (eq_text uid) (joined_uids ms) ≡ false =
        rw (joined_uids_lem uid ms d, none_left) in
      elim (Bool-cases (is_joined m.status)) [
        | inl j ↦ rw (any, e, j) (rw own)
        | inr j ↦ rw (any, e, j) step
      ]
  | inr e ↦ elim (Bool-cases (is_joined m.status)) [
    | inl j ↦ rw (any, e, j) (rw (not_same e) (joined_uids_lem uid ms d))
    | inr j ↦ rw (any, e, j) (joined_uids_lem uid ms d)
  ]
]
  where
    not_same : eq_text k uid ≡ false → eq_text uid k ≡ false
    not_same e = ground (arith, e, eq_of_eq_text uid k, eq_text_refl k)

module _ (crc : Object → ℕ) (is_print : ℕ → Bool) (gid : Text) (g : Group) (ms : Dict Member)
    (db : UserDb) where
  -- GroupGetUsers on a group in the cache: to a joined or invited user it lists exactly the joined
  -- members, any other it refuses; it changes nothing.
  pub group_get_users_lem :
      (by_uid : Text)
      → HasMembers gid g ms db
      → IsDict ms
      → ((is_joined (member_at by_uid g).status || is_invited (member_at by_uid g).status ≡ false)
          × (group_get_users crc is_print gid by_uid db ≡ (err user_invalid, db)))
        ⊎ ((is_joined (member_at by_uid g).status || is_invited (member_at by_uid g).status ≡ true)
            × (uids : List Text) × (group_get_users crc is_print gid by_uid db ≡ (ok uids, db))
            × ((uid : Text)
                → any (eq_text uid) uids ≡ is_joined (or_zero zero_member (lookup uid ms)).status))
  unfolding group_get_users
  group_get_users_lem by_uid h d =
      elim (Bool-cases
        (is_joined (member_at by_uid g).status || is_invited (member_at by_uid g).status)) [
          | inl e ↦ inr (
            e,
            joined_uids ms,
            rw (fetch_group-HasGroup crc gid false h.cached)
                (rw h.made (ground (arith, e, h.made))),
            λ uid. joined_uids_lem uid ms d,
          )
          | inr e ↦ inl (e, rw (fetch_group-HasGroup crc gid false h.cached) (ground arith))
        ]
