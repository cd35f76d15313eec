-- ===== src/UserDb/Groups/Tests.antt =====
-- The theorems on groups at a group with a joined, an invited and a barred member.
use mnm.Prelude.{
  ℕ, Bool, ◌+◌, ◌*◌, ◌≡◌, inl, refl, true, false, some, [], ◌∷◌, Text, text, leb, length, Dict,
  lookup, eq_text,
}
use mnm.UserDb.Model.{
  Object, a_user, a_group, entries, Group, Member, joined, invited, barred, member_at,
}
use mnm.UserDb.Op.{UserDb, ok}
use mnm.UserDb.Groups.{group_alias, group_join, group_quit, is_joined, is_barred}
use mnm.UserDb.Groups.Joining.{HasMembers, HasAlias, JoinsGroup, group_join_lem}
use mnm.UserDb.Groups.Inviting.{Renames, group_alias_lem}
use mnm.UserDb.Groups.Quitting.{QuitsGroup, group_quit_lem, quit_and_join, group_quit-join_barred}
use mnm.UserDb.Groups.Listing.{IsDict}

abbrev sum : Object → ℕ
sum (a_user u) = 31 * u.non_defunct_nodes_count + length u.aliases
sum (a_group g) = 7 + length (entries g.uid)

-- The printable characters of ASCII, in place of unicode.IsPrint.
abbrev is_print : ℕ → Bool
is_print c = leb 0x20 c

abbrev club : Text
club = text "club"

abbrev members : Dict Member
members =
    (text "J", record { alias = text "joe"; status = joined })
    ∷ (text "I", record { alias = text "ida"; status = invited })
    ∷ (text "B", record { alias = text "bob"; status = barred })
    ∷ []

abbrev g : Group
g = record { uid = some members; check_sum = 0 }

abbrev db : UserDb
db = record {
  user = [];
  alias =
      (text "joe", text "J")
      ∷ (text "ida", text "I")
      ∷ (text "bob", text "B")
      ∷ (text "joy", text "J")
      ∷ [];
  group = (club, g) ∷ [];
  disk = record { temp = []; users = []; groups = []; links = [] };
}

db-HasMembers : HasMembers club g members db
unfolding lookup eq_text
db-HasMembers = record { cached = record { cached = refl; quiet = refl }; made = refl }

bob-HasAlias : HasAlias (text "bob") (text "B") db
unfolding lookup eq_text
bob-HasAlias = record { named = refl; owned = refl; target = refl }

group_join_lem_example :
    JoinsGroup sum is_print club
      (text "I")
      g
      members
      []
      db
      (group_join sum is_print club (text "I") [] db)
group_join_lem_example =
    group_join_lem sum is_print club (text "I") g members db db-HasMembers [] (inl refl)

group_quit_lem_example :
    QuitsGroup sum is_print club
      (text "B")
      g
      members
      (text "bob")
      (text "J")
      db
      (group_quit sum is_print club (text "bob") (text "J") db)
group_quit_lem_example =
    group_quit_lem sum is_print club (text "B") g members (text "bob") db db-HasMembers bob-HasAlias
      (text "J")

bob_own : eq_text (text "bob") (member_at (text "B") g).alias ≡ true
unfolding lookup eq_text
bob_own = refl

bob_barred : is_barred (member_at (text "B") g).status ≡ true
unfolding lookup eq_text
bob_barred = refl

group_quit-join_barred_example :
    (db2 : UserDb) × (g2 : Group) × (quit_and_join sum is_print club
        (text "B")
        g
        members
        (text "bob")
        db
        db-HasMembers
        bob-HasAlias
        (text "B")
        db
      ≡ (ok (text "bob"), db2))
    × (lookup club db2.group ≡ some g2)
    × (member_at (text "B") g2 ≡ record { alias = text "bob"; status = joined })
group_quit-join_barred_example =
    group_quit-join_barred sum is_print club (text "B") g members (text "bob") db db-HasMembers
      bob-HasAlias bob_own bob_barred

ida_own : eq_text (text "ida") (member_at (text "I") g).alias ≡ true
unfolding lookup eq_text
ida_own = refl

ida_not_barred : is_barred (member_at (text "I") g).status ≡ false
unfolding lookup eq_text
ida_not_barred = refl

joe_joined : is_joined (member_at (text "J") g).status ≡ true
unfolding lookup eq_text
joe_joined = refl

joe_is_not_ida : eq_text (text "J") (text "I") ≡ false
unfolding eq_text
joe_is_not_ida = refl

ida-HasAlias : HasAlias (text "ida") (text "I") db
unfolding lookup eq_text
ida-HasAlias = record { named = refl; owned = refl; target = refl }

members-IsDict : IsDict members
unfolding lookup eq_text
members-IsDict = (refl, (refl, (refl, tt)))

joy-HasAlias : HasAlias (text "joy") (text "J") db
unfolding lookup eq_text
joy-HasAlias = record { named = refl; owned = refl; target = refl }

-- Joe changes his alias.
group_alias_lem_example :
    Renames sum is_print club g members
      (text "J")
      (text "joy")
      db
      (group_alias sum is_print club (text "J") (text "joy") db)
unfolding lookup eq_text
group_alias_lem_example =
    group_alias_lem sum is_print club g members (text "J") (text "joy") db db-HasMembers
      joy-HasAlias
