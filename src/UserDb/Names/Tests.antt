-- ===== src/UserDb/Names/Tests.antt =====
-- A name with a space, a percent sign and a byte above ASCII.
use mnm.Prelude.{◌≡◌, refl, some, [], ◌∷◌, Text}
use mnm.UserDb.Names.{escape, unescape}

abbrev odd_name : Text
odd_name = 0x61 ∷ 0x20 ∷ 0x25 ∷ 0xE9 ∷ []

odd_name_back : unescape (escape odd_name) ≡ some odd_name
unfolding escape unescape
odd_name_back = refl
