-- ===== src/UserDb/Names.antt =====
-- userdb.go, fileName and fileTemp: the file names of records, and what NewUserDb reads from them.
-- url.QueryEscape, url.QueryUnescape, strings.HasSuffix and strings.SplitN are over bytes.
pub mod Escape
mod Tests
use mnm.Prelude.{
  ℕ, ◌+◌, ◌-◌, ◌/◌, ◌%◌, ◌*◌, Bool, ◌&&◌, ◌||◌, Option, none, some, [], ◌∷◌, ◌++◌, Text, text, ltb,
  leb, ◌==◌, eq_text, if◌then◌else◌,
}
use mathlib.Core.Option
use mnm.UserDb.Model.{RecordType, user, alias, group}

is_letter : ℕ → Bool
is_letter b = (leb b'A' b && leb b b'Z') || (leb b'a' b && leb b b'z')

is_digit : ℕ → Bool
is_digit b = leb b'0' b && leb b b'9'

is_unreserved : ℕ → Bool
unfolding is_letter is_digit
is_unreserved b = is_letter b || is_digit b || b == b'-' || b == b'_' || b == b'.' || b == b'~'

upper_hex : ℕ → ℕ
upper_hex d = if ltb d 10 then b'0' + d else b'7' + d

escape_byte : ℕ → Text
unfolding is_unreserved upper_hex
escape_byte b =
    if is_unreserved b
    then b ∷ []
    else if b == b' '
    then b'+' ∷ []
    else b'%' ∷ upper_hex (b / 16) ∷ upper_hex (b % 16) ∷ []

-- url.QueryEscape
unfoldable pub escape : Text → Text
unfolding escape_byte
escape [] = []
escape (b ∷ s) = escape_byte b ++ escape s

unfoldable pub unhex : ℕ → Option ℕ
unhex c =
    if leb b'0' c && leb c b'9'
    then some (c - b'0')
    else if leb b'a' c && leb c b'f'
    then some (c - b'W')
    else if leb b'A' c && leb c b'F'
    then some (c - b'7')
    else none

unhex_pair : Option ℕ → Option ℕ → Option Text → Option Text
unhex_pair (some h) (some l) (some s) = some ((h * 16 + l) ∷ s)
unhex_pair _ _ _ = none

plain : ℕ → Option Text → Option Text
plain c r = Option.map (λ s. (if c == b'+' then b' ' else c) ∷ s) r

-- url.QueryUnescape
unfoldable pub unescape : Text → Option Text
unfolding unhex unhex_pair plain
unescape [] = some []
unescape (c ∷ []) = if c == b'%' then none else plain c (some [])
unescape (c ∷ h ∷ []) = let rest = plain c (unescape (h ∷ [])) in if c == b'%' then none else rest
unescape (c ∷ h ∷ l ∷ s) =
    let rest = plain c (unescape (h ∷ l ∷ s)) in
    let decoded = unhex_pair (unhex h) (unhex l) (unescape s) in if c == b'%' then decoded else rest

-- fileName, below the directory of the type.
unfoldable pub file_name : RecordType → Text → Text
file_name user n = n
file_name alias n = escape n
file_name group n = escape n

abbrev pub type_name : RecordType → Text
type_name user = text "user"
type_name alias = text "alias"
type_name group = text "group"

-- fileTemp, below the temp directory.
unfoldable pub file_temp : RecordType → Text → Text
file_temp t n = type_name t ++ b'_' ∷ file_name t n

abbrev pub tmp_suffix : Text
tmp_suffix = text ".tmp"

-- strings.HasSuffix
unfoldable pub has_suffix : Text → Text → Bool
has_suffix [] x = eq_text [] x
has_suffix (c ∷ s) x = eq_text (c ∷ s) x || has_suffix s x

-- strings.SplitN(s, "_", 2): `none` where there is no underscore.
unfoldable pub split_pair : Text → Option (Text × Text)
split_pair [] = none
split_pair (c ∷ s) =
    if c == b'_'
    then some ([], s)
    else Option.map (λ (p : Text × Text). (c ∷ p.0, p.1)) (split_pair s)
