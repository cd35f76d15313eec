-- ===== src/Qlib/Openid.antt =====
-- qlib/openid.go, validateTokenOpenid: the check of a token that a new user shows.
pub mod Accepted
pub mod Keys
pub mod Signed
mod Tests
use mnm.Prelude.{
  ℕ, Bool, true, false, not, ◌&&◌, ◌||◌, Option, none, some, List, [], ◌∷◌, ◌++◌, Text, text, ltb,
  ◌==◌, eq_text, if◌then◌else◌, ◌*◌, ◌+◌, ◌-◌, leb,
}
use mathlib.Core.Option
use mnm.Qlib.Int.{ℤ, pos, negsuc, lt_int, int64}

pub record OpenidToken : Type 0 where
  pub scope : Text
  pub token_type : Text
  pub expires_in : ℕ
  pub access_token : Text
  pub id_token : Text
  pub refresh_token : Text

pub record OpenidHeader : Type 0 where
  pub kid : Text
  pub alg : Text

-- What json.Unmarshal reads of the claims before it calls UnmarshalJSON: the texts of the times, with
-- none for one that is missing.
pub record RawClaims : Type 0 where
  pub sub : Text
  pub aud : Text
  pub iss : Text
  pub iat : Option Text
  pub exp : Option Text
  pub auth_time : Option Text

-- tOpenidClaims, less the fields that nothing reads; the times are seconds since 1970.
pub record OpenidClaims : Type 0 where
  pub sub : Text
  pub aud : Text
  pub iss : Text
  pub iat : ℤ
  pub exp : ℤ

pub record OpenidKey : Type 0 where
  pub kid : Text
  pub alg : Text
  pub e : ℕ
  pub n : Option ℕ

pub record OpenidCfg : Type 0 where
  pub url : Text
  pub iss : Text
  pub aud : Text
  pub keys : List OpenidKey

pub data TokenError : Type 0 where
  bad_token bad_base64 bad_json expired bad_claims no_key bad_signature : TokenError

pub data Validity : Type 0 where
  valid : List (Text × Text) → Validity
  refused : TokenError → Validity

-- The libraries that the check calls: base64.RawURLEncoding, json.Unmarshal, sha256.Sum256,
-- rsa.VerifyPKCS1v15 of a key, a hash and a signature, and the format RFC3339.
pub record Codecs : Type 0 where
  pub unbase64 : Text → Option Text
  pub unmarshal_header : Text → Option OpenidHeader
  pub unmarshal_claims : Text → Option RawClaims
  pub sha256 : Text → Text
  pub verify_rsa : OpenidKey → Text → Text → Bool
  pub rfc3339 : ℤ → Text

-- strconv.ParseUint(s, 10, 64), less its limit.
unfoldable pub parse_decimal : ℕ → Text → Option ℕ
parse_decimal n [] = some n
parse_decimal n (c ∷ cs) =
    let rest = parse_decimal (n * 10 + (c - b'0')) cs in
    if leb b'0' c && leb c b'9' then rest else none

abbrev pub within : Option ℕ → Option ℤ
within none = none
within (some n) = if ltb n 0x10000000000000000 then some (int64 n) else none

-- tUnixTime.UnmarshalJSON: an int64 of a uint64.
unfoldable pub read_time : Text → Option ℤ
unfolding parse_decimal
read_time [] = none
read_time (c ∷ cs) = within (parse_decimal 0 (c ∷ cs))

-- A time that is missing stays the zero Time, which is in the year 1.
abbrev pub read_field : Option Text → Option ℤ
read_field none = some (negsuc 62135596799)
read_field (some s) = read_time s

abbrev pub claims_at : RawClaims → Option ℤ → Option ℤ → Option ℤ → Option OpenidClaims
claims_at r (some iat) (some exp) (some auth_time) =
    some (record { sub = r.sub; aud = r.aud; iss = r.iss; iat = iat; exp = exp })
claims_at r _ _ _ = none

-- json.Unmarshal of the claims, as a whole.
unfoldable pub read_claims : Option RawClaims → Option OpenidClaims
unfolding read_time
read_claims none = none
read_claims (some r) = claims_at r (read_field r.iat) (read_field r.exp) (read_field r.auth_time)

-- bytes.Split at a dot.
abbrev pub in_first : ℕ → List Text → List Text
in_first b [] = (b ∷ []) ∷ []
in_first b (x ∷ xs) = (b ∷ x) ∷ xs

unfoldable pub split_dots : Text → List Text
split_dots [] = [] ∷ []
split_dots (b ∷ s) = let rest = split_dots s in if b == b'.' then [] ∷ rest else in_first b rest

-- The first configuration for the claims' issuer and audience.
unfoldable pub find_cfg : OpenidClaims → List OpenidCfg → Option OpenidCfg
find_cfg claims [] = none
find_cfg claims (c ∷ cs) =
    if eq_text c.iss claims.iss && eq_text c.aud claims.aud then some c else find_cfg claims cs

-- The first key with the header's name and algorithm.
unfoldable pub find_key : OpenidHeader → List OpenidKey → Option OpenidKey
find_key head [] = none
find_key head (k ∷ ks) =
    if eq_text k.kid head.kid && eq_text k.alg head.alg then some k else find_key head ks

-- aClaims.Exp.Before(time.Now()): the clock has nanoseconds. Before is of an int64 of seconds since the
-- year 1, which time.Unix wraps around.
unfoldable pub is_past : ℕ → ℤ → Bool
is_past now (negsuc s) = true
is_past now (pos s) = leb 9223371974719179008 s || ltb (s * 1000000000) now

-- `now` is in nanoseconds since 1970.
module _ (lib : Codecs) (now : ℕ) (cfgs : List OpenidCfg) where
  abbrev pub auth_data : OpenidClaims → List (Text × Text)
  auth_data claims =
      (text "Subject", claims.sub)
      ∷ (text "Issuer", claims.iss)
      ∷ (text "Audience", claims.aud)
      ∷ (text "IssuedAt", lib.rfc3339 claims.iat)
      ∷ []

  -- From the search for a key on; `hashed` is what the signature is of.
  unfoldable pub check_signature : OpenidHeader → OpenidClaims → OpenidCfg → Text → Text → Validity
  unfolding find_key
  check_signature head claims cfg hashed sig = elim (find_key head cfg.keys) [
    | none ↦ refused no_key
    | some key ↦
        if lib.verify_rsa key (lib.sha256 hashed) sig
        then valid (auth_data claims)
        else refused bad_signature
  ]

  -- From the check of the expiry on.
  unfoldable pub check_claims : OpenidHeader → OpenidClaims → Text → Text → Validity
  unfolding find_cfg check_signature is_past
  check_claims head claims hashed sig =
      if is_past now claims.exp then refused expired else elim (find_cfg claims cfgs) [
        | none ↦ refused bad_claims
        | some cfg ↦ check_signature head claims cfg hashed sig
      ]

  unfoldable pub check_json : Option OpenidHeader → Option OpenidClaims → Text → Text → Validity
  unfolding check_claims
  check_json (some head) (some claims) hashed sig = check_claims head claims hashed sig
  check_json (some head) none hashed sig = refused bad_json
  check_json none claims hashed sig = refused bad_json

  unfoldable pub check_parts : Option Text → Option Text → Option Text → Text → Validity
  unfolding check_json read_claims
  check_parts (some a) (some b) (some sig) hashed =
      check_json (lib.unmarshal_header a) (read_claims (lib.unmarshal_claims b)) hashed sig
  check_parts (some a) (some b) none hashed = refused bad_base64
  check_parts (some a) none sig hashed = refused bad_base64
  check_parts none b sig hashed = refused bad_base64

  unfoldable pub check_split : List Text → Validity
  unfolding check_parts
  check_split (a ∷ b ∷ c ∷ []) =
      check_parts (lib.unbase64 a) (lib.unbase64 b) (lib.unbase64 c) (a ++ b'.' ∷ b)
  check_split _ = refused bad_token

  -- validateTokenOpenid
  unfoldable pub validate_token_openid : OpenidToken → Validity
  unfolding split_dots check_split
  validate_token_openid tok = check_split (split_dots tok.id_token)
