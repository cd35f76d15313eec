-- ===== src/Qlib/Openid/Tests.antt =====
-- A token of one configuration, with codecs that read three fixed parts.
use mnm.Prelude.{◌≡◌, refl, none, some, List, [], ◌∷◌, text, eq_text, arith, if◌then◌else◌}
use mnm.Qlib.Header.{pos, negsuc, lt_int}
use mnm.Qlib.Openid.{
  read_time, RawClaims, OpenidToken, OpenidHeader, OpenidClaims, OpenidKey, OpenidCfg, Codecs,
  valid, refused, expired, split_dots, auth_data, validate_token_openid,
}
use mnm.Qlib.Openid.Keys.{
  read_keys, parsed, crashes, quoted, KeyField, key_kid, key_alg, key_e, key_n, zero_key,
  init_openid, init_openid-short,
}
use mnm.Prelude.{ℕ, ◌+◌, ◌-◌, ltb, Text, ap, map, eq_text_refl, true}
use mnm.Qlib.Openid.Signed.{
  Signer, Inverse, is_dotless, test_header, test_claims, test_key, test_cfg, read_test_claims,
  enable_test_openid, enable_test_openid-valid,
}
use mnm.Qlib.Openid.Accepted.{AcceptedIf, validate_token_openid-Accepted}

abbrev a_header : OpenidHeader
a_header = record { kid = text "k"; alg = text "RS256" }

abbrev a_claims : OpenidClaims
a_claims = record { sub = text "S"; aud = text "A"; iss = text "I"; iat = pos 5; exp = pos 10 }

abbrev raw_claims : RawClaims
raw_claims = record {
  sub = text "S";
  aud = text "A";
  iss = text "I";
  iat = some (text "5");
  exp = some (text "10");
  auth_time = none;
}

abbrev a_key : OpenidKey
a_key = record { kid = text "k"; alg = text "RS256"; e = 3; n = some 33 }

abbrev a_cfg : OpenidCfg
a_cfg = record { url = text "u"; iss = text "I"; aud = text "A"; keys = a_key ∷ [] }

abbrev codecs : Codecs
codecs = record {
  unbase64 = λ s. some s;
  unmarshal_header = λ s. if eq_text s (text "h") then some a_header else none;
  unmarshal_claims = λ s. if eq_text s (text "c") then some raw_claims else none;
  sha256 = λ s. s;
  verify_rsa = λ key hashed sig. eq_text hashed (text "h.c");
  rfc3339 = λ t. if lt_int t (pos 9) then text "early" else text "late";
}

abbrev a_token : OpenidToken
a_token = record {
  scope = [];
  token_type = text "Bearer";
  expires_in = 3600;
  access_token = text "access";
  id_token = text "h.c.s";
  refresh_token = [];
}

-- A time of 2 ^ 63 seconds is one before 1970, and one of 2 ^ 64 is refused.
wrapped_time : read_time (text "9223372036854775808") ≡ some (negsuc 9223372036854775807)
unfolding read_time
wrapped_time = refl

long_time : read_time (text "18446744073709551616") ≡ none
unfolding read_time
long_time = refl

in_time :
    validate_token_openid codecs 10000000000 (a_cfg ∷ []) a_token
    ≡ valid (auth_data codecs 10000000000 (a_cfg ∷ []) a_claims)
unfolding validate_token_openid eq_text
in_time = refl

too_late : validate_token_openid codecs 10000000001 (a_cfg ∷ []) a_token ≡ refused expired
unfolding validate_token_openid eq_text
too_late = refl

validate_token_openid-Accepted_example :
    AcceptedIf codecs 10000000000
      (a_cfg ∷ [])
      (split_dots a_token.id_token)
      (validate_token_openid codecs 10000000000 (a_cfg ∷ []) a_token)
validate_token_openid-Accepted_example =
    validate_token_openid-Accepted codecs 10000000000 (a_cfg ∷ []) a_token

-- A service whose one key has the exponent 3.
abbrev key_of_three : List KeyField
key_of_three =
    key_kid (text "k")
    ∷ key_n (quoted (7 ∷ []))
    ∷ key_e (quoted (3 ∷ []))
    ∷ key_alg (text "RS256")
    ∷ []

-- A modulus that is not base64, before a short exponent, is an error and no panic.
bad_modulus :
    init_openid
      (λ s. if eq_text s (text "!") then none else some s)
      (λ url. some url)
      (λ body. some ((key_n (quoted (text "!")) ∷ key_e (quoted (3 ∷ [])) ∷ []) ∷ []))
      (a_cfg ∷ [])
    ≡ parsed (a_cfg ∷ [])
unfolding init_openid eq_text
bad_modulus = refl

init_openid-short_example :
    init_openid
      (λ s. some s)
      (λ url. some url)
      (λ body. some (key_of_three ∷ []))
      (a_cfg ∷ a_cfg ∷ [])
    ≡ crashes
unfolding read_keys
init_openid-short_example =
    init_openid-short (λ s. some s) (λ url. some url) (λ body. some (key_of_three ∷ [])) a_cfg
      (a_cfg ∷ []) [] a_cfg.url [] [] (key_kid (text "k") ∷ key_n (quoted (7 ∷ [])) ∷ [])
      (key_alg (text "RS256") ∷ []) (3 ∷ []) (3 ∷ [])
      (record zero_key { kid = text "k"; n = some 7 }) [] refl refl refl refl refl (omega arith)

-- Codecs of a test server: bytes from the dot on are moved by one, and the signature is the hash.
abbrev moved : ℕ → ℕ
moved b = if ltb b b'.' then b else b + 1

abbrev back : ℕ → ℕ
back c = if ltb c b'.' then c else c - 1

abbrev signer : Signer
signer = record {
  base64 = λ s. map moved s;
  marshal_header = λ h. text "h";
  marshal_claims = λ c. text "c";
  marshal_number = λ n. text "70";
  sign_rsa = λ hash. hash;
}

abbrev inverse_codecs : Codecs
inverse_codecs = record {
  unbase64 = λ s. some (map back s);
  unmarshal_header = λ s. some test_header;
  unmarshal_claims =
      λ s. if eq_text s (text "c") then some (test_claims signer 10900000000) else none;
  sha256 = λ s. s;
  verify_rsa = λ key hashed sig. eq_text hashed sig;
  rfc3339 = λ t. text "late";
}

back-moved : (s : Text) → map back (map moved s) ≡ s
back-moved [] = refl
back-moved (b ∷ s) = ground (arith, back-moved s)

moved_dotless : (s : Text) → is_dotless (map moved s) ≡ true
moved_dotless [] = refl
moved_dotless (b ∷ s) = ground (arith, moved_dotless s)

codecs-Inverse : Inverse inverse_codecs signer (test_key 3 33) 10900000000
unfolding eq_text read_time
codecs-Inverse = record {
  decodes = λ s. ap (λ t. some t) (back-moved s);
  dotless = moved_dotless;
  reads_header = refl;
  reads_claims = refl;
  reads_number = refl;
  verifies = eq_text_refl;
}

enable_test_openid-valid_example :
    validate_token_openid inverse_codecs 70000000000
      (test_cfg (text "u") 3 33 ∷ [])
      (enable_test_openid inverse_codecs signer 10900000000)
    ≡ valid (
        auth_data inverse_codecs 70000000000
          (test_cfg (text "u") 3 33 ∷ [])
          (read_test_claims 10900000000))
enable_test_openid-valid_example =
    enable_test_openid-valid inverse_codecs signer (text "u") 3 33 10900000000 70000000000 []
      codecs-Inverse (omega arith) (omega arith)
