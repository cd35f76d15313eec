-- ===== src/Qlib/Openid/Signed.antt =====
-- qlib/openid.go, enableTestOpenid: the token of a test server, which the check accepts.
use mnm.Prelude.{
  ℕ, ◌+◌, ◌*◌, ◌/◌, ◌<◌, ◌≡◌, ◌∙◌, ap, refl, Bool, true, false, not, none, some, List, [], ◌∷◌,
  ◌++◌, Text, text, all, ◌==◌, eq_text, arith, ◌≤◌,
}
use mnm.Qlib.Int.{pos, negsuc}
use mnm.Qlib.Openid.{
  OpenidToken, OpenidHeader, RawClaims, OpenidClaims, OpenidKey, OpenidCfg, Codecs, valid,
  split_dots, find_cfg, find_key, read_time, is_past, read_claims, auth_data, check_signature,
  check_claims, check_json, check_parts, validate_token_openid,
}

-- The libraries that make a token: base64.RawURLEncoding, json.Marshal of its header, its claims and a
-- number, and rsa.SignPKCS1v15 with the key that was made.
pub record Signer : Type 0 where
  pub base64 : Text → Text
  pub marshal_header : OpenidHeader → Text
  pub marshal_claims : RawClaims → Text
  pub marshal_number : ℕ → Text
  pub sign_rsa : Text → Text

-- aIdH
abbrev pub test_header : OpenidHeader
test_header = record { kid = text "kid"; alg = text "RS256" }

-- time.Now().Add(time.Minute).Unix(), of a time in nanoseconds.
abbrev pub test_exp : ℕ → ℕ
test_exp now = (now + 60000000000) / 1000000000

-- aIdC, which ends in a minute.
abbrev pub test_claims : Signer → ℕ → RawClaims
test_claims signer now = record {
  sub = text "subject";
  iss = text "issuer";
  aud = text "audience";
  iat = none;
  exp = some (signer.marshal_number (test_exp now));
  auth_time = none;
}

-- The first two parts of aTok.Id_token.
abbrev pub test_parts : Signer → ℕ → Text
test_parts signer now =
    signer.base64 (signer.marshal_header test_header)
    ++ b'.' ∷ signer.base64 (signer.marshal_claims (test_claims signer now))

-- enableTestOpenid, less the server of its key.
unfoldable pub enable_test_openid : Codecs → Signer → ℕ → OpenidToken
enable_test_openid lib signer now = record {
  scope = [];
  token_type = text "Bearer";
  expires_in = 3600;
  access_token = text "access";
  id_token =
      test_parts signer now
      ++ b'.' ∷ signer.base64 (signer.sign_rsa (lib.sha256 (test_parts signer now)));
  refresh_token = [];
}

abbrev pub is_dotless : Text → Bool
is_dotless s = all (λ b. not (b == b'.')) s

split_dots-dotless : (s : Text) → is_dotless s ≡ true → split_dots s ≡ s ∷ []
unfolding split_dots
split_dots-dotless [] h = refl
split_dots-dotless (b ∷ s) h = ground (arith, split_dots-dotless s)

split_dots-dot : (s t : Text) → is_dotless s ≡ true → split_dots (s ++ b'.' ∷ t) ≡ s ∷ split_dots t
unfolding split_dots
split_dots-dot [] t h = refl
split_dots-dot (b ∷ s) t h = ground (arith, split_dots-dot s t)

append_cons : (s : Text) (b : ℕ) (t u : Text) → (s ++ b ∷ t) ++ u ≡ s ++ b ∷ (t ++ u)
append_cons [] b t u = refl
append_cons (a ∷ s) b t u = ap (λ r. a ∷ r) (append_cons s b t u)

split_dots-three :
    (a b c : Text)
    → is_dotless a ≡ true
    → is_dotless b ≡ true
    → is_dotless c ≡ true
    → split_dots ((a ++ b'.' ∷ b) ++ b'.' ∷ c) ≡ a ∷ b ∷ c ∷ []
split_dots-three a b c p q r =
    ap split_dots (append_cons a b'.' b (b'.' ∷ c))
    ∙ split_dots-dot a (b ++ b'.' ∷ c) p
    ∙ ap (λ s. a ∷ s) (split_dots-dot b c q ∙ ap (λ s. b ∷ s) (split_dots-dotless c r))

-- The key, as initOpenid reads it, and the configuration of a test server for it.
abbrev pub test_key : ℕ → ℕ → OpenidKey
test_key e n = record { kid = text "kid"; alg = text "RS256"; e = e; n = some n }

abbrev pub test_cfg : Text → ℕ → ℕ → OpenidCfg
test_cfg url e n = record {
  url = url;
  iss = text "issuer";
  aud = text "audience";
  keys = test_key e n ∷ [];
}

-- The claims that are read again.
abbrev pub read_test_claims : ℕ → OpenidClaims
read_test_claims now = record {
  sub = text "subject";
  iss = text "issuer";
  aud = text "audience";
  iat = negsuc 62135596799;
  exp = pos (test_exp now);
}

-- What the libraries promise: each decoder reads what its encoder writes, base64 has no dots, and the
-- key verifies what the private key signs.
pub record Inverse (lib : Codecs) (signer : Signer) (key : OpenidKey) (now : ℕ) : Type 0 where
  pub decodes : (s : Text) → lib.unbase64 (signer.base64 s) ≡ some s
  pub dotless : (s : Text) → is_dotless (signer.base64 s) ≡ true
  pub reads_header : lib.unmarshal_header (signer.marshal_header test_header) ≡ some test_header
  pub reads_claims :
      lib.unmarshal_claims (signer.marshal_claims (test_claims signer now))
      ≡ some (test_claims signer now)
  pub reads_number : read_time (signer.marshal_number (test_exp now)) ≡ some (pos (test_exp now))
  pub verifies : (hash : Text) → lib.verify_rsa key hash (signer.sign_rsa hash) ≡ true

module _ (lib : Codecs) (signer : Signer) (url : Text) (e n now later : ℕ) (cfgs : List OpenidCfg)
    (inverse : Inverse lib signer (test_key e n) now) (in_range : now < 0x8000000000000000)
    (in_time : later ≤ test_exp now * 1000000000) where
  test_claims-read :
      read_claims (lib.unmarshal_claims (signer.marshal_claims (test_claims signer now)))
      ≡ some (read_test_claims now)
  unfolding read_claims
  test_claims-read = rw inverse.reads_claims (rw inverse.reads_number refl)

  fresh : is_past later (pos (test_exp now)) ≡ false
  unfolding is_past
  fresh = ground arith

  -- A token of a test server, made before the year 2262, is accepted until it ends, which is after a
  -- minute less a part of a second, by a server whose first configuration has the key of the test
  -- server, and the result describes its claims. The decoders must read what the encoders write, and
  -- the key verify what is signed.
  pub enable_test_openid-valid :
      validate_token_openid lib later (test_cfg url e n ∷ cfgs) (enable_test_openid lib signer now)
      ≡ valid (auth_data lib later (test_cfg url e n ∷ cfgs) (read_test_claims now))
  unfolding enable_test_openid validate_token_openid check_parts check_json check_claims find_cfg
      check_signature find_key eq_text
  enable_test_openid-valid =
      let h = signer.marshal_header test_header in
      let c = signer.marshal_claims (test_claims signer now) in
      let s = signer.sign_rsa (lib.sha256 (test_parts signer now)) in
      rw
        (split_dots-three (signer.base64 h) (signer.base64 c) (signer.base64 s) (inverse.dotless h)
          (inverse.dotless c) (inverse.dotless s))
        (rw (inverse.decodes h, inverse.decodes c, inverse.decodes s)
          (rw (inverse.reads_header, test_claims-read)
            (rw fresh (rw (inverse.verifies (lib.sha256 (test_parts signer now))) refl))))
