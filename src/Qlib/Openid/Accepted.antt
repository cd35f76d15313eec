-- ===== src/Qlib/Openid/Accepted.antt =====
-- What a token that validateTokenOpenid accepts has shown.
use mnm.Prelude.{
  ℕ, ◌≡◌, inl, inr, refl, Bool, true, false, ◌&&◌, some, List, [], ◌∷◌, ◌++◌, Text, eq_text,
  eq_of_eq_text, Option-cases, Bool-cases, arith,
}
use mathlib.Core.List.{Memᴰ}
use mnm.Qlib.Openid.{
  is_past, read_claims, OpenidToken, OpenidHeader, OpenidClaims, OpenidKey, OpenidCfg, Validity,
  valid, refused, Codecs, split_dots, find_cfg, find_key, auth_data, check_signature, check_claims,
  check_json, check_parts, check_split, validate_token_openid,
}

both : (a b : Bool) → (a && b) ≡ true → (a ≡ true) × (b ≡ true)
both true true h = (refl, refl)
both true false h = absurd (ground arith)
both false b h = absurd (ground arith)

-- A configuration for these claims.
pub record IsFor (claims : OpenidClaims) (cfgs : List OpenidCfg) (cfg : OpenidCfg) : Type 0 where
  pub known : Memᴰ cfg cfgs
  pub issuer : cfg.iss ≡ claims.iss
  pub audience : cfg.aud ≡ claims.aud

-- A key that the header names.
pub record IsNamed (hd : OpenidHeader) (keys : List OpenidKey) (key : OpenidKey) : Type 0 where
  pub known : Memᴰ key keys
  pub name : key.kid ≡ hd.kid
  pub algorithm : key.alg ≡ hd.alg

find_cfg-IsFor :
    (claims : OpenidClaims) (cfgs : List OpenidCfg) (cfg : OpenidCfg)
    → find_cfg claims cfgs ≡ some cfg
    → IsFor claims cfgs cfg
unfolding find_cfg
find_cfg-IsFor claims [] cfg h = absurd (ground arith)
find_cfg-IsFor claims (c ∷ cs) cfg h =
    elim (Bool-cases (eq_text c.iss claims.iss && eq_text c.aud claims.aud)) [
      | inl e ↦
          let same : c ≡ cfg = ground arith in
          let (i, a) = both _ _ e in
          rw (← same) record {
            known = Memᴰ.head refl;
            issuer = eq_of_eq_text _ _ i;
            audience = eq_of_eq_text _ _ a;
          }
      | inr e ↦
          let r = find_cfg-IsFor claims cs cfg (ground arith) in
          record { known = Memᴰ.tail r.known; issuer = r.issuer; audience = r.audience }
    ]

find_key-IsNamed :
    (hd : OpenidHeader) (keys : List OpenidKey) (key : OpenidKey)
    → find_key hd keys ≡ some key
    → IsNamed hd keys key
unfolding find_key
find_key-IsNamed hd [] key h = absurd (ground arith)
find_key-IsNamed hd (k ∷ ks) key h =
    elim (Bool-cases (eq_text k.kid hd.kid && eq_text k.alg hd.alg)) [
      | inl e ↦
          let same : k ≡ key = ground arith in
          let (i, a) = both _ _ e in
          rw (← same) record {
            known = Memᴰ.head refl;
            name = eq_of_eq_text _ _ i;
            algorithm = eq_of_eq_text _ _ a;
          }
      | inr e ↦
          let r = find_key-IsNamed hd ks key (ground arith) in
          record { known = Memᴰ.tail r.known; name = r.name; algorithm = r.algorithm }
    ]

module _ (lib : Codecs) (now : ℕ) (cfgs : List OpenidCfg) where
  -- The three parts of a token, and what they hold.
  pub record Parsed (parts : List Text) : Type 0 where
    pub header_part : Text
    pub claims_part : Text
    pub signature_part : Text
    pub split : parts ≡ header_part ∷ claims_part ∷ signature_part ∷ []
    pub header_bytes : Text
    pub claims_bytes : Text
    pub signature : Text
    pub header_decodes : lib.unbase64 header_part ≡ some header_bytes
    pub claims_decode : lib.unbase64 claims_part ≡ some claims_bytes
    pub signature_decodes : lib.unbase64 signature_part ≡ some signature
    pub hd : OpenidHeader
    pub claims : OpenidClaims
    pub header_parses : lib.unmarshal_header header_bytes ≡ some hd
    pub claims_parse : read_claims (lib.unmarshal_claims claims_bytes) ≡ some claims

  abbrev pub signed_bytes : {parts : List Text} → Parsed parts → Text
  signed_bytes p = p.header_part ++ b'.' ∷ p.claims_part

  -- The claims have not expired and are of a configuration, one of whose keys made the signature.
  pub record Accepted (parts : List Text) (d : List (Text × Text)) : Type 0 where
    pub parsed : Parsed parts
    pub not_expired : is_past now parsed.claims.exp ≡ false
    pub cfg : OpenidCfg
    pub is_for : IsFor parsed.claims cfgs cfg
    pub key : OpenidKey
    pub is_named : IsNamed parsed.hd cfg.keys key
    pub signed : lib.verify_rsa key (lib.sha256 (signed_bytes parsed)) parsed.signature ≡ true
    pub described : d ≡ auth_data lib now cfgs parsed.claims

  abbrev pub AcceptedIf : List Text → Validity → Type 0
  AcceptedIf parts (valid d) = Accepted parts d
  AcceptedIf parts (refused e) = Unit {0}

  module _ (parts : List Text) (p : Parsed parts) where
    signature-Accepted :
        (cfg : OpenidCfg)
        → is_past now p.claims.exp ≡ false
        → IsFor p.claims cfgs cfg
        → AcceptedIf parts
            (check_signature lib now cfgs p.hd p.claims cfg (signed_bytes p) p.signature)
    unfolding check_signature
    signature-Accepted cfg fresh is_for = elim (Option-cases (find_key p.hd cfg.keys)) [
      | inl e ↦ rw (e, AcceptedIf) tt
      | inr (key, e) ↦
          rw (e, AcceptedIf)
            (elim (Bool-cases (lib.verify_rsa key (lib.sha256 (signed_bytes p)) p.signature)) [
              | inl v ↦ rw v record {
                parsed = p;
                not_expired = fresh;
                cfg = cfg;
                is_for = is_for;
                key = key;
                is_named = find_key-IsNamed p.hd cfg.keys key e;
                signed = v;
                described = refl;
              }
              | inr v ↦ rw v tt
            ])
    ]

    claims-Accepted :
        AcceptedIf parts (check_claims lib now cfgs p.hd p.claims (signed_bytes p) p.signature)
    unfolding check_claims
    claims-Accepted = elim (Bool-cases (is_past now p.claims.exp)) [
      | inl late ↦ rw late tt
      | inr fresh ↦ rw fresh (elim (Option-cases (find_cfg p.claims cfgs)) [
        | inl e ↦ rw (e, AcceptedIf) tt
        | inr (cfg, e) ↦ rw e (signature-Accepted cfg fresh (find_cfg-IsFor p.claims cfgs cfg e))
      ])
    ]

  module _ (a b c : Text) where
    json-Accepted :
        (x y z : Text)
        → lib.unbase64 a ≡ some x
        → lib.unbase64 b ≡ some y
        → lib.unbase64 c ≡ some z
        → AcceptedIf (a ∷ b ∷ c ∷ []) (
            check_json lib now cfgs
              (lib.unmarshal_header x)
              (read_claims (lib.unmarshal_claims y))
              (a ++ b'.' ∷ b)
              z)
    unfolding check_json
    json-Accepted x y z e f g = elim (Option-cases (lib.unmarshal_header x)) [
      | inl n ↦ rw n tt
      | inr (hd, h) ↦ rw h (elim (Option-cases (read_claims (lib.unmarshal_claims y))) [
        | inl n ↦ rw n tt
        | inr (claims, k) ↦ rw k (
            claims-Accepted (a ∷ b ∷ c ∷ []) record {
              header_part = a;
              claims_part = b;
              signature_part = c;
              split = refl;
              header_bytes = x;
              claims_bytes = y;
              signature = z;
              header_decodes = e;
              claims_decode = f;
              signature_decodes = g;
              hd = hd;
              claims = claims;
              header_parses = h;
              claims_parse = k;
            })
      ])
    ]

    parts-Accepted : AcceptedIf (a ∷ b ∷ c ∷ []) (check_split lib now cfgs (a ∷ b ∷ c ∷ []))
    unfolding check_split check_parts
    parts-Accepted = elim (Option-cases (lib.unbase64 a)) [
      | inl n ↦ rw n tt
      | inr (x, e) ↦ rw e (elim (Option-cases (lib.unbase64 b)) [
        | inl n ↦ rw n tt
        | inr (y, f) ↦ rw f (elim (Option-cases (lib.unbase64 c)) [
          | inl n ↦ rw n tt
          | inr (z, g) ↦ rw g (json-Accepted x y z e f g)
        ])
      ])
    ]

  split-Accepted : (parts : List Text) → AcceptedIf parts (check_split lib now cfgs parts)
  unfolding check_split
  split-Accepted [] = tt
  split-Accepted (a ∷ []) = tt
  split-Accepted (a ∷ b ∷ []) = tt
  split-Accepted (a ∷ b ∷ c ∷ []) = parts-Accepted a b c
  split-Accepted (a ∷ b ∷ c ∷ d ∷ rest) = tt

  -- A token that is accepted has three parts, which can all be decoded; its claims have not expired
  -- and have the issuer and the audience of a configuration; one of the keys of that has the name and
  -- the algorithm of the header, and its signature of the first two parts is the third; and the
  -- result describes the claims.
  pub validate_token_openid-Accepted :
      (tok : OpenidToken)
      → AcceptedIf (split_dots tok.id_token) (validate_token_openid lib now cfgs tok)
  unfolding validate_token_openid
  validate_token_openid-Accepted tok = split-Accepted (split_dots tok.id_token)
