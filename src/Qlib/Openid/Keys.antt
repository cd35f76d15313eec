-- ===== src/Qlib/Openid/Keys.antt =====
-- qlib/openid.go, initOpenid and the parsing of keys, with the exponent of the key that is for tests.
use mnm.Prelude.{
  ℕ, ◌+◌, ◌-◌, ◌*◌, ◌/◌, ◌%◌, ◌<◌, ◌≡◌, ◌⊎◌, ap, inl, inr, refl, false, Option, none, some, List,
  [], ◌∷◌, ◌++◌, Text, length, take, drop, ltb, ◌==◌, if◌then◌else◌, arith, Bool-cases, take-append,
  length-append,
}
use mnm.Qlib.Openid.{OpenidKey, OpenidCfg}

-- A part of a key, or an error, or a panic.
pub data KeyRead {ℓ} (A : Type ℓ) : Type ℓ where
  parsed : A → KeyRead A
  bad : KeyRead A
  crashes : KeyRead A

abbrev pub and_read {ℓ κ} : {A : Type ℓ} {B : Type κ} → KeyRead A → (A → KeyRead B) → KeyRead B
and_read (parsed a) f = f a
and_read bad f = bad
and_read crashes f = crashes

-- iStr[1:len(iStr)-1], which panics on fewer than two bytes.
unfoldable pub unquoted : Text → KeyRead Text
unquoted s = if ltb (length s) 2 then crashes else parsed (take (length s - 2) (drop 1 s))

abbrev pub decoded : Option Text → KeyRead Text
decoded none = bad
decoded (some b) = parsed b

-- binary.LittleEndian.Uint32: the first four bytes.
unfoldable pub uint32 : Text → KeyRead ℕ
uint32 (a ∷ b ∷ c ∷ d ∷ more) = parsed (a + b * 0x100 + c * 0x10000 + d * 0x1000000)
uint32 _ = crashes

-- big.Int.SetBytes
unfoldable pub set_bytes : ℕ → Text → ℕ
set_bytes n [] = n
set_bytes n (b ∷ s) = set_bytes (n * 256 + b) s

abbrev pub padded : Text → Text
padded b = if length b == 3 then b ++ 0 ∷ [] else b

-- The members of a key's JSON that are read, in its order; `e` and `n` have the values' own JSON, but
-- for a null, at which N is nil.
pub data KeyField : Type 0 where
  key_kid key_alg key_e key_n : Text → KeyField
  key_no_n : KeyField

abbrev pub zero_key : OpenidKey
zero_key = record { kid = []; alg = []; e = 0; n = none }

-- base64.RawURLEncoding.Decode
module _ (unbase64 : Text → Option Text) where
  -- _decodeBase64Url, of what is between the quotes.
  abbrev pub decode_quoted : Text → KeyRead Text
  decode_quoted s = and_read (unquoted s) (λ inner. decoded (unbase64 inner))

  -- tBase64Int.UnmarshalJSON
  unfoldable pub read_exponent : Text → KeyRead ℕ
  unfolding unquoted uint32
  read_exponent s = and_read (decode_quoted s) (λ b. uint32 (padded b))

  -- tBase64BigInt.UnmarshalJSON
  unfoldable pub read_modulus : Text → KeyRead ℕ
  unfolding unquoted set_bytes
  read_modulus s = and_read (decode_quoted s) (λ b. parsed (set_bytes 0 b))

  -- The member is set as json.Unmarshal comes to it, which ends at the first error.
  unfoldable pub read_key_field : KeyField → OpenidKey → KeyRead OpenidKey
  unfolding read_exponent read_modulus
  read_key_field (key_kid s) k = parsed (record k { kid = s })
  read_key_field (key_alg s) k = parsed (record k { alg = s })
  read_key_field (key_e s) k = and_read (read_exponent s) λ e. parsed (record k { e = e })
  read_key_field (key_n s) k = and_read (read_modulus s) λ n. parsed (record k { n = some n })
  read_key_field key_no_n k = parsed (record k { n = none })

  unfoldable pub read_key : List KeyField → OpenidKey → KeyRead OpenidKey
  unfolding read_key_field
  read_key [] k = parsed k
  read_key (f ∷ fs) k = and_read (read_key_field f k) (read_key fs)

  unfoldable pub read_keys : List (List KeyField) → KeyRead (List OpenidKey)
  unfolding read_key
  read_keys [] = parsed []
  read_keys (k ∷ ks) =
      and_read (read_key k zero_key) λ key. and_read (read_keys ks) λ keys. parsed (key ∷ keys)

  -- A configuration after its service has decoded_keys: without keys if that has failed.
  abbrev pub with_keys : OpenidCfg → KeyRead (List OpenidKey) → KeyRead OpenidCfg
  with_keys c (parsed ks) = parsed (record c { keys = ks })
  with_keys c bad = parsed c
  with_keys c crashes = crashes

  -- http.Get of the body at a URL, and the decoding of its JSON but for the numbers.
  module _ (http_get : Text → Option Text) (decode : Text → Option (List (List KeyField))) where
    abbrev pub decoded_keys : Option (List (List KeyField)) → KeyRead (List OpenidKey)
    decoded_keys none = bad
    decoded_keys (some ks) = read_keys ks

    abbrev pub body_keys : Option Text → KeyRead (List OpenidKey)
    body_keys none = bad
    body_keys (some body) = decoded_keys (decode body)

    -- initOpenid
    unfoldable pub init_openid : List OpenidCfg → KeyRead (List OpenidCfg)
    unfolding read_keys
    init_openid [] = parsed []
    init_openid (c ∷ cs) =
        and_read (with_keys c (body_keys (http_get c.url)))
          λ c'. and_read (init_openid cs) λ cs'. parsed (c' ∷ cs')

-- enableTestOpenid: PutUint32 of an exponent, less a last byte that is 0.
unfoldable pub exponent_bytes : ℕ → Text
exponent_bytes e =
    let low = e % 0x100 ∷ e / 0x100 % 0x100 ∷ e / 0x10000 % 0x100 ∷ [] in
    let high = e / 0x1000000 % 0x100 in if high == 0 then low else low ++ high ∷ []

-- A string of JSON that needs no escapes.
abbrev pub quoted : Text → Text
quoted s = b'"' ∷ (s ++ b'"' ∷ [])

unquoted-quoted : (s : Text) → unquoted (quoted s) ≡ parsed s
unfolding unquoted
unquoted-quoted s =
    let size = length-append s (b'"' ∷ []) in
    let enough : ltb (length (quoted s)) 2 ≡ false = ground (arith, size) in
    let inner : length (quoted s) - 2 ≡ length s = omega (arith, size) in
    rw enough (rw inner (rw (take-append s (b'"' ∷ [])) refl))

uint32-exponent_bytes : (e : ℕ) → e < 0x100000000 → uint32 (padded (exponent_bytes e)) ≡ parsed e
unfolding uint32 exponent_bytes
uint32-exponent_bytes e h = elim (Bool-cases (e / 0x1000000 % 0x100 == 0)) [
  | inl z ↦ rw z (ap (λ x. parsed x) (ground (arith, z, h)))
  | inr z ↦ rw z (ap (λ x. parsed x) (ground (arith, h)))
]

module _ (base64 : Text → Text) (unbase64 : Text → Option Text)
    (inverse : (s : Text) → unbase64 (base64 s) ≡ some s) where
  -- With an encoding that the decoding takes back, the exponent of a test key, below 2 ^ 32, is read
  -- from its JSON as it was.
  pub read_exponent-exponent_bytes :
      (e : ℕ)
      → e < 0x100000000
      → read_exponent unbase64 (quoted (base64 (exponent_bytes e))) ≡ parsed e
  unfolding read_exponent
  read_exponent-exponent_bytes e h =
      rw (unquoted-quoted (base64 (exponent_bytes e)))
        (rw (inverse (exponent_bytes e)) (uint32-exponent_bytes e h))

and_read-parsed {ℓ κ} :
    {A : Type ℓ} {B : Type κ} (r : KeyRead A) (f : A → KeyRead B) (b : B)
    → and_read r f ≡ parsed b
    → (a : A) × ((r ≡ parsed a) × (f a ≡ parsed b))
and_read-parsed (parsed a) f b h = (a, (refl, h))
and_read-parsed bad f b h = absurd (ground arith)
and_read-parsed crashes f b h = absurd (ground arith)

module _ (unbase64 : Text → Option Text) where
  with_keys-cases :
      (c : OpenidCfg) (r : KeyRead (List OpenidKey))
      → (with_keys unbase64 c r ≡ crashes)
        ⊎ ((c' : OpenidCfg) × (with_keys unbase64 c r ≡ parsed c'))
  with_keys-cases c (parsed ks) = inr (record c { keys = ks }, refl)
  with_keys-cases c bad = inr (c, refl)
  with_keys-cases c crashes = inl refl

  read_key-append :
      (fs gs : List KeyField) (k k' : OpenidKey)
      → read_key unbase64 fs k ≡ parsed k'
      → read_key unbase64 (fs ++ gs) k ≡ read_key unbase64 gs k'
  unfolding read_key
  read_key-append [] gs k k' h = ground arith
  read_key-append (f ∷ fs) gs k k' h =
      let (k₁, (e, g)) = and_read-parsed (read_key_field unbase64 f k) _ k' h in
      rw e (read_key-append fs gs k₁ k' g)

  read_keys-crashes :
      (ks more : List (List KeyField)) (k : List KeyField) (keys : List OpenidKey)
      → read_keys unbase64 ks ≡ parsed keys
      → read_key unbase64 k zero_key ≡ crashes
      → read_keys unbase64 (ks ++ k ∷ more) ≡ crashes
  unfolding read_keys
  read_keys-crashes [] more k keys h c = rw c refl
  read_keys-crashes (f ∷ fs) more k keys h c =
      let (k₁, (e, g)) = and_read-parsed (read_key unbase64 f zero_key) _ keys h in
      let (keys', (d, i)) = and_read-parsed (read_keys unbase64 fs) _ keys g in
      rw e (rw (read_keys-crashes fs more k keys' d c) refl)

  init_openid-crashes :
      (http_get : Text → Option Text) (decode : Text → Option (List (List KeyField)))
      (first rest : List OpenidCfg)
      → init_openid unbase64 http_get decode rest ≡ crashes
      → init_openid unbase64 http_get decode (first ++ rest) ≡ crashes
  unfolding init_openid
  init_openid-crashes http_get decode [] rest h = h
  init_openid-crashes http_get decode (c ∷ cs) rest h =
      elim (with_keys-cases c (body_keys unbase64 http_get decode (http_get c.url))) [
        | inl e ↦ rw e refl
        | inr (c', e) ↦ rw e (rw (init_openid-crashes http_get decode cs rest h) refl)
      ]

  uint32-short : (b : Text) → length b < 3 → uint32 (padded b) ≡ crashes
  unfolding uint32
  uint32-short [] h = refl
  uint32-short (x ∷ []) h = refl
  uint32-short (x ∷ y ∷ []) h = refl
  uint32-short (x ∷ y ∷ z ∷ more) h = absurd (omega arith)

  read_exponent-short :
      (b s : Text)
      → unbase64 s ≡ some b
      → length b < 3
      → read_exponent unbase64 (quoted s) ≡ crashes
  unfolding read_exponent
  read_exponent-short b s decodes short =
      rw (unquoted-quoted s) (rw decodes (rw (uint32-short b short) refl))

  -- A key of any service, with an exponent of no, one or two bytes, makes initOpenid panic, if the
  -- keys before it in the service's answer, and the members before the exponent in the key, are read
  -- without an error.
  pub init_openid-short :
      (http_get : Text → Option Text) (decode : Text → Option (List (List KeyField)))
      (c : OpenidCfg) (before after : List OpenidCfg) (body : Text) (ks more : List (List KeyField))
      (fs gs : List KeyField) (b s : Text) (k : OpenidKey) (keys : List OpenidKey)
      → http_get c.url ≡ some body
      → decode body ≡ some (ks ++ (fs ++ key_e (quoted s) ∷ gs) ∷ more)
      → read_keys unbase64 ks ≡ parsed keys
      → read_key unbase64 fs zero_key ≡ parsed k
      → unbase64 s ≡ some b
      → length b < 3
      → init_openid unbase64 http_get decode (before ++ c ∷ after) ≡ crashes
  unfolding init_openid read_key
  init_openid-short http_get decode c before after body ks more fs gs b s k keys got there earlier
        first decodes short =
      let crash : read_key unbase64 (fs ++ key_e (quoted s) ∷ gs) zero_key ≡ crashes =
        rw (read_key-append fs (key_e (quoted s) ∷ gs) zero_key k first)
          (rw (read_exponent-short b s decodes short) refl) in
      init_openid-crashes http_get decode before (c ∷ after) (
        rw got (
          rw there
            (rw (read_keys-crashes ks more (fs ++ key_e (quoted s) ∷ gs) keys earlier crash) refl)))
