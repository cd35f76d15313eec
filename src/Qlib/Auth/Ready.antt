-- ===== src/Qlib/Auth/Ready.antt =====
-- What SetTmtpRev sets: services that are ready to be told to clients.
use mnm.Prelude.{
  ℕ, ◌≡◌, ◌≤◌, inl, inr, refl, false, ◌||◌, List, [], ◌∷◌, ◌++◌, Text, length, is_empty, ltb, All,
  arith, Bool-cases, Option-cases,
}
use mnm.Qlib.Openid.{OpenidCfg}
use mnm.Qlib.Openid.Keys.{KeyRead, parsed, crashes}
use mnm.Qlib.Openid.Keys
use mnm.Qlib.Server.{AuthBy}
use mnm.Qlib.Auth.{
  Settings, Set, set, bad, crash, and_then, fetched, params, less_first, joined_set, strings_of,
  set_service, set_services, less_optional, set_tmtp_rev,
}

-- A URL that is not empty, and the parameters.
abbrev pub IsPair : List Text → Type 0
IsPair l = (url : Text) × ((ps : Text) × ((l ≡ url ∷ ps ∷ []) × (is_empty url ≡ false)))

-- A service with a label, and URLs with parameters, that shows none of the server's own options.
pub record IsReady (a : AuthBy) : Type 0 where
  pub labelled : is_empty a.label ≡ false
  pub login_pair : IsPair (strings_of a.login)
  pub token_pair : IsPair a.token
  pub hidden : (a.std ≡ []) × (a.keys ≡ []) × (a.iss ≡ []) × (a.aud ≡ [])

-- A property of what is set, if it is.
abbrev pub IfSet {ℓ} : {A : Type ℓ} → (A → Type 0) → Set A → Type 0
IfSet P (set a) = P a
IfSet P (bad e) = Unit {0}
IfSet P crash = Unit {0}

and_then-IfSet {ℓ κ} :
    {A : Type ℓ} {B : Type κ} (P : A → Type 0) (Q : B → Type 0) (r : Set A) (f : A → Set B)
    → IfSet P r
    → ((a : A) → P a → IfSet Q (f a))
    → IfSet Q (and_then r f)
and_then-IfSet P Q (set a) f h g = g a h
and_then-IfSet P Q (bad e) f h g = tt
and_then-IfSet P Q crash f h g = tt

joined_set-IsPair : (std l : List Text) → IfSet IsPair (joined_set std l)
unfolding joined_set
joined_set-IsPair std [] = tt
joined_set-IsPair std (url ∷ []) = tt
joined_set-IsPair std (url ∷ p ∷ ps) =
    let all_params = params (p ∷ ps) ++ params std in
    elim (Bool-cases (is_empty url || is_empty all_params)) [
      | inl e ↦ rw e tt
      | inr e ↦ rw e (url, (less_first all_params, (refl, ground arith)))
    ]

abbrev pub ServiceReady : AuthBy × OpenidCfg → Type 0
ServiceReady r = IsReady r.0

set_service-IsReady : (a : AuthBy) → IfSet ServiceReady (set_service a)
unfolding set_service
set_service-IsReady a = elim (Bool-cases (is_empty a.label)) [
  | inl e ↦ rw e tt
  | inr e ↦ rw e (
      and_then-IfSet IsPair ServiceReady (joined_set a.std (strings_of a.login)) _
        (joined_set-IsPair a.std (strings_of a.login))
        λ login h.
          and_then-IfSet IsPair ServiceReady (joined_set a.std a.token) _
            (joined_set-IsPair a.std a.token)
            λ token g. record {
              labelled = e;
              login_pair = h;
              token_pair = g;
              hidden = (refl, refl, refl, refl);
            })
]

abbrev pub ServicesReady : ℕ → List AuthBy × List OpenidCfg → Type 0
ServicesReady n r = All IsReady r.0 × (length r.0 ≡ n)

set_services-IsReady : (l : List AuthBy) → IfSet (ServicesReady (length l)) (set_services l)
unfolding set_services
set_services-IsReady [] = (tt, refl)
set_services-IsReady (a ∷ rest) =
    and_then-IfSet ServiceReady (ServicesReady (length (a ∷ rest))) (set_service a) _
      (set_service-IsReady a)
      λ one h.
        and_then-IfSet (ServicesReady (length rest)) (ServicesReady (length (a ∷ rest)))
          (set_services rest) _ (set_services-IsReady rest) λ more g. ((h, g.0), omega (arith, g.1))

abbrev pub SettingsReady : Settings → Type 0
SettingsReady s = All IsReady s.auth_by × (length s.auth_by ≤ 26)

length-less_optional : (l : List AuthBy) → length (less_optional l) ≤ length l
length-less_optional [] = omega arith
length-less_optional (a ∷ rest) = elim (Option-cases a.login) [
  | inl e ↦ rw e (omega arith)
  | inr (l, e) ↦ rw e (omega arith)
]

fetched-IfSet : (r : KeyRead (List OpenidCfg)) → IfSet (λ cfgs. Unit {0}) (fetched r)
fetched-IfSet (parsed cfgs) = tt
fetched-IfSet Keys.bad = tt
fetched-IfSet crashes = tt

-- If the settings are accepted, there are at most 26 services, each with a label and with two pairs of
-- a URL and parameters, and none shows the options of the server.
pub set_tmtp_rev-SettingsReady :
    (fetch : List OpenidCfg → KeyRead (List OpenidCfg)) (name : Text) (type : ℕ) (l : List AuthBy)
    → IfSet SettingsReady (set_tmtp_rev fetch name type l)
unfolding set_tmtp_rev
set_tmtp_rev-SettingsReady fetch name type l = elim (Bool-cases (ltb 26 (length l))) [
  | inl e ↦ rw e tt
  | inr e ↦ rw e (
      and_then-IfSet (ServicesReady (length (less_optional l))) SettingsReady
        (set_services (less_optional l)) _ (set_services-IsReady (less_optional l))
        λ done h.
          and_then-IfSet (λ cfgs. Unit {0}) SettingsReady (fetched (fetch done.1)) _
            (fetched-IfSet (fetch done.1))
            λ cfgs g. (h.0, ground (arith, h.1, length-less_optional l)))
]
