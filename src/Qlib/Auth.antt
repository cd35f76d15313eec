-- ===== src/Qlib/Auth.antt =====
-- qlib/qlib.go, SetTmtpRev: the services that may vouch for a new user, as the configuration has them.
pub mod Ready
mod Tests
use mnm.Prelude.{
  ℕ, Bool, true, false, ◌||◌, Option, none, some, List, [], ◌∷◌, ◌++◌, Text, length, is_empty, ltb,
  if◌then◌else◌,
}
use mnm.Qlib.Openid.{OpenidCfg}
use mnm.Qlib.Openid.Keys.{KeyRead, parsed, crashes}
use mnm.Qlib.Openid.Keys
use mnm.Qlib.Server.{AuthBy}

-- sSiteName, sAuthType, sAuthBy, sAuthOptional and sOpenidCfg.
pub record Settings : Type 0 where
  pub site_name : Text
  pub auth_type : ℕ
  pub auth_by : List AuthBy
  pub auth_optional : Bool
  pub cfgs : List OpenidCfg

pub data SettingsError : Type 0 where
  too_many no_label no_params : SettingsError

-- The server does not start after an error or a panic, so that nothing of the settings is kept then.
pub data Set {ℓ} (A : Type ℓ) : Type ℓ where
  set : A → Set A
  bad : SettingsError → Set A
  crash : Set A

abbrev pub and_then {ℓ κ} : {A : Type ℓ} {B : Type κ} → Set A → (A → Set B) → Set B
and_then (set a) f = f a
and_then (bad e) f = bad e
and_then crash f = crash

abbrev pub fetched {ℓ} : {A : Type ℓ} → KeyRead A → Set A
fetched (parsed a) = set a
fetched (Keys.bad) = crash
fetched crashes = crash

-- "&" before each parameter.
unfoldable pub params : List Text → Text
params [] = []
params (p ∷ ps) = b'&' ∷ p ++ params ps

-- aParams[1:], where it has a first character.
abbrev pub less_first : Text → Text
less_first [] = []
less_first (c ∷ s) = s

-- The URL and the parameters, those of the set and then the standard ones, as one.
unfoldable pub joined_set : List Text → List Text → Set (List Text)
unfolding params
joined_set std [] = bad no_params
joined_set std (url ∷ []) = bad no_params
joined_set std (url ∷ p ∷ ps) =
    let all_params = params (p ∷ ps) ++ params std in
    if is_empty url || is_empty all_params
    then bad no_params
    else set (url ∷ less_first all_params ∷ [])

abbrev pub strings_of : Option (List Text) → List Text
strings_of none = []
strings_of (some l) = l

-- A service, with its options cleared, and its configuration, whose keys are fetched later.
unfoldable pub set_service : AuthBy → Set (AuthBy × OpenidCfg)
unfolding joined_set
set_service a =
    if is_empty a.label
    then bad no_label
    else and_then (joined_set a.std (strings_of a.login)) λ login.
      and_then (joined_set a.std a.token) λ token. set (
        record {
          label = a.label;
          login = some login;
          token = token;
          std = [];
          keys = [];
          iss = [];
          aud = [];
        },
        record { url = a.keys; iss = a.iss; aud = a.aud; keys = [] },
      )

unfoldable pub set_services : List AuthBy → Set (List AuthBy × List OpenidCfg)
unfolding set_service
set_services [] = set ([], [])
set_services (a ∷ rest) =
    and_then (set_service a)
      λ one. and_then (set_services rest) λ more. set (one.0 ∷ more.0, one.1 ∷ more.1)

-- A first service without a login makes authentication optional, and is none itself.
abbrev pub is_optional : List AuthBy → Bool
is_optional [] = false
is_optional (a ∷ rest) = elim a.login [ none ↦ true | some l ↦ false ]

abbrev pub less_optional : List AuthBy → List AuthBy
less_optional [] = []
less_optional (a ∷ rest) = elim a.login [ none ↦ rest | some l ↦ a ∷ rest ]

abbrev pub max_services : ℕ
max_services = 26

-- SetTmtpRev; `fetch` is initOpenid, which gives the configurations their keys or panics.
unfoldable pub set_tmtp_rev :
    (List OpenidCfg → KeyRead (List OpenidCfg)) → Text → ℕ → List AuthBy → Set Settings
unfolding set_services
set_tmtp_rev fetch name type by =
    if ltb max_services (length by)
    then bad too_many
    else and_then (set_services (less_optional by)) λ done.
      and_then (fetched (fetch done.1)) λ cfgs. set record {
        site_name = name;
        auth_type = if is_empty by then 0 else type;
        auth_by = done.0;
        auth_optional = is_optional by;
        cfgs = cfgs;
      }
