-- ===== src/Qlib/Auth/Tests.antt =====
-- Two services, the first of which only says that authentication is optional.
use mnm.Prelude.{◌≡◌, refl, none, some, [], ◌∷◌, text}
use mnm.Qlib.Server.{AuthBy}
use mnm.Qlib.Openid.Keys.{parsed}
use mnm.Qlib.Auth.{bad, no_params, set_service, set_services, joined_set, params, set_tmtp_rev}
use mnm.Qlib.Auth.Ready.{IfSet, SettingsReady, set_tmtp_rev-SettingsReady}

abbrev optional : AuthBy
optional = record { label = []; login = none; token = []; std = []; keys = []; iss = []; aud = [] }

abbrev service : AuthBy
service = record {
  label = text "S";
  login = some (text "https" ∷ text "a=1" ∷ text "b=2" ∷ []);
  token = text "https" ∷ text "c=3" ∷ [];
  std = text "d=4" ∷ [];
  keys = text "k";
  iss = text "i";
  aud = text "u";
}

no_token : set_tmtp_rev parsed (text "site") 1 (record service { token = [] } ∷ []) ≡ bad no_params
unfolding set_tmtp_rev set_services set_service joined_set params
no_token = refl

set_tmtp_rev-SettingsReady_example :
    IfSet SettingsReady (set_tmtp_rev parsed (text "site") 1 (optional ∷ service ∷ []))
set_tmtp_rev-SettingsReady_example =
    set_tmtp_rev-SettingsReady parsed (text "site") 1 (optional ∷ service ∷ [])
