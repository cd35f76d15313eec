-- ===== src/Main/Config.antt =====
-- main.go, tConfig.load and the arguments of mainResult.
use mnm.Prelude.{
  ℕ, zero, suc, ◌≡◌, inl, inr, refl, Bool, ◌||◌, ◌&&◌, Option, none, some, List, [], ◌∷◌, Text, ltb,
  if◌then◌else◌, Option-cases,
}
use mnm.Qlib.Header.{ℤ, pos, negsuc}
use mnm.Qlib.Openid.{OpenidCfg}
use mnm.Qlib.Server.{AuthBy}
use mnm.Qlib.Openid.Keys.{KeyRead}
use mnm.Qlib.Auth.{Settings, SettingsError, Set, set, bad, crash, set_tmtp_rev}

-- tConfig, less Ntp.time, which `load` returns. `retries` is a uint8.
pub record Config : Type 0 where
  pub ntp_hosts : List Text
  pub ntp_retries : ℕ
  pub net : Text
  pub laddr : Text
  pub cert_path : Text
  pub key_path : Text
  pub name : Text
  pub auth : ℕ
  pub auth_by : List AuthBy

pub data LoadError : Type 0 where
  no_config bad_config no_ntp : LoadError
  bad_settings : SettingsError → LoadError
  keys_panic : LoadError

-- What the loops over the hosts come to: the time that a host gave, or none, and the number of
-- queries made.
pub record Asked : Type 0 where
  pub time : Option ℕ
  pub queries : ℕ

abbrev pub answered_or : Option ℕ → Asked → Asked → Asked
answered_or (some t) r next = r
answered_or none r next = next

-- pNtp.Time: the answer to the query of the number `k`, at a host.
module _ (ntp : ℕ → Text → Option ℕ) where
  -- The loop over the retries that are left.
  unfoldable pub ask_host : ℕ → ℕ → Text → Asked
  ask_host zero k host = record { time = none; queries = k }
  ask_host (suc n) k host = elim (ntp k host) [
    | some t ↦ record { time = some t; queries = suc k }
    | none ↦ ask_host n (suc k) host
  ]

  -- The loop over the hosts; a host that has failed gives way to the next.
  unfoldable pub ask_hosts : ℕ → ℕ → List Text → Asked
  unfolding ask_host
  ask_hosts retries k [] = record { time = none; queries = k }
  ask_hosts retries k (host ∷ hosts) =
      let r = ask_host retries k host in answered_or r.time r (ask_hosts retries r.queries hosts)

  -- The queries in the order in which they are made, as long as they fail.
  unfoldable pub repeated : ℕ → Text → List Text → List Text
  repeated zero host more = more
  repeated (suc n) host more = host ∷ repeated n host more

  unfoldable pub schedule : ℕ → List Text → List Text
  unfolding repeated
  schedule retries [] = []
  schedule retries (host ∷ hosts) = repeated retries host (schedule retries hosts)

  -- The answer to the first query of a list that is answered.
  unfoldable pub first_answer : ℕ → List Text → Asked
  first_answer k [] = record { time = none; queries = k }
  first_answer k (host ∷ more) = elim (ntp k host) [
    | some t ↦ record { time = some t; queries = suc k }
    | none ↦ first_answer (suc k) more
  ]

  ask_host-failed :
      (n k : ℕ) (host : Text)
      → ntp k host ≡ none
      → ask_host (suc n) k host ≡ ask_host n (suc k) host
  unfolding ask_host
  ask_host-failed n k host e = rw (ask_host, e) refl

  ask_host-answered :
      (n k t : ℕ) (host : Text)
      → ntp k host ≡ some t
      → ask_host (suc n) k host ≡ record { time = some t; queries = suc k }
  unfolding ask_host
  ask_host-answered n k t host e = rw (ask_host, e) refl

  ask_host-repeated :
      (n k : ℕ) (host : Text) (more : List Text)
      → first_answer k (repeated n host more)
        ≡ answered_or
            (ask_host n k host).time
            (ask_host n k host)
            (first_answer (ask_host n k host).queries more)
  unfolding repeated first_answer
  ask_host-repeated zero k host more = unfold ask_host in refl
  ask_host-repeated (suc n) k host more = elim (Option-cases (ntp k host)) [
    | inl e ↦ rw (ask_host-failed n k host e) (rw e (ask_host-repeated n (suc k) host more))
    | inr (t, e) ↦ rw (ask_host-answered n k t host e) (rw e refl)
  ]

  -- The two loops, over the hosts and the retries, make one query after the other, each host as often
  -- as there are retries, until one is answered: they give that answer, or none, and the number of
  -- queries made.
  pub ask_hosts-schedule :
      (retries k : ℕ) (hosts : List Text)
      → ask_hosts retries k hosts ≡ first_answer k (schedule retries hosts)
  unfolding ask_hosts schedule
  ask_hosts-schedule retries k [] = unfold first_answer in refl
  ask_hosts-schedule retries k (host ∷ hosts) =
      rw (ask_host-repeated retries k host (schedule retries hosts))
        (rw (ask_hosts-schedule retries (ask_host retries k host).queries hosts) refl)

-- What `load` returns: the settings and the time, or an error.
pub data Load : Type 0 where
  loaded : Settings → ℕ → Load
  not_loaded : LoadError → Load

abbrev pub with_time : Settings → Option ℕ → Load
with_time s (some t) = loaded s t
with_time s none = not_loaded no_ntp

abbrev pub with_settings : (ℕ → Text → Option ℕ) → Config → Set Settings → Load
with_settings ntp c (bad e) = not_loaded (bad_settings e)
with_settings ntp c crash = not_loaded keys_panic
with_settings ntp c (set s) = with_time s (ask_hosts ntp c.ntp_retries 0 c.ntp_hosts).time

module _ (unmarshal : Text → Option Config) (fetch : List OpenidCfg → KeyRead (List OpenidCfg))
    (ntp : ℕ → Text → Option ℕ) where
  abbrev pub configured : Option Config → Load
  configured none = not_loaded bad_config
  configured (some c) = with_settings ntp c (set_tmtp_rev fetch c.name c.auth c.auth_by)

  -- tConfig.load of kConfigFile's text, if it is there; `unmarshal` is json.Unmarshal.
  unfoldable pub load : Option Text → Load
  load none = not_loaded no_config
  load (some text) = configured (unmarshal text)

-- What the arguments ask for: a number of test clients, or the server.
pub data Mode : Type 0 where
  testing : ℕ → Mode
  serving : Mode
  bad_count : Mode

abbrev pub count_mode : Option ℤ → Mode
count_mode none = bad_count
count_mode (some (negsuc n)) = bad_count
count_mode (some (pos n)) = if ltb n 2 || ltb 1000 n then bad_count else testing n

-- os.Args, where `atoi` is strconv.Atoi.
unfoldable pub mode_of : (Text → Option ℤ) → List Text → Mode
mode_of atoi (program ∷ count ∷ []) = count_mode (atoi count)
mode_of atoi _ = serving

-- mainResult: the status of the exit, by the arguments and by whether the configuration is loaded, the
-- database is opened, and the server returns without an error.
unfoldable pub main_result : Mode → Load → Bool → Bool → ℕ
main_result bad_count l opens serves = 1
main_result (testing n) l opens serves = if opens then 0 else 1
main_result serving (not_loaded e) opens serves = 1
main_result serving (loaded s t) opens serves = if opens && serves then 0 else 1
