-- ===== src/Cloud/Login/Ready.antt =====
-- The configuration that the handlers keep over time.
use merossity.Prelude.{ℕ, String}
use merossity.Prelude.{◌≡◌, refl, sym, ap, ◌∙◌, inl, inr, true}
use merossity.Prelude.{◌||◌, Option, none, some, List}
use merossity.Prelude.{str_eq}
use merossity.Prelude.{Bool-cases, Option-cases}
use mathlib.Core.Path.{subst}
use merossity.Prelude.Texts.{trim}
use merossity.Api.Client.{to_text}
use merossity.Json.{Value, Items, array, get}
use merossity.Cloud.Http.{Failure, Outcome, got, failed, Fetch, has_status}
use merossity.Cloud.SignIn.{CloudCredentials, meross_cloud_login}
use merossity.Cloud.SignIn.Tries.{carry_got}
use merossity.Cloud.Devices.{
  is_device_list, devices_result, meross_cloud_list_devices, extract_cloud_device_list,
  extract_cloud_device_list-is_device_list,
}
use merossity.Cloud.Login.{
  asked_domain, MerossConfig, KnownDevices, store_login, store_devices, login_cloud, refresh_as,
  refresh_cloud_devices, network_cidr,
}
use merossity.Cloud.Login.Keeps.{IsComplete, meross_cloud_login-Settled}

failed-got : {A : Type 0} {e : Failure} {a : A} → ◌≡◌ {A = Outcome A} (failed e) (got a) → ⊥
failed-got h = cc

abbrev HasCredentials : Option (CloudCredentials × String) → Type 0
HasCredentials none = Unit {0}
HasCredentials (some (creds, at)) = IsComplete creds

abbrev HasDevices : Option KnownDevices → Type 0
HasDevices none = Unit {0}
HasDevices (some known) = is_device_list (array known.list) ≡ true

-- Credentials that are kept are complete, and the devices are a list of devices.
abbrev pub IsReady : MerossConfig → Type 0
IsReady cfg = HasCredentials cfg.cloud × HasDevices cfg.devices

module _ (lower_case : String → String) (show : ℕ → String) (fetch : Fetch)
    (print_value : Value → String) (parse_json : String → Option Value) where
  -- One request to a handler that keeps something. The network may have been used in between.
  pub data ConfigStep : MerossConfig → MerossConfig → Type 0 where
    by_login :
        {cfg next : MerossConfig} (now : String) (body : Value) (log : List String)
        → next ≡ (login_cloud lower_case show fetch print_value now body cfg log).1
        → ConfigStep cfg next
    by_refresh :
        {cfg next : MerossConfig} (now : String) (log : List String)
        → next ≡ (refresh_cloud_devices lower_case show fetch print_value parse_json now cfg log).1
        → ConfigStep cfg next
    by_range :
        {cfg next : MerossConfig} (now : String) (body : Value)
        → next ≡ (network_cidr print_value now body cfg).1
        → ConfigStep cfg next

  pub data ConfigRun : MerossConfig → MerossConfig → Type 0 where
    stay : {cfg : MerossConfig} → ConfigRun cfg cfg
    request_then :
        {cfg mid next : MerossConfig} → ConfigStep cfg mid → ConfigRun mid next → ConfigRun cfg next

  store_login-IsReady :
      (email now : String) (domain : Option String) (cfg : MerossConfig) (log : List String)
      (answered : Outcome CloudCredentials × List String)
      → meross_cloud_login show fetch print_value email domain log ≡ answered
      → IsReady cfg
      → IsReady ((store_login lower_case now cfg answered).1)
  unfolding store_login
  store_login-IsReady email now domain cfg log (got c, mid) e r =
      ((meross_cloud_login-Settled show fetch print_value email domain log mid e).4, r.1)
  store_login-IsReady email now domain cfg log (failed x, mid) e r = r

  devices_result-list :
      (resp : Value) {vs : Items}
      → devices_result parse_json resp ≡ got vs
      → is_device_list (array vs) ≡ true
  unfolding devices_result
  devices_result-list resp {vs} h = elim (Bool-cases (has_status 0 resp)) [
    | inl e ↦ elim (Option-cases (extract_cloud_device_list parse_json (get "data" resp))) [
      | inl f ↦ elim (failed-got (rw (e, f) at h)) [ ]
      | inr (ws, f) ↦
          let same : ◌≡◌ {A = Outcome Items} (got ws) (got vs) = rw (e, f) at h in
          let items : ws ≡ vs = cc in
          extract_cloud_device_list-is_device_list parse_json (get "data" resp) (f ∙ ap some items)
    ]
    | inr e ↦ elim (failed-got (rw e at h)) [ ]
  ]

  store_devices-IsReady :
      (now domain : String) (cfg : MerossConfig) (log : List String)
      (answered : Outcome Items × List String)
      → meross_cloud_list_devices parse_json show fetch domain log ≡ answered
      → IsReady cfg
      → IsReady ((store_devices lower_case now cfg answered).1)
  unfolding store_devices meross_cloud_list_devices
  store_devices-IsReady now domain cfg log (got vs, mid) e r =
      let (last, l, e1, f) = carry_got e in (r.0, devices_result-list last.1 (ap (λ p. p.0) f))
  store_devices-IsReady now domain cfg log (failed x, mid) e r = r

  refresh_as-IsReady :
      (now : String) (cloud : Option (CloudCredentials × String)) (cfg : MerossConfig)
      (log : List String)
      → IsReady cfg
      → IsReady ((refresh_as lower_case show fetch print_value parse_json now cloud cfg log).1)
  unfolding refresh_as
  refresh_as-IsReady now none cfg log r = r
  refresh_as-IsReady now (some (creds, at)) cfg log r =
      store_devices-IsReady now creds.domain cfg log _ refl r

  step-IsReady : {cfg next : MerossConfig} → ConfigStep cfg next → IsReady cfg → IsReady next
  unfolding login_cloud refresh_cloud_devices network_cidr
  step-IsReady {cfg} {next} (by_login now body log e) r =
      let email = to_text print_value (get "email" body) in
      let password = to_text print_value (get "password" body) in
      subst IsReady (sym e) (elim (Bool-cases (str_eq email "" || str_eq password "")) [
        | inl f ↦ rw f r
        | inr f ↦
            rw f (store_login-IsReady email now (asked_domain print_value body) cfg log _ refl r)
      ])
  step-IsReady {cfg} (by_refresh now log e) r =
      subst IsReady (sym e) (refresh_as-IsReady now cfg.cloud cfg log r)
  step-IsReady {cfg} (by_range now body e) r =
      let cidr = trim (to_text print_value (get "cidr" body)) in
      subst IsReady (sym e) (elim (Bool-cases (str_eq cidr "")) [ inl f ↦ rw f r | inr f ↦ rw f r ])

  -- From a configuration without credentials or with complete ones, and without devices or with a
  -- list of devices, any sequence of logins, refreshes of the devices and changes of the range comes
  -- to such a configuration.
  pub run-IsReady : {cfg next : MerossConfig} → ConfigRun cfg next → IsReady cfg → IsReady next
  run-IsReady stay r = r
  run-IsReady (request_then s run) r = run-IsReady run (step-IsReady s r)
