-- ===== src/Cloud/Login/Keeps.antt =====
-- What the handlers keep of the configuration.
use merossity.Prelude.{ℕ, String}
use merossity.Prelude.{◌≡◌, refl, sym, ap, ◌∙◌, ◌≢◌, inl, inr, Bool, true, false}
use merossity.Prelude.{◌||◌, Option, none, some, List, arith, eq_iff}
use merossity.Prelude.{str_eq}
use merossity.Prelude.{Bool-cases}
use mathlib.Core.Path.{subst}
use merossity.Prelude.Results.{ok}
use merossity.Json.{Value, get}
use merossity.Poller.Reading.{require_lan_key}
use merossity.Api.Client.{Reply, done, refused, to_text}
use merossity.Cloud.Http.{
  Failure, cloud_error, other_error, Outcome, got, failed, Fetch, has_status,
}
use merossity.Cloud.SignIn.{
  CloudCredentials, credentials, login_result, try_domains, domain_candidates, meross_cloud_login,
}
use merossity.Cloud.SignIn.Tries.{carry_got, Settled, try_domains-Settled}
use merossity.Cloud.Login.{
  asked_domain, MerossConfig, lan_config, store_login, failure_reply, login_failure,
  infer_mfa_required, login_cloud,
}

-- Credentials that a login may give.
abbrev pub IsComplete : CloudCredentials → Type 0
IsComplete creds = (creds.token ≢ "") × (creds.key ≢ "") × (creds.user_id ≢ "")

refused-done :
    {A : Type 0} {a : A} {code message : String}
    → ◌≡◌ {A = Reply A} (refused code message) (done a)
    → ⊥
refused-done h = cc

failure_reply-done :
    {A : Type 0} (lower_case : String → String) (e : Failure) {a : A}
    → failure_reply lower_case e ≡ done a
    → ⊥
failure_reply-done lower_case (cloud_error message status info) h = refused-done h
failure_reply-done lower_case (other_error message) h = refused-done h

login_failure-done :
    (lower_case : String → String) (e : Failure) {creds : CloudCredentials}
    → login_failure lower_case e ≡ done creds
    → ⊥
login_failure-done lower_case e h = elim (Bool-cases (infer_mfa_required lower_case e)) [
  | inl f ↦ refused-done (rw f at h)
  | inr f ↦ failure_reply-done lower_case e (rw f at h)
]

none_blank :
    (a b c : String)
    → str_eq a "" || str_eq b "" || str_eq c "" ≡ false
    → (a ≢ "") × (b ≢ "") × (c ≢ "")
none_blank a b c h =
    (ground (arith, eq_iff a ""), ground (arith, eq_iff b ""), ground (arith, eq_iff c ""))

require_lan_key-some :
    (key : String) (env : Option String) → key ≢ "" → require_lan_key (some key) env ≡ ok key
unfolding require_lan_key
require_lan_key-some key env h = elim (Bool-cases (str_eq key "")) [
  | inl e ↦ ground (arith, eq_iff key "")
  | inr e ↦ rw (e, require_lan_key) refl
]

module _ (show : ℕ → String) (fetch : Fetch) (print_value : Value → String) where
  -- The credentials are those of an answer with status 0.
  login_result-credentials :
      (email : String) (last : Option (String × Value)) {creds : CloudCredentials}
      → login_result show fetch print_value email last ≡ got creds
      → (domain : String) × (resp : Value) × (last ≡ some (domain, resp))
        × (has_status 0 resp ≡ true)
        × (creds ≡ credentials show fetch print_value email domain resp)
        × IsComplete creds
  unfolding login_result
  login_result-credentials email none h = cc
  login_result-credentials email (some (domain, resp)) {creds} h =
      let told = credentials show fetch print_value email domain resp in
      let missing = str_eq told.token "" || str_eq told.key "" || str_eq told.user_id "" in
      elim (Bool-cases (has_status 0 resp)) [
        | inl e ↦ elim (Bool-cases missing) [
          | inl f ↦
              let bad : ◌≡◌ {A = Outcome CloudCredentials} (failed _) (got creds) =
                rw (e, f) at h in
              cc
          | inr f ↦
              let same : ◌≡◌ {A = Outcome CloudCredentials} (got told) (got creds) =
                rw (e, f) at h in
              let is : told ≡ creds = cc in
              (
                domain,
                resp,
                refl,
                e,
                sym is,
                subst IsComplete is (none_blank told.token told.key told.user_id f),
              )
        ]
        | inr e ↦
            let bad : ◌≡◌ {A = Outcome CloudCredentials} (failed _) (got creds) = rw e at h in cc
      ]

  pub meross_cloud_login-Settled :
      (email : String) (domain : Option String) (log after : List String) {creds : CloudCredentials}
      → meross_cloud_login show fetch print_value email domain log ≡ (got creds, after)
      → (region : String) × (resp : Value) × (has_status 0 resp ≡ true)
        × (creds ≡ credentials show fetch print_value email region resp)
        × IsComplete creds
        × Settled show fetch (domain_candidates domain) log after region resp
  unfolding meross_cloud_login
  meross_cloud_login-Settled email domain log after {creds} h =
      let (last, mid, e, f) = carry_got h in
      let (region, resp, last_is, good, told, complete) =
        login_result-credentials email last (ap (λ r. r.0) f) in
      let ended : try_domains show fetch print_value (domain_candidates domain) log
          ≡ (got (some (region, resp)), after) =
        e ∙ ap (λ l. (got last, l)) (ap (λ r. r.1) f) ∙ ap (λ l. (got l, after)) last_is in
      (
        region,
        resp,
        good,
        told,
        complete,
        try_domains-Settled show fetch print_value (domain_candidates domain) log after ended,
      )

  -- What a login that succeeds has stored, and what the requests on the network get from it.
  pub record Stored (email : String) (domain : Option String) (now : String)
      (cfg next : MerossConfig) (log after : List String) (creds : CloudCredentials) : Type 0 where
    pub region : String
    pub resp : Value
    pub good : has_status 0 resp ≡ true
    pub told : creds ≡ credentials show fetch print_value email region resp
    pub complete : IsComplete creds
    pub settled : Settled show fetch (domain_candidates domain) log after region resp
    pub cloud : next.cloud ≡ some (creds, now)
    pub devices : next.devices ≡ cfg.devices
    pub hosts : next.hosts ≡ cfg.hosts
    pub network : next.network ≡ cfg.network
    pub key :
        (polls : Bool) (env : Option String)
        → require_lan_key ((lan_config polls env next).cloud_key) env ≡ ok creds.key

  abbrev Ended :
      (email : String) (domain : Option String) (now : String) (cfg : MerossConfig)
      (log : List String)
      → Reply CloudCredentials × MerossConfig × List String
      → Type 0
  Ended email domain now cfg log (done creds, next, after) =
      Stored email domain now cfg next log after creds
  Ended email domain now cfg log (refused code message, next, after) = Unit {0}

  store_login-Stored :
      (lower_case : String → String) (email : String) (domain : Option String) (now : String)
      (cfg next : MerossConfig) (log after : List String)
      (answered : Outcome CloudCredentials × List String) {creds : CloudCredentials}
      → meross_cloud_login show fetch print_value email domain log ≡ answered
      → store_login lower_case now cfg answered ≡ (done creds, next, after)
      → Stored email domain now cfg next log after creds
  unfolding store_login
  store_login-Stored lower_case email domain now cfg next log after (got c, mid) e h =
      let (region, resp, good, told, complete, settled) =
        meross_cloud_login-Settled email domain log mid e in
      subst (Ended email domain now cfg log) h (record {
        region = region;
        resp = resp;
        good = good;
        told = told;
        settled = settled;
        complete = complete;
        cloud = refl;
        devices = refl;
        hosts = refl;
        network = refl;
        key = λ polls env. require_lan_key-some c.key env (complete.1);
      })
  store_login-Stored lower_case email domain now cfg next log after (failed x, mid) e h =
      elim (login_failure-done lower_case x (ap (λ r. r.0) h)) [ ]

  -- A login that succeeds was settled by a candidate domain, which answered with status 0 after all
  -- candidates before it had refused with 1004. It stores the credentials of this answer, which have a
  -- token, a key and a user, changes nothing else in the configuration, and the requests to devices
  -- then get its key.
  pub login_cloud-Stored :
      (lower_case : String → String) (now : String) (body : Value) (cfg next : MerossConfig)
      (log after : List String) {creds : CloudCredentials}
      → login_cloud lower_case show fetch print_value now body cfg log ≡ (done creds, next, after)
      → Stored
          (to_text print_value (get "email" body))
          (asked_domain print_value body)
          now
          cfg
          next
          log
          after
          creds
  unfolding login_cloud
  login_cloud-Stored lower_case now body cfg next log after {creds} h =
      let email = to_text print_value (get "email" body) in
      let password = to_text print_value (get "password" body) in
      elim (Bool-cases (str_eq email "" || str_eq password "")) [
        | inl e ↦ elim (refused-done (ap (λ r. r.0) (rw e at h))) [ ]
        | inr e ↦
            store_login-Stored lower_case email (asked_domain print_value body) now cfg next log
              after _ refl (rw e at h)
      ]
