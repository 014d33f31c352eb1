-- ===== src/Cloud/Login.antt =====
-- The handlers of packages/core/src/api that keep what the cloud answers in the configuration
-- (packages/core/src/meross/config.ts): login-cloud.ts and refresh-cloud-devices.ts, and
-- network-cidr.ts, which keeps a range. A handler takes the configuration and the log of the
-- requests, and gives them back with its reply; `now` is the time that it writes down. The scheme
-- and the timeouts of the requests, the lines for debugging and the details of an error are not told.
-- Reading and writing the file of the configuration does not fail.
pub mod Keeps
pub mod Ready
use merossity.Prelude.{ℕ, ◌/◌, String}
use merossity.Prelude.{Bool, false}
use merossity.Prelude.{◌||◌, Option, none, some, List}
use merossity.Prelude.{str_eq, if◌then◌else◌}
use merossity.Prelude.{get_or, map_option}
use merossity.Prelude.Texts.{trim, includes}
use merossity.Prelude.Maps.{Map, lookup}
use merossity.Json.{Value, Items, get, is_truthy}
use merossity.Api.Client.{Reply, done, refused, LanConfig, to_text}
use merossity.Cloud.Http.{Failure, cloud_error, other_error, Outcome, got, failed, Fetch}
use merossity.Cloud.SignIn.{CloudCredentials, meross_cloud_login}
use merossity.Cloud.Devices.{meross_cloud_list_devices}

pub record KnownDevices : Type 0 where
  pub updated_at : String
  pub list : Items

pub record NetworkConfig : Type 0 where
  pub cidr : Option String
  pub updated_at : String

pub record DeviceHost : Type 0 where
  pub host : String
  pub mac : Option String
  pub updated_at : String

pub record MerossConfig : Type 0 where
  pub cloud : Option (CloudCredentials × String)
  pub devices : Option KnownDevices
  pub hosts : Map DeviceHost
  pub network : Option NetworkConfig

-- What the handlers for a device read of the configuration.
abbrev pub lan_config : (polls : Bool) (env_key : Option String) → MerossConfig → LanConfig
lan_config polls env_key cfg = record {
  polls = polls;
  host_of = λ uuid. map_option (λ h. h.host) (lookup uuid cfg.hosts);
  cloud_key = map_option (λ c. c.0.key) cfg.cloud;
  env_key = env_key;
}

abbrev Handled : Type 0 → Type 0
Handled A = Reply A × MerossConfig × List String

-- `body.domain ? String(body.domain) : undefined`
abbrev pub asked_domain : (print_value : Value → String) (body : Value) → Option String
asked_domain print_value body =
    if is_truthy (get "domain" body) then some (to_text print_value (get "domain" body)) else none

module _ (lower_case : String → String) where
  unfoldable pub infer_mfa_required : Failure → Bool
  infer_mfa_required (other_error message) = false
  infer_mfa_required (cloud_error message status info) =
      let t = lower_case (get_or info "") in
      includes t "mfa" || includes t "totp" || includes t "verify" || includes t "verification"

  -- The answer to an error of the cloud.
  abbrev pub failure_reply : {A : Type 0} → Failure → Reply A
  failure_reply (cloud_error message status info) = refused "cloud_error" message
  failure_reply (other_error message) = refused "unknown" message

  abbrev pub login_failure : Failure → Reply CloudCredentials
  login_failure e =
      if infer_mfa_required e
      then refused "mfa_required" "MFA required. Provide a TOTP code and try again."
      else failure_reply e

  -- The credentials are written down with the time.
  unfoldable pub store_login :
      (now : String)
      → MerossConfig
      → Outcome CloudCredentials × List String
      → Handled CloudCredentials
  store_login now cfg (got creds, log) = (
    done creds,
    record {
      cloud = some (creds, now);
      devices = cfg.devices;
      hosts = cfg.hosts;
      network = cfg.network;
    },
    log,
  )
  store_login now cfg (failed e, log) = (login_failure e, cfg, log)

  unfoldable pub store_devices :
      (now : String) → MerossConfig → Outcome Items × List String → Handled Items
  store_devices now cfg (got list, log) = (
    done list,
    record {
      cloud = cfg.cloud;
      devices = some (record { updated_at = now; list = list });
      hosts = cfg.hosts;
      network = cfg.network;
    },
    log,
  )
  store_devices now cfg (failed e, log) = (failure_reply e, cfg, log)

  module _ (show : ℕ → String) (fetch : Fetch) (print_value : Value → String) where
    -- The reply has the credentials, of which the client is shown a summary.
    unfoldable pub login_cloud :
        (now : String) (body : Value) → MerossConfig → List String → Handled CloudCredentials
    login_cloud now body cfg log =
        let email = to_text print_value (get "email" body) in
        let password = to_text print_value (get "password" body) in
        let answered =
          meross_cloud_login show fetch print_value email (asked_domain print_value body) log in
        if str_eq email "" || str_eq password ""
        then (refused "missing_creds" "Missing email/password in request body.", cfg, log)
        else store_login now cfg answered

    module _ (parse_json : String → Option Value) (now : String) where
      pub refresh_as :
          Option (CloudCredentials × String) → MerossConfig → List String → Handled Items
      refresh_as none cfg log =
          (refused "not_logged_in" "Not logged in. Run /api/cloud/login first.", cfg, log)
      refresh_as (some (creds, at)) cfg log =
          store_devices now cfg (meross_cloud_list_devices parse_json show fetch creds.domain log)

      unfoldable pub refresh_cloud_devices : MerossConfig → List String → Handled Items
      unfolding refresh_as
      refresh_cloud_devices cfg log = refresh_as cfg.cloud cfg log

-- `POST` of network-cidr.ts.
unfoldable pub network_cidr :
    (print_value : Value → String) (now : String) (body : Value)
    → MerossConfig
    → Reply String × MerossConfig
network_cidr print_value now body cfg =
    let cidr = trim (to_text print_value (get "cidr" body)) in
    if str_eq cidr "" then (refused "missing_cidr" "Missing cidr", cfg) else (
      done cidr,
      record {
        cloud = cfg.cloud;
        devices = cfg.devices;
        hosts = cfg.hosts;
        network = some (record { cidr = some cidr; updated_at = now });
      },
    )
