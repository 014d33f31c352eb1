-- ===== src/Cloud/SignIn.antt =====
-- packages/core/src/meross/cloud/http.ts: `merossCloudLogin`, which tries the domains of the cloud
-- until one does not answer 1004, and `merossCloudListDevices`.
pub mod Tries
pub mod Bounds
use merossity.Prelude.{ℕ, ◌-◌, ◌/◌, String}
use merossity.Prelude.{not}
use merossity.Prelude.{◌&&◌, ◌||◌, Option, none, some, List, [], ◌∷◌, map}
use merossity.Prelude.{ltb, str_eq, if◌then◌else◌}
use merossity.Prelude.{length}
use merossity.Prelude.{any, keep}
use merossity.Json.{Value, text, get, coalesce}
use merossity.Api.Client.{to_text}
use merossity.Cloud.Domains.{strip_scheme}
use merossity.Cloud.Http.{
  cloud_error, Outcome, got, failed, Session, finish, ◌>>=◌, Fetch, has_status, api_status, info_of,
  post_with_redirect,
}

pub record CloudCredentials : Type 0 where
  pub domain : String
  pub mqtt_domain : Option String
  pub token : String
  pub key : String
  pub user_id : String
  pub user_email : String

abbrev pub default_domain : String
default_domain = "iotx.meross.com"

abbrev pub default_fallback_domains : List String
default_fallback_domains =
    default_domain ∷ "iotx-ap.meross.com" ∷ "iotx-us.meross.com" ∷ "iotx-eu.meross.com" ∷ []

-- `Array.from(new Set(list))`
without_repeats : List String → List String
without_repeats [] = []
without_repeats (d ∷ ds) = d ∷ keep (λ e. not (str_eq e d)) (without_repeats ds)

-- The domains of a login, the first one and the others.
unfoldable pub domain_candidates : Option String → List String
unfolding without_repeats
domain_candidates none = without_repeats (map strip_scheme default_fallback_domains)
domain_candidates (some given) =
    let defaults = map strip_scheme default_fallback_domains in
    let domain = strip_scheme given in
    if str_eq given ""
    then without_repeats defaults
    else if any (λ d. str_eq d domain) defaults
    then domain ∷ keep (λ d. not (str_eq d domain)) defaults
    else domain ∷ []

module _ (show : ℕ → String) (fetch : Fetch) (print_value : Value → String) where
  -- The loop over the candidates. It ends with an error of its own only where there is none.
  unfoldable pub try_domains : List String → Session (Option (String × Value))
  try_domains [] = finish none
  try_domains (c ∷ cs) =
      let alternate = try_domains cs in
      post_with_redirect show fetch c >>= λ result.
      if has_status 0 result.1
      then finish (some result)
      else if has_status 1004 result.1 && ltb 0 (length cs)
      then alternate
      else finish (some result)

  abbrev text_or : Value → String → String
  text_or v other = elim v [ text t ↦ t | _ ↦ other ]

  -- What the answer of a login tells.
  unfoldable pub credentials : (email resolved_domain : String) → Value → CloudCredentials
  credentials email resolved_domain resp =
      let data_of = get "data" resp in
      record {
        domain = strip_scheme (text_or (get "domain" data_of) resolved_domain);
        mqtt_domain = elim (get "mqttDomain" data_of) [ text t ↦ some t | _ ↦ none ];
        token = to_text print_value (get "token" data_of);
        key = to_text print_value (get "key" data_of);
        user_id = to_text print_value (coalesce (get "userid" data_of) (get "userId" data_of));
        user_email = to_text print_value (coalesce (get "email" data_of) (text email));
      }

  -- The checks after the loop.
  unfoldable pub login_result :
      (email : String) → Option (String × Value) → Outcome CloudCredentials
  login_result email none = failed (cloud_error "Cloud signIn failed" none none)
  login_result email (some (resolved_domain, resp)) =
      let creds = credentials email resolved_domain resp in
      if has_status 0 resp
      then if str_eq creds.token "" || str_eq creds.key "" || str_eq creds.user_id ""
        then failed (cloud_error "Cloud signIn did not return token/key/userid" none none)
        else got creds
      else failed (cloud_error "Cloud signIn failed" (api_status resp) (info_of resp))

  unfoldable pub meross_cloud_login :
      (email : String) (domain : Option String) → Session CloudCredentials
  meross_cloud_login email domain =
      try_domains (domain_candidates domain) >>= λ last log. (login_result email last, log)
