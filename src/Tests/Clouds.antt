-- ===== src/Tests/Clouds.antt =====
-- Logins in a cloud of two regions.
use merossity.Prelude.{ℕ, ◌≤◌, String}
use merossity.Prelude.{◌≡◌, refl, sym, ap}
use merossity.Prelude.{Option, none, some, List, [], ◌∷◌}
use merossity.Prelude.{str_eq, if◌then◌else◌}
use merossity.Prelude.{length}
use merossity.Prelude.Texts.{trim}
use merossity.Json.{Value, text, object, field, end, get, is_truthy, coalesce}
use merossity.Poller.Digest.Colours.{natural}
use merossity.Api.Client.{done}
use merossity.Cloud.Domains.{strip_scheme}
use merossity.Cloud.Http.{
  got, Fetch, carry, authenticated_post, attempts, redirect_of, post_with_redirect,
}
use merossity.Cloud.SignIn.{
  CloudCredentials, credentials, domain_candidates, try_domains, login_result, meross_cloud_login,
}
use merossity.Cloud.SignIn.Bounds.{meross_cloud_login-le}
use merossity.Cloud.Login.{MerossConfig, store_login, login_cloud, network_cidr}
use merossity.Cloud.Login.Keeps.{Stored, login_cloud-Stored}
use merossity.Cloud.Login.Ready.{
  IsReady, ConfigRun, stay, request_then, by_login, by_range, run-IsReady,
}

abbrev no_text : Value → String
no_text v = ""

abbrev no_digits : ℕ → String
no_digits n = ""

abbrev same_text : String → String
same_text t = t

abbrev no_json : String → Option Value
no_json t = none

abbrev known_account : Value
known_account = object (
    field "apiStatus" (natural 0) (
      field "data"
        (object (field "token" (text "t") (field "key" (text "k") (field "userid" (text "7") end))))
        end))

abbrev wrong_region : Value
wrong_region = object (field "apiStatus" (natural 1004) end)

-- The account is in the region of the second domain.
abbrev regions : Fetch
regions log domain =
    if str_eq domain "iotx-ap.meross.com"
    then got (record { status = 200; json = some known_account })
    else got (record { status = 200; json = some wrong_region })

meross_cloud_login-le_example :
    length ((meross_cloud_login no_digits regions no_text "me@home" none []).1) ≤ 12
meross_cloud_login-le_example = meross_cloud_login-le no_digits regions no_text "me@home" none []

abbrev login_body : Value
login_body = object (field "email" (text "me@home") (field "password" (text "secret") end))

abbrev empty_config : MerossConfig
empty_config = record { cloud = none; devices = none; hosts = []; network = none }

abbrev account : CloudCredentials
account = record {
  domain = "iotx-ap.meross.com";
  mqtt_domain = none;
  token = "t";
  key = "k";
  user_id = "7";
  user_email = "me@home";
}

abbrev logged_in : MerossConfig
logged_in = record { cloud = some (account, "now"); devices = none; hosts = []; network = none }

abbrev asked_domains : List String
asked_domains = "iotx.meross.com" ∷ "iotx-ap.meross.com" ∷ []

account-stored :
    login_cloud same_text no_digits regions no_text "now" login_body empty_config []
    ≡ (done account, logged_in, asked_domains)
unfolding login_cloud store_login meross_cloud_login login_result credentials try_domains
    domain_candidates post_with_redirect attempts redirect_of authenticated_post carry strip_scheme
    get coalesce is_truthy
account-stored = refl

login_cloud-Stored_example :
    Stored no_digits regions no_text "me@home" none "now" empty_config logged_in [] asked_domains
      account
unfolding get is_truthy
login_cloud-Stored_example =
    login_cloud-Stored no_digits regions no_text same_text "now" login_body empty_config logged_in
      [] asked_domains account-stored

-- A login, and a range that is kept after it.
abbrev home_range : Value
home_range = object (field "cidr" (text "192.168.1.0/24") end)

abbrev ranged : MerossConfig
ranged = record {
  cloud = logged_in.cloud;
  devices = none;
  hosts = [];
  network = some (record { cidr = some "192.168.1.0/24"; updated_at = "later" });
}

range-kept : (network_cidr no_text "later" home_range logged_in).1 ≡ ranged
unfolding network_cidr get trim
range-kept = refl

two_requests : ConfigRun same_text no_digits regions no_text no_json empty_config ranged
two_requests =
    request_then (by_login "now" login_body [] (sym (ap (λ r. r.1) account-stored)))
      (request_then (by_range "later" home_range (sym range-kept)) stay)

run-IsReady_example : IsReady ranged
run-IsReady_example = run-IsReady same_text no_digits regions no_text no_json two_requests (tt, tt)
