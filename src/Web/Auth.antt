-- ===== src/Web/Auth.antt =====
-- apps/web/src/state/authMachine.ts: the login form and its machine. `SUBMIT` starts the actor
-- `loginFlow`, whose answers are events.
pub mod Invariant
use merossity.Prelude.{ℕ, zero, suc, ◌-◌, String}
use merossity.Prelude.{Bool, true, false, not}
use merossity.Prelude.{◌&&◌, Option, none, some, List, [], ◌∷◌}
use merossity.Prelude.{leb, str_eq, if◌then◌else◌}
use merossity.Prelude.{get_or, map_option}
use Prim.Native.Char.{code}
use Prim.Native.String.{◌++◌ as append_text}
use merossity.Prelude.Texts.{trim}

pub data LoginRegion : Type 0 where
  auto global us eu ap : LoginRegion

unfoldable pub domain_for_region : LoginRegion → Option String
domain_for_region global = some "iotx.meross.com"
domain_for_region us = some "iotx-us.meross.com"
domain_for_region eu = some "iotx-eu.meross.com"
domain_for_region ap = some "iotx-ap.meross.com"
domain_for_region auto = none

pub record CloudSummary : Type 0 where
  pub domain : String
  pub mqtt_domain : Option String
  pub user_id : String
  pub user_email : String
  pub key : String
  pub token_redacted : String

pub record AuthContext : Type 0 where
  pub email : String
  pub password : String
  pub totp : String
  pub region : LoginRegion
  pub cloud : Option CloudSummary
  pub error : Option String

-- An error of the API, whose status is given as it is printed, or another one.
pub data AuthError : Type 0 where
  api_error : (message : String) (code info api_status : Option String) → AuthError
  other_error : (message : String) → AuthError

pub data AuthEvent : Type 0 where
  set_email set_password set_totp : String → AuthEvent
  set_region : LoginRegion → AuthEvent
  submit : AuthEvent
  login_done : Option CloudSummary → AuthEvent
  login_error : AuthError → AuthEvent

-- The body of the login request.
pub record LoginInput : Type 0 where
  pub email : String
  pub password : String
  pub mfa_code : String
  pub domain : Option String

abbrev is_digit : ℕ → Bool
is_digit c = leb b'0' c && leb c b'9'

-- `/^[0-9]{n}$/`
unfoldable pub is_digits : ℕ → String → Bool
is_digits zero String.[] = true
is_digits zero (String.◌∷◌ c s) = false
is_digits (suc n) String.[] = false
is_digits (suc n) (String.◌∷◌ c s) = is_digit (code c) && is_digits n s

unfoldable pub is_totp_valid : String → Bool
unfolding is_digits trim
is_totp_valid s = is_digits 6 (trim s)

unfoldable pub can_submit : AuthContext → Bool
unfolding is_totp_valid
can_submit c =
    is_totp_valid c.totp && (not (str_eq (trim c.email) "") && not (str_eq c.password ""))

unfoldable pub login_input : AuthContext → LoginInput
unfolding domain_for_region
login_input c = record {
  email = trim c.email;
  password = c.password;
  mfa_code = trim c.totp;
  domain = domain_for_region c.region;
}

abbrev with_status : String → String → String
with_status message status =
    append_text message (append_text " (Meross status " (append_text status ")."))

abbrev is_code : Option String → String → Bool
is_code none c = false
is_code (some a) c = str_eq a c

unfoldable pub format_auth_error : AuthError → String
unfolding trim
format_auth_error (other_error message) = message
format_auth_error (api_error message code' info api_status) =
    let info' = get_or (map_option trim info) "" in
    if is_code code' "mfa_required"
    then "MFA required. Enter a current 6-digit TOTP code and try again."
    else elim api_status [
      | none ↦ if str_eq info' "" then message else info'
      | some status ↦ with_status (if str_eq info' "" then message else info') status
    ]

pub data AuthState : Type 0 where
  editing submitting success : AuthState

pub record Auth : Type 0 where
  pub state : AuthState
  pub context : AuthContext

unfoldable pub initial_auth : Auth
initial_auth = record {
  state = editing;
  context = record {
    email = "";
    password = "";
    totp = "";
    region = auto;
    cloud = none;
    error = none;
  };
}

-- The events of the form, taken in each state but the final one.
unfoldable pub edit : AuthEvent → AuthContext → AuthContext
edit (set_email email) c = record c { email = email; error = none }
edit (set_password password) c = record c { password = password; error = none }
edit (set_totp totp) c = record c { totp = totp; error = none }
edit (set_region region) c = record c { region = region; error = none }
edit _ c = c

-- The state after an event, and the login that it starts.
unfoldable pub auth_step : AuthState → AuthContext → AuthEvent → Auth × Option LoginInput
unfolding can_submit login_input format_auth_error edit
auth_step editing c submit =
    if can_submit c
    then (record { state = submitting; context = c }, some (login_input c))
    else (record { state = editing; context = c }, none)
auth_step submitting c (login_done cloud) = (
  record {
    state = success;
    context = record c { cloud = cloud; error = none; password = ""; totp = "" };
  },
  none,
)
auth_step submitting c (login_error e) =
    (record { state = editing; context = record c { error = some (format_auth_error e) } }, none)
auth_step success c e = (record { state = success; context = c }, none)
auth_step state c e = (record { state = state; context = edit e c }, none)

-- A run, with the logins that it starts, the first one first.
unfoldable pub run_auth : Auth → List AuthEvent → Auth × List LoginInput
unfolding auth_step
run_auth m [] = (m, [])
run_auth m (e ∷ events) =
    let (m', started) = auth_step m.state m.context e in
    let (final, logins) = run_auth m' events in
    (final, elim started [ none ↦ logins | some login ↦ login ∷ logins ])
