-- ===== src/Web/App.antt =====
-- apps/web/src/state/appMachine.ts: which view the application shows. The actor `checkCloudCreds`
-- catches its errors, so its one answer is `checked`. `determiningView` is left at once.
use merossity.Prelude.{◌≡◌, refl, ◌≢◌, ◌⊎◌, inr, Bool, true, false, not}
use merossity.Prelude.{Option, none, some, List, [], ◌∷◌, arith}
use merossity.Prelude.{str_eq, if◌then◌else◌}
use merossity.Prelude.{is_some}
use merossity.Web.Auth.{CloudSummary}

pub data AppView : Type 0 where
  booting auth devices : AppView

pub record App : Type 0 where
  pub state : AppView
  pub cloud : Option CloudSummary

pub data AppEvent : Type 0 where
  checked : Option CloudSummary → AppEvent
  auth_login_success : CloudSummary → AppEvent
  auth_logout : AppEvent

unfoldable pub initial_app : App
initial_app = record { state = booting; cloud = none }

unfoldable pub has_cloud_key : Option CloudSummary → Bool
has_cloud_key none = false
has_cloud_key (some cloud) = not (str_eq cloud.key "")

unfoldable pub app_step : AppView → Option CloudSummary → AppEvent → App
unfolding has_cloud_key
app_step booting c (checked cloud) = record {
  state = if has_cloud_key cloud then devices else auth;
  cloud = cloud;
}
app_step auth c (auth_login_success cloud) = record { state = devices; cloud = some cloud }
app_step devices c auth_logout = record { state = auth; cloud = none }
app_step state c e = record { state = state; cloud = c }

unfoldable pub run_app : App → List AppEvent → App
unfolding app_step
run_app m [] = m
run_app m (e ∷ events) = run_app (app_step m.state m.cloud e) events

-- The devices are shown only with credentials at hand, and nothing is known before the start.
abbrev pub IsShown : App → Type 0
IsShown m =
    ((m.state ≡ devices) × (is_some m.cloud ≡ true))
    ⊎ (m.state ≡ auth)
    ⊎ ((m.state ≡ booting) × (m.cloud ≡ none))

app_step-IsShown : (m : App) (e : AppEvent) → IsShown m → IsShown (app_step m.state m.cloud e)
unfolding app_step
app_step-IsShown m e h = ground arith

run_app-IsShown : (m : App) (events : List AppEvent) → IsShown m → IsShown (run_app m events)
unfolding run_app
run_app-IsShown m [] h = h
run_app-IsShown m (e ∷ events) h =
    run_app-IsShown (app_step m.state m.cloud e) events (app_step-IsShown m e h)

-- In every run the view of the devices is shown only while there are cloud credentials, and a
-- log-out in it leaves the view of the login without any.
pub run_app-credentials :
    (events : List AppEvent)
    → let m = run_app initial_app events in
      IsShown m
      × ((m.state ≢ devices)
          ⊎ (app_step m.state m.cloud auth_logout ≡ record { state = auth; cloud = none }))
unfolding initial_app app_step
run_app-credentials events =
    (run_app-IsShown initial_app events (inr (inr (refl, refl))), ground arith)
