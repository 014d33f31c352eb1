-- ===== src/Api/Client.antt =====
-- What the handlers of packages/core/src/api do outside: requests to a device, whose answers the
-- network gives, and the poll that they ask the poller for. A handler is a function from what was
-- done before to its reply and what is done after. The network's answer to a request may depend
-- on all that came before it.
pub mod Outcomes
use merossity.Prelude.{ℕ, ◌+◌, String}
use merossity.Prelude.{Bool, true, false}
use merossity.Prelude.{Option, none, some, List, [], ◌∷◌, ◌++◌}
use merossity.Prelude.{str_eq, if◌then◌else◌}
use merossity.Prelude.Results.{Result, ok, err}
use Prim.Native.String.{◌++◌ as append_text}
use merossity.Json.{Value, undefined, null, text}
use merossity.Poller.Reading.{require_lan_key}

-- The fields of `LightPayload` that the handlers set.
pub record LightFields : Type 0 where
  pub channel : ℕ
  pub onoff : Option Bool
  pub luminance : Option ℕ
  pub temperature : Option ℕ
  pub rgb : Option ℕ

-- The requests, each for the host of a device and with the key.
pub data Request : Type 0 where
  get_system_all : Request
  get_electricity get_consumption_x : (channel : ℕ) → Request
  get_timer_x get_trigger_x : (id : String) → Request
  set_timer_x set_trigger_x : (rule : Value) → Request
  set_toggle_x : (channel : ℕ) (onoff : Bool) → Request
  set_light : LightFields → Request

-- `poller.boostDevice(uuid)` and `poller.pollNow(...)`, which is not waited for, stand together.
pub data Action : Type 0 where
  request : (host key : String) → Request → Action
  poll_device : (uuid : String) → Action

-- The body of `apiOk`, or the code and the message of `apiErr`.
pub data Reply (A : Type 0) : Type 0 where
  done : A → Reply A
  refused : (code message : String) → Reply A

abbrev pub Handler : Type 0 → Type 0
Handler A = List Action → Reply A × List Action

unfoldable pub follow :
    {A B : Type 0} → Reply A × List Action → (A → Handler B) → Reply B × List Action
follow (done a, log) next = next a log
follow (refused code message, log) next = (refused code message, log)

infixl 5 ◌>>=◌ ◌>>◌
abbrev pub ◌>>=◌ : {A B : Type 0} → Handler A → (A → Handler B) → Handler B
◌>>=◌ first next log = follow (first log) next

abbrev pub ◌>>◌ : {A B : Type 0} → Handler A → Handler B → Handler B
◌>>◌ first second log = follow (first log) (λ _. second)

abbrev pub reply : {A : Type 0} → A → Handler A
reply a log = (done a, log)

-- `return apiErr(message, code)`
abbrev pub refuse : {A : Type 0} → (code message : String) → Handler A
refuse code message log = (refused code message, log)

-- An error that the handler's `catch` turns into an answer.
unfoldable pub or_lan_error : {A : Type 0} → Result A → Handler A
or_lan_error (ok a) log = (done a, log)
or_lan_error (err message) log = (refused "lan_error" message, log)

abbrev pub act : Action → Handler (Unit {0})
act a log = (done tt, log ++ a ∷ [])

-- What the answer of the network is to an action, after others.
abbrev pub Network : Type 0
Network = List Action → Action → Result Value

-- A request that throws ends the handler, unless that catches it: `attempt` gives what came of it.
abbrev pub attempt : Network → Action → Handler (Result Value)
attempt net a log = (done (net log a), log ++ a ∷ [])

unfoldable pub send : Network → Action → Handler Value
send net a = attempt net a >>= or_lan_error

-- What a handler is made with and reads: whether there is a poller, the hosts, and the keys of
-- the cloud and of the environment.
pub record LanConfig : Type 0 where
  pub polls : Bool
  pub host_of : String → Option String
  pub cloud_key : Option String
  pub env_key : Option String

unfoldable pub require_lan_host : LanConfig → String → Result String
require_lan_host cfg uuid =
    let missing : Result String = err (
      append_text "No LAN host known for device uuid="
        (append_text uuid ". Resolve host first.")) in
    elim (cfg.host_of uuid) [ none ↦ missing | some h ↦ if str_eq h "" then missing else ok h ]

-- The host and the key, in the order in which the handlers ask for them.
unfoldable pub lan_access : LanConfig → String → Handler (String × String)
lan_access cfg uuid = do
  host ← or_lan_error (require_lan_host cfg uuid)
  key ← or_lan_error (require_lan_key cfg.cloud_key cfg.env_key)
  reply (host, key)

abbrev pub polled : LanConfig → String → List Action
polled cfg uuid = if cfg.polls then poll_device uuid ∷ [] else []

-- `if (poller) { ... }`
abbrev pub poll_after : LanConfig → String → Handler (Unit {0})
poll_after cfg uuid log = (done tt, log ++ polled cfg uuid)

-- What is worked out without a request.
abbrev pub answer : {A : Type 0} → Reply A → Handler A
answer r log = (r, log)

-- `if (bad) return apiErr(message, code)`
unfoldable pub refuse_if : Bool → (code message : String) → Handler (Unit {0})
refuse_if true code message log = (refused code message, log)
refuse_if false code message log = (done tt, log)

module _ (print_value : Value → String) where
  -- `String(v ?? '')`
  abbrev pub to_text : Value → String
  to_text undefined = ""
  to_text null = ""
  to_text (text t) = t
  to_text v = print_value v

abbrev pub is_undefined : Value → Bool
is_undefined undefined = true
is_undefined _ = false
