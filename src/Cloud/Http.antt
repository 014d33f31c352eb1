-- ===== src/Cloud/Http.antt =====
-- packages/core/src/meross/cloud/http.ts: requests to the cloud, which may redirect to another
-- domain. What the cloud answers may depend on all the requests before. A request is told by the
-- domain that it goes to, since a login, and each reading of the devices, makes one kind of request
-- only; the signature, the headers and the timeout of a request are not told.
use merossity.Prelude.{ℕ, zero, suc, ◌*◌, String}
use merossity.Prelude.{Bool, false}
use merossity.Prelude.{Option, none, some, List, [], ◌∷◌, ◌++◌}
use merossity.Prelude.{◌==◌, str_eq, if◌then◌else◌}
use merossity.Prelude.{is_some}
use Prim.Native.String.{◌++◌ as append_text}
use merossity.Json.{Number, Value, number, finite, text, get, unit}
use merossity.Prelude.Integers.{pos}
use merossity.Cloud.Domains.{strip_scheme}

-- `MerossCloudError`, and any other error that is thrown.
pub data Failure : Type 0 where
  cloud_error : (message : String) (api_status : Option Number) (info : Option String) → Failure
  other_error : (message : String) → Failure

pub data Outcome (A : Type 0) : Type 0 where
  got : A → Outcome A
  failed : Failure → Outcome A

-- The domains that requests went to, the last one at the end.
abbrev pub Session : Type 0 → Type 0
Session A = List String → Outcome A × List String

unfoldable pub carry :
    {A B : Type 0} → Outcome A × List String → (A → Session B) → Outcome B × List String
carry (got a, log) next = next a log
carry (failed e, log) next = (failed e, log)

infixl 5 ◌>>=◌
abbrev pub ◌>>=◌ : {A B : Type 0} → Session A → (A → Session B) → Session B
◌>>=◌ first next log = carry (first log) next

abbrev pub finish : {A : Type 0} → A → Session A
finish a log = (got a, log)

-- What `fetch` gives: the status and the parsed text, `none` where it is no JSON.
pub record HttpAnswer : Type 0 where
  pub status : ℕ
  pub json : Option Value

abbrev pub Fetch : Type 0
Fetch = List String → String → Outcome HttpAnswer

-- An answer has a number `apiStatus`.
abbrev pub api_status : Value → Option Number
api_status v = elim (get "apiStatus" v) [ number n ↦ some n | _ ↦ none ]

-- The cloud's `info` is a text where it is given. One that is no text, at which `inferMfaRequired`
-- throws in the source, counts as missing here.
abbrev pub info_of : Value → Option String
info_of v = elim (get "info" v) [ text t ↦ some t | _ ↦ none ]

-- `resp.apiStatus === n`
abbrev pub is_status : ℕ → Option Number → Bool
is_status n (some (finite (pos z))) = z == n * unit
is_status n _ = false

abbrev pub has_status : ℕ → Value → Bool
has_status n v = is_status n (api_status v)

-- `typeof data.domain === 'string' && data.domain.length > 0`
abbrev pub next_domain : Value → Option String
next_domain v = elim (get "domain" (get "data" v)) [
  | text t ↦ if str_eq t "" then none else some t
  | _ ↦ none
]

-- Where an answer redirects to.
unfoldable pub redirect_of : Value → Option String
redirect_of v = if has_status 1030 v then next_domain v else none

module _ (show : ℕ → String) (fetch : Fetch) where
  abbrev pub read_answer : HttpAnswer → Outcome Value
  read_answer a =
      let invalid : Outcome Value = failed (
        cloud_error (append_text "Invalid cloud response (" (append_text (show a.status) ")")) none
          none) in
      elim a.json [ none ↦ invalid | some v ↦ if is_some (api_status v) then got v else invalid ]

  unfoldable pub authenticated_post : (domain : String) → Session Value
  authenticated_post domain log =
      (elim (fetch log domain) [ got a ↦ read_answer a | failed e ↦ failed e ], log ++ domain ∷ [])

  -- The loop over the attempts, and the last request after it.
  unfoldable pub attempts : ℕ → (domain : String) → Session (String × Value)
  attempts zero domain = authenticated_post domain >>= λ resp. finish (domain, resp)
  attempts (suc n) domain = authenticated_post domain >>= λ resp. elim (redirect_of resp) [
    | some next ↦ attempts n (strip_scheme next)
    | none ↦ finish (domain, resp)
  ]

  unfoldable pub post_with_redirect : (domain : String) → Session (String × Value)
  post_with_redirect domain = attempts 2 (strip_scheme domain)
