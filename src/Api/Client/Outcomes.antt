-- ===== src/Api/Client/Outcomes.antt =====
-- What the answer of a handler says of its parts: how a `do` block came to its reply, and what each
-- step of it leaves behind.
use merossity.Prelude.{String}
use merossity.Prelude.{◌≡◌, refl, sym, ap, ◌∙◌, ◌≢◌, ◌⊎◌, inl, inr, Bool, true, false}
use merossity.Prelude.{List, [], ◌∷◌, ◌++◌, arith}
use merossity.Prelude.{Bool-cases}
use mathlib.Core.Path.{subst}
use merossity.Prelude.Results.{Result, Result-cases, ok}
use merossity.Json.{Value}
use merossity.Poller.Reading.{require_lan_key}
use merossity.Api.Client.{
  Action, Reply, done, refused, Handler, follow, or_lan_error, Network, send, lan_access, refuse_if,
}
use merossity.Api.Client.{LanConfig, require_lan_host, polled, poll_after, answer, reply}

pub Reply-cases :
    {A : Type 0} (r : Reply A)
    → ((a : A) × (r ≡ done a)) ⊎ ((code message : String) × (r ≡ refused code message))
Reply-cases (done a) = inl (a, refl)
Reply-cases (refused code message) = inr (code, message, refl)

pub done-inj :
    {A : Type 0} {a b : A} {l k : List Action}
    → ◌≡◌ {A = Reply A × List Action} (done a, l) (done b, k)
    → (a ≡ b) × (l ≡ k)
done-inj h = (cc, cc)

-- The reply and the log that a run ends with.
module _ {A B : Type 0} {next : A → Handler B} {after : List Action} where
  pub follow_done :
      {b : B} {first : Reply A × List Action}
      → follow first next ≡ (done b, after)
      → (a : A) × (mid : List Action) × (first ≡ (done a, mid)) × (next a mid ≡ (done b, after))
  unfolding follow
  follow_done {first = (done a, mid)} h = (a, mid, refl, h)
  follow_done {first = (refused code message, mid)} h = cc

  pub follow_refused :
      {code message : String} {first : Reply A × List Action}
      → follow first next ≡ (refused code message, after)
      → (first ≡ (refused code message, after))
        ⊎ ((a : A) × (mid : List Action) × (first ≡ (done a, mid))
            × (next a mid ≡ (refused code message, after)))
  unfolding follow
  follow_refused {first = (done a, mid)} h = inr (a, mid, refl, h)
  follow_refused {first = (refused code message, mid)} h = inl (ground arith)

module _ {A : Type 0} (r : Result A) (log after : List Action) where
  pub or_lan_error_done :
      {a : A} → or_lan_error r log ≡ (done a, after) → (r ≡ ok a) × (after ≡ log)
  unfolding or_lan_error
  or_lan_error_done h = elim (Result-cases r) [
    | inl (a, e) ↦ ground (arith, rw e at h)
    | inr (message, e) ↦ ground (arith, rw e at h)
  ]

  pub or_lan_error_refused :
      {code message : String}
      → or_lan_error r log ≡ (refused code message, after)
      → code ≡ "lan_error"
  unfolding or_lan_error
  or_lan_error_refused h = elim (Result-cases r) [
    | inl (a, e) ↦ ground (arith, rw e at h)
    | inr (message, e) ↦ ground (arith, rw e at h)
  ]

module _ (net : Network) (a : Action) (log after : List Action) where
  pub send_done :
      {v : Value} → send net a log ≡ (done v, after) → (net log a ≡ ok v) × (after ≡ log ++ a ∷ [])
  unfolding send
  send_done h =
      let (r, mid, e, f) = follow_done h in
      let (g, k) = or_lan_error_done r mid after f in ground arith

  pub send_refused :
      {code message : String} → send net a log ≡ (refused code message, after) → code ≡ "lan_error"
  unfolding send
  send_refused h = elim (follow_refused h) [
    | inl e ↦ cc
    | inr (r, mid, e, f) ↦ or_lan_error_refused r mid after f
  ]

module _ (cfg : LanConfig) (uuid : String) (log after : List Action) where
  pub lan_access_done :
      {host key : String}
      → lan_access cfg uuid log ≡ (done (host, key), after)
      → (require_lan_host cfg uuid ≡ ok host)
        × (require_lan_key cfg.cloud_key cfg.env_key ≡ ok key)
        × (after ≡ log)
  unfolding lan_access
  lan_access_done h =
      let (host', mid, e, f) = follow_done h in
      let (key', mid', e', f') = follow_done f in
      let (g, k) = or_lan_error_done (require_lan_host cfg uuid) log mid e in
      let (g', k') = or_lan_error_done (require_lan_key cfg.cloud_key cfg.env_key) mid mid' e' in
      ground arith

  pub lan_access_refused :
      {code message : String}
      → lan_access cfg uuid log ≡ (refused code message, after)
      → code ≡ "lan_error"
  unfolding lan_access
  lan_access_refused h = elim (follow_refused h) [
    | inl e ↦ or_lan_error_refused (require_lan_host cfg uuid) log after e
    | inr (host', mid, e, f) ↦ elim (follow_refused f) [
      | inl e' ↦ or_lan_error_refused (require_lan_key cfg.cloud_key cfg.env_key) mid after e'
      | inr (key', mid', e', f') ↦ cc
    ]
  ]

module _ (bad : Bool) (code message : String) (log after : List Action) where
  pub refuse_if_done :
      refuse_if bad code message log ≡ (done tt, after) → (bad ≡ false) × (after ≡ log)
  unfolding refuse_if
  refuse_if_done h = elim (Bool-cases bad) [
    | inl e ↦ ground (arith, rw e at h)
    | inr e ↦ ground (arith, rw e at h)
  ]

  pub refuse_if_refused :
      {c t : String}
      → refuse_if bad code message log ≡ (refused c t, after)
      → (bad ≡ true) × (c ≡ code) × (after ≡ log)
  unfolding refuse_if
  refuse_if_refused h = elim (Bool-cases bad) [
    | inl e ↦ ground (arith, rw e at h)
    | inr e ↦ ground (arith, rw e at h)
  ]

-- The end of a handler: the poll and the reply.
pub poll_reply_done :
    (cfg : LanConfig) (uuid : String) (l : List Action) {B : Type 0} {b d : B} {after : List Action}
    → follow (poll_after cfg uuid l) (λ _. reply b) ≡ (done d, after)
    → (b ≡ d) × (after ≡ l ++ polled cfg uuid)
poll_reply_done cfg uuid l h =
    let (_, mid, e, f) = follow_done h in
    let (same, last) = done-inj f in (same, sym last ∙ sym (ap (λ r. r.1) e))

-- What holds of the log after each refusal but one for an error of the network or of the
-- configuration.
abbrev pub Leaves : {B : Type 0} → (List Action → Type 0) → Reply B × List Action → Type 0
Leaves Q ended =
    (code message : String) (after : List Action)
    → ended ≡ (refused code message, after)
    → code ≢ "lan_error"
    → Q after

module _ (Q : List Action → Type 0) where
  pub follow-Leaves :
      {A B : Type 0} {first : Reply A × List Action} {next : A → Handler B}
      → Leaves Q first
      → ((a : A) (mid : List Action) → first ≡ (done a, mid) → Leaves Q (next a mid))
      → Leaves Q (follow first next)
  follow-Leaves now later code message after h n = elim (follow_refused h) [
    | inl e ↦ now code message after e n
    | inr (a, mid, e, f) ↦ later a mid e code message after f n
  ]

  pub refuse_if-Leaves :
      (bad : Bool) (code message : String) (log : List Action)
      → Q log
      → Leaves Q (refuse_if bad code message log)
  refuse_if-Leaves bad code message log q c t after h n =
      let (e, f, g) = refuse_if_refused bad code message log after h in subst Q (sym g) q

  pub lan_access-Leaves :
      (cfg : LanConfig) (uuid : String) (log : List Action) → Leaves Q (lan_access cfg uuid log)
  lan_access-Leaves cfg uuid log code message after h n =
      elim (n (lan_access_refused cfg uuid log after h)) [ ]

  pub send-Leaves : (net : Network) (a : Action) (log : List Action) → Leaves Q (send net a log)
  send-Leaves net a log code message after h n = elim (n (send_refused net a log after h)) [ ]

  pub done-Leaves : {B : Type 0} (b : B) (log : List Action) → Leaves Q (done b, log)
  done-Leaves b log code message after h n = cc

  pub answer-Leaves :
      {B : Type 0} (r : Reply B) (log : List Action) → Q log → Leaves Q (answer r log)
  answer-Leaves r log q code message after h n = subst Q (cc) q

-- A request that is answered, and an access that is allowed.
pub send_ok :
    (net : Network) (a : Action) (log : List Action) {v : Value}
    → net log a ≡ ok v
    → send net a log ≡ (done v, log ++ a ∷ [])
unfolding send follow or_lan_error
send_ok net a log h = rw (h, or_lan_error) refl

pub lan_access_ok :
    (cfg : LanConfig) (uuid : String) (log : List Action) {host key : String}
    → require_lan_host cfg uuid ≡ ok host
    → require_lan_key cfg.cloud_key cfg.env_key ≡ ok key
    → lan_access cfg uuid log ≡ (done (host, key), log)
unfolding lan_access follow or_lan_error
lan_access_ok cfg uuid log a b = rw (a, or_lan_error, follow, b) refl
