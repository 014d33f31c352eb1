-- ===== src/Api/Schedules/Asked.antt =====
-- What get-device-timerx.ts and get-device-triggerx.ts ask a device, and what they answer.
use merossity.Prelude.{String}
use merossity.Prelude.{◌≡◌, refl, ap, ◌∙◌, ◌⊎◌, Bool, true}
use merossity.Prelude.{List, [], ◌∷◌, ◌++◌}
use merossity.Prelude.{str_eq}
use mathlib.Core.List.{Perm}
use mathlib.Core.Path.{subst}
use merossity.Prelude.Sorting.{sort-perm, sort-IsSorted, IsSorted}
use merossity.Prelude.Maps.{Map}
use merossity.Prelude.Results.{ok}
use merossity.Json.{Number, Value, get}
use merossity.Poller.Types.{LanScheduleDigestEntry}
use merossity.Api.Client.{
  Action, request, Request, get_system_all, get_timer_x, get_trigger_x, LanConfig, Network, done,
  require_lan_host, to_text,
}
use merossity.Api.Client.Outcomes.{
  follow_done, send_done, lan_access_done, refuse_if_done, done-inj,
}
use merossity.Api.Schedules.Ordered.{timer_le_total, timer_le_trans}
use merossity.Api.Schedules.{
  Timers, Triggers, digest_ids, ask_each, timer_le, timers_in, digest_in, read_rules,
  get_device_timer_x, get_device_trigger_x,
}

-- The requests for some ids, one after the other, with an answer to each.
pub data Answered (net : Network) (ask : String → Action)
    : List Action → List String → Map Value → List Action → Type 0 where
  all_asked : {log : List Action} → Answered net ask log [] [] log
  asked :
      {log after : List Action} {ids : List String} {raws : Map Value} (id : String) (resp : Value)
      → net log (ask id) ≡ ok resp
      → Answered net ask (log ++ ask id ∷ []) ids raws after
      → Answered net ask log (id ∷ ids) ((id, resp) ∷ raws) after

at_end :
    {net : Network} {ask : String → Action} {log after after' : List Action} {ids : List String}
    {raws raws' : Map Value}
    → raws ≡ raws'
    → after ≡ after'
    → Answered net ask log ids raws after
    → Answered net ask log ids raws' after'
at_end {net} {ask} {log} {after} {after'} {ids} {raws} {raws'} a b h =
    subst (λ r. Answered net ask log ids r after') a (subst (Answered net ask log ids raws) b h)

ask_each-Answered :
    (net : Network) (ask : String → Action) (ids : List String) (log after : List Action)
    {raws : Map Value}
    → ask_each net ask ids log ≡ (done raws, after)
    → Answered net ask log ids raws after
unfolding ask_each
ask_each-Answered net ask [] log after {raws} h = let (a, b) = done-inj h in at_end a b all_asked
ask_each-Answered net ask (id ∷ ids) log after {raws} h =
    let (resp, mid, e, f) = follow_done h in
    let (rest, last, e', f') = follow_done f in
    let (a, b) = done-inj f' in
    let (got, sent) = send_done net (ask id) log mid e in
    let tail = ask_each-Answered net ask ids mid last e' in
    at_end a b (asked id resp got (subst (λ m. Answered net ask m ids rest last) sent tail))

-- What a handler that succeeds has asked for: the digest, and then the rule of each id of it, once.
abbrev pub Reads :
    (cfg : LanConfig) (net : Network) (digest_of : Value → List LanScheduleDigestEntry)
    (ask : String → Request) (uuid : String) (log after : List Action) (host : String)
    (digest : List LanScheduleDigestEntry) (raws : Map Value)
    → Type 0
Reads cfg net digest_of ask uuid log after host digest raws =
    (key : String) × (system_all : Value) × (require_lan_host cfg uuid ≡ ok host)
    × (net log (request host key get_system_all) ≡ ok system_all)
    × (digest ≡ digest_of system_all)
    × Answered net (λ id. request host key (ask id)) (log ++ request host key get_system_all ∷ [])
        (digest_ids digest) raws after

module _ (parse_number : Value → Number) (print_value : Value → String)
    (locale_le : String → String → Bool) (cfg : LanConfig) (net : Network) where
  abbrev digest_of : String → Value → List LanScheduleDigestEntry
  digest_of = digest_in parse_number print_value locale_le

  read_rules-Reads :
      (kind : String) (ask : String → Request) (uuid : String) (log after : List Action)
      {host : String} {digest : List LanScheduleDigestEntry} {raws : Map Value}
      → read_rules parse_number print_value locale_le cfg net kind ask uuid log
        ≡ (done (host, digest, raws), after)
      → Reads cfg net (digest_of kind) ask uuid log after host digest raws
  unfolding read_rules
  read_rules-Reads kind ask uuid log after {host} {digest} {raws} h =
      let ((host', key), m1, e1, f1) = follow_done h in
      let (system_all, m2, e2, f2) = follow_done f1 in
      let (raws', m3, e3, f3) = follow_done f2 in
      let (same, last) = done-inj f3 in
      let (known, _, l1) = lan_access_done cfg uuid log m1 e1 in
      let (got, l2) = send_done net (request host' key get_system_all) m1 m2 e2 in
      let first = request host' key get_system_all in
      let ids = digest_ids (digest_of kind system_all) in
      let each : String → Action = λ id. request host' key (ask id) in
      let sent : m2 ≡ log ++ first ∷ [] = l2 ∙ ap (λ m. m ++ first ∷ []) l1 in
      let all = ask_each-Answered net each ids m2 m3 e3 in
      subst (λ t. Reads cfg net (digest_of kind) ask uuid log after (t.0) (t.1) (t.2)) same
        (
          key,
          system_all,
          known,
          subst (λ m. net m first ≡ ok system_all) l1 got,
          refl,
          at_end refl last (subst (λ m. Answered net each m ids raws' m3) sent all),
        )

  Reads-between :
      (uuid : String) {digest_of : Value → List LanScheduleDigestEntry} {ask : String → Request}
      {log log' after after' : List Action} {host : String} {digest : List LanScheduleDigestEntry}
      {raws : Map Value}
      → log' ≡ log
      → after' ≡ after
      → Reads cfg net digest_of ask uuid log' after' host digest raws
      → Reads cfg net digest_of ask uuid log after host digest raws
  Reads-between uuid {digest_of} {ask} {log} {log'} {after} {after'} {host} {digest} {raws} a b h =
      subst (λ l. Reads cfg net digest_of ask uuid l after host digest raws) a
        (subst (λ l. Reads cfg net digest_of ask uuid log' l host digest raws) b h)

  -- The rules in the answers, in the order of the digest.
  abbrev pub AreInOrder : Timers → Type 0
  AreInOrder r =
      Perm r.timers (timers_in parse_number print_value locale_le r.raw_by_id)
      × IsSorted (timer_le parse_number print_value locale_le r.digest) r.timers

  -- A reading of the timers that succeeds has asked for the digest and then, in the order of the
  -- digest, for the rule of each of its ids, once; it answers what the device answered, under the
  -- ids. The timers are all the rules with an id in these answers, and for a total and transitive
  -- order of texts they are in the order of the digest.
  pub get_device_timer_x-Reads :
      (total : (x y : String) → (locale_le x y ≡ true) ⊎ (locale_le y x ≡ true))
      (trans : (x y z : String)
        → locale_le x y ≡ true
        → locale_le y z ≡ true
        → locale_le x z ≡ true)
      (body : Value) (log after : List Action) {r : Timers}
      → get_device_timer_x parse_number print_value locale_le cfg net body log ≡ (done r, after)
      → Reads cfg net
          (digest_of "timerx")
          get_timer_x
          (to_text print_value (get "uuid" body))
          log
          after
          r.host
          r.digest
          r.raw_by_id
        × AreInOrder r
  unfolding get_device_timer_x
  get_device_timer_x-Reads total trans body log after {r} h =
      let uuid = to_text print_value (get "uuid" body) in
      let (_, m0, e0, f0) = follow_done h in
      let (_, l0) = refuse_if_done (str_eq uuid "") "missing_uuid" "Missing uuid" log m0 e0 in
      let ((host, digest, raws), m1, e1, f1) = follow_done f0 in
      let (same, last) = done-inj f1 in
      let read = read_rules-Reads "timerx" get_timer_x uuid m0 m1 e1 in
      let le = timer_le parse_number print_value locale_le digest in
      let found = timers_in parse_number print_value locale_le raws in
      subst
        (λ t.
          Reads cfg net (digest_of "timerx") get_timer_x uuid log after t.host t.digest t.raw_by_id
          × AreInOrder t)
        same
        (
          Reads-between uuid l0 last read,
          (
            sort-perm le found,
            sort-IsSorted le (timer_le_total parse_number print_value locale_le total digest)
                (timer_le_trans parse_number print_value locale_le trans digest) found,
          ),
        )

  get_device_trigger_x-Reads :
      (body : Value) (log after : List Action) {r : Triggers}
      → get_device_trigger_x parse_number print_value locale_le cfg net body log ≡ (done r, after)
      → Reads cfg net
          (digest_of "triggerx")
          get_trigger_x
          (to_text print_value (get "uuid" body))
          log
          after
          r.host
          r.digest
          r.raw_by_id
  unfolding get_device_trigger_x
  get_device_trigger_x-Reads body log after {r} h =
      let uuid = to_text print_value (get "uuid" body) in
      let (_, m0, e0, f0) = follow_done h in
      let (_, l0) = refuse_if_done (str_eq uuid "") "missing_uuid" "Missing uuid" log m0 e0 in
      let ((host, digest, raws), m1, e1, f1) = follow_done f0 in
      let (same, last) = done-inj f1 in
      let read = read_rules-Reads "triggerx" get_trigger_x uuid m0 m1 e1 in
      subst
        (λ t.
          Reads cfg net (digest_of "triggerx") get_trigger_x uuid log after t.host t.digest
            t.raw_by_id)
        same (Reads-between uuid l0 last read)
