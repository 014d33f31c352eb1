-- ===== src/Api/Hosts/Kept.antt =====
-- What resolve-host.ts keeps of a device, and where the host comes from.
use merossity.Prelude.{String}
use merossity.Prelude.{◌≡◌, refl, ap, ◌∙◌, ◌≢◌, ◌⊎◌, inl, inr, Bool, true, false}
use merossity.Prelude.{Option, none, some, arith, eq_iff}
use merossity.Prelude.{str_eq, if◌then◌else◌}
use merossity.Prelude.{Bool-cases, Option-cases}
use mathlib.Core.Path.{subst}
use merossity.Prelude.Maps.{lookup, lookup-insert, lookup-insert_self}
use merossity.Prelude.Results.{ok, err}
use merossity.Json.{Value, get, coalesce, is_truthy}
use merossity.Poller.Recovery.{non_empty, text_or_else}
use merossity.Lan.Mac.{normalize_mac}
use merossity.Lan.Scan.{FoundHost}
use merossity.Api.Client.{done, refused, to_text, require_lan_host}
use merossity.Cloud.Login.{MerossConfig, lan_config}
use merossity.Api.Hosts.{
  HostLookups, Answer, ◌>>=◌, Found, Resolved, find_by_mac, find_by_uuid, kept_entry, store_host,
  keep_found, find_host, resolve_host, scanned, cidr_to_use, key_for,
}

-- How a chain of two comes to a value.
and_done :
    {A B : Type 0} {next : A → Answer B} {b : B} {first : Answer A}
    → (first >>= next) ≡ ok (done b)
    → (a : A) × (first ≡ ok (done a)) × (next a ≡ ok (done b))
unfolding ◌>>=◌
and_done {first = ok (done a)} h = (a, refl, h)
and_done {first = ok (refused code message)} h = ground arith
and_done {first = err message} h = ground arith

-- The MAC address that a request names, as it is looked for.
abbrev pub aimed : (lower_case : String → String) → (mac : String) → Option String
aimed lower_case mac = if str_eq mac "" then none else normalize_mac lower_case mac

-- What a request asks for, and what is there to find it.
pub record Wanted : Type 0 where
  pub lookups : HostLookups
  pub config : MerossConfig
  pub uuid : String
  pub mac : Option String
  pub cidr : String

-- An address that the look-ups give for what is asked for: the ARP table has it for the MAC address
-- of the request after a sweep of the range of the request, or a scan of that range, or of the first
-- interface's, with the key of the configuration finds it for the device and the MAC address.
pub data ComesFrom (w : Wanted) (ip : String) : Type 0 where
  from_arp :
      (target : String)
      → w.mac ≡ some target
      → w.lookups.arp (non_empty w.cidr) target ≡ some ip
      → ComesFrom w ip
  from_scan :
      (key : String) (f : FoundHost)
      → key_for w.lookups.env_key w.config ≡ ok (done key)
      → w.lookups.scan w.uuid (cidr_to_use w.lookups w.cidr) key w.mac ≡ some f
      → f.host ≡ ip
      → ComesFrom w ip

abbrev IpComesFrom : Wanted → Found → Type 0
IpComesFrom w found = (ip : String) → found.ip ≡ some ip → ComesFrom w ip × (ip ≢ "")

found-done : {A : Type 0} {a b : A} → ◌≡◌ {A = Answer A} (ok (done a)) (ok (done b)) → a ≡ b
found-done h = cc

non_empty-some : (s : String) {t : String} → non_empty s ≡ some t → (s ≡ t) × (t ≢ "")
non_empty-some s {t} h = elim (Bool-cases (str_eq s "")) [
  | inl e ↦ cc (rw e at h)
  | inr e ↦
      let same : s ≡ t = ground (arith, rw e at h) in (same, λ blank. ground (arith, eq_iff s ""))
]

text_or_else-some :
    (o : Option String) {t : String} → text_or_else o none ≡ some t → (o ≡ some t) × (t ≢ "")
text_or_else-some none h = cc
text_or_else-some (some s) {t} h = let (same, full) = non_empty-some s h in (ap some same, full)

module _ (l : HostLookups) (cfg : MerossConfig) (uuid cidr : String) where
  abbrev wanted : Option String → Wanted
  wanted target = record { lookups = l; config = cfg; uuid = uuid; mac = target; cidr = cidr }

  by_scan-from :
      (target : Option String) {found : Found}
      → (key_for l.env_key cfg >>= λ key. ok (
          done (scanned target (cidr_to_use l cidr) (l.scan uuid (cidr_to_use l cidr) key target))))
        ≡ ok (done found)
      → IpComesFrom (wanted target) found
  by_scan-from target h =
      let (key, e, f) = and_done h in
      subst (IpComesFrom (wanted target)) (found-done f) (λ ip g.
        elim (Option-cases (l.scan uuid (cidr_to_use l cidr) key target)) [
          | inl none_found ↦ cc (rw none_found at g)
          | inr (host, there) ↦
              let (same, full) = non_empty-some host.host (rw there at g) in
              (from_scan key host e there same, full)
        ])

  find_by_uuid-from :
      {found : Found}
      → find_by_uuid l cfg uuid cidr ≡ ok (done found)
      → IpComesFrom (wanted none) found
  unfolding find_by_uuid
  find_by_uuid-from h =
      let effective = cidr_to_use l cidr in
      elim (Bool-cases (str_eq effective "")) [
        | inl e ↦ ground (arith, rw e at h)
        | inr e ↦ by_scan-from none (rw e at h)
      ]

  find_by_mac-from :
      (lower_case : String → String) (mac : String) {found : Found}
      → find_by_mac lower_case l cfg uuid mac cidr ≡ ok (done found)
      → IpComesFrom (wanted (normalize_mac lower_case mac)) found
  unfolding find_by_mac
  find_by_mac-from lower_case mac {found} h =
      let effective = cidr_to_use l cidr in
      elim (Option-cases (normalize_mac lower_case mac)) [
        | inl e ↦ ground (arith, rw (find_by_mac, e) at h)
        | inr (target, e) ↦
            rw e (elim (Option-cases (text_or_else (l.arp (non_empty cidr) target) none)) [
              | inr (ip, f) ↦
                  let (same, full) = text_or_else-some (l.arp (non_empty cidr) target) f in
                  subst (IpComesFrom (wanted (some target)))
                    (found-done (rw (find_by_mac, e, f) at h))
                    (λ ip' g.
                      let is : ip ≡ ip' = cc in
                      (from_arp target refl (same ∙ ap some is), λ blank. full (is ∙ blank)))
              | inl f ↦ elim (Bool-cases (str_eq effective "")) [
                | inl g ↦
                    subst (IpComesFrom (wanted (some target)))
                      (found-done (rw (find_by_mac, e, f, g) at h)) (λ ip' k. cc)
                | inr g ↦ by_scan-from (some target) (rw (find_by_mac, e, f, g) at h)
              ]
            ])
      ]

-- An answer that is not a success.
abbrev pub is_done : {A : Type 0} → Answer A → Bool
is_done (ok (done a)) = true
is_done _ = false

-- What a success answers.
abbrev pub IsFound : Wanted → Resolved → Type 0
IsFound w r = (r.uuid ≡ w.uuid) × ComesFrom w r.host × (r.host ≢ "")

-- What the handler leaves in the configuration: the other handlers read the host, the hosts of
-- other devices and all else are as they were.
abbrev pub Kept :
    (now : String) (polls : Bool) (env_key : Option String) (other : String)
    (cfg after : MerossConfig)
    → Resolved
    → Type 0
Kept now polls env_key other cfg after r =
    (require_lan_host (lan_config polls env_key after) r.uuid ≡ ok r.host)
    × (lookup other after.hosts ≡ (
        if str_eq r.uuid other
        then some (kept_entry now r.host r.mac (lookup r.uuid cfg.hosts))
        else lookup other cfg.hosts))
    × (after ≡ record cfg { hosts = after.hosts })

store_host-Kept :
    (now : String) (polls : Bool) (env_key : Option String) (other : String) (cfg : MerossConfig)
    (r : Resolved)
    → r.host ≢ ""
    → Kept now polls env_key other cfg (store_host now r.uuid r.host r.mac cfg) r
unfolding store_host require_lan_host kept_entry
store_host-Kept now polls env_key other cfg r full =
    let blank : str_eq r.host "" ≡ false = ground (arith, eq_iff r.host "") in
    let entry = kept_entry now r.host r.mac (lookup r.uuid cfg.hosts) in
    let there = lookup-insert_self r.uuid entry cfg.hosts in
    (rw (require_lan_host, there, blank) refl, lookup-insert r.uuid other entry cfg.hosts, refl)

-- How the handler ends: with a host, or with the configuration as it is.
abbrev pub KeepsOrLeaves :
    Wanted
    → (now : String) (polls : Bool) (env_key : Option String) (other : String) (cfg : MerossConfig)
    → Answer Resolved × MerossConfig
    → Type 0
KeepsOrLeaves w now polls env_key other cfg (ans, after) =
    ((is_done ans ≡ false) × (after ≡ cfg))
    ⊎ ((r : Resolved) × (ans ≡ ok (done r))
        × IsFound w r
        × Kept now polls env_key other cfg after r)

keep_found-KeepsOrLeaves :
    (w : Wanted) (now : String) (polls : Bool) (env_key : Option String) (other : String)
    (cfg : MerossConfig) (ans : Answer Resolved)
    → ((r : Resolved) → ans ≡ ok (done r) → IsFound w r)
    → KeepsOrLeaves w now polls env_key other cfg (keep_found now cfg ans)
unfolding keep_found
keep_found-KeepsOrLeaves w now polls env_key other cfg (ok (done r)) found =
    let is = found r refl in inr (r, refl, is, store_host-Kept now polls env_key other cfg r (is.2))
keep_found-KeepsOrLeaves w now polls env_key other cfg (ok (refused c m)) found = inl (refl, refl)
keep_found-KeepsOrLeaves w now polls env_key other cfg (err m) found = inl (refl, refl)

-- What a request asks for, the configuration being that before the look-up.
abbrev pub wanted_by :
    (print_value : Value → String) (lower_case : String → String)
    → HostLookups
    → MerossConfig
    → (body : Value) → Wanted
wanted_by print_value lower_case l before body = record {
  lookups = l;
  config = before;
  uuid = to_text print_value (get "uuid" body);
  mac = aimed lower_case (to_text print_value (coalesce (get "mac" body) (get "macAddress" body)));
  cidr = if is_truthy (get "cidr" body) then to_text print_value (get "cidr" body) else "";
}

module _ (print_value : Value → String) (lower_case : String → String) (l : HostLookups) where
  find_host-IsFound :
      (cfg : MerossConfig) (uuid mac cidr : String) {r : Resolved}
      → find_host print_value lower_case l cfg uuid mac cidr ≡ ok (done r)
      → IsFound (wanted l cfg uuid cidr (aimed lower_case mac)) r
  unfolding find_host
  find_host-IsFound cfg uuid mac cidr {r} h =
      let w = wanted l cfg uuid cidr (aimed lower_case mac) in
      let (found, e, f) = and_done h in
      let from : IpComesFrom w found = elim (Bool-cases (str_eq mac "")) [
        | inl b ↦ rw b (find_by_uuid-from l cfg uuid cidr (rw b at e))
        | inr b ↦ rw b (find_by_mac-from l cfg uuid cidr lower_case mac (rw b at e))
      ] in
      elim (Option-cases found.ip) [
        | inl g ↦ ground (arith, rw g at f)
        | inr (ip, g) ↦
            let is : _ ≡ r = found-done (rw g at f) in
            let (source, full) = from ip g in subst (IsFound w) is (refl, source, full)
      ]

  -- Whatever the look-ups give, the handler either answers with a host for what the request asks for
  -- that is not blank, or leaves the configuration as it is. In the first case the host is the one
  -- that the ARP table has for the MAC address of the request after a sweep of its range, or the one
  -- that a scan of the range with the key of the configuration finds for the device and that MAC
  -- address, if any. The handlers for a device then find that host; its MAC address, where none is
  -- found, is the one that was there; the hosts of other devices, and the rest of the configuration,
  -- are those at the time of writing, also where they changed during the look-up.
  pub resolve_host-KeepsOrLeaves :
      (now : String) (body : Value) (before cfg : MerossConfig) (polls : Bool)
      (env_key : Option String) (other : String)
      → KeepsOrLeaves
          (wanted_by print_value lower_case l before body)
          now
          polls
          env_key
          other
          cfg
          (resolve_host print_value lower_case l now body before cfg)
  unfolding resolve_host
  resolve_host-KeepsOrLeaves now body before cfg polls env_key other =
      let uuid = to_text print_value (get "uuid" body) in
      elim (Bool-cases (str_eq uuid "")) [
        | inl e ↦ rw (resolve_host, e) (inl (refl, refl))
        | inr e ↦
            rw (resolve_host, e)
              (keep_found-KeepsOrLeaves (wanted_by print_value lower_case l before body) now polls
                env_key other cfg _ (λ r h. find_host-IsFound before uuid _ _ h))
      ]
