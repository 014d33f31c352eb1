-- ===== src/Poller/Recovery.antt =====
-- `tryResolveHost` of packages/core/src/api/state-poller.ts: after repeated failures the host of a
-- device is looked up again. The part before the first `await` is `start_resolve`; the results of
-- the calls that it waits for are the record `Lookups`.
pub mod Entries
pub mod Cooling
pub mod Cooldown
use merossity.Prelude.{ℕ, ◌+◌, ◌-◌, String}
use merossity.Prelude.{Bool, true, false, not}
use merossity.Prelude.{Option, none, some, [], ◌∷◌, ◌++◌}
use merossity.Prelude.{ltb, str_eq, if◌then◌else◌}
use merossity.Prelude.{get_or}
use merossity.Prelude.Maps.{insert}
use merossity.Prelude.Results.{Result, ok, err, ◌>>=◌}
use merossity.Prelude.Texts.{trim}
use merossity.Poller.Types.{KnownHost}
use merossity.Poller.Backoff.{boost_window_ms, time_and}
use merossity.Poller.Service.{Service, has_key, remove_key, ensure_meta, set_meta}

abbrev pub resolve_cooldown_ms : ℕ
resolve_cooldown_ms = 300000

-- The Boolean says whether the look-up goes on.
unfoldable pub start_resolve : String → ℕ → Service → Service × Bool
start_resolve uuid now s =
    if has_key uuid s.resolving
    then (s, false)
    else let (s', meta) = ensure_meta uuid now s in
      if time_and meta.last_resolve_attempt_at (λ t. ltb (now - t) resolve_cooldown_ms)
      then (s', false)
      else (
        set_meta uuid (record meta { last_resolve_attempt_at = some now })
            (record s' { resolving = s'.resolving ++ uuid ∷ [] }),
        true,
      )

-- What the look-up waits for. `arp` and `scan` are given what they are called with, and answer
-- `none` where they find nothing or throw; `normalize_mac` answers `none` where it throws.
pub record Lookups : Type 0 where
  pub key : Result String
  pub configured_cidr : Option String
  pub default_cidr : Option String
  pub known_mac : Option String
  pub normalize_mac : String → Option String
  pub arp : String → Option String
  pub scan : (cidr : String) (key : String) (target_mac : Option String) → Result (Option KnownHost)

-- `s || null`
abbrev pub non_empty : String → Option String
non_empty s = if str_eq s "" then none else some s

-- `s && ...` for an optional text.
abbrev pub text_or_else : Option String → Option String → Option String
text_or_else none b = b
text_or_else (some a) b = if str_eq a "" then b else some a

effective_cidr : Lookups → String
effective_cidr l =
    get_or (text_or_else (some (trim (get_or l.configured_cidr ""))) l.default_cidr) ""

mac_to_try : Lookups → Option String
mac_to_try l = elim (non_empty (trim (get_or l.known_mac ""))) [
  | none ↦ none
  | some raw ↦ some (get_or (l.normalize_mac raw) raw)
]

-- `null` for a missing or an empty host; a scan that finds a host may correct the MAC.
found_by_scan : Lookups → String → Option String → Result (Option KnownHost)
found_by_scan l key mac = if str_eq (effective_cidr l) "" then ok none else do
  resolved ← l.scan (effective_cidr l) key mac
  elim resolved [
    | none ↦ ok none
    | some r ↦ ok (
        if str_eq r.host ""
        then none
        else some (record { host = r.host; mac = text_or_else r.mac mac }))
  ]

unfoldable pub recovered_host : Lookups → Result (Option KnownHost)
unfolding effective_cidr mac_to_try found_by_scan
recovered_host l = do
  key ← l.key
  let mac = mac_to_try l
  let host : Option String = elim mac [ none ↦ none | some m ↦ text_or_else (l.arp m) none ]
  elim host [ none ↦ found_by_scan l key mac | some h ↦ ok (some (record { host = h; mac = mac })) ]

-- The rest of the method: a found host is known at once and the device is boosted, and in any case
-- the uuid may be looked up again. `written` says whether `writeConfig` succeeded.
unfoldable pub finish_resolve :
    String → (outcome : Result (Option KnownHost)) → (written : Bool) → ℕ → Service → Service
finish_resolve uuid outcome written now s =
    let released = record s { resolving = remove_key uuid s.resolving } in
    elim outcome [
      | err e ↦ released
      | ok found ↦ elim found [
        | none ↦ released
        | some h ↦
            if not written
            then released
            else let (s', meta) = ensure_meta uuid now released in
              set_meta uuid
                (record meta { boost_until_at = some (now + boost_window_ms); next_due_at = now })
                (record s' { known_hosts = insert uuid h s'.known_hosts })
      ]
    ]
