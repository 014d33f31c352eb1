-- ===== src/Api/Discovery/Complete.antt =====
-- What the workers of discover-hosts.ts find, in whatever order the addresses answer.
use merossity.Prelude.{ℕ, ◌+◌, ◌<◌, String}
use merossity.Prelude.{◌≡◌, refl, sym, ap, ◌∙◌, ◌⊎◌, inl, inr, Bool, true, false}
use merossity.Prelude.{◌||◌, Option, none, some, List, [], ◌∷◌, arith, eq_iff}
use merossity.Prelude.{str_eq}
use merossity.Prelude.{Bool-cases, is_some, or_else, length}
use mathlib.Core.Path.{subst}
use merossity.Prelude.Maps.{Map, lookup, lookup-insert}
use merossity.Prelude.Results.{Result}
use merossity.Json.{Value}
use merossity.Lan.Scan.Search.{has, has-remove_one, list_cases}
use merossity.Api.Discovery.Merged.{Distinct, insert-Distinct, merge_hosts-lookup}
use merossity.Cloud.Login.{DeviceHost, MerossConfig}
use merossity.Api.Discovery.{
  Sweep, start_sweep, take_address, entry_of, with_entry, finish_address, Start, finish_discovery,
}

still :
    (a b c : Bool) {d e : Bool}
    → (a ≡ true → d ≡ true)
    → (c ≡ true → e ≡ true)
    → a || b || c ≡ true
    → d || b || e ≡ true
still a b c f g h = ground arith

module _ (lower_case : String → String) (now_of : String → String)
    (answers : String → Result Value) where
  -- One step of the workers; each address has its answer.
  pub data SweepStep : Sweep → Sweep → Type 0 where
    takes : (s : Sweep) → 0 < s.ready → SweepStep s (take_address s)
    finishes :
        (s : Sweep) (ip : String)
        → has ip s.busy ≡ true
        → SweepStep s (finish_address lower_case now_of ip (answers ip) s)

  -- The steps of a run, by their number.
  pub data SweepRun (first : Sweep) : ℕ → Sweep → Type 0 where
    begun : SweepRun first 0 first
    then_step :
        {n : ℕ} {p q : Sweep} → SweepRun first n p → SweepStep p q → SweepRun first (n + 1) q

  -- All workers have ended.
  abbrev pub IsOver : Sweep → Type 0
  IsOver s = (s.ready ≡ 0) × (s.busy ≡ [])

  -- The uuid and the host that an address tells.
  abbrev pub told : String → Option (String × DeviceHost)
  told ip = entry_of lower_case now_of ip (answers ip)

  abbrev is_for : Option (String × DeviceHost) → (uuid : String) → Bool
  is_for none uuid = false
  is_for (some (u, entry)) uuid = str_eq u uuid

  abbrev pub tells : (ip uuid : String) → Bool
  tells ip uuid = is_for (told ip) uuid

  -- An entry is what one of the addresses tells.
  abbrev pub IsTold : List String → (uuid : String) → Option DeviceHost → Type 0
  IsTold ips uuid none = Unit {0}
  IsTold ips uuid (some entry) =
      (ip : String) × (has ip ips ≡ true) × (told ip ≡ some (uuid, entry))

  -- What holds of a sweep of `ips` by some workers.
  record Sweeps (ips : List String) (s : Sweep) : Type 0 where
    in_left : (u : String) → has u s.left ≡ true → has u ips ≡ true
    in_busy : (u : String) → has u s.busy ≡ true → has u ips ≡ true
    from : (uuid : String) → IsTold ips uuid (lookup uuid s.found)
    pending :
        (u uuid : String)
        → has u ips ≡ true
        → tells u uuid ≡ true
        → is_some (lookup uuid s.found) || has u s.left || has u s.busy ≡ true
    alive : (0 < s.ready + length s.busy) ⊎ (s.left ≡ [])

  take_with :
      (ips left : List String) (ready : ℕ) (busy : List String) (found : Map DeviceHost)
      → 0 < ready
      → let s : Sweep = record { left = left; ready = ready; busy = busy; found = found } in
        Sweeps ips s → Sweeps ips (take_address s)
  unfolding take_address
  take_with ips [] ready busy found r h = record {
    in_left = h.in_left;
    in_busy = h.in_busy;
    from = h.from;
    pending = h.pending;
    alive = inr refl;
  }
  take_with ips (ip ∷ rest) ready busy found r h = record {
    in_left = λ u k. h.in_left u (ground (arith, k));
    in_busy = λ u k. elim (Bool-cases (str_eq ip u)) [
      | inl e ↦ h.in_left u (rw e refl)
      | inr e ↦ h.in_busy u (rw e at k)
    ];
    from = h.from;
    pending = λ u uuid i m. let p = h.pending u uuid i m in ground (arith, p);
    alive = inl (omega (arith, r));
  }

  -- What an entry adds.
  with_entry-IsTold :
      (ips : List String) (ip : String) (entry : Option (String × DeviceHost))
      (found : Map DeviceHost) (uuid : String)
      → told ip ≡ entry
      → has ip ips ≡ true
      → IsTold ips uuid (lookup uuid found)
      → IsTold ips uuid (lookup uuid (with_entry lower_case now_of entry found))
  with_entry-IsTold ips ip none found uuid e i h = h
  with_entry-IsTold ips ip (some (u, entry)) found uuid e i h = elim (Bool-cases (str_eq u uuid)) [
    | inl q ↦
        let same : u ≡ uuid = ground (arith, eq_iff u uuid) in
        rw (lookup-insert u uuid entry found, q) (ip, i, e ∙ ap (λ v. some (v, entry)) same)
    | inr q ↦ rw (lookup-insert u uuid entry found, q) h
  ]

  with_entry-keeps :
      (entry : Option (String × DeviceHost)) (found : Map DeviceHost) (uuid : String)
      → is_some (lookup uuid found) ≡ true
      → is_some (lookup uuid (with_entry lower_case now_of entry found)) ≡ true
  with_entry-keeps none found uuid h = h
  with_entry-keeps (some (u, entry)) found uuid h = elim (Bool-cases (str_eq u uuid)) [
    | inl q ↦ rw (lookup-insert u uuid entry found, q) refl
    | inr q ↦ rw (lookup-insert u uuid entry found, q) h
  ]

  with_entry-adds :
      (entry : Option (String × DeviceHost)) (uuid : String) (found : Map DeviceHost)
      → is_for entry uuid ≡ true
      → is_some (lookup uuid (with_entry lower_case now_of entry found)) ≡ true
  with_entry-adds none uuid found h = cc
  with_entry-adds (some (u, entry)) uuid found h = rw (lookup-insert u uuid entry found, h) refl

  finish_with :
      (ips : List String) (s : Sweep) (ip : String)
      → has ip s.busy ≡ true
      → Sweeps ips s
      → Sweeps ips (finish_address lower_case now_of ip (answers ip) s)
  unfolding finish_address
  finish_with ips s ip b h = record {
    in_left = h.in_left;
    in_busy = λ u k. h.in_busy u ((has-remove_one u ip s.busy).0 k);
    from =
        λ uuid. with_entry-IsTold ips ip (told ip) s.found uuid refl (h.in_busy ip b) (h.from uuid);
    pending = λ u uuid i m. elim (Bool-cases (str_eq u ip)) [
      | inl q ↦
          let same : u ≡ ip = ground (arith, eq_iff u ip) in
          let added =
            with_entry-adds (told ip) uuid s.found (subst (λ v. tells v uuid ≡ true) same m) in
          rw added refl
      | inr q ↦
          let keeps = (has-remove_one u ip s.busy).1 q in
          let kept = with_entry-keeps (told ip) s.found uuid in
          still _ (has u s.left) _ kept keeps (h.pending u uuid i m)
    ];
    alive = inl (omega arith);
  }

  step-Sweeps : (ips : List String) {p q : Sweep} → SweepStep p q → Sweeps ips p → Sweeps ips q
  step-Sweeps ips (takes s r) h = take_with ips s.left s.ready s.busy s.found r h
  step-Sweeps ips (finishes s ip b) h = finish_with ips s ip b h

  run-Sweeps :
      (ips : List String) {first s : Sweep} {n : ℕ}
      → SweepRun first n s
      → Sweeps ips first
      → Sweeps ips s
  run-Sweeps ips begun h = h
  run-Sweeps ips (then_step run step) h = step-Sweeps ips step (run-Sweeps ips run h)

  -- What the sweep has for a uuid: an entry that an address tells, or none where none tells it.
  abbrev pub Answers : (uuid : String) (ips : List String) → Option DeviceHost → Type 0
  Answers uuid ips none = (u : String) → has u ips ≡ true → tells u uuid ≡ false
  Answers uuid ips (some entry) = IsTold ips uuid (some entry)

  untold :
      (u uuid : String) (left busy : List String)
      → left ≡ []
      → busy ≡ []
      → (tells u uuid ≡ true → false || has u left || has u busy ≡ true)
      → tells u uuid ≡ false
  untold u uuid left busy l b p = elim (Bool-cases (tells u uuid)) [
    | inr e ↦ e
    | inl e ↦ let bad : false ≡ true = rw (l, b) at p e in cc
  ]

  all_asked :
      (ips : List String) (uuid : String) (entry : Option DeviceHost) (s : Sweep)
      → lookup uuid s.found ≡ entry
      → IsOver s
      → Sweeps ips s
      → Answers uuid ips entry
  all_asked ips uuid (some entry) s e over h = subst (IsTold ips uuid) e (h.from uuid)
  all_asked ips uuid none s e (r, b) h =
      let empty : s.left ≡ [] = elim h.alive [
        | inl a ↦ ground (arith, rw (r, b) at a)
        | inr l ↦ l
      ] in
      λ u i. untold u uuid s.left s.busy empty b (λ t. rw e at (h.pending u uuid i t))

  with_entry-Distinct :
      (entry : Option (String × DeviceHost)) (found : Map DeviceHost)
      → Distinct found
      → Distinct (with_entry lower_case now_of entry found)
  with_entry-Distinct none found h = h
  with_entry-Distinct (some (u, entry)) found h = insert-Distinct u entry found h

  take_address-found : (s : Sweep) → (take_address s).found ≡ s.found
  unfolding take_address
  take_address-found s = elim (list_cases s.left) [
    | inl e ↦ rw e refl
    | inr (ip, rest, e) ↦ rw e refl
  ]

  step-Distinct : {p q : Sweep} → SweepStep p q → Distinct p.found → Distinct q.found
  unfolding finish_address
  step-Distinct (takes s r) h = subst Distinct (sym (take_address-found s)) h
  step-Distinct (finishes s ip b) h = with_entry-Distinct (told ip) s.found h

  run-Distinct :
      {first s : Sweep} {n : ℕ} → SweepRun first n s → Distinct first.found → Distinct s.found
  run-Distinct begun h = h
  run-Distinct (then_step run step) h = step-Distinct step (run-Distinct run h)

  -- Given a worker, and however the answers of the addresses interleave: when all workers have
  -- ended, the answer has a uuid exactly where an address of the range tells it, with what one of
  -- these addresses tells. The configuration then has that entry, and where there is none the one
  -- that it had; the rest of it is as it was.
  pub discovery_finds :
      (workers : ℕ) (ips : List String) (start : Start) (cfg : MerossConfig) (uuid : String) {n : ℕ}
      {s : Sweep}
      → 0 < workers
      → SweepRun (start_sweep workers ips) n s
      → IsOver s
      → let (answer, after) = finish_discovery start s cfg in
        Answers uuid ips (lookup uuid answer.hosts)
        × (lookup uuid after.hosts ≡ or_else (lookup uuid answer.hosts) (lookup uuid cfg.hosts))
        × (after ≡ record cfg { hosts = after.hosts })
  unfolding start_sweep finish_discovery Distinct lookup
  discovery_finds workers ips start cfg uuid {n} {s} some_worker run over = (
    all_asked ips uuid (lookup uuid s.found) s refl over (
        run-Sweeps ips run (record {
          in_left = λ u k. k;
          in_busy = λ u k. cc;
          from = λ u. tt;
          pending = λ u uuid i m. ground (arith, i);
          alive = inl (omega (arith, some_worker));
        })),
    merge_hosts-lookup uuid s.found cfg.hosts (run-Distinct run tt),
    refl,
  )
