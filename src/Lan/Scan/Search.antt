-- ===== src/Lan/Scan/Search.antt =====
-- What the workers of a scan find.
use merossity.Prelude.{ℕ, ◌+◌, ◌*◌, ◌≤◌, ◌<◌, max, String}
use merossity.Prelude.{◌≡◌, refl, ◌⊎◌, inl, inr, Bool, true, false}
use merossity.Prelude.{◌||◌, Option, none, some, List, [], ◌∷◌, arith, eq_iff, eq_refl}
use merossity.Prelude.{ltb, str_eq}
use merossity.Prelude.{Bool-cases, Option-cases, is_some, length}
use merossity.Prelude.{any}
use mathlib.Core.Path.{subst}
use merossity.Prelude.Results.{Result}
use merossity.Json.{Value}
use merossity.Poller.PollNow.{remove_one}
use merossity.Lan.Scan.{FoundHost, Target, match_host, Scan, start_scan, take_ip, finish_ip}

abbrev pub has : String → List String → Bool
has u xs = any (λ k. str_eq k u) xs

pub has-remove_one :
    (u ip : String) (ks : List String)
    → (has u (remove_one ip ks) ≡ true → has u ks ≡ true)
      × (str_eq u ip ≡ false → has u ks ≡ true → has u (remove_one ip ks) ≡ true)
unfolding remove_one
has-remove_one u ip [] = (λ h. h, λ n h. h)
has-remove_one u ip (k ∷ ks) =
    ground (arith, eq_iff k ip, eq_iff k u, eq_iff u ip, has-remove_one u ip ks)

pub remove_one-length :
    (ip : String) (ks : List String) → has ip ks ≡ true → length (remove_one ip ks) + 1 ≡ length ks
unfolding remove_one
remove_one-length ip [] h = cc
remove_one-length ip (k ∷ ks) h = ground (arith, remove_one-length ip ks)

pub list_cases :
    (ks : List String) → (ks ≡ []) ⊎ ((k : String) × (rest : List String) × (ks ≡ k ∷ rest))
list_cases [] = inl refl
list_cases (k ∷ rest) = inr (k, rest, refl)

module _ (lower_case : String → String) (target : Target) (answers : String → Result Value) where
  -- One step of the workers; each address has its answer.
  pub data ScanStep : Scan → Scan → Type 0 where
    takes : (s : Scan) → 0 < s.ready → ScanStep s (take_ip s)
    finishes :
        (s : Scan) (ip : String)
        → has ip s.busy ≡ true
        → ScanStep s (finish_ip lower_case target ip (answers ip) s)

  -- The steps of a run, by their number.
  pub data ScanRun (first : Scan) : ℕ → Scan → Type 0 where
    begun : ScanRun first 0 first
    then_step : {n : ℕ} {p q : Scan} → ScanRun first n p → ScanStep p q → ScanRun first (n + 1) q

  -- All workers have ended.
  abbrev pub IsOver : Scan → Type 0
  IsOver s = (s.ready ≡ 0) × (s.busy ≡ [])

  abbrev matches : String → Option FoundHost
  matches ip = match_host lower_case target ip (answers ip)

  -- What is found is the answer of one of the addresses.
  abbrev IsFrom : List String → Option FoundHost → Type 0
  IsFrom ips none = Unit {0}
  IsFrom ips (some f) = (ip : String) × (has ip ips ≡ true) × (matches ip ≡ some f)

  -- What holds of a scan of `ips`: the addresses at hand are among them, an address that matches is
  -- at hand unless one was found, and addresses are left only while there is a worker or one was
  -- found.
  record Searches (ips : List String) (s : Scan) : Type 0 where
    in_left : (u : String) → has u s.left ≡ true → has u ips ≡ true
    in_busy : (u : String) → has u s.busy ≡ true → has u ips ≡ true
    from : IsFrom ips s.found
    pending :
        (u : String)
        → has u ips ≡ true
        → is_some (matches u) ≡ true
        → is_some s.found || has u s.left || has u s.busy ≡ true
    alive : (0 < s.ready + length s.busy) ⊎ ((s.left ≡ []) ⊎ (is_some s.found ≡ true))

  take_with :
      (ips : List String) (found : Option FoundHost) (left : List String) (ready : ℕ)
      (busy : List String)
      → 0 < ready
      → let s : Scan = record { left = left; ready = ready; busy = busy; found = found } in
        Searches ips s → Searches ips (take_ip s)
  unfolding take_ip
  take_with ips (some f) left ready busy r h = record {
    in_left = h.in_left;
    in_busy = h.in_busy;
    from = h.from;
    pending = λ u i m. refl;
    alive = inr (inr refl);
  }
  take_with ips none [] ready busy r h = record {
    in_left = h.in_left;
    in_busy = h.in_busy;
    from = h.from;
    pending = h.pending;
    alive = inr (inl refl);
  }
  take_with ips none (ip ∷ rest) ready busy r h = record {
    in_left = λ u k. h.in_left u (ground (arith, k));
    in_busy = λ u k. elim (Bool-cases (str_eq ip u)) [
      | inl e ↦ h.in_left u (rw e refl)
      | inr e ↦ h.in_busy u (rw e at k)
    ];
    from = tt;
    pending = λ u i m. let p = h.pending u i m in ground (arith, p);
    alive = inl (omega (arith, r));
  }

  finish_with :
      (ips : List String) (s : Scan) (ip : String) (got : Option FoundHost)
      → matches ip ≡ got
      → has ip s.busy ≡ true
      → Searches ips s
      → Searches ips (elim got [
        | none ↦ record s { busy = remove_one ip s.busy; ready = s.ready + 1 }
        | some f ↦ record s { busy = remove_one ip s.busy; found = some f }
      ])
  finish_with ips s ip none e b h = record {
    in_left = h.in_left;
    in_busy = λ u k. h.in_busy u ((has-remove_one u ip s.busy).0 k);
    from = h.from;
    pending = λ u i m. elim (Bool-cases (str_eq u ip)) [
      | inl q ↦
          let same : u ≡ ip = ground (arith, eq_iff u ip) in
          let bad : is_some (matches ip) ≡ true = subst (λ v. is_some (matches v) ≡ true) same m in
          let no : false ≡ true = rw e at bad in cc
      | inr q ↦
          let p = h.pending u i m in
          let keeps = (has-remove_one u ip s.busy).1 q in ground (arith, p, keeps)
    ];
    alive = inl (omega arith);
  }
  finish_with ips s ip (some f) e b h = record {
    in_left = h.in_left;
    in_busy = λ u k. h.in_busy u ((has-remove_one u ip s.busy).0 k);
    from = (ip, h.in_busy ip b, e);
    pending = λ u i m. refl;
    alive = inr (inr refl);
  }

  step-Searches : (ips : List String) {p q : Scan} → ScanStep p q → Searches ips p → Searches ips q
  unfolding finish_ip
  step-Searches ips (takes s r) h = take_with ips s.found s.left s.ready s.busy r h
  step-Searches ips (finishes s ip b) h = finish_with ips s ip (matches ip) refl b h

  run-Searches :
      (ips : List String) {first s : Scan} {n : ℕ}
      → ScanRun first n s
      → Searches ips first
      → Searches ips s
  run-Searches ips begun h = h
  run-Searches ips (then_step run step) h = step-Searches ips step (run-Searches ips run h)

  -- A device that is found answered at one of the addresses; where none is found, no address
  -- answered as it.
  abbrev pub Finds : List String → Option FoundHost → Type 0
  Finds ips none = (u : String) → has u ips ≡ true → matches u ≡ none
  Finds ips (some f) = IsFrom ips (some f)

  unmatched :
      (u : String) (left busy : List String)
      → left ≡ []
      → busy ≡ []
      → (is_some (matches u) ≡ true → false || has u left || has u busy ≡ true)
      → matches u ≡ none
  unmatched u left busy l b p = elim (Option-cases (matches u)) [
    | inl e ↦ e
    | inr (f, e) ↦ let bad : false ≡ true = rw (l, b) at p (rw e refl) in cc
  ]

  all_searched :
      (ips : List String) (found : Option FoundHost) (left : List String) (ready : ℕ)
      (busy : List String)
      → ready ≡ 0
      → busy ≡ []
      → Searches ips (record { left = left; ready = ready; busy = busy; found = found })
      → Finds ips found
  all_searched ips (some f) left ready busy r b h = h.from
  all_searched ips none left ready busy r b h =
      let empty : left ≡ [] = elim h.alive [
        | inl a ↦ ground (arith, rw b at a)
        | inr (inl e) ↦ e
        | inr (inr e) ↦ cc
      ] in
      λ u i. unmatched u left busy empty b (h.pending u i)

  -- However the answers of the addresses interleave, when all workers have ended, what was found is
  -- the answer of an address of the range that is the device by its uuid or its MAC address, and
  -- where nothing was found no address answers as the device.
  pub start_scan-Finds :
      (concurrency : ℕ) (ips : List String) {n : ℕ} {s : Scan}
      → ScanRun (start_scan concurrency ips) n s
      → IsOver s
      → Finds ips s.found
  unfolding start_scan
  start_scan-Finds concurrency ips {n} {s} run (none_ready, none_busy) =
      all_searched ips s.found s.left s.ready s.busy none_ready none_busy (
        run-Searches ips run (record {
          in_left = λ u k. k;
          in_busy = λ u k. cc;
          from = tt;
          pending = λ u i m. ground (arith, i);
          alive = inl (omega arith);
        }))

  abbrev measure : Scan → ℕ
  measure s = 3 * length s.left + 2 * length s.busy + s.ready

  take_with-lt :
      (found : Option FoundHost) (left : List String) (ready : ℕ) (busy : List String)
      → 0 < ready
      → let s : Scan = record { left = left; ready = ready; busy = busy; found = found } in
        measure (take_ip s) < measure s
  unfolding take_ip
  take_with-lt (some f) left ready busy r = omega (arith, r)
  take_with-lt none [] ready busy r = omega (arith, r)
  take_with-lt none (ip ∷ rest) ready busy r = omega (arith, r)

  finish_with-lt :
      (s : Scan) (ip : String) (got : Option FoundHost)
      → has ip s.busy ≡ true
      → measure (elim got [
        | none ↦ record s { busy = remove_one ip s.busy; ready = s.ready + 1 }
        | some f ↦ record s { busy = remove_one ip s.busy; found = some f }
      ])
        < measure s
  finish_with-lt s ip none b = let k = remove_one-length ip s.busy b in omega (arith, k)
  finish_with-lt s ip (some f) b = let k = remove_one-length ip s.busy b in omega (arith, k)

  step-lt : {p q : Scan} → ScanStep p q → measure q < measure p
  unfolding finish_ip
  step-lt (takes s r) = take_with-lt s.found s.left s.ready s.busy r
  step-lt (finishes s ip b) = finish_with-lt s ip (matches ip) b

  run-le : {first s : Scan} {n : ℕ} → ScanRun first n s → n + measure s ≤ measure first
  run-le begun = omega arith
  run-le (then_step run step) = let h = run-le run in let k = step-lt step in omega (arith, h, k)

  next_step_of : (s : Scan) → IsOver s ⊎ ((q : Scan) × ScanStep s q)
  next_step_of s = elim (Bool-cases (ltb 0 s.ready)) [
    | inl e ↦ inr (take_ip s, takes s (ground arith))
    | inr e ↦ elim (list_cases s.busy) [
      | inl b ↦ inl (ground arith, b)
      | inr (ip, rest, b) ↦ inr (
        finish_ip lower_case target ip (answers ip) s,
        finishes s ip (rw b (ground (arith, eq_refl ip))),
      )
    ]
  ]

  -- The workers come to an end: a run has at most three steps for each address and one for each
  -- worker, and while a worker has not ended there is a next step.
  pub scan_ends :
      (concurrency : ℕ) (ips : List String) {n : ℕ} {s : Scan}
      → ScanRun (start_scan concurrency ips) n s
      → (n ≤ 3 * length ips + max 1 concurrency) × (IsOver s ⊎ ((q : Scan) × ScanStep s q))
  unfolding start_scan
  scan_ends concurrency ips {n} {s} run = let h = run-le run in (omega (arith, h), next_step_of s)
