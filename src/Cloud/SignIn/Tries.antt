-- ===== src/Cloud/SignIn/Tries.antt =====
-- The order in which a login tries the domains of the cloud.
use merossity.Prelude.{ℕ, String}
use merossity.Prelude.{◌≡◌, refl, ap, ◌∙◌, ◌⊎◌, inl, inr, Bool, true, false}
use merossity.Prelude.{◌&&◌, Option, some, List, [], ◌∷◌, ◌++◌, arith}
use merossity.Prelude.{ltb}
use merossity.Prelude.{Bool-cases, length}
use mathlib.Core.Path.{subst}
use merossity.Json.{Number, Value, finite}
use merossity.Prelude.Integers.{pos}
use merossity.Cloud.Http.{
  Failure, Outcome, got, failed, Session, carry, Fetch, has_status, is_status, api_status,
  post_with_redirect,
}
use merossity.Cloud.SignIn.{try_domains}

pub Outcome-cases :
    {A : Type 0} (r : Outcome A) → ((a : A) × (r ≡ got a)) ⊎ ((e : Failure) × (r ≡ failed e))
Outcome-cases (got a) = inl (a, refl)
Outcome-cases (failed e) = inr (e, refl)

pub carry_got :
    {A B : Type 0} {next : A → Session B} {after : List String} {b : B}
    {first : Outcome A × List String}
    → carry first next ≡ (got b, after)
    → (a : A) × (mid : List String) × (first ≡ (got a, mid)) × (next a mid ≡ (got b, after))
unfolding carry
carry_got {first = (got a, mid)} h = (a, mid, refl, h)
carry_got {first = (failed e, mid)} h = cc

pub got-inj :
    {A : Type 0} {a b : A} {l k : List String}
    → ◌≡◌ {A = Outcome A × List String} (got a, l) (got b, k)
    → (a ≡ b) × (l ≡ k)
got-inj h = (cc, cc)

answer_of :
    {d domain : String} {r resp : Value} {mid after : List String}
    → ◌≡◌ {A = Outcome (Option (String × Value)) × List String}
        (got (some (d, r)), mid)
        (got (some (domain, resp)), after)
    → ◌≡◌ {A = Outcome (String × Value) × List String} (got (d, r), mid) (got (domain, resp), after)
answer_of h = cc

answer_of_value :
    {d domain : String} {r resp : Value} {mid after : List String}
    → ◌≡◌ {A = Outcome (Option (String × Value)) × List String}
        (got (some (d, r)), mid)
        (got (some (domain, resp)), after)
    → r ≡ resp
answer_of_value h = cc

one_status : (s : Option Number) → is_status 0 s ≡ true → is_status 1004 s ≡ false
one_status (some (finite (pos z))) h = ground arith
one_status _ h = refl

and_left : (a b : Bool) → a && b ≡ true → a ≡ true
and_left true b h = refl
and_left false b h = h

ended : (b : Bool) (cs : List String) → b && ltb 0 (length cs) ≡ false → (b ≡ false) ⊎ (cs ≡ [])
ended b [] h = inr refl
ended b (c ∷ cs) h = inl (ground arith)

module _ (show : ℕ → String) (fetch : Fetch) where
  -- The domains that were tried, each of which answered 1004.
  pub data Refused : List String → (log after : List String) → Type 0 where
    none_tried : {log : List String} → Refused [] log log
    refused_by :
        {c domain : String} {cs : List String} {resp : Value} {log mid after : List String}
        → post_with_redirect show fetch c log ≡ (got (domain, resp), mid)
        → has_status 1004 resp ≡ true
        → Refused cs mid after
        → Refused (c ∷ cs) log after

  -- A candidate answered after those before it had refused, and it is the last one unless its
  -- answer is not 1004.
  pub record Settled (cs : List String) (log after : List String) (domain : String) (resp : Value)
      : Type 0 where
    pub before : List String
    pub candidate : String
    pub later : List String
    pub mid : List String
    pub split : cs ≡ before ++ candidate ∷ later
    pub tried : Refused before log mid
    pub answered : post_with_redirect show fetch candidate mid ≡ (got (domain, resp), after)
    pub last : (has_status 1004 resp ≡ false) ⊎ (later ≡ [])

  further :
      {c d : String} {cs : List String} {r : Value} {log mid after : List String} {domain : String}
      {resp : Value}
      → post_with_redirect show fetch c log ≡ (got (d, r), mid)
      → has_status 1004 r ≡ true
      → Settled cs mid after domain resp
      → Settled (c ∷ cs) log after domain resp
  further {c} e g s = record {
    before = c ∷ s.before;
    candidate = s.candidate;
    later = s.later;
    mid = s.mid;
    split = ap (λ l. c ∷ l) s.split;
    tried = refused_by e g s.tried;
    answered = s.answered;
    last = s.last;
  }

  settle :
      {c d : String} {cs : List String} {r : Value} {log mid after : List String} {domain : String}
      {resp : Value}
      → post_with_redirect show fetch c log ≡ (got (d, r), mid)
      → ◌≡◌ {A = Outcome (Option (String × Value)) × List String}
          (got (some (d, r)), mid)
          (got (some (domain, resp)), after)
      → (has_status 1004 r ≡ false) ⊎ (cs ≡ [])
      → Settled (c ∷ cs) log after domain resp
  settle {c} {d} {cs} {r} {log} {mid} {after} {domain} {resp} e same l = record {
    before = [];
    candidate = c;
    later = cs;
    mid = log;
    split = refl;
    tried = none_tried;
    answered = e ∙ answer_of same;
    last = subst (λ r. (has_status 1004 r ≡ false) ⊎ (cs ≡ [])) (answer_of_value same) l;
  }

  pub try_domains-Settled :
      (print_value : Value → String) (cs : List String) (log after : List String) {domain : String}
      {resp : Value}
      → try_domains show fetch print_value cs log ≡ (got (some (domain, resp)), after)
      → Settled cs log after domain resp
  unfolding try_domains
  try_domains-Settled print_value [] log after h = let (bad, _) = got-inj h in cc
  try_domains-Settled print_value (c ∷ cs) log after {domain} {resp} h =
      let ((d, r), mid, e, f) = carry_got h in
      elim (Bool-cases (has_status 0 r)) [
        | inl g ↦ settle e (rw g at f) (inl (one_status (api_status r) g))
        | inr g ↦ elim (Bool-cases (has_status 1004 r && ltb 0 (length cs))) [
          | inl k ↦
              further e (and_left _ _ k)
                (try_domains-Settled print_value cs mid after (rw (g, k) at f))
          | inr k ↦ settle e (rw (g, k) at f) (ended (has_status 1004 r) cs k)
        ]
      ]
