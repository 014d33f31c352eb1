-- ===== src/Cloud/SignIn/Bounds.antt =====
-- How many requests a login makes.
use merossity.Prelude.{ℕ, zero, suc, ◌+◌, ◌*◌, ◌≤◌, ◌<◌, String}
use merossity.Prelude.{◌≡◌, inl, inr, Bool, true, not}
use merossity.Prelude.{◌&&◌, Option, none, some, List, [], ◌∷◌, map, arith}
use merossity.Prelude.{ltb, str_eq}
use merossity.Prelude.{Bool-cases, Option-cases, length}
use merossity.Prelude.{any, keep}
use merossity.Prelude.{length-append}
use merossity.Json.{Value}
use merossity.Cloud.Http.{
  Outcome, got, failed, Session, carry, Fetch, has_status, redirect_of, authenticated_post,
  attempts, post_with_redirect,
}
use merossity.Cloud.Domains.{strip_scheme}
use merossity.Cloud.SignIn.{
  try_domains, domain_candidates, meross_cloud_login, default_fallback_domains, without_repeats,
}

-- A session makes at most `n` requests.
abbrev MakesAtMost : {A : Type 0} → ℕ → Session A → Type 0
MakesAtMost n m = (log : List String) → length ((m log).1) ≤ length log + n

carry-le :
    {A B : Type 0} (first : Outcome A × List String) (next : A → Session B) (bound k whole : ℕ)
    → length (first.1) ≤ bound
    → ((a : A) → MakesAtMost k (next a))
    → bound + k ≤ whole
    → length ((carry first next).1) ≤ whole
unfolding carry
carry-le (got a, mid) next bound k whole h rest w = let r = rest a mid in omega (arith, r, h, w)
carry-le (failed e, mid) next bound k whole h rest w = omega (arith, h, w)

module _ (show : ℕ → String) (fetch : Fetch) where
  authenticated_post-le : (domain : String) → MakesAtMost 1 (authenticated_post show fetch domain)
  unfolding authenticated_post
  authenticated_post-le domain log = omega (arith, length-append {0} log (domain ∷ []))

  attempts-le : (n : ℕ) (domain : String) → MakesAtMost (suc n) (attempts show fetch n domain)
  unfolding attempts
  attempts-le zero domain log =
      carry-le (authenticated_post show fetch domain log) _ (length log + 1) 0 _
        (authenticated_post-le domain log) (λ a mid. omega arith) (omega arith)
  attempts-le (suc n) domain log =
      carry-le (authenticated_post show fetch domain log) _ (length log + 1) (suc n) _
        (authenticated_post-le domain log)
        (λ resp mid. elim (Option-cases (redirect_of resp)) [
          | inl e ↦ rw e (omega arith)
          | inr (next, e) ↦ rw e (attempts-le n (strip_scheme next) mid)
        ])
        (omega arith)

  post_with_redirect-le : (domain : String) → MakesAtMost 3 (post_with_redirect show fetch domain)
  unfolding post_with_redirect
  post_with_redirect-le domain log = attempts-le 2 (strip_scheme domain) log

  try_domains-le :
      (print_value : Value → String) (cs : List String)
      → MakesAtMost (3 * length cs) (try_domains show fetch print_value cs)
  unfolding try_domains
  try_domains-le print_value [] log = omega arith
  try_domains-le print_value (c ∷ cs) log =
      carry-le (post_with_redirect show fetch c log) _ (length log + 3) (3 * length cs) _
        (post_with_redirect-le c log)
        (λ result mid. elim (Bool-cases (has_status 0 result.1)) [
          | inl e ↦ rw e (omega arith)
          | inr e ↦ elim (Bool-cases (has_status 1004 result.1 && ltb 0 (length cs))) [
            | inl f ↦ rw (e, f) (try_domains-le print_value cs mid)
            | inr f ↦ rw (e, f) (omega arith)
          ]
        ])
        (omega arith)

keep-le : (p : String → Bool) (xs : List String) → length (keep p xs) ≤ length xs
keep-le p [] = omega arith
keep-le p (x ∷ xs) = elim (Bool-cases (p x)) [
  | inl e ↦ rw e (let h = keep-le p xs in omega (arith, h))
  | inr e ↦ rw e (let h = keep-le p xs in omega (arith, h))
]

-- What one of the elements has is not kept without it.
keep-lt :
    (p : String → Bool) (xs : List String)
    → any p xs ≡ true
    → length (keep (λ x. not (p x)) xs) < length xs
keep-lt p [] h = cc
keep-lt p (x ∷ xs) h = elim (Bool-cases (p x)) [
  | inl e ↦ rw e (let h = keep-le (λ x. not (p x)) xs in omega (arith, h))
  | inr e ↦ rw e (let g = keep-lt p xs (rw e at h) in omega (arith, g))
]

without_repeats-le : (xs : List String) → length (without_repeats xs) ≤ length xs
unfolding without_repeats
without_repeats-le [] = omega arith
without_repeats-le (x ∷ xs) =
    let h = without_repeats-le xs in
    let k = keep-le (λ e. not (str_eq e x)) (without_repeats xs) in omega (arith, h, k)

domain_candidates-le : (domain : Option String) → length (domain_candidates domain) ≤ 4
unfolding domain_candidates
domain_candidates-le none = without_repeats-le (map strip_scheme default_fallback_domains)
domain_candidates-le (some given) = elim (Bool-cases (str_eq given "")) [
  | inl e ↦ rw e (without_repeats-le (map strip_scheme default_fallback_domains))
  | inr e ↦
      elim (Bool-cases
        (any (λ d. str_eq d (strip_scheme given)) (map strip_scheme default_fallback_domains))) [
          | inl f ↦
              rw (e, f)
                (let h =
                    keep-lt (λ d. str_eq d (strip_scheme given))
                      (map strip_scheme default_fallback_domains) f in
                  omega (arith, h))
          | inr f ↦ rw (e, f) (omega arith)
        ]
]

-- A login makes at most twelve requests, whatever the cloud answers: three for each of at most four
-- domains.
pub meross_cloud_login-le :
    (show : ℕ → String) (fetch : Fetch) (print_value : Value → String) (email : String)
    (domain : Option String) (log : List String)
    → length ((meross_cloud_login show fetch print_value email domain log).1) ≤ length log + 12
unfolding meross_cloud_login
meross_cloud_login-le show fetch print_value email domain log =
    let cs = domain_candidates domain in
    let few = domain_candidates-le domain in
    carry-le (try_domains show fetch print_value cs log) _ (length log + 3 * length cs) 0 _
      (try_domains-le show fetch print_value cs log) (λ last mid. omega arith) (omega (arith, few))
