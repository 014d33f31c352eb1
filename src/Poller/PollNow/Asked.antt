-- ===== src/Poller/PollNow/Asked.antt =====
-- What `pollNow` gives for the uuids that it is asked for.
use merossity.Prelude.{ℕ, ◌<◌, String}
use merossity.Prelude.{◌≡◌, refl, ap, ◌∙◌, ◌≢◌, inl, inr, not}
use merossity.Prelude.{◌&&◌, some, List, [], ◌∷◌, map, arith, eq_iff}
use merossity.Prelude.{str_eq, if◌then◌else◌}
use merossity.Prelude.{Bool-cases}
use merossity.Prelude.{any, keep, All, All-keep}
use merossity.Prelude.Texts.{trim}
use merossity.Poller.Service.{Service}
use merossity.Poller.PollNow.{unique, poll_now_uuids, worker_count, Pool, poll_now}
use merossity.Poller.PollNow.Complete.{
  PoolRun, count_key, count_results, IsEnded, poll_now_complete,
}

distinct_count :
    (u k : String) (ks : List String)
    → count_key u (keep (λ j. not (str_eq j k)) ks) ≡ (if str_eq k u then 0 else count_key u ks)
distinct_count u k [] = ground arith
distinct_count u k (j ∷ ks) =
    ground (arith, eq_iff j k, eq_iff k u, eq_iff j u, distinct_count u k ks)

unique-count :
    (u : String) (ks : List String)
    → count_key u (unique ks) ≡ (if any (λ k. str_eq k u) ks then 1 else 0)
unfolding unique
unique-count u [] = refl
unique-count u (k ∷ ks) = ground (arith, distinct_count u k (unique ks), unique-count u ks)

named_unique : (ks : List String) → All (λ k. k ≢ "") ks → All (λ k. k ≢ "") (unique ks)
unfolding unique
named_unique [] h = tt
named_unique (k ∷ ks) h =
    (h.0, All-keep (λ j. j ≢ "") (λ j. not (str_eq j k)) (unique ks) (named_unique ks h.1))

trimmed_named :
    (vs : List String) → All (λ k. k ≢ "") (map trim (keep (λ v. not (str_eq (trim v) "")) vs))
trimmed_named [] = tt
trimmed_named (v ∷ vs) = elim (Bool-cases (str_eq (trim v) "")) [
  | inl e ↦ rw e (trimmed_named vs)
  | inr e ↦ rw e (ground (arith, eq_iff (trim v) ""), trimmed_named vs)
]

trimmed_any :
    (u : String) (vs : List String)
    → any (λ k. str_eq k u) (map trim (keep (λ v. not (str_eq (trim v) "")) vs))
      ≡ not (str_eq u "") && any (λ v. str_eq (trim v) u) vs
trimmed_any u [] = ground arith
trimmed_any u (v ∷ vs) =
    ground (arith, eq_iff (trim v) "", eq_iff (trim v) u, eq_iff u "", trimmed_any u vs)

some_worker : (uuids : List String) → 0 < worker_count uuids
unfolding worker_count
some_worker uuids = omega arith

-- For a list of uuids that is not empty, `pollNow` has, when its workers have ended, one result for
-- each text of the list, trimmed, that is not blank, and none for any other, however the polls
-- interleave, each of which gives a result with its uuid.
pub poll_now_lem :
    (wanted : String) (more : List String) (now : ℕ) (s : Service) {n : ℕ} {p : Pool} (u : String)
    → PoolRun (poll_now (some (wanted ∷ more)) now s).1 n p
    → IsEnded p
    → count_results u p
      ≡ (if not (str_eq u "") && any (λ v. str_eq (trim v) u) (wanted ∷ more) then 1 else 0)
unfolding poll_now poll_now_uuids
poll_now_lem wanted more now s u run ended =
    let asked = map trim (keep (λ v. not (str_eq (trim v) "")) (wanted ∷ more)) in
    poll_now_complete (worker_count (unique asked)) (unique asked) u (some_worker (unique asked))
      (named_unique asked (trimmed_named (wanted ∷ more))) run ended
    ∙ unique-count u asked
    ∙ ap (λ b. if b then 1 else 0) (trimmed_any u (wanted ∷ more))
