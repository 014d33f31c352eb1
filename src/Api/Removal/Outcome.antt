-- ===== src/Api/Removal/Outcome.antt =====
-- How a deletion ends: which of the two tries worked, and what was sent.
use merossity.Prelude.{String}
use merossity.Prelude.{◌≡◌, refl, sym, ap, ◌∙◌, ◌⊎◌, inl, inr, Bool, true, false}
use merossity.Prelude.{List, [], ◌∷◌, ◌++◌}
use merossity.Prelude.{Bool-cases}
use mathlib.Core.Path.{subst}
use merossity.Prelude.Results.{ok}
use merossity.Json.{Number, Value, object, Fields, put}
use merossity.Api.Client.{Action, request, LanConfig, Network, send, Reply, done, refused, polled}
use merossity.Api.Client.Outcomes.{follow_done, send_done, poll_reply_done}
use merossity.Api.Removal.{
  Deletion, RuleKind, is_fine, minus_one, nought, lan_error_code, delete_rule,
}

module _ (parse_number : Value → Number) (print_value : Value → String) (cfg : LanConfig)
    (net : Network) where
  module _ (kind : RuleKind) (uuid id host key : String) (rule : Fields) where
    -- The rule that deletes, and the one that switches off.
    abbrev pub first_try : Action
    first_try = request host key (kind.send_rule (object (put "enable" minus_one rule)))

    abbrev pub second_try : Action
    second_try =
        request host key
          (kind.send_rule (object (put "enable" nought (put "enable" minus_one rule))))

    abbrev fine : Value → Bool
    fine resp = is_fine (lan_error_code parse_number print_value resp)

    -- Deleted by the first try, or switched off by the second one.
    abbrev pub Ended : (log after : List Action) → Deletion → Type 0
    Ended log after d =
        ((d.deleted ≡ true)
          × (d.disabled ≡ false)
          × (net log first_try ≡ ok d.resp)
          × (fine d.resp ≡ true)
          × (after ≡ (log ++ first_try ∷ []) ++ polled cfg uuid))
        ⊎ ((resp : Value) × (d.deleted ≡ false)
            × (d.disabled ≡ true)
            × (net log first_try ≡ ok resp)
            × (fine resp ≡ false)
            × (net (log ++ first_try ∷ []) second_try ≡ ok d.resp)
            × (fine d.resp ≡ true)
            × (after ≡ ((log ++ first_try ∷ []) ++ second_try ∷ []) ++ polled cfg uuid))

    pub delete_rule-Ended :
        (log after : List Action) {d : Deletion}
        → delete_rule parse_number print_value cfg net kind uuid id host key rule log
          ≡ (done d, after)
        → Ended log after d
    unfolding delete_rule
    delete_rule-Ended log after {d} h =
        let (resp, l1, e1, h1) = follow_done h in
        let (a1, s1) = send_done net first_try log l1 e1 in
        elim (Bool-cases (fine resp)) [
          | inl f ↦
              let (same, last) = poll_reply_done cfg uuid l1 (rw f at h1) in
              subst (Ended log after) same
                (inl (refl, refl, a1, f, last ∙ ap (λ l. l ++ polled cfg uuid) s1))
          | inr f ↦
              let (resp2, l2, e2, h2) = follow_done {first = send net second_try l1} (rw f at h1) in
              let (a2, s2) = send_done net second_try l1 l2 e2 in
              let l2_is : l2 ≡ (log ++ first_try ∷ []) ++ second_try ∷ [] =
                s2 ∙ ap (λ l. l ++ second_try ∷ []) s1 in
              elim (Bool-cases (fine resp2)) [
                | inl g ↦
                    let (same, last) = poll_reply_done cfg uuid l2 (rw g at h2) in
                    subst (Ended log after) same (
                      inr (
                        resp,
                        refl,
                        refl,
                        a1,
                        f,
                        ap (λ l. net l second_try) (sym s1) ∙ a2,
                        g,
                        last ∙ ap (λ l. l ++ polled cfg uuid) l2_is,
                      ))
                | inr g ↦
                    let bad : ◌≡◌ {A = Reply Deletion × List Action}
                        (refused kind.failed_code _, l2) (done d, after) =
                      rw g at h2 in
                    cc
              ]
        ]
