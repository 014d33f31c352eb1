-- ===== src/Api/Rules.antt =====
-- The rules of timers and triggers that the answers of a device hold, as
-- packages/core/src/api/patch-device-timerx.ts and its neighbours look for them, and their fields.
use merossity.Prelude.{String}
use merossity.Prelude.{◌≡◌, refl, ◌∙◌, ◌≢◌, inl, inr, Bool, true, false, not}
use merossity.Prelude.{Option, none, some, arith, eq_iff}
use merossity.Prelude.{str_eq, if◌then◌else◌}
use merossity.Prelude.{Bool-cases, Option-cases, or_else}
use merossity.Prelude.Texts.{trim}
use mathlib.Core.Path.{subst}
use merossity.Json.{Value, text, array, object, Items, nil, cons, Fields, field, end, get}

abbrev has_text : Value → Bool
has_text (text t) = not (str_eq (trim t) "")
has_text _ = false

-- `asTimerRuleRecord`, and the same for triggers: the first rule with an id in nested lists and
-- objects, `kind` being the key that is followed.
unfoldable mutual
  pub rule_of : (kind : String) → Value → Option Fields
  rule_of kind (array items) = rule_of_items kind items
  rule_of kind (object fields) =
      let nested = rule_of_field kind fields in
      if has_text (get "id" (object fields)) then some fields else nested
  rule_of kind _ = none

  pub rule_of_items : (kind : String) → Items → Option Fields
  rule_of_items kind nil = none
  rule_of_items kind (cons v items) = or_else (rule_of kind v) (rule_of_items kind items)

  pub rule_of_field : (kind : String) → Fields → Option Fields
  rule_of_field kind end = none
  rule_of_field kind (field k v fields) =
      let here = rule_of kind v in
      let rest = rule_of_field kind fields in if str_eq k kind then here else rest

-- A rule has an id that is not blank.
abbrev pub HasId : Fields → Type 0
HasId rule = (id : String) × (get "id" (object rule) ≡ text id) × (trim id ≢ "")

has_text-some : (v : Value) → has_text v ≡ true → (id : String) × (v ≡ text id) × (trim id ≢ "")
has_text-some (text t) h = (t, refl, ground (arith, eq_iff (trim t) ""))
has_text-some _ h = cc

mutual
  unfolding rule_of rule_of_items rule_of_field

  rule_of-has :
      (kind : String) (v : Value) {rule : Fields} → rule_of kind v ≡ some rule → HasId rule
  rule_of-has kind (array items) h = rule_of_items-has kind items h
  rule_of-has kind (object fields) {rule} h =
      elim (Bool-cases (has_text (get "id" (object fields)))) [
        | inl e ↦
            let same : fields ≡ rule = ground (arith, rw e at h) in
            subst HasId same (has_text-some (get "id" (object fields)) e)
        | inr e ↦ rule_of_field-has kind fields (rw e at h)
      ]
  rule_of-has kind _ h = cc

  rule_of_items-has :
      (kind : String) (items : Items) {rule : Fields}
      → rule_of_items kind items ≡ some rule
      → HasId rule
  rule_of_items-has kind nil h = cc
  rule_of_items-has kind (cons v items) h = elim (Option-cases (rule_of kind v)) [
    | inl e ↦ rule_of_items-has kind items (rw e at h)
    | inr (r, e) ↦ rule_of-has kind v (e ∙ (rw e at h))
  ]

  rule_of_field-has :
      (kind : String) (fields : Fields) {rule : Fields}
      → rule_of_field kind fields ≡ some rule
      → HasId rule
  rule_of_field-has kind end h = cc
  rule_of_field-has kind (field k v fields) h = elim (Bool-cases (str_eq k kind)) [
    | inl e ↦ rule_of-has kind v (rw e at h)
    | inr e ↦ rule_of_field-has kind fields (rw e at h)
  ]

-- The rule that is found in an answer, however deep, has an id that is not blank.
pub rule_of-HasId :
    (kind : String) (v : Value) {rule : Fields} → rule_of kind v ≡ some rule → HasId rule
rule_of-HasId kind v h = rule_of-has kind v h
