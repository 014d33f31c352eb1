-- ===== src/Api/Timers/Patch/Meaning.antt =====
-- What a patch makes of each field of a rule.
use merossity.Prelude.{String}
use merossity.Prelude.{◌≡◌, refl, ap, ◌∙◌, ◌≢◌, inl, inr, Bool, true, false, not}
use merossity.Prelude.{◌&&◌, ◌||◌, none, some, List, [], ◌∷◌, arith, eq_iff}
use merossity.Prelude.{str_eq, if◌then◌else◌}
use merossity.Prelude.{Bool-cases, Option-cases}
use merossity.Prelude.{any, All}
use mathlib.Core.Path.{subst}
use merossity.Json.{
  Number, Value, undefined, number, finite, text, object, Fields, get, put, get-put, fields_of,
}
use merossity.Prelude.Integers.{pos, negsuc}
use merossity.Api.Client.{Reply, done, to_text, is_undefined}
use merossity.Api.Client.Outcomes.{Reply-cases}
use merossity.Api.Timers.Patch.{
  patched_rule, set_enable, set_alias, set_channel, set_integer, set_toggle, ◌>>=◌, as_finite_int,
  coerced_bit,
}

-- What a step makes of a field that is not `extend`, from the key and the value before.
record Makes (step : Fields → Reply Fields) (value : String → Value → Value) : Type 0 where
  made :
      (rule new : Fields)
      → step rule ≡ done new
      → (u : String) → u ≢ "extend"
      → get u (object new) ≡ value u (get u (object rule))

then-Makes :
    {first next : Fields → Reply Fields} {f g : String → Value → Value}
    → Makes first f
    → Makes next g
    → Makes (λ rule. first rule >>= next) (λ u v. g u (f u v))
then-Makes {first} {g} a b = record {
  made = λ rule new h u n. elim (Reply-cases (first rule)) [
    | inl (mid, e) ↦ b.made mid new (rw e at h) u n ∙ ap (g u) (a.made rule mid e u n)
    | inr (code, message, e) ↦ ground (arith, rw e at h)
  ];
}

-- The field `key` becomes what `change` makes of the wanted value.
abbrev at_key : (key : String) → (Value → Value) → Value → String → Value → Value
at_key key change v u old = if str_eq key u && not (is_undefined v) then change v else old

by_key :
    (P : String → Type 0) (keys : List String) (u : String)
    → All P keys
    → (All (λ k. str_eq k u ≡ false) keys → P u)
    → P u
by_key P [] u here other = other tt
by_key P (k ∷ keys) u (now, later) other = elim (Bool-cases (str_eq k u)) [
  | inl e ↦ subst P (ground (arith, eq_iff k u)) now
  | inr e ↦ by_key P keys u later (λ n. other (e, n))
]

either : (b : Bool) (x y : Value) → (if not b then x else y) ≡ (if b || false then y else x)
either true x y = refl
either false x y = refl

pub ignored : (b : Bool) (old x : Value) → old ≡ (if b || true then old else x)
ignored true old x = refl
ignored false old x = refl

module _ (parse_number : Value → Number) (print_value : Value → String) where
  -- The integer of a number or of a text.
  abbrev integer : Value → Value
  integer v = elim (as_finite_int parse_number print_value v) [
    | none ↦ undefined
    | some n ↦ number (finite n)
  ]

  abbrev set_bit : Value → Value
  set_bit v = coerced_bit parse_number print_value v

  set_enable-Makes :
      (patch : Value)
      → Makes
          (set_enable parse_number print_value patch)
          (at_key "enable" set_bit (get "enable" patch))
  unfolding set_enable
  set_enable-Makes patch = record {
    made = λ rule new h u n.
        let put_lem = get-put "enable" u (set_bit (get "enable" patch)) rule in
        elim (Bool-cases (is_undefined (get "enable" patch))) [
          | inl e ↦ ground (arith, rw e at h)
          | inr e ↦ ground (arith, rw e at h, put_lem)
        ];
  }

  set_alias-Makes :
      (patch : Value)
      → Makes
          (set_alias parse_number print_value patch)
          (at_key "alias" (λ v. text (to_text print_value v)) (get "alias" patch))
  unfolding set_alias
  set_alias-Makes patch = record {
    made = λ rule new h u n.
        let put_lem = get-put "alias" u (text (to_text print_value (get "alias" patch))) rule in
        elim (Bool-cases (is_undefined (get "alias" patch))) [
          | inl e ↦ ground (arith, rw e at h)
          | inr e ↦ ground (arith, rw e at h, put_lem)
        ];
  }

  set_integer-Makes :
      (key code message : String) (patch : Value)
      → Makes
          (set_integer parse_number print_value key code message patch)
          (at_key key integer (get key patch))
  unfolding set_integer
  set_integer-Makes key code message patch = record {
    made = λ rule new h u n. elim (Bool-cases (is_undefined (get key patch))) [
      | inl e ↦ ground (arith, rw e at h)
      | inr e ↦ elim (Option-cases (as_finite_int parse_number print_value (get key patch))) [
        | inl f ↦ ground (arith, rw (e, f) at h)
        | inr (i, f) ↦ ground (arith, rw (e, f) at h, get-put key u (number (finite i)) rule)
      ]
    ];
  }

  set_channel-Makes :
      (patch : Value)
      → Makes
          (set_channel parse_number print_value patch)
          (at_key "channel" integer (get "channel" patch))
  unfolding set_channel
  set_channel-Makes patch = record {
    made = λ rule new h u n. elim (Bool-cases (is_undefined (get "channel" patch))) [
      | inl e ↦ ground (arith, rw e at h)
      | inr e ↦ elim (Option-cases (as_finite_int parse_number print_value (get "channel" patch))) [
        | inl f ↦ ground (arith, rw (e, f) at h)
        | inr (pos z, f) ↦
            ground (arith, rw (e, f) at h, get-put "channel" u (number (finite (pos z))) rule)
        | inr (negsuc z, f) ↦ ground (arith, rw (e, f) at h)
      ]
    ];
  }

  set_toggle-Makes :
      (patch : Value) → Makes (set_toggle parse_number print_value patch) (λ u old. old)
  unfolding set_toggle
  set_toggle-Makes patch = record {
    made = λ rule new h u n.
        let v = get "toggleOnoff" patch in
        elim (Bool-cases (is_undefined v)) [
          | inl e ↦ ground (arith, rw e at h)
          | inr e ↦ elim (Option-cases (fields_of (get "extend" (object rule)))) [
            | inl f ↦ ground (arith, rw (e, f) at h)
            | inr (extend, f) ↦ elim (Option-cases (fields_of (get "toggle" (object extend)))) [
              | inl g ↦ ground (arith, rw (e, f, g) at h)
              | inr (toggle, g) ↦ elim (Bool-cases (is_undefined (get "onoff" (object toggle)))) [
                | inl k ↦ ground (arith, rw (e, f, g, k) at h)
                | inr k ↦
                    let off =
                      object (put "toggle" (object (put "onoff" (set_bit v) toggle)) extend) in
                    ground
                      (arith, rw (e, f, g, k) at h, get-put "extend" u off rule, eq_iff "extend" u)
              ]
            ]
          ]
        ];
  }

  -- The fields that a patch may set.
  abbrev pub patchable : List String
  patchable =
      "enable" ∷ "alias" ∷ "channel" ∷ "type" ∷ "week" ∷ "time" ∷ "sunOffset" ∷ "duration" ∷ []

  -- What a patch means for a field that is not `extend`, whose value was `old`.
  abbrev pub meant : (patch : Value) (u : String) (old : Value) → Value
  meant patch u old =
      let v = get u patch in
      if is_undefined v || not (any (λ k. str_eq k u) patchable)
      then old
      else if str_eq "enable" u
      then set_bit v
      else if str_eq "alias" u
      then text (to_text print_value v)
      else integer v

  abbrev step_by_step : (patch : Value) (u : String) (old : Value) → Value
  step_by_step patch u old = at_key "duration" integer (get "duration" patch) u (
      at_key "sunOffset" integer (get "sunOffset" patch) u (
        at_key "time" integer (get "time" patch) u (
          at_key "week" integer (get "week" patch) u (
            at_key "type" integer (get "type" patch) u (
              at_key "channel" integer (get "channel" patch) u (
                at_key "alias" (λ v. text (to_text print_value v)) (get "alias" patch) u
                  (at_key "enable" set_bit (get "enable" patch) u old)))))))

  patched_rule-Makes :
      (patch : Value) → Makes (patched_rule parse_number print_value patch) (step_by_step patch)
  unfolding patched_rule
  patched_rule-Makes patch =
      then-Makes
        (then-Makes
          (then-Makes
            (then-Makes
              (then-Makes
                (then-Makes
                  (then-Makes (then-Makes (set_enable-Makes patch) (set_alias-Makes patch))
                    (set_channel-Makes patch))
                  (set_integer-Makes "type" _ _ patch))
                (set_integer-Makes "week" _ _ patch))
              (set_integer-Makes "time" _ _ patch))
            (set_integer-Makes "sunOffset" _ _ patch))
          (set_integer-Makes "duration" _ _ patch))
        (set_toggle-Makes patch)

  -- The steps at the keys that they are about.
  at_patched :
      (patch : Value) (old : Value)
      → All (λ k. step_by_step patch k old ≡ meant patch k old) patchable
  at_patched patch old =
      let at : (key : String) (change : Value → Value)
          → (if not (is_undefined (get key patch)) then change (get key patch) else old)
            ≡ (if is_undefined (get key patch) || false then old else change (get key patch)) =
        λ key change. either (is_undefined (get key patch)) (change (get key patch)) old in
      (
        at "enable" set_bit,
        (
          at "alias" (λ v. text (to_text print_value v)),
          (
            at "channel" integer,
            (
              at "type" integer,
              (
                at "week" integer,
                (at "time" integer, (at "sunOffset" integer, (at "duration" integer, tt))),
              ),
            ),
          ),
        ),
      )

  step_by_step-meant :
      (patch : Value) (u : String) (old : Value) → step_by_step patch u old ≡ meant patch u old
  step_by_step-meant patch u old =
      by_key (λ u. step_by_step patch u old ≡ meant patch u old) patchable u (at_patched patch old)
        (λ n.
          let (enable, (alias, (channel, (type, (week, (time, (offset, (duration, _)))))))) = n in
          rw (enable, alias, channel, type, week, time, offset, duration)
            (ignored (is_undefined (get u patch)) old _))

  -- A patch that is done makes of each field but `extend` what it means for it. So the id, and
  -- each field that the patch does not name, is the one of the rule before.
  pub patched_rule-get :
      (patch : Value) (rule new : Fields)
      → patched_rule parse_number print_value patch rule ≡ done new
      → (u : String) → u ≢ "extend"
      → get u (object new) ≡ meant patch u (get u (object rule))
  patched_rule-get patch rule new h u n =
      (patched_rule-Makes patch).made rule new h u n
      ∙ step_by_step-meant patch u (get u (object rule))
