-- ===== src/Cloud/Devices.antt =====
-- packages/core/src/meross/cloud/http.ts: `merossCloudListDevices`, and where an answer may hold
-- the list of devices. JavaScript parses a text (`parse_json`, `none` where it throws).
use merossity.Prelude.{ℕ, String}
use merossity.Prelude.{◌≡◌, inl, inr, Bool, true, false}
use merossity.Prelude.{◌||◌, Option, none, some, List, [], ◌∷◌, map, arith}
use merossity.Prelude.{ltb, if◌then◌else◌}
use merossity.Prelude.{Bool-cases, get_or, or_else, length}
use merossity.Prelude.{take}
use merossity.Prelude.Texts.{trim, starts_with}
use Prim.Native.String.{◌++◌ as append_text}
use mathlib.Core.Path.{subst}
use merossity.Json.{
  Value, undefined, null, boolean, number, text, array, object, Items, nil, cons, Fields, field,
  end, get, is_truthy,
}
use merossity.Cloud.Http.{
  cloud_error, Outcome, got, failed, Session, ◌>>=◌, Fetch, has_status, api_status, info_of,
  post_with_redirect,
}

abbrev pub is_device_like : Value → Bool
is_device_like v = elim (get "uuid" v) [ text t ↦ true | _ ↦ false ]

unfoldable pub is_device_list : Value → Bool
is_device_list (array nil) = true
is_device_list (array (cons v vs)) = is_device_like v
is_device_list _ = false

-- The list, where a value is one.
unfoldable pub device_list : Value → Option Items
device_list (array vs) = if is_device_list (array vs) then some vs else none
device_list _ = none

abbrev first_some : List (Option Items) → Option Items
first_some [] = none
first_some (x ∷ xs) = or_else x (first_some xs)

-- The list itself, or under one of three keys.
unfoldable pub nested_list : Value → Option Items
nested_list c = first_some (
    device_list c
    ∷ device_list (get "devList" c)
    ∷ device_list (get "list" c)
    ∷ device_list (get "devices" c)
    ∷ [])

unfoldable pub first_nested : List Value → Option Items
first_nested [] = none
first_nested (c ∷ cs) = or_else (nested_list c) (first_nested cs)

-- What the message of the error tells of the data.
abbrev pub data_type : Value → String
data_type undefined = "undefined"
data_type null = "null"
data_type (boolean b) = "boolean"
data_type (number n) = "number"
data_type (text t) = "string"
data_type (array vs) = "array"
data_type (object fields) = "object"

keys_of : Fields → List String
keys_of end = []
keys_of (field k v fields) = k ∷ keys_of fields

join_keys : List String → String
join_keys [] = ""
join_keys (k ∷ []) = k
join_keys (k ∷ l ∷ ks) = append_text k (append_text "," (join_keys (l ∷ ks)))

unfoldable pub missing_list : Value → String
unfolding keys_of join_keys
missing_list v =
    let keys : List String = elim v [ object fields ↦ take 20 (keys_of fields) | _ ↦ [] ] in
    let told = if ltb 0 (length keys) then append_text " keys=" (join_keys keys) else "" in
    append_text "Cloud devList response missing devList[] (dataType="
      (append_text (data_type v) (append_text told ")"))

module _ (parse_json : String → Option Value) where
  unfoldable pub coerce_json : Value → Value
  coerce_json (text t) =
      let s = trim t in
      if starts_with s "{" || starts_with s "[" then get_or (parse_json s) (text t) else text t
  coerce_json v = v

  abbrev pub candidates : Value → List Value
  candidates obj = map coerce_json (
      get "devList" obj
      ∷ get "deviceList" obj
      ∷ get "list" obj
      ∷ get "devices" obj
      ∷ get "devList" (get "data" obj)
      ∷ get "deviceList" (get "data" obj)
      ∷ get "list" (get "data" obj)
      ∷ (if is_truthy (get "payload" obj) then coerce_json (get "payload" obj) else undefined)
      ∷ [])

  unfoldable pub extract_cloud_device_list : (data_of : Value) → Option Items
  extract_cloud_device_list data_of =
      let coerced = coerce_json data_of in
      or_else (device_list coerced) (first_nested (candidates coerced))

  unfoldable pub devices_result : Value → Outcome Items
  devices_result resp =
      if has_status 0 resp
      then elim (extract_cloud_device_list (get "data" resp)) [
        | some list ↦ got list
        | none ↦ failed (cloud_error (missing_list (get "data" resp)) none none)
      ]
      else failed (cloud_error "Cloud devList failed" (api_status resp) (info_of resp))

  unfoldable pub meross_cloud_list_devices :
      (show : ℕ → String) → Fetch → (domain : String) → Session Items
  meross_cloud_list_devices show fetch domain =
      post_with_redirect show fetch domain >>= λ last log. (devices_result last.1, log)

-- What is found is a list of devices.
abbrev FindsList : Option Items → Type 0
FindsList o = (vs : Items) → o ≡ some vs → is_device_list (array vs) ≡ true

or_else-FindsList : (a b : Option Items) → FindsList a → FindsList b → FindsList (or_else a b)
or_else-FindsList none b f g = g
or_else-FindsList (some a) b f g = f

none-FindsList : FindsList none
none-FindsList vs h = cc

device_list-FindsList : (v : Value) → FindsList (device_list v)
unfolding device_list
device_list-FindsList (array ws) vs h = elim (Bool-cases (is_device_list (array ws))) [
  | inl e ↦
      let same : ◌≡◌ {A = Option Items} (some ws) (some vs) = rw e at h in
      let items : ws ≡ vs = cc in subst (λ ws. is_device_list (array ws) ≡ true) items e
  | inr e ↦ ground (arith, rw e at h)
]
device_list-FindsList _ vs h = cc

nested_list-FindsList : (c : Value) → FindsList (nested_list c)
unfolding nested_list
nested_list-FindsList c = or_else-FindsList _ _ (device_list-FindsList c) (
    or_else-FindsList _ _ (device_list-FindsList (get "devList" c)) (
      or_else-FindsList _ _ (device_list-FindsList (get "list" c))
        (or_else-FindsList _ _ (device_list-FindsList (get "devices" c)) none-FindsList)))

first_nested-FindsList : (cs : List Value) → FindsList (first_nested cs)
unfolding first_nested
first_nested-FindsList [] = none-FindsList
first_nested-FindsList (c ∷ cs) =
    or_else-FindsList _ _ (nested_list-FindsList c) (first_nested-FindsList cs)

-- What is taken from an answer as the list of devices is one: it is empty, or its first entry has
-- an id.
pub extract_cloud_device_list-is_device_list :
    (parse_json : String → Option Value) (data_of : Value) {vs : Items}
    → extract_cloud_device_list parse_json data_of ≡ some vs
    → is_device_list (array vs) ≡ true
unfolding extract_cloud_device_list
extract_cloud_device_list-is_device_list parse_json data_of {vs} h =
    or_else-FindsList (device_list (coerce_json parse_json data_of))
      (first_nested (candidates parse_json (coerce_json parse_json data_of)))
      (device_list-FindsList _) (first_nested-FindsList _) vs h
