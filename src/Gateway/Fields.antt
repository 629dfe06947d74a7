-- ===== src/Gateway/Fields.antt =====
-- How apps/vor-gateway/src/billing.rs reads the fields of an event.
use vor_commander.Base.{
  ℕ, String, Bool, not, Option, none, some, List, [], ◌∷◌, ◌&&◌, ◌||◌, leb, ltb, ◌==◌, str_eq,
  Result, ok, err, ok_or, if◌then◌else◌, all,
}
use vor_commander.Base.Text.{Text, codes, trim, is_empty, byte_len}
use vor_commander.Json.{Value, Values, Fields, nil, cons, end, field, object, array, as_str, as_u64}
use vor_commander.Gateway.Records.{BillingError, stripe_response, invalid_request}

-- `Value::get` of a key, `as_str`, `as_u64`
abbrev pub find_field : String → Fields → Option Value
find_field k end = none
find_field k (field j v fs) = if str_eq j k then some v else find_field k fs

abbrev pub get_key : String → Value → Option Value
get_key k (object fs) = find_field k fs
get_key k v = none

abbrev pub first_value : Values → Option Value
first_value nil = none
first_value (cons v vs) = some v

abbrev pub get_first : Value → Option Value
get_first (array vs) = first_value vs
get_first v = none

abbrev pub option_bind {ℓ κ} : {A : Type ℓ} {B : Type κ} → Option A → (A → Option B) → Option B
option_bind none f = none
option_bind (some a) f = f a

abbrev pub or_empty : Option String → String
or_empty none = ""
or_empty (some s) = s

abbrev pub nested : List String → Value → Option Value
nested [] v = some v
nested (k ∷ ks) v = option_bind (get_key k v) (nested ks)

unfoldable pub nested_str : Value → List String → Option String
nested_str v path = option_bind (nested path v) as_str

unfoldable pub nested_u64 : Value → List String → Option ℕ
nested_u64 v path = option_bind (nested path v) as_u64

unfoldable pub required_str : Value → String → Result BillingError String
required_str v name = ok_or (option_bind (get_key name v) as_str) stripe_response

unfoldable pub stripe_object : Value → Result BillingError Value
stripe_object event =
    ok_or (nested ("data" ∷ "object" ∷ []) event) (invalid_request "missing Stripe event object")

-- `pointer("/items/data/0/price/id")`
unfoldable pub first_price : Value → Option String
first_price v =
    option_bind (nested ("items" ∷ "data" ∷ []) v)
      (λ items. option_bind (get_first items) (λ item. nested_str item ("price" ∷ "id" ∷ [])))

-- bytes that are ASCII letters, digits, or one of `_`, `-`, `.` and `:`
abbrev pub is_id_char : ℕ → Bool
is_id_char c =
    (leb 48 c && leb c 57)
    || (leb 65 c && leb c 90)
    || (leb 97 c && leb c 122)
    || c == 95
    || c == 45
    || c == 46
    || c == 58

unfoldable pub clean_id : String → String → Result BillingError Text
clean_id value name =
    let trimmed = trim (codes value) in
    if is_empty trimmed || ltb 128 (byte_len trimmed) || not (all is_id_char trimmed)
    then err (invalid_request name)
    else ok trimmed
