-- ===== src/Canonical.antt =====
-- app/core/idempotency.py: the canonical form of a request's payload, by which requests are equal.
use Prim.Native.String.{compare}
use text.Mathlib.Text.{starts_with, is_le}
use e_bank_api.Prelude.{
  zero, suc, String, ◌==◌, Bool, true, false, ◌&&◌, ◌||◌, Option, none, some, if◌then◌else◌,
}
use e_bank_api.Prelude.Int.{ℤ, pos, negsuc}
use e_bank_api.Errors.{invalid_operation}
use e_bank_api.Models.{Outcome, ok, err, ◌then◌}
use e_bank_api.Json.{
  Value, null, bool, int, float, str, arr, obj, Items, nil, cons, Fields, end, field, get_field,
}

-- What Python brings: `str` of a value; `str(Decimal(text).quantize(Decimal("0.01")))`, which raises
-- or gives a text; and whether a float is zero.
pub record Numerals : Type 0 where
  pub text : Value → String
  pub quantize : String → Option String
  pub is_zero : String → Bool

-- `_HASH_EXCLUDED_KEYS`, `_MONETARY_KEYS`
unfoldable pub excluded_key : String → Bool
excluded_key k =
    k == "timestamp"
    || k == "request_id"
    || k == "idempotency_key"
    || k == "client_request_id"
    || k == "correlation_id"

unfoldable pub monetary : Option String → Bool
monetary none = false
monetary (some k) = k == "amount" || k == "delta_amount"

raised : Option String → Outcome Value
raised none = err invalid_operation
raised (some s) = ok (str s)

or_same : String → Option String → Value
or_same s none = str s
or_same s (some t) = str t

-- A field set in a sorted dict.
unfoldable pub set_field : String → Value → Fields → Fields
set_field k v end = field k v end
set_field k v (field j w rest) =
    let later = set_field k v rest in
    if is_le (compare k j) then field k v (field j w rest) else field j w later

module _ (p : Numerals) where
  unfoldable pub normalize_decimal : Value → Outcome Value
  unfolding raised or_same
  normalize_decimal (int n) = raised (p.quantize (p.text (int n)))
  normalize_decimal (float t) = raised (p.quantize t)
  normalize_decimal (str s) = ok (or_same s (p.quantize s))
  normalize_decimal null = ok null
  normalize_decimal (bool b) = ok (bool b)
  normalize_decimal (arr items) = ok (arr items)
  normalize_decimal (obj d) = ok (obj d)

  abbrev pub scalar : Option String → Value → Outcome Value
  scalar key v = if monetary key then normalize_decimal v else ok v

  unfoldable mutual
    pub canonicalize_value : Option String → Value → Outcome Value
    canonicalize_value key (obj d) = canonicalize_dict d then λ e. ok (obj e)
    canonicalize_value key (arr items) = canonicalize_items items then λ e. ok (arr e)
    canonicalize_value key null = scalar key null
    canonicalize_value key (bool b) = scalar key (bool b)
    canonicalize_value key (int n) = scalar key (int n)
    canonicalize_value key (float t) = scalar key (float t)
    canonicalize_value key (str s) = scalar key (str s)

    pub canonicalize_items : Items → Outcome Items
    canonicalize_items nil = ok nil
    canonicalize_items (cons v items) =
        canonicalize_value none v then λ w. canonicalize_items items then λ rest. ok (cons w rest)

    -- `for key in sorted(data)`, each key once.
    pub canonicalize_dict : Fields → Outcome Fields
    canonicalize_dict end = ok end
    canonicalize_dict (field k v rest) = elim (excluded_key k) [
      | true ↦ canonicalize_dict rest
      | false ↦ canonicalize_value (some k) v then λ w.
          canonicalize_dict rest then λ others. ok (set_field k w others)
    ]

  unfoldable pub is_zero_int : ℤ → Bool
  is_zero_int (pos zero) = true
  is_zero_int (pos (suc n)) = false
  is_zero_int (negsuc n) = false

  -- Python's truth value.
  unfoldable pub truth : Value → Bool
  unfolding is_zero_int
  truth null = false
  truth (bool b) = b
  truth (int n) = if is_zero_int n then false else true
  truth (float t) = if p.is_zero t then false else true
  truth (str s) = if s == "" then false else true
  truth (arr nil) = false
  truth (arr (cons v items)) = true
  truth (obj end) = false
  truth (obj (field k v rest)) = true

  unfoldable pub get_or : Value → String → Fields → Value
  get_or default key d = elim (get_field key d) [ none ↦ default | some v ↦ v ]

  -- `d.get(a) or d.get(b)`
  either : String → String → Fields → Value
  unfolding truth get_or
  either a b d = if truth (get_or null a d) then get_or null a d else get_or null b d

  is_str : Value → String → Bool
  is_str (str s) t = s == t
  is_str _ t = false

  -- `s.endswith(t)`, `t in s`
  unfoldable pub ends_with : String → String → Bool
  ends_with t String.[] = t == ""
  ends_with t (String.◌∷◌ c s) = let rest = ends_with t s in String.◌∷◌ c s == t || rest

  unfoldable pub contains : String → String → Bool
  contains t String.[] = t == ""
  contains t (String.◌∷◌ c s) = let rest = contains t s in starts_with (String.◌∷◌ c s) t || rest

  withdrawal : Fields → Outcome Fields
  unfolding get_or either
  withdrawal d = normalize_decimal (get_or null "amount" d) then λ amount. ok (
      field "account_id" (either "account_id" "origin" d) (
        field "amount" amount (
          field "currency" (get_or (str "BRL") "currency" d)
            (field "destination_account" (either "destination_account" "destination" d) end))))

  deposit : Fields → Outcome Fields
  unfolding get_or either
  deposit d = normalize_decimal (get_or null "amount" d) then λ amount. ok (
      field "account_id" (either "account_id" "destination" d) (
        field "amount" amount (
          field "currency" (get_or (str "BRL") "currency" d)
            (field "source_reference" (get_or null "source_reference" d) end))))

  balance_change : Fields → Outcome Fields
  unfolding get_or either
  balance_change d = normalize_decimal (either "delta_amount" "amount" d) then λ amount. ok (
      field "account_id" (get_or null "account_id" d)
        (field "delta_amount" amount (field "operation_type" (get_or null "operation_type" d) end)))

  transfer_event : Fields → Outcome Fields
  unfolding get_or
  transfer_event d = normalize_decimal (get_or null "amount" d) then λ amount. ok (
      field "type" (str "transfer") (
        field "origin" (get_or null "origin" d) (
          field "destination" (get_or null "destination" d)
            (field "amount" amount (field "currency" (get_or (str "BRL") "currency" d) end)))))

  by_route : String → Value → Fields → Outcome Fields
  unfolding withdrawal deposit balance_change transfer_event ends_with contains is_str
  by_route route event_type d =
      if ends_with "/withdrawals" route || (route == "/event" && is_str event_type "withdraw")
      then withdrawal d
      else if ends_with "/deposits" route || (route == "/event" && is_str event_type "deposit")
      then deposit d
      else if contains "/accounts/" route && ends_with "/balance" route
      then balance_change d
      else if route == "/event" && is_str event_type "transfer"
      then transfer_event d
      else ok d

  unfoldable pub normalize_financial_payload : String → Fields → Outcome Fields
  unfolding by_route get_or is_zero_int truth
  normalize_financial_payload route payload =
      canonicalize_dict payload then λ d. by_route route (get_or null "type" d) d
