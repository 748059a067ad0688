-- ===== src/Json.antt =====
-- JSON values as Python's `json` reads them, and app/core/logger.py's masking of sensitive fields.
use Prim.Native.Char.{code}
use e_bank_api.Prelude.{
  ℕ, ◌+◌, String, ◌==◌, Bool, true, false, ◌&&◌, ◌||◌, Option, none, some, List, [], ◌∷◌, map, leb,
  eqb, if◌then◌else◌,
}
use e_bank_api.Prelude.Int.{ℤ}

-- `float` holds the text of the number.
mutual
  -- A dict, in insertion order.
  pub data Fields : Type 0 where
    end : Fields
    field : String → Value → Fields → Fields

  pub data Value : Type 0 where
    null : Value
    obj : Fields → Value
    str : String → Value
    float : String → Value
    int : ℤ → Value
    bool : Bool → Value
    arr : Items → Value

  pub data Items : Type 0 where
    nil : Items
    cons : Value → Items → Items

-- `data.get(key)`: a dict has one value for a key.
unfoldable pub get_field : String → Fields → Option Value
get_field k end = none
get_field k (field j v rest) = if j == k then some v else get_field k rest

abbrev codes : String → List ℕ
codes String.[] = []
codes (String.◌∷◌ c s) = code c ∷ codes s

-- `str.lower`, on ASCII letters.
abbrev lower : ℕ → ℕ
lower c = if leb b'A' c && leb c b'Z' then c + 32 else c

same_codes : List ℕ → List ℕ → Bool
same_codes [] [] = true
same_codes (c ∷ cs) (d ∷ ds) = eqb c d && same_codes cs ds
same_codes _ _ = false

-- `key.lower() in words`
unfoldable pub lower_in : String → List String → Bool
unfolding same_codes
lower_in key [] = false
lower_in key (w ∷ words) = same_codes (map lower (codes key)) (codes w) || lower_in key words

abbrev pub sensitive_keys : List String
sensitive_keys =
    "password" ∷ "token" ∷ "authorization" ∷ "secret" ∷ "card_number" ∷ "cpf" ∷ "cnpj" ∷ "otp"
    ∷ "code" ∷ []

abbrev pub redacted : Value
redacted = str "***REDACTED***"

-- One pass of masking by a set of keys, which goes into nested dicts and not into lists.
unfoldable mutual
  pub mask_value : List String → Value → Value
  mask_value words (obj fields) = obj (mask_fields words fields)
  mask_value words null = null
  mask_value words (bool b) = bool b
  mask_value words (int n) = int n
  mask_value words (float t) = float t
  mask_value words (str s) = str s
  mask_value words (arr items) = arr items

  pub mask_fields : List String → Fields → Fields
  mask_fields words end = end
  mask_fields words (field k v rest) =
      field k (if lower_in k words then redacted else mask_value words v) (mask_fields words rest)

-- `sanitize_sensitive_fields`
unfoldable pub sanitize_sensitive_fields : Fields → Fields
sanitize_sensitive_fields fields = mask_fields sensitive_keys fields
