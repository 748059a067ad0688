-- ===== src/Validation.antt =====
-- app/domain/validation.py: documents, phones, postal codes, ages and account numbers as typed by
-- a user.
pub mod CheckDigits
pub mod Documents
pub mod Ages
use Prim.Native.Char.{Char}
use Prim.Native.String.{count, ◌++◌ as concat}
use e_bank_api.Prelude.{
  ℕ, zero, suc, ◌+◌, ◌*◌, ◌-◌, ◌%◌, String, ◌==◌, Bool, true, false, not, ◌&&◌, ◌||◌, Option, none,
  some, List, [], ◌∷◌, is_some, ltb, leb, eqb, length, if◌then◌else◌,
}
use e_bank_api.Prelude.Int.{ℤ, pos, ◌-ℤ◌, ltb_ℤ}
use e_bank_api.Errors.{Error, onboarding_error, value_error}
use e_bank_api.Models.{Outcome, ok, err, ◌then◌}

-- What Python's texts bring: the value of a decimal digit, which `\d`, `\D` and `int` go by;
-- `str.strip`; `str(n)` of a number; and the match of `_EMAIL_RE`, with `strip().lower()`.
pub record Texts : Type 0 where
  pub digit_value : Char → Option ℕ
  pub strip : String → String
  pub lower : String → String
  pub show : ℕ → String
  pub is_email : String → Bool

abbrev pub invalid : {A : Type 0} → String → Outcome A
invalid what = err (onboarding_error what)

-- `cleaned == cleaned[0] * len(cleaned)`
unfoldable pub all_same : String → Bool
all_same String.[] = true
all_same (String.◌∷◌ c String.[]) = true
all_same (String.◌∷◌ c (String.◌∷◌ d s)) =
    let rest = all_same (String.◌∷◌ d s) in
    (String.◌∷◌ c String.[] == String.◌∷◌ d String.[]) && rest

-- `sum(n * w for n, w in zip(nums, weights))`
unfoldable pub weighted : List ℕ → List ℕ → ℕ
weighted [] weights = 0
weighted (n ∷ nums) [] = 0
weighted (n ∷ nums) (w ∷ weights) = n * w + weighted nums weights

-- `nums[i]`, which the callers have.
abbrev pub nth : List ℕ → ℕ → ℕ
nth [] i = 0
nth (n ∷ nums) zero = n
nth (n ∷ nums) (suc i) = nth nums i

-- The check digit of a CPF over a weighted sum, and of a CNPJ.
unfoldable pub cpf_digit : ℕ → ℕ
cpf_digit s = s * 10 % 11 % 10

unfoldable pub cnpj_digit : ℕ → ℕ
cnpj_digit s = if ltb (s % 11) 2 then 0 else 11 - s % 11

-- The weights of `zip(nums[:9], range(10, 1, -1))` and its like: `zip` ends with the weights.
abbrev pub cpf_weights_1 : List ℕ
cpf_weights_1 = 10 ∷ 9 ∷ 8 ∷ 7 ∷ 6 ∷ 5 ∷ 4 ∷ 3 ∷ 2 ∷ []

abbrev pub cpf_weights_2 : List ℕ
cpf_weights_2 = 11 ∷ cpf_weights_1

abbrev pub cnpj_weights_1 : List ℕ
cnpj_weights_1 = 5 ∷ 4 ∷ 3 ∷ 2 ∷ 9 ∷ 8 ∷ 7 ∷ 6 ∷ 5 ∷ 4 ∷ 3 ∷ 2 ∷ []

abbrev pub cnpj_weights_2 : List ℕ
cnpj_weights_2 = 6 ∷ cnpj_weights_1

-- Whether the two last of the numbers are the check digits of those before.
unfoldable pub cpf_checks : List ℕ → Bool
unfolding weighted cpf_digit
cpf_checks nums =
    eqb (cpf_digit (weighted nums cpf_weights_1)) (nth nums 9)
    && eqb (cpf_digit (weighted nums cpf_weights_2)) (nth nums 10)

unfoldable pub cnpj_checks : List ℕ → Bool
unfolding weighted cnpj_digit
cnpj_checks nums =
    eqb (cnpj_digit (weighted nums cnpj_weights_1)) (nth nums 12)
    && eqb (cnpj_digit (weighted nums cnpj_weights_2)) (nth nums 13)

-- The last n characters.
abbrev pub last : ℕ → String → String
last n String.[] = String.[]
last n (String.◌∷◌ c s) = if leb (count (String.◌∷◌ c s)) n then String.◌∷◌ c s else last n s

abbrev pub stars : ℕ → String
stars zero = ""
stars (suc n) = concat "*" (stars n)

module _ (t : Texts) where
  unfoldable pub digits_only : String → String
  digits_only String.[] = String.[]
  digits_only (String.◌∷◌ c s) =
      let rest = digits_only s in if is_some (t.digit_value c) then String.◌∷◌ c rest else rest

  digit_or_zero : Option ℕ → ℕ
  digit_or_zero none = 0
  digit_or_zero (some n) = n

  -- `[int(c) for c in cleaned]`
  unfoldable pub nums : String → List ℕ
  unfolding digit_or_zero
  nums String.[] = []
  nums (String.◌∷◌ c s) = digit_or_zero (t.digit_value c) ∷ nums s

  unfoldable pub validate_cep : String → Outcome String
  unfolding digits_only
  validate_cep cep =
      let cleaned = digits_only cep in
      if eqb (count cleaned) 8 then ok cleaned else invalid "invalid CEP"

  unfoldable pub validate_phone : String → Outcome String
  unfolding digits_only
  validate_phone phone =
      let cleaned = digits_only phone in
      if eqb (count cleaned) 10 || eqb (count cleaned) 11
      then ok cleaned
      else invalid "invalid phone"

  unfoldable pub validate_email : String → Outcome String
  validate_email email =
      let cleaned = t.lower (t.strip email) in
      if t.is_email cleaned then ok cleaned else invalid "invalid email"

  unfoldable pub validate_cpf : String → Outcome String
  unfolding digits_only nums cpf_checks all_same
  validate_cpf cpf =
      let cleaned = digits_only cpf in
      if not (eqb (count cleaned) 11) || all_same cleaned
      then invalid "invalid CPF"
      else if cpf_checks (nums cleaned)
      then ok cleaned
      else invalid "invalid CPF"

  unfoldable pub validate_cnpj : String → Outcome String
  unfolding digits_only nums cnpj_checks all_same
  validate_cnpj cnpj =
      let cleaned = digits_only cnpj in
      if not (eqb (count cleaned) 14) || all_same cleaned
      then invalid "invalid CNPJ"
      else if cnpj_checks (nums cleaned)
      then ok cleaned
      else invalid "invalid CNPJ"

  -- The kind of a document with its digits.
  unfoldable pub validate_document : String → Outcome (String × String)
  unfolding digits_only validate_cpf validate_cnpj
  validate_document document =
      let cleaned = digits_only document in
      if eqb (count cleaned) 11
      then (validate_cpf cleaned then λ d. ok ("cpf", d))
      else if eqb (count cleaned) 14
      then (validate_cnpj cleaned then λ d. ok ("cnpj", d))
      else invalid "document must be CPF or CNPJ"

  -- A document that is there: `if not document` is for the caller's `None` and for "".
  unfoldable pub mask_document : Option String → Option String
  unfolding digits_only
  mask_document none = none
  mask_document (some document) =
      let cleaned = digits_only document in
      if document == ""
      then none
      else if eqb (count cleaned) 11
      then some (concat "***.***.***-" (last 2 cleaned))
      else if leb 4 (count cleaned)
      then some (concat (stars (count cleaned - 4)) (last 4 cleaned))
      else some "****"

  unfoldable pub value_of : ℕ → String → ℕ
  unfolding digit_or_zero
  value_of acc String.[] = acc
  value_of acc (String.◌∷◌ c s) = value_of (acc * 10 + digit_or_zero (t.digit_value c)) s

  -- `int(text)` of a text of digits; of the empty text it raises.
  unfoldable pub to_int : String → Outcome ℕ
  unfolding value_of
  to_int s = if s == "" then err value_error else ok (value_of 0 s)

  unfoldable pub format_account_display : ℕ → ℕ → String
  format_account_display number digit = concat (t.show number) (concat "-" (t.show digit))

-- `raw.rsplit("-", 1)`: the texts before and behind the last dash, if there is one.
unfoldable pub rsplit_dash : String → Option (String × String)
rsplit_dash String.[] = none
rsplit_dash (String.◌∷◌ c s) = elim (rsplit_dash s) [
  | some parts ↦ some (String.◌∷◌ c parts.0, parts.1)
  | none ↦ if String.◌∷◌ c String.[] == "-" then some ("", s) else none
]

-- All characters but the last.
abbrev butlast : String → String
butlast String.[] = String.[]
butlast (String.◌∷◌ c String.[]) = String.[]
butlast (String.◌∷◌ c (String.◌∷◌ d s)) = String.◌∷◌ c (butlast (String.◌∷◌ d s))

module _ (t : Texts) where
  both_int : String → String → Outcome (ℕ × ℕ)
  both_int left right = to_int t left then λ n. to_int t right then λ d. ok (n, d)

  unfoldable pub parse_account_display : String → Outcome (ℕ × ℕ)
  unfolding digits_only to_int rsplit_dash both_int
  parse_account_display value = elim (rsplit_dash (t.strip value)) [
    | some parts ↦ both_int (digits_only t parts.0) (digits_only t parts.1)
    | none ↦
        let digits = digits_only t (t.strip value) in
        if ltb (count digits) 2
        then invalid "invalid account number"
        else both_int (butlast digits) (last 1 digits)
  ]

-- A date as year, month and day.
pub record Date : Type 0 where
  pub year : ℕ
  pub month : ℕ
  pub day : ℕ

-- `(today.month, today.day) < (birth_date.month, birth_date.day)`
unfoldable pub before_birthday : Date → Date → Bool
before_birthday birth today =
    ltb today.month birth.month || (eqb today.month birth.month && ltb today.day birth.day)

unfoldable pub age_years : Date → Date → ℤ
unfolding before_birthday
age_years birth today =
    let years = pos today.year -ℤ pos birth.year in
    if before_birthday birth today then years -ℤ pos 1 else years

unfoldable pub require_adult : Date → Date → Outcome Date
unfolding age_years
require_adult birth today =
    if ltb_ℤ (age_years birth today) (pos 18)
    then invalid "applicant must be at least 18 years old"
    else ok birth
