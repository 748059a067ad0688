-- ===== src/Applications.antt =====
-- `_validate_full` of app/services/onboarding_complete.py: an application for an account, checked.
use Prim.Native.String.{count}
use e_bank_api.Prelude.{
  ℕ, String, ◌==◌, Bool, true, false, not, ◌||◌, Option, none, some, truthy, leb, if◌then◌else◌,
}
use e_bank_api.Prelude.Texts.{take}
use e_bank_api.Errors.{onboarding_error, value_error}
use e_bank_api.Models.{Holder, Outcome, ok, err, ◌then◌}
use e_bank_api.Money.{Quantized}
use e_bank_api.Validation.{
  Texts, Date, require_adult, validate_document, validate_cep, validate_email, validate_phone,
}
use e_bank_api.OnboardingAccounts.{Numbering}

-- The settings, Python's texts and decimals, and the day of the request.
pub record Opening : Type 0 where
  pub texts : Texts
  pub upper : String → String
  pub fromisoformat : String → Option Date
  pub decimal : String → Quantized
  pub welcome_amount : String
  pub numbering : Numbering
  pub today : Date

-- `payload["birth_date"]`: missing or empty, a date, or a text.
pub data Birth : Type 0 where
  no_birth : Birth
  birth_day : Date → Birth
  birth_text : String → Birth

-- The payload of `complete`, with the fields that `_validate_full` and `complete` read.
pub record Application : Type 0 where
  pub account_id : Option String
  pub full_name : Option String
  pub birth_date : Birth
  pub document_number : Option String
  pub cep : Option String
  pub street : Option String
  pub number : Option String
  pub complement : Option String
  pub neighborhood : Option String
  pub city : Option String
  pub state : Option String
  pub email : Option String
  pub phone : Option String
  pub terms_accepted : Bool

-- `str(value or "")`
abbrev pub or_empty : Option String → String
or_empty none = ""
or_empty (some s) = s

abbrev required : {A : Type 0} → Bool → String → Outcome A → Outcome A
required true what rest = rest
required false what rest = err (onboarding_error what)

module _ (o : Opening) where
  stripped : Option String → String
  stripped x = o.texts.strip (or_empty x)

  birth_of : Birth → Outcome Date
  birth_of no_birth = err (onboarding_error "birth_date is required")
  birth_of (birth_day d) = ok d
  birth_of (birth_text s) = elim (o.fromisoformat s) [ none ↦ err value_error | some d ↦ ok d ]

  iso_date : Date → ℕ × ℕ × ℕ
  iso_date d = (d.year, d.month, d.day)

  holder_row : Application → Date → String × String → String → String → String → Holder
  unfolding stripped iso_date
  holder_row p birth document cep email phone = record {
    subject = "";
    full_name = stripped p.full_name;
    birth_date = some (iso_date birth);
    document_type = some (document.0);
    document_number = some (document.1);
    cep = some cep;
    street = some (stripped p.street);
    number = some (stripped p.number);
    complement = truthy (some (stripped p.complement));
    neighborhood = truthy (some (stripped p.neighborhood));
    city = truthy (some (stripped p.city));
    state = truthy (some (take 2 (o.upper (stripped p.state))));
    email = some email;
    phone = some phone;
  }

  -- `_validate_full`, check after check
  unfoldable pub validate_full : Application → Outcome Holder
  unfolding stripped birth_of holder_row
  validate_full p = required (leb 2 (count (stripped p.full_name))) "full_name is required" (
      birth_of p.birth_date then λ birth. require_adult birth o.today then λ adult.
      required (not (stripped p.document_number == "")) "document_number is required" (
        validate_document o.texts (stripped p.document_number) then λ document.
        validate_cep o.texts (or_empty p.cep) then λ cep.
        required (not (stripped p.street == "" || stripped p.number == ""))
          "street and number are required"
          (validate_email o.texts (or_empty p.email) then λ email.
            validate_phone o.texts (or_empty p.phone) then λ phone.
            required p.terms_accepted "terms must be accepted"
              (ok (holder_row p birth document cep email phone)))))
