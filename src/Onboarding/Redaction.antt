-- ===== src/Onboarding/Redaction.antt =====
-- What `_redact_summary` (app/services/onboarding_service.py) leaves of a document's summary.
use e_bank_api.Prelude.{◌≡◌, Bool, true, false, if◌then◌else◌}
use e_bank_api.Json.{
  Value, null, bool, int, float, str, arr, obj, Fields, end, field, lower_in, redacted,
}
use e_bank_api.Onboarding.{summary_keys, redact_value, redact_summary}

-- No sensitive key of a dict, or of a dict in it, has a value but the mask. Lists are not looked at.
unfoldable mutual
  pub IsClean : Value → Type 0
  IsClean (obj d) = IsRedacted d
  IsClean null = Unit
  IsClean (bool b) = Unit
  IsClean (int n) = Unit
  IsClean (float t) = Unit
  IsClean (str s) = Unit
  IsClean (arr items) = Unit

  pub IsRedacted : Fields → Type 0
  IsRedacted end = Unit
  IsRedacted (field k v rest) =
      (lower_in k summary_keys ≡ true → v ≡ redacted) × IsClean v × IsRedacted rest

IsClean-if : (b : Bool) (v : Value) → IsClean v → IsClean (if b then redacted else v)
unfolding IsClean
IsClean-if true v h = tt
IsClean-if false v h = h

masked : (b : Bool) (v : Value) → b ≡ true → (if b then redacted else v) ≡ redacted
masked b v h = rw h

mutual
  unfolding redact_value IsClean

  redact_value-IsClean : (v : Value) → IsClean (redact_value v)
  redact_value-IsClean (obj d) = redact_fields-IsRedacted d
  redact_value-IsClean null = tt
  redact_value-IsClean (bool b) = tt
  redact_value-IsClean (int n) = tt
  redact_value-IsClean (float t) = tt
  redact_value-IsClean (str s) = tt
  redact_value-IsClean (arr items) = tt

  redact_fields-IsRedacted : (d : Fields) → IsRedacted (redact_summary d)
  redact_fields-IsRedacted end = tt
  redact_fields-IsRedacted (field k v rest) = (
    masked (lower_in k summary_keys) (redact_value v),
    IsClean-if (lower_in k summary_keys) (redact_value v) (redact_value-IsClean v),
    redact_fields-IsRedacted rest,
  )

-- In a redacted summary no sensitive key, of the dict or of a dict nested in it through dicts,
-- has a value other than the mask.
pub redact_summary-IsRedacted : (d : Fields) → IsRedacted (redact_summary d)
redact_summary-IsRedacted d = redact_fields-IsRedacted d
