-- ===== src/Idempotency.antt =====
-- app/core/idempotency.py: records of requests in Redis.
pub mod Codec
pub mod Effects
use e_bank_api.Prelude.{
  ℕ, ◌+◌, String, ◌==◌, Bool, true, false, Option, none, some, List, [], ◌∷◌, ltb, if◌then◌else◌,
  is_some,
}
use e_bank_api.Prelude.Int.{ℤ, pos, negsuc}
use e_bank_api.Errors.{Error, idempotency_storage, duplicate_request, value_error}
use e_bank_api.Models.{Outcome, ok, err, Exec, pure, raise, gets, lift, ◌then◌, ◌>>=◌, ◌>>◌}
use e_bank_api.Json.{
  Value, null, bool, int, float, str, arr, obj, Fields, end, field, get_field,
  sanitize_sensitive_fields,
}
use e_bank_api.Canonical.{Numerals}
use e_bank_api.Redis
use e_bank_api.Redis.{Redis}

pub data IdempotencyStatus : Type 0 where
  processing completed failed : IdempotencyStatus

pub record IdempotencyRecord : Type 0 where
  pub status : IdempotencyStatus
  pub request_hash : String
  pub response_status_code : Option ℕ
  pub response_body : Value
  pub created_at : String
  pub completed_at : Option String
  pub attempt_count : ℕ

pub status_text : IdempotencyStatus → String
status_text processing = "PROCESSING"
status_text completed = "COMPLETED"
status_text failed = "FAILED"

abbrev optional_int : Option ℕ → Value
optional_int none = null
optional_int (some n) = int (pos n)

abbrev optional_str : Option String → Value
optional_str none = null
optional_str (some s) = str s

unfoldable pub to_dict : IdempotencyRecord → Value
unfolding status_text
to_dict r = obj (
    field "status" (str (status_text r.status)) (
      field "request_hash" (str r.request_hash) (
        field "response_status_code" (optional_int r.response_status_code) (
          field "response_body" r.response_body (
            field "created_at" (str r.created_at) (
              field "completed_at" (optional_str r.completed_at)
                (field "attempt_count" (int (pos r.attempt_count)) end)))))))

-- `IdempotencyStatus(text)`
parse_status : String → Outcome IdempotencyStatus
parse_status s =
    if s == "PROCESSING"
    then ok processing
    else if s == "COMPLETED"
    then ok completed
    else if s == "FAILED"
    then ok failed
    else err value_error

-- A field read at the type that the record declares for it; a stored record of another type is
-- taken for an error.
read_status : Option Value → Outcome IdempotencyStatus
unfolding parse_status
read_status (some (str s)) = parse_status s
read_status _ = err value_error

read_str : Option Value → Outcome String
read_str (some (str s)) = ok s
read_str _ = err value_error

read_optional_int : Option Value → Outcome (Option ℕ)
read_optional_int none = ok none
read_optional_int (some null) = ok none
read_optional_int (some (int (pos n))) = ok (some n)
read_optional_int _ = err value_error

read_optional_str : Option Value → Outcome (Option String)
read_optional_str none = ok none
read_optional_str (some null) = ok none
read_optional_str (some (str s)) = ok (some s)
read_optional_str _ = err value_error

read_created : Option Value → Outcome String
read_created none = ok ""
read_created (some (str s)) = ok s
read_created _ = err value_error

read_body : Option Value → Value
read_body none = null
read_body (some v) = v

read_count : Option Value → Outcome ℕ
read_count none = ok 1
read_count (some (int (pos n))) = ok n
read_count _ = err value_error

read_fields : Fields → Outcome IdempotencyRecord
unfolding read_status read_str read_optional_int read_optional_str read_created read_body read_count
    get_field
read_fields d = read_status (get_field "status" d) then λ status.
    read_str (get_field "request_hash" d) then λ request_hash.
    read_optional_int (get_field "response_status_code" d) then λ code.
    read_created (get_field "created_at" d) then λ created_at.
    read_optional_str (get_field "completed_at" d) then λ completed_at.
    read_count (get_field "attempt_count" d) then λ attempt_count. ok (record {
      status = status;
      request_hash = request_hash;
      response_status_code = code;
      response_body = read_body (get_field "response_body" d);
      created_at = created_at;
      completed_at = completed_at;
      attempt_count = attempt_count;
    })

unfoldable pub from_dict : Value → Outcome IdempotencyRecord
unfolding read_fields
from_dict (obj d) = read_fields d
from_dict null = err value_error
from_dict (bool _) = err value_error
from_dict (int _) = err value_error
from_dict (float _) = err value_error
from_dict (str _) = err value_error
from_dict (arr _) = err value_error

-- The settings of the service, and what it takes from libraries: Python's clock as text, its numbers,
-- `str.upper`, and SHA-256 of `json.dumps` with sorted keys.
pub record Config : Type 0 where
  pub ttl_processing : ℕ
  pub ttl_completed : ℕ
  pub iso : ℕ → String
  pub numerals : Numerals
  pub upper : String → String
  pub digest : Value → String

decode : Option Value → Outcome (Option IdempotencyRecord)
decode none = ok none
decode (some v) = from_dict v then λ r. ok (some r)

unfoldable pub check : String → Exec Redis (Option IdempotencyRecord)
unfolding decode from_dict Redis.get
check k = do raw ← Redis.get k; lift (decode raw)

unfoldable pub new_record : IdempotencyStatus → String → String → ℕ → IdempotencyRecord
new_record status request_hash created_at attempt_count = record {
  status = status;
  request_hash = request_hash;
  response_status_code = none;
  response_body = null;
  created_at = created_at;
  completed_at = none;
  attempt_count = attempt_count;
}

-- `sanitize_sensitive_fields` is for dicts.
unfoldable pub sanitized : Value → Value
unfolding sanitize_sensitive_fields
sanitized (obj d) = obj (sanitize_sensitive_fields d)
sanitized null = null
sanitized (bool b) = bool b
sanitized (int n) = int n
sanitized (float t) = float t
sanitized (str s) = str s
sanitized (arr items) = arr items

module _ (c : Config) where
  unfoldable pub set_processing : String → String → Exec Redis (Unit {0})
  unfolding new_record to_dict Redis.set_nx
  set_processing k request_hash = do
    now ← gets (λ r. r.now)
    created ←
        Redis.set_nx k (to_dict (new_record processing request_hash (c.iso now) 1)) c.ttl_processing
    if created then pure tt else raise (duplicate_request k)

  -- The record that `set_completed` stores, from the one that is there.
  unfoldable pub completed_record : Option IdempotencyRecord → ℕ → Value → ℕ → IdempotencyRecord
  unfolding sanitized
  completed_record none code body now = record {
    status = completed;
    request_hash = "";
    response_status_code = some code;
    response_body = sanitized body;
    created_at = c.iso now;
    completed_at = some (c.iso now);
    attempt_count = 1;
  }
  completed_record (some old) code body now = record {
    status = completed;
    request_hash = old.request_hash;
    response_status_code = some code;
    response_body = sanitized body;
    created_at = old.created_at;
    completed_at = some (c.iso now);
    attempt_count = old.attempt_count;
  }

  unfoldable pub set_completed : String → ℕ → Value → Exec Redis (Unit {0})
  unfolding check completed_record to_dict Redis.set
  set_completed k code body = do
    existing ← check k
    now ← gets (λ r. r.now)
    Redis.set k (to_dict (completed_record existing code body now)) c.ttl_completed

  failed_record : Option IdempotencyRecord → ℕ → IdempotencyRecord
  failed_record none now = new_record failed "" (c.iso now) 1
  failed_record (some old) now = new_record failed old.request_hash old.created_at old.attempt_count

  unfoldable pub mark_failed : String → Exec Redis (Unit {0})
  unfolding check failed_record new_record to_dict Redis.set
  mark_failed k = do
    existing ← check k
    now ← gets (λ r. r.now)
    Redis.set k (to_dict (failed_record existing now)) c.ttl_processing

  attempt_ttl : IdempotencyStatus → ℕ
  attempt_ttl completed = c.ttl_completed
  attempt_ttl processing = c.ttl_processing
  attempt_ttl failed = c.ttl_processing

  attempted : String → Option IdempotencyRecord → Exec Redis (Unit {0})
  attempted k none = pure tt
  attempted k (some r) =
      Redis.set k (to_dict (record r { attempt_count = r.attempt_count + 1 }))
        (attempt_ttl r.status)

  unfoldable pub increment_attempt : String → Exec Redis (Unit {0})
  unfolding check attempted attempt_ttl to_dict Redis.set
  increment_attempt k = do r ← check k; attempted k r

-- `set_failed` deletes the key.
unfoldable pub set_failed : String → Exec Redis (Unit {0})
unfolding Redis.delete
set_failed k = Redis.delete k
