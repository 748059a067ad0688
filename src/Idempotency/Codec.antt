-- ===== src/Idempotency/Codec.antt =====
-- A stored record reads back as it was.
use e_bank_api.Prelude.{ℕ, String, Option, none, some, ◌≡◌, refl}
use e_bank_api.Json.{Value}
use e_bank_api.Models.{ok}
use e_bank_api.Idempotency.{
  IdempotencyStatus, processing, completed, failed, IdempotencyRecord, to_dict, from_dict,
}

-- The record, field by field.
abbrev of_fields :
    IdempotencyStatus → String → Option ℕ → Value → String → Option String → ℕ → IdempotencyRecord
of_fields status h code body created at n = record {
  status = status;
  request_hash = h;
  response_status_code = code;
  response_body = body;
  created_at = created;
  completed_at = at;
  attempt_count = n;
}

by_fields :
    (status : IdempotencyStatus) (h : String) (code : Option ℕ) (body : Value) (created : String)
    (at : Option String) (n : ℕ)
    → from_dict (to_dict (of_fields status h code body created at n))
      ≡ ok (of_fields status h code body created at n)
unfolding from_dict to_dict
by_fields processing h none body created none n = refl
by_fields processing h none body created (some _) n = refl
by_fields processing h (some _) body created none n = refl
by_fields processing h (some _) body created (some _) n = refl
by_fields completed h none body created none n = refl
by_fields completed h none body created (some _) n = refl
by_fields completed h (some _) body created none n = refl
by_fields completed h (some _) body created (some _) n = refl
by_fields failed h none body created none n = refl
by_fields failed h none body created (some _) n = refl
by_fields failed h (some _) body created none n = refl
by_fields failed h (some _) body created (some _) n = refl

-- Reading the dict of a record gives the record.
pub from_dict-to_dict : (r : IdempotencyRecord) → from_dict (to_dict r) ≡ ok r
from_dict-to_dict r =
    by_fields r.status r.request_hash r.response_status_code r.response_body r.created_at
      r.completed_at r.attempt_count
