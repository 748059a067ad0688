-- ===== src/Tests/MiddlewareTests.antt =====
-- Requests behind the middleware, and its theorems at them.
use e_bank_api.Prelude.{inr, false, ℕ, ◌+◌, String, ◌≡◌, refl, true, none, some, [], ◌∷◌, arith}
use e_bank_api.Prelude.Int.{pos}
use e_bank_api.Errors.{account_not_found}
use e_bank_api.Models.{ok, err, Exec}
use e_bank_api.Json.{str, int, obj, end, field}
use e_bank_api.Redis.{Redis, store}
use e_bank_api.Idempotency.{IdempotencyRecord, processing, Config, new_record, to_dict, from_dict}
use e_bank_api.Idempotency.Codec.{from_dict-to_dict}
use e_bank_api.Canonical.{
  monetary, excluded_key, normalize_decimal, canonicalize_dict, canonicalize_value,
  normalize_financial_payload,
}
use e_bank_api.Middleware.{
  route, request_hash, key_of, Request, Response, json, World, guarded, cached_response,
  acquire_lock,
}
use e_bank_api.Middleware.Once.{
  SameRequest, guarded_once, guarded_conflict, guarded_failure, guarded_closed,
}
use e_bank_api.Middleware.Guarded.{closing, locked}

abbrev pub config : Config
config = record {
  ttl_processing = 30;
  ttl_completed = 86400;
  iso = λ n. "now";
  numerals = record { text = λ v. "5"; quantize = λ s. some "5.00"; is_zero = λ s. false };
  upper = λ s. s;
  digest = λ v. "digest";
}

abbrev pub request : Request
request = record {
  method = "POST";
  path = "/api/v1/transfers";
  query = "";
  payload = field "amount" (int (pos 5)) end;
  user = some "alice";
  client_key = "one";
}

abbrev same_request : Request
same_request = record request { payload = field "amount" (str "5.00") end; client_key = "two" }

abbrev created : Response
created = record {
  status = 201;
  body = json (obj end);
  key = none;
  mark = none;
  retry_after = none;
}

-- An application that counts its requests.
abbrev counting : Exec ℕ Response
counting n = (ok created, n + 1)

abbrev failing : Exec ℕ Response
failing n = (err (account_not_found "a1"), n)

abbrev pub calm_redis : Redis
calm_redis = record { entries = λ k. none; now = 100; faults = [] }

abbrev world : World ℕ
world = record { redis = calm_redis; app = 0 }

abbrev key1 : String
key1 = key_of config request "alice" "digest"

hashed : request_hash config request "alice" ≡ ok "digest"
unfolding request_hash normalize_financial_payload canonicalize_dict canonicalize_value monetary
    normalize_decimal route excluded_key
hashed = refl

-- The amounts 5 and "5.00" are one.
same : SameRequest config request same_request
unfolding normalize_financial_payload canonicalize_dict canonicalize_value monetary
    normalize_decimal route excluded_key
same = record { same_method = refl; same_path = refl; same_query = refl; same_payload = refl }

guarded_once_example :
    let after = (guarded config request "alice" counting world).1 in
    let later = record after { redis = record after.redis { now = 5000 } } in
    guarded config same_request "alice" counting later ≡ (
      ok (cached_response config key1 (closing config key1 "digest" counting world created)),
      later,
    )
guarded_once_example =
    guarded_once config request same_request "alice" "digest" counting counting world created 1 5000
      hashed same refl refl (omega arith) refl refl (omega arith)

-- The record of a request that runs.
abbrev running : IdempotencyRecord
running = new_record processing "digest" "now" 1

guarded_conflict_example :
    let running = (acquire_lock config key1 "digest" world).1 in
    let later : World ℕ = record { redis = record running.redis { now = 129 }; app = 7 } in
    (response : Response) × (guarded config same_request "alice" counting later
      ≡ (ok response, later))
    × (response.status ≡ 409)
guarded_conflict_example =
    guarded_conflict config request same_request "alice" "digest" counting world 7 129 hashed same
      refl refl (omega arith)

guarded_failure_example : guarded config request "alice" failing world ≡ (
  err (account_not_found "a1"),
  record { redis = store key1 none (locked config key1 "digest" failing world); app = 0 },
)
guarded_failure_example =
    guarded_failure config request "alice" "digest" failing hashed world
      (err (account_not_found "a1")) 0 refl refl refl (λ response e. absurd (cc))

-- Redis with a fault at the second command, the lock.
abbrev down : World ℕ
down = record world { redis = record calm_redis { faults = false ∷ true ∷ [] } }

guarded_closed_example :
    (response : Response) × (guarded config request "alice" counting down
      ≡ (ok response, record down { redis = record calm_redis { faults = [] } }))
    × (response.status ≡ 503)
guarded_closed_example =
    guarded_closed config request "alice" "digest" counting hashed down [] (inr (refl, refl))

from_dict-to_dict_example : from_dict (to_dict running) ≡ ok running
from_dict-to_dict_example = from_dict-to_dict running
