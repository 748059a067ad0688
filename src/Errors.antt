-- ===== src/Errors.antt =====
-- app/errors.py, and the other exceptions that reach app/api/exception_handlers.py: what a method
-- raises, and the HTTP status that the handlers answer with.
use e_bank_api.Prelude.{ℕ, String}

pub data Error : Type 0 where
  -- app/errors.py
  account_not_found : String → Error
  insufficient_funds : String → Error
  invalid_amount : Error
  forbidden_account_access : String → Error
  transfer_limit_exceeded : Error
  same_account_transfer : Error
  onboarding_error : String → Error
  onboarding_not_started : Error
  -- app/services/ledger.py
  ledger_error : String → Error
  idempotent_replay : String → Error
  -- app/core/exceptions.py, app/core/rate_limit.py
  duplicate_request : String → Error
  idempotency_storage : Error
  rate_limit_exceeded : ℕ → Error
  -- app/auth/oidc.py, and FastAPI's HTTPException by its status
  auth_error : String → Error
  http_exception : ℕ → Error
  -- raised by the database session: a violated constraint, and a statement in a transaction that
  -- a failed flush has ended
  integrity_error : Error
  pending_rollback : Error
  -- raised by `scalar_one_or_none` when there is more than one row
  multiple_results : Error
  -- raised by Python: decimal.InvalidOperation, ValueError, IndexError, AssertionError, OverflowError,
  -- RuntimeError
  invalid_operation : Error
  value_error : Error
  index_error : Error
  assertion_error : Error
  overflow_error : Error
  runtime_error : String → Error
  -- raised by botocore
  client_error : Error

-- The status of the answer: a `DomainError` has its class's `status_code`; what no handler knows
-- is answered by `handle_unhandled_exception`.
unfoldable pub status_code : Error → ℕ
status_code (account_not_found _) = 404
status_code (insufficient_funds _) = 400
status_code invalid_amount = 400
status_code (forbidden_account_access _) = 403
status_code transfer_limit_exceeded = 400
status_code same_account_transfer = 400
status_code (onboarding_error _) = 400
status_code onboarding_not_started = 400
status_code (ledger_error _) = 400
status_code (duplicate_request _) = 409
status_code idempotency_storage = 503
status_code (rate_limit_exceeded _) = 429
status_code (http_exception n) = n
status_code _ = 500
