-- ===== src/Handlers.antt =====
-- app/api/exception_handlers.py: the answer to an exception that leaves a route. The texts of the
-- bodies are left out: they are a parameter.
use e_bank_api.Prelude.{Option, none, some}
use e_bank_api.Errors.{
  Error, account_not_found, insufficient_funds, invalid_amount, forbidden_account_access,
  transfer_limit_exceeded, same_account_transfer, onboarding_error, onboarding_not_started,
  ledger_error, duplicate_request, idempotency_storage, rate_limit_exceeded, http_exception,
  status_code,
}
use e_bank_api.Models.{Outcome, ok, err}
use e_bank_api.Middleware.{Response, Body, conflict}

module _ (wording : Error → Body) where
  plain : Error → Response
  plain e = record {
    status = status_code e;
    body = wording e;
    key = none;
    mark = none;
    retry_after = none;
  }

  -- The handlers that `register_exception_handlers` registers for classes of exceptions, and
  -- Starlette's own for HTTPException. What none of them knows passes on.
  unfoldable pub handled : Error → Option Response
  unfolding plain status_code
  handled (duplicate_request k) =
      some (record (plain (duplicate_request k)) { key = some k; mark = some conflict })
  handled idempotency_storage = some (plain idempotency_storage)
  handled (rate_limit_exceeded n) =
      some (record (plain (rate_limit_exceeded n)) { retry_after = some n })
  handled (account_not_found id) = some (plain (account_not_found id))
  handled (insufficient_funds id) = some (plain (insufficient_funds id))
  handled invalid_amount = some (plain invalid_amount)
  handled (forbidden_account_access id) = some (plain (forbidden_account_access id))
  handled transfer_limit_exceeded = some (plain transfer_limit_exceeded)
  handled same_account_transfer = some (plain same_account_transfer)
  handled (onboarding_error what) = some (plain (onboarding_error what))
  handled onboarding_not_started = some (plain onboarding_not_started)
  handled (ledger_error what) = some (plain (ledger_error what))
  handled (http_exception n) = some (plain (http_exception n))
  handled _ = none

  -- An exception inside the middleware: it is answered, or goes on.
  unfoldable pub responded : Error → Outcome Response
  unfolding handled
  responded e = elim (handled e) [ some r ↦ ok r | none ↦ err e ]

  -- `handle_unhandled_exception`, which stands outside of all middleware.
  unfoldable pub unhandled : Outcome Response → Response
  unhandled (ok r) = r
  unhandled (err e) = record {
    status = 500;
    body = wording e;
    key = none;
    mark = none;
    retry_after = none;
  }
