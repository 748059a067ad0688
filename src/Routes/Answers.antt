-- ===== src/Routes/Answers.antt =====
-- The functions of app/api/demo.py, app/api/legacy.py and app/api/health.py.
use e_bank_api.Prelude.{ℕ, String, true, not, Option, none, some, map, if◌then◌else◌}
use e_bank_api.Errors.{http_exception, rate_limit_exceeded}
use e_bank_api.Models.{Env, ok, Exec, Action, pure, raise, lift, raise_if, ◌>>=◌, ◌>>◌, ◌then◌}
use e_bank_api.Auth.{Principal, require_bank_write}
use e_bank_api.RateLimit.{Limits, allow}
use e_bank_api.Completion
use e_bank_api.Onboarding
use e_bank_api.Filters.{Filters}
use e_bank_api.Statements
use e_bank_api.Statements.{TransactionDetail}
use e_bank_api.DemoBank
use e_bank_api.Transfers
use e_bank_api.Transfers.{require_onboarded_account}
use e_bank_api.Recipients.{resolve}
use e_bank_api.Events
use e_bank_api.Events.{EventIn}
use e_bank_api.Legacy
use e_bank_api.Schemas.{
  TransferIn, TransferResolveIn, OnboardingDocumentIn, OnboardingCompleteIn, is_valid_transfer,
  is_valid_resolve, is_valid_consent, is_valid_document, is_valid_application,
}
use e_bank_api.PostalCodes.{lookup}
use e_bank_api.Validation.{Texts}
use e_bank_api.Recipients.{ResolvedRecipient}
use e_bank_api.Routes.{
  get_receipt_pdf, on_receipts, build_statement_csv, Service, Incoming, Answer, readiness, meta,
  account, accounts, page, detail, receipt_file, csv_file, pdf_file, recipient, transferred,
  withdrawn, address, wizard, consented, text, moved, Backend, in_session, reading, on_counters,
  client_of, demo_account_out, last_shown, accepted, transfer_args, recipient_out, email_of,
  features,
}

-- What `transfer_resolve` does in its session.
unfoldable pub resolving : Texts → String → Option String → Option String → Action ResolvedRecipient
resolving t subject number document = do
  require_onboarded_account subject
  resolve t number document

module _ (sv : Service) where
  unfoldable pub limited : Option Limits → Principal → Exec Backend (Unit {0})
  limited none p = raise (rate_limit_exceeded sv.rate_limit_window_seconds)
  limited (some l) p = do
    a ← on_counters (allow l p.subject)
    raise_if (not (a.0)) (rate_limit_exceeded (a.2))

  -- `_enforce_rate_limit`
  unfoldable pub enforce_rate_limit : Principal → Exec Backend (Unit {0})
  unfolding limited
  enforce_rate_limit p = if sv.rate_limit_enabled then limited sv.rate_limiter p else pure tt

  unfoldable pub demo_meta_route : Answer
  demo_meta_route = meta (record {
    demo = true;
    welcome_amount = sv.bank.demo.opening.welcome_amount;
    currency = sv.bank.transfers.welcome_currency;
    disclaimer = sv.demo_disclaimer;
    features = features;
  })

  -- `ready`: the status is 200 or 503.
  unfoldable pub ready_route : Answer
  ready_route = readiness sv.database_up sv.idempotency_enabled

  unfoldable pub bootstrap_route : Principal → Exec Backend Answer
  unfolding enforce_rate_limit demo_account_out
  bootstrap_route p = do
    enforce_rate_limit p
    view ← reading (DemoBank.bootstrap sv.bank.demo p.subject)
    pure (account (demo_account_out view))

  unfoldable pub my_account_route : Principal → Exec Backend Answer
  unfolding demo_account_out
  my_account_route p = do
    view ← reading (DemoBank.get_my_account sv.bank.demo p.subject)
    pure (account (demo_account_out view))

  unfoldable pub my_accounts_route : Principal → Exec Backend Answer
  unfolding demo_account_out
  my_accounts_route p = do
    items ← reading (λ db. ok (DemoBank.list_accounts sv.bank.demo p.subject db))
    pure (accounts (map demo_account_out items))

  unfoldable pub my_account_detail_route : Principal → String → Exec Backend Answer
  unfolding demo_account_out
  my_account_detail_route p display = do
    view ← reading (DemoBank.get_account_by_display sv.bank.demo p.subject display)
    pure (account (demo_account_out view))

  unfoldable pub my_transactions_route :
      Principal → ℕ → Option String → Option String → Filters → Exec Backend Answer
  unfolding last_shown
  my_transactions_route p limit cursor id f = do
    items ← reading (Statements.list_transactions sv.clerk p.subject limit cursor id f)
    pure (page items (last_shown items))

  unfoldable pub my_transaction_detail_route : Principal → String → Exec Backend Answer
  my_transaction_detail_route p public_id = do
    found ← reading (Statements.get_transaction sv.clerk p.subject public_id)
    pure (detail found)

  unfoldable pub receipt_route : Principal → String → Exec Backend Answer
  receipt_route p public_id = do
    file ← on_receipts (get_receipt_pdf sv.files sv.clerk p.subject public_id)
    pure (receipt_file (file.0) (file.1))

  unfoldable pub export_csv_route : Principal → Option String → Filters → Exec Backend Answer
  export_csv_route p id f = do
    statement ← reading (Statements.export_statement sv.clerk p.subject id f)
    pure (csv_file (build_statement_csv sv.sheet statement.rows))

  unfoldable pub export_pdf_route : Principal → Option String → Filters → Exec Backend Answer
  export_pdf_route p id f = do
    statement ← reading (Statements.export_statement sv.clerk p.subject id f)
    pure (pdf_file statement)

  unfoldable pub transfer_resolve_route : Principal → TransferResolveIn → Exec Backend Answer
  unfolding enforce_rate_limit recipient_out
  transfer_resolve_route p b = do
    accepted (is_valid_resolve b)
    enforce_rate_limit p
    found ← in_session (resolving sv.bank.transfers.texts p.subject b.account b.document)
    pure (recipient (recipient_out found))

  unfoldable pub cep_lookup_route : Principal → String → Exec Backend Answer
  unfolding enforce_rate_limit
  cep_lookup_route p cep = do
    enforce_rate_limit p
    found ← lift (lookup sv.oidc sv.bank.transfers.texts sv.get_cep cep)
    pure (address found)

  -- The routes that write.
  module _ (env : Env) (q : Incoming) where
    unfoldable pub open_account_route : Principal → Exec Backend Answer
    unfolding enforce_rate_limit demo_account_out
    open_account_route p = do
      enforce_rate_limit p
      view ← in_session (DemoBank.open_additional_account sv.bank.demo env p.subject)
      pure (account (demo_account_out view))

    unfoldable pub transfer_route : Principal → TransferIn → Exec Backend Answer
    unfolding enforce_rate_limit transfer_args
    transfer_route p b = do
      accepted (is_valid_transfer b)
      enforce_rate_limit p
      result ← in_session (Transfers.transfer sv.bank.transfers env p.subject (transfer_args q b))
      pure (transferred result)

    unfoldable pub withdraw_route : Principal → String → Exec Backend Answer
    unfolding enforce_rate_limit client_of
    withdraw_route p amount = do
      enforce_rate_limit p
      result ←
          in_session
            (DemoBank.withdraw sv.bank.demo env p.subject amount q.idempotency_key (client_of q))
      pure (withdrawn result)

    unfoldable pub onboarding_status_route : Principal → Option String → Exec Backend Answer
    onboarding_status_route p id = do
      status ← in_session (Onboarding.get_status env sv.bank.demo.opening.numbering p.subject id)
      pure (wizard status)

    unfoldable pub onboarding_start_route : Principal → Option String → Exec Backend Answer
    onboarding_start_route p id = do
      status ← in_session (Onboarding.start env sv.bank.demo.opening.numbering p.subject id)
      pure (wizard status)

    unfoldable pub onboarding_consent_route : Principal → String → Exec Backend Answer
    onboarding_consent_route p policy = do
      accepted (is_valid_consent policy)
      agreed ← in_session (Onboarding.consent p.subject policy)
      pure (consented agreed)

    unfoldable pub onboarding_skip_route : Principal → Option String → Exec Backend Answer
    unfolding enforce_rate_limit demo_account_out client_of
    onboarding_skip_route p id = do
      enforce_rate_limit p
      view ← in_session (
          Completion.skip_and_open sv.bank.demo.opening env p.subject (email_of p) none id
            (client_of q))
      pure (account (demo_account_out view))

    unfoldable pub onboarding_documents_route :
        Principal → OnboardingDocumentIn → Exec Backend Answer
    onboarding_documents_route p b = do
      accepted (is_valid_document b)
      status ← in_session (
          Onboarding.attach_document env sv.bank.demo.opening.numbering p.subject b.doc_type
            b.pde_extraction_id b.summary b.account_id)
      pure (wizard status)

    unfoldable pub onboarding_complete_route :
        Principal → OnboardingCompleteIn → Exec Backend Answer
    unfolding enforce_rate_limit demo_account_out client_of
    onboarding_complete_route p b = do
      accepted (is_valid_application b)
      enforce_rate_limit p
      view ← in_session (
          Completion.complete sv.bank.demo.opening env p.subject b (email_of p) b.account_id
            (client_of q))
      pure (account (demo_account_out view))

    -- The routes of the integer service, which are there only when they are mounted.
    unfoldable pub legacy : Exec Backend Answer → Exec Backend Answer
    legacy route =
        if sv.mount_legacy
        then (do _ ← lift (require_bank_write sv.oidc q.auth); route)
        else raise (http_exception 404)

    unfoldable pub reset_route : Exec Backend Answer
    reset_route = do
      done ← in_session (Events.reset sv.reset_allowed sv.postgresql)
      pure (text done)

    unfoldable pub balance_route : String → Exec Backend Answer
    balance_route id = do value ← in_session (Legacy.get_balance id); pure (text (sv.show value))

    unfoldable pub event_route : EventIn → Exec Backend Answer
    event_route b = do done ← in_session (Events.event env b); pure (moved done)
