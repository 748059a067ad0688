-- ===== src/Routes/Steps.antt =====
-- What a request does to the database: nothing, or one step of Requests.
use e_bank_api.Prelude.{ℕ, String, Option, none, ◌≡◌}
use e_bank_api.Models.{Db, Env, Action}
use e_bank_api.Models.Keeps.{Keeps, keeps_rules}
use e_bank_api.Auth.{Principal}
use e_bank_api.Requests.{committed, Step, here}
use e_bank_api.Routes.{
  EventIn, Filters, OnboardingDocumentIn, OnboardingCompleteIn, TransferResolveIn, TransferIn,
  Service, Incoming, Call, Backend, in_session,
}
use e_bank_api.Routes.Answers.{
  onboarding_start_route, open_account_route, my_accounts_route, receipt_route,
  onboarding_complete_route, my_account_route, export_csv_route, my_transaction_detail_route,
  export_pdf_route, balance_route, event_route, my_transactions_route, my_account_detail_route,
  withdraw_route, reset_route, onboarding_skip_route, cep_lookup_route, onboarding_status_route,
  onboarding_consent_route, onboarding_documents_route, transfer_resolve_route, transfer_route,
  bootstrap_route,
}
use e_bank_api.Routes.Serve.{serve}
use e_bank_api.Routes.Within.{
  Within, Keeps-reading_session, Keeps-reading, Keeps-on_receipts, Keeps-accepted,
  Keeps-enforce_rate_limit, Keeps-in_session, Keeps-signed_in, Keeps-legacy, resolving_state,
  get_balance_state,
}

module _ (sv : Service) (env : Env) (first : Db) where
  abbrev P : Backend → Type 0
  P = Within sv.bank first

  Keeps-in_bank :
      {A : Type 0} (m : Action A)
      → ((db : Db) → Step sv.bank env db (committed m db))
      → Keeps P (in_session m)
  Keeps-in_bank m step = Keeps-in_session sv.bank env first m step

  ruleset route_rules = (
    keeps_rules, Keeps-on_receipts, Keeps-reading, Keeps-accepted, Keeps-enforce_rate_limit,
    Keeps-in_bank,
  )

  Keeps-bootstrap : (p : Principal) → Keeps P (bootstrap_route sv p)
  unfolding bootstrap_route
  Keeps-bootstrap p = search route_rules depth 12

  Keeps-transfer_resolve :
      (p : Principal) (b : TransferResolveIn) → Keeps P (transfer_resolve_route sv p b)
  unfolding transfer_resolve_route
  Keeps-transfer_resolve p b =
      search
        (
          route_rules,
          Keeps-reading_session,
          resolving_state sv.bank.transfers.texts p.subject b.account b.document,
        )
        depth 14

  Keeps-transfer :
      (q : Incoming) (p : Principal) (b : TransferIn) → Keeps P (transfer_route sv env q p b)
  unfolding transfer_route
  Keeps-transfer q p b = search (route_rules, Step.transfer) depth 14

  Keeps-my_account : (p : Principal) → Keeps P (my_account_route sv p)
  unfolding my_account_route
  Keeps-my_account p = search route_rules depth 14

  Keeps-my_accounts : (p : Principal) → Keeps P (my_accounts_route sv p)
  unfolding my_accounts_route
  Keeps-my_accounts p = search route_rules depth 14

  Keeps-my_account_detail :
      (p : Principal) (display : String) → Keeps P (my_account_detail_route sv p display)
  unfolding my_account_detail_route
  Keeps-my_account_detail p display = search route_rules depth 14

  Keeps-my_transactions :
      (p : Principal) (limit : ℕ) (cursor id : Option String) (f : Filters)
      → Keeps P (my_transactions_route sv p limit cursor id f)
  unfolding my_transactions_route
  Keeps-my_transactions p limit cursor id f = search route_rules depth 14

  Keeps-my_transaction_detail :
      (p : Principal) (id : String) → Keeps P (my_transaction_detail_route sv p id)
  unfolding my_transaction_detail_route
  Keeps-my_transaction_detail p id = search route_rules depth 14

  Keeps-receipt : (p : Principal) (id : String) → Keeps P (receipt_route sv p id)
  unfolding receipt_route
  Keeps-receipt p id = search route_rules depth 14

  Keeps-cep_lookup : (p : Principal) (cep : String) → Keeps P (cep_lookup_route sv p cep)
  unfolding cep_lookup_route
  Keeps-cep_lookup p cep = search route_rules depth 14

  Keeps-export_csv :
      (p : Principal) (id : Option String) (f : Filters) → Keeps P (export_csv_route sv p id f)
  unfolding export_csv_route
  Keeps-export_csv p id f = search route_rules depth 14

  Keeps-export_pdf :
      (p : Principal) (id : Option String) (f : Filters) → Keeps P (export_pdf_route sv p id f)
  unfolding export_pdf_route
  Keeps-export_pdf p id f = search route_rules depth 14

  Keeps-open_account : (q : Incoming) (p : Principal) → Keeps P (open_account_route sv env q p)
  unfolding open_account_route
  Keeps-open_account q p = search (route_rules, Step.open_account) depth 14

  Keeps-withdraw :
      (q : Incoming) (p : Principal) (amount : String) → Keeps P (withdraw_route sv env q p amount)
  unfolding withdraw_route
  Keeps-withdraw q p amount = search (route_rules, Step.withdraw) depth 14

  Keeps-onboarding_status :
      (q : Incoming) (p : Principal) (id : Option String)
      → Keeps P (onboarding_status_route sv env q p id)
  unfolding onboarding_status_route
  Keeps-onboarding_status q p id = search (route_rules, Step.get_status) depth 14

  Keeps-onboarding_start :
      (q : Incoming) (p : Principal) (id : Option String)
      → Keeps P (onboarding_start_route sv env q p id)
  unfolding onboarding_start_route
  Keeps-onboarding_start q p id = search (route_rules, Step.start) depth 14

  Keeps-onboarding_skip :
      (q : Incoming) (p : Principal) (id : Option String)
      → Keeps P (onboarding_skip_route sv env q p id)
  unfolding onboarding_skip_route
  Keeps-onboarding_skip q p id = search (route_rules, Step.skip) depth 14

  Keeps-onboarding_consent :
      (q : Incoming) (p : Principal) (policy : String)
      → Keeps P (onboarding_consent_route sv env q p policy)
  unfolding onboarding_consent_route
  Keeps-onboarding_consent q p policy = search (route_rules, Step.consent) depth 14

  Keeps-onboarding_documents :
      (q : Incoming) (p : Principal) (b : OnboardingDocumentIn)
      → Keeps P (onboarding_documents_route sv env q p b)
  unfolding onboarding_documents_route
  Keeps-onboarding_documents q p b = search (route_rules, Step.attach_document) depth 14

  Keeps-onboarding_complete :
      (q : Incoming) (p : Principal) (b : OnboardingCompleteIn)
      → Keeps P (onboarding_complete_route sv env q p b)
  unfolding onboarding_complete_route
  Keeps-onboarding_complete q p b = search (route_rules, Step.complete) depth 14

  Keeps-reset : (q : Incoming) → Keeps P (reset_route sv env q)
  unfolding reset_route
  Keeps-reset q = search (route_rules, Step.reset) depth 14

  Keeps-event : (q : Incoming) (b : EventIn) → Keeps P (event_route sv env q b)
  unfolding event_route
  Keeps-event q b = search (route_rules, Step.event) depth 14

  Keeps-balance : (q : Incoming) (id : String) → Keeps P (balance_route sv env q id)
  unfolding balance_route
  Keeps-balance q id = search (route_rules, Keeps-reading_session, get_balance_state) depth 14

  -- Whatever a request asks for, whoever it is from.
  Keeps-serve : (q : Incoming) (call : Call) → Keeps P (serve sv env q call)
  unfolding serve
  Keeps-serve q Call.health = search keeps_rules
  Keeps-serve q Call.ready = search keeps_rules
  Keeps-serve q Call.demo_meta = search keeps_rules
  Keeps-serve q Call.bootstrap = Keeps-signed_in sv env first q _ (λ p. Keeps-bootstrap p)
  Keeps-serve q Call.my_account = Keeps-signed_in sv env first q _ (λ p. Keeps-my_account p)
  Keeps-serve q Call.my_accounts = Keeps-signed_in sv env first q _ (λ p. Keeps-my_accounts p)
  Keeps-serve q Call.open_account = Keeps-signed_in sv env first q _ (λ p. Keeps-open_account q p)
  Keeps-serve q (Call.my_account_detail display) =
      Keeps-signed_in sv env first q _ (λ p. Keeps-my_account_detail p display)
  Keeps-serve q (Call.my_transactions limit cursor id f) =
      Keeps-signed_in sv env first q _ (λ p. Keeps-my_transactions p limit cursor id f)
  Keeps-serve q (Call.my_transaction_detail id) =
      Keeps-signed_in sv env first q _ (λ p. Keeps-my_transaction_detail p id)
  Keeps-serve q (Call.receipt id) = Keeps-signed_in sv env first q _ (λ p. Keeps-receipt p id)
  Keeps-serve q (Call.cep_lookup cep) =
      Keeps-signed_in sv env first q _ (λ p. Keeps-cep_lookup p cep)
  Keeps-serve q (Call.export_csv id f) =
      Keeps-signed_in sv env first q _ (λ p. Keeps-export_csv p id f)
  Keeps-serve q (Call.export_pdf id f) =
      Keeps-signed_in sv env first q _ (λ p. Keeps-export_pdf p id f)
  Keeps-serve q (Call.transfer_resolve b) =
      Keeps-signed_in sv env first q _ (λ p. Keeps-transfer_resolve p b)
  Keeps-serve q (Call.transfer b) = Keeps-signed_in sv env first q _ (λ p. Keeps-transfer q p b)
  Keeps-serve q (Call.withdraw amount) =
      Keeps-signed_in sv env first q _ (λ p. Keeps-withdraw q p amount)
  Keeps-serve q (Call.onboarding_status id) =
      Keeps-signed_in sv env first q _ (λ p. Keeps-onboarding_status q p id)
  Keeps-serve q (Call.onboarding_start id) =
      Keeps-signed_in sv env first q _ (λ p. Keeps-onboarding_start q p id)
  Keeps-serve q (Call.onboarding_skip id) =
      Keeps-signed_in sv env first q _ (λ p. Keeps-onboarding_skip q p id)
  Keeps-serve q (Call.onboarding_consent policy) =
      Keeps-signed_in sv env first q _ (λ p. Keeps-onboarding_consent q p policy)
  Keeps-serve q (Call.onboarding_documents b) =
      Keeps-signed_in sv env first q _ (λ p. Keeps-onboarding_documents q p b)
  Keeps-serve q (Call.onboarding_complete b) =
      Keeps-signed_in sv env first q _ (λ p. Keeps-onboarding_complete q p b)
  Keeps-serve q Call.reset = Keeps-legacy sv env first q _ (Keeps-reset q)
  Keeps-serve q (Call.balance id) = Keeps-legacy sv env first q _ (Keeps-balance q id)
  Keeps-serve q (Call.event b) = Keeps-legacy sv env first q _ (Keeps-event q b)

-- A request at any route, whoever it is from and whatever it asks for, does to the database what steps
-- of Requests do, or nothing; where no session was open, none is open behind it.
pub serve-Reach :
    (sv : Service) (env : Env) (q : Incoming) (call : Call) (s : Backend)
    → s.db.account_number_pending ≡ none
    → Within sv.bank s.db (serve sv env q call s).1
serve-Reach sv env q call s closed =
    (Keeps-serve sv env s.db q call).after s (record { steps = here; closed = closed })
