-- ===== src/Routes/Atomic.antt =====
-- A request that raises leaves the database as it was, for every route of app/api.
use e_bank_api.Prelude.{ℕ, String, Option, none, some, ◌≡◌}
use e_bank_api.Errors.{Error}
use e_bank_api.Models.{Env, Exec, err}
use e_bank_api.Routes.{
  OnboardingDocumentIn, TransferResolveIn, EventIn, TransferIn, Filters, OnboardingCompleteIn,
  Principal, Limits, Service, Incoming, Call, Answer, Backend,
}
use e_bank_api.Routes.Answers.{
  my_account_detail_route, withdraw_route, my_accounts_route, my_transactions_route,
  cep_lookup_route, onboarding_status_route, onboarding_complete_route, balance_route,
  my_transaction_detail_route, bootstrap_route, transfer_route, export_csv_route,
  transfer_resolve_route, onboarding_start_route, onboarding_consent_route, export_pdf_route,
  my_account_route, onboarding_documents_route, open_account_route, event_route,
  onboarding_skip_route, receipt_route, reset_route, enforce_rate_limit, limited, legacy,
}
use e_bank_api.Routes.Serve.{serve, signed_in}
use e_bank_api.Routes.Undone.{
  IsAside, IsUndone, aside_rules, IsUndone-aside, IsUndone-in_session, IsUndone-bind,
  IsUndone-answer, IsUndone-if, IsAside-lift,
}

module _ (sv : Service) where
  IsAside-limited : (l : Option Limits) (p : Principal) → IsAside (limited sv l p)
  unfolding limited
  IsAside-limited none p = search aside_rules
  IsAside-limited (some l) p = search aside_rules depth 12

  IsAside-enforce_rate_limit : (p : Principal) → IsAside (enforce_rate_limit sv p)
  unfolding enforce_rate_limit
  IsAside-enforce_rate_limit p = search (aside_rules, IsAside-limited) depth 12

ruleset undone_rules = (
  aside_rules, IsAside-enforce_rate_limit, IsUndone-aside, IsUndone-in_session, IsUndone-bind,
  IsUndone-answer,
)

module _ (sv : Service) (env : Env) (q : Incoming) where
  IsUndone-signed_in :
      (route : Principal → Exec Backend Answer)
      → ((p : Principal) → IsUndone (route p))
      → IsUndone (signed_in sv env q route)
  unfolding signed_in
  IsUndone-signed_in route each = IsUndone-bind _ _ (IsAside-lift _) each

  IsUndone-legacy :
      (route : Exec Backend Answer) → IsUndone route → IsUndone (legacy sv env q route)
  unfolding legacy
  IsUndone-legacy route each =
      IsUndone-if sv.mount_legacy _ _ (IsUndone-bind _ _ (IsAside-lift _) (λ _. each))
        (search undone_rules)

  IsUndone-bootstrap : (p : Principal) → IsUndone (bootstrap_route sv p)
  unfolding bootstrap_route
  IsUndone-bootstrap p = search undone_rules depth 14

  IsUndone-my_account : (p : Principal) → IsUndone (my_account_route sv p)
  unfolding my_account_route
  IsUndone-my_account p = search undone_rules depth 14

  IsUndone-my_accounts : (p : Principal) → IsUndone (my_accounts_route sv p)
  unfolding my_accounts_route
  IsUndone-my_accounts p = search undone_rules depth 14

  IsUndone-my_account_detail :
      (p : Principal) (display : String) → IsUndone (my_account_detail_route sv p display)
  unfolding my_account_detail_route
  IsUndone-my_account_detail p display = search undone_rules depth 14

  IsUndone-my_transactions :
      (p : Principal) (limit : ℕ) (cursor id : Option String) (f : Filters)
      → IsUndone (my_transactions_route sv p limit cursor id f)
  unfolding my_transactions_route
  IsUndone-my_transactions p limit cursor id f = search undone_rules depth 14

  IsUndone-my_transaction_detail :
      (p : Principal) (id : String) → IsUndone (my_transaction_detail_route sv p id)
  unfolding my_transaction_detail_route
  IsUndone-my_transaction_detail p id = search undone_rules depth 14

  IsUndone-receipt : (p : Principal) (id : String) → IsUndone (receipt_route sv p id)
  unfolding receipt_route
  IsUndone-receipt p id = search undone_rules depth 14

  IsUndone-cep_lookup : (p : Principal) (cep : String) → IsUndone (cep_lookup_route sv p cep)
  unfolding cep_lookup_route
  IsUndone-cep_lookup p cep = search undone_rules depth 14

  IsUndone-export_csv :
      (p : Principal) (id : Option String) (f : Filters) → IsUndone (export_csv_route sv p id f)
  unfolding export_csv_route
  IsUndone-export_csv p id f = search undone_rules depth 14

  IsUndone-export_pdf :
      (p : Principal) (id : Option String) (f : Filters) → IsUndone (export_pdf_route sv p id f)
  unfolding export_pdf_route
  IsUndone-export_pdf p id f = search undone_rules depth 14

  IsUndone-transfer_resolve :
      (p : Principal) (b : TransferResolveIn) → IsUndone (transfer_resolve_route sv p b)
  unfolding transfer_resolve_route
  IsUndone-transfer_resolve p b = search undone_rules depth 14

  IsUndone-open_account : (p : Principal) → IsUndone (open_account_route sv env q p)
  unfolding open_account_route
  IsUndone-open_account p = search undone_rules depth 14

  IsUndone-transfer : (p : Principal) (b : TransferIn) → IsUndone (transfer_route sv env q p b)
  unfolding transfer_route
  IsUndone-transfer p b = search undone_rules depth 14

  IsUndone-withdraw :
      (p : Principal) (amount : String) → IsUndone (withdraw_route sv env q p amount)
  unfolding withdraw_route
  IsUndone-withdraw p amount = search undone_rules depth 14

  IsUndone-onboarding_status :
      (p : Principal) (id : Option String) → IsUndone (onboarding_status_route sv env q p id)
  unfolding onboarding_status_route
  IsUndone-onboarding_status p id = search undone_rules depth 14

  IsUndone-onboarding_start :
      (p : Principal) (id : Option String) → IsUndone (onboarding_start_route sv env q p id)
  unfolding onboarding_start_route
  IsUndone-onboarding_start p id = search undone_rules depth 14

  IsUndone-onboarding_skip :
      (p : Principal) (id : Option String) → IsUndone (onboarding_skip_route sv env q p id)
  unfolding onboarding_skip_route
  IsUndone-onboarding_skip p id = search undone_rules depth 14

  IsUndone-onboarding_consent :
      (p : Principal) (policy : String) → IsUndone (onboarding_consent_route sv env q p policy)
  unfolding onboarding_consent_route
  IsUndone-onboarding_consent p policy = search undone_rules depth 14

  IsUndone-onboarding_documents :
      (p : Principal) (b : OnboardingDocumentIn)
      → IsUndone (onboarding_documents_route sv env q p b)
  unfolding onboarding_documents_route
  IsUndone-onboarding_documents p b = search undone_rules depth 14

  IsUndone-onboarding_complete :
      (p : Principal) (b : OnboardingCompleteIn) → IsUndone (onboarding_complete_route sv env q p b)
  unfolding onboarding_complete_route
  IsUndone-onboarding_complete p b = search undone_rules depth 14

  IsUndone-reset : IsUndone (reset_route sv env q)
  unfolding reset_route
  IsUndone-reset = search undone_rules depth 14

  IsUndone-balance : (id : String) → IsUndone (balance_route sv env q id)
  unfolding balance_route
  IsUndone-balance id = search undone_rules depth 14

  IsUndone-event : (b : EventIn) → IsUndone (event_route sv env q b)
  unfolding event_route
  IsUndone-event b = search undone_rules depth 14

  IsUndone-serve : (call : Call) → IsUndone (serve sv env q call)
  unfolding serve
  IsUndone-serve Call.health = search undone_rules
  IsUndone-serve Call.ready = search undone_rules
  IsUndone-serve Call.demo_meta = search undone_rules
  IsUndone-serve Call.bootstrap = IsUndone-signed_in _ (λ p. IsUndone-bootstrap p)
  IsUndone-serve Call.my_account = IsUndone-signed_in _ (λ p. IsUndone-my_account p)
  IsUndone-serve Call.my_accounts = IsUndone-signed_in _ (λ p. IsUndone-my_accounts p)
  IsUndone-serve (Call.my_account_detail display) =
      IsUndone-signed_in _ (λ p. IsUndone-my_account_detail p display)
  IsUndone-serve (Call.my_transactions limit cursor id f) =
      IsUndone-signed_in _ (λ p. IsUndone-my_transactions p limit cursor id f)
  IsUndone-serve (Call.my_transaction_detail id) =
      IsUndone-signed_in _ (λ p. IsUndone-my_transaction_detail p id)
  IsUndone-serve (Call.receipt id) = IsUndone-signed_in _ (λ p. IsUndone-receipt p id)
  IsUndone-serve (Call.cep_lookup cep) = IsUndone-signed_in _ (λ p. IsUndone-cep_lookup p cep)
  IsUndone-serve (Call.export_csv id f) = IsUndone-signed_in _ (λ p. IsUndone-export_csv p id f)
  IsUndone-serve (Call.export_pdf id f) = IsUndone-signed_in _ (λ p. IsUndone-export_pdf p id f)
  IsUndone-serve (Call.transfer_resolve b) =
      IsUndone-signed_in _ (λ p. IsUndone-transfer_resolve p b)
  IsUndone-serve Call.open_account = IsUndone-signed_in _ (λ p. IsUndone-open_account p)
  IsUndone-serve (Call.transfer b) = IsUndone-signed_in _ (λ p. IsUndone-transfer p b)
  IsUndone-serve (Call.withdraw amount) = IsUndone-signed_in _ (λ p. IsUndone-withdraw p amount)
  IsUndone-serve (Call.onboarding_status id) =
      IsUndone-signed_in _ (λ p. IsUndone-onboarding_status p id)
  IsUndone-serve (Call.onboarding_start id) =
      IsUndone-signed_in _ (λ p. IsUndone-onboarding_start p id)
  IsUndone-serve (Call.onboarding_skip id) =
      IsUndone-signed_in _ (λ p. IsUndone-onboarding_skip p id)
  IsUndone-serve (Call.onboarding_consent policy) =
      IsUndone-signed_in _ (λ p. IsUndone-onboarding_consent p policy)
  IsUndone-serve (Call.onboarding_documents b) =
      IsUndone-signed_in _ (λ p. IsUndone-onboarding_documents p b)
  IsUndone-serve (Call.onboarding_complete b) =
      IsUndone-signed_in _ (λ p. IsUndone-onboarding_complete p b)
  IsUndone-serve Call.reset = IsUndone-legacy _ IsUndone-reset
  IsUndone-serve (Call.balance id) = IsUndone-legacy _ (IsUndone-balance id)
  IsUndone-serve (Call.event b) = IsUndone-legacy _ (IsUndone-event b)

-- A request whose route raises, whoever it is from, leaves every table as it was.
pub serve-undone :
    (sv : Service) (env : Env) (q : Incoming) (call : Call) (s : Backend) (e : Error)
    → s.db.account_number_pending ≡ none
    → (serve sv env q call s).0 ≡ err e
    → (serve sv env q call s).1.db ≡ s.db
serve-undone sv env q call s e closed raised = (IsUndone-serve sv env q call).same s e closed raised
