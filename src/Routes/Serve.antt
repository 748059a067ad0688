-- ===== src/Routes/Serve.antt =====
-- A request at its route: the check of the caller, and the route's function (app/api).
use e_bank_api.Models.{Env, Exec, pure, lift, ◌>>=◌}
use e_bank_api.Auth.{Principal, require_authenticated_bank_write}
use e_bank_api.Routes.{Service, Incoming, Call, Answer, is_healthy, Backend}
use e_bank_api.Routes.Answers.{
  ready_route, demo_meta_route, bootstrap_route, my_account_route, my_accounts_route,
  open_account_route, my_account_detail_route, my_transactions_route, my_transaction_detail_route,
  receipt_route, export_csv_route, export_pdf_route, transfer_resolve_route, transfer_route,
  withdraw_route, cep_lookup_route, onboarding_status_route, onboarding_start_route,
  onboarding_consent_route, onboarding_skip_route, onboarding_documents_route,
  onboarding_complete_route, legacy, reset_route, balance_route, event_route,
}

module _ (sv : Service) (env : Env) (q : Incoming) where
  -- A route behind `require_authenticated_bank_write`.
  unfoldable pub signed_in : (Principal → Exec Backend Answer) → Exec Backend Answer
  signed_in route = do p ← lift (require_authenticated_bank_write sv.oidc q.auth); route p

  unfoldable pub serve : Call → Exec Backend Answer
  unfolding ready_route demo_meta_route signed_in
  serve Call.health = pure is_healthy
  serve Call.ready = pure (ready_route sv)
  serve Call.demo_meta = pure (demo_meta_route sv)
  serve Call.bootstrap = signed_in (bootstrap_route sv)
  serve Call.my_account = signed_in (my_account_route sv)
  serve Call.my_accounts = signed_in (my_accounts_route sv)
  serve Call.open_account = signed_in (open_account_route sv env q)
  serve (Call.my_account_detail display) = signed_in (λ p. my_account_detail_route sv p display)
  serve (Call.my_transactions limit cursor id f) =
      signed_in (λ p. my_transactions_route sv p limit cursor id f)
  serve (Call.my_transaction_detail id) = signed_in (λ p. my_transaction_detail_route sv p id)
  serve (Call.receipt id) = signed_in (λ p. receipt_route sv p id)
  serve (Call.cep_lookup cep) = signed_in (λ p. cep_lookup_route sv p cep)
  serve (Call.export_csv id f) = signed_in (λ p. export_csv_route sv p id f)
  serve (Call.export_pdf id f) = signed_in (λ p. export_pdf_route sv p id f)
  serve (Call.transfer_resolve b) = signed_in (λ p. transfer_resolve_route sv p b)
  serve (Call.transfer b) = signed_in (λ p. transfer_route sv env q p b)
  serve (Call.withdraw amount) = signed_in (λ p. withdraw_route sv env q p amount)
  serve (Call.onboarding_status id) = signed_in (λ p. onboarding_status_route sv env q p id)
  serve (Call.onboarding_start id) = signed_in (λ p. onboarding_start_route sv env q p id)
  serve (Call.onboarding_skip id) = signed_in (λ p. onboarding_skip_route sv env q p id)
  serve (Call.onboarding_consent policy) =
      signed_in (λ p. onboarding_consent_route sv env q p policy)
  serve (Call.onboarding_documents b) = signed_in (λ p. onboarding_documents_route sv env q p b)
  serve (Call.onboarding_complete b) = signed_in (λ p. onboarding_complete_route sv env q p b)
  serve Call.reset = legacy sv env q (reset_route sv env q)
  serve (Call.balance id) = legacy sv env q (balance_route sv env q id)
  serve (Call.event b) = legacy sv env q (event_route sv env q b)
