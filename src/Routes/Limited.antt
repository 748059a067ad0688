-- ===== src/Routes/Limited.antt =====
-- A customer who has used up the window of the rate limit, at the routes that count calls.
use e_bank_api.Prelude.{
  ℕ, suc, ◌-◌, ◌<◌, ◌≤◌, Bool, true, false, some, [], ◌≡◌, refl, ap, ◌∙◌, arith,
}
use e_bank_api.Errors.{rate_limit_exceeded}
use e_bank_api.Models.{Env, Outcome, ok, err, Exec, lift, ◌>>=◌, >>=-ok, >>=-err}
use e_bank_api.Auth.{Principal, require_authenticated_bank_write}
use e_bank_api.RateLimit.{Limits, allow, allow_next, key_of_subject}
use e_bank_api.Schemas.{is_valid_transfer, is_valid_resolve, is_valid_application}
use e_bank_api.Routes.{Service, Incoming, Call, Answer, Backend, accepted}
use e_bank_api.Routes.Answers.{
  onboarding_complete_route, onboarding_skip_route, cep_lookup_route, withdraw_route,
  transfer_route, transfer_resolve_route, open_account_route, bootstrap_route, enforce_rate_limit,
  limited,
}
use e_bank_api.Routes.Serve.{serve, signed_in}

-- The routes that count a call, where they count it: behind the check of the body.
abbrev pub counts_call : Call → Bool
counts_call Call.bootstrap = true
counts_call Call.open_account = true
counts_call (Call.transfer_resolve b) = is_valid_resolve b
counts_call (Call.transfer b) = is_valid_transfer b
counts_call (Call.withdraw amount) = true
counts_call (Call.cep_lookup cep) = true
counts_call (Call.onboarding_skip id) = true
counts_call (Call.onboarding_complete b) = is_valid_application b
counts_call _ = false

-- Redis answers, and the open window of a customer has as many calls as are allowed.
pub record IsUsedUp (sv : Service) (p : Principal) (l : Limits) (n ends : ℕ) (s : Backend)
    : Type 0 where
  pub enabled : sv.rate_limit_enabled ≡ true
  pub limiter : sv.rate_limiter ≡ some l
  pub calm : s.counters.faults ≡ []
  pub count : s.counters.counts (key_of_subject l p.subject) ≡ some (suc n, some ends)
  pub running : s.counters.now < ends
  pub full : l.limit ≤ suc n

module _ (sv : Service) (env : Env) (q : Incoming) (p : Principal) (l : Limits) (n ends : ℕ)
    (s : Backend) (used : IsUsedUp sv p l n ends s) where
  -- The call is counted, and nothing else changes.
  abbrev after : Backend
  after = record s { counters = (allow l p.subject s.counters).1 }

  abbrev refusal : {A : Type 0} → Outcome A × Backend
  refusal = (err (rate_limit_exceeded (ends - s.counters.now)), after)

  enforce_over : enforce_rate_limit sv p s ≡ refusal
  unfolding enforce_rate_limit limited ◌>>=◌
  enforce_over =
      let (answer, _, _, _) =
        allow_next l p.subject n ends s.counters used.calm used.count used.running in
      rw (used.enabled, used.limiter) (ground (arith, used.full, answer))

  -- A route that counts its call first.
  counted_first :
      {A : Type 0} (rest : Unit {0} → Exec Backend A)
      → (enforce_rate_limit sv p >>= rest) s ≡ refusal
  counted_first rest = >>=-err (enforce_rate_limit sv p) rest s enforce_over

  -- A route that checks its body before.
  counted_behind :
      {A : Type 0} (b : Bool) (rest : Unit {0} → Exec Backend A)
      → b ≡ true
      → (accepted b >>= λ _. enforce_rate_limit sv p >>= rest) s ≡ refusal
  unfolding accepted
  counted_behind b rest valid =
      >>=-ok (accepted b) (λ _. enforce_rate_limit sv p >>= rest) s (rw valid refl)
      ∙ counted_first rest

  known :
      (route : Principal → Exec Backend Answer)
      → require_authenticated_bank_write sv.oidc q.auth ≡ ok p
      → route p s ≡ refusal
      → signed_in sv env q route s ≡ refusal
  unfolding signed_in
  known route who refused =
      >>=-ok (lift (require_authenticated_bank_write sv.oidc q.auth)) route s
        (ap (λ (r : Outcome Principal). (r, s)) who)
      ∙ refused

  refused :
      (call : Call)
      → require_authenticated_bank_write sv.oidc q.auth ≡ ok p
      → counts_call call ≡ true
      → serve sv env q call s ≡ refusal
  unfolding serve bootstrap_route open_account_route transfer_resolve_route transfer_route
      withdraw_route cep_lookup_route onboarding_skip_route onboarding_complete_route
  refused Call.bootstrap who c = known (bootstrap_route sv) who (counted_first _)
  refused Call.open_account who c = known (open_account_route sv env q) who (counted_first _)
  refused (Call.transfer_resolve b) who c =
      known (λ p. transfer_resolve_route sv p b) who (counted_behind _ _ c)
  refused (Call.transfer b) who c =
      known (λ p. transfer_route sv env q p b) who (counted_behind _ _ c)
  refused (Call.withdraw amount) who c =
      known (λ p. withdraw_route sv env q p amount) who (counted_first _)
  refused (Call.cep_lookup cep) who c = known (λ p. cep_lookup_route sv p cep) who (counted_first _)
  refused (Call.onboarding_skip id) who c =
      known (λ p. onboarding_skip_route sv env q p id) who (counted_first _)
  refused (Call.onboarding_complete b) who c =
      known (λ p. onboarding_complete_route sv env q p b) who (counted_behind _ _ c)
  refused _ who c = cc

  -- Where Redis answers and the customer's open window has as many calls as are allowed or more: a
  -- call of any route that counts calls, whose body is valid, is answered with RateLimitExceeded and the seconds to the
  -- window's end, and the database is as it was.
  pub over_limit :
      (call : Call)
      → require_authenticated_bank_write sv.oidc q.auth ≡ ok p
      → counts_call call ≡ true
      → ((serve sv env q call s).0 ≡ err (rate_limit_exceeded (ends - s.counters.now)))
        × ((serve sv env q call s).1.db ≡ s.db)
  over_limit call who counts = by (refused call who counts)
    where
      by :
          (serve sv env q call s ≡ refusal)
          → ((serve sv env q call s).0 ≡ err (rate_limit_exceeded (ends - s.counters.now)))
            × ((serve sv env q call s).1.db ≡ s.db)
      by h = (
        ap (λ (r : Outcome Answer × Backend). r.0) h,
        ap (λ (r : Outcome Answer × Backend). r.1.db) h,
      )
