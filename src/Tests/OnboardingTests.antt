-- ===== src/Tests/OnboardingTests.antt =====
-- Requests of the wizard and a withdrawal, and the theorems at them.
use e_bank_api.Prelude.{◌≡◌, eq_false→ne, refl, true, false, none, some, [], ◌∷◌}
use e_bank_api.Prelude.Int.{pos, ◌-ℤ◌, ltb_ℤ, ◌+ℤ◌}
use e_bank_api.Prelude.Table.{find, save}
use e_bank_api.Errors.{idempotent_replay}
use e_bank_api.Json.{Fields, end, field, str}
use e_bank_api.Models.{Account, JournalEntry, OnboardingSession, Db, Env, ok, err, get_db, ◌>>=◌}
use e_bank_api.Ledger.{
  get_account, journal_by_key, sys_cash_id, post, check_replay, check_lines, write_journal,
  welcome_grant, ensure_customer_ledger_account,
}
use e_bank_api.Money.{money, parse_positive_money, above}
use e_bank_api.OnboardingAccounts.{resolve_onboarding_account}
use e_bank_api.Users.{upsert, list_documents, ensure_session, record_consent, latest_of}
use e_bank_api.Users.Sessions.{ensure_session_twice}
use e_bank_api.Onboarding
use e_bank_api.Onboarding.{redact_summary, OnboardingStatus}
use e_bank_api.Onboarding.Redaction.{IsRedacted, redact_summary-IsRedacted}
use e_bank_api.Onboarding.Started.{start_reopens}
use e_bank_api.Completion.{Client, has_grant, ensure_welcome}
use e_bank_api.Completion.Welcome.{ensure_welcome_once}
use e_bank_api.DemoBank.{Demo, withdrawal, withdraw}
use e_bank_api.DemoBank.Withdrawals.{withdraw_replay}
use e_bank_api.Transfers.{require_onboarded_account}
use e_bank_api.Tests.Samples.{alice, start, env}
use e_bank_api.Tests.LedgerTests.{granted}
use e_bank_api.Tests.CustomerTests.{numbering, settings}
use e_bank_api.Tests.StatementTests.{opening, demo, one_env, browser}

abbrev summary : Fields
summary = field "name" (str "Alice") (field "cpf" (str "52998224725") end)

redact_summary-IsRedacted_example : IsRedacted (redact_summary summary)
redact_summary-IsRedacted_example = redact_summary-IsRedacted summary

-- Alice, whose account is ready, is also a user.
abbrev known : Db
known = record start {
  users = record { subject = "alice"; email = none; display_name = none } ∷ [];
}

abbrev consented : Db
consented = (record_consent "alice" "demo_tos_v1" known).1

abbrev session : OnboardingSession
session = record {
  id = "u";
  subject = "alice";
  account_id = "a1";
  status = "draft";
  skipped_at = none;
  completed_at = none;
  created_at = 100;
}

abbrev in_session : Db
in_session = (ensure_session one_env "alice" "a1" known).1

first_session : ensure_session one_env "alice" "a1" known ≡ (ok session, in_session)
unfolding ensure_session find latest_of ◌>>=◌
first_session = refl

ensure_session_twice_example : ensure_session env "alice" "a1" in_session ≡ (ok session, in_session)
ensure_session_twice_example =
    ensure_session_twice one_env env "alice" "a1" session known in_session tt first_session

-- The wizard started for an account that is ready.
abbrev restarted : Db
restarted = (Onboarding.start one_env numbering "alice" (some "a1") known).1

abbrev shown : OnboardingStatus
shown = record {
  onboarding_status = "in_progress";
  account_id = some "a1";
  session_id = some "u";
  session_status = some "draft";
  documents = [];
  holder = none;
}

start_runs : Onboarding.start one_env numbering "alice" (some "a1") known ≡ (ok shown, restarted)
unfolding Onboarding.start find save ensure_session ◌>>=◌ upsert resolve_onboarding_account
    latest_of list_documents
start_runs = refl

start_reopens_example :
    (get_account "a1" restarted ≡ some (record alice { onboarding_status = "in_progress" }))
    × (shown.onboarding_status ≡ "in_progress")
unfolding find
start_reopens_example =
    start_reopens one_env numbering "alice" "a1" alice shown known restarted
      (eq_false→ne "a1" "" refl) refl start_runs

-- The welcome grant of Alice's account.
abbrev welcomed : Db
welcomed = (ensure_welcome opening one_env "a1" browser known).1

welcome_runs : ensure_welcome opening one_env "a1" browser known ≡ (ok true, welcomed)
unfolding ensure_welcome find ◌>>=◌ money welcome_grant ensure_customer_ledger_account post
    check_replay check_lines write_journal ◌+ℤ◌
welcome_runs = refl

ensure_welcome_once_example :
    (has_grant opening "a1" welcomed.transactions ≡ true)
    × ((env' : Env) (c' : Client)
        → ensure_welcome opening env' "a1" c' welcomed ≡ (ok true, welcomed))
unfolding journal_by_key
ensure_welcome_once_example =
    ensure_welcome_once opening one_env "a1" browser true known welcomed
      (eq_false→ne "a1" sys_cash_id refl) refl refl welcome_runs

-- A withdrawal under the key of Alice's grant.
abbrev rich : Account
rich = record alice { balance_cached = pos 500 }

abbrev entry : JournalEntry
entry = record {
  id = "j0";
  created_at = 100;
  actor_subject = some "alice";
  request_id = none;
  idempotency_key = some "k1";
  source_ip = none;
  user_agent = none;
  entry_type = "welcome_grant";
  reason = none;
}

abbrev priced : Demo
priced = record demo { opening = record opening { decimal = settings.decimal } }

entry_found : journal_by_key "k1" granted.journal_entries ≡ some entry
unfolding journal_by_key post check_replay check_lines write_journal find save ◌+ℤ◌ ◌>>=◌
entry_found = refl

enough : ltb_ℤ (rich.balance_cached -ℤ pos 120) rich.overdraft_limit ≡ false
unfolding ◌-ℤ◌
enough = refl

guards_pass : withdrawal priced "alice" "1.20" granted ≡ (ok (pos 120, rich), granted)
unfolding withdrawal require_onboarded_account parse_positive_money above post check_replay
    check_lines write_journal find save ◌+ℤ◌ ◌>>=◌
guards_pass = refl

withdraw_replay_example :
    get_db (withdraw priced env "alice" "1.20" (some "k1") browser) granted
    ≡ (err (idempotent_replay "j0"), granted)
withdraw_replay_example =
    withdraw_replay priced env "alice" "1.20" "k1" browser entry (pos 120) rich granted guards_pass
      enough (eq_false→ne "k1" "" refl) entry_found
