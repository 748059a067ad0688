-- ===== src/Tests/Samples.antt =====
-- Two customers' accounts and a database before any money has moved.
use e_bank_api.Prelude.{ℕ, zero, suc, false, String, Option, none, some, List, [], ◌∷◌}
use e_bank_api.Prelude.Int.{pos}
use e_bank_api.Models.{Account, Db, Env}

abbrev pub account : String → Option String → ℕ → Account
account id owner number = record {
  id = id;
  owner_subject = owner;
  kind = "checking";
  currency = "USD";
  status = "active";
  onboarding_status = "completed";
  account_number = some number;
  digit = some 7;
  balance_cached = pos 0;
  overdraft_limit = pos 0;
  created_at = 1;
}

abbrev pub alice : Account
alice = account "a1" (some "alice") 1

abbrev pub bob : Account
bob = account "b2" (some "bob") 2

abbrev pub tables : List Account → Db
tables accounts = record {
  accounts = accounts;
  ledger_accounts =
      record { id = "sys_cash"; code = "cash"; kind = "asset" }
      ∷ record { id = "a1"; code = "customer:a1"; kind = "liability" }
      ∷ [];
  journal_entries = [];
  ledger_postings = [];
  transactions = [];
  holders = [];
  users = [];
  sessions = [];
  sessions_first = λ s t. false;
  documents = [];
  consents = [];
  next_transaction_id = 1;
  drawn = 0;
  now = 100;
  account_number_pending = none;
}

abbrev pub start : Db
start = tables (alice ∷ bob ∷ [])

-- Draws "j0", "j1", then "j9" for ever.
abbrev pub draw : ℕ → String
draw zero = "j0"
draw (suc zero) = "j1"
draw (suc (suc _)) = "j9"

abbrev pub env : Env
env = record { uuid = draw; randbelow = λ n. 7; raced = λ k. none }
