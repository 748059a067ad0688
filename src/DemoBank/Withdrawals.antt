-- ===== src/DemoBank/Withdrawals.antt =====
-- A withdrawal under a key that a journal has (app/services/demo_service.py, app/services/ledger.py).
use e_bank_api.Prelude.{
  String, ◌≡◌, ◌≢◌, refl, ap, ◌∙◌, true, false, some, arith, [], ◌∷◌, ne→eq_false,
}
use e_bank_api.Prelude.Int.{ℤ, ◌-ℤ◌, ltb_ℤ}
use e_bank_api.Errors.{idempotent_replay}
use e_bank_api.Models.{
  Account, JournalEntry, Db, Env, ok, err, debit, credit, get_db, get_db-err, >>=-ok, >>=-err,
  ◌>>=◌,
}
use e_bank_api.Ledger
use e_bank_api.Ledger.{
  Audit, PostArgs, sys_cash_id, line, journal_by_key, post, ensure_customer_ledger_account,
  ensure_system_accounts, ensure_ledger_account,
}
use e_bank_api.Ledger.Replay.{post_replay}
use e_bank_api.Completion.{Client}
use e_bank_api.DemoBank.{Demo, withdraw_audit, withdrawal, withdraw}

abbrev withdraw_args : Account → ℤ → Audit → PostArgs
withdraw_args a x audit = record {
  entry_type = "withdraw";
  lines = line a.id debit x ∷ line sys_cash_id credit x ∷ [];
  audit = record audit { reason = some "Demo ATM withdraw" };
  mirror_transactions = true;
}

abbrev with_ledger : Account → Db → Db
with_ledger a db = (ensure_customer_ledger_account a db).1

journals_kept : (a : Account) (db : Db) → (with_ledger a db).journal_entries ≡ db.journal_entries
unfolding ensure_customer_ledger_account ensure_system_accounts ensure_ledger_account ◌>>=◌
journals_kept a db = ground arith

covered :
    (env : Env) (a : Account) (x : ℤ) (audit : Audit) (db : Db)
    → ltb_ℤ (a.balance_cached -ℤ x) a.overdraft_limit ≡ false
    → Ledger.withdraw env a x audit db ≡ post env (withdraw_args a x audit) (with_ledger a db)
unfolding Ledger.withdraw ensure_customer_ledger_account ensure_system_accounts ◌>>=◌
covered env a x audit db enough = rw enough refl

module _ (o : Demo) (env : Env) (subject amount k : String) (c : Client) (j : JournalEntry) (x : ℤ)
    (a : Account) (db : Db) where
  -- A withdrawal that passes its guards and the overdraft limit, under a key that is not empty
  -- and that a journal has, raises the replay of that journal, and leaves the database as it was.
  pub withdraw_replay :
      withdrawal o subject amount db ≡ (ok (x, a), db)
      → ltb_ℤ (a.balance_cached -ℤ x) a.overdraft_limit ≡ false
      → k ≢ ""
      → journal_by_key k db.journal_entries ≡ some j
      → get_db (withdraw o env subject amount (some k) c) db ≡ (err (idempotent_replay j.id), db)
  unfolding withdraw withdraw_audit
  withdraw_replay found enough real used =
      let audit = withdraw_audit o subject (some k) c in
      let replayed : Ledger.withdraw env a x audit db
          ≡ (err (idempotent_replay j.id), with_ledger a db) =
        covered env a x audit db enough
        ∙ post_replay env (withdraw_args a x audit) k j (with_ledger a db)
            (rw (withdraw_audit, ne→eq_false k "" real) refl) real
            (ap (journal_by_key k) (journals_kept a db) ∙ used) in
      get_db-err (withdraw o env subject amount (some k) c) db (
        >>=-ok (withdrawal o subject amount) _ db found
        ∙ >>=-err (Ledger.withdraw env a x audit) _ db replayed)
