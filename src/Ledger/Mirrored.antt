-- ===== src/Ledger/Mirrored.antt =====
-- `LedgerService.post` (app/services/ledger.py) writes one transaction for every balance it moves.
use e_bank_api.Prelude.{◌==◌, ◌≡◌, refl, true, List, [], ◌∷◌, Bool-cases, Option-cases, inl, inr}
use e_bank_api.Prelude.Int.{◌+ℤ◌}
use e_bank_api.Models.{JournalEntry, Db, Env, Outcome, ok, err}
use e_bank_api.Ledger.{
  PostingLine, PostArgs, sys_cash_id, delta, get_account, set_balance, add_transaction, mirror_row,
  mirror_line, mirror_lines, post,
}
use e_bank_api.Ledger.Post.{entered, post-ok, post-err, write_journal-ok}
use e_bank_api.Accounts.{sum_balance}
use e_bank_api.Accounts.Mirrored.{IsMirrored, credit-IsMirrored}

module _ (env : Env) (m : PostArgs) (mirrored : m.mirror_transactions ≡ true) where
  mirror_line-IsMirrored :
      (l : PostingLine) (db : Db) → IsMirrored db → IsMirrored (mirror_line env m l db)
  unfolding mirror_line mirror_row set_balance add_transaction sum_balance
  mirror_line-IsMirrored l db h = elim (Bool-cases (l.ledger_account_id == sys_cash_id)) [
    | inl cash ↦ rw (cash, mirror_line) h
    | inr customer ↦ elim (Option-cases (get_account l.ledger_account_id db)) [
      | inl missing ↦ rw (customer, missing, mirror_line) h
      | inr (a, e) ↦
          rw (customer, e, mirrored, mirror_line)
            (credit-IsMirrored a
              (mirror_row env m l (set_balance a (a.balance_cached +ℤ delta l) db)) db e h)
    ]
  ]

  mirror_lines-IsMirrored :
      (lines : List PostingLine) (db : Db)
      → IsMirrored db
      → IsMirrored (mirror_lines env m lines db)
  unfolding mirror_lines
  mirror_lines-IsMirrored [] db h = h
  mirror_lines-IsMirrored (l ∷ lines) db h =
      mirror_lines-IsMirrored lines (mirror_line env m l db) (mirror_line-IsMirrored l db h)

  -- With mirroring on, whatever `post` answers, the cached balance of every account stays the sum
  -- of its transactions.
  pub post-IsMirrored : (db : Db) → IsMirrored db → IsMirrored (post env m db).1
  unfolding sum_balance entered
  post-IsMirrored db h = go (post env m db) refl
    where
      go : (r : Outcome JournalEntry × Db) → post env m db ≡ r → IsMirrored r.1
      go (ok j, db') e =
          let (_, written) = write_journal-ok env m j db db' (post-ok env m j db db' e).2 in
          rw written (mirror_lines-IsMirrored m.lines (entered m j db) h)
      go (err x, db') e =
          let (accounts, _, rows) = post-err env m x db db' e in rw (accounts, rows) h
