-- ===== src/Requests/Ordered.antt =====
-- The order of the table of transactions: ids and times grow along it (app/models/transaction.py,
-- app/services/ledger.py, app/repositories/account_repository.py).
use mathlib.Core.Path.{subst}
use e_bank_api.Prelude.{
  ℕ, ◌+◌, ◌≤◌, ◌<◌, String, ◌==◌, ◌≡◌, refl, sym, true, Option, List, [], ◌∷◌, ◌++◌, All, arith,
  inl, inr, Bool-cases, Option-cases, truthy,
}
use e_bank_api.Prelude.Int.{ℤ, ◌+ℤ◌}
use e_bank_api.Errors.{Error}
use e_bank_api.Models.{JournalEntry, Transaction, Db, Env, Outcome, ok, err, ◌>>=◌}
use e_bank_api.Ledger.{
  PostingLine, PostArgs, sys_cash_id, get_account, add_transaction, set_balance, delta, mirror_row,
  mirror_line, mirror_lines, write_journal, post,
}
use e_bank_api.Ledger.Post.{entered, post-ok, write_journal-ok, check_replay_state}
use e_bank_api.Accounts.{record_transaction}
use e_bank_api.Queries.{delete_all}
use e_bank_api.Queries.Pages.{IsSerial}
use e_bank_api.Queries.Sums.{IsTimed}
use e_bank_api.Queries.Newest.{All-append}
use e_bank_api.Queries.Cursor.{All-each}
use e_bank_api.Routine.{Routine, IsAside}

abbrev pub Ordered : List Transaction → ℕ → ℕ → Type 0
Ordered rows next now =
    IsSerial rows × IsTimed rows × All (λ t. t.id < next) rows × All (λ t. t.created_at ≤ now) rows

-- Ids are below the next one, and no row is later than the clock.
abbrev pub IsOrdered : Db → Type 0
IsOrdered db = Ordered db.transactions db.next_transaction_id db.now

IsSerial-append :
    (t : Transaction) (rows : List Transaction)
    → IsSerial rows
    → All (λ s. s.id < t.id) rows
    → IsSerial (rows ++ t ∷ [])
IsSerial-append t [] h below = (tt, tt)
IsSerial-append t (s ∷ rows) (k, h) (lt, below) =
    (All-append (λ u. s.id < u.id) rows (t ∷ []) k (lt, tt), IsSerial-append t rows h below)

IsTimed-append :
    (t : Transaction) (rows : List Transaction)
    → IsTimed rows
    → All (λ s. s.created_at ≤ t.created_at) rows
    → IsTimed (rows ++ t ∷ [])
IsTimed-append t [] h past = (tt, tt)
IsTimed-append t (s ∷ rows) (k, h) (le, past) = (
  All-append (λ u. s.created_at ≤ u.created_at) rows (t ∷ []) k (le, tt),
  IsTimed-append t rows h past,
)

Ordered-append :
    (t : Transaction) (rows : List Transaction) (next now : ℕ)
    → t.id ≡ next
    → t.created_at ≡ now
    → Ordered rows next now
    → Ordered (rows ++ t ∷ []) (next + 1) now
Ordered-append t rows next now number time (serial, timed, numbered, past) = (
  IsSerial-append t rows serial (subst (λ n. All (λ s. s.id < n) rows) (sym number) numbered),
  IsTimed-append t rows timed (subst (λ n. All (λ s. s.created_at ≤ n) rows) (sym time) past),
  All-append (λ s. s.id < next + 1) rows (t ∷ [])
      (All-each (λ s. s.id < next) (λ s. s.id < next + 1) rows (λ s lt. omega arith) numbered)
      (omega arith, tt),
  All-append (λ s. s.created_at ≤ now) rows (t ∷ []) past (omega arith, tt),
)

mirror_line-IsOrdered :
    (env : Env) (m : PostArgs) (l : PostingLine) (db : Db)
    → m.mirror_transactions ≡ true
    → IsOrdered db
    → IsOrdered (mirror_line env m l db)
unfolding mirror_line mirror_row add_transaction set_balance
mirror_line-IsOrdered env m l db mirrored h =
    elim (Bool-cases (l.ledger_account_id == sys_cash_id)) [
      | inl cash ↦ rw (cash, mirror_line) h
      | inr customer ↦ elim (Option-cases (get_account l.ledger_account_id db)) [
        | inl missing ↦ rw (customer, missing, mirror_line) h
        | inr (a, e) ↦
            rw (customer, e, mirrored, mirror_line)
              (Ordered-append (mirror_row env m l (set_balance a (a.balance_cached +ℤ delta l) db))
                db.transactions db.next_transaction_id db.now refl refl h)
      ]
    ]

mirror_lines-IsOrdered :
    (env : Env) (m : PostArgs) (lines : List PostingLine) (db : Db)
    → m.mirror_transactions ≡ true
    → IsOrdered db
    → IsOrdered (mirror_lines env m lines db)
unfolding mirror_lines
mirror_lines-IsOrdered env m [] db mirrored h = h
mirror_lines-IsOrdered env m (l ∷ lines) db mirrored h =
    mirror_lines-IsOrdered env m lines (mirror_line env m l db) mirrored
      (mirror_line-IsOrdered env m l db mirrored h)

post_err_state :
    (env : Env) (m : PostArgs) (e : Error) (db db' : Db)
    → post env m db ≡ (err e, db')
    → IsAside db db'
unfolding post write_journal ◌>>=◌
post_err_state env m e db db' h =
    ground (arith, check_replay_state (truthy m.audit.idempotency_key) db)

aside-IsOrdered : (db db' : Db) → IsAside db db' → IsOrdered db → IsOrdered db'
aside-IsOrdered db db' (accounts, transactions, next, now) h = rw (transactions, next, now) h

post-IsOrdered :
    (env : Env) (m : PostArgs) (db : Db)
    → m.mirror_transactions ≡ true
    → IsOrdered db
    → (r : Outcome JournalEntry × Db) → post env m db ≡ r
    → IsOrdered r.1
unfolding entered
post-IsOrdered env m db mirrored h (ok j, db') e =
    let (_, written) = write_journal-ok env m j db db' (post-ok env m j db db' e).2 in
    rw written (mirror_lines-IsOrdered env m m.lines (entered m j db) mirrored h)
post-IsOrdered env m db mirrored h (err x, db') e =
    aside-IsOrdered db db' (post_err_state env m x db db' e) h

recorded-IsOrdered :
    (env : Env) (id : String) (x : ℤ) (kind : String) (cp : Option String) (db : Db)
    → IsOrdered db
    → IsOrdered (record_transaction env id x kind cp db).1
unfolding record_transaction add_transaction set_balance
recorded-IsOrdered env id x kind cp db h = elim (Option-cases (get_account id db)) [
  | inl missing ↦ rw (missing, record_transaction) h
  | inr (a, e) ↦
      rw (e, record_transaction)
        (Ordered-append _ db.transactions db.next_transaction_id db.now refl refl h)
]

pub Routine-IsOrdered : Routine IsOrdered
unfolding delete_all
Routine-IsOrdered = record {
  aside = λ m beside. record { after = λ db h. aside-IsOrdered db (m db).1 (beside db) h };
  inserted = λ a db zero h. h;
  saved = λ id a row db found same money h. h;
  posts = λ env m mirrored. record {
    after = λ db h. post-IsOrdered env m db mirrored h (post env m db) refl;
  };
  recorded =
      λ env id x kind cp. record { after = λ db h. recorded-IsOrdered env id x kind cp db h };
  cleared = λ postgresql db h. (tt, tt, tt, tt);
}

-- Time that goes by.
pub wait-IsOrdered :
    (db : Db) (now : ℕ) → db.now ≤ now → IsOrdered db → IsOrdered (record db { now = now })
wait-IsOrdered db now later (serial, timed, numbered, past) = (
  serial,
  timed,
  numbered,
  All-each (λ t. t.created_at ≤ db.now) (λ t. t.created_at ≤ now) db.transactions
      (λ t le. omega arith) past,
)
