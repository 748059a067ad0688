-- ===== src/Ledger/Transfer.antt =====
-- `LedgerService.transfer` (app/services/ledger.py): what it does when it returns, and when it does.
use mathlib.Core.Option
use e_bank_api.Prelude.{
  String, ◌==◌, eq_refl, ◌≡◌, ◌≢◌, refl, ap, ◌∙◌, Bool, true, false, ◌||◌, Option, none, some, List,
  [], ◌∷◌, ◌++◌, arith, if◌then◌else◌, is_some, truthy, ne→eq_false,
}
use e_bank_api.Prelude.Int.{ℤ, pos, ◌+ℤ◌, ◌-ℤ◌, ◌≤ℤ◌, int_laws}
use e_bank_api.Prelude.Table.{find, find-append}
use e_bank_api.Models.{Account, LedgerAccount, JournalEntry, debit, credit, Db, Env, ok, ◌>>=◌}
use e_bank_api.Ledger.{
  journal_row, check_replay, key_holder, side_total, all_known, journal_by_key, customer_row,
  cash_row, Audit, PostArgs, line, sys_cash_id, ledger_account_key, get_account, get_ledger_account,
  ensure_ledger_account, ensure_customer_ledger_account, delta, post, transfer,
}
use e_bank_api.Ledger.Mirror.{adjust, moved, net}
use e_bank_api.Ledger.Checks.{IsEntry}
use e_bank_api.Ledger.Replay.{check_replay-pass}
use e_bank_api.Ledger.Post.{post_total, post_tables}

-- The tables with the ledger account of a customer there.
abbrev pub opened : Account → Db → Db
opened a db = (ensure_customer_ledger_account a db).1

accounts-ensure_ledger_account :
    (row : LedgerAccount) (db : Db) → (ensure_ledger_account row db).accounts ≡ db.accounts
unfolding ensure_ledger_account
accounts-ensure_ledger_account row db = ground arith

pub ensure_customer-ok :
    (a : Account) (db : Db)
    → (ensure_customer_ledger_account a db ≡ (ok tt, opened a db))
      × ((opened a db).accounts ≡ db.accounts)
      × ((opened a db).journal_entries ≡ db.journal_entries)
unfolding ensure_customer_ledger_account ◌>>=◌
ensure_customer-ok a db = ground arith

abbrev pub transfer_args : Account → Account → ℤ → Audit → PostArgs
transfer_args o d x audit = record {
  entry_type = "transfer";
  lines = line o.id debit x ∷ line d.id credit x ∷ [];
  audit = audit;
  mirror_transactions = true;
}

module _ (env : Env) (o d : Account) (x : ℤ) (audit : Audit) (db : Db) where
  abbrev ready : Db
  ready = opened d (opened o db)

  transfer-post :
      (j : JournalEntry) (db' : Db)
      → transfer env o d x audit db ≡ (ok j, db')
      → (o.overdraft_limit ≤ℤ o.balance_cached -ℤ x)
        × (post env (transfer_args o d x audit) ready ≡ (ok j, db'))
        × (ready.accounts ≡ db.accounts)
  unfolding transfer ◌>>=◌
  transfer-post j db' h =
      ground (arith, ensure_customer-ok o db, ensure_customer-ok d (opened o db))

-- What the two lines of a transfer move on each account.
net_transfer :
    (o d : Account) (x : ℤ) (id : String)
    → o.id ≢ sys_cash_id
    → d.id ≢ sys_cash_id
    → net id (line o.id debit x ∷ line d.id credit x ∷ [])
      ≡ (if o.id == id then pos 0 -ℤ x else pos 0) +ℤ (if d.id == id then x else pos 0)
unfolding net moved delta
net_transfer o d x id o_real d_real =
    rw (ne→eq_false o.id sys_cash_id o_real, ne→eq_false d.id sys_cash_id d_real) (omega int_laws)

-- A transfer between accounts that are not the bank's cash, if it returns, had left the origin at
-- its overdraft limit or above; it has taken the amount from the origin's cached balance, given it
-- to the destination's, and changed nothing else of any account.
pub transfer_effect :
    (env : Env) (o d : Account) (x : ℤ) (audit : Audit) (db : Db) (j : JournalEntry) (db' : Db)
    → transfer env o d x audit db ≡ (ok j, db')
    → o.id ≢ sys_cash_id
    → d.id ≢ sys_cash_id
    → (o.overdraft_limit ≤ℤ o.balance_cached -ℤ x)
      × ((id : String)
          → get_account id db'
            ≡ Option.map
                (adjust
                  ((if o.id == id then pos 0 -ℤ x else pos 0) +ℤ (if d.id == id then x else pos 0)))
                (get_account id db))
transfer_effect env o d x audit db j db' h o_real d_real =
    let (limit, posted, same) = transfer-post env o d x audit db j db' h in
    let (accounts, _, _) =
      post_tables env (transfer_args o d x audit) j (ready env o d x audit db) db' posted in
    (limit, λ id. accounts id ∙ rw (net_transfer o d x id o_real d_real, same))

-- `ensure_ledger_account` loses no ledger account, and finds its own afterwards.
known-append :
    (k : String) (rows : List LedgerAccount) (row : LedgerAccount)
    → is_some (find ledger_account_key k (rows ++ row ∷ []))
      ≡ (is_some (find ledger_account_key k rows) || (row.id == k))
known-append k rows row =
    ap is_some (find-append ledger_account_key k rows row)
    ∙ split (find ledger_account_key k rows) (row.id == k)
  where
    split :
        (found : Option LedgerAccount) (b : Bool)
        → is_some (elim found [ none ↦ (if b then some row else none) | some s ↦ some s ])
          ≡ (is_some found || b)
    split none true = refl
    split none false = refl
    split (some s) b = refl

known-ensure :
    (k : String) (row : LedgerAccount) (db : Db)
    → is_some (get_ledger_account k db) ≡ true
    → is_some (get_ledger_account k (ensure_ledger_account row db)) ≡ true
unfolding ensure_ledger_account
known-ensure k row db h = ground (arith, known-append k db.ledger_accounts row)

known-ensure_self :
    (row : LedgerAccount) (db : Db)
    → is_some (get_ledger_account row.id (ensure_ledger_account row db)) ≡ true
unfolding ensure_ledger_account
known-ensure_self row db =
    ground (arith, known-append row.id db.ledger_accounts row, eq_refl row.id)

known-opened :
    (k : String) (a : Account) (db : Db)
    → is_some (get_ledger_account k db) ≡ true
    → is_some (get_ledger_account k (opened a db)) ≡ true
unfolding ensure_customer_ledger_account ◌>>=◌
known-opened k a db h =
    known-ensure k (customer_row a) (ensure_ledger_account cash_row db)
      (known-ensure k cash_row db h)

known-opened_self : (a : Account) (db : Db) → is_some (get_ledger_account a.id (opened a db)) ≡ true
unfolding ensure_customer_ledger_account ◌>>=◌
known-opened_self a db = known-ensure_self (customer_row a) (ensure_ledger_account cash_row db)

-- After both ledger accounts are ensured, both lines of a transfer pass the foreign key.
ready_known :
    (o d : Account) (x : ℤ) (db : Db)
    → all_known
        (line o.id debit x ∷ line d.id credit x ∷ [])
        (opened d (opened o db)).ledger_accounts
      ≡ true
unfolding all_known
ready_known o d x db =
    let db1 = opened o db in
    let o_known : is_some (get_ledger_account o.id (opened d db1)) ≡ true =
      known-opened o.id d db1 (known-opened_self o db) in
    let d_known : is_some (get_ledger_account d.id (opened d db1)) ≡ true =
      known-opened_self d db1 in
    rw (o_known, d_known)

transfer-IsEntry :
    (o d : Account) (x : ℤ) → pos 1 ≤ℤ x → IsEntry (line o.id debit x ∷ line d.id credit x ∷ [])
unfolding side_total
transfer-IsEntry o d x positive = record {
  two = omega arith;
  balanced = omega int_laws;
  positive = omega int_laws;
  each = ((tt, positive), ((tt, positive), tt));
}

key_holder-none :
    (env : Env) (k : String) (db : Db)
    → journal_by_key k db.journal_entries ≡ none
    → env.raced k ≡ none
    → key_holder env (some k) db ≡ none
unfolding key_holder
key_holder-none env k db unused free = ground arith

transfer_posts :
    (env : Env) (o d : Account) (x : ℤ) (audit : Audit) (db : Db)
    → o.overdraft_limit ≤ℤ o.balance_cached -ℤ x
    → (transfer env o d x audit db).0
      ≡ (post env (transfer_args o d x audit) (ready env o d x audit db)).0
unfolding transfer ◌>>=◌
transfer_posts env o d x audit db limit =
    ground (arith, ensure_customer-ok o db, ensure_customer-ok d (opened o db))

-- A transfer of a positive amount that leaves the origin at its limit or above, under a key that
-- no journal has and that no concurrent request takes, returns.
pub transfer_total :
    (env : Env) (o d : Account) (x : ℤ) (audit : Audit) (k : String) (db : Db)
    → pos 1 ≤ℤ x
    → o.overdraft_limit ≤ℤ o.balance_cached -ℤ x
    → audit.idempotency_key ≡ some k
    → journal_by_key k db.journal_entries ≡ none
    → env.raced k ≡ none
    → (j : JournalEntry) × ((transfer env o d x audit db).0 ≡ ok j)
transfer_total env o d x audit k db positive limit key fresh free =
    let db2 = ready env o d x audit db in
    let m = transfer_args o d x audit in
    let same : db2.journal_entries ≡ db.journal_entries =
      (ensure_customer-ok d (opened o db)).2 ∙ (ensure_customer-ok o db).2 in
    let unused : journal_by_key k db2.journal_entries ≡ none = rw same fresh in
    let replay : check_replay (truthy audit.idempotency_key) db2 ≡ (ok tt, db2) =
      rw key (check_replay-pass k db2 unused) in
    let holder : key_holder env audit.idempotency_key db2 ≡ none =
      rw key (key_holder-none env k db2 unused free) in
    (
      journal_row m (env.uuid db2.drawn) db2,
      transfer_posts env o d x audit db limit
          ∙ post_total env m db2 (transfer-IsEntry o d x positive) replay holder
              (ready_known o d x db),
    )
