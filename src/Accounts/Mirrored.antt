-- ===== src/Accounts/Mirrored.antt =====
-- The cached balance against `_sum_balance` (app/repositories/account_repository.py).
use mathlib.Core.Option
use e_bank_api.Prelude.{
  String, ◌==◌, eq_iff, ◌≡◌, refl, ap, sym, ◌∙◌, Option, none, some, List, [], ◌∷◌, ◌++◌, arith,
  if◌then◌else◌, Bool-cases, Option-cases, inl, inr,
}
use e_bank_api.Prelude.Int.{ℤ, pos, ◌+ℤ◌, +ℤ_zero, int_laws}
use e_bank_api.Errors.{integrity_error}
use e_bank_api.Prelude.Table.{find, find-append}
use e_bank_api.Models.{Account, Transaction, Db, Env, err}
use e_bank_api.Ledger.{account_key, get_account, set_balance, add_transaction}
use e_bank_api.Ledger.Mirror.{adjust, get_account-credit}
use e_bank_api.Accounts.{
  sum_rows, sum_balance, new_account, insert_account, ensure_account, transaction_row,
  record_transaction,
}

abbrev pub balance_of : Option Account → ℤ
balance_of none = pos 0
balance_of (some a) = a.balance_cached

-- The cached balance of every id, none counting as zero, is the sum of its transactions.
abbrev pub IsMirrored : Db → Type 0
IsMirrored db = (id : String) → balance_of (get_account id db) ≡ sum_balance id db

sum_rows-append :
    (id : String) (rows : List Transaction) (t : Transaction)
    → sum_rows id (rows ++ t ∷ [])
      ≡ sum_rows id rows +ℤ (if t.account_id == id then t.amount else pos 0)
unfolding sum_rows
sum_rows-append id [] t = omega int_laws
sum_rows-append id (s ∷ rows) t = rw (sum_rows-append id rows t) (omega int_laws)

pub balance_of-credit :
    (k id : String) (x : ℤ) (a : Account) (db : Db)
    → get_account k db ≡ some a
    → balance_of (get_account id (set_balance a (a.balance_cached +ℤ x) db))
      ≡ balance_of (get_account id db) +ℤ (if k == id then x else pos 0)
balance_of-credit k id x a db h = elim (Bool-cases (k == id)) [
  | inl same ↦
      let e : get_account id db ≡ some a =
        ap (λ i. get_account i db) (sym ((eq_iff k id).0 same)) ∙ h in
      ap balance_of (get_account-credit k id x a db h) ∙ rw (same, e)
  | inr other ↦
      ap balance_of (get_account-credit k id x a db h) ∙ rw other (adjusted (get_account id db))
]
  where
    adjusted :
        (o : Option Account) → balance_of (Option.map (adjust (pos 0)) o) ≡ balance_of o +ℤ pos 0
    adjusted none = sym (+ℤ_zero (pos 0))
    adjusted (some b) = refl

-- Writing a row and moving the cached balance by its amount keeps the two equal.
pub credit-IsMirrored :
    (a : Account) (t : Transaction) (db : Db)
    → get_account t.account_id db ≡ some a
    → IsMirrored db
    → IsMirrored (set_balance a (a.balance_cached +ℤ t.amount) (add_transaction t db))
unfolding sum_balance set_balance add_transaction
credit-IsMirrored a t db h m id =
    balance_of-credit t.account_id id t.amount a db h
    ∙ ap (λ x. x +ℤ (if t.account_id == id then t.amount else pos 0)) (m id)
    ∙ sym (sum_rows-append id db.transactions t)

-- `record_transaction` on a known account moves its balance by the amount, and no other balance.
pub balance_of-record_transaction :
    (env : Env) (k id : String) (x : ℤ) (kind : String) (cp : Option String) (a : Account) (db : Db)
    → get_account k db ≡ some a
    → balance_of (get_account id (record_transaction env k x kind cp db).1)
      ≡ balance_of (get_account id db) +ℤ (if k == id then x else pos 0)
unfolding record_transaction set_balance add_transaction
balance_of-record_transaction env k id x kind cp a db h =
    rw (h, record_transaction) (balance_of-credit k id x a db h)

pub record_transaction-missing :
    (env : Env) (k : String) (x : ℤ) (kind : String) (cp : Option String) (db : Db)
    → get_account k db ≡ none
    → record_transaction env k x kind cp db ≡ (err integrity_error, db)
unfolding record_transaction
record_transaction-missing env k x kind cp db h = rw (h, record_transaction)

pub record_transaction-IsMirrored :
    (env : Env) (id : String) (x : ℤ) (kind : String) (cp : Option String) (db : Db)
    → IsMirrored db
    → IsMirrored (record_transaction env id x kind cp db).1
unfolding record_transaction
record_transaction-IsMirrored env id x kind cp db m = elim (Option-cases (get_account id db)) [
  | inl missing ↦ rw (missing, record_transaction) m
  | inr (a, e) ↦
      rw (e, record_transaction) (credit-IsMirrored a (transaction_row env id x kind cp db) db e m)
]

-- A new row with no money changes no balance.
pub balance_of-insert :
    (a : Account) (id : String) (db : Db)
    → a.balance_cached ≡ pos 0
    → balance_of (find account_key id (db.accounts ++ a ∷ [])) ≡ balance_of (get_account id db)
balance_of-insert a id db zero =
    ap balance_of (find-append account_key id db.accounts a) ∙ fresh (get_account id db)
  where
    fresh :
        (o : Option Account)
        → balance_of
            (elim o [ none ↦ (if account_key a == id then some a else none) | some s ↦ some s ])
          ≡ balance_of o
    fresh none = ground arith
    fresh (some s) = refl

pub insert_account-IsMirrored :
    (a : Account) (db : Db)
    → a.balance_cached ≡ pos 0
    → IsMirrored db
    → IsMirrored (insert_account a db).1
unfolding insert_account sum_balance
insert_account-IsMirrored a db zero m = elim (Option-cases (get_account a.id db)) [
  | inl free ↦ rw (free, insert_account) (λ id. balance_of-insert a id db zero ∙ m id)
  | inr (b, e) ↦ rw (e, insert_account) m
]

-- `ensure_account` changes no balance.
pub balance_of-ensure_account :
    (k id : String) (db : Db)
    → balance_of (get_account id (ensure_account k db).1) ≡ balance_of (get_account id db)
unfolding ensure_account insert_account
balance_of-ensure_account k id db = elim (Option-cases (get_account k db)) [
  | inl missing ↦
      rw (missing, ensure_account, missing)
        (balance_of-insert (new_account k none "checking" "USD" (pos 0) db) id db refl)
  | inr (a, e) ↦ rw (e, ensure_account)
]

pub ensure_account-IsMirrored :
    (id : String) (db : Db) → IsMirrored db → IsMirrored (ensure_account id db).1
unfolding ensure_account
ensure_account-IsMirrored id db m = elim (Option-cases (get_account id db)) [
  | inl missing ↦
      rw (missing, ensure_account)
        (insert_account-IsMirrored (new_account id none "checking" "USD" (pos 0) db) db refl m)
  | inr (a, e) ↦ rw (e, ensure_account) m
]
