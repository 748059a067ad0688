-- ===== src/Routine.antt =====
-- What the services do to the tables, one kind of change at a time: an interface for the properties of the
-- tables that all of them keep. The first is that every balance is the sum of its transactions.
use e_bank_api.Prelude.{
  [], ◌∷◌, ◌++◌, true, false, Bool, String, ◌==◌, ◌≡◌, ap, ◌∙◌, Option, some, if◌then◌else◌, refl,
  sym, eq_iff,
}
use e_bank_api.Prelude.Table.{find, save, find-save, key-find}
use e_bank_api.Models.{Account, Db, Env, Action}
use e_bank_api.Models.Keeps.{Keeps}
use e_bank_api.Ledger.{PostArgs, post, account_key, get_account}
use e_bank_api.Ledger.Mirrored.{post-IsMirrored}
use e_bank_api.Queries.{delete_all}
use e_bank_api.Prelude.Int.{ℤ, pos}
use e_bank_api.Accounts.{sum_balance, record_transaction}
use e_bank_api.Accounts.Mirrored.{
  IsMirrored, balance_of, balance_of-insert, record_transaction-IsMirrored,
}

-- What an action may do that moves no money.
abbrev pub IsAside : Db → Db → Type 0
IsAside db db' =
    (db'.accounts ≡ db.accounts)
    × (db'.transactions ≡ db.transactions)
    × (db'.next_transaction_id ≡ db.next_transaction_id)
    × (db'.now ≡ db.now)

-- What the services do to the tables; a property that each of these keeps, they keep.
pub record Routine (P : Db → Type 0) : Type 1 where
  pub aside : {A : Type 0} (m : Action A) → ((db : Db) → IsAside db (m db).1) → Keeps P m
  pub inserted :
      (a : Account) (db : Db)
      → a.balance_cached ≡ pos 0
      → P db
      → P (record db { accounts = db.accounts ++ a ∷ [] })
  pub saved :
      (id : String) (a row : Account) (db : Db)
      → get_account id db ≡ some a
      → row.id ≡ a.id
      → row.balance_cached ≡ a.balance_cached
      → P db
      → P (record db { accounts = save account_key row db.accounts })
  pub posts : (env : Env) (m : PostArgs) → m.mirror_transactions ≡ true → Keeps P (post env m)
  pub recorded :
      (env : Env) (id : String) (x : ℤ) (kind : String) (cp : Option String)
      → Keeps P (record_transaction env id x kind cp)
  pub cleared : (postgresql : Bool) (db : Db) → P db → P (delete_all postgresql db)

Keeps-aside : {A : Type 0} (m : Action A) → ((db : Db) → IsAside db (m db).1) → Keeps IsMirrored m
unfolding sum_balance
Keeps-aside m aside = record {
  after = λ db h id.
      let (accounts, transactions, _, _) = aside db in rw (accounts, transactions) (h id);
}

-- A row saved with its money as it was.
save-IsMirrored :
    (a row : Account) (db : Db)
    → get_account a.id db ≡ some a
    → row.id ≡ a.id
    → row.balance_cached ≡ a.balance_cached
    → IsMirrored db
    → IsMirrored (record db { accounts = save account_key row db.accounts })
unfolding sum_balance
save-IsMirrored a row db here same money h id =
    ap balance_of (find-save account_key id row a db.accounts (rw same here))
    ∙ by (row.id == id) refl
    ∙ h id
  where
    by :
        (b : Bool)
        → (row.id == id) ≡ b
        → balance_of (if b then some row else get_account id db) ≡ balance_of (get_account id db)
    by false e = refl
    by true e =
        money
        ∙ sym (
            ap balance_of (ap (λ k. get_account k db) (sym ((eq_iff row.id id).0 e) ∙ same) ∙ here))

-- The row that was found, saved with its money as it was.
found-IsMirrored :
    (id : String) (a row : Account) (db : Db)
    → get_account id db ≡ some a
    → row.id ≡ a.id
    → row.balance_cached ≡ a.balance_cached
    → IsMirrored db
    → IsMirrored (record db { accounts = save account_key row db.accounts })
found-IsMirrored id a row db here same money h =
    save-IsMirrored a row db
      (ap (λ k. get_account k db) (key-find account_key id db.accounts a here) ∙ here) same money h

cleared-IsMirrored :
    (postgresql : Bool) (db : Db) → IsMirrored db → IsMirrored (delete_all postgresql db)
unfolding delete_all sum_balance find
cleared-IsMirrored postgresql db h id = refl

inserted-IsMirrored :
    (a : Account) (db : Db)
    → a.balance_cached ≡ pos 0
    → IsMirrored db
    → IsMirrored (record db { accounts = db.accounts ++ a ∷ [] })
unfolding sum_balance
inserted-IsMirrored a db zero h id = balance_of-insert a id db zero ∙ h id

pub Routine-IsMirrored : Routine IsMirrored
Routine-IsMirrored = record {
  aside = Keeps-aside;
  inserted = inserted-IsMirrored;
  saved = found-IsMirrored;
  posts = λ env m mirrored. record { after = λ db h. post-IsMirrored env m mirrored db h };
  recorded = λ env id x kind cp. record {
    after = λ db h. record_transaction-IsMirrored env id x kind cp db h;
  };
  cleared = cleared-IsMirrored;
}
