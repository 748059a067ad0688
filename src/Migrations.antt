-- ===== src/Migrations.antt =====
-- alembic/versions: the migrations that rewrite rows, up to the columns that they add and drop. 0002
-- turns balances into transactions, 0005 gives accounts new ids, 0011 restores the status of
-- accounts that were ready.
pub mod Deposits
pub mod Left
pub mod Renaming
pub mod Restored
use Prim.Native.Char.{Char, code}
use mathlib.Core.Option
use e_bank_api.Prelude.{
  ℕ, ◌+◌, String, ◌==◌, Bool, true, false, not, ◌&&◌, ◌||◌, Option, none, some, List, [], ◌∷◌, ◌++◌,
  map, leb, eqb, if◌then◌else◌,
}
use e_bank_api.Prelude.Int.{ℤ, pos, ◌+ℤ◌, eqb_ℤ}
use e_bank_api.Models.{
  Account, LedgerAccount, LedgerPosting, Transaction, OnboardingSession, Db, Env,
}

-- 0002: the rows of its time.
pub record OldAccount : Type 0 where
  pub id : String
  pub balance : ℤ

pub record OldTransaction : Type 0 where
  pub account_id : String
  pub amount : ℤ
  pub type : String

-- `INSERT INTO transactions SELECT id, balance, 'deposit' FROM accounts WHERE balance <> 0`
unfoldable pub deposits : List OldAccount → List OldTransaction
deposits [] = []
deposits (a ∷ rows) =
    let rest = deposits rows in
    if eqb_ℤ a.balance (pos 0)
    then rest
    else record { account_id = a.id; amount = a.balance; type = "deposit" } ∷ rest

-- `upgrade`, where the accounts have balances: they keep their ids.
unfoldable pub upgrade_0002 :
    List OldAccount × List OldTransaction → List String × List OldTransaction
unfolding deposits
upgrade_0002 (accounts, transactions) =
    (map (λ (a : OldAccount). a.id) accounts, transactions ++ deposits accounts)

-- `COALESCE(SUM(t.amount), 0)` of an account
unfoldable pub sum_of : String → List OldTransaction → ℤ
sum_of id [] = pos 0
sum_of id (t ∷ rows) = (if t.account_id == id then t.amount else pos 0) +ℤ sum_of id rows

unfoldable pub downgraded : List OldTransaction → String → OldAccount
unfolding sum_of
downgraded transactions id = record { id = id; balance = sum_of id transactions }

unfoldable pub downgrade_0002 :
    List String × List OldTransaction → List OldAccount × List OldTransaction
unfolding downgraded
downgrade_0002 (ids, transactions) = (map (downgraded transactions) ids, [])

-- A character's code, the same for a capital and a small letter of ASCII.
abbrev pub folded : Char → ℕ
folded c = if leb b'A' (code c) && leb (code c) b'Z' then code c + 32 else code c

-- 0005: `id LIKE 'chk_%'` as SQLite reads it: `_` stands for any character, and capitals of ASCII are
-- as good as small letters.
unfoldable pub is_chk : String → Bool
is_chk (String.◌∷◌ c (String.◌∷◌ h (String.◌∷◌ k (String.◌∷◌ _ _)))) =
    eqb (folded c) b'c' && eqb (folded h) b'h' && eqb (folded k) b'k'
is_chk _ = false

unfoldable pub chk_ids : List Account → List String
unfolding is_chk
chk_ids [] = []
chk_ids (a ∷ rows) = let rest = chk_ids rows in if is_chk a.id then a.id ∷ rest else rest

abbrev pub renamed : String → String → String → String
renamed old new id = if id == old then new else id

abbrev pub renamed_account : String → String → Account → Account
renamed_account old new a = record a { id = renamed old new a.id }

abbrev pub renamed_transaction : String → String → Transaction → Transaction
renamed_transaction old new t = record t {
  account_id = renamed old new t.account_id;
  counterparty_account_id = Option.map (renamed old new) t.counterparty_account_id;
}

abbrev pub renamed_posting : String → String → LedgerPosting → LedgerPosting
renamed_posting old new p = record p { ledger_account_id = renamed old new p.ledger_account_id }

abbrev pub renamed_ledger_account : String → String → LedgerAccount → LedgerAccount
renamed_ledger_account old new l = record l { id = renamed old new l.id }

-- The five updates of one account.
unfoldable pub rename : String → String → Db → Db
rename old new db = record db {
  transactions = map (renamed_transaction old new) db.transactions;
  ledger_postings = map (renamed_posting old new) db.ledger_postings;
  ledger_accounts = map (renamed_ledger_account old new) db.ledger_accounts;
  accounts = map (renamed_account old new) db.accounts;
}

-- The loop over the accounts, each with a new `uuid4`, as it is for databases other than PostgreSQL.
unfoldable pub rename_all : Env → List String → Db → Db
unfolding rename
rename_all env [] db = db
rename_all env (old ∷ ids) db =
    rename_all env ids (record (rename old (env.uuid db.drawn) db) { drawn = db.drawn + 1 })

-- `upgrade`, behind the public ids of transactions
unfoldable pub upgrade_0005 : Env → Db → Db
unfolding rename_all chk_ids
upgrade_0005 env db = rename_all env (chk_ids db.accounts) db

-- 0011
unfoldable pub has_session : String → String → List OnboardingSession → Bool
has_session status id [] = false
has_session status id (s ∷ rows) =
    (s.account_id == id && (s.status == status)) || has_session status id rows

unfoldable pub is_granted : String → List Transaction → Bool
is_granted id [] = false
is_granted id (t ∷ rows) = (t.account_id == id && (t.type == "demo_grant")) || is_granted id rows

unfoldable pub restored_status : Db → Account → String
unfolding has_session is_granted
restored_status db a =
    if has_session "approved_demo" a.id db.sessions
    then "completed"
    else if has_session "skipped" a.id db.sessions
    then "skipped"
    else if is_granted a.id db.transactions
    then "skipped"
    else a.onboarding_status

unfoldable pub restored : Db → Account → Account
unfolding restored_status
restored db a =
    if a.kind == "checking"
      && (a.onboarding_status == "not_started" || a.onboarding_status == "in_progress")
    then record a { onboarding_status = restored_status db a }
    else a

unfoldable pub upgrade_0011 : Db → Db
unfolding restored
upgrade_0011 db = record db { accounts = map (restored db) db.accounts }
