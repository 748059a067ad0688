-- ===== src/Migrations/Renaming.antt =====
-- New ids of accounts move no money (alembic/versions/0005_uuid_public_ids.py).
use e_bank_api.Prelude.{
  eq_false→ne, ℕ, ◌+◌, ◌≡◌, ◌≢◌, refl, ap, sym, ◌∙◌, Bool, false, inl, inr, String, ◌==◌, Option,
  some, List, [], ◌∷◌, map, All, arith, if◌then◌else◌, eq_iff, Bool-cases,
}
use e_bank_api.Prelude.Int.{pos, ◌+ℤ◌, zero_+ℤ}
use e_bank_api.Prelude.Table.{find}
use e_bank_api.Models.{Account, LedgerPosting, Transaction, Db, Env}
use e_bank_api.Ledger.{on_side, account_key}
use e_bank_api.Accounts.{sum_rows, sum_balance}
use e_bank_api.Accounts.Mirrored.{balance_of, IsMirrored}
use e_bank_api.Ledger.Balances.{side_sum, IsTrialBalance}
use e_bank_api.Models.{Side, debit, credit}
use e_bank_api.Migrations.Left.{rename_all_leaves, chk_ids-Pending}
use e_bank_api.Migrations.{
  renamed, renamed_account, renamed_transaction, renamed_posting, rename, rename_all, chk_ids,
  is_chk, upgrade_0005,
}

-- No row has the new id, which is not the old one.
pub record IsFresh (old new : String) (db : Db) : Type 0 where
  pub other : old ≢ new
  pub accounts : All (λ a. a.id ≢ new) db.accounts
  pub transactions : All (λ t. t.account_id ≢ new) db.transactions

module _ (old new : String) (other : old ≢ new) where
  -- Whether a row has an id, behind the renaming.
  renamed-eq-new : (id : String) → id ≢ new → (renamed old new id == new) ≡ (id == old)
  renamed-eq-new id h = ground (arith, eq_iff id old, eq_iff id new, eq_iff new new)

  renamed-eq-old : (id : String) → (renamed old new id == old) ≡ false
  renamed-eq-old id = ground (arith, eq_iff id old, eq_iff new old)

  renamed-eq-other :
      (id other_id : String)
      → other_id ≢ old
      → other_id ≢ new
      → (renamed old new id == other_id) ≡ (id == other_id)
  renamed-eq-other id other_id h k =
      ground (arith, eq_iff id old, eq_iff new other_id, eq_iff id other_id)

  head_balance :
      (b c : Bool) (a a' : Account) (o o' : Option Account)
      → b ≡ c
      → a'.balance_cached ≡ a.balance_cached
      → balance_of o' ≡ balance_of o
      → balance_of (if b then some a' else o') ≡ balance_of (if c then some a else o)
  head_balance b c a a' o o' same money rest = ground arith

  -- The new id has what the old one had, the old one has nothing, and the others have what they had.
  balance_of-new :
      (rows : List Account)
      → All (λ a. a.id ≢ new) rows
      → balance_of (find account_key new (map (renamed_account old new) rows))
        ≡ balance_of (find account_key old rows)
  unfolding find
  balance_of-new [] h = refl
  balance_of-new (a ∷ rows) (h, hs) =
      head_balance (renamed old new a.id == new) (a.id == old) a (renamed_account old new a)
        (find account_key old rows) (find account_key new (map (renamed_account old new) rows))
        (renamed-eq-new a.id h) refl (balance_of-new rows hs)

  balance_of-old :
      (rows : List Account)
      → balance_of (find account_key old (map (renamed_account old new) rows)) ≡ pos 0
  unfolding find
  balance_of-old [] = refl
  balance_of-old (a ∷ rows) = rw (renamed-eq-old a.id) (balance_of-old rows)

  balance_of-other :
      (id : String) (rows : List Account)
      → id ≢ old
      → id ≢ new
      → balance_of (find account_key id (map (renamed_account old new) rows))
        ≡ balance_of (find account_key id rows)
  unfolding find
  balance_of-other id [] h k = refl
  balance_of-other id (a ∷ rows) h k =
      head_balance (renamed old new a.id == id) (a.id == id) a (renamed_account old new a)
        (find account_key id rows) (find account_key id (map (renamed_account old new) rows))
        (renamed-eq-other a.id id h k) refl (balance_of-other id rows h k)

  sum_rows-new :
      (rows : List Transaction)
      → All (λ t. t.account_id ≢ new) rows
      → sum_rows new (map (renamed_transaction old new) rows) ≡ sum_rows old rows
  unfolding sum_rows
  sum_rows-new [] h = refl
  sum_rows-new (t ∷ rows) (h, hs) = rw (renamed-eq-new t.account_id h, sum_rows-new rows hs) refl

  sum_rows-old :
      (rows : List Transaction) → sum_rows old (map (renamed_transaction old new) rows) ≡ pos 0
  unfolding sum_rows
  sum_rows-old [] = refl
  sum_rows-old (t ∷ rows) = rw (renamed-eq-old t.account_id, sum_rows-old rows) (zero_+ℤ (pos 0))

  sum_rows-other :
      (id : String) (rows : List Transaction)
      → id ≢ old
      → id ≢ new
      → sum_rows id (map (renamed_transaction old new) rows) ≡ sum_rows id rows
  unfolding sum_rows
  sum_rows-other id [] h k = refl
  sum_rows-other id (t ∷ rows) h k =
      rw (renamed-eq-other t.account_id id h k, sum_rows-other id rows h k) refl

rename-IsMirrored :
    (old new : String) (db : Db)
    → IsFresh old new db
    → IsMirrored db
    → IsMirrored (rename old new db)
unfolding rename sum_balance
rename-IsMirrored old new db f h id = elim (Bool-cases (id == new)) [
  | inl is_new ↦ rw ((eq_iff id new).0 is_new) (
      balance_of-new old new f.other db.accounts f.accounts
      ∙ h old
      ∙ sym (sum_rows-new old new f.other db.transactions f.transactions))
  | inr not_new ↦ elim (Bool-cases (id == old)) [
    | inl is_old ↦ rw ((eq_iff id old).0 is_old) (
        balance_of-old old new f.other db.accounts
        ∙ sym (sum_rows-old old new f.other db.transactions))
    | inr not_old ↦
        balance_of-other old new f.other id db.accounts (eq_false→ne id old not_old)
          (eq_false→ne id new not_new)
        ∙ h id
        ∙ sym (
            sum_rows-other old new f.other id db.transactions (eq_false→ne id old not_old)
              (eq_false→ne id new not_new))
  ]
]

-- Each draw of the loop is fresh when it is made.
abbrev pub AreFresh : Env → List String → Db → Type 0
AreFresh env [] db = Unit
AreFresh env (old ∷ ids) db =
    IsFresh old (env.uuid db.drawn) db
    × AreFresh env ids (record (rename old (env.uuid db.drawn) db) { drawn = db.drawn + 1 })

side_sum-renamed :
    (side : Side) (old new : String) (rows : List LedgerPosting)
    → side_sum side (map (renamed_posting old new) rows) ≡ side_sum side rows
unfolding side_sum
side_sum-renamed side old new [] = refl
side_sum-renamed side old new (p ∷ rows) =
    ap (λ x. on_side side p.side p.amount +ℤ x) (side_sum-renamed side old new rows)

rename-IsTrialBalance :
    (old new : String) (db : Db) → IsTrialBalance db → IsTrialBalance (rename old new db)
unfolding rename
rename-IsTrialBalance old new db h =
    side_sum-renamed debit old new db.ledger_postings
    ∙ h
    ∙ sym (side_sum-renamed credit old new db.ledger_postings)

rename_all_keeps :
    (env : Env) (ids : List String) (db : Db)
    → AreFresh env ids db
    → IsMirrored db
    → IsTrialBalance db
    → IsMirrored (rename_all env ids db) × IsTrialBalance (rename_all env ids db)
unfolding rename_all
rename_all_keeps env [] db fresh h t = (h, t)
rename_all_keeps env (old ∷ ids) db (f, fs) h t =
    let new = env.uuid db.drawn in
    let next = record (rename old new db) { drawn = db.drawn + 1 } in
    rename_all_keeps env ids next fs
      (λ id. unfold sum_balance in rename-IsMirrored old new db f h id)
      (rename-IsTrialBalance old new db t)

-- Where the database is not PostgreSQL and enforces no foreign keys, no new id that migration 0005 draws
-- is like 'chk_%', and each is no account's and no transaction's when it is drawn: behind it no account's
-- id is like 'chk_%', every cached balance stays equal to the sum of its account's transactions, and the
-- debits of all postings equal to the credits.
pub upgrade_0005_keeps :
    (env : Env) (db : Db)
    → ((n : ℕ) → is_chk (env.uuid n) ≡ false)
    → AreFresh env (chk_ids db.accounts) db
    → IsMirrored db
    → IsTrialBalance db
    → All (λ a. is_chk a.id ≡ false) (upgrade_0005 env db).accounts
      × IsMirrored (upgrade_0005 env db)
      × IsTrialBalance (upgrade_0005 env db)
unfolding upgrade_0005
upgrade_0005_keeps env db plain fresh h t = (
  rename_all_leaves env (chk_ids db.accounts) db plain (chk_ids-Pending db.accounts),
  (rename_all_keeps env (chk_ids db.accounts) db fresh h t).0,
  (rename_all_keeps env (chk_ids db.accounts) db fresh h t).1,
)
