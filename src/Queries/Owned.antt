-- ===== src/Queries/Owned.antt =====
-- The rows of a page (app/repositories/account_repository.py) are the account's.
use mathlib.Core.Path.{subst}
use e_bank_api.Prelude.{
  refl, ℕ, zero, suc, String, ◌==◌, eq_iff, ◌≡◌, Bool, true, false, ◌&&◌, Option, none, some, List,
  [], ◌∷◌, All, map, leb, if◌then◌else◌, truthy, arith,
}
use e_bank_api.Models.{Transaction, Db, Outcome, ok, err, ◌then◌}
use e_bank_api.Recipients.{one_or_none}
use e_bank_api.Queries.{
  TransactionRecord, to_tx_record, Query, matches, below_cursor, keep_rows, insert_by_id, by_id,
  reverse, take, selected, page, behind, list_transactions,
}
use e_bank_api.Queries.Newest.{All-reverse}
use e_bank_api.Queries.Cursor.{All-each, keep_rows_each}

pub All-take :
    {A : Type 0} (P : A → Type 0) (n : ℕ) (rows : List A) → All P rows → All P (take n rows)
unfolding take
All-take P zero rows h = tt
All-take P (suc n) [] h = tt
All-take P (suc n) (t ∷ rows) (p, h) = (p, All-take P n rows h)

All-insert_by_id :
    (P : Transaction → Type 0) (t : Transaction) (rows : List Transaction)
    → P t
    → All P rows
    → All P (insert_by_id t rows)
unfolding insert_by_id
All-insert_by_id P t [] p h = (p, tt)
All-insert_by_id P t (s ∷ rows) p (q, h) = by (leb t.id s.id) (All-insert_by_id P t rows p h)
  where
    by :
        (b : Bool)
        → All P (insert_by_id t rows)
        → All P (if b then t ∷ s ∷ rows else s ∷ insert_by_id t rows)
    by true k = (p, (q, h))
    by false k = (q, k)

All-by_id : (P : Transaction → Type 0) (rows : List Transaction) → All P rows → All P (by_id rows)
unfolding by_id
All-by_id P [] h = tt
All-by_id P (t ∷ rows) (p, h) = All-insert_by_id P t (by_id rows) p (All-by_id P rows h)

abbrev pub IsOf : String → TransactionRecord → Type 0
IsOf id t = t.account_id ≡ id

All-to_tx_record :
    (id : String) (rows : List Transaction)
    → All (λ t. t.account_id ≡ id) rows
    → All (IsOf id) (map to_tx_record rows)
unfolding to_tx_record
All-to_tx_record id [] h = tt
All-to_tx_record id (t ∷ rows) (p, h) = (p, All-to_tx_record id rows h)

first_of : (a b c : Bool) → (a && b && c) ≡ true → a ≡ true
first_of a b c e = ground arith

page-IsOf :
    (id : String) (n : ℕ) (q : Query) (before : Option ℕ) (db : Db)
    → All (IsOf id) (page id n q before db)
unfolding page selected
page-IsOf id n q before db =
    All-to_tx_record id _ (All-take (λ t. t.account_id ≡ id) n _ (by q.chronological))
  where
    own : All (λ t. t.account_id ≡ id) (by_id (selected id q before db.transactions))
    own =
        All-by_id (λ t. t.account_id ≡ id) _
          (All-each _ (λ t. t.account_id ≡ id) _
            (λ t e.
              (eq_iff t.account_id id).0
                (first_of (t.account_id == id) (below_cursor before t.id) (matches q t) e))
            (keep_rows_each (λ t. t.account_id == id && below_cursor before t.id && matches q t)
              db.transactions))

    by :
        (b : Bool)
        → All
            (λ t. t.account_id ≡ id)
            (if b
              then by_id (selected id q before db.transactions)
              else reverse (by_id (selected id q before db.transactions)))
    by true = own
    by false = All-reverse (λ t. t.account_id ≡ id) _ own

pub then-ok :
    {A B : Type 0} (r : Outcome A) (f : A → Outcome B) {b : B}
    → (r then f) ≡ ok b
    → (a : A) × (r ≡ ok a) × (f a ≡ ok b)
then-ok (ok a) f h = (a, refl, h)
then-ok (err e) f h = absurd (cc)

behind-IsOf :
    (id : String) (n : ℕ) (q : Query) (found : Option Transaction) (db : Db)
    → All (IsOf id) (behind id n q found db)
unfolding behind
behind-IsOf id n q none db = tt
behind-IsOf id n q (some t) db = page-IsOf id n q (some t.id) db

answered :
    (id : String) (xs rows : List TransactionRecord)
    → ok xs ≡ ok rows
    → All (IsOf id) xs
    → All (IsOf id) rows
answered id xs rows e h = let same : xs ≡ rows = cc in subst (All (IsOf id)) same h

pub list_transactions-IsOf :
    (id : String) (n : ℕ) (cursor : Option String) (q : Query) (db : Db)
    (rows : List TransactionRecord)
    → list_transactions id n cursor q db ≡ ok rows
    → All (IsOf id) rows
unfolding list_transactions
list_transactions-IsOf id n cursor q db rows h = by (truthy cursor) h
  where
    at_cursor : String → Outcome (List TransactionRecord)
    at_cursor k =
        one_or_none (keep_rows (λ t. t.public_id == k && (t.account_id == id)) db.transactions)
        then λ found. ok (behind id n q found db)

    by :
        (o : Option String)
        → (let r : Outcome (List TransactionRecord) = elim o [
          | none ↦ ok (page id n q none db)
          | some k ↦ at_cursor k
        ] in
            r)
          ≡ ok rows
        → All (IsOf id) rows
    by none e = answered id (page id n q none db) rows e (page-IsOf id n q none db)
    by (some k) e =
        let (found, _, rest) =
          then-ok
            (one_or_none
              (keep_rows (λ t. t.public_id == k && (t.account_id == id)) db.transactions))
            _ e in
        answered id (behind id n q found db) rows rest (behind-IsOf id n q found db)
