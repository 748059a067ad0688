-- ===== src/Queries/Cursor.antt =====
-- What stands behind a cursor of `list_transactions` (app/repositories/account_repository.py).
use e_bank_api.Prelude.{
  eq_iff, ne→eq_false, ℕ, String, ◌==◌, ◌≡◌, ◌≢◌, refl, ap, sym, ◌∙◌, Bool, true, false, ◌&&◌,
  Option, none, some, List, [], ◌∷◌, ◌++◌, All, map, ltb, if◌then◌else◌, arith, eq_refl,
}
use e_bank_api.Models.{Transaction, Db, ok, ◌then◌}
use e_bank_api.Recipients.{one_or_none}
use e_bank_api.Queries.{
  to_tx_record, Query, matches, below_cursor, keep_rows, reverse, take, selected, page, behind,
  list_transactions,
}
use e_bank_api.Queries.Pages.{
  IsSerial, All-keep_rows, keep_rows-IsSerial, by_id-IsSerial, keep_rows-keep_rows, keep_every,
  keep_none,
}
use e_bank_api.Queries.Newest.{
  All-at, All-reverse, sides_IsNewestFirst, reverse-IsNewestFirst, keep_rows-append,
  keep_rows-reverse,
}

-- The table as its keys leave it: ids grow, public ids are unique, and none is empty.
abbrev pub IsUnique : List Transaction → Type 0
IsUnique [] = Unit
IsUnique (t ∷ rows) = All (λ s. s.public_id ≢ t.public_id) rows × IsUnique rows

pub record IsStored (rows : List Transaction) : Type 0 where
  pub serial : IsSerial rows
  pub unique : IsUnique rows
  pub named : All (λ t. t.public_id ≢ "") rows

-- All rows that a query selects, the newest first.
abbrev pub newest : String → Query → Db → List Transaction
newest id q db = reverse (selected id q none db.transactions)

All-both :
    (P Q R : Transaction → Type 0) (rows : List Transaction)
    → ((t : Transaction) → P t → Q t → R t)
    → All P rows
    → All Q rows
    → All R rows
All-both P Q R [] f h k = tt
All-both P Q R (t ∷ rows) f (p, h) (q, k) = (f t p q, All-both P Q R rows f h k)

abbrev same : String → Transaction → Transaction → Bool
same id t s = s.public_id == t.public_id && (s.account_id == id)

same_self : (id : String) (t : Transaction) → t.account_id ≡ id → same id t t ≡ true
same_self id t e = rw (eq_refl t.public_id, e, eq_refl id)

same_other : (id : String) (t s : Transaction) → s.public_id ≢ t.public_id → same id t s ≡ false
same_other id t s ne = ap (λ b. b && (s.account_id == id)) (ne→eq_false s.public_id t.public_id ne)

pub All-each :
    (P Q : Transaction → Type 0) (rows : List Transaction)
    → ((t : Transaction) → P t → Q t)
    → All P rows
    → All Q rows
All-each P Q [] f h = tt
All-each P Q (t ∷ rows) f (p, h) = (f t p, All-each P Q rows f h)

alone :
    (b : Bool) (t : Transaction) (rest : List Transaction)
    → b ≡ true
    → rest ≡ []
    → (if b then t ∷ rest else rest) ≡ t ∷ []
alone b t rest e e' = rw (e, e')

-- The lookup of a cursor finds its row alone.
keep_rows-same :
    (id : String) (rows : List Transaction)
    → IsUnique rows
    → All (λ t. t.account_id ≡ id → keep_rows (same id t) rows ≡ t ∷ []) rows
unfolding keep_rows
keep_rows-same id [] h = tt
keep_rows-same id (s ∷ rows) (h, k) = (
  λ e.
      alone (same id s s) s (keep_rows (same id s) rows) (same_self id s e)
        (keep_none (same id s) rows (All-each _ _ rows (λ u ne. same_other id s u ne) h)),
  All-both _ _ _ rows (λ t ne found e. rw (same_other id t s (λ e'. ne (sym e'))) (found e)) h
      (keep_rows-same id rows k),
)

-- Below the id of a row are the rows behind it.
keep_rows_behind :
    (xs : List Transaction) (t : Transaction) (ys rows : List Transaction)
    → IsSerial rows
    → reverse rows ≡ xs ++ t ∷ ys
    → reverse (keep_rows (λ s. ltb s.id t.id) rows) ≡ ys
unfolding keep_rows
keep_rows_behind xs t ys rows h e =
    let below : Transaction → Bool = λ s. ltb s.id t.id in
    let sides = sides_IsNewestFirst xs t ys (rw (← e) (reverse-IsNewestFirst rows h)) in
    sym (keep_rows-reverse below rows)
    ∙ ap (keep_rows below) e
    ∙ keep_rows-append below xs (t ∷ ys)
    ∙ ap (λ zs. zs ++ keep_rows below (t ∷ ys))
        (keep_none below xs (All-each _ _ xs (λ s lt. ground arith) (sides.0)))
    ∙ ground arith
    ∙ keep_every below ys (All-each _ _ ys (λ s lt. ground arith) (sides.1))

-- A cursor with what it leaves to read: at the start all rows, later those behind one of them.
pub data StandsBefore (id : String) (q : Query) (db : Db)
    : Option String → List Transaction → Type 0 where
  at_start : StandsBefore id q db none (newest id q db)
  behind_row :
      (xs : List Transaction) (t : Transaction) (ys : List Transaction)
      → newest id q db ≡ xs ++ t ∷ ys
      → StandsBefore id q db (some t.public_id) ys

pub keep_rows_each :
    (keep : Transaction → Bool) (rows : List Transaction)
    → All (λ t. keep t ≡ true) (keep_rows keep rows)
unfolding keep_rows
keep_rows_each keep [] = tt
keep_rows_each keep (t ∷ rows) = by (keep t) refl (keep_rows_each keep rows)
  where
    by :
        (b : Bool)
        → keep t ≡ b
        → All (λ s. keep s ≡ true) (keep_rows keep rows)
        → All (λ s. keep s ≡ true) (if b then t ∷ keep_rows keep rows else keep_rows keep rows)
    by true e k = (e, k)
    by false e k = k

swapped : (a b c : Bool) → (a && b && c) ≡ (b && (a && true && c))
swapped true b c = refl
swapped false true c = refl
swapped false false c = refl

left : (a b : Bool) → (a && b) ≡ true → a ≡ true
left a b e = ground arith

module _ (id : String) (q : Query) (db : Db) (h : IsStored db.transactions) where
  abbrev selects : Option ℕ → Transaction → Bool
  selects before t = t.account_id == id && below_cursor before t.id && matches q t

  page_start :
      (n : ℕ)
      → q.chronological ≡ false
      → page id n q none db ≡ map to_tx_record (take n (newest id q db))
  unfolding page selected
  page_start n e = rw (
    e,
    by_id-IsSerial (selected id q none db.transactions)
        (keep_rows-IsSerial (selects none) db.transactions h.serial),
  )

  selected_behind :
      (m : ℕ)
      → selected id q (some m) db.transactions
        ≡ keep_rows (λ s. ltb s.id m) (selected id q none db.transactions)
  unfolding selected
  selected_behind m =
      keep_rows-keep_rows (λ s. ltb s.id m) (selects none) (selects (some m)) db.transactions
        (λ t. swapped (t.account_id == id) (ltb t.id m) (matches q t))

  selected-IsSerial : (before : Option ℕ) → IsSerial (selected id q before db.transactions)
  unfolding selected
  selected-IsSerial before = keep_rows-IsSerial (selects before) db.transactions h.serial

  page_behind :
      (xs : List Transaction) (t : Transaction) (ys : List Transaction) (n : ℕ)
      → q.chronological ≡ false
      → newest id q db ≡ xs ++ t ∷ ys
      → page id n q (some t.id) db ≡ map to_tx_record (take n ys)
  unfolding page
  page_behind xs t ys n e split = rw (
    e,
    by_id-IsSerial (selected id q (some t.id) db.transactions) (selected-IsSerial (some t.id)),
    selected_behind t.id,
    keep_rows_behind xs t ys (selected id q none db.transactions) (selected-IsSerial none) split,
  )

  abbrev IsOwn : Transaction → Type 0
  IsOwn t = (keep_rows (same id t) db.transactions ≡ t ∷ []) × (t.public_id ≢ "")

  abbrev IsFound : Transaction → Type 0
  IsFound t =
      (t.account_id ≡ id → keep_rows (same id t) db.transactions ≡ t ∷ []) × (t.public_id ≢ "")

  newest-IsOwn : All IsOwn (newest id q db)
  unfolding selected
  newest-IsOwn = All-reverse IsOwn _ (
      All-both (λ t. selects none t ≡ true) IsFound IsOwn _
        (λ t e k. (
          k.0 (
              (eq_iff t.account_id id).0 (
                left (t.account_id == id) true
                  (left (t.account_id == id && true) (matches q t) e))),
          k.1,
        ))
        (keep_rows_each (selects none) db.transactions)
        (All-keep_rows IsFound (selects none) db.transactions (
          All-both _ _ IsFound db.transactions (λ t u v. (u, v))
            (keep_rows-same id db.transactions h.unique) h.named)))

  pub list_transactions-take :
      (n : ℕ) (cursor : Option String) (ys : List Transaction)
      → q.chronological ≡ false
      → StandsBefore id q db cursor ys
      → list_transactions id n cursor q db ≡ ok (map to_tx_record (take n ys))
  unfolding list_transactions one_or_none behind
  list_transactions-take n _ _ e at_start = ap ok (page_start n e)
  list_transactions-take n _ _ e (behind_row xs t ys split) =
      let own : IsOwn t = All-at IsOwn xs t ys (rw (← split) newest-IsOwn) in
      rw (list_transactions, ne→eq_false t.public_id "" (own.1), own.0)
        (ap ok (page_behind xs t ys n e split))
