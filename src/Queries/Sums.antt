-- ===== src/Queries/Sums.antt =====
-- Sums over the rows of a statement (app/repositories/account_repository.py).
use mathlib.Core.Path.{subst}
use e_bank_api.Prelude.{
  Bool-cases, inl, inr, not, ℕ, zero, suc, ◌≤◌, String, ◌==◌, ◌≡◌, refl, ap, ◌∙◌, Bool, true, false,
  ◌&&◌, none, List, [], ◌∷◌, All, map, length, ltb, leb, if◌then◌else◌, arith,
}
use e_bank_api.Prelude.Int.{ℤ, pos, ◌+ℤ◌, int_laws}
use e_bank_api.Models.{Transaction, Db}
use e_bank_api.Accounts.{sum_rows}
use e_bank_api.Queries.{
  Query, matches, no_earlier, keep_rows, take, selected, page, sum_if, to_tx_record,
}
use e_bank_api.Queries.Pages.{IsSerial, by_id-IsSerial, keep_rows-IsSerial}

-- Rows are entered in the order of their times.
abbrev pub IsTimed : List Transaction → Type 0
IsTimed [] = Unit
IsTimed (t ∷ rows) = All (λ s. t.created_at ≤ s.created_at) rows × IsTimed rows

-- A query for all rows from some time on, the oldest first.
pub record IsWhole (q : Query) : Type 0 where
  pub to_now : q.created_to ≡ none
  pub any_type : q.types ≡ []
  pub no_least : q.min_amount ≡ none
  pub no_most : q.max_amount ≡ none
  pub both_ways : q.direction ≡ none
  pub oldest_first : q.chronological ≡ true

all_true : (b : Bool) → (b && true && true && true && true && true) ≡ b
all_true true = refl
all_true false = refl

matches_whole :
    (q : Query) (t : Transaction) → IsWhole q → matches q t ≡ no_earlier q.created_from t.created_at
unfolding matches
matches_whole q t w =
    rw (w.to_now, w.any_type, w.no_least, w.no_most, w.both_ways)
      (all_true (no_earlier q.created_from t.created_at))

pub sum_if_same :
    (p r : Transaction → Bool) (rows : List Transaction)
    → ((t : Transaction) → p t ≡ r t)
    → sum_if p rows ≡ sum_if r rows
unfolding sum_if
sum_if_same p r [] h = refl
sum_if_same p r (t ∷ rows) h = rw (h t, sum_if_same p r rows h) refl

pub sum_if-sum_rows :
    (id : String) (rows : List Transaction)
    → sum_if (λ t. t.account_id == id) rows ≡ sum_rows id rows
unfolding sum_if sum_rows
sum_if-sum_rows id [] = refl
sum_if-sum_rows id (t ∷ rows) =
    ap (λ x. (if t.account_id == id then t.amount else pos 0) +ℤ x) (sum_if-sum_rows id rows)

ltb-not : (m n : ℕ) → ltb m n ≡ not (leb n m)
ltb-not m n = ground arith

split_by :
    (late : Bool) (x a b : ℤ)
    → ((if not late then x else pos 0) +ℤ a) +ℤ ((if late then x else pos 0) +ℤ b) ≡ x +ℤ (a +ℤ b)
split_by true x a b = omega int_laws
split_by false x a b = omega int_laws

split_at :
    (own : Bool) (x a b : ℤ) (at m : ℕ)
    → ((if own && ltb m at then x else pos 0) +ℤ a) +ℤ ((if own && leb at m then x else pos 0) +ℤ b)
      ≡ (if own then x else pos 0) +ℤ (a +ℤ b)
split_at false x a b at m = omega int_laws
split_at true x a b at m = rw (ltb-not m at) (split_by (leb at m) x a b)

-- What an account moved before a time and from it on is all that it moved.
pub sum_if_split :
    (id : String) (at : ℕ) (rows : List Transaction)
    → sum_if (λ t. t.account_id == id && ltb t.created_at at) rows
        +ℤ sum_if (λ t. t.account_id == id && leb at t.created_at) rows
      ≡ sum_rows id rows
unfolding sum_if sum_rows
sum_if_split id at [] = omega int_laws
sum_if_split id at (t ∷ rows) =
    split_at (t.account_id == id) t.amount _ _ at t.created_at
    ∙ ap (λ x. (if t.account_id == id then t.amount else pos 0) +ℤ x) (sum_if_split id at rows)

not_ltb : (n m : ℕ) → n ≤ m → ltb m n ≡ false
not_ltb n m le = ground arith

not_before :
    (own : Bool) (x rest : ℤ) (at m : ℕ)
    → at ≤ m
    → rest ≡ pos 0
    → (if own && ltb m at then x else pos 0) +ℤ rest ≡ pos 0
not_before false x rest at m le e = rw e (omega int_laws)
not_before true x rest at m le e = rw (e, not_ltb at m le) (omega int_laws)

sum_if_none :
    (id : String) (at : ℕ) (rows : List Transaction)
    → All (λ s. at ≤ s.created_at) rows
    → sum_if (λ t. t.account_id == id && ltb t.created_at at) rows ≡ pos 0
unfolding sum_if
sum_if_none id at [] h = refl
sum_if_none id at (t ∷ rows) (le, h) =
    not_before (t.account_id == id) t.amount _ at t.created_at le (sum_if_none id at rows h)

head_kept :
    (b : Bool) (s t : Transaction) (rows rest : List Transaction)
    → b ≡ true
    → (if b then s ∷ rows else rows) ≡ t ∷ rest
    → s ≡ t
head_kept true s t rows rest b e = cc
head_kept false s t rows rest b e = absurd (cc)

head_dropped :
    (b : Bool) (s : Transaction) (rows kept : List Transaction)
    → b ≡ false
    → (if b then s ∷ rows else rows) ≡ kept
    → rows ≡ kept
head_dropped true s rows kept b e = absurd (cc)
head_dropped false s rows kept b e = e

-- Nothing was moved before the first row.
pub sum_if_first :
    (id : String) (t : Transaction) (rest rows : List Transaction)
    → IsTimed rows
    → keep_rows (λ s. s.account_id == id) rows ≡ t ∷ rest
    → sum_if (λ s. s.account_id == id && ltb s.created_at t.created_at) rows ≡ pos 0
unfolding sum_if keep_rows
sum_if_first id t rest [] h e = refl
sum_if_first id t rest (s ∷ rows) (le, h) e = elim (Bool-cases (s.account_id == id)) [
  | inl own ↦
      let same : s ≡ t = head_kept (s.account_id == id) s t _ rest own e in
      subst
        (λ u. sum_if (λ v. v.account_id == id && ltb v.created_at u.created_at) (s ∷ rows) ≡ pos 0)
        same
        (not_before (s.account_id == id) s.amount _ s.created_at s.created_at (omega arith)
          (sum_if_none id s.created_at rows le))
  | inr other ↦
      rw
        (
          other,
          sum_if_first id t rest rows h (head_dropped (s.account_id == id) s _ (t ∷ rest) other e),
        )
        (omega int_laws)
]

pub take_whole : {A : Type 0} (n : ℕ) (rows : List A) → length rows ≤ n → take n rows ≡ rows
unfolding take
take_whole zero [] le = refl
take_whole zero (a ∷ rows) le = absurd (omega arith)
take_whole (suc n) [] le = refl
take_whole (suc n) (a ∷ rows) le = ap (λ xs. a ∷ xs) (take_whole n rows (omega arith))

drop_true : (a b : Bool) → (a && true && b) ≡ (a && b)
drop_true true b = refl
drop_true false b = refl

abbrev pub is_due : String → Query → Transaction → Bool
is_due id q t = t.account_id == id && no_earlier q.created_from t.created_at

-- A page that is large enough has every row of the account from that time on.
pub page_whole :
    (id : String) (n : ℕ) (q : Query) (db : Db)
    → IsWhole q
    → IsSerial db.transactions
    → length (selected id q none db.transactions) ≤ n
    → page id n q none db ≡ map to_tx_record (selected id q none db.transactions)
unfolding page selected
page_whole id n q db w serial le =
    rw
      (
        by_id-IsSerial (selected id q none db.transactions)
            (keep_rows-IsSerial _ db.transactions serial),
        w.oldest_first,
      )
      (ap (map to_tx_record) (take_whole n (selected id q none db.transactions) le))

pub keep_rows_test :
    (p r : Transaction → Bool) (rows : List Transaction)
    → ((t : Transaction) → p t ≡ r t)
    → keep_rows p rows ≡ keep_rows r rows
unfolding keep_rows
keep_rows_test p r [] h = refl
keep_rows_test p r (t ∷ rows) h = rw (h t, keep_rows_test p r rows h) refl

pub selected_due :
    (id : String) (q : Query) (rows : List Transaction)
    → IsWhole q
    → selected id q none rows ≡ keep_rows (is_due id q) rows
unfolding selected
selected_due id q rows w = keep_rows_test _ (is_due id q) rows (λ t.
    ap (λ b. (t.account_id == id && true) && b) (matches_whole q t w)
    ∙ drop_true (t.account_id == id) _)
