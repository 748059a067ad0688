-- ===== src/Statements/Running.antt =====
-- The balances of an exported statement (app/services/demo_service.py).
use e_bank_api.Prelude.{
  ℕ, Option, String, sym, ap, ◌∙◌, refl, [], inl, inr, none, some, ◌&&◌, ◌==◌, true, false,
  Bool-cases, map, ◌∷◌, Bool, ◌≡◌, List,
}
use e_bank_api.Prelude.Int.{zero_+ℤ, +ℤ_assoc, ℤ, pos, ◌+ℤ◌, int_laws}
use e_bank_api.Models.{ok, Transaction, Db}
use e_bank_api.Queries.{Query, no_earlier, sum_amount_before, keep_rows, sum_if, to_tx_record}
use e_bank_api.Accounts.{sum_rows, sum_balance}
use e_bank_api.Queries.Sums.{
  IsWhole, IsTimed, keep_rows_test, sum_if_same, sum_if-sum_rows, sum_if_split, sum_if_first,
}
use e_bank_api.Filters.{day, start_of, types_for_filter, query_of, Filters, Clerk}
use e_bank_api.Statements.{first_time, opening_of, running_total}

and_true : (b : Bool) → (b && true) ≡ b
and_true true = refl
and_true false = refl

module _ (c : Clerk) where
  running_total-keep_rows :
      (keep : Transaction → Bool) (x : ℤ) (rows : List Transaction)
      → running_total c x (map to_tx_record (keep_rows keep rows)) ≡ x +ℤ sum_if keep rows
  unfolding running_total keep_rows sum_if to_tx_record
  running_total-keep_rows keep x [] = omega int_laws
  running_total-keep_rows keep x (t ∷ rows) = elim (Bool-cases (keep t)) [
    | inl kept ↦
        rw kept (
          running_total-keep_rows keep (x +ℤ t.amount) rows
          ∙ +ℤ_assoc x t.amount (sum_if keep rows))
    | inr dropped ↦ rw dropped (running_total-keep_rows keep x rows ∙ omega int_laws)
  ]

  abbrev pub due : String → Option ℕ → Transaction → Bool
  due id from t = t.account_id == id && no_earlier from t.created_at

  own_due :
      (id : String) (rows : List Transaction)
      → keep_rows (due id none) rows ≡ keep_rows (λ t. t.account_id == id) rows
  own_due id rows =
      keep_rows_test (due id none) (λ t. t.account_id == id) rows
        (λ t. and_true (t.account_id == id))

  own_sum : (id : String) (rows : List Transaction) → sum_if (due id none) rows ≡ sum_rows id rows
  own_sum id rows =
      sum_if_same (due id none) (λ t. t.account_id == id) rows (λ t. and_true (t.account_id == id))
      ∙ sum_if-sum_rows id rows

  running_from_start :
      (id : String) (db : Db) (rows : List Transaction)
      → IsTimed db.transactions
      → keep_rows (due id none) db.transactions ≡ rows
      → running_total c (opening_of c id none (map to_tx_record rows) db) (map to_tx_record rows)
        ≡ sum_balance id db
  unfolding opening_of first_time sum_amount_before sum_balance to_tx_record
  running_from_start id db [] timed e =
      sym (ap (λ rows. running_total c (pos 0) (map to_tx_record rows)) e)
      ∙ running_total-keep_rows (due id none) (pos 0) db.transactions
      ∙ zero_+ℤ _
      ∙ own_sum id db.transactions
  running_from_start id db (t ∷ rest) timed e =
      let start : sum_amount_before id t.created_at db ≡ pos 0 =
        sum_if_first id t rest db.transactions timed (sym (own_due id db.transactions) ∙ e) in
      ap (λ x. running_total c x (map to_tx_record (t ∷ rest))) start
      ∙ sym (ap (λ rows. running_total c (pos 0) (map to_tx_record rows)) e)
      ∙ running_total-keep_rows (due id none) (pos 0) db.transactions
      ∙ zero_+ℤ _
      ∙ own_sum id db.transactions

  pub running_total-opening_of :
      (id : String) (from : Option ℕ) (db : Db)
      → IsTimed db.transactions
      → running_total c
          (opening_of c id from (map to_tx_record (keep_rows (due id from) db.transactions)) db)
          (map to_tx_record (keep_rows (due id from) db.transactions))
        ≡ sum_balance id db
  unfolding opening_of sum_amount_before sum_balance
  running_total-opening_of id (some at) db timed =
      running_total-keep_rows (due id (some at)) _ db.transactions
      ∙ sum_if_split id at db.transactions
  running_total-opening_of id none db timed = running_from_start id db _ timed refl

  -- A request for a statement with no filter but the day it starts.
  abbrev pub since : Option String → Filters
  since date_from = record {
    date_from = date_from;
    date_to = none;
    tx_type = none;
    direction = none;
    min_amount = none;
    max_amount = none;
  }

  abbrev pub since_query : Option String → Query
  since_query date_from = record {
    created_from = start_of c (day c date_from);
    created_to = none;
    types = [];
    min_amount = none;
    max_amount = none;
    direction = none;
    chronological = true;
  }

  pub query_of-since :
      (date_from : Option String) → query_of c (since date_from) true ≡ ok (since_query date_from)
  unfolding query_of types_for_filter
  query_of-since date_from = refl

  pub whole : (date_from : Option String) → IsWhole (since_query date_from)
  whole date_from = record {
    to_now = refl;
    any_type = refl;
    no_least = refl;
    no_most = refl;
    both_ways = refl;
    oldest_first = refl;
  }
