-- ===== src/Filters.antt =====
-- The filters of a statement (app/services/demo_service.py), from a request's texts to a query.
pub mod Types
use Prim.Native.String.{◌++◌ as concat}
use e_bank_api.Prelude.{
  ℕ, String, ◌==◌, Bool, true, false, not, ◌&&◌, ◌||◌, Option, none, some, List, [], ◌∷◌, map, ltb,
  leb, truthy, is_some, if◌then◌else◌,
}
use e_bank_api.Prelude.Int.{ℤ, pos, ◌+ℤ◌, leb_ℤ}
use e_bank_api.Prelude.Table.{find}
use e_bank_api.Prelude.Texts.{take}
use e_bank_api.Errors.{Error, account_not_found, forbidden_account_access, overflow_error}
use e_bank_api.Models.{Account, Holder, Db, Outcome, ok, err, ◌then◌}
use e_bank_api.Ledger.{get_account}
use e_bank_api.Accounts.{AccountRecord, to_record}
use e_bank_api.Validation.{Texts, Date, mask_document, format_account_display}
use e_bank_api.OnboardingAccounts.{is_text}
use e_bank_api.Recipients.{holder_of}
use e_bank_api.Queries
use e_bank_api.Queries.{
  TransactionRecord, Query, list_by_owner_kind, get_transaction_by_public_id, sum_amount_before,
}
use e_bank_api.Presentation.{
  Shown, Counterparty, no_counterparty, Presented, present_transaction, title_case_name,
  type_filter_match,
}

-- What the statement takes from Python: texts, `date.fromisoformat`, the instant at which a day starts
-- and, if dates go that far, the one at which it ends, and comparisons with `Decimal(text)`, which may
-- be no number.
pub record Clerk : Type 0 where
  pub shown : Shown
  pub fromisoformat : String → Option Date
  pub midnight : Date → ℕ
  pub midnight_after : Date → Option ℕ
  pub at_least : String → Option (ℤ → Bool)
  pub at_most : String → Option (ℤ → Bool)

-- The filters as a request brings them.
pub record Filters : Type 0 where
  pub date_from : Option String
  pub date_to : Option String
  pub tx_type : Option String
  pub direction : Option String
  pub min_amount : Option String
  pub max_amount : Option String

module _ (c : Clerk) where
  -- The texts of the statement.
  abbrev pub texts : Texts
  texts = c.shown.texts

  stripped : Option String → Option String
  stripped none = none
  stripped (some s) = truthy (some (texts.strip s))

  -- `_optional_decimal`, with the comparison that is made
  bound : (String → Option (ℤ → Bool)) → Option String → Option (ℤ → Bool)
  unfolding stripped
  bound compare raw = elim (stripped raw) [ none ↦ none | some s ↦ compare s ]

  unfoldable pub types_named : Option String → List String
  types_named none = []
  types_named (some f) =
      let key = texts.lower (texts.strip f) in
      if f == "all"
      then []
      else if key == "transfer"
      then "transfer_in" ∷ "transfer_out" ∷ "pix_in" ∷ "pix_out" ∷ []
      else if key == "grant"
      then "demo_grant" ∷ "deposit" ∷ "interest" ∷ "refund" ∷ []
      else if key == "withdraw"
      then "withdraw" ∷ []
      else key ∷ []

  -- `_types_for_filter`; no list is an empty one
  unfoldable pub types_for_filter : Option String → List String
  unfolding types_named
  types_for_filter tx_type = types_named (truthy tx_type)

  -- `_parse_utc_day`: what is no date is no bound
  unfoldable pub day : Option String → Option Date
  unfolding stripped
  day raw = elim (stripped raw) [ none ↦ none | some s ↦ c.fromisoformat (take 10 s) ]

  unfoldable pub start_of : Option Date → Option ℕ
  start_of none = none
  start_of (some d) = some (c.midnight d)

  end_of : Option Date → Outcome (Option ℕ)
  end_of none = ok none
  end_of (some d) = elim (c.midnight_after d) [ none ↦ err overflow_error | some at ↦ ok (some at) ]

  lowered : Option String → Option String
  unfolding stripped
  lowered raw = elim (stripped raw) [ none ↦ none | some s ↦ truthy (some (texts.lower s)) ]

  -- The query that a request's filters stand for.
  unfoldable pub query_of : Filters → Bool → Outcome Query
  unfolding day start_of end_of types_for_filter bound lowered stripped
  query_of f chronological = end_of (day f.date_to) then λ until. ok (record {
    created_from = start_of (day f.date_from);
    created_to = until;
    types = types_for_filter f.tx_type;
    min_amount = bound c.at_least f.min_amount;
    max_amount = bound c.at_most f.max_amount;
    direction = lowered f.direction;
    chronological = chronological;
  })

  unfoldable pub matching : Option String → List TransactionRecord → List TransactionRecord
  matching tx_type [] = []
  matching tx_type (t ∷ rows) =
      let rest = matching tx_type rows in
      if type_filter_match c.shown t.type tx_type then t ∷ rest else rest

  -- The filter behind the query, for a type that the query does not have.
  unfoldable pub soft_filter :
      Option String → List String → List TransactionRecord → List TransactionRecord
  unfolding matching
  soft_filter tx_type (t ∷ types) rows = rows
  soft_filter tx_type [] rows = if is_some (truthy tx_type) then matching tx_type rows else rows
