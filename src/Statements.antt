-- ===== src/Statements.antt =====
-- The statement of app/services/demo_service.py: listing, one transaction, and the export.
pub mod Running
pub mod Owned
pub mod Closing
use Prim.Native.String.{◌++◌ as concat}
use e_bank_api.Prelude.{
  ℕ, String, ◌==◌, Bool, true, false, not, ◌&&◌, ◌||◌, Option, none, some, List, [], ◌∷◌, map, ltb,
  leb, truthy, is_some, if◌then◌else◌,
}
use e_bank_api.Prelude.Int.{ℤ, pos, ◌+ℤ◌, leb_ℤ}
use e_bank_api.Prelude.Table.{find}
use e_bank_api.Prelude.Texts.{take}
use e_bank_api.Errors.{Error, account_not_found, forbidden_account_access, overflow_error}
use e_bank_api.Models.{Account, Holder, Db, Outcome, ok, err, ◌then◌}
use e_bank_api.Ledger.{get_account}
use e_bank_api.Accounts.{AccountRecord, to_record}
use e_bank_api.Validation.{Texts, Date, mask_document, format_account_display}
use e_bank_api.OnboardingAccounts.{is_text}
use e_bank_api.Recipients.{holder_of}
use e_bank_api.Queries
use e_bank_api.Queries.{
  TransactionRecord, Query, list_by_owner_kind, get_transaction_by_public_id, sum_amount_before,
}
use e_bank_api.Presentation.{
  Shown, Counterparty, no_counterparty, Presented, present_transaction, title_case_name,
  type_filter_match,
}
use e_bank_api.Filters.{Clerk, Filters, query_of, soft_filter}

-- `_require_owned_account`
unfoldable pub owned_record : String → String → Option Account → Outcome AccountRecord
unfolding to_record
owned_record subject id none = err (account_not_found id)
owned_record subject id (some a) =
    if not (a.kind == "checking")
    then err (account_not_found id)
    else if not (is_text a.owner_subject subject)
    then err (forbidden_account_access id)
    else ok (to_record a)

-- `_require_owned_checking`
unfoldable pub first_record : String → List AccountRecord → Outcome AccountRecord
first_record subject [] = err (account_not_found "checking")
first_record subject (a ∷ rows) =
    if is_text a.owner_subject subject then ok a else err (forbidden_account_access a.id)

unfoldable pub resolve_owned_checking : String → Option String → Db → Outcome AccountRecord
unfolding owned_record first_record list_by_owner_kind
resolve_owned_checking subject account_id db = elim (truthy account_id) [
  | some id ↦ owned_record subject id (get_account id db)
  | none ↦ first_record subject (list_by_owner_kind subject "checking" db)
]

abbrev pub display_number : Texts → Option ℕ → Option ℕ → Option String
display_number t none digit = none
display_number t (some n) none = none
display_number t (some n) (some d) = some (format_account_display t n d)

-- One of the two sides that a receipt names.
pub record ReceiptParty : Type 0 where
  pub account_id : Option String
  pub display_number : Option String
  pub holder_name : String
  pub document_masked : Option String

pub record TransactionDetail : Type 0 where
  pub row : Presented
  pub origin : ReceiptParty
  pub destination : ReceiptParty

pub record StatementRow : Type 0 where
  pub item : Presented
  pub balance_after : ℤ

-- What `build_statement_csv` and `build_statement_pdf` are given.
pub record Statement : Type 0 where
  pub holder_name : String
  pub account_display : String
  pub currency : String
  pub period_label : String
  pub opening_balance : ℤ
  pub closing_balance : ℤ
  pub rows : List StatementRow

abbrev pub export_max_rows : ℕ
export_max_rows = 500

name_of : Option Holder → Option String
name_of none = none
name_of (some h) = some h.full_name

document_of : Option Holder → Option String
document_of none = none
document_of (some h) = h.document_number

module _ (c : Clerk) where
  context : Db → Option Account → Option Counterparty
  unfolding name_of document_of
  context db none = none
  context db (some a) =
      let holder = holder_of a.owner_subject db in
      some (record {
        account_id = some a.id;
        display_number = display_number c.shown.texts a.account_number a.digit;
        holder_name = name_of holder;
        document_number = document_of holder;
      })

  -- An entry of `_counterparty_map`, whose keys are the accounts that the rows name.
  unfoldable pub counterparty_of : Db → Option String → Option Counterparty
  unfolding context
  counterparty_of db id = elim (truthy id) [ none ↦ none | some k ↦ context db (get_account k db) ]

  or_nobody : Option Counterparty → Counterparty
  or_nobody none = no_counterparty
  or_nobody (some cp) = cp

  unfoldable pub present_row : Db → String → TransactionRecord → Presented
  unfolding counterparty_of or_nobody
  present_row db currency t =
      present_transaction c.shown t currency
        (or_nobody (counterparty_of db t.counterparty_account_id)) "pt"

  -- `list_transactions` of the service
  unfoldable pub list_transactions :
      String → ℕ → Option String → Option String → Filters → Db → Outcome (List Presented)
  unfolding query_of soft_filter present_row
  list_transactions subject limit cursor account_id f db =
      resolve_owned_checking subject account_id db then λ account. query_of c f false then λ q.
      Queries.list_transactions account.id (if ltb 100 limit then 100 else limit) cursor q db
      then λ rows. ok (map (present_row db account.currency) (soft_filter c f.tx_type q.types rows))

  own_party : AccountRecord → Db → ReceiptParty
  unfolding name_of document_of
  own_party a db =
      let holder = holder_of a.owner_subject db in
      record {
        account_id = some a.id;
        display_number = display_number c.shown.texts a.account_number a.digit;
        holder_name = title_case_name c.shown (name_of holder);
        document_masked = mask_document c.shown.texts (document_of holder);
      }

  other_party : Option String → Option Counterparty → ReceiptParty
  unfolding or_nobody
  other_party id cp = record {
    account_id = id;
    display_number = (or_nobody cp).display_number;
    holder_name = title_case_name c.shown (or_nobody cp).holder_name;
    document_masked = mask_document c.shown.texts (or_nobody cp).document_number;
  }

  -- `_parties_for`: money that came in has this account as its destination.
  unfoldable pub detail_of : Db → AccountRecord → TransactionRecord → TransactionDetail
  unfolding present_row own_party other_party
  detail_of db a t =
      let own = own_party a db in
      let other =
        other_party t.counterparty_account_id (counterparty_of db t.counterparty_account_id) in
      let incoming = leb_ℤ (pos 0) t.amount in
      record {
        row = present_row db a.currency t;
        origin = if incoming then other else own;
        destination = if incoming then own else other;
      }

  unfoldable pub found_detail :
      String → String → Db → Option TransactionRecord → Outcome TransactionDetail
  unfolding detail_of
  found_detail subject public_id db none = err (account_not_found public_id)
  found_detail subject public_id db (some t) =
      owned_record subject t.account_id (get_account t.account_id db) then λ a.
      ok (detail_of db a t)

  unfoldable pub get_transaction : String → String → Db → Outcome TransactionDetail
  unfolding found_detail
  get_transaction subject public_id db =
      get_transaction_by_public_id public_id db then found_detail subject public_id db

  -- The loop over the rows, with the balance behind each.
  unfoldable pub running_rows : Db → String → ℤ → List TransactionRecord → List StatementRow
  unfolding present_row
  running_rows db currency running [] = []
  running_rows db currency running (t ∷ rows) =
      let after = running +ℤ t.amount in
      record { item = present_row db currency t; balance_after = after }
      ∷ running_rows db currency after rows

  unfoldable pub running_total : ℤ → List TransactionRecord → ℤ
  running_total running [] = running
  running_total running (t ∷ rows) = running_total (running +ℤ t.amount) rows

  unfoldable pub first_time : List TransactionRecord → Option ℕ
  first_time [] = none
  first_time (t ∷ rows) = some t.created_at

  -- The balance before the period, or before the first row.
  unfoldable pub opening_of : String → Option ℕ → List TransactionRecord → Db → ℤ
  unfolding first_time
  opening_of id from rows db =
      let since : Option ℕ = elim from [ some at ↦ some at | none ↦ first_time rows ] in
      elim since [ none ↦ pos 0 | some at ↦ sum_amount_before id at db ]

  period_label : Option String → Option String → String
  period_label from until = elim (truthy from) [
    | none ↦ elim (truthy until) [ none ↦ "all available" | some u ↦ concat "until " u ]
    | some f ↦ elim (truthy until) [ none ↦ concat "from " f | some u ↦ concat f (concat " — " u) ]
  ]

  or_dash : String → String
  or_dash s = if s == "" then "—" else s

  or_id : Option String → String → String
  or_id none id = id
  or_id (some s) id = if s == "" then id else s

  unfoldable pub statement_of :
      String → Filters → AccountRecord → Query → List TransactionRecord → Db → Statement
  unfolding opening_of running_total running_rows period_label or_dash or_id name_of
  statement_of subject f account q rows db =
      let opening = opening_of account.id q.created_from rows db in
      record {
        holder_name = or_dash (title_case_name c.shown (name_of (holder_of (some subject) db)));
        account_display =
            or_id (display_number c.shown.texts account.account_number account.digit) account.id;
        currency = account.currency;
        period_label = period_label f.date_from f.date_to;
        opening_balance = opening;
        closing_balance = running_total opening rows;
        rows = running_rows db account.currency opening rows;
      }

  -- `export_statement`, up to the layout of the file
  unfoldable pub export_statement : String → Option String → Filters → Db → Outcome Statement
  unfolding query_of soft_filter statement_of
  export_statement subject account_id f db =
      resolve_owned_checking subject account_id db then λ account. query_of c f true then λ q.
      Queries.list_transactions account.id export_max_rows none q db then λ rows.
      ok (statement_of subject f account q (soft_filter c f.tx_type q.types rows) db)
