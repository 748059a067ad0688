-- ===== src/Statements/Owned.antt =====
-- Whose money a statement shows (app/services/demo_service.py).
use mathlib.Core.Path.{subst}
use e_bank_api.Prelude.{
  ℕ, String, eq_iff, ◌≡◌, refl, ap, Bool, true, false, Option, none, some, List, [], ◌∷◌, All, map,
  arith, if◌then◌else◌, ltb, truthy, is_some,
}
use e_bank_api.Models.{Account, Db, Outcome, ok, ◌then◌}
use e_bank_api.Ledger.{get_account}
use e_bank_api.Accounts.{AccountRecord, to_record}
use e_bank_api.OnboardingAccounts.{is_text}
use e_bank_api.Queries
use e_bank_api.Queries.{list_by_owner_kind, TransactionRecord, get_transaction_by_public_id}
use e_bank_api.Queries.Owned.{then-ok, IsOf, list_transactions-IsOf}
use e_bank_api.Presentation.{type_filter_match, Presented, present_transaction}
use e_bank_api.Filters.{Clerk, Filters, query_of, matching, soft_filter}
use e_bank_api.Statements.{
  owned_record, TransactionDetail, detail_of, list_transactions, resolve_owned_checking,
  first_record, found_detail, present_row, get_transaction,
}

-- The id is that of a checking account of the customer.
abbrev pub IsOwnAccount : String → String → Db → Type 0
IsOwnAccount subject id db =
    (a : Account) × (get_account id db ≡ some a)
    × (a.kind ≡ "checking")
    × (a.owner_subject ≡ some subject)

is_text-eq : (o : Option String) (s : String) → is_text o s ≡ true → o ≡ some s
is_text-eq none s e = absurd (cc)
is_text-eq (some t) s e = ap some ((eq_iff t s).0 e)

owned_record-IsOwn :
    (subject id : String) (db : Db) (found : Option Account) (r : AccountRecord)
    → get_account id db ≡ found
    → owned_record subject id found ≡ ok r
    → IsOwnAccount subject id db
unfolding owned_record
owned_record-IsOwn subject id db none r e h = absurd (cc)
owned_record-IsOwn subject id db (some a) r e h = (
  a,
  e,
  (eq_iff a.kind "checking").0 (ground arith),
  is_text-eq a.owner_subject subject (ground arith),
)

owner-owned_record :
    (subject id : String) (found : Option Account) (r : AccountRecord)
    → owned_record subject id found ≡ ok r
    → r.owner_subject ≡ some subject
unfolding owned_record to_record
owner-owned_record subject id none r h = absurd (cc)
owner-owned_record subject id (some a) r h = is_text-eq r.owner_subject subject (ground arith)

owner-first_record :
    (subject : String) (rows : List AccountRecord) (r : AccountRecord)
    → first_record subject rows ≡ ok r
    → r.owner_subject ≡ some subject
unfolding first_record
owner-first_record subject [] r h = absurd (cc)
owner-first_record subject (a ∷ rows) r h = is_text-eq r.owner_subject subject (ground arith)

owner-resolved :
    (subject : String) (account_id : Option String) (db : Db) (r : AccountRecord)
    → resolve_owned_checking subject account_id db ≡ ok r
    → r.owner_subject ≡ some subject
unfolding resolve_owned_checking
owner-resolved subject account_id db r h = by (truthy account_id) h
  where
    by :
        (o : Option String)
        → (let answer : Outcome AccountRecord = elim o [
          | some id ↦ owned_record subject id (get_account id db)
          | none ↦ first_record subject (list_by_owner_kind subject "checking" db)
        ] in
            answer)
          ≡ ok r
        → r.owner_subject ≡ some subject
    by none e = owner-first_record subject (list_by_owner_kind subject "checking" db) r e
    by (some id) e = owner-owned_record subject id (get_account id db) r e

module _ (c : Clerk) where
  found_detail-IsOwn :
      (subject public_id : String) (db : Db) (found : Option TransactionRecord)
      (d : TransactionDetail)
      → found_detail c subject public_id db found ≡ ok d
      → IsOwnAccount subject d.row.account_id db
  unfolding found_detail detail_of present_row present_transaction
  found_detail-IsOwn subject public_id db none d h = absurd (cc)
  found_detail-IsOwn subject public_id db (some t) d h =
      let (a, owned, shown) =
        then-ok (owned_record subject t.account_id (get_account t.account_id db)) _ h in
      let answer : detail_of c db a t ≡ d = cc in
      let same : t.account_id ≡ d.row.account_id =
        ap (λ (x : TransactionDetail). x.row.account_id) answer in
      subst (λ id. IsOwnAccount subject id db) same
        (owned_record-IsOwn subject t.account_id db (get_account t.account_id db) a refl owned)

  -- A transaction that a customer is shown is of a checking account that the customer owns.
  pub get_transaction-IsOwnAccount :
      (subject public_id : String) (db : Db) (d : TransactionDetail)
      → get_transaction c subject public_id db ≡ ok d
      → IsOwnAccount subject d.row.account_id db
  unfolding get_transaction
  get_transaction-IsOwnAccount subject public_id db d h =
      let (found, _, shown) = then-ok (get_transaction_by_public_id public_id db) _ h in
      found_detail-IsOwn subject public_id db found d shown

  All-matching :
      (id : String) (tx_type : Option String) (rows : List TransactionRecord)
      → All (IsOf id) rows
      → All (IsOf id) (matching c tx_type rows)
  unfolding matching
  All-matching id tx_type [] h = tt
  All-matching id tx_type (t ∷ rows) (p, h) =
      by (type_filter_match c.shown t.type tx_type) (All-matching id tx_type rows h)
    where
      by :
          (b : Bool)
          → All (IsOf id) (matching c tx_type rows)
          → All (IsOf id) (if b then t ∷ matching c tx_type rows else matching c tx_type rows)
      by true k = (p, k)
      by false k = k

  All-soft_filter :
      (id : String) (tx_type : Option String) (types : List String) (rows : List TransactionRecord)
      → All (IsOf id) rows
      → All (IsOf id) (soft_filter c tx_type types rows)
  unfolding soft_filter
  All-soft_filter id tx_type (t ∷ types) rows h = h
  All-soft_filter id tx_type [] rows h = by (is_some (truthy tx_type))
    where
      by : (b : Bool) → All (IsOf id) (if b then matching c tx_type rows else rows)
      by true = All-matching id tx_type rows h
      by false = h

  All-present_row :
      (id currency : String) (db : Db) (rows : List TransactionRecord)
      → All (IsOf id) rows
      → All (λ p. p.account_id ≡ id) (map (present_row c db currency) rows)
  unfolding present_row present_transaction
  All-present_row id currency db [] h = tt
  All-present_row id currency db (t ∷ rows) (p, h) = (p, All-present_row id currency db rows h)

  -- When a customer's statement is listed, every row shown is of the account that
  -- `_resolve_owned_checking` answers with, and the customer owns that account.
  pub listed_rows-IsOf :
      (subject : String) (limit : ℕ) (cursor account_id : Option String) (f : Filters) (db : Db)
      (shown : List Presented)
      → list_transactions c subject limit cursor account_id f db ≡ ok shown
      → (a : AccountRecord) × (resolve_owned_checking subject account_id db ≡ ok a)
        × (a.owner_subject ≡ some subject)
        × All (λ p. p.account_id ≡ a.id) shown
  unfolding list_transactions
  listed_rows-IsOf subject limit cursor account_id f db shown h =
      let (a, owned, h1) = then-ok (resolve_owned_checking subject account_id db) _ h in
      let (q, _, h2) = then-ok (query_of c f false) _ h1 in
      let (rows, listed, h3) =
        then-ok (Queries.list_transactions a.id (if ltb 100 limit then 100 else limit) cursor q db)
          _ h2 in
      let own = list_transactions-IsOf a.id _ cursor q db rows listed in
      let all =
        All-present_row a.id a.currency db _ (All-soft_filter a.id f.tx_type q.types rows own) in
      let same : map (present_row c db a.currency) (soft_filter c f.tx_type q.types rows) ≡ shown =
        cc in
      (
        a,
        owned,
        owner-resolved subject account_id db a owned,
        subst (All (λ p. p.account_id ≡ a.id)) same all,
      )
