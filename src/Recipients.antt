-- ===== src/Recipients.antt =====
-- app/services/recipient.py: who is meant by an account number or a document.
use e_bank_api.Prelude.{
  ℕ, String, ◌==◌, Bool, false, ◌&&◌, Option, none, some, List, [], ◌∷◌, truthy, eqb, if◌then◌else◌,
}
use e_bank_api.Prelude.Table.{find}
use e_bank_api.Errors.{account_not_found, onboarding_error, multiple_results}
use e_bank_api.Models.{Account, Holder, Db, Outcome, ok, err, Action, ◌then◌}
use e_bank_api.Validation.{
  Texts, mask_document, parse_account_display, format_account_display, validate_document,
}
use e_bank_api.OnboardingAccounts.{is_text, select_ordered}

pub record ResolvedRecipient : Type 0 where
  pub account_id : String
  pub account_display : String
  pub holder_name : String
  pub document_masked : Option String
  pub owner_subject : String

-- `scalar_one_or_none`
unfoldable pub one_or_none : {A : Type 0} → List A → Outcome (Option A)
one_or_none [] = ok none
one_or_none (a ∷ []) = ok (some a)
one_or_none (a ∷ b ∷ rows) = err multiple_results

abbrev is_number : Option ℕ → ℕ → Bool
is_number none n = false
is_number (some m) n = eqb m n

-- `select(Account).where(account_number == number, digit == digit)`
unfoldable pub by_number : ℕ → ℕ → List Account → List Account
by_number number digit [] = []
by_number number digit (a ∷ rows) =
    let rest = by_number number digit rows in
    if is_number a.account_number number && is_number a.digit digit then a ∷ rest else rest

-- `select(Holder).where(document_number == doc)`
unfoldable pub by_document : String → List Holder → List Holder
by_document doc [] = []
by_document doc (h ∷ rows) =
    let rest = by_document doc rows in if is_text h.document_number doc then h ∷ rest else rest

abbrev pub holder_key : Holder → String
holder_key h = h.subject

-- `_holder`
unfoldable pub holder_of : Option String → Db → Option Holder
holder_of subject db = elim (truthy subject) [ none ↦ none | some s ↦ find holder_key s db.holders ]

abbrev or_empty : Option String → String
or_empty none = ""
or_empty (some s) = s

abbrev active : String → Option Account → Outcome Account
active shown none = err (account_not_found shown)
active shown (some a) = if a.status == "active" then ok a else err (account_not_found shown)

module _ (t : Texts) where
  shown_holder : Account → ℕ → ℕ → Option Holder → ResolvedRecipient
  shown_holder a number digit none = record {
    account_id = a.id;
    account_display = format_account_display t number digit;
    holder_name = or_empty a.owner_subject;
    document_masked = none;
    owner_subject = or_empty a.owner_subject;
  }
  shown_holder a number digit (some h) = record {
    account_id = a.id;
    account_display = format_account_display t number digit;
    holder_name = h.full_name;
    document_masked = mask_document t h.document_number;
    owner_subject = or_empty a.owner_subject;
  }

  unfoldable pub resolve_account : String → Db → Outcome ResolvedRecipient
  unfolding parse_account_display by_number one_or_none holder_of shown_holder
  resolve_account account db = parse_account_display t account then λ parts.
      one_or_none (by_number parts.0 parts.1 db.accounts) then λ found.
      active account found then λ a.
      ok (shown_holder a parts.0 parts.1 (holder_of a.owner_subject db))

  numbered : String → Holder → Account → Option ℕ → Option ℕ → Outcome ResolvedRecipient
  numbered doc h a (some number) (some digit) = ok (record {
    account_id = a.id;
    account_display = format_account_display t number digit;
    holder_name = h.full_name;
    document_masked = mask_document t h.document_number;
    owner_subject = h.subject;
  })
  numbered doc h a none digit = err (account_not_found doc)
  numbered doc h a (some number) none = err (account_not_found doc)

  only_one : String → Holder → List Account → Outcome ResolvedRecipient
  unfolding numbered
  only_one doc h [] = err (account_not_found doc)
  only_one doc h (a ∷ []) = numbered doc h a a.account_number a.digit
  only_one doc h (a ∷ b ∷ rows) =
      err (onboarding_error "multiple accounts for this document; use account number")

  -- The active checking accounts of a holder.
  unfoldable pub accounts_of : Holder → Db → List Account
  unfolding select_ordered
  accounts_of h db =
      select_ordered
        (λ a. is_text a.owner_subject h.subject && (a.kind == "checking") && (a.status == "active"))
        db.accounts

  by_holder : String → Option Holder → Db → Outcome ResolvedRecipient
  unfolding accounts_of only_one
  by_holder doc none db = err (account_not_found doc)
  by_holder doc (some h) db = only_one doc h (accounts_of h db)

  unfoldable pub resolve_document : String → Db → Outcome ResolvedRecipient
  unfolding validate_document by_document one_or_none by_holder
  resolve_document document db = validate_document t document then λ parts.
      one_or_none (by_document parts.1 db.holders) then λ found. by_holder parts.1 found db

  unfoldable pub resolve_one : Option String → Option String → Db → Outcome ResolvedRecipient
  unfolding resolve_account resolve_document
  resolve_one (some account) none db = resolve_account account db
  resolve_one none (some document) db = resolve_document document db
  resolve_one none none db = err (onboarding_error "provide exactly one of account or document")
  resolve_one (some _) (some _) db =
      err (onboarding_error "provide exactly one of account or document")

  -- `RecipientResolver.resolve`
  unfoldable pub resolve : Option String → Option String → Action ResolvedRecipient
  unfolding resolve_one
  resolve account document db = (resolve_one (truthy account) (truthy document) db, db)
