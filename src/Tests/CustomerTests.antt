-- ===== src/Tests/CustomerTests.antt =====
-- Customers' requests, and the theorems at them.
use Prim.Native.Char.{code}
use mathlib.Core.Option
use e_bank_api.Prelude.{
  ◌++◌, ℕ, ◌-◌, String, ◌==◌, ◌≡◌, ◌≢◌, ◌⊎◌, ◌↔◌, refl, true, false, ◌&&◌, none, some, [], ◌∷◌,
  is_some, truthy, leb, if◌then◌else◌,
}
use e_bank_api.Prelude.Int.{ℤ, pos, ◌+ℤ◌, ◌-ℤ◌, ◌≤ℤ◌}
use e_bank_api.Prelude.Table.{find, save}
use e_bank_api.Errors.{idempotent_replay}
use e_bank_api.Models.{Account, Db, Env, User, ok, err, ◌>>=◌}
use e_bank_api.Ledger
use e_bank_api.Ledger.{ensure_customer_ledger_account, get_account, welcome_grant, withdraw}
use e_bank_api.Ledger.Mirror.{adjust}
use e_bank_api.Money.{parse_positive_money, hundredths, above}
use e_bank_api.Validation.{
  Texts, format_account_display, Date, digits_only, require_adult, validate_document,
}
use e_bank_api.Validation.Ages.{IsNotAfter, eighteenth, require_adult_iff}
use e_bank_api.Validation.Documents.{IsCpf, IsCnpj, validate_document_iff}
use e_bank_api.OnboardingAccounts.{
  require_ready, get_owned_checking, Numbering, is_ready, number_taken, create_draft_checking,
}
use e_bank_api.OnboardingAccounts.Numbers.{create_draft_total}
use e_bank_api.Transfers.{
  view, view, answer, unless_replay, ledger_step, within_limit, ready_if_owned, locked_pair,
  account_row, resolved_row, destination_of, require_active, require_owned_account, origin_of,
  parties, Settings, TransferArgs, TransferView, checked_amount, audit_of, transfer,
}
use e_bank_api.Recipients.{resolve}
use e_bank_api.Transfers.Guards.{IsKeyed, IsOwn}
use e_bank_api.Transfers.Effect.{moves, customer_transfer_effect}
use e_bank_api.Tests.Samples.{start, env}
use e_bank_api.Tests.LedgerTests.{granted}

-- ASCII digits, and texts that need no stripping.
abbrev pub ascii : Texts
ascii = record {
  digit_value = λ c. if leb b'0' (code c) && leb (code c) b'9' then some (code c - b'0') else none;
  strip = λ s. s;
  lower = λ s. s;
  show = λ n. "n";
  is_email = λ s. true;
}

abbrev birth : Date
birth = record { year = 2000; month = 2; day = 29 }

abbrev pub today : Date
today = record { year = 2018; month = 3; day = 1 }

require_adult_iff_example :
    (require_adult birth today ≡ ok birth) ↔ IsNotAfter (eighteenth birth) today
require_adult_iff_example = require_adult_iff birth today

-- A CPF with right check digits, as typed.
valid_cpf : validate_document ascii "529.982.247-25" ≡ ok ("cpf", "52998224725")
unfolding validate_document
valid_cpf = refl

abbrev cpf_kind : String
cpf_kind = "cpf"

abbrev typed_digits : String
typed_digits = digits_only ascii "529.982.247-25"

validate_document_iff_example :
    (validate_document ascii "529.982.247-25" ≡ ok ("cpf", "52998224725")) ↔ (
      ("52998224725" ≡ typed_digits)
      × (((cpf_kind ≡ "cpf") × IsCpf ascii typed_digits)
          ⊎ ((cpf_kind ≡ "cnpj") × IsCnpj ascii typed_digits)))
validate_document_iff_example = validate_document_iff ascii "529.982.247-25" "cpf" "52998224725"

abbrev carol : User
carol = record { subject = "carol"; email = none; display_name = none }

abbrev with_carol : Db
with_carol = record start { users = carol ∷ [] }

abbrev pub numbering : Numbering
numbering = record { start = 1; currency = "USD"; nextval = none }

-- Identifiers that no account has.
abbrev fresh_env : Env
fresh_env = record env { uuid = λ n. "u" }

create_draft_total_example :
    (a : Account) × (n : ℕ) × ((create_draft_checking fresh_env numbering "carol" with_carol).0
      ≡ ok a)
    × ((create_draft_checking fresh_env numbering "carol" with_carol).1.accounts
        ≡ with_carol.accounts ++ a ∷ [])
    × (a.owner_subject ≡ some "carol")
    × (a.onboarding_status ≡ "in_progress")
    × (a.account_number ≡ some n)
    × (number_taken n with_carol.accounts ≡ false)
unfolding find
create_draft_total_example =
    create_draft_total fresh_env numbering "carol" carol with_carol refl refl (λ n. refl)

abbrev pub settings : Settings
settings = record {
  decimal = λ s. if s == "1.20" then hundredths (pos 120) else hundredths (pos 1000000);
  texts = ascii;
  max_transfer_amount = "10000.00";
  welcome_currency = "USD";
}

abbrev wanted : TransferArgs
wanted = record {
  amount = "1.20";
  source_account_id = some "a1";
  destination_account_id = none;
  destination_account = some "2-7";
  destination_document = none;
  memo = none;
  request_id = none;
  idempotency_key = some "k2";
  source_ip = none;
  user_agent = none;
}

-- Alice sends 1.20 to account 2-7.
abbrev sent : Db
sent = (transfer settings env "alice" wanted granted).1

abbrev receipt : TransferView
receipt = record {
  origin = record {
    id = "a1";
    display_number = some "n-n";
    balance = pos 380;
    holder_name = none;
    holder_email = none;
  };
  destination = record {
    id = "b2";
    display_number = some "n-n";
    balance = pos 120;
    holder_name = none;
    holder_email = none;
  };
  amount = pos 120;
  memo = none;
  currency = "USD";
}

transfer_runs_customer : transfer settings env "alice" wanted granted ≡ (ok receipt, sent)
unfolding transfer parties origin_of require_owned_account require_active get_owned_checking
    require_ready destination_of resolved_row resolve account_row locked_pair ready_if_owned
    checked_amount within_limit parse_positive_money above ledger_step unless_replay answer view
    format_account_display Ledger.transfer ensure_customer_ledger_account Ledger.post
    Ledger.check_replay Ledger.check_lines Ledger.write_journal find save ◌+ℤ◌ ◌-ℤ◌ ◌>>=◌
transfer_runs_customer = refl

granted-IsKeyed : IsKeyed granted
unfolding Ledger.post Ledger.check_replay Ledger.check_lines Ledger.write_journal find save ◌+ℤ◌
    ◌>>=◌
granted-IsKeyed = (refl, (refl, tt))

no_cash_account : get_account Ledger.sys_cash_id granted ≡ none
unfolding Ledger.post Ledger.check_replay Ledger.check_lines Ledger.write_journal find save ◌+ℤ◌
    ◌>>=◌
no_cash_account = refl

customer_transfer_effect_example :
    (is_some (truthy wanted.idempotency_key) ≡ true)
    × ((o : Account) × (d : Account) × (x : ℤ) × (checked_amount settings "1.20" ≡ ok x)
        × (pos 1 ≤ℤ x)
        × (above settings.decimal x "10000.00" ≡ ok false)
        × IsOwn "alice" o
        × (d.id ≢ o.id)
        × (is_some d.owner_subject ≡ true → is_ready d ≡ true)
        × (((o.overdraft_limit ≤ℤ o.balance_cached -ℤ x)
              × ((id : String)
                  → get_account id sent
                    ≡ Option.map (adjust (moves o d x id)) (get_account id granted)))
            ⊎ (((id : String) × ((Ledger.transfer env o d x
                      (audit_of settings "alice" wanted)
                      granted).0
                    ≡ err (idempotent_replay id)))
                × (sent.accounts ≡ granted.accounts))))
customer_transfer_effect_example =
    customer_transfer_effect settings env "alice" wanted receipt granted sent granted-IsKeyed
      no_cash_account transfer_runs_customer
