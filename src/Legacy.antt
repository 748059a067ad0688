-- ===== src/Legacy.antt =====
-- app/services/account_service.py: the integer ledger behind the legacy routes.
pub mod Mirrored
pub mod Kept
pub mod Money
use e_bank_api.Prelude.{ℕ, suc, ◌+◌, ◌*◌, ◌/◌, String, Option, none, some, Bool, if◌then◌else◌}
use e_bank_api.Prelude.Int.{ℤ, pos, negsuc, ◌-ℤ◌, ltb_ℤ, leb_ℤ}
use e_bank_api.Errors.{Error, account_not_found, insufficient_funds, invalid_amount}
use e_bank_api.Models.{
  Db, Env, Outcome, ok, err, Action, pure, raise, gets, or_raise, ◌>>=◌, ◌>>◌, raise_if,
}
use e_bank_api.Accounts
use e_bank_api.Accounts.{AccountRecord}

-- `class Account`: an id and a whole balance.
pub record Balance : Type 0 where
  pub id : String
  pub balance : ℤ

abbrev pub overdraft_limit : ℤ
overdraft_limit = negsuc 999

-- `int(balance)`: towards zero, from hundredths.
unfoldable pub to_int_balance : ℤ → ℤ
to_int_balance (pos n) = pos (n / 100)
to_int_balance (negsuc n) = pos 0 -ℤ pos (suc n / 100)

-- `Decimal(amount)`, in hundredths.
unfoldable pub to_decimal : ℤ → ℤ
to_decimal (pos n) = pos (n * 100)
to_decimal (negsuc n) = negsuc (n * 100 + 99)

pub validate_amount : ℤ → Action (Unit {0})
validate_amount amount = raise_if (leb_ℤ amount (pos 0)) invalid_amount

pub validate_limit : String → ℤ → ℤ → Action (Unit {0})
validate_limit origin current amount =
    raise_if (ltb_ℤ (current -ℤ amount) overdraft_limit) (insufficient_funds origin)

unfoldable pub get_balance : String → Action ℤ
unfolding to_int_balance
get_balance id = do
  found ← Accounts.get id
  account ← or_raise (account_not_found id) found
  pure (to_int_balance account.balance)

pub deposit_into : Env → String → ℤ → Option AccountRecord → Action Balance
unfolding to_int_balance to_decimal
deposit_into env destination amount none = do
  created ← Accounts.create env destination (to_decimal amount)
  pure (record { id = destination; balance = to_int_balance created.balance })
deposit_into env destination amount (some _) = do
  updated ← Accounts.record_transaction env destination (to_decimal amount) "deposit" none
  pure (record { id = destination; balance = to_int_balance updated.balance })

unfoldable pub deposit : Env → String → ℤ → Action Balance
unfolding validate_amount deposit_into
deposit env destination amount = do
  validate_amount amount
  found ← Accounts.get_for_update destination
  deposit_into env destination amount found

-- The checks that `withdraw` and `transfer` begin with, on the locked row of the origin.
unfoldable pub checked : String → ℤ → Action AccountRecord
unfolding validate_amount validate_limit to_int_balance
checked origin amount = do
  validate_amount amount
  found ← Accounts.get_for_update origin
  account ← or_raise (account_not_found origin) found
  validate_limit origin (to_int_balance account.balance) amount
  pure account

unfoldable pub withdraw : Env → String → ℤ → Action Balance
unfolding checked to_int_balance to_decimal
withdraw env origin amount = do
  checked origin amount
  updated ← Accounts.record_transaction env origin (pos 0 -ℤ to_decimal amount) "withdraw" none
  pure (record { id = origin; balance = to_int_balance updated.balance })

-- The rest of `transfer`: the destination may be new.
unfoldable pub settle : Env → String → String → ℤ → Action (Balance × Balance)
unfolding to_int_balance to_decimal
settle env origin destination amount = do
  Accounts.ensure_account destination
  again ← Accounts.get origin
  _ ← or_raise (account_not_found origin) again
  dest ← Accounts.get destination
  _ ← or_raise (account_not_found destination) dest
  updated_origin ←
      Accounts.record_transaction env origin (pos 0 -ℤ to_decimal amount) "transfer_out"
        (some destination)
  updated_destination ←
      Accounts.record_transaction env destination (to_decimal amount) "transfer_in" (some origin)
  pure (
    record { id = origin; balance = to_int_balance updated_origin.balance },
    record { id = destination; balance = to_int_balance updated_destination.balance },
  )

unfoldable pub transfer : Env → String → String → ℤ → Action (Balance × Balance)
unfolding checked settle
transfer env origin destination amount = do
  checked origin amount
  settle env origin destination amount
