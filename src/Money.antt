-- ===== src/Money.antt =====
-- app/domain/money.py: amounts of two decimal places, read from text.
use e_bank_api.Prelude.{String, Bool, if◌then◌else◌}
use e_bank_api.Prelude.Int.{ℤ, pos, leb_ℤ, ltb_ℤ}
use e_bank_api.Errors.{invalid_amount, invalid_operation}
use e_bank_api.Models.{Outcome, ok, err, ◌then◌}

-- What Python's `Decimal(text)` and then `quantize(Decimal("0.01"))` give: no decimal; a decimal
-- for which `quantize` raises (an infinity, or more digits than the context has); NaN; or a number
-- of hundredths.
pub data Quantized : Type 0 where
  malformed unquantizable not_a_number : Quantized
  hundredths : ℤ → Quantized

pub data Money : Type 0 where
  nan : Money
  cents : ℤ → Money

abbrev of_quantized : Quantized → Outcome Money
of_quantized malformed = err invalid_amount
of_quantized unquantizable = err invalid_operation
of_quantized not_a_number = ok nan
of_quantized (hundredths x) = ok (cents x)

-- An order test on NaN raises.
abbrev amount : Money → Outcome ℤ
amount nan = err invalid_operation
amount (cents x) = ok x

module _ (decimal : String → Quantized) where
  -- `Money(value)`
  unfoldable pub money : String → Outcome Money
  money value = of_quantized (decimal value)

  unfoldable pub parse_positive_money : String → Outcome ℤ
  unfolding money
  parse_positive_money value =
      money value then λ m. amount m then λ x. if leb_ℤ x (pos 0) then err invalid_amount else ok x

  -- `Money(limit)`, and whether the amount is above it.
  unfoldable pub above : ℤ → String → Outcome Bool
  unfolding money
  above x limit = money limit then λ m. amount m then λ most. ok (ltb_ℤ most x)
