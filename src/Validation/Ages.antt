-- ===== src/Validation/Ages.antt =====
-- `require_adult` against the calendar (app/domain/validation.py).
use e_bank_api.Prelude.{◌+◌, ◌<◌, ◌≤◌, ◌≡◌, ◌↔◌, ◌⊎◌, arith}
use e_bank_api.Prelude.Int.{int_laws}
use e_bank_api.Models.{ok}
use e_bank_api.Validation.{Date, age_years, before_birthday, require_adult}

-- One date is not after another.
abbrev pub IsNotAfter : Date → Date → Type 0
IsNotAfter d e =
    (d.year < e.year)
    ⊎ ((d.year ≡ e.year) × ((d.month < e.month) ⊎ ((d.month ≡ e.month) × (d.day ≤ e.day))))

-- The same day of the year eighteen years on.
abbrev pub eighteenth : Date → Date
eighteenth d = record d { year = d.year + 18 }

-- An applicant passes `require_adult` exactly from the eighteenth birthday on.
pub require_adult_iff :
    (birth today : Date)
    → (require_adult birth today ≡ ok birth) ↔ IsNotAfter (eighteenth birth) today
unfolding require_adult age_years before_birthday
require_adult_iff birth today = (grind (arith, int_laws), grind (arith, int_laws))
