-- ===== src/Tests/RateLimitTests.antt =====
-- Calls of one subject, and the theorem at them.
use e_bank_api.Prelude.{◌≡◌, refl, false, none, [], arith}
use e_bank_api.Models.{ok}
use e_bank_api.RateLimit.{Counters, Limits, allow, calls, allow_nth}

abbrev pub two_a_minute : Limits
two_a_minute = record { limit = 2; window_seconds = 60 }

abbrev no_calls : Counters
no_calls = record { counts = λ key. none; now = 1000; faults = [] }

-- The third call is refused.
allow_nth_example :
    (allow two_a_minute "alice" (calls two_a_minute "alice" 2 no_calls)).0 ≡ ok (false, 0, 60)
allow_nth_example = allow_nth two_a_minute "alice" 2 no_calls refl refl (omega arith)
