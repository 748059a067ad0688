-- ===== src/Prelude/Texts.antt =====
-- Slices of texts by characters, as Python's `s[:n]` and `s[n:]`.
use Prim.Native.Nat.{ℕ, zero, suc}
use Prim.Native.String.{String}

abbrev pub take : ℕ → String → String
take zero s = String.[]
take (suc n) String.[] = String.[]
take (suc n) (String.◌∷◌ c s) = String.◌∷◌ c (take n s)

abbrev pub drop : ℕ → String → String
drop zero s = s
drop (suc n) String.[] = String.[]
drop (suc n) (String.◌∷◌ c s) = drop n s
