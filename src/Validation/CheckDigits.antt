-- ===== src/Validation/CheckDigits.antt =====
-- The rule for the two check digits of a CPF and of a CNPJ, and the tests of
-- app/domain/validation.py.
use e_bank_api.Prelude.{
  ◌↔◌, ℕ, zero, suc, ◌+◌, ◌*◌, ◌-◌, ◌%◌, ◌≡◌, refl, ap, sym, ◌∙◌, Bool, true, ◌&&◌, List, [], ◌∷◌,
  ◌++◌, ltb, eqb, length, length-append, if◌then◌else◌, arith,
}
use e_bank_api.Validation.{weighted, nth, cpf_digit, cnpj_digit}

-- The sum of the rule for check digits, on the digits before one: from the right they weigh 2, 3, 4
-- and so on, again from 2 on after as many as the cycle.
abbrev pub rule_sum : ℕ → List ℕ → ℕ
rule_sum cycle [] = 0
rule_sum cycle (n ∷ digits) = n * (2 + length digits % cycle) + rule_sum cycle digits

-- What is missing to a multiple of 11, and 0 where that is 10 or 11.
abbrev pub check_digit : ℕ → ℕ
check_digit s = if ltb (s % 11) 2 then 0 else 11 - s % 11

-- The two last digits are the check digits of those before them.
pub record EndsInChecks (cycle : ℕ) (digits : List ℕ) : Type 0 where
  pub before : List ℕ
  pub first : ℕ
  pub second : ℕ
  pub all_digits : digits ≡ before ++ first ∷ second ∷ []
  pub first_checks : check_digit (rule_sum cycle before) ≡ first
  pub second_checks : check_digit (rule_sum cycle (before ++ first ∷ [])) ≡ second

-- The weights of the rule for n digits.
abbrev pub weights_of : ℕ → ℕ → List ℕ
weights_of cycle zero = []
weights_of cycle (suc n) = (2 + n % cycle) ∷ weights_of cycle n

weighted-rule :
    (cycle : ℕ) (before tail : List ℕ)
    → weighted (before ++ tail) (weights_of cycle (length before)) ≡ rule_sum cycle before
unfolding weighted
weighted-rule cycle [] [] = refl
weighted-rule cycle [] (n ∷ tail) = refl
weighted-rule cycle (n ∷ before) tail =
    ap (λ s. n * (2 + length before % cycle) + s) (weighted-rule cycle before tail)

nth-append : (before tail : List ℕ) (n : ℕ) → nth (before ++ n ∷ tail) (length before) ≡ n
nth-append [] tail n = refl
nth-append (m ∷ before) tail n = nth-append before tail n

append_one : (before tail : List ℕ) (n : ℕ) → before ++ n ∷ tail ≡ (before ++ n ∷ []) ++ tail
append_one [] tail n = refl
append_one (m ∷ before) tail n = ap (λ l. m ∷ l) (append_one before tail n)

length-append_one : (before : List ℕ) (n : ℕ) → length (before ++ n ∷ []) ≡ suc (length before)
length-append_one [] n = refl
length-append_one (m ∷ before) n = ap suc (length-append_one before n)

-- A list of n+2 digits ends in two.
split_end :
    (n : ℕ) (digits : List ℕ)
    → length digits ≡ suc (suc n)
    → (before : List ℕ) × (first : ℕ) × (second : ℕ) × (digits ≡ before ++ first ∷ second ∷ [])
      × (length before ≡ n)
split_end n [] h = absurd (omega (arith, h))
split_end n (a ∷ []) h = absurd (omega (arith, h))
split_end zero (a ∷ b ∷ []) h = ([], a, b, refl, refl)
split_end (suc n) (a ∷ b ∷ []) h = absurd (omega (arith, h))
split_end zero (a ∷ b ∷ c ∷ digits) h = absurd (omega (arith, h))
split_end (suc n) (a ∷ b ∷ c ∷ digits) h =
    let (before, first, second, same, size) = split_end n (b ∷ c ∷ digits) (omega (arith, h)) in
    (a ∷ before, first, second, ap (λ l. a ∷ l) same, ap suc size)

length_before :
    (n : ℕ) (before : List ℕ) (a b : ℕ)
    → length (before ++ a ∷ b ∷ []) ≡ suc (suc n)
    → length before ≡ n
length_before n before a b h = omega (arith, h, length-append before (a ∷ b ∷ []))

-- The sums and the numbers that the code takes of all digits.
first_sum :
    (cycle n : ℕ) (before : List ℕ) (a b : ℕ)
    → length before ≡ n
    → weighted (before ++ a ∷ b ∷ []) (weights_of cycle n) ≡ rule_sum cycle before
first_sum cycle n before a b size =
    ap (λ m. weighted (before ++ a ∷ b ∷ []) (weights_of cycle m)) (sym size)
    ∙ weighted-rule cycle before (a ∷ b ∷ [])

second_sum :
    (cycle n : ℕ) (before : List ℕ) (a b : ℕ)
    → length before ≡ n
    → weighted (before ++ a ∷ b ∷ []) (weights_of cycle (suc n)) ≡ rule_sum cycle (before ++ a ∷ [])
second_sum cycle n before a b size =
    ap (λ l. weighted l (weights_of cycle (suc n))) (append_one before (b ∷ []) a)
    ∙ ap (λ m. weighted ((before ++ a ∷ []) ++ b ∷ []) (weights_of cycle m))
        (sym (length-append_one before a ∙ ap suc size))
    ∙ weighted-rule cycle (before ++ a ∷ []) (b ∷ [])

nth_first :
    (n : ℕ) (before : List ℕ) (a b : ℕ) → length before ≡ n → nth (before ++ a ∷ b ∷ []) n ≡ a
nth_first n before a b size =
    ap (nth (before ++ a ∷ b ∷ [])) (sym size) ∙ nth-append before (b ∷ []) a

nth_second :
    (n : ℕ) (before : List ℕ) (a b : ℕ) → length before ≡ n → nth (before ++ a ∷ b ∷ []) (suc n) ≡ b
nth_second n before a b size =
    ap (λ l. nth l (suc n)) (append_one before (b ∷ []) a)
    ∙ ap (nth ((before ++ a ∷ []) ++ b ∷ [])) (sym (length-append_one before a ∙ ap suc size))
    ∙ nth-append (before ++ a ∷ []) [] b

pub cpf_digit-check_digit : (s : ℕ) → cpf_digit s ≡ check_digit s
unfolding cpf_digit
cpf_digit-check_digit s = ground arith

pub cnpj_digit-check_digit : (s : ℕ) → cnpj_digit s ≡ check_digit s
unfolding cnpj_digit
cnpj_digit-check_digit s = refl

two_tests :
    (x y u v x' y' u' v' : ℕ)
    → x ≡ x'
    → y ≡ y'
    → u ≡ u'
    → v ≡ v'
    → ((eqb x u && eqb y v) ≡ true) ↔ ((x' ≡ u') × (y' ≡ v'))
two_tests x y u v x' y' u' v' p q r w = (ground arith, ground arith)

module _ (cycle n : ℕ) (digit : ℕ → ℕ) (rule : (s : ℕ) → digit s ≡ check_digit s)
    (digits : List ℕ) where
  -- The code's test of both digits, by the weights of the rule.
  abbrev tested : Bool
  tested =
      eqb (digit (weighted digits (weights_of cycle n))) (nth digits n)
      && eqb (digit (weighted digits (weights_of cycle (suc n)))) (nth digits (suc n))

  tested_iff :
      (before : List ℕ) (a b : ℕ)
      → digits ≡ before ++ a ∷ b ∷ []
      → length before ≡ n
      → (tested ≡ true) ↔ (
          (check_digit (rule_sum cycle before) ≡ a)
          × (check_digit (rule_sum cycle (before ++ a ∷ [])) ≡ b))
  tested_iff before a b same short =
      two_tests _ _ _ _ _ _ _ _
        (rule _
          ∙ ap check_digit
              (ap (λ l. weighted l (weights_of cycle n)) same ∙ first_sum cycle n before a b short))
        (rule _
          ∙ ap check_digit (
              ap (λ l. weighted l (weights_of cycle (suc n))) same
              ∙ second_sum cycle n before a b short))
        (ap (λ l. nth l n) same ∙ nth_first n before a b short)
        (ap (λ l. nth l (suc n)) same ∙ nth_second n before a b short)

  -- It decides whether the digits end in both check digits.
  pub checks_iff : length digits ≡ suc (suc n) → (tested ≡ true) ↔ EndsInChecks cycle digits
  checks_iff size = (
    λ h.
        let (before, a, b, same, short) = split_end n digits size in
        let (one, two) = (tested_iff before a b same short).0 h in
        record {
          before = before;
          first = a;
          second = b;
          all_digits = same;
          first_checks = one;
          second_checks = two;
        },
    λ e.
        (tested_iff e.before e.first e.second e.all_digits
            (length_before n e.before e.first e.second (ap length (sym e.all_digits) ∙ size))).1
          (e.first_checks, e.second_checks),
  )
