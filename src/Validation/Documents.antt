-- ===== src/Validation/Documents.antt =====
-- What a document that passes is like (app/domain/validation.py).
use Prim.Native.String.{count}
use Prim.Native.Char.{Char}
use text.Mathlib.TextLemmas.{length-cons}
use e_bank_api.Prelude.{
  inl, inr, Bool-cases, eq_refl, eq_iff, ℕ, Option, none, some, suc, List, [], ◌∷◌, sym, ap, ◌∙◌,
  length, ◌⊎◌, ◌↔◌, String, ◌≡◌, refl, Bool, true, false, is_some, if◌then◌else◌, arith,
}
use e_bank_api.Models.{ok}
use e_bank_api.Validation.CheckDigits.{
  EndsInChecks, checks_iff, cpf_digit-check_digit, cnpj_digit-check_digit,
}
use mathlib.Core.Path.{subst}
use e_bank_api.Validation.{
  digit_or_zero, cpf_digit, cnpj_digit, Char, Texts, all_same, digits_only, nums, cpf_checks,
  cnpj_checks, validate_cpf, validate_cnpj, validate_document,
}

-- The digits that a text reads as.
abbrev pub Reads : Texts → String → List ℕ → Type 0
Reads t String.[] [] = Unit
Reads t String.[] (n ∷ digits) = ⊥
Reads t (String.◌∷◌ c s) [] = ⊥
Reads t (String.◌∷◌ c s) (n ∷ digits) = (t.digit_value c ≡ some n) × Reads t s digits

-- Cleaning a character in front of a cleaned text.
clean_step :
    (digit : Bool) (t : Texts) (c : Char) (s : String)
    → is_some (t.digit_value c) ≡ digit
    → digits_only t s ≡ s
    → digits_only t (if digit then String.◌∷◌ c s else s) ≡ (if digit then String.◌∷◌ c s else s)
unfolding digits_only
clean_step true t c s h hs = rw (h, hs)
clean_step false t c s h hs = hs

digits_only-digits_only :
    (t : Texts) (s : String) → digits_only t (digits_only t s) ≡ digits_only t s
unfolding digits_only
digits_only-digits_only t String.[] = refl
digits_only-digits_only t (String.◌∷◌ c s) =
    clean_step (is_some (t.digit_value c)) t c (digits_only t s) refl (digits_only-digits_only t s)

nums-Reads : (t : Texts) (s : String) → Reads t (digits_only t s) (nums t (digits_only t s))
unfolding digits_only nums digit_or_zero
nums-Reads t String.[] = tt
nums-Reads t (String.◌∷◌ c s) = by (nums-Reads t s) (t.digit_value c) refl
  where
    by :
        Reads t (digits_only t s) (nums t (digits_only t s))
        → (o : Option ℕ) → t.digit_value c ≡ o
        → Reads t (digits_only t (String.◌∷◌ c s)) (nums t (digits_only t (String.◌∷◌ c s)))
    by rest none e = rw e rest
    by rest (some n) e = rw e (e ∙ ap (λ o. some (digit_or_zero t o)) (sym e), rest)

Reads-nums : (t : Texts) (s : String) (digits : List ℕ) → Reads t s digits → nums t s ≡ digits
unfolding nums
Reads-nums t String.[] [] h = refl
Reads-nums t String.[] (n ∷ digits) h = absurd h
Reads-nums t (String.◌∷◌ c s) [] h = absurd h
Reads-nums t (String.◌∷◌ c s) (n ∷ digits) (h, hs) = rw (h, Reads-nums t s digits hs) refl

length-nums : (t : Texts) (s : String) → length (nums t s) ≡ count s
unfolding nums
length-nums t String.[] = refl
length-nums t (String.◌∷◌ c s) = ap suc (length-nums t s) ∙ sym (length-cons c s)

-- A text of one character, however often.
abbrev pub Repeats : Char → String → Type 0
Repeats c String.[] = Unit
Repeats c (String.◌∷◌ d s) = (d ≡ c) × Repeats c s

all_same-Repeats : (c : Char) (s : String) → Repeats c s → all_same s ≡ true
unfolding all_same
all_same-Repeats c String.[] h = refl
all_same-Repeats c (String.◌∷◌ d String.[]) h = refl
all_same-Repeats c (String.◌∷◌ d (String.◌∷◌ e s)) (p, (q, h)) =
    rw (p, sym q, eq_refl (String.◌∷◌ e String.[])) (all_same-Repeats c (String.◌∷◌ e s) (q, h))

Repeats-all_same :
    (c : Char) (s : String) → all_same (String.◌∷◌ c s) ≡ true → Repeats c (String.◌∷◌ c s)
unfolding all_same
Repeats-all_same c String.[] h = (refl, tt)
Repeats-all_same c (String.◌∷◌ d s) h =
    let same : d ≡ c =
      ground (arith, h, eq_iff (String.◌∷◌ c String.[]) (String.◌∷◌ d String.[])) in
    let rest : all_same (String.◌∷◌ d s) ≡ true = ground (arith, h) in
    (refl, (same, (subst (λ x. Repeats x (String.◌∷◌ d s)) same (Repeats-all_same d s rest)).1))

-- A text is of more than one character exactly when the code says so.
all_same_iff : (s : String) → (all_same s ≡ false) ↔ ((c : Char) → ¬ Repeats c s)
unfolding all_same
all_same_iff s = (λ h c r. absurd (ground (arith, h, all_same-Repeats c s r)), back s)
  where
    back : (s : String) → ((c : Char) → ¬ Repeats c s) → all_same s ≡ false
    back String.[] h = absurd (h "a" tt)
    back (String.◌∷◌ c s) h = elim (Bool-cases (all_same (String.◌∷◌ c s))) [
      | inl same ↦ absurd (h c (Repeats-all_same c s same))
      | inr other ↦ other
    ]

module _ (t : Texts) where
  -- A text of as many digits as asked for, not all one, that end in both check digits.
  pub record IsDocument (size cycle : ℕ) (d : String) : Type 0 where
    pub size_of : count d ≡ size
    pub not_one : (c : Char) → ¬ Repeats c d
    pub digits : List ℕ
    pub reads : Reads t d digits
    pub ends : EndsInChecks cycle digits

  -- The weights of a CPF go up to 11; those of a CNPJ go up to 9 and start again.
  abbrev pub IsCpf : String → Type 0
  IsCpf d = IsDocument 11 10 d

  abbrev pub IsCnpj : String → Type 0
  IsCnpj d = IsDocument 14 8 d

  -- The conditions of the code, with the test of both digits it makes.
  IsDocument-conditions_iff :
      (size cycle : ℕ) (tested : List ℕ → Bool) (s : String)
      → ((digits : List ℕ)
          → length digits ≡ size
          → (tested digits ≡ true) ↔ EndsInChecks cycle digits)
      → ((count (digits_only t s) ≡ size)
          × (all_same (digits_only t s) ≡ false)
          × (tested (nums t (digits_only t s)) ≡ true))
        ↔ IsDocument size cycle (digits_only t s)
  IsDocument-conditions_iff size cycle tested s decides =
      let cleaned = digits_only t s in
      let on_nums =
        λ (h : count cleaned ≡ size). decides (nums t cleaned) (length-nums t cleaned ∙ h) in
      (
        λ (h, other, passed). record {
          size_of = h;
          not_one = (all_same_iff (digits_only t s)).0 other;
          digits = nums t cleaned;
          reads = nums-Reads t s;
          ends = (on_nums h).0 passed;
        },
        λ h. (
          h.size_of,
          (all_same_iff (digits_only t s)).1 h.not_one,
          (on_nums h.size_of).1
              (subst (EndsInChecks cycle) (sym (Reads-nums t cleaned h.digits h.reads)) h.ends),
        ),
      )

  IsCpf-conditions_iff :
      (s : String)
      → ((count (digits_only t s) ≡ 11)
          × (all_same (digits_only t s) ≡ false)
          × (cpf_checks (nums t (digits_only t s)) ≡ true))
        ↔ IsCpf (digits_only t s)
  unfolding cpf_checks
  IsCpf-conditions_iff s =
      IsDocument-conditions_iff 11 10 cpf_checks s (checks_iff 10 9 cpf_digit cpf_digit-check_digit)

  IsCnpj-conditions_iff :
      (s : String)
      → ((count (digits_only t s) ≡ 14)
          × (all_same (digits_only t s) ≡ false)
          × (cnpj_checks (nums t (digits_only t s)) ≡ true))
        ↔ IsCnpj (digits_only t s)
  unfolding cnpj_checks
  IsCnpj-conditions_iff s =
      IsDocument-conditions_iff 14 8 cnpj_checks s
        (checks_iff 8 12 cnpj_digit cnpj_digit-check_digit)

  validate_cpf_iff :
      (s d : String) → (validate_cpf t s ≡ ok d) ↔ ((d ≡ digits_only t s) × IsCpf (digits_only t s))
  unfolding validate_cpf
  validate_cpf_iff s d = (
    ground (arith, (IsCpf-conditions_iff s).0),
    λ (same, h). ground (arith, (IsCpf-conditions_iff s).1 h),
  )

  validate_cnpj_iff :
      (s d : String)
      → (validate_cnpj t s ≡ ok d) ↔ ((d ≡ digits_only t s) × IsCnpj (digits_only t s))
  unfolding validate_cnpj
  validate_cnpj_iff s d = (
    ground (arith, (IsCnpj-conditions_iff s).0),
    λ (same, h). ground (arith, (IsCnpj-conditions_iff s).1 h),
  )

  -- A document passes exactly when its digits are of the length of its kind, not one digit repeated,
  -- and end in both check digits; what is answered is the kind and the digits.
  pub validate_document_iff :
      (s kind d : String)
      → (validate_document t s ≡ ok (kind, d)) ↔ (
          (d ≡ digits_only t s)
          × (((kind ≡ "cpf") × IsCpf (digits_only t s))
              ⊎ ((kind ≡ "cnpj") × IsCnpj (digits_only t s))))
  unfolding validate_document
  validate_document_iff s kind d = (
    ground (
      arith,
      digits_only-digits_only t s,
      (validate_cpf_iff (digits_only t s) d).0,
      (validate_cnpj_iff (digits_only t s) d).0,
    ),
    ground (
      arith,
      digits_only-digits_only t s,
      (validate_cpf_iff (digits_only t s) d).1,
      (validate_cnpj_iff (digits_only t s) d).1,
    ),
  )
