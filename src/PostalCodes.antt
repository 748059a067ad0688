-- ===== src/PostalCodes.antt =====
-- app/services/cep.py: the lookup of a postal code at BrasilAPI. The HTTP client is a parameter: what it
-- answers for a code, or nothing where it raises `httpx.HTTPError`.
use e_bank_api.Prelude.{ℕ, String, Option, none, some, eqb, leb, if◌then◌else◌}
use e_bank_api.Errors.{onboarding_error}
use e_bank_api.Models.{Outcome, ok, err, ◌then◌}
use e_bank_api.Json.{Fields}
use e_bank_api.Validation.{Texts, validate_cep}
use e_bank_api.Auth.{Oidc, claim}

pub record Reply : Type 0 where
  pub status_code : ℕ
  pub json : Fields

pub record Address : Type 0 where
  pub cep : String
  pub street : String
  pub neighborhood : String
  pub city : String
  pub state : String

module _ (o : Oidc) (t : Texts) (get : String → Option Reply) where
  -- `str(data.get(key) or "")` is read as a claim is.
  address : String → Fields → Address
  address cleaned d = record {
    cep = cleaned;
    street = claim o "street" d;
    neighborhood = claim o "neighborhood" d;
    city = claim o "city" d;
    state = claim o "state" d;
  }

  of_reply : String → Option Reply → Outcome Address
  unfolding address
  of_reply cleaned none = err (onboarding_error "CEP lookup unavailable")
  of_reply cleaned (some r) =
      if eqb r.status_code 404
      then err (onboarding_error "CEP not found")
      else if leb 400 r.status_code
      then err (onboarding_error "CEP lookup failed")
      else ok (address cleaned r.json)

  -- `CepLookup.lookup`
  unfoldable pub lookup : String → Outcome Address
  unfolding of_reply
  lookup cep = validate_cep t cep then λ cleaned. of_reply cleaned (get cleaned)
