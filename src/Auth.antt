-- ===== src/Auth.antt =====
-- app/auth/oidc.py and app/auth/deps.py: who a request is from, and what they may do.
pub mod Granted
use e_bank_api.Prelude.{
  ℕ, zero, suc, String, ◌==◌, Bool, true, false, not, ◌&&◌, ◌||◌, Option, none, some, List, [], ◌∷◌,
  if◌then◌else◌,
}
use e_bank_api.Prelude.Texts.{take, drop}
use e_bank_api.Errors.{Error, auth_error, http_exception}
use e_bank_api.Models.{Outcome, ok, err, ◌then◌}
use e_bank_api.Json.{
  Value, null, bool, int, float, str, arr, obj, Items, nil, cons, Fields, get_field,
}
use e_bank_api.Canonical.{Numerals, truth, get_or, ends_with, contains}

pub record Principal : Type 0 where
  pub subject : String
  pub client : String
  pub email : String
  pub permissions : List String
  pub is_m2m : Bool

unfoldable pub listed : String → List String → Bool
listed p [] = false
listed p (q ∷ more) = p == q || listed p more

unfoldable pub has_permission : Principal → String → Bool
unfolding listed
has_permission p want =
    listed "admin" p.permissions
    || listed want p.permissions
    || (want == "bank:write" && listed "bank:demo" p.permissions)

-- The settings, Python's texts, and the libraries: `decode` is the verified claims of a token, if
-- `jwt.decode` raises nothing; `failure` is what building the authenticator raises.
pub record Oidc : Type 0 where
  pub enabled : Bool
  pub m2m_user_forward_secret : String
  pub failure : Option Error
  pub decode : String → Option Fields
  pub numerals : Numerals
  pub strip : String → String
  pub lower : String → String
  pub split : String → List String

-- The headers X-Kalke-Forward-Secret, X-Kalke-User-Sub and X-Kalke-User-Email, or "".
pub record Headers : Type 0 where
  pub authorization : String
  pub forward_secret : String
  pub user_sub : String
  pub user_email : String

module _ (o : Oidc) where
  -- `str(value)`, in which a text stays as it is
  as_text : Value → String
  as_text (str s) = s
  as_text null = o.numerals.text null
  as_text (bool b) = o.numerals.text (bool b)
  as_text (int n) = o.numerals.text (int n)
  as_text (float t) = o.numerals.text (float t)
  as_text (arr items) = o.numerals.text (arr items)
  as_text (obj d) = o.numerals.text (obj d)

  -- `str(claims.get(key) or "")`
  unfoldable pub claim : String → Fields → String
  unfolding as_text
  claim key d = let v = get_or o.numerals null key d in if truth o.numerals v then as_text v else ""

  texts : Items → List String
  unfolding as_text
  texts nil = []
  texts (cons v items) = as_text v ∷ texts items

  from_scope : Value → List String
  from_scope (str s) = if o.strip s == "" then [] else o.split s
  from_scope _ = []

  from_permissions : Value → Value → List String
  unfolding texts from_scope
  from_permissions (arr (cons v items)) scope = texts (cons v items)
  from_permissions _ scope = from_scope scope

  -- `_permissions_from_claims`
  unfoldable pub permissions_from_claims : Fields → List String
  unfolding from_permissions
  permissions_from_claims d =
      from_permissions (get_or o.numerals null "permissions" d) (get_or o.numerals null "scope" d)

  -- `str(claims.get("azp") or claims.get("client_id") or "")`
  unfoldable pub client_claim : Fields → String
  unfolding claim
  client_claim d =
      if truth o.numerals (get_or o.numerals null "azp" d)
      then claim "azp" d
      else claim "client_id" d

  -- `_is_m2m_claims`
  unfoldable pub is_m2m_claims : Fields → Bool
  unfolding claim client_claim
  is_m2m_claims d =
      let preferred = claim "preferred_username" d in
      let azp = client_claim d in
      let sub = claim "sub" d in
      if truth o.numerals (get_or o.numerals null "email" d)
      then false
      else if o.lower (claim "grant_type" d) == "client_credentials"
      then true
      else if ends_with o.numerals "-service" preferred || ends_with o.numerals "-m2m" preferred
      then true
      else if not (azp == "")
          && not (sub == "")
          && (contains o.numerals "service-account" preferred || contains o.numerals azp sub)
      then true
      else contains o.numerals "service-account-" preferred

  of_claims : Fields → Outcome Principal
  unfolding claim client_claim permissions_from_claims is_m2m_claims
  of_claims d =
      if o.strip (claim "sub" d) == ""
      then err (auth_error "unauthorized")
      else ok (record {
        subject = o.strip (claim "sub" d);
        client = o.strip (client_claim d);
        email = o.strip (claim "email" d);
        permissions = permissions_from_claims d;
        is_m2m = is_m2m_claims d;
      })

  decoded : Option Fields → Outcome Principal
  unfolding of_claims
  decoded none = err (auth_error "unauthorized")
  decoded (some d) = of_claims d

  -- `OIDCAuthenticator.authenticate`
  unfoldable pub authenticate : String → Outcome Principal
  unfolding decoded
  authenticate bearer =
      if o.strip bearer == ""
      then err (auth_error "unauthorized")
      else decoded (o.decode (o.strip bearer))

  or_write : List String → List String
  or_write [] = "bank:write" ∷ []
  or_write (p ∷ more) = p ∷ more

  -- What a service principal becomes behind a trusted front end.
  unfoldable pub forwarded : Principal → Headers → Outcome Principal
  unfolding or_write
  forwarded p h =
      let expected = o.strip o.m2m_user_forward_secret in
      let email = o.strip h.user_email in
      if expected == "" || not (o.strip h.forward_secret == expected)
      then ok p
      else if o.strip h.user_sub == ""
      then err (auth_error "missing forwarded user")
      else ok (record {
        subject = o.strip h.user_sub;
        client = p.client;
        email = if email == "" then p.email else email;
        permissions = or_write p.permissions;
        is_m2m = false;
      })

  unfoldable pub built : Option Error → Outcome (Unit {0})
  built none = ok tt
  built (some e) = err e

  unfoldable pub effective : Principal → Headers → Outcome Principal
  unfolding forwarded
  effective p h = if p.is_m2m then forwarded p h else ok p

  -- `resolve_effective_principal`
  unfoldable pub resolve_effective_principal : String → Headers → Outcome Principal
  unfolding authenticate effective
  resolve_effective_principal bearer h =
      if o.enabled
      then (built o.failure then λ _. authenticate bearer then λ p. effective p h)
      else err (auth_error "oidc disabled")

  -- `_bearer_token`
  unfoldable pub bearer_token : Headers → String
  bearer_token h =
      if o.lower (take 7 h.authorization) == "bearer " then o.strip (drop 7 h.authorization) else ""

  -- `except AuthError`
  unfoldable pub as_http : Outcome Principal → Outcome (Option Principal)
  as_http (ok p) = ok (some p)
  as_http (err (auth_error _)) = err (http_exception 401)
  as_http (err e) = err e

  unfoldable pub require_principal : Headers → Outcome (Option Principal)
  unfolding resolve_effective_principal bearer_token as_http
  require_principal h =
      if o.enabled
      then (built o.failure then λ _. as_http (resolve_effective_principal (bearer_token h) h))
      else ok none

  unfoldable pub with_write : Option Principal → Outcome (Option Principal)
  with_write none = ok none
  with_write (some p) =
      if has_permission p "bank:write" then ok (some p) else err (http_exception 403)

  unfoldable pub require_bank_write : Headers → Outcome (Option Principal)
  unfolding require_principal with_write
  require_bank_write h = require_principal h then with_write

  unfoldable pub end_user : Option Principal → Outcome Principal
  end_user none =
      if o.enabled
      then err (http_exception 401)
      else ok (record {
        subject = "local-dev";
        client = "";
        email = "dev@localhost";
        permissions = "bank:write" ∷ [];
        is_m2m = false;
      })
  end_user (some p) = if p.is_m2m then err (http_exception 403) else ok p

  unfoldable pub require_authenticated_bank_write : Headers → Outcome Principal
  unfolding require_bank_write end_user
  require_authenticated_bank_write h = require_bank_write h then end_user
