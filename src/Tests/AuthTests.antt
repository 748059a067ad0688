-- ===== src/Tests/AuthTests.antt =====
-- A service that forwards a user, and the theorem at it.
use e_bank_api.Prelude.{◌≡◌, refl, true, false, none, some, [], ◌∷◌}
use e_bank_api.Models.{ok}
use e_bank_api.Json.{get_field, str, arr, nil, cons, Fields, end, field}
use e_bank_api.Canonical.{truth, get_or}
use e_bank_api.Auth.{
  Principal, Oidc, Headers, has_permission, built, require_authenticated_bank_write,
}
use e_bank_api.Auth.Granted.{IsFrom, require_authenticated-IsFrom}

abbrev service_claims : Fields
service_claims = field "sub" (str "portal") (
    field "grant_type" (str "client_credentials")
      (field "permissions" (arr (cons (str "bank:write") nil)) end))

abbrev pub oidc : Oidc
oidc = record {
  enabled = true;
  m2m_user_forward_secret = "s3";
  failure = none;
  decode = λ token. some service_claims;
  numerals = record { text = λ v. ""; quantize = λ s. none; is_zero = λ s. false };
  strip = λ s. s;
  lower = λ s. s;
  split = λ s. [];
}

abbrev pub headers : Headers
headers = record {
  authorization = "bearer t";
  forward_secret = "s3";
  user_sub = "alice";
  user_email = "";
}

abbrev pub forwarded_alice : Principal
forwarded_alice = record {
  subject = "alice";
  client = "";
  email = "";
  permissions = "bank:write" ∷ [];
  is_m2m = false;
}

pub alice_passes : require_authenticated_bank_write oidc headers ≡ ok forwarded_alice
unfolding require_authenticated_bank_write built truth get_or get_field has_permission
alice_passes = refl

require_authenticated-IsFrom_example :
    (has_permission forwarded_alice "bank:write" ≡ true)
    × (forwarded_alice.is_m2m ≡ false)
    × IsFrom oidc headers forwarded_alice
require_authenticated-IsFrom_example =
    require_authenticated-IsFrom oidc headers forwarded_alice refl alice_passes
