-- ===== src/Schemas.antt =====
-- app/schemas/__init__.py: the bodies of the demo routes, what pydantic accepts of them, and the two
-- shapes that are answered. The body of the integer service is in Events.
use Prim.Native.String.{count}
use e_bank_api.Prelude.{
  ℕ, ◌+◌, String, ◌==◌, Bool, true, false, not, ◌&&◌, ◌||◌, Option, none, some, List, is_some,
  truthy, leb, eqb, if◌then◌else◌,
}
use e_bank_api.Prelude.Int.{ℤ}
use e_bank_api.Json.{Fields}
use e_bank_api.Applications.{Birth, no_birth, birth_day, birth_text, Application}

pub record TransferIn : Type 0 where
  pub amount : String
  pub source_account_id : Option String
  pub destination_account_id : Option String
  pub destination_account : Option String
  pub destination_document : Option String
  pub memo : Option String

pub record TransferResolveIn : Type 0 where
  pub account : Option String
  pub document : Option String

pub record OnboardingDocumentIn : Type 0 where
  pub doc_type : String
  pub pde_extraction_id : Option String
  pub summary : Option Fields
  pub account_id : Option String

-- `OnboardingCompleteIn`, whose field `accepted_at` no service reads.
abbrev pub OnboardingCompleteIn : Type 0
OnboardingCompleteIn = Application

pub record DemoMetaOut : Type 0 where
  pub demo : Bool
  pub welcome_amount : String
  pub currency : String
  pub disclaimer : String
  pub features : List String

-- The balance is the amount that `as_str` prints.
pub record DemoAccountOut : Type 0 where
  pub id : String
  pub balance : ℤ
  pub currency : String
  pub kind : String
  pub status : String
  pub onboarding_status : String
  pub demo_credited : Bool
  pub demo : Bool
  pub account_number : Option ℕ
  pub digit : Option ℕ
  pub display_number : Option String
  pub holder_name : Option String

-- `str | None` with `max_length`
at_most : ℕ → Option String → Bool
at_most n none = true
at_most n (some s) = leb (count s) n

-- `str` with `min_length` and `max_length`
between : ℕ → ℕ → Option String → Bool
between lo hi none = false
between lo hi (some s) = leb lo (count s) && leb (count s) hi

has_text : Option String → Bool
has_text o = is_some (truthy o)

one_if : Bool → ℕ
one_if true = 1
one_if false = 0

-- `TransferIn.one_destination`
unfoldable pub one_destination : TransferIn → Bool
unfolding has_text one_if
one_destination b =
    eqb
      (one_if (has_text b.destination_account_id)
        + one_if (has_text b.destination_account)
        + one_if (has_text b.destination_document))
      1

unfoldable pub is_valid_transfer : TransferIn → Bool
unfolding at_most one_destination
is_valid_transfer b =
    at_most 64 b.source_account_id
    && at_most 64 b.destination_account_id
    && at_most 32 b.destination_account
    && at_most 32 b.destination_document
    && at_most 280 b.memo
    && one_destination b

-- `TransferResolveIn.one_of`
unfoldable pub one_of : TransferResolveIn → Bool
unfolding has_text
one_of b = if has_text b.account then not (has_text b.document) else has_text b.document

unfoldable pub is_valid_resolve : TransferResolveIn → Bool
unfolding at_most one_of
is_valid_resolve b = at_most 32 b.account && at_most 32 b.document && one_of b

-- `ConsentIn`
unfoldable pub is_valid_consent : String → Bool
unfolding between
is_valid_consent policy_version = between 1 64 (some policy_version)

unfoldable pub is_valid_document : OnboardingDocumentIn → Bool
unfolding at_most
is_valid_document b =
    (b.doc_type == "identity_document" || b.doc_type == "address_proof")
    && at_most 128 b.pde_extraction_id
    && at_most 64 b.account_id

-- pydantic has made a date of `birth_date`.
is_date : Birth → Bool
is_date no_birth = false
is_date (birth_day d) = true
is_date (birth_text s) = false

unfoldable pub is_valid_application : OnboardingCompleteIn → Bool
unfolding at_most between is_date
is_valid_application b =
    at_most 64 b.account_id
    && between 2 256 b.full_name
    && is_date b.birth_date
    && between 11 18 b.document_number
    && between 8 9 b.cep
    && between 1 256 b.street
    && between 1 32 b.number
    && at_most 128 b.complement
    && at_most 128 b.neighborhood
    && at_most 128 b.city
    && at_most 2 b.state
    && between 3 320 b.email
    && between 10 20 b.phone
