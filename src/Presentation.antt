-- ===== src/Presentation.antt =====
-- app/services/statement_present.py: what a row of a statement shows, and the filter by type.
use Prim.Native.Char.{Char, code}
use Prim.Native.String.{◌++◌ as concat}
use e_bank_api.Prelude.{
  ℕ, String, ◌==◌, Bool, true, false, not, ◌&&◌, ◌||◌, Option, none, some, List, [], ◌∷◌, leb, eqb,
  truthy, if◌then◌else◌,
}
use e_bank_api.Prelude.Int.{ℤ, pos, leb_ℤ, ltb_ℤ}
use e_bank_api.Prelude.Texts.{take, drop}
use e_bank_api.Validation.{Texts, mask_document}
use e_bank_api.Queries.{TransactionRecord, listed}

-- What Python's texts bring besides `Texts`: white space of `\s`, `str.isdigit`, `str.upper`, and the
-- match of `_PRESERVE`.
pub record Shown : Type 0 where
  pub texts : Texts
  pub is_space : Char → Bool
  pub is_digit : Char → Bool
  pub upper : String → String
  pub is_preserved : String → Bool

pub record Meta : Type 0 where
  pub title_pt : String
  pub title_en : String
  pub badge : String
  pub direction : String

abbrev meta : String → String → String → String → Meta
meta pt en badge direction = record {
  title_pt = pt;
  title_en = en;
  badge = badge;
  direction = direction;
}

-- `_TYPE_META`
abbrev pub type_meta : List (String × Meta)
type_meta =
    ("transfer_in", meta "Transferência recebida" "Transfer received" "transfer_in" "in")
    ∷ ("transfer_out", meta "Transferência enviada" "Transfer sent" "transfer_out" "out")
    ∷ ("demo_grant", meta "Crédito demo" "Demo credit" "grant" "in")
    ∷ ("deposit", meta "Depósito" "Deposit" "grant" "in")
    ∷ ("withdraw", meta "Saque" "Withdrawal" "withdraw" "out")
    ∷ ("pix_in", meta "Pix recebido" "Pix received" "transfer_in" "in")
    ∷ ("pix_out", meta "Pix enviado" "Pix sent" "transfer_out" "out")
    ∷ ("boleto", meta "Pagamento de boleto" "Bank slip payment" "other" "out")
    ∷ ("fee", meta "Tarifa" "Fee" "other" "out")
    ∷ ("interest", meta "Rendimento" "Interest / yield" "grant" "in")
    ∷ ("refund", meta "Estorno" "Refund" "grant" "in")
    ∷ []

unfoldable pub meta_of : String → List (String × Meta) → Option Meta
meta_of key [] = none
meta_of key (entry ∷ rest) = if entry.0 == key then some (entry.1) else meta_of key rest

pub record Counterparty : Type 0 where
  pub account_id : Option String
  pub display_number : Option String
  pub holder_name : Option String
  pub document_number : Option String

abbrev pub no_counterparty : Counterparty
no_counterparty = record {
  account_id = none;
  display_number = none;
  holder_name = none;
  document_number = none;
}

-- One row as it is shown; an amount is the number that `as_str` prints.
pub record Presented : Type 0 where
  pub id : String
  pub account_id : String
  pub amount : ℤ
  pub type : String
  pub counterparty_account_id : Option String
  pub memo : Option String
  pub created_at : ℕ
  pub currency : String
  pub direction : String
  pub title : String
  pub title_key : String
  pub subtitle : String
  pub badge : String
  pub counterparty_display : Option String
  pub counterparty_name : Option String
  pub counterparty_document_masked : Option String

-- Every longest run of such characters becomes one blank: `re.sub("[...]+", " ", text)`.
unfoldable pub squeeze : (Char → Bool) → Bool → String → String
squeeze blank after String.[] = String.[]
squeeze blank after (String.◌∷◌ c s) =
    let skipped = squeeze blank true s in
    let kept = squeeze blank false s in
    if blank c then (if after then skipped else concat " " skipped) else String.◌∷◌ c kept

abbrev is_control : Char → Bool
is_control c = leb (code c) 31 || eqb (code c) 127

-- `text.split(" ")`
prepend : Char → List String → List String
prepend c [] = String.◌∷◌ c String.[] ∷ []
prepend c (w ∷ words) = String.◌∷◌ c w ∷ words

unfoldable pub split_blank : String → List String
unfolding prepend
split_blank String.[] = "" ∷ []
split_blank (String.◌∷◌ c s) =
    let rest = split_blank s in if eqb (code c) 32 then "" ∷ rest else prepend c rest

unfoldable pub join_blank : List String → String
join_blank [] = ""
join_blank (w ∷ []) = w
join_blank (w ∷ v ∷ words) = concat w (concat " " (join_blank (v ∷ words)))

any_char : (Char → Bool) → String → Bool
any_char test String.[] = false
any_char test (String.◌∷◌ c s) = test c || any_char test s

abbrev particles : List String
particles = "da" ∷ "de" ∷ "do" ∷ "dos" ∷ "das" ∷ "e" ∷ "di" ∷ "du" ∷ "del" ∷ "della" ∷ []

-- `raw or ""`
abbrev pub text_or_empty : Option String → String
text_or_empty none = ""
text_or_empty (some s) = s

module _ (p : Shown) where
  unfoldable pub clean_text : Option String → String
  unfolding squeeze
  clean_text raw =
      p.texts.strip (squeeze p.is_space false (squeeze is_control false (text_or_empty raw)))

  -- A name's word, and whether it is the first.
  title_word : Bool → String → String
  unfolding any_char listed
  title_word is_first word =
      let lower = p.texts.lower word in
      if p.is_preserved word
      then p.upper word
      else if any_char p.is_digit word
      then word
      else if not is_first && listed lower particles
      then lower
      else if lower == ""
      then word
      else concat (p.upper (take 1 lower)) (drop 1 lower)

  -- Empty words are dropped; the place of a word counts them.
  title_words : Bool → List String → List String
  unfolding title_word
  title_words is_first [] = []
  title_words is_first (w ∷ words) =
      let rest = title_words false words in if w == "" then rest else title_word is_first w ∷ rest

  unfoldable pub title_case_name : Option String → String
  unfolding title_words clean_text split_blank join_blank
  title_case_name raw =
      let cleaned = clean_text raw in
      if cleaned == "" then "" else join_blank (title_words true (split_blank cleaned))

  or_by_sign : Option Meta → ℤ → Meta
  or_by_sign (some m) x = m
  or_by_sign none x =
      if leb_ℤ (pos 0) x
      then meta "Entrada" "Incoming" "other" "in"
      else meta "Saída" "Outgoing" "other" "out"

  -- `_meta_for`
  unfoldable pub meta_for : String → ℤ → Meta
  unfolding or_by_sign meta_of
  meta_for type x = or_by_sign (meta_of (p.texts.lower (p.texts.strip type)) type_meta) x

  is_known : Option Meta → Bool
  is_known none = false
  is_known (some _) = true

  -- The amount's sign decides where the type leaves it open.
  unfoldable pub direction_of : String → ℤ → String
  unfolding meta_for is_known meta_of
  direction_of type x =
      let said = (meta_for type x).direction in
      let first = if said == "in" && ltb_ℤ x (pos 0) then "out" else said in
      if first == "out" && ltb_ℤ (pos 0) x && not (is_known (meta_of type type_meta))
      then "in"
      else first

  subtitle_of : String → String → String → String → String → String
  subtitle_of lang direction name display memo =
      if direction == "in" && not (name == "")
      then concat (if lang == "en" then "from " else "de ") name
      else if direction == "out" && not (name == "")
      then concat (if lang == "en" then "to " else "para ") name
      else if not (display == "")
      then display
      else if not (memo == "")
      then memo
      else "—"

  -- `present_transaction` of a row
  unfoldable pub present_transaction :
      TransactionRecord → String → Counterparty → String → Presented
  unfolding direction_of subtitle_of title_case_name clean_text meta_for
  present_transaction t currency cp lang =
      let shown = meta_for t.type t.amount in
      let direction = direction_of t.type t.amount in
      let name = title_case_name cp.holder_name in
      let own = clean_text cp.display_number in
      let display = if own == "" then clean_text t.counterparty_account_id else own in
      let memo = clean_text t.memo in
      record {
        id = t.id;
        account_id = t.account_id;
        amount = t.amount;
        type = t.type;
        counterparty_account_id = t.counterparty_account_id;
        memo = truthy (some memo);
        created_at = t.created_at;
        currency = if currency == "" then "USD" else currency;
        direction = direction;
        title = if lang == "en" then shown.title_en else shown.title_pt;
        title_key = p.texts.lower (if t.type == "" then "other" else t.type);
        subtitle = subtitle_of lang direction name display memo;
        badge = shown.badge;
        counterparty_display = truthy (some display);
        counterparty_name = truthy (some name);
        counterparty_document_masked = mask_document p.texts cp.document_number;
      }

  unfoldable pub type_named : String → Option String → Bool
  unfolding listed
  type_named type none = true
  type_named type (some f) =
      let key = p.texts.lower (p.texts.strip f) in
      let t = p.texts.lower type in
      if f == "all"
      then true
      else if key == "transfer"
      then listed t ("transfer_in" ∷ "transfer_out" ∷ "pix_in" ∷ "pix_out" ∷ [])
      else if key == "grant"
      then listed t ("demo_grant" ∷ "deposit" ∷ "interest" ∷ "refund" ∷ [])
      else if key == "withdraw"
      then t == "withdraw"
      else t == key

  unfoldable pub type_filter_match : String → Option String → Bool
  unfolding type_named
  type_filter_match type filter = type_named type (truthy filter)
