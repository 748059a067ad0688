-- ===== src/StatementFiles.antt =====
-- app/services/statement_export.py: the file of an exported statement. The writer of Python's module `csv`,
-- with its quoting, is a parameter, and so are Python's texts of numbers and times; the bytes of a
-- file are a text.
use Prim.Native.String.{◌++◌ as concat}
use e_bank_api.Prelude.{ℕ, String, ◌==◌, List, [], ◌∷◌, if◌then◌else◌}
use e_bank_api.Prelude.Int.{ℤ}
use e_bank_api.Presentation.{text_or_empty}
use e_bank_api.Statements.{StatementRow}

-- `as_str` of an amount, `isoformat` of a time, and `writerow` with the delimiter ";" and the line end
-- "\n".
pub record Sheet : Type 0 where
  pub as_str : ℤ → String
  pub isoformat : ℕ → String
  pub writerow : List String → String

abbrev pub csv_header : List String
csv_header =
    "id" ∷ "created_at" ∷ "type" ∷ "title" ∷ "subtitle" ∷ "direction" ∷ "amount" ∷ "currency"
    ∷ "memo" ∷ "counterparty_name" ∷ "counterparty_display" ∷ "balance_after" ∷ []

module _ (x : Sheet) where
  unfoldable pub csv_fields : StatementRow → List String
  csv_fields r =
      r.item.id
      ∷ x.isoformat r.item.created_at
      ∷ r.item.type
      ∷ r.item.title
      ∷ r.item.subtitle
      ∷ r.item.direction
      ∷ x.as_str r.item.amount
      ∷ (if r.item.currency == "" then "USD" else r.item.currency)
      ∷ text_or_empty r.item.memo
      ∷ text_or_empty r.item.counterparty_name
      ∷ text_or_empty r.item.counterparty_display
      ∷ x.as_str r.balance_after
      ∷ []

  unfoldable pub csv_rows : List StatementRow → String
  unfolding csv_fields
  csv_rows [] = ""
  csv_rows (r ∷ rows) = concat (x.writerow (csv_fields r)) (csv_rows rows)

  -- With the byte order mark that spreadsheets expect.
  unfoldable pub build_statement_csv : List StatementRow → String
  unfolding csv_rows
  build_statement_csv rows = concat "\u{feff}" (concat (x.writerow csv_header) (csv_rows rows))
