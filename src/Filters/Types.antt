-- ===== src/Filters/Types.antt =====
-- The two filters by type, of the query (app/services/demo_service.py) and behind it
-- (app/services/statement_present.py).
use e_bank_api.Prelude.{
  is_some, String, ◌==◌, ◌≡◌, ◌≢◌, refl, Bool, true, false, Option, none, some, List, [], ◌∷◌,
  truthy, arith, if◌then◌else◌,
}
use e_bank_api.Queries.{TransactionRecord, listed, of_types}
use e_bank_api.Presentation.{type_named, type_filter_match}
use e_bank_api.Filters.{matching, types_named, Clerk, types_for_filter, soft_filter}

module _ (c : Clerk) where
  if-of_types :
      (b : Bool) (types types' : List String) (x y : Bool) (t : String)
      → of_types types t ≡ x
      → of_types types' t ≡ y
      → of_types (if b then types else types') t ≡ (if b then x else y)
  if-of_types true types types' x y t e e' = e
  if-of_types false types types' x y t e e' = e'

  one_type : (t key : String) → of_types (key ∷ []) t ≡ (t == key)
  unfolding listed
  one_type t key = ground arith

  of_types-types_named :
      (type : String) (filter : Option String)
      → c.shown.texts.lower type ≡ type
      → of_types (types_named c filter) type ≡ type_named c.shown type filter
  unfolding types_named type_named
  of_types-types_named type none lower = refl
  of_types-types_named type (some f) lower =
      let key : String = c.shown.texts.lower (c.shown.texts.strip f) in
      rw (type_named, lower)
        (if-of_types (f == "all") _ _ _ _ type refl (
          if-of_types (key == "transfer") _ _ _ _ type refl (
            if-of_types (key == "grant") _ _ _ _ type refl (
              if-of_types (key == "withdraw") _ _ _ _ type (one_type type "withdraw")
                (one_type type key)))))

  -- On a row's type that is lower case, the types that the query is given pass exactly what the
  -- filter behind the query passes.
  pub types_for_filter-type_filter_match :
      (type : String) (tx_type : Option String)
      → c.shown.texts.lower type ≡ type
      → of_types (types_for_filter c tx_type) type ≡ type_filter_match c.shown type tx_type
  unfolding types_for_filter type_filter_match
  types_for_filter-type_filter_match type tx_type lower =
      of_types-types_named type (truthy tx_type) lower

  abbrev key : String → String
  key f = c.shown.texts.lower (c.shown.texts.strip f)

  unless_nil :
      (b : Bool) (types : List String) (x : Bool)
      → types ≢ []
      → (if b then [] else types) ≡ []
      → (if b then true else x) ≡ true
  unless_nil true types x ne e = refl
  unless_nil false types x ne e = absurd (ne e)

  some_type : (t : String) (types : List String) → t ∷ types ≢ []
  some_type t types e = absurd (cc)

  if-some_type :
      (b : Bool) (types types' : List String)
      → types ≢ []
      → types' ≢ []
      → (if b then types else types') ≢ []
  if-some_type true types types' ne ne' = ne
  if-some_type false types types' ne ne' = ne'

  -- Where the query has no types, the filter behind it lets every type pass.
  type_named_all :
      (filter : Option String) (type : String)
      → types_named c filter ≡ []
      → type_named c.shown type filter ≡ true
  unfolding types_named type_named
  type_named_all none type e = refl
  type_named_all (some f) type e =
      unless_nil (f == "all") _ _
        (if-some_type (key f == "transfer") _ _ (some_type _ _) (
          if-some_type (key f == "grant") _ _ (some_type _ _)
            (if-some_type (key f == "withdraw") _ _ (some_type _ _) (some_type _ _))))
        e

  matching_all :
      (tx_type : Option String) (rows : List TransactionRecord)
      → ((type : String) → type_filter_match c.shown type tx_type ≡ true)
      → matching c tx_type rows ≡ rows
  unfolding matching
  matching_all tx_type [] h = refl
  matching_all tx_type (t ∷ rows) h = ground (arith, h t.type, matching_all tx_type rows h)

  soft_filter_cases :
      (tx_type : Option String) (types : List String) (rows : List TransactionRecord)
      → (types ≡ [] → (type : String) → type_filter_match c.shown type tx_type ≡ true)
      → soft_filter c tx_type types rows ≡ rows
  unfolding soft_filter
  soft_filter_cases tx_type (t ∷ types) rows h = refl
  soft_filter_cases tx_type [] rows h = by (is_some (truthy tx_type))
    where
      by : (b : Bool) → (if b then matching c tx_type rows else rows) ≡ rows
      by true = matching_all tx_type rows (h refl)
      by false = refl

  -- The filter by type behind the query drops no row: it adds nothing to the types of the query.
  pub soft_filter-types_for_filter :
      (tx_type : Option String) (rows : List TransactionRecord)
      → soft_filter c tx_type (types_for_filter c tx_type) rows ≡ rows
  unfolding types_for_filter type_filter_match
  soft_filter-types_for_filter tx_type rows =
      soft_filter_cases tx_type (types_for_filter c tx_type) rows
        (λ e type. type_named_all (truthy tx_type) type e)
