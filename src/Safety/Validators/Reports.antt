-- ===== src/Safety/Validators/Reports.antt =====
-- safety/validators.py: dates, row counts and free-form queries.
use Prim.Native.Char.{code}
use Prim.Native.String.{[], ◌∷◌}
use gads_write_mcp.Base.{
  ℕ, [], ◌∷◌, zero, suc, ◌+◌, ◌-◌, String, Bool, false, not, ◌&&◌, Option, none, some, List, leb,
  ltb, ◌==◌, ◌++◌, if◌then◌else◌, is_some,
}
use gads_write_mcp.Base.Int.{ℤ, pos, ltb_ℤ}
use gads_write_mcp.Python.Value.{Value, str, int, value_or}
use gads_write_mcp.Python.Text.{Runtime, any_char, one_of, char_count, is_empty_text, stripped_text}
use Prim.Native.String.{◌++◌ as append}
use gads_write_mcp.Safety.Validators.{
  Field, named, Problem, problem, unless, not_iso_date, not_a_date, start_after_end, range_too_long,
  not_a_row_count, row_count_low, row_count_high, none_given, too_long, second_statement,
  not_a_select, denied_resource, has_parameters, limit_too_high,
}

abbrev pub max_report_days : ℕ
max_report_days = 365

abbrev pub max_report_rows : ℕ
max_report_rows = 1000

abbrev pub max_gaql_rows : ℕ
max_gaql_rows = 500

abbrev pub denied_gaql_resources : List String
denied_gaql_resources =
    "customer_user_access" ∷ "customer_user_access_invitation" ∷ "billing_setup" ∷ "account_budget"
    ∷ "account_budget_proposal" ∷ "payments_account" ∷ "invoice" ∷ []

-- What the three patterns of `validate_gaql_query` find in a text: the resource of `_SELECT_FROM` in
-- lower case, the number of the first match of `_LIMIT`, and whether PARAMETERS occurs.
pub record Patterns : Type 0 where
  pub resource : String → Option String
  pub limit : String → Option ℕ
  pub parameters : String → Bool

abbrev dash_then : (String → Bool) → String → Bool
dash_then rest [] = false
dash_then rest (c ∷ s) = code c == b'-' && rest s

-- Both dates were read: their ordinals are in order and not too far apart.
unfoldable pub range_problems : ℕ → ℕ → ℕ → List Problem
range_problems max_days start end =
    if ltb end start
    then problem (named "start_date") start_after_end
    else unless (leb (end - start + 1) max_days) (named "start_date")
        (range_too_long (end - start + 1) max_days)

unfoldable pub or_range : ℕ → Option ℕ → Option ℕ → List Problem
unfolding range_problems
or_range max_days (some start) (some end) = range_problems max_days start end
or_range max_days _ _ = []

unfoldable pub validate_row_limit : ℤ → Field → Value → List Problem
validate_row_limit maximum field_name (int n) =
    if ltb_ℤ n (pos 1)
    then problem field_name (row_count_low (int n))
    else if ltb_ℤ maximum n
    then problem field_name (row_count_high (int n))
    else []
validate_row_limit maximum field_name v = problem field_name (not_a_row_count v)

module _ ⦃py : Runtime⦄ where
  abbrev digits_then : ℕ → (String → Bool) → String → Bool
  digits_then zero rest s = rest s
  digits_then (suc n) rest [] = false
  digits_then (suc n) rest (c ∷ s) = py.decimal_digit c && digits_then n rest s

  -- `_ISO_DATE.match(text)`; the texts are stripped, so that `$` is the end.
  unfoldable pub has_iso_shape : String → Bool
  has_iso_shape s =
      digits_then 4 (dash_then (digits_then 2 (dash_then (digits_then 2 is_empty_text)))) s

  unfoldable pub date_problems : Field → String → List Problem
  unfolding has_iso_shape
  date_problems field_name text =
      if not (has_iso_shape text)
      then problem field_name (not_iso_date text)
      else unless (is_some (py.date_ordinal text)) field_name (not_a_date text)

  unfoldable pub validate_iso_date : Field → Value → List Problem
  unfolding stripped_text date_problems
  validate_iso_date field_name value = date_problems field_name (stripped_text value)

  abbrev pub or_first : List Problem → List Problem → List Problem
  or_first [] next = next
  or_first (p ∷ ps) next = p ∷ ps

  unfoldable pub validate_date_range : ℕ → Value → Value → List Problem
  unfolding validate_iso_date stripped_text or_range
  validate_date_range max_days start_date end_date =
      or_first
        (validate_iso_date (named "start_date") start_date
          ++ validate_iso_date (named "end_date") end_date)
        (or_range max_days (py.date_ordinal (stripped_text start_date))
          (py.date_ordinal (stripped_text end_date)))

  abbrev pub over_limit : Option ℕ → List Problem
  over_limit none = []
  over_limit (some n) = unless (leb n max_gaql_rows) (named "query") (limit_too_high n)

  -- What is checked of a query once its resource is known.
  unfoldable pub resource_problems : Patterns → String → Option String → List Problem
  unfolding one_of
  resource_problems re text none = problem (named "query") not_a_select
  resource_problems re text (some resource) =
      unless (not (one_of resource denied_gaql_resources)) (named "query")
        (denied_resource resource)
      ++ (if re.parameters text
          then problem (named "query") has_parameters
          else over_limit (re.limit text))

  unfoldable pub query_problems : Patterns → String → List Problem
  unfolding char_count any_char resource_problems
  query_problems re text =
      if is_empty_text text
      then problem (named "query") none_given
      else if not (leb (char_count text) 4000)
      then problem (named "query") (too_long (char_count text) (char_count text) 4000)
      else if any_char (λ c. code c == b';') text
      then problem (named "query") second_statement
      else resource_problems re text (re.resource text)

  unfoldable pub validate_gaql_query : Patterns → Value → List Problem
  unfolding query_problems stripped_text
  validate_gaql_query re query = query_problems re (stripped_text (value_or query (str "")))

  abbrev pub with_limit : String → Option ℕ → String
  with_limit text (some n) = text
  with_limit text none = append text " LIMIT 500"

  unfoldable pub with_row_limit : Patterns → Value → String
  unfolding stripped_text
  with_row_limit re query = let text = stripped_text query in with_limit text (re.limit text)
