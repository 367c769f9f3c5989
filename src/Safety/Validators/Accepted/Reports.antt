-- ===== src/Safety/Validators/Accepted/Reports.antt =====
-- The inputs of a report that pass: dates, row counts and queries.
use gads_write_mcp.Base.{
  ℕ, ◌+◌, ◌-◌, ◌≤◌, String, ◌≡◌, refl, ap, ◌≢◌, ◌↔◌, inl, inr, Bool, true, false, not, Option, none,
  some, List, [], ◌∷◌, leb, ltb, arith, if◌then◌else◌, Option-cases, leb→le, le→leb, is_some,
  eq_iff, ◌==◌,
}
use mathlib.Core.Path.{subst}
use gads_write_mcp.Base.Int.{ℤ, pos, ltb_ℤ, ◌≤ℤ◌}
use Prim.Native.Char.{code}
use Prim.Native.String.{◌++◌ as append}
use gads_write_mcp.Python.Value.{Value, int, str, truthy, value_or}
use gads_write_mcp.Python.Text.{
  Runtime, stripped_text, strip, lstrip, rstrip, one_of, is_empty_text, char_count, any_char,
}
use gads_write_mcp.Safety.Validators.{
  Field, named, Problem, start_after_end, row_count_low, row_count_high, not_iso_date,
}
use gads_write_mcp.Safety.Validators.Accepted.{
  append-ok, ok-append, unless-ok, ok-unless, stop-ok, ok-stop,
}
use gads_write_mcp.Safety.Validators.Reports.{
  has_iso_shape, range_problems, or_range, or_first, date_problems, validate_row_limit,
  validate_iso_date, validate_date_range, Patterns, max_gaql_rows, with_limit, with_row_limit,
  validate_gaql_query, resource_problems, query_problems, over_limit, denied_gaql_resources,
}

not-true : (b : Bool) → not b ≡ true → b ≡ false
not-true true h = cc
not-true false h = refl

not-false : (b : Bool) → not b ≡ false → b ≡ true
not-false true h = refl
not-false false h = cc

range-ok :
    (max_days start end : ℕ)
    → range_problems max_days start end ≡ []
    → (start ≤ end) × (end + 1 ≤ start + max_days)
unfolding range_problems
range-ok max_days start end h =
    let (ordered, short) = stop-ok (ltb end start) _ _ _ h in
    let fits = unless-ok (leb (end - start + 1) max_days) _ _ short in ground (arith, ordered, fits)

ok-range :
    (max_days start end : ℕ)
    → start ≤ end
    → end + 1 ≤ start + max_days
    → range_problems max_days start end ≡ []
unfolding range_problems
ok-range max_days start end ordered fits =
    ok-stop (ltb end start) (named "start_date") start_after_end _ (ground arith)
      (ok-unless (leb (end - start + 1) max_days) _ _ (le→leb _ _ (omega arith)))

module _ ⦃py : Runtime⦄ where
  -- The argument is a date in YYYY-MM-DD form, the one with this ordinal.
  abbrev pub IsDate : Value → ℕ → Type 0
  IsDate v day =
      (has_iso_shape (stripped_text v) ≡ true) × (py.date_ordinal (stripped_text v) ≡ some day)

  IsDate-ok : (f : Field) (v : Value) → validate_iso_date f v ≡ [] → (day : ℕ) × IsDate v day
  unfolding validate_iso_date date_problems
  IsDate-ok f v h =
      let (shaped, read) = stop-ok (not (has_iso_shape (stripped_text v))) _ _ _ h in
      elim (Option-cases (py.date_ordinal (stripped_text v))) [
        | inl missing ↦
            cc (rw missing at (unless-ok (is_some (py.date_ordinal (stripped_text v))) _ _ read))
        | inr (day, found) ↦ (day, (not-false (has_iso_shape (stripped_text v)) shaped, found))
      ]

  ok-IsDate : (f : Field) (v : Value) (day : ℕ) → IsDate v day → validate_iso_date f v ≡ []
  unfolding validate_iso_date date_problems
  ok-IsDate f v day (shaped, found) =
      ok-stop (not (has_iso_shape (stripped_text v))) f (not_iso_date (stripped_text v)) _
        (ap not shaped)
        (ok-unless (is_some (py.date_ordinal (stripped_text v))) _ _ (ap is_some found))

  or_first-ok : (ps qs : List Problem) → or_first ps qs ≡ [] → (ps ≡ []) × (qs ≡ [])
  or_first-ok [] qs h = (refl, h)
  or_first-ok (p ∷ ps) qs h = cc

  ok-both : (ps qs : List Problem) → ps ≡ [] → qs ≡ [] → or_first ps qs ≡ []
  ok-both [] qs h k = k
  ok-both (p ∷ ps) qs h k = cc

  -- A date range passes exactly if both ends are dates in YYYY-MM-DD form, the first is not after the
  -- last, and they cover no more days than allowed.
  pub validate_date_range-valid :
      (max_days : ℕ) (start_date end_date : Value)
      → (validate_date_range max_days start_date end_date ≡ []) ↔ (
          (start : ℕ) × (end : ℕ) × IsDate start_date start
          × IsDate end_date end
          × (start ≤ end)
          × (end + 1 ≤ start + max_days))
  unfolding validate_date_range or_range
  validate_date_range-valid max_days start_date end_date = (
    λ h.
        let (both, fits) = or_first-ok _ _ h in
        let (first, last) = append-ok _ _ both in
        let (start, s) = IsDate-ok _ start_date first in
        let (end, e) = IsDate-ok _ end_date last in
        let (ordered, short) = range-ok max_days start end (rw (s.1, e.1) at fits) in
        (start, end, s, e, ordered, short),
    λ (start, end, s, e, ordered, short).
        ok-both _ _ (ok-append _ _ (ok-IsDate _ start_date start s) (ok-IsDate _ end_date end e))
          (rw (s.1, e.1) (ok-range max_days start end ordered short)),
  )

  resource-ok :
      (re : Patterns) (text : String) (found : Option String)
      → resource_problems re text found ≡ []
      → (resource : String) × (found ≡ some resource)
        × (one_of resource denied_gaql_resources ≡ false)
        × (over_limit (re.limit text) ≡ [])
  unfolding resource_problems
  resource-ok re text none h = cc
  resource-ok re text (some resource) h =
      let (open_to_all, rest) = append-ok _ _ h in
      let (plain, short) = stop-ok (re.parameters text) _ _ _ rest in
      (
        resource,
        refl,
        not-true _ (unless-ok (not (one_of resource denied_gaql_resources)) _ _ open_to_all),
        short,
      )

  query-ok :
      (re : Patterns) (text : String)
      → query_problems re text ≡ []
      → (text ≢ "") × (resource_problems re text (re.resource text) ≡ [])
  unfolding query_problems
  query-ok re text h =
      let (given, rest) = stop-ok (is_empty_text text) _ _ _ h in
      let (short, more) = stop-ok (not (leb (char_count text) 4000)) _ _ _ rest in
      let (single, last) = stop-ok (any_char (λ c. code c == b';') text) _ _ _ more in
      (ground (arith, eq_iff text "", given), last)

  given-query :
      (query : Value)
      → stripped_text (value_or query (str "")) ≢ ""
      → value_or query (str "") ≡ query
  unfolding stripped_text strip lstrip rstrip
  given-query query given = by_truth (truthy query) given
    where
      by_truth :
          (b : Bool)
          → stripped_text (if b then query else str "") ≢ ""
          → (if b then query else str "") ≡ query
      by_truth true h = refl
      by_truth false h = absurd (h refl)

  limited :
      (re : Patterns) (text : String)
      → (re.limit text ≡ none → re.limit (append text " LIMIT 500") ≡ some 500)
      → over_limit (re.limit text) ≡ []
      → (n : ℕ) × (re.limit (with_limit text (re.limit text)) ≡ some n) × (n ≤ max_gaql_rows)
  limited re text added h = by_limit (re.limit text) refl h
    where
      by_limit :
          (found : Option ℕ)
          → re.limit text ≡ found
          → over_limit found ≡ []
          → (n : ℕ) × (re.limit (with_limit text found) ≡ some n) × (n ≤ max_gaql_rows)
      by_limit (some n) e k = (n, e, leb→le _ _ (unless-ok (leb n max_gaql_rows) _ _ k))
      by_limit none e k = (500, added e, omega arith)

  -- The query reads an open resource, and goes out with a limit.
  abbrev pub IsBounded : Patterns → Value → Type 0
  unfolding with_row_limit
  IsBounded re query =
      ((resource : String) × (re.resource (stripped_text query) ≡ some resource)
        × (one_of resource denied_gaql_resources ≡ false))
      × ((n : ℕ) × (re.limit (with_row_limit re query) ≡ some n) × (n ≤ max_gaql_rows))

  judged :
      (re : Patterns) (v : Value)
      → ((text : String) → re.limit text ≡ none → re.limit (append text " LIMIT 500") ≡ some 500)
      → resource_problems re (stripped_text v) (re.resource (stripped_text v)) ≡ []
      → IsBounded re v
  unfolding IsBounded with_row_limit
  judged re v added h =
      let (resource, found, permitted, short) =
        resource-ok re (stripped_text v) (re.resource (stripped_text v)) h in
      ((resource, found, permitted), limited re (stripped_text v) (added (stripped_text v)) short)

  -- A query that passes reads a resource that is not denied, and as it is sent the first LIMIT found in
  -- it is at most 500, provided that a LIMIT clause put at the end of a text without one is found.
  pub validate_gaql_query-IsBounded :
      (re : Patterns) (query : Value)
      → ((text : String) → re.limit text ≡ none → re.limit (append text " LIMIT 500") ≡ some 500)
      → validate_gaql_query re query ≡ []
      → IsBounded re query
  unfolding validate_gaql_query
  validate_gaql_query-IsBounded re query added h =
      let (given, scoped) = query-ok re (stripped_text (value_or query (str ""))) h in
      subst (λ v. IsBounded re v) (given-query query given)
        (judged re (value_or query (str "")) added scoped)

-- A row count passes exactly if it is a whole number from 1 to the maximum.
pub validate_row_limit-valid :
    (maximum : ℤ) (f : Field) (v : Value)
    → (validate_row_limit maximum f v ≡ [])
      ↔ ((n : ℤ) × (v ≡ int n) × (pos 1 ≤ℤ n) × (n ≤ℤ maximum))
unfolding validate_row_limit
validate_row_limit-valid maximum f (int n) = (
  λ h.
      let (low, rest) = stop-ok (ltb_ℤ n (pos 1)) _ _ _ h in
      let (high, _) = stop-ok (ltb_ℤ maximum n) _ _ _ rest in
      (n, refl, ground (arith, low), ground (arith, high)),
  λ (m, e, low, high).
      let same : n ≡ m = cc in
      ok-stop (ltb_ℤ n (pos 1)) f (row_count_low (int n)) _ (rw same (ground (arith, low))) (
        ok-stop (ltb_ℤ maximum n) f (row_count_high (int n)) [] (rw same (ground (arith, high)))
          refl),
)
validate_row_limit-valid maximum f _ = (λ h. cc, λ (n, e, low, high). cc)
