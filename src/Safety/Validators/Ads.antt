-- ===== src/Safety/Validators/Ads.antt =====
-- safety/validators.py: final URLs, amounts and responsive search ads.
use gads_write_mcp.Base.{
  ℕ, suc, String, not, ◌&&◌, ◌||◌, Option, none, some, List, [], ◌∷◌, ◌++◌, leb, length, is_empty,
  map, str_eq, if◌then◌else◌, Result, ok, err,
}
use gads_write_mcp.Python.Decimal.{Decimal, whole, ltd}
use gads_write_mcp.Python.Value.{Value, truthy}
use gads_write_mcp.Python.Text.{Runtime, Url, one_of, is_empty_text, stripped_text}
use gads_write_mcp.Safety.Units.{Raised, money, coerce_units}
use gads_write_mcp.Safety.Validators.{
  Field, named, item, Problem, problem, unless, unparsable, not_https, no_host, credentials,
  host_not_allowed, bad_amount, not_positive, below_minimum, above_maximum, too_few, too_many,
  duplicated, without_path1, none_given,
}
use gads_write_mcp.Safety.Validators.Text.{check_text, duplicates}

abbrev pub rsa_headline_max_chars : ℕ
rsa_headline_max_chars = 30

abbrev pub rsa_description_max_chars : ℕ
rsa_description_max_chars = 90

abbrev pub rsa_path_max_chars : ℕ
rsa_path_max_chars = 15

abbrev pub rsa_min_headlines : ℕ
rsa_min_headlines = 3

abbrev pub rsa_max_headlines : ℕ
rsa_max_headlines = 15

abbrev pub rsa_min_descriptions : ℕ
rsa_min_descriptions = 2

abbrev pub rsa_max_descriptions : ℕ
rsa_max_descriptions = 4

-- The keyword arguments of `validate_rsa`, but for the domains.
pub record SearchAd : Type 0 where
  pub headlines : List Value
  pub descriptions : List Value
  pub final_urls : List Value
  pub path1 : Value
  pub path2 : Value

-- One validator for each item, under its index.
unfoldable pub each_item : (Field → Value → List Problem) → String → ℕ → List Value → List Problem
each_item validate name index [] = []
each_item validate name index (v ∷ vs) =
    validate (item name index) v ++ each_item validate name (suc index) vs

module _ ⦃py : Runtime⦄ where
  unfoldable pub host_problems : List String → Field → String → String → List Problem
  unfolding one_of
  host_problems allowed_domains field_name text host =
      if is_empty_text host
      then problem field_name (no_host text)
      else unless (one_of host (map py.lower allowed_domains)) field_name (host_not_allowed host)

  unfoldable pub url_problems : List String → Field → String → Option Url → List Problem
  unfolding host_problems
  url_problems allowed_domains field_name text none = problem field_name (unparsable text)
  url_problems allowed_domains field_name text (some parsed) =
      unless (str_eq parsed.scheme "https") field_name (not_https text)
      ++ unless (is_empty_text parsed.username && is_empty_text parsed.password) field_name
          credentials
      ++ host_problems allowed_domains field_name text (py.lower parsed.hostname)

  unfoldable pub validate_final_url : List String → Field → Value → List Problem
  unfolding url_problems stripped_text
  validate_final_url allowed_domains field_name url =
      url_problems allowed_domains field_name (stripped_text url) (py.urlparse (stripped_text url))

  abbrev amount_problems : Decimal → Decimal → Field → Decimal → List Problem
  amount_problems min_units max_units field_name value =
      if not (ltd (whole 0) value)
      then problem field_name (not_positive value)
      else if ltd value min_units
      then problem field_name (below_minimum value)
      else unless (not (ltd max_units value)) field_name (above_maximum value)

  abbrev or_amount_problems :
      Decimal → Decimal → Field → Result Raised Decimal → Result Raised (List Problem)
  or_amount_problems min_units max_units field_name (ok value) =
      ok (amount_problems min_units max_units field_name value)
  or_amount_problems min_units max_units field_name (err (money e)) =
      ok (problem field_name (bad_amount e))
  or_amount_problems min_units max_units field_name (err e) = err e

  unfoldable pub validate_budget_units :
      Decimal → Decimal → Field → Value → Result Raised (List Problem)
  unfolding coerce_units
  validate_budget_units min_units max_units field_name amount_units =
      or_amount_problems min_units max_units field_name (coerce_units amount_units)

  -- The checks of the headlines, and of the descriptions.
  unfoldable pub validate_texts : (low high chars : ℕ) → String → List Value → List Problem
  unfolding each_item check_text duplicates
  validate_texts low high chars name texts =
      unless (leb low (length texts)) (named name) (too_few low (length texts))
      ++ unless (leb (length texts) high) (named name) (too_many high (length texts))
      ++ each_item (check_text chars) name 0 texts
      ++ unless (is_empty (duplicates texts)) (named name) (duplicated (duplicates texts))

  unfoldable pub validate_path : String → Value → List Problem
  unfolding check_text
  validate_path label value =
      if truthy value then check_text rsa_path_max_chars (named label) value else []

  unfoldable pub validate_rsa : List String → SearchAd → List Problem
  unfolding validate_texts validate_path each_item validate_final_url
  validate_rsa allowed_domains ad =
      validate_texts rsa_min_headlines rsa_max_headlines rsa_headline_max_chars "headlines"
        ad.headlines
      ++ validate_texts rsa_min_descriptions rsa_max_descriptions rsa_description_max_chars
          "descriptions" ad.descriptions
      ++ validate_path "path1" ad.path1
      ++ validate_path "path2" ad.path2
      ++ unless (not (truthy ad.path2) || truthy ad.path1) (named "path2") without_path1
      ++ unless (not (is_empty ad.final_urls)) (named "final_urls") none_given
      ++ each_item (validate_final_url allowed_domains) "final_urls" 0 ad.final_urls
