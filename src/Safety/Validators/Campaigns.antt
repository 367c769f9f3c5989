-- ===== src/Safety/Validators/Campaigns.antt =====
-- safety/validators.py: the dates and the places of a campaign.
use Prim.Native.Char.{Char, code}
use Prim.Native.String.{[]}
use gads_write_mcp.Base.{
  ℕ, [], String, Bool, false, not, ◌&&◌, ◌||◌, Option, some, List, leb, ltb, length, ◌==◌, ◌++◌,
  is_empty, map, if◌then◌else◌,
}
use gads_write_mcp.Python.Value.{Value, null, str, seq, items, value_or}
use gads_write_mcp.Python.Text.{Runtime, all_chars, char_count, is_empty_text, stripped_text}
use gads_write_mcp.Safety.Validators.{
  named, Problem, problem, unless, end_before_start, none_given, too_short, too_long, unsafe_text,
  not_a_list, too_many, duplicated,
}
use gads_write_mcp.Safety.Validators.Text.{starts_with, validate_numeric_id, duplicates}
use gads_write_mcp.Safety.Validators.Reports.{validate_iso_date, or_first}
use gads_write_mcp.Safety.Validators.Ads.{each_item}

abbrev pub min_location_query : ℕ
min_location_query = 2

abbrev pub max_location_query : ℕ
max_location_query = 80

abbrev pub max_locations_per_change : ℕ
max_locations_per_change = 20

abbrev is_ascii_alphanumeric : Char → Bool
is_ascii_alphanumeric c =
    leb 48 (code c) && leb (code c) 57
    || leb 65 (code c) && leb (code c) 90
    || leb 97 (code c) && leb (code c) 122

abbrev pub is_place_char : Char → Bool
is_place_char c =
    is_ascii_alphanumeric c
    || code c == b' '
    || code c == b'.'
    || code c == b','
    || code c == b'&'
    || code c == b'-'

-- `_LOCATION_QUERY.fullmatch(value)`
unfoldable pub is_place_name : String → Bool
unfolding all_chars
is_place_name s = starts_with is_ascii_alphanumeric s && all_chars is_place_char s

module _ ⦃py : Runtime⦄ where
  -- The argument is there, and is not blank.
  unfoldable pub is_given : Value → Bool
  unfolding stripped_text
  is_given null = false
  is_given v = not (is_empty_text (stripped_text v))

  abbrev end_problems : Option ℕ → Option ℕ → List Problem
  end_problems (some start) (some end) = unless (leb start end) (named "end_date") end_before_start
  end_problems _ _ = []

  abbrev given_date : String → Value → List Problem
  unfolding is_given validate_iso_date
  given_date name value = if is_given value then validate_iso_date (named name) value else []

  unfoldable pub validate_campaign_schedule : String → Value → Value → List Problem
  unfolding given_date stripped_text is_given
  validate_campaign_schedule current_start start_date end_date =
      let start_text = if is_given start_date then stripped_text start_date else current_start in
      or_first (given_date "start_date" start_date ++ given_date "end_date" end_date) (
        if is_given end_date && not (is_empty_text start_text)
        then end_problems (py.date_ordinal start_text) (py.date_ordinal (stripped_text end_date))
        else [])

  unfoldable pub place_problems : String → List Problem
  unfolding char_count is_place_name
  place_problems value =
      if is_empty_text value
      then problem (named "query") none_given
      else if ltb (char_count value) min_location_query
      then problem (named "query") (too_short value)
      else if ltb max_location_query (char_count value)
      then problem (named "query")
          (too_long (char_count value) (char_count value) max_location_query)
      else unless (is_place_name value) (named "query") (unsafe_text value)

  unfoldable pub validate_location_query : Value → List Problem
  unfolding place_problems stripped_text
  validate_location_query text = place_problems (stripped_text (value_or text (str "")))

  unfoldable pub location_id_problems : List Value → List Problem
  unfolding each_item validate_numeric_id duplicates
  location_id_problems values =
      if is_empty values
      then problem (named "location_ids") none_given
      else if ltb max_locations_per_change (length values)
      then problem (named "location_ids") (too_many max_locations_per_change (length values))
      else each_item validate_numeric_id "location_ids" 0 values
        ++ unless (is_empty (duplicates values)) (named "location_ids")
            (duplicated (duplicates values))

  -- The ids of a list or tuple, each as its stripped text.
  unfoldable pub validate_geo_target_ids : Value → List Problem
  unfolding location_id_problems stripped_text
  validate_geo_target_ids (seq ids) =
      location_id_problems (map (λ v. str (stripped_text v)) (items ids))
  validate_geo_target_ids v = problem (named "location_ids") (not_a_list v)
