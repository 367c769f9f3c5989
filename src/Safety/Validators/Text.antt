-- ===== src/Safety/Validators/Text.antt =====
-- safety/validators.py: the validators of single texts.
use Prim.Native.Char.{Char, code}
use Prim.Native.String.{[], ◌∷◌}
use gads_write_mcp.Base.{
  ℕ, [], ◌∷◌, ◌+◌, String, Bool, true, false, not, ◌||◌, List, leb, ◌==◌, ◌++◌, str_eq,
  if◌then◌else◌,
}
use gads_write_mcp.Python.Value.{Value, str, value_or}
use gads_write_mcp.Python.Text.{
  Runtime, strip, any_char, one_of, char_count, is_empty_text, stripped_text, is_digits, text_of,
}
use gads_write_mcp.Safety.Validators.{
  Field, named, Problem, problem, unless, has_dashes, no_customer_id, no_match_type, removed,
  no_status, no_numeric_id, not_text, must_not_be_empty, ui_syntax, too_long, control_characters,
  no_strategy,
}

abbrev pub keyword_max_chars : ℕ
keyword_max_chars = 80

abbrev pub max_campaign_name : ℕ
max_campaign_name = 255

abbrev pub max_ad_group_name : ℕ
max_ad_group_name = 255

abbrev pub valid_match_types : List String
valid_match_types = "EXACT" ∷ "PHRASE" ∷ "BROAD" ∷ []

abbrev pub valid_statuses : List String
valid_statuses = "ENABLED" ∷ "PAUSED" ∷ []

abbrev pub campaign_bidding_strategies : List String
campaign_bidding_strategies = "MANUAL_CPC" ∷ "MAXIMIZE_CLICKS" ∷ []

-- `text[0]` passes the test, and `text[-1]` does.
abbrev pub starts_with : (Char → Bool) → String → Bool
starts_with p [] = false
starts_with p (c ∷ s) = p c

unfoldable pub ends_with : (Char → Bool) → String → Bool
ends_with p [] = false
ends_with p (c ∷ s) = let rest = ends_with p s in if is_empty_text s then p c else rest

abbrev pub is_dash : Char → Bool
is_dash c = code c == b'-'

abbrev pub opens_match_type : Char → Bool
opens_match_type c = code c == 91 || code c == 34 || code c == 39

abbrev pub closes_match_type : Char → Bool
closes_match_type c = code c == 93 || code c == 34 || code c == 39

-- `seen` holds the keys met so far.
abbrev repeated : Bool → String → List String → List String
repeated true text found = text ∷ found
repeated false text found = found

module _ ⦃py : Runtime⦄ where
  unfoldable pub ads_char_length : String → ℕ
  ads_char_length [] = 0
  ads_char_length (c ∷ s) = (if py.wide c then 2 else 1) + ads_char_length s

  -- The three length tests count what Google counts, after `strip`.
  unfoldable pub within : ℕ → Field → String → List Problem
  unfolding ads_char_length char_count
  within limit field_name stripped =
      unless (leb (ads_char_length stripped) limit) field_name
        (too_long (ads_char_length stripped) (char_count stripped) limit)

  unfoldable pub validate_customer_id : Field → Value → List Problem
  unfolding stripped_text any_char is_digits char_count
  validate_customer_id field_name customer_id =
      let text = stripped_text customer_id in
      if any_char is_dash text
      then problem field_name (has_dashes text)
      else if not (is_digits text) || not (char_count text == 10)
      then problem field_name (no_customer_id text)
      else []

  unfoldable pub validate_match_type : Field → Value → List Problem
  unfolding stripped_text one_of
  validate_match_type field_name match_type =
      unless (one_of (py.upper (stripped_text match_type)) valid_match_types) field_name
        (no_match_type (text_of match_type))

  unfoldable pub validate_status : Field → Value → List Problem
  unfolding stripped_text one_of
  validate_status field_name status =
      let text = py.upper (stripped_text status) in
      if str_eq text "REMOVED"
      then problem field_name (removed text)
      else unless (one_of text valid_statuses) field_name (no_status (text_of status))

  unfoldable pub keyword_problems : Field → String → List Problem
  unfolding ends_with within
  keyword_problems field_name stripped =
      if is_empty_text stripped
      then problem field_name must_not_be_empty
      else if starts_with opens_match_type stripped || ends_with closes_match_type stripped
      then problem field_name (ui_syntax stripped)
      else within keyword_max_chars field_name stripped

  unfoldable pub validate_keyword_text : Field → Value → List Problem
  unfolding keyword_problems strip
  validate_keyword_text field_name (str text) = keyword_problems field_name (strip text)
  validate_keyword_text field_name v = problem field_name (not_text v)

  -- `_check_text`
  unfoldable pub text_problems : ℕ → Field → String → List Problem
  unfolding within
  text_problems limit field_name stripped =
      if is_empty_text stripped
      then problem field_name must_not_be_empty
      else within limit field_name stripped

  unfoldable pub check_text : ℕ → Field → Value → List Problem
  unfolding text_problems strip
  check_text limit field_name (str text) = text_problems limit field_name (strip text)
  check_text limit field_name v = problem field_name (not_text v)

  unfoldable pub validate_numeric_id : Field → Value → List Problem
  unfolding stripped_text is_digits
  validate_numeric_id field_name value =
      unless (is_digits (stripped_text value)) field_name (no_numeric_id (stripped_text value))

  -- `_duplicates`: the repeated texts in the order they are met, which the messages sort. The keys
  -- that were seen come first.
  unfoldable pub duplicates_from : List String → List Value → List String
  unfolding one_of strip
  duplicates_from seen [] = []
  duplicates_from seen (str text ∷ rest) =
      let key = py.casefold (strip text) in
      repeated (one_of key seen) (strip text) (duplicates_from (key ∷ seen) rest)
  duplicates_from seen (_ ∷ rest) = duplicates_from seen rest

  unfoldable pub duplicates : List Value → List String
  unfolding duplicates_from
  duplicates items = duplicates_from [] items

  -- The two checks of a name, for campaigns and for ad groups.
  abbrev name_problems : ℕ → String → List Problem
  unfolding char_count any_char
  name_problems limit text =
      if is_empty_text text
      then problem (named "name") must_not_be_empty
      else unless (leb (char_count text) limit) (named "name")
          (too_long (char_count text) (char_count text) limit)
        ++ unless (not (any_char py.control text)) (named "name") control_characters

  unfoldable pub validate_campaign_name : Value → List Problem
  unfolding name_problems stripped_text
  validate_campaign_name name =
      name_problems max_campaign_name (stripped_text (value_or name (str "")))

  unfoldable pub validate_ad_group_name : Value → List Problem
  unfolding name_problems stripped_text
  validate_ad_group_name name =
      name_problems max_ad_group_name (stripped_text (value_or name (str "")))

  unfoldable pub validate_bidding_strategy : Value → List Problem
  unfolding stripped_text one_of
  validate_bidding_strategy strategy =
      unless
        (one_of (py.upper (stripped_text (value_or strategy (str "")))) campaign_bidding_strategies)
        (named "bidding_strategy") (no_strategy strategy)
