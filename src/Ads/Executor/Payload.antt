-- ===== src/Ads/Executor/Payload.antt =====
-- ads/executor.py: the backstops that read a payload.
use Prim.Native.Char.{code}
use Prim.Native.String.{[], ◌∷◌}
use gads_write_mcp.Base.{
  ℕ, String, Bool, true, false, ◌&&◌, Option, none, some, List, [], ◌∷◌, ◌==◌, if◌then◌else◌,
  Result, ok, err,
}
use gads_write_mcp.Base.Int.{ℤ, pos, ltb_ℤ}
use gads_write_mcp.Python.Text.{Runtime, one_of, is_empty_text, stripped_text, is_digits}
use gads_write_mcp.Python.Value.{Value, null, str, Fields, entries, get, get_or, value_or}
use gads_write_mcp.Ads.Executor.{ExecutorError, bad_payload, Client}

-- `value is None`
abbrev pub is_absent : Value → Bool
is_absent null = true
is_absent v = false

-- A check that raises ExecutorError.
abbrev pub require : Bool → String → Result ExecutorError (Unit {0})
require good key = if good then ok tt else err (bad_payload key)

abbrev above_zero : String → Option ℤ → Result ExecutorError ℤ
above_zero key none = err (bad_payload key)
above_zero key (some value) = if ltb_ℤ (pos 0) value then ok value else err (bad_payload key)

-- `_micros`
abbrev pub micros : Client → Fields → String → Result ExecutorError ℤ
micros client payload key = above_zero key (client.to_int (get (entries payload) key))

module _ ⦃py : Runtime⦄ where
  -- `_digits`
  unfoldable pub digits : Fields → String → Result ExecutorError String
  unfolding stripped_text is_digits
  digits payload key =
      let value = stripped_text (get_or (entries payload) key (str "")) in
      if is_digits value then ok value else err (bad_payload key)

  abbrev text_with : String → String → Result ExecutorError (String × String)
  unfolding one_of
  text_with text match_type =
      if is_empty_text text
      then err (bad_payload "keyword_text")
      else if one_of match_type ("EXACT" ∷ "PHRASE" ∷ "BROAD" ∷ [])
      then ok (text, match_type)
      else err (bad_payload "match_type")

  -- `_keyword`
  unfoldable pub keyword : Fields → Result ExecutorError (String × String)
  unfolding text_with stripped_text
  keyword payload =
      text_with (stripped_text (get_or (entries payload) "keyword_text" (str "")))
        (py.upper (stripped_text (get_or (entries payload) "match_type" (str ""))))

  -- `_status`
  unfoldable pub status_of : Fields → Result ExecutorError String
  unfolding one_of stripped_text
  status_of payload =
      let status = py.upper (stripped_text (get_or (entries payload) "status" (str "PAUSED"))) in
      if one_of status ("ENABLED" ∷ "PAUSED" ∷ []) then ok status else err (bad_payload "status")

  -- `_DATE_TIME.fullmatch(text)`: the digits and the marks between them.
  abbrev matches : List (Option ℕ) → String → Bool
  matches [] [] = true
  matches [] (c ∷ s) = false
  matches (m ∷ ms) [] = false
  matches (none ∷ ms) (c ∷ s) = py.decimal_digit c && matches ms s
  matches (some mark ∷ ms) (c ∷ s) = code c == mark && matches ms s

  abbrev date_time_pattern : List (Option ℕ)
  date_time_pattern =
      none
      ∷ none
      ∷ none
      ∷ none
      ∷ some b'-'
      ∷ none
      ∷ none
      ∷ some b'-'
      ∷ none
      ∷ none
      ∷ some b' '
      ∷ none
      ∷ none
      ∷ some b':'
      ∷ none
      ∷ none
      ∷ some b':'
      ∷ none
      ∷ none
      ∷ []

  -- `_date_time`
  unfoldable pub date_time : String → Value → Result ExecutorError String
  unfolding stripped_text
  date_time name value =
      if matches date_time_pattern (stripped_text value)
      then ok (stripped_text value)
      else err (bad_payload name)

  -- `str(payload.get(key) or "").strip()`
  unfoldable pub text_or_empty : Fields → String → String
  unfolding stripped_text
  text_or_empty payload key = stripped_text (value_or (get (entries payload) key) (str ""))
