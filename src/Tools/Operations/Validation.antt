-- ===== src/Tools/Operations/Validation.antt =====
-- tools/operations.py: the validation of the arguments of each write tool. A MoneyError is a problem;
-- what else a conversion raises is raised.
use Prim.Native.String.{[], ◌∷◌}
use gads_write_mcp.Base.{
  String, Bool, not, ◌||◌, List, [], ◌∷◌, ◌++◌, if◌then◌else◌, Result, ok, err, ◌>>=◌,
}
use gads_write_mcp.Base.Dict.{Dict}
use gads_write_mcp.Python.Decimal.{Decimal, whole, ltd}
use gads_write_mcp.Python.Text.{Runtime}
use gads_write_mcp.Python.Value.{
  Value, str, seq, dict, nil, Arguments, entries, items, get, get_or, value_or,
}
use gads_write_mcp.Safety.Policy.{Policy}
use gads_write_mcp.Safety.Units.{Raised, money, type_error, coerce_units}
use gads_write_mcp.Safety.Validators.{
  named, Problem, problem, unless, nothing_to_change, bad_amount, not_positive,
}
use gads_write_mcp.Safety.Validators.Text.{
  validate_customer_id, validate_numeric_id, validate_keyword_text, validate_match_type,
  validate_campaign_name, validate_bidding_strategy, validate_ad_group_name,
}
use gads_write_mcp.Safety.Validators.Ads.{validate_rsa}
use gads_write_mcp.Safety.Validators.Campaigns.{
  is_given, validate_campaign_schedule, validate_geo_target_ids,
}

abbrev pub Validator : Type 0
Validator = Policy → Arguments → Result Raised (List Problem)

-- `list(text)` and `list(dict)`
unfoldable pub characters : String → List Value
characters [] = []
characters (c ∷ s) = str (c ∷ []) ∷ characters s

abbrev keys_of : Dict Value → List Value
keys_of [] = []
keys_of ((k, v) ∷ d) = str k ∷ keys_of d

-- `list(value)` of a value that JSON can hold.
unfoldable pub list_of : Value → Result Raised (List Value)
unfolding characters
list_of (seq vs) = ok (items vs)
list_of (str s) = ok (characters s)
list_of (dict fs) = ok (keys_of (entries fs))
list_of _ = err type_error

module _ ⦃py : Runtime⦄ where
  -- The two checks that the validators share.
  unfoldable pub account_problems : Arguments → List Problem
  unfolding validate_customer_id
  account_problems arguments =
      validate_customer_id (named "customer_id") (get_or arguments "customer_id" (str ""))

  unfoldable pub id_problems : String → Arguments → List Problem
  unfolding validate_numeric_id
  id_problems name arguments = validate_numeric_id (named name) (get_or arguments name (str ""))

  unfoldable pub validate_campaign_status_args : Validator
  unfolding account_problems id_problems
  validate_campaign_status_args policy arguments =
      ok (account_problems arguments ++ id_problems "campaign_id" arguments)

  unfoldable pub validate_ad_group_status_args : Validator
  unfolding account_problems id_problems
  validate_ad_group_status_args policy arguments =
      ok (account_problems arguments ++ id_problems "ad_group_id" arguments)

  unfoldable pub validate_keyword_status_args : Validator
  unfolding account_problems id_problems
  validate_keyword_status_args policy arguments = ok (
      account_problems arguments
      ++ id_problems "ad_group_id" arguments
      ++ id_problems "criterion_id" arguments)

  unfoldable pub validate_keyword_bid_args : Validator
  unfolding validate_keyword_status_args
  validate_keyword_bid_args policy arguments = validate_keyword_status_args policy arguments

  unfoldable pub validate_ad_status_args : Validator
  unfolding account_problems id_problems
  validate_ad_status_args policy arguments = ok (
      account_problems arguments
      ++ id_problems "ad_group_id" arguments
      ++ id_problems "ad_id" arguments)

  -- A name, a start or an end.
  abbrev some_change : Arguments → Bool
  unfolding is_given
  some_change arguments =
      is_given (get arguments "name")
      || is_given (get arguments "start_date")
      || is_given (get arguments "end_date")

  abbrev change_problems : Arguments → List Problem
  unfolding some_change is_given validate_campaign_name validate_campaign_schedule
  change_problems arguments =
      if not (some_change arguments)
      then problem (named "name") nothing_to_change
      else (if is_given (get arguments "name")
          then validate_campaign_name (get arguments "name")
          else [])
        ++ validate_campaign_schedule "" (get arguments "start_date") (get arguments "end_date")

  unfoldable pub validate_update_campaign_args : Validator
  unfolding account_problems id_problems change_problems
  validate_update_campaign_args policy arguments = ok (
      account_problems arguments
      ++ id_problems "campaign_id" arguments
      ++ change_problems arguments)

  unfoldable pub validate_budget_args : Validator
  unfolding account_problems id_problems
  validate_budget_args policy arguments =
      ok (account_problems arguments ++ id_problems "campaign_id" arguments)

  abbrev keyword_problems_of : Arguments → List Problem
  unfolding validate_keyword_text validate_match_type
  keyword_problems_of arguments =
      validate_keyword_text (named "keyword_text") (get_or arguments "keyword_text" (str ""))
      ++ validate_match_type (named "match_type") (get_or arguments "match_type" (str ""))

  unfoldable pub validate_negative_keyword_args : Validator
  unfolding account_problems validate_numeric_id keyword_problems_of
  validate_negative_keyword_args policy arguments = ok (
      account_problems arguments
      ++ validate_numeric_id (named "target_id")
          (value_or (get arguments "campaign_id") (value_or (get arguments "ad_group_id") (str "")))
      ++ keyword_problems_of arguments)

  unfoldable pub validate_keyword_args : Validator
  unfolding account_problems id_problems keyword_problems_of
  validate_keyword_args policy arguments = ok (
      account_problems arguments
      ++ id_problems "ad_group_id" arguments
      ++ keyword_problems_of arguments)

  unfoldable pub validate_bid_args : Validator
  unfolding account_problems id_problems
  validate_bid_args policy arguments =
      ok (account_problems arguments ++ id_problems "ad_group_id" arguments)

  -- `list(arguments.get(name) or [])`
  abbrev list_argument : Arguments → String → Result Raised (List Value)
  unfolding list_of
  list_argument arguments name = list_of (value_or (get arguments name) (seq nil))

  unfoldable pub ad_problems : Policy → Arguments → Result Raised (List Problem)
  unfolding list_argument validate_rsa
  ad_problems policy arguments = do
    headlines ← list_argument arguments "headlines"
    descriptions ← list_argument arguments "descriptions"
    final_urls ← list_argument arguments "final_urls"
    ok (
        validate_rsa policy.rules.allowed_final_url_domains (record {
          headlines = headlines;
          descriptions = descriptions;
          final_urls = final_urls;
          path1 = get arguments "path1";
          path2 = get arguments "path2";
        }))

  unfoldable pub validate_rsa_args : Validator
  unfolding account_problems id_problems ad_problems
  validate_rsa_args policy arguments = ad_problems policy arguments >>= λ problems.
      ok (account_problems arguments ++ id_problems "ad_group_id" arguments ++ problems)

  -- An amount that has to be above zero.
  abbrev positive : String → Result Raised Decimal → Result Raised (List Problem)
  positive name (ok units) = ok (unless (ltd (whole 0) units) (named name) (not_positive units))
  positive name (err (money e)) = ok (problem (named name) (bad_amount e))
  positive name (err e) = err e

  unfoldable pub amount_argument : String → Value → Result Raised (List Problem)
  unfolding coerce_units
  amount_argument name amount = positive name (coerce_units amount)

  unfoldable pub validate_create_ad_group_args : Validator
  unfolding account_problems id_problems validate_ad_group_name amount_argument is_given
  validate_create_ad_group_args policy arguments =
      (if is_given (get arguments "max_cpc")
        then amount_argument "max_cpc" (get arguments "max_cpc")
        else ok [])
      >>= λ amount. ok (
          account_problems arguments
          ++ id_problems "campaign_id" arguments
          ++ validate_ad_group_name (get arguments "name")
          ++ amount)

  unfoldable pub validate_location_target_args : Validator
  unfolding account_problems id_problems validate_geo_target_ids
  validate_location_target_args policy arguments = ok (
      account_problems arguments
      ++ id_problems "campaign_id" arguments
      ++ validate_geo_target_ids (get arguments "location_ids"))

  unfoldable pub validate_create_campaign_args : Validator
  unfolding account_problems validate_campaign_name validate_bidding_strategy amount_argument
  validate_create_campaign_args policy arguments =
      amount_argument "daily_budget" (get arguments "daily_budget") >>= λ budget. ok (
        account_problems arguments
        ++ validate_campaign_name (get arguments "name")
        ++ validate_bidding_strategy (get arguments "bidding_strategy")
        ++ budget)
