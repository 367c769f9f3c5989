-- ===== src/Ads/Executor/Creates.antt =====
-- ads/executor.py: the handlers that create something.
use Prim.Native.String.{◌++◌ as append}
use gads_write_mcp.Base.{
  String, Bool, true, false, not, ◌&&◌, Option, none, some, List, [], ◌∷◌, ◌++◌, if◌then◌else◌,
  Result, ok, err, ◌>>=◌, is_empty, map, length, str_eq,
}
use gads_write_mcp.Base.Int.{ℤ, pos, ltb_ℤ}
use gads_write_mcp.Python.Text.{Runtime, is_empty_text, stripped_text, is_digits, one_of}
use gads_write_mcp.Python.Value.{
  Value, null, bool, int, str, seq, dict, Items, nil, cons, Fields, field, end, entries, get,
  value_or, is_text,
}
use gads_write_mcp.Safety.Units.{Raised}
use gads_write_mcp.Tools.Confirm.{MutationRequest}
use gads_write_mcp.Tools.Operations.Validation.{list_of as collected}
use gads_write_mcp.Ads.Executor.{
  Message, Change, create, update, ExecutorError, uncaught, Client, Built, Handler, finishing,
}
use gads_write_mcp.Ads.Executor.Masks.{seal_mask}
use gads_write_mcp.Ads.Executor.Payload.{
  is_absent, require, digits, micros, keyword, status_of, text_or_empty,
}

abbrev pub ad_group_type : String
ad_group_type = "SEARCH_STANDARD"

abbrev pub positive_geo_target_type : String
positive_geo_target_type = "PRESENCE"

abbrev pub temp_budget_id : String
temp_budget_id = "-1"

abbrev pub campaign_bidding_strategies : List String
campaign_bidding_strategies = "MANUAL_CPC" ∷ "MAXIMIZE_CLICKS" ∷ []

abbrev keyword_fields : String → String → Message
keyword_fields text match_type =
    ("keyword.text", str text) ∷ ("keyword.match_type", str match_type) ∷ []

abbrev or_type_error : Result Raised (List Value) → Result ExecutorError (List Value)
or_type_error (ok vs) = ok vs
or_type_error (err e) = err (uncaught "TypeError")

-- `list(value or [])`
unfoldable pub list_of : Value → Result ExecutorError (List Value)
unfolding collected
list_of v = or_type_error (collected (value_or v (seq nil)))

abbrev pub seq_of : List Value → Items
seq_of [] = nil
seq_of (v ∷ vs) = cons v (seq_of vs)

abbrev pub whole_or_zero : Option ℤ → Result ExecutorError ℤ
whole_or_zero none = err (uncaught "ValueError")
whole_or_zero (some n) = ok n

abbrev pub strategy_fields : String → Message
strategy_fields strategy =
    if str_eq strategy "MANUAL_CPC"
    then ("manual_cpc.enhanced_cpc_enabled", bool false) ∷ []
    else ("target_spend", dict end) ∷ []

-- The two ends that answer a rehearsal without the details.
abbrev pub atomic : MutationRequest → List Change → Bool → Fields → Built
atomic request changes wants_names details = record {
  changes = changes;
  wants_names = wants_names;
  rehearsed = field "validate_only" (bool true) (field "operation" (str request.operation) end);
  details = details;
}

module _ ⦃py : Runtime⦄ where
  -- The handlers that add a negative keyword: to a campaign, or to an ad group.
  unfoldable pub add_negative_keyword : (resource owner parent key : String) → Handler
  unfolding digits keyword
  add_negative_keyword resource owner parent key client request =
      digits request.payload key >>= λ id. keyword request.payload >>= λ (text, match_type). ok (
        finishing request
          (create resource (
              (owner, str (client.path parent request.customer_id (id ∷ [])))
              ∷ ("negative", bool true)
              ∷ keyword_fields text match_type)
            ∷ [])
          (field "negative" (bool true)
            (field "keyword" (str text) (field "match_type" (str match_type) end))))

  abbrev pub add_campaign_negative_keyword : Handler
  add_campaign_negative_keyword =
      add_negative_keyword "campaignCriteria" "campaign" "campaigns" "campaign_id"

  abbrev pub add_ad_group_negative_keyword : Handler
  add_ad_group_negative_keyword =
      add_negative_keyword "adGroupCriteria" "ad_group" "adGroups" "ad_group_id"

  unfoldable pub add_keyword : Handler
  unfolding digits keyword status_of
  add_keyword client request = digits request.payload "ad_group_id" >>= λ id.
      keyword request.payload >>= λ (text, match_type). status_of request.payload >>= λ status. ok (
        finishing request
          (create "adGroupCriteria" (
              ("ad_group", str (client.path "adGroups" request.customer_id (id ∷ [])))
              ∷ ("negative", bool false)
              ∷ ("status", str status)
              ∷ keyword_fields text match_type)
            ∷ [])
          (field "keyword" (str text)
            (field "match_type" (str match_type) (field "status" (str status) end))))

  abbrev budget_fields : String → String → ℤ → Message
  budget_fields temp_budget name amount =
      ("resource_name", str temp_budget)
      ∷ ("name", str (append name " - budget"))
      ∷ ("amount_micros", int amount)
      ∷ ("delivery_method", str "STANDARD")
      ∷ ("explicitly_shared", bool false)
      ∷ []

  abbrev campaign_fields : String → String → String → Message
  campaign_fields temp_budget name strategy =
      ("name", str name)
      ∷ ("campaign_budget", str temp_budget)
      ∷ ("status", str "PAUSED")
      ∷ ("advertising_channel_type", str "SEARCH")
      ∷ ("network_settings.target_google_search", bool true)
      ∷ ("network_settings.target_search_network", bool false)
      ∷ ("network_settings.target_content_network", bool false)
      ∷ ("network_settings.target_partner_search_network", bool false)
      ∷ ("contains_eu_political_advertising", str "DOES_NOT_CONTAIN_EU_POLITICAL_ADVERTISING")
      ∷ strategy_fields strategy

  unfoldable pub create_campaign : Handler
  unfolding text_or_empty one_of
  create_campaign client request =
      let name = text_or_empty request.payload "name" in
      let strategy = py.upper (text_or_empty request.payload "bidding_strategy") in
      let temp_budget = client.path "campaignBudgets" request.customer_id (temp_budget_id ∷ []) in
      whole_or_zero
        (client.to_int (value_or (get (entries request.payload) "budget_micros") (int (pos 0))))
      >>= λ amount. require (not (is_empty_text name)) "name" >>= λ _.
          require (ltb_ℤ (pos 0) amount) "budget_micros" >>= λ _.
          require (one_of strategy campaign_bidding_strategies) "bidding_strategy" >>= λ _. ok (
            atomic request
              (create "campaignBudgets" (budget_fields temp_budget name amount)
                ∷ create "campaigns" (campaign_fields temp_budget name strategy)
                ∷ [])
              false
              (field "operation" (str "create_campaign") (
                field "name" (str name)
                  (field "status" (str "PAUSED") (field "bidding_strategy" (str strategy) end)))))

  -- The bid of a new ad group, if the payload has one.
  abbrev pub optional_bid : Client → Fields → Value → Result ExecutorError Message
  optional_bid client payload v =
      if is_absent v
      then ok []
      else (micros client payload "cpc_bid_micros" >>= λ value.
          ok (("cpc_bid_micros", int value) ∷ []))

  abbrev bid_value : Message → Value
  bid_value [] = null
  bid_value ((_, v) ∷ _) = v

  unfoldable pub create_ad_group : Handler
  unfolding digits text_or_empty status_of
  create_ad_group client request =
      let name = text_or_empty request.payload "name" in
      digits request.payload "campaign_id" >>= λ id. status_of request.payload >>= λ status.
      require (not (is_empty_text name)) "name" >>= λ _.
      optional_bid client request.payload (get (entries request.payload) "cpc_bid_micros")
      >>= λ bid. ok (
          finishing request
            (create "adGroups" (
                ("campaign", str (client.path "campaigns" request.customer_id (id ∷ [])))
                ∷ ("name", str name)
                ∷ ("status", str status)
                ∷ ("type_", str ad_group_type)
                ∷ bid)
              ∷ [])
            (field "name" (str name) (
              field "status" (str status) (
                field "ad_group_type" (str ad_group_type)
                  (field "cpc_bid_micros" (bid_value bid) end)))))

  -- The ids that `str(value).strip()` gives, each of digits and none twice.
  unfoldable pub plain_ids : List Value → List String
  unfolding stripped_text
  plain_ids [] = []
  plain_ids (v ∷ vs) = stripped_text v ∷ plain_ids vs

  unfoldable pub all_numeric : List String → Bool
  unfolding is_digits
  all_numeric [] = true
  all_numeric (id ∷ ids) = is_digits id && all_numeric ids

  unfoldable pub none_twice : List String → Bool
  unfolding one_of
  none_twice [] = true
  none_twice (id ∷ ids) = not (one_of id ids) && none_twice ids

  abbrev pub location : String → String → Change
  location campaign id = create "campaignCriteria" (
      ("campaign", str campaign)
      ∷ ("negative", bool false)
      ∷ ("status", str "ENABLED")
      ∷ ("location.geo_target_constant", str (append "geoTargetConstants/" id))
      ∷ [])

  abbrev pub presence_fields : String → Message
  presence_fields campaign =
      ("resource_name", str campaign)
      ∷ ("geo_target_type_setting.positive_geo_target_type", str positive_geo_target_type)
      ∷ []

  -- The presence setting, if the payload has one, as a sealed update.
  unfoldable pub presence :
      Client → MutationRequest → String → Value → Result ExecutorError (List Change)
  unfolding seal_mask
  presence client request campaign v =
      if is_absent v
      then ok []
      else (require (is_text v positive_geo_target_type) "positive_geo_target_type" >>= λ _.
          seal_mask request.operation (presence_fields campaign) client >>= λ mask.
          ok (update "campaigns" (presence_fields campaign) ∷ []))

  unfoldable pub add_location_target : Handler
  unfolding list_of digits plain_ids all_numeric none_twice presence
  add_location_target client request =
      let positive = get (entries request.payload) "positive_geo_target_type" in
      digits request.payload "campaign_id" >>= λ campaign_id.
      list_of (get (entries request.payload) "geo_target_constant_ids") >>= λ raw_ids.
      let ids = plain_ids raw_ids in
      let campaign = client.path "campaigns" request.customer_id (campaign_id ∷ []) in
      require (not (is_empty ids)) "geo_target_constant_ids" >>= λ _.
      require (all_numeric ids) "geo_target_constant_id" >>= λ _.
      require (none_twice ids) "geo_target_constant_ids" >>= λ _.
      presence client request campaign positive >>= λ setting. ok (
        atomic request (map (location campaign) ids ++ setting) true (
          field "operation" (str "add_location_target") (
            field "geo_target_constant_ids" (seq (seq_of (map str ids)))
              (field "positive_geo_target_type" positive end))))

  -- A path of an ad is set where it is not blank.
  abbrev pub path_field : String → String → Message
  path_field name text = if is_empty_text text then [] else (name, str text) ∷ []

  unfoldable pub create_responsive_search_ad : Handler
  unfolding list_of digits status_of text_or_empty
  create_responsive_search_ad client request = digits request.payload "ad_group_id" >>= λ id.
      status_of request.payload >>= λ status.
      list_of (get (entries request.payload) "headlines") >>= λ headlines.
      list_of (get (entries request.payload) "descriptions") >>= λ descriptions.
      list_of (get (entries request.payload) "final_urls") >>= λ final_urls.
      require (not (is_empty headlines) && not (is_empty descriptions) && not (is_empty final_urls))
        "headlines"
      >>= λ _. ok (
          finishing request
            (create "adGroupAds" (
                ("ad_group", str (client.path "adGroups" request.customer_id (id ∷ [])))
                ∷ ("status", str status)
                ∷ ("ad.final_urls", seq (seq_of final_urls))
                ∷ ("ad.responsive_search_ad.headlines", seq (seq_of headlines))
                ∷ ("ad.responsive_search_ad.descriptions", seq (seq_of descriptions))
                ∷ (path_field "ad.responsive_search_ad.path1"
                      (text_or_empty request.payload "path1")
                    ++ path_field "ad.responsive_search_ad.path2"
                        (text_or_empty request.payload "path2")))
              ∷ [])
            (field "status" (str status) (
              field "headline_count" (int (pos (length headlines))) (
                field "description_count" (int (pos (length descriptions)))
                  (field "final_urls" (seq (seq_of final_urls)) end)))))
