-- ===== src/Ads/Executor/Updates.antt =====
-- ads/executor.py: the handlers that change a resource which is there.
use gads_write_mcp.Base.{
  String, not, ◌&&◌, Option, none, some, List, [], ◌∷◌, ◌++◌, if◌then◌else◌, Result, ok, err, ◌>>=◌,
}
use gads_write_mcp.Base.Dict.{Dict, lookup}
use gads_write_mcp.Base.Int.{ℤ}
use gads_write_mcp.Python.Text.{Runtime, is_empty_text, stripped_text}
use gads_write_mcp.Python.Value.{Value, int, str, Fields, field, end, entries, get, get_or}
use gads_write_mcp.Tools.Confirm.{MutationRequest}
use gads_write_mcp.Ads.Executor.{
  Message, update, ExecutorError, bad_payload, uncaught, Client, Built, Handler, finishing,
  starts_text,
}
use gads_write_mcp.Ads.Executor.Masks.{seal_mask}
use gads_write_mcp.Ads.Executor.Payload.{is_absent, require, digits, micros, date_time}

abbrev pub campaign_status_operations : Dict String
campaign_status_operations = ("pause_campaign", "PAUSED") ∷ ("enable_campaign", "ENABLED") ∷ []

abbrev pub ad_group_status_operations : Dict String
ad_group_status_operations = ("pause_ad_group", "PAUSED") ∷ ("enable_ad_group", "ENABLED") ∷ []

abbrev pub keyword_status_operations : Dict String
keyword_status_operations = ("pause_keyword", "PAUSED") ∷ ("enable_keyword", "ENABLED") ∷ []

abbrev pub ad_status_operations : Dict String
ad_status_operations = ("pause_ad", "PAUSED") ∷ ("enable_ad", "ENABLED") ∷ []

-- `TABLE[request.operation]`
abbrev pub or_key_error : Option String → Result ExecutorError String
or_key_error none = err (uncaught "KeyError")
or_key_error (some status) = ok status

-- One update, whose mask is sealed before it is sent.
unfoldable pub update_one :
    Client → MutationRequest → String → Message → Fields → Result ExecutorError Built
unfolding seal_mask
update_one client request resource message details =
    seal_mask request.operation message client >>= λ mask.
    ok (finishing request (update resource message ∷ []) details)

-- The field is set where the payload has a value for it.
abbrev pub set_if_given :
    String → Value → (Value → Result ExecutorError String) → Result ExecutorError Message
set_if_given name v read =
    if is_absent v then ok [] else (read v >>= λ text. ok ((name, str text) ∷ []))

abbrev new_bid : ℤ → Fields
new_bid value = field "new_cpc_bid_micros" (int value) end

module _ ⦃py : Runtime⦄ where
  -- The ids of the payload under these keys.
  unfoldable pub ids_of : Fields → List String → Result ExecutorError (List String)
  unfolding digits
  ids_of payload [] = ok []
  ids_of payload (key ∷ keys) =
      digits payload key >>= λ id. ids_of payload keys >>= λ ids. ok (id ∷ ids)

  -- The handlers that set a status: the resource, the table of statuses and the keys of the ids differ.
  unfoldable pub set_status : String → Dict String → List String → Handler
  unfolding lookup ids_of update_one
  set_status resource table keys client request =
      or_key_error (lookup request.operation table) >>= λ status.
      ids_of request.payload keys >>= λ ids.
      update_one client request resource
        (("resource_name", str (client.path resource request.customer_id ids))
          ∷ ("status", str status)
          ∷ [])
        (field "new_status" (str status) end)

  -- The handlers that set a bid.
  unfoldable pub set_bid : String → List String → Handler
  unfolding ids_of update_one
  set_bid resource keys client request = ids_of request.payload keys >>= λ ids.
      micros client request.payload "cpc_bid_micros" >>= λ value.
      update_one client request resource
        (("resource_name", str (client.path resource request.customer_id ids))
          ∷ ("cpc_bid_micros", int value)
          ∷ [])
        (new_bid value)

  unfoldable pub campaign_name : Value → Result ExecutorError String
  unfolding stripped_text
  campaign_name v =
      if is_empty_text (stripped_text v) then err (bad_payload "name") else ok (stripped_text v)

  unfoldable pub update_campaign : Handler
  unfolding digits update_one campaign_name date_time
  update_campaign client request =
      let name = get (entries request.payload) "name" in
      let start = get (entries request.payload) "start_date_time" in
      let end_time = get (entries request.payload) "end_date_time" in
      digits request.payload "campaign_id" >>= λ id.
      require (not (is_absent name && (is_absent start && is_absent end_time))) "name" >>= λ _.
      set_if_given "name" name campaign_name >>= λ named.
      set_if_given "start_date_time" start (date_time "start_date_time") >>= λ started.
      set_if_given "end_date_time" end_time (date_time "end_date_time") >>= λ ended.
      update_one client request "campaigns"
        (("resource_name", str (client.path "campaigns" request.customer_id (id ∷ [])))
          ∷ (named ++ started ++ ended))
        (field "new_name" name
          (field "new_start_date_time" start (field "new_end_date_time" end_time end)))

  unfoldable pub update_campaign_budget : Handler
  unfolding stripped_text starts_text update_one
  update_campaign_budget client request =
      let resource =
        stripped_text (get_or (entries request.payload) "budget_resource_name" (str "")) in
      require (starts_text "customers/" resource) "budget_resource_name" >>= λ _.
      micros client request.payload "amount_micros" >>= λ value.
      update_one client request "campaignBudgets"
        (("resource_name", str resource) ∷ ("amount_micros", int value) ∷ [])
        (field "new_amount_micros" (int value) end)

  abbrev pub set_campaign_status : Handler
  set_campaign_status = set_status "campaigns" campaign_status_operations ("campaign_id" ∷ [])

  abbrev pub set_ad_group_status : Handler
  set_ad_group_status = set_status "adGroups" ad_group_status_operations ("ad_group_id" ∷ [])

  abbrev pub set_keyword_status : Handler
  set_keyword_status =
      set_status "adGroupCriteria" keyword_status_operations ("ad_group_id" ∷ "criterion_id" ∷ [])

  abbrev pub set_ad_status : Handler
  set_ad_status = set_status "adGroupAds" ad_status_operations ("ad_group_id" ∷ "ad_id" ∷ [])

  abbrev pub update_keyword_bid : Handler
  update_keyword_bid = set_bid "adGroupCriteria" ("ad_group_id" ∷ "criterion_id" ∷ [])

  abbrev pub update_ad_group_bid : Handler
  update_ad_group_bid = set_bid "adGroups" ("ad_group_id" ∷ [])
