-- ===== src/Ads/Executor/Dispatch.antt =====
-- ads/executor.py: the choice of the handler, and the second attempt without the manager.
pub mod Laws
use gads_write_mcp.Base.{
  ℕ, String, Bool, true, false, not, ◌&&◌, ◌||◌, Option, none, some, List, [], ◌∷◌, if◌then◌else◌,
  Result, ok, err, ◌>>=◌,
}
use gads_write_mcp.Base.Dict.{Dict, lookup}
use gads_write_mcp.Python.Text.{Runtime, one_of}
use gads_write_mcp.Tools.Confirm.{MutationRequest, MutationResult}
use gads_write_mcp.Ads.Executor.{
  ExecutorError, rejected, unknown_operation, uncaught, Client, Built, Handler, contains, send,
}
use gads_write_mcp.Ads.Executor.Masks.{known_operations}
use gads_write_mcp.Ads.Executor.Updates.{
  set_campaign_status, set_ad_group_status, set_keyword_status, set_ad_status, update_keyword_bid,
  update_ad_group_bid, update_campaign, update_campaign_budget,
}
use gads_write_mcp.Ads.Executor.Creates.{
  add_campaign_negative_keyword, add_ad_group_negative_keyword, add_keyword, create_campaign,
  create_ad_group, add_location_target, create_responsive_search_ad,
}

-- The clients of the two attempts, and the text of an error that is not Google's.
pub record Google : Type 0 where
  pub through_manager : Client
  pub directly : Client
  pub text_of : ExecutorError → String

abbrev pub error_text : Google → ExecutorError → String
error_text google (rejected text) = text
error_text google e = google.text_of e

module _ ⦃py : Runtime⦄ where
  abbrev pub handlers : Dict Handler
  handlers =
      ("pause_campaign", set_campaign_status)
      ∷ ("enable_campaign", set_campaign_status)
      ∷ ("pause_ad_group", set_ad_group_status)
      ∷ ("enable_ad_group", set_ad_group_status)
      ∷ ("pause_keyword", set_keyword_status)
      ∷ ("enable_keyword", set_keyword_status)
      ∷ ("pause_ad", set_ad_status)
      ∷ ("enable_ad", set_ad_status)
      ∷ ("update_keyword_bid", update_keyword_bid)
      ∷ ("update_campaign", update_campaign)
      ∷ ("create_campaign", create_campaign)
      ∷ ("create_ad_group", create_ad_group)
      ∷ ("add_location_target", add_location_target)
      ∷ ("update_campaign_budget", update_campaign_budget)
      ∷ ("update_ad_group_bid", update_ad_group_bid)
      ∷ ("add_campaign_negative_keyword", add_campaign_negative_keyword)
      ∷ ("add_ad_group_negative_keyword", add_ad_group_negative_keyword)
      ∷ ("add_keyword", add_keyword)
      ∷ ("create_responsive_search_ad", create_responsive_search_ad)
      ∷ []

  abbrev handled : Client → MutationRequest → Option Handler → Result ExecutorError MutationResult
  unfolding send
  handled client request none = err (uncaught "KeyError")
  handled client request (some handler) = handler client request >>= send client request

  -- `_run`
  unfoldable pub run : Client → MutationRequest → Result ExecutorError MutationResult
  unfolding handled lookup
  run client request = handled client request (lookup request.operation handlers)

  -- `_is_permission_error`; an exception of another class is not caught at all.
  unfoldable pub is_permission_error : Google → ExecutorError → Bool
  unfolding contains
  is_permission_error google (uncaught name) = false
  is_permission_error google e =
      let text = py.upper (error_text google e) in
      contains "PERMISSION_DENIED" text || contains "USER_PERMISSION_DENIED" text

  abbrev then_directly :
      Google
      → MutationRequest
      → Result ExecutorError MutationResult
      → Result ExecutorError MutationResult
  unfolding run is_permission_error
  then_directly google request (ok result) = ok result
  then_directly google request (err e) =
      if is_permission_error google e then run google.directly request else err e

  -- `_dispatch`
  unfoldable pub dispatch : Google → MutationRequest → Result ExecutorError MutationResult
  unfolding run then_directly
  dispatch google request = then_directly google request (run google.through_manager request)

  unfoldable pub apply : Google → MutationRequest → Result ExecutorError MutationResult
  unfolding dispatch one_of
  apply google request =
      if not (one_of request.operation known_operations)
      then err (unknown_operation request.operation)
      else dispatch google request
