-- ===== src/Ads/Executor/Masks.antt =====
-- ads/executor.py: which fields an operation may overwrite, and which operations there are.
use gads_write_mcp.Base.{
  String, Bool, true, ◌&&◌, Option, none, some, List, [], ◌∷◌, ◌++◌, if◌then◌else◌, Result, ok, err,
}
use gads_write_mcp.Base.Dict.{Dict, lookup}
use gads_write_mcp.Python.Text.{one_of}
use gads_write_mcp.Ads.Executor.{Message, ExecutorError, mask_refused, uncaught, Client}

abbrev status_fields : List String
status_fields = "resource_name" ∷ "status" ∷ []

abbrev bid_fields : List String
bid_fields = "resource_name" ∷ "cpc_bid_micros" ∷ []

abbrev pub update_mask_allowlist : Dict (List String)
update_mask_allowlist =
    ("pause_campaign", status_fields)
    ∷ ("enable_campaign", status_fields)
    ∷ ("update_campaign_budget", "resource_name" ∷ "amount_micros" ∷ [])
    ∷ ("update_ad_group_bid", bid_fields)
    ∷ ("pause_ad_group", status_fields)
    ∷ ("enable_ad_group", status_fields)
    ∷ ("pause_keyword", status_fields)
    ∷ ("enable_keyword", status_fields)
    ∷ ("update_keyword_bid", bid_fields)
    ∷ ("pause_ad", status_fields)
    ∷ ("enable_ad", status_fields)
    ∷ ("update_campaign", "resource_name" ∷ "name" ∷ "start_date_time" ∷ "end_date_time" ∷ [])
    ∷ (
      "add_location_target",
      "resource_name" ∷ "geo_target_type_setting.positive_geo_target_type" ∷ [],
    )
    ∷ []

abbrev pub create_operations : List String
create_operations =
    "add_campaign_negative_keyword" ∷ "add_ad_group_negative_keyword" ∷ "add_keyword"
    ∷ "create_responsive_search_ad" ∷ "create_campaign" ∷ "create_ad_group" ∷ []

abbrev keys_of : Dict (List String) → List String
keys_of [] = []
keys_of ((k, v) ∷ d) = k ∷ keys_of d

abbrev pub known_operations : List String
known_operations = keys_of update_mask_allowlist ++ create_operations

-- Every path of a mask is among the allowed.
unfoldable pub all_allowed : List String → List String → Bool
unfolding one_of
all_allowed allowed [] = true
all_allowed allowed (p ∷ ps) = one_of p allowed && all_allowed allowed ps

unfoldable pub sealed_by :
    String → List String → Option (List String) → Result ExecutorError (List String)
unfolding all_allowed
sealed_by operation paths none = err (uncaught "KeyError")
sealed_by operation paths (some allowed) =
    if all_allowed allowed paths then ok paths else err (mask_refused operation)

-- `_seal_mask`, whose result is the mask.
unfoldable pub seal_mask : String → Message → Client → Result ExecutorError (List String)
unfolding sealed_by lookup
seal_mask operation message client =
    sealed_by operation (client.field_mask message) (lookup operation update_mask_allowlist)
