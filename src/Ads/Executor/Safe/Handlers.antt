-- ===== src/Ads/Executor/Safe/Handlers.antt =====
-- What any operation may send.
use gads_write_mcp.Base.{◌≡◌, refl, some, [], ◌∷◌, All, ok}
use gads_write_mcp.Base.Dict.{lookup}
use gads_write_mcp.Python.Text.{Runtime, one_of}
use gads_write_mcp.Tools.Confirm.{MutationRequest}
use gads_write_mcp.Tools.Operations.Laws.{AllRows, lookup-AllRows}
use gads_write_mcp.Ads.Executor.{Client, Built, Handler, mutate_of}
use gads_write_mcp.Ads.Executor.Updates.{
  campaign_status_operations, ad_group_status_operations, keyword_status_operations,
  ad_status_operations,
}
use gads_write_mcp.Ads.Executor.Dispatch.{handlers}
use gads_write_mcp.Ads.Executor.Safe.{is_live, IsSafe, AllSafe}
use gads_write_mcp.Ads.Executor.Safe.Updates.{
  set_status-AllSafe, set_bid-AllSafe, update_campaign-AllSafe, update_campaign_budget-AllSafe,
}
use gads_write_mcp.Ads.Executor.Safe.Targets.{add_location_target-AllSafe}
use gads_write_mcp.Ads.Executor.Safe.Creates.{
  negative-AllSafe, add_keyword-AllSafe, create_campaign-AllSafe, create_ad_group-AllSafe,
  create_responsive_search_ad-AllSafe,
}

module _ ⦃py : Runtime⦄ where
  rows-AllSafe :
      (client : Client) (request : MutationRequest)
      → AllRows
          (λ handler. (b : Built) → handler client request ≡ ok b → AllSafe client request b)
          handlers
  unfolding is_live one_of
  rows-AllSafe client request = (
    λ b h.
        set_status-AllSafe client request "campaigns" campaign_status_operations
          ("campaign_id" ∷ []) b refl h,
    (
      λ b h.
          set_status-AllSafe client request "campaigns" campaign_status_operations
            ("campaign_id" ∷ []) b refl h,
      (
        λ b h.
            set_status-AllSafe client request "adGroups" ad_group_status_operations
              ("ad_group_id" ∷ []) b refl h,
        (
          λ b h.
              set_status-AllSafe client request "adGroups" ad_group_status_operations
                ("ad_group_id" ∷ []) b refl h,
          (
            λ b h.
                set_status-AllSafe client request "adGroupCriteria" keyword_status_operations
                  ("ad_group_id" ∷ "criterion_id" ∷ []) b refl h,
            (
              λ b h.
                  set_status-AllSafe client request "adGroupCriteria" keyword_status_operations
                    ("ad_group_id" ∷ "criterion_id" ∷ []) b refl h,
              (
                λ b h.
                    set_status-AllSafe client request "adGroupAds" ad_status_operations
                      ("ad_group_id" ∷ "ad_id" ∷ []) b refl h,
                (
                  λ b h.
                      set_status-AllSafe client request "adGroupAds" ad_status_operations
                        ("ad_group_id" ∷ "ad_id" ∷ []) b refl h,
                  (
                    λ b h.
                        set_bid-AllSafe client request "adGroupCriteria"
                          ("ad_group_id" ∷ "criterion_id" ∷ []) b h,
                    (
                      λ b h. update_campaign-AllSafe client request b h,
                      (
                        λ b h. create_campaign-AllSafe client request b h,
                        (
                          λ b h. create_ad_group-AllSafe client request b h,
                          (
                            λ b h. add_location_target-AllSafe client request b h,
                            (
                              λ b h. update_campaign_budget-AllSafe client request b h,
                              (
                                λ b h.
                                    set_bid-AllSafe client request "adGroups" ("ad_group_id" ∷ []) b
                                      h,
                                (
                                  λ b h.
                                      negative-AllSafe client request "campaignCriteria" "campaign"
                                        "campaigns" "campaign_id" b refl h,
                                  (
                                    λ b h.
                                        negative-AllSafe client request "adGroupCriteria" "ad_group"
                                          "adGroups" "ad_group_id" b refl h,
                                    (
                                      λ b h. add_keyword-AllSafe client request b h,
                                      (
                                        λ b h.
                                            create_responsive_search_ad-AllSafe client request b h,
                                        tt,
                                      ),
                                    ),
                                  ),
                                ),
                              ),
                            ),
                          ),
                        ),
                      ),
                    ),
                  ),
                ),
              ),
            ),
          ),
        ),
      ),
    ),
  )

  -- Whatever the operation: each update of the request that is built for Google overwrites only what
  -- the list of that operation allows, and a status, wherever one is set, is ENABLED or PAUSED.
  pub handlers-IsSafe :
      (client : Client) (request : MutationRequest) (handler : Handler) (b : Built)
      → lookup request.operation handlers ≡ some handler
      → handler client request ≡ ok b
      → All (IsSafe client request.operation) (mutate_of request b).changes
  unfolding mutate_of
  handlers-IsSafe client request handler b found h =
      lookup-AllRows (λ g. (c : Built) → g client request ≡ ok c → AllSafe client request c)
        handlers request.operation handler (rows-AllSafe client request) found b h
