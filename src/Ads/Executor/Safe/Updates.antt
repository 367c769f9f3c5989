-- ===== src/Ads/Executor/Safe/Updates.antt =====
-- The updates that the handlers build.
use gads_write_mcp.Base.{
  String, ◌≡◌, refl, true, not, ◌&&◌, List, [], ◌∷◌, ◌++◌, ok, Result-cases, inl, inr,
}
use gads_write_mcp.Base.Dict.{Dict, lookup}
use gads_write_mcp.Python.Text.{Runtime, stripped_text}
use gads_write_mcp.Python.Value.{int, str, field, end, entries, get, get_or}
use gads_write_mcp.Tools.Confirm.{MutationRequest}
use gads_write_mcp.Tools.Registry.Laws.{all_entries}
use gads_write_mcp.Ads.Executor.{Message, starts_text, Client, Built}
use gads_write_mcp.Ads.Executor.Payload.{is_absent, require, digits, micros, date_time}
use gads_write_mcp.Ads.Executor.Updates.{
  set_if_given, or_key_error, ids_of, set_status, set_bid, campaign_name, update_campaign,
  update_campaign_budget,
}
use gads_write_mcp.Ads.Executor.Safe.{
  is_live, AllSafe, update_one-AllSafe, table-live, live-append, pair_live, set_if_given-live,
  live_message,
}

module _ ⦃py : Runtime⦄ (client : Client) (request : MutationRequest) where
  pub set_status-AllSafe :
      (resource : String) (table : Dict String) (keys : List String) (b : Built)
      → all_entries (λ k s. is_live (str s)) table ≡ true
      → set_status resource table keys client request ≡ ok b
      → AllSafe client request b
  unfolding set_status
  set_status-AllSafe resource table keys b all h =
      elim (Result-cases (or_key_error (lookup request.operation table))) [
        | inr (x, e) ↦ cc (rw e at h)
        | inl (status, found) ↦ elim (Result-cases (ids_of request.payload keys)) [
          | inr (x, e) ↦ cc (rw (found, e) at h)
          | inl (ids, e) ↦
              update_one-AllSafe client request resource
                (("resource_name", str (client.path resource request.customer_id ids))
                  ∷ ("status", str status)
                  ∷ [])
                (field "new_status" (str status) end) b
                (pair_live (client.path resource request.customer_id ids) status
                  (table-live table request.operation status all found))
                (rw (found, e) at h)
        ]
      ]

  pub set_bid-AllSafe :
      (resource : String) (keys : List String) (b : Built)
      → set_bid resource keys client request ≡ ok b
      → AllSafe client request b
  unfolding set_bid live_message
  set_bid-AllSafe resource keys b h = elim (Result-cases (ids_of request.payload keys)) [
    | inr (x, e) ↦ cc (rw e at h)
    | inl (ids, e) ↦ elim (Result-cases (micros client request.payload "cpc_bid_micros")) [
      | inr (x, f) ↦ cc (rw (e, f) at h)
      | inl (value, f) ↦
          update_one-AllSafe client request resource
            (("resource_name", str (client.path resource request.customer_id ids))
              ∷ ("cpc_bid_micros", int value)
              ∷ [])
            (field "new_cpc_bid_micros" (int value) end) b refl (rw (e, f) at h)
    ]
  ]

  pub update_campaign_budget-AllSafe :
      (b : Built) → update_campaign_budget client request ≡ ok b → AllSafe client request b
  unfolding update_campaign_budget live_message
  update_campaign_budget-AllSafe b h =
      let resource =
        stripped_text (get_or (entries request.payload) "budget_resource_name" (str "")) in
      elim (Result-cases (require (starts_text "customers/" resource) "budget_resource_name")) [
        | inr (x, e) ↦ cc (rw e at h)
        | inl (_, e) ↦ elim (Result-cases (micros client request.payload "amount_micros")) [
          | inr (x, f) ↦ cc (rw (e, f) at h)
          | inl (value, f) ↦
              update_one-AllSafe client request "campaignBudgets"
                (("resource_name", str resource) ∷ ("amount_micros", int value) ∷ [])
                (field "new_amount_micros" (int value) end) b refl (rw (e, f) at h)
        ]
      ]

  campaign-live :
      (path : String) (named started ended : Message)
      → live_message named ≡ true
      → live_message started ≡ true
      → live_message ended ≡ true
      → live_message (("resource_name", str path) ∷ (named ++ started ++ ended)) ≡ true
  unfolding live_message
  campaign-live path named started ended n s e =
      live-append (named ++ started) ended (live-append named started n s) e

  pub update_campaign-AllSafe :
      (b : Built) → update_campaign client request ≡ ok b → AllSafe client request b
  unfolding update_campaign
  update_campaign-AllSafe b h =
      let name = get (entries request.payload) "name" in
      let start = get (entries request.payload) "start_date_time" in
      let end_time = get (entries request.payload) "end_date_time" in
      elim (Result-cases (digits request.payload "campaign_id")) [
        | inr (x, e) ↦ cc (rw e at h)
        | inl (id, e) ↦
            elim (Result-cases
              (require (not (is_absent name && (is_absent start && is_absent end_time))) "name")) [
                | inr (x, f) ↦ cc (rw (e, f) at h)
                | inl (_, f) ↦ elim (Result-cases (set_if_given "name" name campaign_name)) [
                  | inr (x, g) ↦ cc (rw (e, f, g) at h)
                  | inl (named, g) ↦
                      elim (Result-cases
                        (set_if_given "start_date_time" start (date_time "start_date_time"))) [
                          | inr (x, i) ↦ cc (rw (e, f, g, i) at h)
                          | inl (started, i) ↦
                              elim (Result-cases (
                                set_if_given "end_date_time" end_time
                                  (date_time "end_date_time"))) [
                                    | inr (x, j) ↦ cc (rw (e, f, g, i, j) at h)
                                    | inl (ended, j) ↦
                                        update_one-AllSafe client request "campaigns"
                                          ((
                                            "resource_name",
                                            str (
                                                client.path "campaigns" request.customer_id
                                                  (id ∷ [])),
                                          )
                                            ∷ (named ++ started ++ ended))
                                          (field "new_name" name (
                                            field "new_start_date_time" start
                                              (field "new_end_date_time" end_time end)))
                                          b
                                          (campaign-live
                                            (client.path "campaigns" request.customer_id (id ∷ []))
                                            named started ended
                                            (set_if_given-live "name" name campaign_name named refl
                                              g)
                                            (set_if_given-live "start_date_time" start
                                              (date_time "start_date_time") started refl i)
                                            (set_if_given-live "end_date_time" end_time
                                              (date_time "end_date_time") ended refl j))
                                          (rw (e, f, g, i, j) at h)
                                  ]
                        ]
                ]
              ]
      ]
