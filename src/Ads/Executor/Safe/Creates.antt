-- ===== src/Ads/Executor/Safe/Creates.antt =====
-- What the handlers create.
use gads_write_mcp.Base.{
  String, ◌≡◌, refl, Bool, true, false, not, ◌&&◌, [], ◌∷◌, ◌++◌, str_eq, if◌then◌else◌, Result, ok,
  err, ◌>>=◌, Result-cases, Bool-cases, inl, inr, is_empty,
}
use mathlib.Core.Path.{subst}
use gads_write_mcp.Base.Int.{ℤ, pos, ltb_ℤ}
use gads_write_mcp.Python.Text.{Runtime, one_of, stripped_text, is_empty_text}
use gads_write_mcp.Python.Value.{
  Value, bool, int, str, dict, Fields, end, value_or, entries, get, get_or,
}
use gads_write_mcp.Tools.Confirm.{MutationRequest}
use gads_write_mcp.Ads.Executor.{Message, ExecutorError, bad_payload, Client, Built}
use gads_write_mcp.Ads.Executor.Payload.{
  is_absent, require, digits, micros, keyword, status_of, text_or_empty,
}
use gads_write_mcp.Ads.Executor.Creates.{
  campaign_bidding_strategies, strategy_fields, whole_or_zero, optional_bid, path_field, list_of,
  add_negative_keyword, add_keyword, create_campaign, create_ad_group, create_responsive_search_ad,
}
use gads_write_mcp.Ads.Executor.Safe.{
  live_statuses, is_live, AllSafe, ends-AllSafe, live-append, message_inj, live_message,
}

module _ ⦃py : Runtime⦄ (client : Client) (request : MutationRequest) where
  status_of-live :
      (payload : Fields) (s : String) → status_of payload ≡ ok s → is_live (str s) ≡ true
  unfolding status_of is_live
  status_of-live payload s h =
      by_test (py.upper (stripped_text (get_or (entries payload) "status" (str "PAUSED")))) h
    where
      by_test :
          (t : String)
          → (if one_of t live_statuses then ok t else err (bad_payload "status")) ≡ ok s
          → is_live (str s) ≡ true
      by_test t k = elim (Bool-cases (one_of t live_statuses)) [
        | inl good ↦
            let same : t ≡ s = cc (rw good at k) in
            subst (λ x. one_of x live_statuses ≡ true) same good
        | inr bad ↦ cc (rw bad at k)
      ]

  pub negative-AllSafe :
      (resource owner parent key : String) (b : Built)
      → str_eq owner "status" ≡ false
      → add_negative_keyword resource owner parent key client request ≡ ok b
      → AllSafe client request b
  unfolding add_negative_keyword live_message
  negative-AllSafe resource owner parent key b plain h =
      elim (Result-cases (digits request.payload key)) [
        | inr (x, e) ↦ cc (rw e at h)
        | inl (id, e) ↦ elim (Result-cases (keyword request.payload)) [
          | inr (x, f) ↦ cc (rw (e, f) at h)
          | inl ((text, match_type), f) ↦
              ends-AllSafe client request _ b (rw plain refl, tt) (rw (e, f) at h)
        ]
      ]

  pub add_keyword-AllSafe :
      (b : Built) → add_keyword client request ≡ ok b → AllSafe client request b
  unfolding add_keyword live_message
  add_keyword-AllSafe b h = elim (Result-cases (digits request.payload "ad_group_id")) [
    | inr (x, e) ↦ cc (rw e at h)
    | inl (id, e) ↦ elim (Result-cases (keyword request.payload)) [
      | inr (x, f) ↦ cc (rw (e, f) at h)
      | inl ((text, match_type), f) ↦ elim (Result-cases (status_of request.payload)) [
        | inr (x, g) ↦ cc (rw (e, f, g) at h)
        | inl (status, g) ↦
            ends-AllSafe client request _ b (rw (status_of-live request.payload status g) refl, tt)
              (rw (e, f, g) at h)
      ]
    ]
  ]

  strategy-live : (strategy : String) → live_message (strategy_fields strategy) ≡ true
  unfolding live_message
  strategy-live strategy = by_name (str_eq strategy "MANUAL_CPC")
    where
      by_name :
          (manual : Bool)
          → live_message (
              if manual
              then ("manual_cpc.enhanced_cpc_enabled", bool false) ∷ []
              else ("target_spend", dict end) ∷ [])
            ≡ true
      by_name true = refl
      by_name false = refl

  pub create_campaign-AllSafe :
      (b : Built) → create_campaign client request ≡ ok b → AllSafe client request b
  unfolding create_campaign live_message
  create_campaign-AllSafe b h =
      let name = text_or_empty request.payload "name" in
      let strategy = py.upper (text_or_empty request.payload "bidding_strategy") in
      let budget = value_or (get (entries request.payload) "budget_micros") (int (pos 0)) in
      elim (Result-cases (whole_or_zero (client.to_int budget))) [
        | inr (x, e) ↦ cc (rw e at h)
        | inl (amount, e) ↦ elim (Result-cases (require (not (is_empty_text name)) "name")) [
          | inr (x, f) ↦ cc (rw (e, f) at h)
          | inl (_, f) ↦ elim (Result-cases (require (ltb_ℤ (pos 0) amount) "budget_micros")) [
            | inr (x, g) ↦ cc (rw (e, f, g) at h)
            | inl (_, g) ↦
                elim (Result-cases
                  (require (one_of strategy campaign_bidding_strategies) "bidding_strategy")) [
                    | inr (x, i) ↦ cc (rw (e, f, g, i) at h)
                    | inl (_, i) ↦
                        ends-AllSafe client request _ b (refl, (strategy-live strategy, tt))
                          (rw (e, f, g, i) at h)
                  ]
          ]
        ]
      ]

  optional_bid-live :
      (v : Value) (m : Message)
      → optional_bid client request.payload v ≡ ok m
      → live_message m ≡ true
  unfolding live_message
  optional_bid-live v m h =
      by_absent (is_absent v) (micros client request.payload "cpc_bid_micros") h
    where
      by_absent :
          (b : Bool) (r : Result ExecutorError ℤ)
          → (if b then ok [] else (r >>= λ value. ok (("cpc_bid_micros", int value) ∷ []))) ≡ ok m
          → live_message m ≡ true
      by_absent true r k = subst (λ x. live_message x ≡ true) (message_inj k) refl
      by_absent false (ok z) k = subst (λ x. live_message x ≡ true) (message_inj k) refl
      by_absent false (err e) k = cc

  pub create_ad_group-AllSafe :
      (b : Built) → create_ad_group client request ≡ ok b → AllSafe client request b
  unfolding create_ad_group live_message
  create_ad_group-AllSafe b h =
      let name = text_or_empty request.payload "name" in
      let given = get (entries request.payload) "cpc_bid_micros" in
      elim (Result-cases (digits request.payload "campaign_id")) [
        | inr (x, e) ↦ cc (rw e at h)
        | inl (id, e) ↦ elim (Result-cases (status_of request.payload)) [
          | inr (x, f) ↦ cc (rw (e, f) at h)
          | inl (status, f) ↦ elim (Result-cases (require (not (is_empty_text name)) "name")) [
            | inr (x, g) ↦ cc (rw (e, f, g) at h)
            | inl (_, g) ↦ elim (Result-cases (optional_bid client request.payload given)) [
              | inr (x, i) ↦ cc (rw (e, f, g, i) at h)
              | inl (bid, i) ↦
                  ends-AllSafe client request _ b
                    (
                      rw (status_of-live request.payload status f) (optional_bid-live given bid i),
                      tt,
                    )
                    (rw (e, f, g, i) at h)
            ]
          ]
        ]
      ]

  path_field-live :
      (name text : String)
      → str_eq name "status" ≡ false
      → live_message (path_field name text) ≡ true
  unfolding live_message
  path_field-live name text plain = by_text (is_empty_text text)
    where
      by_text : (b : Bool) → live_message (if b then [] else (name, str text) ∷ []) ≡ true
      by_text true = refl
      by_text false = rw plain refl

  pub create_responsive_search_ad-AllSafe :
      (b : Built) → create_responsive_search_ad client request ≡ ok b → AllSafe client request b
  unfolding create_responsive_search_ad live_message
  create_responsive_search_ad-AllSafe b h =
      let payload = entries request.payload in
      let paths =
        path_field "ad.responsive_search_ad.path1" (text_or_empty request.payload "path1")
        ++ path_field "ad.responsive_search_ad.path2" (text_or_empty request.payload "path2") in
      elim (Result-cases (digits request.payload "ad_group_id")) [
        | inr (x, e) ↦ cc (rw e at h)
        | inl (id, e) ↦ elim (Result-cases (status_of request.payload)) [
          | inr (x, f) ↦ cc (rw (e, f) at h)
          | inl (status, f) ↦ elim (Result-cases (list_of (get payload "headlines"))) [
            | inr (x, g) ↦ cc (rw (e, f, g) at h)
            | inl (headlines, g) ↦ elim (Result-cases (list_of (get payload "descriptions"))) [
              | inr (x, i) ↦ cc (rw (e, f, g, i) at h)
              | inl (descriptions, i) ↦ elim (Result-cases (list_of (get payload "final_urls"))) [
                | inr (x, j) ↦ cc (rw (e, f, g, i, j) at h)
                | inl (final_urls, j) ↦
                    elim (Result-cases (
                      require
                        (not (is_empty headlines)
                          && not (is_empty descriptions)
                          && not (is_empty final_urls))
                        "headlines")) [
                          | inr (x, k) ↦ cc (rw (e, f, g, i, j, k) at h)
                          | inl (_, k) ↦
                              ends-AllSafe client request _ b
                                (
                                  rw (status_of-live request.payload status f) (
                                      live-append
                                        (path_field "ad.responsive_search_ad.path1"
                                          (text_or_empty request.payload "path1"))
                                        (path_field "ad.responsive_search_ad.path2"
                                          (text_or_empty request.payload "path2"))
                                        (path_field-live "ad.responsive_search_ad.path1" _ refl)
                                        (path_field-live "ad.responsive_search_ad.path2" _ refl)),
                                  tt,
                                )
                                (rw (e, f, g, i, j, k) at h)
                        ]
              ]
            ]
          ]
        ]
      ]
