-- ===== src/Ads/Executor/Safe/Targets.antt =====
-- The locations that a campaign is given, with its presence setting.
use gads_write_mcp.Base.{
  String, ◌≡◌, refl, not, List, [], ◌∷◌, map, Result, ok, Result-cases, Bool-cases, All, All-append,
  inl, inr, is_empty,
}
use mathlib.Core.Path.{subst}
use gads_write_mcp.Python.Text.{Runtime, one_of}
use gads_write_mcp.Python.Value.{Value, is_text, entries, get}
use gads_write_mcp.Tools.Confirm.{MutationRequest}
use gads_write_mcp.Ads.Executor.{Change, ExecutorError, Client, Built}
use gads_write_mcp.Ads.Executor.Masks.{seal_mask}
use gads_write_mcp.Ads.Executor.Payload.{is_absent, require, digits}
use gads_write_mcp.Ads.Executor.Creates.{
  presence, presence_fields, location, positive_geo_target_type, list_of, plain_ids, all_numeric,
  none_twice, add_location_target,
}
use gads_write_mcp.Ads.Executor.Safe.{
  is_live, seal_mask-IsSealed, AllSafe, ends-AllSafe, live_message, IsSafe,
}

module _ ⦃py : Runtime⦄ (client : Client) (request : MutationRequest) where
  presence-AllSafe :
      (campaign : String) (v : Value) (setting : List Change)
      → presence client request campaign v ≡ ok setting
      → All (IsSafe client request.operation) setting
  unfolding presence live_message
  presence-AllSafe campaign v setting h = elim (Bool-cases (is_absent v)) [
    | inl absent ↦ changes_inj [] setting tt (rw absent at h)
    | inr given ↦
        elim (Result-cases
          (require (is_text v positive_geo_target_type) "positive_geo_target_type")) [
            | inr (x, e) ↦ cc (rw (given, e) at h)
            | inl (_, e) ↦
                elim (Result-cases
                  (seal_mask request.operation (presence_fields campaign) client)) [
                    | inr (x, f) ↦ cc (rw (given, e, f) at h)
                    | inl (mask, f) ↦
                        changes_inj _ setting
                          (
                            (
                              refl,
                              seal_mask-IsSealed client request.operation (presence_fields campaign)
                                  mask f,
                            ),
                            tt,
                          )
                          (rw (given, e, f) at h)
                  ]
          ]
  ]
    where
      changes_inj :
          (a c : List Change)
          → All (IsSafe client request.operation) a
          → ◌≡◌ {A = Result ExecutorError (List Change)} (ok a) (ok c)
          → All (IsSafe client request.operation) c
      changes_inj a c safe k = subst (All (IsSafe client request.operation)) (same k) safe
        where
          same : ◌≡◌ {A = Result ExecutorError (List Change)} (ok a) (ok c) → a ≡ c
          same j = cc

  locations-AllSafe :
      (campaign : String) (ids : List String)
      → All (IsSafe client request.operation) (map (location campaign) ids)
  unfolding live_message is_live one_of
  locations-AllSafe campaign [] = tt
  locations-AllSafe campaign (id ∷ ids) = (refl, locations-AllSafe campaign ids)

  pub add_location_target-AllSafe :
      (b : Built) → add_location_target client request ≡ ok b → AllSafe client request b
  unfolding add_location_target
  add_location_target-AllSafe b h =
      let positive = get (entries request.payload) "positive_geo_target_type" in
      elim (Result-cases (digits request.payload "campaign_id")) [
        | inr (x, e) ↦ cc (rw e at h)
        | inl (id, e) ↦
            elim (Result-cases
              (list_of (get (entries request.payload) "geo_target_constant_ids"))) [
                | inr (x, f) ↦ cc (rw (e, f) at h)
                | inl (raw_ids, f) ↦
                    let ids = plain_ids raw_ids in
                    let campaign = client.path "campaigns" request.customer_id (id ∷ []) in
                    elim (Result-cases (require (not (is_empty ids)) "geo_target_constant_ids")) [
                      | inr (x, g) ↦ cc (rw (e, f, g) at h)
                      | inl (_, g) ↦
                          elim (Result-cases (require (all_numeric ids) "geo_target_constant_id")) [
                            | inr (x, i) ↦ cc (rw (e, f, g, i) at h)
                            | inl (_, i) ↦
                                elim (Result-cases
                                  (require (none_twice ids) "geo_target_constant_ids")) [
                                    | inr (x, j) ↦ cc (rw (e, f, g, i, j) at h)
                                    | inl (_, j) ↦
                                        elim (Result-cases
                                          (presence client request campaign positive)) [
                                            | inr (x, k) ↦ cc (rw (e, f, g, i, j, k) at h)
                                            | inl (setting, k) ↦
                                                ends-AllSafe client request _ b
                                                  (All-append (IsSafe client request.operation)
                                                    (map (location campaign) ids) setting
                                                    (locations-AllSafe campaign ids)
                                                    (presence-AllSafe campaign positive setting k))
                                                  (rw (e, f, g, i, j, k) at h)
                                          ]
                                  ]
                          ]
                    ]
              ]
      ]
