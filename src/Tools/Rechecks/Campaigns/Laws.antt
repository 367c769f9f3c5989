-- ===== src/Tools/Rechecks/Campaigns/Laws.antt =====
-- Which campaigns take a new ad group, locations or dates.
use gads_write_mcp.Base.{
  String, ◌≡◌, refl, ap, ◌≢◌, ◌↔◌, inl, inr, Bool, true, false, not, some, [], ◌∷◌, str_eq, arith,
  if◌then◌else◌, Bool-cases, eq_iff,
}
use gads_write_mcp.Python.Text.{Runtime, strip, one_of, is_empty_text}
use gads_write_mcp.Python.Value.{Arguments, Fields}
use gads_write_mcp.Safety.Policy.{PolicyVerdict, Reason, deny, campaign_removed}
use gads_write_mcp.Tools.Rechecks.{CampaignSummary}
use gads_write_mcp.Tools.Rechecks.Campaigns.{
  manual_bidding_strategies, has_bid, bid_verdict, ad_group_campaign_verdict,
  location_target_verdict, update_campaign_verdict,
}

-- A test that ends the judgement with a refusal, passed.
stop :
    (b : Bool) (r : Reason) (v : PolicyVerdict)
    → (if b then deny (r ∷ []) else v).allowed ≡ true
    → (b ≡ false) × (v.allowed ≡ true)
stop true r v h = cc
stop false r v h = (refl, h)

pass :
    (b : Bool) (r : Reason) (v : PolicyVerdict)
    → b ≡ false
    → v.allowed ≡ true
    → (if b then deny (r ∷ []) else v).allowed ≡ true
pass true r v h k = cc
pass false r v h k = k

not-false : (b : Bool) → not b ≡ false → b ≡ true
not-false true h = refl
not-false false h = cc

bid_fits : (manual bid : Bool) → (bid_verdict manual bid).allowed ≡ true → bid ≡ manual
bid_fits true true h = refl
bid_fits true false h = cc
bid_fits false true h = cc
bid_fits false false h = refl

fits_bid : (manual bid : Bool) → bid ≡ manual → (bid_verdict manual bid).allowed ≡ true
fits_bid true true h = refl
fits_bid true false h = cc
fits_bid false true h = cc
fits_bid false false h = refl

text_is : (s t : String) → str_eq s t ≡ false → s ≢ t
text_is s t h = ground (arith, eq_iff s t, h)

text_is_not : (s t : String) → s ≢ t → str_eq s t ≡ false
text_is_not s t h = elim (Bool-cases (str_eq s t)) [
  | inl same ↦ absurd (h ((eq_iff s t).0 same))
  | inr differs ↦ differs
]

module _ ⦃py : Runtime⦄ where
  -- A new ad group is allowed in a campaign that was read exactly if it is not removed, is a search
  -- campaign, its bidding strategy is known, and a bid is given just where the strategy is manual.
  pub ad_group_campaign_verdict-allowed_iff :
      (c : CampaignSummary) (payload : Fields)
      → ((ad_group_campaign_verdict (some c) payload).allowed ≡ true) ↔ (
          (py.upper c.status ≢ "REMOVED")
          × (py.upper (strip c.channel_type) ≡ "SEARCH")
          × (py.upper (strip c.bidding_strategy_type) ≢ "")
          × (has_bid payload
              ≡ one_of (py.upper (strip c.bidding_strategy_type)) manual_bidding_strategies))
  unfolding ad_group_campaign_verdict
  ad_group_campaign_verdict-allowed_iff c payload =
      let strategy = py.upper (strip c.bidding_strategy_type) in
      let manual = one_of strategy manual_bidding_strategies in
      (
        λ h.
            let (kept, h1) = stop (str_eq (py.upper c.status) "REMOVED") _ _ h in
            let (search, h2) =
              stop (not (str_eq (py.upper (strip c.channel_type)) "SEARCH")) _ _ h1 in
            let (known, h3) = stop (is_empty_text strategy) _ _ h2 in
            (
              text_is _ _ kept,
              (eq_iff (py.upper (strip c.channel_type)) "SEARCH").0 (not-false _ search),
              text_is _ _ known,
              bid_fits manual (has_bid payload) h3,
            ),
        λ (kept, search, known, bid).
            pass (str_eq (py.upper c.status) "REMOVED") _ _ (text_is_not _ _ kept) (
              pass (not (str_eq (py.upper (strip c.channel_type)) "SEARCH")) _ _
                (ap not ((eq_iff (py.upper (strip c.channel_type)) "SEARCH").1 search))
                (pass (is_empty_text strategy) _ _ (text_is_not _ _ known)
                  (fits_bid manual (has_bid payload) bid))),
      )

  -- A removed campaign takes no ad group, no location and no edit.
  pub verdicts-removed :
      (c : CampaignSummary) (payload : Fields) (arguments : Arguments)
      → py.upper c.status ≡ "REMOVED"
      → (ad_group_campaign_verdict (some c) payload ≡ deny (campaign_removed ∷ []))
        × (location_target_verdict (some c) payload ≡ deny (campaign_removed ∷ []))
        × (update_campaign_verdict (some c) arguments ≡ deny (campaign_removed ∷ []))
  unfolding ad_group_campaign_verdict location_target_verdict update_campaign_verdict
  verdicts-removed c payload arguments h =
      let gone = (eq_iff (py.upper c.status) "REMOVED").1 h in
      (rw gone refl, rw gone refl, rw gone refl)
