-- ===== src/Tools/Rechecks/Laws.antt =====
-- What a budget change that passes its re-check has behind it.
use gads_write_mcp.Base.{
  ◌≡◌, refl, Bool, true, false, Option, none, some, Result, ok, Result-cases, inl, inr, arith, not,
  [], ◌∷◌, sym, ◌∙◌, ◌⊎◌, Bool-cases, str_eq, eq_iff, if◌then◌else◌,
}
use gads_write_mcp.Base.Int.{pos}
use gads_write_mcp.Auth.Tiers.{Tier}
use gads_write_mcp.Python.Decimal.{Decimal, finite}
use gads_write_mcp.Python.Text.{Runtime}
use gads_write_mcp.Python.Value.{Arguments, Fields, dec}
use gads_write_mcp.Safety.Policy.{
  Policy, PolicyVerdict, deny, not_a_number, no_current_budget, budget_moved,
  evaluate_budget_change, judge_budget,
}
use gads_write_mcp.Safety.Policy.Laws.{IsAcceptable, judge_budget-allowed_iff}
use gads_write_mcp.Safety.Units.{Raised, coerce_units}
use gads_write_mcp.Tools.Rechecks.{
  CampaignSummary, units_from_micros, shared_budget_verdict, units_from, is_moved, target_of,
  recheck_amount, recheck_budget,
}

one_campaign :
    (c : CampaignSummary)
    → (shared_budget_verdict c).allowed ≡ true
    → c.budget_reference_count ≡ pos 1
unfolding shared_budget_verdict
one_campaign c h = ground arith

not_refused :
    (w v : PolicyVerdict)
    → w.allowed ≡ false
    → v.allowed ≡ true
    → ◌≡◌ {A = Result Raised PolicyVerdict} (ok w) (ok v)
    → ⊥
not_refused w v off on h = cc

-- The early returns of the re-check, passed.
passed :
    (alone moved : Bool) (w v : PolicyVerdict) (x : Result Raised PolicyVerdict)
    → w.allowed ≡ alone
    → (if not alone then ok w else if moved then ok (deny (budget_moved ∷ [])) else x) ≡ ok v
    → v.allowed ≡ true
    → (alone ≡ true) × (moved ≡ false) × (x ≡ ok v)
passed false moved w v x off h a = absurd (not_refused w v off a h)
passed true true w v x off h a = absurd (not_refused (deny (budget_moved ∷ [])) v refl a h)
passed true false w v x off h a = (refl, refl, h)

module _ ⦃py : Runtime⦄ where
  evaluate-judge_budget :
      (policy : Policy) (tier : Tier) (c n : Decimal)
      → evaluate_budget_change policy tier (dec (finite c)) (dec (finite n))
        ≡ judge_budget policy tier c n
  unfolding evaluate_budget_change coerce_units
  evaluate-judge_budget policy tier c n = refl

  not_moved :
      (c : CampaignSummary) (payload : Fields)
      → is_moved c payload ≡ false
      → (target_of payload ≡ "")
        ⊎ (c.budget_resource_name ≡ "")
        ⊎ (target_of payload ≡ c.budget_resource_name)
  unfolding is_moved
  not_moved c payload h = elim (Bool-cases (str_eq (target_of payload) "")) [
    | inl bare ↦ inl ((eq_iff (target_of payload) "").0 bare)
    | inr given ↦ elim (Bool-cases (str_eq c.budget_resource_name "")) [
      | inl unknown ↦ inr (inl ((eq_iff c.budget_resource_name "").0 unknown))
      | inr known ↦ elim (Bool-cases (str_eq (target_of payload) c.budget_resource_name)) [
        | inl same ↦ inr (inr ((eq_iff (target_of payload) c.budget_resource_name).0 same))
        | inr differs ↦ cc (rw (given, known, differs) at h)
      ]
    ]
  ]

  -- The campaign was read, it alone draws on its budget, that budget is the one that would be changed
  -- where both names are known, and the new amount is acceptable against the budget as it is now.
  pub record IsRechecked (policy : Policy) (tier : Tier) (current : Option CampaignSummary)
      (payload : Fields) (new : Option Decimal) : Type 0 where
    pub campaign : CampaignSummary
    pub was_read : current ≡ some campaign
    pub alone : campaign.budget_reference_count ≡ pos 1
    pub in_place :
        (target_of payload ≡ "")
        ⊎ (campaign.budget_resource_name ≡ "")
        ⊎ (target_of payload ≡ campaign.budget_resource_name)
    pub amount : Decimal
    pub given : new ≡ some amount
    pub acceptable :
        IsAcceptable
          (policy.limits_for tier).budget.max_increase_percent
          (units_from_micros campaign.daily_budget_micros)
          amount

  recheck_amount-IsRechecked :
      (policy : Policy) (tier : Tier) (current : Option CampaignSummary) (payload : Fields)
      (new : Option Decimal) (v : PolicyVerdict)
      → recheck_amount policy tier current payload new ≡ ok v
      → v.allowed ≡ true
      → IsRechecked policy tier current payload new
  unfolding recheck_amount
  recheck_amount-IsRechecked policy tier current payload none v h a =
      absurd (not_refused (deny (not_a_number ∷ [])) v refl a h)
  recheck_amount-IsRechecked policy tier none payload (some new) v h a =
      absurd (not_refused (deny (no_current_budget ∷ [])) v refl a h)
  recheck_amount-IsRechecked policy tier (some c) payload (some new) v h a =
      let now = units_from_micros c.daily_budget_micros in
      let (alone, same, judged) =
        passed (shared_budget_verdict c).allowed (is_moved c payload) (shared_budget_verdict c) v
          (evaluate_budget_change policy tier (dec (finite now)) (dec (finite new))) refl h a in
      record {
        campaign = c;
        was_read = refl;
        alone = one_campaign c alone;
        in_place = not_moved c payload same;
        amount = new;
        given = refl;
        acceptable =
            (judge_budget-allowed_iff policy now new tier).0
              (v, sym (evaluate-judge_budget policy tier now new) ∙ judged, a);
      }

  -- A budget change passes its re-check only if the campaign could be read, it alone draws on its
  -- budget, that budget is the one the change is addressed to where both names are known, and the new
  -- amount is acceptable
  -- under the tier's limit against the budget as it is now.
  pub recheck_budget-IsRechecked :
      (policy : Policy) (tier : Tier) (arguments : Arguments) (current : Option CampaignSummary)
      (payload : Fields) (spend_today : Decimal) (v : PolicyVerdict)
      → recheck_budget policy tier arguments current payload spend_today ≡ ok v
      → v.allowed ≡ true
      → (new : Option Decimal) × (units_from arguments "new_daily_budget" ≡ ok new)
        × IsRechecked policy tier current payload new
  unfolding recheck_budget
  recheck_budget-IsRechecked policy tier arguments current payload spend_today v h a =
      elim (Result-cases (units_from arguments "new_daily_budget")) [
        | inr (x, e) ↦ cc (rw e at h)
        | inl (new, e) ↦
            (new, e, recheck_amount-IsRechecked policy tier current payload new v (rw e at h) a)
      ]
