-- ===== src/Safety/Policy/Laws.antt =====
-- Which changes of money the policy lets through.
use gads_write_mcp.Base.{
  ◌≡◌, refl, ◌≢◌, ◌↔◌, ◌⊎◌, inl, inr, true, false, Option, none, some, ◌==◌, ok, Bool-cases,
  Result-cases, arith,
}
use gads_write_mcp.Base.Int.{abs}
use gads_write_mcp.Auth.Tiers.{Tier}
use gads_write_mcp.Python.Decimal.{Decimal, whole, ltd}
use gads_write_mcp.Safety.Units.{percent_between}
use gads_write_mcp.Safety.Policy.{Policy, PolicyVerdict, allow, budget_rise, judge_budget}

-- The rise stays at or below a limit, in per cent of what it starts from.
abbrev pub IsWithin : Option Decimal → Decimal → Decimal → Type 0
IsWithin none current proposed = Unit
IsWithin (some limit) current proposed =
    (increase : Decimal) × (percent_between current proposed ≡ ok increase)
    × (ltd limit increase ≡ false)

-- What the policy asks of an amount: above zero, and if it is a rise, one from other than zero that
-- is within the limit.
abbrev pub IsAcceptable : Option Decimal → Decimal → Decimal → Type 0
IsAcceptable limit current proposed =
    (ltd (whole 0) proposed ≡ true)
    × ((ltd current proposed ≡ false) ⊎ ((abs current.num ≢ 0) × IsWithin limit current proposed))

module _ (policy : Policy) (current proposed : Decimal) where
  budget_rise-allowed_iff :
      (limit : Option Decimal)
      → ((v : PolicyVerdict) × (budget_rise policy limit current proposed ≡ ok v)
          × (v.allowed ≡ true))
        ↔ IsWithin limit current proposed
  unfolding budget_rise
  budget_rise-allowed_iff none = (λ x. tt, λ x. (allow, refl, refl))
  budget_rise-allowed_iff (some limit) =
      (λ (v, h, a). within v h a, λ (i, h, low). (allow, rw (h, low) refl, refl))
    where
      within :
          (v : PolicyVerdict)
          → budget_rise policy (some limit) current proposed ≡ ok v
          → v.allowed ≡ true
          → IsWithin (some limit) current proposed
      within v h a = elim (Result-cases (percent_between current proposed)) [
        | inr (x, e) ↦ cc (rw e at h)
        | inl (i, e) ↦ elim (Bool-cases (ltd limit i)) [
          | inl over ↦ ground (arith, rw (e, over) at h)
          | inr low ↦ (i, e, low)
        ]
      ]

  -- A change of a budget is allowed exactly when it is acceptable under the limit of the caller's
  -- tier: above zero, and no rise or a rise from other than zero that is within the limit.
  pub judge_budget-allowed_iff :
      (tier : Tier)
      → ((v : PolicyVerdict) × (judge_budget policy tier current proposed ≡ ok v)
          × (v.allowed ≡ true))
        ↔ IsAcceptable (policy.limits_for tier).budget.max_increase_percent current proposed
  unfolding judge_budget
  judge_budget-allowed_iff tier =
      (λ (v, h, a). acceptable v h a, λ (above, rest). judged above rest)
    where
      limit : Option Decimal
      limit = (policy.limits_for tier).budget.max_increase_percent

      acceptable :
          (v : PolicyVerdict)
          → judge_budget policy tier current proposed ≡ ok v
          → v.allowed ≡ true
          → IsAcceptable limit current proposed
      acceptable v h a = elim (Bool-cases (ltd (whole 0) proposed)) [
        | inr below ↦ ground (arith, rw below at h)
        | inl above ↦ elim (Bool-cases (ltd current proposed)) [
          | inr falls ↦ (above, inl falls)
          | inl rises ↦ elim (Bool-cases (abs current.num == 0)) [
            | inl zero ↦ ground (arith, rw (above, rises, zero) at h)
            | inr more ↦ (
              above,
              inr (
                ground (arith, more),
                (budget_rise-allowed_iff limit).0 (v, rw (above, rises, more) at h, a),
              ),
            )
          ]
        ]
      ]

      judged :
          ltd (whole 0) proposed ≡ true
          → (ltd current proposed ≡ false)
            ⊎ ((abs current.num ≢ 0) × IsWithin limit current proposed)
          → (v : PolicyVerdict) × (judge_budget policy tier current proposed ≡ ok v)
            × (v.allowed ≡ true)
      judged above (inl falls) = (allow, rw (above, falls) refl, refl)
      judged above (inr (more, within)) = elim (Bool-cases (ltd current proposed)) [
        | inr falls ↦ (allow, rw (above, falls) refl, refl)
        | inl rises ↦
            let zero : (abs current.num == 0) ≡ false = ground (arith, more) in
            let (v, e, a) = (budget_rise-allowed_iff limit).1 within in
            (v, rw (above, rises, zero) e, a)
      ]
