-- ===== src/Tools/Registry/Laws.antt =====
-- What holds of every tool in the table, and of a name that is not in it.
use gads_write_mcp.Base.{
  ◌≤◌, String, ◌≡◌, refl, ap, inl, inr, Bool, true, false, some, [], ◌∷◌, arith, ok, str_eq, eq_iff,
  not, ◌&&◌, ◌||◌, Bool-cases, Option-cases, ◌≢◌,
}
use gads_write_mcp.Base.Dict.{Dict, lookup}
use gads_write_mcp.Auth.Tiers.{nothing, readonly, operator, rank, tier_at_least}
use mathlib.Core.Bool.{and-eq-true_iff}
use gads_write_mcp.Tools.Registry.{
  ToolSpec, register_all, builtin_tools, registry, spec_for, unknown_tool_spec,
}

register_all-builtin : register_all builtin_tools [] ≡ ok registry
unfolding register_all
register_all-builtin = refl

-- What is found in a dict passes the test that all its entries pass.
abbrev pub all_entries {ℓ} : {V : Type ℓ} → (String → V → Bool) → Dict V → Bool
all_entries p [] = true
all_entries p ((k, v) ∷ d) = p k v && all_entries p d

pub lookup-all_entries {ℓ} :
    {V : Type ℓ} (p : String → V → Bool) (d : Dict V) (k : String) (v : V)
    → all_entries p d ≡ true
    → lookup k d ≡ some v
    → p k v ≡ true
unfolding lookup
lookup-all_entries p [] k v h e = cc
lookup-all_entries p ((j, w) ∷ d) k v h e =
    let (here, later) = (and-eq-true_iff (p j w) (all_entries p d)).0 h in
    elim (Bool-cases (str_eq j k)) [
      | inl same ↦ let key : j ≡ k = (eq_iff j k).0 same in ground (arith, here, key)
      | inr other ↦ lookup-all_entries p d k v later (rw other at e)
    ]

spec_for-all_entries :
    (p : String → ToolSpec → Bool) (name : String)
    → all_entries p registry ≡ true
    → p name (unknown_tool_spec name) ≡ true
    → p name (spec_for name) ≡ true
unfolding spec_for
spec_for-all_entries p name h fallback = elim (Option-cases (lookup name registry)) [
  | inl missing ↦ rw missing fallback
  | inr (spec, found) ↦ rw found (lookup-all_entries p registry name spec h found)
]

-- The test that stands for the statements of `spec_for_safe`.
abbrev is_safe : String → ToolSpec → Bool
is_safe name spec =
    (not spec.writes || tier_at_least spec.required_tier operator)
    && (tier_at_least spec.required_tier readonly || str_eq name "health_check")
    && (not spec.applies_plan || str_eq name "confirm_and_apply")

safe_parts :
    (name : String) (spec : ToolSpec)
    → is_safe name spec ≡ true
    → (spec.writes ≡ true → rank operator ≤ rank spec.required_tier)
      × (spec.required_tier ≡ nothing → name ≡ "health_check")
      × (spec.applies_plan ≡ true → name ≡ "confirm_and_apply")
safe_parts name spec h = (
  λ w. ground arith,
  λ t. ground (arith, eq_iff name "health_check"),
  λ a. ground (arith, eq_iff name "confirm_and_apply"),
)

-- For every name, registered or not: a tool that can change anything wants `operator` at least,
-- only `health_check` is open to a caller with no tier, and only `confirm_and_apply` applies a plan.
pub spec_for_safe :
    (name : String)
    → ((spec_for name).writes ≡ true → rank operator ≤ rank (spec_for name).required_tier)
      × ((spec_for name).required_tier ≡ nothing → name ≡ "health_check")
      × ((spec_for name).applies_plan ≡ true → name ≡ "confirm_and_apply")
spec_for_safe name =
    let safe : is_safe name (spec_for name) ≡ true = spec_for-all_entries is_safe name refl refl in
    safe_parts name (spec_for name) safe

confirm-applies_plan : (spec_for "confirm_and_apply").applies_plan ≡ true
unfolding spec_for
confirm-applies_plan = refl

pub or_not-eq-false : (a b : Bool) → a || not b ≡ false → (a ≡ false) × (b ≡ true)
or_not-eq-false false true h = (refl, refl)
or_not-eq-false false false h = cc
or_not-eq-false true b h = cc

pub not_confirm :
    (name : String) → (spec_for name).applies_plan ≡ false → name ≢ "confirm_and_apply"
not_confirm name plain e = cc (ap (λ n. (spec_for n).applies_plan) e, confirm-applies_plan)
