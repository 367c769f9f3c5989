-- ===== src/Auth/Tiers/Laws.antt =====
-- What a caller's tier comes to: the strongest of the roles found, and nothing for the rest.
use gads_write_mcp.Base.{
  ◌≤◌, String, ◌≡◌, refl, sym, ◌⊎◌, inl, inr, Option, none, some, List, [], ◌∷◌, arith, ltb, ltb→lt,
  str_eq, eq_iff, All, Bool-cases,
}
use gads_write_mcp.Base.Dict.{lookup}
use gads_write_mcp.Python.Text.{Runtime, strip}
use gads_write_mcp.Auth.Tiers.{
  Tier, nothing, readonly, rank, highest_from, highest, role_to_tier, tier_or_nothing,
  tier_for_access_role,
}

highest_from-le : (best : Tier) (ts : List Tier) → rank best ≤ rank (highest_from best ts)
unfolding highest_from
highest_from-le best [] = omega arith
highest_from-le best (t ∷ ts) = elim (Bool-cases (ltb (rank best) (rank t))) [
  | inl more ↦
      let up = highest_from-le t ts in
      let lt = ltb→lt (rank best) (rank t) more in rw more (omega arith)
  | inr less ↦ rw less (highest_from-le best ts)
]

highest_from-upper :
    (best : Tier) (ts : List Tier) (m : Tier)
    → highest_from best ts ≡ m
    → All (λ t. rank t ≤ rank m) ts
unfolding highest_from
highest_from-upper best [] m e = tt
highest_from-upper best (t ∷ ts) m e = elim (Bool-cases (ltb (rank best) (rank t))) [
  | inl more ↦
      let here : rank t ≤ rank (highest_from t ts) = highest_from-le t ts in
      (rw⁻¹ (rw more at e) here, highest_from-upper t ts m (rw more at e))
  | inr less ↦
      let up : rank best ≤ rank (highest_from best ts) = highest_from-le best ts in
      (rw⁻¹ (rw less at e) (ground (arith, up, less)), highest_from-upper best ts m (rw less at e))
]

highest_from-least :
    (best : Tier) (ts : List Tier) (u : Tier)
    → rank best ≤ rank u
    → All (λ t. rank t ≤ rank u) ts
    → rank (highest_from best ts) ≤ rank u
unfolding highest_from
highest_from-least best [] u h all = h
highest_from-least best (t ∷ ts) u h (first, rest) = elim (Bool-cases (ltb (rank best) (rank t))) [
  | inl more ↦ rw more (highest_from-least t ts u first rest)
  | inr less ↦ rw less (highest_from-least best ts u h rest)
]

-- The strongest tier of a list is at least each of them, and no more than anything that is so; of
-- an empty list it is no tier at all.
pub highest-least_upper :
    (ts : List Tier) (u : Tier)
    → All (λ t. rank t ≤ rank (highest ts)) ts
      × (All (λ t. rank t ≤ rank u) ts → rank (highest ts) ≤ rank u)
unfolding highest
highest-least_upper [] u = (tt, λ all. omega arith)
highest-least_upper (t ∷ ts) u = (
  (highest_from-le t ts, highest_from-upper t ts (highest_from t ts) refl),
  λ (first, rest). highest_from-least t ts u first rest,
)

module _ ⦃py : Runtime⦄ where
  -- Only the roles STANDARD and ADMIN give a tier that may write; any text that is no known role,
  -- and no role at all, give nothing.
  pub tier_for_access_role-writes :
      (role : Option String)
      → 2 ≤ rank (tier_for_access_role role)
      → (r : String) × (role ≡ some r)
        × ((py.upper (strip r) ≡ "ADMIN") ⊎ (py.upper (strip r) ≡ "STANDARD"))
  unfolding tier_for_access_role lookup
  tier_for_access_role-writes none h = absurd (omega arith)
  tier_for_access_role-writes (some r) h = (r, refl, named (py.upper (strip r)) h)
    where
      weak :
          (u : String)
          → 2
            ≤ rank (
                tier_or_nothing (
                  lookup u (
                    ("READ_ONLY", readonly)
                    ∷ ("EMAIL_ONLY", nothing)
                    ∷ ("UNKNOWN", nothing)
                    ∷ ("UNSPECIFIED", nothing)
                    ∷ [])))
          → ⊥
      weak u h = ground arith

      named :
          (u : String)
          → 2 ≤ rank (tier_or_nothing (lookup u role_to_tier))
          → (u ≡ "ADMIN") ⊎ (u ≡ "STANDARD")
      named u h = elim (Bool-cases (str_eq "ADMIN" u)) [
        | inl admin ↦ inl (sym ((eq_iff "ADMIN" u).0 admin))
        | inr other ↦ elim (Bool-cases (str_eq "STANDARD" u)) [
          | inl standard ↦ inr (sym ((eq_iff "STANDARD" u).0 standard))
          | inr neither ↦ absurd (weak u (rw (other, neither) at h))
        ]
      ]
