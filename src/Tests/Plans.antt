-- ===== src/Tests/Plans.antt =====
-- The theorems on plans at one plan.
use gads_write_mcp.Base.{
  ◌<◌, String, ◌≡◌, refl, ◌≢◌, ◌↔◌, none, some, [], ◌∷◌, ok, arith, eq_iff, str_eq, Bool-cases, inl,
  inr, ap, sym, ◌∙◌, Option,
}
use gads_write_mcp.Base.Dict.{lookup, insert, filter_values}
use gads_write_mcp.Python.Text.{normalised, strip, lstrip, rstrip, is_space}
use gads_write_mcp.Safety.Plans.{
  Plan, purge_expired_locked, draft, consume, mark_consumed, checked_locked, check_plan, new_plan,
}
use gads_write_mcp.Safety.Plans.Checks.{
  IsClaimable, consume-ok_iff, ConsumeEffect, consume-effect, consume-draft,
}
use gads_write_mcp.Safety.Plans.Invariant.{IsWellFormed, lookup-purge}
use gads_write_mcp.Safety.Plans.Trace.{
  purging, consuming, drafting, run, run-IsWellFormed, consume_once,
}
use gads_write_mcp.Tests.{plain, wall, plan, no_plans, store, draft_request}

store-filed : (id : String) (p : Plan) → lookup id store.plans ≡ some p → p.plan_id ≡ id
unfolding lookup
store-filed id p h = elim (Bool-cases (str_eq "p1" id)) [
  | inl here ↦ ap (λ (o : Option Plan). id_in o) (sym (rw here at h)) ∙ (eq_iff "p1" id).0 here
  | inr other ↦ cc (rw other at h)
]
  where
    id_in : Option Plan → String
    id_in none = ""
    id_in (some q) = q.plan_id

store-IsWellFormed : IsWellFormed store
unfolding lookup
store-IsWellFormed = record { within_cap = omega arith; distinct = (refl, tt); filed = store-filed }

claimed_example : (consume "p1" "ann@example.com" 1 wall store).0 ≡ ok (mark_consumed "noon" plan)
unfolding consume checked_locked check_plan lookup normalised strip lstrip rstrip is_space insert
claimed_example = refl

consume_once_example :
    (consume "p1" "ann@example.com" 9 wall (
      run
        (purging 3 ∷ consuming "p1" "bob@example.com" 4 wall ∷ [])
        (consume "p1" "ann@example.com" 1 wall store).1)).0
    ≢ ok plan
consume_once_example =
    consume_once "p1" "ann@example.com" 1 wall store (mark_consumed "noon" plan)
      (purging 3 ∷ consuming "p1" "bob@example.com" 4 wall ∷ []) "ann@example.com" 9 wall plan
      store-IsWellFormed claimed_example (tt, (tt, tt))

run-IsWellFormed_example :
    IsWellFormed (run (drafting "p2" 1 wall draft_request ∷ purging 3 ∷ []) store)
run-IsWellFormed_example =
    run-IsWellFormed (drafting "p2" 1 wall draft_request ∷ purging 3 ∷ []) store store-IsWellFormed

consume-ok_iff_example :
    ((p : Plan) × ((consume "p1" "ann@example.com" 1 wall store).0 ≡ ok p))
    ↔ ((p : Plan) × (lookup "p1" store.plans ≡ some p) × IsClaimable "ann@example.com" 1 p)
consume-ok_iff_example = consume-ok_iff "p1" "ann@example.com" 1 wall store

consume-effect_example : ConsumeEffect "p1" wall store (consume "p1" "ann@example.com" 1 wall store)
consume-effect_example = consume-effect "p1" "ann@example.com" 1 wall store

filed_example : lookup "p1" store.plans ≡ some plan
unfolding lookup
filed_example = refl

stranger : plan.owner_email ≢ normalised "bob@example.com"
unfolding normalised strip lstrip rstrip is_space
stranger h = ground (arith, eq_iff "ann@example.com" "bob@example.com")

drafted_example : (draft "p1" 0 wall draft_request no_plans).0 ≡ ok plan
unfolding draft new_plan purge_expired_locked filter_values insert normalised strip lstrip rstrip
    is_space
drafted_example = refl

consume-draft_example :
    (consume "p1" "ann@example.com" 5 wall (draft "p1" 0 wall draft_request no_plans).1).0
    ≡ ok (mark_consumed "noon" plan)
consume-draft_example =
    consume-draft "p1" 0 wall draft_request no_plans plan "ann@example.com" 5 wall drafted_example
      refl (omega arith)

lookup-purge_example : (lookup "p1" (purge_expired_locked 5 store).0.plans ≡ some plan) ↔ (
    (lookup "p1" store.plans ≡ some plan)
    × (plan.consumed_at ≡ none)
    × (5 < plan.expires_monotonic))
lookup-purge_example = lookup-purge 5 store "p1" plan store-IsWellFormed.distinct
