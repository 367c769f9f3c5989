-- ===== src/Safety/Plans/Invariant.antt =====
-- The store's invariant: the cap on open plans holds, no id stands twice, and each plan is filed
-- under its own id. Purging drops exactly the stale plans.
use gads_write_mcp.Base.{
  ℕ, ◌≤◌, ◌<◌, String, ◌≡◌, refl, sym, ◌∙◌, ◌↔◌, Option-cases, inl, inr, Bool, true, false, Option,
  none, some, arith, not, leb, length, eq_iff, Result, ok, err, Bool-cases,
}
use gads_write_mcp.Base.Int.{ℤ, pos, ltb_ℤ}
use gads_write_mcp.Base.Dict.{
  lookup, insert, lookup-insert, length-filter_values-le, HasDistinctKeys, lookup-filter_values,
  filter_values-HasDistinctKeys, insert-HasDistinctKeys, length-insert-le, length-insert_old,
  keep_value,
}
use gads_write_mcp.Python.Text.{Runtime}
use gads_write_mcp.Safety.Plans.Checks.{checked_locked-found}
use gads_write_mcp.Safety.Plans.{
  PlanError, Plan, PlanStore, DraftRequest, is_stale, new_plan, purge_expired_locked, draft,
  checked_locked, consume, mark_consumed, claim,
}

pub record IsWellFormed (store : PlanStore) : Type 0 where
  pub within_cap : length store.plans ≤ store.max_open_plans
  pub distinct : HasDistinctKeys store.plans
  pub filed : (id : String) (p : Plan) → lookup id store.plans ≡ some p → p.plan_id ≡ id

pub lookup-purged :
    (now : ℕ) (store : PlanStore) (id : String)
    → HasDistinctKeys store.plans
    → lookup id (purge_expired_locked now store).0.plans
      ≡ keep_value (λ p. not (is_stale now p)) (lookup id store.plans)
unfolding purge_expired_locked
lookup-purged now store id h = lookup-filter_values (λ p. not (is_stale now p)) id store.plans h

pub keep_value-eq-some {ℓ} :
    {V : Type ℓ} (keep : V → Bool) (o : Option V) (v : V)
    → keep_value keep o ≡ some v
    → (o ≡ some v) × (keep v ≡ true)
keep_value-eq-some keep none v h = cc
keep_value-eq-some keep (some w) v h = elim (Bool-cases (keep w)) [
  | inl kept ↦ let e : some w ≡ some v = rw kept at h in (e, ground (arith, e))
  | inr dropped ↦ ground arith
]

kept_iff :
    (now : ℕ) (p : Plan)
    → (not (is_stale now p) ≡ true) ↔ ((p.consumed_at ≡ none) × (now < p.expires_monotonic))
kept_iff now p = elim (Option-cases p.consumed_at) [
  | inl unused ↦ (λ h. (unused, ground arith), λ (u, live). rw unused (ground arith))
  | inr (at, used) ↦ (λ h. ground arith, λ (u, live). cc)
]

-- In a store with distinct ids, a plan is found after purging exactly if it was found before, nobody
-- has claimed it and its time has not come.
pub lookup-purge :
    (now : ℕ) (store : PlanStore) (id : String) (p : Plan)
    → HasDistinctKeys store.plans
    → (lookup id (purge_expired_locked now store).0.plans ≡ some p)
      ↔ ((lookup id store.plans ≡ some p) × (p.consumed_at ≡ none) × (now < p.expires_monotonic))
lookup-purge now store id p distinct = (
  λ h.
      let (e, kept) =
        keep_value-eq-some (λ q. not (is_stale now q)) (lookup id store.plans) p
          (sym (lookup-purged now store id distinct) ∙ h) in
      let (unused, live) = (kept_iff now p).0 kept in (e, unused, live),
  λ (e, unused, live).
      let kept = (kept_iff now p).1 (unused, live) in
      lookup-purged now store id distinct ∙ rw (e, kept) refl,
)

pub purge-IsWellFormed :
    (now : ℕ) (store : PlanStore)
    → IsWellFormed store
    → IsWellFormed (purge_expired_locked now store).0
unfolding purge_expired_locked
purge-IsWellFormed now store w =
    let keep : Plan → Bool = λ p. not (is_stale now p) in
    record {
      within_cap = omega (arith, length-filter_values-le keep store.plans, w.within_cap);
      distinct = filter_values-HasDistinctKeys keep store.plans w.distinct;
      filed = λ id p h.
          w.filed id p
            (keep_value-eq-some keep (lookup id store.plans) p
              (rw (lookup-filter_values keep id store.plans w.distinct) at h)).0;
    }

insert-IsWellFormed :
    (id : String) (p : Plan) (store : PlanStore)
    → IsWellFormed store
    → p.plan_id ≡ id
    → length (insert id p store.plans) ≤ store.max_open_plans
    → IsWellFormed (record store { plans = insert id p store.plans })
insert-IsWellFormed id p store w own small = record {
  within_cap = small;
  distinct = insert-HasDistinctKeys id p store.plans w.distinct;
  filed = λ j q h. ground (arith, lookup-insert id j p store.plans, eq_iff id j, w.filed j q);
}

pub leb-false→lt : (a b : ℕ) → leb a b ≡ false → b < a
leb-false→lt a b h = ground arith

module _ ⦃py : Runtime⦄ where
  new_plan-id :
      (id : String) (now : ℕ) (wall : ℤ → String) (r : DraftRequest)
      → (new_plan id now wall r).plan_id ≡ id
  unfolding new_plan
  new_plan-id id now wall r = refl

  -- Drafting keeps the invariant: there is room for the new plan, whose id becomes its key.
  pub draft-IsWellFormed :
      (id : String) (now : ℕ) (wall : ℤ → String) (r : DraftRequest) (store : PlanStore)
      → IsWellFormed store
      → IsWellFormed (draft id now wall r store).1
  unfolding draft
  draft-IsWellFormed id now wall r store w =
      let purged = (purge_expired_locked now store).0 in
      let kept : IsWellFormed purged = purge-IsWellFormed now store w in
      let plan = new_plan id now wall r in
      elim (Bool-cases (not (ltb_ℤ (pos 0) r.ttl_seconds))) [
        | inl bad ↦ rw bad w
        | inr good ↦ rw good (elim (Bool-cases (leb purged.max_open_plans (length purged.plans))) [
          | inl full ↦ rw full kept
          | inr room ↦ rw room (
              insert-IsWellFormed id plan purged kept (new_plan-id id now wall r) (
                omega (
                  arith,
                  length-insert-le id plan purged.plans,
                  leb-false→lt purged.max_open_plans (length purged.plans) room,
                )))
        ])
      ]

  claim-IsWellFormed :
      (id at : String) (store : PlanStore) (r : Result PlanError Plan)
      → IsWellFormed store
      → ((p : Plan) → r ≡ ok p → lookup id store.plans ≡ some p)
      → IsWellFormed (claim id at store r).1
  unfolding claim
  claim-IsWellFormed id at store (err e) w found = w
  claim-IsWellFormed id at store (ok p) w found =
      insert-IsWellFormed id (mark_consumed at p) store w (w.filed id p (found p refl)) (
        omega (
          arith,
          length-insert_old id (mark_consumed at p) p store.plans (found p refl),
          w.within_cap,
        ))

  -- So does claiming: the mark overwrites the plan that was found.
  pub consume-IsWellFormed :
      (id caller : String) (now : ℕ) (wall : ℤ → String) (store : PlanStore)
      → IsWellFormed store
      → IsWellFormed (consume id caller now wall store).1
  unfolding consume
  consume-IsWellFormed id caller now wall store w =
      claim-IsWellFormed id (wall (pos 0)) store (checked_locked id caller now store) w
        (checked_locked-found id caller now store)
