-- ===== src/Safety/Plans/Checks.antt =====
-- What each method of PlanStore answers, on every branch.
use gads_write_mcp.Base.{
  ℕ, ◌+◌, ◌*◌, ◌<◌, String, ◌≡◌, refl, sym, ap, leb, not, ◌≢◌, ◌↔◌, inl, inr, none, some, arith,
  if◌then◌else◌, length, str_eq, eq_iff, Result, ok, err, Option-cases, Bool-cases,
}
use text.Mathlib.TextPositions.{eq_refl}
use gads_write_mcp.Base.Int.{ℤ, pos, pos_part, ltb_ℤ}
use gads_write_mcp.Base.Dict.{lookup, insert, lookup-insert}
use gads_write_mcp.Python.Text.{Runtime, normalised}
use gads_write_mcp.Safety.Plans.{
  PlanError, plan_not_owned, Plan, PlanStore, DraftRequest, nanoseconds, new_plan,
  purge_expired_locked, draft, check_plan, checked_locked, consume, mark_consumed, claim,
}

module _ ⦃py : Runtime⦄ where
  -- A plan that the caller may claim now: theirs, not used and not expired.
  pub record IsClaimable (caller : String) (now : ℕ) (plan : Plan) : Type 0 where
    pub owned : plan.owner_email ≡ normalised caller
    pub unused : plan.consumed_at ≡ none
    pub live : now < plan.expires_monotonic

  check_plan-IsClaimable :
      (caller : String) (now : ℕ) (plan p : Plan)
      → check_plan caller now plan ≡ ok p
      → IsClaimable caller now plan × (p ≡ plan)
  unfolding check_plan
  check_plan-IsClaimable caller now plan p h =
      ground (arith, eq_iff plan.owner_email (normalised caller))

  check_plan_of_IsClaimable :
      (caller : String) (now : ℕ) (plan : Plan)
      → IsClaimable caller now plan
      → check_plan caller now plan ≡ ok plan
  unfolding check_plan
  check_plan_of_IsClaimable caller now plan c =
      ground (arith, eq_iff plan.owner_email (normalised caller))

  checked_locked-IsClaimable :
      (id caller : String) (now : ℕ) (store : PlanStore) (p : Plan)
      → checked_locked id caller now store ≡ ok p
      → (lookup id store.plans ≡ some p) × IsClaimable caller now p
  unfolding checked_locked
  checked_locked-IsClaimable id caller now store p h = elim (Option-cases (lookup id store.plans)) [
    | inl gone ↦ ground arith
    | inr (plan, e) ↦
        let (c, same) = check_plan-IsClaimable caller now plan p (ground arith) in rw same (e, c)
  ]

  pub checked_locked-found :
      (id caller : String) (now : ℕ) (store : PlanStore) (p : Plan)
      → checked_locked id caller now store ≡ ok p
      → lookup id store.plans ≡ some p
  checked_locked-found id caller now store p h =
      (checked_locked-IsClaimable id caller now store p h).0

  checked_locked_of_IsClaimable :
      (id caller : String) (now : ℕ) (store : PlanStore) (p : Plan)
      → lookup id store.plans ≡ some p
      → IsClaimable caller now p
      → checked_locked id caller now store ≡ ok p
  unfolding checked_locked
  checked_locked_of_IsClaimable id caller now store p e c =
      rw e (check_plan_of_IsClaimable caller now p c)

  -- A claim succeeds exactly when the store holds the plan under the id and the caller drafted it,
  -- nobody has claimed it and it has not expired.
  pub consume-ok_iff :
      (id caller : String) (now : ℕ) (wall : ℤ → String) (store : PlanStore)
      → ((p : Plan) × ((consume id caller now wall store).0 ≡ ok p))
        ↔ ((p : Plan) × (lookup id store.plans ≡ some p) × IsClaimable caller now p)
  unfolding consume
  consume-ok_iff id caller now wall store = (
    λ (p, h). found (checked_locked id caller now store) refl p h,
    λ (p, e, c). (
      mark_consumed (wall (pos 0)) p,
      rw (checked_locked_of_IsClaimable id caller now store p e c),
    ),
  )
    where
      found :
          (r : Result PlanError Plan)
          → checked_locked id caller now store ≡ r
          → (p : Plan) → (consume id caller now wall store).0 ≡ ok p
          → (p : Plan) × (lookup id store.plans ≡ some p) × IsClaimable caller now p
      found (ok q) e p h =
          let (l, c) = checked_locked-IsClaimable id caller now store q e in (q, l, c)
      found (err x) e p h = ground arith

  -- The plan that was in the store has been marked, nothing else of it has changed, and neither has
  -- anything else in the store.
  pub record IsMarking (id at : String) (store : PlanStore) (p : Plan) (after : PlanStore)
      : Type 0 where
    pub old : Plan
    pub was_filed : lookup id store.plans ≡ some old
    pub marked : p.consumed_at ≡ some at
    pub plan_id : p.plan_id ≡ old.plan_id
    pub owner_email : p.owner_email ≡ old.owner_email
    pub tool : p.tool ≡ old.tool
    pub customer_id : p.customer_id ≡ old.customer_id
    pub arguments : p.arguments ≡ old.arguments
    pub preview : p.preview ≡ old.preview
    pub created_monotonic : p.created_monotonic ≡ old.created_monotonic
    pub expires_monotonic : p.expires_monotonic ≡ old.expires_monotonic
    pub created_at : p.created_at ≡ old.created_at
    pub expires_at : p.expires_at ≡ old.expires_at
    pub ttl_seconds : p.ttl_seconds ≡ old.ttl_seconds
    pub spend_delta_units : p.spend_delta_units ≡ old.spend_delta_units
    pub metadata : p.metadata ≡ old.metadata
    pub cap : after.max_open_plans ≡ store.max_open_plans
    pub filed :
        (j : String) → lookup j after.plans ≡ (if str_eq id j then some p else lookup j store.plans)

  -- What a claim does to the store, by its answer.
  abbrev pub ConsumeEffect :
      String → (ℤ → String) → PlanStore → Result PlanError Plan × PlanStore → Type 0
  ConsumeEffect id wall store (err e, after) = after ≡ store
  ConsumeEffect id wall store (ok p, after) = IsMarking id (wall (pos 0)) store p after

  claim-effect :
      (id : String) (wall : ℤ → String) (store : PlanStore) (r : Result PlanError Plan)
      → ((p : Plan) → r ≡ ok p → lookup id store.plans ≡ some p)
      → ConsumeEffect id wall store (claim id (wall (pos 0)) store r)
  unfolding claim
  claim-effect id wall store (err e) found = refl
  claim-effect id wall store (ok p) found = record {
    old = p;
    was_filed = found p refl;
    marked = refl;
    plan_id = refl;
    owner_email = refl;
    tool = refl;
    customer_id = refl;
    arguments = refl;
    preview = refl;
    created_monotonic = refl;
    expires_monotonic = refl;
    created_at = refl;
    expires_at = refl;
    ttl_seconds = refl;
    spend_delta_units = refl;
    metadata = refl;
    cap = refl;
    filed = λ j. lookup-insert id j (mark_consumed (wall (pos 0)) p) store.plans;
  }

  -- A claim that succeeds answers the plan that was in the store with the mark and every other field
  -- as it was, files that, and changes nothing else of the store; one that is refused changes nothing.
  pub consume-effect :
      (id caller : String) (now : ℕ) (wall : ℤ → String) (store : PlanStore)
      → ConsumeEffect id wall store (consume id caller now wall store)
  unfolding consume
  consume-effect id caller now wall store =
      claim-effect id wall store (checked_locked id caller now store)
        (checked_locked-found id caller now store)

  claim-marked :
      (id caller : String) (now : ℕ) (at : String) (store after : PlanStore) (p : Plan)
      (x : Result PlanError Plan)
      → checked_locked id caller now store ≡ x
      → claim id at store x ≡ (ok p, after)
      → (q : Plan) × IsClaimable caller now q
        × (p ≡ mark_consumed at q)
        × (after.plans ≡ insert id (mark_consumed at q) store.plans)
  unfolding claim
  claim-marked id caller now at store after p (err e) h g = cc
  claim-marked id caller now at store after p (ok q) h g =
      (q, (checked_locked-IsClaimable id caller now store q h).1, cc, ap (λ y. y.1.plans) (sym g))

  -- What a claim that succeeds returns is what was in the store, claimable, with the mark.
  pub consume-claimed :
      (id caller : String) (now : ℕ) (wall : ℤ → String) (store : PlanStore) (p : Plan)
      (after : PlanStore)
      → consume id caller now wall store ≡ (ok p, after)
      → (old : Plan) × (lookup id store.plans ≡ some old)
        × IsClaimable caller now old
        × (p ≡ mark_consumed (wall (pos 0)) old)
  unfolding consume
  consume-claimed id caller now wall store p after h =
      by_answer (checked_locked id caller now store) refl h
    where
      by_answer :
          (x : Result PlanError Plan)
          → checked_locked id caller now store ≡ x
          → claim id (wall (pos 0)) store x ≡ (ok p, after)
          → (old : Plan) × (lookup id store.plans ≡ some old)
            × IsClaimable caller now old
            × (p ≡ mark_consumed (wall (pos 0)) old)
      by_answer (err e) found h = cc
      by_answer (ok old) found h =
          let (l, c) = checked_locked-IsClaimable id caller now store old found in (old, l, c, cc)

  -- What a claim that succeeds returns is in the store: marked, and the caller's.
  pub consume-marked :
      (id caller : String) (now : ℕ) (wall : ℤ → String) (store : PlanStore) (p : Plan)
      (after : PlanStore)
      → consume id caller now wall store ≡ (ok p, after)
      → (at : String) × (p.consumed_at ≡ some at)
        × (p.owner_email ≡ normalised caller)
        × (lookup id after.plans ≡ some p)
  unfolding consume
  consume-marked id caller now wall store p after h =
      let (q, c, same, filed) =
        claim-marked id caller now (wall (pos 0)) store after p (checked_locked id caller now store)
          refl h in
      let found = lookup-insert id id (mark_consumed (wall (pos 0)) q) store.plans in
      (
        wall (pos 0),
        rw same refl,
        rw same c.owned,
        rw (filed, found, eq_refl id) (ap some (sym same)),
      )

  -- To anybody but its owner a plan gives away nothing of its state.
  pub consume-not_owned :
      (id caller : String) (now : ℕ) (wall : ℤ → String) (store : PlanStore) (plan : Plan)
      → lookup id store.plans ≡ some plan
      → plan.owner_email ≢ normalised caller
      → consume id caller now wall store ≡ (err plan_not_owned, store)
  unfolding consume checked_locked check_plan
  consume-not_owned id caller now wall store plan e h =
      rw e (ground (arith, eq_iff plan.owner_email (normalised caller)))

  draft-filed :
      (id : String) (now : ℕ) (wall : ℤ → String) (r : DraftRequest) (store : PlanStore)
      (plan : Plan)
      → (draft id now wall r store).0 ≡ ok plan
      → (plan ≡ new_plan id now wall r)
        × (lookup id (draft id now wall r store).1.plans ≡ some plan)
  unfolding draft
  draft-filed id now wall r store plan h =
      let purged = (purge_expired_locked now store).0 in
      elim (Bool-cases (not (ltb_ℤ (pos 0) r.ttl_seconds))) [
        | inl bad ↦ ground arith
        | inr good ↦ elim (Bool-cases (leb purged.max_open_plans (length purged.plans))) [
          | inl full ↦ ground arith
          | inr room ↦
              ground
                (arith, lookup-insert id id (new_plan id now wall r) purged.plans, eq_iff id id)
        ]
      ]

  new_plan-IsClaimable :
      (id : String) (now : ℕ) (wall : ℤ → String) (r : DraftRequest) (caller : String) (later : ℕ)
      → normalised caller ≡ normalised r.owner_email
      → later < now + pos_part r.ttl_seconds * nanoseconds
      → IsClaimable caller later (new_plan id now wall r)
  unfolding new_plan
  new_plan-IsClaimable id now wall r caller later same soon = record {
    owned = sym same;
    unused = refl;
    live = soon;
  }

  claim-ok :
      (id caller : String) (now : ℕ) (wall : ℤ → String) (store : PlanStore) (plan : Plan)
      → checked_locked id caller now store ≡ ok plan
      → (consume id caller now wall store).0 ≡ ok (mark_consumed (wall (pos 0)) plan)
  unfolding consume
  claim-ok id caller now wall store plan h = rw h

  -- A draft that succeeds is filed, and its owner can claim it until it expires: at any time before
  -- `ttl_seconds` have passed, under any spelling of the address that normalises to the same.
  pub consume-draft :
      (id : String) (now : ℕ) (wall : ℤ → String) (r : DraftRequest) (store : PlanStore)
      (plan : Plan) (caller : String) (later : ℕ) (wall' : ℤ → String)
      → (draft id now wall r store).0 ≡ ok plan
      → normalised caller ≡ normalised r.owner_email
      → later < now + pos_part r.ttl_seconds * nanoseconds
      → (consume id caller later wall' (draft id now wall r store).1).0
        ≡ ok (mark_consumed (wall' (pos 0)) plan)
  consume-draft id now wall r store plan caller later wall' drafted same soon =
      let (e, filed) = draft-filed id now wall r store plan drafted in
      claim-ok id caller later wall' (draft id now wall r store).1 plan (
        checked_locked_of_IsClaimable id caller later _ plan filed
          (rw e (new_plan-IsClaimable id now wall r caller later same soon)))
