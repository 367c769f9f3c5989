-- ===== src/Safety/Plans/Trace.antt =====
-- The store under any sequence of calls: the invariant holds throughout, and a plan is claimed once.
use gads_write_mcp.Base.{
  ℕ, String, ◌≡◌, ◌≢◌, none, some, List, [], ◌∷◌, arith, not, eq_iff, Result, ok, err, All,
}
use gads_write_mcp.Base.Int.{ℤ}
use gads_write_mcp.Base.Dict.{lookup, lookup-insert}
use gads_write_mcp.Python.Text.{Runtime}
use gads_write_mcp.Safety.Plans.{
  Plan, PlanStore, PlanError, DraftRequest, is_stale, new_plan, purge_expired_locked, purge_expired,
  draft, consume,
}
use gads_write_mcp.Safety.Plans.Checks.{ConsumeEffect, consume-effect, consume-ok_iff}
use gads_write_mcp.Safety.Plans.Invariant.{
  IsWellFormed, lookup-purged, purge-IsWellFormed, draft-IsWellFormed, consume-IsWellFormed,
  keep_value-eq-some,
}

-- One call of a method that can change the store, with what the clocks and the factory give it.
pub data Event : Type 0 where
  drafting : String → ℕ → (ℤ → String) → DraftRequest → Event
  consuming : String → String → ℕ → (ℤ → String) → Event
  purging : ℕ → Event

-- The call does not draft a plan under this id: the factory does not give an id twice.
abbrev pub NotReissued : String → Event → Type 0
NotReissued id (drafting fresh now wall r) = fresh ≢ id
NotReissued id (consuming j caller now wall) = Unit
NotReissued id (purging now) = Unit

-- No plan that can still be claimed stands under the id.
abbrev pub IsSpent : String → PlanStore → Type 0
IsSpent id store = (p : Plan) → lookup id store.plans ≡ some p → p.consumed_at ≢ none

module _ ⦃py : Runtime⦄ where
  unfoldable pub step : Event → PlanStore → PlanStore
  unfolding draft consume purge_expired
  step (drafting fresh now wall r) store = (draft fresh now wall r store).1
  step (consuming id caller now wall) store = (consume id caller now wall store).1
  step (purging now) store = (purge_expired now store).0

  unfoldable pub run : List Event → PlanStore → PlanStore
  unfolding step
  run [] store = store
  run (e ∷ es) store = run es (step e store)

  step-IsWellFormed :
      (e : Event) (store : PlanStore) → IsWellFormed store → IsWellFormed (step e store)
  unfolding step purge_expired
  step-IsWellFormed (drafting fresh now wall r) store w =
      draft-IsWellFormed fresh now wall r store w
  step-IsWellFormed (consuming id caller now wall) store w =
      consume-IsWellFormed id caller now wall store w
  step-IsWellFormed (purging now) store w = purge-IsWellFormed now store w

  -- Whatever is called, the store keeps its cap, its ids stay distinct and its plans stay filed.
  pub run-IsWellFormed :
      (es : List Event) (store : PlanStore) → IsWellFormed store → IsWellFormed (run es store)
  unfolding run
  run-IsWellFormed [] store w = w
  run-IsWellFormed (e ∷ es) store w =
      run-IsWellFormed es (step e store) (step-IsWellFormed e store w)

  purge-IsSpent :
      (id : String) (now : ℕ) (store : PlanStore)
      → IsWellFormed store
      → IsSpent id store
      → IsSpent id (purge_expired_locked now store).0
  purge-IsSpent id now store w spent p h =
      spent p
        (keep_value-eq-some (λ q. not (is_stale now q)) (lookup id store.plans) p
          (rw (lookup-purged now store id w.distinct) at h)).0

  draft-IsSpent :
      (id fresh : String) (now : ℕ) (wall : ℤ → String) (r : DraftRequest) (store : PlanStore)
      → fresh ≢ id
      → IsWellFormed store
      → IsSpent id store
      → IsSpent id (draft fresh now wall r store).1
  unfolding draft
  draft-IsSpent id fresh now wall r store other w spent p h =
      let purged = (purge_expired_locked now store).0 in
      ground (
        arith,
        spent p,
        purge-IsSpent id now store w spent p,
        lookup-insert fresh id (new_plan fresh now wall r) purged.plans,
        eq_iff fresh id,
      )

  claimed-IsSpent :
      (id j : String) (wall : ℤ → String) (store : PlanStore)
      (answer : Result PlanError Plan × PlanStore)
      → ConsumeEffect j wall store answer
      → IsSpent id store
      → IsSpent id answer.1
  claimed-IsSpent id j wall store (err e, after) same spent p h = spent p (rw same at h)
  claimed-IsSpent id j wall store (ok q, after) effect spent p h =
      ground (arith, effect.filed id, effect.marked, spent p)

  step-IsSpent :
      (id : String) (e : Event) (store : PlanStore)
      → NotReissued id e
      → IsWellFormed store
      → IsSpent id store
      → IsSpent id (step e store)
  unfolding step purge_expired
  step-IsSpent id (drafting fresh now wall r) store other w spent =
      draft-IsSpent id fresh now wall r store other w spent
  step-IsSpent id (consuming j caller now wall) store other w spent =
      claimed-IsSpent id j wall store (consume j caller now wall store)
        (consume-effect j caller now wall store) spent
  step-IsSpent id (purging now) store other w spent = purge-IsSpent id now store w spent

  run-IsSpent :
      (id : String) (es : List Event) (store : PlanStore)
      → All (NotReissued id) es
      → IsWellFormed store
      → IsSpent id store
      → IsSpent id (run es store)
  unfolding run
  run-IsSpent id [] store fresh w spent = spent
  run-IsSpent id (e ∷ es) store (other, fresh) w spent =
      run-IsSpent id es (step e store) fresh (step-IsWellFormed e store w)
        (step-IsSpent id e store other w spent)

  consumed-IsSpent :
      (id : String) (wall : ℤ → String) (store : PlanStore)
      (answer : Result PlanError Plan × PlanStore) (p : Plan)
      → ConsumeEffect id wall store answer
      → answer.0 ≡ ok p
      → IsSpent id answer.1
  consumed-IsSpent id wall store (err x, after) p effect h r e = cc
  consumed-IsSpent id wall store (ok q, after) p effect h r e =
      ground (arith, effect.filed id, effect.marked, eq_iff id id)

  -- A plan is claimed once. After a successful claim, no sequence of calls in which the id factory
  -- does not give the same id again makes a second claim succeed, by anybody, at any time.
  pub consume_once :
      (id caller : String) (now : ℕ) (wall : ℤ → String) (store : PlanStore) (p : Plan)
      (es : List Event) (caller' : String) (now' : ℕ) (wall' : ℤ → String) (q : Plan)
      → IsWellFormed store
      → (consume id caller now wall store).0 ≡ ok p
      → All (NotReissued id) es
      → (consume id caller' now' wall' (run es (consume id caller now wall store).1)).0 ≢ ok q
  consume_once id caller now wall store p es caller' now' wall' q w claimed fresh again =
      let after = (consume id caller now wall store).1 in
      let spent =
        consumed-IsSpent id wall store (consume id caller now wall store) p
          (consume-effect id caller now wall store) claimed in
      let (r, found, claimable) =
        (consume-ok_iff id caller' now' wall' (run es after)).0 (q, again) in
      run-IsSpent id es after fresh (consume-IsWellFormed id caller now wall store w) spent r found
        claimable.unused
