-- ===== src/Safety/Plans.antt =====
-- safety/plans.py: the store of drafted changes. The lock makes each method one step. The clocks
-- and the id factory are what a call is given: `now` counts nanoseconds of the monotonic clock,
-- `wall n` is the ISO text of the wall clock's time n seconds on.
pub mod Checks
pub mod Invariant
pub mod Trace
use gads_write_mcp.Base.{
  ℕ, ◌+◌, ◌*◌, ◌-◌, String, Bool, true, false, not, ◌&&◌, ◌||◌, Option, none, some, leb, str_eq,
  length, if◌then◌else◌, is_some, Result, ok, err,
}
use gads_write_mcp.Base.Int.{ℤ, pos, pos_part, ltb_ℤ}
use gads_write_mcp.Base.Dict.{Dict, lookup, insert, filter_values}
use gads_write_mcp.Python.Value.{Value, Arguments}
use gads_write_mcp.Python.Text.{Runtime, normalised, strip}

-- The subclasses of PlanError, and the ValueError of a lifetime that is not positive.
pub data PlanError : Type 0 where
  bad_ttl plan_not_found plan_not_owned plan_already_used plan_expired too_many_open_plans :
      PlanError

pub record Plan : Type 0 where
  pub plan_id : String
  pub owner_email : String
  pub tool : String
  pub customer_id : String
  pub arguments : Arguments
  pub preview : String
  pub created_monotonic : ℕ
  pub expires_monotonic : ℕ
  pub created_at : String
  pub expires_at : String
  pub ttl_seconds : ℤ
  pub consumed_at : Option String
  pub spend_delta_units : Option String
  pub metadata : Arguments

abbrev pub is_expired : Plan → ℕ → Bool
is_expired plan now = leb plan.expires_monotonic now

abbrev pub is_consumed : Plan → Bool
is_consumed plan = is_some plan.consumed_at

pub record PlanStore : Type 0 where
  pub plans : Dict Plan
  pub max_open_plans : ℕ

-- The keyword arguments of `draft`.
pub record DraftRequest : Type 0 where
  pub owner_email : String
  pub tool : String
  pub customer_id : String
  pub arguments : Arguments
  pub preview : String
  pub ttl_seconds : ℤ
  pub spend_delta_units : Option String
  pub metadata : Arguments

abbrev pub nanoseconds : ℕ
nanoseconds = 1000000000

-- `plan.is_expired(now) or plan.is_consumed`, which purging tests.
abbrev pub is_stale : ℕ → Plan → Bool
is_stale now plan = is_expired plan now || is_consumed plan

unfoldable pub purge_expired_locked : ℕ → PlanStore → PlanStore × ℕ
unfolding filter_values
purge_expired_locked now store =
    let kept = filter_values (λ p. not (is_stale now p)) store.plans in
    (record store { plans = kept }, length store.plans - length kept)

-- `purge_expired`
unfoldable pub purge_expired : ℕ → PlanStore → PlanStore × ℕ
unfolding purge_expired_locked
purge_expired now store = purge_expired_locked now store

unfoldable pub open_count : ℕ → PlanStore → ℕ
unfolding filter_values
open_count now store =
    length (filter_values (λ p. not (is_consumed p) && not (is_expired p now)) store.plans)

module _ ⦃py : Runtime⦄ where
  unfoldable pub new_plan : String → ℕ → (ℤ → String) → DraftRequest → Plan
  unfolding normalised strip
  new_plan fresh_id now wall r = record {
    plan_id = fresh_id;
    owner_email = normalised r.owner_email;
    tool = r.tool;
    customer_id = strip r.customer_id;
    arguments = r.arguments;
    preview = r.preview;
    created_monotonic = now;
    expires_monotonic = now + pos_part r.ttl_seconds * nanoseconds;
    created_at = wall (pos 0);
    expires_at = wall r.ttl_seconds;
    ttl_seconds = r.ttl_seconds;
    consumed_at = none;
    spend_delta_units = r.spend_delta_units;
    metadata = r.metadata;
  }

  unfoldable pub draft :
      String → ℕ → (ℤ → String) → DraftRequest → PlanStore → Result PlanError Plan × PlanStore
  unfolding new_plan purge_expired_locked insert
  draft fresh_id now wall r store =
      if not (ltb_ℤ (pos 0) r.ttl_seconds)
      then (err bad_ttl, store)
      else let purged = (purge_expired_locked now store).0 in
        let plan = new_plan fresh_id now wall r in
        if leb purged.max_open_plans (length purged.plans)
        then (err too_many_open_plans, purged)
        else (ok plan, record purged { plans = insert fresh_id plan purged.plans })

  -- The checks on a plan that was found, in their order.
  unfoldable pub check_plan : String → ℕ → Plan → Result PlanError Plan
  unfolding normalised
  check_plan caller_email now plan =
      if not (str_eq plan.owner_email (normalised caller_email))
      then err plan_not_owned
      else if is_consumed plan
      then err plan_already_used
      else if is_expired plan now
      then err plan_expired
      else ok plan

  abbrev checked_plan : String → ℕ → Option Plan → Result PlanError Plan
  unfolding check_plan
  checked_plan caller_email now none = err plan_not_found
  checked_plan caller_email now (some plan) = check_plan caller_email now plan

  unfoldable pub checked_locked : String → String → ℕ → PlanStore → Result PlanError Plan
  unfolding lookup check_plan
  checked_locked plan_id caller_email now store =
      checked_plan caller_email now (lookup plan_id store.plans)

  unfoldable pub peek : String → String → ℕ → PlanStore → Result PlanError Plan
  unfolding checked_locked
  peek plan_id caller_email now store = checked_locked plan_id caller_email now store

  abbrev pub mark_consumed : String → Plan → Plan
  mark_consumed at plan = record plan { consumed_at = some at }

  -- The object in the store is the one that is returned, so the mark is written in both.
  abbrev claim :
      String → String → PlanStore → Result PlanError Plan → Result PlanError Plan × PlanStore
  unfolding insert
  claim plan_id at store (err e) = (err e, store)
  claim plan_id at store (ok plan) =
      let marked = mark_consumed at plan in
      (ok marked, record store { plans = insert plan_id marked store.plans })

  unfoldable pub consume :
      String → String → ℕ → (ℤ → String) → PlanStore → Result PlanError Plan × PlanStore
  unfolding checked_locked insert
  consume plan_id caller_email now wall store =
      claim plan_id (wall (pos 0)) store (checked_locked plan_id caller_email now store)
