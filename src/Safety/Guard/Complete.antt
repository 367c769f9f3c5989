-- ===== src/Safety/Guard/Complete.antt =====
-- The other direction: where every check holds the gate lets the call through.
use gads_write_mcp.Base.{
  String, ◌≡◌, refl, ◌≢◌, ◌≤◌, ◌↔◌, Bool, true, false, not, ◌&&◌, Option, none, some, List, arith,
  Result, ok, le→leb,
}
use gads_write_mcp.Base.Dict.{str_eq_of_ne}
use gads_write_mcp.Auth.Identity.{Caller}
use gads_write_mcp.Auth.Tiers.{Tier, rank}
use gads_write_mcp.Python.Decimal.{Decimal, whole}
use gads_write_mcp.Python.Text.{Runtime}
use gads_write_mcp.Safety.Units.{Raised}
use gads_write_mcp.Safety.Policy.{Policy, PolicyVerdict}
use gads_write_mcp.Safety.Validators.{Problem}
use gads_write_mcp.Safety.Audit.Log.{AuditLog}
use gads_write_mcp.Tools.Registry.{spec_for}
use gads_write_mcp.Safety.Guard.{
  GuardDecision, Services, GuardRequest, by_limits, by_validation, by_operation, by_account,
  by_tier, by_identity, decide, permission, tier_answer, operation_verdict,
}
use gads_write_mcp.Safety.Guard.Order.{IsManaged, Validates, Evaluates, IsPermitted, decide_sound}

off : (writes enabled : Bool) → (writes ≡ true → enabled ≡ true) → writes && not enabled ≡ false
off true enabled h = ground (arith, h refl)
off false enabled h = refl

module _ ⦃py : Runtime⦄ where
  -- The decision that lets the call through.
  abbrev Through : Services → GuardRequest → Tier → Policy → Result Raised GuardDecision → Type 0
  Through s r t policy answer = (total : Decimal) × (answer ≡ ok (permission s r t policy total))

  by_limits-Through :
      (s : Services) (r : GuardRequest) (log : AuditLog) (c : Caller) (t : Tier) (policy : Policy)
      (evaluate : Option (Policy → Tier → Decimal → Result Raised PolicyVerdict))
      → Evaluates s log c t policy evaluate
      → Through s r t policy (by_limits s r log c t policy evaluate)
  unfolding by_limits
  by_limits-Through s r log c t policy none h = (whole 0, refl)
  by_limits-Through s r log c t policy (some e) (total, v, read, judged, fine) =
      (total, rw (read, judged, fine))

  by_validation-Through :
      (s : Services) (r : GuardRequest) (log : AuditLog) (c : Caller) (t : Tier) (policy : Policy)
      (validate : Option (Policy → Result Raised (List Problem)))
      → Validates validate policy
      → Through s r t policy (by_limits s r log c t policy r.evaluate)
      → Through s r t policy (by_validation s r log c t policy validate)
  unfolding by_validation
  by_validation-Through s r log c t policy none h later = later
  by_validation-Through s r log c t policy (some f) fine later = rw fine later

  by_account-Through :
      (s : Services) (r : GuardRequest) (log : AuditLog) (c : Caller) (t : Tier) (policy : Policy)
      (id : Option String)
      → IsManaged s id policy
      → Through s r t policy (by_operation s r log c t policy)
      → Through s r t policy (by_account s r log c t id)
  unfolding by_account
  by_account-Through s r log c t policy none same later = rw same (rw same at later)
  by_account-Through s r log c t policy (some id) (a, ours, same) later =
      rw (ours, same) (rw same at later)

  by_operation-Through :
      (s : Services) (r : GuardRequest) (log : AuditLog) (c : Caller) (t : Tier) (policy : Policy)
      → (operation_verdict policy (spec_for r.tool).operation).allowed ≡ true
      → Through s r t policy (by_validation s r log c t policy r.validate)
      → Through s r t policy (by_operation s r log c t policy)
  unfolding by_operation
  by_operation-Through s r log c t policy fine later = rw fine later

  by_identity-Through :
      (s : Services) (r : GuardRequest) (log : AuditLog) (c : Caller) (t : Tier) (policy : Policy)
      (caller : Option Caller)
      → caller ≡ some c
      → c.email ≢ ""
      → tier_answer s c r.customer_id ≡ ok t
      → rank (spec_for r.tool).required_tier ≤ rank t
      → Through s r t policy (by_account s r log c t r.customer_id)
      → Through s r t policy (by_identity s r log caller)
  unfolding by_identity by_tier
  by_identity-Through s r log c t policy caller known named resolved high later =
      rw (known, str_eq_of_ne c.email "" named, resolved, le→leb _ _ high) later

  through :
      (s : Services) (r : GuardRequest) (log : AuditLog) (t : Tier) (policy : Policy)
      → IsPermitted s r log t policy
      → Through s r t policy (decide s r log)
  unfolding decide
  through s r log t policy p =
      rw (p.registered, off (spec_for r.tool).writes s.write_enabled p.switched_on)
        (by_identity-Through s r log p.caller t policy r.caller p.known p.named p.resolved
          p.high_enough
          (by_account-Through s r log p.caller t policy r.customer_id p.ours (
            by_operation-Through s r log p.caller t policy p.not_blocked (
              by_validation-Through s r log p.caller t policy r.validate p.valid
                (by_limits-Through s r log p.caller t policy r.evaluate p.within_limits)))))

  -- The gate lets a call through exactly if every check holds: the tool is registered, writes are on
  -- if it writes, the caller is known, their tier on the account is high enough, the account is
  -- managed, the operation is not blocked, the arguments are valid and the policy rule allows the
  -- change. The tier and the policy of the decision are those that the checks were made with.
  pub decide-allowed_iff :
      (s : Services) (r : GuardRequest) (log : AuditLog)
      → ((d : GuardDecision) × (decide s r log ≡ ok d) × (d.is_allowed ≡ true))
        ↔ ((t : Tier) × (policy : Policy) × IsPermitted s r log t policy)
  decide-allowed_iff s r log = (
    λ (d, h, yes'). (d.tier, d.policy, decide_sound s r log d h yes'),
    λ (t, policy, p).
        let (total, e) = through s r log t policy p in (permission s r t policy total, e, refl),
  )
