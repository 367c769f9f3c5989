-- ===== src/Safety/Guard/Order.antt =====
-- When the gate lets a call through: every check holds, each at the tier and policy of the account.
use gads_write_mcp.Base.{
  String, ◌≡◌, refl, ◌≢◌, ◌≤◌, inl, inr, Bool, true, false, not, ◌&&◌, Option, none, some, List, [],
  ◌∷◌, arith, Result, ok, err, Bool-cases, Option-cases, Result-cases, str_eq, eq_iff, leb→le,
}
use gads_write_mcp.Auth.Identity.{Caller}
use gads_write_mcp.Auth.Tiers.{Tier, rank, tier_at_least}
use gads_write_mcp.Python.Decimal.{Decimal}
use gads_write_mcp.Python.Text.{Runtime}
use gads_write_mcp.Safety.Units.{Raised}
use gads_write_mcp.Safety.Policy.{Policy, PolicyVerdict, for_account}
use gads_write_mcp.Safety.Validators.{Problem}
use gads_write_mcp.Safety.Accounts.{ManagedAccount}
use gads_write_mcp.Safety.Audit.Log.{AuditLog}
use gads_write_mcp.Safety.Spend.{total_increase_units}
use gads_write_mcp.Tools.Registry.{spec_for, is_registered}
use gads_write_mcp.Safety.Guard.{
  GuardDecision, Services, GuardRequest, tier_answer, operation_verdict, by_limits, by_validation,
  by_operation, by_account, by_tier, by_identity, decide,
}

switch : (writes enabled : Bool) → writes && not enabled ≡ false → writes ≡ true → enabled ≡ true
switch writes enabled h w = ground arith

-- The account is ours, and the policy carries its currency and timezone.
abbrev pub IsManaged : Services → Option String → Policy → Type 0
IsManaged s none policy = policy ≡ s.policy
IsManaged s (some id) policy =
    (a : ManagedAccount) × (s.account id ≡ ok (some a))
    × (policy ≡ for_account a.currency_code a.timezone s.policy)

abbrev pub Validates : Option (Policy → Result Raised (List Problem)) → Policy → Type 0
Validates none policy = Unit
Validates (some validate) policy = validate policy ≡ ok []

module _ ⦃py : Runtime⦄ where
  -- The rule of the tool allows the change, given what its person has spent today.
  abbrev pub Evaluates :
      Services
      → AuditLog
      → Caller
      → Tier
      → Policy
      → Option (Policy → Tier → Decimal → Result Raised PolicyVerdict)
      → Type 0
  Evaluates s log c t policy none = Unit
  Evaluates s log c t policy (some evaluate) =
      (total : Decimal) × (v : PolicyVerdict) × (total_increase_units c.email
          (s.date_in policy.timezone) log
        ≡ some total)
      × (evaluate policy t total ≡ ok v)
      × (v.allowed ≡ true)

  pub record IsPermitted (s : Services) (r : GuardRequest) (log : AuditLog) (t : Tier)
      (policy : Policy) : Type 0 where
    pub registered : is_registered r.tool ≡ true
    pub switched_on : (spec_for r.tool).writes ≡ true → s.write_enabled ≡ true
    pub caller : Caller
    pub known : r.caller ≡ some caller
    pub named : caller.email ≢ ""
    pub resolved : tier_answer s caller r.customer_id ≡ ok t
    pub high_enough : rank (spec_for r.tool).required_tier ≤ rank t
    pub ours : IsManaged s r.customer_id policy
    pub not_blocked : (operation_verdict policy (spec_for r.tool).operation).allowed ≡ true
    pub valid : Validates r.validate policy
    pub within_limits : Evaluates s log caller t policy r.evaluate

  -- What a stage that answered `d` says of an allowed decision.
  abbrev Passed : GuardDecision → Tier → Policy → Type 0
  Passed d t policy = (d.tier ≡ t) × (d.policy ≡ policy)

  by_limits_sound :
      (s : Services) (r : GuardRequest) (log : AuditLog) (c : Caller) (t : Tier) (policy : Policy)
      (evaluate : Option (Policy → Tier → Decimal → Result Raised PolicyVerdict))
      (d : GuardDecision)
      → by_limits s r log c t policy evaluate ≡ ok d
      → d.is_allowed ≡ true
      → Evaluates s log c t policy evaluate × Passed d t policy
  unfolding by_limits
  by_limits_sound s r log c t policy none d h through = (tt, (ground arith, ground arith))
  by_limits_sound s r log c t policy (some e) d h through =
      elim (Option-cases (total_increase_units c.email (s.date_in policy.timezone) log)) [
        | inl undefined ↦ ground arith
        | inr (total, read) ↦ elim (Result-cases (e policy t total)) [
          | inl (v, judged) ↦ elim (Bool-cases v.allowed) [
            | inl fine ↦ ((total, v, read, judged, fine), (ground arith, ground arith))
            | inr refused ↦ ground arith
          ]
          | inr (x, raised) ↦ ground arith
        ]
      ]

  -- From here on the facts at the end of the chain: the policy is the one that was passed in.
  by_validation_sound :
      (s : Services) (r : GuardRequest) (log : AuditLog) (c : Caller) (t : Tier) (policy : Policy)
      (validate : Option (Policy → Result Raised (List Problem))) (d : GuardDecision)
      → by_validation s r log c t policy validate ≡ ok d
      → d.is_allowed ≡ true
      → Validates validate policy × Evaluates s log c t policy r.evaluate × Passed d t policy
  unfolding by_validation
  by_validation_sound s r log c t policy none d h through =
      let (e, p) = by_limits_sound s r log c t policy r.evaluate d h through in (tt, e, p)
  by_validation_sound s r log c t policy (some f) d h through = elim (Result-cases (f policy)) [
    | inl ([], fine) ↦
        let (e, p) = by_limits_sound s r log c t policy r.evaluate d (rw fine at h) through in
        (fine, e, p)
    | inl (x ∷ xs, bad) ↦ ground arith
    | inr (x, raised) ↦ ground arith
  ]

  by_operation_sound :
      (s : Services) (r : GuardRequest) (log : AuditLog) (c : Caller) (t : Tier) (policy : Policy)
      (d : GuardDecision)
      → by_operation s r log c t policy ≡ ok d
      → d.is_allowed ≡ true
      → ((operation_verdict policy (spec_for r.tool).operation).allowed ≡ true)
        × Validates r.validate policy
        × Evaluates s log c t policy r.evaluate
        × Passed d t policy
  unfolding by_operation
  by_operation_sound s r log c t policy d h through =
      elim (Bool-cases (operation_verdict policy (spec_for r.tool).operation).allowed) [
        | inl fine ↦
            let (v, e, p) =
              by_validation_sound s r log c t policy r.validate d (rw fine at h) through in
            (fine, v, e, p)
        | inr blocked ↦ ground arith
      ]

  -- The facts of the stages after the tier, at the policy that the decision carries.
  abbrev Rest : Services → GuardRequest → AuditLog → Caller → Tier → Policy → Type 0
  Rest s r log c t policy =
      IsManaged s r.customer_id policy
      × ((operation_verdict policy (spec_for r.tool).operation).allowed ≡ true)
      × Validates r.validate policy
      × Evaluates s log c t policy r.evaluate

  by_account_sound :
      (s : Services) (r : GuardRequest) (log : AuditLog) (c : Caller) (t : Tier)
      (id : Option String) (d : GuardDecision)
      → by_account s r log c t id ≡ ok d
      → d.is_allowed ≡ true
      → (policy : Policy) × IsManaged s id policy
        × ((operation_verdict policy (spec_for r.tool).operation).allowed ≡ true)
        × Validates r.validate policy
        × Evaluates s log c t policy r.evaluate
        × Passed d t policy
  unfolding by_account
  by_account_sound s r log c t none d h through =
      let (o, v, e, p) = by_operation_sound s r log c t s.policy d h through in
      (s.policy, refl, o, v, e, p)
  by_account_sound s r log c t (some id) d h through = elim (Result-cases (s.account id)) [
    | inl (none, foreign) ↦ ground arith
    | inl (some a, ours) ↦
        let policy = for_account a.currency_code a.timezone s.policy in
        let (o, v, e, p) = by_operation_sound s r log c t policy d (rw ours at h) through in
        (policy, (a, ours, refl), o, v, e, p)
    | inr (x, failed) ↦ ground arith
  ]

  by_tier_sound :
      (s : Services) (r : GuardRequest) (log : AuditLog) (c : Caller) (answer : Result String Tier)
      (d : GuardDecision)
      → by_tier s r log c answer ≡ ok d
      → d.is_allowed ≡ true
      → (answer ≡ ok d.tier)
        × (rank (spec_for r.tool).required_tier ≤ rank d.tier)
        × Rest s r log c d.tier d.policy
  unfolding by_tier
  by_tier_sound s r log c (err x) d h through = ground arith
  by_tier_sound s r log c (ok t) d h through =
      elim (Bool-cases (tier_at_least t (spec_for r.tool).required_tier)) [
        | inl high ↦
            let (policy, m, o, v, e, (same_tier, same_policy)) =
              by_account_sound s r log c t r.customer_id d (rw high at h) through in
            rw (same_tier, same_policy) (refl, leb→le _ _ high, (m, o, v, e))
        | inr low ↦ ground arith
      ]

  by_identity_sound :
      (s : Services) (r : GuardRequest) (log : AuditLog) (caller : Option Caller)
      (d : GuardDecision)
      → by_identity s r log caller ≡ ok d
      → d.is_allowed ≡ true
      → (c : Caller) × (caller ≡ some c)
        × (c.email ≢ "")
        × (tier_answer s c r.customer_id ≡ ok d.tier)
        × (rank (spec_for r.tool).required_tier ≤ rank d.tier)
        × Rest s r log c d.tier d.policy
  unfolding by_identity
  by_identity_sound s r log none d h through = ground arith
  by_identity_sound s r log (some c) d h through = elim (Bool-cases (str_eq c.email "")) [
    | inl anonymous ↦ ground arith
    | inr named ↦
        let (t, high, rest) =
          by_tier_sound s r log c (tier_answer s c r.customer_id) d (rw named at h) through in
        (c, refl, ground (arith, eq_iff c.email ""), t, high, rest)
  ]

  pub decide_sound :
      (s : Services) (r : GuardRequest) (log : AuditLog) (d : GuardDecision)
      → decide s r log ≡ ok d
      → d.is_allowed ≡ true
      → IsPermitted s r log d.tier d.policy
  unfolding decide
  decide_sound s r log d h through = elim (Bool-cases (is_registered r.tool)) [
    | inr unknown ↦ ground arith
    | inl known ↦ elim (Bool-cases ((spec_for r.tool).writes && not s.write_enabled)) [
      | inl off ↦ ground arith
      | inr on ↦
          let (c, e, named, t, high, (m, o, v, w)) =
            by_identity_sound s r log r.caller d (rw (known, on) at h) through in
          record {
            registered = known;
            switched_on = switch (spec_for r.tool).writes s.write_enabled on;
            caller = c;
            known = e;
            named = named;
            resolved = t;
            high_enough = high;
            ours = m;
            not_blocked = o;
            valid = v;
            within_limits = w;
          }
    ]
  ]
