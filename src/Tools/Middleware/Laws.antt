-- ===== src/Tools/Middleware/Laws.antt =====
-- The menu against the call, both against the gate behind them, and what a client is told of a tool
-- against what is let through.
use gads_write_mcp.Base.{
  ◌≤◌, String, ◌≡◌, ◌≢◌, refl, sym, ap, ◌∙◌, ◌↔◌, ◌⊎◌, inl, inr, Bool, true, false, not, ◌&&◌,
  Option, none, some, List, [], ◌∷◌, filter, arith, if◌then◌else◌, ok, err, Bool-cases, leb→le,
  le→leb,
}
use gads_write_mcp.Auth.Identity.{Caller}
use gads_write_mcp.Auth.Tiers.{Tier, nothing, readonly, operator, lead, rank, tier_at_least}
use gads_write_mcp.Python.Text.{Runtime}
use gads_write_mcp.Safety.Policy.{Policy}
use gads_write_mcp.Safety.Audit.Log.{AuditLog}
use gads_write_mcp.Safety.Guard.{Services, GuardRequest}
use gads_write_mcp.Safety.Guard.Order.{IsPermitted}
use gads_write_mcp.Tools.Registry.{spec_for, is_registered, annotations_for}
use gads_write_mcp.Tools.Registry.Laws.{spec_for_safe, or_not-eq-false, not_confirm}
use gads_write_mcp.Tools.Middleware.{
  Identified, or_nothing, menu_tier, Refusal, switched_off, tier_too_low, permitted, is_none,
  on_list_tools, or_call, on_call_tool,
}

abbrev pub IsIn : String → List String → Type 0
IsIn name [] = ⊥
IsIn name (n ∷ ns) = (name ≡ n) ⊎ IsIn name ns

IsIn-filter :
    (p : String → Bool) (name : String) (names : List String)
    → IsIn name (filter p names)
    → IsIn name names × (p name ≡ true)
IsIn-filter p name [] left = absurd left
IsIn-filter p name (n ∷ ns) left = elim (Bool-cases (p n)) [
  | inl kept ↦ by_place (IsIn-filter p name ns) kept (rw kept at left)
  | inr gone ↦ let (found, good) = IsIn-filter p name ns (rw gone at left) in (inr found, good)
]
  where
    by_place :
        (IsIn name (filter p ns) → IsIn name ns × (p name ≡ true))
        → p n ≡ true
        → (name ≡ n) ⊎ IsIn name (filter p ns)
        → ((name ≡ n) ⊎ IsIn name ns) × (p name ≡ true)
    by_place rest kept (inl here) = (inl here, ap p here ∙ kept)
    by_place rest kept (inr found) = let (later, good) = rest found in (inr later, good)

filter-IsIn :
    (p : String → Bool) (name : String) (names : List String)
    → p name ≡ true
    → IsIn name names
    → IsIn name (filter p names)
filter-IsIn p name [] good found = found
filter-IsIn p name (n ∷ ns) good (inl here) = rw (sym (ap p here) ∙ good) (inl here)
filter-IsIn p name (n ∷ ns) good (inr later) = elim (Bool-cases (p n)) [
  | inl kept ↦ rw kept (inr (filter-IsIn p name ns good later))
  | inr gone ↦ rw gone (filter-IsIn p name ns good later)
]

by_tests :
    (writes enabled high : Bool) (off low : Refusal)
    → (writes ≡ true → enabled ≡ true)
    → high ≡ true
    → (if writes && not enabled then some off else if not high then some low else none) ≡ none
by_tests true true true off low on up = refl
by_tests true false high off low on up = cc (on refl)
by_tests false enabled true off low on up = refl
by_tests writes enabled false off low on up = cc

permitted_by :
    (enabled : Bool) (name : String) (tier : Tier)
    → ((spec_for name).writes ≡ true → enabled ≡ true)
    → rank (spec_for name).required_tier ≤ rank tier
    → permitted enabled name tier ≡ none
unfolding permitted
permitted_by enabled name tier on high =
    let spec = spec_for name in
    by_tests spec.writes enabled (tier_at_least tier spec.required_tier) switched_off
      (tier_too_low name spec.required_tier tier) on (le→leb _ _ high)

by_refusal :
    (writes enabled high : Bool) (off low : Refusal)
    → is_none (if writes && not enabled then some off else if not high then some low else none)
      ≡ true
    → high ≡ true
by_refusal true false high off low h = cc
by_refusal true true true off low h = refl
by_refusal true true false off low h = cc
by_refusal false enabled true off low h = refl
by_refusal false enabled false off low h = cc

permitted-tier :
    (enabled : Bool) (name : String) (tier : Tier)
    → is_none (permitted enabled name tier) ≡ true
    → rank (spec_for name).required_tier ≤ rank tier
unfolding permitted
permitted-tier enabled name tier h =
    let spec = spec_for name in
    leb→le _ _ (
      by_refusal spec.writes enabled (tier_at_least tier spec.required_tier) switched_off
        (tier_too_low name spec.required_tier tier) h)

lowest : (t : Tier) → rank t ≤ 0 → t ≡ nothing
lowest nothing h = refl
lowest readonly h = absurd (omega arith)
lowest operator h = absurd (omega arith)
lowest lead h = absurd (omega arith)

passes : (o : Option Refusal) → is_none o ≡ true → o ≡ none
passes none h = refl
passes (some r) h = cc

or_call-passes {ℓ} :
    {A : Type ℓ} (next : A) (o : Option Refusal) → or_call next o ≡ ok next → is_none o ≡ true
or_call-passes next none h = refl
or_call-passes next (some reason) h = cc

no_higher : (t : Tier) → rank t ≤ rank lead
no_higher nothing = omega arith
no_higher readonly = omega arith
no_higher operator = omega arith
no_higher lead = omega arith

-- With the kill switch off, the strongest tier is let through to what does not write, and no more.
permitted-read_only :
    (name : String) → is_none (permitted false name lead) ≡ not (spec_for name).writes
unfolding permitted
permitted-read_only name =
    let spec = spec_for name in
    elim (Bool-cases spec.writes) [
      | inl writes ↦ rw writes refl
      | inr reads ↦ rw (reads, le→leb _ _ (no_higher spec.required_tier)) refl
    ]

not_destructive :
    (name : String)
    → is_registered name ≡ true
    → name ≢ "confirm_and_apply"
    → (annotations_for name).destructive ≡ false
unfolding annotations_for
not_destructive name known named = elim (Bool-cases (spec_for name).applies_plan) [
  | inl applies ↦ let (_, _, only) = spec_for_safe name in absurd (named (only applies))
  | inr plain ↦ rw (plain, known) refl
]

-- What a client is told agrees with what is enforced, for every name: a tool is shown as read-only
-- exactly if, with the kill switch off, a caller of the strongest tier is still let through to it; and
-- it is shown as not destructive exactly if it is registered and is not confirm_and_apply.
pub annotations-permitted :
    (name : String)
    → ((annotations_for name).read_only ≡ is_none (permitted false name lead))
      × (((annotations_for name).destructive ≡ false)
          ↔ ((is_registered name ≡ true) × (name ≢ "confirm_and_apply")))
unfolding annotations_for
annotations-permitted name = (
  sym (permitted-read_only name),
  (
    λ h.
        let (plain, known) = or_not-eq-false (spec_for name).applies_plan (is_registered name) h in
        (known, λ e. not_confirm name plain e),
    λ (known, named). not_destructive name known named,
  ),
)

-- A tool is on the menu exactly if it is one of the server's and a call of it would be let through.
pub listed-called {ℓ} :
    {A : Type ℓ} (s : Services) (who : Identified) (tools : List String) (name : String) (next : A)
    → IsIn name (on_list_tools s who tools)
      ↔ (IsIn name tools × (on_call_tool s who name next ≡ ok next))
unfolding on_list_tools on_call_tool
listed-called s who tools name next = (
  λ listed.
      let (known, good) = IsIn-filter may name tools listed in
      (known, ap (or_call next) (passes (permitted s.write_enabled name (menu_tier s who)) good)),
  λ (known, called). filter-IsIn may name tools (or_call-passes next _ called) known,
)
  where
    may : String → Bool
    may tool = is_none (permitted s.write_enabled tool (menu_tier s who))

-- The provider names no caller, or the lookup of the caller's tier fails.
abbrev pub IsUnknown : Services → Identified → Type 0
IsUnknown s who = (c : Caller) → who ≡ ok (some c) → (e : String) × (s.visible_tier c ≡ err e)

unknown-menu_tier : (s : Services) (who : Identified) → IsUnknown s who → menu_tier s who ≡ nothing
unknown-menu_tier s (err exc) unknown = refl
unknown-menu_tier s (ok none) unknown = refl
unknown-menu_tier s (ok (some c)) unknown = let (e, failed) = unknown c refl in ap or_nothing failed

-- A caller who is not identified, or whose tier cannot be looked up, is shown health_check at most.
pub on_list_tools-unknown :
    (s : Services) (who : Identified) (tools : List String) (name : String)
    → IsUnknown s who
    → IsIn name (on_list_tools s who tools)
    → name ≡ "health_check"
unfolding on_list_tools
on_list_tools-unknown s who tools name unknown listed =
    let bottom = unknown-menu_tier s who unknown in
    let (_, good) =
      IsIn-filter (λ tool. is_none (permitted s.write_enabled tool (menu_tier s who))) name tools
        listed in
    let high = permitted-tier s.write_enabled name (menu_tier s who) good in
    let (_, open_to_all, _) = spec_for_safe name in
    open_to_all (lowest (spec_for name).required_tier (rw bottom at high))

-- A call that the gate would let through at a tier no higher than the caller's best is let through to
-- it by the early refusal.
pub permitted-on_call_tool {ℓ} :
    ⦃py : Runtime⦄ {A : Type ℓ} (s : Services) (r : GuardRequest) (log : AuditLog) (t v : Tier)
    (policy : Policy) (c : Caller) (next : A)
    → IsPermitted s r log t policy
    → r.caller ≡ some c
    → s.visible_tier c ≡ ok v
    → rank t ≤ rank v
    → on_call_tool s (ok r.caller) r.tool next ≡ ok next
unfolding on_call_tool
permitted-on_call_tool s r log t v policy c next through known seen up =
    let tier : menu_tier s (ok r.caller) ≡ v =
      ap (λ who. menu_tier s (ok who)) known ∙ ap or_nothing seen in
    let high : rank (spec_for r.tool).required_tier ≤ rank (menu_tier s (ok r.caller)) =
      rw tier (omega (arith, through.high_enough, up)) in
    ap (or_call next)
      (permitted_by s.write_enabled r.tool (menu_tier s (ok r.caller)) through.switched_on high)
