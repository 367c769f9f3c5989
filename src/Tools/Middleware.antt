-- ===== src/Tools/Middleware.antt =====
-- mcp_middleware.py: the menu and the early refusal. The settings and the lookup of the tier are
-- those of the gate's services; the identity is what the provider of callers answers.
pub mod Laws
use gads_write_mcp.Base.{
  String, Bool, true, false, not, ◌&&◌, Option, none, some, List, [], ◌∷◌, filter, if◌then◌else◌,
  Result, ok, err,
}
use gads_write_mcp.Auth.Identity.{Caller}
use gads_write_mcp.Auth.Tiers.{Tier, nothing, tier_at_least}
use gads_write_mcp.Safety.Guard.{Services}
use gads_write_mcp.Tools.Registry.{spec_for}

-- An AuthError of the provider, by its text.
abbrev pub Identified : Type 0
Identified = Result String (Option Caller)

abbrev or_nothing : Result String Tier → Tier
or_nothing (ok t) = t
or_nothing (err exc) = nothing

-- `_visible_tier`
abbrev pub menu_tier : Services → Identified → Tier
menu_tier s (err exc) = nothing
menu_tier s (ok none) = nothing
menu_tier s (ok (some c)) = or_nothing (s.visible_tier c)

-- Why a tool is refused.
pub data Refusal : Type 0 where
  switched_off : Refusal
  tier_too_low : (tool : String) (required actual : Tier) → Refusal

-- `_permitted`: `none` where the tool is permitted.
unfoldable pub permitted : Bool → String → Tier → Option Refusal
unfolding spec_for
permitted write_enabled tool_name tier =
    let spec = spec_for tool_name in
    if spec.writes && not write_enabled
    then some switched_off
    else if not (tier_at_least tier spec.required_tier)
    then some (tier_too_low tool_name spec.required_tier tier)
    else none

abbrev pub is_none {ℓ} : {A : Type ℓ} → Option A → Bool
is_none none = true
is_none (some a) = false

unfoldable pub on_list_tools : Services → Identified → List String → List String
unfolding permitted
on_list_tools s who tools =
    let tier = menu_tier s who in
    filter (λ name. is_none (permitted s.write_enabled name tier)) tools

-- The ToolError of a refusal; `call_next` is the tool's own run.
abbrev or_call {ℓ} : {A : Type ℓ} → A → Option Refusal → Result Refusal A
or_call next none = ok next
or_call next (some reason) = err reason

unfoldable pub on_call_tool {ℓ} :
    {A : Type ℓ} → Services → Identified → String → A → Result Refusal A
unfolding permitted
on_call_tool s who tool_name call_next =
    or_call call_next (permitted s.write_enabled tool_name (menu_tier s who))
