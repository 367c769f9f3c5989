-- ===== src/Tools/Registry.antt =====
-- tools/registry.py: what the gate knows of each tool before running it.
pub mod Laws
use gads_write_mcp.Base.{
  String, Bool, true, false, not, ◌||◌, Option, none, some, List, [], ◌∷◌, Result, ok, err, ◌>>=◌,
  is_some,
}
use gads_write_mcp.Base.Dict.{Dict, lookup, insert}
use gads_write_mcp.Auth.Tiers.{Tier, nothing, readonly, operator, lead}

pub record ToolSpec : Type 0 where
  pub name : String
  pub required_tier : Tier
  pub writes : Bool
  pub operation : Option String
  pub applies_plan : Bool

-- The ValueError of a second registration.
pub data RegistryError : Type 0 where
  already_registered : String → RegistryError

abbrev file_spec : ToolSpec → Dict ToolSpec → Option ToolSpec → Result RegistryError (Dict ToolSpec)
unfolding insert
file_spec spec registry (some old) = err (already_registered spec.name)
file_spec spec registry none = ok (insert spec.name spec registry)

unfoldable pub register : ToolSpec → Dict ToolSpec → Result RegistryError (Dict ToolSpec)
unfolding lookup insert
register spec registry = file_spec spec registry (lookup spec.name registry)

unfoldable pub register_all : List ToolSpec → Dict ToolSpec → Result RegistryError (Dict ToolSpec)
unfolding register
register_all [] registry = ok registry
register_all (spec ∷ specs) registry = register spec registry >>= register_all specs

-- The fail-closed default for a tool that nobody registered.
abbrev pub unknown_tool_spec : String → ToolSpec
unknown_tool_spec name = record {
  name = name;
  required_tier = lead;
  writes = true;
  operation = some name;
  applies_plan = false;
}

-- The calls of `_register_builtin_tools` give only these fields; the rest are defaults.
abbrev pub read_tool : String → ToolSpec
read_tool name = record {
  name = name;
  required_tier = readonly;
  writes = false;
  operation = none;
  applies_plan = false;
}

abbrev pub write_tool : String → ToolSpec
write_tool name = record {
  name = name;
  required_tier = operator;
  writes = true;
  operation = some name;
  applies_plan = false;
}

abbrev pub builtin_tools : List ToolSpec
builtin_tools =
    record {
      name = "health_check";
      required_tier = nothing;
      writes = false;
      operation = none;
      applies_plan = false;
    }
    ∷ read_tool "list_accounts"
    ∷ read_tool "get_campaign_performance"
    ∷ read_tool "get_search_terms"
    ∷ read_tool "list_campaigns"
    ∷ read_tool "list_ad_groups"
    ∷ read_tool "list_keywords"
    ∷ read_tool "list_ads"
    ∷ read_tool "find_locations"
    ∷ read_tool "run_gaql_query"
    ∷ write_tool "pause_campaign"
    ∷ write_tool "enable_campaign"
    ∷ write_tool "pause_ad_group"
    ∷ write_tool "enable_ad_group"
    ∷ write_tool "update_campaign_budget"
    ∷ write_tool "add_negative_keyword"
    ∷ write_tool "add_keyword"
    ∷ write_tool "update_ad_group_bid"
    ∷ write_tool "create_campaign"
    ∷ write_tool "create_responsive_search_ad"
    ∷ write_tool "create_ad_group"
    ∷ write_tool "add_location_target"
    ∷ write_tool "pause_keyword"
    ∷ write_tool "enable_keyword"
    ∷ write_tool "pause_ad"
    ∷ write_tool "enable_ad"
    ∷ write_tool "update_keyword_bid"
    ∷ write_tool "update_campaign"
    ∷ record {
      name = "confirm_and_apply";
      required_tier = operator;
      writes = true;
      operation = none;
      applies_plan = true;
    }
    ∷ []

abbrev entry_of : ToolSpec → String × ToolSpec
entry_of spec = (spec.name, spec)

abbrev entries_of : List ToolSpec → Dict ToolSpec
entries_of [] = []
entries_of (spec ∷ specs) = entry_of spec ∷ entries_of specs

-- `_REGISTRY` once the built-in tools are registered (`register_all-builtin` shows that no
-- registration raises and that this is what they leave).
abbrev pub registry : Dict ToolSpec
registry = entries_of builtin_tools

abbrev pub spec_or : ToolSpec → Option ToolSpec → ToolSpec
spec_or default none = default
spec_or default (some spec) = spec

unfoldable pub spec_for : String → ToolSpec
unfolding lookup
spec_for name = spec_or (unknown_tool_spec name) (lookup name registry)

unfoldable pub is_registered : String → Bool
unfolding lookup
is_registered name = is_some (lookup name registry)

-- The hints that a client reads: readOnlyHint, destructiveHint, idempotentHint, openWorldHint.
pub record Annotations : Type 0 where
  pub read_only : Bool
  pub destructive : Bool
  pub idempotent : Bool
  pub open_world : Bool

unfoldable pub annotations_for : String → Annotations
unfolding spec_for is_registered
annotations_for name =
    let spec = spec_for name in
    record {
      read_only = not spec.writes;
      destructive = spec.applies_plan || not (is_registered name);
      idempotent = not spec.writes;
      open_world = true;
    }
