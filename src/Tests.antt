-- ===== src/Tests.antt =====
-- A small server for the examples: one person, one account, one plan that pauses a campaign.
mod Plans
mod Safety
mod Tools
mod Rechecks
mod Auth
mod Validators
mod Executor
use Prim.Native.Char.{Char, code}
use gads_write_mcp.Base.{
  ℕ, leb, ◌&&◌, String, Bool, true, false, Option, none, some, List, [], ◌∷◌, Result, ok, err,
  str_eq, if◌then◌else◌,
}
use gads_write_mcp.Base.Int.{ℤ, pos}
use gads_write_mcp.Auth.Identity.{Caller}
use gads_write_mcp.Auth.Tiers.{operator}
use gads_write_mcp.Python.Decimal.{finite, whole}
use gads_write_mcp.Python.Value.{str, dict, field, end, Arguments}
use gads_write_mcp.Python.Text.{Runtime}
use gads_write_mcp.Safety.Accounts.{ManagedAccount, AccountSummary, AccountStore}
use gads_write_mcp.Safety.Audit.Log.{AuditLog, Disk}
use gads_write_mcp.Safety.Guard.{Denial, Services, GuardRequest}
use gads_write_mcp.Safety.Plans.{Plan, PlanStore, DraftRequest}
use gads_write_mcp.Safety.Policy.{Policy, Rules, Limits, TierLimits, blocked_operations}
use gads_write_mcp.Tools.Confirm.{
  State, OperationChecks, no_read, Answer, accepted, MutationRequest, MutationResult, Reader, World,
}

-- A runtime for texts in lower case, in which 50 is the one number.
instance abbrev pub plain : Runtime
plain = record {
  lower = λ s. s;
  upper = λ s. s;
  casefold = λ s. s;
  digit = λ c. leb 48 (code c) && leb (code c) 57;
  wide = λ c. false;
  control = λ c. false;
  show = λ v. "50";
  parse_decimal = λ s. if str_eq s "50" then some (finite (whole 50)) else none;
  decimal_digit = λ c. leb 48 (code c) && leb (code c) 57;
  date_ordinal = λ s. if str_eq s "2026-01-01" then some 739617 else some 739647;
  urlparse = λ s.
      some (record { scheme = "https"; username = ""; password = ""; hostname = "shop.example" });
}

abbrev pub describe : Denial → String
describe d = "refused"

abbrev pub wall : ℤ → String
wall n = "noon"

abbrev pub ann : Caller
ann = record { email = "ann@example.com" }

abbrev pub disk : Disk
disk = record { cutoff = "2026-01-01"; locked = λ s. false; write_fails = false }

abbrev pub account : ManagedAccount
account = record {
  customer_id = "12";
  currency_code = "EUR";
  timezone = "UTC";
  descriptive_name = "Shop";
  is_manager = false;
}

-- Rises of up to 50 per cent for every tier.
abbrev pub policy : Policy
policy = record {
  rules = record { new_entities_start_paused = true; allowed_final_url_domains = [] };
  blocked = blocked_operations;
  ttl_seconds = pos 600;
  single_use = true;
  limits_for = λ tier. record {
    budget = record { max_increase_percent = some (whole 50) };
    bids = record { max_increase_percent = some (whole 50) };
  };
  currency_code = "";
  timezone = "UTC";
}

abbrev pub services : Services
services = record {
  write_enabled = true;
  policy = policy;
  timestamp = "noon";
  date_in = λ zone. "2026-02-03";
  resolve = λ c id. ok operator;
  visible_tier = λ c. ok operator;
  account = λ id. ok (some account);
  disk = disk;
}

abbrev pub arguments : Arguments
arguments = ("campaign_id", str "7") ∷ []

abbrev pub gate_call : GuardRequest
gate_call = record {
  tool = "pause_campaign";
  caller = some ann;
  customer_id = some "12";
  arguments = arguments;
  validate = none;
  evaluate = none;
  spend_delta_units = none;
  plan_id = none;
  dry_run = true;
}

abbrev pub draft_request : DraftRequest
draft_request = record {
  owner_email = "ann@example.com";
  tool = "pause_campaign";
  customer_id = "12";
  arguments = arguments;
  preview = "pause";
  ttl_seconds = pos 600;
  spend_delta_units = none;
  metadata =
      ("operation", str "pause_campaign")
      ∷ ("payload", dict (field "campaign_id" (str "7") end))
      ∷ [];
}

abbrev pub plan : Plan
plan = record {
  plan_id = "p1";
  owner_email = "ann@example.com";
  tool = "pause_campaign";
  customer_id = "12";
  arguments = arguments;
  preview = "pause";
  created_monotonic = 0;
  expires_monotonic = 600000000000;
  created_at = "noon";
  expires_at = "noon";
  ttl_seconds = pos 600;
  consumed_at = none;
  spend_delta_units = none;
  metadata =
      ("operation", str "pause_campaign")
      ∷ ("payload", dict (field "campaign_id" (str "7") end))
      ∷ [];
}

abbrev pub no_plans : PlanStore
no_plans = record { plans = []; max_open_plans = 10 }

abbrev pub store : PlanStore
store = record { plans = ("p1", plan) ∷ []; max_open_plans = 10 }

abbrev pub log : AuditLog
log = record { legacy = none; files = []; last_written_date = none }

abbrev pub state : State
state = record { store = store; log = log }

abbrev pub checks : OperationChecks (Unit {0})
checks = record {
  validate = λ p args. ok [];
  recheck = none;
  reads = no_read;
  id_argument = "";
  spend_delta = none;
}

-- A world in which the executor gives a certain answer and nobody else calls.
abbrev pub world_with : Result String MutationResult → World (Unit {0})
world_with answer = record {
  operations = λ tool. some checks;
  reader = record {
    campaign_by_id = λ c i. ok none;
    ad_group_by_id = λ c i. ok none;
    keyword_by_id = λ c g i. ok none;
  };
  apply = λ q. answer;
  require_human_confirmation = true;
  elicit = λ preview. ok accepted;
  caller = ann;
  authorise_services = services;
  gate_services = services;
  apply_services = services;
  peek_time = 1;
  consume_time = 2;
  wall = wall;
  meanwhile = λ a s. s;
}

abbrev pub result : MutationResult
result = record { success = true; resource_names = []; details = end; error = none }

abbrev pub world : World (Unit {0})
world = world_with (ok result)

abbrev pub broken_world : World (Unit {0})
broken_world = world_with (err "timeout")

abbrev pub summary : AccountSummary
summary = record {
  customer_id = " 12 ";
  currency_code = "EUR";
  time_zone = "UTC";
  descriptive_name = "Shop";
  is_manager = false;
}

abbrev pub cold : AccountStore
cold = record { ttl = 10; accounts = none; expires_at = 0 }
