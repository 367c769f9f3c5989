-- ===== src/Safety/Validators.antt =====
-- safety/validators.py: what a validator finds wrong. A ValidationResult is the list of its problems:
-- `add` and `extend` append, and it is ok where the list is empty.
pub mod Text
pub mod Reports
pub mod Ads
pub mod Campaigns
pub mod Accepted
use gads_write_mcp.Base.{ℕ, String, Bool, List, [], ◌∷◌, if◌then◌else◌}
use gads_write_mcp.Python.Decimal.{Decimal}
use gads_write_mcp.Python.Value.{Value}
use gads_write_mcp.Safety.Units.{MoneyError}

-- The name of a field, and of an item of a list.
pub data Field : Type 0 where
  named : String → Field
  item : String → ℕ → Field

-- What a message shows; its wording is left out.
pub data Message : Type 0 where
  has_dashes no_customer_id no_match_type removed no_status no_numeric_id : String → Message
  not_text not_a_list : Value → Message
  must_not_be_empty : Message
  ui_syntax : String → Message
  too_long : (length code_points limit : ℕ) → Message
  unparsable not_https no_host : String → Message
  credentials : Message
  host_not_allowed : String → Message
  bad_amount : MoneyError → Message
  not_positive below_minimum above_maximum : Decimal → Message
  too_few too_many : (bound got : ℕ) → Message
  duplicated : List String → Message
  without_path1 none_given : Message
  not_iso_date not_a_date : String → Message
  start_after_end : Message
  range_too_long : (days maximum : ℕ) → Message
  not_a_row_count row_count_low row_count_high : Value → Message
  second_statement not_a_select : Message
  denied_resource : String → Message
  has_parameters : Message
  limit_too_high : ℕ → Message
  control_characters nothing_to_change end_before_start : Message
  no_strategy : Value → Message
  too_short unsafe_text : String → Message

-- One thing wrong with the input.
pub record Problem : Type 0 where
  pub field_name : Field
  pub message : Message

-- The result that holds one problem, and the one that holds it if a test fails.
abbrev pub problem : Field → Message → List Problem
problem field_name message = record { field_name = field_name; message = message } ∷ []

abbrev pub unless : Bool → Field → Message → List Problem
unless good field_name message = if good then [] else problem field_name message
