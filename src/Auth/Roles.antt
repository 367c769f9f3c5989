-- ===== src/Auth/Roles.antt =====
-- auth/roles.py: the break-glass overrides. What the disk and the YAML parser say of the file
-- during a call is an argument; keys of a mapping that are no text are taken as their text.
pub mod Laws
use gads_write_mcp.Base.{
  ℕ, ◌+◌, String, Bool, true, false, not, ◌&&◌, Option, none, some, List, [], ◌∷◌, ◌==◌, str_eq,
  if◌then◌else◌, Result, ok, err, ◌>>=◌,
}
use gads_write_mcp.Base.Dict.{Dict, lookup, insert}
use gads_write_mcp.Auth.Tiers.{Tier, nothing, readonly, operator, lead}
use gads_write_mcp.Python.Text.{Runtime, normalised, stripped_text, is_empty_text}
use gads_write_mcp.Python.Value.{Value, null, dict, Fields, end, field, entries, get, value_or}

pub data RoleConfigError : Type 0 where
  not_a_mapping users_not_a_mapping : RoleConfigError
  unknown_tier : Value → RoleConfigError
  unreadable invalid_yaml : String → RoleConfigError

-- `users`; the path of the file is in no decision.
pub record RoleTable : Type 0 where
  pub users : Dict Tier

abbrev pub empty_table : RoleTable
empty_table = record { users = [] }

-- `Tier(text)`
unfoldable pub tier_named : String → Option Tier
tier_named s =
    if str_eq s "none"
    then some nothing
    else if str_eq s "readonly"
    then some readonly
    else if str_eq s "operator"
    then some operator
    else if str_eq s "lead"
    then some lead
    else none

abbrev or_unknown : Value → Option Tier → Result RoleConfigError Tier
or_unknown v none = err (unknown_tier v)
or_unknown v (some t) = ok t

-- The file: what `path.exists`, `read_text` and `yaml.safe_load` make of it.
pub data RoleFile : Type 0 where
  absent : RoleFile
  unreadable_file malformed_file : String → RoleFile
  parsed_file : Value → RoleFile

module _ ⦃py : Runtime⦄ where
  abbrev tier_value : Value → Result RoleConfigError Tier
  unfolding stripped_text tier_named
  tier_value v = or_unknown v (tier_named (py.lower (stripped_text v)))

  unfoldable pub parse_users : Fields → Dict Tier → Result RoleConfigError (Dict Tier)
  unfolding tier_value normalised insert
  parse_users end users = ok users
  parse_users (field email v fs) users =
      tier_value v >>= λ t. parse_users fs (insert (normalised email) t users)

  abbrev users_table : Value → Result RoleConfigError RoleTable
  unfolding parse_users
  users_table (dict fs) = parse_users fs [] >>= λ users. ok (record { users = users })
  users_table v = err users_not_a_mapping

  -- `RoleTable.parse`
  unfoldable pub parse : Value → Result RoleConfigError RoleTable
  unfolding users_table
  parse null = ok empty_table
  parse (dict fs) = users_table (value_or (get (entries fs) "users") (dict end))
  parse v = err not_a_mapping

  -- `RoleTable.load`
  unfoldable pub load : RoleFile → Result RoleConfigError RoleTable
  unfolding parse
  load absent = ok empty_table
  load (unreadable_file exc) = err (unreadable exc)
  load (malformed_file exc) = err (invalid_yaml exc)
  load (parsed_file raw) = parse raw

  unfoldable pub override_for : RoleTable → String → Option Tier
  unfolding lookup normalised
  override_for table email =
      if is_empty_text email then none else lookup (normalised email) table.users

-- `(mtime_ns, size)`
pub record Stamp : Type 0 where
  pub mtime : ℕ
  pub size : ℕ

pub record RoleStore : Type 0 where
  pub table : RoleTable
  pub stamp : Option Stamp
  pub last_error : Option RoleConfigError
  pub reload_count : ℕ

-- What one call of `current` finds: the stamp, `none` where the file cannot be statted, and the file.
pub record Look : Type 0 where
  pub seen : Option Stamp
  pub file : RoleFile

abbrev same_stamp : Stamp → Option Stamp → Bool
same_stamp s none = false
same_stamp s (some t) = (s.mtime == t.mtime) && (s.size == t.size)

module _ ⦃py : Runtime⦄ where
  -- A broken edit keeps the last good table.
  abbrev reloaded : Stamp → RoleStore → Result RoleConfigError RoleTable → RoleStore
  reloaded stamp store (err e) = record store { stamp = some stamp; last_error = some e }
  reloaded stamp store (ok table) = record {
    table = table;
    stamp = some stamp;
    last_error = none;
    reload_count = store.reload_count + 1;
  }

  abbrev look_again : Option Stamp → RoleFile → RoleStore → RoleStore
  unfolding load
  look_again none file store = store
  look_again (some stamp) file store =
      if same_stamp stamp store.stamp then store else reloaded stamp store (load file)

  -- `RoleStore.current`; the table is the one of the store after.
  unfoldable pub current_table : Look → RoleStore → RoleTable × RoleStore
  unfolding look_again
  current_table look store =
      let after = look_again look.seen look.file store in (after.table, after)

  -- `RoleStore.__init__`, which raises where the file cannot be loaded.
  abbrev opened : Option Stamp → RoleTable → RoleStore
  opened stamp table = record { table = table; stamp = stamp; last_error = none; reload_count = 0 }

  unfoldable pub open_store : Look → Result RoleConfigError RoleStore
  unfolding load
  open_store look = load look.file >>= λ table. ok (opened look.seen table)
