-- ===== src/Python/Value.antt =====
-- A value of any type, as tool arguments, plan payloads and audit lines hold them.
use gads_write_mcp.Base.{
  String, Bool, true, false, not, ◌||◌, Option, none, some, List, [], ◌∷◌, ◌==◌, str_eq,
  if◌then◌else◌,
}
use gads_write_mcp.Base.Int.{ℤ, pos, negsuc, abs}
use gads_write_mcp.Base.Dict.{Dict, lookup}
use gads_write_mcp.Python.Decimal.{Number, finite}

-- A float is the text that `str` gives of it. `other` is an object of any other class, by its `str`.
mutual
  pub data Value : Type 0 where
    null : Value
    bool : Bool → Value
    int : ℤ → Value
    float : String → Value
    str : String → Value
    dec : Number → Value
    other : String → Value
    seq : Items → Value
    dict : Fields → Value

  pub data Items : Type 0 where
    nil : Items
    cons : Value → Items → Items

  pub data Fields : Type 0 where
    end : Fields
    field : String → Value → Fields → Fields

-- The items of a sequence as a list, and the entries of a dict.
abbrev pub items : Items → List Value
items nil = []
items (cons v vs) = v ∷ items vs

abbrev pub entries : Fields → Dict Value
entries end = []
entries (field k v fs) = (k, v) ∷ entries fs

-- The arguments of a tool call.
abbrev pub Arguments : Type 0
Arguments = Dict Value

abbrev pub or_else : Option Value → Value → Value
or_else none d = d
or_else (some v) d = v

-- `arguments.get(name, default)`
abbrev pub get_or : Arguments → String → Value → Value
unfolding lookup
get_or args name default = or_else (lookup name args) default

-- `arguments.get(name)`
abbrev pub get : Arguments → String → Value
unfolding lookup
get args name = or_else (lookup name args) null

-- `bool(value)`.
abbrev pub truthy : Value → Bool
truthy null = false
truthy (bool b) = b
truthy (int (pos n)) = not (n == 0)
truthy (int (negsuc n)) = true
truthy (float s) = not (str_eq s "0.0" || str_eq s "-0.0")
truthy (str s) = not (str_eq s "")
truthy (dec (finite d)) = not (abs d.num == 0)
truthy (dec _) = true
truthy (other s) = true
truthy (seq nil) = false
truthy (seq (cons _ _)) = true
truthy (dict end) = false
truthy (dict (field _ _ _)) = true

-- `value or default`
abbrev pub value_or : Value → Value → Value
value_or v default = if truthy v then v else default

-- `value == "text"`
abbrev pub is_text : Value → String → Bool
is_text (str s) t = str_eq s t
is_text v t = false
