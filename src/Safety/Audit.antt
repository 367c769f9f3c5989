-- ===== src/Safety/Audit.antt =====
-- safety/audit.py: redaction, the record of a decision, and the log of dated files.
pub mod Redaction
pub mod Log
use Prim.Native.String
use Prim.Native.String.{[], ◌∷◌, count}
use text.Mathlib.Text.{starts_with}
use gads_write_mcp.Base.{
  ℕ, zero, suc, ◌+◌, ◌-◌, String, Bool, true, false, not, ◌&&◌, ◌||◌, Option, none, some, List, [],
  ◌∷◌, ltb, length, if◌then◌else◌,
}
use gads_write_mcp.Base.Int.{ℤ, pos}
use gads_write_mcp.Python.Value.{
  Value, null, bool, int, float, str, dec, other, seq, dict, Items, nil, cons, Fields, end, field,
  Arguments, items,
}
use gads_write_mcp.Python.Text.{Runtime}

abbrev pub sensitive_key_parts : List String
sensitive_key_parts =
    "token" ∷ "secret" ∷ "password" ∷ "passwd" ∷ "credential" ∷ "authorization" ∷ "auth" ∷ "api_key"
    ∷ "apikey" ∷ "private" ∷ []

abbrev pub redacted : String
redacted = "[redacted]"

abbrev pub max_string_chars : ℕ
max_string_chars = 500

abbrev pub max_sequence_items : ℕ
max_sequence_items = 50

-- `part in text`
unfoldable pub contains : String → String → Bool
contains part [] = starts_with [] part
contains part (c ∷ s) = starts_with (c ∷ s) part || contains part s

abbrev any_part : String → List String → Bool
unfolding contains
any_part key [] = false
any_part key (part ∷ parts) = contains part key || any_part key parts

-- The first n characters.
unfoldable pub take_text : ℕ → String → String
take_text zero s = []
take_text (suc n) [] = []
take_text (suc n) (c ∷ s) = c ∷ take_text n s

abbrev items_length : Items → ℕ
items_length xs = length (items xs)

module _ ⦃py : Runtime⦄ where
  unfoldable pub is_sensitive : String → Bool
  unfolding any_part contains
  is_sensitive key = any_part (py.lower key) sensitive_key_parts

  -- `f"[+{n} more]"` and its like.
  abbrev pub left_out : ℕ → String → Value
  left_out n unit = str (String.◌++◌ "[+" (String.◌++◌ (py.show (int (pos n))) unit))

  abbrev pub capped_text : String → String
  unfolding take_text
  capped_text s =
      if ltb max_string_chars (count s)
      then String.◌++◌ (take_text max_string_chars s) (
          String.◌++◌ "[+"
            (String.◌++◌ (py.show (int (pos (count s - max_string_chars)))) " chars]"))
      else s

  -- Values of the other types become their text, so that a line can always be serialised.
  unfoldable mutual
    unfolding is_sensitive take_text

    pub redact : ℕ → Value → Value
    redact depth (dict fs) =
        if ltb 6 depth then str "[too deeply nested]" else dict (redact_fields depth fs)
    redact depth (seq xs) =
        if ltb 6 depth
        then str "[too deeply nested]"
        else seq (redact_items depth max_sequence_items xs)
    redact depth (str s) = if ltb 6 depth then str "[too deeply nested]" else str (capped_text s)
    redact depth (dec n) = if ltb 6 depth then str "[too deeply nested]" else str (py.show (dec n))
    redact depth (other s) = if ltb 6 depth then str "[too deeply nested]" else str s
    redact depth v = if ltb 6 depth then str "[too deeply nested]" else v

    -- `room` items may still be taken.
    pub redact_items : ℕ → ℕ → Items → Items
    redact_items depth room nil = nil
    redact_items depth zero (cons v vs) = cons (left_out (suc (items_length vs)) " more]") nil
    redact_items depth (suc room) (cons v vs) =
        cons (redact (depth + 1) v) (redact_items depth room vs)

    pub redact_fields : ℕ → Fields → Fields
    redact_fields depth end = end
    redact_fields depth (field k v fs) =
        field k (if is_sensitive k then str redacted else redact (depth + 1) v)
          (redact_fields depth fs)
