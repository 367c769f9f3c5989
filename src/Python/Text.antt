-- ===== src/Python/Text.antt =====
-- Text operations. `strip` is written out; what rests on the Unicode tables of the interpreter,
-- on `str` of an object and on the grammar of `Decimal(text)` is a parameter.
use Prim.Native.Char.{Char, code}
use Prim.Native.String.{[], ◌∷◌}
use gads_write_mcp.Base.{
  ℕ, suc, String, Bool, true, false, ◌&&◌, ◌||◌, not, Option, List, leb, ◌==◌, str_eq,
  if◌then◌else◌,
}
use gads_write_mcp.Python.Decimal.{Number}
use gads_write_mcp.Python.Value.{Value, str}

-- The parts of a `urllib.parse.urlparse` result that are read; an absent part is empty.
pub record Url : Type 0 where
  pub scheme : String
  pub username : String
  pub password : String
  pub hostname : String

pub record Runtime : Type 0 where
  pub lower : String → String
  pub upper : String → String
  pub casefold : String → String
  -- One character of `str.isdigit`, of the wide east asian classes and of category C.
  pub digit : Char → Bool
  pub wide : Char → Bool
  pub control : Char → Bool
  -- `str(value)` of a value that is no text, and `Decimal(text)`, `none` where that raises.
  pub show : Value → String
  pub parse_decimal : String → Option Number
  -- One character of the class `\d` of a pattern.
  pub decimal_digit : Char → Bool
  -- `date.fromisoformat(text).toordinal()` and `urlparse(text)`, `none` where they raise ValueError.
  pub date_ordinal : String → Option ℕ
  pub urlparse : String → Option Url

-- The characters that `str.strip` removes: `str.isspace`, all of Unicode's.
unfoldable pub is_space : ℕ → Bool
is_space c =
    leb 9 c && leb c 13
    || leb 28 c && leb c 32
    || c == 133
    || c == 160
    || c == 5760
    || leb 8192 c && leb c 8202
    || c == 8232
    || c == 8233
    || c == 8239
    || c == 8287
    || c == 12288

unfoldable pub lstrip : String → String
unfolding is_space
lstrip [] = []
lstrip (c ∷ s) = let rest = lstrip s in if is_space (code c) then rest else c ∷ s

unfoldable pub rstrip : String → String
unfolding is_space
rstrip [] = []
rstrip (c ∷ s) = let rest = rstrip s in if str_eq rest "" && is_space (code c) then [] else c ∷ rest

unfoldable pub strip : String → String
unfolding lstrip rstrip
strip s = rstrip (lstrip s)

-- Every character passes the test, as `isdigit` asks of a text that is not empty.
unfoldable pub all_chars : (Char → Bool) → String → Bool
all_chars p [] = true
all_chars p (c ∷ s) = p c && all_chars p s

unfoldable pub any_char : (Char → Bool) → String → Bool
any_char p [] = false
any_char p (c ∷ s) = p c || any_char p s

-- `len(text)`
unfoldable pub char_count : String → ℕ
char_count [] = 0
char_count (c ∷ s) = suc (char_count s)

abbrev pub is_empty_text : String → Bool
is_empty_text s = str_eq s ""

-- `x in {...}` for texts.
unfoldable pub one_of : String → List String → Bool
one_of s List.[] = false
one_of s (List.◌∷◌ t ts) = str_eq s t || one_of s ts

-- `text.split(" ", 1)[0]`
unfoldable pub before_space : String → String
before_space [] = []
before_space (c ∷ s) = let rest = before_space s in if code c == b' ' then [] else c ∷ rest

module _ ⦃py : Runtime⦄ where
  -- `str(value)`
  abbrev pub text_of : Value → String
  text_of (str s) = s
  text_of v = py.show v

  -- `str(value).strip()`
  unfoldable pub stripped_text : Value → String
  unfolding strip
  stripped_text v = strip (text_of v)

  -- `email.strip().lower()`, the form in which addresses are compared.
  unfoldable pub normalised : String → String
  unfolding strip
  normalised email = py.lower (strip email)

  -- `text.isdigit()`
  unfoldable pub is_digits : String → Bool
  unfolding all_chars
  is_digits s = not (is_empty_text s) && all_chars py.digit s
