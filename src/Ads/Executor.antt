-- ===== src/Ads/Executor.antt =====
-- ads/executor.py: one mutation, from its request to what Google is sent and what is made of the answer.
-- A message is the list of the fields that were set on it, each by its path.
pub mod Payload
pub mod Updates
pub mod Creates
pub mod Masks
pub mod Dispatch
pub mod Safe
use Prim.Native.Char.{Char, code}
use Prim.Native.String.{[], ◌∷◌}
use gads_write_mcp.Base.{
  ℕ, String, Bool, true, false, not, ◌&&◌, ◌||◌, Option, none, some, List, [], ◌∷◌, ◌==◌, str_eq,
  map, is_empty, if◌then◌else◌, Result, ok, err, ◌>>=◌,
}
use gads_write_mcp.Base.Dict.{Dict, lookup}
use gads_write_mcp.Base.Int.{ℤ}
use gads_write_mcp.Python.Text.{Runtime, one_of, is_empty_text}
use gads_write_mcp.Python.Value.{Value, bool, str, Fields, end, field}
use gads_write_mcp.Tools.Confirm.{MutationRequest, MutationResult}

abbrev pub Message : Type 0
Message = List (String × Value)

-- An operation of a request, on a resource of a type of its own.
pub data Change : Type 0 where
  create : (resource : String) → Message → Change
  update : (resource : String) → Message → Change

-- What is raised: Google's refusal by its text, or a check of this module; `uncaught` is an exception
-- of another class, which the handlers let out.
pub data ExecutorError : Type 0 where
  rejected : String → ExecutorError
  unknown_operation : String → ExecutorError
  mask_refused nothing_changed bad_payload : String → ExecutorError
  uncaught : String → ExecutorError

-- The request message: `partial_failure` and `validate_only` are fields of it.
pub record Mutate : Type 0 where
  pub customer_id : String
  pub partial_failure : Bool
  pub validate_only : Bool
  pub changes : List Change

-- The client library, for one choice of manager: the resource names it builds, the mask it derives from
-- a message, `int(value)` where that does not raise, and Google's answer, by the resource names in it.
pub record Client : Type 0 where
  pub path : (resource : String) → (customer_id : String) → (ids : List String) → String
  pub field_mask : Message → List String
  pub to_int : Value → Option ℤ
  pub mutate : Mutate → Result String (List String)

-- What a handler builds: the operations, how an answer without resource names is taken, and what the
-- result says of the change, in a rehearsal and otherwise.
pub record Built : Type 0 where
  pub changes : List Change
  pub wants_names : Bool
  pub rehearsed : Fields
  pub details : Fields

abbrev pub Handler : Type 0
Handler = Client → MutationRequest → Result ExecutorError Built

-- Most handlers end in `_finish`, which adds the operation to the details.
abbrev pub finishing : MutationRequest → List Change → Fields → Built
finishing request changes details = record {
  changes = changes;
  wants_names = true;
  rehearsed = field "validate_only" (bool true) (field "operation" (str request.operation) details);
  details = field "operation" (str request.operation) details;
}

-- `name in text`, of two texts.
unfoldable pub starts_text : String → String → Bool
starts_text [] s = true
starts_text (c ∷ p) [] = false
starts_text (c ∷ p) (d ∷ s) = code c == code d && starts_text p s

unfoldable pub contains : String → String → Bool
unfolding starts_text
contains p [] = starts_text p []
contains p (c ∷ s) = starts_text p (c ∷ s) || contains p s

-- `_finish`, and the ends of the two handlers that send several operations at once.
unfoldable pub finish : MutationRequest → Built → List String → Result ExecutorError MutationResult
finish request built names =
    if request.validate_only
    then ok
        (record { success = true; resource_names = []; details = built.rehearsed; error = none })
    else if built.wants_names && is_empty names
    then err (nothing_changed request.operation)
    else ok
        (record { success = true; resource_names = names; details = built.details; error = none })

-- The request that `_send` builds.
unfoldable pub mutate_of : MutationRequest → Built → Mutate
mutate_of request built = record {
  customer_id = request.customer_id;
  partial_failure = false;
  validate_only = request.validate_only;
  changes = built.changes;
}

abbrev rejected_by : Result String (List String) → Result ExecutorError (List String)
rejected_by (ok names) = ok names
rejected_by (err text) = err (rejected text)

-- `_send` and `_finish`.
unfoldable pub send : Client → MutationRequest → Built → Result ExecutorError MutationResult
unfolding mutate_of finish
send client request built =
    rejected_by (client.mutate (mutate_of request built)) >>= finish request built
