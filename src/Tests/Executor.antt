-- ===== src/Tests/Executor.antt =====
-- A campaign that is paused, and a client whose answer is a name.
use gads_write_mcp.Base.{String, false, ◌≡◌, refl, none, some, List, [], ◌∷◌, All, ok}
use gads_write_mcp.Base.Dict.{lookup}
use gads_write_mcp.Python.Text.{
  strip, lstrip, rstrip, is_space, stripped_text, is_digits, all_chars, one_of,
}
use gads_write_mcp.Python.Value.{str, field, end}
use gads_write_mcp.Tools.Confirm.{MutationRequest}
use gads_write_mcp.Ads.Executor.{Message, update, Client, Built, finishing, mutate_of}
use gads_write_mcp.Ads.Executor.Masks.{seal_mask, sealed_by, all_allowed}
use gads_write_mcp.Ads.Executor.Payload.{digits}
use gads_write_mcp.Ads.Executor.Updates.{set_campaign_status, set_status, ids_of, update_one}
use gads_write_mcp.Ads.Executor.Dispatch.{Google, handlers, dispatch}
use gads_write_mcp.Ads.Executor.Dispatch.Laws.{IsAnswered, dispatch-IsAnswered}
use gads_write_mcp.Ads.Executor.Safe.{IsSafe}
use gads_write_mcp.Ads.Executor.Safe.Handlers.{handlers-IsSafe}
use gads_write_mcp.Tests.{plain}

abbrev paths_of : Message → List String
paths_of [] = []
paths_of ((path, v) ∷ m) = path ∷ paths_of m

abbrev client : Client
client = record {
  path = λ resource id ids. "customers/12/campaigns/7";
  field_mask = paths_of;
  to_int = λ v. none;
  mutate = λ q. ok ("customers/12/campaigns/7" ∷ []);
}

abbrev request : MutationRequest
request = record {
  customer_id = "12";
  operation = "pause_campaign";
  payload = field "campaign_id" (str "7") end;
  validate_only = false;
}

abbrev built : Built
built =
    finishing request
      (update "campaigns"
          (("resource_name", str "customers/12/campaigns/7") ∷ ("status", str "PAUSED") ∷ [])
        ∷ [])
      (field "new_status" (str "PAUSED") end)

handler_example : lookup request.operation handlers ≡ some set_campaign_status
unfolding lookup
handler_example = refl

built_example : set_campaign_status client request ≡ ok built
unfolding set_status ids_of digits update_one seal_mask sealed_by all_allowed one_of lookup
    stripped_text strip lstrip rstrip is_space is_digits all_chars
built_example = refl

handlers-IsSafe_example : All (IsSafe client request.operation) (mutate_of request built).changes
handlers-IsSafe_example =
    handlers-IsSafe client request set_campaign_status built handler_example built_example

-- A Google that answers through the manager.
abbrev google : Google
google = record { through_manager = client; directly = client; text_of = λ e. "" }

dispatch-IsAnswered_example : IsAnswered google request (dispatch google request)
dispatch-IsAnswered_example = dispatch-IsAnswered google request
