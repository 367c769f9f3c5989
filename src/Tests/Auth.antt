-- ===== src/Tests/Auth.antt =====
-- Tiers in the cache, in the file of overrides and from Google, and the menu that follows.
use gads_write_mcp.Base.{
  ℕ, ◌+◌, ◌≤◌, ◌<◌, String, ◌≡◌, refl, ◌↔◌, ◌⊎◌, inl, none, some, [], ◌∷◌, arith, length, ok, err,
}
use gads_write_mcp.Base.Dict.{lookup}
use gads_write_mcp.Auth.Cache.{
  TierCache, empty_cache, max_cache_entries, find, store, get, make_room, put, key_of, keep,
}
use gads_write_mcp.Auth.Cache.Laws.{put-bounded}
use gads_write_mcp.Auth.Cache.History.{writing, after, last_written, get-last_written}
use gads_write_mcp.Auth.Resolver.{RoleSource}
use gads_write_mcp.Auth.Roles.{RoleStore, Look, parsed_file, absent, override_for}
use gads_write_mcp.Auth.Roles.Laws.{
  after_looks, WasLoaded, after_looks-WasLoaded, override_for-removed,
}
use gads_write_mcp.Auth.Tiers.{operator, lead}
use gads_write_mcp.Python.Text.{normalised, strip, lstrip, rstrip, is_space}
use gads_write_mcp.Python.Value.{str, dict, field, end}
use gads_write_mcp.Tools.Middleware.{on_list_tools, on_call_tool, permitted}
use gads_write_mcp.Tools.Middleware.Laws.{IsIn, IsUnknown, listed-called, on_list_tools-unknown}
use gads_write_mcp.Tools.Registry.{spec_for}
use gads_write_mcp.Tests.{plain, ann, services}

put-bounded_example :
    length (put "ann@example.com" (some "12") operator 5 (empty_cache 100)).entries
    ≤ max_cache_entries
put-bounded_example =
    put-bounded "ann@example.com" (some "12") operator 5 (empty_cache 100) (omega arith)

cached_example :
    (get "ann@example.com"
      (some "12")
      10
      (after 100 (writing "ann@example.com" (some "12") operator 5 ∷ []))).0
    ≡ some operator
unfolding after get put store make_room find keep
cached_example = refl

get-last_written_example :
    (p : ℕ) × (last_written
        (key_of "ann@example.com" (some "12"))
        (writing "ann@example.com" (some "12") operator 5 ∷ [])
      ≡ some (operator, p))
    × (10 < p + 100)
get-last_written_example =
    get-last_written 100 (writing "ann@example.com" (some "12") operator 5 ∷ []) "ann@example.com"
      (some "12") 10 operator (omega arith) cached_example

abbrev edited : Look
edited = record {
  seen = some (record { mtime = 7; size = 30 });
  file = parsed_file (dict (field "users" (dict (field "ann@example.com" (str "lead") end)) end));
}

abbrev gone : Look
gone = record { seen = none; file = absent }

abbrev roles : RoleStore
roles = record {
  table = record { users = ("ann@example.com", lead) ∷ [] };
  stamp = none;
  last_error = none;
  reload_count = 0;
}

after_looks-WasLoaded_example :
    ((after_looks (gone ∷ edited ∷ []) roles).table ≡ roles.table)
    ⊎ WasLoaded (after_looks (gone ∷ edited ∷ []) roles).table (gone ∷ edited ∷ [])
after_looks-WasLoaded_example = after_looks-WasLoaded (gone ∷ edited ∷ []) roles

overridden_example : override_for roles.table "ann@example.com" ≡ some lead
unfolding override_for lookup normalised strip lstrip rstrip is_space
overridden_example = refl

override_for-removed_example :
    override_for (after_looks (gone ∷ gone ∷ []) roles).table "ann@example.com" ≡ some lead
override_for-removed_example =
    override_for-removed (gone ∷ gone ∷ []) roles "ann@example.com" lead (refl, (refl, tt))
      overridden_example

abbrev google : RoleSource
google = record {
  access_role = λ id email. ok (some "STANDARD");
  login_customer_id = "99";
  managed = ok ("12" ∷ []);
  asked = λ id. 5;
  answered = λ id. 6;
}

-- A tier that Google gave at 3, in a cache whose entries live for 100.
abbrev remembered : TierCache
remembered = record {
  ttl = 100;
  entries =
      (
        record { email = "ann@example.com"; account = "12" },
        record { tier = operator; expires_at = 103 },
      )
      ∷ [];
}

listed-called_example :
    IsIn "pause_campaign" (on_list_tools services (ok (some ann)) ("pause_campaign" ∷ [])) ↔ (
      IsIn "pause_campaign" ("pause_campaign" ∷ [])
      × (on_call_tool {A = String} services (ok (some ann)) "pause_campaign" "paused"
          ≡ ok "paused"))
listed-called_example =
    listed-called services (ok (some ann)) ("pause_campaign" ∷ []) "pause_campaign" "paused"

nobody : IsUnknown services (err "no token")
nobody c h = cc

shown_example :
    IsIn "health_check"
      (on_list_tools services (err "no token") ("pause_campaign" ∷ "health_check" ∷ []))
unfolding on_list_tools permitted spec_for lookup
shown_example = inl refl

on_list_tools-unknown_example : ◌≡◌ {A = String} "health_check" "health_check"
on_list_tools-unknown_example =
    on_list_tools-unknown services (err "no token") ("pause_campaign" ∷ "health_check" ∷ [])
      "health_check" nobody shown_example
