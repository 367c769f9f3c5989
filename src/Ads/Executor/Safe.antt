-- ===== src/Ads/Executor/Safe.antt =====
-- What a handler may build: updates whose masks are allowed, and no status but ENABLED and PAUSED.
pub mod Updates
pub mod Creates
pub mod Targets
pub mod Handlers
use gads_write_mcp.Base.{
  ℕ, String, ◌≡◌, refl, sym, ap, ◌∙◌, Bool, true, false, not, ◌&&◌, ◌||◌, Option, none, some, List,
  [], ◌∷◌, ◌++◌, map, str_eq, if◌then◌else◌, Result, ok, err, ◌>>=◌, Result-cases, Bool-cases, All,
  arith, inl, inr, is_empty,
}
use mathlib.Core.Bool.{and-eq-true_iff}
use mathlib.Core.Path.{subst}
use gads_write_mcp.Base.Dict.{Dict, lookup}
use gads_write_mcp.Base.Int.{ℤ, pos, ltb_ℤ}
use gads_write_mcp.Python.Text.{Runtime, one_of, stripped_text, is_empty_text}
use gads_write_mcp.Python.Value.{
  Value, null, bool, int, str, dict, Fields, field, end, value_or, is_text, entries, get, get_or,
}
use gads_write_mcp.Tools.Confirm.{MutationRequest}
use gads_write_mcp.Tools.Registry.Laws.{all_entries, lookup-all_entries}
use gads_write_mcp.Ads.Executor.{
  Message, Change, create, update, ExecutorError, bad_payload, starts_text, Client, Built, Handler,
  finishing,
}
use gads_write_mcp.Ads.Executor.Masks.{update_mask_allowlist, all_allowed, sealed_by, seal_mask}
use gads_write_mcp.Ads.Executor.Payload.{
  is_absent, require, digits, micros, keyword, date_time, status_of, text_or_empty,
}
use gads_write_mcp.Ads.Executor.Updates.{
  update_one, set_if_given, or_key_error, ids_of, set_status, set_bid, campaign_name,
  update_campaign, update_campaign_budget,
}
use gads_write_mcp.Ads.Executor.Creates.{
  campaign_bidding_strategies, strategy_fields, whole_or_zero, optional_bid, presence,
  presence_fields, location, positive_geo_target_type, path_field, list_of, plain_ids, all_numeric,
  none_twice, add_negative_keyword, add_keyword, create_campaign, create_ad_group,
  add_location_target, create_responsive_search_ad,
}

abbrev pub live_statuses : List String
live_statuses = "ENABLED" ∷ "PAUSED" ∷ []

unfoldable pub is_live : Value → Bool
unfolding one_of
is_live (str s) = one_of s live_statuses
is_live v = false

-- The status of a message, where it has one, is ENABLED or PAUSED.
unfoldable pub live_message : Message → Bool
unfolding is_live
live_message [] = true
live_message ((path, v) ∷ m) = (not (str_eq path "status") || is_live v) && live_message m

-- An update has a mask that the operation may write.
abbrev pub IsSealed : Client → String → Message → Type 0
IsSealed client operation message =
    (allowed : List String) × (lookup operation update_mask_allowlist ≡ some allowed)
    × (all_allowed allowed (client.field_mask message) ≡ true)

abbrev pub IsSafe : Client → String → Change → Type 0
IsSafe client operation (create resource m) = live_message m ≡ true
IsSafe client operation (update resource m) = (live_message m ≡ true) × IsSealed client operation m

pub seal_mask-IsSealed :
    (client : Client) (operation : String) (m : Message) (mask : List String)
    → seal_mask operation m client ≡ ok mask
    → IsSealed client operation m
unfolding seal_mask
seal_mask-IsSealed client operation m mask h =
    by_entry (lookup operation update_mask_allowlist) refl h
  where
    by_entry :
        (o : Option (List String))
        → lookup operation update_mask_allowlist ≡ o
        → sealed_by operation (client.field_mask m) o ≡ ok mask
        → IsSealed client operation m
    by_entry none e k = cc
    by_entry (some allowed) e k = elim (Bool-cases (all_allowed allowed (client.field_mask m))) [
      | inl fine ↦ (allowed, e, fine)
      | inr unexpected ↦ cc (rw unexpected at k)
    ]

module _ (client : Client) (request : MutationRequest) where
  abbrev pub AllSafe : Built → Type 0
  AllSafe b = All (IsSafe client request.operation) b.changes

  built_inj :
      (P : Built → Type 0) (a b : Built)
      → P a
      → ◌≡◌ {A = Result ExecutorError Built} (ok a) (ok b)
      → P b
  built_inj P a b p h = subst P (strip_ok h) p
    where
      strip_ok : ◌≡◌ {A = Result ExecutorError Built} (ok a) (ok b) → a ≡ b
      strip_ok e = cc

  pub update_one-AllSafe :
      (resource : String) (m : Message) (details : Fields) (b : Built)
      → live_message m ≡ true
      → update_one client request resource m details ≡ ok b
      → AllSafe b
  unfolding update_one
  update_one-AllSafe resource m details b live h =
      elim (Result-cases (seal_mask request.operation m client)) [
        | inr (x, e) ↦ cc (rw e at h)
        | inl (mask, e) ↦
            built_inj (λ x. All (IsSafe client request.operation) x.changes)
              (finishing request (update resource m ∷ []) details) b
              ((live, seal_mask-IsSealed client request.operation m mask e), tt) (rw e at h)
      ]

  pub ends-AllSafe :
      (a b : Built)
      → All (IsSafe client request.operation) a.changes
      → ◌≡◌ {A = Result ExecutorError Built} (ok a) (ok b)
      → AllSafe b
  ends-AllSafe a b safe h =
      built_inj (λ x. All (IsSafe client request.operation) x.changes) a b safe h

pub table-live :
    (table : Dict String) (operation status : String)
    → all_entries (λ k s. is_live (str s)) table ≡ true
    → or_key_error (lookup operation table) ≡ ok status
    → is_live (str status) ≡ true
table-live table operation status all h = by_entry (lookup operation table) refl h
  where
    by_entry :
        (o : Option String)
        → lookup operation table ≡ o
        → or_key_error o ≡ ok status
        → is_live (str status) ≡ true
    by_entry none e k = cc
    by_entry (some s) e k =
        let same : s ≡ status = cc in
        subst (λ t. is_live (str t) ≡ true) same
          (lookup-all_entries (λ j t. is_live (str t)) table operation s all e)

with_status :
    (m : Message) (v : Value)
    → is_live v ≡ true
    → live_message m ≡ true
    → live_message (("status", v) ∷ m) ≡ true
unfolding live_message
with_status m v h k = rw h k

pub live-append :
    (m k : Message) → live_message m ≡ true → live_message k ≡ true → live_message (m ++ k) ≡ true
unfolding live_message
live-append [] k h j = j
live-append ((path, v) ∷ m) k h j =
    let (here, rest) =
      (and-eq-true_iff (not (str_eq path "status") || is_live v) (live_message m)).0 h in
    (and-eq-true_iff (not (str_eq path "status") || is_live v) (live_message (m ++ k))).1
      (here, live-append m k rest j)

pub message_inj : {m k : Message} → ◌≡◌ {A = Result ExecutorError Message} (ok m) (ok k) → m ≡ k
message_inj h = cc

pub pair_live :
    (path status : String)
    → is_live (str status) ≡ true
    → live_message (("resource_name", str path) ∷ ("status", str status) ∷ []) ≡ true
unfolding live_message
pair_live path status live = rw live refl

pub set_if_given-live :
    (name : String) (v : Value) (read : Value → Result ExecutorError String) (m : Message)
    → str_eq name "status" ≡ false
    → set_if_given name v read ≡ ok m
    → live_message m ≡ true
unfolding live_message
set_if_given-live name v read m other h = by_absent (is_absent v) (read v) h
  where
    by_absent :
        (b : Bool) (r : Result ExecutorError String)
        → (if b then ok [] else (r >>= λ text. ok ((name, str text) ∷ []))) ≡ ok m
        → live_message m ≡ true
    by_absent true r k = subst (λ x. live_message x ≡ true) (message_inj k) refl
    by_absent false (ok t) k = subst (λ x. live_message x ≡ true) (message_inj k) (rw other refl)
    by_absent false (err e) k = cc
