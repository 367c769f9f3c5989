-- ===== src/Safety/Accounts.antt =====
-- safety/accounts.py: the accounts under the manager, cached for a time. The lock makes a refresh
-- one step; `now` and `later` are the clock before the query and after it, and `answer` is what
-- Google gives to a query of the manager, if one is made.
pub mod Laws
use gads_write_mcp.Base.{
  ℕ, ◌+◌, String, Bool, true, false, not, Option, none, some, List, [], ◌∷◌, leb, ltb,
  if◌then◌else◌, Result, ok, err,
}
use gads_write_mcp.Base.Dict.{Dict, lookup, insert}
use gads_write_mcp.Python.Text.{strip, is_empty_text}

pub record ManagedAccount : Type 0 where
  pub customer_id : String
  pub currency_code : String
  pub timezone : String
  pub descriptive_name : String
  pub is_manager : Bool

-- An AccountSummary of ads/reads.py; a text field that Google left out is the empty text.
pub record AccountSummary : Type 0 where
  pub customer_id : String
  pub currency_code : String
  pub time_zone : String
  pub descriptive_name : String
  pub is_manager : Bool

pub data AccountLookupError : Type 0 where
  account_lookup_error : String → AccountLookupError

unfoldable pub from_summary : AccountSummary → ManagedAccount
unfolding strip
from_summary s = record {
  customer_id = strip s.customer_id;
  currency_code = strip s.currency_code;
  timezone = strip s.time_zone;
  descriptive_name = strip s.descriptive_name;
  is_manager = s.is_manager;
}

pub record AccountStore : Type 0 where
  pub ttl : ℕ
  pub accounts : Option (Dict ManagedAccount)
  pub expires_at : ℕ

unfoldable pub fresh_cache : ℕ → AccountStore → Option (Dict ManagedAccount)
fresh_cache now store =
    if leb store.ttl 0 then none else if leb store.expires_at now then none else store.accounts

-- The dict comprehension: later summaries of one id overwrite earlier ones.
unfoldable pub accounts_from : List AccountSummary → Dict ManagedAccount → Dict ManagedAccount
unfolding from_summary insert
accounts_from [] d = d
accounts_from (s ∷ ss) d =
    let a = from_summary s in
    accounts_from ss (if is_empty_text a.customer_id then d else insert a.customer_id a d)

-- What a refresh gives: the new set, the stale one if the query failed, or an error.
abbrev refreshed :
    ℕ
    → AccountStore
    → Result String (List AccountSummary)
    → Option (Dict ManagedAccount)
    → Result AccountLookupError (Dict ManagedAccount) × AccountStore
unfolding accounts_from
refreshed later store (err text) (some stale) = (ok stale, store)
refreshed later store (err text) none = (err (account_lookup_error text), store)
refreshed later store (ok summaries) known =
    let accounts = accounts_from summaries [] in
    (
      ok accounts,
      if ltb 0 store.ttl
          then record store { accounts = some accounts; expires_at = later + store.ttl }
          else record store { accounts = none },
    )

abbrev from_cache :
    ℕ
    → AccountStore
    → Result String (List AccountSummary)
    → Option (Dict ManagedAccount)
    → Result AccountLookupError (Dict ManagedAccount) × AccountStore
unfolding refreshed
from_cache later store answer (some cached) = (ok cached, store)
from_cache later store answer none = refreshed later store answer store.accounts

unfoldable pub current :
    ℕ
    → ℕ
    → Result String (List AccountSummary)
    → AccountStore
    → Result AccountLookupError (Dict ManagedAccount) × AccountStore
unfolding from_cache fresh_cache
current now later answer store = from_cache later store answer (fresh_cache now store)

abbrev found_in :
    String
    → Result AccountLookupError (Dict ManagedAccount)
    → Result AccountLookupError (Option ManagedAccount)
unfolding lookup strip
found_in id (ok accounts) = ok (lookup (strip id) accounts)
found_in id (err e) = err e

unfoldable pub get :
    String
    → ℕ
    → ℕ
    → Result String (List AccountSummary)
    → AccountStore
    → Result AccountLookupError (Option ManagedAccount) × AccountStore
unfolding current found_in
get id now later answer store =
    let (r, store') = current now later answer store in (found_in id r, store')
