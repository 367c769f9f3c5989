-- ===== src/Safety/Accounts/Laws.antt =====
-- Which accounts the store knows: those that Google listed, for as long as the cache is valid or
-- Google does not answer.
use gads_write_mcp.Base.{
  ℕ, ◌+◌, ◌<◌, String, ◌≡◌, refl, ◌≢◌, ◌⊎◌, inl, inr, false, Option, none, some, List, [], ◌∷◌, leb,
  arith, lt→ltb, Result, ok, err, Bool-cases, str_eq, eq_iff, sym, ap, ◌∙◌,
}
use gads_write_mcp.Base.Dict.{Dict, lookup, insert, lookup-insert}
use gads_write_mcp.Python.Text.{strip, is_empty_text}
use gads_write_mcp.Safety.Accounts.{
  ManagedAccount, AccountSummary, AccountLookupError, from_summary, AccountStore, fresh_cache,
  accounts_from, refreshed, from_cache, current, found_in, get,
}

some_inj : {A : Type 0} {a b : A} → some a ≡ some b → a ≡ b
some_inj h = cc

ok_inj : {E A : Type 0} {a b : A} → ◌≡◌ {A = Result E A} (ok a) (ok b) → a ≡ b
ok_inj h = cc

-- One of the summaries of a list.
abbrev pub IsListed : ManagedAccount → List AccountSummary → Type 0
IsListed a [] = ⊥
IsListed a (s ∷ ss) = (a ≡ from_summary s) ⊎ IsListed a ss

leb-false : (a b : ℕ) → b < a → leb a b ≡ false
leb-false a b h = ground arith

accounts_from-lookup :
    (ss : List AccountSummary) (d : Dict ManagedAccount) (id : String) (a : ManagedAccount)
    → lookup id (accounts_from ss d) ≡ some a
    → (IsListed a ss × (a.customer_id ≡ id) × (id ≢ "")) ⊎ (lookup id d ≡ some a)
unfolding accounts_from
accounts_from-lookup [] d id a h = inr h
accounts_from-lookup (s ∷ ss) d id a h =
    let b = from_summary s in
    elim (Bool-cases (is_empty_text b.customer_id)) [
      | inl empty ↦ later d (accounts_from-lookup ss d id a (rw empty at h)) (λ e. inr e)
      | inr named ↦
          later (insert b.customer_id b d)
            (accounts_from-lookup ss (insert b.customer_id b d) id a (rw named at h))
            (λ e. inserted b refl named e)
    ]
  where
    inserted :
        (b : ManagedAccount)
        → b ≡ from_summary s
        → is_empty_text b.customer_id ≡ false
        → lookup id (insert b.customer_id b d) ≡ some a
        → (IsListed a (s ∷ ss) × (a.customer_id ≡ id) × (id ≢ "")) ⊎ (lookup id d ≡ some a)
    inserted b same named e = elim (Bool-cases (str_eq b.customer_id id)) [
      | inl here ↦
          let a_is : b ≡ a = some_inj (rw (lookup-insert b.customer_id id b d, here) at e) in
          let spelled = (eq_iff b.customer_id id).0 here in
          inl (
            inl (sym a_is ∙ same),
            ap (λ (z : ManagedAccount). z.customer_id) (sym a_is) ∙ spelled,
            λ gone. grind (arith, eq_iff b.customer_id ""),
          )
      | inr other ↦ inr (rw (lookup-insert b.customer_id id b d, other) at e)
    ]

    later :
        (d' : Dict ManagedAccount)
        → (IsListed a ss × (a.customer_id ≡ id) × (id ≢ "")) ⊎ (lookup id d' ≡ some a)
        → (lookup id d' ≡ some a
            → (IsListed a (s ∷ ss) × (a.customer_id ≡ id) × (id ≢ "")) ⊎ (lookup id d ≡ some a))
        → (IsListed a (s ∷ ss) × (a.customer_id ≡ id) × (id ≢ "")) ⊎ (lookup id d ≡ some a)
    later d' (inl (listed, spelled, named)) next = inl (inr listed, spelled, named)
    later d' (inr e) next = next e

-- What one query or an earlier one listed: the set that `get` looks an account up in.
abbrev pub IsKnown :
    ManagedAccount
    → String
    → Result String (List AccountSummary)
    → Option (Dict ManagedAccount)
    → Type 0
IsKnown a id answer stored =
    ((ss : List AccountSummary) × (answer ≡ ok ss) × IsListed a ss × (a.customer_id ≡ id))
    ⊎ ((old : Dict ManagedAccount) × (stored ≡ some old) × (lookup id old ≡ some a))

get-found :
    (id : String) (now later : ℕ) (answer : Result String (List AccountSummary))
    (store : AccountStore) (a : ManagedAccount) (f : Option (Dict ManagedAccount))
    → ((x : Dict ManagedAccount) → f ≡ some x → store.accounts ≡ some x)
    → found_in id (from_cache later store answer f).0 ≡ ok (some a)
    → IsKnown a (strip id) answer store.accounts
unfolding found_in from_cache refreshed
get-found id now later answer store a (some cached) stored h =
    inr (cached, stored cached refl, ok_inj h)
get-found id now later answer store a none stored h = asked answer store.accounts h
  where
    listed :
        (ss : List AccountSummary) (o : Option (Dict ManagedAccount))
        → (IsListed a ss × (a.customer_id ≡ strip id) × (strip id ≢ ""))
          ⊎ (◌≡◌ {A = Option ManagedAccount} none (some a))
        → IsKnown a (strip id) (ok ss) o
    listed ss o (inl (l, spelled, named)) = inl (ss, refl, l, spelled)
    listed ss o (inr e) = cc

    asked :
        (r : Result String (List AccountSummary)) (o : Option (Dict ManagedAccount))
        → found_in id (refreshed later store r o).0 ≡ ok (some a)
        → IsKnown a (strip id) r o
    asked (err text) (some stale) h = inr (stale, refl, ok_inj h)
    asked (err text) none h = cc
    asked (ok ss) o h =
        listed ss o (unfolding_lookup (accounts_from-lookup ss [] (strip id) a (ok_inj h)))
      where
        unfolding_lookup :
            {P : Type 0}
            → P ⊎ (lookup (strip id) [] ≡ some a)
            → P ⊎ (◌≡◌ {A = Option ManagedAccount} none (some a))
        unfolding_lookup x = x

fresh_cache-stored :
    (now : ℕ) (store : AccountStore) (x : Dict ManagedAccount)
    → fresh_cache now store ≡ some x
    → (store.accounts ≡ some x) × (now < store.expires_at)
unfolding fresh_cache
fresh_cache-stored now store x h = ground arith

-- An account is managed only if Google listed it, under that id, in this query or in the one whose
-- answer is stored.
pub get-IsKnown :
    (id : String) (now later : ℕ) (answer : Result String (List AccountSummary))
    (store : AccountStore) (a : ManagedAccount)
    → (get id now later answer store).0 ≡ ok (some a)
    → IsKnown a (strip id) answer store.accounts
unfolding get current found_in from_cache refreshed
get-IsKnown id now later answer store a h =
    get-found id now later answer store a (fresh_cache now store)
      (λ x e. (fresh_cache-stored now store x e).0) h

-- What a lookup comes to while Google cannot be asked.
abbrev pub Outage :
    Option (Dict ManagedAccount)
    → AccountStore
    → Result AccountLookupError (Dict ManagedAccount) × AccountStore
    → Type 0
Outage none store x = (x.1 ≡ store) × ((d : Dict ManagedAccount) → x.0 ≢ ok d)
Outage (some old) store x = x ≡ (ok old, store)

outage :
    (later : ℕ) (text : String) (store : AccountStore) (f o : Option (Dict ManagedAccount))
    → store.accounts ≡ o
    → ((x : Dict ManagedAccount) → f ≡ some x → o ≡ some x)
    → Outage o store (from_cache later store (err text) f)
unfolding from_cache refreshed
outage later text store (some x) none e stored = cc (stored x refl)
outage later text store (some x) (some old) e stored =
    ap (λ z. (ok z, store)) (some_inj (sym (stored x refl)))
outage later text store none none e stored = rw e (refl, λ d h. cc)
outage later text store none (some old) e stored = rw e refl

-- If Google cannot be asked, the store stays as it is and the set it holds, however old, is served;
-- where it holds none, what is given is an error and no set of accounts.
pub current-Outage :
    (now later : ℕ) (text : String) (store : AccountStore)
    → Outage store.accounts store (current now later (err text) store)
unfolding current
current-Outage now later text store =
    outage later text store (fresh_cache now store) store.accounts refl
      (λ x e. (fresh_cache-stored now store x e).0)

-- Once a query has been answered, later ones within the cache's time are answered with the same set,
-- whatever Google would say by then.
pub current-cached :
    (now later : ℕ) (ss : List AccountSummary) (store : AccountStore) (now' later' : ℕ)
    (answer : Result String (List AccountSummary))
    → fresh_cache now store ≡ none
    → now' < later + store.ttl
    → 0 < store.ttl
    → current now' later' answer (current now later (ok ss) store).1
      ≡ current now later (ok ss) store
unfolding current from_cache refreshed fresh_cache
current-cached now later ss store now' later' answer stale soon lasting =
    rw
      (
        stale,
        lt→ltb 0 store.ttl lasting,
        leb-false store.ttl 0 lasting,
        leb-false (later + store.ttl) now' soon,
      )
      refl
