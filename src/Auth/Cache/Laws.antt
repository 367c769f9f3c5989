-- ===== src/Auth/Cache/Laws.antt =====
-- The cache may forget an answer and never makes one up; it stays within its bound.
use gads_write_mcp.Base.{
  ℕ, ◌+◌, ◌≤◌, ◌<◌, String, ◌≡◌, refl, inl, inr, Bool, true, false, ◌&&◌, Option, none, some, List,
  [], ◌∷◌, arith, length, str_eq, eq_iff, if◌then◌else◌, Bool-cases, ◌↔◌, ap,
}
use gads_write_mcp.Auth.Tiers.{Tier}
use gads_write_mcp.Auth.Cache.{
  max_cache_entries, Key, key_of, same_key, Entry, TierCache, find, store, keep, make_room, put,
}

pub find-store :
    (k j : Key) (e : Entry) (es : List (Key × Entry))
    → find j (store k e es) ≡ (if same_key k j then some e else find j es)
unfolding find store
find-store k j e [] = refl
find-store k j e ((i, d) ∷ es) = ground (
  arith,
  eq_iff i.email k.email,
  eq_iff i.account k.account,
  eq_iff i.email j.email,
  eq_iff i.account j.account,
  eq_iff k.email j.email,
  eq_iff k.account j.account,
  find-store k j e es,
)

length-store :
    (k : Key) (e : Entry) (es : List (Key × Entry)) → length (store k e es) ≤ length es + 1
unfolding store
length-store k e [] = omega arith
length-store k e ((i, d) ∷ es) = ground (arith, length-store k e es)

length-make_room :
    (now : ℕ) (es : List (Key × Entry)) → length (make_room now es) < max_cache_entries
unfolding make_room
length-make_room now es = ground arith

-- Writing to a cache of at most 2000 entries leaves at most 2000.
pub put-bounded :
    (email : String) (customer_id : Option String) (tier : Tier) (now : ℕ) (cache : TierCache)
    → length cache.entries ≤ max_cache_entries
    → length (put email customer_id tier now cache).entries ≤ max_cache_entries
unfolding put
put-bounded email customer_id tier now cache h =
    let room = length-make_room now cache.entries in
    ground (
      arith,
      length-store (key_of email customer_id) (record { tier = tier; expires_at = now + cache.ttl })
          (make_room now cache.entries),
    )

-- No key stands twice.
abbrev pub HasDistinctKeys : List (Key × Entry) → Type 0
HasDistinctKeys [] = Unit
HasDistinctKeys ((k, e) ∷ es) = (find k es ≡ none) × HasDistinctKeys es

pub same_key-eq : (j k : Key) → same_key j k ≡ true → j ≡ k
same_key-eq j k h = same (eq_iff j.email k.email) (eq_iff j.account k.account)
  where
    same :
        (str_eq j.email k.email ≡ true) ↔ (j.email ≡ k.email)
        → (str_eq j.account k.account ≡ true) ↔ (j.account ≡ k.account)
        → j ≡ k
    same e a =
        let (l, r) = both (str_eq j.email k.email) (str_eq j.account k.account) h in
        cc (e.0 l, a.0 r)
      where
        both : (a b : Bool) → a && b ≡ true → (a ≡ true) × (b ≡ true)
        both a b h = ground arith

find_same : (j k : Key) (es : List (Key × Entry)) → same_key j k ≡ true → find j es ≡ find k es
find_same j k es h = ap (λ x. find x es) (same_key-eq j k h)

pub find-keep :
    (p : Key → Entry → Bool) (k : Key) (es : List (Key × Entry)) (e : Entry)
    → HasDistinctKeys es
    → find k (keep p es) ≡ some e
    → (find k es ≡ some e) × (p k e ≡ true)
unfolding find keep
find-keep p k [] e w h = cc
find-keep p k ((j, d) ∷ es) e (fresh, w) h = elim (Bool-cases (same_key j k)) [
  | inl same ↦ elim (Bool-cases (p j d)) [
    | inl kept ↦ head (same_key-eq j k same) kept (rw (kept, same) at h) same
    | inr gone ↦
        let (f, q) = find-keep p k es e w (rw gone at h) in cc (find_same j k es same, f, fresh)
  ]
  | inr other ↦ elim (Bool-cases (p j d)) [
    | inl kept ↦ let (f, q) = find-keep p k es e w (rw (kept, other) at h) in (rw other f, q)
    | inr gone ↦ let (f, q) = find-keep p k es e w (rw gone at h) in (rw other f, q)
  ]
]
  where
    head :
        j ≡ k
        → p j d ≡ true
        → some d ≡ some e
        → same_key j k ≡ true
        → ((if same_key j k then some d else find k es) ≡ some e) × (p k e ≡ true)
    head a b c same = (rw same c, cc)

pub keep-HasDistinctKeys :
    (p : Key → Entry → Bool) (es : List (Key × Entry))
    → HasDistinctKeys es
    → HasDistinctKeys (keep p es)
unfolding keep
keep-HasDistinctKeys p [] w = tt
keep-HasDistinctKeys p ((k, e) ∷ es) (fresh, w) = elim (Bool-cases (p k e)) [
  | inr gone ↦ rw gone (keep-HasDistinctKeys p es w)
  | inl kept ↦ rw kept (absent (find k (keep p es)) refl, keep-HasDistinctKeys p es w)
]
  where
    absent : (o : Option Entry) → find k (keep p es) ≡ o → find k (keep p es) ≡ none
    absent none h = h
    absent (some d) h = let (f, q) = find-keep p k es d w h in cc

pub store-HasDistinctKeys :
    (k : Key) (e : Entry) (es : List (Key × Entry))
    → HasDistinctKeys es
    → HasDistinctKeys (store k e es)
unfolding store find
store-HasDistinctKeys k e [] w = (refl, tt)
store-HasDistinctKeys k e ((j, d) ∷ es) (fresh, w) = elim (Bool-cases (same_key j k)) [
  | inl same ↦ rw same (fresh, w)
  | inr other ↦ rw other (later other, store-HasDistinctKeys k e es w)
]
  where
    differs : (i l : Key) → same_key i l ≡ false → same_key l i ≡ false
    differs i l h = ground (
      arith,
      eq_iff i.email l.email,
      eq_iff i.account l.account,
      eq_iff l.email i.email,
      eq_iff l.account i.account,
    )

    later : same_key j k ≡ false → find j (store k e es) ≡ none
    later other = rw (find-store k j e es, differs j k other) fresh
