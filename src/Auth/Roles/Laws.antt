-- ===== src/Auth/Roles/Laws.antt =====
-- Which table of overrides is in force.
use gads_write_mcp.Base.{
  String, ◌≡◌, refl, Bool, true, false, Option, none, some, List, [], ◌∷◌, if◌then◌else◌, Result,
  ok, err, ◌⊎◌, inl, inr, ◌∙◌, All,
}
use gads_write_mcp.Auth.Tiers.{Tier}
use gads_write_mcp.Python.Text.{Runtime}
use gads_write_mcp.Auth.Roles.{
  RoleConfigError, RoleTable, Stamp, RoleStore, Look, same_stamp, load, reloaded, look_again,
  current_table, override_for,
}

module _ ⦃py : Runtime⦄ where
  -- The store after a history of calls, the latest first.
  unfoldable pub after_looks : List Look → RoleStore → RoleStore
  unfolding current_table
  after_looks [] store = store
  after_looks (l ∷ ls) store = (current_table l (after_looks ls store)).1

  -- A look at the file that could be loaded to this table.
  abbrev pub WasLoaded : RoleTable → List Look → Type 0
  WasLoaded table [] = ⊥
  WasLoaded table (l ∷ ls) = (load l.file ≡ ok table) ⊎ WasLoaded table ls

  look-table :
      (l : Look) (store : RoleStore)
      → ((current_table l store).1.table ≡ store.table)
        ⊎ (load l.file ≡ ok (current_table l store).1.table)
  unfolding current_table
  look-table l store = by_stamp l.seen
    where
      by_load :
          (s : Stamp) (r : Result RoleConfigError RoleTable)
          → ((reloaded s store r).table ≡ store.table) ⊎ (r ≡ ok (reloaded s store r).table)
      by_load s (err e) = inl refl
      by_load s (ok t) = inr refl

      by_choice :
          (s : Stamp) (b : Bool)
          → ((if b then store else reloaded s store (load l.file)).table ≡ store.table)
            ⊎ (load l.file ≡ ok (if b then store else reloaded s store (load l.file)).table)
      by_choice s true = inl refl
      by_choice s false = by_load s (load l.file)

      by_stamp :
          (seen : Option Stamp)
          → ((look_again seen l.file store).table ≡ store.table)
            ⊎ (load l.file ≡ ok (look_again seen l.file store).table)
      by_stamp none = inl refl
      by_stamp (some s) = by_choice s (same_stamp s store.stamp)

  -- After any history of looks at the file, the table in force is the one of the start or one that
  -- a file seen in one of the looks loads to, whole.
  pub after_looks-WasLoaded :
      (ls : List Look) (store : RoleStore)
      → ((after_looks ls store).table ≡ store.table) ⊎ WasLoaded (after_looks ls store).table ls
  unfolding after_looks
  after_looks-WasLoaded [] store = inl refl
  after_looks-WasLoaded (l ∷ ls) store =
      joined (after_looks ls store) (after_looks-WasLoaded ls store)
        (look-table l (after_looks ls store))
    where
      joined :
          (old : RoleStore)
          → (old.table ≡ store.table) ⊎ WasLoaded old.table ls
          → ((current_table l old).1.table ≡ old.table)
            ⊎ (load l.file ≡ ok (current_table l old).1.table)
          → ((current_table l old).1.table ≡ store.table)
            ⊎ ((load l.file ≡ ok (current_table l old).1.table)
                ⊎ WasLoaded (current_table l old).1.table ls)
      joined old before (inr now) = inr (inl now)
      joined old (inl start) (inl same) = inl (same ∙ start)
      joined old (inr was) (inl same) = inr (inr (rw same was))

  removed-same : (l : Look) (store : RoleStore) → l.seen ≡ none → (current_table l store).1 ≡ store
  unfolding current_table
  removed-same l store h = rw h refl

  after_looks-removed :
      (ls : List Look) (store : RoleStore)
      → All (λ l. l.seen ≡ none) ls
      → after_looks ls store ≡ store
  unfolding after_looks
  after_looks-removed [] store all = refl
  after_looks-removed (l ∷ ls) store (gone, all) =
      removed-same l (after_looks ls store) gone ∙ after_looks-removed ls store all

  -- Through any number of looks that do not find the file, whoever has an override keeps it.
  pub override_for-removed :
      (ls : List Look) (store : RoleStore) (email : String) (tier : Tier)
      → All (λ l. l.seen ≡ none) ls
      → override_for store.table email ≡ some tier
      → override_for (after_looks ls store).table email ≡ some tier
  override_for-removed ls store email tier all h = rw (after_looks-removed ls store all) h
