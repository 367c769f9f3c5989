-- ===== src/Safety/Audit/Redaction.antt =====
-- What a redacted value can hold.
use gads_write_mcp.Base.{
  ℕ, zero, suc, ◌+◌, ◌≤◌, String, ◌≡◌, refl, true, arith, ltb, Bool-cases, if◌then◌else◌, inl, inr,
}
use gads_write_mcp.Python.Value.{Value, str, seq, dict, Items, nil, cons, Fields, end, field}
use gads_write_mcp.Python.Text.{Runtime}
use gads_write_mcp.Safety.Audit.{
  is_sensitive, redacted, redact, redact_items, redact_fields, items_length, max_sequence_items,
}

module _ ⦃py : Runtime⦄ where
  -- At every depth, the value of a key that looks like a credential is the mark, and no sequence
  -- has more than 51 items.
  mutual
    pub IsClean : Value → Type 0
    IsClean (dict fs) = AreClean fs
    IsClean (seq xs) = (items_length xs ≤ 51) × Each xs
    IsClean _ = Unit

    pub Each : Items → Type 0
    Each nil = Unit
    Each (cons v vs) = IsClean v × Each vs

    pub AreClean : Fields → Type 0
    AreClean end = Unit
    AreClean (field k v fs) = (is_sensitive k ≡ true → v ≡ str redacted) × IsClean v × AreClean fs

  redact_items-length :
      (depth room : ℕ) (xs : Items) → items_length (redact_items depth room xs) ≤ suc room
  unfolding redact
  redact_items-length depth zero nil = omega arith
  redact_items-length depth (suc room) nil = omega arith
  redact_items-length depth zero (cons v vs) = omega arith
  redact_items-length depth (suc room) (cons v vs) =
      omega (arith, redact_items-length depth room vs)

  IsClean-field :
      (k : String) (v : Value)
      → IsClean v
      → (is_sensitive k ≡ true → (if is_sensitive k then str redacted else v) ≡ str redacted)
        × IsClean (if is_sensitive k then str redacted else v)
  unfolding IsClean
  IsClean-field k v clean = elim (Bool-cases (is_sensitive k)) [
    | inl secret ↦ rw secret (λ _. refl, tt)
    | inr plain ↦ rw plain (λ h. cc, clean)
  ]

  mutual
    unfolding IsClean redact

    clean : (depth : ℕ) (v : Value) → IsClean (redact depth v)
    clean depth (dict fs) = elim (Bool-cases (ltb 6 depth)) [
      | inl deep ↦ rw deep tt
      | inr near ↦ rw near (clean_fields depth fs)
    ]
    clean depth (seq xs) = elim (Bool-cases (ltb 6 depth)) [
      | inl deep ↦ rw deep tt
      | inr near ↦
          rw near (
            redact_items-length depth max_sequence_items xs,
            clean_items depth max_sequence_items xs,
          )
    ]
    clean depth (str s) = elim (Bool-cases (ltb 6 depth)) [ inl h ↦ rw h tt | inr h ↦ rw h tt ]
    clean depth v = elim (Bool-cases (ltb 6 depth)) [ inl h ↦ rw h tt | inr h ↦ rw h tt ]

    clean_items : (depth room : ℕ) (xs : Items) → Each (redact_items depth room xs)
    clean_items depth zero nil = tt
    clean_items depth (suc room) nil = tt
    clean_items depth zero (cons v vs) = (tt, tt)
    clean_items depth (suc room) (cons v vs) = (clean (depth + 1) v, clean_items depth room vs)

    clean_fields : (depth : ℕ) (fs : Fields) → AreClean (redact_fields depth fs)
    clean_fields depth end = tt
    clean_fields depth (field k v fs) =
        let (marked, inside) = IsClean-field k (redact (depth + 1) v) (clean (depth + 1) v) in
        (marked, inside, clean_fields depth fs)

  -- In what redact returns, for any value it is given: at every depth, the value of a key that looks
  -- like a credential is the mark `[redacted]`, and no sequence has more than 51 items.
  pub redact-IsClean : (v : Value) → IsClean (redact 0 v)
  redact-IsClean v = clean 0 v
