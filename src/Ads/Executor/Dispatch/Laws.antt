-- ===== src/Ads/Executor/Dispatch/Laws.antt =====
-- When the request is made again without the manager, and which operations have a handler.
use gads_write_mcp.Base.{
  String, ◌≡◌, refl, sym, ◌≢◌, ◌⊎◌, inl, inr, Bool, true, false, ◌&&◌, ◌||◌, List, [], ◌∷◌, str_eq,
  Result, err, Bool-cases, Result-cases, Option-cases, is_some, eq_iff,
}
use mathlib.Core.Path.{subst}
use mathlib.Core.Bool.{and-eq-true_iff}
use gads_write_mcp.Base.Dict.{lookup}
use gads_write_mcp.Python.Text.{Runtime, one_of}
use gads_write_mcp.Tools.Confirm.{MutationRequest, MutationResult}
use gads_write_mcp.Tools.Registry.Laws.{all_entries, lookup-all_entries}
use gads_write_mcp.Ads.Executor.{ExecutorError, rejected, uncaught, contains}
use gads_write_mcp.Ads.Executor.Masks.{known_operations}
use gads_write_mcp.Ads.Executor.Dispatch.{
  Google, handlers, error_text, run, is_permission_error, dispatch,
}

agree : (a b : Bool) → (a ≡ true → b ≡ true) → (b ≡ true → a ≡ true) → a ≡ b
agree true b there back = sym (there refl)
agree false true there back = back refl
agree false false there back = refl

-- A test that all texts of a list pass is passed by each of them.
abbrev all_texts : (String → Bool) → List String → Bool
all_texts p [] = true
all_texts p (x ∷ xs) = p x && all_texts p xs

one_of-all_texts :
    (p : String → Bool) (s : String) (xs : List String)
    → all_texts p xs ≡ true
    → one_of s xs ≡ true
    → p s ≡ true
unfolding one_of
one_of-all_texts p s [] all h = cc
one_of-all_texts p s (x ∷ xs) all h =
    let (here, later) = (and-eq-true_iff (p x) (all_texts p xs)).0 all in
    elim (Bool-cases (str_eq s x)) [
      | inl same ↦ subst (λ t. p t ≡ true) (sym ((eq_iff s x).0 same)) here
      | inr differs ↦ one_of-all_texts p s xs later (rw differs at h)
    ]

module _ ⦃py : Runtime⦄ where
  handlers_known : all_entries (λ name h. one_of name known_operations) handlers ≡ true
  unfolding one_of
  handlers_known = refl

  known_handled : all_texts (λ name. is_some (lookup name handlers)) known_operations ≡ true
  unfolding lookup
  known_handled = refl

  -- For every name: there is a handler exactly if it is a known operation.
  pub handlers-known_operations :
      (name : String) → is_some (lookup name handlers) ≡ one_of name known_operations
  handlers-known_operations name =
      agree (is_some (lookup name handlers)) (one_of name known_operations)
        (λ h. elim (Option-cases (lookup name handlers)) [
          | inl missing ↦ cc (rw missing at h)
          | inr (handler, found) ↦
              lookup-all_entries (λ k v. one_of k known_operations) handlers name handler
                handlers_known found
        ])
        (one_of-all_texts (λ k. is_some (lookup k handlers)) name known_operations known_handled)

  -- The text of an error speaks of permissions, in either of the words that are looked for.
  abbrev pub SpeaksOfPermissions : Google → ExecutorError → Type 0
  SpeaksOfPermissions google e =
      (contains "PERMISSION_DENIED" (py.upper (error_text google e)) ≡ true)
      ⊎ (contains "USER_PERMISSION_DENIED" (py.upper (error_text google e)) ≡ true)

  either : (a b : Bool) → a || b ≡ true → (a ≡ true) ⊎ (b ≡ true)
  either true b h = inl refl
  either false b h = inr h

  neither : (a b : Bool) → a || b ≡ false → (a ≡ true) ⊎ (b ≡ true) → ⊥
  neither true b h x = cc
  neither false b h (inl x) = cc
  neither false b h (inr x) = cc (h, x)

  refusal :
      (google : Google) (e : ExecutorError)
      → is_permission_error google e ≡ true
      → ((name : String) → e ≢ uncaught name) × SpeaksOfPermissions google e
  unfolding is_permission_error
  refusal google (uncaught name) h = cc
  refusal google (rejected text) h = (λ name same. cc, either _ _ h)
  refusal google e h = (λ name same. cc, either _ _ h)

  no_refusal :
      (google : Google) (e : ExecutorError)
      → is_permission_error google e ≡ false
      → SpeaksOfPermissions google e
      → (name : String) × (e ≡ uncaught name)
  unfolding is_permission_error
  no_refusal google (uncaught name) h x = (name, refl)
  no_refusal google (rejected text) h x = absurd (neither _ _ h x)
  no_refusal google e h x = absurd (neither _ _ h x)

  -- The answer is that of the first attempt, and if it is an error whose text speaks of permissions,
  -- one of a class that is not caught; or it is that of the second, after a first that was caught and
  -- spoke of permissions.
  abbrev pub IsAnswered : Google → MutationRequest → Result ExecutorError MutationResult → Type 0
  IsAnswered google request answer =
      ((answer ≡ run google.through_manager request)
        × ((e : ExecutorError)
            → answer ≡ err e
            → SpeaksOfPermissions google e
            → (name : String) × (e ≡ uncaught name)))
      ⊎ ((e : ExecutorError) × (run google.through_manager request ≡ err e)
          × ((name : String) → e ≢ uncaught name)
          × SpeaksOfPermissions google e
          × (answer ≡ run google.directly request))

  -- A request is answered as the client behind the manager answers it, unless that is an error of a
  -- class that is caught whose text in upper case contains PERMISSION_DENIED or USER_PERMISSION_DENIED:
  -- then, and only then, it is answered as the client without the manager answers it.
  pub dispatch-IsAnswered :
      (google : Google) (request : MutationRequest)
      → IsAnswered google request (dispatch google request)
  unfolding dispatch
  dispatch-IsAnswered google request = elim (Result-cases (run google.through_manager request)) [
    | inl (result, h) ↦ rw h (inl (refl, λ e same spoken. cc))
    | inr (e, h) ↦ elim (Bool-cases (is_permission_error google e)) [
      | inl refused ↦
          let (caught, spoken) = refusal google e refused in
          rw (h, refused) (inr (e, refl, caught, spoken, refl))
      | inr passed_on ↦
          rw (h, passed_on)
            (inl (refl, λ e' same spoken. no_refusal google e' (cc (same, passed_on)) spoken))
    ]
  ]
