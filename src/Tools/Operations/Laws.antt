-- ===== src/Tools/Operations/Laws.antt =====
-- What every row of the table checks, and which tools have a row.
use gads_write_mcp.Base.{
  String, ◌≡◌, refl, sym, ap, inl, inr, Bool, true, false, not, ◌&&◌, ◌||◌, some, List, [], ◌∷◌,
  ◌++◌, str_eq, Result, ok, err, ◌>>=◌, Bool-cases, Option-cases, is_some,
}
use gads_write_mcp.Base.Dict.{Dict, lookup}
use gads_write_mcp.Python.Text.{Runtime, stripped_text, any_char, is_digits, char_count}
use gads_write_mcp.Python.Value.{Arguments, str, get, get_or}
use gads_write_mcp.Safety.Policy.{Policy}
use gads_write_mcp.Safety.Units.{Raised}
use gads_write_mcp.Safety.Validators.{Problem, named}
use gads_write_mcp.Safety.Validators.Accepted.{append-ok}
use gads_write_mcp.Safety.Validators.Accepted.Texts.{validate_customer_id-valid}
use gads_write_mcp.Safety.Validators.Text.{is_dash}
use mathlib.Core.Path.{subst}
use gads_write_mcp.Tools.Registry.{
  ToolSpec, spec_or, unknown_tool_spec, registry, spec_for, is_registered,
}
use gads_write_mcp.Tools.Registry.Laws.{all_entries, lookup-all_entries}
use gads_write_mcp.Tools.Operations.{ToolChecks, operations}
use gads_write_mcp.Tools.Operations.Validation.{
  Validator, account_problems, ad_problems, amount_argument, validate_campaign_status_args,
  validate_ad_group_status_args, validate_keyword_status_args, validate_keyword_bid_args,
  validate_ad_status_args, validate_update_campaign_args, validate_budget_args,
  validate_negative_keyword_args, validate_keyword_args, validate_bid_args, validate_rsa_args,
  validate_create_ad_group_args, validate_location_target_args, validate_create_campaign_args,
}

-- A tool that changes something by way of a draft.
abbrev pub drafts : String → Bool
unfolding spec_for is_registered
drafts name = is_registered name && ((spec_for name).writes && not (spec_for name).applies_plan)

some_inj : {A : Type 0} {a b : A} → some a ≡ some b → a ≡ b
some_inj h = cc

ok_inj : {E A : Type 0} {a b : A} → ◌≡◌ {A = Result E A} (ok a) (ok b) → a ≡ b
ok_inj h = cc

agree : (a b : Bool) → (a ≡ true → b ≡ true) → (b ≡ true → a ≡ true) → a ≡ b
agree true b there back = sym (there refl)
agree false true there back = back refl
agree false false there back = refl

and-parts : (a b : Bool) → a && b ≡ true → (a ≡ true) × (b ≡ true)
and-parts true b h = (refl, h)
and-parts false b h = cc

either : (a b : Bool) → not a || b ≡ true → a ≡ true → b ≡ true
either true b h e = h
either false b h e = cc

-- A predicate of the values of a dict.
abbrev pub AllRows {ℓ} : {V : Type ℓ} → (V → Type 0) → Dict V → Type 0
AllRows P [] = Unit
AllRows P ((k, v) ∷ d) = P v × AllRows P d

pub lookup-AllRows {ℓ} :
    {V : Type ℓ} (P : V → Type 0) (d : Dict V) (k : String) (v : V)
    → AllRows P d
    → lookup k d ≡ some v
    → P v
unfolding lookup
lookup-AllRows P [] k v all found = cc
lookup-AllRows P ((j, w) ∷ d) k v (here, all) found = elim (Bool-cases (str_eq j k)) [
  | inl same ↦ subst P (some_cong (rw same at found)) here
  | inr differs ↦ lookup-AllRows P d k v all (rw differs at found)
]
  where
    some_cong : some w ≡ some v → w ≡ v
    some_cong h = cc

first-ok :
    (ps qs : List Problem)
    → ◌≡◌ {A = Result Raised (List Problem)} (ok (ps ++ qs)) (ok [])
    → ps ≡ []
first-ok ps qs h = (append-ok ps qs (ok_inj h)).0

front : (ps qs rs : List Problem) → ps ++ qs ++ rs ≡ [] → ps ≡ []
front ps qs rs h = (append-ok ps qs (append-ok (ps ++ qs) rs h).0).0

front-ok :
    (ps qs rs : List Problem)
    → ◌≡◌ {A = Result Raised (List Problem)} (ok (ps ++ qs ++ rs)) (ok [])
    → ps ≡ []
front-ok ps qs rs h = front ps qs rs (ok_inj h)

bind-first :
    (r : Result Raised (List Problem)) (f : List Problem → List Problem) (A : List Problem)
    → ((ps : List Problem) → f ps ≡ [] → A ≡ [])
    → (r >>= λ ps. ok (f ps)) ≡ ok []
    → A ≡ []
bind-first (ok ps) f A good h = good ps (ok_inj h)
bind-first (err e) f A good h = cc

spec-found :
    (name : String) (spec : ToolSpec) → lookup name registry ≡ some spec → spec_for name ≡ spec
unfolding spec_for
spec-found name spec found = ap (spec_or (unknown_tool_spec name)) found

module _ ⦃py : Runtime⦄ where
  rows_draft : all_entries (λ name row. drafts name) operations ≡ true
  unfolding drafts spec_for is_registered lookup
  rows_draft = refl

  registered_rows :
      all_entries
        (λ name spec.
          not (spec.writes && not spec.applies_plan) || is_some (lookup name operations))
        registry
      ≡ true
  unfolding lookup
  registered_rows = refl

  drafts-row : (name : String) → drafts name ≡ true → is_some (lookup name operations) ≡ true
  unfolding drafts is_registered
  drafts-row name h =
      let (known, changes) = and-parts (is_registered name) _ h in
      elim (Option-cases (lookup name registry)) [
        | inl missing ↦ cc (rw missing at known)
        | inr (spec, found) ↦
            either (spec.writes && not spec.applies_plan) _
              (lookup-all_entries
                (λ k v. not (v.writes && not v.applies_plan) || is_some (lookup k operations))
                registry name spec registered_rows found)
              (rw⁻¹ (spec-found name spec found) changes)
      ]

  -- For every name: the table has a row for it exactly if it is a registered tool that writes and is
  -- not the one that applies plans.
  pub operations-drafts :
      (name : String)
      → is_some (lookup name operations)
        ≡ is_registered name && ((spec_for name).writes && not (spec_for name).applies_plan)
  unfolding drafts
  operations-drafts name =
      agree (is_some (lookup name operations)) (drafts name) there (drafts-row name)
    where
      there : is_some (lookup name operations) ≡ true → drafts name ≡ true
      there h = elim (Option-cases (lookup name operations)) [
        | inl missing ↦ cc (rw missing at h)
        | inr (row, found) ↦
            lookup-all_entries (λ k v. drafts k) operations name row rows_draft found
      ]

  -- What a validator accepts names an account by a ten-digit id.
  abbrev ChecksAccount : Validator → Type 0
  ChecksAccount validate =
      (policy : Policy) (arguments : Arguments)
      → validate policy arguments ≡ ok []
      → account_problems arguments ≡ []

  campaign_status-account : ChecksAccount validate_campaign_status_args
  unfolding validate_campaign_status_args
  campaign_status-account policy arguments h = first-ok _ _ h

  ad_group_status-account : ChecksAccount validate_ad_group_status_args
  unfolding validate_ad_group_status_args
  ad_group_status-account policy arguments h = first-ok _ _ h

  budget-account : ChecksAccount validate_budget_args
  unfolding validate_budget_args
  budget-account policy arguments h = first-ok _ _ h

  bid-account : ChecksAccount validate_bid_args
  unfolding validate_bid_args
  bid-account policy arguments h = first-ok _ _ h

  keyword_status-account : ChecksAccount validate_keyword_status_args
  unfolding validate_keyword_status_args
  keyword_status-account policy arguments h = front-ok _ _ _ h

  keyword_bid-account : ChecksAccount validate_keyword_bid_args
  unfolding validate_keyword_bid_args validate_keyword_status_args
  keyword_bid-account policy arguments h = front-ok _ _ _ h

  ad_status-account : ChecksAccount validate_ad_status_args
  unfolding validate_ad_status_args
  ad_status-account policy arguments h = front-ok _ _ _ h

  update_campaign-account : ChecksAccount validate_update_campaign_args
  unfolding validate_update_campaign_args
  update_campaign-account policy arguments h = front-ok _ _ _ h

  negative_keyword-account : ChecksAccount validate_negative_keyword_args
  unfolding validate_negative_keyword_args
  negative_keyword-account policy arguments h = front-ok _ _ _ h

  keyword-account : ChecksAccount validate_keyword_args
  unfolding validate_keyword_args
  keyword-account policy arguments h = front-ok _ _ _ h

  location_target-account : ChecksAccount validate_location_target_args
  unfolding validate_location_target_args
  location_target-account policy arguments h = front-ok _ _ _ h

  rsa-account : ChecksAccount validate_rsa_args
  unfolding validate_rsa_args
  rsa-account policy arguments h =
      bind-first (ad_problems policy arguments) _ _ (λ ps k. front _ _ _ k) h

  create_ad_group-account : ChecksAccount validate_create_ad_group_args
  unfolding validate_create_ad_group_args
  create_ad_group-account policy arguments h =
      bind-first _ _ _ (λ ps k. front _ _ _ (append-ok _ _ k).0) h

  create_campaign-account : ChecksAccount validate_create_campaign_args
  unfolding validate_create_campaign_args
  create_campaign-account policy arguments h =
      bind-first (amount_argument "daily_budget" (get arguments "daily_budget")) _ _
        (λ ps k. front _ _ _ (append-ok _ _ k).0) h

  rows-account : AllRows (λ row. ChecksAccount row.validate) operations
  rows-account = (
    campaign_status-account,
    (
      campaign_status-account,
      (
        ad_group_status-account,
        (
          ad_group_status-account,
          (
            keyword_status-account,
            (
              keyword_status-account,
              (
                ad_status-account,
                (
                  ad_status-account,
                  (
                    keyword_bid-account,
                    (
                      update_campaign-account,
                      (
                        budget-account,
                        (
                          negative_keyword-account,
                          (
                            create_campaign-account,
                            (
                              create_ad_group-account,
                              (
                                location_target-account,
                                (keyword-account, (bid-account, (rsa-account, tt))),
                              ),
                            ),
                          ),
                        ),
                      ),
                    ),
                  ),
                ),
              ),
            ),
          ),
        ),
      ),
    ),
  )

  -- Whatever tool of the table accepts its arguments, they name an account by ten digits, no dash.
  pub operations-account :
      (tool : String) (row : ToolChecks) (policy : Policy) (arguments : Arguments)
      → lookup tool operations ≡ some row
      → row.validate policy arguments ≡ ok []
      → let text = stripped_text (get_or arguments "customer_id" (str "")) in
        (any_char is_dash text ≡ false) × (is_digits text ≡ true) × (char_count text ≡ 10)
  unfolding account_problems
  operations-account tool row policy arguments found h =
      (validate_customer_id-valid (named "customer_id") (get_or arguments "customer_id" (str ""))).0
        (lookup-AllRows (λ r. ChecksAccount r.validate) operations tool row rows-account found
          policy arguments h)
