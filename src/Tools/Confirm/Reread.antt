-- ===== src/Tools/Confirm/Reread.antt =====
-- What is known of the account when a change is confirmed: the entity as it was read on the way,
-- after the caller was authorised.
use gads_write_mcp.Base.{
  String, ◌≡◌, refl, sym, ◌∙◌, ◌⊎◌, inl, inr, Option, none, some, Result, ok, err, Bool-cases,
  str_eq, eq_iff,
}
use gads_write_mcp.Python.Text.{Runtime}
use gads_write_mcp.Safety.Guard.{Denial, GuardDecision, GuardRequest}
use gads_write_mcp.Safety.Guard.Audited.{check-answer}
use gads_write_mcp.Safety.Guard.Order.{IsPermitted, decide_sound}
use gads_write_mcp.Safety.Plans.{Plan}
use gads_write_mcp.Tools.Confirm.{
  State, OperationChecks, ReadKind, no_read, campaign, ad_group, keyword, Reader, World,
  authorising, reading, id_of, read_entity, read_current, read_step, authorise_request, ask_gate,
  reread_kind, reread,
}
use gads_write_mcp.Tools.Confirm.Passed.{bind-ok, ask_gate-ok}

module _ {Current : Type 0} where
  -- What the reader of the account answers about the entity; none where its id, or for a keyword its
  -- ad group's, is not among the arguments.
  abbrev pub IsReadNow :
      Reader Current
      → ReadKind
      → (customer_id entity_id ad_group_id : String) → Option Current
      → Type 0
  IsReadNow rd no_read c id group current = current ≡ none
  IsReadNow rd campaign c id group current =
      ((id ≡ "") × (current ≡ none)) ⊎ (rd.campaign_by_id c id ≡ ok current)
  IsReadNow rd ad_group c id group current =
      ((id ≡ "") × (current ≡ none)) ⊎ (rd.ad_group_by_id c id ≡ ok current)
  IsReadNow rd keyword c id group current =
      (((id ≡ "") ⊎ (group ≡ "")) × (current ≡ none)) ⊎ (rd.keyword_by_id c group id ≡ ok current)

module _ {Current : Type 0} ⦃py : Runtime⦄ where
  unread :
      (rd : Reader Current) (k : ReadKind) (c id group : String) (current : Option Current)
      → id ≡ ""
      → ◌≡◌ {A = Result String (Option Current)} (ok none) (ok current)
      → IsReadNow rd k c id group current
  unread rd no_read c id group current empty h = cc
  unread rd campaign c id group current empty h = inl (empty, cc)
  unread rd ad_group c id group current empty h = inl (empty, cc)
  unread rd keyword c id group current empty h = inl (inl empty, cc)

  read_entity-IsReadNow :
      (rd : Reader Current) (k : ReadKind) (c id group : String) (current : Option Current)
      → read_entity rd k c id group ≡ ok current
      → IsReadNow rd k c id group current
  read_entity-IsReadNow rd no_read c id group current h = cc
  read_entity-IsReadNow rd campaign c id group current h = inr h
  read_entity-IsReadNow rd ad_group c id group current h = inr h
  read_entity-IsReadNow rd keyword c id group current h = elim (Bool-cases (str_eq group "")) [
    | inl bare ↦ let h' = rw bare at h in inl (inr ((eq_iff group "").0 bare), cc)
    | inr named ↦ inr (rw named at h)
  ]

  read_current-IsReadNow :
      (rd : Reader Current) (checks : OperationChecks Current) (plan : Plan)
      (current : Option Current)
      → read_current rd checks plan.customer_id plan.arguments ≡ ok current
      → IsReadNow rd checks.reads plan.customer_id
          (id_of plan.arguments checks.id_argument)
          (id_of plan.arguments "ad_group_id")
          current
  unfolding read_current
  read_current-IsReadNow rd checks plan current h =
      let id = id_of plan.arguments checks.id_argument in
      let group = id_of plan.arguments "ad_group_id" in
      elim (Bool-cases (str_eq id "")) [
        | inl bare ↦
            unread rd checks.reads plan.customer_id id group current ((eq_iff id "").0 bare)
              (rw bare at h)
        | inr named ↦
            read_entity-IsReadNow rd checks.reads plan.customer_id id group current (rw named at h)
      ]

module _ {Current : Type 0} ⦃py : Runtime⦄ (describe : Denial → String) (w : World Current) where
  -- The caller has passed the gate for the plan's tool and account, and then the entity was read.
  pub record IsAuthorisedRead (checks : OperationChecks Current) (plan : Plan) (st : State)
      (current : Option Current) (st' : State) : Type 0 where
    pub request : GuardRequest
    pub caller : request.caller ≡ some w.caller
    pub tool : request.tool ≡ plan.tool
    pub account : request.customer_id ≡ some plan.customer_id
    pub decision : GuardDecision
    pub authorised :
        IsPermitted w.authorise_services request
          (w.meanwhile authorising st).log
          decision.tier
          decision.policy
    pub before_reading : State
    pub kept : before_reading.store ≡ (w.meanwhile authorising st).store
    pub was_read :
        IsReadNow w.reader checks.reads plan.customer_id
          (id_of plan.arguments checks.id_argument)
          (id_of plan.arguments "ad_group_id")
          current
    pub later : st' ≡ w.meanwhile reading before_reading

  -- The entity as it is now: nothing where the tool has absolute rules.
  abbrev pub IsReread :
      ReadKind → OperationChecks Current → Plan → State → Option Current → State → Type 0
  IsReread no_read checks plan st current st' = (current ≡ none) × (st' ≡ st)
  IsReread campaign checks plan st current st' = IsAuthorisedRead checks plan st current st'
  IsReread ad_group checks plan st current st' = IsAuthorisedRead checks plan st current st'
  IsReread keyword checks plan st current st' = IsAuthorisedRead checks plan st current st'

  read_step-ok :
      (x : Result String (Option Current)) (st st' : State) (current : Option Current)
      → read_step describe w x st ≡ (ok current, st')
      → (x ≡ ok current) × (st' ≡ w.meanwhile reading st)
  read_step-ok (err exc) st st' current h = cc
  read_step-ok (ok c) st st' current h = (cc, cc)

  authorised_read :
      (checks : OperationChecks Current) (plan : Plan) (st st' : State) (current : Option Current)
      → reread_kind describe w campaign checks plan st ≡ (ok current, st')
      → IsAuthorisedRead checks plan st current st'
  unfolding reread_kind
  authorised_read checks plan st st' current e =
      let q = authorise_request describe w plan in
      bind-ok (ask_gate describe w w.authorise_services authorising q) _ st st' current e
        (λ d mid asked answered.
          let (through, allowed, kept) =
            ask_gate-ok describe w w.authorise_services authorising q st mid d asked in
          let (read, later) =
            read_step-ok (read_current w.reader checks plan.customer_id plan.arguments) mid st'
              current answered in
          record {
            request = q;
            caller = refl;
            tool = refl;
            account = refl;
            decision = d;
            authorised =
                decide_sound w.authorise_services q (w.meanwhile authorising st).log d
                  (sym (
                      check-answer describe w.authorise_services q (w.meanwhile authorising st).log)
                    ∙ through)
                  allowed;
            before_reading = mid;
            kept = kept;
            was_read = read_current-IsReadNow w.reader checks plan current read;
            later = later;
          })

  pub reread-ok :
      (checks : OperationChecks Current) (plan : Plan) (st st' : State) (current : Option Current)
      → reread describe w checks plan st ≡ (ok current, st')
      → IsReread checks.reads checks plan st current st'
  unfolding reread reread_kind
  reread-ok checks plan st st' current e = by_kind checks.reads e
    where
      by_kind :
          (k : ReadKind)
          → reread_kind describe w k checks plan st ≡ (ok current, st')
          → IsReread k checks plan st current st'
      by_kind no_read e = (cc, cc)
      by_kind campaign e = authorised_read checks plan st st' current e
      by_kind ad_group e = authorised_read checks plan st st' current e
      by_kind keyword e = authorised_read checks plan st st' current e
