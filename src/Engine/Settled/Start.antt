-- ===== src/Engine/Settled/Start.antt =====
-- The start of a call keeps the table.
use calling_integration.Prelude.{
  ℕ, ◌≡◌, refl, sym, ◌∙◌, subst, Bool, true, false, List, [], ◌∷◌, ◌++◌, Option, none, some, Text,
  suc, arith, is_some, not, is_empty, text_eq, codes, if◌then◌else◌, Bool-cases, Option-cases, inl,
  inr,
}
use calling_integration.Directory.{NumberRow, ExtensionRow, row_key, get_outbound_number}
use calling_integration.Calls.{Call, Change, Table, Status, Stamp, get, create, is_terminal}
use calling_integration.Calls.Rows.{get-append, get-own}
use calling_integration.Calls.Keys.{IsKeyed-append}
use calling_integration.Engine.Plan.{Event, Plan}
use calling_integration.Engine.World.{
  World, M, Error, pure, raise, need, get_call, update_call, ◌>>=◌, ◌>>◌,
}
use calling_integration.Engine.Context.{Ctx}
use calling_integration.Engine.Ring.{inbound_no_answer}
use calling_integration.Engine.Legs.{join_legs}
use calling_integration.Engine.Start.{
  create_call, admitted_row, inbound_record, ring_plan, begin_inbound, start_inbound,
  outbound_record, outbound_legs, abandon_outbound, mark_ringing, is_initiated, begin_outbound,
  start_outbound,
}
use calling_integration.Engine.Logic.{
  IsConsistent, IsSound, Stays, Stays-refl, Moves-refl, Quiet, Keeps, Any,
}
use calling_integration.Engine.Logic.Rules.{
  gets-Quiet, pure-Quiet, raise-Quiet, bind-Quiet, attempt-Quiet, option-Quiet, when-Quiet,
  get_call-Quiet, Quiet-Keeps, Quiet-then, keep-then, if-Keeps, option-Keeps, get-then,
  weaken-Keeps, when-Keeps,
}
use calling_integration.Engine.Logic.Branches.{option_need}
use calling_integration.Engine.Logic.Writes.{update-Keeps}
use calling_integration.Engine.Quiet.{
  ask-Quiet, iso_now-Quiet, notify_with-Quiet, notify_crm-Quiet, hangup-Quiet,
  create_outbound_call-Quiet, provider_endpoint-Quiet,
}
use calling_integration.Engine.Settled.Neutral.{neutral-Keeps}
use calling_integration.Engine.Settled.Progress.{progress-Keeps}
use calling_integration.Engine.Settled.Answer.{failed_permitted}
use calling_integration.Engine.Settled.Ring.{
  index_leg-Quiet, ring_legs-Quiet, inbound_no_answer-Keeps,
}
use calling_integration.Engine.Settled.Menu.{start_ivr-Quiet}

-- A row that is inserted: the others stay, and it is consistent itself.
appended :
    (t : Table) (c : Call)
    → get c.call_id t ≡ none
    → IsConsistent c
    → IsSound t
    → IsSound (t ++ c ∷ []) × Stays t (t ++ c ∷ [])
unfolding get
appended t c free k sound = ((IsKeyed-append t c free sound.0, rows), stays)
  where
    same : {a b : Call} → some a ≡ some b → a ≡ b
    same q = cc

    none_left : {a : Call} → none ≡ some a → ⊥
    none_left q = cc

    stays : Stays t (t ++ c ∷ [])
    stays id d h = (d, get-append id t c ∙ rw h refl, Moves-refl d)

    only : (id : Text) (d : Call) → get id (c ∷ []) ≡ some d → IsConsistent d
    only id d h = elim (Bool-cases (text_eq c.call_id id)) [
      | inl u ↦ subst IsConsistent (same (rw u at h)) k
      | inr u ↦ absurd (none_left (rw u at h))
    ]

    rows : (id : Text) (d : Call) → get id (t ++ c ∷ []) ≡ some d → IsConsistent d
    rows id d h = elim (Option-cases (get id t)) [
      | inl e ↦ only id d (sym (rw e at (get-append id t c)) ∙ h)
      | inr (x, e) ↦
          subst IsConsistent (same (sym (rw e at (get-append id t c)) ∙ h)) (sound.1 id x e)
    ]

insert_kept :
    (c : Call) (t : Table) (found : Option Call)
    → get c.call_id t ≡ found
    → IsConsistent c
    → IsSound t
    → let u = (elim (if is_some found then none else some (t ++ c ∷ [])) as (λ _. Table) [
      | none ↦ t
      | some table ↦ table
    ]) in
      IsSound u × Stays t u
insert_kept c t none e k sound = appended t c e k sound
insert_kept c t (some x) e k sound = (sound, Stays-refl t)

table_after :
    (c : Call) (w : World)
    → (create_call c w).1.calls
      ≡ (elim (if is_some (get c.call_id w.calls) then none else some (w.calls ++ c ∷ []))
          as (λ _. Table) [ none ↦ w.calls | some table ↦ table ])
unfolding create_call create
table_after c w = elim (Bool-cases (is_some (get c.call_id w.calls))) [
  | inl u ↦ rw (u, create_call, create)
  | inr u ↦ rw (u, create_call, create)
]

pub create_call-Keeps : (c : Call) → IsConsistent c → Keeps Any (create_call c)
create_call-Keeps c k = record {
  kept = λ w sound p.
      subst (λ t. IsSound t × Stays w.calls t) (sym (table_after c w))
        (insert_kept c w.calls (get c.call_id w.calls) refl k sound);
}

module _ ⦃ctx : Ctx⦄ where
  pub mark_ringing-Keeps : (id : Text) (event : Event) → Keeps Any (mark_ringing id event)
  unfolding mark_ringing
  mark_ringing-Keeps id event = get-then id λ found.
      option-Keeps found (Quiet-Keeps (pure-Quiet tt)) λ current e.
        when-Keeps (is_initiated current.status) λ h.
          keep-then
            (progress-Keeps id Status.ringing [] refl refl
              (λ t p. (current, p.1 ∙ e, initiated_open current.status h)))
            (λ u. Quiet-Keeps (notify_crm-Quiet event u))
    where
      initiated_open : (s : Status) → is_initiated s ≡ true → is_terminal s ≡ false
      initiated_open s h = ground arith

  inbound-IsConsistent :
      (id did extension channel caller : Text) (started : Stamp)
      → IsConsistent (inbound_record id did extension channel caller started)
  unfolding inbound_record
  inbound-IsConsistent id did extension channel caller started = record {
    ended = refl;
    completed = λ e. cc;
    timed = λ e. cc;
    joined = λ e. cc;
  }

  rung_plan :
      (call : Call) (plan : Plan) (legs : List (Text × Text))
      → Keeps Any (elim legs as (λ _. M (Option Call)) [
        | [] ↦ get_call call.call_id >>= λ found. need found >>= λ row.
            inbound_no_answer row plan (codes "inbound_no_ringing_device") >> get_call call.call_id
        | head ∷ others ↦
            update_call call.call_id (
              Change.employee_channel_id (some head.0)
              ∷ Change.employee_channel_ids (join_legs (head ∷ others))
              ∷ [])
            >> get_call call.call_id
      ])
  rung_plan call plan [] = get-then call.call_id λ found. option_need found λ row e.
      keep-then
        (weaken-Keeps (λ t p. get-own call.call_id t row (p.1 ∙ e))
          (inbound_no_answer-Keeps row plan _))
        (λ _. Quiet-Keeps (get_call-Quiet call.call_id))
  rung_plan call plan (head ∷ others) =
      keep-then (neutral-Keeps call.call_id _ refl) (λ _. Quiet-Keeps (get_call-Quiet call.call_id))

  ring_plan-Keeps :
      (call : Call) (plan : Plan) (number extension channel : Text)
      → Keeps Any (ring_plan call plan number extension channel)
  unfolding ring_plan
  ring_plan-Keeps call plan number extension channel =
      Quiet-then (notify_crm-Quiet _ (some call))
        λ _. Quiet-then (ring_legs-Quiet _ _ _ _ _ _) λ legs. rung_plan call plan legs

  begin_inbound-Keeps :
      (did extension channel caller : Text) → Keeps Any (begin_inbound did extension channel caller)
  unfolding begin_inbound
  begin_inbound-Keeps did extension channel caller = Quiet-then (ask-Quiet _) λ id.
      Quiet-then iso_now-Quiet λ started. Quiet-then (ask-Quiet _) λ plan.
        keep-then
          (create_call-Keeps _ (inbound-IsConsistent id did extension channel caller started))
          λ _.
            Quiet-then (notify_crm-Quiet _ (some _)) λ _.
              if-Keeps _ (Quiet-Keeps (start_ivr-Quiet _ channel _)) (ring_plan-Keeps _ _ _ _ _)

  pub start_inbound-Keeps :
      (channel caller did extension : Text) → Keeps Any (start_inbound channel caller did extension)
  unfolding start_inbound
  start_inbound-Keeps channel caller did extension =
      option-Keeps {B = ExtensionRow} (admitted_row did extension)
        (Quiet-then (hangup-Quiet channel) (λ _. Quiet-Keeps (pure-Quiet none)))
        λ row e. if-Keeps (is_empty channel) (Quiet-Keeps (pure-Quiet none)) (
          Quiet-then (gets-Quiet _)
            λ existing. found_or_begun existing did (row_key row) channel caller)
    where
      found_or_begun :
          (existing : Option Call) (did extension channel caller : Text)
          → Keeps Any (elim existing as (λ _. M (Option Call)) [
            | some call ↦ pure (some call)
            | none ↦ begin_inbound did extension channel caller
          ])
      found_or_begun none did extension channel caller =
          begin_inbound-Keeps did extension channel caller
      found_or_begun (some call) did extension channel caller = Quiet-Keeps (pure-Quiet (some call))

  outbound_legs-Quiet :
      (id extension : Text) (index : ℕ) (targets : List Text)
      → Quiet (outbound_legs id extension index targets)
  unfolding outbound_legs
  outbound_legs-Quiet id extension index [] = pure-Quiet _
  outbound_legs-Quiet id extension index (target ∷ targets) =
      bind-Quiet
        (attempt-Quiet
          (bind-Quiet (create_outbound_call-Quiet id extension target index) (λ _. pure-Quiet none))
          (λ e. pure-Quiet (some e)))
        λ failure. bind-Quiet (when-Quiet _ (index_leg-Quiet _ id)) λ _.
          bind-Quiet (outbound_legs-Quiet id extension (suc index) targets) λ rest. pure-Quiet _

  abandon_outbound-Keeps :
      (id : Text) (failure : Option Error) → Keeps Any (abandon_outbound id failure)
  unfolding abandon_outbound
  abandon_outbound-Keeps id failure = get-then id λ found.
      keep-then
        (option-Keeps found (Quiet-Keeps (pure-Quiet tt)) λ current e.
          when-Keeps (not (is_terminal current.status)) λ h. Quiet-then iso_now-Quiet λ ended.
            keep-then
              (update-Keeps id _
                (λ t sound p. failed_permitted id ended t (current, p.1 ∙ e, still _ h)))
              (λ u. Quiet-Keeps (notify_with-Quiet _ u _)))
        (λ _. failed failure)
    where
      still : (b : Bool) → not b ≡ true → b ≡ false
      still true h = sym h
      still false h = refl

      failed :
          (failure : Option Error)
          → Keeps Any (elim failure as (λ _. M Call) [
            | some e ↦ raise e
            | none ↦ raise (Error.runtime_error (codes "Asterisk originate failed"))
          ])
      failed none = Quiet-Keeps (raise-Quiet _)
      failed (some e) = Quiet-Keeps (raise-Quiet e)

  outbound-IsConsistent :
      (id phone extension : Text) (contact member : Option Text) (number provider : Text)
      (started : Stamp)
      → IsConsistent (outbound_record id phone extension contact member number provider started)
  unfolding outbound_record
  outbound-IsConsistent id phone extension contact member number provider started = record {
    ended = refl;
    completed = λ e. cc;
    timed = λ e. cc;
    joined = λ e. cc;
  }

  begin_outbound-Keeps :
      (phone extension : Text) (contact member : Option Text) (source : NumberRow) (provider : Text)
      → Keeps Any (begin_outbound phone extension contact member source provider)
  unfolding begin_outbound
  begin_outbound-Keeps phone extension contact member source provider =
      Quiet-then (ask-Quiet _) λ id. Quiet-then iso_now-Quiet λ started.
        keep-then
          (create_call-Keeps _ (
            outbound-IsConsistent id phone extension contact member source.number provider started))
          λ _. Quiet-then (notify_crm-Quiet _ (some _)) λ _.
            Quiet-then (outbound_legs-Quiet id extension 0 _) λ rung.
              if-Keeps (is_empty rung.0) (abandon_outbound-Keeps id rung.1) (
                keep-then
                  (keep-then (keep-then (neutral-Keeps id _ refl) (λ _. mark_ringing-Keeps id _))
                    (λ _. Quiet-Keeps (get_call-Quiet id)))
                  (λ found. Quiet-Keeps (option-Quiet found (pure-Quiet _) pure-Quiet)))

  pub start_outbound-Keeps :
      (phone extension : Text) (contact member : Option Text) (provider : Text)
      (caller_id : Option Text)
      → Keeps Any (start_outbound phone extension contact member provider caller_id)
  unfolding start_outbound
  start_outbound-Keeps phone extension contact member provider caller_id =
      Quiet-then (ask-Quiet _) λ ready. if-Keeps (not ready) (Quiet-Keeps (raise-Quiet _)) (
        option-Keeps (get_outbound_number ctx.directory extension caller_id)
          (Quiet-Keeps (raise-Quiet _))
          λ source e. if-Keeps _ (Quiet-Keeps (raise-Quiet _)) (
            Quiet-then (provider_endpoint-Quiet source.provider)
              λ p. begin_outbound-Keeps phone extension contact member source p.1))
