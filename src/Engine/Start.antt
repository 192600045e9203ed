-- ===== src/Engine/Start.antt =====
-- A call begins (`_resolve_inbound_extension`, `start_inbound`, `start_outbound`).
use calling_integration.Prelude.{
  ℕ, suc, Bool, true, false, List, [], ◌∷◌, ◌||◌, ◌&&◌, not, Option, none, some, Text, is_empty,
  if◌then◌else◌, codes, is_some, take, text_eq, find, strip, lstrip_plus, is_numeric, or_else, ◌==◌,
}
use calling_integration.Directory.{
  ExtensionRow, NumberRow, row_key, list_extensions, resolve_extension, get_outbound_number,
}
use calling_integration.Calls.{
  Call, Change, Status, Direction, Stamp, create, find_by_channel, is_terminal,
}
use calling_integration.Engine.Plan.{Event, Plan}
use calling_integration.Engine.World.{
  M, Done, Error, ok, raised, pure, done, raise, gets, attempt, need, when, get_call, update_call,
  ◌>>=◌, ◌>>◌,
}
use calling_integration.Engine.Context.{Ctx, ask, iso_now}
use calling_integration.Engine.Asterisk.{hangup, create_outbound_call, employee_leg}
use calling_integration.Engine.Notify.{notify_crm, notify_with, reason}
use calling_integration.Engine.Dial.{dial_endpoints, provider_endpoint}
use calling_integration.Engine.Legs.{join_legs}
use calling_integration.Engine.Ring.{
  ring_legs, ring_seconds, numbered_devices, inbound_no_answer, index_leg,
}
use calling_integration.Engine.Menu.{start_ivr}

-- `INSERT`: the primary key is refused twice.
unfoldable pub create_call : Call → Done
create_call call w = elim (create call w.calls) [
  | none ↦ (raised Error.integrity_error, w)
  | some table ↦ (ok tt, record w { calls = table })
]

-- The two spellings of a number, with and without `+`, are one number.
unfoldable pub same_number : Text → Text → Bool
same_number a b = text_eq (lstrip_plus a) (lstrip_plus b)

-- Another account's number, or another line's extension that is no anchor of this one.
unfoldable pub is_other_account : NumberRow → ExtensionRow → Bool
is_other_account number row = elim number.owner [
  | none ↦ false
  | some a ↦ elim row.owner [ none ↦ false | some b ↦ not (a == b) ]
]

module _ ⦃ctx : Ctx⦄ where
  unfoldable pub called_number : Text → Option NumberRow
  unfolding same_number
  called_number did = find (λ n. same_number n.number did) ctx.directory.numbers

  unfoldable pub resolve_inbound_extension : Text → Text → Option ExtensionRow
  unfolding called_number
  resolve_inbound_extension did extension =
      let wanted = strip extension in
      let exact = find (λ r. text_eq (row_key r) wanted) (list_extensions ctx.directory none) in
      if is_empty wanted
      then none
      else or_else exact (elim (called_number did) [
        | none ↦ none
        | some number ↦
            if is_numeric wanted
            then resolve_extension ctx.directory number.number wanted number.owner
            else none
      ])

  unfoldable pub is_other_line : NumberRow → ExtensionRow → Bool
  is_other_line number row =
      not (is_empty row.number)
      && not (text_eq row.number number.number)
      && not (text_eq (row_key row) (ctx.number_flow_anchor number.number))

  -- The extension that the call may ring: active, and allowed on the number that was called.
  unfoldable pub admitted_row : Text → Text → Option ExtensionRow
  unfolding resolve_inbound_extension is_other_line is_other_account
  admitted_row did extension = elim (resolve_inbound_extension did extension) [
    | none ↦ none
    | some row ↦ if not row.active then none else elim (called_number did) [
      | none ↦ some row
      | some number ↦
          if is_other_line number row || is_other_account number row then none else some row
    ]
  ]

  -- The number whose link names this extension, in its own spelling.
  unfoldable pub owned_number : Text → Text → Option NumberRow
  unfolding same_number
  owned_number did key =
      find (λ n. text_eq n.inbound_extension key && same_number did n.number) ctx.directory.numbers

  unfoldable pub line_text : Option NumberRow → Text → Text
  line_text none did = did
  line_text (some n) did = n.number

  unfoldable pub provider_of : Option NumberRow → Option Text
  provider_of none = none
  provider_of (some n) = some n.provider

  unfoldable pub inbound_record : Text → Text → Text → Text → Text → Stamp → Call
  unfolding provider_of
  inbound_record call_id did extension channel caller started = record {
    call_id = call_id;
    contact_id = none;
    member_id = none;
    extension = extension;
    phone = take 32 (if is_empty caller then codes "unknown" else caller);
    caller_id_number = some (line_text (owned_number did extension) did);
    provider = provider_of (or_else (owned_number did extension) (called_number did));
    direction = Direction.inbound;
    status = Status.ringing;
    answered = false;
    started_at = started;
    answered_at = none;
    ended_at = none;
    duration_seconds = 0;
    employee_channel_id = some (employee_leg call_id 0);
    employee_channel_ids = [];
    customer_channel_id = some channel;
    bridge_id = none;
    recording_name = none;
    recording_format = none;
    recording_status = none;
    recording_path = none;
    disposition = none;
    notes = none;
  }

  -- Ring the plan's destinations.
  unfoldable pub ring_plan : Call → Plan → Text → Text → Text → M (Option Call)
  ring_plan call plan number extension channel = do
    notify_crm Event.employee_ringing (some call)
    legs ←
        ring_legs call.call_id channel (ring_seconds plan) (λ _ place. place)
          (numbered_devices number (elim plan.destinations [ none ↦ extension ∷ [] | some l ↦ l ]))
          []
    elim legs [
      | [] ↦ get_call call.call_id >>= λ found. need found >>= λ row.
          inbound_no_answer row plan (codes "inbound_no_ringing_device") >> get_call call.call_id
      | head ∷ others ↦
          update_call call.call_id (
            Change.employee_channel_id (some head.0)
            ∷ Change.employee_channel_ids (join_legs (head ∷ others))
            ∷ [])
          >> get_call call.call_id
    ]

  unfoldable pub begin_inbound : Text → Text → Text → Text → M (Option Call)
  unfolding inbound_record ring_plan
  begin_inbound did extension channel caller = do
    call_id ← ask ctx.new_id
    started ← iso_now
    let call = inbound_record call_id did extension channel caller started
    let number = line_text (owned_number did extension) did
    plan ← ask (λ t. ctx.inbound_plan t number extension)
    create_call call
    notify_crm Event.started (some call)
    if text_eq plan.kind (codes "ivr")
        then start_ivr call channel plan
        else ring_plan call plan number extension channel

  unfoldable pub start_inbound : Text → Text → Text → Text → M (Option Call)
  unfolding admitted_row begin_inbound
  start_inbound channel caller did extension = elim (admitted_row did extension) [
    | none ↦ hangup channel >> pure none
    | some row ↦
        if is_empty channel
        then pure none
        else (gets (λ w. find_by_channel channel w.calls) >>= λ existing. elim existing [
          | some call ↦ pure (some call)
          | none ↦ begin_inbound did (row_key row) channel caller
        ])
  ]

  unfoldable pub outbound_record :
      Text → Text → Text → Option Text → Option Text → Text → Text → Stamp → Call
  outbound_record call_id phone extension contact member number provider started = record {
    call_id = call_id;
    contact_id = contact;
    member_id = member;
    extension = extension;
    phone = phone;
    caller_id_number = some number;
    provider = some provider;
    direction = Direction.outbound;
    status = Status.initiated;
    answered = false;
    started_at = started;
    answered_at = none;
    ended_at = none;
    duration_seconds = 0;
    employee_channel_id = some (employee_leg call_id 0);
    employee_channel_ids = [];
    customer_channel_id = none;
    bridge_id = none;
    recording_name = none;
    recording_format = none;
    recording_status = none;
    recording_path = none;
    disposition = none;
    notes = none;
  }

  -- Originate one leg for each endpoint: the legs created, and the first failure.
  unfoldable pub outbound_legs : Text → Text → ℕ → List Text → M (List (Text × Text) × Option Error)
  outbound_legs call_id extension index [] = pure ([], none)
  outbound_legs call_id extension index (target ∷ targets) = do
    failure ←
        attempt (create_outbound_call call_id extension target index >> pure none)
          (λ e. pure (some e))
    when (not (is_some failure)) (index_leg (employee_leg call_id index) call_id)
    rest ← outbound_legs call_id extension (suc index) targets
    pure (
      (if is_some failure then rest.0 else (employee_leg call_id index, extension) ∷ rest.0),
      or_else failure rest.1,
    )

  unfoldable pub abandon_outbound : Text → Option Error → M Call
  abandon_outbound call_id failure = do
    found ← get_call call_id
    elim found [
      | none ↦ done
      | some current ↦ when (not (is_terminal current.status)) (
          iso_now >>= λ ended.
          update_call call_id (Change.status Status.failed ∷ Change.ended_at (some ended) ∷ [])
          >>= λ updated.
              notify_with Event.failed updated (reason (codes "asterisk_originate_failed")))
    ]
    elim failure [
      | some e ↦ raise e
      | none ↦ raise (Error.runtime_error (codes "Asterisk originate failed"))
    ]

  abbrev pub is_initiated : Status → Bool
  is_initiated Status.initiated = true
  is_initiated _ = false

  -- The first device rings: a call that is still `initiated` becomes `ringing`.
  unfoldable pub mark_ringing : Text → Event → Done
  mark_ringing call_id event = do
    found ← get_call call_id
    elim found [
      | none ↦ done
      | some current ↦
          when (is_initiated current.status)
            (update_call call_id (Change.status Status.ringing ∷ []) >>= notify_crm event)
    ]

  unfoldable pub begin_outbound :
      Text → Text → Option Text → Option Text → NumberRow → Text → M Call
  unfolding outbound_record outbound_legs abandon_outbound mark_ringing
  begin_outbound phone extension contact member source provider = do
    call_id ← ask ctx.new_id
    started ← iso_now
    let call = outbound_record call_id phone extension contact member source.number provider started
    create_call call
    notify_crm Event.started (some call)
    rung ← outbound_legs call_id extension 0 (dial_endpoints extension source.number)
    if is_empty rung.0
        then abandon_outbound call_id rung.1
        else (update_call call_id (Change.employee_channel_ids (join_legs rung.0) ∷ [])
            >> mark_ringing call_id Event.ringing
            >> get_call call_id
            >>= λ found. elim found [ none ↦ pure call | some c ↦ pure c ])

  unfoldable pub start_outbound :
      Text → Text → Option Text → Option Text → Text → Option Text → M Call
  unfolding begin_outbound
  start_outbound phone extension contact member provider caller_id = ask ctx.ari_ready >>= λ ready.
      if not ready
      then raise (Error.runtime_error (codes "ARI event worker is not ready"))
      else elim (get_outbound_number ctx.directory extension caller_id) [
        | none ↦
            raise (
              Error.runtime_error (codes "No active callback number is assigned to this extension"))
        | some source ↦
            if not (is_empty provider) && not (text_eq source.provider provider)
            then raise (
                Error.runtime_error
                  (codes "The selected callback number belongs to a different provider"))
            else (provider_endpoint source.provider >>= λ p.
                begin_outbound phone extension contact member source p.1)
      ]
