-- ===== src/Engine/Events.antt =====
-- An event of Asterisk (`handle_ari_event`), and the recovery after a restart of the worker
-- (`recover_incomplete_calls`).
use calling_integration.Prelude.{
  Bool, true, false, List, [], ◌∷◌, ◌++◌, ◌||◌, ◌&&◌, not, Option, none, some, Text, is_empty,
  if◌then◌else◌, codes, text_or_empty, is_some, select, text_eq, is_text, find, mem_text,
  starts_with,
}
use calling_integration.Directory.{extension_row, row_owner}
use calling_integration.Calls.{
  Call, Change, Status, RecordingStatus, is_terminal, is_failed, is_inbound, find_by_recording,
}
use calling_integration.Engine.Plan.{Event, Plan, Stored}
use calling_integration.Engine.World.{
  M, Done, pure, done, gets, attempt, for_each, need, when, get_call, update_call, ◌>>=◌, ◌>>◌,
}
use calling_integration.Engine.Context.{Ctx, ask, iso_now}
use calling_integration.Engine.Asterisk.{hangup_option, get_stored_recording, customer_prefix}
use calling_integration.Engine.Notify.{notify_crm}
use calling_integration.Engine.Legs.{
  leg_pairs, leg_channels, call_for_channel, legs_still_ringing, customer_leg_ids, cancel_legs,
  hangup_quietly, hangup_call_channels,
}
use calling_integration.Engine.Finish.{finalize}
use calling_integration.Engine.Answer.{start_customer, start_bridge}
use calling_integration.Engine.Ring.{forget_leg, inbound_no_answer, not_answered}
use calling_integration.Engine.Menu.{ivr_digit, end_session}
use calling_integration.Engine.Start.{start_inbound, mark_ringing}

-- The events that are not passed over. A channel event names its channel; `args` are those of
-- the dial plan. A text that the JSON does not have is empty.
pub data AriEvent : Type 0 where
  recording_finished : Text → Text → AriEvent
  recording_failed : Text → Text → AriEvent
  dtmf : Text → Text → AriEvent
  stasis_start : Text → Text → List Text → AriEvent
  state_change : Text → Bool → AriEvent
  destroyed : Text → AriEvent

-- `changes` of a recording event: its outcome, and the format where none is known.
unfoldable pub recording_changes : Call → RecordingStatus → Text → List Change
recording_changes call status format =
    Change.recording_status (some status)
    ∷ (if not (is_empty format) && is_empty (text_or_empty call.recording_format)
        then Change.recording_format (some format) ∷ []
        else [])

unfoldable pub stored_changes : Call → Option Stored → List Change
stored_changes call none = []
stored_changes call (some s) =
    (if is_empty (text_or_empty s.filename) then [] else Change.recording_path s.filename ∷ [])
    ++ (if not (is_empty s.format) && is_empty (text_or_empty call.recording_format)
        then Change.recording_format (some s.format) ∷ []
        else [])

-- The call came through a menu, or rings a fallback desk.
unfoldable pub needs_desk : Call → Plan → Bool
needs_desk call plan =
    let fallback : Bool = elim call.status [ Status.ringing_fallback ↦ true | _ ↦ false ] in
    text_eq plan.kind (codes "ivr") || fallback

module _ ⦃ctx : Ctx⦄ where
  unfoldable pub on_recording_finished : Text → Text → Done
  on_recording_finished name format = do
    found ← gets (λ w. if is_empty name then none else find_by_recording name w.calls)
    elim found [
      | none ↦ done
      | some call ↦ get_stored_recording name >>= λ stored.
          update_call call.call_id
            (recording_changes call RecordingStatus.finalized format ++ stored_changes call stored)
          >>= notify_crm Event.recording_finished
    ]

  unfoldable pub on_recording_failed : Text → Text → Done
  on_recording_failed name format = do
    found ← gets (λ w. if is_empty name then none else find_by_recording name w.calls)
    elim found [
      | none ↦ done
      | some call ↦
          update_call call.call_id (recording_changes call RecordingStatus.failed format)
          >>= notify_crm Event.recording_failed
    ]

  unfoldable pub on_stasis_start : Text → Text → List Text → Option Call → Done
  on_stasis_start channel caller args (some call) =
      when (is_text channel call.employee_channel_id || mem_text channel (leg_channels call))
        (mark_ringing call.call_id Event.employee_ringing)
  on_stasis_start channel caller (kind ∷ did ∷ extension ∷ _) none =
      if text_eq kind (codes "inbound")
      then start_inbound channel caller did extension >> done
      else done
  on_stasis_start channel caller _ none = done

  -- The bridged call is answered, unless it failed or is marked already.
  unfoldable pub mark_answered : Text → Done
  mark_answered id = do
    found ← get_call id
    elim found [
      | none ↦ done
      | some row ↦ when (not (is_failed row.status) && not row.answered) (
          iso_now >>= λ now.
          update_call id (
            Change.status Status.answered
            ∷ Change.answered true
            ∷ Change.answered_at (some now)
            ∷ [])
          >>= notify_crm Event.answered)
    ]

  unfoldable pub answered_extension : Text → Call → Text
  answered_extension channel call = elim (find (λ p. text_eq p.0 channel) (leg_pairs call)) [
    | none ↦ call.extension
    | some p ↦ if is_empty p.1 then call.extension else p.1
  ]

  -- A desk picks up an inbound call: the others stop, and it is bridged.
  unfoldable pub desk_answers : Text → Call → Done
  unfolding answered_extension
  desk_answers channel call = do
    updated ← update_call call.call_id (
        Change.status Status.employee_answered
        ∷ Change.employee_channel_id (some channel)
        ∷ Change.extension (answered_extension channel call)
        ∷ [])
    notify_crm Event.employee_answered updated
    cancel_legs (select (λ c. not (text_eq c channel)) (leg_channels call))
    row ← need updated
    start_bridge row.call_id
    mark_answered call.call_id

  -- The employee of an outbound call picks up: the far side is rung.
  unfoldable pub employee_answers : Text → Call → Done
  employee_answers channel call = do
    cancel_legs (select (λ c. not (text_eq c channel)) (leg_channels call))
    updated ←
        update_call call.call_id
          (Change.status Status.employee_answered ∷ Change.employee_channel_id (some channel) ∷ [])
    notify_crm Event.employee_answered updated
    row ← need updated
    start_customer row

  unfoldable pub customer_answers : Text → Call → Done
  customer_answers channel call = do
    others ← customer_leg_ids call channel
    cancel_legs others
    if is_text channel call.customer_channel_id
        then done
        else (update_call call.call_id (Change.customer_channel_id (some channel) ∷ []) >> done)
    start_bridge call.call_id
    mark_answered call.call_id

  unfoldable pub is_customer_leg : Text → Call → Bool
  is_customer_leg channel call =
      is_text channel call.customer_channel_id || starts_with channel (customer_prefix call.call_id)

  -- A channel of a call that goes on is up.
  unfoldable pub channel_up : Text → Call → Done
  unfolding is_customer_leg
  channel_up channel call =
      let employee_leg = mem_text channel (leg_channels call) in
      if is_inbound call.direction && employee_leg
      then desk_answers channel call
      else if (employee_leg || is_text channel call.employee_channel_id)
          && is_empty (text_or_empty call.customer_channel_id)
      then employee_answers channel call
      else if is_customer_leg channel call
      then customer_answers channel call
      else done

  unfoldable pub on_state_change : Text → Bool → Call → Done
  unfolding channel_up
  on_state_change channel up call =
      if not up
      then done
      else (get_call call.call_id >>= λ found. elim found [
        | none ↦ done
        | some current ↦
            if is_terminal current.status
            then hangup_quietly channel
            else channel_up channel current
      ])

  -- Nobody picked up an inbound call.
  unfoldable pub handled_plan : Call → Plan → Plan
  unfolding needs_desk
  handled_plan call plan =
      if needs_desk call plan
      then ctx.apply_desk_handling plan (call.extension ∷ []) (text_or_empty call.caller_id_number)
          (row_owner (extension_row ctx.directory call.extension))
      else plan

  unfoldable pub inbound_plan_now : Call → M Plan
  unfolding handled_plan
  inbound_plan_now call = do
    plan ← ask (λ t. ctx.inbound_plan t (text_or_empty call.caller_id_number) call.extension)
    pure (handled_plan call plan)

  unfoldable pub end_destroyed : Text → Call → Done
  end_destroyed channel call =
      for_each (leg_channels call) forget_leg
      >> hangup_call_channels call channel
      >> finalize call.call_id (codes "channel_destroyed") []

  -- The last channel of an unanswered call is gone.
  unfoldable pub last_leg_gone : Text → Bool → Call → Done
  unfolding inbound_plan_now end_destroyed
  last_leg_gone channel employee call =
      forget_leg channel
      >> (if employee
            && is_inbound call.direction
            && not (is_empty (text_or_empty call.customer_channel_id))
          then (inbound_plan_now call >>= λ plan. inbound_no_answer call plan not_answered)
          else end_destroyed channel call)

  unfoldable pub leg_gone : Text → Bool → Call → Done
  unfolding last_leg_gone
  leg_gone channel employee call = do
    remaining ←
        if employee
        then (legs_still_ringing call >>= λ l. pure (select (λ c. not (text_eq c channel)) l))
        else customer_leg_ids call channel
    if is_empty remaining then last_leg_gone channel employee call else forget_leg channel

  -- A side of an answered call is gone, or a channel that is none of the call's.
  unfoldable pub side_gone : Text → Bool → Call → Done
  side_gone channel employee call =
      let other = if employee then call.customer_channel_id else call.employee_channel_id in
      for_each (leg_channels call) forget_leg
      >> when (not (is_text channel other)) (hangup_option other)
      >> finalize call.call_id (codes "channel_destroyed") []

  -- `ChannelDestroyed`, of a call that has not ended
  unfoldable pub live_destroyed : Text → Call → Done
  unfolding leg_gone side_gone is_customer_leg
  live_destroyed channel call =
      let employee =
        mem_text channel (leg_channels call)
        || text_eq channel (text_or_empty call.employee_channel_id) in
      let customer = not employee && is_customer_leg channel call in
      let lost =
        (employee && not (is_text channel call.employee_channel_id))
        || (customer && not (is_text channel call.customer_channel_id)) in
      if call.answered && lost
      then forget_leg channel
      else if (employee || customer) && not call.answered
      then leg_gone channel employee call
      else side_gone channel employee call

  unfoldable pub on_destroyed : Text → Call → Done
  unfolding live_destroyed
  on_destroyed channel call =
      if is_some call.ended_at
      then forget_leg channel
      else end_session channel >> live_destroyed channel call

  unfoldable pub when_called : Option Call → (Call → Done) → Done
  when_called none body = done
  when_called (some call) body = body call

  -- `handle_ari_event`
  unfoldable pub handle_ari_event : AriEvent → Done
  unfolding on_destroyed on_state_change on_stasis_start when_called
  handle_ari_event (AriEvent.recording_finished name format) = on_recording_finished name format
  handle_ari_event (AriEvent.recording_failed name format) = on_recording_failed name format
  handle_ari_event (AriEvent.dtmf channel digit) =
      if is_empty channel then done else ivr_digit channel digit
  handle_ari_event (AriEvent.stasis_start channel caller args) =
      if is_empty channel
      then done
      else (call_for_channel channel >>= on_stasis_start channel caller args)
  handle_ari_event (AriEvent.state_change channel up) =
      if is_empty channel
      then done
      else (call_for_channel channel >>= λ c. when_called c (on_state_change channel up))
  handle_ari_event (AriEvent.destroyed channel) =
      if is_empty channel
      then done
      else (call_for_channel channel >>= λ c. when_called c (on_destroyed channel))

  -- `on_event` of app/ari_worker.py: a failure is logged, and the next event is handled.
  unfoldable pub on_event : AriEvent → Done
  on_event event = attempt (handle_ari_event event) (λ _. done)

  unfoldable pub run_events : List AriEvent → Done
  run_events events = for_each events on_event
