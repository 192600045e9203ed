-- ===== src/Engine/Settled/Run.antt =====
-- Every event of Asterisk keeps the table.
use calling_integration.Prelude.{
  ◌≡◌, refl, ◌∙◌, Bool, true, List, [], ◌∷◌, ◌++◌, Option, none, some, Text, is_some, not, is_empty,
  text_or_empty, ◌&&◌, Option-cases, Bool-cases, inl, inr, arith, lookup,
}
use calling_integration.Calls.{Call, Change, Table, RecordingStatus, get}
use calling_integration.Calls.Rows.{get-own}
use calling_integration.Calls.Keys.{find_by_channel-get}
use calling_integration.Engine.Plan.{Stored}
use calling_integration.Engine.World.{World, M, Done, gets, update_call, ◌>>=◌}
use calling_integration.Engine.Context.{Ctx}
use calling_integration.Engine.Legs.{call_for_channel, indexed_call}
use calling_integration.Engine.Events.{
  AriEvent, recording_changes, stored_changes, on_recording_finished, on_recording_failed,
  on_stasis_start, end_destroyed, inbound_plan_now, last_leg_gone, leg_gone, side_gone,
  live_destroyed, on_destroyed, when_called, handle_ari_event, on_event, run_events,
}
use calling_integration.Engine.Logic.{IsSound, Quiet, Keeps, Any}
use calling_integration.Engine.Logic.Rules.{
  gets-Quiet, pure-Quiet, bind-Quiet, when-Quiet, for_each-Quiet, if-Quiet, Quiet-Keeps, Quiet-then,
  keep-then, if-Keeps, option-Keeps, weaken-Keeps, when-Keeps, attempt-Keeps, for_each-Keeps,
}
use calling_integration.Engine.Quiet.{
  ask-Quiet, notify_crm-Quiet, hangup_option-Quiet, hangup_call_channels-Quiet,
  legs_still_ringing-Quiet, customer_leg_ids-Quiet, get_stored_recording-Quiet,
}
use calling_integration.Engine.Settled.Neutral.{all_neutral, neutral-Keeps}
use calling_integration.Engine.Settled.Progress.{IsHere}
use calling_integration.Engine.Settled.Finish.{finalize-Keeps}
use calling_integration.Engine.Settled.Ring.{forget_leg-Quiet, inbound_no_answer-Keeps}
use calling_integration.Engine.Settled.Menu.{ivr_digit-Keeps, end_session-Quiet}
use calling_integration.Engine.Settled.Start.{mark_ringing-Keeps, start_inbound-Keeps}
use calling_integration.Engine.Settled.Events.{on_state_change-Keeps}

recording_changes-neutral :
    (call : Call) (s : RecordingStatus) (format : Text)
    → all_neutral (recording_changes call s format) ≡ true
unfolding recording_changes
recording_changes-neutral call s format =
    elim (Bool-cases (not (is_empty format) && is_empty (text_or_empty call.recording_format))) [
      | inl u ↦ rw u refl
      | inr u ↦ rw u refl
    ]

all_neutral-append :
    (a b : List Change) → all_neutral a ≡ true → all_neutral b ≡ true → all_neutral (a ++ b) ≡ true
all_neutral-append [] b p q = q
all_neutral-append (x ∷ a) b p q = let r = all_neutral-append a b (ground arith) q in ground arith

stored_changes-neutral :
    (call : Call) (s : Option Stored) → all_neutral (stored_changes call s) ≡ true
unfolding stored_changes
stored_changes-neutral call none = refl
stored_changes-neutral call (some s) = elim (Bool-cases (is_empty (text_or_empty s.filename))) [
  | inl u ↦
      elim (Bool-cases
        (not (is_empty s.format) && is_empty (text_or_empty call.recording_format))) [
          | inl v ↦ rw (u, v) refl
          | inr v ↦ rw (u, v) refl
        ]
  | inr u ↦
      elim (Bool-cases
        (not (is_empty s.format) && is_empty (text_or_empty call.recording_format))) [
          | inl v ↦ rw (u, v) refl
          | inr v ↦ rw (u, v) refl
        ]
]

-- The call that is found for a channel is the row of its key.
indexed-IsHere :
    (channel : Text) (w : World) (known : Option Text) (c : Call)
    → IsSound w.calls
    → indexed_call channel w known ≡ some c
    → IsHere c w.calls
unfolding indexed_call
indexed-IsHere channel w none c sound h = find_by_channel-get channel w.calls c sound.0 h
indexed-IsHere channel w (some id) c sound h = elim (Option-cases (get id w.calls)) [
  | inl e ↦ find_by_channel-get channel w.calls c sound.0 (rw e at h)
  | inr (d, e) ↦ get-own id w.calls c (e ∙ rw e at h)
]

module _ ⦃ctx : Ctx⦄ where
  call_for_channel-then :
      {B : Type 0} (channel : Text) {f : Option Call → M B}
      → ((found : Option Call) → Keeps (λ t. (c : Call) → found ≡ some c → IsHere c t) (f found))
      → Keeps Any (call_for_channel channel >>= f)
  unfolding call_for_channel gets ◌>>=◌
  call_for_channel-then channel k = record {
    kept = λ w sound p.
        (k (indexed_call channel w (lookup channel w.leg_index))).kept w sound
          (λ c h. indexed-IsHere channel w (lookup channel w.leg_index) c sound h);
  }

  recording_written :
      (call : Call) (changes : List Change) {f : Option Call → Done}
      → all_neutral changes ≡ true
      → ((u : Option Call) → Quiet (f u))
      → Keeps Any (update_call call.call_id changes >>= f)
  recording_written call changes neutral q =
      keep-then (neutral-Keeps call.call_id changes neutral) (λ u. Quiet-Keeps (q u))

  on_recording_finished-Keeps : (name format : Text) → Keeps Any (on_recording_finished name format)
  unfolding on_recording_finished
  on_recording_finished-Keeps name format = Quiet-then (gets-Quiet _) λ found.
      option-Keeps found (Quiet-Keeps (pure-Quiet tt)) λ call e.
        Quiet-then (get_stored_recording-Quiet name) λ stored.
          recording_written call _
            (all_neutral-append (recording_changes call RecordingStatus.finalized format)
              (stored_changes call stored)
              (recording_changes-neutral call RecordingStatus.finalized format)
              (stored_changes-neutral call stored))
            (notify_crm-Quiet _)

  on_recording_failed-Keeps : (name format : Text) → Keeps Any (on_recording_failed name format)
  unfolding on_recording_failed
  on_recording_failed-Keeps name format = Quiet-then (gets-Quiet _) λ found.
      option-Keeps found (Quiet-Keeps (pure-Quiet tt)) λ call e.
        recording_written call (recording_changes call RecordingStatus.failed format)
          (recording_changes-neutral call RecordingStatus.failed format) (notify_crm-Quiet _)

  on_stasis_start-Keeps :
      (channel caller : Text) (args : List Text) (call : Option Call)
      → Keeps Any (on_stasis_start channel caller args call)
  unfolding on_stasis_start
  on_stasis_start-Keeps channel caller args (some call) =
      when-Keeps _ λ _. mark_ringing-Keeps call.call_id _
  on_stasis_start-Keeps channel caller (kind ∷ did ∷ extension ∷ _) none =
      if-Keeps _
        (keep-then (start_inbound-Keeps channel caller did extension)
          (λ _. Quiet-Keeps (pure-Quiet tt)))
        (Quiet-Keeps (pure-Quiet tt))
  on_stasis_start-Keeps channel caller _ none = Quiet-Keeps (pure-Quiet tt)

  end_destroyed-Keeps :
      {P : Table → Type 0} (channel : Text) (call : Call) → Keeps P (end_destroyed channel call)
  unfolding end_destroyed
  end_destroyed-Keeps channel call =
      Quiet-then
        (bind-Quiet (for_each-Quiet _ forget_leg-Quiet)
          (λ _. hangup_call_channels-Quiet call channel))
        λ _. weaken-Keeps (λ t p. tt) (finalize-Keeps call.call_id _ [])

  inbound_plan_now-Quiet : (call : Call) → Quiet (inbound_plan_now call)
  unfolding inbound_plan_now
  inbound_plan_now-Quiet call = bind-Quiet (ask-Quiet _) (λ plan. pure-Quiet _)

  last_leg_gone-Keeps :
      (channel : Text) (employee : Bool) (call : Call)
      → Keeps (IsHere call) (last_leg_gone channel employee call)
  unfolding last_leg_gone
  last_leg_gone-Keeps channel employee call = Quiet-then (forget_leg-Quiet channel) λ _.
      if-Keeps _
        (Quiet-then (inbound_plan_now-Quiet call) λ plan. inbound_no_answer-Keeps call plan _)
        (end_destroyed-Keeps channel call)

  leg_gone-Keeps :
      (channel : Text) (employee : Bool) (call : Call)
      → Keeps (IsHere call) (leg_gone channel employee call)
  unfolding leg_gone
  leg_gone-Keeps channel employee call =
      Quiet-then
        (if-Quiet employee (bind-Quiet (legs_still_ringing-Quiet call) (λ l. pure-Quiet _))
          (customer_leg_ids-Quiet call channel))
        λ remaining.
          if-Keeps (is_empty remaining) (last_leg_gone-Keeps channel employee call)
            (Quiet-Keeps (forget_leg-Quiet channel))

  side_gone-Keeps :
      {P : Table → Type 0} (channel : Text) (employee : Bool) (call : Call)
      → Keeps P (side_gone channel employee call)
  unfolding side_gone
  side_gone-Keeps channel employee call =
      Quiet-then
        (bind-Quiet (for_each-Quiet _ forget_leg-Quiet) (λ _. when-Quiet _ (hangup_option-Quiet _)))
        λ _. weaken-Keeps (λ t p. tt) (finalize-Keeps call.call_id _ [])

  live_destroyed-Keeps :
      (channel : Text) (call : Call) → Keeps (IsHere call) (live_destroyed channel call)
  unfolding live_destroyed
  live_destroyed-Keeps channel call =
      if-Keeps _ (Quiet-Keeps (forget_leg-Quiet channel))
        (if-Keeps _ (leg_gone-Keeps channel _ call) (side_gone-Keeps channel _ call))

  on_destroyed-Keeps :
      (channel : Text) (call : Call) → Keeps (IsHere call) (on_destroyed channel call)
  unfolding on_destroyed
  on_destroyed-Keeps channel call =
      if-Keeps (is_some call.ended_at) (Quiet-Keeps (forget_leg-Quiet channel))
        (Quiet-then (end_session-Quiet channel) λ _. live_destroyed-Keeps channel call)

  when_called-Keeps :
      (found : Option Call) {body : Call → Done}
      → ((c : Call) → Keeps (IsHere c) (body c))
      → Keeps (λ t. (c : Call) → found ≡ some c → IsHere c t) (when_called found body)
  unfolding when_called
  when_called-Keeps none k = Quiet-Keeps (pure-Quiet tt)
  when_called-Keeps (some c) k = weaken-Keeps (λ t p. p c refl) (k c)

  pub handle_ari_event-Keeps : (event : AriEvent) → Keeps Any (handle_ari_event event)
  unfolding handle_ari_event
  handle_ari_event-Keeps (AriEvent.recording_finished name format) =
      on_recording_finished-Keeps name format
  handle_ari_event-Keeps (AriEvent.recording_failed name format) =
      on_recording_failed-Keeps name format
  handle_ari_event-Keeps (AriEvent.dtmf channel digit) =
      if-Keeps (is_empty channel) (Quiet-Keeps (pure-Quiet tt)) (ivr_digit-Keeps channel digit)
  handle_ari_event-Keeps (AriEvent.stasis_start channel caller args) =
      if-Keeps (is_empty channel) (Quiet-Keeps (pure-Quiet tt)) (
        call_for_channel-then channel
          λ found. weaken-Keeps (λ t p. tt) (on_stasis_start-Keeps channel caller args found))
  handle_ari_event-Keeps (AriEvent.state_change channel up) =
      if-Keeps (is_empty channel) (Quiet-Keeps (pure-Quiet tt)) (
        call_for_channel-then channel λ found.
          when_called-Keeps found
            λ c. weaken-Keeps (λ t p. tt) (on_state_change-Keeps channel up c))
  handle_ari_event-Keeps (AriEvent.destroyed channel) =
      if-Keeps (is_empty channel) (Quiet-Keeps (pure-Quiet tt)) (
        call_for_channel-then channel
          λ found. when_called-Keeps found λ c. on_destroyed-Keeps channel c)

  pub on_event-Keeps : (event : AriEvent) → Keeps Any (on_event event)
  unfolding on_event
  on_event-Keeps event =
      attempt-Keeps (handle_ari_event-Keeps event) (λ _. Quiet-Keeps (pure-Quiet tt))

  pub run_events-Keeps : (events : List AriEvent) → Keeps Any (run_events events)
  unfolding run_events
  run_events-Keeps events = for_each-Keeps events on_event-Keeps
