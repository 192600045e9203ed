-- ===== src/Engine/Finish.antt =====
-- A call ends (`_finalize`, `hangup`), and what becomes of its recording (`cleanup_recordings`,
-- `reconcile_recordings`).
pub mod Recordings
use calling_integration.Prelude.{
  ℕ, ◌+◌, ◌-◌, ◌/◌, Bool, true, false, List, [], ◌∷◌, ◌||◌, ◌&&◌, not, Option, none, some, Text,
  is_empty, if◌then◌else◌, codes, mem_text, select, text_eq, text_or_empty, is_some, is_text, find,
  or_else,
}
use calling_integration.Directory.{NumberRow}
use calling_integration.Calls.{
  Call, Change, Status, Stamp, RecordingStatus, is_completed, is_failed, is_inbound, is_recording,
  get, mark_recording_finalizing,
}
use calling_integration.Engine.Plan.{Act, Event}
use calling_integration.Engine.World.{
  World, M, Done, pure, done, gets, modify, finally, for_each, when, write, get_call, update_call,
  ◌>>=◌, ◌>>◌,
}
use calling_integration.Engine.Context.{Ctx, iso_now}
use calling_integration.Engine.Asterisk.{hangup_call, stop_recording, destroy_bridge}
use calling_integration.Engine.Notify.{notify_with, reason}
use calling_integration.Engine.Legs.{leg_channels, cancel_legs, hangup_call_channels}

-- Whole seconds between two stamps, at least 0. A stamp that is not read, or that names no time
-- zone, gives 0 (`ValueError`, `TypeError`).
unfoldable pub seconds_between : Stamp → Stamp → ℕ
seconds_between (Stamp.aware start) (Stamp.aware end) = (end - start) / 1000000
seconds_between (Stamp.aware start) _ = 0
seconds_between (Stamp.naive start) _ = 0
seconds_between Stamp.unreadable _ = 0

abbrev pub stamp_or : Option Stamp → Stamp → Stamp
stamp_or none s = s
stamp_or (some s) _ = s

unfoldable pub terminal_status : Call → Status
terminal_status call =
    if is_failed call.status
    then Status.failed
    else if call.answered
    then Status.completed
    else Status.failed

unfoldable pub failure_reason : Text → Text
failure_reason why =
    if text_eq why (codes "channel_destroyed") then codes "call_ended_before_answer" else why

unfoldable pub begin_finalizing : Text → World → World
begin_finalizing id w = record w { finalizing = id ∷ w.finalizing }

unfoldable pub end_finalizing : Text → World → World
end_finalizing id w = record w { finalizing = select (λ t. not (text_eq t id)) w.finalizing }

unfoldable pub mark_finalizing : Text → Done
mark_finalizing id = modify (λ w. record w { calls = mark_recording_finalizing id w.calls })

module _ ⦃ctx : Ctx⦄ where
  -- The owner of an unanswered line is told of a missed call.
  unfoldable pub missed_call : Call → Done
  missed_call call =
      elim (find (λ (n : NumberRow). is_text n.number call.caller_id_number)
        ctx.directory.numbers) [
          | none ↦ done
          | some n ↦ elim n.owner [
            | none ↦ done
            | some o ↦ write (Act.notify_user o (codes "missed_call"))
          ]
        ]

  unfoldable pub announce_end : Call → Status → Text → Option Call → Done
  unfolding missed_call
  announce_end call status why updated =
      if is_completed status
      then notify_with Event.completed updated (reason why)
      else notify_with Event.failed updated (reason (failure_reason why))
        >> when (is_inbound call.direction) (missed_call call)

  -- Hang up, and stop the recorder and the bridge.
  unfoldable pub release : Call → Text → Done
  release call keep = do
    hangup_call_channels call keep
    when (not (is_empty (text_or_empty call.recording_name)) && is_recording call.recording_status)
        (stop_recording (text_or_empty call.recording_name))
    when (not (is_empty (text_or_empty call.bridge_id)))
        (destroy_bridge (text_or_empty call.bridge_id))

  unfoldable pub finalize_call : Call → Text → Text → Done
  unfolding release announce_end
  finalize_call call why keep = do
    ended ← iso_now
    when (not (is_empty (text_or_empty call.recording_name))) (mark_finalizing call.call_id)
    release call keep
    updated ← update_call call.call_id (
        Change.status (terminal_status call)
        ∷ Change.ended_at (some ended)
        ∷ Change.duration_seconds
            (seconds_between (stamp_or call.answered_at call.started_at) ended)
        ∷ [])
    announce_end call (terminal_status call) why updated

  -- The body under the lock: nothing, of a call that is completed.
  unfoldable pub finalize_body : Text → Text → Text → Done
  finalize_body id why keep = do
    found ← get_call id
    elim found [
      | none ↦ done
      | some call ↦ if is_completed call.status then done else finalize_call call why keep
    ]

  unfoldable pub finalize : Text → Text → Text → Done
  finalize id why keep = do
    busy ← gets (λ w. mem_text id w.finalizing)
    if busy
        then done
        else modify (begin_finalizing id) >> finally (finalize_body id why keep) (end_finalizing id)

  -- `hangup`
  unfoldable pub request_hangup : Text → M (Option Call)
  request_hangup id = do
    found ← get_call id
    elim found [
      | none ↦ pure none
      | some call ↦
          cancel_legs (leg_channels call)
          >> hangup_call call.employee_channel_id call.customer_channel_id
          >> finalize id (codes "hangup_requested") []
          >> get_call id
    ]
