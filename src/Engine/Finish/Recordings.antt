-- ===== src/Engine/Finish/Recordings.antt =====
-- Recordings after the call: deleted when they are older than the retention period, and found
-- again when their finish event was missed (`cleanup_recordings`, `reconcile_recordings`).
use calling_integration.Prelude.{
  ℕ, ◌*◌, ◌+◌, Bool, false, List, [], ◌∷◌, ◌&&◌, not, Option, none, some, is_empty, if◌then◌else◌,
  codes, text_or_empty, is_some, ltb,
}
use calling_integration.Calls.{
  Call, Change, Stamp, RecordingStatus, is_deleted, all_calls, stale_recordings,
}
use calling_integration.Engine.Plan.{Event, Stored}
use calling_integration.Engine.World.{
  Done, pure, done, gets, attempt, for_each, update_call, when, ◌>>=◌,
}
use calling_integration.Engine.Context.{Ctx, ask}
use calling_integration.Engine.Asterisk.{get_stored_recording, delete_stored_recording}
use calling_integration.Engine.Dial.{recording_settings}
use calling_integration.Engine.Notify.{notify_with, reason}

-- When a stamp is read, a time with no zone is taken as UTC.
unfoldable pub read_stamp : Option Stamp → Option ℕ
read_stamp none = none
read_stamp (some (Stamp.aware n)) = some n
read_stamp (some (Stamp.naive n)) = some n
read_stamp (some Stamp.unreadable) = none

-- Has the recording outlived the period? `now - days < ended` keeps it.
unfoldable pub is_expired : ℕ → ℕ → Call → Bool
is_expired now days call =
    not (is_empty (text_or_empty call.recording_name))
    && not (is_deleted call.recording_status)
    && (elim (read_stamp call.ended_at) [
      | none ↦ false
      | some ended ↦ ltb (ended + days * 86400000000) now
    ])

module _ ⦃ctx : Ctx⦄ where
  unfoldable pub forget_recording : Call → Done
  forget_recording call = do
    updated ←
        update_call call.call_id
          (Change.recording_status (some RecordingStatus.deleted) ∷ Change.recording_path none ∷ [])
    notify_with Event.recording_deleted updated (reason (codes "retention_policy"))

  unfoldable pub expire_recording : ℕ → ℕ → Call → Done
  unfolding is_expired forget_recording
  expire_recording now days call =
      if is_expired now days call
      then (delete_stored_recording (text_or_empty call.recording_name) >>= λ gone.
          when gone (forget_recording call))
      else done

  unfoldable pub cleanup_recordings : Done
  unfolding expire_recording
  cleanup_recordings = do
    now ← ask ctx.now
    rows ← gets (λ w. all_calls w.calls)
    for_each rows (expire_recording now (recording_settings []).retention_days)

  -- `stored.get("format") or call.recording_format`
  unfoldable pub found_recording : Call → Stored → List Change
  found_recording call s =
      Change.recording_status (some RecordingStatus.finalized)
      ∷ Change.recording_format (if is_empty s.format then call.recording_format else some s.format)
      ∷ Change.recording_path
          (if is_empty (text_or_empty s.filename) then call.recording_path else s.filename)
      ∷ []

  unfoldable pub adopt_recording : Call → Option Stored → Done
  unfolding found_recording
  adopt_recording call none = done
  adopt_recording call (some s) = do
    updated ← update_call call.call_id (found_recording call s)
    notify_with Event.recording_finished updated (reason (codes "reconciled"))

  unfoldable pub reconcile_recording : Call → Done
  unfolding found_recording
  reconcile_recording call =
      if is_some call.ended_at
      then (attempt (get_stored_recording (text_or_empty call.recording_name)) (λ _. pure none)
          >>= adopt_recording call)
      else done

  unfoldable pub reconcile_recordings : Done
  unfolding reconcile_recording
  reconcile_recordings = do
    rows ← gets (λ w. stale_recordings w.calls)
    for_each rows reconcile_recording
