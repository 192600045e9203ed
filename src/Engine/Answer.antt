-- ===== src/Engine/Answer.antt =====
-- The far side of a call is rung, and the two sides are bridged (`_platform_line`,
-- `_local_target`, `_start_customer`, `_start_bridge`).
use calling_integration.Prelude.{
  ℕ, suc, Bool, true, false, List, [], ◌∷◌, ◌++◌, ◌||◌, ◌&&◌, not, Option, none, some, Text,
  is_empty, if◌then◌else◌, codes, text_eq, text_or_empty, find, digits_of,
}
use calling_integration.Naming.{extension_digits}
use calling_integration.Directory.{NumberRow, resolve_extension, row_key}
use calling_integration.Calls.{Call, Change, Status, RecordingStatus, is_terminal}
use calling_integration.Engine.Plan.{Event}
use calling_integration.Engine.World.{
  M, Done, Error, pure, done, raise, attempt, try_else, need, when, get_call, update_call, ◌>>=◌,
  ◌>>◌,
}
use calling_integration.Engine.Context.{Ctx, iso_now, setting}
use calling_integration.Engine.Asterisk.{
  hangup_option, create_bridge, add_channel_to_bridge, destroy_bridge, start_bridge_recording,
  play_bridge_media, create_local_leg, create_customer_leg, bridge_name, customer_prefix,
}
use calling_integration.Engine.Notify.{notify_crm, notify_with, reason}
use calling_integration.Engine.Dial.{
  dial_endpoints, provider_endpoint, RecordingSettings, recording_settings,
}
use calling_integration.Engine.Legs.{hangup_call_channels}

module _ ⦃ctx : Ctx⦄ where
  unfoldable pub platform_line : Text → Option NumberRow
  platform_line number =
      let digits = digits_of number in
      if is_empty digits
      then none
      else find (λ n. n.active && text_eq (digits_of n.number) digits) ctx.directory.numbers

  unfoldable pub first_resolved : NumberRow → List Text → Text
  first_resolved line [] = []
  first_resolved line (c ∷ candidates) =
      let rest = first_resolved line candidates in
      elim (resolve_extension ctx.directory line.number (extension_digits c) line.owner) [
        | none ↦ rest
        | some row ↦ row_key row
      ]

  -- The number's own extension, the account's fallback, the operator's last resort.
  unfoldable pub local_target : NumberRow → Text
  unfolding first_resolved
  local_target line =
      let account : List Text = elim line.owner [
        | none ↦ []
        | some o ↦ ctx.customer_fallback o ∷ []
      ] in
      first_resolved line
        (line.inbound_extension ∷ (account ++ setting "inbound_fallback_extension" [] ∷ []))

  unfoldable pub fail_call : Call → Text → Done
  fail_call call why = do
    ended ← iso_now
    updated ←
        update_call call.call_id (Change.status Status.failed ∷ Change.ended_at (some ended) ∷ [])
    notify_with Event.failed updated (reason why)

  -- Ring each endpoint of a local extension; was a leg created?
  unfoldable pub local_legs : Call → Text → ℕ → List Text → M Bool
  local_legs call local index [] = pure false
  local_legs call local index (target ∷ targets) = do
    created ←
        attempt
          (create_local_leg call.call_id local (text_or_empty call.employee_channel_id) target index
            >> pure true)
          (λ _. pure false)
    others ← local_legs call local (suc index) targets
    pure (created || others)

  unfoldable pub customer_legs : Call → Text → Done
  unfolding local_legs
  customer_legs call local =
      if not (is_empty local)
      then (local_legs call local 0 (dial_endpoints local call.phone) >>= λ created.
          when (not created) (raise (Error.runtime_error (codes "customer_originate_failed"))))
      else (provider_endpoint (text_or_empty call.provider) >>= λ p.
          create_customer_leg call.call_id call.phone p.0 (text_or_empty call.employee_channel_id)
          >> done)

  unfoldable pub dial_customer : Call → Text → Done
  unfolding customer_legs
  dial_customer call local = do
    prepared ← update_call call.call_id (
        Change.customer_channel_id (some (customer_prefix call.call_id))
        ∷ Change.status Status.dialing_customer
        ∷ [])
    elim prepared [
      | none ↦ done
      | some p ↦
          notify_crm Event.customer_dialing (some p)
          >> attempt (customer_legs call local) (λ _.
            hangup_option call.employee_channel_id
            >> fail_call call (codes "customer_originate_failed"))
    ]

  unfoldable pub start_customer : Call → Done
  unfolding dial_customer
  start_customer call =
      if not (is_empty (text_or_empty call.customer_channel_id)) || is_terminal call.status
      then done
      else elim (platform_line call.phone) [
        | none ↦ dial_customer call []
        | some line ↦
            let local = local_target line in
            if is_empty local
            then fail_call call (codes "number_not_in_service")
              >> hangup_option call.employee_channel_id
            else dial_customer call local
      ]

  unfoldable pub build_bridge : Call → Done
  build_bridge call = do
    create_bridge call.call_id
    add_channel_to_bridge (bridge_name call.call_id) (text_or_empty call.employee_channel_id)
    add_channel_to_bridge (bridge_name call.call_id) (text_or_empty call.customer_channel_id)

  unfoldable pub abandon_bridge : Call → Done
  abandon_bridge call = do
    attempt (destroy_bridge (bridge_name call.call_id)) (λ _. done)
    hangup_call_channels call []
    ended ← iso_now
    updated ← update_call call.call_id (
        Change.status Status.failed
        ∷ Change.ended_at (some ended)
        ∷ Change.bridge_id none
        ∷ Change.recording_status (some RecordingStatus.failed)
        ∷ [])
    notify_with Event.failed updated (reason (codes "bridge_setup_failed"))

  unfoldable pub announce_recording : Call → RecordingSettings → Done
  announce_recording call r = when (r.announcement && not (is_empty r.announcement_media)) (
      attempt (play_bridge_media (bridge_name call.call_id) r.announcement_media)
        (λ _. notify_crm Event.recording_announcement_failed (some call)))

  unfoldable pub start_recording : Call → Call → RecordingSettings → Done
  unfolding announce_recording
  start_recording call row r = do
    let name = codes "call-" ++ row.call_id
    updated ← update_call row.call_id (
        Change.recording_name (some name)
        ∷ Change.recording_format (some r.format)
        ∷ Change.recording_status (some RecordingStatus.recording)
        ∷ [])
    start_bridge_recording (bridge_name call.call_id) name r.format r.beep r.max_duration
    notify_crm Event.recording_started updated
    u ← need updated
    announce_recording u r

  -- Everything under the second `try`: the bridged call is recorded, if both switches say so.
  unfoldable pub record_call : Call → Option Call → Done
  unfolding announce_recording
  record_call call bridged = do
    row ← need bridged
    let r = recording_settings row.extension
    when r.enabled (start_recording call row r)

  unfoldable pub recording_trouble : Call → Done
  recording_trouble call = do
    updated ← update_call call.call_id (Change.recording_status (some RecordingStatus.failed) ∷ [])
    notify_crm Event.recording_failed updated

  unfoldable pub run_bridge : Call → Done
  unfolding record_call recording_trouble
  run_bridge call = do
    updated ←
        update_call call.call_id
          (Change.bridge_id (some (bridge_name call.call_id)) ∷ Change.status Status.bridged ∷ [])
    notify_crm Event.bridged updated
    attempt (record_call call updated) (λ _. recording_trouble call)

  -- Both sides are there and no bridge is.
  unfoldable pub is_bridgeable : Call → Bool
  is_bridgeable call =
      is_empty (text_or_empty call.bridge_id)
      && not (is_empty (text_or_empty call.employee_channel_id))
      && not (is_empty (text_or_empty call.customer_channel_id))

  unfoldable pub bridge_call : Call → Done
  unfolding run_bridge abandon_bridge build_bridge
  bridge_call call = try_else (build_bridge call) (λ _. abandon_bridge call) (run_bridge call)

  unfoldable pub start_bridge : Text → Done
  unfolding is_bridgeable bridge_call
  start_bridge id = do
    found ← get_call id
    elim found [ none ↦ done | some call ↦ if is_bridgeable call then bridge_call call else done ]
