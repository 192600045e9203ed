-- ===== src/Engine/Asterisk.antt =====
-- The methods of `AsteriskClient` (app/asterisk_client.py) that the engine calls. A request is
-- written to the log; which failures a method swallows is as in the source.
use calling_integration.Prelude.{
  ℕ, Bool, true, false, List, [], ◌∷◌, ◌++◌, ◌||◌, ◌&&◌, not, Option, none, some, Text, suc,
  is_empty, if◌then◌else◌, codes, show, leb, ltb, length, has_char, starts_with, any, ◌==◌, max,
  min, strip, text_or_empty,
}
use calling_integration.Naming.{channel_name}
use calling_integration.Engine.Plan.{Act, Channel, Stored}
use calling_integration.Engine.World.{
  M, Done, Error, Result, ok, raised, pure, raise, done, attempt, ◌>>=◌, ◌>>◌,
}
use calling_integration.Engine.Context.{Ctx, Reply, carried_out, refused, unreachable, ask}

-- `f"{call_id}-employee"`, numbered from 1
unfoldable pub employee_leg : Text → ℕ → Text
employee_leg call_id index =
    if index == 0
    then call_id ++ codes "-employee"
    else call_id ++ (codes "-employee-" ++ show index)

unfoldable pub customer_prefix : Text → Text
customer_prefix call_id = call_id ++ codes "-customer"

unfoldable pub customer_leg_name : Text → ℕ → Text
unfolding customer_prefix
customer_leg_name call_id index =
    if index == 0
    then customer_prefix call_id
    else customer_prefix call_id ++ (codes "-" ++ show index)

unfoldable pub bridge_name : Text → Text
bridge_name call_id = codes "bridge-" ++ call_id

-- `endpoint or endpoint_name(extension)`
unfoldable pub endpoint_or : Text → Text → Text
endpoint_or endpoint extension = if is_empty endpoint then channel_name extension else endpoint

-- `except AsteriskError: pass`
unfoldable pub unless_refused : Error → Done
unless_refused Error.asterisk_error = done
unless_refused e = raise e

outcome : Reply → Result (Unit {0})
outcome carried_out = ok tt
outcome refused = raised Error.asterisk_error
outcome unreachable = raised Error.request_error

abbrev unsafe : ℕ → Bool
unsafe c = c == 47 || c == 92 || c == 13 || c == 10

-- The recording names that the client passes on to Asterisk.
unfoldable pub is_safe_name : Text → Bool
is_safe_name name = not (is_empty name) && leb (length name) 128 && not (any unsafe name)

unfoldable pub not_deleted : Error → M Bool
not_deleted Error.asterisk_error = pure false
not_deleted e = raise e

module _ ⦃ctx : Ctx⦄ where
  unfoldable pub request : Act → Done
  unfolding outcome
  request act w =
      (outcome (ctx.reply w.turn act), record w { log = act ∷ w.log; turn = suc w.turn })

  unfoldable pub hangup : Text → Done
  unfolding unless_refused
  hangup channel =
      if is_empty channel then done else attempt (request (Act.hangup channel)) unless_refused

  unfoldable pub hangup_option : Option Text → Done
  hangup_option channel = hangup (text_or_empty channel)

  -- `hangup_call`
  unfoldable pub hangup_call : Option Text → Option Text → Done
  hangup_call employee customer = hangup_option employee >> hangup_option customer

  unfoldable pub stop_recording : Text → Done
  unfolding unless_refused
  stop_recording name = attempt (request (Act.stop_recording name)) unless_refused

  unfoldable pub destroy_bridge : Text → Done
  unfolding unless_refused
  destroy_bridge bridge = attempt (request (Act.destroy_bridge bridge)) unless_refused

  unfoldable pub stop_playback : Text → Done
  stop_playback playback = attempt (request (Act.stop_playback playback)) (λ _. done)

  unfoldable pub answer_channel : Text → Done
  answer_channel channel = request (Act.answer channel)

  unfoldable pub play_channel_media : Text → Text → Text → Done
  play_channel_media channel media playback = request (Act.play channel media playback)

  unfoldable pub continue_in_dialplan : Text → Text → Text → Done
  continue_in_dialplan channel dialplan extension =
      request (Act.continue_at channel dialplan extension)

  unfoldable pub create_bridge : Text → Done
  create_bridge call_id = request (Act.create_bridge (bridge_name call_id))

  unfoldable pub add_channel_to_bridge : Text → Text → Done
  add_channel_to_bridge bridge channel = request (Act.add_channel bridge channel)

  unfoldable pub start_bridge_recording : Text → Text → Text → Bool → ℕ → Done
  start_bridge_recording bridge name format beep max_duration =
      request (Act.record_bridge bridge name format beep max_duration)

  unfoldable pub play_bridge_media : Text → Text → Done
  play_bridge_media bridge media =
      if is_empty media || ltb 256 (length media) || has_char 13 media || has_char 10 media
      then raise Error.value_error
      else if not (starts_with media (codes "sound:") || starts_with media (codes "recording:"))
      then raise Error.value_error
      else request (Act.play_bridge bridge media)

  -- Ring the employee of an outbound call.
  unfoldable pub create_outbound_call : Text → Text → Text → ℕ → Done
  create_outbound_call call_id extension endpoint index =
      request (Act.originate (employee_leg call_id index) (endpoint_or endpoint extension) [] 30)

  unfoldable pub create_inbound_employee_leg : Text → Text → Text → ℕ → Text → ℕ → M Text
  create_inbound_employee_leg call_id extension customer index endpoint timeout =
      request (
        Act.originate (employee_leg call_id index) (endpoint_or endpoint extension) customer
          (max 5 (min 120 timeout)))
      >> pure (employee_leg call_id index)

  -- `_customer_leg`
  unfoldable pub customer_leg : Text → Text → Text → ℕ → ℕ → M Text
  customer_leg call_id endpoint employee timeout index =
      request (Act.originate (customer_leg_name call_id index) endpoint employee timeout)
      >> pure (customer_leg_name call_id index)

  unfoldable pub trunk_endpoint : Text → Text → Text
  trunk_endpoint phone provider_endpoint = codes "PJSIP/" ++ (phone ++ b'@' ∷ provider_endpoint)

  unfoldable pub create_customer_leg : Text → Text → Text → Text → M Text
  create_customer_leg call_id phone provider_endpoint employee =
      customer_leg call_id (trunk_endpoint phone provider_endpoint) employee 60 0

  unfoldable pub create_forward_leg : Text → Text → Text → Text → ℕ → M Text
  create_forward_leg call_id phone provider_endpoint employee timeout =
      customer_leg call_id (trunk_endpoint phone provider_endpoint) employee timeout 1

  unfoldable pub create_local_leg : Text → Text → Text → Text → ℕ → M Text
  create_local_leg call_id extension employee endpoint index =
      customer_leg call_id (endpoint_or endpoint extension) employee 30 index

  unfoldable pub or_unreachable : Option (List Channel) → M (List Channel)
  or_unreachable none = raise Error.request_error
  or_unreachable (some l) = pure l

  unfoldable pub list_channels : M (List Channel)
  unfolding or_unreachable
  list_channels = ask ctx.channels >>= or_unreachable

  -- `result.setdefault("filename", …)`
  unfoldable pub with_filename : Text → Stored → Stored
  with_filename name s =
      let format = strip s.format in
      elim s.filename [
        | some _ ↦ s
        | none ↦
            if is_empty format
            then s
            else record s { filename = some (ctx.recording_path ++ b'/' ∷ (name ++ b'.' ∷ format)) }
      ]

  unfoldable pub stored_answer : Text → Option (Option Stored) → M (Option Stored)
  stored_answer name none = raise Error.request_error
  stored_answer name (some none) = pure none
  stored_answer name (some (some s)) = pure (some (with_filename name s))

  unfoldable pub get_stored_recording : Text → M (Option Stored)
  unfolding stored_answer
  get_stored_recording name =
      if is_safe_name name
      then ask (λ t. ctx.stored_recording t name) >>= stored_answer name
      else pure none

  unfoldable pub delete_stored_recording : Text → M Bool
  unfolding not_deleted
  delete_stored_recording name =
      if is_safe_name name
      then attempt (request (Act.delete_recording name) >> pure true) not_deleted
      else pure false
