-- ===== src/Engine/Plan.antt =====
-- What the engine exchanges with the rest of the system: an inbound plan, a webhook, an event of
-- Asterisk, and the requests that the engine sends.
use calling_integration.Prelude.{ℕ, Bool, List, Option, Text, String, codes, ◌++◌}
use calling_integration.Calls.{Call}

-- `inbound_plan`: the keys of the dictionary that the engine reads. A missing key is `none`, an
-- empty text or an empty list, which the code does not tell apart.
pub record Plan : Type 0 where
  pub kind : Text
  pub destinations : Option (List Text)
  pub timeout : Option ℕ
  pub timeouts : List (Text × ℕ)
  pub voicemail : Text
  pub forward : Text
  pub forward_timeout : Option ℕ
  pub fallbacks : List Text
  pub fallback : Text
  pub fallback_destinations : List Text
  pub media : Text
  pub attempts : Option ℕ
  pub input_timeout : Option ℕ
  pub key_map : List (Text × Text)
  pub extensions : List Text
  pub outside_hours : Bool

-- A caller at a menu. Times are microseconds of the monotonic clock; `resolve_after` 0 is unset.
pub record Session : Type 0 where
  pub call_id : Text
  pub channel_id : Text
  pub extension : Text
  pub number : Text
  pub digits : Text
  pub tries : ℕ
  pub attempts : ℕ
  pub input_timeout : ℕ
  pub key_map : List (Text × Text)
  pub keys : List Text
  pub plan : Plan
  pub deadline : ℕ
  pub resolve_after : ℕ

pub record Webhook : Type 0 where
  pub id : ℕ
  pub url : Text
  pub events : Text
  pub active : Bool
  pub owner : Option ℕ

-- The events that the CRM is told of.
pub data Event : Type 0 where
  started ringing employee_ringing employee_answered customer_dialing bridged answered : Event
  completed failed missed voicemail forwarding ivr_extension_selected ivr_fallback : Event
  recording_started recording_failed recording_finished recording_deleted : Event
  recording_announcement_failed : Event

abbrev pub event_word : Event → String
event_word Event.started = "started"
event_word Event.ringing = "ringing"
event_word Event.employee_ringing = "employee_ringing"
event_word Event.employee_answered = "employee_answered"
event_word Event.customer_dialing = "customer_dialing"
event_word Event.bridged = "bridged"
event_word Event.answered = "answered"
event_word Event.completed = "completed"
event_word Event.failed = "failed"
event_word Event.missed = "missed"
event_word Event.voicemail = "voicemail"
event_word Event.forwarding = "forwarding"
event_word Event.ivr_extension_selected = "ivr_extension_selected"
event_word Event.ivr_fallback = "ivr_fallback"
event_word Event.recording_started = "recording_started"
event_word Event.recording_failed = "recording_failed"
event_word Event.recording_finished = "recording_finished"
event_word Event.recording_deleted = "recording_deleted"
event_word Event.recording_announcement_failed = "recording_announcement_failed"

unfoldable pub event_name : Event → Text
event_name e = codes "call." ++ codes (event_word e)

-- A request to Asterisk, or a delivery to the CRM. An `originate` names the new channel, the
-- endpoint that it rings, the channel on whose behalf, and the seconds that it rings.
pub data Act : Type 0 where
  originate : Text → Text → Text → ℕ → Act
  hangup answer : Text → Act
  play : Text → Text → Text → Act
  stop_playback : Text → Act
  continue_at : Text → Text → Text → Act
  create_bridge destroy_bridge : Text → Act
  add_channel : Text → Text → Act
  record_bridge : Text → Text → Text → Bool → ℕ → Act
  play_bridge : Text → Text → Act
  stop_recording delete_recording : Text → Act
  enqueue : ℕ → Event → Call → List (Text × Text) → Act
  post : Text → Event → Call → List (Text × Text) → Act
  notify_user : ℕ → Text → Act
  finish_delivery : ℕ → Bool → Act

-- A channel of the list of live ones: its name, and whether its state is "Up".
pub record Channel : Type 0 where
  pub id : Text
  pub up : Bool

-- ARI's StoredRecording: its format, and a file name if the answer has one.
pub record Stored : Type 0 where
  pub format : Text
  pub filename : Option Text
