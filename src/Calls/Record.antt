-- ===== src/Calls/Record.antt =====
-- One call record, and a change of one of its columns. A status, a direction and a recording
-- status are the texts that the code writes into these columns; a time stamp is a text that
-- `datetime.fromisoformat` reads, in microseconds since the epoch, or one that it does not read.
use calling_integration.Prelude.{ℕ, Bool, true, false, List, [], ◌∷◌, Option, some, Text}

pub data Status : Type 0 where
  initiated ringing employee_answered dialing_customer bridged answered forwarding : Status
  ringing_fallback completed failed : Status

pub data Direction : Type 0 where
  inbound outbound : Direction

pub data RecordingStatus : Type 0 where
  recording finalizing finalized failed deleted : RecordingStatus

pub data Stamp : Type 0 where
  aware : ℕ → Stamp
  naive : ℕ → Stamp
  unreadable : Stamp

pub record Call : Type 0 where
  pub call_id : Text
  pub contact_id : Option Text
  pub member_id : Option Text
  pub extension : Text
  pub phone : Text
  pub caller_id_number : Option Text
  pub provider : Option Text
  pub direction : Direction
  pub status : Status
  pub answered : Bool
  pub started_at : Stamp
  pub answered_at : Option Stamp
  pub ended_at : Option Stamp
  pub duration_seconds : ℕ
  pub employee_channel_id : Option Text
  pub employee_channel_ids : Text
  pub customer_channel_id : Option Text
  pub bridge_id : Option Text
  pub recording_name : Option Text
  pub recording_format : Option Text
  pub recording_status : Option RecordingStatus
  pub recording_path : Option Text
  pub disposition : Option Text
  pub notes : Option Text

-- A keyword argument of `CallStore.update`, which takes the key apart from them. `unknown` is a name
-- that is no column.
pub data Change : Type 0 where
  unknown : Text → Change
  status : Status → Change
  answered : Bool → Change
  contact_id : Option Text → Change
  member_id : Option Text → Change
  extension : Text → Change
  phone : Text → Change
  caller_id_number : Option Text → Change
  provider : Option Text → Change
  direction : Direction → Change
  started_at : Stamp → Change
  answered_at : Option Stamp → Change
  ended_at : Option Stamp → Change
  duration_seconds : ℕ → Change
  employee_channel_id : Option Text → Change
  employee_channel_ids : Text → Change
  customer_channel_id : Option Text → Change
  bridge_id : Option Text → Change
  recording_name : Option Text → Change
  recording_format : Option Text → Change
  recording_status : Option RecordingStatus → Change
  recording_path : Option Text → Change
  disposition : Option Text → Change
  notes : Option Text → Change

abbrev pub apply_change : Change → Call → Call
apply_change (Change.unknown _) c = c
apply_change (Change.status v) c = record c { status = v }
apply_change (Change.answered v) c = record c { answered = v }
apply_change (Change.extension v) c = record c { extension = v }
apply_change (Change.contact_id v) c = record c { contact_id = v }
apply_change (Change.member_id v) c = record c { member_id = v }
apply_change (Change.phone v) c = record c { phone = v }
apply_change (Change.caller_id_number v) c = record c { caller_id_number = v }
apply_change (Change.provider v) c = record c { provider = v }
apply_change (Change.direction v) c = record c { direction = v }
apply_change (Change.started_at v) c = record c { started_at = v }
apply_change (Change.answered_at v) c = record c { answered_at = v }
apply_change (Change.ended_at v) c = record c { ended_at = v }
apply_change (Change.duration_seconds v) c = record c { duration_seconds = v }
apply_change (Change.employee_channel_id v) c = record c { employee_channel_id = v }
apply_change (Change.employee_channel_ids v) c = record c { employee_channel_ids = v }
apply_change (Change.customer_channel_id v) c = record c { customer_channel_id = v }
apply_change (Change.bridge_id v) c = record c { bridge_id = v }
apply_change (Change.recording_name v) c = record c { recording_name = v }
apply_change (Change.recording_format v) c = record c { recording_format = v }
apply_change (Change.recording_status v) c = record c { recording_status = v }
apply_change (Change.recording_path v) c = record c { recording_path = v }
apply_change (Change.disposition v) c = record c { disposition = v }
apply_change (Change.notes v) c = record c { notes = v }

abbrev pub apply_all : List Change → Call → Call
apply_all [] c = c
apply_all (x ∷ changes) c = apply_all changes (apply_change x c)

-- `status in {"completed", "failed"}`
abbrev pub is_terminal : Status → Bool
is_terminal Status.completed = true
is_terminal Status.failed = true
is_terminal _ = false

abbrev pub is_completed : Status → Bool
is_completed Status.completed = true
is_completed _ = false

abbrev pub is_failed : Status → Bool
is_failed Status.failed = true
is_failed _ = false

abbrev pub is_inbound : Direction → Bool
is_inbound Direction.inbound = true
is_inbound Direction.outbound = false

abbrev pub is_recording : Option RecordingStatus → Bool
is_recording (some RecordingStatus.recording) = true
is_recording _ = false

abbrev pub is_deleted : Option RecordingStatus → Bool
is_deleted (some RecordingStatus.deleted) = true
is_deleted _ = false

abbrev pub is_unfinished : Option RecordingStatus → Bool
is_unfinished (some RecordingStatus.recording) = true
is_unfinished (some RecordingStatus.finalizing) = true
is_unfinished _ = false

-- Stamps are ordered by the time that they name.
abbrev pub instant : Stamp → ℕ
instant (Stamp.aware n) = n
instant (Stamp.naive n) = n
instant Stamp.unreadable = 0
