-- ===== src/Calls.antt =====
-- The call records and their table (app/models.py, `Call` and `CallStore`).
mod Record
pub mod Query
pub mod Rows
pub mod Keys
pub use Record.{
  Call, Change, Status, Direction, RecordingStatus, Stamp, apply_change, apply_all, is_terminal,
  is_completed, is_failed, is_inbound, is_recording, is_deleted, is_unfinished, instant,
}
use calling_integration.Prelude.{
  Bool, true, false, List, [], ◌∷◌, ◌++◌, ◌||◌, ◌&&◌, Option, none, some, Text, text_eq, is_text,
  find, select, if◌then◌else◌, is_empty, is_some, leb,
}

-- The table, in the order of insertion. `call_id` is its primary key.
abbrev pub Table : Type 0
Table = List Call

unfoldable pub get : Text → Table → Option Call
get call_id = find (λ c. text_eq c.call_id call_id)

-- `create`: the insertion fails if the key is taken.
unfoldable pub create : Call → Table → Option Table
unfolding get
create call table = if is_some (get call.call_id table) then none else some (table ++ call ∷ [])

-- `valid` of `update`: a change of the key or of an unknown column is dropped.
unfoldable pub is_column : Change → Bool
is_column (Change.unknown _) = false
is_column _ = true

-- `UPDATE calls SET … WHERE call_id = ?`
unfoldable pub set_columns : Text → List Change → Table → Table
set_columns call_id changes [] = []
set_columns call_id changes (c ∷ table) =
    (if text_eq c.call_id call_id then apply_all changes c else c)
    ∷ set_columns call_id changes table

unfoldable pub update : Text → List Change → Table → Option Call × Table
unfolding set_columns is_column get
update call_id changes table =
    let valid = select is_column changes in
    let written = set_columns call_id valid table in
    if is_empty valid then (get call_id table, table) else (get call_id written, written)

-- `SET recording_status = 'finalizing' WHERE … AND recording_status = 'recording'`
unfoldable pub mark_recording_finalizing : Text → Table → Table
mark_recording_finalizing call_id [] = []
mark_recording_finalizing call_id (c ∷ table) =
    (if text_eq c.call_id call_id && is_recording c.recording_status
      then record c { recording_status = some RecordingStatus.finalizing }
      else c)
    ∷ mark_recording_finalizing call_id table

-- `ORDER BY started_at DESC`; the order of equal times is that of insertion.
unfoldable pub place_row : Call → Table → Table
place_row c [] = c ∷ []
place_row c (d ∷ rows) =
    if leb (instant d.started_at) (instant c.started_at) then c ∷ d ∷ rows else d ∷ place_row c rows

unfoldable pub newest_first : Table → Table
unfolding place_row
newest_first [] = []
newest_first (c ∷ rows) = place_row c (newest_first rows)

unfoldable pub all_calls : Table → List Call
all_calls = newest_first

unfoldable pub find_by_channel : Text → Table → Option Call
unfolding newest_first
find_by_channel channel table =
    find (λ c. is_text channel c.employee_channel_id || is_text channel c.customer_channel_id)
      (newest_first table)

unfoldable pub find_by_recording : Text → Table → Option Call
find_by_recording name = find (λ c. is_text name c.recording_name)

unfoldable pub stale_recordings : Table → List Call
stale_recordings = select (λ c. is_some c.recording_name && is_unfinished c.recording_status)
