-- ===== src/Calls/Query.antt =====
-- The filtered list and the totals of the console (`CallStore.search` and `summary`).
use calling_integration.Prelude.{
  ℕ, Bool, true, false, List, [], ◌∷◌, ◌++◌, ◌||◌, ◌&&◌, not, Option, none, some, Text, text_eq,
  mem_text, is_text, is_empty, is_some, if◌then◌else◌, ◌==◌, select, count, length, take, drop,
  lower,
}
use calling_integration.Calls.{
  Call, Table, Status, RecordingStatus, is_failed, is_deleted, newest_first,
}

-- SQL's `LIKE`: `%` stands for any text, `_` for one character; ASCII case is ignored.
like_lower : Text → Text → Bool
like_lower [] [] = true
like_lower [] (c ∷ s) = false
like_lower (p ∷ ps) [] = p == b'%' && like_lower ps []
like_lower (p ∷ ps) (c ∷ s) =
    let skip = like_lower ps (c ∷ s) in
    let more = like_lower (p ∷ ps) s in
    let next = like_lower ps s in if p == b'%' then skip || more else (p == b'_' || p == c) && next

unfoldable pub like : Text → Text → Bool
unfolding like_lower
like pattern text = like_lower (lower pattern) (lower text)

like_option : Text → Option Text → Bool
unfolding like
like_option pattern none = false
like_option pattern (some t) = like pattern t

-- The keyword arguments. `extension`, `status`, `number` and `query` filter only if they are
-- not empty; `extensions` filters if it is given.
pub record Filter : Type 0 where
  pub extension : Text
  pub extensions : Option (List Text)
  pub status : Option Status
  pub recordings_only : Bool
  pub query : Text
  pub number : Text

unfoldable pub by_extension : Text → Option (List Text) → Call → Bool
by_extension extension names c =
    if not (is_empty extension)
    then text_eq c.extension extension
    else elim names [ none ↦ true | some list ↦ mem_text c.extension list ]

abbrev pub is_status : Status → Status → Bool
is_status Status.initiated Status.initiated = true
is_status Status.ringing Status.ringing = true
is_status Status.employee_answered Status.employee_answered = true
is_status Status.dialing_customer Status.dialing_customer = true
is_status Status.bridged Status.bridged = true
is_status Status.answered Status.answered = true
is_status Status.forwarding Status.forwarding = true
is_status Status.ringing_fallback Status.ringing_fallback = true
is_status Status.completed Status.completed = true
is_status Status.failed Status.failed = true
is_status _ _ = false

abbrev is_failed_recording : Option RecordingStatus → Bool
is_failed_recording (some RecordingStatus.failed) = true
is_failed_recording _ = false

unfoldable pub matches : Filter → Call → Bool
unfolding by_extension like_option
matches f c =
    let pattern = b'%' ∷ f.query ++ b'%' ∷ [] in
    by_extension f.extension f.extensions c
    && (elim f.status [ none ↦ true | some s ↦ is_status c.status s ])
    && (is_empty f.number || is_text f.number c.caller_id_number)
    && (not f.recordings_only
        || ((is_some c.recording_name || is_failed_recording c.recording_status)
            && not (is_deleted c.recording_status)))
    && (is_empty f.query
        || like pattern c.phone
        || like pattern c.call_id
        || like_option pattern c.contact_id
        || like_option pattern c.member_id)

-- One page of the matching rows, and how many rows match.
unfoldable pub search_calls : Filter → ℕ → ℕ → Table → List Call × ℕ
unfolding matches
search_calls f limit offset table =
    (take limit (drop offset (newest_first (select (matches f) table))), count (matches f) table)

pub record Summary : Type 0 where
  pub total : ℕ
  pub answered : ℕ
  pub failed : ℕ
  pub recordings : ℕ

abbrev is_finalized : Option RecordingStatus → Bool
is_finalized (some RecordingStatus.finalized) = true
is_finalized _ = false

unfoldable pub summary : Text → Option (List Text) → Table → Summary
unfolding by_extension
summary extension extensions table =
    let rows = select (by_extension extension extensions) table in
    record {
      total = length rows;
      answered = count (λ c. c.answered) rows;
      failed = count (λ c. is_failed c.status) rows;
      recordings = count (λ c. is_finalized c.recording_status) rows;
    }
