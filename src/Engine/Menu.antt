-- ===== src/Engine/Menu.antt =====
-- A caller at a menu (`_start_ivr` to `process_ivr_timeouts`).
pub mod Choices
use calling_integration.Prelude.{
  ℕ, ◌+◌, ◌*◌, Bool, true, false, List, [], ◌∷◌, ◌++◌, ◌||◌, ◌&&◌, not, Option, none, some, Text,
  is_empty, if◌then◌else◌, codes, text_or_empty, is_some, select, map, lookup, insert, erase,
  length, take, or_default, max, leb, ltb, ◌==◌, starts_with, mem_text, text_eq, is_numeric, any,
  find, show,
}
use calling_integration.Naming.{extension_digits}
use calling_integration.Directory.{NumberRow, extension_row, row_owner}
use calling_integration.Calls.{Call, Change}
use calling_integration.Engine.Plan.{Event, Plan, Session}
use calling_integration.Engine.World.{
  M, Done, Error, pure, done, raise, gets, modify, attempt, need, get_call, update_call, ◌>>=◌,
  ◌>>◌,
}
use calling_integration.Engine.Context.{Ctx, ask}
use calling_integration.Engine.Asterisk.{answer_channel, play_channel_media, stop_playback}
use calling_integration.Engine.Notify.{notify_with}
use calling_integration.Engine.Ring.{
  ring_legs, ring_seconds, numbered_devices, inbound_no_answer, not_answered,
}
use calling_integration.Engine.Legs.{join_legs}

unfoldable pub session_of : Text → M (Option Session)
session_of channel = gets (λ w. lookup channel w.sessions)

-- A write to a session object, which shows in the map while the map holds it.
unfoldable pub put_session : Session → Done
put_session s = modify (λ w.
    if is_some (lookup s.channel_id w.sessions)
    then record w { sessions = insert s.channel_id s w.sessions }
    else w)

unfoldable pub end_session : Text → Done
end_session channel = modify (λ w. record w { sessions = erase channel w.sessions })

-- `IVR_INTERDIGIT`, 1.4 seconds
abbrev pub interdigit : ℕ
interdigit = 1400000

unfoldable pub playback_name : Session → Text
playback_name s = codes "ivr-" ++ (s.call_id ++ b'-' ∷ show s.tries)

longest : List Text → ℕ
longest [] = 0
longest (t ∷ ts) = max (length t) (longest ts)

-- What the digits so far mean.
pub data Choice : Type 0 where
  nothing_yet : Choice
  dial : Text → Choice
  wait : Choice
  invalid : Choice
  crash : Choice

-- A menu with single keys.
unfoldable pub choose_key : List (Text × Text) → Text → Bool → Choice
choose_key key_map digits final = elim (lookup digits key_map) [
  | some target ↦ Choice.dial target
  | none ↦
      if not final && any (λ p. starts_with p.0 digits) key_map then Choice.wait else Choice.invalid
]

first_key : List Text → Text → Text
first_key keys digits = elim (find (λ k. text_eq (extension_digits k) digits) keys) [
  | none ↦ digits
  | some k ↦ k
]

-- A menu where the caller types an extension.
unfoldable pub choose_extension : List Text → Text → Bool → Choice
unfolding first_key longest
choose_extension keys digits final =
    let extensions = map extension_digits keys in
    let candidates = select (λ e. starts_with e digits) extensions in
    if mem_text digits extensions
      && (length candidates == 1 || final || leb (longest extensions) (length digits))
    then Choice.dial (first_key keys digits)
    else if not (is_empty candidates) && not final
    then Choice.wait
    else Choice.invalid

-- The decision of `_ivr_resolve`. With neither keys nor extensions the code reads
-- `self._extension_row`, which the service does not have: it raises `AttributeError`.
unfoldable pub choose : Session → Bool → Choice
unfolding choose_key choose_extension
choose s final =
    if is_empty s.digits
    then Choice.nothing_yet
    else if not (is_empty s.key_map)
    then choose_key s.key_map s.digits final
    else if is_empty s.keys
    then Choice.crash
    else choose_extension s.keys s.digits final

module _ ⦃ctx : Ctx⦄ where
  unfoldable pub ivr_prompt : Text → Done
  ivr_prompt channel = do
    found ← session_of channel
    elim found [
      | none ↦ done
      | some s ↦
          let media =
            if is_empty s.plan.media then codes "sound:custom/ivr-welcome" else s.plan.media in
          attempt (answer_channel channel) (λ _. done)
          >> attempt (play_channel_media channel media (playback_name s)) (λ _.
            attempt
              (play_channel_media channel (codes "sound:vm-enter-num-to-call") (playback_name s))
              (λ _. done))
          >> (ask ctx.monotonic >>= λ now.
              put_session
                (record s { deadline = now + s.input_timeout * 1000000; resolve_after = 0 }))
    ]

  -- Close the menu: the session goes and the prompt stops.
  unfoldable pub leave_menu : Session → Done
  leave_menu s = end_session s.channel_id >> stop_playback (playback_name s)

  unfoldable pub menu_plan : Session → Plan → List Text → Option ℕ → Plan
  menu_plan s plan destinations owner =
      ctx.apply_desk_handling (record plan { destinations = some destinations }) destinations
        s.number owner

  unfoldable pub has_destinations : Plan → Bool
  has_destinations plan = elim plan.destinations [ none ↦ false | some l ↦ not (is_empty l) ]

  unfoldable pub take_legs : Text → Text → List (Text × Text) → Text × Text → M (Option Call)
  take_legs call_id extension legs head = update_call call_id (
      Change.extension extension
      ∷ Change.employee_channel_id (some head.0)
      ∷ Change.employee_channel_ids (join_legs legs)
      ∷ [])

  unfoldable pub ring_choice : Session → Plan → Text → Done
  unfolding take_legs
  ring_choice s plan extension = do
    legs ←
        ring_legs s.call_id s.channel_id (ring_seconds plan) (λ _ place. place)
          (numbered_devices s.number (extension ∷ [])) []
    elim legs [
      | [] ↦ get_call s.call_id >>= λ found.
          need found >>= λ call. inbound_no_answer call plan (codes "ivr_extension_unavailable")
      | head ∷ others ↦
          take_legs s.call_id extension (head ∷ others) head >> get_call s.call_id >>= λ updated.
          notify_with Event.ivr_extension_selected updated
            ((codes "digits", s.digits) ∷ (codes "extension", extension) ∷ [])
    ]

  unfoldable pub ivr_dial : Session → Text → Done
  unfolding ring_choice leave_menu menu_plan has_destinations
  ivr_dial s extension = do
    leave_menu s
    found ← get_call s.call_id
    let owner = row_owner (extension_row ctx.directory extension)
    let plan = menu_plan s s.plan (extension ∷ []) owner
    call ← need found
    update_call call.call_id (Change.extension extension ∷ [])
    if has_destinations plan
        then ring_choice s plan extension
        else (get_call call.call_id >>= λ row.
            need row >>= λ c. inbound_no_answer c plan not_answered)

  unfoldable pub end_menu : Session → Plan → Done
  end_menu s plan = do
    found ← get_call s.call_id
    call ← need found
    inbound_no_answer call plan (codes "ivr_no_selection")

  -- The rest of the flow: its destinations ring, for 30 seconds each.
  unfoldable pub ring_rest : Session → Plan → List Text → Text → Done
  unfolding end_menu take_legs
  ring_rest s plan destinations digits = do
    legs ←
        ring_legs s.call_id s.channel_id (λ _. 30) (λ _ place. place)
          (numbered_devices s.number destinations) []
    elim legs [
      | [] ↦ end_menu s plan
      | head ∷ others ↦
          take_legs s.call_id head.1 (head ∷ others) head >> get_call s.call_id >>= λ updated.
          notify_with Event.ivr_fallback updated ((codes "digits", digits) ∷ [])
    ]

  unfoldable pub number_owner : Text → Option ℕ
  number_owner number =
      elim (find (λ (n : NumberRow). text_eq n.number number) ctx.directory.numbers) [
        | none ↦ none
        | some n ↦ n.owner
      ]

  unfoldable pub ivr_fallback : Session → Text → Done
  unfolding ring_rest leave_menu menu_plan number_owner
  ivr_fallback s digits = do
    leave_menu s
    let plan = menu_plan s s.plan s.plan.fallback_destinations (number_owner s.number)
    if is_empty s.plan.fallback
        then ring_rest s plan (elim plan.destinations [ none ↦ [] | some l ↦ l ]) digits
        else ivr_dial (record s { digits = digits }) s.plan.fallback

  unfoldable pub ivr_retry : Session → Text → Done
  ivr_retry s digits =
      if ltb (s.tries + 1) s.attempts
      then put_session (record s { tries = s.tries + 1; digits = [] }) >> ivr_prompt s.channel_id
      else ivr_fallback s digits

  unfoldable pub ivr_wait : Session → Done
  ivr_wait s =
      ask ctx.monotonic >>= λ now. put_session (record s { resolve_after = now + interdigit })

  unfoldable pub ivr_act : Session → Choice → Done
  unfolding ivr_wait
  ivr_act s Choice.nothing_yet = done
  ivr_act s (Choice.dial target) = ivr_dial s target
  ivr_act s Choice.wait = ivr_wait s
  ivr_act s Choice.invalid = ivr_retry s s.digits
  ivr_act s Choice.crash = raise Error.attribute_error

  unfoldable pub ivr_resolve : Session → Bool → Done
  unfolding ivr_act
  ivr_resolve s final = ivr_act s (choose s final)

  unfoldable pub ivr_digit : Text → Text → Done
  unfolding ivr_resolve
  ivr_digit channel digit = do
    found ← session_of channel
    elim found [
      | none ↦ done
      | some s ↦
          let s' = record s { digits = take 6 (s.digits ++ digit) } in
          if is_numeric digit then put_session s' >> ivr_resolve s' false else done
    ]

  -- One waiting caller; was there anything to do?
  unfoldable pub ivr_timeout : ℕ → Session → M Bool
  unfolding ivr_resolve
  ivr_timeout clock s =
      if not (s.resolve_after == 0) && leb s.resolve_after clock
      then ivr_resolve s true >> pure true
      else if ltb clock s.deadline
      then pure false
      else if is_empty s.digits
      then ivr_retry s [] >> pure true
      else ivr_resolve s true >> pure true

  unfoldable pub ivr_timeouts : ℕ → ℕ → List (Text × Session) → M ℕ
  unfolding ivr_timeout
  ivr_timeouts clock handled [] = pure handled
  ivr_timeouts clock handled ((channel, s) ∷ rest) = do
    moved ← ivr_timeout clock s
    ivr_timeouts clock (if moved then handled + 1 else handled) rest

  unfoldable pub process_ivr_timeouts : ℕ → M ℕ
  unfolding ivr_timeouts
  process_ivr_timeouts clock = do sessions ← gets (λ w. w.sessions); ivr_timeouts clock 0 sessions

  -- `_start_ivr`, for a channel with a name
  unfoldable pub new_session : Call → Text → Plan → Session
  new_session call channel plan = record {
    call_id = call.call_id;
    channel_id = channel;
    extension = call.extension;
    number = text_or_empty call.caller_id_number;
    digits = [];
    tries = 0;
    attempts = max 1 (or_default plan.attempts 2);
    input_timeout = max 2 (or_default plan.input_timeout 6);
    key_map = plan.key_map;
    keys = plan.extensions;
    plan = plan;
    deadline = 0;
    resolve_after = 0;
  }

  unfoldable pub start_ivr : Call → Text → Plan → M (Option Call)
  unfolding new_session
  start_ivr call channel plan =
      if is_empty channel
      then pure none
      else modify
          (λ w. record w { sessions = insert channel (new_session call channel plan) w.sessions })
        >> ivr_prompt channel
        >> pure (some call)
