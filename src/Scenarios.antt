-- ===== src/Scenarios.antt =====
-- Concrete services and calls, on which the theorems are applied.
mod Deliveries
mod Requests
mod Access
mod Journeys
use calling_integration.Prelude.{
  ℕ, ◌≡◌, refl, sym, true, false, List, [], ◌∷◌, none, some, Text, codes, is_empty, digits_of, ◌++◌,
  strip, IsIn, ◌↔◌, inl, inr, ◌+◌, ◌==◌, if◌then◌else◌, is_digit, is_numeric, is_space, all_digits,
  ◌∙◌, subst, Bool-cases, text_eq,
}
use calling_integration.Naming.{
  extension_digits, extension_scope, extension_key, endpoint_name, extension_mailbox, channel_name,
  mailbox_name,
}
use calling_integration.Naming.Unique.{IsExtension, extension_key-parts, endpoint_name_unique}
use calling_integration.Directory.{Directory, ExtensionRow, NumberRow, resolve_extension}
use calling_integration.Directory.Lines.{IsKeyed, Sees, resolve_extension-exact}
use calling_integration.Calls.{
  Call, Table, Status, Direction, Stamp, get, mark_recording_finalizing,
}
use calling_integration.Calls.Rows.{
  touched, map_found, get-mark_recording_finalizing, finalizing_row,
}
use calling_integration.Engine.Dial.{row_endpoints}
use calling_integration.Engine.Dial.Identity.{one_identity}
use calling_integration.Engine.Plan.{Plan, Act}
use calling_integration.Engine.World.{World, pure}
use calling_integration.Engine.Context.{Ctx, Reply}
use calling_integration.Engine.Answer.{start_bridge}
use calling_integration.Engine.Finish.{finalize}
use calling_integration.Prelude.{mem_text, starts_with, before}
use calling_integration.Engine.Plan.{Session}
use calling_integration.Engine.Menu.{Choice, choose_extension, process_ivr_timeouts}
use calling_integration.Prelude.{has_char, is_space}
use calling_integration.Engine.Legs.{leg_pairs, join_legs}
use calling_integration.Engine.Legs.Stored.{IsLeg, leg_pairs-join_legs}
use calling_integration.Engine.Menu.Choices.{choose_extension-dial}
use calling_integration.Engine.Ring.{inbound_no_answer, no_answer_over}
use calling_integration.Engine.Start.{start_outbound}
use calling_integration.Engine.Events.{AriEvent, run_events, on_event}
use calling_integration.Engine.Service.{Step, Steps}
use calling_integration.Engine.Logic.{IsConsistent, IsSound, Stays}
use calling_integration.Engine.Settled.Service.{
  Steps-IsSound, Steps-status, Steps-answered, run_events-IsSound, inbound_no_answer-IsSound,
  start_bridge-IsSound, finalize-IsSound, start_outbound-IsSound, process_ivr_timeouts-IsSound,
  empty-IsSound,
}

abbrev desk : ExtensionRow
desk = record {
  digits = codes "101";
  number = codes "+15550100";
  sip_username = codes "desk";
  webrtc_enabled = false;
  recording_enabled = true;
  voicemail_enabled = true;
  active = true;
  owner = some 7;
}

abbrev line : NumberRow
line = record {
  id = 1;
  number = codes "+15550100";
  provider = codes "trunk";
  inbound_extension = codes "101@+15550100";
  default_outbound = true;
  active = true;
  owner = some 7;
}

abbrev office : Directory
office = record { extensions = desk ∷ []; numbers = line ∷ [] }

abbrev desk_plan : Plan
desk_plan = record {
  kind = codes "ring";
  destinations = some (codes "101@+15550100" ∷ []);
  timeout = some 20;
  timeouts = [];
  voicemail = codes "101@+15550100";
  forward = [];
  forward_timeout = none;
  fallbacks = [];
  fallback = [];
  fallback_destinations = [];
  media = [];
  attempts = none;
  input_timeout = none;
  key_map = [];
  extensions = [];
  outside_hours = false;
}

-- Asterisk carries out every request, but the fourth is refused.
abbrev replies : ℕ → Act → Reply
replies turn act = if turn == 3 then Reply.refused else Reply.carried_out

instance abbrev demo : Ctx
demo = record {
  directory = office;
  inbound_plan = λ _ _ _. desk_plan;
  apply_desk_handling = λ plan _ _ _. plan;
  number_flow_anchor = λ _. codes "101@+15550100";
  customer_fallback = λ _. [];
  provider = λ _. some (codes "PJSIP/{number}@trunk");
  provider_digest = λ p. p;
  webhooks = [];
  crm_webhook_url = [];
  settings = (codes "recording_enabled", codes "yes") ∷ [];
  ari_ready = λ _. true;
  reply = replies;
  channels = λ _. some [];
  stored_recording = λ _ _. some none;
  recording_path = codes "/recordings";
  now = λ n. 1000000 + n;
  monotonic = λ n. n;
  new_id = λ n. codes "call-1";
}

abbrev service_with : Table → World
service_with calls = record {
  calls = calls;
  leg_index = [];
  sessions = [];
  finalizing = [];
  log = [];
  turn = 0;
}

abbrev ringing_call : Call
ringing_call = record {
  call_id = codes "a";
  contact_id = none;
  member_id = none;
  extension = codes "101@+15550100";
  phone = codes "+15550199";
  caller_id_number = some (codes "+15550100");
  provider = some (codes "trunk");
  direction = Direction.inbound;
  status = Status.ringing;
  answered = false;
  started_at = Stamp.aware 5;
  answered_at = none;
  ended_at = none;
  duration_seconds = 0;
  employee_channel_id = some (codes "employee");
  employee_channel_ids = [];
  customer_channel_id = some (codes "customer");
  bridge_id = none;
  recording_name = none;
  recording_format = none;
  recording_status = none;
  recording_path = none;
  disposition = none;
  notes = none;
}

abbrev finished_call : Call
finished_call = record ringing_call {
  status = Status.completed;
  answered = true;
  answered_at = some (Stamp.aware 6);
  ended_at = some (Stamp.aware 9);
}

abbrev two_events : List AriEvent
two_events =
    AriEvent.state_change (codes "employee") true ∷ AriEvent.destroyed (codes "customer") ∷ []

-- A table of one row.
one_row : (c : Call) → IsConsistent c → IsSound (c ∷ [])
unfolding get
one_row c k = ((refl, tt), rows)
  where
    same : {a b : Call} → some a ≡ some b → a ≡ b
    same q = cc

    apart : {a : Call} → none ≡ some a → ⊥
    apart q = cc

    rows : (id : Text) (d : Call) → get id (c ∷ []) ≡ some d → IsConsistent d
    rows id d h = elim (Bool-cases (text_eq c.call_id id)) [
      | inl u ↦ subst IsConsistent (same (rw u at h)) k
      | inr u ↦ absurd (apart (rw u at h))
    ]

ringing-IsSound : IsSound (ringing_call ∷ [])
ringing-IsSound =
    one_row ringing_call
      (record { ended = refl; completed = λ e. cc; timed = λ e. cc; joined = λ e. cc })

finished-IsSound : IsSound (finished_call ∷ [])
finished-IsSound =
    one_row finished_call
      (record { ended = refl; completed = λ e. refl; timed = λ e. refl; joined = λ e. cc })

ringing-here : get (codes "a") (ringing_call ∷ []) ≡ some ringing_call
unfolding get text_eq codes
ringing-here = refl

finished-here : get (codes "a") (finished_call ∷ []) ≡ some finished_call
unfolding get text_eq codes
finished-here = refl

abbrev idle : World
idle = service_with []

abbrev ringing_service : World
ringing_service = service_with (ringing_call ∷ [])

abbrev finished_service : World
finished_service = service_with (finished_call ∷ [])

-- An outbound call is dialled and hung up.
abbrev after_dial : World
after_dial = (start_outbound (codes "+15550199") (codes "101@+15550100") none none [] none idle).1

dialled : Steps idle after_dial
dialled =
    Steps.next Steps.start (Step.dial (codes "+15550199") (codes "101@+15550100") none none [] none)

Steps-IsSound_example : IsSound after_dial.calls
Steps-IsSound_example = Steps-IsSound idle after_dial refl dialled

abbrev after_destroyed : World
after_destroyed = (on_event (AriEvent.destroyed (codes "customer")) finished_service).1

destroyed_again : Steps finished_service after_destroyed
destroyed_again = Steps.next Steps.start (Step.event (AriEvent.destroyed (codes "customer")))

Steps-status_example :
    (d : Call) × (get (codes "a") after_destroyed.calls ≡ some d)
    × (d.status ≡ finished_call.status)
Steps-status_example =
    Steps-status finished_service after_destroyed (codes "a") finished_call destroyed_again
      finished-IsSound finished-here refl

Steps-answered_example :
    (d : Call) × (get (codes "a") after_destroyed.calls ≡ some d) × (d.answered ≡ true)
Steps-answered_example =
    Steps-answered finished_service after_destroyed (codes "a") finished_call destroyed_again
      finished-IsSound finished-here refl

run_events-IsSound_example : IsSound (run_events two_events ringing_service).1.calls
run_events-IsSound_example = run_events-IsSound two_events ringing_service ringing-IsSound

inbound_no_answer-IsSound_example :
    IsSound (inbound_no_answer ringing_call desk_plan (codes "missed") ringing_service).1.calls
inbound_no_answer-IsSound_example =
    inbound_no_answer-IsSound ringing_call desk_plan (codes "missed") ringing_service
      ringing-IsSound ringing-here

start_bridge-IsSound_example : IsSound (start_bridge (codes "a") ringing_service).1.calls
start_bridge-IsSound_example =
    start_bridge-IsSound (codes "a") ringing_call ringing_service ringing-IsSound ringing-here refl

finalize-IsSound_example :
    IsSound (finalize (codes "a") (codes "hangup") [] ringing_service).1.calls
    × Stays ringing_service.calls (finalize (codes "a") (codes "hangup") [] ringing_service).1.calls
finalize-IsSound_example =
    finalize-IsSound (codes "a") (codes "hangup") [] ringing_service ringing-IsSound

start_outbound-IsSound_example : IsSound after_dial.calls
start_outbound-IsSound_example =
    start_outbound-IsSound (codes "+15550199") (codes "101@+15550100") none none [] none idle
      (empty-IsSound [] refl)

process_ivr_timeouts-IsSound_example : IsSound (process_ivr_timeouts 9 ringing_service).1.calls
process_ivr_timeouts-IsSound_example =
    process_ivr_timeouts-IsSound 9 ringing_service ringing-IsSound

-- The names of the desk.
desk-IsExtension : IsExtension (codes "101") (codes "+15550100")
unfolding codes is_numeric all_digits is_digit is_space
desk-IsExtension = record { numeric = refl; named = refl; unspaced = refl }

extension_key-parts_example :
    (extension_digits (extension_key (codes "101") (codes "+15550100")) ≡ codes "101")
    × (extension_scope (extension_key (codes "101") (codes "+15550100")) ≡ codes "+15550100")
extension_key-parts_example = extension_key-parts (codes "101") (codes "+15550100") desk-IsExtension

some_digits : is_empty (digits_of (codes "+15550100")) ≡ false
unfolding codes digits_of is_digit
some_digits = refl

one_identity_example :
    IsIn
      (codes "PJSIP/" ++ endpoint_name (extension_key (codes "101") (codes "+15550100")))
      (row_endpoints desk)
    × (channel_name (extension_key (codes "101") (codes "+15550100"))
        ≡ codes "PJSIP/" ++ endpoint_name (extension_key (codes "101") (codes "+15550100")))
    × (extension_mailbox (extension_key (codes "101") (codes "+15550100"))
        ≡ endpoint_name (extension_key (codes "101") (codes "+15550100")))
    × (mailbox_name (extension_key (codes "101") (codes "+15550100"))
        ≡ extension_mailbox (extension_key (codes "101") (codes "+15550100")))
unfolding codes
one_identity_example = one_identity desk desk-IsExtension some_digits

endpoint_name_unique_example :
    (codes "101" ≡ codes "101") × (digits_of (codes "+15550100") ≡ digits_of (codes "+15550100"))
endpoint_name_unique_example =
    endpoint_name_unique (codes "101") (codes "+15550100") (codes "101") (codes "+15550100")
      desk-IsExtension desk-IsExtension refl

-- The lookup of the desk by its line and digits.
office-IsKeyed : IsKeyed office
unfolding IsKeyed
office-IsKeyed r s (inl e) (inl f) p q = e ∙ sym f
office-IsKeyed r s (inl e) (inr m) p q = absurd m
office-IsKeyed r s (inr m) n p q = absurd m

desk_digits : is_empty desk.digits ≡ false
unfolding codes
desk_digits = refl

desk_number : is_empty desk.number ≡ false
unfolding codes
desk_number = refl

resolve_extension-exact_example :
    (resolve_extension office (codes "+15550100") (codes "101") (some 7) ≡ some desk) ↔ (
      IsIn desk office.extensions
      × (desk.number ≡ strip (codes "+15550100"))
      × (desk.digits ≡ extension_digits (codes "101"))
      × Sees (some 7) desk)
resolve_extension-exact_example =
    resolve_extension-exact office (codes "+15550100") (codes "101") (some 7) desk office-IsKeyed
      desk_digits desk_number

get-mark_recording_finalizing_example :
    get (codes "a") (mark_recording_finalizing (codes "a") (ringing_call ∷ []))
    ≡ map_found (touched (codes "a") finalizing_row) (get (codes "a") (ringing_call ∷ []))
get-mark_recording_finalizing_example =
    get-mark_recording_finalizing (codes "a") (codes "a") (ringing_call ∷ [])

-- A caller types an extension.
abbrev desk_keys : List Text
desk_keys = codes "101@+15550100" ∷ codes "102@+15550100" ∷ []

typed_desk : choose_extension desk_keys (codes "101") false ≡ Choice.dial (codes "101@+15550100")
unfolding choose_extension codes text_eq mem_text starts_with extension_digits before strip is_space
typed_desk = refl

choose_extension-dial_example :
    IsIn (codes "101@+15550100") desk_keys
    × (extension_digits (codes "101@+15550100") ≡ codes "101")
choose_extension-dial_example =
    choose_extension-dial desk_keys (codes "101") false (codes "101@+15550100") typed_desk

-- A caller whose menu maps the key 1.
abbrev key_caller : Session
key_caller = record {
  call_id = codes "a";
  channel_id = codes "customer";
  extension = codes "101@+15550100";
  number = codes "+15550100";
  digits = codes "1";
  tries = 0;
  attempts = 2;
  input_timeout = 6;
  key_map = (codes "1", codes "102@+15550100") ∷ [];
  keys = desk_keys;
  plan = desk_plan;
  deadline = 0;
  resolve_after = 5;
}

-- Two devices ring.
abbrev ringing_legs : List (Text × Text)
ringing_legs = (codes "a-employee-1", codes "102@+15550100") ∷ []

first-IsLeg : IsLeg (codes "a-employee", codes "101@+15550100")
unfolding codes has_char is_space
first-IsLeg = record {
  channel = refl;
  extension = refl;
  no_bar = refl;
  no_comma = refl;
  unspaced = refl;
}

second-IsLeg : IsLeg (codes "a-employee-1", codes "102@+15550100")
unfolding codes has_char is_space
second-IsLeg = record {
  channel = refl;
  extension = refl;
  no_bar = refl;
  no_comma = refl;
  unspaced = refl;
}

leg_pairs-join_legs_example :
    leg_pairs (record ringing_call {
      employee_channel_ids = join_legs ((codes "a-employee", codes "101@+15550100") ∷ ringing_legs);
    })
    ≡ (codes "a-employee", codes "101@+15550100") ∷ ringing_legs
leg_pairs-join_legs_example =
    leg_pairs-join_legs ringing_call (codes "a-employee", codes "101@+15550100") ringing_legs
      first-IsLeg (second-IsLeg, tt)
