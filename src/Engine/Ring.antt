-- ===== src/Engine/Ring.antt =====
-- The employee's devices are rung, and what happens when nobody answers (`_inbound_no_answer`,
-- `_forward_call`, `_ring_fallbacks`).
use calling_integration.Prelude.{
  ℕ, ◌+◌, suc, Bool, true, false, List, [], ◌∷◌, ◌++◌, not, none, some, Text, is_empty,
  if◌then◌else◌, codes, text_or_empty, is_some, select, split, join, map, lookup, insert, erase,
  length, strip, or_default,
}
use calling_integration.Naming.{extension_mailbox}
use calling_integration.Directory.{extension_row, row_owner}
use calling_integration.Calls.{Call, Change, Status}
use calling_integration.Engine.Plan.{Event, Plan}
use calling_integration.Engine.World.{
  M, Done, pure, done, modify, attempt, for_each, need, get_call, update_call, ◌>>=◌, ◌>>◌,
}
use calling_integration.Engine.Context.{Ctx}
use calling_integration.Engine.Asterisk.{
  hangup_option, continue_in_dialplan, create_forward_leg, create_inbound_employee_leg,
}
use calling_integration.Engine.Notify.{notify_with, reason}
use calling_integration.Engine.Dial.{dial_endpoints, provider_endpoint}
use calling_integration.Engine.Legs.{leg_channels, join_legs}
use calling_integration.Engine.Finish.{finalize}

-- `self._leg_index[leg] = call_id`
unfoldable pub index_leg : Text → Text → Done
index_leg leg call_id = modify (λ w. record w { leg_index = insert leg call_id w.leg_index })

-- `self._leg_index.pop(leg, None)`
unfoldable pub forget_leg : Text → Done
forget_leg leg = modify (λ w. record w { leg_index = erase leg w.leg_index })

-- How long a desk rings: its own time, or the plan's, or 30 seconds.
unfoldable pub ring_seconds : Plan → Text → ℕ
ring_seconds plan destination = elim (lookup destination plan.timeouts) [
  | none ↦ or_default plan.timeout 30
  | some n ↦ n
]

-- One device to ring: the extension, its endpoint, and its place in the order.
pub record Device : Type 0 where
  pub destination : Text
  pub target : Text
  pub place : ℕ

devices_from : Text → ℕ → List Text → List Device
devices_from destination n [] = []
devices_from destination n (target ∷ targets) =
    record { destination = destination; target = target; place = n }
    ∷ devices_from destination (suc n) targets

-- `enumerate` over a whole dial plan.
renumber : ℕ → List Device → List Device
renumber n [] = []
renumber n (d ∷ devices) = record d { place = n } ∷ renumber (suc n) devices

module _ ⦃ctx : Ctx⦄ where
  -- Every device of the destinations, numbered within its destination.
  unfoldable pub devices_of : Text → List Text → List Device
  unfolding devices_from
  devices_of number [] = []
  devices_of number (destination ∷ rest) =
      devices_from destination 0 (dial_endpoints destination number) ++ devices_of number rest

  unfoldable pub numbered_devices : Text → List Text → List Device
  unfolding devices_of renumber
  numbered_devices number destinations = renumber 0 (devices_of number destinations)

  -- Ring each device; a leg that is not created is passed over. `channel_number` numbers a leg
  -- from the legs so far and the device's place.
  unfoldable pub ring_legs :
      Text
      → Text
      → (Text → ℕ)
      → (List (Text × Text) → ℕ → ℕ)
      → List Device
      → List (Text × Text)
      → M (List (Text × Text))
  ring_legs call_id customer seconds channel_number [] legs = pure legs
  ring_legs call_id customer seconds channel_number (d ∷ devices) legs = do
    rung ←
        attempt
          (create_inbound_employee_leg call_id d.destination customer (channel_number legs d.place)
              d.target (seconds d.destination)
            >>= λ leg. pure (some leg))
          (λ _. pure none)
    elim rung [
      | none ↦ ring_legs call_id customer seconds channel_number devices legs
      | some leg ↦
          index_leg leg call_id
          >> ring_legs call_id customer seconds channel_number devices
              (legs ++ (leg, d.destination) ∷ [])
    ]

  unfoldable pub hand_to_voicemail : Call → Text → Text → M Text
  hand_to_voicemail call mailbox why =
      let handed = text_or_empty call.customer_channel_id in
      attempt
        (continue_in_dialplan handed (codes "voicemail-inbound") mailbox
          >> notify_with Event.voicemail (some call) (reason why)
          >> pure handed)
        (λ _. hangup_option call.customer_channel_id >> pure [])

  -- Ring the forward number, and remember its leg.
  unfoldable pub place_forward : Call → Plan → Text → Done
  place_forward call plan leg = do
    index_leg leg call.call_id
    update_call call.call_id (
        Change.status Status.forwarding
        ∷ Change.employee_channel_id (some leg)
        ∷ Change.employee_channel_ids (join_legs ((leg, call.extension) ∷ []))
        ∷ [])
    updated ← get_call call.call_id
    notify_with Event.forwarding updated ((codes "phone", strip plan.forward) ∷ [])

  unfoldable pub forward_call : Call → Plan → M Bool
  unfolding place_forward
  forward_call call plan =
      let phone = strip plan.forward in
      if is_empty phone
      then pure false
      else (attempt
            (provider_endpoint (text_or_empty call.provider) >>= λ p.
              create_forward_leg call.call_id phone p.0 (text_or_empty call.customer_channel_id)
                (or_default plan.forward_timeout 25)
              >>= λ leg. pure (some leg))
            (λ _. pure none)
          >>= λ placed. elim placed [
            | none ↦ pure false
            | some leg ↦ place_forward call plan leg >> pure true
          ])

  unfoldable pub miss_call : Call → Text → Done
  miss_call call why =
      notify_with Event.missed (some call) (reason why)
      >> hangup_option call.customer_channel_id
      >> finalize call.call_id why []

  -- The ending, once no other desk is to be tried: the mailbox, the forward number, a missed call.
  unfoldable pub end_unanswered : Call → Plan → Text → Done
  unfolding hand_to_voicemail forward_call miss_call
  end_unanswered call plan why =
      let mailbox = extension_mailbox plan.voicemail in
      if not (is_empty mailbox)
      then (hand_to_voicemail call mailbox why >>= λ handed. finalize call.call_id why handed)
      else (elim call.status [ Status.forwarding ↦ pure false | _ ↦ forward_call call plan ]
          >>= λ forwarded. if forwarded then done else miss_call call why)

  abbrev pub is_rerung : Status → Bool
  is_rerung Status.forwarding = true
  is_rerung Status.ringing_fallback = true
  is_rerung _ = false

  -- `_inbound_no_answer`, over the `_ring_fallbacks` that it calls.
  unfoldable pub no_answer_over : (Call → Plan → M Bool) → Call → Plan → Text → Done
  no_answer_over ring call plan why =
      if is_some call.ended_at
      then done
      else ((if is_rerung call.status then pure false else ring call plan) >>= λ rung.
          if rung then done else end_unanswered call plan why)

  unfoldable pub not_answered : Text
  not_answered = codes "inbound_not_answered"

  -- The desk named by an unanswered desk cannot be rung: the call's ending applies at once. The
  -- row is `ringing_fallback` by then, so `_inbound_no_answer` rings no further desk.
  unfoldable pub fall_through : Call → Plan → Text → M Bool
  unfolding no_answer_over not_answered
  fall_through call next first = do
    updated ←
        update_call call.call_id
          (Change.extension first ∷ Change.status Status.ringing_fallback ∷ [])
    row ← need updated
    no_answer_over (λ _ _. pure false) row next not_answered
    pure true

  unfoldable pub fallback_plan : Call → Plan → Text → List Text → Plan
  fallback_plan call plan first fallbacks =
      ctx.apply_desk_handling (record plan { destinations = some fallbacks }) fallbacks
        (text_or_empty call.caller_id_number) (row_owner (extension_row ctx.directory first))

  -- Remember the legs of the fallback desk behind those that died.
  unfoldable pub adopt_fallback : Call → List Text → Text × Text → List (Text × Text) → Done
  adopt_fallback call fallbacks head legs = do
    for_each (leg_channels call) forget_leg
    update_call call.call_id (
        Change.status Status.ringing_fallback
        ∷ Change.employee_channel_id (some head.0)
        ∷ Change.extension head.1
        ∷ Change.employee_channel_ids (
            join b',' (
              select (λ t. not (is_empty t)) (split b',' call.employee_channel_ids)
              ++ map (λ p. p.0 ++ b'|' ∷ p.1) (head ∷ legs)))
        ∷ [])
    updated ← get_call call.call_id
    notify_with Event.employee_ringing updated ((codes "fallbacks", join b',' fallbacks) ∷ [])

  unfoldable pub destinations_of : Plan → List Text
  destinations_of plan = elim plan.destinations [ none ↦ [] | some l ↦ l ]

  unfoldable pub ring_fallback_desk : Call → Plan → Text → List Text → M Bool
  unfolding fall_through fallback_plan adopt_fallback destinations_of
  ring_fallback_desk call plan first fallbacks = do
    let next = fallback_plan call plan first fallbacks
    legs ←
        ring_legs call.call_id (text_or_empty call.customer_channel_id) (ring_seconds next)
          (λ legs place. 10 + length legs + place)
          (devices_of (text_or_empty call.caller_id_number) (destinations_of next)) []
    elim legs [
      | [] ↦ fall_through call next first
      | head ∷ others ↦ adopt_fallback call fallbacks head others >> pure true
    ]

  unfoldable pub ring_fallbacks : Call → Plan → M Bool
  unfolding ring_fallback_desk
  ring_fallbacks call plan = elim (select (λ t. not (is_empty t)) plan.fallbacks) [
    | [] ↦ pure false
    | first ∷ rest ↦ ring_fallback_desk call plan first (first ∷ rest)
  ]

  -- `_inbound_no_answer`
  unfoldable pub inbound_no_answer : Call → Plan → Text → Done
  unfolding no_answer_over
  inbound_no_answer = no_answer_over ring_fallbacks
