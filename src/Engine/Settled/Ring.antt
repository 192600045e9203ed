-- ===== src/Engine/Settled/Ring.antt =====
-- What happens when nobody answers keeps the table.
use calling_integration.Prelude.{
  ℕ, ◌≡◌, refl, sym, ◌∙◌, Bool, true, false, List, [], ◌∷◌, none, some, Text, is_some, not,
  is_empty, text_or_empty, strip, or_default,
}
use calling_integration.Naming.{extension_mailbox}
use calling_integration.Calls.{Call, Change, Table, Status, is_column}
use calling_integration.Calls.Rows.{written, get-own}
use calling_integration.Engine.Plan.{Plan}
use calling_integration.Engine.World.{M, pure, ◌>>=◌, ◌>>◌}
use calling_integration.Engine.Context.{Ctx}
use calling_integration.Engine.Asterisk.{create_forward_leg}
use calling_integration.Engine.Dial.{provider_endpoint}
use calling_integration.Engine.World.{attempt}
use calling_integration.Engine.Ring.{
  Device, index_leg, forget_leg, ring_legs, hand_to_voicemail, place_forward, forward_call,
  miss_call, end_unanswered, no_answer_over, fall_through, adopt_fallback, ring_fallback_desk,
  ring_fallbacks, inbound_no_answer, is_rerung,
}
use calling_integration.Engine.Logic.{IsSound, Quiet, Keeps, Any}
use calling_integration.Engine.Logic.Rules.{
  pure-Quiet, bind-Quiet, attempt-Quiet, option-Quiet, modify-Quiet, for_each-Quiet, get_call-Quiet,
  Quiet-Keeps, Quiet-then, keep-then, if-Keeps, test-Keeps, option-Keeps, weaken-Keeps, sound-Keeps,
}
use calling_integration.Engine.Logic.Branches.{
  option_need, Agrees, Declines, pure-Agrees, Quiet-Declines, Agrees-Declines, bind-Agrees,
  bind-Declines, if-Declines, option-Declines, unless_done,
}
use calling_integration.Engine.Logic.Writes.{Permits, update-then}
use calling_integration.Engine.Quiet.{
  notify_with-Quiet, hangup_option-Quiet, continue_in_dialplan-Quiet, create_forward_leg-Quiet,
  create_inbound_employee_leg-Quiet, provider_endpoint-Quiet,
}
use calling_integration.Engine.Settled.Progress.{
  IsLive, IsHere, IsFresh, fresh-IsLive, progress_permitted, progress-Keeps,
}
use calling_integration.Engine.Settled.Finish.{finalize-Keeps}

pub index_leg-Quiet : (leg id : Text) → Quiet (index_leg leg id)
unfolding index_leg
index_leg-Quiet leg id = modify-Quiet _ (λ w. refl)

pub forget_leg-Quiet : (leg : Text) → Quiet (forget_leg leg)
unfolding forget_leg
forget_leg-Quiet leg = modify-Quiet _ (λ w. refl)

-- The two ends of an unanswered call, by its status.
by_forwarding-Keeps :
    (s : Status) {P : Table → Type 0} {m n : M Bool}
    → Keeps P m
    → Keeps P n
    → Keeps P (elim s as (λ _. M Bool) [ Status.forwarding ↦ m | _ ↦ n ])
by_forwarding-Keeps Status.forwarding p q = p
by_forwarding-Keeps _ p q = q

by_forwarding-Declines :
    (s : Status) {m n : M Bool}
    → Declines m
    → Declines n
    → Declines (elim s as (λ _. M Bool) [ Status.forwarding ↦ m | _ ↦ n ])
by_forwarding-Declines Status.forwarding p q = p
by_forwarding-Declines _ p q = q

module _ ⦃ctx : Ctx⦄ where
  pub ring_legs-Quiet :
      (id customer : Text) (seconds : Text → ℕ) (number : List (Text × Text) → ℕ → ℕ)
      (devices : List Device) (legs : List (Text × Text))
      → Quiet (ring_legs id customer seconds number devices legs)
  unfolding ring_legs
  ring_legs-Quiet id customer seconds number [] legs = pure-Quiet legs
  ring_legs-Quiet id customer seconds number (d ∷ devices) legs =
      bind-Quiet
        (attempt-Quiet
          (bind-Quiet (create_inbound_employee_leg-Quiet _ _ _ _ _ _)
            (λ leg. pure-Quiet (some leg)))
          (λ _. pure-Quiet none))
        λ rung. option-Quiet rung (ring_legs-Quiet id customer seconds number devices legs) λ leg.
          bind-Quiet (index_leg-Quiet leg id)
            λ _. ring_legs-Quiet id customer seconds number devices _

  hand_to_voicemail-Quiet :
      (call : Call) (mailbox why : Text) → Quiet (hand_to_voicemail call mailbox why)
  unfolding hand_to_voicemail
  hand_to_voicemail-Quiet call mailbox why =
      attempt-Quiet
        (bind-Quiet
          (bind-Quiet (continue_in_dialplan-Quiet _ _ _) (λ _. notify_with-Quiet _ (some call) _))
          (λ _. pure-Quiet _))
        (λ _. bind-Quiet (hangup_option-Quiet _) (λ _. pure-Quiet _))

  place_forward-Keeps :
      (call : Call) (plan : Plan) (leg : Text)
      → Keeps (IsLive call.call_id) (place_forward call plan leg)
  unfolding place_forward
  place_forward-Keeps call plan leg = Quiet-then (index_leg-Quiet leg call.call_id) λ _.
      keep-then (progress-Keeps call.call_id Status.forwarding _ refl refl (λ t p. p)) λ _.
        Quiet-Keeps
          (bind-Quiet (get_call-Quiet call.call_id) λ updated. notify_with-Quiet _ updated _)

  placed-Quiet :
      (call : Call) (plan : Plan) (phone : Text)
      → Quiet (
          attempt
            (provider_endpoint (text_or_empty call.provider) >>= λ p.
              create_forward_leg call.call_id phone p.0
                (text_or_empty call.customer_channel_id)
                (or_default plan.forward_timeout 25)
              >>= λ leg. pure (some leg))
            (λ _. pure none))
  placed-Quiet call plan phone =
      attempt-Quiet
        (bind-Quiet (provider_endpoint-Quiet _)
          λ p. bind-Quiet (create_forward_leg-Quiet _ _ _ _ _) λ leg. pure-Quiet (some leg))
        (λ _. pure-Quiet none)

  forward_call-Keeps :
      (call : Call) (plan : Plan) → Keeps (IsLive call.call_id) (forward_call call plan)
  unfolding forward_call
  forward_call-Keeps call plan =
      if-Keeps (is_empty (strip plan.forward)) (Quiet-Keeps (pure-Quiet false)) (
        Quiet-then (placed-Quiet call plan (strip plan.forward)) λ placed.
          option-Keeps placed (Quiet-Keeps (pure-Quiet false)) λ leg e.
            keep-then (place_forward-Keeps call plan leg) (λ _. Quiet-Keeps (pure-Quiet true)))

  forward_call-Declines : (call : Call) (plan : Plan) → Declines (forward_call call plan)
  unfolding forward_call
  forward_call-Declines call plan =
      if-Declines (is_empty (strip plan.forward)) (Quiet-Declines (pure-Quiet false)) (
        bind-Declines (placed-Quiet call plan (strip plan.forward)) λ placed.
          option-Declines placed (Quiet-Declines (pure-Quiet false))
            λ leg. Agrees-Declines (bind-Agrees (place_forward call plan leg) (λ _. pure-Agrees)))

  miss_call-Keeps : {P : Table → Type 0} (call : Call) (why : Text) → Keeps P (miss_call call why)
  unfolding miss_call
  miss_call-Keeps call why =
      Quiet-then (bind-Quiet (notify_with-Quiet _ (some call) _) (λ _. hangup_option-Quiet _))
        λ _. weaken-Keeps (λ t p. tt) (finalize-Keeps call.call_id why [])

  pub end_unanswered-Keeps :
      (call : Call) (plan : Plan) (why : Text) → Keeps (IsFresh call) (end_unanswered call plan why)
  unfolding end_unanswered
  end_unanswered-Keeps call plan why =
      if-Keeps (not (is_empty (extension_mailbox plan.voicemail)))
        (Quiet-then (hand_to_voicemail-Quiet call _ why)
          λ handed. weaken-Keeps (λ t p. tt) (finalize-Keeps call.call_id why handed))
        (unless_done
          (by_forwarding-Keeps call.status (Quiet-Keeps (pure-Quiet false))
            (weaken-Keeps (fresh-IsLive call) (forward_call-Keeps call plan)))
          (by_forwarding-Declines call.status (Quiet-Declines (pure-Quiet false))
            (forward_call-Declines call plan))
          (miss_call-Keeps call why))

  -- An open record has no end time, so its row has not ended.
  open-IsFresh :
      (call : Call) (t : Table)
      → is_some call.ended_at ≡ false
      → IsSound t
      → IsHere call t
      → IsFresh call t
  open-IsFresh call t unended sound here =
      (here, sym ((sound.1 call.call_id call here).ended) ∙ unended)

  pub no_answer_over-Keeps :
      (ring : Call → Plan → M Bool)
      → ((c : Call) (p : Plan) → Keeps (IsFresh c) (ring c p))
      → ((c : Call) (p : Plan) → Declines (ring c p))
      → (call : Call) (plan : Plan) (why : Text)
      → Keeps (IsHere call) (no_answer_over ring call plan why)
  unfolding no_answer_over
  no_answer_over-Keeps ring kept declines call plan why =
      test-Keeps (is_some call.ended_at) (λ _. Quiet-Keeps (pure-Quiet tt))
        λ unended.
          sound-Keeps {Q = IsFresh call} (λ t. open-IsFresh call t unended)
            (unless_done
              (if-Keeps (is_rerung call.status) (Quiet-Keeps (pure-Quiet false)) (kept call plan))
              (if-Declines (is_rerung call.status) (Quiet-Declines (pure-Quiet false))
                (declines call plan))
              (end_unanswered-Keeps call plan why))

  extended_permitted :
      (id first : Text) (t : Table)
      → IsLive id t
      → Permits id (written (Change.extension first ∷ Change.status Status.ringing_fallback ∷ [])) t
  unfolding is_column
  extended_permitted id first t live =
      progress_permitted id Status.ringing_fallback (Change.extension first ∷ []) t refl refl live

  fall_through-Keeps :
      (call : Call) (next : Plan) (first : Text)
      → Keeps (IsLive call.call_id) (fall_through call next first)
  unfolding fall_through
  fall_through-Keeps call next first =
      update-then call.call_id _ (λ t sound. extended_permitted call.call_id first t) Any
        (λ t u p e. tt)
        λ updated. option_need updated λ row e.
          keep-then
            (weaken-Keeps (λ t p. get-own call.call_id t row (p.1 ∙ e))
              (no_answer_over-Keeps (λ _ _. pure false) (λ _ _. Quiet-Keeps (pure-Quiet false))
                (λ _ _. Quiet-Declines (pure-Quiet false)) row next _))
            (λ _. Quiet-Keeps (pure-Quiet true))

  adopt_fallback-Keeps :
      (call : Call) (fallbacks : List Text) (head : Text × Text) (legs : List (Text × Text))
      → Keeps (IsLive call.call_id) (adopt_fallback call fallbacks head legs)
  unfolding adopt_fallback
  adopt_fallback-Keeps call fallbacks head legs =
      Quiet-then (for_each-Quiet _ forget_leg-Quiet) λ _.
        keep-then (progress-Keeps call.call_id Status.ringing_fallback _ refl refl (λ t p. p)) λ _.
          Quiet-Keeps
            (bind-Quiet (get_call-Quiet call.call_id) λ updated. notify_with-Quiet _ updated _)

  rung_fallback-Keeps :
      (call : Call) (next : Plan) (first : Text) (fallbacks : List Text) (legs : List (Text × Text))
      → Keeps (IsLive call.call_id) (elim legs as (λ _. M Bool) [
        | [] ↦ fall_through call next first
        | head ∷ others ↦ adopt_fallback call fallbacks head others >> pure true
      ])
  rung_fallback-Keeps call next first fallbacks [] = fall_through-Keeps call next first
  rung_fallback-Keeps call next first fallbacks (head ∷ others) =
      keep-then (adopt_fallback-Keeps call fallbacks head others)
        (λ _. Quiet-Keeps (pure-Quiet true))

  ring_fallback_desk-Keeps :
      (call : Call) (plan : Plan) (first : Text) (fallbacks : List Text)
      → Keeps (IsLive call.call_id) (ring_fallback_desk call plan first fallbacks)
  unfolding ring_fallback_desk
  ring_fallback_desk-Keeps call plan first fallbacks =
      Quiet-then (ring_legs-Quiet _ _ _ _ _ _)
        λ legs. rung_fallback-Keeps call _ first fallbacks legs

  fall_through-Agrees :
      (call : Call) (next : Plan) (first : Text) → Agrees (fall_through call next first)
  unfolding fall_through
  fall_through-Agrees call next first =
      bind-Agrees _ λ updated. bind-Agrees _ λ row. bind-Agrees _ λ _. pure-Agrees

  rung_fallback-Agrees :
      (call : Call) (next : Plan) (first : Text) (fallbacks : List Text) (legs : List (Text × Text))
      → Agrees (elim legs as (λ _. M Bool) [
        | [] ↦ fall_through call next first
        | head ∷ others ↦ adopt_fallback call fallbacks head others >> pure true
      ])
  rung_fallback-Agrees call next first fallbacks [] = fall_through-Agrees call next first
  rung_fallback-Agrees call next first fallbacks (head ∷ others) = bind-Agrees _ (λ _. pure-Agrees)

  ring_fallback_desk-Agrees :
      (call : Call) (plan : Plan) (first : Text) (fallbacks : List Text)
      → Agrees (ring_fallback_desk call plan first fallbacks)
  unfolding ring_fallback_desk
  ring_fallback_desk-Agrees call plan first fallbacks =
      bind-Agrees _ λ legs. rung_fallback-Agrees call _ first fallbacks legs

  -- The rows of a call's fallback desks.
  desks-Keeps :
      (call : Call) (plan : Plan) (desks : List Text)
      → Keeps (IsLive call.call_id) (elim desks as (λ _. M Bool) [
        | [] ↦ pure false
        | first ∷ rest ↦ ring_fallback_desk call plan first (first ∷ rest)
      ])
  desks-Keeps call plan [] = Quiet-Keeps (pure-Quiet false)
  desks-Keeps call plan (first ∷ rest) = ring_fallback_desk-Keeps call plan first (first ∷ rest)

  desks-Declines :
      (call : Call) (plan : Plan) (desks : List Text)
      → Declines (elim desks as (λ _. M Bool) [
        | [] ↦ pure false
        | first ∷ rest ↦ ring_fallback_desk call plan first (first ∷ rest)
      ])
  desks-Declines call plan [] = Quiet-Declines (pure-Quiet false)
  desks-Declines call plan (first ∷ rest) =
      Agrees-Declines (ring_fallback_desk-Agrees call plan first (first ∷ rest))

  ring_fallbacks-Keeps :
      (call : Call) (plan : Plan) → Keeps (IsFresh call) (ring_fallbacks call plan)
  unfolding ring_fallbacks
  ring_fallbacks-Keeps call plan = weaken-Keeps (fresh-IsLive call) (desks-Keeps call plan _)

  ring_fallbacks-Declines : (call : Call) (plan : Plan) → Declines (ring_fallbacks call plan)
  unfolding ring_fallbacks
  ring_fallbacks-Declines call plan = desks-Declines call plan _

  pub inbound_no_answer-Keeps :
      (call : Call) (plan : Plan) (why : Text)
      → Keeps (IsHere call) (inbound_no_answer call plan why)
  unfolding inbound_no_answer
  inbound_no_answer-Keeps =
      no_answer_over-Keeps ring_fallbacks ring_fallbacks-Keeps ring_fallbacks-Declines
