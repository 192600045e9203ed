-- ===== src/Engine/Quiet.antt =====
-- The steps that write nothing to the table of calls: the requests to Asterisk, the deliveries to
-- the CRM, the legs, and the menu's own state.
use calling_integration.Prelude.{ℕ, refl, Bool, false, List, [], Option, none, some, Text}
use calling_integration.Calls.{Call}
use calling_integration.Engine.Plan.{Act, Event, Channel, Stored}
use calling_integration.Engine.World.{Error}
use calling_integration.Engine.Context.{Ctx, ask, iso_now}
use calling_integration.Engine.Asterisk
use calling_integration.Engine.Asterisk.{unless_refused}
use calling_integration.Engine.Notify.{Target, deliver, notify_with, notify_crm}
use calling_integration.Engine.Dial.{provider_endpoint}
use calling_integration.Engine.Legs.{
  call_for_channel, live_channel_ids, legs_still_ringing, customer_leg_ids, hangup_quietly,
  cancel_legs, hangup_unless, hangup_call_channels,
}
use calling_integration.Engine.Logic.{Quiet}
use calling_integration.Engine.Logic.Rules.{
  quiet_rules, bind-Quiet, attempt-Quiet, pure-Quiet, raise-Quiet, gets-Quiet, for_each-Quiet,
  if-Quiet, option-Quiet,
}

pub ask-Quiet : {A : Type 0} (f : ℕ → A) → Quiet (ask f)
unfolding ask
ask-Quiet f = record { same = λ w. refl }

unless_refused-Quiet : (e : Error) → Quiet (unless_refused e)
unfolding unless_refused
unless_refused-Quiet Error.asterisk_error = pure-Quiet tt
unless_refused-Quiet e = raise-Quiet e

module _ ⦃ctx : Ctx⦄ where
  pub request-Quiet : (act : Act) → Quiet (Asterisk.request act)
  unfolding Asterisk.request
  request-Quiet act = record { same = λ w. refl }

  pub iso_now-Quiet : Quiet iso_now
  unfolding iso_now
  iso_now-Quiet = ask-Quiet _

  pub hangup-Quiet : (channel : Text) → Quiet (Asterisk.hangup channel)
  unfolding Asterisk.hangup
  hangup-Quiet channel = search (quiet_rules, request-Quiet, unless_refused-Quiet)

  pub hangup_option-Quiet : (channel : Option Text) → Quiet (Asterisk.hangup_option channel)
  unfolding Asterisk.hangup_option
  hangup_option-Quiet channel = hangup-Quiet _

  pub hangup_call-Quiet : (a b : Option Text) → Quiet (Asterisk.hangup_call a b)
  unfolding Asterisk.hangup_call
  hangup_call-Quiet a b = search (quiet_rules, hangup_option-Quiet)

  pub stop_recording-Quiet : (name : Text) → Quiet (Asterisk.stop_recording name)
  unfolding Asterisk.stop_recording
  stop_recording-Quiet name = search (quiet_rules, request-Quiet, unless_refused-Quiet)

  pub destroy_bridge-Quiet : (bridge : Text) → Quiet (Asterisk.destroy_bridge bridge)
  unfolding Asterisk.destroy_bridge
  destroy_bridge-Quiet bridge = search (quiet_rules, request-Quiet, unless_refused-Quiet)

  pub stop_playback-Quiet : (playback : Text) → Quiet (Asterisk.stop_playback playback)
  unfolding Asterisk.stop_playback
  stop_playback-Quiet playback = search (quiet_rules, request-Quiet)

  pub answer_channel-Quiet : (channel : Text) → Quiet (Asterisk.answer_channel channel)
  unfolding Asterisk.answer_channel
  answer_channel-Quiet channel = request-Quiet _

  pub play_channel_media-Quiet :
      (channel media playback : Text) → Quiet (Asterisk.play_channel_media channel media playback)
  unfolding Asterisk.play_channel_media
  play_channel_media-Quiet channel media playback = request-Quiet _

  pub continue_in_dialplan-Quiet :
      (channel dialplan extension : Text)
      → Quiet (Asterisk.continue_in_dialplan channel dialplan extension)
  unfolding Asterisk.continue_in_dialplan
  continue_in_dialplan-Quiet channel dialplan extension = request-Quiet _

  pub create_bridge-Quiet : (id : Text) → Quiet (Asterisk.create_bridge id)
  unfolding Asterisk.create_bridge
  create_bridge-Quiet id = request-Quiet _

  pub add_channel_to_bridge-Quiet :
      (bridge channel : Text) → Quiet (Asterisk.add_channel_to_bridge bridge channel)
  unfolding Asterisk.add_channel_to_bridge
  add_channel_to_bridge-Quiet bridge channel = request-Quiet _

  pub start_bridge_recording-Quiet :
      (bridge name format : Text) (beep : Bool) (n : ℕ)
      → Quiet (Asterisk.start_bridge_recording bridge name format beep n)
  unfolding Asterisk.start_bridge_recording
  start_bridge_recording-Quiet bridge name format beep n = request-Quiet _

  pub play_bridge_media-Quiet :
      (bridge media : Text) → Quiet (Asterisk.play_bridge_media bridge media)
  unfolding Asterisk.play_bridge_media
  play_bridge_media-Quiet bridge media = search (quiet_rules, request-Quiet)

  pub create_outbound_call-Quiet :
      (id extension endpoint : Text) (index : ℕ)
      → Quiet (Asterisk.create_outbound_call id extension endpoint index)
  unfolding Asterisk.create_outbound_call
  create_outbound_call-Quiet id extension endpoint index = request-Quiet _

  pub create_inbound_employee_leg-Quiet :
      (id extension customer : Text) (index : ℕ) (endpoint : Text) (timeout : ℕ)
      → Quiet (Asterisk.create_inbound_employee_leg id extension customer index endpoint timeout)
  unfolding Asterisk.create_inbound_employee_leg
  create_inbound_employee_leg-Quiet id extension customer index endpoint timeout =
      search (quiet_rules, request-Quiet)

  customer_leg-Quiet :
      (id endpoint employee : Text) (timeout index : ℕ)
      → Quiet (Asterisk.customer_leg id endpoint employee timeout index)
  unfolding Asterisk.customer_leg
  customer_leg-Quiet id endpoint employee timeout index = search (quiet_rules, request-Quiet)

  pub create_customer_leg-Quiet :
      (id phone endpoint employee : Text)
      → Quiet (Asterisk.create_customer_leg id phone endpoint employee)
  unfolding Asterisk.create_customer_leg
  create_customer_leg-Quiet id phone endpoint employee = customer_leg-Quiet id _ employee _ _

  pub create_forward_leg-Quiet :
      (id phone endpoint employee : Text) (timeout : ℕ)
      → Quiet (Asterisk.create_forward_leg id phone endpoint employee timeout)
  unfolding Asterisk.create_forward_leg
  create_forward_leg-Quiet id phone endpoint employee timeout =
      customer_leg-Quiet id _ employee timeout _

  pub create_local_leg-Quiet :
      (id extension employee endpoint : Text) (index : ℕ)
      → Quiet (Asterisk.create_local_leg id extension employee endpoint index)
  unfolding Asterisk.create_local_leg
  create_local_leg-Quiet id extension employee endpoint index =
      customer_leg-Quiet id _ employee _ index

  or_unreachable-Quiet : (o : Option (List Channel)) → Quiet (Asterisk.or_unreachable o)
  unfolding Asterisk.or_unreachable
  or_unreachable-Quiet none = raise-Quiet _
  or_unreachable-Quiet (some l) = pure-Quiet l

  pub list_channels-Quiet : Quiet Asterisk.list_channels
  unfolding Asterisk.list_channels
  list_channels-Quiet = bind-Quiet (ask-Quiet _) or_unreachable-Quiet

  stored_answer-Quiet :
      (name : Text) (o : Option (Option Stored)) → Quiet (Asterisk.stored_answer name o)
  unfolding Asterisk.stored_answer
  stored_answer-Quiet name none = raise-Quiet _
  stored_answer-Quiet name (some none) = pure-Quiet none
  stored_answer-Quiet name (some (some s)) = pure-Quiet _

  pub get_stored_recording-Quiet : (name : Text) → Quiet (Asterisk.get_stored_recording name)
  unfolding Asterisk.get_stored_recording
  get_stored_recording-Quiet name =
      if-Quiet (Asterisk.is_safe_name name) (bind-Quiet (ask-Quiet _) (stored_answer-Quiet name))
        (pure-Quiet none)

  not_deleted-Quiet : (e : Error) → Quiet (Asterisk.not_deleted e)
  unfolding Asterisk.not_deleted
  not_deleted-Quiet Error.asterisk_error = pure-Quiet false
  not_deleted-Quiet e = raise-Quiet e

  pub delete_stored_recording-Quiet : (name : Text) → Quiet (Asterisk.delete_stored_recording name)
  unfolding Asterisk.delete_stored_recording
  delete_stored_recording-Quiet name = search (quiet_rules, request-Quiet, not_deleted-Quiet)

  deliver-Quiet :
      (event : Event) (call : Call) (extra : List (Text × Text)) (target : Target)
      → Quiet (deliver event call extra target)
  unfolding deliver
  deliver-Quiet event call extra (Target.stored hook) =
      attempt-Quiet (request-Quiet _) (λ _. pure-Quiet tt)
  deliver-Quiet event call extra (Target.environment url) =
      attempt-Quiet (request-Quiet _) (λ _. pure-Quiet tt)

  pub notify_with-Quiet :
      (event : Event) (call : Option Call) (extra : List (Text × Text))
      → Quiet (notify_with event call extra)
  unfolding notify_with
  notify_with-Quiet event none extra = pure-Quiet tt
  notify_with-Quiet event (some call) extra = for_each-Quiet _ (deliver-Quiet event call extra)

  pub notify_crm-Quiet : (event : Event) (call : Option Call) → Quiet (notify_crm event call)
  unfolding notify_crm
  notify_crm-Quiet event call = notify_with-Quiet event call []

  pub provider_endpoint-Quiet : (name : Text) → Quiet (provider_endpoint name)
  unfolding provider_endpoint
  provider_endpoint-Quiet name =
      option-Quiet (ctx.provider name) (raise-Quiet _) (λ p. pure-Quiet _)

  pub live_channel_ids-Quiet : Quiet live_channel_ids
  unfolding live_channel_ids
  live_channel_ids-Quiet =
      attempt-Quiet (bind-Quiet list_channels-Quiet (λ l. pure-Quiet _)) (λ _. pure-Quiet [])

  pub legs_still_ringing-Quiet : (call : Call) → Quiet (legs_still_ringing call)
  unfolding legs_still_ringing
  legs_still_ringing-Quiet call = bind-Quiet live_channel_ids-Quiet (λ l. pure-Quiet _)

  pub customer_leg_ids-Quiet :
      (call : Call) (channel : Text) → Quiet (customer_leg_ids call channel)
  unfolding customer_leg_ids
  customer_leg_ids-Quiet call channel = bind-Quiet live_channel_ids-Quiet (λ l. pure-Quiet _)

  pub hangup_quietly-Quiet : (channel : Text) → Quiet (hangup_quietly channel)
  unfolding hangup_quietly
  hangup_quietly-Quiet channel = attempt-Quiet (hangup-Quiet channel) (λ _. pure-Quiet tt)

  pub cancel_legs-Quiet : (channels : List Text) → Quiet (cancel_legs channels)
  unfolding cancel_legs
  cancel_legs-Quiet channels = for_each-Quiet channels hangup-Quiet

  hangup_unless-Quiet : (keep channel : Text) → Quiet (hangup_unless keep channel)
  unfolding hangup_unless
  hangup_unless-Quiet keep channel = if-Quiet _ (pure-Quiet tt) (hangup_quietly-Quiet channel)

  pub hangup_call_channels-Quiet :
      (call : Call) (keep : Text) → Quiet (hangup_call_channels call keep)
  unfolding hangup_call_channels
  hangup_call_channels-Quiet call keep =
      bind-Quiet (for_each-Quiet _ (hangup_unless-Quiet keep)) λ _.
        bind-Quiet (hangup_unless-Quiet keep _) λ _.
          bind-Quiet (customer_leg_ids-Quiet call keep)
            λ ids. for_each-Quiet ids hangup_quietly-Quiet

  pub call_for_channel-Quiet : (channel : Text) → Quiet (call_for_channel channel)
  unfolding call_for_channel
  call_for_channel-Quiet channel = gets-Quiet _
