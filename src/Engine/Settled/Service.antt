-- ===== src/Engine/Settled/Service.antt =====
-- The invariant of the table of calls, over the life of the service.
use calling_integration.Prelude.{
  ℕ, ◌≡◌, sym, subst, true, false, List, [], Option, none, some, Text,
}
use calling_integration.Calls.{Call, Table, get, is_terminal}
use calling_integration.Engine.Plan.{Plan}
use calling_integration.Engine.World.{World}
use calling_integration.Engine.Context.{Ctx}
use calling_integration.Engine.Answer.{start_bridge}
use calling_integration.Engine.Finish.{finalize}
use calling_integration.Engine.Menu.{process_ivr_timeouts}
use calling_integration.Engine.Ring.{inbound_no_answer}
use calling_integration.Engine.Start.{start_outbound}
use calling_integration.Engine.Events.{AriEvent, run_events}
use calling_integration.Engine.Service.{Step, Steps}
use calling_integration.Engine.Logic.{IsConsistent, IsSound, Stays, Stays-refl, Stays-trans}
use calling_integration.Engine.Settled.Answer.{start_bridge-Keeps}
use calling_integration.Engine.Settled.Finish.{finalize-Keeps, request_hangup-Keeps}
use calling_integration.Engine.Settled.Menu.{process_ivr_timeouts-Keeps}
use calling_integration.Engine.Settled.Recordings.{
  cleanup_recordings-Keeps, reconcile_recordings-Keeps,
}
use calling_integration.Engine.Settled.Ring.{inbound_no_answer-Keeps}
use calling_integration.Engine.Settled.Run.{run_events-Keeps, on_event-Keeps}
use calling_integration.Engine.Settled.Start.{start_outbound-Keeps}

pub empty-IsSound : (t : Table) → t ≡ [] → IsSound t
unfolding get
empty-IsSound t h = subst IsSound (sym h) (tt, nothing)
  where
    apart : {x : Call} → none ≡ some x → ⊥
    apart e = cc

    nothing : (id : Text) (c : Call) → get id [] ≡ some c → IsConsistent c
    nothing id c e = absurd (apart e)

module _ ⦃ctx : Ctx⦄ where
  Step-kept : (w v : World) → Step w v → IsSound w.calls → IsSound v.calls × Stays w.calls v.calls
  Step-kept w _ (Step.event e) sound = (on_event-Keeps e).kept w sound tt
  Step-kept w _ (Step.dial phone extension contact member provider caller_id) sound =
      (start_outbound-Keeps phone extension contact member provider caller_id).kept w sound tt
  Step-kept w _ (Step.hang_up id) sound = (request_hangup-Keeps id).kept w sound tt
  Step-kept w _ (Step.menu_timeouts clock) sound =
      (process_ivr_timeouts-Keeps clock).kept w sound tt
  Step-kept w _ Step.clean_up sound = cleanup_recordings-Keeps.kept w sound tt
  Step-kept w _ Step.reconcile sound = reconcile_recordings-Keeps.kept w sound tt

  Steps-kept : (w v : World) → Steps w v → IsSound w.calls → IsSound v.calls × Stays w.calls v.calls
  Steps-kept w _ Steps.start sound = (sound, Stays-refl w.calls)
  Steps-kept w v (Steps.next {u} s t) sound =
      let (mid, first) = Steps-kept w u s sound in
      let (last, second) = Step-kept u v t mid in
      (last, Stays-trans w.calls u.calls v.calls first second)

  -- A service that starts on an empty table of calls, and takes any steps, in any order, with any
  -- answers and failures of the outside, has a sound table: no two rows share a key; a call has
  -- an end time exactly if its status is completed or failed; a completed call was answered; an
  -- answered call has the time of its answer; a bridge joins two channels.
  pub Steps-IsSound : (w v : World) → w.calls ≡ [] → Steps w v → IsSound v.calls
  Steps-IsSound w v fresh steps = (Steps-kept w v steps (empty-IsSound w.calls fresh)).0

  -- From a sound table, no steps of the service, in any order, change the status of a call that
  -- is completed or failed: it is still in the table, with that status.
  pub Steps-status :
      (w v : World) (id : Text) (c : Call)
      → Steps w v
      → IsSound w.calls
      → get id w.calls ≡ some c
      → is_terminal c.status ≡ true
      → (d : Call) × (get id v.calls ≡ some d) × (d.status ≡ c.status)
  Steps-status w v id c steps sound here final =
      let (d, there, moves) = (Steps-kept w v steps sound).1 id c here in (d, there, moves.0 final)

  -- From a sound table, no steps of the service take the answer of a call back: an answered call
  -- is still in the table, and is answered.
  pub Steps-answered :
      (w v : World) (id : Text) (c : Call)
      → Steps w v
      → IsSound w.calls
      → get id w.calls ≡ some c
      → c.answered ≡ true
      → (d : Call) × (get id v.calls ≡ some d) × (d.answered ≡ true)
  Steps-answered w v id c steps sound here answered =
      let (d, there, moves) = (Steps-kept w v steps sound).1 id c here in
      (d, there, moves.1 answered)

  -- A run of events of Asterisk keeps a sound table sound, whatever events fail on the way.
  pub run_events-IsSound :
      (events : List AriEvent) (w : World) → IsSound w.calls → IsSound (run_events events w).1.calls
  run_events-IsSound events w sound = ((run_events-Keeps events).kept w sound tt).0

  -- When nobody answered a call whose record is the row as it stands, the fallback desks, the
  -- mailbox, the forward number and the missed call each leave a sound table.
  pub inbound_no_answer-IsSound :
      (call : Call) (plan : Plan) (why : Text) (w : World)
      → IsSound w.calls
      → get call.call_id w.calls ≡ some call
      → IsSound (inbound_no_answer call plan why w).1.calls
  inbound_no_answer-IsSound call plan why w sound here =
      ((inbound_no_answer-Keeps call plan why).kept w sound here).0

  -- Bridging a call that has not ended keeps a sound table sound, whether the bridge is built, is
  -- abandoned, or the recording fails.
  pub start_bridge-IsSound :
      (id : Text) (c : Call) (w : World)
      → IsSound w.calls
      → get id w.calls ≡ some c
      → is_terminal c.status ≡ false
      → IsSound (start_bridge id w).1.calls
  start_bridge-IsSound id c w sound here open_call =
      ((start_bridge-Keeps id).kept w sound (c, here, open_call)).0

  -- Finalizing a call keeps a sound table sound, loses no call, keeps the status of every ended
  -- call, and an answered call stays answered.
  pub finalize-IsSound :
      (id why keep : Text) (w : World)
      → IsSound w.calls
      → IsSound (finalize id why keep w).1.calls × Stays w.calls (finalize id why keep w).1.calls
  finalize-IsSound id why keep w sound = (finalize-Keeps id why keep).kept w sound tt

  -- An outbound call, refused, abandoned or ringing, leaves a sound table.
  pub start_outbound-IsSound :
      (phone extension : Text) (contact member : Option Text) (provider : Text)
      (caller_id : Option Text) (w : World)
      → IsSound w.calls
      → IsSound (start_outbound phone extension contact member provider caller_id w).1.calls
  start_outbound-IsSound phone extension contact member provider caller_id w sound =
      ((start_outbound-Keeps phone extension contact member provider caller_id).kept w sound tt).0

  -- The timeouts of all menus, at any time of the clock, leave a sound table.
  pub process_ivr_timeouts-IsSound :
      (clock : ℕ) (w : World) → IsSound w.calls → IsSound (process_ivr_timeouts clock w).1.calls
  process_ivr_timeouts-IsSound clock w sound =
      ((process_ivr_timeouts-Keeps clock).kept w sound tt).0
