-- ===== src/Engine/Recovery.antt =====
-- The recovery after a restart of the worker (`recover_incomplete_calls`).
use calling_integration.Prelude.{
  Bool, false, List, [], ◌∷◌, ◌||◌, ◌&&◌, not, Option, none, some, Text, is_empty, if◌then◌else◌,
  codes, text_or_empty, is_some, text_eq,
}
use calling_integration.Calls.{Call, is_terminal, all_calls}
use calling_integration.Engine.Plan.{Channel}
use calling_integration.Engine.World.{
  Done, pure, done, gets, attempt, for_each, when, get_call, ◌>>=◌, ◌>>◌,
}
use calling_integration.Engine.Context.{Ctx}
use calling_integration.Engine.Asterisk.{list_channels}
use calling_integration.Engine.Legs.{leg_channels}
use calling_integration.Engine.Finish.Recordings.{reconcile_recordings}
use calling_integration.Engine.Answer.{start_customer, start_bridge, fail_call}
use calling_integration.Engine.Ring.{index_leg}
use calling_integration.Engine.Events.{mark_answered}

-- `live.get(id)`: the last channel of that name.
unfoldable pub live_channel : Text → List Channel → Option Channel
live_channel id [] = none
live_channel id (c ∷ rest) =
    let later = live_channel id rest in
    if is_some later then later else if text_eq c.id id && not (is_empty c.id) then some c else none

unfoldable pub is_up : Option Channel → Bool
is_up none = false
is_up (some c) = c.up

module _ ⦃ctx : Ctx⦄ where
  unfoldable pub recover_bridge : Call → Done
  recover_bridge call = do
    found ← get_call call.call_id
    elim found [
      | none ↦ done
      | some row ↦ when (is_empty (text_or_empty row.bridge_id)) (start_bridge row.call_id)
    ]
    mark_answered call.call_id

  -- What is left of the call decides: nothing, only the employee, or both sides.
  unfoldable pub resume_call : List Channel → Call → Done
  unfolding recover_bridge is_up
  resume_call live call =
      let employee = live_channel (text_or_empty call.employee_channel_id) live in
      let customer =
        if is_empty (text_or_empty call.customer_channel_id)
        then none
        else live_channel (text_or_empty call.customer_channel_id) live in
      if not (is_some employee) && not (is_some customer)
      then fail_call call (codes "worker_restart_no_live_channel")
      else if is_up employee
          && not (is_some customer)
          && is_empty (text_or_empty call.customer_channel_id)
      then start_customer call
      else if is_some employee && is_up customer
      then recover_bridge call
      else done

  unfoldable pub recover_call : List Channel → Call → Done
  unfolding resume_call
  recover_call live call =
      if is_terminal call.status || is_some call.ended_at
      then done
      else for_each (leg_channels call) (λ leg. index_leg leg call.call_id) >> resume_call live call

  unfoldable pub recover_incomplete_calls : Done
  unfolding recover_call
  recover_incomplete_calls = do
    attempt reconcile_recordings (λ _. done)
    live ← attempt (list_channels >>= λ l. pure (some l)) (λ _. pure none)
    elim live [
      | none ↦ done
      | some l ↦ gets (λ w. all_calls w.calls) >>= λ rows. for_each rows (recover_call l)
    ]
