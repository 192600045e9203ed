-- ===== src/Engine/Settled/Recordings.antt =====
-- The clean-up and the reconciliation of recordings keep the table.
use calling_integration.Prelude.{refl, Option, none, some}
use calling_integration.Calls.{Call}
use calling_integration.Engine.Plan.{Stored}
use calling_integration.Engine.Context.{Ctx}
use calling_integration.Engine.Finish.Recordings.{
  forget_recording, cleanup_recordings, adopt_recording, reconcile_recordings,
}
use calling_integration.Engine.Logic.{Keeps, Any}
use calling_integration.Engine.Logic.Rules.{
  pure-Quiet, gets-Quiet, attempt-Quiet, Quiet-Keeps, Quiet-then, keep-then, if-Keeps, when-Keeps,
  for_each-Keeps,
}
use calling_integration.Engine.Quiet.{
  ask-Quiet, delete_stored_recording-Quiet, get_stored_recording-Quiet, notify_with-Quiet,
}
use calling_integration.Engine.Settled.Neutral.{neutral-Keeps}

module _ ⦃ctx : Ctx⦄ where
  forget_recording-Keeps : (call : Call) → Keeps Any (forget_recording call)
  unfolding forget_recording
  forget_recording-Keeps call =
      keep-then (neutral-Keeps call.call_id _ refl) (λ u. Quiet-Keeps (notify_with-Quiet _ u _))

  pub cleanup_recordings-Keeps : Keeps Any cleanup_recordings
  unfolding cleanup_recordings
  cleanup_recordings-Keeps = Quiet-then (ask-Quiet _) λ now. Quiet-then (gets-Quiet _) λ rows.
      for_each-Keeps rows λ call.
        if-Keeps _
          (Quiet-then (delete_stored_recording-Quiet _)
            (λ gone. when-Keeps gone (λ _. forget_recording-Keeps call)))
          (Quiet-Keeps (pure-Quiet tt))

  adopt_recording-Keeps :
      (call : Call) (stored : Option Stored) → Keeps Any (adopt_recording call stored)
  unfolding adopt_recording
  adopt_recording-Keeps call none = Quiet-Keeps (pure-Quiet tt)
  adopt_recording-Keeps call (some s) =
      keep-then (neutral-Keeps call.call_id _ refl) (λ u. Quiet-Keeps (notify_with-Quiet _ u _))

  pub reconcile_recordings-Keeps : Keeps Any reconcile_recordings
  unfolding reconcile_recordings
  reconcile_recordings-Keeps = Quiet-then (gets-Quiet _) λ rows. for_each-Keeps rows λ call.
      if-Keeps _
        (Quiet-then (attempt-Quiet (get_stored_recording-Quiet _) (λ _. pure-Quiet none))
          (adopt_recording-Keeps call))
        (Quiet-Keeps (pure-Quiet tt))
