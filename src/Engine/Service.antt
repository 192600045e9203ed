-- ===== src/Engine/Service.antt =====
-- What a running service does: the events of Asterisk and the periodic work of the worker
-- (`on_event` and the loop of app/ari_worker.py), and the requests that start or end a call
-- (`create_call` and `hangup_call` of app/routes.py), in any order. A step that raises keeps what
-- it wrote; its caller reports the failure and the next step follows.
use calling_integration.Prelude.{ℕ, Option, Text}
use calling_integration.Engine.World.{World}
use calling_integration.Engine.Context.{Ctx}
use calling_integration.Engine.Finish.{request_hangup}
use calling_integration.Engine.Finish.Recordings.{cleanup_recordings, reconcile_recordings}
use calling_integration.Engine.Menu.{process_ivr_timeouts}
use calling_integration.Engine.Start.{start_outbound}
use calling_integration.Engine.Events.{AriEvent, on_event}

module _ ⦃ctx : Ctx⦄ where
  pub data Step (w : World) : World → Type 0 where
    event : (e : AriEvent) → Step w (on_event e w).1
    dial :
        (phone extension : Text) (contact member : Option Text) (provider : Text)
        (caller_id : Option Text)
        → Step w (start_outbound phone extension contact member provider caller_id w).1
    hang_up : (id : Text) → Step w (request_hangup id w).1
    menu_timeouts : (clock : ℕ) → Step w (process_ivr_timeouts clock w).1
    clean_up : Step w (cleanup_recordings w).1
    reconcile : Step w (reconcile_recordings w).1

  pub data Steps (w : World) : World → Type 0 where
    start : Steps w w
    next : {u v : World} → Steps w u → Step u v → Steps w v
