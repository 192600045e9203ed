-- ===== src/Engine/Notify.antt =====
-- The CRM is told of a call (`_webhook_endpoints`, `notify_crm`, `process_webhook_deliveries`).
use calling_integration.Prelude.{
  ℕ, Bool, List, [], ◌∷◌, ◌++◌, ◌||◌, ◌&&◌, Option, none, some, Text, is_empty, if◌then◌else◌,
  codes, mem_text, split, strip, map, select, not,
}
use calling_integration.Directory.{get_extension_owner, same_account}
use calling_integration.Calls.{Call}
use calling_integration.Engine.Plan.{Act, Event, Webhook, event_name}
use calling_integration.Engine.World.{Done, done, attempt, for_each}
use calling_integration.Engine.Context.{Ctx}
use calling_integration.Engine.Asterisk.{request}

-- An endpoint of the settings, or the one of the environment.
pub data Target : Type 0 where
  stored : Webhook → Target
  environment : Text → Target

-- Is the event among the comma-separated names, or `*`?
unfoldable pub is_subscribed : Event → Webhook → Bool
is_subscribed event hook =
    let subscribed = map strip (split b',' hook.events) in
    hook.active && (mem_text (codes "*") subscribed || mem_text (event_name event) subscribed)

module _ ⦃ctx : Ctx⦄ where
  unfoldable pub webhook_endpoints : Event → Option ℕ → List Target
  webhook_endpoints event owner =
      let endpoints = select (λ h. same_account h.owner owner) ctx.webhooks in
      map Target.stored (select (is_subscribed event) endpoints)
      ++ (if is_empty endpoints && not (is_empty ctx.crm_webhook_url)
          then Target.environment ctx.crm_webhook_url ∷ []
          else [])

  -- A failed enqueue is logged; `_send_webhook` turns a failed request into its result.
  unfoldable pub deliver : Event → Call → List (Text × Text) → Target → Done
  deliver event call extra (Target.stored hook) =
      attempt (request (Act.enqueue hook.id event call extra)) (λ _. done)
  deliver event call extra (Target.environment url) =
      attempt (request (Act.post url event call extra)) (λ _. done)

  unfoldable pub notify_with : Event → Option Call → List (Text × Text) → Done
  unfolding deliver
  notify_with event none extra = done
  notify_with event (some call) extra =
      for_each (webhook_endpoints event (get_extension_owner ctx.directory call.extension))
        (deliver event call extra)

  unfoldable pub notify_crm : Event → Option Call → Done
  unfolding notify_with
  notify_crm event call = notify_with event call []

  unfoldable pub reason : Text → List (Text × Text)
  reason text = (codes "reason", text) ∷ []
