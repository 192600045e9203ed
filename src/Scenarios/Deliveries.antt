-- ===== src/Scenarios/Deliveries.antt =====
-- A queue of webhook deliveries: one receiver that is up, and one that is switched off.
use calling_integration.Prelude.{
  ◌+◌, ◌≡◌, refl, true, false, List, [], ◌∷◌, some, codes, arith, All,
}
use calling_integration.Webhooks.{
  Delivery, Endpoint, Outbox, Outside, Answer, Step, Steps, new_delivery, has_id, is_due,
  enqueue_webhook, process_webhook_deliveries, finish_webhook_delivery,
}
use calling_integration.Webhooks.Attempts.{Steps-IsBounded}
use calling_integration.Webhooks.Rows.{IsBounded}
use calling_integration.Webhooks.Success.{finish_webhook_delivery-waits}

abbrev receiver : Endpoint
receiver = record {
  id = 1;
  name = codes "crm";
  url = codes "https://crm";
  token = [];
  active = true;
  owner = some 7;
}

abbrev switched_off : Endpoint
switched_off = record receiver { id = 2; active = false }

abbrev first_delivery : Delivery
first_delivery = new_delivery 10 (codes "d1") 1 (codes "call.started") (codes "{}")

abbrev stuck_delivery : Delivery
stuck_delivery = new_delivery 5 (codes "d0") 2 (codes "call.started") (codes "{}")

abbrev up : Outside
up = record { clock = λ n. 20 + n; post = λ _ _ _. Answer.answered 200 }

abbrev outbox_with : List Delivery → Outbox
outbox_with ds = record {
  endpoints = receiver ∷ switched_off ∷ [];
  deliveries = ds;
  sent = [];
  notified = [];
  turn = 0;
}

one_step :
    enqueue_webhook 10 (codes "d1") 1 (codes "call.started") (codes "{}") (outbox_with [])
    ≡ some (outbox_with (first_delivery ∷ []))
unfolding enqueue_webhook
one_step = refl

Steps-IsBounded_example :
    IsBounded (process_webhook_deliveries up (outbox_with (first_delivery ∷ []))).1
Steps-IsBounded_example =
    Steps-IsBounded
      (Steps.next _ _ _
        (Steps.next _ _ _ (Steps.start (outbox_with []))
          (Step.enqueued 10 1 (codes "d1") (codes "call.started") (codes "{}") _ _ one_step))
        (Step.processed (outbox_with (first_delivery ∷ []))))
      (record { distinct = tt; within = tt })

finish_webhook_delivery-waits_example :
    All
      (λ (d : Delivery). has_id (codes "d1") d ≡ true → is_due 39 d ≡ false)
      (finish_webhook_delivery 10 (codes "d1") (some (codes "HTTP 500")) (first_delivery ∷ []))
finish_webhook_delivery-waits_example =
    finish_webhook_delivery-waits 10 39 (codes "d1") (some (codes "HTTP 500")) (first_delivery ∷ [])
      (omega arith)
