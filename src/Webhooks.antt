-- ===== src/Webhooks.antt =====
-- The queue of webhook deliveries: the rows of `webhook_deliveries` and their endpoints in
-- app/admin.py, and the pass of the worker over them in app/services.py. Times are in seconds.
use calling_integration.Prelude.{
  ℕ, suc, ◌+◌, ◌*◌, min, Bool, true, false, not, ◌&&◌, ◌||◌, List, [], ◌∷◌, ◌++◌, ◌==◌, ltb, leb,
  Option, none, some, is_some, Text, text_eq, codes, show, is_empty, find, select, take, map, any,
  if◌then◌else◌, ◌≡◌,
}
pub mod Order
pub mod Rows
pub mod Attempts
pub mod Success
pub mod Starvation

pub data DeliveryStatus : Type 0 where
  pending delivered failed : DeliveryStatus

abbrev pub is_delivered : DeliveryStatus → Bool
is_delivered DeliveryStatus.delivered = true
is_delivered _ = false

pub record Delivery : Type 0 where
  pub id : Text
  pub endpoint_id : ℕ
  pub event : Text
  pub payload : Text
  pub status : DeliveryStatus
  pub attempts : ℕ
  pub last_error : Option Text
  pub next_attempt_at : ℕ
  pub delivered_at : Option ℕ
  pub created_at : ℕ
  pub updated_at : ℕ

pub record Endpoint : Type 0 where
  pub id : ℕ
  pub name : Text
  pub url : Text
  pub token : Text
  pub active : Bool
  pub owner : Option ℕ

-- The tables, the posts that went out (the last one first), the owners that were told of a
-- failure, and how often the outside was asked.
pub record Outbox : Type 0 where
  pub endpoints : List Endpoint
  pub deliveries : List Delivery
  pub sent : List (Delivery × Endpoint)
  pub notified : List (ℕ × Text)
  pub turn : ℕ

abbrev pub empty_outbox : Outbox
empty_outbox = record { endpoints = []; deliveries = []; sent = []; notified = []; turn = 0 }

abbrev pub has_id : Text → Delivery → Bool
has_id id d = text_eq d.id id

abbrev pub new_delivery : ℕ → Text → ℕ → Text → Text → Delivery
new_delivery now id endpoint event payload = record {
  id = id;
  endpoint_id = endpoint;
  event = event;
  payload = payload;
  status = DeliveryStatus.pending;
  attempts = 0;
  last_error = none;
  next_attempt_at = now;
  delivered_at = none;
  created_at = now;
  updated_at = now;
}

-- The primary key is refused twice.
unfoldable pub enqueue_webhook : ℕ → Text → ℕ → Text → Text → Outbox → Option Outbox
enqueue_webhook now id endpoint event payload box =
    if any (has_id id) box.deliveries
    then none
    else some (record box {
      deliveries = box.deliveries ++ new_delivery now id endpoint event payload ∷ [];
    })

-- `(status='delivered' OR attempts>=5) AND updated_at<datetime('now','-30 days')`
unfoldable pub is_spent : ℕ → Delivery → Bool
is_spent now d = (is_delivered d.status || leb 5 d.attempts) && ltb (d.updated_at + 2592000) now

-- `status IN ('pending','failed') AND attempts<5 AND next_attempt_at<=CURRENT_TIMESTAMP`
unfoldable pub is_due : ℕ → Delivery → Bool
is_due now d = not (is_delivered d.status) && (ltb d.attempts 5 && leb d.next_attempt_at now)

unfoldable pub place_by_age : Delivery → List Delivery → List Delivery
place_by_age d [] = d ∷ []
place_by_age d (e ∷ ds) =
    let rest = place_by_age d ds in if ltb e.created_at d.created_at then e ∷ rest else d ∷ e ∷ ds

-- `ORDER BY created_at`
unfoldable pub oldest_first : List Delivery → List Delivery
unfolding place_by_age
oldest_first [] = []
oldest_first (d ∷ ds) = place_by_age d (oldest_first ds)

unfoldable pub purge : ℕ → Outbox → Outbox
unfolding is_spent
purge now box = record box { deliveries = select (λ d. not (is_spent now d)) box.deliveries }

unfoldable pub due : ℕ → ℕ → List Delivery → List Delivery
unfolding is_due oldest_first
due now limit ds = take limit (oldest_first (select (is_due now) ds))

-- The endpoint of a delivery, unless it is gone or switched off.
unfoldable pub live_endpoint : List Endpoint → Delivery → Option Endpoint
live_endpoint endpoints d = elim (find (λ (e : Endpoint). e.id == d.endpoint_id) endpoints) [
  | none ↦ none
  | some e ↦ if e.active then some e else none
]

unfoldable pub with_endpoints : List Endpoint → List Delivery → List (Delivery × Endpoint)
unfolding live_endpoint
with_endpoints endpoints [] = []
with_endpoints endpoints (d ∷ ds) =
    let rest = with_endpoints endpoints ds in
    elim (live_endpoint endpoints d) [ none ↦ rest | some e ↦ (d, e) ∷ rest ]

unfoldable pub pending_webhook_deliveries : ℕ → ℕ → Outbox → List (Delivery × Endpoint) × Outbox
unfolding purge due with_endpoints
pending_webhook_deliveries now limit box =
    let kept = purge now box in
    (with_endpoints kept.endpoints (due now limit kept.deliveries), kept)

-- The row after an attempt: `error` is none where it succeeded.
unfoldable pub finished : ℕ → Option Text → Delivery → Delivery
finished now error d = record d {
  status = elim error [ none ↦ DeliveryStatus.delivered | some _ ↦ DeliveryStatus.failed ];
  attempts = d.attempts + 1;
  last_error = error;
  delivered_at = elim error [ none ↦ some now | some _ ↦ d.delivered_at ];
  next_attempt_at = now + min 300 (30 * (d.attempts + 1));
  updated_at = now;
}

unfoldable pub finish_webhook_delivery : ℕ → Text → Option Text → List Delivery → List Delivery
unfolding finished
finish_webhook_delivery now id error [] = []
finish_webhook_delivery now id error (d ∷ ds) =
    (if has_id id d then finished now error d else d) ∷ finish_webhook_delivery now id error ds

-- How a post ends: an HTTP status, or an exception of `requests`, by its class's name.
pub data Answer : Type 0 where
  answered : ℕ → Answer
  unanswered : Text → Answer

-- The error of `_send_webhook`: `response.ok` holds below 400.
unfoldable pub send_error : Answer → Option Text
send_error (Answer.answered code) = if ltb code 400 then none else some (codes "HTTP " ++ show code)
send_error (Answer.unanswered name) = some name

-- `if not ok and endpoint.get("owner_user_id")`
unfoldable pub owner_told : Option Text → Endpoint → List (ℕ × Text)
owner_told none endpoint = []
owner_told (some error) endpoint = elim endpoint.owner [
  | none ↦ []
  | some o ↦
      if o == 0
      then []
      else (o, if is_empty endpoint.name then codes "Webhook" else endpoint.name) ∷ []
]

unfoldable pub after_post : ℕ → Option Text → Delivery → Endpoint → Outbox → Outbox
unfolding finish_webhook_delivery owner_told
after_post now error d endpoint box = record {
  endpoints = box.endpoints;
  deliveries = finish_webhook_delivery now d.id error box.deliveries;
  sent = (d, endpoint) ∷ box.sent;
  notified = owner_told error endpoint ++ box.notified;
  turn = suc box.turn;
}

-- A delivery of an endpoint that is deleted.
unfoldable pub cancelled : ℕ → Delivery → Delivery
cancelled now d = record d {
  status = DeliveryStatus.failed;
  attempts = 5;
  last_error = some (codes "webhook deleted");
  updated_at = now;
}

abbrev pub is_open_for : ℕ → Delivery → Bool
is_open_for id d = d.endpoint_id == id && not (is_delivered d.status)

-- `UPDATE webhook_deliveries ... WHERE endpoint_id=? AND status!='delivered'`
unfoldable pub given_up : ℕ → ℕ → List Delivery → List Delivery
unfolding cancelled
given_up now id [] = []
given_up now id (d ∷ ds) = (if is_open_for id d then cancelled now d else d) ∷ given_up now id ds

abbrev pub is_owned_by : Option ℕ → Endpoint → Bool
is_owned_by none e = true
is_owned_by (some o) e = elim e.owner [ none ↦ false | some p ↦ p == o ]

-- `none` stands for `ValueError("Webhook not found")`, which changes nothing.
unfoldable pub delete_webhook : ℕ → ℕ → Option ℕ → Outbox → Option Outbox
unfolding given_up
delete_webhook now id owner box =
    if any (λ (e : Endpoint). e.id == id && is_owned_by owner e) box.endpoints
    then some (record box {
      endpoints = select (λ (e : Endpoint). not (e.id == id)) box.endpoints;
      deliveries = given_up now id box.deliveries;
    })
    else none

-- What the outside gives: the clock of the database, and the answer to a post.
pub record Outside : Type 0 where
  pub clock : ℕ → ℕ
  pub post : ℕ → Endpoint → Delivery → Answer

module _ (outside : Outside) where
  unfoldable pub deliver_all : List (Delivery × Endpoint) → Outbox → ℕ × Outbox
  unfolding after_post send_error
  deliver_all [] box = (0, box)
  deliver_all ((d, endpoint) ∷ items) box =
      let error = send_error (outside.post box.turn endpoint d) in
      let rest = deliver_all items (after_post (outside.clock box.turn) error d endpoint box) in
      ((if is_some error then rest.0 else suc rest.0), rest.1)

  -- How many were delivered, and the outbox after the pass.
  unfoldable pub process_webhook_deliveries : Outbox → ℕ × Outbox
  unfolding deliver_all pending_webhook_deliveries
  process_webhook_deliveries box =
      let found = pending_webhook_deliveries (outside.clock box.turn) 100 box in
      deliver_all found.0 (record found.1 { turn = suc box.turn })

-- What happens to the outbox. The administrator may change the endpoints in any way.
pub data Step (outside : Outside) : Outbox → Outbox → Type 0 where
  enqueued :
      (now endpoint : ℕ) (id event payload : Text) (a b : Outbox)
      → enqueue_webhook now id endpoint event payload a ≡ some b
      → Step outside a b
  processed : (a : Outbox) → Step outside a (process_webhook_deliveries outside a).1
  deleted :
      (now id : ℕ) (owner : Option ℕ) (a b : Outbox)
      → delete_webhook now id owner a ≡ some b
      → Step outside a b
  configured :
      (a : Outbox) (endpoints : List Endpoint) → Step outside a (record a { endpoints = endpoints })

pub data Steps (outside : Outside) : Outbox → Outbox → Type 0 where
  start : (a : Outbox) → Steps outside a a
  next : (a b c : Outbox) → Steps outside a b → Step outside b c → Steps outside a c
