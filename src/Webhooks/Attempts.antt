-- ===== src/Webhooks/Attempts.antt =====
-- The number of attempts of a delivery stays within its bound.
use calling_integration.Prelude.{
  ℕ, suc, ◌+◌, ◌≤◌, Bool, true, false, not, List, [], ◌∷◌, ◌++◌, Option, none, some, Text, text_eq,
  text_eq_iff, ◌≡◌, refl, sym, subst, ◌∙◌, inl, inr, select, count, any, All, All-select, arith,
  Bool-cases, ◌==◌, ◌&&◌, take,
}
use calling_integration.Webhooks.{
  Delivery, Endpoint, Outbox, Outside, Step, Steps, has_id, new_delivery, is_due, is_spent, due,
  oldest_first, purge, with_endpoints, pending_webhook_deliveries, finished,
  finish_webhook_delivery, after_post, send_error, given_up, cancelled, is_open_for, is_owned_by,
  delete_webhook, enqueue_webhook, deliver_all, process_webhook_deliveries,
}
use calling_integration.Webhooks.Order.{count-oldest, count-take}
use calling_integration.Webhooks.Rows.{
  ids, IsFresh, IsDistinct, IsWithin, IsBounded, occurrences, IsDistinct-select, text_eq_swap,
  selected-HasRoom, count-with,
}

-- The items of a pass leave room for the attempt that each of them makes.
abbrev Fits : List (Delivery × Endpoint) → Delivery → Type 0
Fits items d = d.attempts + occurrences d.id items ≤ 5

due-Fits :
    (now limit : ℕ) (endpoints : List Endpoint) (rows ds : List Delivery)
    → All (λ (d : Delivery). d.attempts + count (has_id d.id) (select (is_due now) rows) ≤ 5) ds
    → All (Fits (with_endpoints endpoints (due now limit rows))) ds
unfolding due
due-Fits now limit endpoints rows [] h = tt
due-Fits now limit endpoints rows (d ∷ ds) h =
    let wanted = select (is_due now) rows in
    let a = count-with d.id endpoints (take limit (oldest_first wanted)) in
    let b = count-take (has_id d.id) limit (oldest_first wanted) in
    let c = count-oldest (has_id d.id) wanted in
    let first = h.0 in (omega arith, due-Fits now limit endpoints rows ds h.1)

due-room : (now : ℕ) (d : Delivery) → is_due now d ≡ true → d.attempts + 1 ≤ 5
unfolding is_due
due-room now d h = ground arith

finished-id : (now : ℕ) (error : Option Text) (d : Delivery) → (finished now error d).id ≡ d.id
unfolding finished
finished-id now error d = refl

ids-finish :
    (now : ℕ) (id : Text) (error : Option Text) (ds : List Delivery)
    → ids (finish_webhook_delivery now id error ds) ≡ ids ds
unfolding finish_webhook_delivery finished
ids-finish now id error [] = refl
ids-finish now id error (d ∷ ds) =
    let rest = ids-finish now id error ds in
    elim (Bool-cases (has_id id d)) [ inl u ↦ rw (u, rest) refl | inr u ↦ rw (u, rest) refl ]

-- An attempt uses the room that its item had.
finish-Fits :
    (now : ℕ) (error : Option Text) (x : Delivery) (endpoint : Endpoint)
    (items : List (Delivery × Endpoint)) (ds : List Delivery)
    → All (Fits ((x, endpoint) ∷ items)) ds
    → All (Fits items) (finish_webhook_delivery now x.id error ds)
unfolding finish_webhook_delivery finished
finish-Fits now error x endpoint items [] h = tt
finish-Fits now error x endpoint items (d ∷ ds) h =
    let rest = finish-Fits now error x endpoint items ds h.1 in
    elim (Bool-cases (has_id x.id d)) [
      | inl u ↦
          let q = (text_eq_iff x.id d.id).1 (sym ((text_eq_iff d.id x.id).0 u)) in
          rw u (one_less d.attempts (occurrences d.id items) (rw q at h.0), rest)
      | inr u ↦ rw u (rw (text_eq_swap d.id x.id u) at h.0, rest)
    ]
  where
    one_less : (a n : ℕ) → a + suc n ≤ 5 → a + 1 + n ≤ 5
    one_less a n q = omega arith

Fits-IsWithin : (ds : List Delivery) → All (Fits []) ds → All IsWithin ds
Fits-IsWithin [] h = tt
Fits-IsWithin (d ∷ ds) h = let first = h.0 in (omega arith, Fits-IsWithin ds h.1)

module _ (outside : Outside) where
  pub deliver_all-ids :
      (items : List (Delivery × Endpoint)) (box : Outbox)
      → ids (deliver_all outside items box).1.deliveries ≡ ids box.deliveries
  unfolding deliver_all after_post
  deliver_all-ids [] box = refl
  deliver_all-ids ((d, e) ∷ items) box =
      let error = send_error (outside.post box.turn e d) in
      let now = outside.clock box.turn in
      deliver_all-ids items (after_post now error d e box)
      ∙ ids-finish now d.id error box.deliveries

  deliver_all-IsWithin :
      (items : List (Delivery × Endpoint)) (box : Outbox)
      → All (Fits items) box.deliveries
      → All IsWithin (deliver_all outside items box).1.deliveries
  unfolding deliver_all after_post
  deliver_all-IsWithin [] box h = Fits-IsWithin box.deliveries h
  deliver_all-IsWithin ((d, e) ∷ items) box h =
      let error = send_error (outside.post box.turn e d) in
      let now = outside.clock box.turn in
      deliver_all-IsWithin items (after_post now error d e box)
        (finish-Fits now error d e items box.deliveries h)

  process-IsBounded :
      (box : Outbox) → IsBounded box → IsBounded (process_webhook_deliveries outside box).1
  unfolding process_webhook_deliveries pending_webhook_deliveries purge
  process-IsBounded box h =
      let now = outside.clock box.turn in
      let keep : Delivery → Bool = λ d. not (is_spent now d) in
      let rows = select keep box.deliveries in
      let distinct = IsDistinct-select keep box.deliveries h.distinct in
      let within = All-select IsWithin keep box.deliveries h.within in
      let found = pending_webhook_deliveries now 100 box in
      let begun : Outbox = record found.1 { turn = suc box.turn } in
      record {
        distinct = subst IsDistinct (sym (deliver_all-ids found.0 begun)) distinct;
        within = deliver_all-IsWithin found.0 begun (
            due-Fits now 100 box.endpoints rows rows
              (selected-HasRoom (is_due now) (due-room now) rows distinct within));
      }

IsFresh-append :
    (id : Text) (d : Delivery) (ds : List Delivery)
    → IsFresh id (ids ds)
    → text_eq d.id id ≡ false
    → IsFresh id (ids (ds ++ d ∷ []))
IsFresh-append id d [] h q = (q, tt)
IsFresh-append id d (e ∷ ds) h q = (h.0, IsFresh-append id d ds h.1 q)

-- A row whose id no other has comes last.
append-IsBounded :
    (d : Delivery) (ds : List Delivery)
    → any (has_id d.id) ds ≡ false
    → d.attempts ≤ 5
    → IsDistinct (ids ds)
    → All IsWithin ds
    → IsDistinct (ids (ds ++ d ∷ [])) × All IsWithin (ds ++ d ∷ [])
append-IsBounded d [] u q f w = ((tt, tt), (q, tt))
append-IsBounded d (e ∷ ds) u q f w =
    let rest = append-IsBounded d ds (ground arith) q f.1 w.1 in
    let apart = text_eq_swap e.id d.id (ground arith) in
    ((IsFresh-append e.id d ds f.0 apart, rest.0), (w.0, rest.1))

some_same : {A : Type 0} {x y : A} → some x ≡ some y → x ≡ y
some_same q = cc

some_absurd : {A B : Type 0} {x : A} → none ≡ some x → B
some_absurd q = cc

enqueue-IsBounded :
    (now endpoint : ℕ) (id event payload : Text) (a b : Outbox)
    → enqueue_webhook now id endpoint event payload a ≡ some b
    → IsBounded a
    → IsBounded b
unfolding enqueue_webhook
enqueue-IsBounded now endpoint id event payload a b e h =
    elim (Bool-cases (any (has_id id) a.deliveries)) [
      | inl u ↦ some_absurd (rw u at e)
      | inr u ↦
          let row = new_delivery now id endpoint event payload in
          let r = append-IsBounded row a.deliveries u (omega arith) h.distinct h.within in
          let q = some_same (rw u at e) in
          subst IsBounded q (record { distinct = r.0; within = r.1 })
    ]

ids-given_up : (now id : ℕ) (ds : List Delivery) → ids (given_up now id ds) ≡ ids ds
unfolding given_up
ids-given_up now id [] = refl
ids-given_up now id (d ∷ ds) =
    let rest = ids-given_up now id ds in
    elim (Bool-cases (is_open_for id d)) [ inl u ↦ rw (u, rest) refl | inr u ↦ rw (u, rest) refl ]

given_up-IsWithin :
    (now id : ℕ) (ds : List Delivery) → All IsWithin ds → All IsWithin (given_up now id ds)
unfolding given_up cancelled
given_up-IsWithin now id [] h = tt
given_up-IsWithin now id (d ∷ ds) h =
    let rest = given_up-IsWithin now id ds h.1 in
    elim (Bool-cases (is_open_for id d)) [
      | inl u ↦ rw u (omega arith, rest)
      | inr u ↦ rw u (h.0, rest)
    ]

delete-IsBounded :
    (now id : ℕ) (owner : Option ℕ) (a b : Outbox)
    → delete_webhook now id owner a ≡ some b
    → IsBounded a
    → IsBounded b
unfolding delete_webhook
delete-IsBounded now id owner a b e h =
    elim (Bool-cases (any (λ (x : Endpoint). x.id == id && is_owned_by owner x) a.endpoints)) [
      | inl u ↦ subst IsBounded (some_same (rw u at e)) (record {
        distinct = subst IsDistinct (sym (ids-given_up now id a.deliveries)) h.distinct;
        within = given_up-IsWithin now id a.deliveries h.within;
      })
      | inr u ↦ some_absurd (rw u at e)
    ]

Step-IsBounded : {outside : Outside} {a b : Outbox} → Step outside a b → IsBounded a → IsBounded b
Step-IsBounded (Step.enqueued now endpoint id event payload a b e) h =
    enqueue-IsBounded now endpoint id event payload a b e h
Step-IsBounded (Step.processed a) h = process-IsBounded _ a h
Step-IsBounded (Step.deleted now id owner a b e) h = delete-IsBounded now id owner a b e h
Step-IsBounded (Step.configured a endpoints) h = record { distinct = h.distinct; within = h.within }

-- Every step of the queue keeps that no two deliveries have the same id and that no delivery has
-- more than five attempts, whatever the outside answers.
pub Steps-IsBounded :
    {outside : Outside} {a b : Outbox} → Steps outside a b → IsBounded a → IsBounded b
Steps-IsBounded (Steps.start a) h = h
Steps-IsBounded (Steps.next a b c steps step) h = Step-IsBounded step (Steps-IsBounded steps h)
