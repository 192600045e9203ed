-- ===== src/Webhooks/Success.antt =====
-- A pass of the worker delivers what is due (`process_webhook_deliveries`), and a delivery that
-- was just attempted waits.
use calling_integration.Prelude.{
  ℕ, ◌+◌, ◌*◌, ◌<◌, min, Bool, true, false, ◌&&◌, List, [], ◌∷◌, Option, Text, ◌≡◌, refl, inl, inr,
  All, arith, Bool-cases, leb,
}
use calling_integration.Webhooks.{
  Delivery, has_id, is_delivered, is_due, finished, finish_webhook_delivery,
}

-- Every row of this id is delivered.
abbrev pub IsDone : Text → List Delivery → Type 0
IsDone id ds = All (λ (d : Delivery). has_id id d ≡ true → is_delivered d.status ≡ true) ds

-- After an attempt at `now`, failed or not, no row of that delivery is due before 30 seconds have
-- passed.
pub finish_webhook_delivery-waits :
    (now later : ℕ) (id : Text) (error : Option Text) (ds : List Delivery)
    → later < now + 30
    → All
        (λ (d : Delivery). has_id id d ≡ true → is_due later d ≡ false)
        (finish_webhook_delivery now id error ds)
unfolding finish_webhook_delivery finished is_due
finish_webhook_delivery-waits now later id error [] h = tt
finish_webhook_delivery-waits now later id error (d ∷ ds) h =
    let rest = finish_webhook_delivery-waits now later id error ds h in
    elim (Bool-cases (has_id id d)) [
      | inl u ↦ rw u (λ _. early d.attempts _ _, rest)
      | inr u ↦ rw u (λ q. elim (both q u) [ ], rest)
    ]
  where
    both : {b : Bool} → b ≡ true → b ≡ false → ⊥
    both p q = cc

    late : (n : ℕ) → leb (now + min 300 (30 * (n + 1))) later ≡ false
    late n = ground arith

    early : (n : ℕ) (a b : Bool) → (a && (b && leb (now + min 300 (30 * (n + 1))) later)) ≡ false
    early n true true = late n
    early n true false = refl
    early n false b = refl
