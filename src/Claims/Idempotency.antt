-- ===== src/Claims/Idempotency.antt =====
-- The requests of the API under an `Idempotency-Key` (`claim_idempotency`, `finish_idempotency` in
-- app/admin.py), as `create_call` of app/routes.py uses them.
use calling_integration.Prelude.{
  ℕ, ◌+◌, ◌≤◌, Bool, true, false, not, ◌&&◌, List, [], ◌∷◌, ◌++◌, Option, none, some, Text, text_eq,
  text_eq_iff, text_eq_refl, ◌≡◌, refl, inl, inr, find, select, ltb, arith, Bool-cases,
  Option-cases, if◌then◌else◌, is_empty,
}
use calling_integration.Claims.{
  update, find-select, find-append, find-last, find_passes, find-update, find-updated,
}

pub record Request : Type 0 where
  pub client : Text
  pub request_key : Text
  pub call_id : Option Text
  pub created_at : ℕ

abbrev pub is_request : Text → Text → Request → Bool
is_request client key r = text_eq r.client client && text_eq r.request_key key

-- `created_at<datetime('now','-24 hours')`
abbrev pub is_fresh : ℕ → Request → Bool
is_fresh now r = not (ltb (r.created_at + 86400) now)

unfoldable pub request_row : Text → Text → List Request → Option Request
request_row client key rows = find (is_request client key) rows

abbrev pub new_request : ℕ → Text → Text → Request
new_request now client key = record {
  client = client;
  request_key = key;
  call_id = none;
  created_at = now;
}

-- Whether the request is the caller's to carry out, the call of an earlier one, and the table.
unfoldable pub claim_idempotency :
    ℕ → Text → Text → List Request → (Bool × Option Text) × List Request
unfolding request_row
claim_idempotency now client key rows =
    let kept = select (is_fresh now) rows in
    elim (request_row client key kept) [
      | some r ↦ ((false, r.call_id), kept)
      | none ↦ ((true, none), kept ++ new_request now client key ∷ [])
    ]

abbrev pub with_call : Text → Request → Request
with_call id r = record r { call_id = some id }

unfoldable pub finish_idempotency : Text → Text → Option Text → List Request → List Request
finish_idempotency client key none rows = select (λ r. not (is_request client key r)) rows
finish_idempotency client key (some id) rows =
    if is_empty id
    then select (λ r. not (is_request client key r)) rows
    else update (is_request client key) (with_call id) rows

-- What others do to the table until `limit`, and what the same client does under the same key but
-- finish the request.
pub data Step (client key : Text) (limit : ℕ) : List Request → List Request → Type 0 where
  claimed :
      (now : ℕ) (c k : Text) (a : List Request)
      → now ≤ limit
      → Step client key limit a (claim_idempotency now c k a).1
  finished :
      (c k : Text) (call : Option Text) (a : List Request)
      → (text_eq client c && text_eq key k) ≡ false
      → Step client key limit a (finish_idempotency c k call a)

pub data Steps (client key : Text) (limit : ℕ) : List Request → List Request → Type 0 where
  start : (a : List Request) → Steps client key limit a a
  next :
      (a b c : List Request)
      → Steps client key limit a b
      → Step client key limit b c
      → Steps client key limit a c

module _ (client key : Text) where
  claim-row :
      (now : ℕ) (c k : Text) (rows : List Request) (r : Request)
      → request_row client key rows ≡ some r
      → now ≤ r.created_at + 86400
      → request_row client key (claim_idempotency now c k rows).1 ≡ some r
  unfolding claim_idempotency request_row
  claim-row now c k rows r e h =
      let kept = select (is_fresh now) rows in
      let fresh : is_fresh now r ≡ true = ground arith in
      let here = find-select (is_request client key) (is_fresh now) rows r e fresh in
      elim (Option-cases (find (is_request c k) kept)) [
        | inl u ↦
            rw (u, claim_idempotency)
              (find-append (is_request client key) kept (new_request now c k) r here)
        | inr u ↦ rw (u.1, claim_idempotency) here
      ]

  other_request :
      (c k : Text) (r : Request)
      → is_request client key r ≡ true
      → (text_eq client c && text_eq key k) ≡ false
      → is_request c k r ≡ false
  other_request c k r p q =
      let x : r.client ≡ client = (text_eq_iff r.client client).0 (ground arith) in
      let y : r.request_key ≡ key = (text_eq_iff r.request_key key).0 (ground arith) in rw (x, y) q

  finish-row :
      (c k : Text) (call : Option Text) (rows : List Request) (r : Request)
      → request_row client key rows ≡ some r
      → (text_eq client c && text_eq key k) ≡ false
      → request_row client key (finish_idempotency c k call rows) ≡ some r
  unfolding finish_idempotency request_row
  finish-row c k call rows r e q =
      let other = other_request c k r (find_passes (is_request client key) rows r e) q in
      let gone =
        find-select (is_request client key) (λ x. not (is_request c k x)) rows r e
          (rw other refl) in
      by_call call other gone
    where
      by_call :
          (o : Option Text)
          → is_request c k r ≡ false
          → find (is_request client key) (select (λ x. not (is_request c k x)) rows) ≡ some r
          → request_row client key (finish_idempotency c k o rows) ≡ some r
      by_call none other gone = gone
      by_call (some id) other gone = elim (Bool-cases (is_empty id)) [
        | inl u ↦ rw (u, finish_idempotency) gone
        | inr u ↦
            rw (u, finish_idempotency)
              (find-update (is_request client key) (is_request c k) (with_call id) rows r
                (λ x. refl) e other)
      ]

  Steps-row :
      {limit : ℕ} {a b : List Request} (r : Request)
      → limit ≤ r.created_at + 86400
      → Steps client key limit a b
      → request_row client key a ≡ some r
      → request_row client key b ≡ some r
  Steps-row r h (Steps.start a) e = e
  Steps-row {limit} r h (Steps.next a b c steps step) e = kept step (Steps-row r h steps e)
    where
      kept :
          {x y : List Request}
          → Step client key limit x y
          → request_row client key x ≡ some r
          → request_row client key y ≡ some r
      kept (Step.claimed now c k a t) q = claim-row now c k a r q (omega arith)
      kept (Step.finished c k call a t) q = finish-row c k call a r q t

  claim-known :
      (now : ℕ) (rows : List Request) (r : Request)
      → request_row client key rows ≡ some r
      → now ≤ r.created_at + 86400
      → (claim_idempotency now client key rows).0 ≡ (false, r.call_id)
  unfolding claim_idempotency request_row
  claim-known now rows r e h =
      let fresh : is_fresh now r ≡ true = ground arith in
      rw (find-select (is_request client key) (is_fresh now) rows r e fresh, claim_idempotency) refl

  claim-new :
      (now : ℕ) (rows : List Request)
      → (claim_idempotency now client key rows).0 ≡ (true, none)
      → request_row client key (claim_idempotency now client key rows).1
        ≡ some (new_request now client key)
  unfolding claim_idempotency request_row
  claim-new now rows e =
      let kept = select (is_fresh now) rows in
      elim (Option-cases (find (is_request client key) kept)) [
        | inl u ↦
            rw (u, claim_idempotency)
              (find-last (is_request client key) kept (new_request now client key) u own)
        | inr u ↦ refused (rw (u.1, claim_idempotency) at e)
      ]
    where
      own : is_request client key (new_request now client key) ≡ true
      own = rw (text_eq_refl client, text_eq_refl key) refl

      refused :
          {B : Type 0} {o : Option Text} → ◌≡◌ {A = Bool × Option Text} (false, o) (true, none) → B
      refused q = cc

  -- A request that is claimed is claimed once: for 24 hours, whatever other requests are claimed
  -- and finished and however often this one is tried again, each further claim is refused as long
  -- as the first has not been finished.
  pub claim_idempotency-exclusive :
      (now later : ℕ) (rows after : List Request)
      → (claim_idempotency now client key rows).0 ≡ (true, none)
      → Steps client key (now + 86400) (claim_idempotency now client key rows).1 after
      → later ≤ now + 86400
      → (claim_idempotency later client key after).0 ≡ (false, none)
  claim_idempotency-exclusive now later rows after e steps h =
      let r = new_request now client key in
      claim-known later after r (Steps-row r (omega arith) steps (claim-new now rows e)) h

  -- A request that was claimed and finished with a call gives that call to each repetition of it
  -- within 24 hours of the claim, whatever other requests do.
  pub finish_idempotency-replayed :
      (now later : ℕ) (id : Text) (rows before after : List Request)
      → (claim_idempotency now client key rows).0 ≡ (true, none)
      → is_empty id ≡ false
      → Steps client key (now + 86400) (claim_idempotency now client key rows).1 before
      → Steps client key (now + 86400) (finish_idempotency client key (some id) before) after
      → later ≤ now + 86400
      → (claim_idempotency later client key after).0 ≡ (false, some id)
  unfolding finish_idempotency request_row
  finish_idempotency-replayed now later id rows before after e full first second h =
      let r = new_request now client key in
      let held = Steps-row r (omega arith) first (claim-new now rows e) in
      let p = find_passes (is_request client key) before r held in
      let set =
        find-updated (is_request client key) (is_request client key) (with_call id) before r
          (λ x. refl) held p in
      claim-known later after (with_call id r)
        (Steps-row (with_call id r) (omega arith) second (rw full set)) h
