-- ===== src/Access/RateLimit.antt =====
-- The rate limit of the API (`_rate_limited` in app/routes.py) in one worker process, which has a
-- dictionary of its own: a queue of times for each client.
-- Times are in microseconds, of a clock that does not go back.
pub mod Workers
use calling_integration.Prelude.{
  ℕ, suc, ◌+◌, ◌≤◌, Bool, true, false, ◌&&◌, List, [], ◌∷◌, ◌++◌, Option, none, some, Text, text_eq,
  text_eq_iff, text_eq_refl, ◌≡◌, refl, sym, subst, ap, ◌∙◌, ◌⊎◌, inl, inr, lookup, insert,
  lookup-insert, length, length-append, count, ltb, leb, arith, Bool-cases, if◌then◌else◌,
}

-- `WINDOW_SECONDS`
abbrev pub window : ℕ
window = 60000000

unfoldable pub drop_old : ℕ → List ℕ → List ℕ
drop_old now [] = []
drop_old now (t ∷ bucket) =
    let rest = drop_old now bucket in if leb (t + window) now then rest else t ∷ bucket

abbrev queued : Option (List ℕ) → List ℕ
queued none = []
queued (some bucket) = bucket

abbrev pub bucket_of : Text → List (Text × List ℕ) → List ℕ
bucket_of key times = queued (lookup key times)

-- Whether the request is refused, and the worker's queues after it.
unfoldable pub rate_limited : Text → ℕ → ℕ → List (Text × List ℕ) → Bool × List (Text × List ℕ)
unfolding drop_old
rate_limited key limit now times =
    let bucket = drop_old now (bucket_of key times) in
    if leb limit (length bucket)
    then (true, insert key bucket times)
    else (false, insert key (bucket ++ now ∷ []) times)

-- The requests that pass one worker, of requests with their client and time. `limits` is the limit of each
-- client's scope.
unfoldable pub passed : (Text → ℕ) → List (Text × ℕ) → List (Text × List ℕ) → List (Text × ℕ)
unfolding rate_limited
passed limits [] times = []
passed limits ((key, now) ∷ requests) times =
    let outcome = rate_limited key (limits key) now times in
    let rest = passed limits requests outcome.1 in if outcome.0 then rest else (key, now) ∷ rest

-- The times do not go back.
abbrev pub IsOrdered : ℕ → List (Text × ℕ) → Type 0
IsOrdered last [] = Unit
IsOrdered last ((key, now) ∷ requests) = (last ≤ now) × IsOrdered now requests

-- Within one window's length of `start`.
abbrev pub is_within : ℕ → ℕ → Bool
is_within start t = leb start t && ltb t (start + window)

abbrev pub counts : Text → ℕ → Text × ℕ → Bool
counts key start r = text_eq r.0 key && is_within start r.1

module _ (start : ℕ) where
  -- What leaves the queue is of no window that is still open.
  drop_old-count :
      (now : ℕ) (bucket : List ℕ)
      → (count (is_within start) bucket ≡ count (is_within start) (drop_old now bucket))
        ⊎ (start + window ≤ now)
  unfolding drop_old
  drop_old-count now [] = inl refl
  drop_old-count now (t ∷ bucket) = elim (Bool-cases (leb (t + window) now)) [
    | inr u ↦ rw u (inl refl)
    | inl u ↦ elim (drop_old-count now bucket) [
      | inr h ↦ inr h
      | inl e ↦ elim (Bool-cases (is_within start t)) [
        | inl w ↦ inr (grind arith)
        | inr w ↦ rw u (inl (rw w e))
      ]
    ]
  ]

  drop_old-length : (now : ℕ) (bucket : List ℕ) → length (drop_old now bucket) ≤ length bucket
  unfolding drop_old
  drop_old-length now [] = omega arith
  drop_old-length now (t ∷ bucket) = let rest = drop_old-length now bucket in ground arith

  count-length : (bucket : List ℕ) → count (is_within start) bucket ≤ length bucket
  count-length [] = omega arith
  count-length (t ∷ bucket) = let rest = count-length bucket in ground arith

  count-last :
      (bucket : List ℕ) (now : ℕ)
      → count (is_within start) (bucket ++ now ∷ [])
        ≡ count (is_within start) bucket + (if is_within start now then 1 else 0)
  count-last [] now = ground arith
  count-last (t ∷ bucket) now = let rest = count-last bucket now in ground arith

bucket_of-insert :
    (key other : Text) (bucket : List ℕ) (times : List (Text × List ℕ))
    → bucket_of other (insert key bucket times)
      ≡ (if text_eq key other then bucket else bucket_of other times)
bucket_of-insert key other bucket times =
    ap queued (lookup-insert key other bucket times)
    ∙ (elim (Bool-cases (text_eq key other)) [ inl u ↦ rw u refl | inr u ↦ rw u refl ])

module _ (limits : Text → ℕ) (client : Text) (start : ℕ) where
  passed-late :
      (last : ℕ) (requests : List (Text × ℕ)) (times : List (Text × List ℕ))
      → start + window ≤ last
      → IsOrdered last requests
      → count (counts client start) (passed limits requests times) ≡ 0
  unfolding passed
  passed-late last [] times late h = refl
  passed-late last ((key, now) ∷ requests) times late h =
      let ordered = h.0 in
      let outcome = rate_limited key (limits key) now times in
      let rest = passed-late now requests outcome.1 (omega arith) h.1 in
      let out : is_within start now ≡ false = ground arith in
      elim (Bool-cases outcome.0) [
        | inl u ↦ rw u rest
        | inr u ↦ rw (u, out) (nothing (text_eq key client) rest)
      ]
    where
      nothing : {n : ℕ} (b : Bool) → n ≡ 0 → (if b && false then suc n else n) ≡ 0
      nothing true e = e
      nothing false e = e

  passed-refused :
      (key : Text) (now : ℕ) (requests : List (Text × ℕ)) (times : List (Text × List ℕ))
      → leb (limits key) (length (drop_old now (bucket_of key times))) ≡ true
      → passed limits ((key, now) ∷ requests) times
        ≡ passed limits requests (insert key (drop_old now (bucket_of key times)) times)
  unfolding passed rate_limited
  passed-refused key now requests times u = rw (u, passed, rate_limited) refl

  passed-admitted :
      (key : Text) (now : ℕ) (requests : List (Text × ℕ)) (times : List (Text × List ℕ))
      → leb (limits key) (length (drop_old now (bucket_of key times))) ≡ false
      → passed limits ((key, now) ∷ requests) times
        ≡ (key, now)
          ∷ passed limits requests
              (insert key (drop_old now (bucket_of key times) ++ now ∷ []) times)
  unfolding passed rate_limited
  passed-admitted key now requests times u = rw (u, passed, rate_limited) refl

  -- The window's places that the queue of the client and the requests to come take.
  abbrev places : List ℕ → List (Text × ℕ) → ℕ
  places bucket requests = count (is_within start) bucket + count (counts client start) requests

  -- The places after a request of the client, with the queue that it leaves.
  own_refused :
      (now : ℕ) (bucket : List ℕ) (rest : List (Text × ℕ))
      → length bucket ≤ limits client
      → (start + window ≤ now → count (counts client start) rest ≡ 0)
      → places (drop_old now bucket) rest ≤ limits client
      → places bucket rest ≤ limits client
  own_refused now bucket rest short late h = elim (drop_old-count start now bucket) [
    | inl e ↦ rw e h
    | inr w ↦ let none_left = late w in let few = count-length start bucket in omega arith
  ]

  own_admitted :
      (now : ℕ) (bucket : List ℕ) (rest : List (Text × ℕ))
      → length bucket ≤ limits client
      → (start + window ≤ now → count (counts client start) rest ≡ 0)
      → places (drop_old now bucket ++ now ∷ []) rest ≤ limits client
      → places bucket ((client, now) ∷ rest) ≤ limits client
  own_admitted now bucket rest short late h =
      let last = count-last start (drop_old now bucket) now in
      let few = count-length start bucket in
      let own = text_eq_refl client in
      elim (drop_old-count start now bucket) [
        | inl e ↦ rw (own, e) (ground arith)
        | inr w ↦
            let none_left = late w in
            let out : is_within start now ≡ false = ground arith in
            rw (own, out, none_left) (omega arith)
      ]

  -- What is known of the requests to come, whatever the queues are.
  abbrev Held : List (Text × ℕ) → Type 0
  Held requests =
      (times : List (Text × List ℕ))
      → length (bucket_of client times) ≤ limits client
      → places (bucket_of client times) (passed limits requests times) ≤ limits client

  bucket-own :
      (bucket : List ℕ) (times : List (Text × List ℕ))
      → bucket_of client (insert client bucket times) ≡ bucket
  bucket-own bucket times =
      bucket_of-insert client client bucket times ∙ rw (text_eq_refl client) refl

  Held-queue :
      (requests : List (Text × ℕ)) (bucket : List ℕ) (times : List (Text × List ℕ))
      → Held requests
      → bucket_of client times ≡ bucket
      → length bucket ≤ limits client
      → places bucket (passed limits requests times) ≤ limits client
  Held-queue requests bucket times held e h =
      subst (λ b. places b (passed limits requests times) ≤ limits client) e
        (held times (subst (λ b. length b ≤ limits client) (sym e) h))

  own_step :
      (now : ℕ) (requests : List (Text × ℕ)) (times : List (Text × List ℕ))
      → IsOrdered now requests
      → length (bucket_of client times) ≤ limits client
      → Held requests
      → places (bucket_of client times) (passed limits ((client, now) ∷ requests) times)
        ≤ limits client
  own_step now requests times h short held =
      let bucket = bucket_of client times in
      let kept = drop_old now bucket in
      let shorter = drop_old-length start now bucket in
      elim (Bool-cases (leb (limits client) (length kept))) [
        | inl u ↦
            let after = insert client kept times in
            rw (passed-refused client now requests times u) (
              own_refused now bucket (passed limits requests after) short
                (λ late. passed-late now requests after late h)
                (Held-queue requests kept after held (bucket-own kept times) (omega arith)))
        | inr u ↦
            let grown = kept ++ now ∷ [] in
            let after = insert client grown times in
            let size = length-append kept (now ∷ []) in
            let room : length grown ≤ limits client = ground arith in
            rw (passed-admitted client now requests times u) (
              own_admitted now bucket (passed limits requests after) short
                (λ late. passed-late now requests after late h)
                (Held-queue requests grown after held (bucket-own grown times) room))
      ]

  other_step :
      (key : Text) (now : ℕ) (requests : List (Text × ℕ)) (times : List (Text × List ℕ))
      → text_eq key client ≡ false
      → length (bucket_of client times) ≤ limits client
      → Held requests
      → places (bucket_of client times) (passed limits ((key, now) ∷ requests) times)
        ≤ limits client
  other_step key now requests times other short held =
      let bucket = bucket_of client times in
      let kept = drop_old now (bucket_of key times) in
      elim (Bool-cases (leb (limits key) (length kept))) [
        | inl u ↦ rw (passed-refused key now requests times u) (
            Held-queue requests bucket (insert key kept times) held
              (bucket_of-insert key client kept times ∙ rw other refl) short)
        | inr u ↦
            let grown = kept ++ now ∷ [] in
            rw (passed-admitted key now requests times u, other)
              (Held-queue requests bucket (insert key grown times) held
                (bucket_of-insert key client grown times ∙ rw other refl) short)
      ]

  passed-places : (last : ℕ) (requests : List (Text × ℕ)) → IsOrdered last requests → Held requests
  unfolding passed
  passed-places last [] h times short =
      let few = count-length start (bucket_of client times) in omega arith
  passed-places last ((key, now) ∷ requests) h times short =
      let held = passed-places now requests h.1 in
      elim (Bool-cases (text_eq key client)) [
        | inl same ↦
            subst
              (λ k.
                places (bucket_of client times) (passed limits ((k, now) ∷ requests) times)
                ≤ limits client)
              (sym ((text_eq_iff key client).0 same)) (own_step now requests times h.1 short held)
        | inr other ↦ other_step key now requests times other short held
      ]

-- With one dictionary, in every minute, from any start, at most as many requests of a client pass as
-- its scope allows, whatever requests come from this client and from others, if the clock does not
-- go back.
pub passed-limited :
    (limits : Text → ℕ) (client : Text) (start first : ℕ) (requests : List (Text × ℕ))
    → IsOrdered first requests
    → count (counts client start) (passed limits requests []) ≤ limits client
unfolding lookup
passed-limited limits client start first requests h =
    let bound = passed-places limits client start first requests h [] (omega arith) in omega arith
