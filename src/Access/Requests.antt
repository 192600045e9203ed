-- ===== src/Access/Requests.antt =====
-- The request that starts a call (`create_call` in app/routes.py), under an `Idempotency-Key`.
use calling_integration.Prelude.{
  ℕ, ◌+◌, ◌≤◌, Bool, true, false, not, ◌&&◌, ◌||◌, List, ◌∷◌, Option, none, some, Text, ◌≡◌, refl,
  subst, ap, ◌∙◌, is_empty, length, any, mem_text, ltb, leb, ◌==◌, if◌then◌else◌, strip, is_digit,
}
use calling_integration.Claims.Idempotency.{
  Request, Steps, claim_idempotency, finish_idempotency, finish_idempotency-replayed,
}

-- The answers of the handler: 429, 400, 200 with the call of an earlier request, 409, the error of
-- `build_call`, 201.
pub data Response : Type 0 where
  too_many invalid_key in_progress : Response
  replayed created : Text → Response
  failed : Response

-- `[A-Za-z0-9._:-]`
abbrev is_key_char : ℕ → Bool
is_key_char c =
    is_digit c
    || (leb 65 c && leb c 90)
    || (leb 97 c && leb c 122)
    || c == 46
    || c == 95
    || c == 58
    || c == 45

unfoldable pub is_valid_key : Text → Bool
is_valid_key key =
    not (ltb (length key) 8)
    && not (ltb 128 (length key))
    && not (any (λ c. not (is_key_char c)) key)

-- The claims, the calls of the store, and how often `build_call` ran.
pub record Desk : Type 0 where
  pub claims : List Request
  pub calls : List Text
  pub builds : ℕ

-- What `build_call` gives: the call that it made, or nothing where it returned an error.
unfoldable pub built : Option Text → Desk → Desk
built none desk = record desk { builds = desk.builds + 1 }
built (some id) desk = record desk { builds = desk.builds + 1; calls = id ∷ desk.calls }

unfoldable pub answer : Option Text → Response
answer none = Response.failed
answer (some id) = Response.created id

unfoldable pub settled : Text → Text → Option Text → Desk → Desk
unfolding built
settled client key call desk =
    let after = built call desk in
    record after { claims = finish_idempotency client key call after.claims }

-- The answer to a request that is not the caller's to carry out.
unfoldable pub repeated : Option Text → Desk → Response
repeated none desk = Response.in_progress
repeated (some id) desk =
    if mem_text id desk.calls then Response.replayed id else Response.in_progress

-- One request: `limited` is the rate limit's word, `call` what `build_call` would give.
unfoldable pub create_call : ℕ → Bool → Text → Text → Option Text → Desk → Response × Desk
unfolding is_valid_key settled built answer repeated
create_call now limited client header call desk =
    let key = strip header in
    let claim = claim_idempotency now client key desk.claims in
    let claimed = record desk { claims = claim.1 } in
    if limited
    then (Response.too_many, desk)
    else if not (is_empty key) && not (is_valid_key key)
    then (Response.invalid_key, desk)
    else if is_empty key
    then (answer call, built call desk)
    else if claim.0.0
    then (answer call, settled client key call claimed)
    else (repeated claim.0.1 claimed, claimed)

create_call-mine :
    (now : ℕ) (client header : Text) (call : Option Text) (desk : Desk)
    → is_empty (strip header) ≡ false
    → is_valid_key (strip header) ≡ true
    → (claim_idempotency now client (strip header) desk.claims).0 ≡ (true, none)
    → create_call now false client header call desk ≡ (
      answer call,
      settled client
          (strip header)
          call
          (record desk { claims = (claim_idempotency now client (strip header) desk.claims).1 }),
    )
unfolding create_call
create_call-mine now client header call desk full valid mine =
    rw (full, valid, mine, create_call) refl

create_call-theirs :
    (now : ℕ) (client header : Text) (call prior : Option Text) (desk : Desk)
    → is_empty (strip header) ≡ false
    → is_valid_key (strip header) ≡ true
    → (claim_idempotency now client (strip header) desk.claims).0 ≡ (false, prior)
    → create_call now false client header call desk ≡ (
        let claimed : Desk = record desk {
          claims = (claim_idempotency now client (strip header) desk.claims).1;
        } in
        (repeated prior claimed, claimed))
unfolding create_call
create_call-theirs now client header call prior desk full valid theirs =
    rw (full, valid, theirs, create_call) refl

-- A request that is sent again under its key starts no second call: if the first one was new and made
-- a call, then for 24 hours each repetition is answered with that call, as long as the store has it,
-- and `build_call` does not run again, whatever other requests came in between.
pub create_call-once :
    (now later : ℕ) (client header id : Text) (call : Option Text) (first second : Desk)
    → is_empty (strip header) ≡ false
    → is_valid_key (strip header) ≡ true
    → is_empty id ≡ false
    → (claim_idempotency now client (strip header) first.claims).0 ≡ (true, none)
    → Steps client
        (strip header)
        (now + 86400)
        (create_call now false client header (some id) first).1.claims
        second.claims
    → mem_text id second.calls ≡ true
    → later ≤ now + 86400
    → ((create_call later false client header call second).0 ≡ Response.replayed id)
      × ((create_call later false client header call second).1.builds ≡ second.builds)
unfolding settled built repeated
create_call-once now later client header id call first second full valid named mine steps here h =
    let key = strip header in
    let done = create_call-mine now client header (some id) first full valid mine in
    let claims = (claim_idempotency now client key first.claims).1 in
    let onward =
      subst (λ x. Steps client key (now + 86400) x second.claims) (ap (λ r. r.1.claims) done)
        steps in
    let known =
      finish_idempotency-replayed client key now later id first.claims claims second.claims mine
        named (Steps.start claims) onward h in
    let again = create_call-theirs later client header call (some id) second full valid known in
    (ap (λ r. r.0) again ∙ rw here refl, ap (λ r. r.1.builds) again)
