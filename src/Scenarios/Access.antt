-- ===== src/Scenarios/Access.antt =====
-- Clients of the API: how often they come, a key that was made, and a request that is sent twice.
use calling_integration.Prelude.{
  ◌≡◌, refl, true, false, [], ◌∷◌, ◌++◌, none, some, Text, codes, arith, text_eq, strip, lstrip,
  is_space, split, join, starts_with, show, count, ◌≤◌, is_digit, mem_text,
}
use calling_integration.Directory.{unique, unique_from}
use calling_integration.Prelude.{ℕ, ◌*◌, List, ◌⊎◌}
use calling_integration.Access.RateLimit.Workers.{Arrival, handled, counts_of, handled-limited}
use calling_integration.Access.Keys.{
  ApiKey, Admission, create_api_key, authenticate_api_key, require_token, scope_items,
  validate_config_value,
}
use calling_integration.Access.Keys.Scopes.{IsGranted, named_scopes}
use calling_integration.Access.Keys.Grants.{
  require_token-create_api_key, require_token-revoke_api_key,
}
use calling_integration.Access.Keys.{revoke_api_key}
use calling_integration.Prelude.{has_char, is_numeric, all_digits, before, after}
use calling_integration.Naming.{extension_digits, extension_scope, extension_key}
use calling_integration.Directory.{ExtensionRow, row_key, list_extensions, sort_rows}
use calling_integration.Engine.World.{ok, raised, Error}
use calling_integration.Engine.Logic.{IsSound}
use calling_integration.Engine.Settled.Service.{empty-IsSound}
use calling_integration.Scenarios.{demo, service_with, ringing_call}
use calling_integration.Access.Calls.{
  Body, Outcome, build_call, find_extension, only_match, isdigit, parse_int, int_value, Digit,
  api_extensions, call_allowed,
}
use calling_integration.Access.Calls.Answers.{
  IsUnreadableRequest, IsOnlyAsked, build_call-IsSound, find_extension-chosen, call_allowed-keyed,
}
use calling_integration.Access.Requests.{
  Desk, Response, create_call, is_valid_key, built, settled, create_call-once,
}
use calling_integration.Claims.Idempotency.{Steps, claim_idempotency, request_row}

abbrev arrivals : List Arrival
arrivals =
    record { worker = 0; request = (codes "api:a", 10) }
    ∷ record { worker = 1; request = (codes "api:b", 11) }
    ∷ record { worker = 1; request = (codes "api:a", 12) }
    ∷ record { worker = 0; request = (codes "api:a", 13) }
    ∷ record { worker = 0; request = (codes "api:a", 60000010) }
    ∷ []

handled-limited_example :
    count (counts_of 2 (codes "api:a") 10) (handled (λ _. 1) arrivals (λ _. [])) ≤ 2 * 1
handled-limited_example =
    handled-limited (λ _. 1) (codes "api:a") 10 0 2 arrivals
      (omega arith, (omega arith, (omega arith, (omega arith, (omega arith, tt)))))

abbrev token : Text
token = codes "eip_secret"

abbrev made_key : ApiKey
made_key = record {
  id = 4;
  name = codes "crm";
  prefix = codes "eip_secret";
  key_hash = token;
  scopes = codes "calls:read,calls:write";
  active = true;
  last_used_at = none;
  owner = some 7;
}

key_created :
    create_api_key (λ t. t) 4 token (codes " crm ") (codes "calls:read, calls:write") (some 7) []
    ≡ some (made_key ∷ [])
unfolding create_api_key validate_config_value scope_items codes strip lstrip is_space split join
    unique unique_from text_eq mem_text
key_created = refl

require_token-create_api_key_example :
    (IsGranted (named_scopes (codes "calls:read, calls:write")) (some (codes "config:read"))
      × (require_token false (codes "Bearer " ++ token) (codes "master") (λ t.
            (authenticate_api_key (λ x. x) 9 t (some (codes "config:read")) (made_key ∷ [])).0)
          ≡ Admission.served (codes "key:" ++ show 4) (some 7)))
    ⊎ ((¬ IsGranted (named_scopes (codes "calls:read, calls:write")) (some (codes "config:read")))
        × (require_token false (codes "Bearer " ++ token) (codes "master") (λ t.
              (authenticate_api_key (λ x. x) 9 t (some (codes "config:read")) (made_key ∷ [])).0)
            ≡ Admission.rejected 403))
unfolding codes starts_with text_eq
require_token-create_api_key_example =
    require_token-create_api_key (λ t. t) 4 9 token (codes " crm ")
      (codes "calls:read, calls:write") (codes "master") (some 7) (some (codes "config:read")) []
      (made_key ∷ []) key_created refl (omega arith) refl

abbrev quiet_desk : Desk
quiet_desk = record { claims = []; calls = []; builds = 0 }

abbrev busy_desk : Desk
busy_desk =
    (create_call 0 false (codes "key:4") (codes "order-0001") (some (codes "call-1")) quiet_desk).1

create_call-once_example :
    ((create_call 100 false
        (codes "key:4")
        (codes "order-0001")
        (some (codes "call-2"))
        busy_desk).0
      ≡ Response.replayed (codes "call-1"))
    × ((create_call 100 false
          (codes "key:4")
          (codes "order-0001")
          (some (codes "call-2"))
          busy_desk).1.builds
        ≡ busy_desk.builds)
unfolding create_call is_valid_key claim_idempotency request_row built settled codes strip lstrip
    is_space text_eq is_digit mem_text
create_call-once_example =
    create_call-once 0 100 (codes "key:4") (codes "order-0001") (codes "call-1")
      (some (codes "call-2")) quiet_desk busy_desk refl refl refl refl
      (Steps.start busy_desk.claims) refl (omega arith)

abbrev call_body : Body
call_body = record {
  phone = codes "+15550199";
  extension = codes "101@+15550100";
  provider = [];
  caller_id_number = [];
  contact_id = none;
  member_id = none;
}

-- No text of the examples has a digit that is not ASCII.
abbrev ascii : ℕ → Digit
ascii _ = Digit.no_digit

build_call-IsSound_example :
    (((o : Outcome) × ((build_call ascii (some 7) [] (some call_body) (service_with [])).0 ≡ ok o))
      ⊎ (((build_call ascii (some 7) [] (some call_body) (service_with [])).0
            ≡ raised Error.value_error)
          × IsUnreadableRequest ascii (some 7) [] (some call_body)))
    × IsSound (build_call ascii (some 7) [] (some call_body) (service_with [])).1.calls
build_call-IsSound_example =
    build_call-IsSound ascii (some 7) [] (some call_body) (service_with []) (empty-IsSound [] refl)

abbrev desk_key : Text
desk_key = codes "101@+15550100"

find_extension-chosen_example :
    (r : ExtensionRow) × (row_key r ≡ desk_key) × IsOnlyAsked (some 7) desk_key r
unfolding find_extension only_match isdigit parse_int int_value api_extensions list_extensions
    sort_rows codes extension_digits extension_scope before strip lstrip is_space row_key
    extension_key is_numeric all_digits is_digit text_eq after
find_extension-chosen_example = find_extension-chosen ascii (some 7) desk_key desk_key refl

call_allowed-keyed_example : call_allowed (some 7) ringing_call ≡ false
unfolding api_extensions list_extensions sort_rows codes has_char
call_allowed-keyed_example = call_allowed-keyed 7 ringing_call (refl, tt) refl

key_revoked : revoke_api_key 4 (some 7) (made_key ∷ []) ≡ some []
unfolding revoke_api_key
key_revoked = refl

require_token-revoke_api_key_example :
    require_token false
      (codes "Bearer " ++ token)
      (codes "master")
      (λ t. (authenticate_api_key (λ x. x) 9 t (some (codes "calls:read")) []).0)
    ≡ Admission.rejected 401
unfolding text_eq codes
require_token-revoke_api_key_example =
    require_token-revoke_api_key (λ t. t) 4 9 (some 7) token (codes "master")
      (some (codes "calls:read")) (made_key ∷ []) [] key_revoked (λ _. refl, tt) refl
