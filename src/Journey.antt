-- ===== src/Journey.antt =====
-- The call plan that a stored journey means (app/admin.py, `inbound_plan` and what it calls). An
-- `active` of a flow or of a group is stored, and read by none of these functions.
pub mod Nodes
pub mod Planner
pub mod Steps
pub mod Owned
pub mod Limits
use calling_integration.Prelude.{
  ℕ, Bool, true, false, List, [], ◌∷◌, ◌++◌, ◌&&◌, ◌||◌, Option, none, some, Text, String, text_eq,
  find, select, is_empty, ◌==◌, map, not, if◌then◌else◌, strip, mem_text, any, min, max, codes,
  lookup, insert, is_some, or_default, head?, or_else,
}
use calling_integration.Naming.{extension_scope}
use calling_integration.Directory.{
  NumberRow, list_numbers, extension_key_for, scoped_extension_keys, unique, text_ltb,
  list_extensions, ExtensionRow, row_key,
}
use calling_integration.Engine.Plan.{Plan}
use calling_integration.Journey.Nodes.{
  Kind, Node, CallRoute, RoutingFlow, Group, Office, Moment, is_kind, is_group_ring, list_or_empty,
  list_call_routes, desk_nodes, active_keys, owner_keys, list_groups, extension_voicemail_enabled,
  voicemail_key,
}

-- `max(5, min(120, int(timeout)))`
unfoldable pub ring_limit : ℕ → ℕ
ring_limit n = max 5 (min 120 n)

-- `str(node.get("timeout") or "").isdigit()`: a number that is there and not 0.
unfoldable pub given : Option ℕ → Option ℕ
given none = none
given (some n) = if n == 0 then none else some n

unfoldable pub limited : Option ℕ → ℕ → ℕ
unfolding given ring_limit
limited t default = elim (given t) [ none ↦ default | some n ↦ ring_limit n ]

-- `d[key] = max(5, min(120, timeout))`, if there is one.
unfoldable pub note_timeout : Text → Option ℕ → List (Text × ℕ) → List (Text × ℕ)
unfolding given ring_limit
note_timeout key t timeouts = elim (given t) [
  | none ↦ timeouts
  | some n ↦ insert key (ring_limit n) timeouts
]

-- `{**a, **b}`
unfoldable pub merge {ℓ} : {V : Type ℓ} → List (Text × V) → List (Text × V) → List (Text × V)
merge a [] = a
merge a ((k, v) ∷ b) = merge (insert k v a) b

-- What each rung desk asks for: `_desk_handling`.
pub record Handling : Type 0 where
  pub timeouts : List (Text × ℕ)
  pub fallbacks : List Text
  pub disabled : List Text
  pub forward : Text
  pub forward_timeout : ℕ

unfoldable pub no_handling : Handling
no_handling = record {
  timeouts = [];
  fallbacks = [];
  disabled = [];
  forward = [];
  forward_timeout = 25;
}

-- A step of the desk's own flow.
unfoldable pub handling_step : List Text → List Text → Text → Node → Handling → Handling
unfolding note_timeout
handling_step allowed keys key node h =
    if is_kind node.kind Kind.extension && text_eq node.extension key
    then record h {
      disabled = if not node.ring_enabled then h.disabled ++ key ∷ [] else h.disabled;
      timeouts = note_timeout key node.timeout h.timeouts;
    }
    else if is_kind node.kind Kind.extension
    then if not (is_empty node.extension)
        && (mem_text node.extension allowed
            && (not (mem_text node.extension h.fallbacks) && not (mem_text node.extension keys)))
      then record h { fallbacks = h.fallbacks ++ node.extension ∷ [] }
      else h
    else if is_kind node.kind Kind.forward && is_empty h.forward
    then record h { forward = node.phone; forward_timeout = or_default node.timeout 25 }
    else h

unfoldable pub handling_nodes : List Text → List Text → Text → List Node → Handling → Handling
unfolding handling_step
handling_nodes allowed keys key [] h = h
handling_nodes allowed keys key (node ∷ nodes) h =
    handling_nodes allowed keys key nodes (handling_step allowed keys key node h)

module _ (office : Office) where
  unfoldable pub handling_desks : Option ℕ → List Text → List Text → Handling → Handling
  unfolding handling_nodes
  handling_desks owner keys [] h = h
  handling_desks owner keys (key ∷ rest) h =
      handling_desks owner keys rest
        (handling_nodes (owner_keys office owner) keys key (desk_nodes office owner key) h)

  -- `_desk_handling`
  unfoldable pub desk_handling : List Text → Option ℕ → Handling
  unfolding handling_desks no_handling
  desk_handling keys owner = handling_desks owner keys keys no_handling

  -- The first policy of the desk: its own ring step with a `no_answer`.
  unfoldable pub desk_policy : Text → List Node → Option Node
  desk_policy key =
      find (λ n. is_kind n.kind Kind.extension && (text_eq n.extension key && is_some n.no_answer))

  unfoldable pub is_voicemail_policy : Option Node → Bool
  is_voicemail_policy none = true
  is_voicemail_policy (some n) = elim n.no_answer [
    | none ↦ false
    | some action ↦ text_eq action (codes "voicemail")
  ]

  unfoldable pub flow_mailbox : Text → Text → Option ℕ → List Node → Text
  unfolding desk_policy is_voicemail_policy
  flow_mailbox number key owner nodes =
      let policy = desk_policy key nodes in
      if not (is_voicemail_policy policy)
      then []
      else elim (find (λ n. is_kind n.kind Kind.voicemail && n.enabled) nodes) [
        | some n ↦ voicemail_key office number (if is_empty n.mailbox then key else n.mailbox) owner
        | none ↦ if extension_voicemail_enabled office key && not (is_some policy) then key else []
      ]

  -- `_desk_voicemail`
  unfoldable pub desk_voicemail : Text → Text → Option ℕ → Text
  unfolding flow_mailbox
  desk_voicemail number extension owner =
      let key =
        if not (is_empty (extension_scope extension)) || is_empty number
        then extension
        else extension_key_for office.directory number extension owner in
      if is_empty extension || is_empty key
      then []
      else flow_mailbox number key owner (desk_nodes office owner key)

  unfoldable pub first_of : List Text → List Text
  first_of [] = []
  first_of (k ∷ ks) = k ∷ []

  unfoldable pub first_mailbox : Text → List Text → Option ℕ → Text
  unfolding desk_voicemail
  first_mailbox number [] owner = []
  first_mailbox number (k ∷ ks) owner = desk_voicemail number k owner

  -- Where an unanswered call ends, if the journey does not say: the first desk's mailbox, or its
  -- forward number.
  unfoldable pub with_ending : Handling → Text → Plan → Plan
  with_ending ending mailbox plan =
      if not (is_empty plan.voicemail) || not (is_empty plan.forward)
      then plan
      else if is_empty mailbox
      then record plan {
        voicemail = [];
        forward = ending.forward;
        forward_timeout = some ending.forward_timeout;
      }
      else record plan { voicemail = mailbox }

  -- The desks that ring, for how long each, and which are tried after them.
  unfoldable pub with_handling : Handling → Handling → Plan → Plan
  unfolding merge
  with_handling handling ending plan = record plan {
    destinations =
        some (select (λ k. not (mem_text k handling.disabled)) (list_or_empty plan.destinations));
    timeouts = merge plan.timeouts handling.timeouts;
    fallbacks = ending.fallbacks;
  }

  -- `apply_desk_handling`
  unfoldable pub apply_desk_handling : Plan → List Text → Text → Option ℕ → Plan
  unfolding desk_handling first_of first_mailbox with_ending with_handling
  apply_desk_handling plan keys number owner =
      with_ending (desk_handling (first_of keys) owner) (first_mailbox number keys owner)
        (with_handling (desk_handling keys owner) (desk_handling (first_of keys) owner) plan)
