-- ===== src/Journey/Planner.antt =====
-- The steps of a journey in order, and the plan they make (`_plan_nodes`, `_ivr_answer_plan`,
-- `inbound_plan`, `number_flow_anchor`).
use calling_integration.Prelude.{
  ℕ, Bool, true, false, List, [], ◌∷◌, ◌++◌, ◌&&◌, ◌||◌, Option, none, some, Text, text_eq, find,
  select, is_empty, ◌==◌, map, not, if◌then◌else◌, strip, mem_text, any, codes, lookup, insert,
  or_default,
}
use calling_integration.Directory.{
  NumberRow, list_numbers, extension_key_for, scoped_extension_keys, unique, text_ltb,
}
use calling_integration.Engine.Plan.{Plan}
use calling_integration.Journey.Nodes.{
  Kind, Node, CallRoute, Group, Office, Moment, is_kind, is_group_ring, list_or_empty,
  list_call_routes, desk_nodes, active_keys, owner_keys, list_groups, voicemail_key,
}
use calling_integration.Journey.{limited, note_timeout, apply_desk_handling}

-- `node.get("type") in {"extension", "simultaneous", "sequential", "ring_group"}`
abbrev pub is_ring : Kind → Bool
is_ring Kind.extension = true
is_ring k = is_group_ring k

abbrev pub is_journey : Kind → Bool
is_journey Kind.ivr = true
is_journey Kind.business_hours = true
is_journey Kind.voicemail = true
is_journey Kind.forward = true
is_journey _ = false

abbrev pub is_legacy : Kind → Bool
is_legacy Kind.ivr = true
is_legacy Kind.business_hours = true
is_legacy _ = false

abbrev pub or_text : Text → Text → Text
or_text [] d = d
or_text (c ∷ s) d = c ∷ s

-- The variables of the loop over the steps.
pub record Progress : Type 0 where
  pub destinations : List Text
  pub timeout : ℕ
  pub voicemail : Text
  pub forward : Text
  pub forward_timeout : ℕ
  pub timeouts : List (Text × ℕ)
  pub seen_hours : Bool
  pub open_now : Bool

unfoldable pub before_steps : Progress
before_steps = record {
  destinations = [];
  timeout = 30;
  voicemail = [];
  forward = [];
  forward_timeout = 25;
  timeouts = [];
  seen_hours = false;
  open_now = false;
}

-- The day is a working day (or none is named), and `start <= clock <= end`, as texts.
unfoldable pub is_open : Moment → Node → Bool
is_open now node =
    (is_empty node.days || any (λ d. d == now.weekday) node.days)
    && (not (text_ltb now.clock (or_text node.start (codes "09:00")))
        && not (text_ltb (or_text node.finish (codes "17:00")) now.clock))

abbrev group_members : Option Group → List Text
group_members none = []
group_members (some g) = g.members

module _ (office : Office) (now : Moment) (owner : Option ℕ) (number : Text) where
  -- The step's own members, or those of its group.
  unfoldable pub ring_members : Node → List Text
  ring_members node =
      let members = list_or_empty node.extensions in
      let group : Option Group = elim owner [
        | none ↦ none
        | some o ↦ find (λ (g : Group). text_eq g.id node.group_id) (list_groups office o)
      ] in
      if not (is_empty members) then members else group_members group

  unfoldable pub take_mailbox : Node → Progress → Progress
  take_mailbox node st =
      if is_empty st.voicemail
      then record st { voicemail = voicemail_key office number node.mailbox owner }
      else st

  -- Outside business hours: only a mailbox or a forward number applies.
  unfoldable pub closed_step : Node → Progress → Progress
  unfolding take_mailbox
  closed_step node st =
      if is_kind node.kind Kind.voicemail
      then take_mailbox node st
      else if is_kind node.kind Kind.forward && is_empty st.forward
      then record st { forward = node.phone }
      else st

  unfoldable pub open_step : Node → Progress → Progress
  unfolding take_mailbox ring_members
  open_step node st =
      let allowed = owner_keys office owner in
      if is_group_ring node.kind
      then record st {
        destinations = st.destinations ++ select (λ k. mem_text k allowed) (ring_members node);
        timeout = limited node.timeout st.timeout;
      }
      else if is_kind node.kind Kind.extension
      then if not (is_empty node.extension) && mem_text node.extension allowed
        then record st {
          destinations = st.destinations ++ node.extension ∷ [];
          timeouts = note_timeout node.extension node.timeout st.timeouts;
        }
        else st
      else if is_kind node.kind Kind.voicemail
      then take_mailbox node st
      else if is_kind node.kind Kind.forward && is_empty st.forward
      then record st {
        forward = node.phone;
        forward_timeout = limited node.timeout st.forward_timeout;
      }
      else st

  unfoldable pub plan_step : Node → Progress → Progress
  unfolding open_step closed_step is_open
  plan_step node st =
      if not node.enabled
      then st
      else if is_kind node.kind Kind.business_hours && not st.seen_hours
      then record st { seen_hours = true; open_now = is_open now node }
      else if st.seen_hours && not st.open_now
      then closed_step node st
      else open_step node st

  unfoldable pub plan_steps : List Node → Progress → Progress
  unfolding plan_step
  plan_steps [] st = st
  plan_steps (node ∷ nodes) st = plan_steps nodes (plan_step node st)

  -- The journey names no ring, no mailbox and no forward number, and is not closed.
  unfoldable pub is_silent : Text → List Node → Progress → Bool
  is_silent extension nodes st =
      is_empty (unique st.destinations)
      && (is_empty st.voicemail
          && (is_empty st.forward
              && (not (is_empty extension)
                  && (not (any (λ (n : Node). is_ring n.kind) nodes)
                      && not (st.seen_hours && not st.open_now)))))

  -- Each device once; the line's own extension, if the journey says nothing at all.
  unfoldable pub ring_once : Text → List Node → Progress → List Text
  unfolding is_silent
  ring_once extension nodes st =
      if is_silent extension nodes st
      then if mem_text extension (owner_keys office owner) then extension ∷ [] else []
      else unique st.destinations

  -- `{key: timeouts[key] for key in unique if key in timeouts}`
  unfoldable pub kept_timeouts : List Text → List (Text × ℕ) → List (Text × ℕ)
  kept_timeouts [] timeouts = []
  kept_timeouts (k ∷ ks) timeouts =
      let rest = kept_timeouts ks timeouts in
      elim (lookup k timeouts) [ none ↦ rest | some n ↦ (k, n) ∷ rest ]

  unfoldable pub progress_plan : Text → List Node → Progress → Plan
  unfolding ring_once kept_timeouts
  progress_plan extension nodes st = record {
    kind = [];
    destinations = some (ring_once extension nodes st);
    timeout = some st.timeout;
    timeouts = kept_timeouts (ring_once extension nodes st) st.timeouts;
    voicemail = st.voicemail;
    forward = st.forward;
    forward_timeout = some st.forward_timeout;
    fallbacks = [];
    fallback = [];
    fallback_destinations = [];
    media = [];
    attempts = none;
    input_timeout = none;
    key_map = [];
    extensions = [];
    outside_hours = st.seen_hours && not st.open_now;
  }

  -- `_plan_nodes`
  unfoldable pub plan_nodes : List Node → Text → Plan
  unfolding plan_steps progress_plan before_steps
  plan_nodes nodes extension = progress_plan extension nodes (plan_steps nodes before_steps)

unfoldable pub place_text : Text → List Text → List Text
place_text k [] = k ∷ []
place_text k (j ∷ keys) = if text_ltb j k then j ∷ place_text k keys else k ∷ j ∷ keys

-- `sorted` of texts
unfoldable pub sort_texts : List Text → List Text
unfolding place_text
sort_texts [] = []
sort_texts (k ∷ keys) = place_text k (sort_texts keys)

-- `IVR_VOICES`: the sound of each voice.
unfoldable pub voice_media : Text → Text
voice_media voice =
    elim (lookup voice (
      (codes "en-gb", codes "custom/ivr-welcome-en-gb")
      ∷ (codes "es-us", codes "custom/ivr-welcome-es-us")
      ∷ (codes "fr-ca", codes "custom/ivr-welcome-fr-ca")
      ∷ [])) [ none ↦ codes "custom/ivr-welcome" | some media ↦ media ]

-- The steps but the first menu.
unfoldable pub without_menu : List Node → List Node
without_menu [] = []
without_menu (n ∷ nodes) = if is_kind n.kind Kind.ivr then nodes else n ∷ without_menu nodes

-- The keys of a menu whose targets are extensions of the company, a later one in place of an
-- earlier one.
unfoldable pub key_targets :
    List Text → List (Text × Text) → List (Text × Text) → List (Text × Text)
key_targets company [] seen = seen
key_targets company ((key, target) ∷ keys) seen =
    key_targets company keys (if mem_text target company then insert key target seen else seen)

module _ (office : Office) (now : Moment) where
  -- `_ivr_answer_plan`, of a number with an owner: `tail` is the rest of the journey.
  unfoldable pub menu_of : ℕ → Text → Node → Plan → Plan
  unfolding sort_texts voice_media key_targets
  menu_of owner number node tail =
      let company = active_keys office owner in
      let line = scoped_extension_keys office.directory number (some owner) false in
      record {
        kind = codes "ivr";
        destinations = some [];
        timeout = some (or_default tail.timeout 30);
        timeouts = tail.timeouts;
        voicemail = tail.voicemail;
        forward = tail.forward;
        forward_timeout = some (or_default tail.forward_timeout 25);
        fallbacks = tail.fallbacks;
        fallback = if mem_text node.fallback company then node.fallback else [];
        fallback_destinations = list_or_empty tail.destinations;
        media = codes "sound:" ++ voice_media (or_text node.voice (codes "platform"));
        attempts = some (or_default node.attempts 2);
        input_timeout = some (or_default node.input_timeout 6);
        key_map = key_targets company node.keys [];
        extensions = sort_texts (unique (select (λ k. is_empty number || mem_text k line) company));
        outside_hours = tail.outside_hours;
      }

  -- The number's own steps, behind those that an old desk flow still holds.
  unfoldable pub journey_nodes : ℕ → Text → List Node → List Node
  journey_nodes owner extension nodes =
      let old = desk_nodes office (some owner) extension in
      if not (is_empty extension)
        && (not (any (λ (n : Node). is_journey n.kind) nodes)
            && any (λ (n : Node). is_legacy n.kind) old)
      then select (λ (n : Node). is_journey n.kind) old ++ nodes
      else nodes

  unfoldable pub flow_plan : ℕ → Text → Text → List Node → Plan
  unfolding menu_of plan_nodes without_menu
  flow_plan owner number extension nodes =
      let plan = plan_nodes office now (some owner) number nodes extension in
      let ring =
        apply_desk_handling office plan (list_or_empty plan.destinations) number (some owner) in
      elim (find (λ (n : Node). is_kind n.kind Kind.ivr) nodes) [
        | none ↦ ring
        | some menu ↦
            if plan.outside_hours
            then ring
            else menu_of owner number menu
                (plan_nodes office now (some owner) number (without_menu nodes) extension)
      ]

  unfoldable pub ring_only : List Text → Plan
  ring_only keys = record {
    kind = [];
    destinations = some keys;
    timeout = some 30;
    timeouts = [];
    voicemail = [];
    forward = [];
    forward_timeout = none;
    fallbacks = [];
    fallback = [];
    fallback_destinations = [];
    media = [];
    attempts = none;
    input_timeout = none;
    key_map = [];
    extensions = [];
    outside_hours = false;
  }

  unfoldable pub linked_keys : Text → Text → Option ℕ → List Text
  linked_keys number extension owner =
      let key = extension_key_for office.directory number extension owner in
      if is_empty extension || is_empty key then [] else key ∷ []

  -- A number with no journey rings the extension that it points at.
  unfoldable pub bare_plan : Text → Text → Option ℕ → Plan
  unfolding ring_only linked_keys
  bare_plan number extension owner =
      apply_desk_handling office (ring_only (linked_keys number extension owner))
        (linked_keys number extension owner) number owner

  unfoldable pub number_row : Text → Option NumberRow
  number_row number = find (λ n. text_eq n.number number) (list_numbers office.directory)

  -- The journey of a number that has an owner.
  unfoldable pub number_flow : Text → Option (ℕ × CallRoute)
  unfolding number_row
  number_flow number = elim (number_row number) [
    | none ↦ none
    | some row ↦ elim row.owner [
      | none ↦ none
      | some o ↦
          elim (find (λ (r : CallRoute). text_eq r.phone_number number)
            (list_call_routes office o)) [ none ↦ none | some route ↦ some (o, route) ]
    ]
  ]

  unfoldable pub answering : Option NumberRow → Text → Text
  answering none fallback = strip fallback
  answering (some row) fallback = strip (or_text row.inbound_extension fallback)

  unfoldable pub number_owner : Option NumberRow → Option ℕ
  number_owner none = none
  number_owner (some row) = row.owner

  unfoldable pub inbound_plan : Text → Text → Plan
  unfolding number_flow answering flow_plan bare_plan journey_nodes number_owner
  inbound_plan dialled fallback =
      let number = strip dialled in
      let extension = answering (number_row number) fallback in
      elim (number_flow number) [
        | none ↦ bare_plan number extension (number_owner (number_row number))
        | some (o, route) ↦ flow_plan o number extension (journey_nodes o extension route.nodes)
      ]

  unfoldable pub candidates : List Node → List Text
  candidates [] = []
  candidates (n ∷ nodes) =
      list_or_empty n.extensions
      ++ (n.extension ∷ n.mailbox ∷ map (λ (e : Text × Text). e.1) n.keys)
      ++ candidates nodes

  -- `number_flow_anchor`
  unfoldable pub number_flow_anchor : Text → Text
  unfolding number_flow candidates
  number_flow_anchor number = elim (number_flow number) [
    | none ↦ []
    | some (o, route) ↦
        let allowed = active_keys office o in
        elim (find (λ k. mem_text k allowed) (candidates route.nodes)) [
          | some key ↦ key
          | none ↦ elim allowed [ [] ↦ [] | k ∷ ks ↦ k ]
        ]
  ]
