-- ===== src/Journey/Limits.antt =====
-- How long a plan lets each desk ring.
use calling_integration.Prelude.{
  ℕ, ◌≤◌, ◌≡◌, refl, sym, subst, List, [], ◌∷◌, ◌&&◌, ◌||◌, Option, none, some, Text, text_eq,
  mem_text, All, All-insert, lookup-All, is_empty, not, if_cases, Holds, Option-cases, inl, inr,
  or_default, strip, arith, find, lookup, insert,
}
use calling_integration.Engine.Plan.{Plan}
use calling_integration.Journey.{
  Handling, no_handling, handling_step, handling_nodes, handling_desks, desk_handling, with_ending,
  with_handling, apply_desk_handling, first_of, first_mailbox, merge, note_timeout, given,
  ring_limit, limited,
}
use calling_integration.Journey.Nodes.{
  Kind, Node, Office, Moment, is_kind, is_group_ring, list_or_empty, owner_keys, desk_nodes,
}
use calling_integration.Journey.Planner.{
  Progress, before_steps, closed_step, open_step, plan_step, plan_steps, progress_plan, plan_nodes,
  menu_of, flow_plan, bare_plan, ring_only, linked_keys, number_flow, inbound_plan, take_mailbox,
  without_menu, kept_timeouts, answering, number_row, journey_nodes,
}

-- The seconds of a desk lie between 5 and 120.
abbrev pub IsLimited : Text × ℕ → Type 0
IsLimited e = (5 ≤ e.1) × (e.1 ≤ 120)

abbrev AllLimited : List (Text × ℕ) → Type 0
AllLimited = All IsLimited

ring_limit-IsLimited : (k : Text) (n : ℕ) → IsLimited (k, ring_limit n)
unfolding ring_limit
ring_limit-IsLimited k n = (omega arith, omega arith)

note_timeout-IsLimited :
    (k : Text) (t : Option ℕ) (m : List (Text × ℕ)) → AllLimited m → AllLimited (note_timeout k t m)
unfolding note_timeout
note_timeout-IsLimited k t m h = noted (given t)
  where
    noted : (o : Option ℕ) → AllLimited (elim o [ none ↦ m | some n ↦ insert k (ring_limit n) m ])
    noted none = h
    noted (some n) = All-insert IsLimited k (ring_limit n) m (ring_limit-IsLimited k n) h

merge-IsLimited : (a b : List (Text × ℕ)) → AllLimited a → AllLimited b → AllLimited (merge a b)
unfolding merge
merge-IsLimited a [] p q = p
merge-IsLimited a ((k, v) ∷ b) p q =
    merge-IsLimited (insert k v a) b (All-insert IsLimited k v a q.0 p) q.1

-- The seconds of each desk, and those of a desk that has none of its own.
abbrev pub IsTimed : Plan → Type 0
IsTimed p = AllLimited p.timeouts × IsLimited ([], or_default p.timeout 30)

limited-IsLimited :
    (t : Option ℕ) (default : ℕ) → IsLimited ([], default) → IsLimited ([], limited t default)
unfolding limited
limited-IsLimited t default h = chosen (given t)
  where
    chosen : (o : Option ℕ) → IsLimited ([], elim o [ none ↦ default | some n ↦ ring_limit n ])
    chosen none = h
    chosen (some n) = ring_limit-IsLimited [] n

default-IsLimited : (n : ℕ) → IsLimited ([], n) → IsLimited ([], or_default (some n) 30)
default-IsLimited n h = let low = h.0 in let high = h.1 in (ground arith, ground arith)

abbrev Timed : Handling → Type 0
Timed h = Holds (λ (x : Handling). AllLimited x.timeouts) h

handling_step-Timed :
    (allowed keys : List Text) (key : Text) (node : Node) (h : Handling)
    → Timed h
    → Timed (handling_step allowed keys key node h)
unfolding handling_step
handling_step-Timed allowed keys key node h p =
    if_cases (is_kind node.kind Kind.extension && text_eq node.extension key)
      (λ _. record { holds = note_timeout-IsLimited key node.timeout h.timeouts p.holds })
      (λ _.
        if_cases (is_kind node.kind Kind.extension)
          (λ _.
            if_cases
              (not (is_empty node.extension)
                && (mem_text node.extension allowed
                    && (not (mem_text node.extension h.fallbacks)
                        && not (mem_text node.extension keys))))
              (λ _. record { holds = p.holds }) (λ _. p))
          (λ _.
            if_cases (is_kind node.kind Kind.forward && is_empty h.forward)
              (λ _. record { holds = p.holds }) (λ _. p)))

handling_nodes-Timed :
    (allowed keys : List Text) (key : Text) (nodes : List Node) (h : Handling)
    → Timed h
    → Timed (handling_nodes allowed keys key nodes h)
unfolding handling_nodes
handling_nodes-Timed allowed keys key [] h p = p
handling_nodes-Timed allowed keys key (node ∷ nodes) h p =
    handling_nodes-Timed allowed keys key nodes _ (handling_step-Timed allowed keys key node h p)

handling_desks-Timed :
    (office : Office) (owner : Option ℕ) (keys rest : List Text) (h : Handling)
    → Timed h
    → Timed (handling_desks office owner keys rest h)
unfolding handling_desks
handling_desks-Timed office owner keys [] h p = p
handling_desks-Timed office owner keys (key ∷ rest) h p =
    handling_desks-Timed office owner keys rest _
      (handling_nodes-Timed (owner_keys office owner) keys key (desk_nodes office owner key) h p)

desk_handling-IsLimited :
    (office : Office) (keys : List Text) (owner : Option ℕ)
    → AllLimited (desk_handling office keys owner).timeouts
unfolding desk_handling no_handling
desk_handling-IsLimited office keys owner =
    (handling_desks-Timed office owner keys keys no_handling (record { holds = tt })).holds

with_ending-timeouts :
    (office : Office) (ending : Handling) (mailbox : Text) (plan : Plan)
    → ((with_ending office ending mailbox plan).timeouts ≡ plan.timeouts)
      × ((with_ending office ending mailbox plan).timeout ≡ plan.timeout)
unfolding with_ending
with_ending-timeouts office ending mailbox plan =
    (if_cases {Q = λ (p : Plan). (p.timeouts ≡ plan.timeouts) × (p.timeout ≡ plan.timeout)}
      (not (is_empty plan.voicemail) || not (is_empty plan.forward)) {x = plan}
      (λ _. record { holds = (refl, refl) })
      (λ _.
        if_cases (is_empty mailbox) (λ _. record { holds = (refl, refl) })
          (λ _. record { holds = (refl, refl) }))).holds

pub apply_desk_handling-IsTimed :
    (office : Office) (plan : Plan) (keys : List Text) (number : Text) (owner : Option ℕ)
    → IsTimed plan
    → IsTimed (apply_desk_handling office plan keys number owner)
unfolding apply_desk_handling with_handling
apply_desk_handling-IsTimed office plan keys number owner h =
    let same =
      with_ending-timeouts office (desk_handling office (first_of office keys) owner)
        (first_mailbox office number keys owner)
        (with_handling office (desk_handling office keys owner)
          (desk_handling office (first_of office keys) owner) plan) in
    (
      subst AllLimited (sym same.0) (
          merge-IsLimited plan.timeouts (desk_handling office keys owner).timeouts h.0
            (desk_handling-IsLimited office keys owner)),
      subst (λ t. IsLimited ([], or_default t 30)) (sym same.1) h.1,
    )

module _ (office : Office) (now : Moment) (owner : Option ℕ) (number : Text) where
  abbrev Rung : Progress → Type 0
  Rung st = Holds (λ (x : Progress). AllLimited x.timeouts × IsLimited ([], x.timeout)) st

  take_mailbox-Rung :
      (node : Node) (st : Progress) → Rung st → Rung (take_mailbox office now owner number node st)
  unfolding take_mailbox
  take_mailbox-Rung node st h =
      if_cases (is_empty st.voicemail) (λ _. record { holds = h.holds }) (λ _. h)

  closed_step-Rung :
      (node : Node) (st : Progress) → Rung st → Rung (closed_step office now owner number node st)
  unfolding closed_step
  closed_step-Rung node st h =
      if_cases (is_kind node.kind Kind.voicemail) (λ _. take_mailbox-Rung node st h)
        (λ _.
          if_cases (is_kind node.kind Kind.forward && is_empty st.forward)
            (λ _. record { holds = h.holds }) (λ _. h))

  open_step-Rung :
      (node : Node) (st : Progress) → Rung st → Rung (open_step office now owner number node st)
  unfolding open_step
  open_step-Rung node st h =
      if_cases (is_group_ring node.kind)
        (λ _. record { holds = (h.holds.0, limited-IsLimited node.timeout st.timeout h.holds.1) })
        (λ _.
          if_cases (is_kind node.kind Kind.extension)
            (λ _.
              if_cases
                (not (is_empty node.extension) && mem_text node.extension (owner_keys office owner))
                (λ t. record {
                  holds = (
                    note_timeout-IsLimited node.extension node.timeout st.timeouts h.holds.0,
                    h.holds.1,
                  );
                })
                (λ _. h))
            (λ _.
              if_cases (is_kind node.kind Kind.voicemail) (λ _. take_mailbox-Rung node st h)
                (λ _.
                  if_cases (is_kind node.kind Kind.forward && is_empty st.forward)
                    (λ _. record { holds = h.holds }) (λ _. h))))

  plan_step-Rung :
      (node : Node) (st : Progress) → Rung st → Rung (plan_step office now owner number node st)
  unfolding plan_step
  plan_step-Rung node st h =
      if_cases (not node.enabled) (λ _. h)
        (λ _.
          if_cases (is_kind node.kind Kind.business_hours && not st.seen_hours)
            (λ _. record { holds = h.holds })
            (λ _.
              if_cases (st.seen_hours && not st.open_now) (λ _. closed_step-Rung node st h)
                (λ _. open_step-Rung node st h)))

  plan_steps-Rung :
      (nodes : List Node) (st : Progress)
      → Rung st
      → Rung (plan_steps office now owner number nodes st)
  unfolding plan_steps
  plan_steps-Rung [] st h = h
  plan_steps-Rung (node ∷ nodes) st h = plan_steps-Rung nodes _ (plan_step-Rung node st h)

  kept_timeouts-IsLimited :
      (keys : List Text) (m : List (Text × ℕ))
      → AllLimited m
      → AllLimited (kept_timeouts office now owner number keys m)
  unfolding kept_timeouts
  kept_timeouts-IsLimited [] m h = tt
  kept_timeouts-IsLimited (k ∷ keys) m h = elim (Option-cases (lookup k m)) [
    | inl e ↦ rw (e, kept_timeouts) (kept_timeouts-IsLimited keys m h)
    | inr (n, e) ↦
        rw (e, kept_timeouts) (lookup-All IsLimited k n m h e, kept_timeouts-IsLimited keys m h)
  ]

  plan_nodes-IsTimed :
      (nodes : List Node) (extension : Text)
      → IsTimed (plan_nodes office now owner number nodes extension)
  unfolding plan_nodes progress_plan before_steps
  plan_nodes-IsTimed nodes extension =
      let all =
        (plan_steps-Rung nodes before_steps
          (record { holds = (tt, (omega arith, omega arith)) })).holds in
      (kept_timeouts-IsLimited _ _ all.0, default-IsLimited _ all.1)

flow_plan-IsTimed :
    (office : Office) (now : Moment) (owner : ℕ) (number extension : Text) (nodes : List Node)
    → IsTimed (flow_plan office now owner number extension nodes)
unfolding flow_plan
flow_plan-IsTimed office now owner number extension nodes =
    elim (Option-cases (find (λ (n : Node). is_kind n.kind Kind.ivr) nodes)) [
      | inl e ↦ rw (e, flow_plan) ring
      | inr (menu, e) ↦
          rw (e, flow_plan)
            (if_cases {Q = λ (p : Plan). IsTimed p}
              (plan_nodes office now (some owner) number nodes extension).outside_hours
              (λ _. record { holds = ring }) (λ _. record { holds = answered menu })).holds
    ]
  where
    ring : IsTimed (
        apply_desk_handling office
          (plan_nodes office now (some owner) number nodes extension)
          (list_or_empty (plan_nodes office now (some owner) number nodes extension).destinations)
          number
          (some owner))
    ring =
        apply_desk_handling-IsTimed office
          (plan_nodes office now (some owner) number nodes extension)
          (list_or_empty (plan_nodes office now (some owner) number nodes extension).destinations)
          number (some owner) (plan_nodes-IsTimed office now (some owner) number nodes extension)

    answered :
        (menu : Node)
        → IsTimed (
            menu_of office now owner number menu
              (plan_nodes office now (some owner) number (without_menu nodes) extension))
    answered menu =
        unfold menu_of in
        let tail =
          plan_nodes-IsTimed office now (some owner) number (without_menu nodes) extension in
        (tail.0, default-IsLimited _ tail.1)

bare_plan-IsTimed :
    (office : Office) (now : Moment) (number extension : Text) (owner : Option ℕ)
    → IsTimed (bare_plan office now number extension owner)
unfolding bare_plan ring_only
bare_plan-IsTimed office now number extension owner =
    apply_desk_handling-IsTimed office
      (ring_only office now (linked_keys office now number extension owner))
      (linked_keys office now number extension owner) number owner (tt, (omega arith, omega arith))

pub inbound_plan-IsTimed :
    (office : Office) (now : Moment) (dialled fallback : Text)
    → IsTimed (inbound_plan office now dialled fallback)
unfolding inbound_plan
inbound_plan-IsTimed office now dialled fallback =
    elim (Option-cases (number_flow office now (strip dialled))) [
      | inl e ↦ rw (e, inbound_plan) (bare_plan-IsTimed office now (strip dialled) _ _)
      | inr ((owner, route), e) ↦
          rw (e, inbound_plan)
            (flow_plan-IsTimed office now owner (strip dialled)
              (answering office now (number_row office now (strip dialled)) fallback)
              (journey_nodes office now owner
                (answering office now (number_row office now (strip dialled)) fallback)
                route.nodes))
    ]

-- Whatever a plan says of a single desk's ringing time, it is at least 5 and at most 120 seconds.
pub inbound_plan-IsLimited :
    (office : Office) (now : Moment) (dialled fallback : Text)
    → All IsLimited (inbound_plan office now dialled fallback).timeouts
inbound_plan-IsLimited office now dialled fallback =
    (inbound_plan-IsTimed office now dialled fallback).0
