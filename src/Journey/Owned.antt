-- ===== src/Journey/Owned.antt =====
-- Which extensions a plan names.
use calling_integration.Prelude.{
  ℕ, ◌≡◌, refl, Bool, true, false, List, [], ◌∷◌, ◌&&◌, ◌||◌, Option, some, Text, text_eq, mem_text,
  mem_text-IsIn, IsIn, All, All-append, All-select, All-in, All-insert, is_empty, not,
  if◌then◌else◌, Bool-cases, Option-cases, if_cases, Holds, inl, inr, strip, find,
}
use calling_integration.Engine.Plan.{Plan}
use calling_integration.Journey.{
  Handling, no_handling, handling_step, handling_nodes, handling_desks, desk_handling, with_ending,
  apply_desk_handling, with_handling, first_of, first_mailbox,
}
use calling_integration.Journey.Nodes.{
  Kind, Node, CallRoute, Office, Moment, is_kind, list_or_empty, active_keys, owner_keys,
  desk_nodes,
}
use calling_integration.Journey.Planner.{
  progress_plan, plan_nodes, menu_of, journey_nodes, flow_plan, number_flow, inbound_plan,
  key_targets, without_menu, answering, number_row,
}
use calling_integration.Journey.Steps.{IsOwned, All-unique, All-sort_texts, plan_nodes-IsOwned}

-- Every extension that the plan may ring is an active one of the account: at once, as a choice in
-- the menu, after the menu, or after the others did not answer.
pub record IsOwnedPlan (office : Office) (owner : Option ℕ) (plan : Plan) : Type 0 where
  pub rings : All (IsOwned office owner) (list_or_empty plan.destinations)
  pub after_menu : All (IsOwned office owner) plan.fallback_destinations
  pub fallbacks : All (IsOwned office owner) plan.fallbacks
  pub keys : All (λ e. IsOwned office owner e.1) plan.key_map
  pub typed : All (IsOwned office owner) plan.extensions
  pub fallback : is_empty plan.fallback ≡ false → IsOwned office owner plan.fallback

module _ (office : Office) (owner : Option ℕ) where
  abbrev OwnedFallbacks : Handling → Type 0
  OwnedFallbacks h = All (IsOwned office owner) h.fallbacks

  abbrev Fallbacks : Handling → Type 0
  Fallbacks h = Holds OwnedFallbacks h

  handling_step-owned :
      (keys : List Text) (key : Text) (node : Node) (h : Handling)
      → Fallbacks h
      → Fallbacks (handling_step (owner_keys office owner) keys key node h)
  unfolding handling_step
  handling_step-owned keys key node h p =
      if_cases (is_kind node.kind Kind.extension && text_eq node.extension key)
        (λ _. record { holds = p.holds })
        (λ _.
          if_cases (is_kind node.kind Kind.extension)
            (λ _.
              if_cases
                (not (is_empty node.extension)
                  && (mem_text node.extension (owner_keys office owner)
                      && (not (mem_text node.extension h.fallbacks)
                          && not (mem_text node.extension keys))))
                (λ t. record {
                  holds =
                      All-append (IsOwned office owner) h.fallbacks (node.extension ∷ []) p.holds (
                        mem_text-IsIn node.extension (owner_keys office owner) (second _ _ _ t),
                        tt,
                      );
                })
                (λ _. p))
            (λ _.
              if_cases (is_kind node.kind Kind.forward && is_empty h.forward)
                (λ _. record { holds = p.holds }) (λ _. p)))
    where
      second : (a b c : Bool) → (a && (b && c)) ≡ true → b ≡ true
      second true true c e = refl
      second true false c e = cc
      second false b c e = cc

  handling_nodes-owned :
      (keys : List Text) (key : Text) (nodes : List Node) (h : Handling)
      → Fallbacks h
      → Fallbacks (handling_nodes (owner_keys office owner) keys key nodes h)
  unfolding handling_nodes
  handling_nodes-owned keys key [] h p = p
  handling_nodes-owned keys key (node ∷ nodes) h p =
      handling_nodes-owned keys key nodes _ (handling_step-owned keys key node h p)

  handling_desks-owned :
      (keys rest : List Text) (h : Handling)
      → Fallbacks h
      → Fallbacks (handling_desks office owner keys rest h)
  unfolding handling_desks
  handling_desks-owned keys [] h p = p
  handling_desks-owned keys (key ∷ rest) h p =
      handling_desks-owned keys rest _
        (handling_nodes-owned keys key (desk_nodes office owner key) h p)

  desk_handling-IsOwned :
      (keys : List Text) → All (IsOwned office owner) (desk_handling office keys owner).fallbacks
  unfolding desk_handling no_handling
  desk_handling-IsOwned keys =
      (handling_desks-owned keys keys no_handling (record { holds = tt })).holds

  with_ending-Holds :
      {Q : Plan → Type 0} (ending : Handling) (mailbox : Text) (plan : Plan)
      → Q plan
      → ((v f : Text) (t : Option ℕ)
          → Q (record plan { voicemail = v; forward = f; forward_timeout = t }))
      → Holds Q (with_ending office ending mailbox plan)
  unfolding with_ending
  with_ending-Holds ending mailbox plan p q =
      if_cases (not (is_empty plan.voicemail) || not (is_empty plan.forward))
        (λ _. record { holds = p })
        (λ _.
          if_cases (is_empty mailbox)
            (λ _. record { holds = q [] ending.forward (some ending.forward_timeout) })
            (λ _. record { holds = q mailbox plan.forward plan.forward_timeout }))

  -- Only extensions of the account are left to ring, and only such are tried after them.
  pub apply_desk_handling-owned :
      (plan : Plan) (keys : List Text) (number : Text)
      → IsOwnedPlan office owner plan
      → IsOwnedPlan office owner (apply_desk_handling office plan keys number owner)
  unfolding apply_desk_handling with_handling
  apply_desk_handling-owned plan keys number h =
      (with_ending-Holds {Q = IsOwnedPlan office owner}
        (desk_handling office (first_of office keys) owner) (first_mailbox office number keys owner)
        (with_handling office (desk_handling office keys owner)
          (desk_handling office (first_of office keys) owner) plan)
        (handled plan.voicemail plan.forward plan.forward_timeout) handled).holds
    where
      handled :
          (v f : Text) (t : Option ℕ)
          → IsOwnedPlan office owner
              (record (with_handling office
                (desk_handling office keys owner)
                (desk_handling office (first_of office keys) owner)
                plan) { voicemail = v; forward = f; forward_timeout = t })
      handled v f t = record {
        rings =
            All-select (IsOwned office owner)
              (λ k. not (mem_text k (desk_handling office keys owner).disabled))
              (list_or_empty plan.destinations) h.rings;
        after_menu = h.after_menu;
        fallbacks = desk_handling-IsOwned (first_of office keys);
        keys = h.keys;
        typed = h.typed;
        fallback = h.fallback;
      }

  company_targets :
      (keys seen : List (Text × Text))
      → All (λ e. IsOwned office owner e.1) seen
      → All (λ e. IsOwned office owner e.1) (key_targets (owner_keys office owner) keys seen)
  unfolding key_targets
  company_targets [] seen h = h
  company_targets ((key, target) ∷ keys) seen h =
      company_targets keys _
        (if_cases {Q = All (λ e. IsOwned office owner e.1)}
          (mem_text target (owner_keys office owner))
          (λ t. record {
            holds =
                All-insert (λ e. IsOwned office owner e.1) key target seen
                  (mem_text-IsIn target (owner_keys office owner) t) h;
          })
          (λ _. record { holds = h })).holds

chosen :
    (k : Text) (company : List Text)
    → is_empty (if mem_text k company then k else []) ≡ false
    → IsIn (if mem_text k company then k else []) company
chosen k company h = elim (Bool-cases (mem_text k company)) [
  | inl u ↦ rw u (mem_text-IsIn k company u)
  | inr u ↦ absurd (apart (rw u at h))
]
  where
    apart : true ≡ false → ⊥
    apart q = cc

module _ (office : Office) (now : Moment) (owner : ℕ) (number : Text) where
  menu_of-owned :
      (menu : Node) (tail : Plan)
      → All (IsOwned office (some owner)) (list_or_empty tail.destinations)
      → All (IsOwned office (some owner)) tail.fallbacks
      → IsOwnedPlan office (some owner) (menu_of office now owner number menu tail)
  unfolding menu_of owner_keys
  menu_of-owned menu tail rings fallbacks = record {
    rings = tt;
    after_menu = rings;
    fallbacks = fallbacks;
    keys = company_targets office (some owner) menu.keys [] tt;
    typed = All-sort_texts (IsOwned office (some owner)) _ (
        All-unique (IsOwned office (some owner)) _ (
          All-select (IsOwned office (some owner)) _ (active_keys office owner)
            (All-in (IsOwned office (some owner)) (active_keys office owner) (λ k m. m))));
    fallback = chosen menu.fallback (active_keys office owner);
  }

  plan_nodes-IsOwnedPlan :
      (nodes : List Node) (extension : Text)
      → IsOwnedPlan office (some owner) (plan_nodes office now (some owner) number nodes extension)
  unfolding plan_nodes progress_plan
  plan_nodes-IsOwnedPlan nodes extension = record {
    rings = plan_nodes-IsOwned office now (some owner) number nodes extension;
    after_menu = tt;
    fallbacks = tt;
    keys = tt;
    typed = tt;
    fallback = λ e. cc;
  }

  -- A journey of an account names only the account's own extensions.
  flow_plan-IsOwnedPlan :
      (extension : Text) (nodes : List Node)
      → IsOwnedPlan office (some owner) (flow_plan office now owner number extension nodes)
  unfolding flow_plan
  flow_plan-IsOwnedPlan extension nodes =
      elim (Option-cases (find (λ (n : Node). is_kind n.kind Kind.ivr) nodes)) [
        | inl e ↦ rw (e, flow_plan) ring
        | inr (menu, e) ↦
            rw (e, flow_plan)
              (if_cases {Q = IsOwnedPlan office (some owner)}
                (plan_nodes office now (some owner) number nodes extension).outside_hours
                (λ _. record { holds = ring })
                (λ _. record {
                  holds =
                      menu_of-owned menu
                        (plan_nodes office now (some owner) number (without_menu nodes) extension)
                        (plan_nodes-IsOwned office now (some owner) number (without_menu nodes)
                          extension)
                        (plan_nodes-IsOwnedPlan (without_menu nodes) extension).fallbacks;
                })).holds
      ]
    where
      ring : IsOwnedPlan office (some owner) (
          apply_desk_handling office
            (plan_nodes office now (some owner) number nodes extension)
            (list_or_empty (plan_nodes office now (some owner) number nodes extension).destinations)
            number
            (some owner))
      ring =
          apply_desk_handling-owned office (some owner)
            (plan_nodes office now (some owner) number nodes extension)
            (list_or_empty (plan_nodes office now (some owner) number nodes extension).destinations)
            number (plan_nodes-IsOwnedPlan nodes extension)

-- A number that has a journey rings, now or later, only active extensions of the account that the
-- number belongs to: whatever the stored steps, desks, groups and menus say.
pub inbound_plan-IsOwnedPlan :
    (office : Office) (now : Moment) (dialled fallback : Text) (owner : ℕ) (route : CallRoute)
    → number_flow office now (strip dialled) ≡ some (owner, route)
    → IsOwnedPlan office (some owner) (inbound_plan office now dialled fallback)
unfolding inbound_plan
inbound_plan-IsOwnedPlan office now dialled fallback owner route h =
    rw (h, inbound_plan)
      (flow_plan-IsOwnedPlan office now owner (strip dialled)
        (answering office now (number_row office now (strip dialled)) fallback)
        (journey_nodes office now owner
          (answering office now (number_row office now (strip dialled)) fallback) route.nodes))
