-- ===== src/Journey/Steps.antt =====
-- Which extensions the steps of a journey ring.
use calling_integration.Prelude.{
  ℕ, ◌≡◌, Bool, true, false, List, [], ◌∷◌, ◌&&◌, Option, Text, mem_text, mem_text-IsIn, IsIn, All,
  All-append, select-All, select, is_empty, not, if◌then◌else◌, Bool-cases, if_cases, Holds, inl,
  inr,
}
use calling_integration.Directory.{unique, unique_from, text_ltb}
use calling_integration.Journey.Nodes.{
  Kind, Node, Office, Moment, is_kind, is_group_ring, list_or_empty, owner_keys,
}
use calling_integration.Journey.Planner.{
  Progress, before_steps, closed_step, open_step, plan_step, plan_steps, ring_once, progress_plan,
  plan_nodes, take_mailbox, is_silent, place_text, sort_texts,
}

-- An active extension of the account.
abbrev pub IsOwned : Office → Option ℕ → Text → Type 0
IsOwned office owner key = IsIn key (owner_keys office owner)

module _ (P : Text → Type 0) where
  All-unique_from : (seen keys : List Text) → All P keys → All P (unique_from seen keys)
  unfolding unique_from
  All-unique_from seen [] h = tt
  All-unique_from seen (k ∷ keys) h = elim (Bool-cases (mem_text k seen)) [
    | inl u ↦ rw u (All-unique_from seen keys h.1)
    | inr u ↦ rw u (h.0, All-unique_from (k ∷ seen) keys h.1)
  ]

  pub All-unique : (keys : List Text) → All P keys → All P (unique keys)
  unfolding unique
  All-unique keys h = All-unique_from [] keys h

  All-place_text : (k : Text) (keys : List Text) → P k → All P keys → All P (place_text k keys)
  unfolding place_text
  All-place_text k [] p h = (p, tt)
  All-place_text k (j ∷ keys) p h = elim (Bool-cases (text_ltb j k)) [
    | inl u ↦ rw u (h.0, All-place_text k keys p h.1)
    | inr u ↦ rw u (p, h)
  ]

  pub All-sort_texts : (keys : List Text) → All P keys → All P (sort_texts keys)
  unfolding sort_texts
  All-sort_texts [] h = tt
  All-sort_texts (k ∷ keys) h = All-place_text k (sort_texts keys) h.0 (All-sort_texts keys h.1)

module _ (office : Office) (now : Moment) (owner : Option ℕ) (number : Text) where
  IsOwned-tests :
      (members : List Text)
      → All (IsOwned office owner) (select (λ k. mem_text k (owner_keys office owner)) members)
  IsOwned-tests members =
      select-All (IsOwned office owner) (λ k. mem_text k (owner_keys office owner)) members
        (λ k h. mem_text-IsIn k (owner_keys office owner) h)

  abbrev OwnedSoFar : Progress → Type 0
  OwnedSoFar st = All (IsOwned office owner) st.destinations

  abbrev Owned : Progress → Type 0
  Owned st = Holds OwnedSoFar st

  take_mailbox-Owned :
      (node : Node) (st : Progress)
      → Owned st
      → Owned (take_mailbox office now owner number node st)
  unfolding take_mailbox
  take_mailbox-Owned node st h =
      if_cases (is_empty st.voicemail) (λ _. record { holds = h.holds }) (λ _. h)

  closed_step-Owned :
      (node : Node) (st : Progress) → Owned st → Owned (closed_step office now owner number node st)
  unfolding closed_step
  closed_step-Owned node st h =
      if_cases (is_kind node.kind Kind.voicemail) (λ _. take_mailbox-Owned node st h)
        (λ _.
          if_cases (is_kind node.kind Kind.forward && is_empty st.forward)
            (λ _. record { holds = h.holds }) (λ _. h))

  open_step-Owned :
      (node : Node) (st : Progress) → Owned st → Owned (open_step office now owner number node st)
  unfolding open_step
  open_step-Owned node st h =
      if_cases (is_group_ring node.kind)
        (λ _. record {
          holds = All-append (IsOwned office owner) st.destinations _ h.holds (IsOwned-tests _);
        })
        (λ _.
          if_cases (is_kind node.kind Kind.extension)
            (λ _.
              if_cases
                (not (is_empty node.extension) && mem_text node.extension (owner_keys office owner))
                (λ t. record {
                  holds =
                      All-append (IsOwned office owner) st.destinations (node.extension ∷ [])
                        h.holds
                        (mem_text-IsIn node.extension (owner_keys office owner) (both _ _ t), tt);
                })
                (λ _. h))
            (λ _.
              if_cases (is_kind node.kind Kind.voicemail) (λ _. take_mailbox-Owned node st h)
                (λ _.
                  if_cases (is_kind node.kind Kind.forward && is_empty st.forward)
                    (λ _. record { holds = h.holds }) (λ _. h))))
    where
      both : (a b : Bool) → (a && b) ≡ true → b ≡ true
      both true b e = e
      both false b e = cc

  plan_step-Owned :
      (node : Node) (st : Progress) → Owned st → Owned (plan_step office now owner number node st)
  unfolding plan_step
  plan_step-Owned node st h =
      if_cases (not node.enabled) (λ _. h)
        (λ _.
          if_cases (is_kind node.kind Kind.business_hours && not st.seen_hours)
            (λ _. record { holds = h.holds })
            (λ _.
              if_cases (st.seen_hours && not st.open_now) (λ _. closed_step-Owned node st h)
                (λ _. open_step-Owned node st h)))

  plan_steps-Owned :
      (nodes : List Node) (st : Progress)
      → Owned st
      → Owned (plan_steps office now owner number nodes st)
  unfolding plan_steps
  plan_steps-Owned [] st h = h
  plan_steps-Owned (node ∷ nodes) st h = plan_steps-Owned nodes _ (plan_step-Owned node st h)

  ring_once-Owned :
      (extension : Text) (nodes : List Node) (st : Progress)
      → Owned st
      → Holds (All (IsOwned office owner)) (ring_once office now owner number extension nodes st)
  unfolding ring_once
  ring_once-Owned extension nodes st h =
      if_cases (is_silent office now owner number extension nodes st)
        {x = if mem_text extension (owner_keys office owner) then extension ∷ [] else []}
        (λ _.
          if_cases (mem_text extension (owner_keys office owner)) {x = extension ∷ []} {y = []}
            (λ t. record { holds = (mem_text-IsIn extension (owner_keys office owner) t, tt) })
            (λ _. record { holds = tt }))
        (λ _. record { holds = All-unique (IsOwned office owner) st.destinations h.holds })

  pub plan_nodes-IsOwned :
      (nodes : List Node) (extension : Text)
      → All
          (IsOwned office owner)
          (list_or_empty (plan_nodes office now owner number nodes extension).destinations)
  unfolding plan_nodes progress_plan before_steps
  plan_nodes-IsOwned nodes extension =
      (ring_once-Owned extension nodes _
        (plan_steps-Owned nodes before_steps (record { holds = tt }))).holds
