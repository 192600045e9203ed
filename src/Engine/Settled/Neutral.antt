-- ===== src/Engine/Settled/Neutral.antt =====
-- Updates that leave the status, the answer and the end of a call alone.
use calling_integration.Prelude.{
  ◌≡◌, refl, sym, ◌∙◌, subst, Bool, true, false, List, [], ◌∷◌, Text, Bool-cases, inl, inr, is_some,
  arith, ◌&&◌,
}
use calling_integration.Calls.{Call, Change, Table, is_column, apply_change, is_terminal}
use calling_integration.Calls.Rows.{written}
use calling_integration.Engine.World.{update_call}
use calling_integration.Engine.Logic.{IsConsistent, Moves, Keeps}
use calling_integration.Engine.Logic.Writes.{Permits, update-Keeps}

-- A column that the invariant does not speak of, or a channel that is set.
abbrev pub is_neutral : Change → Bool
is_neutral (Change.status _) = false
is_neutral (Change.answered _) = false
is_neutral (Change.answered_at _) = false
is_neutral (Change.ended_at _) = false
is_neutral (Change.bridge_id _) = false
is_neutral (Change.employee_channel_id c) = is_some c
is_neutral (Change.customer_channel_id c) = is_some c
is_neutral _ = true

abbrev pub all_neutral : List Change → Bool
all_neutral [] = true
all_neutral (x ∷ xs) = is_neutral x && all_neutral xs

one_neutral :
    (x : Change) (c : Call)
    → is_neutral x ≡ true
    → IsConsistent c
    → IsConsistent (apply_change x c) × Moves c (apply_change x c)
one_neutral (Change.status v) c h k = cc
one_neutral (Change.answered v) c h k = cc
one_neutral (Change.answered_at v) c h k = cc
one_neutral (Change.ended_at v) c h k = cc
one_neutral (Change.bridge_id v) c h k = cc
one_neutral (Change.employee_channel_id v) c h k = (
  record {
    ended = k.ended;
    completed = k.completed;
    timed = k.timed;
    joined = λ b. (h, (k.joined b).1);
  },
  ((λ _. refl), (λ a. a)),
)
one_neutral (Change.customer_channel_id v) c h k = (
  record {
    ended = k.ended;
    completed = k.completed;
    timed = k.timed;
    joined = λ b. ((k.joined b).0, h);
  },
  ((λ _. refl), (λ a. a)),
)
one_neutral _ c h k = (
  record { ended = k.ended; completed = k.completed; timed = k.timed; joined = k.joined },
  ((λ _. refl), (λ a. a)),
)

pub neutral_written :
    (changes : List Change) (c : Call)
    → all_neutral changes ≡ true
    → IsConsistent c
    → IsConsistent (written changes c) × Moves c (written changes c)
neutral_written [] c h k = (k, ((λ _. refl), (λ a. a)))
neutral_written (x ∷ changes) c h k = elim (Bool-cases (is_column x)) [
  | inl u ↦ rw u (
      let (d, m) = one_neutral x c (ground arith) k in
      let (e, n) = neutral_written changes (apply_change x c) (ground arith) d in
      (
        e,
        (
          (λ final. n.0 (subst (λ s. is_terminal s ≡ true) (sym (m.0 final)) final) ∙ m.0 final),
          (λ answered. n.1 (m.1 answered)),
        ),
      ))
  | inr u ↦ rw u (neutral_written changes c (ground arith) k)
]

pub neutral_permitted :
    (id : Text) (changes : List Change)
    → all_neutral changes ≡ true
    → (t : Table) → Permits id (written changes) t
neutral_permitted id changes h t c found k = neutral_written changes c h k

pub neutral-Keeps :
    {P : Table → Type 0} (id : Text) (changes : List Change)
    → all_neutral changes ≡ true
    → Keeps P (update_call id changes)
neutral-Keeps id changes h = update-Keeps id changes (λ t sound p. neutral_permitted id changes h t)
