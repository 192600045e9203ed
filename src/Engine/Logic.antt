-- ===== src/Engine/Logic.antt =====
-- A program logic for the methods of the service. `Quiet m`: `m` writes nothing to the table of
-- calls. `Keeps P m`: from a sound table with `P`, `m` ends, normally or by an exception, with a
-- sound table in which every call is still there, a call that has ended keeps its status, and an
-- answered call stays answered.
pub mod Writes
pub mod Rules
pub mod Branches
use calling_integration.Prelude.{
  ◌≡◌, refl, sym, ◌∙◌, ap, subst, Bool, true, false, List, [], ◌∷◌, Option, none, some, Text,
  if◌then◌else◌, is_some, text_eq,
}
use calling_integration.Calls.Keys.{IsKeyed}
use calling_integration.Calls.{Call, Table, get, is_terminal, is_completed}
use calling_integration.Engine.World.{World, M, Result}

-- What holds of every record between two steps: it has an end time exactly if its status is
-- final, a completed call was answered, an answered call has the time of its answer, and a
-- bridge joins two channels.
pub record IsConsistent (c : Call) : Type 0 where
  pub ended : is_some c.ended_at ≡ is_terminal c.status
  pub completed : is_completed c.status ≡ true → c.answered ≡ true
  pub timed : c.answered ≡ true → is_some c.answered_at ≡ true
  pub joined :
      is_some c.bridge_id ≡ true
      → (is_some c.employee_channel_id ≡ true) × (is_some c.customer_channel_id ≡ true)

-- No two rows have one key, and every row is consistent.
abbrev pub IsSound : Table → Type 0
IsSound t = IsKeyed t × ((id : Text) (c : Call) → get id t ≡ some c → IsConsistent c)

-- How a record may change: a final status is final, and an answered call stays answered.
abbrev pub Moves : Call → Call → Type 0
Moves c d =
    (is_terminal c.status ≡ true → d.status ≡ c.status) × (c.answered ≡ true → d.answered ≡ true)

abbrev pub Stays : Table → Table → Type 0
Stays t u =
    (id : Text) (c : Call) → get id t ≡ some c → (d : Call) × (get id u ≡ some d) × Moves c d

pub record Quiet {A : Type 0} (m : M A) : Type 0 where
  pub same : (w : World) → (m w).1.calls ≡ w.calls

abbrev pub Any : Table → Type 0
Any t = Unit

pub record Keeps {A : Type 0} (P : Table → Type 0) (m : M A) : Type 0 where
  pub kept :
      (w : World)
      → IsSound w.calls
      → P w.calls
      → IsSound (m w).1.calls × Stays w.calls (m w).1.calls

pub Moves-refl : (c : Call) → Moves c c
Moves-refl c = (λ _. refl, λ h. h)

pub Stays-refl : (t : Table) → Stays t t
Stays-refl t id c h = (c, h, Moves-refl c)

pub Stays-trans : (t u v : Table) → Stays t u → Stays u v → Stays t v
Stays-trans t u v p q id c h =
    let (d, hd, m) = p id c h in
    let (e, he, n) = q id d hd in
    (
      e,
      he,
      (
        λ final. n.0 (subst (λ s. is_terminal s ≡ true) (sym (m.0 final)) final) ∙ m.0 final,
        λ answered. n.1 (m.1 answered),
      ),
    )
