-- ===== src/Engine/Settled/Progress.antt =====
-- A call that has not ended takes another status of a call that goes on.
use calling_integration.Prelude.{◌≡◌, sym, ◌∙◌, subst, true, false, List, ◌∷◌, some, Text, arith}
use calling_integration.Calls.{
  Call, Change, Table, Status, get, is_column, is_terminal, is_completed,
}
use calling_integration.Calls.Rows.{written}
use calling_integration.Engine.World.{update_call}
use calling_integration.Engine.Logic.{Keeps}
use calling_integration.Engine.Logic.Writes.{Permits, update-Keeps}
use calling_integration.Engine.Settled.Neutral.{all_neutral, neutral_written}

-- The call is in the table and has not ended.
abbrev pub IsLive : Text → Table → Type 0
IsLive id t = (c : Call) × (get id t ≡ some c) × (is_terminal c.status ≡ false)

-- The record is the row as it stands.
abbrev pub IsHere : Call → Table → Type 0
IsHere call t = get call.call_id t ≡ some call

-- The record is the row as it stands, and has not ended.
abbrev pub IsFresh : Call → Table → Type 0
IsFresh call t = IsHere call t × (is_terminal call.status ≡ false)

pub fresh-IsLive : (call : Call) (t : Table) → IsFresh call t → IsLive call.call_id t
fresh-IsLive call t (here, open_call) = (call, here, open_call)

pub same_row : {a b : Call} → some a ≡ some b → a ≡ b
same_row q = cc

-- Two readings of one row.
pub live_row :
    (id : Text) (t : Table) (c : Call)
    → IsLive id t
    → get id t ≡ some c
    → is_terminal c.status ≡ false
live_row id t c (d, here, open_call) found =
    subst (λ (x : Call). is_terminal x.status ≡ false) (same_row (sym here ∙ found)) open_call

open_not_completed : (s : Status) → is_terminal s ≡ false → is_completed s ≡ true → ⊥
open_not_completed s h e = ground arith

pub progress_permitted :
    (id : Text) (s : Status) (changes : List Change) (t : Table)
    → is_terminal s ≡ false
    → all_neutral changes ≡ true
    → IsLive id t
    → Permits id (written (Change.status s ∷ changes)) t
unfolding is_column
progress_permitted id s changes t still neutral live c found k =
    let open_call = live_row id t c live found in
    let (d, m) =
      neutral_written changes (record c { status = s }) neutral
        (record {
          ended = k.ended ∙ (open_call ∙ sym still);
          completed = λ e. absurd (open_not_completed s still e);
          timed = k.timed;
          joined = k.joined;
        }) in
    (d, ((λ e. absurd (apart (sym open_call ∙ e))), m.1))
  where
    apart : false ≡ true → ⊥
    apart q = cc

pub progress-Keeps :
    {P : Table → Type 0} (id : Text) (s : Status) (changes : List Change)
    → is_terminal s ≡ false
    → all_neutral changes ≡ true
    → ((t : Table) → P t → IsLive id t)
    → Keeps P (update_call id (Change.status s ∷ changes))
progress-Keeps id s changes still neutral live =
    update-Keeps id (Change.status s ∷ changes)
      (λ t sound p. progress_permitted id s changes t still neutral (live t p))
