-- ===== src/Engine/Settled/Finish.antt =====
-- `finalize` and `hangup` keep the table.
use calling_integration.Prelude.{
  ℕ, ◌≡◌, refl, sym, ◌∙◌, ap, Bool, true, false, [], ◌∷◌, Option, none, some, Text, text_eq, arith,
  Bool-cases, inl, inr, ◌&&◌,
}
use calling_integration.Directory.{NumberRow}
use calling_integration.Calls.{
  Call, Change, Table, Status, Stamp, get, is_column, is_completed, is_recording,
  mark_recording_finalizing,
}
use calling_integration.Calls.Rows.{
  written, touched, map_found, get-mark_recording_finalizing, finalizing_row, get-own,
}
use calling_integration.Engine.World.{World, when, pure, modify}
use calling_integration.Engine.Context.{Ctx}
use calling_integration.Engine.Finish.{
  mark_finalizing, missed_call, announce_end, release, finalize_call, finalize_body, finalize,
  request_hangup, terminal_status, begin_finalizing, end_finalizing,
}
use calling_integration.Engine.Logic.{IsSound, Quiet, Keeps, Any}
use calling_integration.Engine.Logic.Rules.{
  bind-Quiet, option-Quiet, when-Quiet, if-Quiet, pure-Quiet, gets-Quiet, write-Quiet, modify-Quiet,
  Quiet-Keeps, Quiet-then, keep-then, stable-then, if-Keeps, test-Keeps, option-Keeps, get-then,
  finally-Keeps, when-Keeps, weaken-Keeps, get_call-Quiet,
}
use calling_integration.Engine.Logic.Writes.{Permits, update-then, mark-Keeps}
use calling_integration.Engine.Quiet.{
  iso_now-Quiet, hangup_call_channels-Quiet, stop_recording-Quiet, destroy_bridge-Quiet,
  notify_with-Quiet, cancel_legs-Quiet, hangup_call-Quiet,
}

-- The row of the call still has the status and the answer that were read.
abbrev HasOutcome : Call → Table → Type 0
HasOutcome call t =
    (d : Call) × (get call.call_id t ≡ some d)
    × (d.status ≡ call.status)
    × (d.answered ≡ call.answered)

marked_outcome :
    (call : Call) (id : Text) (t : Table)
    → HasOutcome call t
    → HasOutcome call (mark_recording_finalizing id t)
marked_outcome call id t (d, here, s, a) =
    let e =
      get-mark_recording_finalizing id call.call_id t
      ∙ ap (map_found (touched id finalizing_row)) here in
    elim (Bool-cases (text_eq d.call_id id && is_recording d.recording_status)) [
      | inl u ↦ (touched id finalizing_row d, e, ground arith, ground arith)
      | inr u ↦ (touched id finalizing_row d, e, ground arith, ground arith)
    ]

when_marked :
    (b : Bool) (call : Call) (id : Text) (w : World)
    → HasOutcome call w.calls
    → HasOutcome call (when b (mark_finalizing id) w).1.calls
unfolding when mark_finalizing pure modify
when_marked true call id w h = marked_outcome call id w.calls h
when_marked false call id w h = h

begin-same : (id : Text) (w : World) → (begin_finalizing id w).calls ≡ w.calls
unfolding begin_finalizing
begin-same id w = refl

end-same : (id : Text) (w : World) → (end_finalizing id w).calls ≡ w.calls
unfolding end_finalizing
end-same id w = refl

mark_finalizing-Keeps : {P : Table → Type 0} (id : Text) → Keeps P (mark_finalizing id)
unfolding mark_finalizing
mark_finalizing-Keeps id = mark-Keeps id

module _ ⦃ctx : Ctx⦄ where
  missed_call-Quiet : (call : Call) → Quiet (missed_call call)
  unfolding missed_call
  missed_call-Quiet call =
      option-Quiet {B = NumberRow} _ (pure-Quiet tt)
        (λ n. option-Quiet n.owner (pure-Quiet tt) (λ o. write-Quiet _))

  announce_end-Quiet :
      (call : Call) (s : Status) (why : Text) (updated : Option Call)
      → Quiet (announce_end call s why updated)
  unfolding announce_end
  announce_end-Quiet call s why updated =
      if-Quiet (is_completed s) (notify_with-Quiet _ updated _)
        (bind-Quiet (notify_with-Quiet _ updated _) (λ _. when-Quiet _ (missed_call-Quiet call)))

  release-Quiet : (call : Call) (keep : Text) → Quiet (release call keep)
  unfolding release
  release-Quiet call keep = bind-Quiet (hangup_call_channels-Quiet call keep) λ _.
      bind-Quiet (when-Quiet _ (stop_recording-Quiet _)) λ _. when-Quiet _ (destroy_bridge-Quiet _)

  ended_permitted :
      (call : Call) (ended : Stamp) (n : ℕ)
      → is_completed call.status ≡ false
      → (t : Table) → IsSound t
      → HasOutcome call t
      → Permits call.call_id
          (written (
            Change.status (terminal_status call)
            ∷ Change.ended_at (some ended)
            ∷ Change.duration_seconds n
            ∷ []))
          t
  unfolding is_column terminal_status
  ended_permitted call ended n open_call t sound (d, here, s, a) c found k =
      let same : some d ≡ some c = sym here ∙ found in
      (
        record {
          ended = ground arith;
          completed = λ e. ground (arith, same);
          timed = k.timed;
          joined = k.joined;
        },
        ((λ e. ground (arith, same)), (λ e. e)),
      )

  finalize_call-Keeps :
      (call : Call) (why keep : Text)
      → is_completed call.status ≡ false
      → Keeps (HasOutcome call) (finalize_call call why keep)
  unfolding finalize_call
  finalize_call-Keeps call why keep open_call = Quiet-then iso_now-Quiet λ ended.
      stable-then (when-Keeps _ (λ _. mark_finalizing-Keeps call.call_id))
        (when_marked _ call call.call_id)
        (λ _. Quiet-then (release-Quiet call keep) λ _.
          update-then call.call_id _ (ended_permitted call ended _ open_call) Any (λ _ _ _ _. tt)
            (λ updated. Quiet-Keeps (announce_end-Quiet call _ why updated)))

  finalize_body-Keeps : (id why keep : Text) → Keeps Any (finalize_body id why keep)
  unfolding finalize_body
  finalize_body-Keeps id why keep = get-then id λ found.
      option-Keeps found (Quiet-Keeps (pure-Quiet tt)) λ call e.
        test-Keeps (is_completed call.status) (λ _. Quiet-Keeps (pure-Quiet tt))
          λ open_call.
            weaken-Keeps (λ t p. (call, get-own id t call (p.1 ∙ e), refl, refl))
              (finalize_call-Keeps call why keep open_call)

  pub finalize-Keeps : (id why keep : Text) → Keeps Any (finalize id why keep)
  unfolding finalize
  finalize-Keeps id why keep = Quiet-then (gets-Quiet _) λ busy.
      if-Keeps busy (Quiet-Keeps (pure-Quiet tt)) (
        Quiet-then (modify-Quiet _ (begin-same id))
          λ _. finally-Keeps _ (end-same id) (finalize_body-Keeps id why keep))

  pub request_hangup-Keeps : (id : Text) → Keeps Any (request_hangup id)
  unfolding request_hangup
  request_hangup-Keeps id = Quiet-then (get_call-Quiet id) λ found.
      option-Keeps found (Quiet-Keeps (pure-Quiet none)) λ call e.
        keep-then
          (Quiet-then (bind-Quiet (cancel_legs-Quiet _) (λ _. hangup_call-Quiet _ _))
            (λ _. finalize-Keeps id _ _))
          (λ _. Quiet-Keeps (get_call-Quiet id))
