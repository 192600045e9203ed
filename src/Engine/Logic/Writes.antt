-- ===== src/Engine/Logic/Writes.antt =====
-- Writes to the table under the logic: `update`, `mark_recording_finalizing`, and a new row.
use calling_integration.Prelude.{
  ◌≡◌, refl, sym, ◌∙◌, ap, subst, List, Option, none, some, Text, text_eq, text_eq_refl,
  text_eq_iff, Bool-cases, Option-cases, inl, inr,
}
use calling_integration.Calls.{
  Call, Change, Table, get, update, mark_recording_finalizing, is_recording,
}
use calling_integration.Calls.Keys.{IsKeyed, IsKeyed-update, IsKeyed-mark}
use calling_integration.Calls.Rows.{
  written, touched, map_found, get-written, get-id, get-mark_recording_finalizing, finalizing_row,
}
use calling_integration.Engine.World.{M, update_call, modify, ◌>>=◌}
use calling_integration.Engine.Logic.{
  IsConsistent, IsSound, Moves, Moves-refl, Stays, Stays-trans, Keeps,
}

-- A write to one row keeps the table, if it keeps that row.
abbrev pub Permits : Text → (Call → Call) → Table → Type 0
Permits id f t =
    (c : Call) → get id t ≡ some c → IsConsistent c → IsConsistent (f c) × Moves c (f c)

module _ (id : Text) (f : Call → Call) (t u : Table)
    (reads : (j : Text) → get j u ≡ map_found (touched id f) (get j t)) where
  row_kept :
      IsSound t
      → Permits id f t
      → (j : Text) (c : Call) → get j t ≡ some c
      → IsConsistent (touched id f c) × Moves c (touched id f c)
  row_kept sound permits j c h = elim (Bool-cases (text_eq c.call_id id)) [
    | inl e ↦
        let here : get id t ≡ some c =
          subst (λ k. get k t ≡ some c) (sym (get-id j t c h) ∙ (text_eq_iff c.call_id id).0 e) h in
        rw e (permits c here (sound.1 j c h))
    | inr e ↦ rw e (sound.1 j c h, Moves-refl c)
  ]

  stays : IsSound t → Permits id f t → Stays t u
  stays sound permits j c h =
      (touched id f c, reads j ∙ ap (map_found (touched id f)) h, (row_kept sound permits j c h).1)

  rows_after :
      IsSound t → Permits id f t → (j : Text) (d : Call) → get j u ≡ some d → IsConsistent d
  rows_after sound permits j d h = elim (Option-cases (get j t)) [
    | inl e ↦ absurd (gone (sym h ∙ (reads j ∙ ap (map_found (touched id f)) e)))
    | inr (c, e) ↦
        subst IsConsistent (same (sym (reads j ∙ ap (map_found (touched id f)) e) ∙ h))
          (row_kept sound permits j c e).0
  ]
    where
      gone : {d : Call} → some d ≡ none → ⊥
      gone q = cc

      same : {a b : Call} → some a ≡ some b → a ≡ b
      same q = cc

  pub write_kept : IsKeyed u → IsSound t → Permits id f t → IsSound u × Stays t u
  write_kept keyed sound permits = ((keyed, rows_after sound permits), stays sound permits)

-- The row of the key after the write.
pub own_row :
    (id : Text) (f : Call → Call) (t : Table)
    → map_found (touched id f) (get id t) ≡ map_found f (get id t)
own_row id f t = elim (Option-cases (get id t)) [
  | inl e ↦ rw e
  | inr (c, e) ↦ rw (e, get-id id t c e, text_eq_refl)
]

module _ (id : Text) (changes : List Change) where
  update_kept :
      (t : Table)
      → IsSound t
      → Permits id (written changes) t
      → IsSound (update id changes t).1 × Stays t (update id changes t).1
  update_kept t sound =
      write_kept id (written changes) t (update id changes t).1
        (λ j. (get-written id j changes t).0) (IsKeyed-update id changes t sound.0) sound

module _ {P : Table → Type 0} (id : Text) (changes : List Change) where
  pub update-Keeps :
      ((t : Table) → IsSound t → P t → Permits id (written changes) t)
      → Keeps P (update_call id changes)
  unfolding update_call
  update-Keeps permits = record {
    kept = λ w sound p. update_kept id changes w.calls sound (permits w.calls sound p);
  }

  -- The rest of the method knows the row that was written.
  pub update-then :
      {B : Type 0} {f : Option Call → M B}
      → ((t : Table) → IsSound t → P t → Permits id (written changes) t)
      → (Q : Table → Type 0)
      → ((t u : Table) → P t → get id u ≡ map_found (written changes) (get id t) → Q u)
      → ((updated : Option Call) → Keeps (λ u. Q u × (get id u ≡ updated)) (f updated))
      → Keeps P (update_call id changes >>= f)
  unfolding update_call ◌>>=◌
  update-then {f = f} permits Q post k = record {
    kept = λ w sound p.
        let u = (update id changes w.calls).1 in
        let (sound', stay) = update_kept id changes w.calls sound (permits w.calls sound p) in
        let q : Q u =
          post w.calls u p
            ((get-written id id changes w.calls).0 ∙ own_row id (written changes) w.calls) in
        let (s, r) =
          (k (update id changes w.calls).0).kept (record w { calls = u }) sound'
            (q, sym (get-written id id changes w.calls).1) in
        (s, Stays-trans w.calls u ((update_call id changes >>= f) w).1.calls stay r);
  }

finalizing_permitted : (id : Text) (t : Table) → Permits id finalizing_row t
finalizing_permitted id t c h k = elim (Bool-cases (is_recording c.recording_status)) [
  | inl e ↦ rw e (
    record { ended = k.ended; completed = k.completed; timed = k.timed; joined = k.joined },
    (λ _. refl, λ a. a),
  )
  | inr e ↦ rw e (k, Moves-refl c)
]

pub mark-Keeps :
    {P : Table → Type 0} (id : Text)
    → Keeps P (modify (λ w. record w { calls = mark_recording_finalizing id w.calls }))
unfolding modify
mark-Keeps id = record {
  kept = λ w sound p.
      write_kept id finalizing_row w.calls (mark_recording_finalizing id w.calls)
        (λ j. get-mark_recording_finalizing id j w.calls) (IsKeyed-mark id w.calls sound.0) sound
        (finalizing_permitted id w.calls);
}
