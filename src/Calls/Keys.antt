-- ===== src/Calls/Keys.antt =====
-- The primary key of the table: no two rows have one.
use calling_integration.Prelude.{
  ◌≡◌, refl, sym, ◌∙◌, subst, true, false, List, [], ◌∷◌, ◌++◌, none, some, Text, text_eq,
  text_eq_iff, text_eq_refl, Bool-cases, inl, inr, IsIn, find_sound, find_complete, select, is_text,
  is_empty, leb, ◌||◌,
}
use calling_integration.Calls.{
  Call, Change, Table, get, update, is_column, newest_first, place_row, find_by_channel,
  mark_recording_finalizing, instant,
}
use calling_integration.Calls.Rows.{
  map_rows, get-map_rows, set_columns-rows, touched, touched-id, written, written-id, mark-rows,
  finalizing_row, finalizing_row-id, get-append,
}

abbrev pub IsKeyed : Table → Type 0
IsKeyed [] = Unit
IsKeyed (c ∷ table) = (get c.call_id table ≡ none) × IsKeyed table

-- A row of the table is the one that its key finds.
pub IsKeyed-get :
    (table : Table) (c : Call) → IsKeyed table → IsIn c table → get c.call_id table ≡ some c
unfolding get
IsKeyed-get [] c k m = absurd m
IsKeyed-get (d ∷ table) c k (inl e) = rw (← e, text_eq_refl c.call_id)
IsKeyed-get (d ∷ table) c k (inr m) = elim (Bool-cases (text_eq d.call_id c.call_id)) [
  | inl u ↦ absurd (
      find_complete (λ (x : Call). text_eq x.call_id d.call_id) table c m
        (subst (λ k. text_eq c.call_id k ≡ true) (sym ((text_eq_iff d.call_id c.call_id).0 u))
          (text_eq_refl c.call_id))
        k.0)
  | inr u ↦ rw u (IsKeyed-get table c k.1 m)
]

pub IsKeyed-map_rows :
    (g : Call → Call) (table : Table)
    → ((c : Call) → (g c).call_id ≡ c.call_id)
    → IsKeyed table
    → IsKeyed (map_rows g table)
unfolding map_rows
IsKeyed-map_rows g [] key k = tt
IsKeyed-map_rows g (c ∷ table) key k =
    (rw (key c, get-map_rows g c.call_id table key, k.0) refl, IsKeyed-map_rows g table key k.1)

pub IsKeyed-update :
    (id : Text) (changes : List Change) (table : Table)
    → IsKeyed table
    → IsKeyed (update id changes table).1
unfolding update
IsKeyed-update id changes table k = elim (Bool-cases (is_empty (select is_column changes))) [
  | inl u ↦ rw u k
  | inr u ↦
      rw (u, set_columns-rows id (select is_column changes) table)
        (IsKeyed-map_rows (touched id (written changes)) table
          (λ c. touched-id id (written changes) c (written-id changes)) k)
]

pub IsKeyed-mark :
    (id : Text) (table : Table) → IsKeyed table → IsKeyed (mark_recording_finalizing id table)
IsKeyed-mark id table k = rw (mark-rows id table) (
    IsKeyed-map_rows (touched id finalizing_row) table
      (λ c. touched-id id finalizing_row c finalizing_row-id) k)

pub IsKeyed-append :
    (table : Table) (c : Call)
    → get c.call_id table ≡ none
    → IsKeyed table
    → IsKeyed (table ++ c ∷ [])
unfolding get
IsKeyed-append [] c h k = (refl, tt)
IsKeyed-append (d ∷ table) c h k = elim (Bool-cases (text_eq d.call_id c.call_id)) [
  | inl u ↦ absurd (found (sym (rw u at h)))
  | inr u ↦ (
    get-append d.call_id table c ∙ rw (k.0) (other d c u),
    IsKeyed-append table c (rw u at h) k.1,
  )
]
  where
    found : {x : Call} → none ≡ some x → ⊥
    found q = cc

    apart : false ≡ true → ⊥
    apart q = cc

    other : (d c : Call) → text_eq d.call_id c.call_id ≡ false → get d.call_id (c ∷ []) ≡ none
    other d c u = elim (Bool-cases (text_eq c.call_id d.call_id)) [
      | inl v ↦ absurd (
          apart (
            sym u
            ∙ subst (λ k. text_eq d.call_id k ≡ true) (sym ((text_eq_iff c.call_id d.call_id).0 v))
                (text_eq_refl d.call_id)))
      | inr v ↦ rw v refl
    ]

place_row-IsIn : (d c : Call) (rows : Table) → IsIn c (place_row d rows) → IsIn c (d ∷ rows)
unfolding place_row
place_row-IsIn d c [] m = m
place_row-IsIn d c (e ∷ rows) m =
    elim (Bool-cases (leb (instant e.started_at) (instant d.started_at))) [
      | inl u ↦ rw u at m
      | inr u ↦ elim (rw u at m) [
        | inl h ↦ inr (inl h)
        | inr k ↦ elim (place_row-IsIn d c rows k) [ inl h ↦ inl h | inr l ↦ inr (inr l) ]
      ]
    ]

pub newest_first-IsIn : (c : Call) (table : Table) → IsIn c (newest_first table) → IsIn c table
unfolding newest_first
newest_first-IsIn c [] m = m
newest_first-IsIn c (d ∷ table) m = elim (place_row-IsIn d c (newest_first table) m) [
  | inl h ↦ inl h
  | inr k ↦ inr (newest_first-IsIn c table k)
]

-- What is found by a channel or by a recording is the row of its key.
pub find_by_channel-get :
    (channel : Text) (table : Table) (c : Call)
    → IsKeyed table
    → find_by_channel channel table ≡ some c
    → get c.call_id table ≡ some c
unfolding find_by_channel
find_by_channel-get channel table c k h = IsKeyed-get table c k (
    newest_first-IsIn c table
      (find_sound
        (λ (d : Call).
          is_text channel d.employee_channel_id || is_text channel d.customer_channel_id)
        (newest_first table) c h).1)
