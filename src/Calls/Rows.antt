-- ===== src/Calls/Rows.antt =====
-- What a row is after a write to the table.
use calling_integration.Prelude.{
  ◌≡◌, refl, sym, ◌∙◌, ap, subst, true, List, [], ◌∷◌, ◌++◌, Option, none, some, Text, text_eq,
  text_eq_iff, if◌then◌else◌, select, is_empty, is_some, arith, Bool-cases, inl, inr, find_sound,
}
use calling_integration.Calls.{
  Call, Change, Table, RecordingStatus, apply_change, apply_all, is_recording, get, is_column,
  set_columns, update, mark_recording_finalizing,
}

-- The columns that `update` writes.
abbrev pub written : List Change → Call → Call
written changes = apply_all (select is_column changes)

apply_change-id :
    (x : Change) (c : Call) → is_column x ≡ true → (apply_change x c).call_id ≡ c.call_id
unfolding is_column
apply_change-id (Change.unknown v) c h = refl
apply_change-id _ c h = refl

pub written-id : (changes : List Change) (c : Call) → (written changes c).call_id ≡ c.call_id
written-id [] c = refl
written-id (x ∷ changes) c = elim (Bool-cases (is_column x)) [
  | inl u ↦ rw u (written-id changes (apply_change x c) ∙ apply_change-id x c u)
  | inr u ↦ rw u (written-id changes c)
]

-- A row after a write to the row `id`.
abbrev pub touched : Text → (Call → Call) → Call → Call
touched id f c = if text_eq c.call_id id then f c else c

abbrev pub map_found : (Call → Call) → Option Call → Option Call
map_found g none = none
map_found g (some c) = some (g c)

-- The written table is the old one, each row by a function that keeps its key.
unfoldable pub map_rows : (Call → Call) → Table → Table
map_rows g [] = []
map_rows g (c ∷ table) = g c ∷ map_rows g table

pub get-map_rows :
    (g : Call → Call) (j : Text) (table : Table)
    → ((c : Call) → (g c).call_id ≡ c.call_id)
    → get j (map_rows g table) ≡ map_found g (get j table)
unfolding get map_rows
get-map_rows g j [] key = refl
get-map_rows g j (c ∷ table) key = ground (arith, key c, get-map_rows g j table key)

pub set_columns-rows :
    (id : Text) (changes : List Change) (table : Table)
    → set_columns id changes table ≡ map_rows (touched id (apply_all changes)) table
unfolding set_columns map_rows
set_columns-rows id changes [] = refl
set_columns-rows id changes (c ∷ table) = rw (set_columns-rows id changes table)

pub touched-id :
    (id : Text) (f : Call → Call) (c : Call)
    → ((c : Call) → (f c).call_id ≡ c.call_id)
    → (touched id f c).call_id ≡ c.call_id
touched-id id f c key = elim (Bool-cases (text_eq c.call_id id)) [
  | inl u ↦ rw u (key c)
  | inr u ↦ rw u
]

pub get-set_columns :
    (id j : Text) (changes : List Change) (table : Table)
    → get j (set_columns id (select is_column changes) table)
      ≡ map_found (touched id (written changes)) (get j table)
get-set_columns id j changes table = rw (set_columns-rows id (select is_column changes) table) (
    get-map_rows (touched id (written changes)) j table
      (λ c. touched-id id (written changes) c (written-id changes)))

-- With no column to write, the row is read as it is.
written-none :
    (changes : List Change) (c : Call)
    → is_empty (select is_column changes) ≡ true
    → written changes c ≡ c
written-none changes c h = empty_list (select is_column changes) c h
  where
    empty_list : (l : List Change) (c : Call) → is_empty l ≡ true → apply_all l c ≡ c
    empty_list [] c e = refl
    empty_list (x ∷ l) c e = cc

map_found-same : (g : Call → Call) (o : Option Call) → ((c : Call) → g c ≡ c) → map_found g o ≡ o
map_found-same g none h = refl
map_found-same g (some c) h = ap some (h c)

-- A row after the update of the row `id`.
pub get-written :
    (id j : Text) (changes : List Change) (table : Table)
    → (get j (update id changes table).1 ≡ map_found (touched id (written changes)) (get j table))
      × ((update id changes table).0 ≡ get id (update id changes table).1)
unfolding update
get-written id j changes table = elim (Bool-cases (is_empty (select is_column changes))) [
  | inl u ↦ rw u (
    sym (
        map_found-same (touched id (written changes)) (get j table) (λ c.
          elim (Bool-cases (text_eq c.call_id id)) [
            | inl v ↦ rw v (written-none changes c u)
            | inr v ↦ rw v
          ])),
    refl,
  )
  | inr u ↦ rw u (get-set_columns id j changes table, refl)
]

-- The row that is found has the key that was asked for.
pub get-id : (j : Text) (table : Table) (c : Call) → get j table ≡ some c → c.call_id ≡ j
unfolding get
get-id j table c h =
    (text_eq_iff c.call_id j).0 ((find_sound (λ (d : Call). text_eq d.call_id j) table c h).0)

-- A started recording becomes `finalizing`; every other column stays.
abbrev pub finalizing_row : Call → Call
finalizing_row c =
    if is_recording c.recording_status
    then record c { recording_status = some RecordingStatus.finalizing }
    else c

pub mark-rows :
    (id : Text) (table : Table)
    → mark_recording_finalizing id table ≡ map_rows (touched id finalizing_row) table
unfolding mark_recording_finalizing map_rows
mark-rows id [] = refl
mark-rows id (c ∷ table) = elim (Bool-cases (text_eq c.call_id id)) [
  | inl u ↦ rw (u, mark-rows id table)
  | inr u ↦ rw (u, mark-rows id table)
]

pub finalizing_row-id : (c : Call) → (finalizing_row c).call_id ≡ c.call_id
finalizing_row-id c = elim (Bool-cases (is_recording c.recording_status)) [
  | inl u ↦ rw u
  | inr u ↦ rw u
]

-- `mark_recording_finalizing` turns a started recording of the row of its key into `finalizing`,
-- changes no other column and no other row, and leaves a recording that is not started alone.
pub get-mark_recording_finalizing :
    (id j : Text) (table : Table)
    → get j (mark_recording_finalizing id table)
      ≡ map_found (touched id finalizing_row) (get j table)
get-mark_recording_finalizing id j table = rw (mark-rows id table) (
    get-map_rows (touched id finalizing_row) j table
      (λ c. touched-id id finalizing_row c finalizing_row-id))

-- A new row is found by its key, and the rows that were there stay.
pub get-append :
    (j : Text) (table : Table) (c : Call)
    → get j (table ++ c ∷ []) ≡ (if is_some (get j table) then get j table else get j (c ∷ []))
unfolding get
get-append j [] c = refl
get-append j (d ∷ table) c = elim (Bool-cases (text_eq d.call_id j)) [
  | inl u ↦ rw u
  | inr u ↦ rw u (get-append j table c)
]

pub get-own :
    (j : Text) (table : Table) (c : Call) → get j table ≡ some c → get c.call_id table ≡ some c
get-own j table c h = subst (λ k. get k table ≡ some c) (sym (get-id j table c h)) h
