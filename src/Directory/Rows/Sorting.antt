-- ===== src/Directory/Rows/Sorting.antt =====
-- Sorting the extension rows neither loses nor invents one.
use calling_integration.Prelude.{inl, inr, List, [], ◌∷◌, IsIn, Bool-cases}
use calling_integration.Directory.Rows.{ExtensionRow, place, comes_before, sort_rows}

place-IsIn :
    (x r : ExtensionRow) (rows : List ExtensionRow) → IsIn x (place r rows) → IsIn x (r ∷ rows)
unfolding place
place-IsIn x r [] m = m
place-IsIn x r (s ∷ rows) m = elim (Bool-cases (comes_before r s)) [
  | inl u ↦ rw u at m
  | inr u ↦ elim (rw u at m) [
    | inl e ↦ inr (inl e)
    | inr k ↦ elim (place-IsIn x r rows k) [ inl e ↦ inl e | inr i ↦ inr (inr i) ]
  ]
]

IsIn-place :
    (x r : ExtensionRow) (rows : List ExtensionRow) → IsIn x (r ∷ rows) → IsIn x (place r rows)
unfolding place
IsIn-place x r [] m = m
IsIn-place x r (s ∷ rows) m = elim (Bool-cases (comes_before r s)) [
  | inl u ↦ rw u m
  | inr u ↦ rw u (elim m [
    | inl e ↦ inr (IsIn-place x r rows (inl e))
    | inr (inl e) ↦ inl e
    | inr (inr i) ↦ inr (IsIn-place x r rows (inr i))
  ])
]

pub sort_rows-IsIn :
    (x : ExtensionRow) (rows : List ExtensionRow) → IsIn x (sort_rows rows) → IsIn x rows
unfolding sort_rows
sort_rows-IsIn x [] m = m
sort_rows-IsIn x (r ∷ rows) m = elim (place-IsIn x r (sort_rows rows) m) [
  | inl e ↦ inl e
  | inr k ↦ inr (sort_rows-IsIn x rows k)
]

pub IsIn-sort_rows :
    (x : ExtensionRow) (rows : List ExtensionRow) → IsIn x rows → IsIn x (sort_rows rows)
unfolding sort_rows
IsIn-sort_rows x [] m = m
IsIn-sort_rows x (r ∷ rows) (inl e) = IsIn-place x r (sort_rows rows) (inl e)
IsIn-sort_rows x (r ∷ rows) (inr m) =
    IsIn-place x r (sort_rows rows) (inr (IsIn-sort_rows x rows m))
