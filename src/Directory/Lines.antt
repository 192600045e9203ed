-- ===== src/Directory/Lines.antt =====
-- Digits are read against one line: what `resolve_extension` and `scoped_extension_keys` find.
use calling_integration.Prelude.{
  ℕ, ◌≡◌, ◌≢◌, ◌↔◌, inl, inr, sym, ap, ◌∙◌, Bool, true, false, ◌&&◌, ◌||◌, Option, none, some, Text,
  strip, text_eq, text_eq_iff, is_empty, select, arith, IsIn, find_sound, find_complete,
  select_sound, select_complete, Bool-cases, Option-cases,
}
use calling_integration.Naming.{extension_digits}
use calling_integration.Directory.{
  Directory, ExtensionRow, list_extensions, resolve_extension, is_owner,
}
use calling_integration.Directory.Rows.Sorting.{sort_rows-IsIn, IsIn-sort_rows}

-- What an account may see: its own rows, or with no account named, every row.
abbrev pub Sees : Option ℕ → ExtensionRow → Type 0
Sees none r = Unit {0}
Sees (some o) r = r.owner ≡ some o

is_owner_iff : (o : ℕ) (w : Option ℕ) → (is_owner o w ≡ true) ↔ (w ≡ some o)
is_owner_iff o none = ground arith
is_owner_iff o (some w) = ground arith

module _ (dir : Directory) where
  -- What is listed for an account is what it may see.
  pub listed_sound :
      (owner : Option ℕ) (r : ExtensionRow)
      → IsIn r (list_extensions dir owner)
      → Sees owner r × IsIn r dir.extensions
  unfolding list_extensions
  listed_sound none r m = (tt, sort_rows-IsIn r dir.extensions m)
  listed_sound (some o) r m =
      let (t, k) =
        select_sound (λ (s : ExtensionRow). is_owner o s.owner) dir.extensions r
          (sort_rows-IsIn r (select (λ (s : ExtensionRow). is_owner o s.owner) dir.extensions) m) in
      ((is_owner_iff o r.owner).0 t, k)

  pub listed_complete :
      (owner : Option ℕ) (r : ExtensionRow)
      → Sees owner r
      → IsIn r dir.extensions
      → IsIn r (list_extensions dir owner)
  unfolding list_extensions
  listed_complete none r s m = IsIn-sort_rows r dir.extensions m
  listed_complete (some o) r s m =
      IsIn-sort_rows r (select (λ (s : ExtensionRow). is_owner o s.owner) dir.extensions) (
        select_complete (λ (s : ExtensionRow). is_owner o s.owner) dir.extensions r m
          ((is_owner_iff o r.owner).1 s))

  abbrev answers : Text → Text → ExtensionRow → Bool
  answers number digits r =
      text_eq r.number (strip number) && text_eq r.digits (extension_digits digits)

  answers_iff :
      (number digits : Text) (r : ExtensionRow)
      → (answers number digits r ≡ true)
        ↔ ((r.number ≡ strip number) × (r.digits ≡ extension_digits digits))
  answers_iff number digits r =
      ground
        (arith, text_eq_iff r.number (strip number), text_eq_iff r.digits (extension_digits digits))

  -- The extension that answers is a row of the table, on exactly the number that was called, with
  -- exactly those digits, and the account's own where one is named: never another line's.
  pub resolve_extension_sound :
      (number digits : Text) (owner : Option ℕ) (r : ExtensionRow)
      → resolve_extension dir number digits owner ≡ some r
      → IsIn r dir.extensions
        × (r.number ≡ strip number)
        × (r.digits ≡ extension_digits digits)
        × Sees owner r
  unfolding resolve_extension
  resolve_extension_sound number digits owner r h =
      elim (Bool-cases (is_empty (extension_digits digits) || is_empty (strip number))) [
        | inl u ↦ absurd (none_some (rw u at h))
        | inr u ↦
            let (t, m) =
              find_sound (answers number digits) (list_extensions dir owner) r (rw u at h) in
            let (sees, k) = listed_sound owner r m in
            let (n, d) = (answers_iff number digits r).0 t in (k, n, d, sees)
      ]
    where
      none_some : none ≡ some r → ⊥
      none_some e = cc

  -- A line that has the digits answers them.
  pub resolve_extension_complete :
      (number digits : Text) (owner : Option ℕ) (r : ExtensionRow)
      → is_empty r.digits ≡ false
      → is_empty r.number ≡ false
      → IsIn r dir.extensions
      → Sees owner r
      → r.number ≡ strip number
      → r.digits ≡ extension_digits digits
      → resolve_extension dir number digits owner ≢ none
  unfolding resolve_extension
  resolve_extension_complete number digits owner r nd nn m sees en ed =
      let filled : (is_empty (extension_digits digits) || is_empty (strip number)) ≡ false =
        rw (← en, ← ed) (rw (nd, nn)) in
      rw filled (
        find_complete (answers number digits) (list_extensions dir owner) r
          (listed_complete owner r sees m) ((answers_iff number digits r).1 (en, ed)))

-- `phone_number_id, extension` is unique in the table.
unfoldable pub IsKeyed : Directory → Type 0
IsKeyed dir =
    (r s : ExtensionRow)
    → IsIn r dir.extensions
    → IsIn s dir.extensions
    → r.number ≡ s.number
    → r.digits ≡ s.digits
    → r ≡ s

-- With a unique key in the table, the lookup is exact: it finds a row if and only if that row is
-- the account's, on that number, with those digits. So the order of the rows decides nothing.
pub resolve_extension-exact :
    (dir : Directory) (number digits : Text) (owner : Option ℕ) (r : ExtensionRow)
    → IsKeyed dir
    → is_empty r.digits ≡ false
    → is_empty r.number ≡ false
    → (resolve_extension dir number digits owner ≡ some r) ↔ (
        IsIn r dir.extensions
        × (r.number ≡ strip number)
        × (r.digits ≡ extension_digits digits)
        × Sees owner r)
unfolding IsKeyed
resolve_extension-exact dir number digits owner r keyed nd nn = (
  resolve_extension_sound dir number digits owner r,
  λ row. elim (Option-cases (resolve_extension dir number digits owner)) [
    | inl e ↦
        absurd
          (resolve_extension_complete dir number digits owner r nd nn row.0 row.3 row.1 row.2 e)
    | inr (s, e) ↦
        let (m, n, d, sees) = resolve_extension_sound dir number digits owner s e in
        e ∙ ap some (keyed s r m row.0 (n ∙ sym row.1) (d ∙ sym row.2))
  ],
)
