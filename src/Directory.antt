-- ===== src/Directory.antt =====
-- The extensions and the phone numbers (app/admin.py, `SettingsStore`): the tables as lists of
-- rows, and the lookups that decide which extension some digits mean.
pub mod Rows
pub mod Lines
pub mod Numbering
pub mod Outbound
unfoldable pub use Rows.*
use mathlib.Core.List.{filter_map}
use calling_integration.Prelude.{
  ℕ, ◌<◌, Bool, true, false, List, [], ◌∷◌, ◌&&◌, ◌||◌, not, Option, none, some, Text, strip,
  text_eq, mem_text, is_empty, find, select, only, map, if◌then◌else◌, is_text, codes, any, count,
  text_or_empty, is_numeric, is_some, ◌==◌, ◌++◌,
}
use calling_integration.Naming.{extension_digits, extension_scope}

module _ (dir : Directory) where
  -- `list_extensions`
  unfoldable pub list_extensions : Option ℕ → List ExtensionRow
  list_extensions none = sort_rows dir.extensions
  list_extensions (some owner) = sort_rows (select (λ r. is_owner owner r.owner) dir.extensions)

  unfoldable pub list_numbers : List NumberRow
  list_numbers = dir.numbers

  unfoldable pub extensions_on_number : Option ℕ → Text → Bool → List ExtensionRow
  unfolding list_extensions
  extensions_on_number owner number active_only =
      let n = strip number in
      select (λ r. text_eq r.number n && (not active_only || r.active)) (list_extensions owner)

  unfoldable pub unassigned_extensions : Option ℕ → Bool → List ExtensionRow
  unfolding list_extensions
  unassigned_extensions owner active_only =
      select (λ r. is_empty r.number && (not active_only || r.active)) (list_extensions owner)

  unfoldable pub resolve_extension : Text → Text → Option ℕ → Option ExtensionRow
  unfolding list_extensions
  resolve_extension number digits owner =
      let wanted = extension_digits digits in
      let n = strip number in
      if is_empty wanted || is_empty n
      then none
      else find (λ r. text_eq r.number n && text_eq r.digits wanted) (list_extensions owner)

  unfoldable pub extension_key_for : Text → Text → Option ℕ → Text
  unfolding resolve_extension
  extension_key_for number digits owner = key_or_empty (resolve_extension number digits owner)

  unfoldable pub call_extension_names : Option ℕ → List Text
  unfolding list_extensions
  call_extension_names owner =
      let rows = list_extensions owner in
      let lone = λ (r : ExtensionRow).
        count (λ (s : ExtensionRow). text_eq s.digits r.digits) (list_extensions none) == 1 in
      map row_key rows ++ (if is_some owner then map (λ r. r.digits) (select lone rows) else [])

  unfoldable pub extension_key_for_digits : Text → Option ℕ → Text
  unfolding list_extensions
  extension_key_for_digits digits owner =
      let wanted = extension_digits digits in
      if is_empty wanted
      then []
      else key_or_empty (only (select (λ r. text_eq r.digits wanted) (list_extensions owner)))

  unfoldable pub scoped_extension_keys : Text → Option ℕ → Bool → List Text
  unfolding extensions_on_number unassigned_extensions
  scoped_extension_keys number owner include_platform =
      let own = map row_key (extensions_on_number owner number true) in
      let platform =
        map row_key (select (λ r. not (is_some r.owner)) (unassigned_extensions none true)) in
      unique (if include_platform && is_some owner then own ++ platform else own)

  -- `_extension_row`
  unfoldable pub extension_row : Text → Option ExtensionRow
  extension_row extension =
      let key = strip extension in
      let digits = extension_digits key in
      let scope = extension_scope key in
      let carries = select (λ (r : ExtensionRow). text_eq r.digits digits) dir.extensions in
      let plain = select (λ (r : ExtensionRow). is_empty r.number) carries in
      if is_empty digits
      then none
      else if not (is_empty scope)
      then only (select (λ r. text_eq r.number scope) carries)
      else only (if is_empty plain then carries else plain)

  unfoldable pub get_extension_owner : Text → Option ℕ
  get_extension_owner extension =
      let key = strip extension in
      let digits = extension_digits key in
      let scope = extension_scope key in
      let carries = select (λ (r : ExtensionRow). text_eq r.digits digits) dir.extensions in
      if is_empty digits
      then none
      else if not (is_empty scope)
      then row_owner (find (λ r. text_eq r.number scope) carries)
      else elim (find (λ (r : ExtensionRow). is_empty r.number) carries) [
        | some r ↦ r.owner
        | none ↦ shared_owner carries
      ]

  -- The key of a request's extension, or nothing with the reason.
  unfoldable pub resolve_requested_extension : Text → Option ℕ → Text × Text
  unfolding list_extensions extension_row
  resolve_requested_extension value owner =
      let text = strip value in
      let digits = extension_digits text in
      let rows = select (λ (r : ExtensionRow). text_eq r.digits digits) (list_extensions owner) in
      if is_empty text
      then ([], codes "Extension is required")
      else if not (is_empty (extension_scope text))
      then requested_row owner (extension_row text)
      else if not (is_numeric digits) || is_empty rows
      then ([], codes "Extension not found")
      else if any (λ r. text_eq (row_key r) digits) rows
      then (digits, [])
      else requested_only digits (only rows)

  unfoldable pub active_number : Text → Option NumberRow
  active_number number = find (λ r. text_eq r.number (strip number) && r.active) dir.numbers

  -- The line that an extension calls out on.
  unfoldable pub get_outbound_number : Text → Option Text → Option NumberRow
  unfolding extension_row
  get_outbound_number extension requested = elim (extension_row extension) [
    | none ↦ none
    | some row ↦ outbound_line dir.numbers row (text_or_empty requested)
  ]
