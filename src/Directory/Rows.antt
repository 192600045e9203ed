-- ===== src/Directory/Rows.antt =====
-- The rows of the two tables, and the helpers of the lookups. `number` of an extension is the
-- text of the line that it is on, or empty (`_extension_view`).
pub mod Sorting
use calling_integration.Prelude.{
  ℕ, ◌+◌, ◌*◌, ◌-◌, zero, suc, Bool, true, false, List, [], ◌∷◌, ◌++◌, ◌&&◌, ◌||◌, not, Option,
  none, some, Text, text_eq, mem_text, is_empty, find, if◌then◌else◌, codes, head?, ltb, leb,
  is_numeric, ◌==◌, select, all_digits,
}
use calling_integration.Naming.{extension_key}

pub record ExtensionRow : Type 0 where
  pub digits : Text
  pub number : Text
  pub sip_username : Text
  pub webrtc_enabled : Bool
  pub recording_enabled : Bool
  pub voicemail_enabled : Bool
  pub active : Bool
  pub owner : Option ℕ

pub record NumberRow : Type 0 where
  pub id : ℕ
  pub number : Text
  pub provider : Text
  pub inbound_extension : Text
  pub default_outbound : Bool
  pub active : Bool
  pub owner : Option ℕ

pub record Directory : Type 0 where
  pub extensions : List ExtensionRow
  pub numbers : List NumberRow

-- `_extension_view`: the key of a row.
unfoldable pub row_key : ExtensionRow → Text
row_key r = extension_key r.digits r.number

-- `owner_user_id = ?`
abbrev pub is_owner : ℕ → Option ℕ → Bool
is_owner owner none = false
is_owner owner (some o) = owner == o

-- `same_account`
abbrev pub same_account : Option ℕ → Option ℕ → Bool
same_account none none = true
same_account none (some b) = false
same_account (some a) none = false
same_account (some a) (some b) = a == b

unfoldable pub digits_value : ℕ → Text → ℕ
digits_value acc [] = acc
digits_value acc (c ∷ s) = digits_value (acc * 10 + (c - 48)) s

-- `a < b` of texts
unfoldable pub text_ltb : Text → Text → Bool
text_ltb [] [] = false
text_ltb [] (d ∷ t) = true
text_ltb (c ∷ s) [] = false
text_ltb (c ∷ s) (d ∷ t) = ltb c d || (c == d && text_ltb s t)

rank : ExtensionRow → ℕ
unfolding digits_value
rank r = if is_numeric r.digits then digits_value 0 r.digits else 0

-- `sorted(key=(number, int(digits)))` keeps the order of equal keys.
comes_before : ExtensionRow → ExtensionRow → Bool
unfolding text_ltb rank
comes_before r s =
    text_ltb r.number s.number || (text_eq r.number s.number && leb (rank r) (rank s))

place : ExtensionRow → List ExtensionRow → List ExtensionRow
unfolding comes_before
place r [] = r ∷ []
place r (s ∷ rows) = if comes_before r s then r ∷ s ∷ rows else s ∷ place r rows

unfoldable pub sort_rows : List ExtensionRow → List ExtensionRow
unfolding place
sort_rows [] = []
sort_rows (r ∷ rows) = place r (sort_rows rows)

-- The keys in order, each once.
unfoldable pub unique_from : List Text → List Text → List Text
unique_from seen [] = []
unique_from seen (k ∷ ks) =
    let rest = unique_from (if mem_text k seen then seen else k ∷ seen) ks in
    if mem_text k seen then rest else k ∷ rest

unfoldable pub unique : List Text → List Text
unfolding unique_from
unique = unique_from []

unfoldable pub key_or_empty : Option ExtensionRow → Text
key_or_empty none = []
key_or_empty (some r) = row_key r

unfoldable pub row_owner : Option ExtensionRow → Option ℕ
row_owner none = none
row_owner (some r) = r.owner

-- The one owner of all the rows, if they have one.
unfoldable pub shared_owner : List ExtensionRow → Option ℕ
shared_owner [] = none
shared_owner (r ∷ rows) =
    if is_empty (select (λ (s : ExtensionRow). not (same_account s.owner r.owner)) rows)
    then r.owner
    else none

unfoldable pub requested_row : Option ℕ → Option ExtensionRow → Text × Text
requested_row owner none = ([], codes "Extension not found")
requested_row none (some r) = (row_key r, [])
requested_row (some o) (some r) =
    if same_account r.owner (some o) then (row_key r, []) else ([], codes "Extension not found")

unfoldable pub requested_only : Text → Option ExtensionRow → Text × Text
requested_only digits none = (
  [],
  digits ++ codes " is on more than one of this account's numbers - name the phone number as well",
)
requested_only digits (some r) = (row_key r, [])

-- `ORDER BY default_outbound DESC, id LIMIT 1`
better_line : NumberRow → NumberRow → Bool
better_line a b =
    (a.default_outbound && not b.default_outbound)
    || (not (b.default_outbound && not a.default_outbound) && leb a.id b.id)

best_line : List NumberRow → Option NumberRow
unfolding better_line
best_line [] = none
best_line (a ∷ rows) = elim (best_line rows) [
  | none ↦ some a
  | some b ↦ if better_line a b then some a else some b
]

unfoldable pub outbound_line : List NumberRow → ExtensionRow → Text → Option NumberRow
unfolding best_line
outbound_line numbers row requested =
    if not (is_empty row.number) && is_empty requested
    then find (λ n. text_eq n.number row.number && n.active) numbers
    else if not (is_empty requested)
    then find (λ n. text_eq n.number requested && (n.active && same_account n.owner row.owner))
        numbers
    else elim row.owner [
      | some _ ↦ none
      | none ↦
          best_line (select (λ n. n.active && text_eq n.inbound_extension (row_key row)) numbers)
    ]
