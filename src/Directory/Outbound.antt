-- ===== src/Directory/Outbound.antt =====
-- The number that an account calls out from (`set_default_outbound_number` in app/admin.py).
use calling_integration.Prelude.{
  ℕ, Bool, true, false, ◌&&◌, ◌||◌, List, [], ◌∷◌, Option, none, some, Text, text_eq, is_empty, ◌≡◌,
  refl, sym, ap, ◌∙◌, ◌≢◌, ◌↔◌, ◌⊎◌, subst, inl, inr, find, find_sound, IsIn, text_eq_iff, ==_iff,
  arith, Bool-cases, Option-cases, if◌then◌else◌,
}
use calling_integration.Directory.Rows.{Directory, NumberRow, ExtensionRow, same_account}
use calling_integration.Directory.{extension_row}

-- The flag of a row after the two updates.
unfoldable pub marked : Option ℕ → Text → NumberRow → NumberRow
marked owner number n = record n {
  default_outbound =
      if text_eq n.number number
      then true
      else if same_account n.owner owner
      then false
      else n.default_outbound;
}

unfoldable pub marked_all : Option ℕ → Text → List NumberRow → List NumberRow
unfolding marked
marked_all owner number [] = []
marked_all owner number (n ∷ numbers) = marked owner number n ∷ marked_all owner number numbers

-- `number=? AND active=1`
abbrev is_active_number : Text → NumberRow → Bool
is_active_number number n = text_eq n.number number && n.active

-- An active number of the account, and the extension's own line if it has one.
abbrev is_assigned : ExtensionRow → NumberRow → Bool
is_assigned row target =
    same_account target.owner row.owner && (is_empty row.number || text_eq row.number target.number)

-- `none` stands for a `ValueError`, which changes nothing.
unfoldable pub set_default_outbound_number : Text → Text → Directory → Option (List NumberRow)
unfolding marked_all
set_default_outbound_number extension number dir = elim (extension_row dir extension) [
  | none ↦ none
  | some row ↦ elim (find (is_active_number number) dir.numbers) [
    | none ↦ none
    | some target ↦
        if is_assigned row target then some (marked_all row.owner number dir.numbers) else none
  ]
]

same_account_iff : (a b : Option ℕ) → (same_account a b ≡ true) ↔ (a ≡ b)
same_account_iff none none = (λ _. refl, λ _. refl)
same_account_iff none (some b) = (λ e. cc, λ e. cc)
same_account_iff (some a) none = (λ e. cc, λ e. cc)
same_account_iff (some a) (some b) = (λ e. ap some ((==_iff a b).0 e), λ e. (==_iff a b).1 (cc))

marked_all-IsIn :
    (owner : Option ℕ) (number : Text) (numbers : List NumberRow) (n : NumberRow)
    → IsIn n numbers
    → IsIn (marked owner number n) (marked_all owner number numbers)
unfolding marked_all
marked_all-IsIn owner number [] n m = elim m [ ]
marked_all-IsIn owner number (k ∷ numbers) n (inl e) = inl (ap (marked owner number) e)
marked_all-IsIn owner number (k ∷ numbers) n (inr m) =
    inr (marked_all-IsIn owner number numbers n m)

IsIn-marked_all :
    (owner : Option ℕ) (number : Text) (numbers : List NumberRow) (n : NumberRow)
    → IsIn n (marked_all owner number numbers)
    → (m : NumberRow) × IsIn m numbers × (n ≡ marked owner number m)
unfolding marked_all
IsIn-marked_all owner number [] n m = elim m [ ]
IsIn-marked_all owner number (k ∷ numbers) n (inl e) = (k, inl refl, e)
IsIn-marked_all owner number (k ∷ numbers) n (inr m) =
    let (j, i, e) = IsIn-marked_all owner number numbers n m in (j, inr i, e)

marked-named :
    (owner : Option ℕ) (number : Text) (n : NumberRow)
    → n.number ≡ number
    → marked owner number n ≡ record n { default_outbound = true }
unfolding marked
marked-named owner number n e = rw ((text_eq_iff n.number number).1 e) refl

-- Another number of another account stays as it is.
marked-other :
    (owner : Option ℕ) (number : Text) (n : NumberRow)
    → text_eq n.number number ≡ false
    → n.owner ≢ owner
    → marked owner number n ≡ n
unfolding marked
marked-other owner number n u apart = elim (Bool-cases (same_account n.owner owner)) [
  | inl v ↦ elim (apart ((same_account_iff n.owner owner).0 v)) [ ]
  | inr v ↦ rw (u, v) refl
]

marked-default :
    (owner : Option ℕ) (number : Text) (n : NumberRow)
    → n.owner ≡ owner
    → (marked owner number n).default_outbound ≡ true
    → n.number ≡ number
unfolding marked
marked-default owner number n mine h = elim (Bool-cases (text_eq n.number number)) [
  | inl u ↦ (text_eq_iff n.number number).0 u
  | inr u ↦ absurd (rw (u, (same_account_iff n.owner owner).1 mine) at h)
]
  where
    absurd : false ≡ true → n.number ≡ number
    absurd q = cc

-- `number` is unique in the table.
abbrev pub IsNumbered : Directory → Type 0
IsNumbered dir =
    (a b : NumberRow) → IsIn a dir.numbers → IsIn b dir.numbers → a.number ≡ b.number → a ≡ b

-- `target` is an active number of the account that has the extension, and the extension's own line
-- if it is on one.
abbrev pub IsOwnLine : Text → Directory → ExtensionRow → NumberRow → Type 0
IsOwnLine number dir row target =
    IsIn target dir.numbers
    × (target.number ≡ number)
    × (target.active ≡ true)
    × (target.owner ≡ row.owner)
    × ((row.number ≡ []) ⊎ (row.number ≡ number))

-- The target is marked, no other number of the account is, and the rows of other accounts are the
-- ones that were there.
abbrev pub IsOnly : Text → List NumberRow → Option ℕ → NumberRow → List NumberRow → Type 0
IsOnly number before owner target after =
    IsIn (record target { default_outbound = true }) after
    × ((n : NumberRow)
        → IsIn n after
        → n.owner ≡ owner
        → n.default_outbound ≡ true
        → n.number ≡ number)
    × ((n : NumberRow) → n.owner ≢ owner → IsIn n after ↔ IsIn n before)

find_active :
    (number : Text) (numbers : List NumberRow) (target : NumberRow)
    → find (is_active_number number) numbers ≡ some target
    → IsIn target numbers × (target.number ≡ number) × (target.active ≡ true)
find_active number numbers target e =
    let (t, m) = find_sound (is_active_number number) numbers target e in
    let named : text_eq target.number number ≡ true = ground arith in
    (m, (text_eq_iff target.number number).0 named, ground arith)

assigned-IsOwnLine :
    (row : ExtensionRow) (target : NumberRow)
    → is_assigned row target ≡ true
    → (target.owner ≡ row.owner) × ((row.number ≡ []) ⊎ (row.number ≡ target.number))
assigned-IsOwnLine row target h = elim (Bool-cases (is_empty row.number)) [
  | inl u ↦ ((same_account_iff target.owner row.owner).0 (ground arith), inl (empty row.number u))
  | inr u ↦
      let named : text_eq row.number target.number ≡ true = ground arith in
      (
        (same_account_iff target.owner row.owner).0 (ground arith),
        inr ((text_eq_iff row.number target.number).0 named),
      )
]
  where
    empty : (t : Text) → is_empty t ≡ true → t ≡ []
    empty [] e = refl
    empty (c ∷ t) e = cc

marked_all-IsOnly :
    (number : Text) (dir : Directory) (owner : Option ℕ) (target : NumberRow)
    → IsNumbered dir
    → IsIn target dir.numbers
    → target.number ≡ number
    → target.owner ≡ owner
    → IsOnly number dir.numbers owner target (marked_all owner number dir.numbers)
unfolding marked
marked_all-IsOnly number dir owner target unique there named mine = (
  subst (λ x. IsIn x (marked_all owner number dir.numbers)) (marked-named owner number target named)
      (marked_all-IsIn owner number dir.numbers target there),
  λ n m own flag.
      let (k, i, e) = IsIn-marked_all owner number dir.numbers n m in
      let account : k.owner ≡ owner = subst (λ (x : NumberRow). x.owner ≡ owner) e own in
      subst (λ (x : NumberRow). x.number ≡ number) (sym e)
        (marked-default owner number k account
          (subst (λ (x : NumberRow). x.default_outbound ≡ true) e flag)),
  λ n apart. (
    λ m.
        let (k, i, e) = IsIn-marked_all owner number dir.numbers n m in
        let other : k.owner ≢ owner = subst (λ (x : NumberRow). x.owner ≢ owner) e apart in
        subst (λ x. IsIn x dir.numbers)
          (sym (e ∙ marked-other owner number k (elsewhere k i other) other)) i,
    λ m.
        subst (λ x. IsIn x (marked_all owner number dir.numbers))
          (marked-other owner number n (elsewhere n m apart) apart)
          (marked_all-IsIn owner number dir.numbers n m),
  ),
)
  where
    elsewhere :
        (n : NumberRow) → IsIn n dir.numbers → n.owner ≢ owner → text_eq n.number number ≡ false
    elsewhere n m apart = elim (Bool-cases (text_eq n.number number)) [
      | inr u ↦ u
      | inl u ↦
          let same = unique n target m there ((text_eq_iff n.number number).0 u ∙ sym named) in
          elim (apart (ap (λ (x : NumberRow). x.owner) same ∙ mine)) [ ]
    ]

-- If the number is set, it is an active number of the account that has the extension, and the
-- extension's own line if it is on one. Then it is marked as the default, no other number of the
-- account is, and the numbers of other accounts are the rows that were there. Numbers are unique in
-- the table.
pub set_default_outbound_number-IsOnly :
    (extension number : Text) (dir : Directory) (row : ExtensionRow) (after : List NumberRow)
    → IsNumbered dir
    → extension_row dir extension ≡ some row
    → set_default_outbound_number extension number dir ≡ some after
    → (target : NumberRow) × IsOwnLine number dir row target
      × IsOnly number dir.numbers row.owner target after
unfolding set_default_outbound_number
set_default_outbound_number-IsOnly extension number dir row after unique r e =
    elim (Option-cases (find (is_active_number number) dir.numbers)) [
      | inl u ↦ absurd (rw (r, u, set_default_outbound_number) at e)
      | inr (target, u) ↦ elim (Bool-cases (is_assigned row target)) [
        | inr v ↦ absurd (rw (r, u, v, set_default_outbound_number) at e)
        | inl v ↦
            let (there, named, active) = find_active number dir.numbers target u in
            let (mine, line) = assigned-IsOwnLine row target v in
            (
              target,
              (
                there,
                named,
                active,
                mine,
                subst (λ t. (row.number ≡ []) ⊎ (row.number ≡ t)) named line,
              ),
              subst (λ ns. IsOnly number dir.numbers row.owner target ns)
                  (same (rw (r, u, v, set_default_outbound_number) at e))
                  (marked_all-IsOnly number dir row.owner target unique there named mine),
            )
      ]
    ]
  where
    absurd : {B : Type 0} → none ≡ some after → B
    absurd q = cc

    same : {x : List NumberRow} → some x ≡ some after → x ≡ after
    same q = cc
