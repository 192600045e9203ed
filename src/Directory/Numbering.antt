-- ===== src/Directory/Numbering.antt =====
-- The number that a new extension gets (`next_extension_number` in app/admin.py).
use calling_integration.Prelude.{
  ℕ, zero, suc, ◌+◌, ◌≤◌, ◌<◌, Bool, [], ◌∷◌, IsIn, is_empty, sym, text_eq_iff, true, false, List,
  Option, none, some, Text, ◌≡◌, refl, subst, inl, inr, arith, Bool-cases, if◌then◌else◌, show,
  mem_text, map, select, strip, text_eq, ==_iff, ◌==◌,
}
use calling_integration.Naming.{extension_digits}
use calling_integration.Directory.Rows.{Directory, ExtensionRow}

-- The digits in use on the number; without a number, those of the rows that are on no number.
unfoldable pub taken_digits : Directory → Text → List Text
taken_digits dir number =
    map (λ (r : ExtensionRow). extension_digits r.digits)
      (select (λ (r : ExtensionRow). text_eq r.number (strip number)) dir.extensions)

-- The first of `left` candidates that is not taken.
unfoldable pub first_free : List Text → ℕ → ℕ → Option Text
first_free taken zero candidate = none
first_free taken (suc left) candidate =
    let rest = first_free taken left (candidate + 1) in
    if mem_text (show candidate) taken then rest else some (show candidate)

-- `none` stands for `ValueError("No free extension numbers remain")`.
unfoldable pub next_extension_number : Directory → Text → Option Text
unfolding first_free taken_digits
next_extension_number dir number = first_free (taken_digits dir number) 899 101

-- Every candidate in the range is taken.
abbrev IsFull : List Text → ℕ → ℕ → Type 0
IsFull taken low high = (n : ℕ) → low ≤ n → n < high → mem_text (show n) taken ≡ true

-- What the search promises: the lowest candidate that is free, or that there is none.
abbrev IsLowest : List Text → ℕ → ℕ → Option Text → Type 0
IsLowest taken low high none = IsFull taken low high
IsLowest taken low high (some digits) =
    (n : ℕ) × (digits ≡ show n)
    × (low ≤ n)
    × (n < high)
    × (mem_text (show n) taken ≡ false)
    × IsFull taken low n

IsFull-cons :
    (taken : List Text) (low high : ℕ)
    → mem_text (show low) taken ≡ true
    → IsFull taken (low + 1) high
    → IsFull taken low high
IsFull-cons taken low high here rest n p q = elim (Bool-cases (low == n)) [
  | inl u ↦ subst (λ m. mem_text (show m) taken ≡ true) ((==_iff low n).0 u) here
  | inr u ↦ rest n (ground arith) q
]

IsLowest-cons :
    (taken : List Text) (low high : ℕ) (found : Option Text)
    → mem_text (show low) taken ≡ true
    → IsLowest taken (low + 1) high found
    → IsLowest taken low high found
IsLowest-cons taken low high none here rest = IsFull-cons taken low high here rest
IsLowest-cons taken low high (some digits) here (n, e, p, q, free, rest) =
    (n, e, omega arith, q, free, IsFull-cons taken low n here rest)

first_free-IsLowest :
    (taken : List Text) (left candidate : ℕ)
    → IsLowest taken candidate (candidate + left) (first_free taken left candidate)
unfolding first_free
first_free-IsLowest taken zero candidate = λ n p q. elim (nothing n p q) [ ]
  where
    nothing : (n : ℕ) → candidate ≤ n → n < candidate + 0 → ⊥
    nothing n p q = omega arith
first_free-IsLowest taken (suc left) candidate =
    elim (Bool-cases (mem_text (show candidate) taken)) [
      | inl u ↦ rw u (
          IsLowest-cons taken candidate (candidate + suc left)
            (first_free taken left (candidate + 1)) u
            (subst (λ h. IsLowest taken (candidate + 1) h (first_free taken left (candidate + 1)))
              (shift left) (first_free-IsLowest taken left (candidate + 1))))
      | inr u ↦
          rw u (candidate, refl, omega arith, omega arith, u, λ n p q. elim (nothing n p q) [ ])
    ]
  where
    shift : (left : ℕ) → candidate + 1 + left ≡ candidate + suc left
    shift left = omega arith

    nothing : (n : ℕ) → candidate ≤ n → n < candidate → ⊥
    nothing n p q = omega arith

-- An extension of the line has the digits `n`.
abbrev pub IsUsed : Directory → Text → ℕ → Type 0
IsUsed dir number n =
    (r : ExtensionRow) × IsIn r dir.extensions
    × (r.number ≡ strip number)
    × (extension_digits r.digits ≡ show n)

-- The lowest of the numbers 101 to 999 that no extension of the line has, or that there is none.
abbrev pub IsLowestFree : Directory → Text → Option Text → Type 0
IsLowestFree dir number none = (n : ℕ) → 101 ≤ n → n ≤ 999 → IsUsed dir number n
IsLowestFree dir number (some digits) =
    (n : ℕ) × (digits ≡ show n)
    × (101 ≤ n)
    × (n ≤ 999)
    × (¬ IsUsed dir number n)
    × ((m : ℕ) → 101 ≤ m → m < n → IsUsed dir number m)

taken-IsUsed :
    (number : Text) (n : ℕ) (rows : List ExtensionRow)
    → mem_text (show n) (
        map
          (λ (r : ExtensionRow). extension_digits r.digits)
          (select (λ (r : ExtensionRow). text_eq r.number (strip number)) rows))
      ≡ true
    → (r : ExtensionRow) × IsIn r rows
      × (r.number ≡ strip number)
      × (extension_digits r.digits ≡ show n)
unfolding mem_text
taken-IsUsed number n [] h = cc
taken-IsUsed number n (r ∷ rows) h = elim (Bool-cases (text_eq r.number (strip number))) [
  | inr u ↦ let (s, m, line, own) = taken-IsUsed number n rows (rw u at h) in (s, inr m, line, own)
  | inl u ↦ elim (Bool-cases (text_eq (show n) (extension_digits r.digits))) [
    | inl v ↦ (
      r,
      inl refl,
      (text_eq_iff r.number (strip number)).0 u,
      sym ((text_eq_iff (show n) (extension_digits r.digits)).0 v),
    )
    | inr v ↦
        let (s, m, line, own) = taken-IsUsed number n rows (rw (u, v) at h) in (s, inr m, line, own)
  ]
]

IsUsed-taken :
    (number : Text) (n : ℕ) (rows : List ExtensionRow) (r : ExtensionRow)
    → IsIn r rows
    → r.number ≡ strip number
    → extension_digits r.digits ≡ show n
    → mem_text (show n) (
        map
          (λ (s : ExtensionRow). extension_digits s.digits)
          (select (λ (s : ExtensionRow). text_eq s.number (strip number)) rows))
      ≡ true
unfolding mem_text
IsUsed-taken number n [] r m line digits = elim m [ ]
IsUsed-taken number n (s ∷ rows) r (inl e) line digits =
    let here : text_eq s.number (strip number) ≡ true =
      (text_eq_iff s.number (strip number)).1
        (subst (λ (x : ExtensionRow). x.number ≡ strip number) e line) in
    let own : text_eq (show n) (extension_digits s.digits) ≡ true =
      (text_eq_iff (show n) (extension_digits s.digits)).1
        (sym (subst (λ (x : ExtensionRow). extension_digits x.digits ≡ show n) e digits)) in
    rw (here, own) refl
IsUsed-taken number n (s ∷ rows) r (inr m) line digits =
    let rest = IsUsed-taken number n rows r m line digits in
    elim (Bool-cases (text_eq s.number (strip number))) [
      | inr u ↦ rw u rest
      | inl u ↦ elim (Bool-cases (text_eq (show n) (extension_digits s.digits))) [
        | inl v ↦ rw (u, v) refl
        | inr v ↦ rw (u, v) rest
      ]
    ]

IsLowest-IsLowestFree :
    (dir : Directory) (number : Text) (found : Option Text)
    → IsLowest (taken_digits dir number) 101 1000 found
    → IsLowestFree dir number found
unfolding taken_digits
IsLowest-IsLowestFree dir number none h =
    λ n p q. taken-IsUsed number n dir.extensions (h n p (omega arith))
IsLowest-IsLowestFree dir number (some digits) (n, e, p, q, free, full) = (
  n,
  e,
  p,
  omega arith,
  λ (r, m, line, own). clash (IsUsed-taken number n dir.extensions r m line own) free,
  λ k a b. taken-IsUsed number k dir.extensions (full k a b),
)
  where
    clash : {b : Bool} → b ≡ true → b ≡ false → ⊥
    clash u v = cc

-- On a line that is named, a new extension gets the lowest number from 101 to 999 that no extension
-- of the line has, and there is an error exactly if every one of them is in use on it.
pub next_extension_number-IsLowest :
    (dir : Directory) (number : Text)
    → is_empty (strip number) ≡ false
    → IsLowestFree dir number (next_extension_number dir number)
unfolding next_extension_number
next_extension_number-IsLowest dir number named =
    IsLowest-IsLowestFree dir number (next_extension_number dir number)
      (first_free-IsLowest (taken_digits dir number) 899 101)
