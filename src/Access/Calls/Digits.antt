-- ===== src/Access/Calls/Digits.antt =====
-- Digits that `int` does not read (`build_call` in app/routes.py).
use calling_integration.Prelude.{
  ℕ, Bool, true, false, not, List, [], ◌∷◌, none, some, Text, ◌≡◌, refl, sym, subst, inl, inr,
  Bool-cases, IsIn,
}
use calling_integration.Prelude.{◌⊎◌, ◌<◌, any, length, ltb, arith}
use calling_integration.Access.Calls.{
  isdigit, parse_int, Digit, digit_of, is_some_digit, is_numeral,
}

-- The digits are more than `int` reads, or one of them is no decimal digit.
abbrev pub IsUnreadable : (ℕ → Digit) → Text → Type 0
IsUnreadable unicode digits =
    (4300 < length digits) ⊎ ((c : ℕ) × IsIn c digits × (digit_of unicode c ≡ Digit.other_digit))

any-IsIn :
    {A : Type 0} (p : A → Bool) (xs : List A) → any p xs ≡ true → (x : A) × IsIn x xs × (p x ≡ true)
any-IsIn p [] h = cc
any-IsIn p (x ∷ xs) h = elim (Bool-cases (p x)) [
  | inl u ↦ (x, inl refl, u)
  | inr u ↦ let (y, m, t) = any-IsIn p xs (rw u at h) in (y, inr m, t)
]

none-IsIn :
    {A : Type 0} (p : A → Bool) (xs : List A) (x : A) → any p xs ≡ false → IsIn x xs → p x ≡ false
none-IsIn p [] x h m = elim m [ ]
none-IsIn p (y ∷ ys) x h (inl e) =
    let here : p y ≡ false = ground arith in subst (λ z. p z ≡ false) (sym e) here
none-IsIn p (y ∷ ys) x h (inr m) = none-IsIn p ys x (ground arith) m

-- `int` raises only on digits that it does not read.
pub parse_int-IsUnreadable :
    (unicode : ℕ → Digit) (digits : Text)
    → isdigit unicode digits ≡ true
    → parse_int unicode digits ≡ none
    → IsUnreadable unicode digits
unfolding isdigit parse_int
parse_int-IsUnreadable unicode digits d e = elim (Bool-cases (ltb 4300 (length digits))) [
  | inl u ↦ inl (ground arith)
  | inr u ↦ elim (Bool-cases (any (λ c. not (is_numeral (digit_of unicode c))) digits)) [
    | inr v ↦ absurd (rw (u, v, parse_int) at e)
    | inl v ↦
        let (c, m, n) = any-IsIn (λ c. not (is_numeral (digit_of unicode c))) digits v in
        let all_digit : any (λ k. not (is_some_digit (digit_of unicode k))) digits ≡ false =
          ground arith in
        inr (
          c,
          m,
          other (digit_of unicode c) n
              (none-IsIn (λ k. not (is_some_digit (digit_of unicode k))) digits c all_digit m),
        )
  ]
]
  where
    absurd : {B : Type 0} {n : ℕ} → some n ≡ none → B
    absurd q = cc

    other :
        (k : Digit)
        → not (is_numeral k) ≡ true
        → not (is_some_digit k) ≡ false
        → k ≡ Digit.other_digit
    other Digit.no_digit p q = cc
    other Digit.other_digit p q = refl
    other (Digit.numeral v) p q = cc
