-- ===== src/Naming/Strip.antt =====
-- Texts that `str.strip` leaves alone.
use mathlib.Core.List.{reverse, reverse-append, reverse-reverse}
use calling_integration.Prelude.{
  ℕ, ◌≡◌, refl, Bool, true, false, ◌||◌, [], ◌∷◌, ◌++◌, Text, strip, lstrip, is_space, is_digit,
  all_digits, has_char, digits_of, any, arith, is_numeric, is_empty,
}

abbrev pub has_space : Text → Bool
has_space = any is_space

pub has_space-append : (s t : Text) → has_space (s ++ t) ≡ (has_space s || has_space t)
has_space-append [] t = refl
has_space-append (c ∷ s) t = ground (arith, has_space-append s t)

has_space-reverse : (s : Text) → has_space s ≡ false → has_space (reverse s) ≡ false
has_space-reverse [] h = h
has_space-reverse (c ∷ s) h =
    rw (reverse-append (c ∷ []) s)
      (ground (arith, has_space-append (reverse s) (c ∷ []), has_space-reverse s))

lstrip-plain : (s : Text) → has_space s ≡ false → lstrip s ≡ s
unfolding lstrip
lstrip-plain [] h = refl
lstrip-plain (c ∷ s) h = ground arith

pub strip-plain : (s : Text) → has_space s ≡ false → strip s ≡ s
unfolding strip
strip-plain s h =
    rw (lstrip-plain s h)
      (rw (lstrip-plain (reverse s) (has_space-reverse s h)) (reverse-reverse s))

pub digits_no_space : (s : Text) → all_digits s ≡ true → has_space s ≡ false
unfolding all_digits is_digit is_space
digits_no_space [] h = refl
digits_no_space (c ∷ s) h = ground (arith, digits_no_space s)

pub digits_no_char :
    (c : ℕ) (s : Text) → is_digit c ≡ false → all_digits s ≡ true → has_char c s ≡ false
unfolding all_digits has_char
digits_no_char c [] p h = refl
digits_no_char c (d ∷ s) p h = ground (arith, digits_no_char c s p)

pub digits_of-all_digits : (s : Text) → all_digits (digits_of s) ≡ true
unfolding digits_of all_digits
digits_of-all_digits [] = refl
digits_of-all_digits (c ∷ s) = ground (arith, digits_of-all_digits s)

pub numeric_parts : (s : Text) → is_numeric s ≡ true → (all_digits s ≡ true) × (is_empty s ≡ false)
unfolding is_numeric
numeric_parts s h = ground arith
