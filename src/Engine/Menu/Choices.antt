-- ===== src/Engine/Menu/Choices.antt =====
-- What the digits of a caller mean (`_ivr_resolve`).
use calling_integration.Prelude.{
  ◌≡◌, ◌≢◌, refl, sym, ◌∙◌, subst, Bool, true, false, List, [], ◌∷◌, some, Text, text_eq,
  text_eq_iff, text_eq_refl, mem_text, map, find, find_sound, IsIn, Bool-cases, inl, inr, ◌&&◌,
  ◌||◌, length, leb, ◌==◌, select, starts_with, if◌then◌else◌,
}
use calling_integration.Naming.{extension_digits}
use calling_integration.Engine.Menu.{Choice, choose_extension, first_key, longest}

differ_back : (a b : Text) → text_eq a b ≡ false → text_eq b a ≡ false
differ_back a b h = elim (Bool-cases (text_eq b a)) [
  | inl u ↦ absurd (
      apart
        (sym h ∙ subst (λ c. text_eq a c ≡ true) (sym ((text_eq_iff b a).0 u)) (text_eq_refl a)))
  | inr u ↦ u
]
  where
    apart : false ≡ true → ⊥
    apart q = cc

other_holds : (a b : Bool) → a ≡ false → (a || b) ≡ true → b ≡ true
other_holds true b h e = cc
other_holds false b h e = e

-- An extension that is in the menu is the first key with its digits.
first_key-found :
    (keys : List Text) (digits : Text)
    → mem_text digits (map extension_digits keys) ≡ true
    → (key : Text) × (find (λ k. text_eq (extension_digits k) digits) keys ≡ some key)
unfolding mem_text
first_key-found [] digits h = cc
first_key-found (k ∷ keys) digits h = elim (Bool-cases (text_eq (extension_digits k) digits)) [
  | inl u ↦ (k, rw u refl)
  | inr u ↦
      let (key, e) =
        first_key-found keys digits
          (other_holds _ _ (differ_back (extension_digits k) digits u) h) in
      (key, rw u e)
]

first_key_sound :
    (keys : List Text) (digits : Text)
    → mem_text digits (map extension_digits keys) ≡ true
    → IsIn (first_key keys digits) keys × (extension_digits (first_key keys digits) ≡ digits)
unfolding first_key
first_key_sound keys digits h =
    let (key, e) = first_key-found keys digits h in
    let (t, m) = find_sound (λ (k : Text). text_eq (extension_digits k) digits) keys key e in
    rw (e, first_key) (m, (text_eq_iff (extension_digits key) digits).0 t)

dialled : {a b : Text} → Choice.dial a ≡ Choice.dial b → a ≡ b
dialled q = cc

no_dial : (b : Bool) (key : Text) → (if b then Choice.wait else Choice.invalid) ≢ Choice.dial key
no_dial true key = λ q. cc
no_dial false key = λ q. cc

-- A caller who types an extension is put through to an extension that the menu offers, and that
-- has exactly the digits that were typed.
pub choose_extension-dial :
    (keys : List Text) (digits : Text) (final : Bool) (key : Text)
    → choose_extension keys digits final ≡ Choice.dial key
    → IsIn key keys × (extension_digits key ≡ digits)
unfolding choose_extension
choose_extension-dial keys digits final key h =
    elim (Bool-cases (
      mem_text digits (map extension_digits keys)
      && (length (select (λ e. starts_with e digits) (map extension_digits keys)) == 1
          || final
          || leb (longest (map extension_digits keys)) (length digits)))) [
            | inl u ↦
                subst (λ k. IsIn k keys × (extension_digits k ≡ digits)) (dialled (rw u at h))
                  (first_key_sound keys digits (both _ _ u))
            | inr u ↦ absurd (no_dial _ key (rw u at h))
          ]
  where
    both : (a b : Bool) → (a && b) ≡ true → a ≡ true
    both true b e = refl
    both false b e = e
