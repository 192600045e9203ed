-- ===== src/Prelude/Quantified.antt =====
-- What holds of every element of a list: of a filter, of the distinct elements, of a dictionary.
use mathlib.Core.Path.{◌≡◌, refl, subst}
use mathlib.Core.Logic.{inl, inr}
use mathlib.Core.Bool.{Bool, true}
use mathlib.Core.Option.{some}
use mathlib.Core.List.{List, [], ◌∷◌}
use calling_integration.Prelude.Tests.{Bool-cases}
use calling_integration.Prelude.Lists.{select, All, find}
use calling_integration.Prelude.Membership.{IsIn}
use calling_integration.Prelude.Texts.{Text, text_eq, text_eq_iff, mem_text, insert, lookup}

module _ {A : Type 0} where
  pub All-select : (P : A → Type 0) (p : A → Bool) (xs : List A) → All P xs → All P (select p xs)
  All-select P p [] h = tt
  All-select P p (x ∷ xs) h = elim (Bool-cases (p x)) [
    | inl u ↦ rw u (h.0, All-select P p xs h.1)
    | inr u ↦ rw u (All-select P p xs h.1)
  ]

  -- The elements that a filter keeps pass its test.
  pub select-All :
      (P : A → Type 0) (p : A → Bool) (xs : List A)
      → ((x : A) → p x ≡ true → P x)
      → All P (select p xs)
  select-All P p [] h = tt
  select-All P p (x ∷ xs) h = elim (Bool-cases (p x)) [
    | inl u ↦ rw u (h x u, select-All P p xs h)
    | inr u ↦ rw u (select-All P p xs h)
  ]

  pub All-in : (P : A → Type 0) (xs : List A) → ((x : A) → IsIn x xs → P x) → All P xs
  All-in P [] h = tt
  All-in P (x ∷ xs) h = (h x (inl refl), All-in P xs (λ y m. h y (inr m)))

  pub find-All :
      (P : A → Type 0) (p : A → Bool) (xs : List A) (x : A) → All P xs → find p xs ≡ some x → P x
  find-All P p [] x h e = cc
  find-All P p (y ∷ ys) x h e = elim (Bool-cases (p y)) [
    | inl u ↦ let q : y ≡ x = cc in subst P q h.0
    | inr u ↦ find-All P p ys x h.1 (rw u at e)
  ]

pub mem_text-IsIn : (s : Text) (ts : List Text) → mem_text s ts ≡ true → IsIn s ts
unfolding mem_text
mem_text-IsIn s [] h = cc
mem_text-IsIn s (t ∷ ts) h = elim (Bool-cases (text_eq s t)) [
  | inl u ↦ inl ((text_eq_iff s t).0 u)
  | inr u ↦ inr (mem_text-IsIn s ts (rw u at h))
]

pub IsIn-mem_text : (s : Text) (ts : List Text) → IsIn s ts → mem_text s ts ≡ true
unfolding mem_text
IsIn-mem_text s [] m = elim m [ ]
IsIn-mem_text s (t ∷ ts) (inl e) = rw ((text_eq_iff s t).1 e) refl
IsIn-mem_text s (t ∷ ts) (inr m) =
    let rest = IsIn-mem_text s ts m in
    elim (Bool-cases (text_eq s t)) [ inl u ↦ rw u refl | inr u ↦ rw u rest ]

module _ {V : Type 0} (P : Text × V → Type 0) where
  pub All-insert :
      (k : Text) (v : V) (m : List (Text × V)) → P (k, v) → All P m → All P (insert k v m)
  unfolding insert
  All-insert k v [] p h = (p, tt)
  All-insert k v ((j, w) ∷ m) p h = elim (Bool-cases (text_eq j k)) [
    | inl u ↦ rw u (p, h.1)
    | inr u ↦ rw u (h.0, All-insert k v m p h.1)
  ]

  -- What is looked up is in the dictionary, under its key.
  pub lookup-All :
      (k : Text) (v : V) (m : List (Text × V)) → All P m → lookup k m ≡ some v → P (k, v)
  unfolding lookup
  lookup-All k v [] h e = cc
  lookup-All k v ((j, w) ∷ m) h e = elim (Bool-cases (text_eq j k)) [
    | inl u ↦
        let q : w ≡ v = same (rw u at e) in
        subst (λ i. P (i, v)) ((text_eq_iff j k).0 u) (subst (λ x. P (j, x)) q h.0)
    | inr u ↦ lookup-All k v m h.1 (rw u at e)
  ]
    where
      same : {a b : V} → some a ≡ some b → a ≡ b
      same q = cc
