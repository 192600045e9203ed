-- ===== src/Prelude/Membership.antt =====
-- Which elements a list has, and what a search or a filter finds among them.
use mathlib.Core.Path.{◌≡◌, sym, subst}
use mathlib.Core.Logic.{◌≢◌, ◌⊎◌, inl, inr}
use mathlib.Core.Bool.{Bool, true}
use mathlib.Core.Option.{none, some}
use mathlib.Core.List.{List, [], ◌∷◌}
use calling_integration.Prelude.Tests.{Bool-cases}
use calling_integration.Prelude.Lists.{find, select, All}

module _ {A : Type 0} where
  abbrev pub IsIn : A → List A → Type 0
  IsIn x [] = ⊥
  IsIn x (y ∷ ys) = (x ≡ y) ⊎ IsIn x ys

  pub find_sound :
      (p : A → Bool) (xs : List A) (x : A) → find p xs ≡ some x → (p x ≡ true) × IsIn x xs
  find_sound p [] x h = cc
  find_sound p (y ∷ ys) x h = elim (Bool-cases (p y)) [
    | inl t ↦ let e : y ≡ x = cc in (subst (λ z. p z ≡ true) e t, inl (sym e))
    | inr f ↦ let (t, m) = find_sound p ys x (rw f at h) in (t, inr m)
  ]

  pub find_complete :
      (p : A → Bool) (xs : List A) (x : A) → IsIn x xs → p x ≡ true → find p xs ≢ none
  find_complete p [] x m t = λ e. m
  find_complete p (y ∷ ys) x (inl e) t = rw (← e, t) (λ q. cc)
  find_complete p (y ∷ ys) x (inr m) t = elim (Bool-cases (p y)) [
    | inl u ↦ rw u (λ q. cc)
    | inr u ↦ rw u (find_complete p ys x m t)
  ]

  pub select_sound :
      (p : A → Bool) (xs : List A) (x : A) → IsIn x (select p xs) → (p x ≡ true) × IsIn x xs
  select_sound p [] x m = absurd m
  select_sound p (y ∷ ys) x m = elim (Bool-cases (p y)) [
    | inl u ↦ elim (rw u at m) [
      | inl e ↦ (subst (λ z. p z ≡ true) (sym e) u, inl e)
      | inr k ↦ let (t, i) = select_sound p ys x k in (t, inr i)
    ]
    | inr u ↦ let (t, k) = select_sound p ys x (rw u at m) in (t, inr k)
  ]

  pub select_complete :
      (p : A → Bool) (xs : List A) (x : A) → IsIn x xs → p x ≡ true → IsIn x (select p xs)
  select_complete p [] x m t = absurd m
  select_complete p (y ∷ ys) x (inl e) t =
      let u : p y ≡ true = subst (λ z. p z ≡ true) e t in rw u (inl e)
  select_complete p (y ∷ ys) x (inr m) t = elim (Bool-cases (p y)) [
    | inl u ↦ rw u (inr (select_complete p ys x m t))
    | inr u ↦ rw u (select_complete p ys x m t)
  ]

  pub All-IsIn {κ} : (P : A → Type κ) (xs : List A) (x : A) → All P xs → IsIn x xs → P x
  All-IsIn P [] x h m = absurd m
  All-IsIn P (y ∷ ys) x h (inl e) = subst P (sym e) h.0
  All-IsIn P (y ∷ ys) x h (inr m) = All-IsIn P ys x h.1 m
