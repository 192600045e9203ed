-- ===== src/Claims.antt =====
-- The two tables that let one worker or one request have a piece of work to itself: the requests
-- of the API (`api_idempotency`), and the mails of voicemail messages (`voicemail_deliveries`), in
-- app/admin.py. Each operation is one transaction of the database; times are in seconds.
use calling_integration.Prelude.{
  Bool, true, false, List, [], ◌∷◌, ◌++◌, Option, none, some, ◌≡◌, refl, sym, ap, subst, Bool-cases,
  inl, inr, find, select, if◌then◌else◌, not,
}
pub mod Idempotency
pub mod Voicemail

-- `UPDATE ... WHERE`: the rows that pass `q` are replaced.
unfoldable pub update : {A : Type 0} → (A → Bool) → (A → A) → List A → List A
update q f [] = []
update q f (x ∷ xs) = (if q x then f x else x) ∷ update q f xs

-- What `find` says of a changed table.
module _ {A : Type 0} (p : A → Bool) where
  pub find-select :
      (q : A → Bool) (xs : List A) (r : A)
      → find p xs ≡ some r
      → q r ≡ true
      → find p (select q xs) ≡ some r
  find-select q [] r e u = cc
  find-select q (x ∷ xs) r e u = elim (Bool-cases (p x)) [
    | inl v ↦
        let s : x ≡ r = same (rw v at e) in
        let w : q x ≡ true = subst (λ y. q y ≡ true) (sym s) u in rw (w, v) (ap some s)
    | inr v ↦
        let rest = find-select q xs r (rw v at e) u in
        elim (Bool-cases (q x)) [ inl w ↦ rw (w, v) rest | inr w ↦ rw w rest ]
  ]
    where
      same : {a b : A} → some a ≡ some b → a ≡ b
      same h = cc

  pub find-select-none :
      (q : A → Bool) (xs : List A) → find p xs ≡ none → find p (select q xs) ≡ none
  find-select-none q [] e = refl
  find-select-none q (x ∷ xs) e = elim (Bool-cases (p x)) [
    | inl v ↦ absurd (rw v at e)
    | inr v ↦
        let rest = find-select-none q xs (rw v at e) in
        elim (Bool-cases (q x)) [ inl w ↦ rw (w, v) rest | inr w ↦ rw w rest ]
  ]
    where
      absurd : {B : Type 0} {a : A} → some a ≡ none → B
      absurd h = cc

  pub find-append : (xs : List A) (y r : A) → find p xs ≡ some r → find p (xs ++ y ∷ []) ≡ some r
  find-append [] y r e = cc
  find-append (x ∷ xs) y r e = elim (Bool-cases (p x)) [
    | inl v ↦ rw v (rw v at e)
    | inr v ↦ rw v (find-append xs y r (rw v at e))
  ]

  pub find-last :
      (xs : List A) (y : A) → find p xs ≡ none → p y ≡ true → find p (xs ++ y ∷ []) ≡ some y
  find-last [] y e u = rw u refl
  find-last (x ∷ xs) y e u = elim (Bool-cases (p x)) [
    | inl v ↦ absurd (rw v at e)
    | inr v ↦ rw v (find-last xs y (rw v at e) u)
  ]
    where
      absurd : {B : Type 0} {a : A} → some a ≡ none → B
      absurd h = cc

  pub find_passes : (xs : List A) (r : A) → find p xs ≡ some r → p r ≡ true
  find_passes [] r e = cc
  find_passes (x ∷ xs) r e = elim (Bool-cases (p x)) [
    | inl v ↦ let s : x ≡ r = same (rw v at e) in subst (λ y. p y ≡ true) s v
    | inr v ↦ find_passes xs r (rw v at e)
  ]
    where
      same : {a b : A} → some a ≡ some b → a ≡ b
      same h = cc

  -- A row that the update does not reach is found as before.
  pub find-update :
      (q : A → Bool) (f : A → A) (xs : List A) (r : A)
      → ((x : A) → p (f x) ≡ p x)
      → find p xs ≡ some r
      → q r ≡ false
      → find p (update q f xs) ≡ some r
  unfolding update
  find-update q f [] r same e u = cc
  find-update q f (x ∷ xs) r same e u = elim (Bool-cases (p x)) [
    | inl v ↦
        let s : x ≡ r = equal (rw v at e) in
        let w : q x ≡ false = subst (λ y. q y ≡ false) (sym s) u in rw (w, v) (ap some s)
    | inr v ↦
        let rest = find-update q f xs r same (rw v at e) u in
        elim (Bool-cases (q x)) [ inl w ↦ rw (w, same x, v) rest | inr w ↦ rw (w, v) rest ]
  ]
    where
      equal : {a b : A} → some a ≡ some b → a ≡ b
      equal h = cc

  -- A row that the update reaches is found as it leaves it.
  pub find-updated :
      (q : A → Bool) (f : A → A) (xs : List A) (r : A)
      → ((x : A) → p (f x) ≡ p x)
      → find p xs ≡ some r
      → q r ≡ true
      → find p (update q f xs) ≡ some (f r)
  unfolding update
  find-updated q f [] r same e u = cc
  find-updated q f (x ∷ xs) r same e u = elim (Bool-cases (p x)) [
    | inl v ↦
        let s : x ≡ r = equal (rw v at e) in
        let w : q x ≡ true = subst (λ y. q y ≡ true) (sym s) u in
        rw (w, same x, v) (ap (λ y. some (f y)) s)
    | inr v ↦
        let rest = find-updated q f xs r same (rw v at e) u in
        elim (Bool-cases (q x)) [ inl w ↦ rw (w, same x, v) rest | inr w ↦ rw (w, v) rest ]
  ]
    where
      equal : {a b : A} → some a ≡ some b → a ≡ b
      equal h = cc
