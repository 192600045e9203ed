-- ===== src/Webhooks/Order.antt =====
-- What `ORDER BY` and `LIMIT` do to the rows of the queue.
use calling_integration.Prelude.{
  ℕ, zero, suc, ◌≤◌, Bool, List, [], ◌∷◌, inl, inr, ◌≡◌, refl, sym, subst, ap, ◌∙◌, ltb, length,
  count, take, All, IsIn, arith, Bool-cases,
}
use calling_integration.Webhooks.{Delivery, place_by_age, oldest_first}

module _ (p : Delivery → Bool) where
  count-place : (d : Delivery) (ds : List Delivery) → count p (place_by_age d ds) ≡ count p (d ∷ ds)
  unfolding place_by_age
  count-place d [] = refl
  count-place d (e ∷ ds) =
      let rest = count-place d ds in
      elim (Bool-cases (ltb e.created_at d.created_at)) [
        | inl u ↦ rw u (ground arith)
        | inr u ↦ rw u refl
      ]

  -- Sorting keeps how many rows pass a test.
  pub count-oldest : (ds : List Delivery) → count p (oldest_first ds) ≡ count p ds
  unfolding oldest_first
  count-oldest [] = refl
  count-oldest (d ∷ ds) =
      count-place d (oldest_first ds) ∙ (let rest = count-oldest ds in ground arith)

  pub count-take : (n : ℕ) (ds : List Delivery) → count p (take n ds) ≤ count p ds
  count-take zero ds = omega arith
  count-take (suc n) [] = omega arith
  count-take (suc n) (d ∷ ds) = let rest = count-take n ds in ground arith

module _ (P : Delivery → Type 0) where
  All-place : (d : Delivery) (ds : List Delivery) → P d → All P ds → All P (place_by_age d ds)
  unfolding place_by_age
  All-place d [] p h = (p, tt)
  All-place d (e ∷ ds) p h = elim (Bool-cases (ltb e.created_at d.created_at)) [
    | inl u ↦ rw u (h.0, All-place d ds p h.1)
    | inr u ↦ rw u (p, h)
  ]

  pub All-oldest : (ds : List Delivery) → All P ds → All P (oldest_first ds)
  unfolding oldest_first
  All-oldest [] h = tt
  All-oldest (d ∷ ds) h = All-place d (oldest_first ds) h.0 (All-oldest ds h.1)

  pub All-take : (n : ℕ) (ds : List Delivery) → All P ds → All P (take n ds)
  All-take zero ds h = tt
  All-take (suc n) [] h = tt
  All-take (suc n) (d ∷ ds) h = (h.0, All-take n ds h.1)

place-first : (d : Delivery) (ds : List Delivery) → IsIn d (place_by_age d ds)
unfolding place_by_age
place-first d [] = inl refl
place-first d (e ∷ ds) = elim (Bool-cases (ltb e.created_at d.created_at)) [
  | inl u ↦ rw u (inr (place-first d ds))
  | inr u ↦ rw u (inl refl)
]

place-other : (d e : Delivery) (ds : List Delivery) → IsIn e ds → IsIn e (place_by_age d ds)
unfolding place_by_age
place-other d e [] m = elim m [ ]
place-other d e (x ∷ ds) m = elim (Bool-cases (ltb x.created_at d.created_at)) [
  | inl u ↦ rw u (elim m [ inl q ↦ inl q | inr r ↦ inr (place-other d e ds r) ])
  | inr u ↦ rw u (inr m)
]

-- Sorting loses no row.
pub oldest-IsIn : (d : Delivery) (ds : List Delivery) → IsIn d ds → IsIn d (oldest_first ds)
unfolding oldest_first
oldest-IsIn d [] m = elim m [ ]
oldest-IsIn d (e ∷ ds) (inl q) =
    subst (λ x. IsIn x (place_by_age e (oldest_first ds))) (sym q) (place-first e (oldest_first ds))
oldest-IsIn d (e ∷ ds) (inr m) = place-other e d (oldest_first ds) (oldest-IsIn d ds m)

length-place : (d : Delivery) (ds : List Delivery) → length (place_by_age d ds) ≡ suc (length ds)
unfolding place_by_age
length-place d [] = refl
length-place d (e ∷ ds) =
    let rest = length-place d ds in
    elim (Bool-cases (ltb e.created_at d.created_at)) [
      | inl u ↦ rw u (ap suc rest)
      | inr u ↦ rw u refl
    ]

length-oldest : (ds : List Delivery) → length (oldest_first ds) ≡ length ds
unfolding oldest_first
length-oldest [] = refl
length-oldest (d ∷ ds) = length-place d (oldest_first ds) ∙ ap suc (length-oldest ds)

none_left : {n : ℕ} → suc n ≤ 0 → ⊥
none_left h = omega arith

take_all : (n : ℕ) (ds : List Delivery) → length ds ≤ n → take n ds ≡ ds
take_all zero [] h = refl
take_all zero (d ∷ ds) h = elim (none_left h) [ ]
take_all (suc n) [] h = refl
take_all (suc n) (d ∷ ds) h = let rest = take_all n ds (omega arith) in ap (λ x. d ∷ x) rest

-- A limit that is no less than the rows cuts none of them off.
pub take-oldest :
    (n : ℕ) (ds : List Delivery) → length ds ≤ n → take n (oldest_first ds) ≡ oldest_first ds
take-oldest n ds h = take_all n (oldest_first ds) (rw (length-oldest ds) h)
