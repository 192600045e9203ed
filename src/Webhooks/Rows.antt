-- ===== src/Webhooks/Rows.antt =====
-- The rows of the queue: their ids, the room for one more attempt, and the endpoints beside them.
use calling_integration.Prelude.{
  ℕ, ◌+◌, ◌≤◌, Bool, true, false, List, [], ◌∷◌, none, some, Text, text_eq, text_eq_iff,
  text_eq_refl, ◌≡◌, refl, sym, subst, inl, inr, map, select, count, All, arith, Bool-cases,
  Option-cases,
}
use calling_integration.Webhooks.{Delivery, Endpoint, Outbox, has_id, live_endpoint, with_endpoints}

abbrev pub ids : List Delivery → List Text
ids = map (λ (d : Delivery). d.id)

abbrev pub IsFresh : Text → List Text → Type 0
IsFresh id others = All (λ t. text_eq t id ≡ false) others

-- No two rows have the same id.
abbrev pub IsDistinct : List Text → Type 0
IsDistinct [] = Unit
IsDistinct (id ∷ others) = IsFresh id others × IsDistinct others

abbrev pub IsWithin : Delivery → Type 0
IsWithin d = d.attempts ≤ 5

-- The ids are a key, and no delivery was attempted more than five times.
pub record IsBounded (box : Outbox) : Type 0 where
  pub distinct : IsDistinct (ids box.deliveries)
  pub within : All IsWithin box.deliveries

-- How often a row is among the items of a pass.
abbrev pub occurrences : Text → List (Delivery × Endpoint) → ℕ
occurrences id items = count (λ (i : Delivery × Endpoint). has_id id i.0) items

count-fresh : (id : Text) (ds : List Delivery) → IsFresh id (ids ds) → count (has_id id) ds ≡ 0
count-fresh id [] h = refl
count-fresh id (d ∷ ds) h = rw (h.0) (count-fresh id ds h.1)

pub IsFresh-select :
    (p : Delivery → Bool) (id : Text) (ds : List Delivery)
    → IsFresh id (ids ds)
    → IsFresh id (ids (select p ds))
IsFresh-select p id [] h = tt
IsFresh-select p id (d ∷ ds) h = elim (Bool-cases (p d)) [
  | inl u ↦ rw u (h.0, IsFresh-select p id ds h.1)
  | inr u ↦ rw u (IsFresh-select p id ds h.1)
]

pub IsDistinct-select :
    (p : Delivery → Bool) (ds : List Delivery)
    → IsDistinct (ids ds)
    → IsDistinct (ids (select p ds))
IsDistinct-select p [] h = tt
IsDistinct-select p (d ∷ ds) h = elim (Bool-cases (p d)) [
  | inl u ↦ rw u (IsFresh-select p d.id ds h.0, IsDistinct-select p ds h.1)
  | inr u ↦ rw u (IsDistinct-select p ds h.1)
]

pub text_eq_swap : (s t : Text) → text_eq s t ≡ false → text_eq t s ≡ false
text_eq_swap s t h = elim (Bool-cases (text_eq t s)) [
  | inl u ↦ let q = sym ((text_eq_iff t s).0 u) in let r = (text_eq_iff s t).1 q in cc
  | inr u ↦ u
]

-- The rows that pass a test that implies fewer than five attempts have room for one more.
module _ (p : Delivery → Bool) (room : (d : Delivery) → p d ≡ true → d.attempts + 1 ≤ 5) where
  abbrev pub HasRoom : List Delivery → Delivery → Type 0
  HasRoom items d = d.attempts + count (has_id d.id) items ≤ 5

  room-cons :
      (e : Delivery) (items ds : List Delivery)
      → IsFresh e.id (ids ds)
      → All (HasRoom items) ds
      → All (HasRoom (e ∷ items)) ds
  room-cons e items [] f h = tt
  room-cons e items (d ∷ ds) f h =
      (rw (text_eq_swap d.id e.id f.0) h.0, room-cons e items ds f.1 h.1)

  select-kept :
      (d : Delivery) (ds : List Delivery) → p d ≡ true → select p (d ∷ ds) ≡ d ∷ select p ds
  select-kept d ds u = rw u refl

  select-dropped :
      (d : Delivery) (ds : List Delivery) → p d ≡ false → select p (d ∷ ds) ≡ select p ds
  select-dropped d ds u = rw u refl

  pub selected-HasRoom :
      (ds : List Delivery) → IsDistinct (ids ds) → All IsWithin ds → All (HasRoom (select p ds)) ds
  selected-HasRoom [] f h = tt
  selected-HasRoom (d ∷ ds) f h =
      let none_more = count-fresh d.id (select p ds) (IsFresh-select p d.id ds f.0) in
      let rest = selected-HasRoom ds f.1 h.1 in
      elim (Bool-cases (p d)) [
        | inl u ↦
            subst (λ i. All (HasRoom i) (d ∷ ds)) (sym (select-kept d ds u))
              (rw (text_eq_refl d.id, none_more) (room d u), room-cons d (select p ds) ds f.0 rest)
        | inr u ↦
            subst (λ i. All (HasRoom i) (d ∷ ds)) (sym (select-dropped d ds u))
              (rw none_more (more h.0), rest)
      ]
    where
      more : {n : ℕ} → n ≤ 5 → n + 0 ≤ 5
      more q = omega arith

pub with_endpoints-dead :
    (endpoints : List Endpoint) (d : Delivery) (ds : List Delivery)
    → live_endpoint endpoints d ≡ none
    → with_endpoints endpoints (d ∷ ds) ≡ with_endpoints endpoints ds
unfolding with_endpoints
with_endpoints-dead endpoints d ds u = rw (u, with_endpoints) refl

pub with_endpoints-live :
    (endpoints : List Endpoint) (d : Delivery) (ds : List Delivery) (e : Endpoint)
    → live_endpoint endpoints d ≡ some e
    → with_endpoints endpoints (d ∷ ds) ≡ (d, e) ∷ with_endpoints endpoints ds
unfolding with_endpoints
with_endpoints-live endpoints d ds e u = rw (u, with_endpoints) refl

pub count-with :
    (id : Text) (endpoints : List Endpoint) (ds : List Delivery)
    → occurrences id (with_endpoints endpoints ds) ≤ count (has_id id) ds
unfolding with_endpoints
count-with id endpoints [] = omega arith
count-with id endpoints (d ∷ ds) =
    let rest = count-with id endpoints ds in
    elim (Option-cases (live_endpoint endpoints d)) [
      | inl u ↦ rw (with_endpoints-dead endpoints d ds u) (ground arith)
      | inr u ↦ rw (with_endpoints-live endpoints d ds u.0 u.1) (ground arith)
    ]
