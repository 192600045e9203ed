-- ===== src/Access/Keys/Scopes.antt =====
-- The scopes of a key, as they are written and stored (`create_api_key` in app/admin.py).
use calling_integration.Prelude.{
  Bool, true, false, not, ◌&&◌, ◌||◌, List, [], ◌∷◌, Option, none, some, Text, text_eq, ◌≡◌, refl,
  subst, ap, ◌∙◌, inl, inr, codes, is_empty, select, length, any, map, mem_text, strip, split, join,
  has_char, ◌==◌, arith, Bool-cases, All, mem_text-IsIn, All-IsIn, split-plain, split-append,
}
use calling_integration.Prelude.{select, any, not, ◌||◌, ◌&&◌}
use calling_integration.Directory.{unique, unique_from}
use calling_integration.Prelude.{
  IsIn, IsIn-mem_text, select_sound, select_complete, text_eq_iff, ◌⊎◌, ◌↔◌,
}
use calling_integration.Access.Keys.{every_scope, allowed_scopes, scope_items, admits}

-- A comma stands in no scope.
allowed-plain : All (λ s. has_char 44 s ≡ false) allowed_scopes
unfolding codes has_char
allowed-plain = (refl, (refl, (refl, (refl, (refl, (refl, (refl, (refl, tt))))))))

abbrev IsPlain : Text → Type 0
IsPlain s = has_char 44 s ≡ false

-- Splitting undoes joining, where there is a part and no part has a comma.
split-join :
    (first : Text) (rest : List Text)
    → IsPlain first
    → All IsPlain rest
    → split 44 (join 44 (first ∷ rest)) ≡ first ∷ rest
unfolding join
split-join first [] p h = split-plain 44 first p
split-join first (next ∷ rest) p h =
    split-append 44 first (join 44 (next ∷ rest)) p
    ∙ ap (λ parts. first ∷ parts) (split-join next rest h.0 h.1)

allowed_items :
    (items : List Text)
    → any (λ s. not (mem_text s allowed_scopes)) items ≡ false
    → All IsPlain items
allowed_items [] h = tt
allowed_items (s ∷ items) h =
    let here : mem_text s allowed_scopes ≡ true = ground arith in
    let rest : any (λ t. not (mem_text t allowed_scopes)) items ≡ false = ground arith in
    (
      All-IsIn IsPlain allowed_scopes s allowed-plain (mem_text-IsIn s allowed_scopes here),
      allowed_items items rest,
    )

-- The scopes that are stored are the scopes that are read.
pub scope_items-split :
    (scopes : Text) (items : List Text)
    → scope_items scopes ≡ some items
    → split 44 (join 44 items) ≡ items
unfolding scope_items
scope_items-split scopes items h =
    let found = unique (select (λ s. not (is_empty s)) (map strip (split 44 scopes))) in
    elim (Bool-cases (
      is_empty found
      || (any (λ s. not (mem_text s allowed_scopes)) found
          || (mem_text every_scope found && not (length found == 1))))) [
            | inl u ↦ absurd (rw (u, scope_items) at h)
            | inr u ↦
                subst (λ x. split 44 (join 44 x) ≡ x) (same (rw (u, scope_items) at h))
                  (parts found u)
          ]
  where
    absurd : {B : Type 0} → none ≡ some items → B
    absurd q = cc

    same : {x : List Text} → some x ≡ some items → x ≡ items
    same q = cc

    parts :
        (found : List Text)
        → (is_empty found
            || (any (λ s. not (mem_text s allowed_scopes)) found
                || (mem_text every_scope found && not (length found == 1))))
          ≡ false
        → split 44 (join 44 found) ≡ found
    parts [] q = cc
    parts (s ∷ found) q =
        let plain = allowed_items (s ∷ found) (
          middle (any (λ t. not (mem_text t allowed_scopes)) (s ∷ found))
            (mem_text every_scope (s ∷ found) && not (length (s ∷ found) == 1)) q) in
        split-join s found plain.0 plain.1
      where
        middle : (a b : Bool) → (false || (a || b)) ≡ false → a ≡ false
        middle a b e = ground arith

-- The texts that a comma separates, without the spaces around them.
abbrev pub named_scopes : Text → List Text
named_scopes scopes = map strip (split 44 scopes)

-- What is required stands among the texts, or `*` does, or nothing is required.
abbrev pub IsGranted : List Text → Option Text → Type 0
IsGranted named none = Unit
IsGranted named (some scope) = (scope ≡ []) ⊎ (IsIn (codes "*") named ⊎ IsIn scope named)

unique_from-there :
    (seen keys : List Text) (k : Text)
    → mem_text k seen ≡ false
    → IsIn k keys
    → IsIn k (unique_from seen keys)
unfolding unique_from mem_text
unique_from-there seen [] k n m = elim m [ ]
unique_from-there seen (j ∷ keys) k n m = elim (Bool-cases (text_eq k j)) [
  | inl v ↦
      let e = (text_eq_iff k j).0 v in
      let fresh : mem_text j seen ≡ false = subst (λ t. mem_text t seen ≡ false) e n in
      rw fresh (inl e)
  | inr v ↦ elim m [
    | inl e ↦ elim (clash ((text_eq_iff k j).1 e) v) [ ]
    | inr r ↦ elim (Bool-cases (mem_text j seen)) [
      | inl u ↦ rw u (unique_from-there seen keys k n r)
      | inr u ↦ rw u (inr (unique_from-there (j ∷ seen) keys k (rw v n) r))
    ]
  ]
]
  where
    clash : {b : Bool} → b ≡ true → b ≡ false → ⊥
    clash p q = cc

unique_from-source :
    (seen keys : List Text) (k : Text) → IsIn k (unique_from seen keys) → IsIn k keys
unfolding unique_from
unique_from-source seen [] k m = elim m [ ]
unique_from-source seen (j ∷ keys) k m = elim (Bool-cases (mem_text j seen)) [
  | inl u ↦ inr (unique_from-source seen keys k (rw u at m))
  | inr u ↦ elim (rw u at m) [
    | inl e ↦ inl e
    | inr r ↦ inr (unique_from-source (j ∷ seen) keys k r)
  ]
]

-- The scopes of a key are the texts that are not empty.
scope_items-IsIn :
    (scopes : Text) (items : List Text) (s : Text)
    → scope_items scopes ≡ some items
    → is_empty s ≡ false
    → (mem_text s items ≡ true) ↔ IsIn s (named_scopes scopes)
unfolding scope_items unique mem_text
scope_items-IsIn scopes items s h full =
    let full_ones = select (λ t. not (is_empty t)) (map strip (split 44 scopes)) in
    let found = unique full_ones in
    elim (Bool-cases (
      is_empty found
      || (any (λ t. not (mem_text t allowed_scopes)) found
          || (mem_text every_scope found && not (length found == 1))))) [
            | inl u ↦ absurd (rw (u, scope_items) at h)
            | inr u ↦
                subst (λ x. (mem_text s x ≡ true) ↔ IsIn s (named_scopes scopes))
                  (same (rw (u, scope_items) at h))
                  (
                    λ m.
                        (select_sound (λ t. not (is_empty t)) (named_scopes scopes) s
                          (unique_from-source [] full_ones s (mem_text-IsIn s found m))).1,
                    λ m. IsIn-mem_text s found (
                        unique_from-there [] full_ones s refl (
                          select_complete (λ t. not (is_empty t)) (named_scopes scopes) s m
                            (rw full refl))),
                  )
          ]
  where
    absurd : {B : Type 0} → none ≡ some items → B
    absurd q = cc

    same : {x : List Text} → some x ≡ some items → x ≡ items
    same q = cc

-- A key admits what its scopes name.
pub admits-IsGranted :
    (scopes : Text) (items : List Text) (required : Option Text)
    → scope_items scopes ≡ some items
    → (admits items required ≡ true) ↔ IsGranted (named_scopes scopes) required
unfolding codes
admits-IsGranted scopes items none h = (λ _. tt, λ _. refl)
admits-IsGranted scopes items (some []) h = (λ _. inl refl, λ _. refl)
admits-IsGranted scopes items (some (c ∷ s)) h =
    let every = scope_items-IsIn scopes items every_scope h refl in
    let own = scope_items-IsIn scopes items (c ∷ s) h refl in
    (
      λ e. elim (Bool-cases (mem_text every_scope items)) [
        | inl u ↦ inr (inl (every.0 u))
        | inr u ↦ inr (inr (own.0 (rw u at e)))
      ],
      λ g. elim g [
        | inl e ↦ elim (cons_nil e) [ ]
        | inr r ↦ elim r [
          | inl m ↦ rw (every.1 m) refl
          | inr m ↦ either (mem_text every_scope items) (own.1 m)
        ]
      ],
    )
  where
    cons_nil : (c ∷ s) ≡ [] → ⊥
    cons_nil e = cc

    either : (a : Bool) {b : Bool} → b ≡ true → (a || b) ≡ true
    either true e = refl
    either false e = e
