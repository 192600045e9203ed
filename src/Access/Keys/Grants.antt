-- ===== src/Access/Keys/Grants.antt =====
-- What a key of the API opens.
use calling_integration.Prelude.{
  ℕ, ◌≤◌, Bool, true, false, not, ◌&&◌, ◌||◌, List, [], ◌∷◌, ◌++◌, Option, none, some, Text,
  text_eq, text_eq_refl, ◌≡◌, refl, sym, subst, ◌∙◌, inl, inr, codes, is_empty, find, select,
  length, any, split, join, starts_with, ltb, arith, Bool-cases, Option-cases, if◌then◌else◌, All,
  show,
}
use calling_integration.Prelude.{ltb, select, any, not, ◌||◌, ◌&&◌}
use calling_integration.Prelude.{◌⊎◌}
use calling_integration.Claims.{find-last}
use calling_integration.Access.Keys.Scopes.{
  IsGranted, named_scopes, scope_items-split, admits-IsGranted,
}
use calling_integration.Access.Keys.{
  ApiKey, scope_items, new_key, Identity, admits, create_api_key, has_hash, authenticate_api_key,
  Admission, bearer_token, require_token, validate_config_value, revoke_api_key, is_mine,
}

free_hash :
    (digest : Text → Text) (token name : Text) (rows : List ApiKey)
    → any (λ (k : ApiKey). text_eq k.name name || text_eq k.key_hash (digest token)) rows ≡ false
    → find (has_hash digest token) rows ≡ none
free_hash digest token name [] h = refl
free_hash digest token name (k ∷ rows) h =
    let rest = free_hash digest token name rows (ground arith) in
    let here : has_hash digest token k ≡ false = ground arith in rw here rest

bearer_token-lem : (token : Text) → bearer_token (codes "Bearer " ++ token) ≡ token
unfolding bearer_token codes starts_with
bearer_token-lem token = refl

-- The table after a key was made, which no earlier key answers for the token.
created :
    (digest : Text → Text) (id : ℕ) (token name scopes : Text) (owner : Option ℕ)
    (items : List Text) (rows after : List ApiKey)
    → create_api_key digest id token name scopes owner rows ≡ some after
    → scope_items scopes ≡ some items
    → (n : Text) × (after ≡ rows ++ new_key id n token (digest token) items owner ∷ [])
      × (find (has_hash digest token) rows ≡ none)
unfolding create_api_key
created digest id token name scopes owner items rows after e s =
    elim (Option-cases (validate_config_value name 80)) [
      | inl u ↦ absurd (rw (u, create_api_key) at e)
      | inr (n, u) ↦
          elim (Bool-cases
            (any (λ (k : ApiKey). text_eq k.name n || text_eq k.key_hash (digest token)) rows)) [
              | inl v ↦ absurd (rw (u, s, v, create_api_key) at e)
              | inr v ↦ (
                n,
                sym (same (rw (u, s, v, create_api_key) at e)),
                free_hash digest token n rows v,
              )
            ]
    ]
  where
    absurd : {B : Type 0} → none ≡ some after → B
    absurd q = cc

    same : {x : List ApiKey} → some x ≡ some after → x ≡ after
    same q = cc

authenticate-created :
    (digest : Text → Text) (id now : ℕ) (token n : Text) (owner : Option ℕ) (required : Option Text)
    (items : List Text) (rows : List ApiKey)
    → find (has_hash digest token) rows ≡ none
    → split 44 (join 44 items) ≡ items
    → starts_with token (codes "eip_") ≡ true
    → length token ≤ 128
    → (authenticate_api_key digest now token required
        (rows ++ new_key id n token (digest token) items owner ∷ [])).0
      ≡ (if admits items required then Identity.known id owner else Identity.refused)
unfolding authenticate_api_key
authenticate-created digest id now token n owner required items rows free parts p short =
    let row = new_key id n token (digest token) items owner in
    let own : has_hash digest token row ≡ true = rw (text_eq_refl (digest token)) refl in
    let here = find-last (has_hash digest token) rows row free own in
    let brief : ltb 128 (length token) ≡ false = ground arith in
    elim (Bool-cases (admits items required)) [
      | inl u ↦ rw (p, brief, here, parts, u, authenticate_api_key) refl
      | inr u ↦ rw (p, brief, here, parts, u, authenticate_api_key) refl
    ]

token-full : (token : Text) → starts_with token (codes "eip_") ≡ true → is_empty token ≡ false
unfolding starts_with codes
token-full [] p = cc
token-full (c ∷ token) p = refl

require_token-known :
    (token master : Text) (authenticate : Text → Identity) (b : Bool) (id : ℕ) (owner : Option ℕ)
    → is_empty token ≡ false
    → text_eq token master ≡ false
    → authenticate token ≡ (if b then Identity.known id owner else Identity.refused)
    → require_token false (codes "Bearer " ++ token) master authenticate
      ≡ (if b then Admission.served (codes "key:" ++ show id) owner else Admission.rejected 403)
unfolding require_token
require_token-known token master authenticate b id owner full apart e =
    let both : (not (is_empty master) && text_eq token master) ≡ false = ground arith in
    elim (Bool-cases b) [
      | inl u ↦
          let q = rw u at e in rw (bearer_token-lem token, full, both, q, u, require_token) refl
      | inr u ↦
          let q = rw u at e in rw (bearer_token-lem token, full, both, q, u, require_token) refl
    ]

-- A key that is made has scopes.
created_scopes :
    (digest : Text → Text) (id : ℕ) (token name scopes : Text) (owner : Option ℕ)
    (rows after : List ApiKey)
    → create_api_key digest id token name scopes owner rows ≡ some after
    → (items : List Text) × (scope_items scopes ≡ some items)
unfolding create_api_key
created_scopes digest id token name scopes owner rows after e =
    elim (Option-cases (scope_items scopes)) [
      | inr found ↦ found
      | inl u ↦ elim (Option-cases (validate_config_value name 80)) [
        | inl v ↦ absurd (rw (v, create_api_key) at e)
        | inr (n, v) ↦ absurd (rw (v, u, create_api_key) at e)
      ]
    ]
  where
    absurd : {B : Type 0} → none ≡ some after → B
    absurd q = cc

require_token-created :
    (digest : Text → Text) (id now : ℕ) (token name scopes master : Text) (owner : Option ℕ)
    (required : Option Text) (items : List Text) (rows after : List ApiKey)
    → create_api_key digest id token name scopes owner rows ≡ some after
    → scope_items scopes ≡ some items
    → starts_with token (codes "eip_") ≡ true
    → length token ≤ 128
    → text_eq token master ≡ false
    → require_token false
        (codes "Bearer " ++ token)
        master
        (λ t. (authenticate_api_key digest now t required after).0)
      ≡ (if admits items required
          then Admission.served (codes "key:" ++ show id) owner
          else Admission.rejected 403)
require_token-created digest id now token name scopes master owner required items rows after e s p
      short apart =
    let (n, shape, free) = created digest id token name scopes owner items rows after e s in
    let identity =
      authenticate-created digest id now token n owner required items rows free
        (scope_items-split scopes items s) p short in
    require_token-known token master (λ t. (authenticate_api_key digest now t required after).0)
      (admits items required) id owner (token-full token p) apart
      (subst
        (λ x.
          (authenticate_api_key digest now token required x).0
          ≡ (if admits items required then Identity.known id owner else Identity.refused))
        (sym shape) identity)

-- A key that was made opens what its scopes name, and nothing else: right after it was made, a
-- request with its token is served as that key and its owner if the scope that is required stands
-- among the texts that the commas of its scopes separate (or `*` does, or no scope is required), and
-- gets status 403 if it does not.
pub require_token-create_api_key :
    (digest : Text → Text) (id now : ℕ) (token name scopes master : Text) (owner : Option ℕ)
    (required : Option Text) (rows after : List ApiKey)
    → create_api_key digest id token name scopes owner rows ≡ some after
    → starts_with token (codes "eip_") ≡ true
    → length token ≤ 128
    → text_eq token master ≡ false
    → (IsGranted (named_scopes scopes) required
        × (require_token false
              (codes "Bearer " ++ token)
              master
              (λ t. (authenticate_api_key digest now t required after).0)
            ≡ Admission.served (codes "key:" ++ show id) owner))
      ⊎ ((¬ IsGranted (named_scopes scopes) required)
          × (require_token false
                (codes "Bearer " ++ token)
                master
                (λ t. (authenticate_api_key digest now t required after).0)
              ≡ Admission.rejected 403))
require_token-create_api_key digest id now token name scopes master owner required rows after e p
      short apart =
    let (items, s) = created_scopes digest id token name scopes owner rows after e in
    let answer =
      require_token-created digest id now token name scopes master owner required items rows after e
        s p short apart in
    let granted = admits-IsGranted scopes items required s in
    elim (Bool-cases (admits items required)) [
      | inl u ↦ inl (granted.0 u, answer ∙ rw u refl)
      | inr u ↦ inr (λ g. clash (granted.1 g) u, answer ∙ rw u refl)
    ]
  where
    clash : {b : Bool} → b ≡ true → b ≡ false → ⊥
    clash p q = cc

find-gone :
    (p mine : ApiKey → Bool) (rows : List ApiKey)
    → All (λ (k : ApiKey). p k ≡ true → mine k ≡ true) rows
    → find p (select (λ k. not (mine k)) rows) ≡ none
find-gone p mine [] h = refl
find-gone p mine (k ∷ rows) h =
    let rest = find-gone p mine rows h.1 in
    elim (Bool-cases (mine k)) [
      | inl u ↦ rw u rest
      | inr u ↦ elim (Bool-cases (p k)) [ inl v ↦ absurd (h.0 v) u | inr v ↦ rw (u, v) rest ]
    ]
  where
    absurd : {B : Type 0} {b : Bool} → b ≡ true → b ≡ false → B
    absurd x y = cc

authenticate-unknown :
    (digest : Text → Text) (now : ℕ) (token : Text) (required : Option Text) (rows : List ApiKey)
    → find (has_hash digest token) rows ≡ none
    → (authenticate_api_key digest now token required rows).0 ≡ Identity.unknown
unfolding authenticate_api_key
authenticate-unknown digest now token required rows q =
    elim (Bool-cases (not (starts_with token (codes "eip_")) || ltb 128 (length token))) [
      | inl u ↦ rw (u, authenticate_api_key) refl
      | inr u ↦ rw (u, q, authenticate_api_key) refl
    ]

require_token-unknown :
    (token master : Text) (authenticate : Text → Identity)
    → text_eq token master ≡ false
    → authenticate token ≡ Identity.unknown
    → require_token false (codes "Bearer " ++ token) master authenticate ≡ Admission.rejected 401
unfolding require_token
require_token-unknown token master authenticate apart e =
    let both : (not (is_empty master) && text_eq token master) ≡ false = ground arith in
    elim (Bool-cases (is_empty token)) [
      | inl v ↦ rw (bearer_token-lem token, v, require_token) refl
      | inr v ↦ rw (bearer_token-lem token, v, both, e, require_token) refl
    ]

-- A key that is revoked opens nothing: if every row that answers for a token is one that the
-- revocation names, a request with the token gets status 401 from then on, whatever scope is
-- required.
pub require_token-revoke_api_key :
    (digest : Text → Text) (id now : ℕ) (owner : Option ℕ) (token master : Text)
    (required : Option Text) (rows after : List ApiKey)
    → revoke_api_key id owner rows ≡ some after
    → All (λ (k : ApiKey). has_hash digest token k ≡ true → is_mine id owner k ≡ true) rows
    → text_eq token master ≡ false
    → require_token false
        (codes "Bearer " ++ token)
        master
        (λ t. (authenticate_api_key digest now t required after).0)
      ≡ Admission.rejected 401
unfolding revoke_api_key
require_token-revoke_api_key digest id now owner token master required rows after e h apart =
    elim (Bool-cases (any (is_mine id owner) rows)) [
      | inr u ↦ absurd (rw (u, revoke_api_key) at e)
      | inl u ↦
          let left = same (rw (u, revoke_api_key) at e) in
          let gone = find-gone (has_hash digest token) (is_mine id owner) rows h in
          require_token-unknown token master
            (λ t. (authenticate_api_key digest now t required after).0) apart
            (authenticate-unknown digest now token required after
              (subst (λ x. find (has_hash digest token) x ≡ none) left gone))
    ]
  where
    absurd : {B : Type 0} → none ≡ some after → B
    absurd q = cc

    same : {x : List ApiKey} → some x ≡ some after → x ≡ after
    same q = cc
