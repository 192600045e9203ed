-- ===== src/Access/Keys.antt =====
-- The keys of the API (`create_api_key`, `revoke_api_key`, `authenticate_api_key` in app/admin.py)
-- and the check of a request (`require_token` in app/routes.py). The secret token and its SHA-256 are
-- the outside's: `digest` is any function.
pub mod Scopes
pub mod Grants
use calling_integration.Prelude.{
  ℕ, ◌≤◌, Bool, true, false, not, ◌&&◌, ◌||◌, List, [], ◌∷◌, ◌++◌, Option, none, some, Text,
  text_eq, text_eq_refl, ◌≡◌, refl, sym, subst, ap, ◌∙◌, inl, inr, codes, is_empty, find, select,
  take, drop, length, any, map, mem_text, strip, split, join, has_char, starts_with, ltb, ◌==◌,
  arith, Bool-cases, Option-cases, if◌then◌else◌, All, mem_text-IsIn, All-IsIn, show, split-plain,
  split-append,
}
use calling_integration.Directory.{unique}
use calling_integration.Claims.{update, find-last}

pub record ApiKey : Type 0 where
  pub id : ℕ
  pub name : Text
  pub prefix : Text
  pub key_hash : Text
  pub scopes : Text
  pub active : Bool
  pub last_used_at : Option ℕ
  pub owner : Option ℕ

-- `_validate_config_value`
unfoldable pub validate_config_value : Text → ℕ → Option Text
validate_config_value value limit =
    let v = strip value in
    if is_empty v || (ltb limit (length v) || any (λ c. c == 13 || c == 10 || c == 59 || c == 35) v)
    then none
    else some v

abbrev pub every_scope : Text
every_scope = codes "*"

abbrev pub allowed_scopes : List Text
allowed_scopes =
    every_scope
    ∷ codes "calls:read"
    ∷ codes "calls:write"
    ∷ codes "recordings:read"
    ∷ codes "voicemail:read"
    ∷ codes "voicemail:write"
    ∷ codes "config:read"
    ∷ codes "webhooks:manage"
    ∷ []

-- The scopes that a text names, or nothing where one is unknown or `*` is not alone.
unfoldable pub scope_items : Text → Option (List Text)
scope_items scopes =
    let items = unique (select (λ s. not (is_empty s)) (map strip (split 44 scopes))) in
    if is_empty items
      || (any (λ s. not (mem_text s allowed_scopes)) items
          || (mem_text every_scope items && not (length items == 1)))
    then none
    else some items

abbrev new_key : ℕ → Text → Text → Text → List Text → Option ℕ → ApiKey
new_key id name token hash items owner = record {
  id = id;
  name = name;
  prefix = take 12 token;
  key_hash = hash;
  scopes = join 44 items;
  active = true;
  last_used_at = none;
  owner = owner;
}

-- How a request is known: not at all, without the scope, or as a key.
pub data Identity : Type 0 where
  unknown refused : Identity
  known : ℕ → Option ℕ → Identity

abbrev pub admits : List Text → Option Text → Bool
admits items none = true
admits items (some scope) = is_empty scope || mem_text every_scope items || mem_text scope items

module _ (digest : Text → Text) where
  -- A name or a token that is taken is refused, as a bad name or bad scopes are.
  unfoldable pub create_api_key :
      ℕ → Text → Text → Text → Option ℕ → List ApiKey → Option (List ApiKey)
  unfolding validate_config_value scope_items
  create_api_key id token name scopes owner rows = elim (validate_config_value name 80) [
    | none ↦ none
    | some n ↦ elim (scope_items scopes) [
      | none ↦ none
      | some items ↦
          if any (λ (k : ApiKey). text_eq k.name n || text_eq k.key_hash (digest token)) rows
          then none
          else some (rows ++ new_key id n token (digest token) items owner ∷ [])
    ]
  ]

  abbrev pub has_hash : Text → ApiKey → Bool
  has_hash token k = text_eq k.key_hash (digest token) && k.active

  abbrev used : ℕ → ApiKey → ApiKey
  used now k = record k { last_used_at = some now }

  -- Who sends the token, and the table after the check.
  unfoldable pub authenticate_api_key :
      ℕ → Text → Option Text → List ApiKey → Identity × List ApiKey
  authenticate_api_key now token required rows =
      if not (starts_with token (codes "eip_")) || ltb 128 (length token)
      then (Identity.unknown, rows)
      else (elim (find (has_hash token) rows) [
        | none ↦ (Identity.unknown, rows)
        | some k ↦
            if admits (split 44 k.scopes) required
            then (
              Identity.known k.id k.owner,
              update (λ (x : ApiKey). x.id == k.id) (used now) rows,
            )
            else (Identity.refused, rows)
      ])

abbrev pub is_mine : ℕ → Option ℕ → ApiKey → Bool
is_mine id none k = k.id == id
is_mine id (some o) k = k.id == id && (elim k.owner [ none ↦ false | some p ↦ p == o ])

-- `none` stands for `ValueError("API key not found")`.
unfoldable pub revoke_api_key : ℕ → Option ℕ → List ApiKey → Option (List ApiKey)
revoke_api_key id owner rows =
    if any (is_mine id owner) rows then some (select (λ k. not (is_mine id owner k)) rows) else none

abbrev regranted : Text → List Text → ApiKey → ApiKey
regranted name items k = record k { name = name; scopes = join 44 items }

-- `none` stands for an error, which changes nothing: a bad name or scope, no such key, or a name
-- that another key has.
unfoldable pub update_api_key : ℕ → Text → Text → Option ℕ → List ApiKey → Option (List ApiKey)
unfolding validate_config_value scope_items
update_api_key id name scopes owner rows = elim (validate_config_value name 80) [
  | none ↦ none
  | some n ↦ elim (scope_items scopes) [
    | none ↦ none
    | some items ↦
        if not (any (is_mine id owner) rows)
          || any (λ (k : ApiKey). text_eq k.name n && not (is_mine id owner k)) rows
        then none
        else some (update (is_mine id owner) (regranted n items) rows)
  ]
]

-- The outcome of `require_token`: who is served, or the status that is returned.
pub data Admission : Type 0 where
  served : Text → Option ℕ → Admission
  rejected : ℕ → Admission

-- The token of an `Authorization` header.
unfoldable pub bearer_token : Text → Text
bearer_token header = if starts_with header (codes "Bearer ") then drop 7 header else []

unfoldable pub require_token : Bool → Text → Text → (Text → Identity) → Admission
unfolding bearer_token
require_token limited header master authenticate =
    let token = bearer_token header in
    if limited
    then Admission.rejected 429
    else if is_empty token
    then Admission.rejected 401
    else if not (is_empty master) && text_eq token master
    then Admission.served (codes "legacy-master") none
    else (elim (authenticate token) [
      | Identity.unknown ↦ Admission.rejected 401
      | Identity.refused ↦ Admission.rejected 403
      | Identity.known id owner ↦ Admission.served (codes "key:" ++ show id) owner
    ])
