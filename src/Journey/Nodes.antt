-- ===== src/Journey/Nodes.antt =====
-- The stored journeys (app/admin.py): the steps of a flow, the flows of numbers and desks, the
-- groups, and the defaults of a customer. A step is a JSON object: a text that it does not have is
-- empty, and a number that it does not have is `none`. `enabled` and `ring_enabled` are false only
-- where the object says so.
use calling_integration.Prelude.{
  ℕ, Bool, true, false, List, [], ◌∷◌, ◌&&◌, ◌||◌, Option, none, some, Text, text_eq, find, select,
  is_empty, ◌==◌, map, if◌then◌else◌, strip, is_numeric, mem_text, any,
}
use calling_integration.Directory.{
  Directory, ExtensionRow, list_extensions, row_key, extension_key_for, extension_key_for_digits,
  extension_row,
}

-- `type`: the kinds of `ROUTE_NODE_TYPES`, and any other text.
pub data Kind : Type 0 where
  incoming simultaneous sequential ring_group business_hours after_hours : Kind
  extension voicemail forward ivr other : Kind

pub record Node : Type 0 where
  pub kind : Kind
  pub enabled : Bool
  pub ring_enabled : Bool
  pub extensions : Option (List Text)
  pub group_id : Text
  pub extension : Text
  pub mailbox : Text
  pub phone : Text
  pub timeout : Option ℕ
  pub days : List ℕ
  pub start : Text
  pub finish : Text
  pub prompt : Text
  pub voice : Text
  pub input_timeout : Option ℕ
  pub attempts : Option ℕ
  pub fallback : Text
  pub keys : List (Text × Text)
  pub no_answer : Option Text

pub record CallRoute : Type 0 where
  pub owner : ℕ
  pub phone_number : Text
  pub active : Bool
  pub nodes : List Node

pub data TargetType : Type 0 where
  desk group : TargetType

pub record RoutingFlow : Type 0 where
  pub owner : ℕ
  pub target_type : TargetType
  pub target : Text
  pub active : Bool
  pub nodes : List Node

pub record Group : Type 0 where
  pub id : Text
  pub owner : ℕ
  pub members : List Text
  pub active : Bool

pub record CallDefaults : Type 0 where
  pub owner : ℕ
  pub outbound : Text
  pub fallback : Text

-- What the settings database says of the customers' lines.
pub record Office : Type 0 where
  pub directory : Directory
  pub routes : List CallRoute
  pub flows : List RoutingFlow
  pub groups : List Group
  pub defaults : List CallDefaults

-- `datetime.now()`: the ISO weekday, and the time as `%H:%M`.
pub record Moment : Type 0 where
  pub weekday : ℕ
  pub clock : Text

abbrev pub is_kind : Kind → Kind → Bool
is_kind Kind.incoming Kind.incoming = true
is_kind Kind.simultaneous Kind.simultaneous = true
is_kind Kind.sequential Kind.sequential = true
is_kind Kind.ring_group Kind.ring_group = true
is_kind Kind.business_hours Kind.business_hours = true
is_kind Kind.after_hours Kind.after_hours = true
is_kind Kind.extension Kind.extension = true
is_kind Kind.voicemail Kind.voicemail = true
is_kind Kind.forward Kind.forward = true
is_kind Kind.ivr Kind.ivr = true
is_kind _ _ = false

abbrev pub is_group_ring : Kind → Bool
is_group_ring Kind.ring_group = true
is_group_ring Kind.simultaneous = true
is_group_ring Kind.sequential = true
is_group_ring _ = false

abbrev pub list_or_empty : Option (List Text) → List Text
list_or_empty none = []
list_or_empty (some l) = l

module _ (office : Office) where
  -- `list_call_routes(owner)`
  unfoldable pub list_call_routes : ℕ → List CallRoute
  list_call_routes owner = select (λ r. r.owner == owner) office.routes

  -- `list_routing_flows(owner, target_type="extension")`
  unfoldable pub desk_flows : Option ℕ → List RoutingFlow
  desk_flows owner =
      select
        (λ f.
          (elim owner [ none ↦ true | some o ↦ f.owner == o ])
          && (elim f.target_type [ TargetType.desk ↦ true | TargetType.group ↦ false ]))
        office.flows

  -- The steps of the desk's own flow.
  unfoldable pub desk_nodes : Option ℕ → Text → List Node
  unfolding desk_flows
  desk_nodes owner key = elim (find (λ f. text_eq f.target key) (desk_flows owner)) [
    | none ↦ []
    | some f ↦ f.nodes
  ]

  -- `{item["key"] for item in self.list_extensions(owner) if item["active"]}`
  unfoldable pub active_keys : ℕ → List Text
  active_keys owner =
      map row_key
        (select (λ (r : ExtensionRow). r.active) (list_extensions office.directory (some owner)))

  unfoldable pub owner_keys : Option ℕ → List Text
  unfolding active_keys
  owner_keys none = []
  owner_keys (some owner) = active_keys owner

  -- `list_groups(owner)`
  unfoldable pub list_groups : ℕ → List Group
  list_groups owner = select (λ g. g.owner == owner) office.groups

  unfoldable pub extension_voicemail_enabled : Text → Bool
  extension_voicemail_enabled key = elim (extension_row office.directory key) [
    | none ↦ false
    | some r ↦ r.voicemail_enabled
  ]

  unfoldable pub voicemail_key : Text → Text → Option ℕ → Text
  voicemail_key number value owner =
      let v = strip value in
      let resolved = extension_key_for office.directory number v owner in
      if is_empty v || any (λ c. c == b'@') v || is_empty number || is_empty resolved
      then v
      else resolved

  -- The customer's choice, or the first active device.
  unfoldable pub pick_default : ℕ → Text → Text
  unfolding active_keys
  pick_default owner value =
      let v = strip value in
      let active = active_keys owner in
      let key = extension_key_for_digits office.directory v (some owner) in
      let first : Text = elim active [ [] ↦ [] | k ∷ ks ↦ k ] in
      if mem_text v active then v else if is_numeric v && mem_text key active then key else first

  -- `customer_call_defaults`: the outbound and the fallback extension.
  unfoldable pub customer_call_defaults : ℕ → Text × Text
  unfolding pick_default
  customer_call_defaults owner = elim (find (λ d. d.owner == owner) office.defaults) [
    | none ↦ (pick_default owner [], pick_default owner [])
    | some d ↦ (pick_default owner d.outbound, pick_default owner d.fallback)
  ]
