-- ===== src/Scenarios/Journeys.antt =====
-- A number with a journey: two desks that ring together, a mailbox, and a menu.
use calling_integration.Prelude.{
  refl, true, false, [], ◌∷◌, none, some, Text, codes, All, strip, lstrip, is_space, text_eq,
}
use calling_integration.Directory.{list_numbers}
use calling_integration.Directory.{NumberRow, extension_row}
use calling_integration.Directory.Outbound.{
  IsNumbered, IsOwnLine, IsOnly, set_default_outbound_number, marked, marked_all,
  set_default_outbound_number-IsOnly,
}
use calling_integration.Prelude.{
  ◌≡◌, refl, sym, ◌∙◌, inl, inr, text_eq, before, after, strip, lstrip, is_space, codes,
}
use calling_integration.Naming.{extension_digits, extension_scope}
use calling_integration.Scenarios.{desk, line}
use calling_integration.Directory.Numbering.{
  IsLowestFree, next_extension_number, next_extension_number-IsLowest,
}
use calling_integration.Journey.Nodes.{Kind, Node, CallRoute, Office, Moment, list_call_routes}
use calling_integration.Journey.Planner.{inbound_plan, number_flow, number_row}
use calling_integration.Journey.Owned.{IsOwnedPlan, inbound_plan-IsOwnedPlan}
use calling_integration.Journey.Limits.{IsLimited, inbound_plan-IsLimited}

abbrev desk_key : Text
desk_key = codes "101@+15550100"

abbrev step : Node
step = record {
  kind = Kind.extension;
  enabled = true;
  ring_enabled = true;
  extensions = none;
  group_id = [];
  extension = desk_key;
  mailbox = [];
  phone = [];
  timeout = some 600;
  days = [];
  start = [];
  finish = [];
  prompt = [];
  voice = [];
  input_timeout = none;
  attempts = none;
  fallback = [];
  keys = (codes "1", desk_key) ∷ [];
  no_answer = none;
}

-- A desk that may ring for ten minutes, a foreign desk, a mailbox, and a menu.
abbrev journey : CallRoute
journey = record {
  owner = 7;
  phone_number = codes "+15550100";
  active = true;
  nodes =
      step
      ∷ record step { extension = codes "102@+15550199" }
      ∷ record step { kind = Kind.voicemail; mailbox = desk_key }
      ∷ record step { kind = Kind.ivr }
      ∷ [];
}

abbrev shop : Office
shop = record {
  directory = record {
    extensions =
        record {
          digits = codes "101";
          number = codes "+15550100";
          sip_username = codes "desk";
          webrtc_enabled = false;
          recording_enabled = true;
          voicemail_enabled = true;
          active = true;
          owner = some 7;
        }
        ∷ [];
    numbers =
        record {
          id = 1;
          number = codes "+15550100";
          provider = codes "trunk";
          inbound_extension = desk_key;
          default_outbound = true;
          active = true;
          owner = some 7;
        }
        ∷ [];
  };
  routes = journey ∷ [];
  flows = [];
  groups = [];
  defaults = [];
}

abbrev monday : Moment
monday = record { weekday = 1; clock = codes "10:00" }

inbound_plan-IsOwnedPlan_example :
    IsOwnedPlan shop (some 7) (inbound_plan shop monday (codes "+15550100") [])
unfolding number_flow number_row list_call_routes list_numbers codes text_eq strip lstrip is_space
inbound_plan-IsOwnedPlan_example =
    inbound_plan-IsOwnedPlan shop monday (codes "+15550100") [] 7 journey refl

inbound_plan-IsLimited_example :
    All IsLimited (inbound_plan shop monday (codes "+15550100") []).timeouts
inbound_plan-IsLimited_example = inbound_plan-IsLimited shop monday (codes "+15550100") []

next_extension_number-IsLowest_example :
    IsLowestFree shop.directory
      (codes "+15550100")
      (next_extension_number shop.directory (codes "+15550100"))
unfolding strip lstrip is_space codes
next_extension_number-IsLowest_example =
    next_extension_number-IsLowest shop.directory (codes "+15550100") refl

desk_found : extension_row shop.directory desk_key ≡ some desk
unfolding extension_row extension_digits before strip codes is_space extension_scope after text_eq
desk_found = refl

line_set :
    set_default_outbound_number desk_key (codes "+15550100") shop.directory ≡ some (line ∷ [])
unfolding set_default_outbound_number marked_all marked extension_row extension_digits before strip
    codes is_space extension_scope after text_eq
line_set = refl

shop-IsNumbered : IsNumbered shop.directory
shop-IsNumbered a b (inl e) (inl f) h = e ∙ sym f
shop-IsNumbered a b (inr m) f h = elim m [ ]
shop-IsNumbered a b (inl e) (inr m) h = elim m [ ]

set_default_outbound_number-IsOnly_example :
    (target : NumberRow) × IsOwnLine (codes "+15550100") shop.directory desk target
    × IsOnly (codes "+15550100") shop.directory.numbers desk.owner target (line ∷ [])
set_default_outbound_number-IsOnly_example =
    set_default_outbound_number-IsOnly desk_key (codes "+15550100") shop.directory desk (line ∷ [])
      shop-IsNumbered desk_found line_set
