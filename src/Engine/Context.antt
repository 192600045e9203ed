-- ===== src/Engine/Context.antt =====
-- What the engine is given: the settings that it reads, and the answers of the outside. An answer
-- may depend on `turn`, so that the same request can succeed at one time and fail at another.
use calling_integration.Prelude.{
  ℕ, Bool, List, Option, none, some, Text, suc, lookup, codes, lower, strip, mem_text, ◌∷◌, [],
  text_or_empty, String,
}
use calling_integration.Directory.{Directory}
use calling_integration.Calls.{Stamp}
use calling_integration.Engine.Plan.{Plan, Webhook, Act, Channel, Stored}
use calling_integration.Engine.World.{M, ok}

-- How a request to Asterisk ends: it is carried out, it is refused by an HTTP status (which the
-- client turns into `AsteriskError`), or `requests` raises because Asterisk is not reached.
pub data Reply : Type 0 where
  carried_out refused unreachable : Reply

pub record Ctx : Type 0 where
  pub directory : Directory
  pub inbound_plan : ℕ → Text → Text → Plan
  pub apply_desk_handling : Plan → List Text → Text → Option ℕ → Plan
  pub number_flow_anchor : Text → Text
  pub customer_fallback : ℕ → Text
  pub provider : Text → Option Text
  pub provider_digest : Text → Text
  pub webhooks : List Webhook
  pub crm_webhook_url : Text
  pub settings : List (Text × Text)
  pub ari_ready : ℕ → Bool
  pub reply : ℕ → Act → Reply
  pub channels : ℕ → Option (List Channel)
  pub stored_recording : ℕ → Text → Option (Option Stored)
  pub recording_path : Text
  pub now : ℕ → ℕ
  pub monotonic : ℕ → ℕ
  pub new_id : ℕ → Text

-- One question to the outside.
unfoldable pub ask : {A : Type 0} → (ℕ → A) → M A
ask f w = (ok (f w.turn), record w { turn = suc w.turn })

abbrev text_or_default : Option Text → Text → Text
text_or_default none d = d
text_or_default (some s) d = s

truth : Bool → Option Text → Bool
truth default none = default
truth default (some s) =
    mem_text (lower s) (codes "1" ∷ codes "true" ∷ codes "yes" ∷ codes "on" ∷ [])

module _ ⦃ctx : Ctx⦄ where
  -- `iso_now`: microseconds, with the time zone.
  unfoldable pub iso_now : M Stamp
  unfolding ask
  iso_now = ask (λ t. Stamp.aware (ctx.now t))

  unfoldable pub setting : String → Text → Text
  setting key default = text_or_default (lookup (codes key) ctx.settings) default

  -- `_bool_setting`
  unfoldable pub bool_setting : String → Bool → Bool
  unfolding truth
  bool_setting key default = truth default (lookup (codes key) ctx.settings)

  -- `recording_platform_enabled` of app/admin.py
  unfoldable pub recording_platform_enabled : Bool
  recording_platform_enabled =
      let value = lower (strip (text_or_empty (lookup (codes "recording_enabled") ctx.settings))) in
      mem_text value (codes "true" ∷ codes "1" ∷ codes "yes" ∷ codes "on" ∷ [])
