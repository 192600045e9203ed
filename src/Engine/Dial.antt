-- ===== src/Engine/Dial.antt =====
-- What an extension rings on, the carrier trunk, and whether a call is recorded
-- (`dial_endpoints`, `_provider_endpoint`, `_recording_settings`).
pub mod Identity
use calling_integration.Prelude.{
  ℕ, Bool, false, List, [], ◌∷◌, ◌++◌, ◌&&◌, not, Option, none, some, Text, is_empty, if◌then◌else◌,
  codes, mem_text, select, only, find, text_eq, strip, lower, is_numeric, max, or_else, length, ltb,
  ◌+◌, ◌*◌, ◌-◌, starts_with, drop,
}
use calling_integration.Naming.{extension_digits, extension_scope, endpoint_name, browser_username}
use calling_integration.Directory.{
  ExtensionRow, extension_row, resolve_extension, list_extensions, row_key,
}
use calling_integration.Engine.World.{M, Error, pure, raise}
use calling_integration.Engine.Context.{Ctx, setting, bool_setting, recording_platform_enabled}

pjsip : Text → Text
pjsip name = codes "PJSIP/" ++ name

-- The endpoints of a row that was found: the browser's first, where the row has one.
unfoldable pub row_endpoints : ExtensionRow → List Text
unfolding pjsip
row_endpoints row =
    let plain = pjsip (endpoint_name (row_key row)) in
    if row.active && row.webrtc_enabled && not (is_empty row.sip_username)
    then pjsip (browser_username row.sip_username) ∷ plain ∷ []
    else plain ∷ []

-- The value of decimal digits.
decimal_value : ℕ → Text → ℕ
decimal_value acc [] = acc
decimal_value acc (c ∷ s) = decimal_value (acc * 10 + (c - 48)) s

-- `max(least, int(text))`, or the default where `int` raises. `int` is read on an optional sign
-- and ASCII digits.
unfoldable pub int_at_least : ℕ → ℕ → Text → ℕ
unfolding decimal_value
int_at_least least default text =
    let s = strip text in
    if is_numeric s
    then max least (decimal_value 0 s)
    else if starts_with s (b'+' ∷ []) && is_numeric (drop 1 s)
    then max least (decimal_value 0 (drop 1 s))
    else if starts_with s (b'-' ∷ []) && is_numeric (drop 1 s)
    then least
    else default

pub record RecordingSettings : Type 0 where
  pub enabled : Bool
  pub platform_enabled : Bool
  pub extension_enabled : Bool
  pub format : Text
  pub beep : Bool
  pub announcement : Bool
  pub announcement_media : Text
  pub retention_days : ℕ
  pub max_duration : ℕ

module _ ⦃ctx : Ctx⦄ where
  -- The digits are read without a number only while one row carries them, or one has no number.
  unfoldable pub digits_row : Text → Option ExtensionRow
  digits_row digits =
      let carriers =
        select (λ r. text_eq (extension_digits (row_key r)) digits)
          (list_extensions ctx.directory none) in
      only (
        if ltb 1 (length carriers)
        then select (λ (r : ExtensionRow). is_empty r.number) carriers
        else carriers)

  unfoldable pub dialled_row : Text → Text → Option ExtensionRow
  unfolding digits_row
  dialled_row extension number =
      let digits = extension_digits extension in
      let exact =
        if is_empty (extension_scope extension)
        then none
        else extension_row ctx.directory extension in
      or_else exact (
        if is_empty number
        then digits_row digits
        else resolve_extension ctx.directory number digits none)

  unfoldable pub dial_endpoints : Text → Text → List Text
  unfolding dialled_row pjsip
  dial_endpoints extension number =
      if is_empty (extension_digits extension) then [] else elim (dialled_row extension number) [
        | none ↦ pjsip (endpoint_name extension) ∷ []
        | some row ↦ row_endpoints row
      ]

  unfoldable pub provider_endpoint : Text → M (Text × Text)
  provider_endpoint name = elim (ctx.provider name) [
    | none ↦ raise (Error.runtime_error (codes "No active SIP provider is configured"))
    | some provider ↦ pure (codes "provider-" ++ ctx.provider_digest provider, provider)
  ]

  -- The row whose switch decides: by key, or by digits that one row carries.
  unfoldable pub recorded_row : Text → Option ExtensionRow
  recorded_row extension =
      let rows = list_extensions ctx.directory none in
      or_else (extension_row ctx.directory extension) (
        if is_empty (extension_scope extension)
        then only
            (select (λ r. text_eq (extension_digits (row_key r)) (extension_digits extension)) rows)
        else find (λ r. text_eq (row_key r) extension) rows)

  unfoldable pub extension_records : Text → Bool
  unfolding recorded_row
  extension_records extension = elim (recorded_row extension) [
    | none ↦ false
    | some row ↦ not (is_empty extension) && row.active && row.recording_enabled
  ]

  unfoldable pub recording_settings : Text → RecordingSettings
  unfolding extension_records
  recording_settings extension =
      let format = strip (lower (setting "recording_format" (codes "wav"))) in
      let known = codes "wav" ∷ codes "wav49" ∷ codes "gsm" ∷ codes "slin16" ∷ [] in
      record {
        enabled = extension_records extension && recording_platform_enabled;
        platform_enabled = recording_platform_enabled;
        extension_enabled = extension_records extension;
        format = if mem_text format known then format else codes "wav";
        beep = bool_setting "recording_beep" false;
        announcement = bool_setting "recording_announcement" false;
        announcement_media = strip (setting "recording_announcement_media" []);
        retention_days = int_at_least 1 90 (setting "recording_retention_days" (codes "90"));
        max_duration = int_at_least 0 0 (setting "recording_max_duration_seconds" (codes "0"));
      }
