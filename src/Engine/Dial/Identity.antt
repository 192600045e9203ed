-- ===== src/Engine/Dial/Identity.antt =====
-- The names of an extension that is on a line: what the engine rings, and where its voicemail is.
use calling_integration.Prelude.{
  false, ◌++◌, ◌&&◌, not, ◌≡◌, refl, inl, inr, codes, is_empty, IsIn, Bool-cases, digits_of,
}
use calling_integration.Naming.{
  extension_key, endpoint_name, channel_name, extension_mailbox, mailbox_name,
}
use calling_integration.Naming.Unique.{IsExtension, key_names}
use calling_integration.Directory.{ExtensionRow, row_key}
use calling_integration.Engine.Dial.{row_endpoints, pjsip}

plain-IsIn :
    (row : ExtensionRow) → IsIn (codes "PJSIP/" ++ endpoint_name (row_key row)) (row_endpoints row)
unfolding row_endpoints pjsip
plain-IsIn row =
    elim (Bool-cases (row.active && row.webrtc_enabled && not (is_empty row.sip_username))) [
      | inl u ↦ rw u (inr (inl refl))
      | inr u ↦ rw u (inl refl)
    ]

-- One identity stands for an extension on a line whose number has a digit: the endpoint of that
-- name is among those that the engine rings for the row, it is the channel that the client dials
-- when no endpoint is given, and it names the mailbox and the mailbox's folder.
pub one_identity :
    (row : ExtensionRow)
    → IsExtension row.digits row.number
    → is_empty (digits_of row.number) ≡ false
    → IsIn
        (codes "PJSIP/" ++ endpoint_name (extension_key row.digits row.number))
        (row_endpoints row)
      × (channel_name (extension_key row.digits row.number)
          ≡ codes "PJSIP/" ++ endpoint_name (extension_key row.digits row.number))
      × (extension_mailbox (extension_key row.digits row.number)
          ≡ endpoint_name (extension_key row.digits row.number))
      × (mailbox_name (extension_key row.digits row.number)
          ≡ extension_mailbox (extension_key row.digits row.number))
unfolding row_key
one_identity row x h =
    let names = key_names row.digits row.number x h in (plain-IsIn row, names.0, names.1, names.2)
