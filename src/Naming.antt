-- ===== src/Naming.antt =====
-- The names of an extension (app/admin.py, the functions above `SettingsStore`; the channel
-- name of app/asterisk_client.py; the mailbox folder of app/voicemail.py). The stored key is
-- `digits@number`; a PJSIP endpoint and a mailbox are `digits-number`, the number by its digits.
-- `str(value or "")` has no case here: a value is a text, and a missing one is the empty text.
pub mod Strip
pub mod Unique
use calling_integration.Prelude.{
  ℕ, Bool, List, [], ◌∷◌, ◌++◌, ◌&&◌, not, String, Text, codes, strip, before, after, has_char,
  digits_of, is_numeric, is_empty, if◌then◌else◌,
}

-- `text.split("@", 1)[0]`
unfoldable pub extension_digits : Text → Text
extension_digits value = before b'@' (strip value)

unfoldable pub extension_scope : Text → Text
extension_scope value = after b'@' (strip value)

unfoldable pub extension_key : Text → Text → Text
extension_key digits scope =
    let d = extension_digits digits in
    let s = strip scope in if is_empty s then d else d ++ b'@' ∷ s

unfoldable pub endpoint_name : Text → Text
endpoint_name value =
    let digits = extension_digits value in
    let scope = extension_scope value in
    if is_empty digits
    then value
    else if is_empty scope
    then digits
    else digits ++ b'-' ∷ digits_of scope

unfoldable pub browser_username : Text → Text
browser_username username =
    let text = strip username in if is_empty text then [] else text ++ codes "-webrtc"

unfoldable pub extension_mailbox : Text → Text
extension_mailbox key =
    let digits = extension_digits key in
    let scope = extension_scope key in
    if is_empty scope then digits else digits ++ b'-' ∷ digits_of scope

-- `endpoint_name` of app/asterisk_client.py: the channel that a leg rings by default.
unfoldable pub channel_name : Text → Text
channel_name extension =
    let text = strip extension in
    let digits = before b'@' text in
    let scope_digits = digits_of (after b'@' text) in
    if is_numeric digits && not (is_empty scope_digits)
    then codes "PJSIP/" ++ digits ++ b'-' ∷ scope_digits
    else codes "PJSIP/" ++ (if is_empty digits then text else digits)

-- `mailbox_name` of app/voicemail.py: the folder of a mailbox.
unfoldable pub mailbox_name : Text → Text
mailbox_name mailbox =
    let text = strip mailbox in
    let digits = before b'@' text in
    let scope = after b'@' text in
    let head = before b'-' text in
    if not (is_empty scope)
    then if is_numeric digits && not (is_empty (digits_of scope))
      then digits ++ b'-' ∷ digits_of scope
      else text
    else if has_char b'-' text && is_numeric head
    then head ++ b'-' ∷ digits_of (after b'-' text)
    else text
