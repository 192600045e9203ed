-- ===== src/Claims/Voicemail/Delivered.antt =====
-- A message whose mail was accepted (`finish_voicemail_delivery` in app/admin.py).
use calling_integration.Prelude.{ℕ, false, List, Option, none, some, Text, text_eq, ◌≡◌, refl}
use calling_integration.Claims.{find_passes, find-updated}
use calling_integration.Claims.Voicemail.{
  MailStatus, Mail, Legacy, has_fingerprint, mail_row, claim_voicemail_delivery, sent,
  finish_voicemail_delivery, reset_attempts,
}
use calling_integration.Claims.Voicemail.Leases.{
  claim-row, finish-row, reset-row, claim-held, delivered-held,
}

-- What happens to the table, but that a further finish of the mail of `fp` reports an error.
pub data Step (fp : Text) : List Mail → List Mail → Type 0 where
  claimed :
      (now : ℕ) (other mailbox recipient : Text) (legacy : Option Legacy) (a : List Mail)
      → Step fp a (claim_voicemail_delivery now other mailbox recipient legacy a).1
  finished :
      (now : ℕ) (other : Text) (error : Option Text) (transcription : Text) (a : List Mail)
      → text_eq fp other ≡ false
      → Step fp a (finish_voicemail_delivery now other error transcription a)
  sent_again :
      (now : ℕ) (transcription : Text) (a : List Mail)
      → Step fp a (finish_voicemail_delivery now fp none transcription a)
  reset : (a : List Mail) → Step fp a (reset_attempts a)

pub data Steps (fp : Text) : List Mail → List Mail → Type 0 where
  start : (a : List Mail) → Steps fp a a
  next : (a b c : List Mail) → Steps fp a b → Step fp b c → Steps fp a c

abbrev IsDelivered : Text → List Mail → Type 0
IsDelivered fp mails = (m : Mail) × (mail_row fp mails ≡ some m) × (m.status ≡ MailStatus.delivered)

module _ (fp : Text) where
  -- The row of a message after a mail of it was accepted.
  finish-IsDelivered :
      (now : ℕ) (transcription : Text) (mails : List Mail) (m : Mail)
      → mail_row fp mails ≡ some m
      → IsDelivered fp (finish_voicemail_delivery now fp none transcription mails)
  unfolding finish_voicemail_delivery mail_row
  finish-IsDelivered now transcription mails m e =
      let f = sent now none transcription in
      (
        f m,
        find-updated (has_fingerprint fp) (has_fingerprint fp) f mails m (λ y. refl) e
            (find_passes (has_fingerprint fp) mails m e),
        refl,
      )

  Step-IsDelivered : {a b : List Mail} → Step fp a b → IsDelivered fp a → IsDelivered fp b
  Step-IsDelivered (Step.claimed now other mailbox recipient legacy a) (m, e, s) =
      (m, claim-row fp now other mailbox recipient legacy a m e (delivered-held now m s), s)
  Step-IsDelivered (Step.finished now other error transcription a t) (m, e, s) =
      (m, finish-row fp now other error transcription a m e t, s)
  Step-IsDelivered (Step.sent_again now transcription a) (m, e, s) =
      finish-IsDelivered now transcription a m e
  Step-IsDelivered (Step.reset a) (m, e, s) = (m, reset-row fp a m e (rw s refl), s)

  Steps-IsDelivered : {a b : List Mail} → Steps fp a b → IsDelivered fp a → IsDelivered fp b
  Steps-IsDelivered (Steps.start a) h = h
  Steps-IsDelivered (Steps.next a b c steps step) h =
      Step-IsDelivered step (Steps-IsDelivered steps h)

-- After a finish that reports that the mail was accepted, each further claim of the message fails,
-- at any time, unless a further finish of the message reports an error, as one of a notifier whose
-- lease ran out does. Claims of any message, finishes of other messages, further finishes of this
-- one without an error, and changes of the settings may come in between.
pub finish_voicemail_delivery-final :
    (fp : Text) (now later : ℕ) (transcription mailbox recipient : Text) (legacy : Option Legacy)
    (mails after : List Mail) (m : Mail)
    → mail_row fp mails ≡ some m
    → Steps fp (finish_voicemail_delivery now fp none transcription mails) after
    → (claim_voicemail_delivery later fp mailbox recipient legacy after).0 ≡ false
finish_voicemail_delivery-final fp now later transcription mailbox recipient legacy mails after m e
      steps =
    let (x, row, s) =
      Steps-IsDelivered fp steps (finish-IsDelivered fp now transcription mails m e) in
    claim-held fp later mailbox recipient legacy after x row (delivered-held later x s)
