-- ===== src/Scenarios/Requests.antt =====
-- Requests of the API under one key, and the mails of one voicemail message.
use calling_integration.Prelude.{
  ◌≡◌, refl, false, List, [], ◌∷◌, none, some, Text, codes, arith, All, text_eq,
}
use calling_integration.Claims.Idempotency.{
  Request, claim_idempotency, finish_idempotency, request_row, claim_idempotency-exclusive,
  finish_idempotency-replayed,
}
use calling_integration.Claims.Idempotency
use calling_integration.Claims.Voicemail.{
  Mail, MailStatus, claim_voicemail_delivery, finish_voicemail_delivery, reset_attempts, mail_row,
  is_known, is_claimable, new_mail,
}
use calling_integration.Claims.Voicemail.Leases.{
  IsWithin, claim_voicemail_delivery-exclusive, voicemail_deliveries-IsWithin,
}
use calling_integration.Claims.Voicemail.Delivered.{finish_voicemail_delivery-final}
use calling_integration.Claims.Voicemail.Delivered
use calling_integration.Claims.Voicemail

abbrev crm : Text
crm = codes "key:1"

abbrev order : Text
order = codes "order-0001"

abbrev claimed_rows : List Request
claimed_rows = (claim_idempotency 0 crm order []).1

claim_idempotency-exclusive_example :
    (claim_idempotency 100 crm order (claim_idempotency 50 crm order claimed_rows).1).0
    ≡ (false, none)
unfolding claim_idempotency request_row
claim_idempotency-exclusive_example =
    claim_idempotency-exclusive crm order 0 100 [] (claim_idempotency 50 crm order claimed_rows).1
      refl
      (Idempotency.Steps.next _ _ _ (Idempotency.Steps.start claimed_rows)
        (Idempotency.Step.claimed 50 crm order claimed_rows (omega arith)))
      (omega arith)

finish_idempotency-replayed_example :
    (claim_idempotency 100 crm order
      (finish_idempotency crm order (some (codes "call-1")) claimed_rows)).0
    ≡ (false, some (codes "call-1"))
unfolding claim_idempotency request_row codes
finish_idempotency-replayed_example =
    finish_idempotency-replayed crm order 0 100 (codes "call-1") [] claimed_rows
      (finish_idempotency crm order (some (codes "call-1")) claimed_rows) refl refl
      (Idempotency.Steps.start claimed_rows)
      (Idempotency.Steps.start (finish_idempotency crm order (some (codes "call-1")) claimed_rows))
      (omega arith)

abbrev message : Text
message = codes "f1"

abbrev box : Text
box = codes "101"

abbrev address : Text
address = codes "desk@office"

abbrev mailed : List Mail
mailed = (claim_voicemail_delivery 0 message box address none []).1

claim_voicemail_delivery-exclusive_example :
    (claim_voicemail_delivery 599 message box address none (reset_attempts mailed)).0 ≡ false
unfolding claim_voicemail_delivery mail_row is_known
claim_voicemail_delivery-exclusive_example =
    claim_voicemail_delivery-exclusive message 0 599 box address box address none none []
      (reset_attempts mailed) refl
      (Voicemail.Steps.next _ _ _ (Voicemail.Steps.start mailed) (Voicemail.Step.reset mailed))
      (omega arith)

abbrev delivered_mails : List Mail
delivered_mails =
    finish_voicemail_delivery 3 message none (codes "disabled")
      (new_mail 0 message box address ∷ [])

finish_voicemail_delivery-final_example :
    (claim_voicemail_delivery 90000 message box address none
      (finish_voicemail_delivery 700 message none (codes "disabled") delivered_mails)).0
    ≡ false
unfolding mail_row text_eq codes
finish_voicemail_delivery-final_example =
    finish_voicemail_delivery-final message 3 90000 (codes "disabled") box address none
      (new_mail 0 message box address ∷ [])
      (finish_voicemail_delivery 700 message none (codes "disabled") delivered_mails)
      (new_mail 0 message box address) refl
      (Delivered.Steps.next _ _ _ (Delivered.Steps.start delivered_mails)
        (Delivered.Step.sent_again 700 (codes "disabled") delivered_mails))

voicemail_deliveries-IsWithin_example :
    All IsWithin
      (claim_voicemail_delivery 700 message box address none
        (new_mail 0 message box address ∷ [])).1
    × All IsWithin (
        finish_voicemail_delivery 700 message
          (some (codes "HTTP 500"))
          (codes "disabled")
          (new_mail 0 message box address ∷ []))
    × All IsWithin (reset_attempts (new_mail 0 message box address ∷ []))
voicemail_deliveries-IsWithin_example =
    voicemail_deliveries-IsWithin 700 message box address (codes "disabled") none
      (some (codes "HTTP 500")) (new_mail 0 message box address ∷ []) (omega arith, tt)
