-- ===== src/Claims/Voicemail.antt =====
-- The mails of voicemail messages (`claim_voicemail_delivery`, `finish_voicemail_delivery` and the
-- reset of `save_email_config` in app/admin.py): a notifier mails a message only after its claim.
pub mod Leases
pub mod Delivered
use calling_integration.Prelude.{
  ℕ, ◌+◌, ◌*◌, ◌≤◌, ◌<◌, Bool, true, false, ◌&&◌, List, [], ◌∷◌, ◌++◌, Option, none, some, Text,
  text_eq, text_eq_iff, text_eq_refl, ◌≡◌, refl, inl, inr, find, ltb, leb, arith, Bool-cases,
  Option-cases, if◌then◌else◌, codes, All, All-append,
}
use calling_integration.Claims.{
  update, find-append, find-last, find_passes, find-update, find-updated,
}

pub data MailStatus : Type 0 where
  pending delivered failed : MailStatus

pub record Mail : Type 0 where
  pub fingerprint : Text
  pub mailbox : Text
  pub recipient : Text
  pub status : MailStatus
  pub attempts : ℕ
  pub last_error : Option Text
  pub transcription_status : Text
  pub delivered_at : Option ℕ
  pub updated_at : ℕ

abbrev pub is_delivered : MailStatus → Bool
is_delivered MailStatus.delivered = true
is_delivered _ = false

abbrev pub is_failed : MailStatus → Bool
is_failed MailStatus.failed = true
is_failed _ = false

-- The fingerprint of an earlier version, and when the message was received, in microseconds; none
-- if the text of the time is not read.
pub record Legacy : Type 0 where
  pub fingerprint : Text
  pub received : Option ℕ

abbrev pub has_fingerprint : Text → Mail → Bool
has_fingerprint fp m = text_eq m.fingerprint fp

unfoldable pub mail_row : Text → List Mail → Option Mail
mail_row fp mails = find (has_fingerprint fp) mails

abbrev pub accepted_at : Mail → ℕ
accepted_at m = elim m.delivered_at [ none ↦ m.updated_at | some t ↦ t ]

-- An accepted mail under the earlier fingerprint that is no older than the message.
unfoldable pub is_known : Option Legacy → List Mail → Bool
is_known none mails = false
is_known (some old) mails =
    elim (find (λ m. text_eq m.fingerprint old.fingerprint && is_delivered m.status) mails) [
      | none ↦ false
      | some m ↦ elim old.received [ none ↦ true | some t ↦ leb t (accepted_at m * 1000000) ]
    ]

-- `attempts<5 AND ((status='failed' AND updated_at<=retry_time) OR (status='pending' AND
-- updated_at<=stale_time))`
unfoldable pub is_claimable : ℕ → Mail → Bool
is_claimable now m = ltb m.attempts 5 && (elim m.status [
  | MailStatus.failed ↦ leb (m.updated_at + 60) now
  | MailStatus.pending ↦ leb (m.updated_at + 600) now
  | MailStatus.delivered ↦ false
])

abbrev pub is_claimed : ℕ → Text → Mail → Bool
is_claimed now fp m = has_fingerprint fp m && is_claimable now m

abbrev pub new_mail : ℕ → Text → Text → Text → Mail
new_mail now fp mailbox recipient = record {
  fingerprint = fp;
  mailbox = mailbox;
  recipient = recipient;
  status = MailStatus.pending;
  attempts = 1;
  last_error = none;
  transcription_status = codes "disabled";
  delivered_at = none;
  updated_at = now;
}

abbrev pub retried : ℕ → Text → Mail → Mail
retried now recipient m = record m {
  status = MailStatus.pending;
  recipient = recipient;
  attempts = m.attempts + 1;
  updated_at = now;
}

unfoldable pub claim_voicemail_delivery :
    ℕ → Text → Text → Text → Option Legacy → List Mail → Bool × List Mail
unfolding mail_row
claim_voicemail_delivery now fp mailbox recipient legacy mails =
    if is_known legacy mails then (false, mails) else (elim (mail_row fp mails) [
      | none ↦ (true, mails ++ new_mail now fp mailbox recipient ∷ [])
      | some m ↦
          if is_claimable now m
          then (true, update (is_claimed now fp) (retried now recipient) mails)
          else (false, mails)
    ])

abbrev pub sent : ℕ → Option Text → Text → Mail → Mail
sent now error transcription m = record m {
  status = elim error [ none ↦ MailStatus.delivered | some _ ↦ MailStatus.failed ];
  last_error = error;
  transcription_status = transcription;
  delivered_at = elim error [ none ↦ some now | some _ ↦ m.delivered_at ];
  updated_at = now;
}

-- `error` is none where the mail was accepted.
unfoldable pub finish_voicemail_delivery : ℕ → Text → Option Text → Text → List Mail → List Mail
finish_voicemail_delivery now fp error transcription mails =
    update (has_fingerprint fp) (sent now error transcription) mails

abbrev pub unspent : Mail → Mail
unspent m = record m { attempts = 0 }

-- New settings give the failed mails all their attempts again.
unfoldable pub reset_attempts : List Mail → List Mail
reset_attempts mails = update (λ m. is_failed m.status) unspent mails

-- What happens to the table before `limit`, but that the mail of `fp` is finished.
pub data Step (fp : Text) (limit : ℕ) : List Mail → List Mail → Type 0 where
  claimed :
      (now : ℕ) (other mailbox recipient : Text) (legacy : Option Legacy) (a : List Mail)
      → now < limit
      → Step fp limit a (claim_voicemail_delivery now other mailbox recipient legacy a).1
  finished :
      (now : ℕ) (other : Text) (error : Option Text) (transcription : Text) (a : List Mail)
      → text_eq fp other ≡ false
      → Step fp limit a (finish_voicemail_delivery now other error transcription a)
  reset : (a : List Mail) → Step fp limit a (reset_attempts a)

pub data Steps (fp : Text) (limit : ℕ) : List Mail → List Mail → Type 0 where
  start : (a : List Mail) → Steps fp limit a a
  next : (a b c : List Mail) → Steps fp limit a b → Step fp limit b c → Steps fp limit a c
