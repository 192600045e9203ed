-- ===== src/Claims/Voicemail/Leases.antt =====
-- What a claim of a voicemail mail means for the claims after it.
use calling_integration.Prelude.{
  ℕ, ◌+◌, ◌≤◌, ◌<◌, Bool, true, false, ◌&&◌, List, [], ◌∷◌, Option, some, Text, text_eq,
  text_eq_iff, text_eq_refl, ◌≡◌, refl, inl, inr, find, arith, Bool-cases, Option-cases, All,
  All-append,
}
use calling_integration.Claims.{
  update, find-append, find-last, find_passes, find-update, find-updated,
}
use calling_integration.Claims.Voicemail.{
  MailStatus, Mail, is_failed, Legacy, has_fingerprint, mail_row, is_known, is_claimable,
  is_claimed, new_mail, retried, claim_voicemail_delivery, sent, finish_voicemail_delivery, unspent,
  reset_attempts, Step, Steps,
}

abbrev pub IsWithin : Mail → Type 0
IsWithin m = m.attempts ≤ 5

update-All :
    (P : Mail → Type 0) (q : Mail → Bool) (f : Mail → Mail) (mails : List Mail)
    → ((m : Mail) → q m ≡ true → P m → P (f m))
    → All P mails
    → All P (update q f mails)
unfolding update
update-All P q f [] h a = tt
update-All P q f (m ∷ mails) h a =
    let rest = update-All P q f mails h a.1 in
    elim (Bool-cases (q m)) [ inl u ↦ rw u (h m u a.0, rest) | inr u ↦ rw u (a.0, rest) ]

module _ (fp : Text) where
  pub claim-row :
      (now : ℕ) (other mailbox recipient : Text) (legacy : Option Legacy) (mails : List Mail)
      (m : Mail)
      → mail_row fp mails ≡ some m
      → is_claimable now m ≡ false
      → mail_row fp (claim_voicemail_delivery now other mailbox recipient legacy mails).1 ≡ some m
  unfolding claim_voicemail_delivery mail_row
  claim-row now other mailbox recipient legacy mails m e held =
      let grown =
        find-append (has_fingerprint fp) mails (new_mail now other mailbox recipient) m e in
      elim (Bool-cases (is_known legacy mails)) [
        | inl u ↦ rw (u, claim_voicemail_delivery) e
        | inr u ↦ elim (Option-cases (find (has_fingerprint other) mails)) [
          | inl v ↦ rw (u, v, claim_voicemail_delivery) grown
          | inr (x, v) ↦ elim (Bool-cases (is_claimable now x)) [
            | inr w ↦ rw (u, v, w, claim_voicemail_delivery) e
            | inl w ↦
                rw (u, v, w, claim_voicemail_delivery)
                  (find-update (has_fingerprint fp) (is_claimed now other) (retried now recipient)
                    mails m (λ y. refl) e
                    (not_both (has_fingerprint other m) (is_claimable now m) held))
          ]
        ]
      ]
    where
      not_both : (a b : Bool) → b ≡ false → (a && b) ≡ false
      not_both a b q = ground arith

  pub finish-row :
      (now : ℕ) (other : Text) (error : Option Text) (transcription : Text) (mails : List Mail)
      (m : Mail)
      → mail_row fp mails ≡ some m
      → text_eq fp other ≡ false
      → mail_row fp (finish_voicemail_delivery now other error transcription mails) ≡ some m
  unfolding finish_voicemail_delivery mail_row
  finish-row now other error transcription mails m e n =
      let p = (text_eq_iff m.fingerprint fp).0 (find_passes (has_fingerprint fp) mails m e) in
      find-update (has_fingerprint fp) (has_fingerprint other) (sent now error transcription) mails
        m (λ y. refl) e (rw p n)

  pub reset-row :
      (mails : List Mail) (m : Mail)
      → mail_row fp mails ≡ some m
      → is_failed m.status ≡ false
      → mail_row fp (reset_attempts mails) ≡ some m
  unfolding reset_attempts mail_row
  reset-row mails m e n =
      find-update (has_fingerprint fp) (λ x. is_failed x.status) unspent mails m (λ y. refl) e n

  Steps-row :
      {limit : ℕ} {a b : List Mail} (m : Mail)
      → ((now : ℕ) → now < limit → is_claimable now m ≡ false)
      → is_failed m.status ≡ false
      → Steps fp limit a b
      → mail_row fp a ≡ some m
      → mail_row fp b ≡ some m
  Steps-row m held sound (Steps.start a) e = e
  Steps-row {limit} m held sound (Steps.next a b c steps step) e =
      kept step (Steps-row m held sound steps e)
    where
      kept : {x y : List Mail} → Step fp limit x y → mail_row fp x ≡ some m → mail_row fp y ≡ some m
      kept (Step.claimed now other mailbox recipient legacy a t) q =
          claim-row now other mailbox recipient legacy a m q (held now t)
      kept (Step.finished now other error transcription a t) q =
          finish-row now other error transcription a m q t
      kept (Step.reset a) q = reset-row a m q sound

  -- A row that is not claimable is not claimed.
  pub claim-held :
      (now : ℕ) (mailbox recipient : Text) (legacy : Option Legacy) (mails : List Mail) (m : Mail)
      → mail_row fp mails ≡ some m
      → is_claimable now m ≡ false
      → (claim_voicemail_delivery now fp mailbox recipient legacy mails).0 ≡ false
  unfolding claim_voicemail_delivery mail_row
  claim-held now mailbox recipient legacy mails m e held =
      elim (Bool-cases (is_known legacy mails)) [
        | inl u ↦ rw (u, claim_voicemail_delivery) refl
        | inr u ↦ rw (u, e, held, claim_voicemail_delivery) refl
      ]

  -- The row of a claim that succeeded: pending since then.
  claim-pending :
      (now : ℕ) (mailbox recipient : Text) (legacy : Option Legacy) (mails : List Mail)
      → (claim_voicemail_delivery now fp mailbox recipient legacy mails).0 ≡ true
      → (m : Mail) × (mail_row fp (claim_voicemail_delivery now fp mailbox recipient legacy mails).1
          ≡ some m)
        × (m.status ≡ MailStatus.pending)
        × (m.updated_at ≡ now)
  unfolding claim_voicemail_delivery mail_row
  claim-pending now mailbox recipient legacy mails e = elim (Bool-cases (is_known legacy mails)) [
    | inl u ↦ refused (rw (u, claim_voicemail_delivery) at e)
    | inr u ↦ elim (Option-cases (find (has_fingerprint fp) mails)) [
      | inl v ↦ (
        new_mail now fp mailbox recipient,
        rw (u, v, claim_voicemail_delivery)
            (find-last (has_fingerprint fp) mails (new_mail now fp mailbox recipient) v
              (text_eq_refl fp)),
        refl,
        refl,
      )
      | inr (x, v) ↦ elim (Bool-cases (is_claimable now x)) [
        | inr w ↦ refused (rw (u, v, w, claim_voicemail_delivery) at e)
        | inl w ↦ (
          retried now recipient x,
          rw (u, v, w, claim_voicemail_delivery)
              (find-updated (has_fingerprint fp) (is_claimed now fp) (retried now recipient) mails x
                (λ y. refl) v (both (find_passes (has_fingerprint fp) mails x v) w)),
          refl,
          refl,
        )
      ]
    ]
  ]
    where
      refused : {B : Type 0} → false ≡ true → B
      refused q = cc

      both : {a b : Bool} → a ≡ true → b ≡ true → (a && b) ≡ true
      both p q = ground arith

pending-held :
    (now later : ℕ) (m : Mail)
    → m.status ≡ MailStatus.pending
    → m.updated_at ≡ now
    → later < now + 600
    → is_claimable later m ≡ false
unfolding is_claimable
pending-held now later m s t h = rw (s, t) (ground arith)

-- A row that is delivered is not claimable.
pub delivered-held :
    (now : ℕ) (m : Mail) → m.status ≡ MailStatus.delivered → is_claimable now m ≡ false
unfolding is_claimable
delivered-held now m s = rw s (ground arith)

-- A claim is a lease of ten minutes: a message that one notifier has claimed is claimed by no
-- other before they are over, unless it is finished, whatever happens to other messages and
-- whether the settings are saved.
pub claim_voicemail_delivery-exclusive :
    (fp : Text) (now later : ℕ) (mailbox recipient mailbox' recipient' : Text)
    (legacy legacy' : Option Legacy) (mails after : List Mail)
    → (claim_voicemail_delivery now fp mailbox recipient legacy mails).0 ≡ true
    → Steps fp (now + 600) (claim_voicemail_delivery now fp mailbox recipient legacy mails).1 after
    → later < now + 600
    → (claim_voicemail_delivery later fp mailbox' recipient' legacy' after).0 ≡ false
claim_voicemail_delivery-exclusive fp now later mailbox recipient mailbox' recipient' legacy legacy'
      mails after e steps h =
    let (m, row, s, t) = claim-pending fp now mailbox recipient legacy mails e in
    let kept = Steps-row fp m (λ n q. pending-held now n m s t q) (rw s refl) steps row in
    claim-held fp later mailbox' recipient' legacy' after m kept (pending-held now later m s t h)

claimed-IsWithin :
    (now : ℕ) (fp recipient : Text) (m : Mail)
    → is_claimed now fp m ≡ true
    → IsWithin (retried now recipient m)
unfolding is_claimable
claimed-IsWithin now fp recipient m q = ground arith

claim-IsWithin :
    (now : ℕ) (fp mailbox recipient : Text) (legacy : Option Legacy) (mails : List Mail)
    → All IsWithin mails
    → All IsWithin (claim_voicemail_delivery now fp mailbox recipient legacy mails).1
unfolding claim_voicemail_delivery mail_row
claim-IsWithin now fp mailbox recipient legacy mails h = elim (Bool-cases (is_known legacy mails)) [
  | inl u ↦ rw (u, claim_voicemail_delivery) h
  | inr u ↦ elim (Option-cases (find (has_fingerprint fp) mails)) [
    | inl v ↦
        rw (u, v, claim_voicemail_delivery)
          (All-append IsWithin mails (new_mail now fp mailbox recipient ∷ []) h (omega arith, tt))
    | inr (x, v) ↦ elim (Bool-cases (is_claimable now x)) [
      | inr w ↦ rw (u, v, w, claim_voicemail_delivery) h
      | inl w ↦
          rw (u, v, w, claim_voicemail_delivery)
            (update-All IsWithin (is_claimed now fp) (retried now recipient) mails
              (λ m q r. claimed-IsWithin now fp recipient m q) h)
    ]
  ]
]

-- No mail is attempted more than five times after a change of the settings: a claim, a finish and
-- a reset keep that every row has at most five attempts.
pub voicemail_deliveries-IsWithin :
    (now : ℕ) (fp mailbox recipient transcription : Text) (legacy : Option Legacy)
    (error : Option Text) (mails : List Mail)
    → All IsWithin mails
    → All IsWithin (claim_voicemail_delivery now fp mailbox recipient legacy mails).1
      × All IsWithin (finish_voicemail_delivery now fp error transcription mails)
      × All IsWithin (reset_attempts mails)
unfolding finish_voicemail_delivery reset_attempts
voicemail_deliveries-IsWithin now fp mailbox recipient transcription legacy error mails h = (
  claim-IsWithin now fp mailbox recipient legacy mails h,
  update-All IsWithin (has_fingerprint fp) (sent now error transcription) mails (λ m q r. r) h,
  update-All IsWithin (λ m. is_failed m.status) unspent mails (λ m q r. omega arith) h,
)
