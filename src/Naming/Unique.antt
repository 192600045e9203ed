-- ===== src/Naming/Unique.antt =====
-- Which extension a name stands for.
use calling_integration.Prelude.{
  ◌≡◌, refl, true, false, ◌∷◌, ◌++◌, Text, strip, before, after, has_char, digits_of, is_numeric,
  is_empty, arith, sym, ap, ◌∙◌, is_space, before-append, after-append, before_self, codes,
  is_digit,
}
use calling_integration.Naming.{
  extension_digits, extension_scope, extension_key, endpoint_name, extension_mailbox, channel_name,
  mailbox_name,
}
use calling_integration.Naming.Strip.{
  has_space, has_space-append, strip-plain, digits_no_space, digits_no_char, numeric_parts,
}

-- What a line's extension is made of: the digits that a person dials, and the number's text.
pub record IsExtension (digits number : Text) : Type 0 where
  pub numeric : is_numeric digits ≡ true
  pub named : is_empty number ≡ false
  pub unspaced : has_space number ≡ false

module _ (d n : Text) (x : IsExtension d n) where
  key_shape : extension_key d n ≡ d ++ b'@' ∷ n
  unfolding extension_key extension_digits
  key_shape =
      let plain = numeric_parts d x.numeric in
      rw (strip-plain d (digits_no_space d plain.0)) (
        rw (before_self b'@' d (digits_no_char b'@' d (unfold is_digit in refl) plain.0))
          (rw (strip-plain n x.unspaced) (ground arith)))

  key_strip : strip (extension_key d n) ≡ d ++ b'@' ∷ n
  key_strip = rw key_shape (
      strip-plain _ (
        rw (has_space-append d (b'@' ∷ n))
          (rw (digits_no_space d (numeric_parts d x.numeric).0) (unfold is_space in x.unspaced))))

  no_at : has_char b'@' d ≡ false
  no_at = digits_no_char b'@' d (unfold is_digit in refl) (numeric_parts d x.numeric).0

  digits-key : extension_digits (extension_key d n) ≡ d
  unfolding extension_digits
  digits-key = rw key_strip (before-append b'@' d n no_at)

  scope-key : extension_scope (extension_key d n) ≡ n
  unfolding extension_scope
  scope-key = rw key_strip (after-append b'@' d n no_at)

  -- The stored key gives back the digits and the number that it was made of.
  pub extension_key-parts :
      (extension_digits (extension_key d n) ≡ d) × (extension_scope (extension_key d n) ≡ n)
  extension_key-parts = (digits-key, scope-key)

  pub endpoint_shape : endpoint_name (extension_key d n) ≡ d ++ b'-' ∷ digits_of n
  unfolding endpoint_name
  endpoint_shape = rw (digits-key, scope-key) (ground (arith, numeric_parts d x.numeric, x.named))

  mailbox_shape : extension_mailbox (extension_key d n) ≡ d ++ b'-' ∷ digits_of n
  unfolding extension_mailbox
  mailbox_shape = rw (digits-key, scope-key) (ground (arith, x.named))

  -- The three names of a stored key, if the number has a digit.
  pub key_names :
      is_empty (digits_of n) ≡ false
      → (channel_name (extension_key d n) ≡ codes "PJSIP/" ++ endpoint_name (extension_key d n))
        × (extension_mailbox (extension_key d n) ≡ endpoint_name (extension_key d n))
        × (mailbox_name (extension_key d n) ≡ extension_mailbox (extension_key d n))
  unfolding channel_name mailbox_name codes
  key_names h = (
    rw key_strip (
        rw (before-append b'@' d n no_at, after-append b'@' d n no_at, endpoint_shape)
          (rw (x.numeric, h))),
    mailbox_shape ∙ sym endpoint_shape,
    rw (key_strip, mailbox_shape)
        (rw (before-append b'@' d n no_at, after-append b'@' d n no_at)
          (rw (x.named, x.numeric, h))),
  )

no_dash : (d n : Text) → IsExtension d n → has_char b'-' d ≡ false
no_dash d n x = digits_no_char b'-' d (unfold is_digit in refl) (numeric_parts d x.numeric).0

-- Two extensions with one endpoint name have the same digits, and numbers with the same digits:
-- no two lines' extensions share an endpoint.
pub endpoint_name_unique :
    (d n e m : Text)
    → IsExtension d n
    → IsExtension e m
    → endpoint_name (extension_key d n) ≡ endpoint_name (extension_key e m)
    → (d ≡ e) × (digits_of n ≡ digits_of m)
endpoint_name_unique d n e m x y h =
    let same : d ++ b'-' ∷ digits_of n ≡ e ++ b'-' ∷ digits_of m =
      sym (endpoint_shape d n x) ∙ (h ∙ endpoint_shape e m y) in
    (
      sym (before-append b'-' d (digits_of n) (no_dash d n x))
          ∙ (ap (before b'-') same ∙ before-append b'-' e (digits_of m) (no_dash e m y)),
      sym (after-append b'-' d (digits_of n) (no_dash d n x))
          ∙ (ap (after b'-') same ∙ after-append b'-' e (digits_of m) (no_dash e m y)),
    )
