-- ===== src/Engine/Legs/Stored.antt =====
-- The legs of a call, as its record stores them (`employee_channel_ids`, `_leg_pairs`).
use calling_integration.Prelude.{
  ◌≡◌, refl, ◌∙◌, ap, false, List, [], ◌∷◌, ◌++◌, not, Text, All, map, select, strip, split, join,
  has_char, is_empty, split-plain, split-append, before-append, after-append,
}
use calling_integration.Naming.Strip.{has_space, strip-plain}
use calling_integration.Calls.{Call}
use calling_integration.Engine.Legs.{leg_pair, stored_pairs, leg_pairs, join_legs}

abbrev token : Text × Text → Text
token p = p.0 ++ b'|' ∷ p.1

-- A leg that the record can hold: a channel and an extension, with no space, comma or bar.
pub record IsLeg (p : Text × Text) : Type 0 where
  pub channel : is_empty p.0 ≡ false
  pub extension : is_empty p.1 ≡ false
  pub no_bar : has_char b'|' p.0 ≡ false
  pub no_comma : has_char b',' (p.0 ++ b'|' ∷ p.1) ≡ false
  pub unspaced : has_space (p.0 ++ b'|' ∷ p.1) ≡ false

split-tokens :
    (p : Text × Text) (legs : List (Text × Text))
    → IsLeg p
    → All IsLeg legs
    → split b',' (join b',' (map token (p ∷ legs))) ≡ map token (p ∷ legs)
unfolding join
split-tokens p [] k ks = split-plain b',' (token p) k.no_comma
split-tokens p (q ∷ legs) k ks =
    split-append b',' (token p) (join b',' (map token (q ∷ legs))) k.no_comma
    ∙ ap (λ rest. token p ∷ rest) (split-tokens q legs ks.0 ks.1)

not_empty : (a : Text) (c : Text) → is_empty a ≡ false → is_empty (a ++ c) ≡ false
not_empty [] c h = cc
not_empty (x ∷ a) c h = refl

leg_pair-token : (extension : Text) (p : Text × Text) → IsLeg p → leg_pair extension (token p) ≡ p
unfolding leg_pair
leg_pair-token extension p k =
    rw (after-append b'|' p.0 p.1 k.no_bar, before-append b'|' p.0 p.1 k.no_bar, k.extension) refl

read-tokens :
    (extension : Text) (legs : List (Text × Text))
    → All IsLeg legs
    → select
        (λ p. not (is_empty p.0))
        (map (leg_pair extension) (select (λ t. not (is_empty t)) (map strip (map token legs))))
      ≡ legs
read-tokens extension [] ks = refl
read-tokens extension (p ∷ legs) ks =
    rw (strip-plain (token p) ks.0.unspaced, not_empty p.0 (b'|' ∷ p.1) ks.0.channel)
      (rw (leg_pair-token extension p ks.0, ks.0.channel)
        (ap (λ rest. p ∷ rest) (read-tokens extension legs ks.1)))

-- The legs that are stored into a call are the legs that are read from it, each with its
-- extension and in their order, if there is one and no name has a space, a comma or a bar.
pub leg_pairs-join_legs :
    (call : Call) (p : Text × Text) (legs : List (Text × Text))
    → IsLeg p
    → All IsLeg legs
    → leg_pairs (record call { employee_channel_ids = join_legs (p ∷ legs) }) ≡ p ∷ legs
unfolding leg_pairs stored_pairs join_legs
leg_pairs-join_legs call p legs k ks =
    rw (split-tokens p legs k ks) (rw (read-tokens call.extension (p ∷ legs) (k, ks)) refl)
