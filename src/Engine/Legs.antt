-- ===== src/Engine/Legs.antt =====
-- The channels of a call (`_leg_pairs` to `_hangup_quietly`).
pub mod Stored
use calling_integration.Prelude.{
  List, [], ◌∷◌, ◌++◌, ◌||◌, ◌&&◌, not, Option, none, some, Text, is_empty, if◌then◌else◌, mem_text,
  select, text_eq, strip, split, before, after, join, map, lookup, starts_with, text_or_empty,
  or_else,
}
use calling_integration.Calls.{Call, find_by_channel, get}
use calling_integration.Engine.Plan.{Channel}
use calling_integration.Engine.World.{
  World, M, Done, pure, done, gets, attempt, for_each, ◌>>=◌, ◌>>◌,
}
use calling_integration.Engine.Context.{Ctx}
use calling_integration.Engine.Asterisk.{hangup, list_channels, customer_prefix}

-- `channel|extension`; a token with no extension is the call's own.
unfoldable pub leg_pair : Text → Text → Text × Text
leg_pair extension token =
    let ext = after b'|' token in (before b'|' token, if is_empty ext then extension else ext)

unfoldable pub stored_pairs : Call → List (Text × Text)
unfolding leg_pair
stored_pairs call =
    select (λ p. not (is_empty p.0))
      (map (leg_pair call.extension)
        (select (λ t. not (is_empty t)) (map strip (split b',' call.employee_channel_ids))))

unfoldable pub leg_pairs : Call → List (Text × Text)
unfolding stored_pairs
leg_pairs call =
    let head = text_or_empty call.employee_channel_id in
    if not (is_empty (stored_pairs call))
    then stored_pairs call
    else if is_empty head
    then []
    else (head, call.extension) ∷ []

-- `[leg for leg, _ in self._leg_pairs(call)]`
abbrev pub leg_channels : Call → List Text
leg_channels call = map (λ p. p.0) (leg_pairs call)

-- `",".join(f"{leg}|{ext}" for leg, ext in legs)`
unfoldable pub join_legs : List (Text × Text) → Text
join_legs legs = join b',' (map (λ p. p.0 ++ b'|' ∷ p.1) legs)

unfoldable pub indexed_call : Text → World → Option Text → Option Call
indexed_call channel w none = find_by_channel channel w.calls
indexed_call channel w (some known) = or_else (get known w.calls) (find_by_channel channel w.calls)

module _ ⦃ctx : Ctx⦄ where
  unfoldable pub call_for_channel : Text → M (Option Call)
  unfolding indexed_call
  call_for_channel channel = gets (λ w. indexed_call channel w (lookup channel w.leg_index))

  -- The ids of the live channels; none, if Asterisk does not answer.
  unfoldable pub live_channel_ids : M (List Text)
  live_channel_ids =
      attempt
        (list_channels >>= λ l.
          pure (select (λ t. not (is_empty t)) (map (λ (c : Channel). c.id) l)))
        (λ _. pure [])

  unfoldable pub legs_still_ringing : Call → M (List Text)
  unfolding live_channel_ids
  legs_still_ringing call = do
    live ← live_channel_ids
    pure (select (λ c. mem_text c live) (leg_channels call))

  unfoldable pub customer_leg_ids : Call → Text → M (List Text)
  unfolding live_channel_ids
  customer_leg_ids call channel = do
    live ← live_channel_ids
    pure (
        select
          (λ c.
            not (text_eq c channel)
            && (text_eq c (text_or_empty call.customer_channel_id)
                || starts_with c (customer_prefix call.call_id)))
          live)

  unfoldable pub hangup_quietly : Text → Done
  hangup_quietly channel = attempt (hangup channel) (λ _. done)

  unfoldable pub cancel_legs : List Text → Done
  cancel_legs channels = for_each channels hangup

  unfoldable pub hangup_unless : Text → Text → Done
  unfolding hangup_quietly
  hangup_unless keep channel =
      if is_empty channel || text_eq channel keep then done else hangup_quietly channel

  unfoldable pub hangup_call_channels : Call → Text → Done
  unfolding hangup_unless customer_leg_ids
  hangup_call_channels call keep = do
    for_each (leg_channels call) (hangup_unless keep)
    hangup_unless keep (text_or_empty call.customer_channel_id)
    ids ← customer_leg_ids call keep
    for_each ids hangup_quietly
