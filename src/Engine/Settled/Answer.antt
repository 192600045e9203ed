-- ===== src/Engine/Settled/Answer.antt =====
-- Ringing the far side and bridging keep the table, of a call that has not ended.
use calling_integration.Prelude.{
  ℕ, ◌≡◌, refl, sym, ◌∙◌, subst, Bool, true, false, List, [], ◌∷◌, Option, none, some, Text, arith,
  is_some, not, is_empty, text_or_empty, ◌||◌, suc,
}
use calling_integration.Calls.{
  Call, Change, Table, Status, RecordingStatus, Stamp, get, is_column, is_terminal,
}
use calling_integration.Calls.Rows.{written, map_found, get-own}
use calling_integration.Engine.Context.{Ctx}
use calling_integration.Engine.Dial.{RecordingSettings}
use calling_integration.Engine.Answer.{
  fail_call, local_legs, customer_legs, dial_customer, start_customer, build_bridge, abandon_bridge,
  announce_recording, start_recording, record_call, recording_trouble, run_bridge, is_bridgeable,
  bridge_call, start_bridge, platform_line, local_target,
}
use calling_integration.Directory.{NumberRow}
use calling_integration.Engine.Logic.{Quiet, Keeps, Any}
use calling_integration.Engine.Logic.Rules.{
  bind-Quiet, attempt-Quiet, when-Quiet, if-Quiet, pure-Quiet, raise-Quiet, need-Quiet, Quiet-Keeps,
  Quiet-then, keep-then, if-Keeps, test-Keeps, option-Keeps, get-then, attempt-Keeps,
  attempt-Quiet-Keeps, try_else-Keeps, when-Keeps, weaken-Keeps,
}
use calling_integration.Engine.Logic.Writes.{Permits, update-then, update-Keeps}
use calling_integration.Engine.Quiet.{
  iso_now-Quiet, hangup_call_channels-Quiet, hangup_option-Quiet, destroy_bridge-Quiet,
  notify_with-Quiet, notify_crm-Quiet, create_local_leg-Quiet, create_customer_leg-Quiet,
  provider_endpoint-Quiet, create_bridge-Quiet, add_channel_to_bridge-Quiet,
  start_bridge_recording-Quiet, play_bridge_media-Quiet,
}
use calling_integration.Engine.Settled.Neutral.{neutral-Keeps}
use calling_integration.Engine.Settled.Progress.{IsLive, IsFresh, fresh-IsLive, live_row, same_row}

pub failed_permitted :
    (id : Text) (ended : Stamp) (t : Table)
    → IsLive id t
    → Permits id (written (Change.status Status.failed ∷ Change.ended_at (some ended) ∷ [])) t
unfolding is_column
failed_permitted id ended t live c found k =
    let open_call = live_row id t c live found in
    (
      record { ended = refl; completed = λ e. cc; timed = k.timed; joined = k.joined },
      ((λ e. cc), (λ a. a)),
    )

pub not_either : (a b : Bool) → (a || b) ≡ false → b ≡ false
not_either true b h = cc
not_either false b h = h

pub named : (o : Option Text) → is_empty (text_or_empty o) ≡ false → is_some o ≡ true
named none h = sym h
named (some x) h = refl

module _ ⦃ctx : Ctx⦄ where
  pub fail_call-Keeps :
      (call : Call) (why : Text) → Keeps (IsLive call.call_id) (fail_call call why)
  unfolding fail_call
  fail_call-Keeps call why = Quiet-then iso_now-Quiet λ ended.
      keep-then (update-Keeps call.call_id _ (λ t sound. failed_permitted call.call_id ended t))
        (λ u. Quiet-Keeps (notify_with-Quiet _ u _))

  local_legs-Quiet :
      (call : Call) (local : Text) (n : ℕ) (targets : List Text)
      → Quiet (local_legs call local n targets)
  unfolding local_legs
  local_legs-Quiet call local n [] = pure-Quiet false
  local_legs-Quiet call local n (target ∷ targets) =
      bind-Quiet
        (attempt-Quiet
          (bind-Quiet (create_local_leg-Quiet _ local _ target n) (λ _. pure-Quiet true))
          (λ _. pure-Quiet false))
        λ created. bind-Quiet (local_legs-Quiet call local (suc n) targets) λ others. pure-Quiet _

  customer_legs-Quiet : (call : Call) (local : Text) → Quiet (customer_legs call local)
  unfolding customer_legs
  customer_legs-Quiet call local =
      if-Quiet _
        (bind-Quiet (local_legs-Quiet call local 0 _) (λ created. when-Quiet _ (raise-Quiet _)))
        (bind-Quiet (provider_endpoint-Quiet _)
          λ p. bind-Quiet (create_customer_leg-Quiet _ _ _ _) λ _. pure-Quiet tt)

  dialing_permitted :
      (id : Text) (leg : Text) (t : Table)
      → IsLive id t
      → Permits id
          (written
            (Change.customer_channel_id (some leg) ∷ Change.status Status.dialing_customer ∷ []))
          t
  unfolding is_column
  dialing_permitted id leg t live c found k =
      let open_call = live_row id t c live found in
      (
        record {
          ended = k.ended ∙ open_call;
          completed = λ e. cc;
          timed = k.timed;
          joined = λ b. ((k.joined b).0, refl);
        },
        ((λ e. cc), (λ a. a)),
      )

  dialing-IsLive :
      (id : Text) (leg : Text) (t u : Table)
      → IsLive id t
      → get id u
        ≡ map_found
            (written
              (Change.customer_channel_id (some leg) ∷ Change.status Status.dialing_customer ∷ []))
            (get id t)
      → IsLive id u
  unfolding is_column
  dialing-IsLive id leg t u (c, here, open_call) e = (
    record c { customer_channel_id = some leg; status = Status.dialing_customer },
    rw (here) at e,
    refl,
  )

  dial_customer-Keeps :
      (call : Call) (local : Text) → Keeps (IsLive call.call_id) (dial_customer call local)
  unfolding dial_customer
  dial_customer-Keeps call local =
      update-then call.call_id _ (λ t sound. dialing_permitted call.call_id _ t)
        (IsLive call.call_id) (dialing-IsLive call.call_id _)
        λ prepared.
          weaken-Keeps (λ t p. p.0)
            (option-Keeps prepared (Quiet-Keeps (pure-Quiet tt)) λ p e.
              Quiet-then (notify_crm-Quiet _ _) λ _.
                attempt-Quiet-Keeps (customer_legs-Quiet call local)
                  λ _. Quiet-then (hangup_option-Quiet _) λ _. fail_call-Keeps call _)

  pub start_customer-Keeps :
      (call : Call) → Keeps (λ t. get call.call_id t ≡ some call) (start_customer call)
  unfolding start_customer
  start_customer-Keeps call =
      test-Keeps
        (not (is_empty (text_or_empty call.customer_channel_id)) || is_terminal call.status)
        (λ _. Quiet-Keeps (pure-Quiet tt))
        λ open_call.
          weaken-Keeps
            (λ t here. (
              call,
              here,
              not_either (not (is_empty (text_or_empty call.customer_channel_id))) _ open_call,
            ))
            (option-Keeps {B = NumberRow} (platform_line call.phone) (dial_customer-Keeps call [])
              λ line e.
                if-Keeps (is_empty (local_target line))
                  (keep-then (fail_call-Keeps call _) (λ _. Quiet-Keeps (hangup_option-Quiet _)))
                  (dial_customer-Keeps call (local_target line)))

  abandoned_permitted :
      (id : Text) (ended : Stamp) (t : Table)
      → IsLive id t
      → Permits id
          (written (
            Change.status Status.failed
            ∷ Change.ended_at (some ended)
            ∷ Change.bridge_id none
            ∷ Change.recording_status (some RecordingStatus.failed)
            ∷ []))
          t
  unfolding is_column
  abandoned_permitted id ended t live c found k =
      let open_call = live_row id t c live found in
      (
        record { ended = refl; completed = λ e. cc; timed = k.timed; joined = λ e. cc },
        ((λ e. cc), (λ a. a)),
      )

  abandon_bridge-Keeps : (call : Call) → Keeps (IsLive call.call_id) (abandon_bridge call)
  unfolding abandon_bridge
  abandon_bridge-Keeps call =
      Quiet-then (attempt-Quiet (destroy_bridge-Quiet _) (λ _. pure-Quiet tt)) λ _.
        Quiet-then (hangup_call_channels-Quiet call []) λ _. Quiet-then iso_now-Quiet λ ended.
          keep-then
            (update-Keeps call.call_id _ (λ t sound. abandoned_permitted call.call_id ended t))
            (λ u. Quiet-Keeps (notify_with-Quiet _ u _))

  build_bridge-Quiet : (call : Call) → Quiet (build_bridge call)
  unfolding build_bridge
  build_bridge-Quiet call =
      bind-Quiet (create_bridge-Quiet _)
        λ _. bind-Quiet (add_channel_to_bridge-Quiet _ _) λ _. add_channel_to_bridge-Quiet _ _

  announce_recording-Quiet :
      (call : Call) (r : RecordingSettings) → Quiet (announce_recording call r)
  unfolding announce_recording
  announce_recording-Quiet call r =
      when-Quiet _ (attempt-Quiet (play_bridge_media-Quiet _ _) (λ _. notify_crm-Quiet _ _))

  start_recording-Keeps :
      (call row : Call) (r : RecordingSettings) → Keeps Any (start_recording call row r)
  unfolding start_recording
  start_recording-Keeps call row r = keep-then (neutral-Keeps row.call_id _ refl) λ u. Quiet-Keeps (
      bind-Quiet (start_bridge_recording-Quiet _ _ _ _ _) λ _.
        bind-Quiet (notify_crm-Quiet _ _)
          λ _. bind-Quiet (need-Quiet u) λ v. announce_recording-Quiet v r)

  record_call-Keeps : (call : Call) (row : Option Call) → Keeps Any (record_call call row)
  unfolding record_call
  record_call-Keeps call row =
      Quiet-then (need-Quiet row) λ r. when-Keeps _ λ _. start_recording-Keeps call r _

  recording_trouble-Keeps : (call : Call) → Keeps Any (recording_trouble call)
  unfolding recording_trouble
  recording_trouble-Keeps call =
      keep-then (neutral-Keeps call.call_id _ refl) λ u. Quiet-Keeps (notify_crm-Quiet _ u)

  -- The row as it stands has both channels and no bridge.
  abbrev IsBridgeable : Call → Table → Type 0
  IsBridgeable call t = IsFresh call t × (is_bridgeable call ≡ true)

  both_sides :
      (call : Call)
      → is_bridgeable call ≡ true
      → (is_some call.employee_channel_id ≡ true) × (is_some call.customer_channel_id ≡ true)
  unfolding is_bridgeable
  both_sides call h =
      (named call.employee_channel_id (ground arith), named call.customer_channel_id (ground arith))

  bridged_permitted :
      (call : Call) (name : Text) (t : Table)
      → IsBridgeable call t
      → Permits call.call_id
          (written (Change.bridge_id (some name) ∷ Change.status Status.bridged ∷ []))
          t
  unfolding is_column
  bridged_permitted call name t ((here, open_call), ready) c found k =
      let e = same_row (sym found ∙ here) in
      let closed : is_terminal c.status ≡ false =
        subst (λ (x : Call). is_terminal x.status ≡ false) (sym e) open_call in
      (
        record {
          ended = k.ended ∙ closed;
          completed = λ e. cc;
          timed = k.timed;
          joined = λ _.
              subst
                (λ (x : Call).
                  (is_some x.employee_channel_id ≡ true) × (is_some x.customer_channel_id ≡ true))
                (sym e) (both_sides call ready);
        },
        ((λ e. cc), (λ a. a)),
      )

  run_bridge-Keeps : (call : Call) → Keeps (IsBridgeable call) (run_bridge call)
  unfolding run_bridge
  run_bridge-Keeps call =
      keep-then (update-Keeps call.call_id _ (λ t sound. bridged_permitted call _ t)) λ u.
        Quiet-then (notify_crm-Quiet _ u)
          λ _. attempt-Keeps (record_call-Keeps call u) (λ _. recording_trouble-Keeps call)

  bridge_call-Keeps : (call : Call) → Keeps (IsBridgeable call) (bridge_call call)
  unfolding bridge_call
  bridge_call-Keeps call =
      try_else-Keeps (build_bridge-Quiet call)
        (λ _. weaken-Keeps (λ t p. fresh-IsLive call t p.0) (abandon_bridge-Keeps call))
        (run_bridge-Keeps call)

  pub start_bridge-Keeps : (id : Text) → Keeps (IsLive id) (start_bridge id)
  unfolding start_bridge
  start_bridge-Keeps id = get-then id λ found.
      option-Keeps found (Quiet-Keeps (pure-Quiet tt)) λ call e.
        test-Keeps (is_bridgeable call)
          (λ ready.
            weaken-Keeps
              (λ t p.
                let here = p.1 ∙ e in
                ((get-own id t call here, live_row id t call p.0 here), ready))
              (bridge_call-Keeps call))
          (λ _. Quiet-Keeps (pure-Quiet tt))
