-- ===== src/Engine/Settled/Events.antt =====
-- A channel of a call is up: `channel_up` and what it calls keep the table.
use calling_integration.Prelude.{
  ◌≡◌, refl, sym, ◌∙◌, subst, Bool, true, false, [], ◌∷◌, some, Text, arith, not, is_text, ◌&&◌,
  if◌then◌else◌, Bool-cases, inl, inr,
}
use calling_integration.Calls.{
  Call, Change, Table, Status, Stamp, get, is_column, is_terminal, is_failed, is_completed,
}
use calling_integration.Calls.Rows.{written, map_found, get-own, get-id, get-written}
use calling_integration.Engine.World.{World, pure, done, update_call, ◌>>=◌, ◌>>◌}
use calling_integration.Engine.Context.{Ctx}
use calling_integration.Engine.Answer.{start_bridge}
use calling_integration.Engine.Events.{
  mark_answered, desk_answers, employee_answers, customer_answers, channel_up, on_state_change,
}
use calling_integration.Engine.Logic.{IsConsistent, Keeps, Any}
use calling_integration.Engine.Logic.Rules.{
  pure-Quiet, Quiet-Keeps, Quiet-then, keep-then, stable-then, if-Keeps, test-Keeps, option-Keeps,
  get-then, when-Keeps, weaken-Keeps,
}
use calling_integration.Engine.Logic.Branches.{option_need}
use calling_integration.Engine.Logic.Writes.{Permits, update-then, update-Keeps, own_row}
use calling_integration.Engine.Quiet.{
  iso_now-Quiet, notify_crm-Quiet, cancel_legs-Quiet, customer_leg_ids-Quiet, hangup_quietly-Quiet,
}
use calling_integration.Engine.Settled.Neutral.{neutral-Keeps}
use calling_integration.Engine.Settled.Progress.{IsLive, live_row}
use calling_integration.Engine.Settled.Answer.{start_customer-Keeps, start_bridge-Keeps}

-- A completed call was answered, so a call that is not answered and did not fail goes on.
goes_on :
    (c : Call)
    → IsConsistent c
    → is_failed c.status ≡ false
    → c.answered ≡ false
    → is_terminal c.status ≡ false
goes_on c k failed answered = elim (Bool-cases (is_completed c.status)) [
  | inl e ↦ absurd (ground arith)
  | inr e ↦ goes c.status failed e
]
  where
    goes : (s : Status) → is_failed s ≡ false → is_completed s ≡ false → is_terminal s ≡ false
    goes s f e = ground arith

answered_permitted :
    (id : Text) (now : Stamp) (call : Call) (t : Table)
    → get id t ≡ some call
    → is_failed call.status ≡ false
    → call.answered ≡ false
    → Permits id
        (written (
          Change.status Status.answered
          ∷ Change.answered true
          ∷ Change.answered_at (some now)
          ∷ []))
        t
unfolding is_column
answered_permitted id now call t here failed answered c found k =
    let e = same (sym here ∙ found) in
    let open_call =
      goes_on c k (subst (λ (x : Call). is_failed x.status ≡ false) e failed)
        (subst (λ (x : Call). x.answered ≡ false) e answered) in
    (
      record {
        ended = k.ended ∙ open_call;
        completed = λ e. cc;
        timed = λ e. refl;
        joined = k.joined;
      },
      ((λ e. cc), (λ a. refl)),
    )
  where
    same : {a b : Call} → some a ≡ some b → a ≡ b
    same q = cc

module _ ⦃ctx : Ctx⦄ where
  pub mark_answered-Keeps : (id : Text) → Keeps Any (mark_answered id)
  unfolding mark_answered
  mark_answered-Keeps id = get-then id λ found.
      option-Keeps found (Quiet-Keeps (pure-Quiet tt)) λ row e.
        when-Keeps (not (is_failed row.status) && not row.answered) λ test.
          Quiet-then iso_now-Quiet λ now.
            keep-then
              (update-Keeps id _ (λ t sound p.
                answered_permitted id now row t (p.1 ∙ e) (ground arith) (ground arith)))
              (λ u. Quiet-Keeps (notify_crm-Quiet _ u))

  picked_up_permitted :
      (id channel : Text) (t : Table)
      → IsLive id t
      → Permits id
          (written (
            Change.status Status.employee_answered
            ∷ Change.employee_channel_id (some channel)
            ∷ []))
          t
  unfolding is_column
  picked_up_permitted id channel t live c found k =
      let open_call = live_row id t c live found in
      (
        record {
          ended = k.ended ∙ open_call;
          completed = λ e. cc;
          timed = k.timed;
          joined = λ b. (refl, (k.joined b).1);
        },
        ((λ e. cc), (λ a. a)),
      )

  desk_permitted :
      (id channel extension : Text) (t : Table)
      → IsLive id t
      → Permits id
          (written (
            Change.status Status.employee_answered
            ∷ Change.employee_channel_id (some channel)
            ∷ Change.extension extension
            ∷ []))
          t
  unfolding is_column
  desk_permitted id channel extension t live c found k =
      let open_call = live_row id t c live found in
      (
        record {
          ended = k.ended ∙ open_call;
          completed = λ e. cc;
          timed = k.timed;
          joined = λ b. (refl, (k.joined b).1);
        },
        ((λ e. cc), (λ a. a)),
      )

  desk-IsLive :
      (id channel extension : Text) (t u : Table)
      → IsLive id t
      → get id u
        ≡ map_found
            (written (
              Change.status Status.employee_answered
              ∷ Change.employee_channel_id (some channel)
              ∷ Change.extension extension
              ∷ []))
            (get id t)
      → IsLive id u
  unfolding is_column
  desk-IsLive id channel extension t u (c, here, open_call) e = (
    record c {
      status = Status.employee_answered;
      employee_channel_id = some channel;
      extension = extension;
    },
    rw (here) at e,
    refl,
  )

  picked_up-IsLive :
      (id channel : Text) (t u : Table)
      → IsLive id t
      → get id u
        ≡ map_found
            (written (
              Change.status Status.employee_answered
              ∷ Change.employee_channel_id (some channel)
              ∷ []))
            (get id t)
      → IsLive id u
  unfolding is_column
  picked_up-IsLive id channel t u (c, here, open_call) e = (
    record c { status = Status.employee_answered; employee_channel_id = some channel },
    rw (here) at e,
    refl,
  )

  desk_answers-Keeps :
      (channel : Text) (call : Call) → Keeps (IsLive call.call_id) (desk_answers channel call)
  unfolding desk_answers
  desk_answers-Keeps channel call =
      update-then call.call_id _ (λ t sound. desk_permitted call.call_id channel _ t)
        (IsLive call.call_id) (desk-IsLive call.call_id channel _)
        λ updated. Quiet-then (notify_crm-Quiet _ updated) λ _.
          Quiet-then (cancel_legs-Quiet _) λ _. option_need updated λ row e.
            keep-then
              (weaken-Keeps
                (λ t p. subst (λ i. IsLive i t) (sym (get-id call.call_id t row (p.1 ∙ e))) p.0)
                (start_bridge-Keeps row.call_id))
              (λ _. mark_answered-Keeps call.call_id)

  employee_answers-Keeps :
      (channel : Text) (call : Call) → Keeps (IsLive call.call_id) (employee_answers channel call)
  unfolding employee_answers
  employee_answers-Keeps channel call = Quiet-then (cancel_legs-Quiet _) λ _.
      update-then call.call_id _ (λ t sound. picked_up_permitted call.call_id channel t)
        (IsLive call.call_id) (picked_up-IsLive call.call_id channel)
        λ updated. Quiet-then (notify_crm-Quiet _ updated) λ _. option_need updated λ row e.
          weaken-Keeps (λ t p. get-own call.call_id t row (p.1 ∙ e)) (start_customer-Keeps row)

  customer-IsLive :
      (id channel : Text) (t u : Table)
      → IsLive id t
      → get id u ≡ map_found (written (Change.customer_channel_id (some channel) ∷ [])) (get id t)
      → IsLive id u
  unfolding is_column
  customer-IsLive id channel t u (c, here, open_call) e =
      (record c { customer_channel_id = some channel }, rw (here) at e, open_call)

  adopt_side-Keeps :
      (known : Bool) (id channel : Text)
      → Keeps (IsLive id) (
          if known
          then done
          else (update_call id (Change.customer_channel_id (some channel) ∷ []) >> done))
  adopt_side-Keeps known id channel =
      if-Keeps known (Quiet-Keeps (pure-Quiet tt))
        (keep-then (neutral-Keeps id _ refl) (λ _. Quiet-Keeps (pure-Quiet tt)))

  adopt_side-IsLive :
      (known : Bool) (id channel : Text) (w : World)
      → IsLive id w.calls
      → IsLive id
          ((if known
              then done
              else (update_call id (Change.customer_channel_id (some channel) ∷ []) >> done))
            w).1.calls
  unfolding pure ◌>>=◌ update_call
  adopt_side-IsLive true id channel w live = live
  adopt_side-IsLive false id channel w live = customer-IsLive id channel w.calls _ live (
      (get-written id id (Change.customer_channel_id (some channel) ∷ []) w.calls).0
      ∙ own_row id (written (Change.customer_channel_id (some channel) ∷ [])) w.calls)

  bridged_and_marked : (id : Text) → Keeps (IsLive id) (start_bridge id >> mark_answered id)
  bridged_and_marked id = keep-then (start_bridge-Keeps id) (λ _. mark_answered-Keeps id)

  customer_answers-Keeps :
      (channel : Text) (call : Call) → Keeps (IsLive call.call_id) (customer_answers channel call)
  unfolding customer_answers
  customer_answers-Keeps channel call = Quiet-then (customer_leg_ids-Quiet call channel) λ others.
      Quiet-then (cancel_legs-Quiet others) λ _.
        stable-then
          (adopt_side-Keeps (is_text channel call.customer_channel_id) call.call_id channel)
          (adopt_side-IsLive (is_text channel call.customer_channel_id) call.call_id channel)
          (λ _. bridged_and_marked call.call_id)

  channel_up-Keeps :
      (channel : Text) (call : Call) → Keeps (IsLive call.call_id) (channel_up channel call)
  unfolding channel_up
  channel_up-Keeps channel call = if-Keeps _ (desk_answers-Keeps channel call) (
      if-Keeps _ (employee_answers-Keeps channel call)
        (if-Keeps _ (customer_answers-Keeps channel call) (Quiet-Keeps (pure-Quiet tt))))

  pub on_state_change-Keeps :
      (channel : Text) (up : Bool) (call : Call) → Keeps Any (on_state_change channel up call)
  unfolding on_state_change
  on_state_change-Keeps channel up call = if-Keeps (not up) (Quiet-Keeps (pure-Quiet tt)) (
      get-then call.call_id λ found. option-Keeps found (Quiet-Keeps (pure-Quiet tt)) λ current e.
        test-Keeps (is_terminal current.status) (λ _. Quiet-Keeps (hangup_quietly-Quiet channel))
          λ open_call.
            weaken-Keeps (λ t p. (current, get-own call.call_id t current (p.1 ∙ e), open_call))
              (channel_up-Keeps channel current))
