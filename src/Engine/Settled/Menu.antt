-- ===== src/Engine/Settled/Menu.antt =====
-- A caller at a menu: every step of the menu keeps the table.
use calling_integration.Prelude.{
  ℕ, ◌≡◌, refl, Bool, true, false, List, [], ◌∷◌, none, some, Text, is_some, is_empty,
  if◌then◌else◌, codes, insert, ltb, is_numeric, lookup, ◌+◌, ◌∙◌,
}
use calling_integration.Calls.{Call}
use calling_integration.Calls.Rows.{get-own}
use calling_integration.Engine.Plan.{Event, Plan, Session}
use calling_integration.Engine.World.{World, Done, pure, need, get_call, ◌>>=◌, ◌>>◌}
use calling_integration.Engine.Context.{Ctx}
use calling_integration.Engine.Notify.{notify_with}
use calling_integration.Engine.Ring.{inbound_no_answer}
use calling_integration.Engine.Menu.{
  Choice, session_of, put_session, end_session, ivr_prompt, leave_menu, take_legs, ring_choice,
  ivr_dial, end_menu, ring_rest, ivr_fallback, ivr_retry, ivr_wait, ivr_act, ivr_resolve, ivr_digit,
  ivr_timeout, ivr_timeouts, process_ivr_timeouts, start_ivr,
}
use calling_integration.Engine.Logic.{Quiet, Keeps, Any}
use calling_integration.Engine.Logic.Rules.{
  gets-Quiet, pure-Quiet, raise-Quiet, bind-Quiet, attempt-Quiet, option-Quiet, modify-Quiet,
  get_call-Quiet, if-Quiet, Quiet-Keeps, Quiet-then, keep-then, if-Keeps, option-Keeps, get-then,
  weaken-Keeps,
}
use calling_integration.Engine.Logic.Branches.{option_need}
use calling_integration.Engine.Quiet.{
  ask-Quiet, notify_with-Quiet, answer_channel-Quiet, play_channel_media-Quiet, stop_playback-Quiet,
}
use calling_integration.Engine.Settled.Neutral.{neutral-Keeps}
use calling_integration.Engine.Settled.Ring.{ring_legs-Quiet, inbound_no_answer-Keeps}

session_of-Quiet : (channel : Text) → Quiet (session_of channel)
unfolding session_of
session_of-Quiet channel = gets-Quiet _

put_session-same :
    (b : Bool) (s : Session) (w : World)
    → (if b then record w { sessions = insert s.channel_id s w.sessions } else w).calls ≡ w.calls
put_session-same true s w = refl
put_session-same false s w = refl

put_session-Quiet : (s : Session) → Quiet (put_session s)
unfolding put_session
put_session-Quiet s =
    modify-Quiet _ (λ w. put_session-same (is_some (lookup s.channel_id w.sessions)) s w)

pub end_session-Quiet : (channel : Text) → Quiet (end_session channel)
unfolding end_session
end_session-Quiet channel = modify-Quiet _ (λ w. refl)

module _ ⦃ctx : Ctx⦄ where
  pub ivr_prompt-Quiet : (channel : Text) → Quiet (ivr_prompt channel)
  unfolding ivr_prompt
  ivr_prompt-Quiet channel = bind-Quiet (session_of-Quiet channel) λ found.
      option-Quiet found (pure-Quiet tt) λ s.
        bind-Quiet
          (bind-Quiet (attempt-Quiet (answer_channel-Quiet channel) (λ _. pure-Quiet tt)) λ _.
            attempt-Quiet (play_channel_media-Quiet channel _ _)
              (λ _. attempt-Quiet (play_channel_media-Quiet channel _ _) (λ _. pure-Quiet tt)))
          (λ _. bind-Quiet (ask-Quiet _) λ now. put_session-Quiet _)

  leave_menu-Quiet : (s : Session) → Quiet (leave_menu s)
  unfolding leave_menu
  leave_menu-Quiet s = bind-Quiet (end_session-Quiet s.channel_id) (λ _. stop_playback-Quiet _)

  -- A row is read again, and nobody answers.
  reread_unanswered :
      (id : Text) (plan : Plan) (why : Text)
      → Keeps Any (get_call id >>= λ found. need found >>= λ call. inbound_no_answer call plan why)
  reread_unanswered id plan why = get-then id λ found. option_need found λ call e.
      weaken-Keeps (λ t p. get-own id t call (p.1 ∙ e)) (inbound_no_answer-Keeps call plan why)

  take_legs-Keeps :
      (id extension : Text) (legs : List (Text × Text)) (head : Text × Text)
      → Keeps Any (take_legs id extension legs head)
  unfolding take_legs
  take_legs-Keeps id extension legs head = neutral-Keeps id _ refl

  rung_choice :
      (s : Session) (plan : Plan) (extension : Text) (legs : List (Text × Text))
      → Keeps Any (elim legs as (λ _. Done) [
        | [] ↦ get_call s.call_id >>= λ found.
            need found >>= λ call. inbound_no_answer call plan (codes "ivr_extension_unavailable")
        | head ∷ others ↦
            take_legs s.call_id extension (head ∷ others) head >> get_call s.call_id >>= λ updated.
            notify_with Event.ivr_extension_selected updated
              ((codes "digits", s.digits) ∷ (codes "extension", extension) ∷ [])
      ])
  rung_choice s plan extension [] = reread_unanswered s.call_id plan _
  rung_choice s plan extension (head ∷ others) =
      keep-then
        (keep-then (take_legs-Keeps s.call_id extension (head ∷ others) head)
          (λ _. Quiet-Keeps (get_call-Quiet s.call_id)))
        (λ updated. Quiet-Keeps (notify_with-Quiet _ updated _))

  ring_choice-Keeps :
      (s : Session) (plan : Plan) (extension : Text) → Keeps Any (ring_choice s plan extension)
  unfolding ring_choice
  ring_choice-Keeps s plan extension =
      Quiet-then (ring_legs-Quiet _ _ _ _ _ _) λ legs. rung_choice s plan extension legs

  pub ivr_dial-Keeps : (s : Session) (extension : Text) → Keeps Any (ivr_dial s extension)
  unfolding ivr_dial
  ivr_dial-Keeps s extension = Quiet-then (leave_menu-Quiet s) λ _.
      Quiet-then (get_call-Quiet s.call_id) λ found. option_need found λ call e.
        keep-then (neutral-Keeps call.call_id _ refl)
          λ _. if-Keeps _ (ring_choice-Keeps s _ extension) (reread_unanswered call.call_id _ _)

  end_menu-Keeps : (s : Session) (plan : Plan) → Keeps Any (end_menu s plan)
  unfolding end_menu
  end_menu-Keeps s plan = reread_unanswered s.call_id plan _

  rung_rest :
      (s : Session) (plan : Plan) (digits : Text) (legs : List (Text × Text))
      → Keeps Any (elim legs as (λ _. Done) [
        | [] ↦ end_menu s plan
        | head ∷ others ↦
            take_legs s.call_id head.1 (head ∷ others) head >> get_call s.call_id >>= λ updated.
            notify_with Event.ivr_fallback updated ((codes "digits", digits) ∷ [])
      ])
  rung_rest s plan digits [] = end_menu-Keeps s plan
  rung_rest s plan digits (head ∷ others) =
      keep-then
        (keep-then (take_legs-Keeps s.call_id head.1 (head ∷ others) head)
          (λ _. Quiet-Keeps (get_call-Quiet s.call_id)))
        (λ updated. Quiet-Keeps (notify_with-Quiet _ updated _))

  ring_rest-Keeps :
      (s : Session) (plan : Plan) (destinations : List Text) (digits : Text)
      → Keeps Any (ring_rest s plan destinations digits)
  unfolding ring_rest
  ring_rest-Keeps s plan destinations digits =
      Quiet-then (ring_legs-Quiet _ _ _ _ _ _) λ legs. rung_rest s plan digits legs

  ivr_fallback-Keeps : (s : Session) (digits : Text) → Keeps Any (ivr_fallback s digits)
  unfolding ivr_fallback
  ivr_fallback-Keeps s digits =
      Quiet-then (leave_menu-Quiet s)
        λ _. if-Keeps (is_empty s.plan.fallback) (ring_rest-Keeps s _ _ digits) (ivr_dial-Keeps _ _)

  ivr_retry-Keeps : (s : Session) (digits : Text) → Keeps Any (ivr_retry s digits)
  unfolding ivr_retry
  ivr_retry-Keeps s digits =
      if-Keeps (ltb (s.tries + 1) s.attempts)
        (Quiet-Keeps (bind-Quiet (put_session-Quiet _) (λ _. ivr_prompt-Quiet s.channel_id)))
        (ivr_fallback-Keeps s digits)

  ivr_wait-Quiet : (s : Session) → Quiet (ivr_wait s)
  unfolding ivr_wait
  ivr_wait-Quiet s = bind-Quiet (ask-Quiet _) λ now. put_session-Quiet _

  ivr_act-Keeps : (s : Session) (c : Choice) → Keeps Any (ivr_act s c)
  unfolding ivr_act
  ivr_act-Keeps s Choice.nothing_yet = Quiet-Keeps (pure-Quiet tt)
  ivr_act-Keeps s (Choice.dial target) = ivr_dial-Keeps s target
  ivr_act-Keeps s Choice.wait = Quiet-Keeps (ivr_wait-Quiet s)
  ivr_act-Keeps s Choice.invalid = ivr_retry-Keeps s s.digits
  ivr_act-Keeps s Choice.crash = Quiet-Keeps (raise-Quiet _)

  ivr_resolve-Keeps : (s : Session) (final : Bool) → Keeps Any (ivr_resolve s final)
  unfolding ivr_resolve
  ivr_resolve-Keeps s final = ivr_act-Keeps s _

  pub ivr_digit-Keeps : (channel digit : Text) → Keeps Any (ivr_digit channel digit)
  unfolding ivr_digit
  ivr_digit-Keeps channel digit = Quiet-then (session_of-Quiet channel) λ found.
      option-Keeps found (Quiet-Keeps (pure-Quiet tt)) λ s e.
        if-Keeps (is_numeric digit)
          (Quiet-then (put_session-Quiet _) λ _. ivr_resolve-Keeps _ false)
          (Quiet-Keeps (pure-Quiet tt))

  then_moved : {m : Done} → Keeps Any m → Keeps Any (m >> pure true)
  then_moved k = keep-then k (λ _. Quiet-Keeps (pure-Quiet true))

  ivr_timeout-Keeps : (clock : ℕ) (s : Session) → Keeps Any (ivr_timeout clock s)
  unfolding ivr_timeout
  ivr_timeout-Keeps clock s = if-Keeps _ (then_moved (ivr_resolve-Keeps s true)) (
      if-Keeps (ltb clock s.deadline) (Quiet-Keeps (pure-Quiet false)) (
        if-Keeps (is_empty s.digits) (then_moved (ivr_retry-Keeps s []))
          (then_moved (ivr_resolve-Keeps s true))))

  ivr_timeouts-Keeps :
      (clock handled : ℕ) (sessions : List (Text × Session))
      → Keeps Any (ivr_timeouts clock handled sessions)
  unfolding ivr_timeouts
  ivr_timeouts-Keeps clock handled [] = Quiet-Keeps (pure-Quiet handled)
  ivr_timeouts-Keeps clock handled ((channel, s) ∷ rest) =
      keep-then (ivr_timeout-Keeps clock s)
        λ moved. ivr_timeouts-Keeps clock (if moved then handled + 1 else handled) rest

  pub process_ivr_timeouts-Keeps : (clock : ℕ) → Keeps Any (process_ivr_timeouts clock)
  unfolding process_ivr_timeouts
  process_ivr_timeouts-Keeps clock =
      Quiet-then (gets-Quiet _) λ sessions. ivr_timeouts-Keeps clock 0 sessions

  pub start_ivr-Quiet :
      (call : Call) (channel : Text) (plan : Plan) → Quiet (start_ivr call channel plan)
  unfolding start_ivr
  start_ivr-Quiet call channel plan = if-Quiet (is_empty channel) (pure-Quiet none) (
      bind-Quiet (bind-Quiet (modify-Quiet _ (λ w. refl)) (λ _. ivr_prompt-Quiet channel))
        (λ _. pure-Quiet (some call)))
