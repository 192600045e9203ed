-- ===== src/Access/Calls/Answers.antt =====
-- What the requests about calls come to.
use calling_integration.Prelude.{
  ℕ, suc, Bool, true, false, not, List, [], ◌∷◌, Option, none, some, Text, ◌≡◌, refl, sym, subst,
  inl, inr, is_empty, map, select, Bool-cases, if◌then◌else◌, strip, has_char, IsIn, select_sound,
  select_complete, All, mem_text-IsIn,
}
use calling_integration.Prelude.{
  ◌⊎◌, ◌↔◌, ◌&&◌, leb, text_eq, text_eq_iff, Option-cases, ◌||◌, arith,
}
use calling_integration.Naming.{extension_digits, extension_scope}
use calling_integration.Directory.Lines.{Sees, listed_sound, listed_complete}
use calling_integration.Directory.{ExtensionRow, row_key}
use calling_integration.Calls.{Call}
use calling_integration.Engine.World.{World, M, Error, Result, ok, pure, raise, attempt, ◌>>=◌}
use calling_integration.Engine.Context.{Ctx, ask}
use calling_integration.Engine.Logic.{IsSound, Keeps, Any}
use calling_integration.Engine.Logic.Rules.{
  pure-Quiet, raise-Quiet, Quiet-Keeps, Quiet-then, keep-then, if-Keeps, attempt-Keeps,
}
use calling_integration.Engine.Quiet.{ask-Quiet}
use calling_integration.Engine.Settled.Start.{start_outbound-Keeps}
use calling_integration.Access.Calls.Digits.{IsUnreadable, parse_int-IsUnreadable}
use calling_integration.Access.Calls.{
  Body, Refusal, Chosen, is_e164, isdigit, parse_int, Digit, requested_extension, answers_to,
  only_match, engine_refusal, Outcome, api_extensions, find_extension, start_chosen,
  start_requested, build_call, call_allowed,
}

-- The method returns, or it raises a `ValueError` and `P` holds.
record Returns (P : Type 0) (m : M Outcome) : Type 0 where
  returns :
      (w : World)
      → ((o : Outcome) × ((m w).0 ≡ ok o)) ⊎ (((m w).0 ≡ Result.raised Error.value_error) × P)

only_match-raised : {B : Type 0} (rows : List ExtensionRow) → only_match rows ≡ Chosen.raised → B
unfolding only_match
only_match-raised [] q = cc
only_match-raised (r ∷ []) q = cc
only_match-raised (r ∷ s ∷ rows) q = cc

module _ ⦃ctx : Ctx⦄ where
  start_chosen-Keeps : (body : Body) (extension : Text) → Keeps Any (start_chosen body extension)
  unfolding start_chosen
  start_chosen-Keeps body extension =
      attempt-Keeps
        (keep-then (start_outbound-Keeps _ extension body.contact_id body.member_id _ _)
          (λ call. Quiet-Keeps (pure-Quiet _)))
        (λ e. Quiet-Keeps (pure-Quiet _))

  start_requested-Keeps : (body : Body) (c : Chosen) → Keeps Any (start_requested body c)
  unfolding start_requested
  start_requested-Keeps body (Chosen.refused why) = Quiet-Keeps (pure-Quiet _)
  start_requested-Keeps body (Chosen.chosen extension) = start_chosen-Keeps body extension
  start_requested-Keeps body Chosen.raised = Quiet-Keeps (raise-Quiet _)

  build_call-Keeps :
      (unicode : ℕ → Digit) (owner : Option ℕ) (call_default : Text) (body : Option Body)
      → Keeps Any (build_call unicode owner call_default body)
  unfolding build_call
  build_call-Keeps unicode owner call_default none = Quiet-Keeps (pure-Quiet _)
  build_call-Keeps unicode owner call_default (some body) = Quiet-then (ask-Quiet _) λ ready.
      if-Keeps (not ready) (Quiet-Keeps (pure-Quiet _)) (
        if-Keeps (is_empty (strip body.phone)) (Quiet-Keeps (pure-Quiet _)) (
          if-Keeps (not (is_e164 (strip body.phone))) (Quiet-Keeps (pure-Quiet _))
            (start_requested-Keeps body _)))

  pure-Returns : {P : Type 0} (o : Outcome) → Returns P (pure o)
  unfolding pure
  pure-Returns o = record { returns = λ w. inl (o, refl) }

  if-Returns :
      {P : Type 0} (b : Bool) {m n : M Outcome}
      → Returns P m
      → Returns P n
      → Returns P (if b then m else n)
  if-Returns true p q = p
  if-Returns false p q = q

  ask-Returns :
      {P A : Type 0} (f : ℕ → A) (k : A → M Outcome)
      → ((a : A) → Returns P (k a))
      → Returns P (ask f >>= k)
  unfolding ask ◌>>=◌
  ask-Returns f k h = record {
    returns = λ w. (h (f w.turn)).returns (record w { turn = suc w.turn });
  }

  attempt-Returns :
      {P : Type 0} (m : M Outcome) (handler : Error → Outcome)
      → Returns P (attempt m (λ e. pure (handler e)))
  unfolding attempt pure
  attempt-Returns m handler = record { returns = λ w. inl (caught (m w)) }
    where
      caught :
          (r : Result Outcome × World)
          → (o : Outcome) × (((elim r.0 as (λ _. Result Outcome × World) [
            | ok a ↦ (ok a, r.1)
            | Result.raised e ↦ (ok (handler e), r.1)
          ]).0)
              ≡ ok o)
      caught (ok a, u) = (a, refl)
      caught (Result.raised e, u) = (handler e, refl)

  start_requested-Returns :
      {P : Type 0} (body : Body) (c : Chosen)
      → (c ≡ Chosen.raised → P)
      → Returns P (start_requested body c)
  unfolding start_requested start_chosen raise
  start_requested-Returns body (Chosen.refused why) h = pure-Returns _
  start_requested-Returns body (Chosen.chosen extension) h =
      attempt-Returns _ (λ e. Outcome.not_started (engine_refusal e))
  start_requested-Returns body Chosen.raised h = record { returns = λ w. inr (refl, h refl) }

  find_extension-raised :
      (unicode : ℕ → Digit) (owner : Option ℕ) (extension : Text)
      → find_extension unicode owner extension ≡ Chosen.raised
      → IsUnreadable unicode (extension_digits extension)
  unfolding find_extension
  find_extension-raised unicode owner extension h =
      elim (Bool-cases (isdigit unicode (extension_digits extension))) [
        | inr u ↦ refused_raised (rw (u, find_extension) at h)
        | inl u ↦ elim (Option-cases (parse_int unicode (extension_digits extension))) [
          | inl v ↦ parse_int-IsUnreadable unicode (extension_digits extension) u v
          | inr (n, v) ↦ elim (Bool-cases (leb 101 n && leb n 999)) [
            | inr w ↦ refused_raised (rw (u, v, w, find_extension) at h)
            | inl w ↦
                only_match-raised
                  (select (answers_to extension)
                    (select (λ (r : ExtensionRow). r.active) (api_extensions owner)))
                  (rw (u, v, w, find_extension) at h)
          ]
        ]
      ]
    where
      refused_raised : {B : Type 0} {why : Refusal} → Chosen.refused why ≡ Chosen.raised → B
      refused_raised q = cc

  -- The request asks for digits that `int` does not read.
  abbrev pub IsUnreadableRequest : (ℕ → Digit) → Option ℕ → Text → Option Body → Type 0
  IsUnreadableRequest unicode owner call_default none = ⊥
  IsUnreadableRequest unicode owner call_default (some body) =
      IsUnreadable unicode (extension_digits (requested_extension owner call_default body))

  build_call-Returns :
      (unicode : ℕ → Digit) (owner : Option ℕ) (call_default : Text) (body : Option Body)
      → Returns
          (IsUnreadableRequest unicode owner call_default body)
          (build_call unicode owner call_default body)
  unfolding build_call
  build_call-Returns unicode owner call_default none = pure-Returns _
  build_call-Returns unicode owner call_default (some body) = ask-Returns _ _ λ ready.
      if-Returns (not ready) (pure-Returns _) (
        if-Returns (is_empty (strip body.phone)) (pure-Returns _) (
          if-Returns (not (is_e164 (strip body.phone))) (pure-Returns _) (
            start_requested-Returns body _
              (find_extension-raised unicode owner (requested_extension owner call_default body)))))

  -- A request for a call is answered, with the call or with a reason, whatever the engine raises,
  -- or it ends in a `ValueError`, and then it asked for more than 4300 digits or with a digit that is
  -- no decimal digit. In each case it leaves a sound table of calls sound.
  pub build_call-IsSound :
      (unicode : ℕ → Digit) (owner : Option ℕ) (call_default : Text) (body : Option Body)
      (w : World)
      → IsSound w.calls
      → (((o : Outcome) × ((build_call unicode owner call_default body w).0 ≡ ok o))
          ⊎ (((build_call unicode owner call_default body w).0 ≡ Result.raised Error.value_error)
              × IsUnreadableRequest unicode owner call_default body))
        × IsSound (build_call unicode owner call_default body w).1.calls
  build_call-IsSound unicode owner call_default body w sound = (
    (build_call-Returns unicode owner call_default body).returns w,
    ((build_call-Keeps unicode owner call_default body).kept w sound tt).0,
  )

  abbrev is_active : ExtensionRow → Bool
  is_active r = r.active

  -- The row has the key that is asked for, or its digits, and the request names no line.
  abbrev pub IsAsked : Text → ExtensionRow → Type 0
  IsAsked extension r =
      (row_key r ≡ extension)
      ⊎ ((extension_scope extension ≡ []) × (r.digits ≡ extension_digits extension))

  answers_to-IsAsked :
      (extension : Text) (r : ExtensionRow) → (answers_to extension r ≡ true) ↔ IsAsked extension r
  answers_to-IsAsked extension r = (
    λ h. elim (Bool-cases (text_eq (row_key r) extension)) [
      | inl u ↦ inl ((text_eq_iff (row_key r) extension).0 u)
      | inr u ↦
          let none_named : is_empty (extension_scope extension) ≡ true = ground arith in
          let own : text_eq r.digits (extension_digits extension) ≡ true = ground arith in
          inr (
            empty (extension_scope extension) none_named,
            (text_eq_iff r.digits (extension_digits extension)).0 own,
          )
    ],
    λ a. elim a [
      | inl e ↦ rw ((text_eq_iff (row_key r) extension).1 e) refl
      | inr (e, d) ↦
          either (text_eq (row_key r) extension)
            (rw (e, (text_eq_iff r.digits (extension_digits extension)).1 d) refl)
    ],
  )
    where
      empty : (t : Text) → is_empty t ≡ true → t ≡ []
      empty [] e = refl
      empty (c ∷ t) e = cc

      either : (a : Bool) {b : Bool} → b ≡ true → (a || b) ≡ true
      either true e = refl
      either false e = e

  -- `r` is an active row of the account that is asked for, and the only one.
  abbrev pub IsOnlyAsked : Option ℕ → Text → ExtensionRow → Type 0
  IsOnlyAsked owner extension r =
      IsIn r ctx.directory.extensions
      × Sees owner r
      × (r.active ≡ true)
      × IsAsked extension r
      × ((s : ExtensionRow)
          → IsIn s ctx.directory.extensions
          → Sees owner s
          → s.active ≡ true
          → IsAsked extension s
          → s ≡ r)

  only_match-chosen :
      (owner : Option ℕ) (extension key : Text) (rows : List ExtensionRow)
      → select (answers_to extension) (select is_active (api_extensions owner)) ≡ rows
      → only_match rows ≡ Chosen.chosen key
      → (r : ExtensionRow) × (row_key r ≡ key) × IsOnlyAsked owner extension r
  unfolding only_match api_extensions
  only_match-chosen owner extension key [] e h = cc
  only_match-chosen owner extension key (r ∷ []) e h =
      let active = select is_active (api_extensions owner) in
      let found =
        select_sound (answers_to extension) active r (subst (λ x. IsIn r x) (sym e) (inl refl)) in
      let listed = select_sound is_active (api_extensions owner) r found.1 in
      let (sees, there) = listed_sound ctx.directory owner r listed.1 in
      (
        r,
        same h,
        (
          there,
          sees,
          listed.0,
          (answers_to-IsAsked extension r).0 found.0,
          λ s m own a t. alone s (
              subst (λ x. IsIn s x) e
                (select_complete (answers_to extension) active s
                  (select_complete is_active (api_extensions owner) s
                    (listed_complete ctx.directory owner s own m) a)
                  ((answers_to-IsAsked extension s).1 t))),
        ),
      )
    where
      same : Chosen.chosen (row_key r) ≡ Chosen.chosen key → row_key r ≡ key
      same q = cc

      alone : (s : ExtensionRow) → IsIn s (r ∷ []) → s ≡ r
      alone s (inl q) = q
      alone s (inr m) = elim m [ ]
  only_match-chosen owner extension key (r ∷ s ∷ rows) e h = cc

  -- The extension that a request is allowed to use is an active row of the account (of any account
  -- for the platform), with the key that was asked for, or with its digits where no line was named,
  -- and no other active row of the account is.
  pub find_extension-chosen :
      (unicode : ℕ → Digit) (owner : Option ℕ) (extension key : Text)
      → find_extension unicode owner extension ≡ Chosen.chosen key
      → (r : ExtensionRow) × (row_key r ≡ key) × IsOnlyAsked owner extension r
  unfolding find_extension
  find_extension-chosen unicode owner extension key h =
      elim (Bool-cases (isdigit unicode (extension_digits extension))) [
        | inr u ↦ absurd (rw (u, find_extension) at h)
        | inl u ↦ elim (Option-cases (parse_int unicode (extension_digits extension))) [
          | inl v ↦ raised_absurd (rw (u, v, find_extension) at h)
          | inr (n, v) ↦ elim (Bool-cases (leb 101 n && leb n 999)) [
            | inr w ↦ absurd (rw (u, v, w, find_extension) at h)
            | inl w ↦
                only_match-chosen owner extension key _ refl (rw (u, v, w, find_extension) at h)
          ]
        ]
      ]
    where
      absurd : {B : Type 0} {why : Refusal} → Chosen.refused why ≡ Chosen.chosen key → B
      absurd q = cc

      raised_absurd : {B : Type 0} → Chosen.raised ≡ Chosen.chosen key → B
      raised_absurd q = cc

  -- If no row of an account has an at sign in its digits, `call_allowed` refuses the account every
  -- call whose extension has one, as each stored key of a line has.
  pub call_allowed-keyed :
      (owner : ℕ) (call : Call)
      → All (λ (r : ExtensionRow). has_char 64 r.digits ≡ false) (api_extensions (some owner))
      → has_char 64 call.extension ≡ true
      → call_allowed (some owner) call ≡ false
  unfolding call_allowed
  call_allowed-keyed owner call plain keyed = elim (Bool-cases (call_allowed (some owner) call)) [
    | inr u ↦ u
    | inl u ↦
        clash (digits_plain (api_extensions (some owner)) plain (mem_text-IsIn call.extension _ u))
  ]
    where
      digits_plain :
          (rows : List ExtensionRow)
          → All (λ (r : ExtensionRow). has_char 64 r.digits ≡ false) rows
          → IsIn call.extension (map (λ (r : ExtensionRow). r.digits) rows)
          → has_char 64 call.extension ≡ false
      digits_plain [] h m = elim m [ ]
      digits_plain (r ∷ rows) h (inl q) = subst (λ t. has_char 64 t ≡ false) (sym q) h.0
      digits_plain (r ∷ rows) h (inr m) = digits_plain rows h.1 m

      clash : {B : Type 0} → has_char 64 call.extension ≡ false → B
      clash q = cc
