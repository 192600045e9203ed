-- ===== src/Access/Calls.antt =====
-- The requests of the API about calls (`build_call`, `get_call` and `call_allowed` in
-- app/routes.py), by an account or by the platform.
pub mod Digits
pub mod Answers
use calling_integration.Prelude.{
  ℕ, suc, Bool, true, false, not, ◌&&◌, ◌||◌, List, [], ◌∷◌, Option, none, some, Text, text_eq, ◌≡◌,
  refl, sym, subst, inl, inr, ◌+◌, ◌*◌, ◌-◌, ltb, is_empty, length, any, mem_text, map, select,
  find, leb, ◌==◌, Bool-cases, if◌then◌else◌, strip, codes, is_numeric, all_digits, starts_with,
  has_char, is_digit, IsIn, select_sound, select_complete, All, mem_text-IsIn,
}
use calling_integration.Naming.{extension_digits, extension_scope}
use calling_integration.Directory.{ExtensionRow, row_key, list_extensions, digits_value}
use calling_integration.Calls.{Call}
use calling_integration.Engine.World.{
  World, M, Error, Result, ok, pure, raise, attempt, get_call, ◌>>=◌,
}
use calling_integration.Engine.Context.{Ctx, ask}
use calling_integration.Engine.Start.{start_outbound}
use calling_integration.Engine.Logic.{IsSound, Keeps, Any}
use calling_integration.Engine.Logic.Rules.{
  pure-Quiet, Quiet-Keeps, Quiet-then, keep-then, if-Keeps, attempt-Keeps,
}
use calling_integration.Engine.Quiet.{ask-Quiet}
use calling_integration.Engine.Settled.Start.{start_outbound-Keeps}

-- The JSON object of the request, its texts as `str` gives them.
pub record Body : Type 0 where
  pub phone : Text
  pub extension : Text
  pub provider : Text
  pub caller_id_number : Text
  pub contact_id : Option Text
  pub member_id : Option Text

-- Why no call is made. `engine_error` has the message of the engine.
pub data Refusal : Type 0 where
  not_object not_ready phone_missing phone_invalid bad_extension not_configured : Refusal
  ambiguous unavailable : Refusal
  engine_error : Text → Refusal

abbrev pub status_code : Refusal → ℕ
status_code Refusal.not_ready = 503
status_code Refusal.unavailable = 502
status_code _ = 400

-- `raised` stands for the `ValueError` of `int`.
pub data Chosen : Type 0 where
  chosen : Text → Chosen
  refused : Refusal → Chosen
  raised : Chosen

-- `E164_RE`
unfoldable pub is_e164 : Text → Bool
is_e164 [] = false
is_e164 (plus ∷ []) = false
is_e164 (plus ∷ c ∷ digits) =
    plus == 43
    && (leb 49 c && leb c 57)
    && all_digits digits
    && (leb 7 (length digits) && leb (length digits) 14)

-- What Python makes of a character: `str.isdigit` holds of all but the first kind, and `int` reads
-- the numerals only (a superscript is an `other_digit`).
pub data Digit : Type 0 where
  no_digit other_digit : Digit
  numeral : ℕ → Digit

-- `unicode` is the table of the characters that are not ASCII.
abbrev pub digit_of : (ℕ → Digit) → ℕ → Digit
digit_of unicode c =
    if is_digit c then Digit.numeral (c - 48) else if ltb c 128 then Digit.no_digit else unicode c

abbrev pub is_some_digit : Digit → Bool
is_some_digit Digit.no_digit = false
is_some_digit Digit.other_digit = true
is_some_digit (Digit.numeral v) = true

abbrev pub is_numeral : Digit → Bool
is_numeral (Digit.numeral v) = true
is_numeral _ = false

abbrev numeral_value : Digit → ℕ
numeral_value (Digit.numeral v) = v
numeral_value _ = 0

-- `digits.isdigit()`
unfoldable pub isdigit : (ℕ → Digit) → Text → Bool
isdigit unicode digits =
    not (is_empty digits) && not (any (λ c. not (is_some_digit (digit_of unicode c))) digits)

unfoldable pub int_value : (ℕ → Digit) → ℕ → Text → ℕ
int_value unicode acc [] = acc
int_value unicode acc (c ∷ s) = int_value unicode (acc * 10 + numeral_value (digit_of unicode c)) s

-- `sys.get_int_max_str_digits()`
abbrev pub max_digits : ℕ
max_digits = 4300

-- `int(digits)`, of a text of digits; `none` stands for its `ValueError`.
unfoldable pub parse_int : (ℕ → Digit) → Text → Option ℕ
unfolding int_value
parse_int unicode digits =
    if ltb max_digits (length digits) || any (λ c. not (is_numeral (digit_of unicode c))) digits
    then none
    else some (int_value unicode 0 digits)

abbrev pub answers_to : Text → ExtensionRow → Bool
answers_to extension r =
    text_eq (row_key r) extension
    || (is_empty (extension_scope extension) && text_eq r.digits (extension_digits extension))

unfoldable pub only_match : List ExtensionRow → Chosen
only_match [] = Chosen.refused Refusal.not_configured
only_match (r ∷ []) = Chosen.chosen (row_key r)
only_match (r ∷ s ∷ rows) = Chosen.refused Refusal.ambiguous

-- The errors whose message the caller may see.
unfoldable pub engine_refusal : Error → Refusal
engine_refusal (Error.runtime_error message) =
    if starts_with message (codes "No active callback number")
      || starts_with message (codes "The selected callback number")
      || starts_with message (codes "No active SIP provider")
    then Refusal.engine_error message
    else Refusal.unavailable
engine_refusal _ = Refusal.unavailable

pub data Outcome : Type 0 where
  started : Call → Outcome
  not_started : Refusal → Outcome

-- `CALL_ID_RE`
unfoldable pub is_call_id : Text → Bool
is_call_id id =
    leb 1 (length id)
    && leb (length id) 128
    && not (
        any
          (λ c. not (
            is_digit c
            || (leb 65 c && leb c 90)
            || (leb 97 c && leb c 122)
            || c == 46
            || c == 95
            || c == 58
            || c == 45))
          id)

abbrev none_if_empty : Text → Option Text
none_if_empty [] = none
none_if_empty (c ∷ s) = some (c ∷ s)

module _ ⦃ctx : Ctx⦄ where
  -- `api_extensions`: the rows of the account, or all of them for the platform.
  unfoldable pub api_extensions : Option ℕ → List ExtensionRow
  api_extensions owner = list_extensions ctx.directory owner

  unfoldable pub find_extension : (ℕ → Digit) → Option ℕ → Text → Chosen
  unfolding api_extensions isdigit parse_int only_match
  find_extension unicode owner extension =
      let digits = extension_digits extension in
      if not (isdigit unicode digits)
      then Chosen.refused Refusal.bad_extension
      else (elim (parse_int unicode digits) [
        | none ↦ Chosen.raised
        | some n ↦
            if not (leb 101 n && leb n 999)
            then Chosen.refused Refusal.bad_extension
            else only_match (
                select (answers_to extension)
                  (select (λ (r : ExtensionRow). r.active) (api_extensions owner)))
      ])

  -- `call_default` is what `call_default_for` or `_configured_default_extension` gives.
  unfoldable pub owned_default : Option ℕ → Text → Text
  unfolding api_extensions
  owned_default none call_default = call_default
  owned_default (some o) call_default =
      if not (is_empty call_default)
      then call_default
      else (elim (find (λ (r : ExtensionRow). r.active) (api_extensions (some o))) [
        | none ↦ []
        | some r ↦ row_key r
      ])

  unfoldable pub requested_extension : Option ℕ → Text → Body → Text
  unfolding owned_default
  requested_extension owner call_default body =
      strip (if is_empty body.extension then owned_default owner call_default else body.extension)

  unfoldable pub start_chosen : Body → Text → M Outcome
  unfolding engine_refusal
  start_chosen body extension =
      attempt
        (start_outbound (strip body.phone) extension body.contact_id body.member_id
            (strip body.provider) (none_if_empty (strip body.caller_id_number))
          >>= λ call. pure (Outcome.started call))
        (λ e. pure (Outcome.not_started (engine_refusal e)))

  unfoldable pub start_requested : Body → Chosen → M Outcome
  unfolding start_chosen
  start_requested body (Chosen.refused why) = pure (Outcome.not_started why)
  start_requested body (Chosen.chosen extension) = start_chosen body extension
  start_requested body Chosen.raised = raise Error.value_error

  -- The error of `int` is not caught.
  unfoldable pub build_call : (ℕ → Digit) → Option ℕ → Text → Option Body → M Outcome
  unfolding is_e164 requested_extension find_extension start_requested
  build_call unicode owner call_default none = pure (Outcome.not_started Refusal.not_object)
  build_call unicode owner call_default (some body) = ask ctx.ari_ready >>= λ ready.
      if not ready
      then pure (Outcome.not_started Refusal.not_ready)
      else if is_empty (strip body.phone)
      then pure (Outcome.not_started Refusal.phone_missing)
      else if not (is_e164 (strip body.phone))
      then pure (Outcome.not_started Refusal.phone_invalid)
      else start_requested body
          (find_extension unicode owner (requested_extension owner call_default body))

  -- `call_allowed`: the platform sees every call, an account the calls of its extensions.
  unfoldable pub call_allowed : Option ℕ → Call → Bool
  unfolding api_extensions
  call_allowed none call = true
  call_allowed (some o) call =
      mem_text call.extension (map (λ (r : ExtensionRow). r.digits) (api_extensions (some o)))

  -- `get_call`: a call that the client may not see is not found.
  unfoldable pub visible_call : Option ℕ → Text → M (Option Call)
  unfolding is_call_id call_allowed
  visible_call owner id =
      if not (is_call_id id)
      then pure none
      else (get_call id >>= λ found. pure (elim found [
        | none ↦ none
        | some call ↦ if call_allowed owner call then some call else none
      ]))
