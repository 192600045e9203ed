-- ===== src/Engine/World.antt =====
-- The state of the service and the monad of its methods: a method changes the state and returns a
-- value or raises. What was written stays written when it raises.
use calling_integration.Prelude.{ℕ, Bool, true, false, List, [], ◌∷◌, Option, none, some, Text}
use calling_integration.Calls.{Call, Table, Change, get, update}
use calling_integration.Engine.Plan.{Act, Session}

pub data Error : Type 0 where
  asterisk_error request_error attribute_error integrity_error value_error : Error
  runtime_error : Text → Error

pub data Result (A : Type 0) : Type 0 where
  ok : A → Result A
  raised : Error → Result A

-- `log` holds what was sent, the newest first; `turn` counts the questions asked of the outside.
pub record World : Type 0 where
  pub calls : Table
  pub leg_index : List (Text × Text)
  pub sessions : List (Text × Session)
  pub finalizing : List Text
  pub log : List Act
  pub turn : ℕ

abbrev pub M : Type 0 → Type 0
M A = World → Result A × World

abbrev pub Done : Type 0
Done = M (Unit {0})

module _ {A : Type 0} where
  unfoldable pub pure : A → M A
  pure a w = (ok a, w)

  unfoldable pub raise : Error → M A
  raise e w = (raised e, w)

  unfoldable pub gets : (World → A) → M A
  gets f w = (ok (f w), w)

  -- `try: m except Exception: handler`
  unfoldable pub attempt : M A → (Error → M A) → M A
  attempt m handler w = let (r, w') = m w in elim r [ ok a ↦ (ok a, w') | raised e ↦ handler e w' ]

  -- `try: m except Exception: handler; return`, and then the rest.
  unfoldable pub try_else : Done → (Error → M A) → M A → M A
  try_else m handler rest w =
      let (r, w') = m w in elim r [ ok _ ↦ rest w' | raised e ↦ handler e w' ]

  -- `try: m finally: after`, where `after` does not raise.
  unfoldable pub finally : M A → (World → World) → M A
  finally m after w = let (r, w') = m w in (r, after w')

  -- An attribute of a value that may be None.
  unfoldable pub need : Option A → M A
  need none = raise Error.attribute_error
  need (some a) = pure a

abbrev pub done : Done
done = pure tt

infixl 5 ◌>>=◌ ◌>>◌
unfoldable pub ◌>>=◌ : {A B : Type 0} → M A → (A → M B) → M B
◌>>=◌ m f w = let (r, w') = m w in elim r [ ok a ↦ f a w' | raised e ↦ (raised e, w') ]

abbrev pub ◌>>◌ : {A B : Type 0} → M A → M B → M B
m >> k = m >>= λ _. k

unfoldable pub modify : (World → World) → Done
modify f w = (ok tt, f w)

-- `if test: m`
unfoldable pub when : Bool → Done → Done
when true m = m
when false m = done

-- An entry of the log that asks nothing of the outside: a row of the settings database.
unfoldable pub write : Act → Done
write act w = (ok tt, record w { log = act ∷ w.log })

-- `for x in xs: body(x)`
unfoldable pub for_each : {A : Type 0} → List A → (A → Done) → Done
for_each [] body = done
for_each (x ∷ xs) body = body x >> for_each xs body

unfoldable pub get_call : Text → M (Option Call)
get_call id = gets (λ w. get id w.calls)

unfoldable pub update_call : Text → List Change → M (Option Call)
update_call id changes w =
    let (c, table) = update id changes w.calls in (ok c, record w { calls = table })
