-- ===== src/Engine/Logic/Branches.antt =====
-- The rules for a step whose result decides how the method goes on.
use calling_integration.Prelude.{
  ◌≡◌, ◌≢◌, refl, sym, ◌∙◌, subst, Bool, true, false, Option, none, some, if◌then◌else◌,
}
use calling_integration.Calls.{Call, Table}
use calling_integration.Engine.World.{
  World, M, Done, Result, ok, raised, pure, raise, done, need, ◌>>=◌,
}
use calling_integration.Engine.Logic.{IsSound, Stays, Stays-refl, Stays-trans, Quiet, Keeps}

-- `need` finds the row that the write returned.
pub option_need :
    {B : Type 0} {P : Table → Type 0} (updated : Option Call) {f : Call → M B}
    → ((row : Call) → updated ≡ some row → Keeps P (f row))
    → Keeps P (need updated >>= f)
unfolding need raise pure ◌>>=◌
option_need none k = record { kept = λ w sound p. (sound, Stays-refl w.calls) }
option_need (some row) k = record { kept = λ w sound p. (k row refl).kept w sound p }

-- A step that does not answer `false`.
pub record Agrees (m : M Bool) : Type 0 where
  pub never : (w : World) → (m w).0 ≢ ok false

-- A step that answers `false` only of a table that it leaves alone.
pub record Declines (m : M Bool) : Type 0 where
  pub same : (w : World) → (m w).0 ≡ ok false → (m w).1.calls ≡ w.calls

pub pure-Agrees : Agrees (pure true)
unfolding pure
pure-Agrees = record { never = λ w q. differ q }
  where
    differ : Path (Result Bool) (ok true) (ok false) → ⊥
    differ q = cc

pub Quiet-Declines : {m : M Bool} → Quiet m → Declines m
Quiet-Declines q = record { same = λ w _. q.same w }

pub Agrees-Declines : {m : M Bool} → Agrees m → Declines m
Agrees-Declines a = record { same = λ w q. absurd (a.never w q) }

module _ {A : Type 0} where
  after_agrees :
      (r : Result A) (f : A → M Bool) (w : World)
      → ((a : A) → (f a w).0 ≢ ok false)
      → (elim r as (λ _. Result Bool × World) [ ok a ↦ f a w | raised e ↦ (raised e, w) ]).0
        ≢ ok false
  after_agrees (ok a) f w q = q a
  after_agrees (raised e) f w q = λ h. cc

  pub bind-Agrees : (m : M A) {f : A → M Bool} → ((a : A) → Agrees (f a)) → Agrees (m >>= f)
  unfolding ◌>>=◌
  bind-Agrees m {f} q = record {
    never = λ w. after_agrees (m w).0 f (m w).1 (λ a. (q a).never (m w).1);
  }

  after_declines :
      (r : Result A) (f : A → M Bool) (w : World)
      → ((a : A) → (f a w).0 ≡ ok false → (f a w).1.calls ≡ w.calls)
      → let u = elim r as (λ _. Result Bool × World) [ ok a ↦ f a w | raised e ↦ (raised e, w) ] in
        u.0 ≡ ok false → u.1.calls ≡ w.calls
  after_declines (ok a) f w q = q a
  after_declines (raised e) f w q = λ h. refl

  pub bind-Declines :
      {m : M A} {f : A → M Bool} → Quiet m → ((a : A) → Declines (f a)) → Declines (m >>= f)
  unfolding ◌>>=◌
  bind-Declines {m} {f} qm q = record {
    same = λ w h. after_declines (m w).0 f (m w).1 (λ a. (q a).same (m w).1) h ∙ qm.same w;
  }

pub if-Declines :
    (b : Bool) {m n : M Bool} → Declines m → Declines n → Declines (if b then m else n)
if-Declines true p q = p
if-Declines false p q = q

pub option-Declines :
    {B : Type 0} (o : Option B) {m : M Bool} {f : B → M Bool}
    → Declines m
    → ((b : B) → Declines (f b))
    → Declines (elim o as (λ _. M Bool) [ none ↦ m | some b ↦ f b ])
option-Declines none p q = p
option-Declines (some b) p q = q b

module _ {P : Table → Type 0} where
  after_answer :
      (r : Result Bool) (n : Done) (w v : World)
      → IsSound w.calls
      → (r ≡ ok false → P w.calls)
      → Keeps P n
      → let u =
          (elim r as (λ _. Result (Unit {0}) × World) [
            | ok b ↦ (if b then done else n) w
            | raised e ↦ (raised e, w)
          ]).1.calls in
        IsSound u × Stays w.calls u
  unfolding pure
  after_answer (ok true) n w v sound p k = (sound, Stays-refl w.calls)
  after_answer (ok false) n w v sound p k = k.kept w sound (p refl)
  after_answer (raised e) n w v sound p k = (sound, Stays-refl w.calls)

  -- The method is over if the step answers `true`.
  pub unless_done :
      {m : M Bool} {n : Done}
      → Keeps P m
      → Declines m
      → Keeps P n
      → Keeps P (m >>= λ b. if b then done else n)
  unfolding ◌>>=◌
  unless_done {m} {n} km dm kn = record {
    kept = λ w sound p.
        let u = (m w).1 in
        let (sound', stays) = km.kept w sound p in
        let (s, k) = after_answer (m w).0 n u w sound' (λ h. subst P (sym (dm.same w h)) p) kn in
        (s, Stays-trans w.calls u.calls ((m >>= λ b. if b then done else n) w).1.calls stays k);
  }
