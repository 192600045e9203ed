-- ===== src/Engine/Logic/Rules.antt =====
-- The rules of the logic, one for each construct of the monad.
use calling_integration.Prelude.{
  ◌≡◌, refl, sym, ◌∙◌, subst, Bool, true, false, List, [], ◌∷◌, Option, none, some, Text,
  if◌then◌else◌,
}
use calling_integration.Calls.{Call, Table, get}
use calling_integration.Engine.Plan.{Act}
use calling_integration.Engine.World.{
  World, M, Done, Error, Result, ok, raised, pure, raise, gets, modify, attempt, try_else, finally,
  need, when, write, for_each, get_call, ◌>>=◌,
}
use calling_integration.Engine.Logic.{IsSound, Stays, Stays-refl, Stays-trans, Quiet, Keeps, Any}

module _ {A : Type 0} where
  pub pure-Quiet : (a : A) → Quiet (pure a)
  unfolding pure
  pure-Quiet a = record { same = λ w. refl }

  pub raise-Quiet : (e : Error) → Quiet (raise {A = A} e)
  unfolding raise
  raise-Quiet e = record { same = λ w. refl }

  pub gets-Quiet : (f : World → A) → Quiet (gets f)
  unfolding gets
  gets-Quiet f = record { same = λ w. refl }

  pub need-Quiet : (o : Option A) → Quiet (need o)
  unfolding need raise pure
  need-Quiet none = record { same = λ w. refl }
  need-Quiet (some a) = record { same = λ w. refl }

  after_attempt :
      (r : Result A) (h : Error → M A) (w : World)
      → ((e : Error) → (h e w).1.calls ≡ w.calls)
      → (elim r as (λ _. Result A × World) [ ok a ↦ (ok a, w) | raised e ↦ h e w ]).1.calls
        ≡ w.calls
  after_attempt (ok a) h w q = refl
  after_attempt (raised e) h w q = q e

  pub attempt-Quiet :
      {m : M A} {h : Error → M A} → Quiet m → ((e : Error) → Quiet (h e)) → Quiet (attempt m h)
  unfolding attempt
  attempt-Quiet {m} {h} qm qh = record {
    same = λ w. after_attempt (m w).0 h (m w).1 (λ e. (qh e).same (m w).1) ∙ qm.same w;
  }

  pub if-Quiet : (b : Bool) {m n : M A} → Quiet m → Quiet n → Quiet (if b then m else n)
  if-Quiet true p q = p
  if-Quiet false p q = q

  pub option-Quiet :
      {B : Type 0} (o : Option B) {m : M A} {f : B → M A}
      → Quiet m
      → ((b : B) → Quiet (f b))
      → Quiet (elim o as (λ _. M A) [ none ↦ m | some b ↦ f b ])
  option-Quiet none p q = p
  option-Quiet (some b) p q = q b

module _ {A B : Type 0} where
  after_bind :
      (r : Result A) (f : A → M B) (w : World)
      → ((a : A) → (f a w).1.calls ≡ w.calls)
      → (elim r as (λ _. Result B × World) [ ok a ↦ f a w | raised e ↦ (raised e, w) ]).1.calls
        ≡ w.calls
  after_bind (ok a) f w q = q a
  after_bind (raised e) f w q = refl

  pub bind-Quiet : {m : M A} {f : A → M B} → Quiet m → ((a : A) → Quiet (f a)) → Quiet (m >>= f)
  unfolding ◌>>=◌
  bind-Quiet {m} {f} qm qf = record {
    same = λ w. after_bind (m w).0 f (m w).1 (λ a. (qf a).same (m w).1) ∙ qm.same w;
  }

pub when-Quiet : (b : Bool) {m : Done} → Quiet m → Quiet (when b m)
unfolding when
when-Quiet true q = q
when-Quiet false q = pure-Quiet tt

pub write-Quiet : (act : Act) → Quiet (write act)
unfolding write
write-Quiet act = record { same = λ w. refl }

pub for_each-Quiet :
    {A : Type 0} (xs : List A) {body : A → Done}
    → ((a : A) → Quiet (body a))
    → Quiet (for_each xs body)
unfolding for_each
for_each-Quiet [] q = pure-Quiet tt
for_each-Quiet (x ∷ xs) q = bind-Quiet (q x) (λ _. for_each-Quiet xs q)

pub modify-Quiet : (f : World → World) → ((w : World) → (f w).calls ≡ w.calls) → Quiet (modify f)
unfolding modify
modify-Quiet f q = record { same = q }

pub ruleset quiet_rules = (
  pure-Quiet, raise-Quiet, gets-Quiet, need-Quiet, attempt-Quiet, if-Quiet, option-Quiet,
  bind-Quiet, when-Quiet, write-Quiet, for_each-Quiet,
)

module _ {A : Type 0} {P : Table → Type 0} where
  pub Quiet-Keeps : {m : M A} → Quiet m → Keeps P m
  Quiet-Keeps {m} q = record {
    kept = λ w sound p.
        subst (λ t. IsSound t × Stays w.calls t) (sym (q.same w)) (sound, Stays-refl w.calls);
  }

  pub if-Keeps : (b : Bool) {m n : M A} → Keeps P m → Keeps P n → Keeps P (if b then m else n)
  if-Keeps true p q = p
  if-Keeps false p q = q

  -- A branch that knows its test.
  pub test-Keeps :
      (b : Bool) {m n : M A}
      → (b ≡ true → Keeps P m)
      → (b ≡ false → Keeps P n)
      → Keeps P (if b then m else n)
  test-Keeps true p q = p refl
  test-Keeps false p q = q refl

  pub option-Keeps :
      {B : Type 0} (o : Option B) {m : M A} {f : B → M A}
      → Keeps P m
      → ((b : B) → o ≡ some b → Keeps P (f b))
      → Keeps P (elim o as (λ _. M A) [ none ↦ m | some b ↦ f b ])
  option-Keeps none p q = p
  option-Keeps (some b) p q = q b refl

  -- What follows from soundness may be assumed.
  pub sound-Keeps :
      {Q : Table → Type 0} {m : M A} → ((t : Table) → IsSound t → P t → Q t) → Keeps Q m → Keeps P m
  sound-Keeps i k = record { kept = λ w sound p. k.kept w sound (i w.calls sound p) }

  pub weaken-Keeps :
      {Q : Table → Type 0} {m : M A} → ((t : Table) → P t → Q t) → Keeps Q m → Keeps P m
  weaken-Keeps i k = record { kept = λ w sound p. k.kept w sound (i w.calls p) }

module _ {A B : Type 0} where
  after_quiet :
      (r : Result A) (f : A → M B) (w : World)
      → IsSound w.calls
      → ((a : A) → IsSound (f a w).1.calls × Stays w.calls (f a w).1.calls)
      → let u =
          (elim r as (λ _. Result B × World) [ ok a ↦ f a w | raised e ↦ (raised e, w) ]).1.calls in
        IsSound u × Stays w.calls u
  after_quiet (ok a) f w sound q = q a
  after_quiet (raised e) f w sound q = (sound, Stays-refl w.calls)

module _ {A B : Type 0} {P : Table → Type 0} where
  -- First a quiet step: the rest starts from the same table.
  pub Quiet-then : {m : M A} {f : A → M B} → Quiet m → ((a : A) → Keeps P (f a)) → Keeps P (m >>= f)
  unfolding ◌>>=◌
  Quiet-then {m} {f} qm kf = record {
    kept = λ w sound p.
        let u = (m w).1 in
        let sound' : IsSound u.calls = subst IsSound (sym (qm.same w)) sound in
        let p' : P u.calls = subst P (sym (qm.same w)) p in
        let (s, k) = after_quiet (m w).0 f u sound' (λ a. (kf a).kept u sound' p') in
        (s, subst (λ t. Stays t ((m >>= f) w).1.calls) (qm.same w) k);
  }

  -- First a step that keeps the table: the rest may assume nothing.
  pub keep-then :
      {m : M A} {f : A → M B} → Keeps P m → ((a : A) → Keeps Any (f a)) → Keeps P (m >>= f)
  unfolding ◌>>=◌
  keep-then {m} {f} km kf = record {
    kept = λ w sound p.
        let u = (m w).1 in
        let (sound', stays) = km.kept w sound p in
        let (s, k) = after_quiet (m w).0 f u sound' (λ a. (kf a).kept u sound' tt) in
        (s, Stays-trans w.calls u.calls ((m >>= f) w).1.calls stays k);
  }

-- Whatever a handler may assume, it may assume nothing.
module _ {A : Type 0} where
  after_raise :
      (r : Result A) (h : Error → M A) (w : World)
      → IsSound w.calls
      → ((e : Error) → IsSound (h e w).1.calls × Stays w.calls (h e w).1.calls)
      → let u =
          (elim r as (λ _. Result A × World) [ ok a ↦ (ok a, w) | raised e ↦ h e w ]).1.calls in
        IsSound u × Stays w.calls u
  after_raise (ok a) h w sound q = (sound, Stays-refl w.calls)
  after_raise (raised e) h w sound q = q e

module _ {A : Type 0} where
  after_try :
      (r : Result (Unit {0})) (h : Error → M A) (n : M A) (w : World)
      → ((e : Error) → IsSound (h e w).1.calls × Stays w.calls (h e w).1.calls)
      → IsSound (n w).1.calls × Stays w.calls (n w).1.calls
      → let u = (elim r as (λ _. Result A × World) [ ok _ ↦ n w | raised e ↦ h e w ]).1.calls in
        IsSound u × Stays w.calls u
  after_try (ok _) h n w p q = q
  after_try (raised e) h n w p q = p e

module _ {A : Type 0} {P : Table → Type 0} where
  pub attempt-Keeps :
      {m : M A} {h : Error → M A}
      → Keeps P m
      → ((e : Error) → Keeps Any (h e))
      → Keeps P (attempt m h)
  unfolding attempt
  attempt-Keeps {m} {h} km kh = record {
    kept = λ w sound p.
        let u = (m w).1 in
        let (sound', stays) = km.kept w sound p in
        let (s, k) = after_raise (m w).0 h u sound' (λ e. (kh e).kept u sound' tt) in
        (s, Stays-trans w.calls u.calls (attempt m h w).1.calls stays k);
  }

  -- A quiet step is tried: its handler starts from the same table.
  pub attempt-Quiet-Keeps :
      {m : M A} {h : Error → M A} → Quiet m → ((e : Error) → Keeps P (h e)) → Keeps P (attempt m h)
  unfolding attempt
  attempt-Quiet-Keeps {m} {h} qm kh = record {
    kept = λ w sound p.
        let u = (m w).1 in
        let sound' : IsSound u.calls = subst IsSound (sym (qm.same w)) sound in
        let p' : P u.calls = subst P (sym (qm.same w)) p in
        let (s, k) = after_raise (m w).0 h u sound' (λ e. (kh e).kept u sound' p') in
        (s, subst (λ t. Stays t (attempt m h w).1.calls) (qm.same w) k);
  }

  pub try_else-Keeps :
      {m : Done} {h : Error → M A} {n : M A}
      → Quiet m
      → ((e : Error) → Keeps P (h e))
      → Keeps P n
      → Keeps P (try_else m h n)
  unfolding try_else
  try_else-Keeps {m} {h} {n} qm kh kn = record {
    kept = λ w sound p.
        let u = (m w).1 in
        let sound' : IsSound u.calls = subst IsSound (sym (qm.same w)) sound in
        let p' : P u.calls = subst P (sym (qm.same w)) p in
        let (s, k) = after_try (m w).0 h n u (λ e. (kh e).kept u sound' p') (kn.kept u sound' p') in
        (s, subst (λ t. Stays t (try_else m h n w).1.calls) (qm.same w) k);
  }

  pub finally-Keeps :
      {m : M A} (after : World → World)
      → ((w : World) → (after w).calls ≡ w.calls)
      → Keeps P m
      → Keeps P (finally m after)
  unfolding finally
  finally-Keeps {m} after q km = record {
    kept =
        λ w sound p. subst (λ t. IsSound t × Stays w.calls t) (sym (q (m w).1)) (km.kept w sound p);
  }

pub when-Keeps :
    {P : Table → Type 0} (b : Bool) {m : Done} → (b ≡ true → Keeps P m) → Keeps P (when b m)
unfolding when
when-Keeps true q = q refl
when-Keeps false q = Quiet-Keeps (pure-Quiet tt)

pub for_each-Keeps :
    {A : Type 0} (xs : List A) {body : A → Done}
    → ((a : A) → Keeps Any (body a))
    → Keeps Any (for_each xs body)
unfolding for_each
for_each-Keeps [] q = Quiet-Keeps (pure-Quiet tt)
for_each-Keeps (x ∷ xs) q = keep-then (q x) (λ _. for_each-Keeps xs q)

-- A row is read: the rest knows what was found.
pub get-then :
    {B : Type 0} {P : Table → Type 0} (id : Text) {f : Option Call → M B}
    → ((found : Option Call) → Keeps (λ t. P t × (get id t ≡ found)) (f found))
    → Keeps P (get_call id >>= f)
unfolding get_call gets ◌>>=◌
get-then id {f} k = record { kept = λ w sound p. (k (get id w.calls)).kept w sound (p, refl) }

-- A step after which `P` still holds.
pub stable-then :
    {A B : Type 0} {P : Table → Type 0} {m : M A} {f : A → M B}
    → Keeps P m
    → ((w : World) → P w.calls → P (m w).1.calls)
    → ((a : A) → Keeps P (f a))
    → Keeps P (m >>= f)
unfolding ◌>>=◌
stable-then {P = P} {m = m} {f = f} km stable kf = record {
  kept = λ w sound p.
      let u = (m w).1 in
      let (sound', stays) = km.kept w sound p in
      let (s, k) = after_quiet (m w).0 f u sound' (λ a. (kf a).kept u sound' (stable w p)) in
      (s, Stays-trans w.calls u.calls ((m >>= f) w).1.calls stays k);
}

pub get_call-Quiet : (id : Text) → Quiet (get_call id)
unfolding get_call
get_call-Quiet id = gets-Quiet _
