-- ===== src/Prelude/Outcomes.antt =====
-- What a call of the program ends in: a value, an error value, or a panic. `stuck` is none of
-- these: a loop of the model ran out of fuel.
use mathlib.Core.Path.{◌≡◌, refl, subst}
use mathlib.Core.Bool.{Bool, true, false}
use mathlib.Core.Option.{Option, none, some}
use mathlib.Core.Logic.{◌⊎◌, inl, inr}

pub data Outcome {ℓ κ} (A : Type ℓ) (E : Type κ) : Type (ℓ ⊔ κ) where
  ok : A → Outcome A E
  err : E → Outcome A E
  panic : Outcome A E
  stuck : Outcome A E

infixl 5 ◌>>=◌ ◌>>◌
abbrev pub ◌>>=◌ {ℓ κ μ} :
    {A : Type ℓ} {B : Type κ} {E : Type μ} → Outcome A E → (A → Outcome B E) → Outcome B E
ok a >>= f = f a
err e >>= f = err e
panic >>= f = panic
stuck >>= f = stuck

abbrev pub ◌>>◌ {κ μ} : {B : Type κ} {E : Type μ} → Outcome (Unit {0}) E → Outcome B E → Outcome B E
ok a >> k = k
err e >> k = err e
panic >> k = panic
stuck >> k = stuck

-- `if b { return Err(e); }`
abbrev pub fail_if {μ} : {E : Type μ} → Bool → E → Outcome (Unit {0}) E
fail_if true e = err e
fail_if false e = ok tt

-- `assert!(b)`
abbrev pub assert {μ} : {E : Type μ} → Bool → Outcome (Unit {0}) E
assert true = ok tt
assert false = panic

-- `o.ok_or(e)?`
abbrev pub ok_or {ℓ μ} : {A : Type ℓ} {E : Type μ} → Option A → E → Outcome A E
ok_or none e = err e
ok_or (some a) e = ok a

-- `r.unwrap_or(d)`: an error gives way to the default, a panic does not.
abbrev pub unwrap_or_default {ℓ κ μ} :
    {A : Type ℓ} {E : Type κ} {F : Type μ} → A → Outcome A E → Outcome A F
unwrap_or_default d (ok a) = ok a
unwrap_or_default d (err e) = ok d
unwrap_or_default d panic = panic
unwrap_or_default d stuck = stuck

-- The call comes back, with a value or an error: no panic, and no lack of fuel.
abbrev pub Returns {ℓ κ} : {A : Type ℓ} {E : Type κ} → Outcome A E → Type 0
Returns (ok a) = Unit {0}
Returns (err e) = Unit {0}
Returns panic = ⊥
Returns stuck = ⊥

module _ {ℓ κ} {A : Type ℓ} {E : Type κ} where
  pub Returns-cases :
      (r : Outcome A E) → Returns r → ((a : A) × (r ≡ ok a)) ⊎ ((e : E) × (r ≡ err e))
  Returns-cases (ok a) h = inl (a, refl)
  Returns-cases (err e) h = inr (e, refl)
  Returns-cases panic h = absurd h
  Returns-cases stuck h = absurd h

  pub Returns->>= {μ} :
      {B : Type μ} (r : Outcome A E) (f : A → Outcome B E)
      → Returns r
      → ((a : A) → r ≡ ok a → Returns (f a))
      → Returns (r >>= f)
  Returns->>= (ok a) f h k = k a refl
  Returns->>= (err e) f h k = tt
  Returns->>= panic f h k = absurd h
  Returns->>= stuck f h k = absurd h

  pub >>=-eq-ok {μ} :
      {B : Type μ} (r : Outcome A E) (f : A → Outcome B E) {b : B}
      → (r >>= f) ≡ ok b
      → (a : A) × (r ≡ ok a) × (f a ≡ ok b)
  >>=-eq-ok (ok a) f h = (a, refl, h)
  >>=-eq-ok (err e) f h = cc
  >>=-eq-ok panic f h = cc
  >>=-eq-ok stuck f h = cc

module _ {μ κ} {B : Type μ} {E : Type κ} where
  pub Returns->> :
      (r : Outcome (Unit {0}) E) (k : Outcome B E) → Returns r → Returns k → Returns (r >> k)
  Returns->> (ok a) k h w = w
  Returns->> (err e) k h w = tt
  Returns->> panic k h w = absurd h
  Returns->> stuck k h w = absurd h

  pub >>-eq-ok :
      (r : Outcome (Unit {0}) E) (k : Outcome B E) {b : B}
      → (r >> k) ≡ ok b
      → (r ≡ ok tt) × (k ≡ ok b)
  >>-eq-ok (ok a) k h = (refl, h)
  >>-eq-ok (err e) k h = cc
  >>-eq-ok panic k h = cc
  >>-eq-ok stuck k h = cc

pub ok-injective {ℓ κ} :
    {A : Type ℓ} {E : Type κ} {a b : A} → ◌≡◌ {A = Outcome A E} (ok a) (ok b) → a ≡ b
ok-injective h = cc

module _ {E : Type 0} (e : E) where
  pub fail_if-Returns : (b : Bool) → Returns (fail_if b e)
  fail_if-Returns true = tt
  fail_if-Returns false = tt

  pub ok_or-Returns : {A : Type 0} (o : Option A) → Returns (ok_or o e)
  ok_or-Returns none = tt
  ok_or-Returns (some a) = tt

-- The value, where there is one, has the property.
pub record OnOk {A E : Type 0} (P : A → Type 0) (r : Outcome A E) : Type 0 where
  pub on_ok : (a : A) → r ≡ ok a → P a

module _ {B E : Type 0} {Q : B → Type 0} where
  -- The first value has a property, too.
  pub OnOk->>= :
      {A : Type 0} (P : A → Type 0) (r : Outcome A E) (f : A → Outcome B E)
      → OnOk P r
      → ((a : A) → P a → OnOk Q (f a))
      → OnOk Q (r >>= f)
  OnOk->>= P r f k h = record {
    on_ok = λ b e. let (a, q, q') = >>=-eq-ok r f e in (h a (k.on_ok a q)).on_ok b q';
  }

  -- Nothing is known of the first value.
  pub OnOk-bind :
      {A : Type 0} (r : Outcome A E) (f : A → Outcome B E)
      → ((a : A) → OnOk Q (f a))
      → OnOk Q (r >>= f)
  OnOk-bind r f h = record { on_ok = λ b e. let (a, _, q) = >>=-eq-ok r f e in (h a).on_ok b q }

  pub OnOk->> : (r : Outcome (Unit {0}) E) (k : Outcome B E) → OnOk Q k → OnOk Q (r >> k)
  OnOk->> r k h = record { on_ok = λ b e. let (_, q) = >>-eq-ok r k e in h.on_ok b q }

  pub OnOk-ok : (b : B) → Q b → OnOk {E = E} Q (ok b)
  OnOk-ok b p = record { on_ok = λ c e. subst Q (ok-injective e) p }

-- The error, where there is one, has the property.
pub record OnErr {A E : Type 0} (P : E → Type 0) (r : Outcome A E) : Type 0 where
  pub on_err : (e : E) → r ≡ err e → P e

module _ {E : Type 0} {P : E → Type 0} where
  pub OnErr-ok : {A : Type 0} (a : A) → OnErr {A = A} P (ok a)
  OnErr-ok a = record { on_err = λ e q. cc }

  pub OnErr-panic : {A : Type 0} → OnErr {A = A} P panic
  OnErr-panic = record { on_err = λ e q. cc }

  pub OnErr-stuck : {A : Type 0} → OnErr {A = A} P stuck
  OnErr-stuck = record { on_err = λ e q. cc }

  pub OnErr-err : {A : Type 0} (e : E) → P e → OnErr {A = A} P (err e)
  OnErr-err e p = record { on_err = λ x q. subst P (cc) p }

  pub OnErr->>= :
      {A B : Type 0} (r : Outcome A E) (f : A → Outcome B E)
      → OnErr P r
      → ((a : A) → r ≡ ok a → OnErr P (f a))
      → OnErr P (r >>= f)
  OnErr->>= (ok a) f h k = k a refl
  OnErr->>= (err e) f h k = OnErr-err e (h.on_err e refl)
  OnErr->>= panic f h k = OnErr-panic
  OnErr->>= stuck f h k = OnErr-stuck

  pub OnErr->> :
      {B : Type 0} (r : Outcome (Unit {0}) E) (k : Outcome B E)
      → OnErr P r
      → (r ≡ ok tt → OnErr P k)
      → OnErr P (r >> k)
  OnErr->> (ok tt) k h g = g refl
  OnErr->> (err e) k h g = OnErr-err e (h.on_err e refl)
  OnErr->> panic k h g = OnErr-panic
  OnErr->> stuck k h g = OnErr-stuck

  pub fail_if-OnErr : (b : Bool) (e : E) → (b ≡ true → P e) → OnErr P (fail_if b e)
  fail_if-OnErr true e h = OnErr-err e (h refl)
  fail_if-OnErr false e h = OnErr-ok tt

  pub ok_or-OnErr : {A : Type 0} (o : Option A) (e : E) → (o ≡ none → P e) → OnErr P (ok_or o e)
  ok_or-OnErr none e h = OnErr-err e (h refl)
  ok_or-OnErr (some a) e h = OnErr-ok a
