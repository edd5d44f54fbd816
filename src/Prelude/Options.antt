-- ===== src/Prelude/Options.antt =====
-- Options by clauses, so that they compute in statements.
use mathlib.Core.Option.{Option, none, some}
use mathlib.Core.Path.{◌≡◌, refl}
use mathlib.Core.Logic.{◌⊎◌, inl, inr}

-- `Option::map`
abbrev pub map_option {ℓ κ} : {A : Type ℓ} {B : Type κ} → (A → B) → Option A → Option B
map_option f none = none
map_option f (some a) = some (f a)

-- `Option::and_then`
abbrev pub and_then {ℓ κ} : {A : Type ℓ} {B : Type κ} → Option A → (A → Option B) → Option B
and_then none f = none
and_then (some a) f = f a

-- `Option::unwrap_or`
abbrev pub unwrap_or {ℓ} : {A : Type ℓ} → Option A → A → A
unwrap_or none d = d
unwrap_or (some a) d = a

-- A later value, where there is one, replaces an earlier one.
abbrev pub override {ℓ} : {A : Type ℓ} → Option A → Option A → Option A
override old none = old
override old (some a) = some a

pub Option-cases {ℓ} : {A : Type ℓ} (o : Option A) → (o ≡ none) ⊎ ((a : A) × (o ≡ some a))
Option-cases none = inl refl
Option-cases (some a) = inr (a, refl)

-- The value, where there is one, has the property.
abbrev pub OnSome {ℓ} : {A : Type ℓ} → (A → Type 0) → Option A → Type 0
OnSome P none = Unit {0}
OnSome P (some a) = P a

module _ {A : Type 0} where
  pub OnSome-map :
      (P Q : A → Type 0) (o : Option A) → ((a : A) → P a → Q a) → OnSome P o → OnSome Q o
  OnSome-map P Q none h p = tt
  OnSome-map P Q (some a) h p = h a p

  pub OnSome-and_then :
      {B : Type 0} (P : A → Type 0) (Q : B → Type 0) (f : A → Option B) (o : Option A)
      → ((a : A) → P a → OnSome Q (f a))
      → OnSome P o
      → OnSome Q (and_then o f)
  OnSome-and_then P Q f none h p = tt
  OnSome-and_then P Q f (some a) h p = h a p

  -- Where nothing is known of the first value
  pub OnSome-bind :
      {B : Type 0} (Q : B → Type 0) (f : A → Option B) (o : Option A)
      → ((a : A) → OnSome Q (f a))
      → OnSome Q (and_then o f)
  OnSome-bind Q f none h = tt
  OnSome-bind Q f (some a) h = h a
