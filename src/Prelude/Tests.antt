-- ===== src/Prelude/Tests.antt =====
-- Boolean tests on the native numbers, the conditional, and case splits that keep the equation.
use Prim.Native.Nat.{ℕ, ◌≤◌, ◌<◌, compare, Ordering}
use mathlib.Core.Path.{◌≡◌, refl}
use mathlib.Core.Logic.{◌≢◌, ◌⊎◌, inl, inr}
use mathlib.Core.Bool.{Bool, true, false}
use mathlib.Core.Option.{Option, none, some}
use native.Mathlib.Omega.{arith}

-- These compute to `compare`, which `ground` and `grind` read with no lemma listed.
abbrev pub ltb : ℕ → ℕ → Bool
ltb a b = elim (compare a b) [ Ordering.lt ↦ true | _ ↦ false ]

abbrev pub leb : ℕ → ℕ → Bool
leb a b = elim (compare a b) [ Ordering.gt ↦ false | _ ↦ true ]

infix 50 ◌==◌
abbrev pub ◌==◌ : ℕ → ℕ → Bool
a == b = elim (compare a b) [ Ordering.eq ↦ true | _ ↦ false ]

infix 1 if◌then◌else◌
abbrev pub if◌then◌else◌ {ℓ} : {A : Type ℓ} → Bool → A → A → A
if true then x else y = x
if false then x else y = y

pub ==→eq : (a b : ℕ) → (a == b) ≡ true → a ≡ b
==→eq a b h = ground arith

pub eq→== : (a b : ℕ) → a ≡ b → (a == b) ≡ true
eq→== a b h = ground arith

pub ne→== : (a b : ℕ) → a ≢ b → (a == b) ≡ false
ne→== a b h = ground arith

pub ==→ne : (a b : ℕ) → (a == b) ≡ false → a ≢ b
==→ne a b h e = ground arith

pub Bool-cases : (b : Bool) → (b ≡ true) ⊎ (b ≡ false)
Bool-cases true = inl refl
Bool-cases false = inr refl

pub Option-cases {ℓ} : {A : Type ℓ} (o : Option A) → (o ≡ none) ⊎ ((a : A) × (o ≡ some a))
Option-cases none = inl refl
Option-cases (some a) = inr (a, refl)

pub lt_cases : (a b : ℕ) → (a < b) ⊎ (b ≤ a)
lt_cases a b = grind arith

-- A property of a conditional, from its two branches, and of a match on an option.
pub if_ind {ℓ κ} :
    {A : Type ℓ} (P : A → Type κ) (c : Bool) {x y : A}
    → (c ≡ true → P x)
    → (c ≡ false → P y)
    → P (if c then x else y)
if_ind P true f g = f refl
if_ind P false f g = g refl

pub option_ind {ℓ κ μ} :
    {A : Type ℓ} {B : Type μ} (P : B → Type κ) (o : Option A) {x : B} {f : A → B}
    → (o ≡ none → P x)
    → ((a : A) → o ≡ some a → P (f a))
    → P (elim o [ none ↦ x | some a ↦ f a ])
option_ind P none g h = g refl
option_ind P (some a) g h = h a refl

pub leb-false : {a b : ℕ} → leb a b ≡ false → b < a
leb-false h = ground arith

-- A property of a match on a Boolean, whose branches wait.
pub bool_ind {ℓ κ} :
    {A : Type ℓ} (P : A → Type κ) (c : Bool) {x y : A}
    → (c ≡ true → P x)
    → (c ≡ false → P y)
    → P (elim c [ true ↦ x | false ↦ y ])
bool_ind P true f g = f refl
bool_ind P false f g = g refl
