-- ===== src/Prelude/Store.antt =====
-- A static array is a function of the index: a read is a call, and a write is `update`. Lists
-- have their native length, `take` and `drop`.
use Prim.Native.Nat.{ℕ, zero, suc, ◌+◌, ◌≤◌, min}
use mathlib.Core.Path.{◌≡◌, refl, ap, fun_ext}
use mathlib.Core.Logic.{◌≢◌, inl, inr}
use mathlib.Core.List.{List, [], ◌∷◌, ◌++◌}
use mathlib.Core.Option.{Option, none, some}
use native.Mathlib.Omega.{arith}
use native.Mathlib.Decide.{ℕ_discrete}
use the_cursed_moon_kernel.Prelude.Tests.{◌==◌, if◌then◌else◌, eq→==, ne→==, ==→eq, Bool-cases}

abbrev pub update {ℓ} : {A : Type ℓ} → (ℕ → A) → ℕ → A → ℕ → A
update f i v j = if j == i then v else f j

module _ {ℓ} {A : Type ℓ} where
  abbrev pub length : List A → ℕ
  length [] = 0
  length (x ∷ xs) = suc (length xs)

  abbrev pub take : ℕ → List A → List A
  take zero xs = []
  take (suc n) [] = []
  take (suc n) (x ∷ xs) = x ∷ take n xs

  abbrev pub drop : ℕ → List A → List A
  drop zero xs = xs
  drop (suc n) [] = []
  drop (suc n) (x ∷ xs) = drop n xs

  abbrev pub get_elem? : List A → ℕ → Option A
  get_elem? [] i = none
  get_elem? (x ∷ xs) zero = some x
  get_elem? (x ∷ xs) (suc i) = get_elem? xs i

  pub length-append : (xs ys : List A) → length (xs ++ ys) ≡ length xs + length ys
  length-append [] ys = omega arith
  length-append (x ∷ xs) ys = omega (arith, length-append xs ys)

  pub length-take : (n : ℕ) (xs : List A) → length (take n xs) ≡ min n (length xs)
  length-take zero xs = omega arith
  length-take (suc n) [] = omega arith
  length-take (suc n) (x ∷ xs) = omega (arith, length-take n xs)

pub take-nil {ℓ} : (A : Type ℓ) (n : ℕ) → take {A = A} n [] ≡ []
take-nil A zero = refl
take-nil A (suc n) = refl

pub drop-nil {ℓ} : (A : Type ℓ) (n : ℕ) → drop {A = A} n [] ≡ []
drop-nil A zero = refl
drop-nil A (suc n) = refl

pub take_all {ℓ} : {A : Type ℓ} (n : ℕ) (xs : List A) → length xs ≤ n → take n xs ≡ xs
take_all zero [] h = refl
take_all zero (x ∷ xs) h = absurd (omega arith)
take_all (suc n) [] h = refl
take_all (suc n) (x ∷ xs) h = ap (◌∷◌ x) (take_all n xs (omega arith))

pub drop_all {ℓ} : {A : Type ℓ} (n : ℕ) (xs : List A) → length xs ≤ n → drop n xs ≡ []
drop_all zero [] h = refl
drop_all zero (x ∷ xs) h = absurd (omega arith)
drop_all (suc n) [] h = refl
drop_all (suc n) (x ∷ xs) h = drop_all n xs (omega arith)

pub update_self {ℓ} : {A : Type ℓ} (f : ℕ → A) (i : ℕ) (v : A) → update f i v i ≡ v
update_self f i v = rw (eq→== i i refl)

pub update_ne {ℓ} : {A : Type ℓ} (f : ℕ → A) (i : ℕ) (v : A) (j : ℕ) → j ≢ i → update f i v j ≡ f j
update_ne f i v j ne = rw (ne→== j i ne)

-- The last of two writes to one place counts.
pub update-update {ℓ} :
    {A : Type ℓ} (f : ℕ → A) (i : ℕ) (u v : A) → update (update f i u) i v ≡ update f i v
update-update f i u v = fun_ext λ j. elim (Bool-cases (j == i)) [ inl e ↦ rw e | inr e ↦ rw e ]

-- A property of every entry after a write, from the new value and the other entries.
pub update_ind {ℓ κ} :
    {A : Type ℓ} (P : ℕ → A → Type κ) (f : ℕ → A) (i : ℕ) (v : A)
    → P i v
    → ((j : ℕ) → j ≢ i → P j (f j))
    → (j : ℕ) → P j (update f i v j)
update_ind P f i v new rest j = elim (ℕ_discrete j i) [
  | yes e ↦ rw (e, eq→== i i refl) new
  | no ne ↦ rw (ne→== j i ne) (rest j ne)
]

-- Writing what is there changes nothing.
pub update_same {ℓ} : {A : Type ℓ} (f : ℕ → A) (i : ℕ) → update f i (f i) ≡ f
update_same f i =
    fun_ext λ j. elim (Bool-cases (j == i)) [ inl e ↦ rw (e, ==→eq j i e) | inr e ↦ rw e ]
