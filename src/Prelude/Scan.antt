-- ===== src/Prelude/Scan.antt =====
-- The loops that the tables of the kernel share: the scan for the first index that passes a test,
-- and the count of the indices that do.
use Prim.Native.Nat.{ℕ, zero, suc, ◌+◌, ◌≤◌, ◌<◌}
use mathlib.Core.Path.{◌≡◌, refl, ap, subst}
use mathlib.Core.Logic.{◌≢◌, ◌⊎◌, inl, inr}
use mathlib.Core.Bool.{Bool, true, false}
use mathlib.Core.Option.{Option, none, some}
use native.Mathlib.Omega.{arith}
use native.Mathlib.Decide.{ℕ_discrete}
use the_cursed_moon_kernel.Prelude.Tests.{if◌then◌else◌, Bool-cases}

-- `for i in start..start + n`, left at the first `i` with `p i`.
unfoldable pub find_from : (ℕ → Bool) → ℕ → ℕ → Option ℕ
find_from p zero i = none
find_from p (suc n) i = let rest = find_from p n (i + 1) in if p i then some i else rest

-- The number of `i < n` with `p i`.
unfoldable pub count_to : (ℕ → Bool) → ℕ → ℕ
count_to p zero = 0
count_to p (suc n) = count_to p n + (if p n then 1 else 0)

-- What a scan of `n` indices from `i` has found: the first that passes, or that none does.
abbrev pub Found : (ℕ → Bool) → ℕ → ℕ → Option ℕ → Type 0
Found p n i none = (j : ℕ) → i ≤ j → j < i + n → p j ≡ false
Found p n i (some k) =
    (p k ≡ true) × (i ≤ k) × (k < i + n) × ((j : ℕ) → i ≤ j → j < k → p j ≡ false)

here_or_later : (i j : ℕ) → i ≤ j → (i ≡ j) ⊎ (i + 1 ≤ j)
here_or_later i j h = grind arith

Found-later :
    (p : ℕ → Bool) (n i : ℕ) (o : Option ℕ)
    → p i ≡ false
    → Found p n (i + 1) o
    → Found p (suc n) i o
Found-later p n i none miss f =
    λ j lo hi. elim (here_or_later i j lo) [ inl e ↦ rw (← e) miss | inr h ↦ f j h (omega arith) ]
Found-later p n i (some k) miss f = (
  f.0,
  omega arith,
  omega arith,
  λ j lo hi. elim (here_or_later i j lo) [ inl e ↦ rw (← e) miss | inr h ↦ f.3 j h hi ],
)

-- The scan finds the first index that passes, and fails only where none does.
pub find_from-Found : (p : ℕ → Bool) (n i : ℕ) → Found p n i (find_from p n i)
unfolding find_from
find_from-Found p zero i = λ j lo hi. absurd (omega arith)
find_from-Found p (suc n) i = elim (Bool-cases (p i)) [
  | inl hit ↦ rw hit (hit, omega arith, omega arith, λ j lo hi. absurd (omega arith))
  | inr miss ↦
      rw miss (Found-later p n i (find_from p n (i + 1)) miss (find_from-Found p n (i + 1)))
]

-- What a hit of the scan says, for a result that an equation names.
pub find_from_hit :
    (p : ℕ → Bool) (n i k : ℕ)
    → find_from p n i ≡ some k
    → (p k ≡ true) × (i ≤ k) × (k < i + n) × ((j : ℕ) → i ≤ j → j < k → p j ≡ false)
find_from_hit p n i k e = subst (Found p n i) e (find_from-Found p n i)

pub find_from_miss :
    (p : ℕ → Bool) (n i : ℕ) → find_from p n i ≡ none → (j : ℕ) → i ≤ j → j < i + n → p j ≡ false
find_from_miss p n i e = subst (Found p n i) e (find_from-Found p n i)

pub find_from_ext :
    (p q : ℕ → Bool) (n i : ℕ)
    → ((j : ℕ) → i ≤ j → j < i + n → p j ≡ q j)
    → find_from p n i ≡ find_from q n i
unfolding find_from
find_from_ext p q zero i h = refl
find_from_ext p q (suc n) i h = rw (
  h i (omega arith) (omega arith),
  find_from_ext p q n (i + 1) (λ j lo hi. h j (omega arith) (omega arith)),
)

pub count_to-le : (p : ℕ → Bool) (n : ℕ) → count_to p n ≤ n
unfolding count_to
count_to-le p zero = omega arith
count_to-le p (suc n) = ground (arith, count_to-le p n)

pub count_to_ext :
    (p q : ℕ → Bool) (n : ℕ) → ((j : ℕ) → j < n → p j ≡ q j) → count_to p n ≡ count_to q n
unfolding count_to
count_to_ext p q zero h = refl
count_to_ext p q (suc n) h = rw (count_to_ext p q n (λ j lt. h j (omega arith)), h n (omega arith))

-- A change of the test at one index changes the count by that index alone.
pub count_to_change :
    (p q : ℕ → Bool) (n k : ℕ)
    → k < n
    → ((j : ℕ) → j ≢ k → p j ≡ q j)
    → count_to q n + (if p k then 1 else 0) ≡ count_to p n + (if q k then 1 else 0)
unfolding count_to
count_to_change p q zero k lt same = absurd (omega arith)
count_to_change p q (suc n) k lt same = elim (ℕ_discrete n k) [
  | yes e ↦
      let rest = count_to_ext p q n (λ j hj. same j (λ ej. absurd (omega arith))) in
      rw (ap p e, ap q e) (omega arith)
  | no ne ↦ let rest = count_to_change p q n k (omega arith) same in rw (← same n ne) (omega arith)
]

pub count_to_pos : (p : ℕ → Bool) (n k : ℕ) → k < n → p k ≡ true → 0 < count_to p n
unfolding count_to
count_to_pos p zero k lt h = absurd (omega arith)
count_to_pos p (suc n) k lt h = elim (ℕ_discrete n k) [
  | yes e ↦ rw (ap p e, h) (omega arith)
  | no ne ↦ omega (arith, count_to_pos p n k (omega arith) h)
]

-- No index passes, so the count is 0.
pub count_to_none : (p : ℕ → Bool) (n : ℕ) → ((j : ℕ) → j < n → p j ≡ false) → count_to p n ≡ 0
unfolding count_to
count_to_none p zero h = refl
count_to_none p (suc n) h = rw (h n (omega arith), count_to_none p n (λ j lt. h j (omega arith)))

pub count_to_all : (p : ℕ → Bool) (n : ℕ) → ((j : ℕ) → j < n → p j ≡ true) → count_to p n ≡ n
unfolding count_to
count_to_all p zero h = refl
count_to_all p (suc n) h =
    rw (h n (omega arith), count_to_all p n (λ j lt. h j (omega arith))) (omega arith)

-- A count short of `n` leaves an index out.
pub count_to_lt : (p : ℕ → Bool) (n k : ℕ) → k < n → p k ≡ false → count_to p n < n
unfolding count_to
count_to_lt p zero k lt h = absurd (omega arith)
count_to_lt p (suc n) k lt h = elim (ℕ_discrete n k) [
  | yes e ↦ rw (ap p e, h) (omega (arith, count_to-le p n))
  | no ne ↦ ground (arith, count_to_lt p n k)
]
