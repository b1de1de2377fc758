-- ===== src/Prelude/Bytes.antt =====
-- Byte arrays and byte strings: an array is a function of the index, a string a list.
use Prim.Native.Nat.{ℕ, zero, suc, ◌+◌, ◌*◌, ◌/◌, ◌%◌, ◌^◌, ◌<◌}
use mathlib.Core.Path.{◌≡◌, refl, ap, ap₂, ◌∙◌}
use mathlib.Core.Logic.{◌≢◌}
use mathlib.Core.Bool.{Bool, true, false, ◌&&◌}
use mathlib.Core.List.{List, [], ◌∷◌, ◌++◌}
use native.Mathlib.Omega.{arith}
use the_cursed_moon_kernel.Prelude.Tests.{◌==◌, if◌then◌else◌, eq→==, ne→==, ==→eq}
use the_cursed_moon_kernel.Prelude.Store.{length}

-- The byte at an index, 0 behind the end.
abbrev pub nth : List ℕ → ℕ → ℕ
nth [] i = 0
nth (x ∷ xs) zero = x
nth (x ∷ xs) (suc i) = nth xs i

-- The `n` bytes of an array from index `i` on.
abbrev pub slice : (ℕ → ℕ) → ℕ → ℕ → List ℕ
slice f i zero = []
slice f i (suc n) = f i ∷ slice f (i + 1) n

-- The bytes before the first 0.
abbrev pub until_zero : List ℕ → List ℕ
until_zero [] = []
until_zero (x ∷ xs) = let rest = until_zero xs in if x == 0 then [] else x ∷ rest

abbrev pub same_bytes : List ℕ → List ℕ → Bool
same_bytes [] [] = true
same_bytes [] (y ∷ ys) = false
same_bytes (x ∷ xs) [] = false
same_bytes (x ∷ xs) (y ∷ ys) = x == y && same_bytes xs ys

-- The `k`-th byte of a number, the lowest first, and the 32-bit number at an index.
abbrev pub le_byte : ℕ → ℕ → ℕ
le_byte v k = v / 256 ^ k % 256

abbrev pub le_u32 : (ℕ → ℕ) → ℕ → ℕ
le_u32 f o = f o + 256 * f (o + 1) + 65536 * f (o + 2) + 16777216 * f (o + 3)

abbrev pub le_u16 : (ℕ → ℕ) → ℕ → ℕ
le_u16 f o = f o + 256 * f (o + 1)

pub length-slice : (f : ℕ → ℕ) (i n : ℕ) → length (slice f i n) ≡ n
length-slice f i zero = refl
length-slice f i (suc n) = ap suc (length-slice f (i + 1) n)

suc_add : (n m : ℕ) → suc (n + m) ≡ suc n + m
suc_add n m = omega arith

pub slice-append : (f : ℕ → ℕ) (i n m : ℕ) → slice f i n ++ slice f (i + n) m ≡ slice f i (n + m)
slice-append f i zero m = ap₂ (slice f) (omega arith) (omega arith)
slice-append f i (suc n) m =
    ap (◌∷◌ (f i))
      (ap (λ j. slice f (i + 1) n ++ slice f j m) (omega arith) ∙ slice-append f (i + 1) n m)
    ∙ ap (slice f i) {y = suc n + m} (suc_add n m)

pub slice_ext :
    (f g : ℕ → ℕ) (i j n : ℕ)
    → ((k : ℕ) → k < n → f (i + k) ≡ g (j + k))
    → slice f i n ≡ slice g j n
slice_ext f g i j zero h = refl
slice_ext f g i j (suc n) h =
    ap₂ ◌∷◌ (ap f (omega arith) ∙ h 0 (omega arith) ∙ ap g (omega arith)) (
      slice_ext f g (i + 1) (j + 1) n
        (λ k lt. ap f (omega arith) ∙ h (suc k) (omega arith) ∙ ap g (omega arith)))

pub same_bytes_refl : (xs : List ℕ) → same_bytes xs xs ≡ true
same_bytes_refl [] = refl
same_bytes_refl (x ∷ xs) = rw (eq→== x x refl) (same_bytes_refl xs)

pub same_bytes→eq : (xs ys : List ℕ) → same_bytes xs ys ≡ true → xs ≡ ys
same_bytes→eq [] [] h = refl
same_bytes→eq [] (y ∷ ys) h = cc
same_bytes→eq (x ∷ xs) [] h = cc
same_bytes→eq (x ∷ xs) (y ∷ ys) h =
    ap₂ ◌∷◌ (==→eq x y (ground (arith, h))) (same_bytes→eq xs ys (ground (arith, h)))

pub le_u32-le_byte : (v : ℕ) → v < 2 ^ 32 → le_u32 (le_byte v) 0 ≡ v
le_u32-le_byte v h = omega arith

-- A byte string without zeros, shorter than the array, is what stands before the first 0.
pub until_zero-slice :
    (xs : List ℕ) (n : ℕ)
    → length xs < n
    → ((k : ℕ) → k < length xs → nth xs k ≢ 0)
    → until_zero (slice (nth xs) 0 n) ≡ xs
until_zero-slice [] zero lt h = absurd (omega arith)
until_zero-slice [] (suc n) lt h = refl
until_zero-slice (x ∷ xs) zero lt h = absurd (omega arith)
until_zero-slice (x ∷ xs) (suc n) lt h =
    let rest : slice (nth (x ∷ xs)) 1 n ≡ slice (nth xs) 0 n =
      slice_ext (nth (x ∷ xs)) (nth xs) 1 0 n
        (λ k _. ap (nth (x ∷ xs)) {y = suc k} (omega arith) ∙ ap (nth xs) {x = k} (omega arith)) in
    rw (ne→== x 0 (h 0 (omega arith))) (
      ap (◌∷◌ x) (
        ap until_zero rest ∙ until_zero-slice xs n (omega arith) (λ k kl. h (suc k) (omega arith))))
