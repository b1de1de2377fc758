-- ===== src/Frames/Bits.antt =====
-- The bit operations of core/frames.rs on the bitmap.
use Prim.Native.Nat.{bit_and, bit_or}
use the_cursed_moon_kernel.Prelude.{
  ℕ, zero, suc, ◌-◌, ◌/◌, ◌%◌, ◌^◌, ◌<◌, ◌≡◌, refl, Bool, true, false, not, ◌&&◌, ltb, ◌==◌,
  if◌then◌else◌, arith, ℕ_discrete, eq→==, ne→==, ap,
}
use the_cursed_moon_kernel.Frames.{bit_at, write_bit}

-- A check of every value below `n`.
all_below : ℕ → (ℕ → Bool) → Bool
all_below zero p = true
all_below (suc n) p = p n && all_below n p

all_below_lem : (n : ℕ) (p : ℕ → Bool) (x : ℕ) → all_below n p ≡ true → x < n → p x ≡ true
unfolding all_below
all_below_lem zero p x h lt = absurd (omega arith)
all_below_lem (suc n) p x h lt = ground (arith, all_below_lem n p x)

abbrev same : Bool → Bool → Bool
same true b = b
same false b = not b

abbrev has : ℕ → ℕ → Bool
has b j = not (bit_and b (2 ^ j) == 0)

abbrev written : ℕ → ℕ → Bool → ℕ
written b i v = if v then bit_or b (2 ^ i) else bit_and b (255 - 2 ^ i)

abbrev cell_test : Bool → ℕ → ℕ → ℕ → Bool
cell_test v b i j = same (has (written b i v) j) (if j == i then v else has b j)

row_test : Bool → ℕ → ℕ → Bool
unfolding all_below
row_test v b i = ltb (written b i v) 256 && all_below 8 (cell_test v b i)

-- All bytes, bits written and bits read, for one value to write.
table : Bool → Bool
unfolding all_below row_test
table v = all_below 256 (λ b. all_below 8 (row_test v b))

table_set : table true ≡ true
unfolding table
table_set = refl

table_clear : table false ≡ true
unfolding table
table_clear = refl

table_all : (v : Bool) → table v ≡ true
table_all true = table_set
table_all false = table_clear

and_left : (a b : Bool) → (a && b) ≡ true → a ≡ true
and_left true b h = refl
and_left false b h = cc

and_right : (a b : Bool) → (a && b) ≡ true → b ≡ true
and_right true b h = h
and_right false b h = cc

same_eq : (a b : Bool) → same a b ≡ true → a ≡ b
same_eq a b h = ground arith

written_lem :
    (v : Bool) (b i j : ℕ)
    → b < 256
    → i < 8
    → j < 8
    → (written b i v < 256) × (has (written b i v) j ≡ (if j == i then v else has b j))
unfolding table row_test
written_lem v b i j hb hi hj =
    let row : row_test v b i ≡ true =
      all_below_lem 8 (row_test v b) i
        (all_below_lem 256 (λ c. all_below 8 (row_test v c)) b (table_all v) hb) hi in
    let low = and_left (ltb (written b i v) 256) (all_below 8 (cell_test v b i)) row in
    let cells = and_right (ltb (written b i v) 256) (all_below 8 (cell_test v b i)) row in
    let cell = all_below_lem 8 (cell_test v b i) j cells hj in
    (ground (arith, low), same_eq _ _ cell)

-- Within one byte, frames differ by their bits.
same_byte : (i j : ℕ) → j / 8 ≡ i / 8 → (j % 8 == i % 8) ≡ (j == i)
same_byte i j e = elim (ℕ_discrete j i) [
  | yes q ↦ rw (eq→== j i q) (eq→== (j % 8) (i % 8) (ap (λ m. m % 8) q))
  | no ne ↦ rw (ne→== j i ne) (ne→== (j % 8) (i % 8) (omega arith))
]

-- `set_bit` gives its frame the value and leaves the bit of every other frame, on a bitmap of
-- bytes, which it keeps one.
pub bit_at-write_bit :
    (m : ℕ → ℕ) (i j : ℕ) (v : Bool)
    → ((k : ℕ) → m k < 256)
    → bit_at (write_bit m i v) j ≡ (if j == i then v else bit_at m j)
unfolding bit_at write_bit
bit_at-write_bit m i j v bytes = elim (ℕ_discrete (j / 8) (i / 8)) [
  | yes e ↦
      let cell =
        (written_lem v (m (i / 8)) (i % 8) (j % 8) (bytes (i / 8)) (omega arith) (omega arith)).1 in
      rw (eq→== (j / 8) (i / 8) e, ← same_byte i j e, e) cell
  | no ne ↦ rw (ne→== (j / 8) (i / 8) ne, ne→== j i (λ q. ne (ap (λ m. m / 8) q))) refl
]

pub bytes-write_bit :
    (m : ℕ → ℕ) (i : ℕ) (v : Bool) → ((k : ℕ) → m k < 256) → (k : ℕ) → write_bit m i v k < 256
unfolding write_bit
bytes-write_bit m i v bytes k = elim (ℕ_discrete k (i / 8)) [
  | yes e ↦
      rw (eq→== k (i / 8) e)
        (written_lem v (m (i / 8)) (i % 8) 0 (bytes (i / 8)) (omega arith) (omega arith)).0
  | no ne ↦ rw (ne→== k (i / 8) ne) (bytes k)
]
