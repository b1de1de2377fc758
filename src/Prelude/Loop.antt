-- ===== src/Prelude/Loop.antt =====
-- `for i in 0..n` over a state, and its invariant rule.
use Prim.Native.Nat.{ℕ, zero, suc, ◌<◌}
use native.Mathlib.Omega.{arith}

module _ {ℓ} {S : Type ℓ} where
  unfoldable pub each : ℕ → (ℕ → S → S) → S → S
  each zero body s = s
  each (suc n) body s = body n (each n body s)

  pub each_inv {κ} :
      (P : ℕ → S → Type κ) (body : ℕ → S → S) (n : ℕ) (s : S)
      → ((i : ℕ) (r : S) → i < n → P i r → P (suc i) (body i r))
      → P 0 s
      → P n (each n body s)
  unfolding each
  each_inv P body zero s keep h = h
  each_inv P body (suc n) s keep h =
      keep n (each n body s) (omega arith)
        (each_inv P body n s (λ i r lt. keep i r (omega arith)) h)
