-- ===== src/Ring.antt =====
-- The part that the pipe and the message ring share: the indices of a circular
-- buffer of `n` places, from the read index on, and the items that they hold.
use the_cursed_moon_kernel.Prelude.{
  ℕ, zero, suc, ◌+◌, ◌-◌, ◌%◌, ◌<◌, ◌≡◌, refl, ap, ◌≢◌, List, [], ◌∷◌, ◌++◌, arith, length, update,
  update_self, update_ne, ◌∙◌, if◌then◌else◌, ltb, lt_cases, inl, inr,
}
use mathlib.Core.Path.{ap₂}
use native.Mathlib.Nat.{mod-add-mod, mod-eq_of_lt, mod-eq-sub-mod, add-zero}

-- The `k`-th place after `t`, for `t < n` and `k < n`.
abbrev pub place : ℕ → ℕ → ℕ → ℕ
place n t k = (t + k) % n

-- How many places lie from `t` up to `h`, going round.
unfoldable pub gap : ℕ → ℕ → ℕ → ℕ
gap n t h = if ltb h t then h + n - t else h - t

module _ {ℓ} {A : Type ℓ} where
  -- The items in the `k` places from `t` on.
  abbrev pub window : (ℕ → A) → ℕ → ℕ → ℕ → List A
  window f n t zero = []
  window f n t (suc k) = f t ∷ window f n ((t + 1) % n) k

  pub length-window : (f : ℕ → A) (n t k : ℕ) → length (window f n t k) ≡ k
  length-window f n t zero = refl
  length-window f n t (suc k) = ap suc (length-window f n ((t + 1) % n) k)

-- Two ways to the place after.
pub place-suc : (n t k : ℕ) → place n ((t + 1) % n) k ≡ place n t (suc k)
place-suc n t k = rw mod-add-mod (ap (λ j. j % n) (omega arith))

pub place-zero : (n t : ℕ) → t < n → place n t 0 ≡ t
place-zero n t h = rw (add-zero, mod-eq_of_lt h)

-- Within one round no place comes back to the start.
pub place-ne : (n t k : ℕ) → t < n → suc k < n → place n t (suc k) ≢ t
place-ne n t k ht hk = elim (lt_cases (t + suc k) n) [
  | inl p ↦ omega (arith, mod-eq_of_lt p)
  | inr p ↦ omega (
    arith,
    mod-eq-sub-mod {n = t + suc k} {m = n} p,
    mod-eq_of_lt {n = t + suc k - n} {m = n} (omega arith),
  )
]

module _ {ℓ} {A : Type ℓ} where
  -- A function that agrees on the places of a window has the same window.
  pub window_ext :
      (f g : ℕ → A) (n t k : ℕ)
      → ((j : ℕ) → j < k → f (place n t j) ≡ g (place n t j))
      → t < n
      → window f n t k ≡ window g n t k
  window_ext f g n t zero same ht = refl
  window_ext f g n t (suc k) same ht = ap₂ ◌∷◌ (rw (place-zero n t ht) at (same 0 (omega arith))) (
      window_ext f g n ((t + 1) % n) k (λ j hj. rw (place-suc n t j) (same (suc j) (omega arith)))
        (omega arith))

  -- One more place at the end of a window.
  pub window-snoc :
      (f : ℕ → A) (n t k : ℕ)
      → t < n
      → window f n t (suc k) ≡ window f n t k ++ (f (place n t k) ∷ [])
  window-snoc f n t zero ht = rw (place-zero n t ht)
  window-snoc f n t (suc k) ht =
      ap (◌∷◌ (f t)) (rw (← place-suc n t k) (window-snoc f n ((t + 1) % n) k (omega arith)))

-- The index past a gap, and the gap after a step of either index.
pub gap-place : (n t h : ℕ) → t < n → h < n → place n t (gap n t h) ≡ h
unfolding gap
gap-place n t h ht hh = elim (lt_cases h t) [
  | inl p ↦ ground (arith, mod-eq-sub-mod {n = h + n} {m = n}, mod-eq_of_lt {n = h} {m = n})
  | inr p ↦ ground (arith, mod-eq_of_lt {n = h} {m = n})
]

pub gap-lt : (n t h : ℕ) → t < n → h < n → gap n t h < n
unfolding gap
gap-lt n t h ht hh = ground arith

-- The next index, for `h < n`.
pub next_cases : (n h : ℕ) → h < n → (h + 1) % n ≡ (if ltb (h + 1) n then h + 1 else 0)
next_cases n h hh = ground (
  arith,
  mod-eq_of_lt {n = h + 1} {m = n},
  mod-eq-sub-mod {n = h + 1} {m = n},
  mod-eq_of_lt {n = h + 1 - n} {m = n},
)

-- The ring is full where the next write index is the read index.
pub gap-full : (n t h : ℕ) → t < n → h < n → (h + 1) % n ≡ t → gap n t h + 1 ≡ n
unfolding gap
gap-full n t h ht hh e = ground (arith, next_cases n h)

pub gap-push : (n t h : ℕ) → t < n → h < n → (h + 1) % n ≢ t → gap n t ((h + 1) % n) ≡ gap n t h + 1
unfolding gap
gap-push n t h ht hh ne = ground (arith, next_cases n h)

pub gap-pop : (n t h : ℕ) → t < n → h < n → t ≢ h → gap n ((t + 1) % n) h + 1 ≡ gap n t h
unfolding gap
gap-pop n t h ht hh ne = ground (arith, next_cases n t)

pub gap_self : (n t : ℕ) → gap n t t ≡ 0
unfolding gap
gap_self n t = ground arith

pub gap-step : (n t h : ℕ) → t < n → h < n → t ≢ h → gap n t h ≡ suc (gap n ((t + 1) % n) h)
gap-step n t h ht hh ne = omega (arith, gap-pop n t h ht hh ne)

-- Within a gap the places differ from the index at its end.
pub place-ne-end : (n t h j : ℕ) → t < n → h < n → j < gap n t h → place n t j ≢ h
unfolding gap
place-ne-end n t h j ht hh lt = elim (lt_cases (t + j) n) [
  | inl p ↦ let e = mod-eq_of_lt {n = t + j} {m = n} p in ground arith
  | inr p ↦
      let e = mod-eq-sub-mod {n = t + j} {m = n} p in
      let e' = mod-eq_of_lt {n = t + j - n} {m = n} (ground arith) in ground arith
]

module _ {ℓ} {A : Type ℓ} where
  -- A write at the head, and the step of the head, append to the window.
  pub window-push :
      (f : ℕ → A) (n t h : ℕ) (m : A)
      → t < n
      → h < n
      → (h + 1) % n ≢ t
      → window (update f h m) n t (gap n t ((h + 1) % n)) ≡ window f n t (gap n t h) ++ (m ∷ [])
  window-push f n t h m ht hh ne =
      let len : gap n t ((h + 1) % n) ≡ suc (gap n t h) = omega (arith, gap-push n t h ht hh ne) in
      rw len (
        window-snoc (update f h m) n t (gap n t h) ht
        ∙ ap₂ (λ xs x. xs ++ (x ∷ []))
            (window_ext (update f h m) f n t (gap n t h)
              (λ j lt. update_ne f h m (place n t j) (place-ne-end n t h j ht hh lt)) ht)
            (rw (gap-place n t h ht hh) (update_self f h m)))

  -- A step of the tail takes the first item off the window.
  pub window-pop :
      (f : ℕ → A) (n t h : ℕ)
      → t < n
      → h < n
      → t ≢ h
      → window f n t (gap n t h) ≡ f t ∷ window f n ((t + 1) % n) (gap n ((t + 1) % n) h)
  window-pop f n t h ht hh ne = rw (gap-step n t h ht hh ne)
