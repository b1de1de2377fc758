-- ===== src/Fd/Slots.antt =====
-- The invariant that ties core/fd.rs to core/pipe.rs, and what one write to a slot of the tables
-- does to it: an entry retained in an unused slot, or an entry released and its slot emptied.
use the_cursed_moon_kernel.Prelude.{
  ℕ, ◌+◌, ◌<◌, ◌≡◌, inl, inr, Bool, true, false, arith, Bool-cases,
}
use the_cursed_moon_kernel.Pipe
use the_cursed_moon_kernel.Pipe.{is_open}
use the_cursed_moon_kernel.Fd.{State, FileDescriptor, empty, put, retain, release}
use the_cursed_moon_kernel.Fd.Count.{
  owns, ends, ends-update, ends_pos, tables-retain, tables-release, retain_open, retain_shut,
  release_open, release_shut,
}

-- An open pipe has as many writers and readers as descriptors own its ends, and at least one of
-- them; no descriptor owns an end of a pipe that is not open.
pub record IsCounted (t : ℕ → FileDescriptor) (q : Pipe.State) (p : ℕ) : Type 0 where
  pub writers : is_open q p ≡ true → (q.pipes p).writers ≡ ends t p true
  pub readers : is_open q p ≡ true → (q.pipes p).readers ≡ ends t p false
  pub alive : is_open q p ≡ true → 0 < ends t p true + ends t p false
  pub dead : is_open q p ≡ false → ends t p true + ends t p false ≡ 0

abbrev pub IsBalanced : State → Type 0
IsBalanced s = (p : ℕ) → IsCounted s.tables s.pipes p

-- A descriptor in use keeps its pipe open.
pub owner_open :
    {s : State} (k p : ℕ) (w : Bool)
    → IsBalanced s
    → k < 128
    → owns p w (s.tables k) ≡ true
    → is_open s.pipes p ≡ true
owner_open {s} k p true b lt o = elim (Bool-cases (is_open s.pipes p)) [
  | inl yes_open ↦ yes_open
  | inr shut ↦ absurd (omega (arith, (b p).dead shut, ends_pos s.tables k p true lt o))
]
owner_open {s} k p false b lt o = elim (Bool-cases (is_open s.pipes p)) [
  | inl yes_open ↦ yes_open
  | inr shut ↦ absurd (omega (arith, (b p).dead shut, ends_pos s.tables k p false lt o))
]

-- Writing an entry to an unused slot and retaining it keeps the invariant.
pub install-IsBalanced :
    {s : State} (k : ℕ) (e : FileDescriptor)
    → IsBalanced s
    → k < 128
    → (s.tables k).used ≡ false
    → e.used ≡ true
    → ((p : ℕ) (w : Bool) → owns p w e ≡ true → is_open s.pipes p ≡ true)
    → IsBalanced (retain (put s k e) e)
install-IsBalanced {s} k e b lt free used opens p =
    rw (tables-retain (put s k e) e) (elim (Bool-cases (is_open s.pipes p)) [
      | inl o ↦ ground (
        arith,
        (b p).writers o,
        (b p).readers o,
        (b p).alive o,
        retain_open (put s k e) e p used o,
        ends-update s.tables k e p true lt,
        ends-update s.tables k e p false lt,
      )
      | inr o ↦ ground (
        arith,
        (b p).dead o,
        retain_shut (put s k e) e p o,
        opens p true,
        opens p false,
        ends-update s.tables k e p true lt,
        ends-update s.tables k e p false lt,
      )
    ])

-- Releasing the entry of a slot and emptying the slot keeps the invariant.
pub uninstall-IsBalanced :
    {s : State} (k : ℕ)
    → IsBalanced s
    → k < 128
    → (s.tables k).used ≡ true
    → IsBalanced (put (release s (s.tables k)) k empty)
uninstall-IsBalanced {s} k b lt used p =
    rw (tables-release s (s.tables k)) (elim (Bool-cases (is_open s.pipes p)) [
      | inl o ↦ ground (
        arith,
        (b p).writers o,
        (b p).readers o,
        (b p).alive o,
        release_open s (s.tables k) p used o,
        ends-update s.tables k empty p true lt,
        ends-update s.tables k empty p false lt,
      )
      | inr o ↦ ground (
        arith,
        (b p).dead o,
        release_shut s (s.tables k) p o,
        ends-update s.tables k empty p true lt,
        ends-update s.tables k empty p false lt,
      )
    ])

-- Writing an unused entry over an unused entry keeps the invariant.
pub blank-IsBalanced :
    {s : State} (k : ℕ) (e : FileDescriptor)
    → IsBalanced s
    → k < 128
    → (s.tables k).used ≡ false
    → e.used ≡ false
    → IsBalanced (put s k e)
blank-IsBalanced {s} k e b lt free blank p = elim (Bool-cases (is_open s.pipes p)) [
  | inl o ↦ ground (
    arith,
    (b p).writers o,
    (b p).readers o,
    (b p).alive o,
    ends-update s.tables k e p true lt,
    ends-update s.tables k e p false lt,
  )
  | inr o ↦
      ground (
        arith,
        (b p).dead o,
        ends-update s.tables k e p true lt,
        ends-update s.tables k e p false lt,
      )
]
