-- ===== src/Scheduler/Choice.antt =====
-- Whom `pick_next` of core/scheduler.rs chooses.
use the_cursed_moon_kernel.Prelude.{
  ℕ, ◌+◌, ◌-◌, ◌%◌, ◌≤◌, ◌<◌, ◌≡◌, ◌≢◌, ◌⊎◌, ◌||◌, true, false, none, some, ltb, if◌then◌else◌,
  arith, lt_cases, inl, inr, find_from_hit, find_from_miss, option_ind, subst,
}
use the_cursed_moon_kernel.Prelude.Int.{ℤ, pos, negsuc}
use native.Mathlib.Nat.{mod-lt, mod-eq_of_lt, mod-eq-sub-mod}
use the_cursed_moon_kernel.Scheduler.Tasks.{State, is_ready, is_running, slice_ticks}
use the_cursed_moon_kernel.Scheduler.Select.{
  wake_expired, refill_credits, is_eligible, scan, pick_last, second_pass, first_pass, pick_next,
}
use the_cursed_moon_kernel.Scheduler.Wake.{refill_credits-Changed}

-- Every priority gets at least one tick of a period, and at most 8.
pub slice_ticks_bounds : (nice : ℤ) → (1 ≤ slice_ticks nice) × (slice_ticks nice ≤ 8)
unfolding slice_ticks
slice_ticks_bounds (pos n) = ground arith
slice_ticks_bounds (negsuc n) = ground arith

-- The offset at which the scan reaches a task.
offset_of : ℕ → ℕ → ℕ → ℕ
offset_of current count i = if ltb current i then i - current else i + count - current

offset_of_lem :
    (current count i : ℕ)
    → current < count
    → i < count
    → (1 ≤ offset_of current count i)
      × (offset_of current count i < 1 + count)
      × ((current + offset_of current count i) % count ≡ i)
unfolding offset_of
offset_of_lem current count i hc hi = elim (lt_cases current i) [
  | inl h ↦ ground (arith, mod-eq_of_lt {n = i} {m = count})
  | inr h ↦
      ground (arith, mod-eq-sub-mod {n = i + count} {m = count}, mod-eq_of_lt {n = i} {m = count})
]

-- A scan that finds nothing has seen every task.
scan_miss :
    (s : State) (current count i : ℕ)
    → current < count
    → i < count
    → scan s current count ≡ none
    → is_eligible s i ≡ false
unfolding scan
scan_miss s current count i hc hi miss =
    let o = offset_of_lem current count i hc hi in
    subst (λ c. is_eligible s c ≡ false) o.2
      (find_from_miss (λ offset. is_eligible s ((current + offset) % count)) count 1 miss
        (offset_of current count i) o.0 (omega (arith, o.1)))

scan_hit :
    (s : State) (current count k : ℕ)
    → current < count
    → scan s current count ≡ some k
    → ((current + k) % count < count) × (is_eligible s ((current + k) % count) ≡ true)
unfolding scan
scan_hit s current count k hc hit = (
  mod-lt (current + k) {m = count} (omega arith),
  (find_from_hit (λ offset. is_eligible s ((current + offset) % count)) count 1 k hit).0,
)

-- What a choice says. Either the chosen task is ready, is not the idle task, and has credits; or
-- no task but the idle one is ready, and the choice is the current task or the idle task, one that
-- can run if the idle task can.
abbrev pub Chosen : ℕ → ℕ → ℕ × State → Type 0
Chosen current count (n, s) =
    (n < count)
    × (((is_ready (s.tasks n).state ≡ true) × (n ≢ 0) × (0 < (s.tasks n).credits))
        ⊎ (((n ≡ current) ⊎ (n ≡ 0))
            × ((i : ℕ) → i < count → i ≢ 0 → is_ready (s.tasks i).state ≡ false)
            × ((is_ready (s.tasks 0).state || is_running (s.tasks 0).state) ≡ true
                → (is_ready (s.tasks n).state || is_running (s.tasks n).state) ≡ true)))

hit-Chosen :
    (s : State) (current count k : ℕ)
    → current < count
    → scan s current count ≡ some k
    → Chosen current count ((current + k) % count, s)
hit-Chosen s current count k hc e =
    let hit = scan_hit s current count k hc e in (hit.0, inl (ground (arith, hit.1)))

second_pass-Chosen :
    (s : State) (current count : ℕ)
    → current < count
    → Chosen current count (second_pass (refill_credits s count) current count)
unfolding second_pass pick_last
second_pass-Chosen s current count hc =
    let r = refill_credits s count in
    option_ind (Chosen current count) (scan r current count)
      (λ miss. (
        ground arith,
        inr (
          ground arith,
          λ i lt ne. ground (
            arith,
            scan_miss r current count i hc lt miss,
            (refill_credits-Changed s count).tasks i,
            slice_ticks_bounds (s.tasks i).nice,
          ),
          ground arith,
        ),
      ))
      (λ k e. hit-Chosen r current count k hc e)

-- For a current index below the task count, `pick_next` chooses an index below the count. Either
-- that task is ready after the wake-ups and the refill, is not the idle task and has credits; or no
-- task but the idle one is ready, the choice is the current task or the idle task, and it can run
-- if the idle task can.
pub pick_next-Chosen :
    (s : State) (now current : ℕ)
    → current < s.task_count
    → Chosen current s.task_count (pick_next s now current)
unfolding pick_next first_pass
pick_next-Chosen s now current hc =
    let w = wake_expired s now s.task_count in
    option_ind (Chosen current s.task_count) (scan w current s.task_count)
      (λ miss. second_pass-Chosen w current s.task_count hc)
      (λ k e. hit-Chosen w current s.task_count k hc e)
