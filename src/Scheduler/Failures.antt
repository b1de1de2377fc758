-- ===== src/Scheduler/Failures.antt =====
-- Why `spawn_inner` of core/scheduler.rs fails: a full table or a short heap.
use Prim.Native.String.{String}
use the_cursed_moon_kernel.Prelude.{
  ℕ, ◌+◌, ◌^◌, ◌≤◌, ◌<◌, ◌≡◌, refl, ap, ◌⊎◌, inl, inr, Bool, true, false, not, Option, none, some,
  ◌==◌, find_from, option_ind, if_ind, arith,
}
use the_cursed_moon_kernel.Kmalloc.{kmalloc_aligned, heap_end, is_power_of_two}
use the_cursed_moon_kernel.Kmalloc.Blocks.{Block, kmalloc_aligned_lem}
use the_cursed_moon_kernel.Scheduler.Tasks.{State, is_unused, task_stack_size}
use the_cursed_moon_kernel.Scheduler.Spawn.{new_slot, new_stacks, fill_slot, spawn_inner}
use the_cursed_moon_kernel.Scheduler.Births.{Slot, new_slot_lem}

power_16 : is_power_of_two 16 ≡ true
unfolding is_power_of_two find_from
power_16 = refl

-- A stack that the heap does not give, and the first free byte behind one that it gives.
short_heap :
    (free : ℕ) (o : Option ℕ × ℕ)
    → Block task_stack_size 16 free o
    → o.0 ≡ none
    → heap_end < free + 16400
short_heap free (none, free') b e = elim b.1 [
  | inl z ↦ absurd (omega arith)
  | inr (inl p) ↦ absurd (ground (arith, power_16, p))
  | inr (inr h) ↦ omega (arith, h)
]
short_heap free (some a, free') b e = absurd (ground (arith, e))

taken_bytes :
    (free a : ℕ) (o : Option ℕ × ℕ)
    → Block task_stack_size 16 free o
    → o.0 ≡ some a
    → (o.1 < free + 16400) × (o.1 ≤ heap_end)
taken_bytes free a (none, free') b e = absurd (ground (arith, e))
taken_bytes free a (some start, free') b e = (omega (arith, b.1, b.3), b.4)

new_stacks-none :
    (word : ℕ) (s : State) (i : ℕ)
    → 2 ^ 32 ≤ word
    → s.next_free ≤ heap_end
    → (new_stacks word s i).0 ≡ none
    → heap_end < s.next_free + 32800
unfolding new_stacks
new_stacks-none word s i wide in_heap =
    let P = λ (r : Option (ℕ × ℕ) × State). r.0 ≡ none → heap_end < s.next_free + 32800 in
    let first = kmalloc_aligned word s.next_free task_stack_size 16 in
    let second = kmalloc_aligned word first.1 task_stack_size 16 in
    let block =
      kmalloc_aligned_lem word s.next_free task_stack_size 16 wide in_heap (omega arith) in
    if_ind P (not ((s.tasks i).stack_top == 0)) (λ _ e. absurd (ground (arith, e)))
      (λ _.
        option_ind P first.0 (λ miss _. omega (arith, short_heap s.next_free first block miss))
          (λ a hit.
            let q = taken_bytes s.next_free a first block hit in
            option_ind P second.0
              (λ miss _.
                let block' =
                  kmalloc_aligned_lem word first.1 task_stack_size 16 wide q.1 (omega arith) in
                omega (arith, short_heap first.1 second block' miss, q.0))
              (λ b _ e. absurd (ground (arith, e)))))

fill_slot-none :
    (b : ℕ → ℕ) (i : ℕ) (name : String) (waitable : Bool) (o : Option (ℕ × ℕ) × State)
    → (fill_slot b i name waitable o).0 ≡ none
    → o.0 ≡ none
unfolding fill_slot
fill_slot-none b i name waitable (none, s) h = refl
fill_slot-none b i name waitable (some stacks, s) h = absurd (ground (arith, h))

fails_with :
    (word : ℕ) (b : ℕ → ℕ) (s : State) (name : String) (waitable : Bool) (o : Option (ℕ × State))
    → Slot s o
    → 2 ^ 32 ≤ word
    → s.next_free ≤ heap_end
    → (let r : Option ℕ × State = elim o [
      | none ↦ (none, s)
      | some slot ↦ fill_slot b slot.0 name waitable (new_stacks word slot.1 slot.0)
    ] in
        r.0 ≡ none)
    → ((8 ≤ s.task_count) × ((i : ℕ) → i < s.task_count → is_unused (s.tasks i).state ≡ false))
      ⊎ (heap_end < s.next_free + 32800)
fails_with word b s name waitable none h wide in_heap e = inl h
fails_with word b s name waitable (some (i, s1)) h wide in_heap e =
    let same : s1.next_free ≡ s.next_free = ap (λ (x : State). x.next_free) h.4 in
    let short =
      new_stacks-none word s1 i wide (omega (arith, same))
        (fill_slot-none b i name waitable (new_stacks word s1 i) e) in
    inr (omega (arith, short, same))

-- With words of at least 32 bits, at most 8 tasks and a first free byte not behind the heap's end,
-- `spawn_inner` fails only where the table has 8 tasks and no unused slot, or less than 32800 bytes
-- of the heap are left.
pub spawn_inner_fails :
    (word : ℕ) (bootstrap_stack : ℕ → ℕ) (s : State) (name : String) (waitable : Bool)
    → 2 ^ 32 ≤ word
    → s.task_count ≤ 8
    → s.next_free ≤ heap_end
    → (spawn_inner word bootstrap_stack s name waitable).0 ≡ none
    → ((8 ≤ s.task_count) × ((i : ℕ) → i < s.task_count → is_unused (s.tasks i).state ≡ false))
      ⊎ (heap_end < s.next_free + 32800)
unfolding spawn_inner
spawn_inner_fails word b s name waitable wide le in_heap e =
    fails_with word b s name waitable (new_slot s) (new_slot_lem s le) wide in_heap e
