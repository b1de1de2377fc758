-- ===== src/Scheduler/Births.antt =====
-- The birth of a task in core/scheduler.rs: which slot it gets and what the slot then holds.
use Prim.Native.String.{String}
use the_cursed_moon_kernel.Prelude.{
  ℕ, ◌≤◌, ◌<◌, ◌≡◌, refl, sym, ap, ◌∙◌, subst, ◌≢◌, ◌⊎◌, inl, inr, Bool, true, false, not, Option,
  none, some, leb, ◌==◌, update_self, update_ne, find_from, find_from_hit, find_from_miss,
  ℕ_discrete, option_ind, if_ind, arith,
}
use the_cursed_moon_kernel.Kmalloc.{kmalloc_aligned}
use the_cursed_moon_kernel.Scheduler.Tasks.{
  Task, State, TaskState, ready, is_unused, is_running, slice_ticks, max_tasks, task_stack_size,
}
use the_cursed_moon_kernel.Scheduler.Spawn.{born, new_slot, new_stacks, fill_slot, spawn_inner}
use the_cursed_moon_kernel.Scheduler.Switch.{IsValid}

-- What `new_slot` answers: no slot where the table is full, and otherwise one that is unused or new.
abbrev pub Slot : State → Option (ℕ × State) → Type 0
Slot s none =
    (8 ≤ s.task_count) × ((i : ℕ) → i < s.task_count → is_unused (s.tasks i).state ≡ false)
Slot s (some (i, r)) =
    (i < r.task_count)
    × (s.task_count ≤ r.task_count)
    × (r.task_count ≤ 8)
    × ((is_unused (s.tasks i).state ≡ true) ⊎ (i ≡ s.task_count))
    × (r ≡ record s { task_count = r.task_count })

pub new_slot_lem : (s : State) → s.task_count ≤ 8 → Slot s (new_slot s)
unfolding new_slot
new_slot_lem s le =
    let unused_at = λ (i : ℕ). is_unused (s.tasks i).state in
    option_ind (Slot s) (find_from unused_at s.task_count 0)
      (λ miss.
        if_ind (Slot s) (leb max_tasks s.task_count)
          (λ full. (
            ground arith,
            λ i lt. find_from_miss unused_at s.task_count 0 miss i (omega arith) (omega arith),
          ))
          (λ room. (omega arith, omega arith, ground arith, inr refl, refl)))
      (λ k e.
        let hit = find_from_hit unused_at s.task_count 0 k e in
        (omega (arith, hit.2), omega arith, le, inl hit.0, refl))

-- What `new_stacks` answers: the slot's own stacks, or new ones, and no task changes.
Stacks : State → ℕ → Option (ℕ × ℕ) × State → Type 0
Stacks s i (o, r) =
    (r ≡ record s { next_free = r.next_free })
    × ((s.tasks i).stack_top ≢ 0
        → (o ≡ some ((s.tasks i).stack_top, (s.tasks i).kernel_stack_top))
          × (r.next_free ≡ s.next_free))

new_stacks_lem : (word : ℕ) (s : State) (i : ℕ) → Stacks s i (new_stacks word s i)
unfolding new_stacks Stacks
new_stacks_lem word s i =
    let first = kmalloc_aligned word s.next_free task_stack_size 16 in
    let second = kmalloc_aligned word first.1 task_stack_size 16 in
    if_ind (Stacks s i) (not ((s.tasks i).stack_top == 0)) (λ h. (refl, λ ne. (refl, refl)))
      (λ h.
        option_ind (Stacks s i) first.0 (λ _. (refl, λ ne. absurd (ne (ground arith))))
          (λ a _.
            option_ind (Stacks s i) second.0 (λ _. (refl, λ ne. absurd (ne (ground arith))))
              (λ b _. (refl, λ ne. absurd (ne (ground arith))))))

-- The birth of a task. Without a number, no task changes. With one, the slot was unused or beyond
-- the table's end; it now holds a ready task with the credits of a period, the calling task as
-- its parent and the given name, and no other slot changes. A slot that had stacks keeps them, and
-- nothing is taken from the heap.
abbrev pub Spawned : State → String → Bool → Option ℕ × State → Type 0
Spawned s name waitable (none, r) =
    (r.tasks ≡ s.tasks)
    × (r.current ≡ s.current)
    × (s.task_count ≤ r.task_count)
    × (r.task_count ≤ 8)
Spawned s name waitable (some i, r) =
    ((i < r.task_count) × (s.task_count ≤ r.task_count) × (r.task_count ≤ 8))
    × ((is_unused (s.tasks i).state ≡ true) ⊎ (i ≡ s.task_count))
    × (((r.tasks i).state ≡ ready)
        × ((r.tasks i).credits ≡ 2)
        × ((r.tasks i).parent ≡ s.current)
        × ((r.tasks i).waitable ≡ waitable)
        × ((r.tasks i).name ≡ name))
    × (((j : ℕ) → j ≢ i → r.tasks j ≡ s.tasks j) × (r.current ≡ s.current))
    × ((s.tasks i).stack_top ≢ 0
        → ((r.tasks i).stack_top ≡ (s.tasks i).stack_top) × (r.next_free ≡ s.next_free))

top_of : Option (ℕ × ℕ) → ℕ
top_of none = 0
top_of (some (top, ktop)) = top

fill_slot-Spawned :
    (bootstrap_stack : ℕ → ℕ) (s s1 : State) (name : String) (waitable : Bool) (i : ℕ)
    (stacks : Option (ℕ × ℕ) × State)
    → Slot s (some (i, s1))
    → Stacks s1 i stacks
    → Spawned s name waitable (fill_slot bootstrap_stack i name waitable stacks)
unfolding fill_slot Stacks slice_ticks top_of
fill_slot-Spawned b s s1 name waitable i (none, r) p q =
    let e : (r.tasks ≡ s.tasks) × (r.current ≡ s.current) × (r.task_count ≡ s1.task_count) = (
      ap (λ (x : State). x.tasks) q.0 ∙ ap (λ (x : State). x.tasks) p.4,
      ap (λ (x : State). x.current) q.0 ∙ ap (λ (x : State). x.current) p.4,
      ap (λ (x : State). x.task_count) q.0,
    ) in
    (e.0, e.1, omega (arith, e.2, p.1), omega (arith, e.2, p.2))
fill_slot-Spawned b s s1 name waitable i (some (top, ktop), r) p q =
    let tasks_same : r.tasks ≡ s.tasks =
      ap (λ (x : State). x.tasks) q.0 ∙ ap (λ (x : State). x.tasks) p.4 in
    let current_same : r.current ≡ s.current =
      ap (λ (x : State). x.current) q.0 ∙ ap (λ (x : State). x.current) p.4 in
    let count_same : r.task_count ≡ s1.task_count = ap (λ (x : State). x.task_count) q.0 in
    let u = update_self r.tasks i (born (r.tasks i) name top ktop (b top) r.current waitable) in
    let was : s1.tasks i ≡ s.tasks i = ap (λ (x : State). x.tasks i) p.4 in
    (
      (
        omega (arith, count_same, p.0),
        omega (arith, count_same, p.1),
        omega (arith, count_same, p.2),
      ),
      p.3,
      (
        ap (λ (t : Task). t.state) u,
        ap (λ (t : Task). t.credits) u,
        ap (λ (t : Task). t.parent) u ∙ current_same,
        ap (λ (t : Task). t.waitable) u,
        ap (λ (t : Task). t.name) u,
      ),
      (
        λ j ne.
            update_ne r.tasks i (born (r.tasks i) name top ktop (b top) r.current waitable) j ne
            ∙ ap (λ (f : ℕ → Task). f j) tasks_same,
        current_same,
      ),
      λ has.
          let old = q.1 (subst (λ (t : Task). t.stack_top ≢ 0) (sym was) has) in
          (
            ap (λ (t : Task). t.stack_top) u ∙ ap top_of old.0 ∙ ap (λ (t : Task). t.stack_top) was,
            old.1 ∙ ap (λ (x : State). x.next_free) p.4,
          ),
    )

Spawned-ind :
    (word : ℕ) (b : ℕ → ℕ) (s : State) (name : String) (waitable : Bool) (o : Option (ℕ × State))
    → Slot s o
    → s.task_count ≤ 8
    → Spawned s name waitable (elim o [
      | none ↦ (none, s)
      | some slot ↦ fill_slot b slot.0 name waitable (new_stacks word slot.1 slot.0)
    ])
Spawned-ind word b s name waitable none h le = (refl, refl, omega arith, le)
Spawned-ind word b s name waitable (some (i, s1)) h le =
    fill_slot-Spawned b s s1 name waitable i (new_stacks word s1 i) h (new_stacks_lem word s1 i)

-- On a table of at most 8 tasks, `spawn_inner` either fails and changes no task; or it takes an
-- unused slot or the one behind the last, which then holds a ready task with 2 credits, the current
-- task as its parent, and the given name and waitable mark, while no other slot changes. A slot
-- that had stacks keeps its first stack's top, and nothing is taken from the heap for it. The table
-- has at most 8 tasks afterwards.
pub spawn_inner-Spawned :
    (word : ℕ) (bootstrap_stack : ℕ → ℕ) (s : State) (name : String) (waitable : Bool)
    → s.task_count ≤ 8
    → Spawned s name waitable (spawn_inner word bootstrap_stack s name waitable)
unfolding spawn_inner
spawn_inner-Spawned word b s name waitable le =
    Spawned-ind word b s name waitable (new_slot s) (new_slot_lem s le) le

ready_not_running : {t : TaskState} → is_running t ≡ true → t ≡ ready → ⊥
ready_not_running {t} h e = ground (arith, subst (λ x. is_running x ≡ true) e h)

Spawned-IsValid :
    (s : State) (name : String) (waitable : Bool) (o : Option ℕ × State)
    → IsValid s
    → Spawned s name waitable o
    → IsValid o.1
Spawned-IsValid s name waitable (none, r) v h = record {
  count_in = h.3;
  current_in = omega (arith, h.1, h.2, v.current_in);
  only = λ i run.
      subst (λ c. i ≡ c) (sym h.1)
        (v.only i (subst (λ (f : ℕ → Task). is_running (f i).state ≡ true) h.0 run));
  credits_in = λ i. subst (λ (f : ℕ → Task). (f i).credits ≤ 8) (sym h.0) (v.credits_in i);
}
Spawned-IsValid s name waitable (some k, r) v h = record {
  count_in = h.0.2;
  current_in = omega (arith, h.3.1, h.0.1, v.current_in);
  only = λ i run. elim (ℕ_discrete i k) [
    | yes e ↦
        absurd (ready_not_running (subst (λ j. is_running (r.tasks j).state ≡ true) e run) h.2.0)
    | no ne ↦
        subst (λ c. i ≡ c) (sym h.3.1)
          (v.only i (subst (λ (t : Task). is_running t.state ≡ true) (h.3.0 i ne) run))
  ];
  credits_in = λ i. elim (ℕ_discrete i k) [
    | yes e ↦ subst (λ j. (r.tasks j).credits ≤ 8) (sym e) (omega (arith, h.2.1))
    | no ne ↦ subst (λ (t : Task). t.credits ≤ 8) (sym (h.3.0 i ne)) (v.credits_in i)
  ];
}

-- `spawn_inner` keeps the task table valid, whether it succeeds or fails.
pub spawn_inner-IsValid :
    {s : State} (word : ℕ) (bootstrap_stack : ℕ → ℕ) (name : String) (waitable : Bool)
    → IsValid s
    → IsValid (spawn_inner word bootstrap_stack s name waitable).1
spawn_inner-IsValid {s} word b name waitable v =
    Spawned-IsValid s name waitable (spawn_inner word b s name waitable) v
      (spawn_inner-Spawned word b s name waitable v.count_in)
