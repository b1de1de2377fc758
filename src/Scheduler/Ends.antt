-- ===== src/Scheduler/Ends.antt =====
-- The end of a task in core/scheduler.rs: what `terminate` leaves in the table, and what becomes
-- of a task that waits for the ended one.
use the_cursed_moon_kernel.Prelude.{
  ℕ, ◌+◌, ◌-◌, ◌<◌, ◌≡◌, refl, ap, ◌∙◌, ◌≢◌, Bool, true, false, ◌||◌, none, ltb, leb, ◌==◌,
  if◌then◌else◌, update, update_self, update_ne, if_ind, arith, ==→ne,
}
use the_cursed_moon_kernel.Scheduler.Tasks.{
  Task, State, TaskState, unused, ready, waiting, terminated, is_unused, is_terminated, max_tasks,
  set_task, released, release_slot,
}
use the_cursed_moon_kernel.Scheduler.Spawn.{ended, Terminate, ok, err, terminate}
use the_cursed_moon_kernel.Scheduler.Select.{wake_expired}
use the_cursed_moon_kernel.Scheduler.Wait.{wait_check, state_of}
use the_cursed_moon_kernel.Scheduler.Wake.{woken, wake_expired_lem}

abbrev pub is_gone : TaskState → Bool
is_gone t = is_unused t || is_terminated t

-- What `terminate` says. An error leaves everything as it is. Otherwise the task is not the idle
-- task or the running one, its slot is terminated or, where it is not waitable, unused, the answer is
-- its address space, which the slot no longer has, and no other slot changes.
abbrev pub Terminated : State → ℕ → Terminate × State → Type 0
Terminated s i (err e, r) = r ≡ s
Terminated s i (ok space, r) =
    ((i ≢ 0) × (i < 8) × (i ≢ s.current) × (is_gone (s.tasks i).state ≡ false))
    × ((space ≡ (s.tasks i).address_space) × ((r.tasks i).address_space ≡ 0))
    × ((r.tasks i).state ≡ (if (s.tasks i).waitable then terminated else unused))
    × ((j : ℕ) → j ≢ i → r.tasks j ≡ s.tasks j)
    × (r ≡ record s { tasks = r.tasks })

EndedAs : State → ℕ → Task → Bool → State → Type 0
EndedAs s i t w r =
    ((r.tasks i).address_space ≡ t.address_space)
    × ((r.tasks i).state ≡ (if w then terminated else unused))
    × ((j : ℕ) → j ≢ i → r.tasks j ≡ s.tasks j)
    × (r ≡ record s { tasks = r.tasks })

ended_as :
    (s : State) (i : ℕ) (t : Task) (w : Bool)
    → EndedAs s i t w (
        if w
        then set_task s i (record t { state = terminated })
        else release_slot (set_task s i (record t { state = terminated })) i)
unfolding EndedAs release_slot
ended_as s i t true =
    let x = record t { state = terminated } in
    let u = update_self s.tasks i x in
    (
      ap (λ (y : Task). y.address_space) u,
      ap (λ (y : Task). y.state) u,
      λ j ne. update_ne s.tasks i x j ne,
      refl,
    )
ended_as s i t false =
    let x = record t { state = terminated } in
    let f = update s.tasks i x in
    let u = update_self s.tasks i x in
    let q = update_self f i (released (f i)) in
    (
      ap (λ (y : Task). y.address_space) q ∙ ap (λ (y : Task). y.address_space) u,
      ap (λ (y : Task). y.state) q,
      λ j ne. update_ne f i (released (f i)) j ne ∙ update_ne s.tasks i x j ne,
      refl,
    )

ended-EndedAs : (s : State) (i : ℕ) (t : Task) → EndedAs s i t t.waitable (ended s i t)
ended-EndedAs s i t = ended_as s i t t.waitable

-- `terminate` either reports an error and changes nothing; or the task is not the idle task, not
-- the current one, below 8 and neither unused nor terminated, its slot becomes terminated if it was
-- waitable and unused if not, the answer is the address space it had, which the slot no longer has,
-- and no other slot changes.
pub terminate-Terminated : (s : State) (i : ℕ) → Terminated s i (terminate s i)
unfolding terminate EndedAs
terminate-Terminated s i =
    if_ind (Terminated s i) (i == 0) (λ _. refl)
      (λ nz.
        if_ind (Terminated s i) (leb max_tasks i) (λ _. refl)
          (λ lt.
            if_ind (Terminated s i) (i == s.current) (λ _. refl)
              (λ nc.
                if_ind (Terminated s i) (is_unused (s.tasks i).state) (λ _. refl)
                  (λ nu.
                    if_ind (Terminated s i) (is_terminated (s.tasks i).state) (λ _. refl)
                      (λ nt.
                        let h = ended-EndedAs s i (record (s.tasks i) { address_space = 0 }) in
                        (
                          (==→ne i 0 nz, ground arith, ==→ne i s.current nc, rw (nu, nt) refl),
                          (refl, h.0),
                          h.1,
                          h.2,
                          h.3,
                        ))))))

abbrev pub succeeds : Terminate → Bool
succeeds (ok space) = true
succeeds (err e) = false

woken-waiting :
    (tasks : ℕ → Task) (now : ℕ) (t : Task)
    → t.state ≡ waiting
    → (woken tasks now t).state
      ≡ (if is_terminated (tasks (t.wait_for - 1)).state then ready else waiting)
woken-waiting tasks now t h = ground (arith, h)

ltb-true : {a b : ℕ} → a < b → ltb a b ≡ true
ltb-true h = ground arith

leb_no : {a b : ℕ} → b < a → leb a b ≡ false
leb_no h = ground arith

monus : (c : ℕ) → c + 1 - 1 ≡ c
monus c = omega arith

terminated_if : (w : Bool) → is_terminated (if w then terminated else unused) ≡ w
terminated_if true = refl
terminated_if false = refl

waiter_of :
    (s : State) (w c now count : ℕ)
    → (s.tasks w).state ≡ waiting
    → (s.tasks w).wait_for ≡ c + 1
    → w ≢ c
    → w < count
    → (o : Terminate × State) → succeeds o.0 ≡ true
    → Terminated s c o
    → (((wake_expired o.1 now count).tasks w).state
        ≡ (if (s.tasks c).waitable then ready else waiting))
      × ((s.tasks c).waitable ≡ false → (wait_check o.1 c).0 ≡ none)
unfolding wait_check state_of
waiter_of s w c now count hw hf ne lt (err e, r) h t = absurd (ground (arith, h))
waiter_of s w c now count hw hf ne lt (ok space, r) h t =
    let same = t.3 w ne in
    let over : is_terminated (r.tasks c).state ≡ (s.tasks c).waitable =
      ap is_terminated t.2 ∙ terminated_if (s.tasks c).waitable in
    (
      ap (λ (x : Task). x.state) ((wake_expired_lem r now count).0 w)
          ∙ rw (ltb-true lt, same)
              (woken-waiting r.tasks now (s.tasks w) hw
                ∙ rw (hf, monus c) (ap (λ b. if b then ready else waiting) over)),
      λ nw. rw (leb_no t.0.1, over ∙ nw) refl,
    )

-- Where task `w` waits for another task `c` and `terminate` ends `c`, the next `wake_expired` that
-- covers `w` makes `w` ready exactly if `c` was waitable. Otherwise `w` stays waiting, and the test
-- of the loop of `wait_for_task` does not find `c` terminated.
pub waiter_lem :
    (s : State) (w c now count : ℕ)
    → (s.tasks w).state ≡ waiting
    → (s.tasks w).wait_for ≡ c + 1
    → w ≢ c
    → w < count
    → succeeds (terminate s c).0 ≡ true
    → (((wake_expired (terminate s c).1 now count).tasks w).state
        ≡ (if (s.tasks c).waitable then ready else waiting))
      × ((s.tasks c).waitable ≡ false → (wait_check (terminate s c).1 c).0 ≡ none)
waiter_lem s w c now count hw hf ne lt h =
    waiter_of s w c now count hw hf ne lt (terminate s c) h (terminate-Terminated s c)
