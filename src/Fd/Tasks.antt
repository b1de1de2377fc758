-- ===== src/Fd/Tasks.antt =====
-- `clone_into` and `close_all` of core/fd.rs, which `fork` and the end of a task call on a whole
-- table.
use the_cursed_moon_kernel.Prelude.{
  ℕ, zero, suc, ◌≤◌, ◌<◌, ◌≡◌, refl, ap, ◌∙◌, ◌≢◌, inr, false, not, arith, leb, update, update_self,
  update_ne, if_ind, ◌⊎◌, ℕ_discrete,
}
use the_cursed_moon_kernel.Fd.{
  State, empty, put, release, slot, entry_at, close_step, close_loop, close_all, clone_step,
  clone_loop, clone_into,
}
use the_cursed_moon_kernel.Fd.Count.{tables-release, tables-retain}
use the_cursed_moon_kernel.Fd.Slots.{
  IsBalanced, owner_open, install-IsBalanced, uninstall-IsBalanced, blank-IsBalanced,
}

-- A slot outside the first `n` of a task's table.
abbrev Outside : ℕ → ℕ → ℕ → Type 0
Outside task n k = (k < slot task 0) ⊎ (slot task n ≤ k)

-- The loop of `close_all` after `n` rounds.
record Closed (task n : ℕ) (s s' : State) : Type 0 where
  balanced : IsBalanced s'
  closed : (fd : ℕ) → fd < n → (entry_at s' task fd).used ≡ false
  others : (k : ℕ) → Outside task n k → s'.tables k ≡ s.tables k

tables-close_step :
    (task fd k : ℕ) (s : State) → k ≢ slot task fd → (close_step task fd s).tables k ≡ s.tables k
unfolding close_step
tables-close_step task fd k s ne =
    if_ind (λ (r : State). r.tables k ≡ s.tables k) (not (entry_at s task fd).used) (λ _. refl)
      λ _.
        update_ne (release s (entry_at s task fd)).tables (slot task fd) empty k ne
        ∙ ap (λ t. t k) (tables-release s (entry_at s task fd))

close_step-closed :
    (task fd : ℕ) (s : State) → (entry_at (close_step task fd s) task fd).used ≡ false
unfolding close_step
close_step-closed task fd s =
    if_ind (λ (r : State). (entry_at r task fd).used ≡ false) (not (entry_at s task fd).used)
      (λ blank. ground arith)
      (λ _.
        ap (λ e. e.used) (update_self (release s (entry_at s task fd)).tables (slot task fd) empty))

close_step-IsBalanced :
    {s : State} (task fd : ℕ)
    → task < 8
    → fd < 16
    → IsBalanced s
    → IsBalanced (close_step task fd s)
unfolding close_step
close_step-IsBalanced {s} task fd ht hf b =
    if_ind IsBalanced (not (entry_at s task fd).used) (λ _. b)
      λ used. uninstall-IsBalanced (slot task fd) b (omega arith) (ground arith)

close_loop-Closed :
    {s : State} (task n : ℕ)
    → task < 8
    → n ≤ 16
    → IsBalanced s
    → Closed task n s (close_loop task n s)
unfolding close_loop
close_loop-Closed task zero ht hn b = record {
  balanced = b;
  closed = λ fd lt. absurd (omega arith);
  others = λ k out. refl;
}
close_loop-Closed {s} task (suc n) ht hn b =
    let ih = close_loop-Closed {s = s} task n ht (omega arith) b in
    let s1 = close_loop task n s in
    record {
      balanced = close_step-IsBalanced {s = s1} task n ht (omega arith) ih.balanced;
      closed = λ fd lt. elim (ℕ_discrete fd n) [
        | yes e ↦ rw e (close_step-closed task n s1)
        | no ne ↦
            ap (λ e. e.used) (tables-close_step task n (slot task fd) s1 (omega arith))
            ∙ ih.closed fd (omega arith)
      ];
      others = λ k out. tables-close_step task n k s1 (omega arith) ∙ ih.others k (omega arith);
    }

-- `close_all` of a task below 8, in a state whose pipe counters are right, leaves none of its 16
-- descriptors in use, changes no other table, and keeps the pipe counters equal to the number of
-- descriptors that own an end.
pub close_all_lem :
    {s : State} (task : ℕ)
    → task < 8
    → IsBalanced s
    → let s' = close_all s task in
      IsBalanced s'
      × ((fd : ℕ) → fd < 16 → (entry_at s' task fd).used ≡ false)
      × ((k : ℕ) → (k < slot task 0) ⊎ (slot task 16 ≤ k) → s'.tables k ≡ s.tables k)
unfolding close_all
close_all_lem {s} task ht b =
    let c = close_loop-Closed {s = s} task 16 ht (omega arith) b in
    if_ind
      (λ (s' : State).
        IsBalanced s'
        × ((fd : ℕ) → fd < 16 → (entry_at s' task fd).used ≡ false)
        × ((k : ℕ) → (k < slot task 0) ⊎ (slot task 16 ≤ k) → s'.tables k ≡ s.tables k))
      (leb 8 task) (λ big. absurd (ground arith)) (λ _. (c.balanced, c.closed, c.others))

-- The loop of `clone_into` after `n` rounds.
record Cloned (task child n : ℕ) (s s' : State) : Type 0 where
  balanced : IsBalanced s'
  copied : (fd : ℕ) → fd < n → entry_at s' child fd ≡ entry_at s task fd
  others : (k : ℕ) → Outside child n k → s'.tables k ≡ s.tables k

tables-clone_step :
    (task child fd : ℕ) (s : State)
    → (clone_step task child fd s).tables ≡ update s.tables (slot child fd) (entry_at s task fd)
unfolding clone_step
tables-clone_step task child fd s =
    let e = entry_at s task fd in
    if_ind (λ (r : State). r.tables ≡ update s.tables (slot child fd) e) e.used
      (λ _. tables-retain (put s (slot child fd) e) e) (λ _. refl)

clone_step-IsBalanced :
    {s : State} (task child fd : ℕ)
    → task < 8
    → child < 8
    → fd < 16
    → IsBalanced s
    → (entry_at s child fd).used ≡ false
    → IsBalanced (clone_step task child fd s)
unfolding clone_step
clone_step-IsBalanced {s} task child fd ht hc hf b free =
    let e = entry_at s task fd in
    if_ind IsBalanced e.used
      (λ used.
        install-IsBalanced (slot child fd) e b (omega arith) free used
          (λ p w o. owner_open (slot task fd) p w b (omega arith) o))
      (λ blank. blank-IsBalanced (slot child fd) e b (omega arith) free blank)

clone_loop-Cloned :
    {s : State} (task child n : ℕ)
    → task < 8
    → child < 8
    → child ≢ task
    → n ≤ 16
    → IsBalanced s
    → ((fd : ℕ) → fd < 16 → (entry_at s child fd).used ≡ false)
    → Cloned task child n s (clone_loop task child n s)
unfolding clone_loop
clone_loop-Cloned task child zero ht hc ne hn b free = record {
  balanced = b;
  copied = λ fd lt. absurd (omega arith);
  others = λ k out. refl;
}
clone_loop-Cloned {s} task child (suc n) ht hc ne hn b free =
    let ih = clone_loop-Cloned {s = s} task child n ht hc ne (omega arith) b free in
    let s1 = clone_loop task child n s in
    let step = tables-clone_step task child n s1 in
    let source : entry_at s1 task n ≡ entry_at s task n = ih.others (slot task n) (omega arith) in
    record {
      balanced =
          clone_step-IsBalanced {s = s1} task child n ht hc (omega arith) ih.balanced (
            ap (λ e. e.used) (ih.others (slot child n) (inr (omega arith))) ∙ free n (omega arith));
      copied = λ fd lt. elim (ℕ_discrete fd n) [
        | yes e ↦ rw e (
            ap (λ t. t (slot child n)) step
            ∙ update_self s1.tables (slot child n) (entry_at s1 task n)
            ∙ source)
        | no far ↦
            ap (λ t. t (slot child fd)) step
            ∙ update_ne s1.tables (slot child n) (entry_at s1 task n) (slot child fd) (omega arith)
            ∙ ih.copied fd (omega arith)
      ];
      others = λ k out.
          ap (λ t. t k) step
          ∙ update_ne s1.tables (slot child n) (entry_at s1 task n) k (omega arith)
          ∙ ih.others k (omega arith);
    }

-- `clone_into` of a task's table to another task whose table is empty, both below 8 and in a state
-- whose pipe counters are right, gives the child an equal entry for every descriptor, changes no
-- other table, and keeps the pipe counters equal to the number of descriptors that own an end.
pub clone_into_lem :
    {s : State} (task child : ℕ)
    → task < 8
    → child < 8
    → child ≢ task
    → IsBalanced s
    → ((fd : ℕ) → fd < 16 → (entry_at s child fd).used ≡ false)
    → let s' = clone_into s task child in
      IsBalanced s'
      × ((fd : ℕ) → fd < 16 → entry_at s' child fd ≡ entry_at s task fd)
      × ((k : ℕ) → (k < slot child 0) ⊎ (slot child 16 ≤ k) → s'.tables k ≡ s.tables k)
unfolding clone_into
clone_into_lem {s} task child ht hc ne b free =
    let c = clone_loop-Cloned {s = s} task child 16 ht hc ne (omega arith) b free in
    if_ind
      (λ (s' : State).
        IsBalanced s'
        × ((fd : ℕ) → fd < 16 → entry_at s' child fd ≡ entry_at s task fd)
        × ((k : ℕ) → (k < slot child 0) ⊎ (slot child 16 ≤ k) → s'.tables k ≡ s.tables k))
      (leb 8 child) (λ big. absurd (ground arith)) (λ _. (c.balanced, c.copied, c.others))
