-- ===== src/Fd/Balance.antt =====
-- `close`, `allocate`, `dup` and `dup2` of core/fd.rs, and the balance of the pipe counters.
use the_cursed_moon_kernel.Prelude.{
  leb-false, ℕ, ◌≤◌, ◌<◌, ◌≡◌, refl, ap, ◌∙◌, ◌≢◌, Bool, true, false, not, Option, some, arith,
  ◌==◌, leb, update_self, update_ne, update-update, if_ind, option_ind, find_from_hit,
}
use the_cursed_moon_kernel.Fd.{
  State, FileDescriptor, file, empty, put, retain, release, slot, entry_at, first_free, allocate,
  dup, dup2, close,
}
use the_cursed_moon_kernel.Fd.Count.{owns, tables-release}
use the_cursed_moon_kernel.Fd.Slots.{
  IsBalanced, owner_open, install-IsBalanced, uninstall-IsBalanced,
}

pub first_free_hit :
    (s : State) (task fd : ℕ)
    → first_free s task ≡ some fd
    → ((entry_at s task fd).used ≡ false) × (3 ≤ fd) × (fd < 16)
unfolding first_free
first_free_hit s task fd h =
    let hit = find_from_hit _ 13 3 fd h in (ground (arith, hit.0), hit.1, omega (arith, hit.2))

-- `close` by a task below 8 keeps the pipe counters equal to the number of descriptors that own an
-- end, for any number.
pub close-IsBalanced :
    {s : State} (task fd : ℕ) → task < 8 → IsBalanced s → IsBalanced (close s task fd).1
unfolding close
close-IsBalanced {s} task fd ht b =
    if_ind (λ (r : Bool × State). IsBalanced r.1) (leb 16 fd) (λ _. b)
      λ small.
        if_ind (λ (r : Bool × State). IsBalanced r.1) (not (entry_at s task fd).used) (λ _. b)
          λ used. uninstall-IsBalanced (slot task fd) b (ground arith) (ground arith)

abbrev file_entry : ℕ → FileDescriptor
file_entry node = record { used = true; kind = file; node = node; offset = 0 }

pub allocate-IsBalanced :
    {s : State} (task node : ℕ) → task < 8 → IsBalanced s → IsBalanced (allocate s task node).1
unfolding allocate retain
allocate-IsBalanced {s} task node ht b =
    option_ind (λ (r : Option ℕ × State). IsBalanced r.1) (first_free s task) (λ _. b)
      λ fd h.
        let hit = first_free_hit s task fd h in
        install-IsBalanced (slot task fd) (file_entry node) b (omega (arith, hit.2)) hit.0 refl
          (λ p w o. cc o)

-- `dup` by a task below 8 keeps the pipe counters equal to the number of descriptors that own an
-- end, for any number.
pub dup-IsBalanced :
    {s : State} (task oldfd : ℕ) → task < 8 → IsBalanced s → IsBalanced (dup s task oldfd).1
unfolding dup
dup-IsBalanced {s} task oldfd ht b =
    if_ind (λ (r : Option ℕ × State). IsBalanced r.1) (leb 16 oldfd) (λ _. b)
      λ small.
        if_ind (λ (r : Option ℕ × State). IsBalanced r.1) (not (entry_at s task oldfd).used)
          (λ _. b)
          λ used.
            option_ind (λ (r : Option ℕ × State). IsBalanced r.1) (first_free s task) (λ _. b)
              λ fd h.
                let hit = first_free_hit s task fd h in
                install-IsBalanced (slot task fd) (entry_at s task oldfd) b (omega (arith, hit.2))
                  hit.0 (ground arith)
                  (λ p w o. owner_open (slot task oldfd) p w b (ground arith) o)

-- The entry of one slot takes the place of the entry of another, which is released first.
replace-IsBalanced :
    {s : State} (old k : ℕ)
    → IsBalanced s
    → old < 128
    → k < 128
    → old ≢ k
    → (s.tables k).used ≡ true
    → (s.tables old).used ≡ true
    → IsBalanced (retain (put (release s (s.tables k)) k (s.tables old)) (s.tables old))
replace-IsBalanced {s} old k b lt lt' ne busy used =
    let e = s.tables old in
    let s1 = put (release s (s.tables k)) k empty in
    let b1 : IsBalanced s1 = uninstall-IsBalanced k b lt' busy in
    let same : s1.tables old ≡ e =
      update_ne (release s (s.tables k)).tables k empty old ne
      ∙ ap (λ t. t old) (tables-release s (s.tables k)) in
    let there : (s1.tables k).used ≡ false =
      ap (λ x. x.used) (update_self (release s (s.tables k)).tables k empty) in
    rw (update-update (release s (s.tables k)).tables k empty e) at (
      install-IsBalanced {s = s1} k e b1 lt' there used
        (λ p w o. owner_open {s = s1} old p w b1 lt (ap (owns p w) same ∙ o)))

-- `dup2` by a task below 8 keeps the pipe counters equal to the number of descriptors that own an
-- end, for any two numbers.
pub dup2-IsBalanced :
    {s : State} (task oldfd newfd : ℕ)
    → task < 8
    → IsBalanced s
    → IsBalanced (dup2 s task oldfd newfd).1
unfolding dup2
dup2-IsBalanced {s} task oldfd newfd ht b =
    let P = λ (r : Option ℕ × State). IsBalanced r.1 in
    if_ind P (leb 16 oldfd) (λ _. b)
      λ small.
        if_ind P (leb 16 newfd) (λ _. b)
          λ small'.
            if_ind P (not (entry_at s task oldfd).used) (λ _. b)
              λ used.
                if_ind P (oldfd == newfd) (λ _. b)
                  λ differ.
                    let old = slot task oldfd in
                    let k = slot task newfd in
                    let e = s.tables old in
                    if_ind (λ (r : State). IsBalanced (retain (put r k e) e)) (s.tables k).used
                      (λ busy.
                        replace-IsBalanced old k b (omega (arith, leb-false small))
                          (omega (arith, leb-false small')) (ground arith) busy (ground arith))
                      (λ free.
                        install-IsBalanced k e b (omega (arith, leb-false small')) free
                          (ground arith)
                          (λ p w o. owner_open old p w b (omega (arith, leb-false small)) o))
