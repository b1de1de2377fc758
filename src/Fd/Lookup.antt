-- ===== src/Fd/Lookup.antt =====
-- What a task sees of core/fd.rs through `get` after it copies, redirects or closes a descriptor.
use the_cursed_moon_kernel.Prelude.{
  ℕ, ◌≤◌, ◌<◌, ◌≡◌, refl, ap, ◌∙◌, ◌≢◌, inl, inr, true, false, not, Option, none, some, arith, leb,
  update, update_self, update_ne, if_ind, option_ind, find_from_hit, find_from_miss, ◌⊎◌, eq→==,
}
use the_cursed_moon_kernel.Fd.{
  State, put, release, slot, entry_at, first_free, get, dup, dup2, close,
}
use the_cursed_moon_kernel.Fd.Count.{tables-retain, tables-release}

-- The tables after a `dup2` that succeeds.
tables-dup2 :
    (s : State) (task oldfd newfd k : ℕ)
    → oldfd < 16
    → newfd < 16
    → (entry_at s task oldfd).used ≡ true
    → ((dup2 s task oldfd newfd).0 ≡ some newfd)
      × ((dup2 s task oldfd newfd).1.tables k
          ≡ update s.tables (slot task newfd) (entry_at s task oldfd) k)
unfolding dup2
tables-dup2 s task oldfd newfd k h h' used =
    let e = entry_at s task oldfd in
    let prev = entry_at s task newfd in
    let at_new = slot task newfd in
    let fact = ap (λ t. t k) (tables-retain (put (release s prev) at_new e) e) in
    let fact' = ap (λ t. t k) (tables-retain (put s at_new e) e) in
    let fact'' = ap (λ t. t k) (tables-release s prev) in ground (arith, fact, fact', fact'')

-- `dup2` of a descriptor in use, with both numbers below 16, returns the new number, which then
-- names what the old one named, and every other entry of every table is as it was.
pub get-dup2 :
    (s : State) (task oldfd newfd : ℕ)
    → oldfd < 16
    → newfd < 16
    → (entry_at s task oldfd).used ≡ true
    → let (r, s') = dup2 s task oldfd newfd in
      (r ≡ some newfd)
      × (get s' task newfd ≡ get s task oldfd)
      × ((k : ℕ) → k ≢ slot task newfd → s'.tables k ≡ s.tables k)
unfolding get
get-dup2 s task oldfd newfd h h' used =
    let at_new = tables-dup2 s task oldfd newfd (slot task newfd) h h' used in
    let here = at_new.1 ∙ update_self s.tables (slot task newfd) (entry_at s task oldfd) in
    (
      at_new.0,
      ground (arith, here),
      λ k ne.
          (tables-dup2 s task oldfd newfd k h h' used).1
          ∙ update_ne s.tables (slot task newfd) (entry_at s task oldfd) k ne,
    )

-- What a result of `dup` says: a descriptor is the lowest free one from 3 on, and names what the
-- old one names; a failure changes nothing, and the old one was not in use or all 13 slots are.
abbrev pub Dups : State → ℕ → ℕ → Option ℕ × State → Type 0
Dups s task oldfd (some fd, s') =
    (3 ≤ fd)
    × (fd < 16)
    × ((entry_at s task fd).used ≡ false)
    × ((j : ℕ) → 3 ≤ j → j < fd → (entry_at s task j).used ≡ true)
    × (get s' task fd ≡ get s task oldfd)
Dups s task oldfd (none, s') =
    (s' ≡ s)
    × ((get s task oldfd ≡ none) ⊎ ((j : ℕ) → 3 ≤ j → j < 16 → (entry_at s task j).used ≡ true))

-- `dup` either gives the lowest unused number from 3 to 15, which then names what the old one
-- names; or it changes nothing, and the old number names nothing or all of these numbers are in
-- use.
pub dup_lem : (s : State) (task oldfd : ℕ) → Dups s task oldfd (dup s task oldfd)
unfolding dup get first_free
dup_lem s task oldfd =
    let e = entry_at s task oldfd in
    if_ind (Dups s task oldfd) (leb 16 oldfd) (λ big. (refl, inl (rw big)))
      λ small.
        if_ind (Dups s task oldfd) (not e.used) (λ idle. (refl, inl (ground arith)))
          λ used.
            option_ind (Dups s task oldfd) (first_free s task)
              (λ full. (refl, inr (λ j lo hi. ground (arith, find_from_miss _ 13 3 full j))))
              (λ fd h.
                let hit = find_from_hit _ 13 3 fd h in
                let there =
                  ap (λ t. t (slot task fd)) (tables-retain (put s (slot task fd) e) e)
                  ∙ update_self s.tables (slot task fd) e in
                (
                  hit.1,
                  omega (arith, hit.2),
                  ground (arith, hit.0),
                  λ j lo hi. ground (arith, hit.3 j),
                  ground (arith, there, hit.2),
                ))

-- After a `close` that succeeds, the number names nothing, and closing it again fails and changes
-- nothing.
pub close_twice :
    (s : State) (task fd : ℕ)
    → (close s task fd).0 ≡ true
    → let s' = (close s task fd).1 in (get s' task fd ≡ none) × (close s' task fd ≡ (false, s'))
unfolding close get
close_twice s task fd h =
    ground (arith, tables-release s (entry_at s task fd), eq→== (slot task fd) (slot task fd) refl)
