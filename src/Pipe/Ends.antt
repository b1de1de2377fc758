-- ===== src/Pipe/Ends.antt =====
-- The two ends of a pipe in core/pipe.rs: creation, and the counters that say when it dies.
use the_cursed_moon_kernel.Prelude.{
  sym, subst, ◌∙◌, ℕ, ◌+◌, ◌-◌, ◌<◌, ◌≡◌, refl, ◌≢◌, Bool, true, false, not, none, some, arith,
  if◌then◌else◌, ne→==, eq→==, ◌==◌, Option-cases, inl, inr, find_from, find_from_hit,
  find_from_miss, count_to_all,
}
use mathlib.Core.Option.{some-injective}
use the_cursed_moon_kernel.Pipe.{State, max_pipes, is_open, create, close_end, open_count}

abbrev unused : State → ℕ → Bool
unused s j = not (s.pipes j).used

-- What a successful `create` has done: the index was unused, is open now with one writer and one
-- reader and nothing to read, and no other pipe has changed.
abbrev pub Created : State → State → ℕ → Type 0
Created s s' i =
    (i < 4)
    × ((s.pipes i).used ≡ false)
    × (is_open s' i ≡ true)
    × ((s'.pipes i).writers ≡ 1)
    × ((s'.pipes i).readers ≡ 1)
    × ((s'.pipes i).head ≡ (s'.pipes i).tail)
    × ((j : ℕ) → j ≢ i → s'.pipes j ≡ s.pipes j)

create_at :
    (s : State) (k : ℕ)
    → find_from (unused s) max_pipes 0 ≡ some k
    → ((create s).0 ≡ some k) × Created s (create s).1 k
unfolding create
create_at s k e =
    let hit = find_from_hit (unused s) max_pipes 0 k e in
    rw (e, create, eq→== k k refl)
      (
        refl,
        (
          omega (arith, hit.2),
          ground (arith, hit.0),
          ground (arith, hit.2),
          refl,
          refl,
          refl,
          λ j ne. rw (ne→== j k ne) refl,
        ),
      )

-- `create` gives out an index below 4 that was unused and opens it for one writer and one reader
-- with equal indices, while every other pipe stays; it fails only where all four are in use, and
-- then changes nothing.
pub create_lem :
    (s : State)
    → ((i : ℕ) → (create s).0 ≡ some i → Created s (create s).1 i)
      × ((create s).0 ≡ none → ((create s).1 ≡ s) × (open_count s ≡ 4))
unfolding create open_count
create_lem s = elim (Option-cases (find_from (unused s) max_pipes 0)) [
  | inl e ↦
      rw (e, create)
        (
          λ i h. cc,
          λ h. (refl, count_to_all _ 4 (λ j lt. ground (arith, find_from_miss (unused s) 4 0 e j))),
        )
  | inr (k, e) ↦
      let at_k = create_at s k e in
      (
        λ i h. subst (Created s (create s).1) (some-injective k i (sym at_k.0 ∙ h)) at_k.1,
        λ h. cc (at_k.0),
      )
]

-- Closing an end of an open pipe takes one from the counter of that side, down to 0, leaves the
-- other counter, and leaves the pipe open exactly if one of the two is not 0.
pub close_end_lem :
    (s : State) (i : ℕ) (writer : Bool)
    → is_open s i ≡ true
    → let p = s.pipes i in
      let q = (close_end s i writer).pipes i in
      (q.writers ≡ (if writer then p.writers - 1 else p.writers))
      × (q.readers ≡ (if writer then p.readers else p.readers - 1))
      × (is_open (close_end s i writer) i ≡ (if q.writers + q.readers == 0 then false else true))
unfolding close_end
close_end_lem s i writer o = ground (arith, eq→== i i refl)
