-- ===== src/Input/Queue.antt =====
-- The queue of level0a/input.rs is a queue of at most 63 events.
use the_cursed_moon_kernel.Prelude.{
  ◌+◌, ◌%◌, ◌<◌, ◌==◌, ltb, if◌then◌else◌, Option, none, some, List, [], ◌∷◌, ◌++◌, length, update,
  update_ne, ◌≡◌, refl, ap, sym, ◌∙◌, arith, if_ind, ==→eq, ==→ne,
}
use the_cursed_moon_kernel.Ring.{
  window, gap, place, window-push, window-pop, window_ext, place-suc, place-ne, gap-pop, gap-push,
  gap-lt, gap-full, gap_self, length-window,
}
use the_cursed_moon_kernel.Input.{Event, State, push, poll}

pub record IsValid (s : State) : Type 0 where
  pub head_in : s.head < 64
  pub tail_in : s.tail < 64

-- The events that wait, the oldest first.
abbrev pub waiting : State → List (Option Event)
waiting s = window s.queue 64 s.tail (gap 64 s.tail s.head)

-- A queue that takes 63 events, and then none.
abbrev pub enqueue : Event → List (Option Event) → List (Option Event)
enqueue e q = if ltb (length q) 63 then q ++ (some e ∷ []) else q

abbrev pub dequeue : List (Option Event) → Option Event × List (Option Event)
dequeue [] = (none, [])
dequeue (e ∷ q) = (e, q)

pub push-IsValid : (e : Event) {s : State} → IsValid s → IsValid (push e s)
unfolding push
push-IsValid e v = record {
  head_in = ground (arith, v.head_in);
  tail_in = ground (arith, v.tail_in);
}

pub poll-IsValid : {s : State} → IsValid s → IsValid (poll s).1
unfolding poll
poll-IsValid v = record { head_in = ground (arith, v.head_in); tail_in = ground (arith, v.tail_in) }

full_keeps : (q : List (Option Event)) (e : Event) → length q ≡ 63 → q ≡ enqueue e q
full_keeps q e h = rw h refl

room_adds : (q : List (Option Event)) (e : Event) → length q < 63 → q ++ (some e ∷ []) ≡ enqueue e q
room_adds q e h = ground arith

none_first : (q : List (Option Event)) → q ≡ [] → (none, q) ≡ dequeue q
none_first q h = rw h refl

first_rest :
    (q r r' : List (Option Event)) (x : Option Event) → q ≡ x ∷ r → r' ≡ r → (x, r') ≡ dequeue q
first_rest q r r' x h e = rw (h, e) refl

pub waiting-push : (e : Event) (s : State) → IsValid s → waiting (push e s) ≡ enqueue e (waiting s)
unfolding push
waiting-push e s v =
    let len = length-window s.queue 64 s.tail (gap 64 s.tail s.head) in
    if_ind (λ (t : State). waiting t ≡ enqueue e (waiting s)) ((s.head + 1) % 64 == s.tail)
      (λ full.
        let g = gap-full 64 s.tail s.head v.tail_in v.head_in (==→eq _ _ full) in
        full_keeps (waiting s) e (omega (arith, len, g)))
      (λ room.
        let ne = ==→ne ((s.head + 1) % 64) s.tail room in
        let p = window-push s.queue 64 s.tail s.head (some e) v.tail_in v.head_in ne in
        let g = gap-push 64 s.tail s.head v.tail_in v.head_in ne in
        let g' = gap-lt 64 s.tail ((s.head + 1) % 64) v.tail_in (omega arith) in
        p ∙ room_adds (waiting s) e (omega (arith, len, g, g')))

pub waiting-poll : (s : State) → IsValid s → ((poll s).0, waiting (poll s).1) ≡ dequeue (waiting s)
unfolding poll
waiting-poll s v =
    if_ind (λ (r : Option Event × State). (r.0, waiting r.1) ≡ dequeue (waiting s))
      (s.tail == s.head)
      (λ same.
        let e : gap 64 s.tail s.head ≡ 0 =
          ap (gap 64 s.tail) (sym (==→eq s.tail s.head same)) ∙ gap_self 64 s.tail in
        none_first (waiting s) (ap (window s.queue 64 s.tail) e))
      (λ apart.
        let ne = ==→ne s.tail s.head apart in
        let tail' = (s.tail + 1) % 64 in
        let less = gap-pop 64 s.tail s.head v.tail_in v.head_in ne in
        let small = gap-lt 64 s.tail s.head v.tail_in v.head_in in
        first_rest (waiting s) (window s.queue 64 tail' (gap 64 tail' s.head))
          (window (update s.queue s.tail none) 64 tail' (gap 64 tail' s.head)) (s.queue s.tail)
          (window-pop s.queue 64 s.tail s.head v.tail_in v.head_in ne)
          (window_ext (update s.queue s.tail none) s.queue 64 tail' (gap 64 tail' s.head)
            (λ j lt. update_ne s.queue s.tail none (place 64 tail' j) (λ e.
              place-ne 64 s.tail j v.tail_in (omega (arith, less, small))
                (sym (place-suc 64 s.tail j) ∙ e)))
            (omega arith)))
