-- ===== src/Ipc/Queue.antt =====
-- The ring of level0b2/ipc.rs against a queue of at most 31 messages that drops the newest.
use the_cursed_moon_kernel.Prelude.{
  subst, ◌+◌, ◌%◌, ◌≤◌, ◌<◌, ◌≡◌, refl, ◌≢◌, sym, ap, ◌∙◌, Bool, true, false, Option, none, some,
  List, [], ◌∷◌, ◌++◌, length, leb, ◌==◌, if◌then◌else◌, arith, ==→eq, if_ind,
}
use the_cursed_moon_kernel.Ring.{
  window, length-window, gap, gap-lt, gap-full, gap-push, gap_self, window-push, window-pop,
}
use the_cursed_moon_kernel.Ipc.{State, Message, post_message, poll, remember, depth}

-- The two indices of the ring are below 32.
pub record IsValid (s : State) : Type 0 where
  pub head_in : s.head < 32
  pub tail_in : s.tail < 32

-- The messages that wait, oldest first.
abbrev pub waiting : State → List Message
waiting s = window s.ring 32 s.tail (gap 32 s.tail s.head)

-- The queue that the ring stands for.
abbrev pub push : List Message → Message → Bool × List Message
push q m = if leb 31 (length q) then (false, q) else (true, q ++ (m ∷ []))

abbrev pub pop : List Message → Option Message × List Message
pop [] = (none, [])
pop (m ∷ q) = (some m, q)

pub post-IsValid : {s : State} (m : Message) → IsValid s → IsValid (post_message s m).1
unfolding post_message
post-IsValid m v = ground arith

pub poll-IsValid : {s : State} → IsValid s → IsValid (poll s).1
unfolding poll remember
poll-IsValid v = ground arith

-- The depth that the shell reports is the number of messages that wait.
pub depth-waiting : {s : State} → IsValid s → depth s ≡ length (waiting s)
unfolding depth gap
depth-waiting {s} v = ground (arith, length-window s.ring 32 s.tail (gap 32 s.tail s.head))

push-full : (q : List Message) (m : Message) → 31 ≤ length q → push q m ≡ (false, q)
push-full q m h = ground arith

push-room : (q : List Message) (m : Message) → length q < 31 → push q m ≡ (true, q ++ (m ∷ []))
push-room q m h = ground arith

-- `post` does to the waiting messages what the queue's `push` does, and returns what it returns.
pub post_refines :
    {s : State} (m : Message)
    → IsValid s
    → let (done, s') = post_message s m in (done, waiting s') ≡ push (waiting s) m
unfolding post_message
post_refines {s} m v =
    let count = length-window s.ring 32 s.tail (gap 32 s.tail s.head) in
    if_ind (λ (r : Bool × State). (r.0, waiting r.1) ≡ push (waiting s) m)
      ((s.head + 1) % 32 == s.tail)
      (λ full.
        let e = gap-full 32 s.tail s.head v.tail_in v.head_in (==→eq _ _ full) in
        sym (push-full (waiting s) m (omega arith)))
      (λ room.
        let ne : (s.head + 1) % 32 ≢ s.tail = ground arith in
        let e = gap-push 32 s.tail s.head v.tail_in v.head_in ne in
        let lt = gap-lt 32 s.tail ((s.head + 1) % 32) v.tail_in (omega arith) in
        ap (λ w. (true, w)) (window-push s.ring 32 s.tail s.head m v.tail_in v.head_in ne)
        ∙ sym (push-room (waiting s) m (omega arith)))

-- `poll` does what the queue's `pop` does.
pub poll_refines :
    {s : State} → IsValid s → let (m, s') = poll s in (m, waiting s') ≡ pop (waiting s)
unfolding poll remember
poll_refines {s} v =
    if_ind (λ (r : Option Message × State). (r.0, waiting r.1) ≡ pop (waiting s)) (s.tail == s.head)
      (λ same.
        let e : gap 32 s.tail s.head ≡ 0 = rw (==→eq _ _ same) (gap_self 32 s.head) in
        subst (λ w. (none, w) ≡ pop w) (sym (ap (window s.ring 32 s.tail) e)) refl)
      (λ more.
        let ne : s.tail ≢ s.head = ground arith in
        let e = window-pop s.ring 32 s.tail s.head v.tail_in v.head_in ne in
        let rest = window s.ring 32 ((s.tail + 1) % 32) (gap 32 ((s.tail + 1) % 32) s.head) in
        subst (λ w. (some (s.ring s.tail), rest) ≡ pop w) (sym e) refl)

-- What a client asks of the ring, and what it sees of each call.
pub data Op : Type 0 where
  put : Message → Op
  take : Op

unfoldable pub run : State → List Op → List (Bool × Option Message)
run s [] = []
run s (put m ∷ ops) = let (done, s') = post_message s m in (done, none) ∷ run s' ops
run s (take ∷ ops) = let (m, s') = poll s in (true, m) ∷ run s' ops

unfoldable pub run_queue : List Message → List Op → List (Bool × Option Message)
run_queue q [] = []
run_queue q (put m ∷ ops) = let (done, q') = push q m in (done, none) ∷ run_queue q' ops
run_queue q (take ∷ ops) = let (m, q') = pop q in (true, m) ∷ run_queue q' ops

-- On a ring whose two indices are below 32, no sequence of `post` and `poll` calls returns anything
-- else than the same calls on a queue of at most 31 messages that starts as the waiting messages.
pub run_refines : (ops : List Op) {s : State} → IsValid s → run s ops ≡ run_queue (waiting s) ops
unfolding run run_queue
run_refines [] v = refl
run_refines (put m ∷ ops) {s} v =
    rw (run_refines ops (post-IsValid m v))
      (ap (λ (r : Bool × List Message). (r.0, none) ∷ run_queue r.1 ops) (post_refines m v))
run_refines (take ∷ ops) {s} v =
    rw (run_refines ops (poll-IsValid v))
      (ap (λ (r : Option Message × List Message). (true, r.0) ∷ run_queue r.1 ops) (poll_refines v))
