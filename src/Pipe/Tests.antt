-- ===== src/Pipe/Tests.antt =====
-- Runs of core/pipe.rs on one open pipe, with its indices at the start, near the end and apart.
use the_cursed_moon_kernel.Prelude.{
  ℕ, ◌%◌, ◌^◌, ◌≡◌, ◌<◌, refl, true, some, List, [], ◌∷◌, find_from, arith,
}
use the_cursed_moon_kernel.Pipe.{State, new, create, write, read, info}
use the_cursed_moon_kernel.Pipe.Flow.{IsValid, contents}
use the_cursed_moon_kernel.Pipe.Fifo.{read-write}
use the_cursed_moon_kernel.Pipe.Seam.{seam_overwrites, info-pending}

-- Every pipe open, with its indices where they are given.
abbrev pipe_at : ℕ → ℕ → State
pipe_at head tail = record {
  pipes = λ _. record { used = true; head = head; tail = tail; writers = 1; readers = 2 };
  buffers = λ k. k % 256;
}

abbrev blank : State
blank = record { pipes = λ _. new; buffers = λ _. 0 }

abbrev hello : List ℕ
hello = 104 ∷ 105 ∷ []

pipe_at-IsValid : (h t : ℕ) → h < 1025 → t < 1025 → (i : ℕ) → IsValid ((pipe_at h t).pipes i)
pipe_at-IsValid h t hh ht i = record { head_in = hh; tail_in = ht }

create_run : (create blank).0 ≡ some 0
unfolding create find_from
create_run = refl

read-write_example :
    ((read (write (pipe_at 7 7) 2 hello).1 2 9).0 ≡ hello)
    × (contents (read (write (pipe_at 7 7) 2 hello).1 2 9).1 2 ≡ [])
unfolding the_cursed_moon_kernel.Ring.gap
read-write_example =
    read-write (pipe_at 7 7) 2 9 hello refl (omega arith)
      (pipe_at-IsValid 7 7 (omega arith) (omega arith) 2) refl (omega arith) (omega arith)
      (omega arith)

seam_overwrites_example :
    ((write (pipe_at 1024 1024) 2 hello).0 ≡ 2)
    × ((read (write (pipe_at 1024 1024) 2 hello).1 2 2).0 ≡ 105 ∷ 105 ∷ [])
seam_overwrites_example = seam_overwrites (pipe_at 1024 1024) 2 104 105 refl (omega arith) refl refl

info-pending_example : info (2 ^ 64) (pipe_at 3 1000) 2 ≡ some (44, 1, 2)
unfolding the_cursed_moon_kernel.Ring.gap
info-pending_example =
    info-pending (pipe_at 3 1000) 2 refl (pipe_at-IsValid 3 1000 (omega arith) (omega arith) 2)
