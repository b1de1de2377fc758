-- ===== src/Ipc/History.antt =====
-- The history of level0b2/ipc.rs: the last messages that were taken, the newest first.
use the_cursed_moon_kernel.Prelude.{
  ℕ, zero, suc, ◌+◌, ◌-◌, ◌%◌, ◌<◌, min, ◌≡◌, ◌≢◌, ap, Bool, Option, none, some, List, ◌∷◌, length,
  get_elem?, ◌==◌, update, update_ne, arith, if_ind,
}
use the_cursed_moon_kernel.Ipc.{State, Message, post_message, poll, remember, history}

-- The history of a state is that of the log of all messages taken, the newest first: its length is
-- that of the log, up to 8, and its entries are the log's.
pub record Logs (s : State) (log : List Message) : Type 0 where
  pub next_in : s.history_next < 8
  pub len : s.history_len ≡ min 8 (length log)
  pub entries : (k : ℕ) → k < s.history_len → history s k ≡ get_elem? log k

-- The place of an entry, and where it is after one more message.
place :
    (next k : ℕ)
    → next < 8
    → suc k < 8
    → ((next + 1) % 8 + 8 - 1 - suc k) % 8 ≡ (next + 8 - 1 - k) % 8
place next k h lt = omega arith

place-ne : (next k : ℕ) → next < 8 → suc k < 8 → (next + 8 - 1 - k) % 8 ≢ next
place-ne next k h lt = omega arith

remember-Logs :
    {s : State} {log : List Message} (m : Message) → Logs s log → Logs (remember s m) (m ∷ log)
unfolding remember history
remember-Logs {s} {log} m v = record {
  next_in = omega arith;
  len = ground (arith, v.len);
  entries = λ k.
      elim k
        as (λ j.
          j < (remember s m).history_len → history (remember s m) j ≡ get_elem? (m ∷ log) j) [
            | zero ↦ λ lt. ground (arith, v.next_in)
            | suc j ↦ λ lt.
                let below : suc j < 8 = ground (arith, v.len) in
                let old : j < s.history_len = ground (arith, v.len) in
                let same =
                  ap (update s.history s.history_next m) (place s.history_next j v.next_in below) in
                let other =
                  update_ne s.history s.history_next m ((s.history_next + 8 - 1 - j) % 8)
                    (place-ne s.history_next j v.next_in below) in
                ground (arith, v.entries j old, same, other)
          ];
}

-- Where the history shows the last 8 messages taken, newest first, it does so after a `poll`, with
-- the message that this returned as the newest, and after a post, which changes it not.
pub poll-Logs :
    {s : State} {log : List Message} (m : Message)
    → Logs s log
    → Logs (poll s).1 (elim (poll s).0 [ none ↦ log | some taken ↦ taken ∷ log ])
      × Logs (post_message s m).1 log
unfolding poll post_message history
poll-Logs {s} {log} m v = (
  if_ind
      (λ (r : Option Message × State).
        Logs r.1 (elim r.0 [ none ↦ log | some taken ↦ taken ∷ log ]))
      (s.tail == s.head) (λ _. v)
      (λ _.
        remember-Logs (s.ring s.tail)
          (record { next_in = v.next_in; len = v.len; entries = v.entries })),
  if_ind (λ (r : Bool × State). Logs r.1 log) ((s.head + 1) % 32 == s.tail)
      (λ _. record { next_in = v.next_in; len = v.len; entries = v.entries })
      (λ _. record { next_in = v.next_in; len = v.len; entries = v.entries }),
)
