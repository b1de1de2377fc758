-- ===== src/Ipc.antt =====
-- kernel/src/level0b2/ipc.rs: the message ring from the kernel's parts to the desktop loop, the
-- history of the messages taken, and the shared area. The time of a message
-- (`level0a::pit::ticks`) is an argument of `post`.
pub mod Queue
pub mod History
mod Tests
use Prim.Native.String.{String}
use the_cursed_moon_kernel.Prelude.{
  ℕ, ◌+◌, ◌-◌, ◌%◌, ◌^◌, max, Bool, true, false, Option, none, some, ltb, leb, ◌==◌, if◌then◌else◌,
  update,
}

abbrev pub shared_magic : ℕ
shared_magic = 0x544D_4B00

pub record SharedArea : Type 0 where
  pub magic : ℕ
  pub heartbeat : ℕ
  pub ticks : ℕ
  pub tasks : ℕ
  pub switches : ℕ
  pub level0a_status : ℕ

-- The initial value of `SHARED`.
abbrev pub shared : SharedArea
shared = record {
  magic = shared_magic;
  heartbeat = 0;
  ticks = 0;
  tasks = 0;
  switches = 0;
  level0a_status = 0;
}

abbrev pub shared_is_valid : SharedArea → Bool
shared_is_valid a = a.magic == shared_magic

pub data Kind : Type 0 where
  boot_complete app_start app_exit fault throttled health_change note : Kind

pub record Message : Type 0 where
  pub kind : Kind
  pub task : ℕ
  pub a : ℕ
  pub b : ℕ
  pub tick : ℕ
  pub text : String

-- `Message::empty`
abbrev pub empty : Message
empty = record { kind = note; task = 0; a = 0; b = 0; tick = 0; text = "" }

abbrev pub ring_size : ℕ
ring_size = 32

abbrev pub history_size : ℕ
history_size = 8

-- The counters are 32-bit words; the indices never leave their ranges.
pub record State : Type 0 where
  pub ring : ℕ → Message
  pub head : ℕ
  pub tail : ℕ
  pub history : ℕ → Message
  pub history_len : ℕ
  pub history_next : ℕ
  pub posted : ℕ
  pub consumed : ℕ
  pub dropped : ℕ
  pub high_water : ℕ

abbrev pub initial : State
initial = record {
  ring = λ _. empty;
  head = 0;
  tail = 0;
  history = λ _. empty;
  history_len = 0;
  history_next = 0;
  posted = 0;
  consumed = 0;
  dropped = 0;
  high_water = 0;
}

-- `AtomicU32::fetch_add(1)`
abbrev pub count_up : ℕ → ℕ
count_up n = (n + 1) % 2 ^ 32

-- `post`, from the message on.
unfoldable pub post_message : State → Message → Bool × State
post_message s message =
    let next = (s.head + 1) % ring_size in
    let depth = (next + ring_size - s.tail) % ring_size in
    if next == s.tail then (false, record s { dropped = count_up s.dropped }) else (
      true,
      record s {
        ring = update s.ring s.head message;
        head = next;
        posted = count_up s.posted;
        high_water = max s.high_water depth;
      },
    )

unfoldable pub post : State → ℕ → Kind → ℕ → ℕ → ℕ → String → Bool × State
unfolding post_message
post s ticks kind task a b text =
    post_message s (record { kind = kind; task = task; a = a; b = b; tick = ticks; text = text })

unfoldable pub remember : State → Message → State
remember s message =
    let slot = s.history_next in
    record s {
      history = update s.history slot message;
      history_next = (slot + 1) % history_size;
      history_len = if ltb s.history_len history_size then s.history_len + 1 else s.history_len;
    }

unfoldable pub poll : State → Option Message × State
poll s =
    let message = s.ring s.tail in
    if s.tail == s.head then (none, s) else (
      some message,
      remember (record s { tail = (s.tail + 1) % ring_size; consumed = count_up s.consumed })
          message,
    )

-- The `index`-th of the messages taken, from the newest on.
unfoldable pub history : State → ℕ → Option Message
history s index =
    if leb s.history_len index
    then none
    else some (s.history ((s.history_next + history_size - 1 - index) % history_size))

unfoldable pub depth : State → ℕ
depth s = (s.head + ring_size - s.tail) % ring_size

abbrev pub capacity : ℕ
capacity = ring_size - 1
