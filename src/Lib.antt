-- ===== src/Lib.antt =====
-- The cursed moon kernel: models of the parts of kernel/src that keep the state of a running system,
-- with proofs that they keep it.
--
-- The kernel has three layers. Level-0a (kernel/src/level0a) runs tasks, files and windows; its core
-- (kernel/src/level0a/core) has the scheduler, the descriptors, the pipes, the frame allocator and the
-- heap. Level-0b2 (kernel/src/level0b2) watches over Level-0a, counts its calls and carries messages to
-- it. Level-0b1 translates system calls and loads programs.
--
-- - Pipe: core/pipe.rs. PIPES and BUFFERS are the fields of its State. `write`, `read`, `create`,
--   `close_end`, `add_ref` and `info` are the functions of these names; the loops of the first two are
--   `write_loop` and `read_loop`, on the list of bytes and on the room that is left. Flow counts bytes,
--   Fifo orders them, Ends is about the counters, Seam about the last ring index.
-- - Fd: core/fd.rs and `create_pipe` of level0a/kernel_api.rs. The State has TABLES, flat as the pointer
--   arithmetic uses it, and the pipes, as a descriptor owns one of the ends that a pipe counts. Count
--   and Slots say what one write to a slot does to that balance, Balance, Tasks and Create what the
--   operations do, Lookup what `get` shows.
-- - Frames: core/frames.rs. Bits is about the bitmap, Valid about the whole allocator, Alloc and Refs
--   about its operations. `frees` is a number of calls of `free` at one frame.
-- - Kmalloc: core/kmalloc.rs, over the first free byte; Blocks says what a block is.
-- - Scheduler: core/scheduler.rs and `beat` of level0a/pit.rs. Tasks is the table, Select the timer
--   tick, `pick_next` and `yield_now`, Spawn the birth and the end of tasks, Wait sleep and waiting. A
--   switch is modelled up to `arch_context_switch`; a function that waits is modelled as its steps
--   before, at and after the `yield_now` of its loop, since other tasks run in between. Choice, Wake,
--   Switch, Births, Failures, Ends and Orphans hold the theorems. `spawn_inner` calls Kmalloc.
-- - Ipc: level0b2/ipc.rs. Queue compares the ring with a list, History is about the messages taken.
-- - Monitor: level0b2/state_monitor.rs, with the two messages that level0b2/fallback.rs posts for it to
--   the ring of Ipc. Balancer: level0b2/load_balancer.rs, which posts to it too.
-- - Block: drivers/block.rs of level0a, over the driver of the disk. IsDisk is what a disk that works
--   does; Ram is a memory that does it.
-- - Partition: drivers/partition.rs of level0a; Table compares the scan with the entries in order.
-- - Tcmkfs: core/tcmkfs.rs, the file system on the disk. Layout has the constants and the bytes of
--   an inode, Sectors the tables and blocks as they go through Block, Bitmap the free blocks, Text and
--   Names paths and their parts, Nodes creation and removal, Data the bytes of files, Mount `format`,
--   `mount` and the skeleton directories. A `&str` is its list of bytes. Their child modules hold the
--   theorems; in Nodes, Tree is the invariant, Grow what a new inode does to it, Make and Drop the
--   operations.
-- - Vfs: core/vfs.rs, the nodes over the files of the kernel image and of Tcmkfs. Lookup is about names
--   that stay, Create about `create_file`.
-- - Signal: level0b1/signal.rs. A set of pending signals is a function to Bool instead of a word.
--   Valid is the invariant, Steps the operations in any order, Deliver and Return what happens to a
--   signal. `raise` calls `terminate` of Scheduler.
-- - Input: level0a/input.rs. Queue compares the ring of events with a list, Mouse is about packets.
-- - Prelude and Ring: static arrays as functions, `update`, the first hit of a scan, counts, loops, and
--   the window of a ring buffer.
--
-- Every operation is a function of the state that returns the new state; one that can fail returns a
-- result and the state, also with an error (Prelude/Action). Most loops are structural recursion on a
-- list or on the number of rounds that the source's range or buffer gives. Three have fuel: the loops of
-- `read` and `write` of Tcmkfs get one round for each byte wanted, as every round moves at least one,
-- and `deliver_pending` gets 33 rounds, as every round but the last clears one of 32 bits. Where
-- an index into the 40 blocks of an inode is out of bounds, the source panics, and the model answers
-- `panicked`. Atomic 32-bit counters wrap. Words of the machine (`usize`) are numbers; where the code
-- wraps them, the number of their values is an argument or stands in the theorem.
--
-- Parameters are the driver of the disk, with the contract IsDisk where a theorem needs one that
-- serves every request up to its last sector, the clock, the frame that `build_signal_frame` makes, and
-- the addresses that each program reaches at each moment, which `is_user_accessible` reads from the page
-- tables. A read that fails is taken to leave the buffer unused, as the code returns at once.
--
-- Not modelled: the machine's stack and context switch, the ticks of the PIT as they arrive and the
-- address spaces (arguments), the console, drawing, device drivers, page tables, program
-- loading, and the translation of system calls. The code masks interrupts around each
-- operation, which is why an operation is one step here.
pub mod Prelude
pub mod Ring
pub mod Partition
pub mod Pipe
pub mod Fd
pub mod Frames
pub mod Input
pub mod Ipc
pub mod Kmalloc
pub mod Monitor
pub mod Balancer
pub mod Block
pub mod Tcmkfs
pub mod Vfs
pub mod Scheduler
pub mod Signal
