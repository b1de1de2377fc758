-- ===== src/Tcmkfs/Tests.antt =====
-- Runs of the file system on a disk in memory, and the theorems at concrete inputs.
use the_cursed_moon_kernel.Prelude.{
  ℕ, zero, suc, ◌<◌, ◌≢◌, true, false, none, some, [], ◌∷◌, ◌≡◌, refl, arith, find_from, count_to,
  update,
}
use the_cursed_moon_kernel.Prelude.Bytes.{nth, slice}
use the_cursed_moon_kernel.Prelude.Action.{Result, ok, err}
use the_cursed_moon_kernel.Block
use the_cursed_moon_kernel.Block.{available}
use the_cursed_moon_kernel.Block.Ram.{ram, ram_state, ram-IsDisk}
use the_cursed_moon_kernel.Tcmkfs.Layout.{State, Inode, FsError, full, empty}
use the_cursed_moon_kernel.Tcmkfs.Sectors.{
  each_chunk, write_chunk, flush_inodes, flush_bitmap, write_super,
}
use the_cursed_moon_kernel.Tcmkfs.Bitmap.{alloc_block}
use the_cursed_moon_kernel.Tcmkfs.Bitmap.Count.{IsCounted}
use the_cursed_moon_kernel.Tcmkfs.Text.{split, trim_end, split_last, utf8}
use the_cursed_moon_kernel.Tcmkfs.Names.{
  resolve, walk, descend, child_of, name_of, dir_and_leaf, split_parent, count_parts, path_of,
  climb, write_names, lookup,
}
use the_cursed_moon_kernel.Tcmkfs.Nodes.{
  make, mkdir, create, rmdir, allocate_inode, block_count, entry_size, entry_mtime, entry_kind,
}
use the_cursed_moon_kernel.Tcmkfs.Nodes.Tree.{IsTree, IsLive}
use the_cursed_moon_kernel.Tcmkfs.Nodes.Make.{IsText, create-mkdir-IsTree, create-lookup}
use the_cursed_moon_kernel.Tcmkfs.Nodes.Drop.{Dropped, rmdir-Dropped}
use the_cursed_moon_kernel.Tcmkfs.Data.{write, write_from, reserve, roll_back, read, read_from}
use the_cursed_moon_kernel.Tcmkfs.Data.Reserve.{Restored}
use the_cursed_moon_kernel.Tcmkfs.Data.Refuse.{write-full}
use the_cursed_moon_kernel.Tcmkfs.Data.Read.{byte_of, read-slice}
use the_cursed_moon_kernel.Tcmkfs.Data.Store.{write_from-read_from}
use the_cursed_moon_kernel.Tcmkfs.Mount.{format, locate, home, tmp, new_inodes}
use the_cursed_moon_kernel.Tcmkfs.Layout.Image.{SameInode, IsWords}
use the_cursed_moon_kernel.Tcmkfs.Sectors.{load_inodes}
use the_cursed_moon_kernel.Tcmkfs.Sectors.Reload.{flush_inodes-load_inodes}

abbrev blank : State (ℕ → ℕ)
blank = record {
  inodes = λ _. empty;
  bitmap = λ _. 0;
  mounted = false;
  part_lba = 0;
  total_blocks = 0;
  free_blocks = 0;
  writes = 0;
  block = ram_state;
}

formatted : Result FsError (Unit {0}) × State (ℕ → ℕ)
unfolding format locate flush_inodes flush_bitmap write_super each_chunk write_chunk mkdir make
    allocate_inode split_parent dir_and_leaf split_last split resolve walk descend child_of trim_end
    name_of utf8 count_parts available Block.write find_from
formatted = format (some (2048, 8192)) 5 [] blank

home_found : resolve formatted.1.inodes home ≡ some 1
unfolding formatted
home_found = refl

tmp_path : path_of formatted.1.inodes 2 ≡ some tmp
unfolding formatted path_of climb write_names
tmp_path = refl

-- A file system with its root alone, and one with a file of three bytes in inode 1.
abbrev rooted : State (ℕ → ℕ)
rooted = record blank { inodes = new_inodes 5; mounted = true; part_lba = 64 }

abbrev small_file : Inode
small_file = record empty { kind = 1; size = 3; blocks = λ i. i }

abbrev filed : State (ℕ → ℕ)
filed = record rooted { inodes = update (new_inodes 5) 1 small_file }

lone : (i : ℕ) → IsLive (new_inodes 5) i → ⊥
lone zero live = live.0 refl
lone (suc i) live = live.2 (ground arith)

rooted-IsTree : IsTree (new_inodes 5)
rooted-IsTree = record {
  root = refl;
  inside = λ i live. absurd (lone i live);
  named = λ i live. absurd (lone i live);
  unique = λ i j l m p n. absurd (lone i l);
}

tmp_whole : (k : ℕ) → k < 3 → nth (b't' ∷ b'm' ∷ b'p' ∷ []) k ≢ 0
tmp_whole zero lt e = omega arith
tmp_whole (suc zero) lt e = omega arith
tmp_whole (suc (suc zero)) lt e = omega arith
tmp_whole (suc (suc (suc k))) lt e = omega arith

tmp-IsText : IsText tmp
unfolding split utf8
tmp-IsText = ((refl, λ k lt e. omega arith), ((refl, tmp_whole), tt))

create-mkdir-IsTree_example :
    IsTree (create 7 tmp rooted).1.inodes × IsTree (mkdir 7 tmp rooted).1.inodes
create-mkdir-IsTree_example = create-mkdir-IsTree 7 tmp rooted tmp-IsText rooted-IsTree

tmp_made : (create 7 tmp rooted).0 ≡ ok 1
unfolding create make flush_inodes each_chunk write_chunk allocate_inode split_parent dir_and_leaf
    split_last split resolve walk descend child_of trim_end name_of utf8 count_parts Block.write
    find_from
tmp_made = refl

create-lookup_example :
    (lookup (create 7 tmp rooted).1.inodes tmp ≡ some 1)
    × (entry_size (create 7 tmp rooted).1.inodes 1 ≡ some 0)
    × (entry_mtime (create 7 tmp rooted).1.inodes 1 ≡ some 7)
    × (entry_kind rooted.inodes 1 ≡ none)
    × ((k : ℕ) → k ≢ 1 → (create 7 tmp rooted).1.inodes k ≡ rooted.inodes k)
create-lookup_example = create-lookup 7 tmp rooted 1 tmp-IsText rooted-IsTree tmp_made

abbrev with_dir : State (ℕ → ℕ)
with_dir = record rooted {
  inodes =
      update (new_inodes 5) 1 (record empty { kind = 2; name = nth (b't' ∷ b'm' ∷ b'p' ∷ []) });
}

tmp_dropped : (rmdir tmp with_dir).0 ≡ ok tt
unfolding rmdir flush_inodes each_chunk write_chunk split resolve walk descend child_of name_of utf8
    Block.write find_from
tmp_dropped = refl

rmdir-Dropped_example : Dropped tmp with_dir (rmdir tmp with_dir).1
rmdir-Dropped_example = rmdir-Dropped tmp with_dir tmp_dropped

new_inodes-IsWords : (i : ℕ) → i < 64 → IsWords (new_inodes 5 i)
new_inodes-IsWords i lt = record {
  kind = ground arith;
  size = ground arith;
  mtime = ground arith;
  flags = ground arith;
  parent = ground arith;
  blocks = λ k h. ground arith;
}

flush_inodes-load_inodes_example :
    let (r, t) = flush_inodes rooted in
    let (q, u) = load_inodes (record t { inodes = λ _. empty }) in
    (r ≡ ok tt) × (q ≡ ok tt) × ((i : ℕ) → i < 64 → SameInode (u.inodes i) (new_inodes 5 i))
flush_inodes-load_inodes_example =
    flush_inodes-load_inodes ram ram-IsDisk rooted (λ _. empty) refl (omega arith)
      new_inodes-IsWords

filed-IsCounted : IsCounted filed
unfolding count_to
filed-IsCounted = record { bytes = λ k. omega arith; small = omega arith; counted = refl }

no_room : (write 7 1 4096 (9 ∷ []) filed).0 ≡ err full
unfolding write reserve alloc_block roll_back block_count find_from
no_room = refl

write-full_example : Restored 1 filed (write 7 1 4096 (9 ∷ []) filed).1
write-full_example = write-full 7 1 4096 (9 ∷ []) filed filed-IsCounted no_room

read-slice_example :
    (read 1 1 8 filed).0 ≡ ok (slice (byte_of ram-IsDisk.cell filed (filed.inodes 1).blocks) 1 2)
read-slice_example =
    read-slice ram ram-IsDisk filed 1 1 8 refl refl (omega arith) refl (omega arith)
      (λ i lt. omega arith)

write_from-read_from_example :
    ((write_from 2 1 4095 (8 ∷ 9 ∷ []) 1 0 filed).0 ≡ ok 2)
    × ((read_from 2 (λ i. i) 4095 2 0 (write_from 2 1 4095 (8 ∷ 9 ∷ []) 1 0 filed).1).0
        ≡ ok (8 ∷ 9 ∷ []))
write_from-read_from_example =
    write_from-read_from ram ram-IsDisk 1 4095 (8 ∷ 9 ∷ []) 1 (λ i. i) filed refl refl
      (λ i _ lt. omega arith, λ i j _ _ _ _ ne. ne) (omega arith)
