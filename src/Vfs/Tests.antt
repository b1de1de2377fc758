-- ===== src/Vfs/Tests.antt =====
-- The names of core/vfs.rs over an empty file system in memory.
use the_cursed_moon_kernel.Prelude.{
  ℕ, zero, suc, ◌<◌, ◌≢◌, true, none, some, List, take, [], ◌∷◌, ◌≡◌, refl, arith, find_from,
}
use the_cursed_moon_kernel.Prelude.Bytes.{nth}
use the_cursed_moon_kernel.Prelude.Action.{ok, err}
use the_cursed_moon_kernel.Block
use the_cursed_moon_kernel.Block.Ram.{ram_state}
use the_cursed_moon_kernel.Tcmkfs.Layout
use the_cursed_moon_kernel.Tcmkfs.Layout.{empty, too_many_files}
use the_cursed_moon_kernel.Tcmkfs.Sectors.{each_chunk, write_chunk, flush_inodes}
use the_cursed_moon_kernel.Tcmkfs.Text.{split, trim_end, split_last, utf8}
use the_cursed_moon_kernel.Tcmkfs.Names
use the_cursed_moon_kernel.Tcmkfs.Names.{
  resolve, walk, descend, child_of, name_of, dir_and_leaf, split_parent, count_parts,
}
use the_cursed_moon_kernel.Tcmkfs.Nodes.{make, create, allocate_inode}
use the_cursed_moon_kernel.Tcmkfs.Nodes.Tree.{IsTree, IsLive}
use the_cursed_moon_kernel.Tcmkfs.Nodes.Make.{IsText}
use the_cursed_moon_kernel.Tcmkfs.Mount.{tmp, new_inodes}
use the_cursed_moon_kernel.Vfs.{
  Node, State, ram, lookup, mount_disk_files, create_file, attach_disk_node,
}
use the_cursed_moon_kernel.Vfs.Lookup.{mount_disk_files-lookup}
use the_cursed_moon_kernel.Vfs.Create.{create_file-lookup, create_file-long, create_file-full}

abbrev rooted : Layout.State (ℕ → ℕ)
rooted = record {
  inodes = new_inodes 5;
  bitmap = λ _. 0;
  mounted = true;
  part_lba = 64;
  total_blocks = 0;
  free_blocks = 0;
  writes = 0;
  block = ram_state;
}

-- The file "/tm" of the image.
abbrev image : Node
image = record {
  path = b'/' ∷ b't' ∷ b'm' ∷ [];
  size = 3;
  source = ram;
  content = λ k. k;
  inode = 0;
  used = true;
}

abbrev nodes_of : ℕ → State (ℕ → ℕ)
nodes_of n = record { nodes = λ _. image; node_count = n; fs = rooted }

lone : (i : ℕ) → IsLive (new_inodes 5) i → ⊥
lone zero live = live.0 refl
lone (suc i) live = live.2 (ground arith)

rooted-IsTree : IsTree (new_inodes 5)
rooted-IsTree = record {
  root = refl;
  inside = λ i live. absurd (lone i live);
  named = λ i live. absurd (lone i live);
  unique = λ i j l m p n. absurd (lone i l);
}

tmp_whole : (k : ℕ) → k < 3 → nth (b't' ∷ b'm' ∷ b'p' ∷ []) k ≢ 0
tmp_whole zero lt e = omega arith
tmp_whole (suc zero) lt e = omega arith
tmp_whole (suc (suc zero)) lt e = omega arith
tmp_whole (suc (suc (suc k))) lt e = omega arith

tmp-IsText : IsText tmp
unfolding split utf8
tmp-IsText = ((refl, λ k lt e. omega arith), ((refl, tmp_whole), tt))

image_found : lookup (nodes_of 1) (b'/' ∷ b't' ∷ b'm' ∷ []) ≡ some 0
unfolding lookup find_from
image_found = refl

mount_disk_files-lookup_example :
    (lookup (mount_disk_files (nodes_of 1)).1 (b'/' ∷ b't' ∷ b'm' ∷ []) ≡ some 0)
    × ((mount_disk_files (nodes_of 1)).1.nodes 0 ≡ image)
mount_disk_files-lookup_example =
    mount_disk_files-lookup (b'/' ∷ b't' ∷ b'm' ∷ []) 0 (nodes_of 1) image_found

made : (create_file 7 tmp (nodes_of 1)).0 ≡ ok 1
unfolding create_file lookup attach_disk_node create make flush_inodes each_chunk write_chunk
    allocate_inode split_parent dir_and_leaf split_last split resolve walk descend child_of trim_end
    name_of utf8 count_parts Block.write find_from
made = refl

create_file-lookup_example : lookup (create_file 7 tmp (nodes_of 1)).1 tmp ≡ some 1
create_file-lookup_example = create_file-lookup 7 tmp 1 (nodes_of 1) (omega arith) made

-- "/tmp" behind some slashes, of which 62 make a path of 66 bytes.
abbrev behind : ℕ → List ℕ
behind zero = tmp
behind (suc n) = b'/' ∷ behind n

behind-IsText : (n : ℕ) → IsText (behind n)
unfolding split
behind-IsText zero = tmp-IsText
behind-IsText (suc n) = ((unfold utf8 in refl, λ k lt e. omega arith), behind-IsText n)

long_made : (create 7 (behind 62) rooted).0 ≡ ok 1
unfolding create make flush_inodes each_chunk write_chunk allocate_inode split_parent dir_and_leaf
    split_last split resolve walk descend child_of trim_end name_of utf8 count_parts Block.write
    find_from
long_made = refl

create_file-long_example :
    let (r, t) = create_file 7 (behind 62) (nodes_of 1) in
    (r ≡ ok 1)
    × ((t.nodes 1).inode ≡ 1)
    × ((t.nodes 1).path ≡ take 64 (behind 62))
    × (Names.lookup t.fs.inodes (behind 62) ≡ some 1)
    × (lookup t (behind 62) ≡ none)
create_file-long_example =
    create_file-long 7 (behind 62) 1 (nodes_of 1) (behind-IsText 62) rooted-IsTree
      (λ i. omega arith) (omega arith) (omega arith) long_made

tmp_unknown : lookup (nodes_of 32) tmp ≡ none
unfolding lookup find_from
tmp_unknown = refl

tmp_made : (create 7 tmp rooted).0 ≡ ok 1
unfolding create make flush_inodes each_chunk write_chunk allocate_inode split_parent dir_and_leaf
    split_last split resolve walk descend child_of trim_end name_of utf8 count_parts Block.write
    find_from
tmp_made = refl

create_file-full_example :
    ((create_file 7 tmp (nodes_of 32)).0 ≡ err too_many_files)
    × (Names.lookup (create_file 7 tmp (nodes_of 32)).1.fs.inodes tmp ≡ some 1)
create_file-full_example =
    create_file-full 7 tmp 1 (nodes_of 32) tmp-IsText rooted-IsTree refl tmp_unknown tmp_made
