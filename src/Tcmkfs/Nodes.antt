-- ===== src/Tcmkfs/Nodes.antt =====
-- core/tcmkfs.rs: the directories and files. The clock of `rtc::unix_time` is the argument `now`.
pub mod Tree
pub mod Grow
pub mod Make
pub mod Drop
use the_cursed_moon_kernel.Prelude.{
  ℕ, zero, suc, ◌+◌, ◌-◌, ◌*◌, ◌/◌, ◌%◌, ◌^◌, Bool, true, false, not, ◌&&◌, ◌||◌, ltb, leb, ◌==◌,
  if◌then◌else◌, Option, none, some, List, update, find_from, count_to, option_ind, min,
}
use the_cursed_moon_kernel.Prelude.Bytes.{nth}
use the_cursed_moon_kernel.Prelude.Action.{
  Result, ok, err, Action, pure, raise, raise_if, or_raise, modify, ◌>>=◌, ◌>>◌,
}
use the_cursed_moon_kernel.Tcmkfs.Layout.{
  State, Inode, FsError, SuperBlock, empty, not_mounted, exists, too_many_files, not_found,
  bad_path, not_empty, max_inodes, kind_free, kind_file, kind_dir, root_inode, block_size, panicked,
  direct_blocks,
}
use the_cursed_moon_kernel.Tcmkfs.Sectors.{Fs, flush_inodes, flush_bitmap, read_super, write_super}
use the_cursed_moon_kernel.Tcmkfs.Bitmap.{free_block}
use the_cursed_moon_kernel.Tcmkfs.Names.{inode_ref, resolve, split_parent}

unfoldable pub entry_mtime : (ℕ → Inode) → ℕ → Option ℕ
entry_mtime inodes index = elim (inode_ref inodes index) [
  | none ↦ none
  | some node ↦ if not (node.kind == kind_file) then none else some node.mtime
]

unfoldable pub entry_size : (ℕ → Inode) → ℕ → Option ℕ
entry_size inodes index = elim (inode_ref inodes index) [
  | none ↦ none
  | some node ↦ if not (node.kind == kind_file) then none else some node.size
]

unfoldable pub entry_kind : (ℕ → Inode) → ℕ → Option ℕ
entry_kind inodes index = elim (inode_ref inodes index) [
  | none ↦ none
  | some node ↦ if node.kind == kind_free then none else some node.kind
]

unfoldable pub parent_of : (ℕ → Inode) → ℕ → Option ℕ
parent_of inodes index = elim (inode_ref inodes index) [
  | none ↦ none
  | some node ↦ if node.kind == kind_free then none else some node.parent
]

unfoldable pub file_count : (ℕ → Inode) → ℕ
file_count inodes = count_to (λ i. (inodes i).kind == kind_file) max_inodes

-- The inode that `allocate_inode` fills.
abbrev pub fresh : ℕ → ℕ → List ℕ → ℕ → Inode
fresh now parent name kind = record empty {
  kind = kind;
  parent = parent;
  mtime = now;
  name = nth name;
}

abbrev pub is_vacant : (ℕ → Inode) → ℕ → Bool
is_vacant inodes i = (inodes i).kind == kind_free && not (i == root_inode)

-- Whether an inode other than `index` has it for its parent.
abbrev pub has_parent : (ℕ → Inode) → ℕ → ℕ → Bool
has_parent inodes index i =
    not ((inodes i).kind == kind_free) && (inodes i).parent == index && not (i == index)

unfoldable pub block_count : ℕ → ℕ
block_count size = (size + block_size - 1) / block_size

abbrev pub is_there : Option ℕ → Bool
is_there none = false
is_there (some i) = true

module _ {Disk : Type 0} where
  abbrev pub inode_at : ℕ → FsError → Fs Disk Inode
  inode_at index e s = or_raise (inode_ref s.inodes index) e s

  abbrev pub set_inode : ℕ → Inode → State Disk → State Disk
  set_inode index node s = record s { inodes = update s.inodes index node }

  abbrev pub require_mounted : Fs Disk (Unit {0})
  require_mounted s = raise_if (not s.mounted) not_mounted s

  unfoldable pub allocate_inode : ℕ → ℕ → List ℕ → ℕ → Fs Disk ℕ
  allocate_inode now parent name kind s = elim (find_from (is_vacant s.inodes) max_inodes 0) [
    | none ↦ (err too_many_files, s)
    | some i ↦ (ok i, set_inode i (fresh now parent name kind) s)
  ]

  -- `mkdir` and `create` differ by the kind of the new inode. Behind the checks:
  abbrev pub make_at : ℕ → ℕ → ℕ × List ℕ → Fs Disk ℕ
  make_at kind now (parent, leaf) = do
    index ← allocate_inode now parent leaf kind
    flush_inodes
    pure index

  abbrev pub make_new : ℕ → ℕ → List ℕ → Fs Disk ℕ
  make_new kind now path s =
      (do place ← λ t. (split_parent s.inodes path, t); make_at kind now place) s

  abbrev pub make_mounted : ℕ → ℕ → List ℕ → Fs Disk ℕ
  make_mounted kind now path s =
      (do raise_if (is_there (resolve s.inodes path)) exists; make_new kind now path) s

  unfoldable pub make : ℕ → ℕ → List ℕ → Fs Disk ℕ
  make kind now path s = (do require_mounted; make_mounted kind now path) s

  unfoldable pub mkdir : ℕ → List ℕ → Fs Disk ℕ
  mkdir = make kind_dir

  unfoldable pub create : ℕ → List ℕ → Fs Disk ℕ
  create = make kind_file

  abbrev pub empty_inode : ℕ → Fs Disk (Unit {0})
  empty_inode index = do modify (set_inode index empty); flush_inodes

  abbrev pub rmdir_node : ℕ → Inode → Fs Disk (Unit {0})
  rmdir_node index node s =
      (do
        raise_if (not (node.kind == kind_dir)) not_found
        raise_if (is_there (find_from (has_parent s.inodes index) max_inodes 0)) not_empty
        empty_inode index)
        s

  abbrev pub rmdir_at : ℕ → Fs Disk (Unit {0})
  rmdir_at index s =
      (do
        raise_if (index == root_inode) bad_path
        node ← inode_at index not_found
        rmdir_node index node)
        s

  unfoldable pub rmdir : List ℕ → Fs Disk (Unit {0})
  rmdir path s =
      (do require_mounted; index ← or_raise (resolve s.inodes path) not_found; rmdir_at index) s

  -- `for i in 0..used`, which has 40 blocks at most to free before its index is out of bounds.
  unfoldable pub free_blocks_of : (ℕ → ℕ) → ℕ → State Disk → State Disk
  free_blocks_of blocks zero s = s
  free_blocks_of blocks (suc n) s = free_block (blocks n) (free_blocks_of blocks n s)

  abbrev pub remove_node : ℕ → Inode → Fs Disk (Unit {0})
  remove_node index node = do
    raise_if (not (node.kind == kind_file)) not_found
    modify (free_blocks_of node.blocks (min (block_count node.size) direct_blocks))
    raise_if (ltb direct_blocks (block_count node.size)) panicked
    modify (set_inode index empty)
    flush_inodes
    flush_bitmap

  unfoldable pub remove : ℕ → Fs Disk (Unit {0})
  remove index = do require_mounted; node ← inode_at index not_found; remove_node index node

  unfoldable pub sync : Fs Disk (Unit {0})
  sync s =
      (do
        require_mounted
        flush_inodes
        flush_bitmap
        sb ← read_super
        λ t.
            write_super
              (record sb { free_blocks = t.free_blocks; file_count = file_count t.inodes }) t)
        s
