-- ===== src/Vfs.antt =====
-- kernel/src/level0a/core/vfs.rs: the names of the files of the kernel image and of the disk. A node
-- keeps at most 64 bytes of its path; the contents of a file of the image are a function of the
-- offset. Interrupts are off while the table changes, so each operation is one step.
pub mod Lookup
pub mod Create
mod Tests
use the_cursed_moon_kernel.Prelude.{
  ℕ, zero, suc, ◌+◌, ◌-◌, Bool, true, false, not, ◌&&◌, ◌||◌, leb, ◌==◌, if◌then◌else◌, Option,
  none, some, List, [], length, take, update, find_from, min, count_to,
}
use the_cursed_moon_kernel.Prelude.Bytes.{slice, same_bytes}
use the_cursed_moon_kernel.Prelude.Action.{
  Result, ok, err, Action, pure, raise, raise_if, or_raise, modify, ◌>>=◌, ◌>>◌,
}
use the_cursed_moon_kernel.Tcmkfs.Layout
use the_cursed_moon_kernel.Tcmkfs.Layout.{
  FsError, not_found, exists, too_many_files, kind_file, max_inodes,
}
use the_cursed_moon_kernel.Tcmkfs.Sectors.{Fs}
use the_cursed_moon_kernel.Tcmkfs.Names
use the_cursed_moon_kernel.Tcmkfs.Text.{is_empty, utf8}
use the_cursed_moon_kernel.Tcmkfs.Nodes
use the_cursed_moon_kernel.Tcmkfs.Nodes.{entry_kind, entry_size, entry_mtime, is_there}
use the_cursed_moon_kernel.Tcmkfs.Data

abbrev pub max_nodes : ℕ
max_nodes = 32

abbrev pub max_path : ℕ
max_path = 64

pub data Source : Type 0 where
  ram disk : Source

-- `path` has `path_len` bytes; `content` is what `data` points to.
pub record Node : Type 0 where
  pub path : List ℕ
  pub size : ℕ
  pub source : Source
  pub content : ℕ → ℕ
  pub inode : ℕ
  pub used : Bool

pub record State (Disk : Type 0) : Type 0 where
  pub nodes : ℕ → Node
  pub node_count : ℕ
  pub fs : Layout.State Disk

-- `unwrap_or(0)`
abbrev pub or_zero : Option ℕ → ℕ
or_zero none = 0
or_zero (some n) = n

abbrev pub is_ram : Source → Bool
is_ram ram = true
is_ram disk = false

module _ {Disk : Type 0} where
  -- An operation of the file system below.
  abbrev pub on_fs : {A : Type 0} → Fs Disk A → Action (State Disk) FsError A
  on_fs m s = let (r, fs) = m s.fs in (r, record s { fs = fs })

  abbrev pub attach : Node → State Disk → Option ℕ × State Disk
  attach node s = if leb max_nodes s.node_count then (none, s) else (
    some s.node_count,
    record s { nodes = update s.nodes s.node_count node; node_count = s.node_count + 1 },
  )

  unfoldable pub mount_static : List ℕ → ℕ → (ℕ → ℕ) → State Disk → Option ℕ × State Disk
  mount_static path size content = attach (record {
    path = take max_path path;
    size = size;
    source = ram;
    content = content;
    inode = 0;
    used = true;
  })

  unfoldable pub attach_disk_node : List ℕ → ℕ → ℕ → State Disk → Option ℕ × State Disk
  attach_disk_node path inode size = attach (record {
    path = take max_path path;
    size = size;
    source = disk;
    content = λ _. 0;
    inode = inode;
    used = true;
  })

  abbrev pub is_named : State Disk → List ℕ → ℕ → Bool
  is_named s path i = (s.nodes i).used && same_bytes (s.nodes i).path path

  unfoldable pub lookup : State Disk → List ℕ → Option ℕ
  lookup s path = find_from (is_named s path) s.node_count 0

  unfoldable pub node_at : State Disk → ℕ → Option Node
  node_at s index =
      if leb s.node_count index
      then none
      else if (s.nodes index).used
      then some (s.nodes index)
      else none

  -- The loop of `mount_disk_files` over the last `n` inodes, from `inode` on.
  abbrev pub mount_one : ℕ → ℕ × State Disk → ℕ × State Disk
  mount_one inode (added, s) = elim (entry_kind s.fs.inodes inode) [
    | none ↦ (added, s)
    | some kind ↦
        if not (kind == kind_file) then (added, s) else elim (Names.path_of s.fs.inodes inode) [
          | none ↦ (added, s)
          | some path ↦
              if is_empty path || is_there (lookup s path)
              then (added, s)
              else let size = or_zero (entry_size s.fs.inodes inode) in
                let (found, s') = attach_disk_node path inode size s in
                (if is_there found then added + 1 else added, s')
        ]
  ]

  unfoldable pub mount_from : ℕ → ℕ → ℕ × State Disk → ℕ × State Disk
  mount_from zero inode r = r
  mount_from (suc n) inode r = mount_from n (inode + 1) (mount_one inode r)

  unfoldable pub mount_disk_files : State Disk → ℕ × State Disk
  mount_disk_files s = if not s.fs.mounted then (0, s) else mount_from max_inodes 0 (0, s)

  unfoldable pub size : State Disk → ℕ → Option ℕ
  size s node = elim (node_at s node) [ none ↦ none | some n ↦ some n.size ]

  unfoldable pub mtime : State Disk → ℕ → Option ℕ
  mtime s node = elim (node_at s node) [
    | none ↦ none
    | some n ↦ if is_ram n.source then none else entry_mtime s.fs.inodes n.inode
  ]

  unfoldable pub source : State Disk → ℕ → Option Source
  source s node = elim (node_at s node) [ none ↦ none | some n ↦ some n.source ]

  -- The bytes that `read` puts into a buffer of `room` bytes. A panic of the read below is `none` too.
  unfoldable pub read : ℕ → ℕ → ℕ → State Disk → Option (List ℕ) × State Disk
  read node offset room s = elim (node_at s node) [
    | none ↦ (none, s)
    | some n ↦
        if is_ram n.source
        then (
          some (
              if leb n.size offset
              then []
              else slice n.content offset (min (n.size - offset) room)),
          s,
        )
        else let (r, s') = on_fs (Data.read n.inode offset room) s in
          (elim r [ ok bytes ↦ some bytes | err _ ↦ none ], s')
  ]

  unfoldable pub refresh_disk_node : List ℕ → State Disk → State Disk
  refresh_disk_node path s = elim (Names.lookup s.fs.inodes path) [
    | none ↦ s
    | some inode ↦
        let size = or_zero (entry_size s.fs.inodes inode) in
        elim (lookup s path) [
          | none ↦ (attach_disk_node path inode size s).1
          | some i ↦ record s {
            nodes =
                update s.nodes i (record (s.nodes i) { inode = inode; size = size; source = disk });
          }
        ]
  ]

  -- Whether a path belongs to the image.
  abbrev pub is_ram_path : State Disk → List ℕ → Bool
  is_ram_path s path = elim (lookup s path) [
    | none ↦ false
    | some i ↦ elim (source s i) [ none ↦ false | some k ↦ is_ram k ]
  ]

  unfoldable pub write_file : ℕ → List ℕ → List ℕ → Action (State Disk) FsError ℕ
  write_file now path bytes s =
      (do
        raise_if (is_ram_path s path) exists
        written ← on_fs (Data.write_all now path bytes)
        modify (refresh_disk_node path)
        pure written)
        s

  abbrev pub write_node : ℕ → ℕ → ℕ → List ℕ → Node → Action (State Disk) FsError ℕ
  write_node now node offset bytes n = do
    raise_if (is_ram n.source) not_found
    written ← on_fs (Data.write now n.inode offset bytes)
    modify λ t. record t {
      nodes =
          update t.nodes node
            (record (t.nodes node) { size = or_zero (entry_size t.fs.inodes n.inode) });
    }
    pure written

  unfoldable pub write_at : ℕ → ℕ → ℕ → List ℕ → Action (State Disk) FsError ℕ
  write_at now node offset bytes s =
      (do n ← or_raise (node_at s node) not_found; write_node now node offset bytes n) s

  -- The new file is given a node.
  abbrev pub attach_new : List ℕ → ℕ → Action (State Disk) FsError ℕ
  attach_new path inode s =
      let (found, s') = attach_disk_node path inode 0 s in or_raise found too_many_files s'

  unfoldable pub create_file : ℕ → List ℕ → Action (State Disk) FsError ℕ
  create_file now path s = elim (lookup s path) [
    | some index ↦ (ok index, s)
    | none ↦ (on_fs (Nodes.create now path) >>= attach_new path) s
  ]

  unfoldable pub mkdir : ℕ → List ℕ → Action (State Disk) FsError (Unit {0})
  mkdir now path = do on_fs (Nodes.mkdir now path); pure tt

  unfoldable pub rmdir : List ℕ → Action (State Disk) FsError (Unit {0})
  rmdir path = on_fs (Nodes.rmdir path)

  abbrev pub remove_node : ℕ → Node → Action (State Disk) FsError (Unit {0})
  remove_node index node = do
    raise_if (is_ram node.source) not_found
    on_fs (Nodes.remove node.inode)
    modify λ t. record t { nodes = update t.nodes index (record (t.nodes index) { used = false }) }

  unfoldable pub remove_file : List ℕ → Action (State Disk) FsError (Unit {0})
  remove_file path s =
      (do
        index ← or_raise (lookup s path) not_found
        node ← or_raise (node_at s index) not_found
        remove_node index node)
        s

  unfoldable pub path_of : State Disk → ℕ → Option (List ℕ)
  path_of s node = elim (node_at s node) [
    | none ↦ none
    | some n ↦ if utf8 n.path then some n.path else none
  ]

  unfoldable pub file_count : State Disk → ℕ
  file_count s = count_to (λ i. elim (node_at s i) [ none ↦ false | some _ ↦ true ]) s.node_count
