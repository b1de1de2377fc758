-- ===== src/Tcmkfs/Data.antt =====
-- core/tcmkfs.rs: the contents of the files. An offset and a length are numbers without bound; the
-- source adds them in a machine word. `u32` places hold what fits, since `end` is checked first.
pub mod Reserve
pub mod Store
pub mod Place
pub mod Read
pub mod Refuse
use the_cursed_moon_kernel.Prelude.{
  ℕ, zero, suc, ◌+◌, ◌-◌, ◌*◌, ◌/◌, ◌%◌, ◌^◌, Bool, true, false, not, ◌&&◌, ◌||◌, ltb, leb, ◌==◌,
  if◌then◌else◌, Option, none, some, List, [], ◌∷◌, ◌++◌, length, update, min,
}
use the_cursed_moon_kernel.Prelude.Bytes.{nth, slice}
use the_cursed_moon_kernel.Prelude.Action.{
  Result, ok, err, Action, pure, raise, raise_if, or_raise, modify, ◌>>=◌, ◌>>◌,
}
use the_cursed_moon_kernel.Tcmkfs.Layout.{
  State, Inode, FsError, not_found, full, file_too_large, panicked, kind_file, direct_blocks,
  block_size, max_file_size,
}
use the_cursed_moon_kernel.Tcmkfs.Sectors.{Fs, flush_inodes, flush_bitmap, read_block, write_block}
use the_cursed_moon_kernel.Tcmkfs.Bitmap.{alloc_block, free_block}
use the_cursed_moon_kernel.Tcmkfs.Names.{lookup}
use the_cursed_moon_kernel.Tcmkfs.Nodes.{
  inode_at, set_inode, require_mounted, block_count, create, remove,
}

-- The bytes that one round moves: to the end of the block, or to the end of the request.
abbrev pub chunk_at : ℕ → ℕ → ℕ
chunk_at position left = min (block_size - position % block_size) left

-- `scratch[in_block..in_block + chunk].copy_from_slice(..)`
abbrev pub overlay : (ℕ → ℕ) → ℕ → ℕ → (ℕ → ℕ) → ℕ → ℕ
overlay scratch in_block chunk source k =
    if leb in_block k && ltb k (in_block + chunk) then source (k - in_block) else scratch k

module _ {Disk : Type 0} where
  -- `inode.blocks[i]`. The loops of `write` stay below 40, since the end of the write is checked.
  abbrev pub block_at : (ℕ → ℕ) → ℕ → Fs Disk ℕ
  block_at blocks i s = if ltb i direct_blocks then (ok (blocks i), s) else (err panicked, s)

  -- The loop of `read`, with fuel; `done` bytes have been read and `to_read` are wanted.
  unfoldable pub read_from : ℕ → (ℕ → ℕ) → ℕ → ℕ → ℕ → Fs Disk (List ℕ)
  read_from zero blocks offset to_read done s = (ok [], s)
  read_from (suc fuel) blocks offset to_read done s = elim (ltb done to_read) [
    | false ↦ (ok [], s)
    | true ↦
        let position = offset + done in
        let chunk = chunk_at position (to_read - done) in
        (do
          block ← block_at blocks (position / block_size)
          scratch ← read_block block
          rest ← read_from fuel blocks offset to_read (done + chunk)
          pure (slice scratch (position % block_size) chunk ++ rest))
          s
  ]

  -- `read` behind its checks.
  abbrev pub read_rest : Inode → ℕ → ℕ → Fs Disk (List ℕ)
  read_rest node offset room s =
      let to_read = min (node.size - offset) room in
      if leb node.size offset then (ok [], s) else read_from to_read node.blocks offset to_read 0 s

  -- The bytes that `read` puts into a buffer of `room` bytes; it returns their number.
  abbrev pub read_node : ℕ → ℕ → Inode → Fs Disk (List ℕ)
  read_node offset room node = do
    raise_if (not (node.kind == kind_file)) not_found
    read_rest node offset room

  unfoldable pub read : ℕ → ℕ → ℕ → Fs Disk (List ℕ)
  read index offset room = do
    require_mounted
    node ← inode_at index not_found
    read_node offset room node

  abbrev pub set_block : ℕ → ℕ → ℕ → State Disk → State Disk
  set_block index i block s =
      set_inode index (record (s.inodes index) { blocks = update (s.inodes index).blocks i block })
        s

  -- `for j in have..i`, of which `n` rounds are left.
  unfoldable pub roll_back : ℕ → ℕ → ℕ → State Disk → State Disk
  roll_back index zero j s = s
  roll_back index (suc n) j s =
      roll_back index n (j + 1) (set_block index j 0 (free_block ((s.inodes index).blocks j) s))

  -- `for i in have..needed`, of which `n` rounds are left.
  unfoldable pub reserve : ℕ → ℕ → ℕ → ℕ → Fs Disk (Unit {0})
  reserve index have zero i s = (ok tt, s)
  reserve index have (suc n) i s =
      let (found, s') = alloc_block s in
      elim found [
        | none ↦ (err full, roll_back index (i - have) have s')
        | some block ↦ reserve index have n (i + 1) (set_block index i block s')
      ]

  -- What the scratch block holds before the copy; a block that is covered whole is not read.
  abbrev pub before_copy : ℕ → ℕ → ℕ → ℕ → Fs Disk (ℕ → ℕ)
  before_copy block block_index have chunk s =
      if ltb chunk block_size && ltb block_index have then read_block block s else (ok (λ _. 0), s)

  -- The loop of `write`, with fuel.
  unfoldable pub write_from : ℕ → ℕ → ℕ → List ℕ → ℕ → ℕ → Fs Disk ℕ
  write_from zero index offset bytes have done s = (ok done, s)
  write_from (suc fuel) index offset bytes have done s = elim (ltb done (length bytes)) [
    | false ↦ (ok done, s)
    | true ↦
        let position = offset + done in
        let block_index = position / block_size in
        let chunk = chunk_at position (length bytes - done) in
        let block = (s.inodes index).blocks block_index in
        (do
          scratch ← before_copy block block_index have chunk
          write_block block
              (overlay scratch (position % block_size) chunk (λ k. nth bytes (done + k)))
          write_from fuel index offset bytes have (done + chunk))
          s
  ]

  -- The size grows to the end of the write, and the time is set.
  abbrev pub touch : ℕ → ℕ → ℕ → State Disk → State Disk
  touch now index end s =
      let node = s.inodes index in
      set_inode index
        (record node { size = if ltb node.size end then end else node.size; mtime = now }) s

  -- The end of `write`, with all blocks in place.
  abbrev pub write_reserved : ℕ → ℕ → ℕ → List ℕ → ℕ → Fs Disk ℕ
  write_reserved now index offset bytes have = do
    done ← write_from (length bytes) index offset bytes have 0
    modify (touch now index (offset + length bytes))
    flush_inodes
    flush_bitmap
    pure done

  abbrev pub write_fitting : ℕ → ℕ → ℕ → List ℕ → Inode → Fs Disk ℕ
  write_fitting now index offset bytes node =
      let have = block_count node.size in
      (do
        reserve index have (block_count (offset + length bytes) - have) have
        write_reserved now index offset bytes have)

  abbrev pub write_sized : ℕ → ℕ → ℕ → List ℕ → Inode → Fs Disk ℕ
  write_sized now index offset bytes node = do
    raise_if (ltb max_file_size (offset + length bytes)) file_too_large
    write_fitting now index offset bytes node

  abbrev pub write_node : ℕ → ℕ → ℕ → List ℕ → Inode → Fs Disk ℕ
  write_node now index offset bytes node = do
    raise_if (not (node.kind == kind_file)) not_found
    write_sized now index offset bytes node

  abbrev pub write_mounted : ℕ → ℕ → ℕ → List ℕ → Fs Disk ℕ
  write_mounted now index offset bytes = do
    node ← inode_at index not_found
    write_node now index offset bytes node

  unfoldable pub write : ℕ → ℕ → ℕ → List ℕ → Fs Disk ℕ
  write now index offset bytes = do require_mounted; write_mounted now index offset bytes

  unfoldable pub write_all : ℕ → List ℕ → List ℕ → Fs Disk ℕ
  write_all now path bytes s =
      (do
        index ← elim (lookup s.inodes path) [
          | none ↦ create now path
          | some i ↦ do remove i; create now path
        ]
        write now index 0 bytes)
        s
