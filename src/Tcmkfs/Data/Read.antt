-- ===== src/Tcmkfs/Data/Read.antt =====
-- What `read` of core/tcmkfs.rs returns on a disk that works.
use the_cursed_moon_kernel.Prelude.{
  ℕ, zero, suc, ◌+◌, ◌-◌, ◌*◌, ◌/◌, ◌%◌, ◌≤◌, ◌<◌, true, not, ◌==◌, ltb, leb, some, List, ◌++◌, min,
  ◌≡◌, ap, sym, ◌∙◌, arith, bool_ind, if_ind, subst,
}
use the_cursed_moon_kernel.Prelude.Bytes.{slice, slice-append, slice_ext}
use the_cursed_moon_kernel.Prelude.Action.{
  raise_if_ind, or_raise_ind, Result, ok, pure, ◌>>=◌, bind_ok, bind-pure,
}
use the_cursed_moon_kernel.Block
use the_cursed_moon_kernel.Block.{Driver, IsDisk}
use the_cursed_moon_kernel.Tcmkfs.Layout.{State, FsError, not_mounted, not_found}
use the_cursed_moon_kernel.Tcmkfs.Sectors.{read_block, block_sector}
use the_cursed_moon_kernel.Tcmkfs.Data.{block_at, read_from, read, read_node, read_rest, chunk_at}
use the_cursed_moon_kernel.Tcmkfs.Nodes.{inode_at}
use the_cursed_moon_kernel.Tcmkfs.Names.{inode_ref}

-- The byte at an offset of a file: that of the disk in the file's block.
abbrev pub byte_of : {Disk : Type 0} (cell : Disk → ℕ → ℕ) → State Disk → (ℕ → ℕ) → ℕ → ℕ
byte_of cell s blocks k = cell s.block.disk (block_sector s (blocks (k / 4096)) * 512 + k % 4096)

-- A state whose disk was read.
abbrev pub was_read : {Disk : Type 0} → State Disk → ℕ → State Disk
was_read s n = record s { block = record s.block { sectors_read = n } }

module _ {Disk : Type 0} (d : Driver Disk) (works : IsDisk d) where
  -- A block lies before the end of the disk.
  abbrev pub OnDisk : State Disk → ℕ → Type 0
  OnDisk s b = s.part_lba + 4096 + b * 8 + 8 ≤ d.sectors

  -- A block is read whole.
  pub read_block_lem :
      (s : State Disk) (b : ℕ)
      → s.block.driver ≡ some d
      → OnDisk s b
      → (f : ℕ → ℕ) × (read_block b s ≡ (ok f, was_read s (s.block.sectors_read + 8)))
        × ((i : ℕ) → i < 4096 → f i ≡ works.cell s.block.disk (block_sector s b * 512 + i))
  unfolding read_block Block.read
  read_block_lem s b h fits =
      let small = works.small in
      let (f, e, cells) =
        works.reads s.block.disk (block_sector s b) 8 (omega arith) (omega (arith, small, fits)) in
      (f, ground (arith, h, e), λ i lt. cells i (omega arith))

  -- A piece of a block, and what follows it in the file.
  joined :
      (s : State Disk) (blocks f : ℕ → ℕ) (position chunk next left all : ℕ)
      → ((i : ℕ)
          → i < 4096
          → f i ≡ works.cell s.block.disk (block_sector s (blocks (position / 4096)) * 512 + i))
      → chunk ≤ 4096 - position % 4096
      → next ≡ position + chunk
      → chunk + left ≡ all
      → slice f (position % 4096) chunk ++ slice (byte_of works.cell s blocks) next left
        ≡ slice (byte_of works.cell s blocks) position all
  joined s blocks f position chunk next left all cells fits e e' =
      let byte = byte_of works.cell s blocks in
      ap (λ l. l ++ slice byte next left)
        (slice_ext f byte (position % 4096) position chunk (λ k lt.
          cells (position % 4096 + k) (omega arith)
          ∙ sym (
              ap
                (λ b.
                  works.cell s.block.disk (block_sector s (blocks b) * 512 + (position + k) % 4096))
                {y = position / 4096} (omega arith)
              ∙ ap
                  (λ o.
                    works.cell s.block.disk (block_sector s (blocks (position / 4096)) * 512 + o))
                  (omega arith))))
      ∙ ap (λ m. slice byte position chunk ++ slice byte m left) e
      ∙ slice-append byte position chunk left
      ∙ ap (slice byte position) e'

  block_at_lem :
      (s : State Disk) (blocks : ℕ → ℕ) (i : ℕ) → i < 40 → block_at blocks i s ≡ (ok (blocks i), s)
  block_at_lem s blocks i lt = ground (arith, lt)

  pub read_from-slice :
      (fuel : ℕ) (s : State Disk) (blocks : ℕ → ℕ) (offset to_read done : ℕ)
      → s.block.driver ≡ some d
      → to_read ≤ done + fuel
      → done ≤ to_read
      → offset + to_read ≤ 163840
      → ((i : ℕ) → i * 4096 < offset + to_read → offset < i * 4096 + 4096 → OnDisk s (blocks i))
      → (read_from fuel blocks offset to_read done s).0
        ≡ ok (slice (byte_of works.cell s blocks) (offset + done) (to_read - done))
  unfolding read_from
  read_from-slice zero s blocks offset to_read done h enough le whole placed =
      ap (λ n. ok (slice (byte_of works.cell s blocks) (offset + done) n)) {x = 0} (omega arith)
  read_from-slice (suc fuel) s blocks offset to_read done h enough le whole placed =
      let want = slice (byte_of works.cell s blocks) (offset + done) (to_read - done) in
      let position = offset + done in
      let in_block = position % 4096 in
      let chunk = chunk_at position (to_read - done) in
      let t = was_read s (s.block.sectors_read + 8) in
      bool_ind (λ (r : Result FsError (List ℕ) × State Disk). r.0 ≡ ok want) (ltb done to_read)
        (λ more.
          let lt : done < to_read = ground (arith, more) in
          let (f, e, cells) =
            read_block_lem s (blocks (position / 4096)) h
              (placed (position / 4096) (omega arith) (omega arith)) in
          let ih =
            read_from-slice fuel t blocks offset to_read (done + chunk) h (omega arith)
              (omega arith) whole placed in
          ap (λ (r : Result FsError (List ℕ) × State Disk). r.0)
            (bind_ok (block_at blocks (position / 4096))
                (λ block. read_block block >>= λ scratch.
                  read_from fuel blocks offset to_read (done + chunk) >>= λ rest.
                  pure (slice scratch in_block chunk ++ rest))
                s s (blocks (position / 4096))
                (block_at_lem s blocks (position / 4096) (omega arith))
              ∙ bind_ok (read_block (blocks (position / 4096)))
                  (λ scratch. read_from fuel blocks offset to_read (done + chunk) >>= λ rest.
                    pure (slice scratch in_block chunk ++ rest))
                  s t f e)
          ∙ bind-pure (read_from fuel blocks offset to_read (done + chunk))
              (λ rest. slice f in_block chunk ++ rest) t
              (slice (byte_of works.cell s blocks) (offset + (done + chunk))
                (to_read - (done + chunk)))
              ih
          ∙ ap ok (
              joined s blocks f position chunk (offset + (done + chunk)) (to_read - (done + chunk))
                (to_read - done) cells (omega arith) (omega arith) (omega arith)))
        (λ stop.
          ap (λ n. ok (slice (byte_of works.cell s blocks) (offset + done) n)) {x = 0}
            (ground (arith, stop)))

  -- On a disk that serves every request up to its last sector, `read` of a mounted file of at most
  -- 163840 bytes, whose blocks end before the last sector, ends without a panic and returns the
  -- bytes of its blocks from the offset on, as many as the size and the buffer allow, and none
  -- behind the size.
  pub read-slice :
      (s : State Disk) (index offset room : ℕ)
      → s.block.driver ≡ some d
      → s.mounted ≡ true
      → index < 64
      → (s.inodes index).kind ≡ 1
      → (s.inodes index).size ≤ 163840
      → ((i : ℕ) → i * 4096 < (s.inodes index).size → OnDisk s ((s.inodes index).blocks i))
      → (read index offset room s).0
        ≡ ok (
            slice
              (byte_of works.cell s (s.inodes index).blocks)
              offset
              (min ((s.inodes index).size - offset) room))
  unfolding read
  read-slice s index offset room h up lt file whole placed =
      let byte = byte_of works.cell s (s.inodes index).blocks in
      let to_read = min ((s.inodes index).size - offset) room in
      let P = λ (r : Result FsError (List ℕ) × State Disk). r.0 ≡ ok (slice byte offset to_read) in
      raise_if_ind P (not s.mounted) not_mounted
        (λ _. inode_at index not_found >>= read_node offset room) s
        (λ down. ground (arith, down, up))
        λ _.
          or_raise_ind P (inode_ref s.inodes index) not_found (read_node offset room) s
            (λ out. ground (arith, out, lt))
            λ node found.
              let e : s.inodes index ≡ node = ground (arith, found) in
              subst (λ n. P (read_node offset room n s)) e
                (raise_if_ind P (not ((s.inodes index).kind == 1)) not_found
                  (λ _. read_rest (s.inodes index) offset room) s
                  (λ other. ground (arith, other, file))
                  λ _.
                    if_ind P (leb (s.inodes index).size offset)
                      (λ behind.
                        ap (λ n. ok (slice byte offset n)) {x = 0} (ground (arith, behind)))
                      λ inside.
                        read_from-slice to_read s (s.inodes index).blocks offset to_read 0 h
                          (omega arith) (omega arith) (ground (arith, inside, whole))
                          (λ i behind _. placed i (ground (arith, inside, behind)))
                        ∙ ap ok (
                            ap (λ m. slice byte m (to_read - 0)) (omega arith)
                            ∙ ap (slice byte offset) {y = to_read} (omega arith)))
