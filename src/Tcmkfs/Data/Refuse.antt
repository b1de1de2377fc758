-- ===== src/Tcmkfs/Data/Refuse.antt =====
-- A write that core/tcmkfs.rs refuses for lack of space.
use the_cursed_moon_kernel.Prelude.{
  ℕ, zero, suc, ◌+◌, ◌-◌, ◌*◌, ◌/◌, ◌%◌, ◌^◌, not, ◌&&◌, ◌==◌, ltb, List, length, ◌≡◌, ◌≢◌, if_ind,
  bool_ind,
}
use the_cursed_moon_kernel.Prelude.Bytes.{nth}
use the_cursed_moon_kernel.Prelude.Action.{
  Result, ok, err, Action, pure, modify, ◌>>◌, result_ind, Avoids, Avoids-bind, bind_ind,
  raise_if_ind, or_raise_ind,
}
use the_cursed_moon_kernel.Block
use the_cursed_moon_kernel.Block.{BlockError}
use the_cursed_moon_kernel.Tcmkfs.Layout.{
  State, Inode, FsError, full, not_mounted, not_found, file_too_large, table_byte,
}
use the_cursed_moon_kernel.Tcmkfs.Sectors.{
  Fs, io, each_chunk, write_chunk, flush_inodes, flush_bitmap, read_block, write_block,
  chunk_sector, block_sector,
}
use the_cursed_moon_kernel.Tcmkfs.Bitmap.Count.{IsCounted}
use the_cursed_moon_kernel.Tcmkfs.Names.{inode_ref}
use the_cursed_moon_kernel.Tcmkfs.Nodes.{block_count}
use the_cursed_moon_kernel.Tcmkfs.Data.{
  write, write_mounted, write_node, write_sized, write_fitting, write_reserved, write_from,
  before_copy, reserve, touch, chunk_at, overlay,
}
use the_cursed_moon_kernel.Tcmkfs.Data.Reserve.{Outcome, Restored, reserve-Outcome}

module _ {Disk : Type 0} where
  io-Avoids : {A : Type 0} (m : Action (Block.State Disk) BlockError A) → Avoids full (io m)
  io-Avoids {A} m s =
      result_ind (λ (r : Result FsError A × State Disk). r.0 ≢ err full) (m s.block).0 (λ _ _ h. cc)
        (λ _ _ h. cc)

  each_chunk-Avoids :
      (body : ℕ → Fs Disk (Unit {0})) (n chunk : ℕ)
      → ((c : ℕ) → Avoids full (body c))
      → Avoids full (each_chunk body n chunk)
  unfolding each_chunk
  each_chunk-Avoids body zero chunk av s = λ h. cc
  each_chunk-Avoids body (suc n) chunk av s =
      Avoids-bind full (body chunk) (λ _. each_chunk body n (chunk + 1)) (av chunk)
        (λ _. each_chunk-Avoids body n (chunk + 1) av) s

  flush_inodes-Avoids : Avoids full (flush_inodes {Disk = Disk})
  unfolding flush_inodes write_chunk
  flush_inodes-Avoids = each_chunk-Avoids write_chunk _ 0 λ chunk s.
      io-Avoids (Block.write (chunk_sector s chunk) 8 (λ k. table_byte s.inodes (chunk * 4096 + k)))
        s

  flush_bitmap-Avoids : Avoids full (flush_bitmap {Disk = Disk})
  unfolding flush_bitmap
  flush_bitmap-Avoids s = io-Avoids (Block.write ((s.part_lba + 33) % 2 ^ 32) 4 s.bitmap) s

  before_copy-Avoids : (b i have chunk : ℕ) → Avoids full (before_copy {Disk = Disk} b i have chunk)
  unfolding read_block
  before_copy-Avoids b i have chunk s =
      if_ind (λ (r : Result FsError (ℕ → ℕ) × State Disk). r.0 ≢ err full)
        (ltb chunk 4096 && ltb i have) (λ _. io-Avoids (Block.read (block_sector s b) 8) s)
        (λ _ h. cc)

  write_block-Avoids : (b : ℕ) (bytes : ℕ → ℕ) → Avoids full (write_block {Disk = Disk} b bytes)
  unfolding write_block
  write_block-Avoids b bytes s =
      io-Avoids (Block.write (block_sector s b) 8 bytes)
        (record s { writes = (s.writes + 1) % 2 ^ 32 })

  write_from-Avoids :
      (fuel index offset : ℕ) (bytes : List ℕ) (have done : ℕ)
      → Avoids full (write_from {Disk = Disk} fuel index offset bytes have done)
  unfolding write_from
  write_from-Avoids zero index offset bytes have done s = λ h. cc
  write_from-Avoids (suc fuel) index offset bytes have done s =
      let position = offset + done in
      let i = position / 4096 in
      let chunk = chunk_at position (length bytes - done) in
      let block = (s.inodes index).blocks i in
      let copied =
        λ (scratch : ℕ → ℕ). overlay scratch (position % 4096) chunk (λ k. nth bytes (done + k)) in
      let rest = write_from fuel index offset bytes have (done + chunk) in
      bool_ind (λ (r : Result FsError ℕ × State Disk). r.0 ≢ err full) (ltb done (length bytes))
        (λ _.
          Avoids-bind full (before_copy block i have chunk)
            (λ scratch. write_block block (copied scratch) >> rest)
            (before_copy-Avoids block i have chunk)
            (λ scratch.
              Avoids-bind full (write_block block (copied scratch)) (λ _. rest)
                (write_block-Avoids block (copied scratch))
                (λ _. write_from-Avoids fuel index offset bytes have (done + chunk)))
            s)
        (λ _ h. cc)

  -- Once the blocks are there, only the disk can fail.
  write_reserved-Avoids :
      (now index offset : ℕ) (bytes : List ℕ) (have : ℕ)
      → Avoids full (write_reserved {Disk = Disk} now index offset bytes have)
  write_reserved-Avoids now index offset bytes have =
      let touched = modify {E = FsError} (touch {Disk = Disk} now index (offset + length bytes)) in
      let flush = λ (done : ℕ). flush_bitmap {Disk = Disk} >> pure done in
      Avoids-bind full (write_from (length bytes) index offset bytes have 0)
        (λ done. touched >> (flush_inodes >> flush done))
        (write_from-Avoids (length bytes) index offset bytes have 0)
        λ done.
          Avoids-bind full touched (λ _. flush_inodes >> flush done) (λ s h. cc)
            λ _.
              Avoids-bind full flush_inodes (λ _. flush done) flush_inodes-Avoids
                λ _.
                  Avoids-bind full flush_bitmap (λ _. pure done) flush_bitmap-Avoids (λ d s h. cc)

  failed_Outcome :
      (index have i : ℕ) (s t : State Disk) (r : Result FsError (Unit {0})) (e : FsError)
      → r ≡ err e
      → Outcome index s have i (r, t)
      → Restored index s t
  failed_Outcome index have i s t (ok x) e q o = cc
  failed_Outcome index have i s t (err d) e q o = o.1

  -- Where `write` fails with a full disk, in a state whose bitmap holds bytes and whose free
  -- counter is that of the bitmap, every block is as free or as taken as before, and the free
  -- counter is the same.
  pub write-full :
      (now index offset : ℕ) (bytes : List ℕ) (s : State Disk)
      → IsCounted s
      → (write now index offset bytes s).0 ≡ err full
      → Restored index s (write now index offset bytes s).1
  unfolding write
  write-full now index offset bytes s c =
      let P = λ (r : Result FsError ℕ × State Disk). r.0 ≡ err full → Restored index s r.1 in
      raise_if_ind P (not s.mounted) not_mounted (λ _. write_mounted now index offset bytes) s
        (λ _ h. cc)
        λ _.
          or_raise_ind P (inode_ref s.inodes index) not_found (write_node now index offset bytes) s
            (λ _ h. cc)
            λ node _.
              raise_if_ind P (not (node.kind == 1)) not_found
                (λ _. write_sized now index offset bytes node) s (λ _ h. cc)
                λ _.
                  raise_if_ind P (ltb 163840 (offset + length bytes)) file_too_large
                    (λ _. write_fitting now index offset bytes node) s (λ _ h. cc) λ _. refused node
    where
      refused :
          (node : Inode)
          → (write_fitting now index offset bytes node s).0 ≡ err full
          → Restored index s (write_fitting now index offset bytes node s).1
      refused node =
          let have = block_count node.size in
          let n = block_count (offset + length bytes) - have in
          bind_ind (λ (r : Result FsError ℕ × State Disk). r.0 ≡ err full → Restored index s r.1)
            (reserve index have n have) (λ _. write_reserved now index offset bytes have) s
            (λ _ _ h.
              absurd (
                write_reserved-Avoids now index offset bytes have (reserve index have n have s).1
                  h))
            (λ e failed h.
              failed_Outcome index have (n + have) s (reserve index have n have s).1
                (reserve index have n have s).0 e failed (reserve-Outcome index n s have c))
