-- ===== src/Tcmkfs/Sectors/Reload.antt =====
-- The inode table of core/tcmkfs.rs, written to the disk by `flush_inodes` and read by `load_inodes`.
use the_cursed_moon_kernel.Prelude.{
  ℕ, zero, suc, ◌+◌, ◌*◌, ◌/◌, ◌-◌, ◌≤◌, ◌<◌, ◌&&◌, ltb, leb, ◌==◌, if◌then◌else◌, some, ◌≡◌, refl,
  ap, sym, ◌∙◌, arith, if_ind, subst, lt_cases, inl, inr,
}
use the_cursed_moon_kernel.Prelude.Action.{Result, ok, bind_ok}
use the_cursed_moon_kernel.Block
use the_cursed_moon_kernel.Block.{Driver, IsDisk}
use the_cursed_moon_kernel.Tcmkfs.Layout.{State, Inode, FsError, table_byte, table_of}
use the_cursed_moon_kernel.Tcmkfs.Layout.Image.{IsWords, SameInode, table_of_lem, table_byte_lem}
use the_cursed_moon_kernel.Tcmkfs.Sectors.{
  chunk_sector, write_chunk, read_chunk, each_chunk, flush_inodes, load_inodes,
}

module _ {Disk : Type 0} (d : Driver Disk) (works : IsDisk d) where
  -- A byte of the inode table on the disk.
  abbrev on_disk : State Disk → ℕ → ℕ
  on_disk s o = works.cell s.block.disk ((s.part_lba + 1) * 512 + o)

  -- The state of a mounted file system with room for the table on the disk.
  abbrev Has : State Disk → Type 0
  Has s = (s.block.driver ≡ some d) × (s.part_lba + 33 ≤ d.sectors)

  write_chunk_lem :
      (s : State Disk) (chunk : ℕ)
      → Has s
      → chunk < 4
      → (t : State Disk) × (write_chunk chunk s ≡ (ok tt, t))
        × Has t
        × (t.inodes ≡ s.inodes)
        × ((o : ℕ)
            → on_disk t o ≡ (
                if leb (chunk * 4096) o && ltb o (chunk * 4096 + 4096)
                then table_byte s.inodes o
                else on_disk s o))
  unfolding write_chunk Block.write
  write_chunk_lem s chunk (h, room) lt =
      let small = works.small in
      let lba = chunk_sector s chunk in
      let at : lba ≡ s.part_lba + 1 + chunk * 8 = omega (arith, small, room, lt) in
      let near : lba + 8 ≤ d.sectors = omega (arith, at, room, lt) in
      let f = λ (k : ℕ). table_byte s.inodes (chunk * 4096 + k) in
      let t = record s {
        block = record s.block {
          disk = (d.write s.block.disk lba 8 f).1;
          sectors_written = s.block.sectors_written + 8;
        };
      } in
      let fine = works.writes s.block.disk lba 8 f (omega arith) near in
      (
        t,
        ground (arith, h, fine),
        (h, room),
        refl,
        λ o.
            let a = (s.part_lba + 1) * 512 + o in
            works.written s.block.disk lba 8 f a (omega arith) near
            ∙ placed (λ k. table_byte s.inodes k) (on_disk s o) o lba at,
      )
    where
      placed :
          (g : ℕ → ℕ) (z o lba : ℕ)
          → lba ≡ s.part_lba + 1 + chunk * 8
          → (if leb (lba * 512) ((s.part_lba + 1) * 512 + o)
                && ltb ((s.part_lba + 1) * 512 + o) (lba * 512 + 8 * 512)
              then g (chunk * 4096 + ((s.part_lba + 1) * 512 + o - lba * 512))
              else z)
            ≡ (if leb (chunk * 4096) o && ltb o (chunk * 4096 + 4096) then g o else z)
      placed g z o lba at =
          if_ind (λ x. x ≡ (if leb (chunk * 4096) o && ltb o (chunk * 4096 + 4096) then g o else z))
            (leb (lba * 512) ((s.part_lba + 1) * 512 + o)
              && ltb ((s.part_lba + 1) * 512 + o) (lba * 512 + 8 * 512))
            (λ inside.
              if_ind (λ x. g (chunk * 4096 + ((s.part_lba + 1) * 512 + o - lba * 512)) ≡ x)
                (leb (chunk * 4096) o && ltb o (chunk * 4096 + 4096))
                (λ _. ap g (ground (arith, inside, at)))
                (λ out. absurd (ground (arith, inside, at, out))))
            (λ outside.
              if_ind (λ x. z ≡ x) (leb (chunk * 4096) o && ltb o (chunk * 4096 + 4096))
                (λ in_it. absurd (ground (arith, outside, at, in_it))) (λ _. refl))

  -- The loop of `flush_inodes`.
  flushed :
      (n chunk : ℕ) (s : State Disk)
      → Has s
      → chunk + n ≤ 4
      → (t : State Disk) × (each_chunk write_chunk n chunk s ≡ (ok tt, t))
        × Has t
        × (t.inodes ≡ s.inodes)
        × ((o : ℕ) → o < chunk * 4096 → on_disk t o ≡ on_disk s o)
        × ((o : ℕ)
            → chunk * 4096 ≤ o
            → o < (chunk + n) * 4096
            → on_disk t o ≡ table_byte s.inodes o)
  unfolding each_chunk
  flushed zero chunk s has le = (s, refl, has, refl, λ o _. refl, λ o lo hi. absurd (omega arith))
  flushed (suc n) chunk s has le =
      let (s', wrote, has', same, cells) = write_chunk_lem s chunk has (omega arith) in
      let (t, rest, has'', same', old, new) = flushed n (chunk + 1) s' has' (omega arith) in
      (
        t,
        bind_ok (write_chunk chunk) (λ _. each_chunk write_chunk n (chunk + 1)) s s' tt wrote
            ∙ rest,
        has'',
        same' ∙ same,
        λ o lt.
            old o (omega arith)
            ∙ cells o
            ∙ if_ind (λ x. x ≡ on_disk s o) (leb (chunk * 4096) o && ltb o (chunk * 4096 + 4096))
                (λ hit. absurd (ground (arith, hit, lt))) (λ _. refl),
        λ o lo hi. elim (lt_cases o ((chunk + 1) * 4096)) [
          | inl lt ↦
              old o lt
              ∙ cells o
              ∙ if_ind (λ x. x ≡ table_byte s.inodes o)
                  (leb (chunk * 4096) o && ltb o (chunk * 4096 + 4096)) (λ _. refl)
                  (λ miss. absurd (ground (arith, miss, lo, lt)))
          | inr ge ↦ new o ge (omega arith) ∙ ap (λ m. table_byte m o) same
        ],
      )

  read_chunk_lem :
      (s : State Disk) (chunk : ℕ)
      → Has s
      → chunk < 4
      → (f : ℕ → ℕ) × (t : State Disk) × (read_chunk chunk s ≡ (ok tt, t))
        × Has t
        × (t.block.disk ≡ s.block.disk)
        × (t.part_lba ≡ s.part_lba)
        × ((k : ℕ) → k < 4096 → f k ≡ on_disk s (chunk * 4096 + k))
        × ((i : ℕ)
            → t.inodes i ≡ (if i / 16 == chunk then table_of f (i - chunk * 16) else s.inodes i))
  unfolding read_chunk Block.read
  read_chunk_lem s chunk (h, room) lt =
      let small = works.small in
      let lba = chunk_sector s chunk in
      let at : lba ≡ s.part_lba + 1 + chunk * 8 = omega (arith, small, room, lt) in
      let near : lba + 8 ≤ d.sectors = omega (arith, at, room, lt) in
      let (f, e, cells) = works.reads s.block.disk lba 8 (omega arith) near in
      let t = record s {
        inodes = λ i. if i / 16 == chunk then table_of f (i - chunk * 16) else s.inodes i;
        block = record s.block { sectors_read = s.block.sectors_read + 8 };
      } in
      (
        f,
        t,
        ground (arith, h, e),
        (h, room),
        refl,
        refl,
        λ k lk. cells k (omega arith) ∙ ap (works.cell s.block.disk) (omega (arith, at)),
        λ i. refl,
      )

  -- The loop of `load_inodes`, over a disk that holds the table `inodes`.
  loaded :
      (inodes : ℕ → Inode) (n chunk : ℕ) (s : State Disk)
      → Has s
      → chunk + n ≤ 4
      → ((i : ℕ) → i < 64 → IsWords (inodes i))
      → ((o : ℕ) → o < 16384 → on_disk s o ≡ table_byte inodes o)
      → (t : State Disk) × (each_chunk read_chunk n chunk s ≡ (ok tt, t))
        × ((i : ℕ) → i < chunk * 16 → t.inodes i ≡ s.inodes i)
        × ((i : ℕ) → chunk * 16 ≤ i → i < (chunk + n) * 16 → SameInode (t.inodes i) (inodes i))
  unfolding each_chunk
  loaded inodes zero chunk s has le words held =
      (s, refl, λ i _. refl, λ i lo hi. absurd (omega arith))
  loaded inodes (suc n) chunk s has le words held =
      let (f, s', was_read, has', disk, lba, cells, table) =
        read_chunk_lem s chunk has (omega arith) in
      let held' : (o : ℕ) → o < 16384 → on_disk s' o ≡ table_byte inodes o = λ o lt.
        ap (λ b. works.cell b ((s'.part_lba + 1) * 512 + o)) disk
        ∙ ap (λ l. works.cell s.block.disk ((l + 1) * 512 + o)) lba
        ∙ held o lt in
      let (t, rest, old, new) = loaded inodes n (chunk + 1) s' has' (omega arith) words held' in
      (
        t,
        bind_ok (read_chunk chunk) (λ _. each_chunk read_chunk n (chunk + 1)) s s' tt was_read
            ∙ rest,
        λ i lt. old i (omega arith) ∙ table i ∙ ground (arith, lt),
        λ i lo hi. elim (lt_cases i ((chunk + 1) * 16)) [
          | inr ge ↦ new i ge (omega arith)
          | inl lt ↦
              let here : t.inodes i ≡ table_of f (i - chunk * 16) =
                old i lt ∙ table i ∙ ground (arith, lo, lt) in
              subst (λ m. SameInode m (inodes i)) (sym here)
                (table_of_lem f (i - chunk * 16) (inodes i) (words i (omega arith)) λ o small.
                  cells ((i - chunk * 16) * 256 + o) (omega arith)
                  ∙ ap (on_disk s) {y = i * 256 + o} (omega arith)
                  ∙ held (i * 256 + o) (omega arith)
                  ∙ table_byte_lem inodes i o small)
        ],
      )

  -- On a disk that serves every request up to its last sector and has room for the first 33 sectors
  -- of the partition, `flush_inodes` of 64 inodes with 32-bit fields succeeds, and `load_inodes`
  -- with the table in memory lost succeeds and brings back every inode: the same numbers, the same
  -- 64 bytes of name and the same 40 block numbers.
  pub flush_inodes-load_inodes :
      (s : State Disk) (lost : ℕ → Inode)
      → s.block.driver ≡ some d
      → s.part_lba + 33 ≤ d.sectors
      → ((i : ℕ) → i < 64 → IsWords (s.inodes i))
      → let (r, t) = flush_inodes s in
        let (q, u) = load_inodes (record t { inodes = lost }) in
        (r ≡ ok tt) × (q ≡ ok tt) × ((i : ℕ) → i < 64 → SameInode (u.inodes i) (s.inodes i))
  unfolding flush_inodes load_inodes
  flush_inodes-load_inodes s lost h room words =
      let (t, wrote, has, same, _, held) = flushed 4 0 s (h, room) (omega arith) in
      let v = record t { inodes = lost } in
      let (u, was_read, _, back) =
        loaded s.inodes 4 0 v has (omega arith) words
          (λ o lt. held o (omega arith) (omega arith)) in
      let run =
        ap
          (λ (x : Result FsError (Unit {0}) × State Disk).
            each_chunk read_chunk 4 0 (record x.1 { inodes = lost }))
          wrote
        ∙ was_read in
      (
        ap (λ (x : Result FsError (Unit {0}) × State Disk). x.0) wrote,
        ap (λ (x : Result FsError (Unit {0}) × State Disk). x.0) run,
        λ i lt.
            subst
              (λ (x : Result FsError (Unit {0}) × State Disk).
                SameInode (x.1.inodes i) (s.inodes i))
              (sym run) (back i (omega arith) lt),
      )
