-- ===== src/Tcmkfs/Data/Store.antt =====
-- What the loop of `write` in core/tcmkfs.rs puts on a disk that works, and what `read` then gives.
use the_cursed_moon_kernel.Prelude.{
  ℕ, zero, suc, ◌+◌, ◌-◌, ◌*◌, ◌/◌, ◌%◌, ◌≤◌, ◌<◌, ◌&&◌, ltb, leb, some, List, [], ◌∷◌, length, ◌≡◌,
  refl, ap, sym, ◌∙◌, ◌≢◌, ◌⊎◌, arith, inl, inr, bool_ind, if_ind, subst, lt_cases,
}
use mathlib.Core.Path.{ap₂}
use the_cursed_moon_kernel.Prelude.Bytes.{nth, slice}
use the_cursed_moon_kernel.Prelude.Action.{Result, ok, ◌>>◌, bind_ok}
use the_cursed_moon_kernel.Block.{Driver, IsDisk}
use the_cursed_moon_kernel.Tcmkfs.Layout.{State, Inode, FsError}
use the_cursed_moon_kernel.Tcmkfs.Sectors.{write_block}
use the_cursed_moon_kernel.Tcmkfs.Data.{read_from, write_from, before_copy, chunk_at, overlay}
use the_cursed_moon_kernel.Tcmkfs.Data.Read.{OnDisk, read_from-slice, byte_of, was_read}
use the_cursed_moon_kernel.Tcmkfs.Data.Place.{cell_of, Around, write_block_lem, before_copy_lem}

module _ {Disk : Type 0} (d : Driver Disk) (works : IsDisk d) where
  module _ (index offset : ℕ) (bytes : List ℕ) (have : ℕ) (blocks : ℕ → ℕ) where
    -- The places of the file that the bytes go to are apart and on the disk.
    abbrev pub IsLaid : ℕ → Type 0
    IsLaid lba =
        ((i : ℕ)
          → offset < i * 4096 + 4096
          → i * 4096 < offset + length bytes
          → lba + 4096 + blocks i * 8 + 8 ≤ d.sectors)
        × ((i j : ℕ)
            → offset < i * 4096 + 4096
            → i * 4096 < offset + length bytes
            → offset < j * 4096 + 4096
            → j * 4096 < offset + length bytes
            → i ≢ j
            → blocks i ≢ blocks j)

    -- From `done` on the bytes are in the file, and those before are as they were.
    abbrev Stored : State Disk → State Disk → ℕ → Type 0
    Stored s t done =
        ((k : ℕ)
          → offset + done ≤ k
          → k < offset + length bytes
          → byte_of works.cell t blocks k ≡ nth bytes (k - offset))
        × ((k : ℕ)
            → offset ≤ k
            → k < offset + done
            → byte_of works.cell t blocks k ≡ byte_of works.cell s blocks k)

    -- One round of the loop.
    round :
        (s s1 t1 t : State Disk) (f : ℕ → ℕ) (done chunk : ℕ)
        → let position = offset + done in
          (done ≡ 0) ⊎ (position % 4096 ≡ 0)
          → offset + length bytes ≤ 163840
          → done < length bytes
          → chunk ≡ chunk_at position (length bytes - done)
          → IsLaid s.part_lba
          → ((o : ℕ)
              → o < 4096
              → cell_of d works t1 (blocks (position / 4096)) o
                ≡ overlay f (position % 4096) chunk (λ k. nth bytes (done + k)) o)
          → ((c o : ℕ)
              → c ≢ blocks (position / 4096)
              → o < 4096
              → OnDisk d works s c
              → cell_of d works t1 c o ≡ cell_of d works s c o)
          → Stored t1 t (done + chunk)
          → Stored s t done
    round s s1 t1 t f done chunk start fits more e laid cells others (new, old) = (
      λ k lo hi. elim (lt_cases k (offset + (done + chunk))) [
        | inr ge ↦ new k ge hi
        | inl lt ↦
            old k (omega arith) lt
            ∙ ap (λ i. cell_of d works t1 (blocks i) (k % 4096)) {y = (offset + done) / 4096}
                (omega arith)
            ∙ cells (k % 4096) (omega arith)
            ∙ written f k done chunk e lo lt
      ],
      λ k lo lt.
          let near : k / 4096 ≢ (offset + done) / 4096 = λ q. ground (arith, start) in
          old k lo (omega arith)
          ∙ others (blocks (k / 4096)) (k % 4096)
              (laid.1 (k / 4096) ((offset + done) / 4096) (omega arith) (omega arith) (omega arith)
                (omega arith) near)
              (omega arith) (laid.0 (k / 4096) (omega arith) (omega arith)),
    )
      where
        written :
            (f : ℕ → ℕ) (k done chunk : ℕ)
            → chunk ≡ chunk_at (offset + done) (length bytes - done)
            → offset + done ≤ k
            → k < offset + (done + chunk)
            → overlay f ((offset + done) % 4096) chunk (λ j. nth bytes (done + j)) (k % 4096)
              ≡ nth bytes (k - offset)
        written f k done chunk e lo lt =
            if_ind (λ x. x ≡ nth bytes (k - offset))
              (leb ((offset + done) % 4096) (k % 4096)
                && ltb (k % 4096) ((offset + done) % 4096 + chunk))
              (λ _. ap (nth bytes) (omega arith)) (λ bad. absurd (ground (arith, bad, e, lo, lt)))

    -- The loop ends with all bytes counted and stored.
    abbrev pub Writes : ℕ → State Disk → ℕ → Type 0
    Writes fuel s done =
        (t : State Disk) × (write_from fuel index offset bytes have done s ≡ (ok (length bytes), t))
        × Around d works s t
        × Stored s t done

    finished :
        (fuel done : ℕ) (s : State Disk)
        → s.block.driver ≡ some d
        → done ≡ length bytes
        → Writes fuel s done
    unfolding write_from
    finished zero done s h e = (
      s,
      ap (λ n. (ok n, s)) e,
      (h, refl, refl),
      (λ k lo hi. absurd (omega arith), λ k lo hi. refl),
    )
    finished (suc fuel) done s h e = (
      s,
      bool_ind (λ (r : Result FsError ℕ × State Disk). r ≡ (ok (length bytes), s))
          (ltb done (length bytes)) (λ more. absurd (ground (arith, more, e)))
          (λ _. ap (λ n. (ok n, s)) e),
      (h, refl, refl),
      (λ k lo hi. absurd (omega arith), λ k lo hi. refl),
    )

    pub write_from-Stored :
        (fuel done : ℕ) (s : State Disk)
        → s.block.driver ≡ some d
        → (s.inodes index).blocks ≡ blocks
        → IsLaid s.part_lba
        → offset + length bytes ≤ 163840
        → (done < length bytes → (done ≡ 0) ⊎ ((offset + done) % 4096 ≡ 0))
        → done ≤ length bytes
        → length bytes ≤ done + fuel
        → Writes fuel s done
    unfolding write_from
    write_from-Stored zero done s h eb laid fits start le enough =
        finished zero done s h (omega arith)
    write_from-Stored (suc fuel) done s h eb laid fits start le enough =
        elim (lt_cases done (length bytes)) [
          | inr ge ↦ finished (suc fuel) done s h (omega arith)
          | inl lt ↦
              let position = offset + done in
              let i = position / 4096 in
              let chunk = chunk_at position (length bytes - done) in
              let b = (s.inodes index).blocks i in
              let here : b ≡ blocks i = ap (λ (g : ℕ → ℕ). g i) eb in
              let placed : OnDisk d works s b = rw here (laid.0 i (omega arith) (omega arith)) in
              let (f, n, copied) = before_copy_lem d works s b i have chunk h placed in
              let s1 = was_read s n in
              let g = overlay f (position % 4096) chunk (λ k. nth bytes (done + k)) in
              let (t1, wrote, (driver, lba, table), cells, others) =
                write_block_lem d works s1 b g h placed in
              let (t, rest, (driver', lba', table'), stored) =
                write_from-Stored fuel (done + chunk) t1 driver
                  (ap (λ (m : ℕ → Inode). (m index).blocks) table ∙ eb)
                  (subst IsLaid (sym lba) laid) fits (next_start done lt) (omega arith)
                  (omega arith) in
              (
                t,
                bool_ind (λ (r : Result FsError ℕ × State Disk). r ≡ (ok (length bytes), t))
                    (ltb done (length bytes))
                    (λ _.
                      bind_ok (before_copy b i have chunk)
                        (λ scratch.
                          write_block b
                            (overlay scratch (position % 4096) chunk (λ k. nth bytes (done + k)))
                          >> write_from fuel index offset bytes have (done + chunk))
                        s s1 f copied
                      ∙ bind_ok (write_block b g)
                          (λ _. write_from fuel index offset bytes have (done + chunk)) s1 t1 tt
                          wrote
                      ∙ rest)
                    (λ stop. absurd (ground (arith, stop, lt))),
                (driver', lba' ∙ lba, table' ∙ table),
                round s s1 t1 t f done chunk (start lt) fits lt refl laid
                    (subst (λ c. (o : ℕ) → o < 4096 → cell_of d works t1 c o ≡ g o) here cells)
                    (subst
                      (λ c'.
                        (c o : ℕ)
                        → c ≢ c'
                        → o < 4096
                        → OnDisk d works s c
                        → cell_of d works t1 c o ≡ cell_of d works s c o)
                      here others)
                    stored,
              )
        ]
      where
        next_start :
            (done : ℕ)
            → done < length bytes
            → done + chunk_at (offset + done) (length bytes - done) < length bytes
            → (done + chunk_at (offset + done) (length bytes - done) ≡ 0)
              ⊎ ((offset + (done + chunk_at (offset + done) (length bytes - done))) % 4096 ≡ 0)
        next_start done lt more = inr (omega arith)

slice-nth :
    (f : ℕ → ℕ) (xs : List ℕ) (i : ℕ)
    → ((k : ℕ) → i ≤ k → k < i + length xs → f k ≡ nth xs (k - i))
    → slice f i (length xs) ≡ xs
slice-nth f [] i h = refl
slice-nth f (x ∷ xs) i h =
    ap₂ ◌∷◌ (h i (omega arith) (omega arith) ∙ ap (nth (x ∷ xs)) {y = 0} (omega arith)) (
      slice-nth f xs (i + 1) (λ k lo hi.
        h k (omega arith) (omega arith) ∙ ap (nth (x ∷ xs)) {y = suc (k - (i + 1))} (omega arith)))

-- On a disk that serves every request up to its last sector, for a range inside the 163840 bytes of
-- a file whose blocks under the range are different ones and end before the last sector of the
-- disk, the loop of `write` ends with all bytes written, on fuel of one round per byte, and the
-- loop of `read` then ends and gives back exactly these bytes.
pub write_from-read_from :
    {Disk : Type 0} (d : Driver Disk) (works : IsDisk d) (index offset : ℕ) (bytes : List ℕ)
    (have : ℕ) (blocks : ℕ → ℕ) (s : State Disk)
    → s.block.driver ≡ some d
    → (s.inodes index).blocks ≡ blocks
    → IsLaid d works index offset bytes have blocks s.part_lba
    → offset + length bytes ≤ 163840
    → let r = write_from (length bytes) index offset bytes have 0 s in
      (r.0 ≡ ok (length bytes))
      × ((read_from (length bytes) blocks offset (length bytes) 0 r.1).0 ≡ ok bytes)
write_from-read_from d works index offset bytes have blocks s h eb laid fits =
    let (t, e, (driver, lba, table), (new, old)) =
      write_from-Stored d works index offset bytes have blocks (length bytes) 0 s h eb laid fits
        (λ _. inl refl) (omega arith) (omega arith) in
    (
      ap (λ (r : Result FsError ℕ × State _). r.0) e,
      ap
            (λ (r : Result FsError ℕ × State _).
              (read_from (length bytes) blocks offset (length bytes) 0 r.1).0)
            e
          ∙ read_from-slice d works (length bytes) t blocks offset (length bytes) 0 driver
              (omega arith) (omega arith) fits (λ i below above. rw lba (laid.0 i above below))
          ∙ ap ok (
              ap (λ o. slice (byte_of works.cell t blocks) o (length bytes - 0)) {x = offset + 0}
                {y = offset} (omega arith)
              ∙ ap (slice (byte_of works.cell t blocks) offset) {x = length bytes - 0}
                  {y = length bytes} (omega arith)
              ∙ slice-nth (byte_of works.cell t blocks) bytes offset
                  (λ k lo hi. new k (omega arith) hi)),
    )
