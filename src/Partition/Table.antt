-- ===== src/Partition/Table.antt =====
-- What `scan` of drivers/partition.rs leaves in the table.
use the_cursed_moon_kernel.Prelude.{
  ℕ, zero, suc, ◌+◌, not, ◌||◌, ltb, leb, ◌==◌, if◌then◌else◌, Option, none, some, List, [], ◌∷◌,
  ◌++◌, append_assoc, append-nil, length, length-append, get_elem?, update, ◌≡◌, refl, sym, ◌∙◌,
  arith, if_ind, subst, Bool, true, false, ap, ◌*◌, ◌&&◌,
}
use the_cursed_moon_kernel.Prelude.Bytes.{le_u32}
use the_cursed_moon_kernel.Partition.{
  Partition, State, entry, record_entry, scan_from, scan_sector, get, type_tcmkfs,
}

-- Four bytes, the lowest first.
abbrev pub four : ℕ → ℕ → ℕ → ℕ → ℕ
four a b c d = a + b * 256 + c * 65536 + d * 16777216

-- What the boot record says of its entry `i`, of 16 bytes from 446 on: the mark 0x80 for the active
-- partition in byte 0, the type in byte 4, the first sector in bytes 8 to 11, and the number of
-- sectors in bytes 12 to 15.
abbrev pub described : (ℕ → ℕ) → ℕ → Partition
described mbr i =
    let byte : ℕ → ℕ = λ k. mbr (446 + i * 16 + k) in
    record {
      index = i;
      kind = byte 4;
      bootable = byte 0 == 0x80;
      start_lba = four (byte 8) (byte 9) (byte 10) (byte 11);
      sectors = four (byte 12) (byte 13) (byte 14) (byte 15);
    }

-- An entry is in use if it has a type and sectors.
abbrev pub in_use : Partition → Bool
in_use p = ltb 0 p.kind && ltb 0 p.sectors

-- The entries in use, in their order.
pub entries : (ℕ → ℕ) → ℕ → ℕ → List Partition
entries mbr zero i = []
entries mbr (suc n) i =
    let rest = entries mbr n (i + 1) in
    if in_use (described mbr i) then described mbr i ∷ rest else rest

-- The place of the last TCMKFS partition of a list, or what was known before.
pub chosen : ℕ × ℕ → List Partition → ℕ × ℕ
chosen old [] = old
chosen old (p ∷ l) = chosen (if p.kind == 0x7F then (p.start_lba, p.sectors) else old) l

-- The first `found` places of the table hold the list, and the place of TCMKFS is that of its last
-- such entry.
abbrev Holds : ℕ × ℕ → State → ℕ → List Partition → Type 0
Holds old s found l =
    (found ≡ length l)
    × ((k : ℕ) → (if ltb k found then some (s.table k) else none) ≡ get_elem? l k)
    × ((s.tcmkfs_lba, s.tcmkfs_sectors) ≡ chosen old l)

get_elem?-snoc :
    (l : List Partition) (p : Partition) (k : ℕ)
    → get_elem? (l ++ p ∷ []) k ≡ (if k == length l then some p else get_elem? l k)
get_elem?-snoc [] p zero = refl
get_elem?-snoc [] p (suc k) = ground arith
get_elem?-snoc (x ∷ l) p zero = ground arith
get_elem?-snoc (x ∷ l) p (suc k) = ground (arith, get_elem?-snoc l p k)

chosen-snoc :
    (old : ℕ × ℕ) (l : List Partition) (p : Partition)
    → chosen old (l ++ p ∷ []) ≡ (if p.kind == 0x7F then (p.start_lba, p.sectors) else chosen old l)
unfolding chosen
chosen-snoc old [] p = refl
chosen-snoc old (x ∷ l) p =
    chosen-snoc (if x.kind == 0x7F then (x.start_lba, x.sectors) else old) l p

Holds-more :
    (old : ℕ × ℕ) (s : State) (found : ℕ) (l : List Partition) (p : Partition)
    → Holds old s found l
    → Holds old (record_entry p found s) (found + 1) (l ++ p ∷ [])
Holds-more old s found l p h =
    let table : (record_entry p found s).table ≡ update s.table found p =
      if_ind (λ (t : State). t.table ≡ update s.table found p) (p.kind == type_tcmkfs) (λ _. refl)
        (λ _. refl) in
    (
      omega (arith, h.0, length-append l (p ∷ [])),
      λ k. rw (table, get_elem?-snoc l p k, ← h.0) (place k),
      if_ind (λ (t : State). (t.tcmkfs_lba, t.tcmkfs_sectors) ≡ chosen old (l ++ p ∷ []))
          (p.kind == type_tcmkfs) (λ yes_it. sym (chosen-snoc old l p ∙ rw yes_it refl))
          (λ not_it. h.2 ∙ sym (chosen-snoc old l p ∙ rw not_it refl)),
    )
  where
    place :
        (k : ℕ)
        → (if ltb k (found + 1) then some (update s.table found p k) else none)
          ≡ (if k == found then some p else get_elem? l k)
    place k = ground (arith, h.1 k)

-- The code reads an entry as the boot record describes it.
entry_lem :
    (mbr : ℕ → ℕ) (i : ℕ)
    → entry mbr i ≡ (if in_use (described mbr i) then some (described mbr i) else none)
unfolding entry
entry_lem mbr i =
    let base = 446 + i * 16 in
    rw (word base 8, word base 12, ap mbr {x = base} {y = base + 0} (omega arith))
      (picked (mbr (base + 4)) (described mbr i).sectors (described mbr i))
  where
    word :
        (base k : ℕ)
        → le_u32 mbr (base + k)
          ≡ four
              (mbr (base + k))
              (mbr (base + (k + 1)))
              (mbr (base + (k + 2)))
              (mbr (base + (k + 3)))
    word base k = omega (
      arith,
      ap mbr {x = base + k + 1} {y = base + (k + 1)} (omega arith),
      ap mbr {x = base + k + 2} {y = base + (k + 2)} (omega arith),
      ap mbr {x = base + k + 3} {y = base + (k + 3)} (omega arith),
    )

    picked :
        (kind sectors : ℕ) (p : Partition)
        → (if kind == 0 || sectors == 0 then none else some p)
          ≡ (if ltb 0 kind && ltb 0 sectors then some p else none)
    picked kind sectors p = ground arith

entries-entry :
    (mbr : ℕ → ℕ) (n i : ℕ)
    → entries mbr (suc n) i
      ≡ (elim (entry mbr i) [ none ↦ entries mbr n (i + 1) | some p ↦ p ∷ entries mbr n (i + 1) ])
unfolding entries
entries-entry mbr n i =
    rw (entry_lem mbr i)
      (agree (in_use (described mbr i)) (described mbr i) (entries mbr n (i + 1)))
  where
    agree :
        (b : Bool) (p : Partition) (rest : List Partition)
        → (if b then p ∷ rest else rest)
          ≡ elim (if b then some p else none) [ none ↦ rest | some q ↦ q ∷ rest ]
    agree true p rest = refl
    agree false p rest = refl

scan_from-Holds :
    (mbr : ℕ → ℕ) (n i found : ℕ) (old : ℕ × ℕ) (s : State) (l : List Partition)
    → Holds old s found l
    → Holds old (scan_from mbr n i found s).1 (scan_from mbr n i found s).0 (l ++ entries mbr n i)
unfolding scan_from entries
scan_from-Holds mbr zero i found old s l h = subst (Holds old s found) (sym (append-nil l)) h
scan_from-Holds mbr (suc n) i found old s l h =
    subst
      (λ es.
        Holds old (scan_from mbr (suc n) i found s).1 (scan_from mbr (suc n) i found s).0 (l ++ es))
      (sym (entries-entry mbr n i))
      (step (entry mbr i) (scan_from-Holds mbr n (i + 1) found old s l h) (λ p.
        scan_from-Holds mbr n (i + 1) (found + 1) old (record_entry p found s) (l ++ p ∷ [])
          (Holds-more old s found l p h)))
  where
    step :
        (o : Option Partition)
        → Holds old
            (scan_from mbr n (i + 1) found s).1
            (scan_from mbr n (i + 1) found s).0
            (l ++ entries mbr n (i + 1))
        → ((p : Partition)
            → Holds old
                (scan_from mbr n (i + 1) (found + 1) (record_entry p found s)).1
                (scan_from mbr n (i + 1) (found + 1) (record_entry p found s)).0
                ((l ++ p ∷ []) ++ entries mbr n (i + 1)))
        → let r : ℕ × State = elim o [
          | none ↦ scan_from mbr n (i + 1) found s
          | some p ↦ scan_from mbr n (i + 1) (found + 1) (record_entry p found s)
        ] in
          Holds old r.1 r.0
            (l ++ (elim o [ none ↦ entries mbr n (i + 1) | some p ↦ p ∷ entries mbr n (i + 1) ]))
    step none miss hit = miss
    step (some p) miss hit =
        subst
          (Holds old (scan_from mbr n (i + 1) (found + 1) (record_entry p found s)).1
            (scan_from mbr n (i + 1) (found + 1) (record_entry p found s)).0)
          (append_assoc l (p ∷ []) (entries mbr n (i + 1))) (hit p)

-- For a sector with the boot signature, `scan` records, in order and without gaps, the four entries
-- from byte 446 on whose type (byte 4) and number of sectors (bytes 12 to 15) are not 0, each with
-- its index, type, active mark and first sector (bytes 8 to 11), returns their number, and
-- remembers as the partition of TCMKFS the last one of type 0x7F, or the old one where there is
-- none.
pub scan_sector-entries :
    (mbr : ℕ → ℕ) (s : State)
    → mbr 510 ≡ 0x55
    → mbr 511 ≡ 0xAA
    → let (found, t) = scan_sector mbr s in
      (found ≡ length (entries mbr 4 0))
      × ((k : ℕ) → get t k ≡ get_elem? (entries mbr 4 0) k)
      × ((t.tcmkfs_lba, t.tcmkfs_sectors)
          ≡ chosen (s.tcmkfs_lba, s.tcmkfs_sectors) (entries mbr 4 0))
unfolding scan_sector get
scan_sector-entries mbr s a b =
    let old : ℕ × ℕ = (s.tcmkfs_lba, s.tcmkfs_sectors) in
    let h = scan_from-Holds mbr 4 0 0 old s [] (refl, λ k. ground arith, unfold chosen in refl) in
    if_ind
      (λ (r : ℕ × State).
        (r.0 ≡ length (entries mbr 4 0))
        × ((k : ℕ) → get r.1 k ≡ get_elem? (entries mbr 4 0) k)
        × ((r.1.tcmkfs_lba, r.1.tcmkfs_sectors) ≡ chosen old (entries mbr 4 0)))
      (not (mbr 510 == 0x55) || not (mbr 511 == 0xAA)) (λ bad. absurd (ground (arith, bad, a, b)))
      (λ _. (
        h.0,
        λ k. listed (scan_from mbr 4 0 0 s).0 ((scan_from mbr 4 0 0 s).1.table k) k (h.1 k),
        h.2,
      ))
  where
    listed :
        (found : ℕ) (p : Partition) (k : ℕ) {o : Option Partition}
        → (if ltb k found then some p else none) ≡ o
        → (if leb found k then none else some p) ≡ o
    listed found p k h = ground (arith, h)
