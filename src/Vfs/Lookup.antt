-- ===== src/Vfs/Lookup.antt =====
-- The names in the table of core/vfs.rs.
use the_cursed_moon_kernel.Prelude.{
  ℕ, zero, suc, ◌+◌, ◌<◌, Bool, true, false, not, ◌&&◌, ◌||◌, leb, ◌==◌, Option, some, List, update,
  update_ne, find_from, find_from_hit, find_from_miss, ◌≡◌, refl, ap, sym, ◌∙◌, arith, Option-cases,
  inl, inr, if_ind, option_ind, lt_cases,
}
use the_cursed_moon_kernel.Prelude.Bytes.{same_bytes}
use the_cursed_moon_kernel.Tcmkfs.Nodes.{entry_kind, is_there}
use the_cursed_moon_kernel.Tcmkfs.Names
use the_cursed_moon_kernel.Tcmkfs.Text.{is_empty}
use the_cursed_moon_kernel.Vfs.{
  Node, State, is_named, attach, attach_disk_node, lookup, mount_one, mount_from, mount_disk_files,
}

pub apart_bool : (b : Bool) → b ≡ true → b ≡ false → ⊥
apart_bool b p q = cc

pub between : (n i : ℕ) → (n < i → ⊥) → (i < n → ⊥) → n ≡ i
between n i a b = elim (lt_cases n i) [
  | inl lt ↦ absurd (a lt)
  | inr ge ↦ elim (lt_cases i n) [ inl lt ↦ absurd (b lt) | inr le ↦ omega arith ]
]

module _ {Disk : Type 0} where
  -- A node that is appended does not hide an older one.
  lookup-attach :
      (node : Node) (s : State Disk) (path : List ℕ) (i : ℕ)
      → lookup s path ≡ some i
      → lookup (attach node s).1 path ≡ some i
  unfolding lookup
  lookup-attach node s path i h =
      if_ind
        (λ (r : Option ℕ × State Disk). find_from (is_named r.1 path) r.1.node_count 0 ≡ some i)
        (leb 32 s.node_count) (λ _. h)
        λ _.
          let t = record s {
            nodes = update s.nodes s.node_count node;
            node_count = s.node_count + 1;
          } in
          let (hit, _, lt, low) = find_from_hit (is_named s path) s.node_count 0 i h in
          let same : (j : ℕ) → j < s.node_count → is_named t path j ≡ is_named s path j = λ j lj.
            ap (λ (n : Node). n.used && same_bytes n.path path)
              (update_ne s.nodes s.node_count node j (λ e. omega arith)) in
          elim (Option-cases (find_from (is_named t path) (s.node_count + 1) 0)) [
            | inl e ↦
                let miss =
                  find_from_miss (is_named t path) (s.node_count + 1) 0 e i (omega arith)
                    (omega arith) in
                absurd (apart_bool _ hit (sym (same i (omega arith)) ∙ miss))
            | inr (k, e) ↦
                let (hit', _, _, low') = find_from_hit (is_named t path) (s.node_count + 1) 0 k e in
                e
                ∙ ap some (
                    between k i
                      (λ l.
                        apart_bool _ (sym (same k (omega arith)) ∙ hit') (low k (omega arith) l))
                      (λ l. apart_bool _ hit (sym (same i (omega arith)) ∙ low' i (omega arith) l)))
          ]

  -- A path still leads to its node, which is as it was.
  abbrev pub Found : List ℕ → ℕ → State Disk → State Disk → Type 0
  Found path i s t = (lookup t path ≡ some i) × (t.nodes i ≡ s.nodes i)

  Found-attach :
      (node : Node) (s t : State Disk) (path : List ℕ) (i : ℕ)
      → Found path i s t
      → Found path i s (attach node t).1
  unfolding lookup
  Found-attach node s t path i (h, same) = (
    lookup-attach node t path i h,
    if_ind (λ (r : Option ℕ × State Disk). r.1.nodes i ≡ s.nodes i) (leb 32 t.node_count)
        (λ _. same)
        (λ _.
          let (_, _, lt, _) = find_from_hit (is_named t path) t.node_count 0 i h in
          update_ne t.nodes t.node_count node i (λ e. omega arith) ∙ same),
  )

  mount_one-Found :
      (path : List ℕ) (i inode : ℕ) (s : State Disk) (r : ℕ × State Disk)
      → Found path i s r.1
      → Found path i s (mount_one inode r).1
  unfolding attach_disk_node
  mount_one-Found path i inode s (added, t) h =
      let P = λ (q : ℕ × State Disk). Found path i s q.1 in
      option_ind P (entry_kind t.fs.inodes inode) (λ _. h)
        λ kind _.
          if_ind P (not (kind == 1)) (λ _. h)
            λ _.
              option_ind P (Names.path_of t.fs.inodes inode) (λ _. h)
                λ name _.
                  if_ind P (is_empty name || is_there (lookup t name)) (λ _. h)
                    λ _. Found-attach _ s t path i h

  mount_from-Found :
      (n inode : ℕ) (path : List ℕ) (i : ℕ) (s : State Disk) (r : ℕ × State Disk)
      → Found path i s r.1
      → Found path i s (mount_from n inode r).1
  unfolding mount_from
  mount_from-Found zero inode path i s r h = h
  mount_from-Found (suc n) inode path i s r h =
      mount_from-Found n (inode + 1) path i s (mount_one inode r)
        (mount_one-Found path i inode s r h)

  -- `mount_disk_files` leaves every path that was known with the index that it had and with the
  -- same node there, its source, contents and size included, so no file of the disk hides one of
  -- the kernel image.
  pub mount_disk_files-lookup :
      (path : List ℕ) (i : ℕ) (s : State Disk)
      → lookup s path ≡ some i
      → (lookup (mount_disk_files s).1 path ≡ some i) × ((mount_disk_files s).1.nodes i ≡ s.nodes i)
  unfolding mount_disk_files
  mount_disk_files-lookup path i s h =
      if_ind (λ (q : ℕ × State Disk). Found path i s q.1) (not s.fs.mounted) (λ _. (h, refl))
        (λ _. mount_from-Found 64 0 path i s (0, s) (h, refl))
