-- ===== src/Vfs/Create.antt =====
-- `create_file` of core/vfs.rs: when the new file is found, and when it is not.
use the_cursed_moon_kernel.Prelude.{
  ℕ, ◌+◌, ◌<◌, ◌≤◌, true, ◌&&◌, leb, Option, none, some, List, length, take, take_all, length-take,
  update, update_self, update_ne, find_from, find_from_hit, find_from_miss, ◌≡◌, refl, ap, sym, ◌∙◌,
  arith, Option-cases, inl, inr, if_ind, option_ind, subst, ℕ_discrete,
}
use the_cursed_moon_kernel.Prelude.Bytes.{same_bytes, same_bytes_refl, same_bytes→eq}
use the_cursed_moon_kernel.Prelude.Action.{Result, ok, err, bind_ind, or_raise}
use the_cursed_moon_kernel.Tcmkfs.Layout.{FsError, too_many_files}
use the_cursed_moon_kernel.Tcmkfs.Names
use the_cursed_moon_kernel.Tcmkfs.Nodes
use the_cursed_moon_kernel.Tcmkfs.Nodes.Tree.{IsTree}
use the_cursed_moon_kernel.Tcmkfs.Nodes.Make.{IsText, create-lookup}
use the_cursed_moon_kernel.Tcmkfs.Layout
use the_cursed_moon_kernel.Vfs.{
  Node, State, on_fs, disk, is_named, attach_disk_node, attach_new, lookup, create_file,
}
use the_cursed_moon_kernel.Vfs.Lookup.{apart_bool, between}

ok-err : (a : ℕ) (e : FsError) → ◌≡◌ {A = Result FsError ℕ} (ok a) (err e) → ⊥
ok-err a e h = cc

ok_inj : (a b : ℕ) → ◌≡◌ {A = Result FsError ℕ} (ok a) (ok b) → a ≡ b
ok_inj a b h = cc

none-some : (k : ℕ) → ◌≡◌ {A = Option ℕ} none (some k) → ⊥
none-some k h = cc

module _ {Disk : Type 0} where
  -- A new node is found under its path, if the node holds the path whole.
  lookup-attach_new :
      (path : List ℕ) (inode i : ℕ) (s : State Disk)
      → length path ≤ 64
      → lookup s path ≡ none
      → (attach_new path inode s).0 ≡ ok i
      → lookup (attach_new path inode s).1 path ≡ some i
  unfolding attach_disk_node lookup
  lookup-attach_new path inode i s short new =
      if_ind
        (λ (r : Option ℕ × State Disk).
          (or_raise {S = State Disk} {E = FsError} r.0 too_many_files r.1).0 ≡ ok i
          → find_from
              (is_named (or_raise {S = State Disk} {E = FsError} r.0 too_many_files r.1).1 path)
              (or_raise {S = State Disk} {E = FsError} r.0 too_many_files r.1).1.node_count 0
            ≡ some i)
        (leb 32 s.node_count) (λ _ h. cc)
        λ _ h.
          let node : Node = record {
            path = take 64 path;
            size = 0;
            source = disk;
            content = λ _. 0;
            inode = inode;
            used = true;
          } in
          let n = s.node_count in
          let t = record s { nodes = update s.nodes n node; node_count = n + 1 } in
          let here : is_named t path n ≡ true =
            ap (λ (m : Node). m.used && same_bytes m.path path) (update_self s.nodes n node)
            ∙ rw (take_all 64 path short) (same_bytes_refl path) in
          let mine : n ≡ i = ground (arith, h) in
          elim (Option-cases (find_from (is_named t path) (n + 1) 0)) [
            | inl e ↦
                let miss =
                  find_from_miss (is_named t path) (n + 1) 0 e n (omega arith) (omega arith) in
                absurd (apart_bool _ here miss)
            | inr (k, e) ↦
                let (hit, _, lt, low) = find_from_hit (is_named t path) (n + 1) 0 k e in
                e
                ∙ ap some (
                    between k n
                      (λ l.
                        apart_bool _
                          (sym (
                              ap (λ (m : Node). m.used && same_bytes m.path path)
                                (update_ne s.nodes n node k (λ q. omega arith)))
                            ∙ hit)
                          (find_from_miss (is_named s path) n 0 new k (omega arith) (omega arith)))
                      (λ l. omega arith)
                    ∙ mine)
          ]

  -- A node that `create_file` returns for a path of at most 64 bytes is the one that `lookup` finds
  -- under this path.
  pub create_file-lookup :
      (now : ℕ) (path : List ℕ) (i : ℕ) (s : State Disk)
      → length path ≤ 64
      → (create_file now path s).0 ≡ ok i
      → lookup (create_file now path s).1 path ≡ some i
  unfolding create_file
  create_file-lookup now path i s short =
      let P = λ (r : Result FsError ℕ × State Disk). r.0 ≡ ok i → lookup r.1 path ≡ some i in
      option_ind P (lookup s path)
        (λ new.
          bind_ind P (on_fs (Nodes.create now path)) (attach_new path) s
            (λ inode _.
              lookup-attach_new path inode i (on_fs (Nodes.create now path) s).1 short
                (unfold lookup in new))
            (λ e _ h. cc))
        (λ k e h. e ∙ ap some (ground (arith, h)))

  -- A path of more than 64 bytes is never found, whatever was created.
  pub lookup-long :
      (s : State Disk) (path : List ℕ)
      → ((i : ℕ) → length (s.nodes i).path ≤ 64)
      → 64 < length path
      → lookup s path ≡ none
  unfolding lookup
  lookup-long s path short long = elim (Option-cases (find_from (is_named s path) s.node_count 0)) [
    | inl e ↦ e
    | inr (k, e) ↦
        let (hit, _, _, _) = find_from_hit (is_named s path) s.node_count 0 k e in
        let same = same_bytes→eq (s.nodes k).path path (ground (arith, hit)) in
        absurd (omega (arith, ap length same, short k))
  ]

  attach_new-short :
      (path : List ℕ) (inode : ℕ) (s : State Disk)
      → ((i : ℕ) → length (s.nodes i).path ≤ 64)
      → (i : ℕ) → length ((attach_new path inode s).1.nodes i).path ≤ 64
  unfolding attach_disk_node
  attach_new-short path inode s short i =
      if_ind
        (λ (r : Option ℕ × State Disk).
          length ((or_raise {S = State Disk} {E = FsError} r.0 too_many_files r.1).1.nodes i).path
          ≤ 64)
        (leb 32 s.node_count) (λ _. short i)
        λ _.
          let node : Node = record {
            path = take 64 path;
            size = 0;
            source = disk;
            content = λ _. 0;
            inode = inode;
            used = true;
          } in
          elim (ℕ_discrete i s.node_count) [
            | yes e ↦
                rw (e, update_self s.nodes s.node_count node)
                  (omega (arith, length-take {0} 64 path))
            | no ne ↦ rw (update_ne s.nodes s.node_count node i ne) (short i)
          ]

  -- With a free node, the new node is the one behind the last.
  attach_free :
      (path : List ℕ) (inode : ℕ) (s : State Disk)
      → s.node_count < 32
      → let (r, t) = attach_new path inode s in
        (r ≡ ok s.node_count)
        × ((t.nodes s.node_count).inode ≡ inode)
        × ((t.nodes s.node_count).path ≡ take 64 path)
        × (t.fs ≡ s.fs)
  unfolding attach_disk_node
  attach_free path inode s free =
      if_ind
        (λ (q : Option ℕ × State Disk).
          let (r, t) = or_raise {S = State Disk} {E = FsError} q.0 too_many_files q.1 in
          (r ≡ ok s.node_count)
          × ((t.nodes s.node_count).inode ≡ inode)
          × ((t.nodes s.node_count).path ≡ take 64 path)
          × (t.fs ≡ s.fs))
        (leb 32 s.node_count) (λ no_room. absurd (ground (arith, no_room, free)))
        λ _.
          let node : Node = record {
            path = take 64 path;
            size = 0;
            source = disk;
            content = λ _. 0;
            inode = inode;
            used = true;
          } in
          let here = update_self s.nodes s.node_count node in
          (refl, ap (λ (n : Node). n.inode) here, ap (λ (n : Node). n.path) here, refl)

  -- For a path of more than 64 bytes of which TCMKFS, with its table a tree, creates the file, in a
  -- table with a free node whose paths have at most 64, `create_file` succeeds with a node for the
  -- new inode under the first 64 bytes of the path; TCMKFS finds the file under the path, and
  -- `lookup` finds nothing.
  pub create_file-long :
      (now : ℕ) (path : List ℕ) (inode : ℕ) (s : State Disk)
      → IsText path
      → IsTree s.fs.inodes
      → ((i : ℕ) → length (s.nodes i).path ≤ 64)
      → 64 < length path
      → s.node_count < 32
      → (Nodes.create now path s.fs).0 ≡ ok inode
      → let (r, t) = create_file now path s in
        (r ≡ ok s.node_count)
        × ((t.nodes s.node_count).inode ≡ inode)
        × ((t.nodes s.node_count).path ≡ take 64 path)
        × (Names.lookup t.fs.inodes path ≡ some inode)
        × (lookup t path ≡ none)
  unfolding create_file
  create_file-long now path inode s text tree short long free made =
      let P = λ (q : Result FsError ℕ × State Disk).
        (q.0 ≡ ok s.node_count)
        × ((q.1.nodes s.node_count).inode ≡ inode)
        × ((q.1.nodes s.node_count).path ≡ take 64 path)
        × (Names.lookup q.1.fs.inodes path ≡ some inode)
        × (lookup q.1 path ≡ none) in
      option_ind P (lookup s path)
        (λ _.
          bind_ind P (on_fs (Nodes.create now path)) (attach_new path) s
            (λ a found.
              let t = (on_fs (Nodes.create now path) s).1 in
              let (r, node, name, fs) = attach_free path a t free in
              (
                r,
                node ∙ ok_inj a inode (sym found ∙ made),
                name,
                ap (λ (f : Layout.State Disk). Names.lookup f.inodes path) fs
                    ∙ (create-lookup now path s.fs inode text tree made).0,
                lookup-long (attach_new path a t).1 path (attach_new-short path a t short) long,
              ))
            (λ e failed. absurd (ok-err inode e (sym made ∙ failed))))
        (λ k old. absurd (none-some k (sym (lookup-long s path short long) ∙ old)))

  attach_full :
      (path : List ℕ) (inode : ℕ) (s : State Disk)
      → s.node_count ≡ 32
      → attach_new path inode s ≡ (err too_many_files, s)
  unfolding attach_disk_node
  attach_full path inode s h = rw (h, or_raise) refl

  -- With 32 nodes taken, for a path that is not known and of which TCMKFS, with its table a tree,
  -- creates the file, `create_file` fails with too many files, and the file is on the disk all the
  -- same.
  pub create_file-full :
      (now : ℕ) (path : List ℕ) (inode : ℕ) (s : State Disk)
      → IsText path
      → IsTree s.fs.inodes
      → s.node_count ≡ 32
      → lookup s path ≡ none
      → (Nodes.create now path s.fs).0 ≡ ok inode
      → ((create_file now path s).0 ≡ err too_many_files)
        × (Names.lookup (create_file now path s).1.fs.inodes path ≡ some inode)
  unfolding create_file
  create_file-full now path inode s text tree many new made =
      let P = λ (r : Result FsError ℕ × State Disk).
        (r.0 ≡ err too_many_files) × (Names.lookup r.1.fs.inodes path ≡ some inode) in
      option_ind P (lookup s path)
        (λ _.
          bind_ind P (on_fs (Nodes.create now path)) (attach_new path) s
            (λ a _.
              let t = (on_fs (Nodes.create now path) s).1 in
              subst P (sym (attach_full path a t many))
                (refl, (create-lookup now path s.fs inode text tree made).0))
            (λ e failed. absurd (ok-err inode e (sym made ∙ failed))))
        (λ k old. absurd (none-some k (sym new ∙ old)))
