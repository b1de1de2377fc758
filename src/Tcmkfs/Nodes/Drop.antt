-- ===== src/Tcmkfs/Nodes/Drop.antt =====
-- `rmdir` and `remove` of core/tcmkfs.rs.
use the_cursed_moon_kernel.Prelude.{
  ℕ, zero, suc, ◌<◌, false, not, ◌==◌, some, List, update, ◌≡◌, refl, ap, sym, ◌∙◌, ◌≢◌, arith,
  subst, find_from, find_from_miss, if_ind, min, ltb,
}
use the_cursed_moon_kernel.Prelude.Action.{
  Result, ok, err, Keeps-bind, ◌>>=◌, ◌>>◌, modify, raise_if, or_raise, raise_if_ind, or_raise_ind,
}
use the_cursed_moon_kernel.Tcmkfs.Layout.{
  State, Inode, FsError, empty, not_mounted, not_found, not_empty, bad_path, panicked,
}
use the_cursed_moon_kernel.Tcmkfs.Sectors.{flush_inodes, flush_bitmap}
use the_cursed_moon_kernel.Tcmkfs.Sectors.Keep.{flush_inodes-Keeps, flush_bitmap-Keeps}
use the_cursed_moon_kernel.Tcmkfs.Bitmap.{bit_get, free_block}
use the_cursed_moon_kernel.Tcmkfs.Names.{inode_ref, resolve}
use the_cursed_moon_kernel.Tcmkfs.Nodes.{
  inode_at, set_inode, has_parent, is_there, empty_inode, rmdir, rmdir_at, rmdir_node, remove,
  remove_node, free_blocks_of, block_count,
}
use the_cursed_moon_kernel.Tcmkfs.Nodes.Tree.{IsTree, IsLive, IsTree-empty}

inode_ref-some :
    (inodes : ℕ → Inode) (i : ℕ) (node : Inode)
    → inode_ref inodes i ≡ some node
    → (i < 64) × (inodes i ≡ node)
inode_ref-some inodes i node h = ground arith

no_child :
    (inodes : ℕ → Inode) (i : ℕ)
    → is_there (find_from (has_parent inodes i) 64 0) ≡ false
    → (j : ℕ) → IsLive inodes j
    → j ≢ i
    → (inodes j).parent ≢ i
no_child inodes i alone j live ne e =
    let miss =
      find_from_miss (has_parent inodes i) 64 0 (ground (arith, alone)) j (omega arith) live.1 in
    ground (arith, miss, live, ne, e)

-- A file has no children.
file_alone :
    (inodes : ℕ → Inode) (i : ℕ)
    → IsTree inodes
    → (inodes i).kind ≡ 1
    → (j : ℕ) → IsLive inodes j
    → j ≢ i
    → (inodes j).parent ≢ i
file_alone inodes i tree file j live ne e =
    let d = (tree.inside j live).1 in
    let z : (inodes i).kind ≡ 2 = ap (λ k. (inodes k).kind) (sym e) ∙ d in omega arith

module _ {Disk : Type 0} where
  -- How `rmdir` ends: without a change, or with an inode emptied that was a directory without
  -- children.
  rmdir_ind :
      (P : Result FsError (Unit {0}) × State Disk → Type 0) (path : List ℕ) (s : State Disk)
      → ((e : FsError) → P (err e, s))
      → ((i : ℕ)
          → resolve s.inodes path ≡ some i
          → i ≢ 0
          → (s.inodes i).kind ≡ 2
          → ((j : ℕ) → IsLive s.inodes j → j ≢ i → (s.inodes j).parent ≢ i)
          → P (empty_inode i s))
      → P (rmdir path s)
  unfolding rmdir
  rmdir_ind P path s bad good =
      raise_if_ind P (not s.mounted) not_mounted
        (λ _. or_raise (resolve s.inodes path) not_found >>= rmdir_at) s (λ _. bad not_mounted)
        λ _.
          or_raise_ind P (resolve s.inodes path) not_found rmdir_at s (λ _. bad not_found)
            λ i found.
              raise_if_ind P (i == 0) bad_path (λ _. inode_at i not_found >>= rmdir_node i) s
                (λ _. bad bad_path)
                λ low.
                  or_raise_ind P (inode_ref s.inodes i) not_found (rmdir_node i) s
                    (λ _. bad not_found)
                    λ node e.
                      raise_if_ind P (not (node.kind == 2)) not_found
                        (λ _.
                          raise_if (is_there (find_from (has_parent s.inodes i) 64 0)) not_empty
                          >> empty_inode i)
                        s (λ _. bad not_found)
                        λ dir.
                          raise_if_ind P (is_there (find_from (has_parent s.inodes i) 64 0))
                            not_empty (λ _. empty_inode i) s (λ _. bad not_empty)
                            λ alone.
                              good i found (ground (arith, low))
                                (ap (λ (n : Inode). n.kind) (inode_ref-some s.inodes i node e).1
                                  ∙ ground (arith, dir))
                                (no_child s.inodes i alone)

  empty_inode-IsTree :
      (i : ℕ) (s : State Disk)
      → IsTree (update s.inodes i empty)
      → IsTree (empty_inode i s).1.inodes
  empty_inode-IsTree i s tree =
      flush_inodes-Keeps (λ (t : State Disk). IsTree t.inodes) (λ t b w q. q) (set_inode i empty s)
        tree

  -- `rmdir` keeps the tree, whatever it returns.
  pub rmdir-IsTree :
      (path : List ℕ) (s : State Disk) → IsTree s.inodes → IsTree (rmdir path s).1.inodes
  rmdir-IsTree path s tree =
      rmdir_ind (λ (r : Result FsError (Unit {0}) × State Disk). IsTree r.1.inodes) path s
        (λ _. tree)
        λ i found ni dir alone. empty_inode-IsTree i s (IsTree-empty s.inodes tree i ni alone)

  -- What was there when a directory is removed, and what is there then.
  abbrev pub Dropped : List ℕ → State Disk → State Disk → Type 0
  Dropped path s t =
      (i : ℕ) × (resolve s.inodes path ≡ some i)
      × (i ≢ 0)
      × ((s.inodes i).kind ≡ 2)
      × ((j : ℕ) → IsLive s.inodes j → j ≢ i → (s.inodes j).parent ≢ i)
      × (t.inodes ≡ update s.inodes i empty)

  -- Where `rmdir` succeeds, the path named a directory other than the root without children, and
  -- exactly its inode is empty afterwards.
  pub rmdir-Dropped :
      (path : List ℕ) (s : State Disk) → (rmdir path s).0 ≡ ok tt → Dropped path s (rmdir path s).1
  rmdir-Dropped path s =
      rmdir_ind (λ (r : Result FsError (Unit {0}) × State Disk). r.0 ≡ ok tt → Dropped path s r.1)
        path s (λ _ h. cc)
        λ i found ni dir alone done. (
          i,
          found,
          ni,
          dir,
          alone,
          flush_inodes-Keeps (λ (t : State Disk). t.inodes ≡ update s.inodes i empty) (λ t b w q. q)
              (set_inode i empty s) refl,
        )

  free_blocks_of-inodes :
      (blocks : ℕ → ℕ) (n : ℕ) (s : State Disk) → (free_blocks_of blocks n s).inodes ≡ s.inodes
  unfolding free_blocks_of free_block
  free_blocks_of-inodes blocks zero s = refl
  free_blocks_of-inodes blocks (suc n) s =
      if_ind (λ (t : State Disk). t.inodes ≡ s.inodes)
        (bit_get (free_blocks_of blocks n s) (blocks n)) (λ _. free_blocks_of-inodes blocks n s)
        (λ _. free_blocks_of-inodes blocks n s)

  -- `remove` keeps the tree, whatever it returns.
  pub remove-IsTree :
      (index : ℕ) (s : State Disk) → IsTree s.inodes → IsTree (remove index s).1.inodes
  unfolding remove
  remove-IsTree index s tree =
      let P = λ (r : Result FsError (Unit {0}) × State Disk). IsTree r.1.inodes in
      raise_if_ind P (not s.mounted) not_mounted
        (λ _. inode_at index not_found >>= remove_node index) s (λ _. tree)
        λ _.
          or_raise_ind P (inode_ref s.inodes index) not_found (remove_node index) s (λ _. tree)
            λ node e.
              raise_if_ind P (not (node.kind == 1)) not_found
                (λ _.
                  modify (free_blocks_of node.blocks (min (block_count node.size) 40))
                  >> (raise_if (ltb 40 (block_count node.size)) panicked
                      >> (modify (set_inode index empty) >> (flush_inodes >> flush_bitmap))))
                s (λ _. tree)
                λ file.
                  let file' : (s.inodes index).kind ≡ 1 =
                    ap (λ (n : Inode). n.kind) (inode_ref-some s.inodes index node e).1
                    ∙ ground (arith, file) in
                  let n = min (block_count node.size) 40 in
                  let t = free_blocks_of node.blocks n s in
                  let same = free_blocks_of-inodes node.blocks n s in
                  raise_if_ind P (ltb 40 (block_count node.size)) panicked
                    (λ _. modify (set_inode index empty) >> (flush_inodes >> flush_bitmap)) t
                    (λ _. subst IsTree (sym same) tree)
                    λ _.
                      Keeps-bind (λ (u : State Disk). IsTree u.inodes) flush_inodes
                        (λ _. flush_bitmap)
                        (flush_inodes-Keeps (λ (u : State Disk). IsTree u.inodes) (λ t b w q. q))
                        (λ _.
                          flush_bitmap-Keeps (λ (u : State Disk). IsTree u.inodes) (λ t b w q. q))
                        (set_inode index empty t)
                        (subst (λ f. IsTree (update f index empty)) (sym same)
                          (IsTree-empty s.inodes tree index (λ z. root_dir index z file')
                            (file_alone s.inodes index tree file')))
    where
      root_dir : (i : ℕ) → i ≡ 0 → (s.inodes i).kind ≡ 1 → ⊥
      root_dir i z f =
          let k : (s.inodes i).kind ≡ 2 = ap (λ j. (s.inodes j).kind) z ∙ tree.root in omega arith
