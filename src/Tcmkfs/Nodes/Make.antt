-- ===== src/Tcmkfs/Nodes/Make.antt =====
-- `create` and `mkdir` of core/tcmkfs.rs.
use the_cursed_moon_kernel.Prelude.{
  ℕ, ◌<◌, true, false, not, none, some, List, length, ◌≡◌, ap, ◌∙◌, ◌≢◌, arith, option_ind,
  find_from, find_from_hit, update_self, update_ne, update, subst,
}
use the_cursed_moon_kernel.Prelude.Bytes.{nth}
use the_cursed_moon_kernel.Prelude.Action.{
  Result, ok, err, ◌>>=◌, pure, raise_if_ind, lift_ind, Keeps-bind, bind_ind,
}
use the_cursed_moon_kernel.Tcmkfs.Layout.{
  State, Inode, FsError, not_mounted, exists, too_many_files,
}
use the_cursed_moon_kernel.Tcmkfs.Sectors.{Fs, flush_inodes}
use the_cursed_moon_kernel.Tcmkfs.Sectors.Keep.{IsBeside, flush_inodes-Keeps}
use the_cursed_moon_kernel.Tcmkfs.Text.{All, utf8, split, trim_end}
use the_cursed_moon_kernel.Tcmkfs.Names.{
  lookup, dir_and_leaf, resolve, split_parent, is_skipped, child_of,
}
use the_cursed_moon_kernel.Tcmkfs.Names.Parent.{
  dir_path, split_parent-Checked, split_parent_lem, Checked-resolve, Checked-leaf,
}
use the_cursed_moon_kernel.Tcmkfs.Nodes.{
  create, mkdir, entry_size, entry_mtime, entry_kind, fresh, is_vacant, set_inode, allocate_inode,
  is_there, make_at, make_new, make_mounted, make,
}
use the_cursed_moon_kernel.Tcmkfs.Nodes.Tree.{IsTree}
use the_cursed_moon_kernel.Tcmkfs.Nodes.Grow.{
  Joins, grown, grown-IsTree, child_of-grown, walk-stays, dir_stays,
}

-- A `&str` without a 0, part by part.
abbrev pub IsWord : List ℕ → Type 0
IsWord p = (utf8 p ≡ true) × ((k : ℕ) → k < length p → nth p k ≢ 0)

abbrev pub IsText : List ℕ → Type 0
IsText path = All IsWord (split path)

new_child :
    (inodes : ℕ → Inode) (path leaf : List ℕ) (parent : ℕ)
    → resolve inodes path ≡ none
    → split_parent inodes path ≡ ok (parent, leaf)
    → (is_skipped leaf ≡ false) × (child_of inodes parent leaf ≡ none)
new_child inodes path leaf parent h e =
    let seen = split_parent_lem inodes path leaf parent e in ground (arith, seen, h)

-- What `make` has found when it fills an inode.
make-Joins :
    (inodes : ℕ → Inode) (path leaf : List ℕ) (parent i : ℕ)
    → IsText path
    → resolve inodes path ≡ none
    → split_parent inodes path ≡ ok (parent, leaf)
    → is_vacant inodes i ≡ true
    → i < 64
    → Joins inodes i parent leaf
make-Joins inodes path leaf parent i text new e free lt =
    let f = split_parent-Checked inodes path leaf parent e in
    let (plain, word) = Checked-leaf inodes IsWord path leaf parent f text in
    let (visible, absent) = new_child inodes path leaf parent new e in
    record {
      not_root = ground (arith, free);
      below = lt;
      vacant = ground (arith, free);
      dir_below = f.5;
      dir = f.6;
      visible = visible;
      plain = plain;
      fits = (f.2, word.0, word.1);
      new = absent;
    }

-- What the path leads to in the new table.
resolve-grown :
    (now kind : ℕ) (path : List ℕ) (inodes : ℕ → Inode) (i parent : ℕ) (leaf : List ℕ)
    → kind ≢ 0
    → IsTree inodes
    → split_parent inodes path ≡ ok (parent, leaf)
    → Joins inodes i parent leaf
    → resolve (update inodes i (fresh now parent leaf kind)) path ≡ some i
resolve-grown now kind path inodes i parent leaf used tree h joins =
    let new = grown inodes tree i parent now kind leaf joins used in
    let f = split_parent-Checked inodes path leaf parent h in
    let again : resolve new (dir_path inodes (dir_and_leaf (trim_end path)).0) ≡ some parent =
      unfold resolve in
      walk-stays inodes tree i parent now kind leaf joins used
        (split (dir_path inodes (dir_and_leaf (trim_end path)).0)) 0 0 parent
        (unfold resolve in f.4) in
    let seen = Checked-resolve new path leaf parent (
      f.0,
      f.1,
      f.2,
      f.3,
      again,
      f.5,
      dir_stays inodes tree i parent now kind leaf joins used parent f.6,
    ) in
    seen ∙ rw joins.visible (child_of-grown inodes tree i parent now kind leaf joins used)

module _ {Disk : Type 0} (now kind : ℕ) (path : List ℕ) (text : IsText path) (used : kind ≢ 0) where
  -- The end of `make`, once the inode is chosen.
  abbrev fill : ℕ → ℕ → List ℕ → Fs Disk ℕ
  fill i parent leaf s = (flush_inodes >>= λ _. pure i) (set_inode i (fresh now parent leaf kind) s)

  -- How `make` ends: without a change, or by filling an inode and writing the table.
  make_ind :
      (P : Result FsError ℕ × State Disk → Type 0) (s : State Disk)
      → ((e : FsError) → P (err e, s))
      → ((i parent : ℕ) (leaf : List ℕ)
          → split_parent s.inodes path ≡ ok (parent, leaf)
          → Joins s.inodes i parent leaf
          → P (fill i parent leaf s))
      → P (make kind now path s)
  unfolding make allocate_inode
  make_ind P s bad good =
      raise_if_ind P (not s.mounted) not_mounted (λ _. make_mounted kind now path) s
        (λ _. bad not_mounted)
        λ up.
          raise_if_ind P (is_there (resolve s.inodes path)) exists (λ _. make_new kind now path) s
            (λ _. bad exists)
            λ new.
              lift_ind P (split_parent s.inodes path) (make_at kind now) s (λ e _. bad e)
                λ (parent, leaf) h.
                  option_ind (λ (r : Result FsError ℕ × State Disk). P (finish r))
                    (find_from (is_vacant s.inodes) 64 0) (λ _. bad too_many_files)
                    λ i e.
                      let (free, _, lt, _) = find_from_hit (is_vacant s.inodes) 64 0 i e in
                      good i parent leaf h (
                        make-Joins s.inodes path leaf parent i text (ground (arith, new)) h free lt)
    where
      finish : Result FsError ℕ × State Disk → Result FsError ℕ × State Disk
      finish (r, t) = elim r [ ok i ↦ (flush_inodes >>= λ _. pure i) t | err e ↦ (err e, t) ]

  -- A property of the tables is kept by the end of `make`.
  fill_ind :
      (P : State Disk → Type 0) (i parent : ℕ) (leaf : List ℕ) (s : State Disk)
      → IsBeside P
      → P (set_inode i (fresh now parent leaf kind) s)
      → P (fill i parent leaf s).1
  fill_ind P i parent leaf s beside p =
      Keeps-bind P flush_inodes (λ _. pure i) (flush_inodes-Keeps P beside) (λ _ t q. q)
        (set_inode i (fresh now parent leaf kind) s) p

  fill-ok :
      (i j parent : ℕ) (leaf : List ℕ) (s : State Disk) → (fill i parent leaf s).0 ≡ ok j → i ≡ j
  fill-ok i j parent leaf s =
      bind_ind (λ (r : Result FsError ℕ × State Disk). r.0 ≡ ok j → i ≡ j) flush_inodes
        (λ _. pure i) (set_inode i (fresh now parent leaf kind) s) (λ _ _ h. cc) (λ e _ h. cc)

  pub make-IsTree : (s : State Disk) → IsTree s.inodes → IsTree (make kind now path s).1.inodes
  make-IsTree s tree =
      make_ind (λ (r : Result FsError ℕ × State Disk). IsTree r.1.inodes) s (λ e. tree)
        λ i parent leaf h joins.
          fill_ind (λ (t : State Disk). IsTree t.inodes) i parent leaf s (λ t b w q. q)
            (grown-IsTree s.inodes tree i parent now kind leaf joins used)

  -- What `make` promises of the table when it returns an inode.
  abbrev pub Made : State Disk → ℕ → State Disk → Type 0
  Made s i t =
      (resolve t.inodes path ≡ some i)
      × ((t.inodes i).kind ≡ kind)
      × ((t.inodes i).size ≡ 0)
      × ((t.inodes i).mtime ≡ now)
      × ((k : ℕ) → k ≢ i → t.inodes k ≡ s.inodes k)
      × ((s.inodes i).kind ≡ 0)
      × (i < 64)

  filled :
      (s : State Disk) (i parent : ℕ) (leaf : List ℕ)
      → IsTree s.inodes
      → split_parent s.inodes path ≡ ok (parent, leaf)
      → Joins s.inodes i parent leaf
      → Made s i (set_inode i (fresh now parent leaf kind) s)
  filled s i parent leaf tree h joins =
      let node = fresh now parent leaf kind in
      let here = update_self s.inodes i node in
      (
        resolve-grown now kind path s.inodes i parent leaf used tree h joins,
        ap (λ (n : Inode). n.kind) here,
        ap (λ (n : Inode). n.size) here,
        ap (λ (n : Inode). n.mtime) here,
        λ k ne. update_ne s.inodes i node k ne,
        joins.vacant,
        joins.below,
      )

  pub make-Made :
      (s : State Disk) (i : ℕ)
      → IsTree s.inodes
      → (make kind now path s).0 ≡ ok i
      → Made s i (make kind now path s).1
  make-Made s i tree =
      make_ind (λ (r : Result FsError ℕ × State Disk). r.0 ≡ ok i → Made s i r.1) s (λ e h. cc)
        λ j parent leaf h joins done.
          fill_ind (Made s i) j parent leaf s (λ t b w q. q)
            (subst (λ k. Made s k (set_inode j (fresh now parent leaf kind) s))
              (fill-ok j i parent leaf s done) (filled s j parent leaf tree h joins))

-- `create` and `mkdir` with a path of whole characters without 0 keep the inode table a tree,
-- whatever they return and whatever the disk does: inode 0 is a directory, every inode in use has a
-- directory as its parent and a plain visible name, and no two of one parent have the same name.
pub create-mkdir-IsTree :
    {Disk : Type 0} (now : ℕ) (path : List ℕ) (s : State Disk)
    → IsText path
    → IsTree s.inodes
    → IsTree (create now path s).1.inodes × IsTree (mkdir now path s).1.inodes
unfolding create mkdir
create-mkdir-IsTree now path s text tree = (
  make-IsTree now 1 path text (λ e. omega arith) s tree,
  make-IsTree now 2 path text (λ e. omega arith) s tree,
)

lookup_file :
    (inodes : ℕ → Inode) (path : List ℕ) (i : ℕ)
    → resolve inodes path ≡ some i
    → i < 64
    → (inodes i).kind ≡ 1
    → lookup inodes path ≡ some i
unfolding lookup
lookup_file inodes path i h lt k = ground arith

entries :
    (inodes : ℕ → Inode) (i : ℕ)
    → i < 64
    → (inodes i).kind ≡ 1
    → (entry_size inodes i ≡ some (inodes i).size) × (entry_mtime inodes i ≡ some (inodes i).mtime)
unfolding entry_size entry_mtime
entries inodes i lt k = ground arith

-- In a table that is a tree, a file that `create` returns for a path of whole characters without 0
-- is found under this path, has size 0 and the current time, stands in an inode that was unused,
-- and every other inode is as it was.
pub create-lookup :
    {Disk : Type 0} (now : ℕ) (path : List ℕ) (s : State Disk) (i : ℕ)
    → IsText path
    → IsTree s.inodes
    → (create now path s).0 ≡ ok i
    → (lookup (create now path s).1.inodes path ≡ some i)
      × (entry_size (create now path s).1.inodes i ≡ some 0)
      × (entry_mtime (create now path s).1.inodes i ≡ some now)
      × (entry_kind s.inodes i ≡ none)
      × ((k : ℕ) → k ≢ i → (create now path s).1.inodes k ≡ s.inodes k)
unfolding create entry_kind
create-lookup now path s i text tree h =
    let m = make-Made now 1 path text (λ e. omega arith) s i tree h in
    let t = (create now path s).1.inodes in
    let (size, mtime) = entries t i m.6 m.1 in
    (
      lookup_file t path i m.0 m.6 m.1,
      size ∙ ap some m.2,
      mtime ∙ ap some m.3,
      ground (arith, m.5, m.6),
      m.4,
    )
