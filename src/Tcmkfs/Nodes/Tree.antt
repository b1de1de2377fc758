-- ===== src/Tcmkfs/Nodes/Tree.antt =====
-- The tree that the inode table of core/tcmkfs.rs stands for, and its growth and loss of an inode.
use the_cursed_moon_kernel.Prelude.{
  ℕ, ◌<◌, true, false, none, List, [], ◌∷◌, length, update, ◌≡◌, refl, ap, sym, ◌∙◌, ◌≢◌, arith,
  ℕ_discrete, eq→==, update_ne, find_from, find_from_miss,
}
use the_cursed_moon_kernel.Prelude.Bytes.{
  nth, same_bytes, same_bytes_refl, same_bytes→eq, until_zero-slice,
}
use the_cursed_moon_kernel.Tcmkfs.Layout.{Inode, empty}
use the_cursed_moon_kernel.Tcmkfs.Text.{utf8, is_empty}
use the_cursed_moon_kernel.Tcmkfs.Names.{name_of, is_skipped, is_child, child_of}
use the_cursed_moon_kernel.Tcmkfs.Names.Split.{IsPlain}
use the_cursed_moon_kernel.Tcmkfs.Nodes.{fresh}

-- An inode in use other than the root.
abbrev pub IsLive : (ℕ → Inode) → ℕ → Type 0
IsLive inodes i = (i ≢ 0) × (i < 64) × ((inodes i).kind ≢ 0)

-- The root is a directory, every other inode in use stands in a directory under a name that a path
-- can reach, and no two stand there under one name.
pub record IsTree (inodes : ℕ → Inode) : Type 0 where
  pub root : (inodes 0).kind ≡ 2
  pub inside :
      (i : ℕ) → IsLive inodes i → ((inodes i).parent < 64) × ((inodes (inodes i).parent).kind ≡ 2)
  pub named :
      (i : ℕ)
      → IsLive inodes i
      → (is_skipped (name_of (inodes i)) ≡ false) × IsPlain (name_of (inodes i))
  pub unique :
      (i j : ℕ)
      → IsLive inodes i
      → IsLive inodes j
      → (inodes i).parent ≡ (inodes j).parent
      → name_of (inodes i) ≡ name_of (inodes j)
      → i ≡ j

-- A name that an inode keeps whole: text without a 0, shorter than the field.
abbrev pub Fits : List ℕ → Type 0
Fits name = (length name < 64) × (utf8 name ≡ true) × ((k : ℕ) → k < length name → nth name k ≢ 0)

pub name_of-fresh :
    (now parent kind : ℕ) (name : List ℕ) → Fits name → name_of (fresh now parent name kind) ≡ name
unfolding name_of
name_of-fresh now parent kind name (short, text, whole) =
    rw (until_zero-slice name 64 short whole, text) refl

pub visible_not_empty : (name : List ℕ) → is_skipped name ≡ false → is_empty name ≡ false
visible_not_empty [] h = cc
visible_not_empty (c ∷ cs) h = refl

-- What the test of `child_of` finds.
pub is_child-IsLive :
    (inodes : ℕ → Inode) (parent k : ℕ) (name : List ℕ)
    → is_child inodes parent name k ≡ true
    → k < 64
    → IsLive inodes k × ((inodes k).parent ≡ parent) × (name_of (inodes k) ≡ name)
is_child-IsLive inodes parent k name h lt =
    let same : same_bytes (name_of (inodes k)) name ≡ true = ground (arith, h) in
    (
      (ground (arith, h), lt, ground (arith, h)),
      ground (arith, h),
      same_bytes→eq (name_of (inodes k)) name same,
    )

module _ (inodes : ℕ → Inode) (tree : IsTree inodes) where
  -- What no child of a directory is called.
  pub absent :
      (parent j : ℕ) (name : List ℕ)
      → is_skipped name ≡ false
      → child_of inodes parent name ≡ none
      → IsLive inodes j
      → (inodes j).parent ≡ parent
      → name_of (inodes j) ≢ name
  unfolding child_of
  absent parent j name visible none_found live up e =
      let search : find_from (is_child inodes parent name) 64 0 ≡ none =
        rw (visible_not_empty name visible) at none_found in
      let miss = find_from_miss (is_child inodes parent name) 64 0 search j (omega arith) live.1 in
      let same : same_bytes (name_of (inodes j)) name ≡ true = rw e (same_bytes_refl name) in
      ground (arith, miss, same, live, up)

  -- An inode that is in use after one was emptied.
  kept :
      (i j : ℕ)
      → IsLive (update inodes i empty) j
      → (j ≢ i) × IsLive inodes j × (update inodes i empty j ≡ inodes j)
  kept i j live = elim (ℕ_discrete j i) [
    | yes e ↦ absurd (live.2 (rw (eq→== j i e) refl))
    | no ne ↦
        let old = update_ne inodes i empty j ne in
        (ne, (live.0, live.1, λ e. live.2 (ap (λ (n : Inode). n.kind) old ∙ e)), old)
  ]

  -- An inode without children is emptied.
  pub IsTree-empty :
      (i : ℕ)
      → i ≢ 0
      → ((j : ℕ) → IsLive inodes j → j ≢ i → (inodes j).parent ≢ i)
      → IsTree (update inodes i empty)
  IsTree-empty i ni alone = record {
    root = rw (update_ne inodes i empty 0 (λ e. ni (sym e))) tree.root;
    inside = λ j live.
        let (ne, l, old) = kept i j live in
        let other = update_ne inodes i empty (inodes j).parent (alone j l ne) in
        rw (old, other) (tree.inside j l);
    named = λ j live. let (ne, l, old) = kept i j live in rw old (tree.named j l);
    unique = λ j k lj lk p n.
        let (_, l, oj) = kept i j lj in
        let (_, m, ok) = kept i k lk in
        tree.unique j k l m
          (sym (ap (λ (n : Inode). n.parent) oj) ∙ p ∙ ap (λ (n : Inode). n.parent) ok)
          (sym (ap name_of oj) ∙ n ∙ ap name_of ok);
  }
