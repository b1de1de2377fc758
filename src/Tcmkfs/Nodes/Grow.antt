-- ===== src/Tcmkfs/Nodes/Grow.antt =====
-- The tree of core/tcmkfs.rs after `allocate_inode`.
use the_cursed_moon_kernel.Prelude.{
  ℕ, ◌+◌, ◌≤◌, ◌<◌, true, false, Option, none, some, List, [], ◌∷◌, update, ◌≡◌, refl, ap, sym, ◌∙◌,
  ◌≢◌, ◌⊎◌, inl, inr, arith, ℕ_discrete, eq→==, ne→==, update_self, update_ne, find_from,
  find_from_miss, find_from_hit, find_from_ext, Bool-cases, Option-cases,
}
use the_cursed_moon_kernel.Prelude.Bytes.{same_bytes_refl}
use the_cursed_moon_kernel.Tcmkfs.Layout.{Inode}
use the_cursed_moon_kernel.Tcmkfs.Text.{is_empty}
use the_cursed_moon_kernel.Tcmkfs.Names.{name_of, is_skipped, is_child, child_of, descend, walk}
use the_cursed_moon_kernel.Tcmkfs.Names.Split.{IsPlain}
use the_cursed_moon_kernel.Tcmkfs.Names.Walk.{
  walk_skip, walk_part, go_on, descend-Descends, Descends-descend,
}
use the_cursed_moon_kernel.Tcmkfs.Nodes.{fresh}
use the_cursed_moon_kernel.Tcmkfs.Nodes.Tree.{
  IsLive, IsTree, Fits, is_child-IsLive, name_of-fresh, absent, visible_not_empty,
}

-- A free inode, a directory, and a name that no child of it has.
pub record Joins (inodes : ℕ → Inode) (i parent : ℕ) (name : List ℕ) : Type 0 where
  pub not_root : i ≢ 0
  pub below : i < 64
  pub vacant : (inodes i).kind ≡ 0
  pub dir_below : parent < 64
  pub dir : (inodes parent).kind ≡ 2
  pub visible : is_skipped name ≡ false
  pub plain : IsPlain name
  pub fits : Fits name
  pub new : child_of inodes parent name ≡ none

module _ (inodes : ℕ → Inode) (tree : IsTree inodes) (i parent now kind : ℕ) (name : List ℕ)
    (joins : Joins inodes i parent name) (used : kind ≢ 0) where
  abbrev pub grown : ℕ → Inode
  grown = update inodes i (fresh now parent name kind)

  here : grown i ≡ fresh now parent name kind
  here = update_self inodes i (fresh now parent name kind)

  there : (j : ℕ) → j ≢ i → grown j ≡ inodes j
  there j ne = update_ne inodes i (fresh now parent name kind) j ne

  -- A directory is not the free inode.
  dir_ne : (j : ℕ) → (inodes j).kind ≡ 2 → j ≢ i
  dir_ne j d e =
      let z : (inodes j).kind ≡ 0 = ap (λ k. (inodes k).kind) e ∙ joins.vacant in omega arith

  -- An inode in use is the new one or was in use.
  abbrev Origin : ℕ → Type 0
  Origin j =
      ((j ≡ i) × (grown j ≡ fresh now parent name kind))
      ⊎ ((j ≢ i) × IsLive inodes j × (grown j ≡ inodes j))

  origin : (j : ℕ) → IsLive grown j → Origin j
  origin j live = elim (ℕ_discrete j i) [
    | yes e ↦ inl (e, ap grown e ∙ here)
    | no ne ↦
        let old = there j ne in
        inr (ne, (live.0, live.1, λ e. live.2 (ap (λ (n : Inode). n.kind) old ∙ e)), old)
  ]

  abbrev Inside : Inode → Type 0
  Inside n = (n.parent < 64) × ((grown n.parent).kind ≡ 2)

  pub dir_stays : (j : ℕ) → (inodes j).kind ≡ 2 → (grown j).kind ≡ 2
  dir_stays j d = ap (λ (n : Inode). n.kind) (there j (dir_ne j d)) ∙ d

  abbrev up_of : Inode → ℕ
  up_of n = n.parent

  abbrev Named : Inode → Type 0
  Named n = (is_skipped (name_of n) ≡ false) × IsPlain (name_of n)

  fresh-Named : Named (fresh now parent name kind)
  fresh-Named = rw (name_of-fresh now parent kind name joins.fits) (joins.visible, joins.plain)

  -- No old inode has the place and the name of the new one.
  apart :
      (j k : ℕ)
      → (grown j ≡ fresh now parent name kind)
      → IsLive inodes k
      → grown k ≡ inodes k
      → (grown j).parent ≡ (grown k).parent
      → name_of (grown j) ≡ name_of (grown k)
      → ⊥
  apart j k new live old p n =
      absent inodes tree parent k name joins.visible joins.new live
        (sym (ap up_of old) ∙ sym p ∙ ap up_of new)
        (sym (ap name_of old)
          ∙ sym n
          ∙ ap name_of new
          ∙ name_of-fresh now parent kind name joins.fits)

  pub grown-IsTree : IsTree grown
  grown-IsTree = record {
    root = dir_stays 0 tree.root;
    inside = λ j live. elim (origin j live) [
      | inl (e, new) ↦ rw new (joins.dir_below, dir_stays parent joins.dir)
      | inr (ne, l, old) ↦
          rw old ((tree.inside j l).0, dir_stays (inodes j).parent (tree.inside j l).1)
    ];
    named = λ j live. elim (origin j live) [
      | inl (e, new) ↦ rw new fresh-Named
      | inr (ne, l, old) ↦ rw old (tree.named j l)
    ];
    unique = λ j k lj lk p n. elim (origin j lj) [
      | inl (e, new) ↦ elim (origin k lk) [
        | inl (e', _) ↦ e ∙ sym e'
        | inr (_, l, old) ↦ absurd (apart j k new l old p n)
      ]
      | inr (_, l, old) ↦ elim (origin k lk) [
        | inl (_, new) ↦ absurd (apart k j new l old (sym p) (sym n))
        | inr (_, m, old') ↦
            tree.unique j k l m (sym (ap up_of old) ∙ p ∙ ap up_of old')
              (sym (ap name_of old) ∙ n ∙ ap name_of old')
      ]
    ];
  }

  found_here :
      (k : ℕ)
      → ((is_child grown parent name k ≡ true)
          × (0 ≤ k)
          × (k < 64)
          × ((j : ℕ) → 0 ≤ j → j < k → is_child grown parent name j ≡ false))
      → k ≡ i
  found_here k h =
      let (live, up, called) = is_child-IsLive grown parent k name h.0 h.2 in
      grown-IsTree.unique k i live (joins.not_root, joins.below, rw here used)
        (up ∙ sym (ap up_of here))
        (called ∙ sym (ap name_of here ∙ name_of-fresh now parent kind name joins.fits))

  same_child :
      (dir : ℕ) (part : List ℕ) (k j : ℕ)
      → child_of inodes dir part ≡ some k
      → is_child grown dir part j ≡ is_child inodes dir part j
  same_child dir part k j h = elim (ℕ_discrete j i) [
    | no ne ↦ rw (there j ne) refl
    | yes e ↦ elim (Bool-cases (is_child grown dir part i)) [
      | inl t ↦
          let (live, up, called) = is_child-IsLive grown dir i part t joins.below in
          let d : parent ≡ dir = sym (ap up_of here) ∙ up in
          let n : name ≡ part =
            sym (ap name_of here ∙ name_of-fresh now parent kind name joins.fits) ∙ called in
          let none_found : child_of inodes dir part ≡ none = rw (← d, ← n) joins.new in cc
      | inr t ↦ rw e (t ∙ ground (arith, joins.vacant))
    ]
  ]

  -- The new inode is found under its name.
  pub child_of-grown : child_of grown parent name ≡ some i
  unfolding child_of
  child_of-grown =
      let fresh_name = name_of-fresh now parent kind name joins.fits in
      let hit : is_child grown parent name i ≡ true =
        rw (here, eq→== parent parent refl, ne→== kind 0 used, ne→== i 0 joins.not_root, fresh_name)
          (same_bytes_refl name) in
      rw (visible_not_empty name joins.visible)
        (elim (Option-cases (find_from (is_child grown parent name) 64 0)) [
          | inl e ↦
              let miss =
                find_from_miss (is_child grown parent name) 64 0 e i (omega arith) joins.below in
              cc
          | inr (k, e) ↦ e ∙ ap some (found_here k (find_from_hit _ 64 0 k e))
        ])

  -- What was found before is found again.
  child_of-stays :
      (dir : ℕ) (part : List ℕ) (k : ℕ)
      → child_of inodes dir part ≡ some k
      → child_of grown dir part ≡ some k
  unfolding child_of
  child_of-stays dir part k h = elim (Bool-cases (is_empty part)) [
    | inl e ↦ rw e (rw e at h)
    | inr e ↦ rw e (
        find_from_ext (is_child grown dir part) (is_child inodes dir part) 64 0
          (λ j _ _. same_child dir part k j h)
        ∙ rw e at h)
  ]

  descend-stays :
      (part : List ℕ) (current depth k : ℕ)
      → descend inodes part current depth ≡ some k
      → descend grown part current depth ≡ some k
  descend-stays part current depth k h =
      let (shallow, lt, d, found) = descend-Descends inodes part current depth k h in
      Descends-descend grown part current depth k
        (shallow, lt, dir_stays current d, child_of-stays current part k found)

  pub walk-stays :
      (ps : List (List ℕ)) (current depth k : ℕ)
      → walk inodes ps current depth ≡ some k
      → walk grown ps current depth ≡ some k
  walk-stays [] current depth k h = unfold walk in h
  walk-stays (p ∷ ps) current depth k h = elim (Bool-cases (is_skipped p)) [
    | inl e ↦
        walk_skip grown p ps current depth e
        ∙ walk-stays ps current depth k (sym (walk_skip inodes p ps current depth e) ∙ h)
    | inr e ↦
        walk_part grown p ps current depth e
        ∙ resume (descend inodes p current depth) (descend-stays p current depth)
            (λ c. walk-stays ps c (depth + 1) k) (sym (walk_part inodes p ps current depth e) ∙ h)
  ]
    where
      resume :
          (o : Option ℕ)
          → ((c : ℕ) → o ≡ some c → descend grown p current depth ≡ some c)
          → ((c : ℕ) → walk inodes ps c (depth + 1) ≡ some k → walk grown ps c (depth + 1) ≡ some k)
          → go_on inodes ps (depth + 1) o ≡ some k
          → go_on grown ps (depth + 1) (descend grown p current depth) ≡ some k
      resume none step ih q = cc
      resume (some c) step ih q = rw (step c refl) (ih c q)
