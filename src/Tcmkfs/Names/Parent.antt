-- ===== src/Tcmkfs/Names/Parent.antt =====
-- What `split_parent` of core/tcmkfs.rs finds: the directory that a path leads to before its last
-- part.
use the_cursed_moon_kernel.Prelude.{
  ℕ, ◌+◌, ◌≤◌, ◌<◌, false, not, ◌||◌, ◌==◌, ltb, leb, if◌then◌else◌, Option, none, some, List, [],
  ◌∷◌, ◌++◌, length, ◌≡◌, refl, ap, sym, ◌∙◌, inl, inr, arith, Bool-cases, if_ind, option_ind,
  subst, append_assoc,
}
use the_cursed_moon_kernel.Prelude.Action.{Result, ok, err}
use the_cursed_moon_kernel.Tcmkfs.Layout.{Inode, FsError}
use the_cursed_moon_kernel.Tcmkfs.Text.{All, slash, is_empty, split, trim_end, split_last}
use the_cursed_moon_kernel.Tcmkfs.Names.{
  inode_ref, is_skipped, child_of, descend, walk, resolve, count_parts, dir_and_leaf, split_parent,
}
use the_cursed_moon_kernel.Tcmkfs.Names.Split.{
  IsPlain, AreEmpty, All-append_right, Last, split-append, split_plain, split_last-Last,
  trim_end-Trimmed,
}
use the_cursed_moon_kernel.Tcmkfs.Names.Walk.{
  walk-append, walk-AreEmpty, walk_part, walk_skip, go_on,
}

abbrev fst_of : ℕ → Result FsError (ℕ × List ℕ) → ℕ
fst_of d (ok (p, l)) = p
fst_of d (err e) = d

abbrev snd_of : List ℕ → Result FsError (ℕ × List ℕ) → List ℕ
snd_of d (ok (p, l)) = l
snd_of d (err e) = d

count_parts-append :
    (ps qs : List (List ℕ)) → count_parts (ps ++ qs) ≡ count_parts ps + count_parts qs
unfolding count_parts
count_parts-append [] qs = omega arith
count_parts-append (p ∷ ps) qs = omega (arith, count_parts-append ps qs)

room :
    (leaf : List ℕ) (n : ℕ) → is_skipped leaf ≡ false → n + count_parts (leaf ∷ []) ≤ 8 → 0 + n < 8
unfolding count_parts
room leaf n e h = let one : n + (1 + 0) ≤ 8 = rw e at h in omega arith

module _ (inodes : ℕ → Inode) where
  -- The path that `split_parent` resolves.
  abbrev pub dir_path : List ℕ → List ℕ
  dir_path dir = if is_empty dir then slash ∷ [] else dir

  -- The parts before the leaf, along which the directory is found.
  abbrev Parted : List ℕ → List ℕ × List ℕ → Type 0
  Parted t (dir, leaf) =
      (ps : List (List ℕ)) × (split t ≡ ps ++ leaf ∷ [])
      × (resolve inodes (dir_path dir) ≡ walk inodes ps 0 0)
      × IsPlain leaf

  parted :
      (t : List ℕ) (o : Option (List ℕ × List ℕ))
      → Last t o
      → Parted t (elim o [ none ↦ ([], t) | some parts ↦ parts ])
  unfolding resolve split walk
  parted t none h = ([], split_plain t h, refl, h)
  parted t (some ([], leaf)) h =
      ([] ∷ [], ap split h.0 ∙ ap (◌∷◌ []) (split_plain leaf h.1), refl, h.1)
  parted t (some (c ∷ dir, leaf)) h = (
    split (c ∷ dir),
    ap split h.0
        ∙ split-append (c ∷ dir) leaf
        ∙ ap (λ l. split (c ∷ dir) ++ l) (split_plain leaf h.1),
    refl,
    h.1,
  )

  dir_and_leaf-Parted : (t : List ℕ) → Parted t (dir_and_leaf t)
  unfolding dir_and_leaf
  dir_and_leaf-Parted t = parted t (split_last t) (split_last-Last t)

  inode_ref-some :
      (i : ℕ) (node : Inode) → inode_ref inodes i ≡ some node → (i < 64) × (inodes i ≡ node)
  inode_ref-some i node h = ground arith

  -- The checks of `split_parent`, passed.
  abbrev pub Checked : List ℕ → ℕ → List ℕ → Type 0
  Checked path parent leaf =
      (leaf ≡ (dir_and_leaf (trim_end path)).1)
      × (is_empty leaf ≡ false)
      × (length leaf < 64)
      × (count_parts (split (trim_end path)) ≤ 8)
      × (resolve inodes (dir_path (dir_and_leaf (trim_end path)).0) ≡ some parent)
      × (parent < 64)
      × ((inodes parent).kind ≡ 2)

  pub split_parent-Checked :
      (path leaf : List ℕ) (parent : ℕ)
      → split_parent inodes path ≡ ok (parent, leaf)
      → Checked path parent leaf
  unfolding split_parent
  split_parent-Checked path leaf parent =
      let t = trim_end path in
      let dir = (dir_and_leaf t).0 in
      let l = (dir_and_leaf t).1 in
      let P =
        λ (r : Result FsError (ℕ × List ℕ)). r ≡ ok (parent, leaf) → Checked path parent leaf in
      if_ind P (is_empty l || leb 64 (length l)) (λ _ h. cc)
        λ fits.
          if_ind P (ltb 8 (count_parts (split t))) (λ _ h. cc)
            λ shallow.
              option_ind P (resolve inodes (dir_path dir)) (λ _ h. cc)
                λ q e.
                  option_ind P (inode_ref inodes q) (λ _ h. cc)
                    λ node n.
                      if_ind P (not (node.kind == 2)) (λ _ h. cc)
                        λ d h. (
                          sym (ap (snd_of leaf) h),
                          rw (sym (ap (snd_of leaf) h)) (ground (arith, fits)),
                          rw (sym (ap (snd_of leaf) h)) (ground (arith, fits)),
                          ground (arith, shallow),
                          e ∙ ap some (ap (fst_of parent) h),
                          rw (← ap (fst_of parent) h) (inode_ref-some q node n).0,
                          ap (λ i. (inodes i).kind) (sym (ap (fst_of parent) h))
                              ∙ ap (λ (m : Inode). m.kind) (inode_ref-some q node n).1
                              ∙ ground (arith, d),
                        )

  -- Behind a walk, parts that are skipped, and a last part.
  go_on_empty :
      (bs : List (List ℕ)) (depth : ℕ) (o : Option ℕ) → AreEmpty bs → go_on inodes bs depth o ≡ o
  go_on_empty bs depth none h = refl
  go_on_empty bs depth (some c) h = walk-AreEmpty inodes bs c depth h

  walk_leaf :
      (leaf : List ℕ) (parent depth : ℕ)
      → parent < 64
      → (inodes parent).kind ≡ 2
      → (is_skipped leaf ≡ false → depth < 8)
      → walk inodes (leaf ∷ []) parent depth
        ≡ (if is_skipped leaf then some parent else child_of inodes parent leaf)
  unfolding descend
  walk_leaf leaf parent depth lt dir shallow = elim (Bool-cases (is_skipped leaf)) [
    | inl e ↦
        walk_skip inodes leaf [] parent depth e
        ∙ walk-AreEmpty inodes [] parent depth tt
        ∙ rw e refl
    | inr e ↦
        walk_part inodes leaf [] parent depth e
        ∙ go_on_empty [] (depth + 1) (descend inodes leaf parent depth) tt
        ∙ rw e (ground (arith, shallow e))
  ]

  pub Checked-resolve :
      (path leaf : List ℕ) (parent : ℕ)
      → Checked path parent leaf
      → resolve inodes path ≡ (if is_skipped leaf then some parent else child_of inodes parent leaf)
  unfolding resolve
  Checked-resolve path leaf parent f =
      let t = trim_end path in
      let (bs, whole, blank) = trim_end-Trimmed path in
      let (ps, parts, found, plain) = dir_and_leaf-Parted t in
      let last : split t ≡ ps ++ leaf ∷ [] = parts ∙ ap (λ l. ps ++ l ∷ []) (sym f.0) in
      let way : walk inodes ps 0 0 ≡ some parent = sym found ∙ f.4 in
      let deep : count_parts ps + count_parts (leaf ∷ []) ≤ 8 =
        omega (arith, f.3, ap count_parts last, count_parts-append ps (leaf ∷ [])) in
      ap (λ l. walk inodes l 0 0) whole
      ∙ walk-append inodes (split t) bs 0 0
      ∙ go_on_empty bs (0 + count_parts (split t)) (walk inodes (split t) 0 0) blank
      ∙ ap (λ l. walk inodes l 0 0) last
      ∙ walk-append inodes ps (leaf ∷ []) 0 0
      ∙ ap (go_on inodes (leaf ∷ []) (0 + count_parts ps)) way
      ∙ walk_leaf leaf parent (0 + count_parts ps) f.5 f.6 (λ e. room leaf (count_parts ps) e deep)

  -- The directory of a path is there, and the path leads to its child of the last name.
  pub split_parent_lem :
      (path leaf : List ℕ) (parent : ℕ)
      → split_parent inodes path ≡ ok (parent, leaf)
      → resolve inodes path ≡ (if is_skipped leaf then some parent else child_of inodes parent leaf)
  split_parent_lem path leaf parent h =
      Checked-resolve path leaf parent (split_parent-Checked path leaf parent h)

  -- The last name has no slash, and is one of the parts of the path.
  pub Checked-leaf :
      (P : List ℕ → Type 0) (path leaf : List ℕ) (parent : ℕ)
      → Checked path parent leaf
      → All P (split path)
      → IsPlain leaf × P leaf
  Checked-leaf P path leaf parent f all =
      let (bs, whole, blank) = trim_end-Trimmed path in
      let (ps, parts, found, plain) = dir_and_leaf-Parted (trim_end path) in
      let spread : split path ≡ (ps ++ (dir_and_leaf (trim_end path)).1 ∷ []) ++ bs =
        whole ∙ ap (λ l. l ++ bs) parts in
      let l = (dir_and_leaf (trim_end path)).1 in
      let two : All P (ps ++ l ∷ bs) = subst (All P) (spread ∙ append_assoc ps (l ∷ []) bs) all in
      rw f.0 (plain, (All-append_right P ps (l ∷ bs) two).0)
