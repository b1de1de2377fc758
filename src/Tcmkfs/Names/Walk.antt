-- ===== src/Tcmkfs/Names/Walk.antt =====
-- The walk of `resolve` in core/tcmkfs.rs along the parts of a path.
use the_cursed_moon_kernel.Prelude.{
  ℕ, ◌+◌, ◌<◌, true, false, if◌then◌else◌, Option, none, some, List, [], ◌∷◌, ◌++◌, ◌≡◌, refl, ap,
  ◌∙◌, inl, inr, arith, Bool-cases,
}
use the_cursed_moon_kernel.Tcmkfs.Layout.{Inode}
use the_cursed_moon_kernel.Tcmkfs.Names.{is_skipped, child_of, descend, walk, count_parts}
use the_cursed_moon_kernel.Tcmkfs.Names.Split.{AreEmpty}

-- Parts that the walk skips do not show.
unfoldable pub visible : List (List ℕ) → List (List ℕ)
visible [] = []
visible (p ∷ ps) = let rest = visible ps in if is_skipped p then rest else p ∷ rest

module _ (inodes : ℕ → Inode) where
  pub walk_skip :
      (p : List ℕ) (ps : List (List ℕ)) (current depth : ℕ)
      → is_skipped p ≡ true
      → walk inodes (p ∷ ps) current depth ≡ walk inodes ps current depth
  unfolding walk
  walk_skip p ps current depth e = rw (e, walk) refl

  -- A walk goes on from what another one found.
  abbrev pub go_on : List (List ℕ) → ℕ → Option ℕ → Option ℕ
  go_on qs depth none = none
  go_on qs depth (some c) = walk inodes qs c depth

  pub walk_part :
      (p : List ℕ) (ps : List (List ℕ)) (current depth : ℕ)
      → is_skipped p ≡ false
      → walk inodes (p ∷ ps) current depth ≡ go_on ps (depth + 1) (descend inodes p current depth)
  unfolding walk
  walk_part p ps current depth e = rw (e, walk) refl

  pub walk-append :
      (ps qs : List (List ℕ)) (current depth : ℕ)
      → walk inodes (ps ++ qs) current depth
        ≡ go_on qs (depth + count_parts ps) (walk inodes ps current depth)
  unfolding count_parts
  walk-append [] qs current depth = unfold walk in ap (walk inodes qs current) (omega arith)
  walk-append (p ∷ ps) qs current depth = elim (Bool-cases (is_skipped p)) [
    | inl e ↦
        walk_skip p (ps ++ qs) current depth e
        ∙ walk-append ps qs current depth
        ∙ rw (walk_skip p ps current depth e, e)
            (ap (λ n. go_on qs n (walk inodes ps current depth)) (omega arith))
    | inr e ↦
        walk_part p (ps ++ qs) current depth e
        ∙ resume (descend inodes p current depth) (λ c. walk-append ps qs c (depth + 1))
        ∙ rw (walk_part p ps current depth e, e) refl
  ]
    where
      resume :
          (o : Option ℕ)
          → ((c : ℕ)
              → walk inodes (ps ++ qs) c (depth + 1)
                ≡ go_on qs (depth + 1 + count_parts ps) (walk inodes ps c (depth + 1)))
          → go_on (ps ++ qs) (depth + 1) o
            ≡ go_on qs (depth + (1 + count_parts ps)) (go_on ps (depth + 1) o)
      resume none ih = refl
      resume (some c) ih = ih c ∙ ap (λ n. go_on qs n (walk inodes ps c (depth + 1))) (omega arith)

  pub walk-AreEmpty :
      (bs : List (List ℕ)) (current depth : ℕ)
      → AreEmpty bs
      → walk inodes bs current depth ≡ some current
  walk-AreEmpty [] current depth h = unfold walk in refl
  walk-AreEmpty (b ∷ bs) current depth h =
      walk_skip b bs current depth (rw h.0 refl) ∙ walk-AreEmpty bs current depth h.1

-- One round of `resolve`, when it goes on.
abbrev pub Descends : (ℕ → Inode) → List ℕ → ℕ → ℕ → ℕ → Type 0
Descends inodes part current depth k =
    (depth < 8)
    × (current < 64)
    × ((inodes current).kind ≡ 2)
    × (child_of inodes current part ≡ some k)

pub descend-Descends :
    (inodes : ℕ → Inode) (part : List ℕ) (current depth k : ℕ)
    → descend inodes part current depth ≡ some k
    → Descends inodes part current depth k
unfolding descend
descend-Descends inodes part current depth k h = ground arith

pub Descends-descend :
    (inodes : ℕ → Inode) (part : List ℕ) (current depth k : ℕ)
    → Descends inodes part current depth k
    → descend inodes part current depth ≡ some k
unfolding descend
Descends-descend inodes part current depth k h = ground (arith, h)
