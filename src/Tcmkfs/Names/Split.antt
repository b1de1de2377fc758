-- ===== src/Tcmkfs/Names/Split.antt =====
-- How the paths of core/tcmkfs.rs come apart at their slashes.
use the_cursed_moon_kernel.Prelude.{
  ℕ, true, false, ◌&&◌, ◌==◌, ==→eq, if◌then◌else◌, Option, none, some, List, [], ◌∷◌, ◌++◌, ◌≡◌,
  refl, ap, sym, ◌∙◌, inl, inr, Bool-cases, if_ind,
}
use the_cursed_moon_kernel.Tcmkfs.Text.{
  All, slash, is_empty, split, push_front, trim_end, split_last,
}

abbrev pub IsPlain : List ℕ → Type 0
IsPlain = All (λ c. (c == slash) ≡ false)

abbrev pub AreEmpty : List (List ℕ) → Type 0
AreEmpty = All (λ p. is_empty p ≡ true)

pub All-append_right : {A : Type 0} (P : A → Type 0) (xs ys : List A) → All P (xs ++ ys) → All P ys
All-append_right P [] ys h = h
All-append_right P (x ∷ xs) ys h = All-append_right P xs ys h.1

push_front-append :
    (c : ℕ) (xs : List ℕ) (qs : List (List ℕ))
    → push_front c (split xs) ++ qs ≡ push_front c (split xs ++ qs)
unfolding split
push_front-append c [] qs = refl
push_front-append c (x ∷ xs) qs = elim (Bool-cases (x == slash)) [
  | inl e ↦ rw e refl
  | inr e ↦ rw e (push_nonempty x (split xs))
]
  where
    push_nonempty :
        (d : ℕ) (ps : List (List ℕ))
        → push_front c (push_front d ps) ++ qs ≡ push_front c (push_front d ps ++ qs)
    push_nonempty d [] = refl
    push_nonempty d (p ∷ ps) = refl

pub split-append : (dir leaf : List ℕ) → split (dir ++ slash ∷ leaf) ≡ split dir ++ split leaf
unfolding split
split-append [] leaf = refl
split-append (c ∷ dir) leaf = elim (Bool-cases (c == slash)) [
  | inl e ↦ rw e (ap (◌∷◌ []) (split-append dir leaf))
  | inr e ↦
      rw e (ap (push_front c) (split-append dir leaf) ∙ sym (push_front-append c dir (split leaf)))
]

pub split_plain : (leaf : List ℕ) → IsPlain leaf → split leaf ≡ leaf ∷ []
unfolding split
split_plain [] h = refl
split_plain (c ∷ cs) h = rw (h.0, split_plain cs h.1) refl

-- What stands behind the last slash has none, and the path is put together from its two parts.
abbrev pub Last : List ℕ → Option (List ℕ × List ℕ) → Type 0
Last path none = IsPlain path
Last path (some (dir, leaf)) = (path ≡ dir ++ slash ∷ leaf) × IsPlain leaf

Last-later :
    (c : ℕ) (cs : List ℕ) (o : Option (List ℕ × List ℕ))
    → Last cs o
    → Last (c ∷ cs) (elim o [
      | some (dir, leaf) ↦ some (c ∷ dir, leaf)
      | none ↦ if c == slash then some ([], cs) else none
    ])
Last-later c cs none h =
    if_ind (Last (c ∷ cs)) (c == slash) (λ e. (ap (λ d. d ∷ cs) (==→eq c slash e), h)) (λ e. (e, h))
Last-later c cs (some (dir, leaf)) h = (ap (◌∷◌ c) h.0, h.1)

pub split_last-Last : (path : List ℕ) → Last path (split_last path)
unfolding split_last
split_last-Last [] = tt
split_last-Last (c ∷ cs) = Last-later c cs (split_last cs) (split_last-Last cs)

-- The path without its last slashes has the same parts but empty ones at the end.
abbrev pub Trimmed : List ℕ → List ℕ → Type 0
Trimmed path trimmed = (bs : List (List ℕ)) × (split path ≡ split trimmed ++ bs) × AreEmpty bs

Trimmed-cons : (c : ℕ) (cs rest : List ℕ) → Trimmed cs rest → Trimmed (c ∷ cs) (c ∷ rest)
unfolding split
Trimmed-cons c cs rest (bs, e, h) = elim (Bool-cases (c == slash)) [
  | inl q ↦ (bs, rw (q, e) refl, h)
  | inr q ↦ (bs, rw (q, e) (sym (push_front-append c rest bs)), h)
]

Trimmed-slash : (c : ℕ) (cs : List ℕ) → (c == slash) ≡ true → Trimmed cs [] → Trimmed (c ∷ cs) []
unfolding split
Trimmed-slash c cs q (bs, e, h) = ([] ∷ bs, rw (q, e) refl, (refl, h))

Trimmed-nil : Trimmed [] []
unfolding split
Trimmed-nil = ([], refl, tt)

pub trim_end-Trimmed : (path : List ℕ) → Trimmed path (trim_end path)
unfolding trim_end
trim_end-Trimmed [] = Trimmed-nil
trim_end-Trimmed (c ∷ cs) = step (trim_end cs) (trim_end-Trimmed cs)
  where
    step :
        (rest : List ℕ)
        → Trimmed cs rest
        → Trimmed (c ∷ cs) (if c == slash && is_empty rest then [] else c ∷ rest)
    step [] h = elim (Bool-cases (c == slash)) [
      | inl e ↦ rw e (Trimmed-slash c cs e h)
      | inr e ↦ rw e (Trimmed-cons c cs [] h)
    ]
    step (x ∷ rest) h = elim (Bool-cases (c == slash)) [
      | inl e ↦ rw e (Trimmed-cons c cs (x ∷ rest) h)
      | inr e ↦ rw e (Trimmed-cons c cs (x ∷ rest) h)
    ]
