-- ===== src/Tcmkfs/Text.antt =====
-- What core/tcmkfs.rs uses of the text of `core`: a `&str` is its list of bytes.
use the_cursed_moon_kernel.Prelude.{
  ℕ, zero, suc, Bool, true, false, ◌&&◌, ltb, leb, ◌==◌, if◌then◌else◌, Option, none, some, List,
  [], ◌∷◌,
}

abbrev pub slash : ℕ
slash = b'/'

-- The number of bytes that follow a first byte, and the range of the next one.
abbrev lead : ℕ → Option (ℕ × ℕ × ℕ)
lead x =
    if ltb x 0x80
    then some (0, 0x80, 0xBF)
    else if leb 0xC2 x && leb x 0xDF
    then some (1, 0x80, 0xBF)
    else if x == 0xE0
    then some (2, 0xA0, 0xBF)
    else if x == 0xED
    then some (2, 0x80, 0x9F)
    else if leb 0xE1 x && leb x 0xEF
    then some (2, 0x80, 0xBF)
    else if x == 0xF0
    then some (3, 0x90, 0xBF)
    else if leb 0xF1 x && leb x 0xF3
    then some (3, 0x80, 0xBF)
    else if x == 0xF4
    then some (3, 0x80, 0x8F)
    else none

utf8_from : ℕ → ℕ → ℕ → List ℕ → Bool
utf8_from n lo hi [] = n == 0
utf8_from zero lo hi (x ∷ xs) = elim (lead x) [
  | none ↦ false
  | some (n, lo', hi') ↦ utf8_from n lo' hi' xs
]
utf8_from (suc n) lo hi (x ∷ xs) =
    let rest = utf8_from n 0x80 0xBF xs in if leb lo x && leb x hi then rest else false

-- `from_utf8(bytes).is_ok()`
unfoldable pub utf8 : List ℕ → Bool
unfolding utf8_from
utf8 = utf8_from 0 0x80 0xBF

-- A property of all items of a list.
abbrev pub All : {A : Type 0} → (A → Type 0) → List A → Type 0
All P [] = Unit
All P (x ∷ xs) = P x × All P xs

abbrev pub is_empty : List ℕ → Bool
is_empty [] = true
is_empty (c ∷ cs) = false

-- `path.split('/')`
abbrev pub push_front : ℕ → List (List ℕ) → List (List ℕ)
push_front c [] = (c ∷ []) ∷ []
push_front c (p ∷ ps) = (c ∷ p) ∷ ps

unfoldable pub split : List ℕ → List (List ℕ)
split [] = [] ∷ []
split (c ∷ cs) = let parts = split cs in if c == slash then [] ∷ parts else push_front c parts

-- `path.trim_end_matches('/')`
unfoldable pub trim_end : List ℕ → List ℕ
trim_end [] = []
trim_end (c ∷ cs) = let rest = trim_end cs in if c == slash && is_empty rest then [] else c ∷ rest

-- What stands before and behind the last slash: `rfind('/')` and the two slices.
unfoldable pub split_last : List ℕ → Option (List ℕ × List ℕ)
split_last [] = none
split_last (c ∷ cs) = elim (split_last cs) [
  | some (dir, leaf) ↦ some (c ∷ dir, leaf)
  | none ↦ if c == slash then some ([], cs) else none
]
