-- ===== src/Tcmkfs/Names.antt =====
-- core/tcmkfs.rs: the names in the inode table, and the paths.
pub mod Split
pub mod Walk
pub mod Parent
use the_cursed_moon_kernel.Prelude.{
  ℕ, zero, suc, ◌+◌, Bool, true, false, not, ◌&&◌, ◌||◌, ltb, leb, ◌==◌, if◌then◌else◌, Option,
  none, some, List, [], ◌∷◌, ◌++◌, length, find_from,
}
use the_cursed_moon_kernel.Prelude.Bytes.{slice, until_zero, same_bytes}
use the_cursed_moon_kernel.Prelude.Action.{Result, ok, err}
use the_cursed_moon_kernel.Tcmkfs.Layout.{
  State, Inode, FsError, name_too_long, too_deep, bad_path, max_inodes, max_name, max_depth,
  path_max, kind_free, kind_file, kind_dir, root_inode,
}
use the_cursed_moon_kernel.Tcmkfs.Text.{slash, utf8, is_empty, split, trim_end, split_last}

-- The index is below `MAX_INODES`, or there is no inode.
abbrev pub inode_ref : (ℕ → Inode) → ℕ → Option Inode
inode_ref inodes index = if leb max_inodes index then none else some (inodes index)

-- `from_utf8(..).unwrap_or("")` of the bytes before the first 0.
unfoldable pub name_of : Inode → List ℕ
name_of inode =
    let name = until_zero (slice inode.name 0 max_name) in if utf8 name then name else []

abbrev pub is_child : (ℕ → Inode) → ℕ → List ℕ → ℕ → Bool
is_child inodes parent name i =
    not ((inodes i).kind == kind_free)
    && (inodes i).parent == parent
    && not (i == root_inode)
    && same_bytes (name_of (inodes i)) name

unfoldable pub child_of : (ℕ → Inode) → ℕ → List ℕ → Option ℕ
child_of inodes parent name =
    if is_empty name then some parent else find_from (is_child inodes parent name) max_inodes 0

-- An empty part or ".".
abbrev pub is_skipped : List ℕ → Bool
is_skipped p = is_empty p || same_bytes p (b'.' ∷ [])

-- One round of the loop of `resolve`, on a part that is not skipped.
unfoldable pub descend : (ℕ → Inode) → List ℕ → ℕ → ℕ → Option ℕ
descend inodes part current depth =
    if ltb max_depth (depth + 1) then none else elim (inode_ref inodes current) [
      | none ↦ none
      | some node ↦ if not (node.kind == kind_dir) then none else child_of inodes current part
    ]

unfoldable pub walk : (ℕ → Inode) → List (List ℕ) → ℕ → ℕ → Option ℕ
walk inodes [] current depth = some current
walk inodes (p ∷ ps) current depth = elim (is_skipped p) [
  | true ↦ walk inodes ps current depth
  | false ↦ elim (descend inodes p current depth) [
    | none ↦ none
    | some child ↦ walk inodes ps child (depth + 1)
  ]
]

unfoldable pub resolve : (ℕ → Inode) → List ℕ → Option ℕ
resolve inodes path = walk inodes (split path) root_inode 0

unfoldable pub lookup : (ℕ → Inode) → List ℕ → Option ℕ
lookup inodes path = elim (resolve inodes path) [
  | none ↦ none
  | some index ↦ elim (inode_ref inodes index) [
    | none ↦ none
    | some node ↦ if node.kind == kind_file then some index else none
  ]
]

-- `.filter(..).count()`
unfoldable pub count_parts : List (List ℕ) → ℕ
count_parts [] = 0
count_parts (p ∷ ps) = (if is_skipped p then 0 else 1) + count_parts ps

-- The path up to the last slash and the name behind it.
unfoldable pub dir_and_leaf : List ℕ → List ℕ × List ℕ
dir_and_leaf trimmed = elim (split_last trimmed) [ none ↦ ([], trimmed) | some parts ↦ parts ]

unfoldable pub split_parent : (ℕ → Inode) → List ℕ → Result FsError (ℕ × List ℕ)
split_parent inodes path =
    let trimmed = trim_end path in
    let (dir, leaf) = dir_and_leaf trimmed in
    if is_empty leaf || leb max_name (length leaf)
    then err name_too_long
    else if ltb max_depth (count_parts (split trimmed))
    then err too_deep
    else elim (resolve inodes (if is_empty dir then slash ∷ [] else dir)) [
      | none ↦ err bad_path
      | some parent ↦ elim (inode_ref inodes parent) [
        | none ↦ err bad_path
        | some node ↦ if not (node.kind == kind_dir) then err bad_path else ok (parent, leaf)
      ]
    ]

-- The loop of `path_of` that climbs to the root: `n` places are left in `chain`, and the indices
-- found so far stand in `chain` with the last one first.
unfoldable pub climb : (ℕ → Inode) → ℕ → ℕ → List ℕ → Option (List ℕ)
climb inodes zero current chain = if current == root_inode then some chain else none
climb inodes (suc n) current chain = elim (current == root_inode) [
  | true ↦ some chain
  | false ↦ elim (inode_ref inodes current) [
    | none ↦ none
    | some node ↦ elim (node.parent == current) [
      | true ↦ none
      | false ↦ climb inodes n node.parent (current ∷ chain)
    ]
  ]
]

-- The loop that writes the names behind the `len` bytes that the buffer holds.
unfoldable pub write_names : (ℕ → Inode) → List ℕ → ℕ → Option (List ℕ)
write_names inodes [] len = some []
write_names inodes (i ∷ chain) len = elim (inode_ref inodes i) [
  | none ↦ none
  | some node ↦
      let name = name_of node in
      elim (leb path_max (len + 1 + length name)) [
        | true ↦ none
        | false ↦ elim (write_names inodes chain (len + 1 + length name)) [
          | none ↦ none
          | some rest ↦ some (slash ∷ name ++ rest)
        ]
      ]
]

unfoldable pub path_of : (ℕ → Inode) → ℕ → Option (List ℕ)
path_of inodes index =
    if index == root_inode then some (slash ∷ []) else elim (climb inodes max_depth index []) [
      | none ↦ none
      | some chain ↦ elim (write_names inodes chain 0) [
        | none ↦ none
        | some path ↦ if utf8 path then some path else none
      ]
    ]
