-- ===== src/Tcmkfs/Layout/Image.antt =====
-- The image of the inode table and of the superblock of core/tcmkfs.rs, read back.
use the_cursed_moon_kernel.Prelude.{ℕ, ◌+◌, ◌-◌, ◌*◌, ◌/◌, ◌%◌, ◌^◌, ◌<◌, ◌≡◌, ap, ◌∙◌, arith}
use the_cursed_moon_kernel.Prelude.Bytes.{le_byte, le_u32, le_u32-le_byte}
use the_cursed_moon_kernel.Tcmkfs.Layout.{Inode, inode_byte, table_byte, table_of}

-- The numbers of an inode are 32-bit words.
pub record IsWords (n : Inode) : Type 0 where
  pub kind : n.kind < 2 ^ 32
  pub size : n.size < 2 ^ 32
  pub mtime : n.mtime < 2 ^ 32
  pub flags : n.flags < 2 ^ 32
  pub parent : n.parent < 2 ^ 32
  pub blocks : (k : ℕ) → k < 40 → n.blocks k < 2 ^ 32

-- The same numbers, the same name and the same blocks.
abbrev pub SameInode : Inode → Inode → Type 0
SameInode m n =
    (m.kind ≡ n.kind)
    × (m.size ≡ n.size)
    × (m.mtime ≡ n.mtime)
    × (m.flags ≡ n.flags)
    × (m.parent ≡ n.parent)
    × ((k : ℕ) → k < 64 → m.name k ≡ n.name k)
    × ((k : ℕ) → k < 40 → m.blocks k ≡ n.blocks k)

block_byte :
    (n : Inode) (k j : ℕ) → k < 40 → j < 4 → inode_byte n (84 + 4 * k + j) ≡ le_byte (n.blocks k) j
block_byte n k j hk hj =
    let at : inode_byte n (84 + 4 * k + j)
        ≡ le_byte (n.blocks ((84 + 4 * k + j - 84) / 4)) ((84 + 4 * k + j - 84) % 4) =
      ground arith in
    at
    ∙ ap (λ i. le_byte (n.blocks i) ((84 + 4 * k + j - 84) % 4)) (omega arith)
    ∙ ap (le_byte (n.blocks k)) (omega arith)

name_byte : (n : Inode) (k : ℕ) → k < 64 → inode_byte n (20 + k) ≡ n.name k
name_byte n k hk =
    let at : inode_byte n (20 + k) ≡ n.name (20 + k - 20) = ground arith in
    at ∙ ap n.name (omega arith)

pub table_byte_lem :
    (inodes : ℕ → Inode) (i o : ℕ)
    → o < 256
    → table_byte inodes (i * 256 + o) ≡ inode_byte (inodes i) o
unfolding table_byte
table_byte_lem inodes i o h =
    ap (λ j. inode_byte (inodes j) ((i * 256 + o) % 256)) {y = i} (omega arith)
    ∙ ap (inode_byte (inodes i)) {x = (i * 256 + o) % 256} {y = o} (omega arith)

-- The 32-bit number at an offset of an image.
word_at :
    (f : ℕ → ℕ) (v o : ℕ)
    → v < 2 ^ 32
    → ((j : ℕ) → j < 4 → f (o + j) ≡ le_byte v j)
    → le_u32 f o ≡ v
word_at f v o h b = omega (
  arith,
  b 0 (omega arith),
  b 1 (omega arith),
  b 2 (omega arith),
  b 3 (omega arith),
  le_u32-le_byte v h,
  ap f {x = o + 0} {y = o} (omega arith),
)

-- An inode whose fields are 32-bit numbers comes back from an array of bytes that holds it.
pub table_of_lem :
    (f : ℕ → ℕ) (i : ℕ) (n : Inode)
    → IsWords n
    → ((o : ℕ) → o < 256 → f (i * 256 + o) ≡ inode_byte n o)
    → SameInode (table_of f i) n
unfolding table_of
table_of_lem f' i n w byte =
    let f = λ (o : ℕ). f' (i * 256 + o) in
    (
      word_at f n.kind 0 w.kind (λ j h. byte (0 + j) (omega arith) ∙ ground arith),
      word_at f n.size 4 w.size (λ j h. byte (4 + j) (omega arith) ∙ ground arith),
      word_at f n.mtime 8 w.mtime (λ j h. byte (8 + j) (omega arith) ∙ ground arith),
      word_at f n.flags 12 w.flags (λ j h. byte (12 + j) (omega arith) ∙ ground arith),
      word_at f n.parent 16 w.parent (λ j h. byte (16 + j) (omega arith) ∙ ground arith),
      λ k h. byte (20 + k) (omega arith) ∙ name_byte n k h,
      λ k h.
          word_at f (n.blocks k) (84 + 4 * k) (w.blocks k h)
            (λ j hj. byte (84 + 4 * k + j) (omega arith) ∙ block_byte n k j h hj),
    )
