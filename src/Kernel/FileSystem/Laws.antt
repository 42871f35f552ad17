-- ===== src/Kernel/FileSystem/Laws.antt =====
-- The file system as a map from names to files.
use rv32umos.Base.{
  ℕ, ◌+◌, ◌%◌, ◌*◌, ◌^◌, ◌≤◌, ◌<◌, ◌≡◌, refl, ◌∙◌, ap, arith, true, false, [], ◌∷◌, none, some,
  if◌then◌else◌, inl, inr, Bool-cases, le→ltb,
}
use rv32umos.Kernel.Disk.{Disk, block_size}
use rv32umos.Kernel.FileSystem.{
  Name, same_name, FileMetadata, FileTable, FileSystem, find, erase, new_handle, open_file,
  blocks_needed, add_file, create_file,
}

pub same_name_refl : (a : Name) → same_name a a ≡ true
unfolding same_name
same_name_refl [] = refl
same_name_refl (x ∷ xs) = ground (arith, same_name_refl xs)

pub same_name-eq : (a b : Name) → same_name a b ≡ true → a ≡ b
unfolding same_name
same_name-eq [] [] h = refl
same_name-eq [] (y ∷ ys) h = cc
same_name-eq (x ∷ xs) [] h = cc
same_name-eq (x ∷ xs) (y ∷ ys) h =
    let parts : (x ≡ y) × (same_name xs ys ≡ true) = ground arith in
    ap (λ z. z ∷ xs) parts.0 ∙ ap (λ zs. y ∷ zs) (same_name-eq xs ys parts.1)

apart : (k a b : Name) → same_name k a ≡ false → same_name k b ≡ true → same_name a b ≡ false
apart k a b e f = elim (Bool-cases (same_name a b)) [ inl g ↦ cc (same_name-eq a b g) | inr g ↦ g ]

pub find-erase :
    (t : FileTable) (a b : Name) → find (erase t a) b ≡ (if same_name a b then none else find t b)
unfolding find erase
find-erase [] a b = ground arith
find-erase ((k, meta) ∷ t) a b = elim (Bool-cases (same_name k a)) [
  | inl e ↦
      let same : same_name k b ≡ same_name a b = ap (λ z. same_name z b) (same_name-eq k a e) in
      rw e (find-erase t a b ∙ ground (arith, same))
  | inr e ↦ rw e (elim (Bool-cases (same_name k b)) [
    | inl f ↦ rw (f, apart k a b e f)
    | inr f ↦ rw f (find-erase t a b)
  ])
]

pub create_file-free :
    (fs : FileSystem) (d : Disk) (a : Name) (n : ℕ)
    → find fs.file_table a ≡ none
    → create_file fs d a n ≡ add_file fs d a n
unfolding create_file
create_file-free fs d a n e = rw e

pub create_file-taken :
    (fs : FileSystem) (d : Disk) (a : Name) (n : ℕ) {meta : FileMetadata}
    → find fs.file_table a ≡ some meta
    → create_file fs d a n ≡ (fs, false)
unfolding create_file
create_file-taken fs d a n e = rw e

-- A size whose ceiling division does not overflow.
abbrev pub IsSize : ℕ → Type 0
IsSize n = n < 2 ^ 63

pub blocks_needed-lt : (n : ℕ) → blocks_needed n < 2 ^ 52
unfolding blocks_needed
blocks_needed-lt n = omega arith

pub covers :
    (n : ℕ)
    → IsSize n
    → (n ≤ blocks_needed n * block_size) × (blocks_needed n * block_size < n + block_size)
unfolding blocks_needed
covers n h = omega arith

-- A file of a size below 2 ^ 63 whose name is new and whose blocks fit on a disk of less than 2 ^ 32
-- blocks is created, with as many blocks as hold the size and no more, and opening its name then
-- gives its first block, the first free one, and its size; every other name opens as before.
pub open_file-create_file :
    (fs : FileSystem) (d : Disk) (a b : Name) (n : ℕ)
    → IsSize n
    → d.total_blocks < 2 ^ 32
    → find fs.file_table a ≡ none
    → fs.free_block_pointer + blocks_needed n ≤ d.total_blocks
    → let (fs', done) = create_file fs d a n in
      (done ≡ true)
      × (n ≤ blocks_needed n * block_size)
      × (blocks_needed n * block_size < n + block_size)
      × (open_file fs' b ≡ (
          if same_name a b
          then some
              (record { start_block_index = fs.free_block_pointer; file_size = n; cursor = 0 })
          else open_file fs b))
unfolding open_file new_handle find add_file
open_file-create_file fs d a b n hn hd new_name fits =
    rw
      (
        create_file-free fs d a n new_name,
        le→ltb d.total_blocks ((fs.free_block_pointer + blocks_needed n) % 2 ^ 64) (omega arith),
      )
      (refl, (covers n hn).0, (covers n hn).1, ground arith)
