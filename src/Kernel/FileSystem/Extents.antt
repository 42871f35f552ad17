-- ===== src/Kernel/FileSystem/Extents.antt =====
-- The files' blocks do not overlap, over every sequence of operations.
use rv32umos.Base.{ℕ, ◌+◌, ◌≤◌, [], ◌∷◌, ◌⊎◌}
use rv32umos.Kernel.Disk.{Disk}
use rv32umos.Kernel.FileSystem.{
  Name, FileMetadata, FileTable, FileSystem, DiskFileHandle, new_file_system, blocks_needed,
  create_file, remove_file,
}

-- The block after a file's last one.
abbrev pub end_block : FileMetadata → ℕ
end_block meta = meta.start_block + blocks_needed meta.size_bytes

-- The files lie below `bound`, each below the ones created after it.
abbrev pub Stacked : FileTable → ℕ → Type 0
Stacked [] bound = Unit {0}
Stacked ((k, meta) ∷ t) bound = (end_block meta ≤ bound) × Stacked t meta.start_block

pub record IsFiles (d : Disk) (fs : FileSystem) : Type 0 where
  pub stacked : Stacked fs.file_table fs.free_block_pointer
  pub on_disk : fs.free_block_pointer ≤ d.total_blocks

Apart : FileMetadata → FileMetadata → Type 0
Apart x y = (end_block x ≤ y.start_block) ⊎ (end_block y ≤ x.start_block)

-- What any sequence of creations and removals leads to, on a disk.
pub data Reachable (d : Disk) : FileSystem → Type 0 where
  start : Reachable d new_file_system
  creates :
      {fs : FileSystem} (a : Name) (n : ℕ) → Reachable d fs → Reachable d (create_file fs d a n).0
  removes : {fs : FileSystem} (a : Name) → Reachable d fs → Reachable d (remove_file fs a).0

-- The block after the last one of an opened file.
abbrev pub last_block : DiskFileHandle → ℕ
last_block x = x.start_block_index + blocks_needed x.file_size
