-- ===== src/Kernel/Disk.antt =====
-- disk/InMemoryDisk.hpp, disk/InMemoryDisk.cpp and disk/DiskInterface.cpp, whose `readBlock` and
-- `writeBlock` call these. The counters of common/Stats.hpp are left out.
pub mod Laws
use rv32umos.Base.{ℕ, ◌+◌, ◌-◌, ◌*◌, ◌/◌, Bool, ◌&&◌, not, leb, ltb, ◌==◌, if◌then◌else◌, u32}

-- BLOCK_SIZE of common/Common.hpp.
abbrev pub block_size : ℕ
block_size = 4096

-- A std::vector<Byte>: an index from `size` on is outside.
pub record Buffer : Type 0 where
  pub size : ℕ
  pub bytes : ℕ → ℕ

pub record Disk : Type 0 where
  pub contents : ℕ → ℕ
  pub total_blocks : ℕ

-- std::copy of the elements from `first` to `last` to the place `dest`.
abbrev pub copy : (ℕ → ℕ) → ℕ → ℕ → (ℕ → ℕ) → ℕ → ℕ → ℕ
copy source first last target dest j =
    if leb dest j && ltb (j - dest) (last - first) then source (first + (j - dest)) else target j

unfoldable pub new_disk : ℕ → Disk
new_disk size = record { contents = λ i. 0; total_blocks = size }

pub read_block : Disk → ℕ → Buffer → Buffer
read_block d block_index buffer =
    if leb d.total_blocks block_index
    then buffer
    else if not (buffer.size == block_size)
    then buffer
    else (let start_offset = u32 (block_index * block_size) in
        let end_offset = u32 (start_offset + block_size) in
        record buffer { bytes = copy d.contents start_offset end_offset buffer.bytes 0 })

pub write_block : Disk → ℕ → Buffer → Disk
write_block d block_index buffer =
    if leb d.total_blocks block_index
    then d
    else if not (buffer.size == block_size)
    then d
    else (let offset = u32 (block_index * block_size) in
        record d { contents = copy buffer.bytes 0 buffer.size d.contents offset })
