-- ===== src/Kernel/FileSystem.antt =====
-- filesystem/StubFileSystem.hpp, filesystem/StubFileSystem.cpp and filesystem/VFSInterface.cpp, whose
-- operations call these, and the constructor of filesystem/DiskFileHandle.cpp. A name is the list of
-- its characters' codes, and the std::map of files a list of pairs.
pub mod Laws
pub mod Extents
pub mod Overlap
pub mod Tests
use rv32umos.Base.{
  ℕ, ◌+◌, ◌-◌, ◌/◌, ◌%◌, ◌^◌, Bool, true, false, not, List, [], ◌∷◌, Option, none, some, ltb, ◌==◌,
  ◌&&◌, if◌then◌else◌, u32,
}
use rv32umos.Kernel.Disk.{Disk, block_size}

abbrev pub Name : Type 0
Name = List ℕ

pub same_name : Name → Name → Bool
same_name [] [] = true
same_name [] (y ∷ ys) = false
same_name (x ∷ xs) [] = false
same_name (x ∷ xs) (y ∷ ys) = (x == y) && same_name xs ys

pub record FileMetadata : Type 0 where
  pub name : Name
  pub start_block : ℕ
  pub size_bytes : ℕ

pub record DiskFileHandle : Type 0 where
  pub start_block_index : ℕ
  pub file_size : ℕ
  pub cursor : ℕ

abbrev pub FileTable : Type 0
FileTable = List (Name × FileMetadata)

pub record FileSystem : Type 0 where
  pub file_table : FileTable
  pub free_block_pointer : ℕ

abbrev pub new_file_system : FileSystem
new_file_system = record { file_table = []; free_block_pointer = 0 }

-- `count` and `at`.
pub find : FileTable → Name → Option FileMetadata
find [] filename = none
find ((k, meta) ∷ t) filename = if same_name k filename then some meta else find t filename

-- `erase`
pub erase : FileTable → Name → FileTable
erase [] filename = []
erase ((k, meta) ∷ t) filename =
    let rest = erase t filename in if same_name k filename then rest else (k, meta) ∷ rest

new_handle : Option FileMetadata → Option DiskFileHandle
new_handle none = none
new_handle (some meta) =
    some (record { start_block_index = meta.start_block; file_size = meta.size_bytes; cursor = 0 })

pub open_file : FileSystem → Name → Option DiskFileHandle
unfolding new_handle
open_file fs filename = new_handle (find fs.file_table filename)

-- The ceiling division of `createFileImpl`, on std::size_t.
pub blocks_needed : ℕ → ℕ
blocks_needed size_bytes = (size_bytes + block_size - 1) % 2 ^ 64 / block_size

pub add_file : FileSystem → Disk → Name → ℕ → FileSystem × Bool
add_file fs d filename size_bytes =
    if ltb d.total_blocks ((fs.free_block_pointer + blocks_needed size_bytes) % 2 ^ 64)
    then (fs, false)
    else (
      record {
        file_table =
            (
              filename,
              record {
                name = filename;
                start_block = fs.free_block_pointer;
                size_bytes = size_bytes;
              },
            )
            ∷ fs.file_table;
        free_block_pointer = u32 (fs.free_block_pointer + blocks_needed size_bytes);
      },
      true,
    )

-- What `createFileImpl` and `removeFileImpl` do with the result of their lookup.
create_in : FileSystem → Disk → Name → ℕ → Option FileMetadata → FileSystem × Bool
unfolding add_file
create_in fs d filename size_bytes (some meta) = (fs, false)
create_in fs d filename size_bytes none = add_file fs d filename size_bytes

pub create_file : FileSystem → Disk → Name → ℕ → FileSystem × Bool
unfolding create_in
create_file fs d filename size_bytes =
    create_in fs d filename size_bytes (find fs.file_table filename)

remove_in : FileSystem → Name → Option FileMetadata → FileSystem × Bool
remove_in fs filename none = (fs, false)
remove_in fs filename (some meta) = (record fs { file_table = erase fs.file_table filename }, true)

pub remove_file : FileSystem → Name → FileSystem × Bool
unfolding remove_in
remove_file fs filename = remove_in fs filename (find fs.file_table filename)
