-- ===== src/Kernel/FileSystem/Tests.antt =====
-- Files on the kernel's disk of 4096 blocks.
use rv32umos.Base.{◌≤◌, ◌<◌, ◌≡◌, refl, arith, true, [], ◌∷◌, some}
use rv32umos.Kernel.Disk.{Disk, Buffer, block_size}
use rv32umos.Kernel.Disk.Laws.{block}
use rv32umos.Kernel.Swap.{new_swap, swap_out}
use rv32umos.Kernel.FileSystem.{Name, DiskFileHandle, new_file_system, open_file, create_file}
use rv32umos.Kernel.FileSystem.Extents.{last_block}
use rv32umos.Kernel.FileSystem.Overlap.{num_disk_blocks, num_swap_blocks, swap_out-create_file}

abbrev disk : Disk
disk = record { contents = λ i. 7; total_blocks = 4096 }

abbrev page : Buffer
page = record { size = block_size; bytes = λ i. i }

abbrev notes : Name
notes = 110 ∷ []

abbrev log : Name
log = 108 ∷ 111 ∷ []

swap_out-create_file_example :
    (x : DiskFileHandle) × ((create_file new_file_system disk notes 0x80_1000).1 ≡ true)
    × (open_file (create_file new_file_system disk notes 0x80_1000).0 notes ≡ some x)
    × (x.start_block_index ≤ 2048)
    × (2048 < last_block x)
    × (block (swap_out disk (new_swap num_disk_blocks num_swap_blocks) page).0 2048 3 ≡ 3)
swap_out-create_file_example =
    swap_out-create_file disk page notes 0x80_1000 3 refl refl (omega arith) (omega arith)
      (omega arith)
