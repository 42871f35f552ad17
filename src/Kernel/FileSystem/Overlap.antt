-- ===== src/Kernel/FileSystem/Overlap.antt =====
-- The file system and the swap area of kernel/Kernel.cpp (`initKernelSubsystem`) on one disk.
use rv32umos.Base.{ℕ, zero, suc, ◌+◌, ◌*◌, ◌≤◌, ◌<◌, ◌≡◌, ◌∙◌, refl, arith, true, false, some}
use rv32umos.Kernel.Disk.{Disk, Buffer, block_size}
use rv32umos.Kernel.Disk.Laws.{IsBlock, block, write_block-block}
use rv32umos.Kernel.Swap.{Swap, new_swap, swap_out}
use rv32umos.Kernel.Swap.Laws.{swap_out-free}
use rv32umos.Kernel.FileSystem.{Name, DiskFileHandle, new_file_system, find, open_file, create_file}
use rv32umos.Kernel.FileSystem.Laws.{open_file-create_file, same_name_refl, covers}
use rv32umos.Kernel.FileSystem.Extents.{last_block}

-- NUM_DISK_BLOCKS and NUM_SWAP_BLOCKS of common/Common.hpp.
abbrev pub num_disk_blocks : ℕ
num_disk_blocks = 4096

abbrev pub num_swap_blocks : ℕ
num_swap_blocks = 2048

none_before : (m : ℕ) → ((j : ℕ) → 0 ≤ j → j < m → false ≡ true) → m ≡ 0
none_before zero h = refl
none_before (suc m) h = absurd (cc (h 0 (omega arith) (omega arith)))

-- The first page to go out is written to block 2048.
first_page :
    (d : Disk) (page : Buffer) (j : ℕ)
    → d.total_blocks ≡ num_disk_blocks
    → IsBlock page
    → j < block_size
    → block (swap_out d (new_swap num_disk_blocks num_swap_blocks) page).0 2048 j ≡ page.bytes j
unfolding new_swap
first_page d page j hd hp hj =
    let s : Swap = new_swap num_disk_blocks num_swap_blocks in
    let (m, (_, _, before), lt, e) = swap_out-free d s page (omega arith) 0 (omega arith) refl in
    rw e (
      write_block-block d (s.swap_start_block + m) 2048 j page (omega arith) hp (omega arith) hj
      ∙ rw (none_before m before))

-- The kernel gives the whole disk to the file system and its upper half to the swap area: on an
-- empty file system a file of more than 2048 blocks and no more than the disk's 4096 is created, it
-- has block 2048 of the disk, and the first page that is swapped out overwrites that block.
pub swap_out-create_file :
    (d : Disk) (page : Buffer) (a : Name) (n j : ℕ)
    → d.total_blocks ≡ num_disk_blocks
    → IsBlock page
    → j < block_size
    → 2048 * block_size < n
    → n ≤ num_disk_blocks * block_size
    → (x : DiskFileHandle) × ((create_file new_file_system d a n).1 ≡ true)
      × (open_file (create_file new_file_system d a n).0 a ≡ some x)
      × (x.start_block_index ≤ 2048)
      × (2048 < last_block x)
      × (block (swap_out d (new_swap num_disk_blocks num_swap_blocks) page).0 2048 j ≡ page.bytes j)
unfolding find
swap_out-create_file d page a n j hd hp hj low high =
    let c = covers n (omega arith) in
    let (done, _, _, opened) =
      open_file-create_file new_file_system d a a n (omega arith) (omega arith) refl
        (omega arith) in
    (
      record { start_block_index = 0; file_size = n; cursor = 0 },
      done,
      opened ∙ rw (same_name_refl a) refl,
      omega arith,
      omega arith,
      first_page d page j hd hp hj,
    )
