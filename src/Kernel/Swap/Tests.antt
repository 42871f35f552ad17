-- ===== src/Kernel/Swap/Tests.antt =====
-- The kernel's disk and swap area: 4096 blocks, the last 2048 of them for pages.
use rv32umos.Base.{ℕ, ◌<◌, ◌≡◌, refl, arith, leb}
use rv32umos.Kernel.Disk.{Disk, Buffer, block_size}
use rv32umos.Kernel.Swap.{Swap, swap_out, swap_in}
use rv32umos.Kernel.Swap.Laws.{IsSwap}
use rv32umos.Kernel.Swap.Roundtrip.{swap_in-swap_out}

abbrev disk : Disk
disk = record { contents = λ i. 7; total_blocks = 4096 }

-- The first three slots are taken.
abbrev swap : Swap
swap = record { swap_start_block = 2048; swap_size = 2048; allocation_map = λ i. leb i 2 }

abbrev page : Buffer
page = record { size = block_size; bytes = λ i. i }

abbrev empty_page : Buffer
empty_page = record { size = block_size; bytes = λ i. 0 }

swap-IsSwap : IsSwap disk swap
swap-IsSwap = record { small = omega arith; on_disk = omega arith }

swap_in-swap_out_example :
    let (d', s', slot) = swap_out disk swap page in
    let (s'', result) = swap_in d' s' empty_page slot in
    ((j : ℕ) → j < block_size → result.bytes j ≡ j) × ((i : ℕ) → s''.allocation_map i ≡ leb i 2)
swap_in-swap_out_example =
    swap_in-swap_out disk swap page swap-IsSwap (omega arith) refl 5 (omega arith) refl empty_page
      refl
