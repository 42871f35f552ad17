-- ===== src/Kernel/Swap.antt =====
-- memory/SwapManager.hpp and memory/SwapManager.cpp. The disk that the manager points to is shared
-- with the file system: it is passed to each operation and returned.
pub mod Laws
pub mod Roundtrip
pub mod Tests
use rv32umos.Base.{
  ℕ, zero, suc, ◌+◌, ◌-◌, ◌^◌, ◌%◌, Bool, true, false, not, ◌||◌, ltb, leb, if◌then◌else◌, update,
  ℤ, pos, negsuc, ltb_ℤ, signed, u32, pos_part,
}
use rv32umos.Kernel.Disk.{Disk, Buffer, read_block, write_block}

pub record Swap : Type 0 where
  pub swap_start_block : ℕ
  pub swap_size : ℕ
  pub allocation_map : ℕ → Bool

-- The difference is one of std::size_t.
unfoldable pub new_swap : ℕ → ℕ → Swap
new_swap disk_num_blocks swap_num_blocks = record {
  swap_start_block = (disk_num_blocks + (2 ^ 64 - swap_num_blocks)) % 2 ^ 64;
  swap_size = swap_num_blocks;
  allocation_map = λ i. false;
}

-- The loop of `swapOut` at the slot `i`, with `left` slots to go.
pub swap_out_loop : Disk → Swap → Buffer → ℕ → ℕ → Disk × Swap × ℤ
swap_out_loop d s buffer zero i = (d, s, negsuc 0)
swap_out_loop d s buffer (suc left) i =
    let rest = swap_out_loop d s buffer left (i + 1) in
    if not (s.allocation_map i)
    then (
      write_block d (s.swap_start_block + i) buffer,
      record s { allocation_map = update s.allocation_map i true },
      signed 32 (u32 i),
    )
    else rest

pub swap_out : Disk → Swap → Buffer → Disk × Swap × ℤ
swap_out d s buffer = swap_out_loop d s buffer s.swap_size 0

pub swap_in : Disk → Swap → Buffer → ℤ → Swap × Buffer
swap_in d s buffer slot =
    if ltb_ℤ slot (pos 0) || leb s.swap_size (pos_part slot) then (s, buffer) else (
      record s { allocation_map = update s.allocation_map (pos_part slot) false },
      read_block d (s.swap_start_block + pos_part slot) buffer,
    )
