-- ===== src/Vm/Memory.antt =====
-- rv32vm/Memory.hpp and rv32vm/Memory.cpp, but for `loadBinary` (host file input). The vector of
-- MEMORY_SIZE bytes is a function of the index; an access past its end is a fault here.
pub mod Loops
pub mod Laws
pub mod Tests
use rv32umos.Base.{
  ℕ, zero, suc, ◌+◌, ◌-◌, ◌*◌, ◌^◌, Result, ok, stop, bad_address, out_of_bounds, Bool, ◌||◌, ltb,
  leb, update, if◌then◌else◌, ◌>>=◌, u32, shl32, shr, bit_and, bit_or,
}

abbrev pub memory_size : ℕ
memory_size = 64 * 1024

abbrev pub memory_base : ℕ
memory_base = 0

pub record Memory : Type 0 where
  pub bytes : ℕ → ℕ

-- `memory[i]` of the vector.
pub byte_at : Memory → ℕ → Result ℕ
byte_at m i = if ltb i memory_size then ok (m.bytes i) else stop out_of_bounds

pub set_byte : Memory → ℕ → ℕ → Result Memory
set_byte m i v =
    if ltb i memory_size then ok (record m { bytes = update m.bytes i v }) else stop out_of_bounds

-- The condition that both asserts negate.
pub is_bad_address : ℕ → Bool
is_bad_address addr = ltb addr memory_base || leb (memory_base + memory_size) addr

-- The loop of `load` at `i`, with `left` rounds to go.
pub load_loop : Memory → ℕ → ℕ → ℕ → ℕ → Result ℕ
load_loop m index zero i value = ok value
load_loop m index (suc left) i value = do
  b ← byte_at m (index + i)
  load_loop m index left (i + 1) (bit_or value (shl32 b (i * 8)))

pub load : Memory → ℕ → ℕ → Result ℕ
load m addr size =
    if is_bad_address addr then stop bad_address else load_loop m (addr - memory_base) size 0 0

pub store_loop : Memory → ℕ → ℕ → ℕ → ℕ → Result Memory
store_loop m index value zero i = ok m
store_loop m index value (suc left) i = do
  m' ← set_byte m (index + i) (bit_and (shr value (i * 8)) 0xff)
  store_loop m' index value left (i + 1)

pub store : Memory → ℕ → ℕ → ℕ → Result Memory
store m addr size value =
    if is_bad_address addr then stop bad_address else store_loop m (addr - memory_base) value size 0
