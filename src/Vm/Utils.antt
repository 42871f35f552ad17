-- ===== src/Vm/Utils.antt =====
-- common/Utils.hpp: bit fields and sign extension.
pub mod Laws
use rv32umos.Base.{ℕ, ◌+◌, ◌-◌, ◌^◌, bit_and, bit_xor, u32, sub32, shl32, shr}

-- The result is an int32_t, which every caller turns back into a word: it is kept as that word.
pub sign_extend : ℕ → ℕ → ℕ
sign_extend val bits = let m = shl32 1 (bits - 1) in sub32 (bit_xor val m) m

pub extract_bits : ℕ → ℕ → ℕ → ℕ
extract_bits value start end =
    let len = end - start + 1 in let mask = u32 (2 ^ len - 1) in bit_and (shr value start) mask
