-- ===== src/Vm/Utils/Laws.antt =====
-- The helpers of common/Utils.hpp as arithmetic.
use rv32umos.Base.{ℕ, suc, ◌+◌, ◌-◌, ◌/◌, ◌%◌, ◌^◌, ◌≤◌, ◌<◌, ◌≡◌, arith, u32, signed, to_word}
use native.Mathlib.Nat.{pow-suc, one-le-pow}
use rv32umos.Bits.{two-pow-le, bit_and_mask, bit_xor_flip}
use rv32umos.Vm.Utils.{extract_bits, sign_extend}

mask_fits : (len : ℕ) → len ≤ 32 → u32 (2 ^ len - 1) ≡ 2 ^ len - 1
mask_fits len h = omega (arith, two-pow-le h, one-le-pow len 2 (omega arith))

-- Bits `start` to `end` of a value, for every field of at most 32 bits.
pub extract_bits_lem :
    (value start end : ℕ)
    → end - start < 32
    → extract_bits value start end ≡ value / 2 ^ start % 2 ^ (end - start + 1)
unfolding extract_bits
extract_bits_lem value start end h =
    rw (mask_fits (end - start + 1) (omega arith)) (bit_and_mask (end - start + 1) _)

sub-one_suc : (k : ℕ) → suc k - 1 ≡ k
sub-one_suc k = omega arith

-- Sign extension keeps the number that a two's complement pattern of k + 1 bits stands for.
pub sign_extend_lem :
    (k val : ℕ) → k < 32 → val < 2 ^ suc k → sign_extend val (suc k) ≡ to_word (signed (suc k) val)
unfolding sign_extend
sign_extend_lem k val hk h = rw (sub-one_suc k) (
    ground (
      arith,
      two-pow-le {i = k} {j = 31} (omega arith),
      pow-suc 2 k,
      one-le-pow k 2 (omega arith),
      bit_xor_flip k val h,
    ))
