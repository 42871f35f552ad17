-- ===== src/Vm/Memory/Loops.antt =====
-- The byte loops of `Memory::load` and `Memory::store` in closed form.
use native.Mathlib.Numerals.{towards_suc}
use native.Mathlib.Nat.{mul-le-mul_right, add_assoc}
use native.Mathlib.Decide.{dec_lt}
use rv32umos.Base.{
  ℕ, zero, suc, ◌+◌, ◌-◌, ◌*◌, ◌/◌, ◌%◌, ◌^◌, ◌≤◌, ◌<◌, ◌≡◌, ap, fun_ext, arith, ok, stop,
  out_of_bounds, update, ltb, leb, ◌&&◌, if◌then◌else◌, ◌∙◌, shl32, bit_or, lt→ltb, le→ltb, bit_and,
  shr,
}
use rv32umos.Bits.{two-pow-le, bit_or-low_high, bit_and_mask}
use rv32umos.Vm.Memory.{Memory, memory_size, byte_at, set_byte, load_loop, store_loop}

-- The little-endian number in `n` bytes from address `i` on.
abbrev pub le_word : (ℕ → ℕ) → ℕ → ℕ → ℕ
le_word f i zero = 0
le_word f i (suc n) = f i + 256 * le_word f (i + 1) n

-- Every byte is one.
abbrev pub IsBytes : Memory → Type 0
IsBytes m = (i : ℕ) → m.bytes i < 256

two-pow_eight : (s : ℕ) → 2 ^ (s + 8) ≡ 256 * 2 ^ s
two-pow_eight s = simp towards_suc (omega arith)

pub two-pow-byte : (i : ℕ) → 2 ^ ((i + 1) * 8) ≡ 256 * 2 ^ (i * 8)
two-pow-byte i = ap (λ (t : ℕ). 2 ^ t) (omega arith) ∙ two-pow_eight (i * 8)

byte_at-in_range : (m : Memory) (i : ℕ) → i < memory_size → byte_at m i ≡ ok (m.bytes i)
unfolding byte_at
byte_at-in_range m i h = rw (lt→ltb _ _ h)

set_byte-in_range :
    (m : Memory) (i v : ℕ)
    → i < memory_size
    → set_byte m i v ≡ ok (record m { bytes = update m.bytes i v })
unfolding set_byte
set_byte-in_range m i v h = rw (lt→ltb _ _ h)

-- One round of the `|=` adds the byte above those that are there.
or_byte :
    (i value b : ℕ)
    → i < 4
    → value < 2 ^ (i * 8)
    → b < 256
    → bit_or value (shl32 b (i * 8)) ≡ value + b * 2 ^ (i * 8)
or_byte i value b hi hv hb = ground (
  arith,
  two-pow-byte i,
  two-pow-le {i = (i + 1) * 8} {j = 32} (omega arith),
  mul-le-mul_right {m = b} {n = 255} (2 ^ (i * 8)) (omega arith),
  bit_or-low_high (i * 8) b value hv,
)

pub load_loop_lem :
    (m : Memory) (index left i value : ℕ)
    → IsBytes m
    → i + left ≤ 4
    → index + i + left ≤ memory_size
    → value < 2 ^ (i * 8)
    → load_loop m index left i value ≡ ok (value + 2 ^ (i * 8) * le_word m.bytes (index + i) left)
unfolding load_loop
load_loop_lem m index zero i value hm h4 hs hv = ground arith
load_loop_lem m index (suc left) i value hm h4 hs hv =
    let b : ℕ = m.bytes (index + i) in
    let p : ℕ = 2 ^ (i * 8) in
    let bound : b * p ≤ 255 * p = mul-le-mul_right p (omega (arith, hm (index + i))) in
    rw
      (
        byte_at-in_range m (index + i) (omega arith),
        or_byte i value b (omega arith) hv (hm (index + i)),
        load_loop_lem m index left (i + 1) (value + b * p) hm (omega arith) (omega arith)
            (omega (arith, two-pow-byte i)),
        two-pow-byte i,
        ← add_assoc index i 1,
      )
      (ap ok (omega arith))

-- The memory after `value`'s bytes `lo` to `hi` have been stored from `index` on.
abbrev pub stored : Memory → ℕ → ℕ → ℕ → ℕ → Memory
stored m index value lo hi = record m {
  bytes = λ j.
      if leb (index + lo) j && ltb j (index + hi)
      then value / 2 ^ ((j - index) * 8) % 256
      else m.bytes j;
}

pub store_loop_lem :
    (m : Memory) (index value left i : ℕ)
    → index + i + left ≤ memory_size
    → store_loop m index value left i ≡ ok (stored m index value i (i + left))
unfolding store_loop
store_loop_lem m index value zero i hs = ap ok (λ t. record { bytes = same t })
  where
    same : m.bytes ≡ (stored m index value i (i + 0)).bytes
    same = fun_ext λ j. ground arith
store_loop_lem m index value (suc left) i hs =
    let b : ℕ = bit_and (shr value (i * 8)) 0xff in
    rw
      (
        set_byte-in_range m (index + i) b (omega arith),
        store_loop_lem (record m { bytes = update m.bytes (index + i) b }) index value left (i + 1)
            (omega arith),
      )
      (ap ok (λ t. record { bytes = same t }))
  where
    same :
        (stored
          (record m { bytes = update m.bytes (index + i) (bit_and (shr value (i * 8)) 0xff) })
          index
          value
          (i + 1)
          (i + 1 + left)).bytes
        ≡ (stored m index value i (i + suc left)).bytes
    same = fun_ext λ j. ground (
      arith,
      bit_and_mask 8 (shr value (i * 8)),
      ap (λ (t : ℕ). value / 2 ^ ((t - index) * 8)) {x = j} {y = index + i},
    )

byte_at-past : (m : Memory) (i : ℕ) → memory_size ≤ i → byte_at m i ≡ stop out_of_bounds
unfolding byte_at
byte_at-past m i h = rw (le→ltb _ _ h)

set_byte-past : (m : Memory) (i v : ℕ) → memory_size ≤ i → set_byte m i v ≡ stop out_of_bounds
unfolding set_byte
set_byte-past m i v h = rw (le→ltb _ _ h)

-- A loop that would leave the vector stops at its end.
pub load_loop-past :
    (m : Memory) (index left i value : ℕ)
    → index + i ≤ memory_size
    → memory_size < index + i + left
    → load_loop m index left i value ≡ stop out_of_bounds
unfolding load_loop
load_loop-past m index zero i value h p = absurd (omega arith)
load_loop-past m index (suc left) i value h p = elim (dec_lt (index + i) memory_size) [
  | yes q ↦
      rw (byte_at-in_range m (index + i) q)
        (load_loop-past m index left (i + 1) _ (omega arith) (omega arith))
  | no q ↦ rw (byte_at-past m (index + i) (omega arith))
]

pub store_loop-past :
    (m : Memory) (index value left i : ℕ)
    → index + i ≤ memory_size
    → memory_size < index + i + left
    → store_loop m index value left i ≡ stop out_of_bounds
unfolding store_loop
store_loop-past m index value zero i h p = absurd (omega arith)
store_loop-past m index value (suc left) i h p =
    let b : ℕ = bit_and (shr value (i * 8)) 0xff in
    elim (dec_lt (index + i) memory_size) [
      | yes q ↦ rw (set_byte-in_range m (index + i) b q) (
          store_loop-past (record m { bytes = update m.bytes (index + i) b }) index value left
            (i + 1) (omega arith) (omega arith))
      | no q ↦ rw (set_byte-past m (index + i) b (omega arith))
    ]
