-- ===== src/Bits.antt =====
-- `&`, `|` and `^` of C on words, as arithmetic: masks are remainders, disjoint fields are sums.
mod Digits
use Prim.Native.Nat.{differ, bit_and-bitwise, bit_or-bitwise, bit_xor-bitwise}
use native.Mathlib.Nat.{pow-suc, one-le-pow, pow-le-pow_right}
use rv32umos.Base.{
  ℕ, zero, suc, ◌+◌, ◌-◌, ◌*◌, ◌/◌, ◌%◌, ◌^◌, ◌≤◌, ◌<◌, ◌≡◌, refl, arith, bit_and, bit_or, bit_xor,
  min, max, if◌then◌else◌, ltb,
}
use Digits.{bitwise_unroll, bitwise-fields, bitwise-lt}

pub two-pow-le : {i j : ℕ} → i ≤ j → 2 ^ i ≤ 2 ^ j
two-pow-le h = pow-le-pow_right (omega arith) h

pub bit_and_unroll : (a b : ℕ) → bit_and a b ≡ bit_and (a / 2) (b / 2) * 2 + min (a % 2) (b % 2)
bit_and_unroll a b = simp bit_and-bitwise (bitwise_unroll (λ y. 0) min (λ y. omega arith) a b)

bit_and-zero_below : (bound x : ℕ) → x ≤ bound → bit_and x 0 ≡ 0
bit_and-zero_below bound zero h = refl
bit_and-zero_below zero (suc x) h = absurd (omega arith)
bit_and-zero_below (suc bound) (suc x) h =
    omega (bit_and-zero_below bound (suc x / 2) (omega arith), bit_and_unroll (suc x) 0, arith)

pub bit_and-zero : (x : ℕ) → bit_and x 0 ≡ 0
bit_and-zero x = bit_and-zero_below x x (omega arith)

pub bit_or_unroll : (a b : ℕ) → bit_or a b ≡ bit_or (a / 2) (b / 2) * 2 + max (a % 2) (b % 2)
bit_or_unroll a b = simp bit_or-bitwise (bitwise_unroll (λ y. y) max (λ y. omega arith) a b)

bit_or-zero_below : (bound x : ℕ) → x ≤ bound → bit_or x 0 ≡ x
bit_or-zero_below bound zero h = refl
bit_or-zero_below zero (suc x) h = absurd (omega arith)
bit_or-zero_below (suc bound) (suc x) h =
    omega (bit_or-zero_below bound (suc x / 2) (omega arith), bit_or_unroll (suc x) 0, arith)

pub bit_or-zero : (x : ℕ) → bit_or x 0 ≡ x
bit_or-zero x = bit_or-zero_below x x (omega arith)

pub zero-bit_or : (a : ℕ) → bit_or 0 a ≡ a
zero-bit_or a = simp bit_or-bitwise refl

differ-zero-mod : (y : ℕ) → y ≡ y / 2 * 2 + differ 0 (y % 2)
differ-zero-mod y = omega arith

pub bit_xor_unroll : (a b : ℕ) → bit_xor a b ≡ bit_xor (a / 2) (b / 2) * 2 + differ (a % 2) (b % 2)
bit_xor_unroll a b = simp bit_xor-bitwise (bitwise_unroll (λ y. y) differ differ-zero-mod a b)

differ-zero : (x : ℕ) → differ x 0 ≡ x
differ-zero zero = refl
differ-zero (suc x) = refl

bit_xor-zero_below : (bound x : ℕ) → x ≤ bound → bit_xor x 0 ≡ x
bit_xor-zero_below bound zero h = refl
bit_xor-zero_below zero (suc x) h = absurd (omega arith)
bit_xor-zero_below (suc bound) (suc x) h = omega (
  bit_xor-zero_below bound (suc x / 2) (omega arith),
  bit_xor_unroll (suc x) 0,
  differ-zero (suc x % 2),
  arith,
)

pub bit_xor-zero : (x : ℕ) → bit_xor x 0 ≡ x
bit_xor-zero x = bit_xor-zero_below x x (omega arith)

-- Each operation acts on the fields above and below a bit position separately.
module _ (k q r p s : ℕ) (hr : r < 2 ^ k) (hs : s < 2 ^ k) where
  pub bit_and-split : bit_and (q * 2 ^ k + r) (p * 2 ^ k + s) ≡ bit_and q p * 2 ^ k + bit_and r s
  bit_and-split =
      simp bit_and-bitwise (bitwise-fields (λ y. 0) min (λ y. omega arith) k q r p s refl hr hs)

  pub bit_or-split : bit_or (q * 2 ^ k + r) (p * 2 ^ k + s) ≡ bit_or q p * 2 ^ k + bit_or r s
  bit_or-split =
      simp bit_or-bitwise (bitwise-fields (λ y. y) max (λ y. omega arith) k q r p s refl hr hs)

  pub bit_xor-split : bit_xor (q * 2 ^ k + r) (p * 2 ^ k + s) ≡ bit_xor q p * 2 ^ k + bit_xor r s
  bit_xor-split =
      simp bit_xor-bitwise (bitwise-fields (λ y. y) differ differ-zero-mod k q r p s refl hr hs)

-- A field above and one below do not overlap: `|` is their sum, in either order.
pub bit_or-high_low : (k q r : ℕ) → r < 2 ^ k → bit_or (q * 2 ^ k) r ≡ q * 2 ^ k + r
bit_or-high_low k q r h =
    ground
      (arith, bit_or-split k q 0 0 r (one-le-pow k 2 (omega arith)) h, bit_or-zero q, zero-bit_or r)

pub bit_or-low_high : (k q r : ℕ) → r < 2 ^ k → bit_or r (q * 2 ^ k) ≡ q * 2 ^ k + r
bit_or-low_high k q r h =
    ground
      (arith, bit_or-split k 0 r q 0 h (one-le-pow k 2 (omega arith)), zero-bit_or q, bit_or-zero r)

-- k ones keep what fits in k bits.
bit_and-ones : (k r : ℕ) → r < 2 ^ k → bit_and r (2 ^ k - 1) ≡ r
bit_and-ones zero r h = ground (arith, bit_and-zero r)
bit_and-ones (suc k) r h =
    ground
      (arith, pow-suc 2 k, one-le-pow k 2, bit_and_unroll r (2 ^ suc k - 1), bit_and-ones k (r / 2))

pub bit_and_mask : (k a : ℕ) → bit_and a (2 ^ k - 1) ≡ a % 2 ^ k
bit_and_mask k a = ground (
  arith,
  one-le-pow k 2,
  bit_and-split k (a / 2 ^ k) (a % 2 ^ k) 0 (2 ^ k - 1),
  bit_and-zero (a / 2 ^ k),
  bit_and-ones k (a % 2 ^ k),
)

-- `^` with one bit flips it.
pub bit_xor_flip :
    (k v : ℕ) → v < 2 ^ suc k → bit_xor v (2 ^ k) ≡ (if ltb v (2 ^ k) then v + 2 ^ k else v - 2 ^ k)
bit_xor_flip k v h = ground (
  arith,
  pow-suc 2 k,
  one-le-pow k 2,
  bit_xor-split k 0 v 1 0,
  bit_xor-split k 1 (v - 2 ^ k) 1 0,
  bit_xor-zero v,
  bit_xor-zero (v - 2 ^ k),
)

pub bit_and-lt : (k a b : ℕ) → a < 2 ^ k → b < 2 ^ k → bit_and a b < 2 ^ k
bit_and-lt k a b ha hb =
    simp bit_and-bitwise
      (bitwise-lt (λ y. 0) min (λ y. omega arith) k a b refl (λ x y hx hy. omega arith) ha hb)

pub bit_or-lt : (k a b : ℕ) → a < 2 ^ k → b < 2 ^ k → bit_or a b < 2 ^ k
bit_or-lt k a b ha hb =
    simp bit_or-bitwise
      (bitwise-lt (λ y. y) max (λ y. omega arith) k a b refl (λ x y hx hy. omega arith) ha hb)

differ-lt : (x y : ℕ) → x < 2 → y < 2 → differ x y < 2
differ-lt zero y hx hy = hy
differ-lt (suc zero) zero hx hy = hx
differ-lt (suc zero) (suc y) hx hy = omega arith
differ-lt (suc (suc x)) y hx hy = absurd (omega arith)

pub bit_xor-lt : (k a b : ℕ) → a < 2 ^ k → b < 2 ^ k → bit_xor a b < 2 ^ k
bit_xor-lt k a b ha hb =
    simp bit_xor-bitwise (bitwise-lt (λ y. y) differ differ-zero-mod k a b refl differ-lt ha hb)
