-- ===== src/Vm/Executor/MulDiv/High.antt =====
-- The high halves of products.
use native.Mathlib.Decide.{dec_lt}
use native.Mathlib.Nat.{mul-le-mul_right}
use rv32umos.Base.{
  ℕ, suc, ◌+◌, ◌-◌, ◌*◌, ◌%◌, ◌^◌, ◌<◌, ◌≤◌, ◌≡◌, ap, arith, signed, to_word, shr_ℤ, pos, negsuc,
  ◌*ℤ◌, mul32, inl, inr, sub_ℕ, ◌⊎◌,
}
use rv32umos.Vm.Isa.{extend, high_word}
use rv32umos.Vm.Executor.MulDiv.{mulh, mulhsu, mulhu}

product-lt : (a b : ℕ) → a ≤ 2 ^ 32 → b < 2 ^ 32 → a * b < 2 ^ 64
product-lt a b ha hb = omega (arith, mul-le-mul_right {m = a} {n = 2 ^ 32} b ha)

pub mulhu_lem : (a b : ℕ) → a < 2 ^ 32 → b < 2 ^ 32 → mulhu a b ≡ high_word (a * b)
unfolding mulhu
mulhu_lem a b ha hb = omega (arith, product-lt a b (omega arith) hb)

-- MULHU and MUL of any two words are the two halves of their product.
pub mulhu-mul : (a b : ℕ) → a < 2 ^ 32 → b < 2 ^ 32 → mulhu a b * 2 ^ 32 + mul32 a b ≡ a * b
unfolding mulhu
mulhu-mul a b ha hb = omega (arith, product-lt a b (omega arith) hb)

-- The high word of an integer p - n that is m modulo 2 ^ 64.
high_of_parts :
    (p n m : ℕ)
    → n < 2 ^ 64
    → p < 2 ^ 64
    → (m + n) % 2 ^ 64 ≡ p % 2 ^ 64
    → to_word (shr_ℤ (sub_ℕ p n) 32) ≡ high_word m
high_of_parts p n m hn hp e = ground arith

-- A signed word is nonnegative, or 2 ^ 32 below its pattern.
abbrev pub Signs : ℕ → Type 0
Signs a =
    ((signed 32 a ≡ pos a) × (a < 2 ^ 31) × (extend a ≡ a))
    ⊎ ((x : ℕ) × (signed 32 a ≡ negsuc x)
        × (suc x + a ≡ 2 ^ 32)
        × (extend a ≡ a + (2 ^ 64 - 2 ^ 32))
        × (2 ^ 31 ≤ a))

pub signs : (a : ℕ) → a < 2 ^ 32 → Signs a
signs a h = elim (dec_lt a (2 ^ 31)) [
  | yes p ↦ inl (ground arith, p, ground arith)
  | no p ↦ inr (2 ^ 32 - a - 1, ground arith, omega arith, ground arith, omega arith)
]

pub mulhsu_lem : (a b : ℕ) → a < 2 ^ 32 → b < 2 ^ 32 → mulhsu a b ≡ high_word (extend a * b)
unfolding mulhsu ◌*ℤ◌
mulhsu_lem a b ha hb = elim (signs a ha) [
  | inl (e, _, x) ↦
      rw (mulhsu, e, x)
        (high_of_parts (a * b + 0 * 0) (a * 0 + 0 * b) (a * b) (omega arith)
          (omega (arith, product-lt a b (omega arith) hb)) (omega arith))
  | inr (n, e, s, x, _) ↦
      rw (mulhsu, e, x)
        (high_of_parts (0 * b + suc n * 0) (0 * 0 + suc n * b) ((a + (2 ^ 64 - 2 ^ 32)) * b)
          (omega (arith, product-lt (suc n) b (omega arith) hb)) (omega arith)
          (omega (arith, ap (λ (t : ℕ). t * b) s)))
]

pub mulh_lem : (a b : ℕ) → a < 2 ^ 32 → b < 2 ^ 32 → mulh a b ≡ high_word (extend a * extend b)
unfolding mulh ◌*ℤ◌
mulh_lem a b ha hb = elim (signs a ha) [
  | inl (e, _, x) ↦ elim (signs b hb) [
    | inl (f, _, y) ↦
        rw (mulh, e, x, f, y)
          (high_of_parts (a * b + 0 * 0) (a * 0 + 0 * b) (a * b) (omega arith)
            (omega (arith, product-lt a b (omega arith) hb)) (omega arith))
    | inr (m, f, t, y, above) ↦
        rw (mulh, e, x, f, y)
          (high_of_parts (a * 0 + 0 * suc m) (a * suc m + 0 * 0) (a * (b + (2 ^ 64 - 2 ^ 32)))
            (omega (arith, product-lt (suc m) a (omega arith) ha)) (omega arith)
            (omega (arith, ap (λ (z : ℕ). a * z) t)))
  ]
  | inr (n, e, s, x, above') ↦ elim (signs b hb) [
    | inl (f, _, y) ↦
        rw (mulh, e, x, f, y)
          (high_of_parts (0 * b + suc n * 0) (0 * 0 + suc n * b) ((a + (2 ^ 64 - 2 ^ 32)) * b)
            (omega (arith, product-lt (suc n) b (omega arith) hb)) (omega arith)
            (omega (arith, ap (λ (z : ℕ). z * b) s)))
    | inr (m, f, t, y, above) ↦
        rw (mulh, e, x, f, y)
          (high_of_parts (0 * 0 + suc n * suc m) (0 * suc m + suc n * 0)
            ((a + (2 ^ 64 - 2 ^ 32)) * (b + (2 ^ 64 - 2 ^ 32))) (omega arith)
            (omega (arith, product-lt (suc n) (suc m) (omega arith) (omega arith)))
            (omega
              (arith, ap (λ (z : ℕ). z * (b + (2 ^ 64 - 2 ^ 32))) s, ap (λ (z : ℕ). suc n * z) t)))
  ]
]
