-- ===== src/Bits/Digits.antt =====
-- An operation on binary digits, as the native `bit_and`, `bit_or` and `bit_xor` are, splits along
-- any digit position. `f` is the operation on two digits, `z` the result once the first number is 0.
use Prim.Native.Nat.{digits, bitwise}
use native.Mathlib.Nat.{pow-suc, le_refl}
use rv32umos.Base.{ℕ, zero, suc, ◌+◌, ◌*◌, ◌/◌, ◌%◌, ◌^◌, ◌≤◌, ◌<◌, ◌≡◌, refl, ap, arith}

module _ (z : ℕ → ℕ) (f : ℕ → ℕ → ℕ) where
  -- Any two amounts of fuel from the first number on give the same digits.
  enough : (x y k l : ℕ) → x ≤ k → x ≤ l → digits z f k x y ≡ digits z f l x y
  enough zero y zero zero hk hl = refl
  enough zero y zero (suc l) hk hl = refl
  enough zero y (suc k) zero hk hl = refl
  enough zero y (suc k) (suc l) hk hl =
      omega (arith, enough (zero / 2) (y / 2) k l (omega arith) (omega arith))
  enough (suc x) y zero l hk hl = absurd (omega arith)
  enough (suc x) y (suc k) zero hk hl = absurd (omega arith)
  enough (suc x) y (suc k) (suc l) hk hl =
      omega (arith, enough (suc x / 2) (y / 2) k l (omega arith) (omega arith))

  module _ (ends : (b : ℕ) → z b ≡ z (b / 2) * 2 + f 0 (b % 2)) where
    -- The lowest digit, and the others.
    pub bitwise_unroll :
        (a b : ℕ) → bitwise z f a b ≡ bitwise z f (a / 2) (b / 2) * 2 + f (a % 2) (b % 2)
    bitwise_unroll zero b = ends b
    bitwise_unroll (suc a) b =
        omega (arith, enough (suc a / 2) (b / 2) a (suc a / 2) (omega arith) (le_refl _))

    pub bitwise-fields :
        (k q r p s : ℕ)
        → z 0 ≡ 0
        → r < 2 ^ k
        → s < 2 ^ k
        → bitwise z f (q * 2 ^ k + r) (p * 2 ^ k + s) ≡ bitwise z f q p * 2 ^ k + bitwise z f r s
    bitwise-fields zero q zero p zero e hr hs = ground (arith, e)
    bitwise-fields zero q zero p (suc s) e hr hs = absurd (omega arith)
    bitwise-fields zero q (suc r) p s e hr hs = absurd (omega arith)
    bitwise-fields (suc k) q r p s e hr hs = ground (
      arith,
      ap (λ (t : ℕ). q * t) (pow-suc 2 k),
      ap (λ (t : ℕ). p * t) (pow-suc 2 k),
      ap (λ (t : ℕ). bitwise z f q p * t) (pow-suc 2 k),
      bitwise_unroll (q * 2 ^ suc k + r) (p * 2 ^ suc k + s),
      bitwise_unroll r s,
      bitwise-fields k q (r / 2) p (s / 2) e (omega arith) (omega arith),
    )

    pub bitwise-lt :
        (k r s : ℕ)
        → z 0 ≡ 0
        → ((x y : ℕ) → x < 2 → y < 2 → f x y < 2)
        → r < 2 ^ k
        → s < 2 ^ k
        → bitwise z f r s < 2 ^ k
    bitwise-lt zero zero zero e h hr hs = omega (arith, e)
    bitwise-lt zero zero (suc s) e h hr hs = absurd (omega arith)
    bitwise-lt zero (suc r) s e h hr hs = absurd (omega arith)
    bitwise-lt (suc k) r s e h hr hs = omega (
      arith,
      pow-suc 2 k,
      bitwise_unroll r s,
      h (r % 2) (s % 2) (omega arith) (omega arith),
      bitwise-lt k (r / 2) (s / 2) e h (omega arith) (omega arith),
    )
