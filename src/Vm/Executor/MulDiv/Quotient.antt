-- ===== src/Vm/Executor/MulDiv/Quotient.antt =====
-- Division and remainder.
use native.Mathlib.Decide.{dec_lt}
use native.Mathlib.Nat.{div-add-mod, mod-lt, div-le_self}
use rv32umos.Base.{
  ◌≤◌, ℕ, suc, ◌-◌, ◌+◌, ◌*◌, ◌/◌, ◌%◌, ap, ◌^◌, ◌<◌, ◌≡◌, arith, ◌/ℤ◌, ◌%ℤ◌, ◌==◌, if◌then◌else◌,
  inl, inr,
}
use rv32umos.Vm.Isa.{quotient, remainder}
use rv32umos.Vm.Executor.MulDiv.{div, rem}
use rv32umos.Vm.Executor.MulDiv.High.{signs}

pub div_lem :
    (a b : ℕ) → a < 2 ^ 32 → b < 2 ^ 32 → div a b ≡ (if b == 0 then 2 ^ 32 - 1 else quotient a b)
unfolding div ◌/ℤ◌
div_lem a b ha hb = elim (signs a ha) [
  | inl (e, p, _) ↦ elim (signs b hb) [
    | inl (f, q, _) ↦ rw (div, e, f) (ground arith)
    | inr (m, f, t, _, q) ↦
        let y : 2 ^ 32 - b ≡ suc m = omega arith in rw (div, e, f) (ground (arith, y))
  ]
  | inr (n, e, s, _, p) ↦
      let x : 2 ^ 32 - a ≡ suc n = omega arith in
      elim (signs b hb) [
        | inl (f, q, _) ↦ rw (div, e, f) (ground (arith, x))
        | inr (m, f, t, _, q) ↦
            let y : 2 ^ 32 - b ≡ suc m = omega arith in rw (div, e, f) (ground (arith, x, y))
      ]
]

pub rem_lem : (a b : ℕ) → a < 2 ^ 32 → b < 2 ^ 32 → rem a b ≡ (if b == 0 then a else remainder a b)
unfolding rem ◌%ℤ◌
rem_lem a b ha hb = elim (signs a ha) [
  | inl (e, p, _) ↦ elim (signs b hb) [
    | inl (f, q, _) ↦ rw (rem, e, f) (ground arith)
    | inr (m, f, t, _, q) ↦
        let y : 2 ^ 32 - b ≡ suc m = omega arith in rw (rem, e, f) (ground (arith, y))
  ]
  | inr (n, e, s, _, p) ↦
      let x : 2 ^ 32 - a ≡ suc n = omega arith in
      elim (signs b hb) [
        | inl (f, q, _) ↦ rw (rem, e, f) (ground (arith, x))
        | inr (m, f, t, _, q) ↦
            let y : 2 ^ 32 - b ≡ suc m = omega arith in rw (rem, e, f) (ground (arith, x, y))
      ]
]

mul-mod_word : (b a c : ℕ) → (b * (a % 2 ^ 32) + c % 2 ^ 32) % 2 ^ 32 ≡ (b * a + c) % 2 ^ 32
mul-mod_word b a c = omega (arith, ap (λ (t : ℕ). b * t) (div-add-mod a (2 ^ 32)))

-- The dividend again, from words that stand for ± q and ± r.
module _ (q q' r r' x y y' : ℕ) (e : y * q + r ≡ x) (hq : q' + q ≡ 2 ^ 32) (hr : r' + r ≡ 2 ^ 32)
    (hy : y' + y ≡ 2 ^ 32) where
  recompose_pn : (y' * q' + r) % 2 ^ 32 ≡ x % 2 ^ 32
  recompose_pn = omega (arith, ap (λ (t : ℕ). y' * t) hq, ap (λ (t : ℕ). t * q) hy)

  recompose_np : (y * q' + r') % 2 ^ 32 ≡ (2 ^ 32 + 2 ^ 32 - x % 2 ^ 32) % 2 ^ 32
  recompose_np = omega (arith, ap (λ (t : ℕ). y * t) hq)

  recompose_nn : (y' * q + r') % 2 ^ 32 ≡ (2 ^ 32 + 2 ^ 32 - x % 2 ^ 32) % 2 ^ 32
  recompose_nn = omega (arith, ap (λ (t : ℕ). t * q) hy)

-- The words that DIV and REM give, by the signs of their operands.
module _ (a b : ℕ) (ha : a < 2 ^ 32) (hb : b < 2 ^ 32) where
  div-rem_pp : a < 2 ^ 31 → b < 2 ^ 31 → 0 < b → (div a b ≡ a / b) × (rem a b ≡ a % b)
  div-rem_pp p q z = (ground (arith, div_lem a b ha hb), ground (arith, rem_lem a b ha hb))

  div-rem_pn :
      a < 2 ^ 31
      → 2 ^ 31 ≤ b
      → (div a b ≡ (2 ^ 32 - a / (2 ^ 32 - b)) % 2 ^ 32) × (rem a b ≡ a % (2 ^ 32 - b))
  div-rem_pn p q = (ground (arith, div_lem a b ha hb), ground (arith, rem_lem a b ha hb))

  div-rem_np :
      2 ^ 31 ≤ a
      → b < 2 ^ 31
      → 0 < b
      → (div a b ≡ (2 ^ 32 - (2 ^ 32 - a) / b) % 2 ^ 32)
        × (rem a b ≡ (2 ^ 32 - (2 ^ 32 - a) % b) % 2 ^ 32)
  div-rem_np p q z = (ground (arith, div_lem a b ha hb), ground (arith, rem_lem a b ha hb))

  div-rem_nn :
      2 ^ 31 ≤ a
      → 2 ^ 31 ≤ b
      → (div a b ≡ (2 ^ 32 - a) / (2 ^ 32 - b))
        × (rem a b ≡ (2 ^ 32 - (2 ^ 32 - a) % (2 ^ 32 - b)) % 2 ^ 32)
  div-rem_nn p q = (ground (arith, div_lem a b ha hb), ground (arith, rem_lem a b ha hb))

  identity_zero : b ≡ 0 → (b * div a b + rem a b) % 2 ^ 32 ≡ a
  identity_zero z = rw (z, rem-zero) (omega arith)
    where
      rem-zero : rem a 0 ≡ a
      rem-zero = rem_lem a 0 ha (omega arith)

  identity_pn : a < 2 ^ 31 → 2 ^ 31 ≤ b → (b * div a b + rem a b) % 2 ^ 32 ≡ a
  identity_pn p q =
      let y : ℕ = 2 ^ 32 - b in
      let k : ℕ = a / y in
      let le : k ≤ a = div-le_self a y in
      let r : ℕ = a % y in
      rw ((div-rem_pn p q).0, (div-rem_pn p q).1)
        (omega (
          arith,
          mul-mod_word b (2 ^ 32 - k) r,
          recompose_pn k (2 ^ 32 - k) r (2 ^ 32 - r) a y b (div-add-mod a y) (omega arith)
              (omega (arith, mod-lt a {m = y} (omega arith))) (omega arith),
        ))

  identity_np : 2 ^ 31 ≤ a → b < 2 ^ 31 → 0 < b → (b * div a b + rem a b) % 2 ^ 32 ≡ a
  identity_np p q z =
      let x : ℕ = 2 ^ 32 - a in
      let k : ℕ = x / b in
      let r : ℕ = x % b in
      let le : k ≤ x = div-le_self x b in
      let lt : r < b = mod-lt x z in
      rw ((div-rem_np p q z).0, (div-rem_np p q z).1)
        (omega (
          arith,
          mul-mod_word b (2 ^ 32 - k) (2 ^ 32 - r),
          recompose_np k (2 ^ 32 - k) r (2 ^ 32 - r) x b (2 ^ 32 - b) (div-add-mod x b)
              (omega arith) (omega arith) (omega arith),
        ))

  identity_nn : 2 ^ 31 ≤ a → 2 ^ 31 ≤ b → (b * div a b + rem a b) % 2 ^ 32 ≡ a
  identity_nn p q =
      let x : ℕ = 2 ^ 32 - a in
      let y : ℕ = 2 ^ 32 - b in
      let k : ℕ = x / y in
      let r : ℕ = x % y in
      let le : k ≤ x = div-le_self x y in
      let lt : r < y = mod-lt x (omega arith) in
      rw ((div-rem_nn p q).0, (div-rem_nn p q).1)
        (omega (
          arith,
          recompose_nn k (2 ^ 32 - k) r (2 ^ 32 - r) x y b (div-add-mod x y) (omega arith)
              (omega arith) (omega arith),
        ))

  -- The remainder's word is the divisor's times the quotient's short of the dividend, for every
  -- two words: division by zero and the overflow of the least integer by -1 are no exceptions.
  pub div-rem : (b * div a b + rem a b) % 2 ^ 32 ≡ a
  div-rem = elim (dec_lt 0 b) [
    | yes z ↦ elim (dec_lt a (2 ^ 31)) [
      | yes p ↦ elim (dec_lt b (2 ^ 31)) [
        | yes q ↦ rw ((div-rem_pp p q z).0, (div-rem_pp p q z).1) (omega (arith, div-add-mod a b))
        | no q ↦ identity_pn p (omega arith)
      ]
      | no p ↦ elim (dec_lt b (2 ^ 31)) [
        | yes q ↦ identity_np (omega arith) q z
        | no q ↦ identity_nn (omega arith) (omega arith)
      ]
    ]
    | no z ↦ identity_zero (omega arith)
  ]
