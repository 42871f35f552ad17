-- ===== src/Vm/Decoder/Fields.antt =====
-- The fields of an instruction word as arithmetic.
use rv32umos.Base.{
  ℕ, ◌+◌, ◌*◌, ◌/◌, ◌%◌, ◌^◌, ◌<◌, ◌≡◌, arith, bit_or, shl32, signed, to_word, ap, ◌∙◌,
}
use native.Mathlib.Nat.{div-add-mod'}
use rv32umos.Bits.{bit_or-high_low}
use rv32umos.Vm.Utils.{sign_extend}
use rv32umos.Vm.Utils.Laws.{extract_bits_lem, sign_extend_lem}
use rv32umos.Vm.Decoder.{
  opcode, rd, func3, rs1, rs2, func7, imm_i, imm_s, imm_b, imm_u, imm_j, shamt_i, shamt_r,
}

-- `|` of a field below a word whose low bits are clear.
bit_or-aligned : (k x r : ℕ) → x % 2 ^ k ≡ 0 → r < 2 ^ k → bit_or x r ≡ x + r
bit_or-aligned k x r e h = ground (arith, bit_or-high_low k (x / 2 ^ k) r h, div-add-mod' x (2 ^ k))

glue_s : (a b : ℕ) → a < 128 → b < 32 → bit_or (shl32 a 5) b ≡ a * 32 + b
glue_s a b ha hb = omega (arith, bit_or-aligned 5 (shl32 a 5) b (omega arith) (omega arith))

-- Four fields, each below the one before it.
glue_four :
    (i j k a b c d : ℕ)
    → a % 2 ^ i ≡ 0
    → b < 2 ^ i
    → (a + b) % 2 ^ j ≡ 0
    → c < 2 ^ j
    → (a + b + c) % 2 ^ k ≡ 0
    → d < 2 ^ k
    → bit_or (bit_or (bit_or a b) c) d ≡ a + b + c + d
glue_four i j k a b c d ha hb hab hc habc hd =
    rw (bit_or-aligned i a b ha hb, bit_or-aligned j (a + b) c hab hc)
      (bit_or-aligned k (a + b + c) d habc hd)

module _ (w : ℕ) where
  pub opcode_lem : opcode w ≡ w % 128
  unfolding opcode
  opcode_lem = omega (arith, extract_bits_lem w 0 6 (omega arith))

  pub rd_lem : rd w ≡ w / 2 ^ 7 % 32
  unfolding rd
  rd_lem = extract_bits_lem w 7 11 (omega arith)

  pub func3_lem : func3 w ≡ w / 2 ^ 12 % 8
  unfolding func3
  func3_lem = extract_bits_lem w 12 14 (omega arith)

  pub rs1_lem : rs1 w ≡ w / 2 ^ 15 % 32
  unfolding rs1
  rs1_lem = extract_bits_lem w 15 19 (omega arith)

  pub rs2_lem : rs2 w ≡ w / 2 ^ 20 % 32
  unfolding rs2
  rs2_lem = extract_bits_lem w 20 24 (omega arith)

  pub func7_lem : func7 w ≡ w / 2 ^ 25 % 128
  unfolding func7
  func7_lem = extract_bits_lem w 25 31 (omega arith)

  pub shamt_i_lem : shamt_i w ≡ w / 2 ^ 20 % 32
  unfolding shamt_i
  shamt_i_lem = extract_bits_lem w 20 24 (omega arith)

  pub shamt_r_lem : shamt_r w ≡ w % 32
  unfolding shamt_r
  shamt_r_lem = omega (arith, extract_bits_lem w 0 4 (omega arith))

  pub imm_u_lem : imm_u w ≡ w / 2 ^ 12 % 2 ^ 20 * 2 ^ 12
  unfolding imm_u
  imm_u_lem = omega (arith, extract_bits_lem w 12 31 (omega arith))

  pub imm_i_lem : imm_i w ≡ to_word (signed 12 (w / 2 ^ 20 % 2 ^ 12))
  unfolding imm_i
  imm_i_lem =
      rw (extract_bits_lem w 20 31 (omega arith)) (sign_extend_lem 11 _ (omega arith) (omega arith))

  pub imm_s_lem : imm_s w ≡ to_word (signed 12 (w / 2 ^ 25 % 2 ^ 7 * 2 ^ 5 + w / 2 ^ 7 % 2 ^ 5))
  unfolding imm_s
  imm_s_lem =
      rw
        (
          extract_bits_lem w 25 31 (omega arith),
          extract_bits_lem w 7 11 (omega arith),
          glue_s (w / 2 ^ 25 % 2 ^ 7) (w / 2 ^ 7 % 2 ^ 5) (omega arith) (omega arith),
        )
        (sign_extend_lem 11 _ (omega arith) (omega arith))

  -- The twelve bits of a branch offset, and the 0 below them.
  abbrev pub offset_b : ℕ
  offset_b =
      w / 2 ^ 31 % 2 * 2 ^ 12
      + w / 2 ^ 7 % 2 * 2 ^ 11
      + w / 2 ^ 25 % 2 ^ 6 * 2 ^ 5
      + w / 2 ^ 8 % 2 ^ 4 * 2

  pub imm_b_lem : imm_b w ≡ to_word (signed 13 offset_b)
  unfolding imm_b
  imm_b_lem =
      rw
        (
          extract_bits_lem w 31 31 (omega arith),
          extract_bits_lem w 25 30 (omega arith),
          extract_bits_lem w 8 11 (omega arith),
          extract_bits_lem w 7 7 (omega arith),
        )
        (ap (λ (t : ℕ). sign_extend t 13) glued
          ∙ sign_extend_lem 12 offset_b (omega arith) (omega arith))
    where
      glued :
          bit_or
            (bit_or
              (bit_or (shl32 (w / 2 ^ 31 % 2) 12) (shl32 (w / 2 ^ 7 % 2) 11))
              (shl32 (w / 2 ^ 25 % 2 ^ 6) 5))
            (shl32 (w / 2 ^ 8 % 2 ^ 4) 1)
          ≡ offset_b
      glued = omega (
        arith,
        glue_four 12 11 5 (shl32 (w / 2 ^ 31 % 2) 12) (shl32 (w / 2 ^ 7 % 2) 11)
            (shl32 (w / 2 ^ 25 % 2 ^ 6) 5) (shl32 (w / 2 ^ 8 % 2 ^ 4) 1) (omega arith) (omega arith)
            (omega arith) (omega arith) (omega arith) (omega arith),
      )

  -- The twenty bits of a jump offset, and the 0 below them.
  abbrev pub offset_j : ℕ
  offset_j =
      w / 2 ^ 31 % 2 * 2 ^ 20
      + w / 2 ^ 12 % 2 ^ 8 * 2 ^ 12
      + w / 2 ^ 20 % 2 * 2 ^ 11
      + w / 2 ^ 21 % 2 ^ 10 * 2

  pub imm_j_lem : imm_j w ≡ to_word (signed 21 offset_j)
  unfolding imm_j
  imm_j_lem =
      rw
        (
          extract_bits_lem w 31 31 (omega arith),
          extract_bits_lem w 21 30 (omega arith),
          extract_bits_lem w 20 20 (omega arith),
          extract_bits_lem w 12 19 (omega arith),
        )
        (ap (λ (t : ℕ). sign_extend t 21) glued
          ∙ sign_extend_lem 20 offset_j (omega arith) (omega arith))
    where
      glued :
          bit_or
            (bit_or
              (bit_or (shl32 (w / 2 ^ 31 % 2) 20) (shl32 (w / 2 ^ 12 % 2 ^ 8) 12))
              (shl32 (w / 2 ^ 20 % 2) 11))
            (shl32 (w / 2 ^ 21 % 2 ^ 10) 1)
          ≡ offset_j
      glued = omega (
        arith,
        glue_four 20 12 11 (shl32 (w / 2 ^ 31 % 2) 20) (shl32 (w / 2 ^ 12 % 2 ^ 8) 12)
            (shl32 (w / 2 ^ 20 % 2) 11) (shl32 (w / 2 ^ 21 % 2 ^ 10) 1) (omega arith) (omega arith)
            (omega arith) (omega arith) (omega arith) (omega arith),
      )
