-- ===== src/Vm/Decoder/Encoding.antt =====
-- The instruction formats of the RISC-V manual, written as sums of fields, and the decoder on them.
-- Immediates are two's complement patterns: 12 bits in the formats I and S, 13 in B, 21 in J.
use rv32umos.Base.{ℕ, ◌+◌, ◌*◌, ◌/◌, ◌%◌, ◌^◌, ◌<◌, ◌≡◌, ap, ◌∙◌, arith, signed, to_word}
use rv32umos.Vm.Decoder.{
  opcode, rd, func3, rs1, rs2, func7, imm_i, imm_s, imm_b, imm_u, imm_j, shamt_i,
}
use rv32umos.Vm.Decoder.Fields.{
  opcode_lem, rd_lem, func3_lem, rs1_lem, rs2_lem, func7_lem, imm_i_lem, imm_s_lem, imm_b_lem,
  imm_u_lem, imm_j_lem, shamt_i_lem,
}

pub encode_r : ℕ → ℕ → ℕ → ℕ → ℕ → ℕ → ℕ
encode_r op f7 s2 s1 f3 d = f7 * 2 ^ 25 + s2 * 2 ^ 20 + s1 * 2 ^ 15 + f3 * 2 ^ 12 + d * 2 ^ 7 + op

pub encode_i : ℕ → ℕ → ℕ → ℕ → ℕ → ℕ
encode_i op imm s1 f3 d = imm * 2 ^ 20 + s1 * 2 ^ 15 + f3 * 2 ^ 12 + d * 2 ^ 7 + op

pub encode_s : ℕ → ℕ → ℕ → ℕ → ℕ → ℕ
encode_s op imm s2 s1 f3 =
    imm / 32 * 2 ^ 25 + s2 * 2 ^ 20 + s1 * 2 ^ 15 + f3 * 2 ^ 12 + imm % 32 * 2 ^ 7 + op

pub encode_b : ℕ → ℕ → ℕ → ℕ → ℕ → ℕ
encode_b op imm s2 s1 f3 =
    imm / 2 ^ 12 * 2 ^ 31
    + imm / 2 ^ 5 % 2 ^ 6 * 2 ^ 25
    + s2 * 2 ^ 20
    + s1 * 2 ^ 15
    + f3 * 2 ^ 12
    + imm / 2 % 2 ^ 4 * 2 ^ 8
    + imm / 2 ^ 11 % 2 * 2 ^ 7
    + op

pub encode_u : ℕ → ℕ → ℕ → ℕ
encode_u op imm d = imm * 2 ^ 12 + d * 2 ^ 7 + op

pub encode_j : ℕ → ℕ → ℕ → ℕ
encode_j op imm d =
    imm / 2 ^ 20 * 2 ^ 31
    + imm / 2 % 2 ^ 10 * 2 ^ 21
    + imm / 2 ^ 11 % 2 * 2 ^ 20
    + imm / 2 ^ 12 % 2 ^ 8 * 2 ^ 12
    + d * 2 ^ 7
    + op

module _ (op f3 d s1 s2 f7 : ℕ) (hop : op < 128) (h3 : f3 < 8) (hd : d < 32) (h1 : s1 < 32)
    (h2 : s2 < 32) (h7 : f7 < 128) where
  -- Decoding an R-type word gives back every field; the shift amount of the shifts by an
  -- immediate stands where rs2 does.
  pub decode-encode_r :
      let w = encode_r op f7 s2 s1 f3 d in
      (opcode w ≡ op)
      × (rd w ≡ d)
      × (func3 w ≡ f3)
      × (rs1 w ≡ s1)
      × (rs2 w ≡ s2)
      × (func7 w ≡ f7)
      × (shamt_i w ≡ s2)
  unfolding encode_r
  decode-encode_r =
      let w = encode_r op f7 s2 s1 f3 d in
      (
        omega (arith, opcode_lem w),
        omega (arith, rd_lem w),
        omega (arith, func3_lem w),
        omega (arith, rs1_lem w),
        omega (arith, rs2_lem w),
        omega (arith, func7_lem w),
        omega (arith, shamt_i_lem w),
      )

module _ (op imm f3 d s1 : ℕ) (hop : op < 128) (hi : imm < 2 ^ 12) (h3 : f3 < 8) (hd : d < 32)
    (h1 : s1 < 32) where
  -- Decoding an I-type word gives back every field and the sign-extended immediate.
  pub decode-encode_i :
      let w = encode_i op imm s1 f3 d in
      (opcode w ≡ op)
      × (rd w ≡ d)
      × (func3 w ≡ f3)
      × (rs1 w ≡ s1)
      × (imm_i w ≡ to_word (signed 12 imm))
  unfolding encode_i
  decode-encode_i =
      let w = encode_i op imm s1 f3 d in
      (
        omega (arith, opcode_lem w),
        omega (arith, rd_lem w),
        omega (arith, func3_lem w),
        omega (arith, rs1_lem w),
        imm_i_lem w ∙ ap (λ (t : ℕ). to_word (signed 12 t)) (omega arith),
      )

module _ (op imm f3 s1 s2 : ℕ) (hop : op < 128) (h3 : f3 < 8) (h1 : s1 < 32) (h2 : s2 < 32) where
  -- Decoding an S-type word gives back every field and the sign-extended immediate, which the
  -- format splits in two.
  pub decode-encode_s :
      imm < 2 ^ 12
      → let w = encode_s op imm s2 s1 f3 in
        (opcode w ≡ op)
        × (func3 w ≡ f3)
        × (rs1 w ≡ s1)
        × (rs2 w ≡ s2)
        × (imm_s w ≡ to_word (signed 12 imm))
  unfolding encode_s
  decode-encode_s hi =
      let w = encode_s op imm s2 s1 f3 in
      (
        omega (arith, opcode_lem w),
        omega (arith, func3_lem w),
        omega (arith, rs1_lem w),
        omega (arith, rs2_lem w),
        imm_s_lem w ∙ ap (λ (t : ℕ). to_word (signed 12 t)) (omega arith),
      )

  -- Decoding a B-type word gives back every field and the sign-extended offset, which is even and
  -- which the format scatters over four fields.
  pub decode-encode_b :
      imm < 2 ^ 13
      → imm % 2 ≡ 0
      → let w = encode_b op imm s2 s1 f3 in
        (opcode w ≡ op)
        × (func3 w ≡ f3)
        × (rs1 w ≡ s1)
        × (rs2 w ≡ s2)
        × (imm_b w ≡ to_word (signed 13 imm))
  unfolding encode_b
  decode-encode_b hi even =
      let w = encode_b op imm s2 s1 f3 in
      (
        omega (arith, opcode_lem w),
        omega (arith, func3_lem w),
        omega (arith, rs1_lem w),
        omega (arith, rs2_lem w),
        imm_b_lem w ∙ ap (λ (t : ℕ). to_word (signed 13 t)) (omega arith),
      )

module _ (op imm d : ℕ) (hop : op < 128) (hd : d < 32) where
  -- Decoding a U-type word gives back every field, the immediate in the upper 20 bits.
  pub decode-encode_u :
      imm < 2 ^ 20
      → let w = encode_u op imm d in (opcode w ≡ op) × (rd w ≡ d) × (imm_u w ≡ imm * 2 ^ 12)
  unfolding encode_u
  decode-encode_u hi =
      let w = encode_u op imm d in
      (omega (arith, opcode_lem w), omega (arith, rd_lem w), omega (arith, imm_u_lem w))

  -- Decoding a J-type word gives back every field and the sign-extended even offset.
  pub decode-encode_j :
      imm < 2 ^ 21
      → imm % 2 ≡ 0
      → let w = encode_j op imm d in
        (opcode w ≡ op) × (rd w ≡ d) × (imm_j w ≡ to_word (signed 21 imm))
  unfolding encode_j
  decode-encode_j hi even =
      let w = encode_j op imm d in
      (
        omega (arith, opcode_lem w),
        omega (arith, rd_lem w),
        imm_j_lem w ∙ ap (λ (t : ℕ). to_word (signed 21 t)) (omega arith),
      )
