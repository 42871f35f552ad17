-- ===== src/Vm/Decoder.antt =====
-- rv32vm/Decoder.hpp and rv32vm/Decoder.cpp. An `Opcode`, `Func3` or `Func7` is the number that
-- its enumeration gives it.
pub mod Fields
pub mod Encoding
pub mod Tests
use rv32umos.Base.{ℕ, bit_or, shl32}
use rv32umos.Vm.Utils.{extract_bits, sign_extend}

pub opcode : ℕ → ℕ
opcode instr = extract_bits instr 0 6

pub rd : ℕ → ℕ
rd instr = extract_bits instr 7 11

pub func3 : ℕ → ℕ
func3 instr = extract_bits instr 12 14

pub rs1 : ℕ → ℕ
rs1 instr = extract_bits instr 15 19

pub rs2 : ℕ → ℕ
rs2 instr = extract_bits instr 20 24

pub func7 : ℕ → ℕ
func7 instr = extract_bits instr 25 31

pub imm_i : ℕ → ℕ
imm_i instr = let imm = extract_bits instr 20 31 in sign_extend imm 12

pub imm_s : ℕ → ℕ
imm_s instr =
    let imm_11_5 = extract_bits instr 25 31 in
    let imm_4_0 = extract_bits instr 7 11 in
    let imm = bit_or (shl32 imm_11_5 5) imm_4_0 in sign_extend imm 12

pub imm_b : ℕ → ℕ
imm_b instr =
    let imm12 = extract_bits instr 31 31 in
    let imm10_5 = extract_bits instr 25 30 in
    let imm4_1 = extract_bits instr 8 11 in
    let imm11 = extract_bits instr 7 7 in
    let imm =
      bit_or (bit_or (bit_or (shl32 imm12 12) (shl32 imm11 11)) (shl32 imm10_5 5))
        (shl32 imm4_1 1) in
    sign_extend imm 13

pub imm_u : ℕ → ℕ
imm_u instr = shl32 (extract_bits instr 12 31) 12

pub imm_j : ℕ → ℕ
imm_j instr =
    let imm20 = extract_bits instr 31 31 in
    let imm10_1 = extract_bits instr 21 30 in
    let imm11 = extract_bits instr 20 20 in
    let imm19_12 = extract_bits instr 12 19 in
    let imm =
      bit_or (bit_or (bit_or (shl32 imm20 20) (shl32 imm19_12 12)) (shl32 imm11 11))
        (shl32 imm10_1 1) in
    sign_extend imm 21

pub shamt_i : ℕ → ℕ
shamt_i instr = extract_bits instr 20 24

pub shamt_r : ℕ → ℕ
shamt_r val = extract_bits val 0 4
