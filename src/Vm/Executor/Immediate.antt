-- ===== src/Vm/Executor/Immediate.antt =====
-- rv32vm/Executor.cpp: LUI, AUIPC and the I-type instructions on a register and an immediate.
-- A word that the source casts to int32_t is read by `signed 32`.
pub mod Laws
use rv32umos.Base.{
  ℕ, Result, ok, ◌==◌, if◌then◌else◌, ◌>>=◌, add32, shl32, shr, shr_ℤ, signed, to_word, ltb, ltb_ℤ,
  bit_and, bit_or, bit_xor,
}
use rv32umos.Vm.Decoder
use rv32umos.Vm.Machine.{Machine, read_reg, write_reg}

pub exec_lui : Machine → ℕ → Result Machine
exec_lui cpu instr =
    let rd = Decoder.rd instr in if rd == 0 then ok cpu else write_reg cpu rd (Decoder.imm_u instr)

pub exec_auipc : Machine → ℕ → Result Machine
exec_auipc cpu instr =
    let rd = Decoder.rd instr in
    if rd == 0 then ok cpu else write_reg cpu rd (add32 cpu.pc (Decoder.imm_u instr))

pub exec_addi : Machine → ℕ → Result Machine
exec_addi cpu instr =
    let rd = Decoder.rd instr in
    if rd == 0 then ok cpu else do
      let rs1 = Decoder.rs1 instr
      let imm = Decoder.imm_i instr
      val1 ← read_reg cpu rs1
      write_reg cpu rd (add32 val1 imm)

pub exec_slti : Machine → ℕ → Result Machine
exec_slti cpu instr =
    let rd = Decoder.rd instr in
    if rd == 0 then ok cpu else do
      let rs1 = Decoder.rs1 instr
      let imm = Decoder.imm_i instr
      val1 ← read_reg cpu rs1
      write_reg cpu rd (if ltb_ℤ (signed 32 val1) (signed 32 imm) then 1 else 0)

pub exec_sltiu : Machine → ℕ → Result Machine
exec_sltiu cpu instr =
    let rd = Decoder.rd instr in
    if rd == 0 then ok cpu else do
      let rs1 = Decoder.rs1 instr
      let imm = Decoder.imm_i instr
      val1 ← read_reg cpu rs1
      write_reg cpu rd (if ltb val1 imm then 1 else 0)

pub exec_xori : Machine → ℕ → Result Machine
exec_xori cpu instr =
    let rd = Decoder.rd instr in
    if rd == 0 then ok cpu else do
      let rs1 = Decoder.rs1 instr
      let imm = Decoder.imm_i instr
      val1 ← read_reg cpu rs1
      write_reg cpu rd (bit_xor val1 imm)

pub exec_ori : Machine → ℕ → Result Machine
exec_ori cpu instr =
    let rd = Decoder.rd instr in
    if rd == 0 then ok cpu else do
      let rs1 = Decoder.rs1 instr
      let imm = Decoder.imm_i instr
      val1 ← read_reg cpu rs1
      write_reg cpu rd (bit_or val1 imm)

pub exec_andi : Machine → ℕ → Result Machine
exec_andi cpu instr =
    let rd = Decoder.rd instr in
    if rd == 0 then ok cpu else do
      let rs1 = Decoder.rs1 instr
      let imm = Decoder.imm_i instr
      val1 ← read_reg cpu rs1
      write_reg cpu rd (bit_and val1 imm)

pub exec_slli : Machine → ℕ → Result Machine
exec_slli cpu instr =
    let rd = Decoder.rd instr in
    if rd == 0 then ok cpu else do
      let rs1 = Decoder.rs1 instr
      val1 ← read_reg cpu rs1
      let shamt = Decoder.shamt_i instr
      write_reg cpu rd (shl32 val1 shamt)

pub exec_srli : Machine → ℕ → Result Machine
exec_srli cpu instr =
    let rd = Decoder.rd instr in
    if rd == 0 then ok cpu else do
      let rs1 = Decoder.rs1 instr
      val1 ← read_reg cpu rs1
      let shamt = Decoder.shamt_i instr
      write_reg cpu rd (shr val1 shamt)

pub exec_srai : Machine → ℕ → Result Machine
exec_srai cpu instr =
    let rd = Decoder.rd instr in
    if rd == 0 then ok cpu else do
      let rs1 = Decoder.rs1 instr
      val1 ← read_reg cpu rs1
      let shamt = Decoder.shamt_i instr
      write_reg cpu rd (to_word (shr_ℤ (signed 32 val1) shamt))
