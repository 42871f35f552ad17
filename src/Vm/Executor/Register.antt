-- ===== src/Vm/Executor/Register.antt =====
-- rv32vm/Executor.cpp: the R-type instructions of the base set.
-- A word that the source casts to int32_t is read by `signed 32`.
pub mod Laws
use rv32umos.Base.{
  ℕ, Result, ok, ◌==◌, if◌then◌else◌, ◌>>=◌, add32, sub32, shl32, shr, shr_ℤ, signed, to_word, ltb,
  ltb_ℤ, bit_and, bit_or, bit_xor,
}
use rv32umos.Vm.Decoder
use rv32umos.Vm.Machine.{Machine, read_reg, write_reg}

pub exec_add : Machine → ℕ → Result Machine
exec_add cpu instr =
    let rd = Decoder.rd instr in
    if rd == 0 then ok cpu else do
      let rs1 = Decoder.rs1 instr
      let rs2 = Decoder.rs2 instr
      val1 ← read_reg cpu rs1
      val2 ← read_reg cpu rs2
      write_reg cpu rd (add32 val1 val2)

pub exec_sub : Machine → ℕ → Result Machine
exec_sub cpu instr =
    let rd = Decoder.rd instr in
    if rd == 0 then ok cpu else do
      let rs1 = Decoder.rs1 instr
      let rs2 = Decoder.rs2 instr
      val1 ← read_reg cpu rs1
      val2 ← read_reg cpu rs2
      write_reg cpu rd (sub32 val1 val2)

pub exec_sll : Machine → ℕ → Result Machine
exec_sll cpu instr =
    let rd = Decoder.rd instr in
    if rd == 0 then ok cpu else do
      let rs1 = Decoder.rs1 instr
      let rs2 = Decoder.rs2 instr
      val1 ← read_reg cpu rs1
      val2 ← read_reg cpu rs2
      write_reg cpu rd (shl32 val1 (Decoder.shamt_r val2))

pub exec_slt : Machine → ℕ → Result Machine
exec_slt cpu instr =
    let rd = Decoder.rd instr in
    if rd == 0 then ok cpu else do
      let rs1 = Decoder.rs1 instr
      let rs2 = Decoder.rs2 instr
      val1 ← read_reg cpu rs1
      val2 ← read_reg cpu rs2
      write_reg cpu rd (if ltb_ℤ (signed 32 val1) (signed 32 val2) then 1 else 0)

pub exec_sltu : Machine → ℕ → Result Machine
exec_sltu cpu instr =
    let rd = Decoder.rd instr in
    if rd == 0 then ok cpu else do
      let rs1 = Decoder.rs1 instr
      let rs2 = Decoder.rs2 instr
      val1 ← read_reg cpu rs1
      val2 ← read_reg cpu rs2
      write_reg cpu rd (if ltb val1 val2 then 1 else 0)

pub exec_xor : Machine → ℕ → Result Machine
exec_xor cpu instr =
    let rd = Decoder.rd instr in
    if rd == 0 then ok cpu else do
      let rs1 = Decoder.rs1 instr
      let rs2 = Decoder.rs2 instr
      val1 ← read_reg cpu rs1
      val2 ← read_reg cpu rs2
      write_reg cpu rd (bit_xor val1 val2)

pub exec_srl : Machine → ℕ → Result Machine
exec_srl cpu instr =
    let rd = Decoder.rd instr in
    if rd == 0 then ok cpu else do
      let rs1 = Decoder.rs1 instr
      let rs2 = Decoder.rs2 instr
      val1 ← read_reg cpu rs1
      val2 ← read_reg cpu rs2
      write_reg cpu rd (shr val1 (Decoder.shamt_r val2))

pub exec_sra : Machine → ℕ → Result Machine
exec_sra cpu instr =
    let rd = Decoder.rd instr in
    if rd == 0 then ok cpu else do
      let rs1 = Decoder.rs1 instr
      let rs2 = Decoder.rs2 instr
      val1 ← read_reg cpu rs1
      val2 ← read_reg cpu rs2
      write_reg cpu rd (to_word (shr_ℤ (signed 32 val1) (Decoder.shamt_r val2)))

pub exec_or : Machine → ℕ → Result Machine
exec_or cpu instr =
    let rd = Decoder.rd instr in
    if rd == 0 then ok cpu else do
      let rs1 = Decoder.rs1 instr
      let rs2 = Decoder.rs2 instr
      val1 ← read_reg cpu rs1
      val2 ← read_reg cpu rs2
      write_reg cpu rd (bit_or val1 val2)

pub exec_and : Machine → ℕ → Result Machine
exec_and cpu instr =
    let rd = Decoder.rd instr in
    if rd == 0 then ok cpu else do
      let rs1 = Decoder.rs1 instr
      let rs2 = Decoder.rs2 instr
      val1 ← read_reg cpu rs1
      val2 ← read_reg cpu rs2
      write_reg cpu rd (bit_and val1 val2)
