-- ===== src/Vm/Executor/Jump.antt =====
-- rv32vm/Executor.cpp: jumps and branches. The caller adds 4 to the pc that these leave.
pub mod Laws
use rv32umos.Base.{
  ℕ, Result, ok, ◌==◌, not, if◌then◌else◌, ◌>>=◌, add32, sub32, signed, ltb, ltb_ℤ, leb, bit_and,
}
use rv32umos.Vm.Decoder
use rv32umos.Vm.Machine.{Machine, read_reg, write_reg, set_pc}

-- `if (rd != 0) cpu.regs.write(rd, returnAddrPC);`
pub write_link : Machine → ℕ → ℕ → Result Machine
write_link cpu rd return_addr_pc = if rd == 0 then ok cpu else write_reg cpu rd return_addr_pc

unfoldable pub exec_jal : Machine → ℕ → Result Machine
unfolding write_link
exec_jal cpu instr = do
  let rd = Decoder.rd instr
  let imm = Decoder.imm_j instr
  let return_addr_pc = add32 cpu.pc 4
  let current_pc = cpu.pc
  cpu' ← write_link cpu rd return_addr_pc
  ok (set_pc cpu' (sub32 (add32 current_pc imm) 4))

unfoldable pub exec_jalr : Machine → ℕ → Result Machine
unfolding write_link
exec_jalr cpu instr = do
  let rd = Decoder.rd instr
  let rs1 = Decoder.rs1 instr
  let imm = Decoder.imm_i instr
  val1 ← read_reg cpu rs1
  let return_addr_pc = add32 cpu.pc 4
  cpu' ← write_link cpu rd return_addr_pc
  ok (set_pc cpu' (sub32 (bit_and (add32 val1 imm) 0xffff_fffe) 4))

unfoldable pub exec_beq : Machine → ℕ → Result Machine
exec_beq cpu instr = do
  let rs1 = Decoder.rs1 instr
  let rs2 = Decoder.rs2 instr
  let imm = Decoder.imm_b instr
  val1 ← read_reg cpu rs1
  val2 ← read_reg cpu rs2
  ok (if val1 == val2 then set_pc cpu (add32 (sub32 cpu.pc 4) imm) else cpu)

unfoldable pub exec_bne : Machine → ℕ → Result Machine
exec_bne cpu instr = do
  let rs1 = Decoder.rs1 instr
  let rs2 = Decoder.rs2 instr
  let imm = Decoder.imm_b instr
  val1 ← read_reg cpu rs1
  val2 ← read_reg cpu rs2
  ok (if not (val1 == val2) then set_pc cpu (add32 (sub32 cpu.pc 4) imm) else cpu)

unfoldable pub exec_blt : Machine → ℕ → Result Machine
exec_blt cpu instr = do
  let rs1 = Decoder.rs1 instr
  let rs2 = Decoder.rs2 instr
  let imm = Decoder.imm_b instr
  val1 ← read_reg cpu rs1
  val2 ← read_reg cpu rs2
  ok (
      if ltb_ℤ (signed 32 val1) (signed 32 val2)
      then set_pc cpu (add32 (sub32 cpu.pc 4) imm)
      else cpu)

unfoldable pub exec_bge : Machine → ℕ → Result Machine
exec_bge cpu instr = do
  let rs1 = Decoder.rs1 instr
  let rs2 = Decoder.rs2 instr
  let imm = Decoder.imm_b instr
  val1 ← read_reg cpu rs1
  val2 ← read_reg cpu rs2
  ok (
      if not (ltb_ℤ (signed 32 val1) (signed 32 val2))
      then set_pc cpu (add32 (sub32 cpu.pc 4) imm)
      else cpu)

unfoldable pub exec_bltu : Machine → ℕ → Result Machine
exec_bltu cpu instr = do
  let rs1 = Decoder.rs1 instr
  let rs2 = Decoder.rs2 instr
  let imm = Decoder.imm_b instr
  val1 ← read_reg cpu rs1
  val2 ← read_reg cpu rs2
  ok (if ltb val1 val2 then set_pc cpu (add32 (sub32 cpu.pc 4) imm) else cpu)

unfoldable pub exec_bgeu : Machine → ℕ → Result Machine
exec_bgeu cpu instr = do
  let rs1 = Decoder.rs1 instr
  let rs2 = Decoder.rs2 instr
  let imm = Decoder.imm_b instr
  val1 ← read_reg cpu rs1
  val2 ← read_reg cpu rs2
  ok (if leb val2 val1 then set_pc cpu (add32 (sub32 cpu.pc 4) imm) else cpu)
