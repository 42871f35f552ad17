-- ===== src/Vm/Executor/Access.antt =====
-- rv32vm/Executor.cpp: loads and stores.
pub mod Laws
use rv32umos.Base.{
  ℕ, ◌%◌, ◌^◌, Result, ok, ◌==◌, if◌then◌else◌, ◌>>=◌, add32, signed, to_word, bit_and,
}
use rv32umos.Vm.Decoder
use rv32umos.Vm.Machine.{
  Machine, read_reg, write_reg, has_trap, load_virtual_memory, store_virtual_memory,
}

unfoldable pub exec_lb : Machine → ℕ → Result Machine
exec_lb cpu instr =
    let rd = Decoder.rd instr in
    if rd == 0 then ok cpu else do
      let rs1 = Decoder.rs1 instr
      let imm = Decoder.imm_i instr
      base ← read_reg cpu rs1
      let addr = add32 base imm
      (cpu', val) ← load_virtual_memory cpu addr 1
      if has_trap cpu' then ok cpu' else write_reg cpu' rd (to_word (signed 8 (val % 2 ^ 8)))

unfoldable pub exec_lh : Machine → ℕ → Result Machine
exec_lh cpu instr =
    let rd = Decoder.rd instr in
    if rd == 0 then ok cpu else do
      let rs1 = Decoder.rs1 instr
      let imm = Decoder.imm_i instr
      base ← read_reg cpu rs1
      let addr = add32 base imm
      (cpu', val) ← load_virtual_memory cpu addr 2
      if has_trap cpu' then ok cpu' else write_reg cpu' rd (to_word (signed 16 (val % 2 ^ 16)))

unfoldable pub exec_lw : Machine → ℕ → Result Machine
exec_lw cpu instr =
    let rd = Decoder.rd instr in
    if rd == 0 then ok cpu else do
      let rs1 = Decoder.rs1 instr
      let imm = Decoder.imm_i instr
      base ← read_reg cpu rs1
      let addr = add32 base imm
      (cpu', val) ← load_virtual_memory cpu addr 4
      if has_trap cpu' then ok cpu' else write_reg cpu' rd val

unfoldable pub exec_lbu : Machine → ℕ → Result Machine
exec_lbu cpu instr =
    let rd = Decoder.rd instr in
    if rd == 0 then ok cpu else do
      let rs1 = Decoder.rs1 instr
      let imm = Decoder.imm_i instr
      base ← read_reg cpu rs1
      let addr = add32 base imm
      (cpu', val) ← load_virtual_memory cpu addr 1
      if has_trap cpu' then ok cpu' else write_reg cpu' rd (bit_and val 0xff)

unfoldable pub exec_lhu : Machine → ℕ → Result Machine
exec_lhu cpu instr =
    let rd = Decoder.rd instr in
    if rd == 0 then ok cpu else do
      let rs1 = Decoder.rs1 instr
      let imm = Decoder.imm_i instr
      base ← read_reg cpu rs1
      let addr = add32 base imm
      (cpu', val) ← load_virtual_memory cpu addr 2
      if has_trap cpu' then ok cpu' else write_reg cpu' rd (bit_and val 0xffff)

unfoldable pub exec_sb : Machine → ℕ → Result Machine
exec_sb cpu instr = do
  let rs1 = Decoder.rs1 instr
  let rs2 = Decoder.rs2 instr
  let imm = Decoder.imm_s instr
  base ← read_reg cpu rs1
  let addr = add32 base imm
  val ← read_reg cpu rs2
  store_virtual_memory cpu addr 1 val

unfoldable pub exec_sh : Machine → ℕ → Result Machine
exec_sh cpu instr = do
  let rs1 = Decoder.rs1 instr
  let rs2 = Decoder.rs2 instr
  let imm = Decoder.imm_s instr
  base ← read_reg cpu rs1
  let addr = add32 base imm
  val ← read_reg cpu rs2
  store_virtual_memory cpu addr 2 val

unfoldable pub exec_sw : Machine → ℕ → Result Machine
exec_sw cpu instr = do
  let rs1 = Decoder.rs1 instr
  let rs2 = Decoder.rs2 instr
  let imm = Decoder.imm_s instr
  base ← read_reg cpu rs1
  let addr = add32 base imm
  val ← read_reg cpu rs2
  store_virtual_memory cpu addr 4 val
