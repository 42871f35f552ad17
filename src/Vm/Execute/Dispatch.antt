-- ===== src/Vm/Execute/Dispatch.antt =====
-- The switch of `Machine::execute` sends each computational instruction to its handler.
use rv32umos.Base.{ℕ, ◌≡◌, ◌∙◌, ok, refl, Bool, true, false, if◌then◌else◌, add32}
use rv32umos.Vm.Decoder
use rv32umos.Vm.RegFile.Laws.{IsRegs}
use rv32umos.Vm.Machine.{Machine}
use rv32umos.Vm.Machine.Laws.{reg, set_reg}
use rv32umos.Vm.Isa.{
  RegOp, add, sub, sll, slt, sltu, xor, srl, sra, or, and, mul, mulh, mulhsu, mulhu, div, divu, rem,
  remu, alu, funct3, funct7, ImmOp, addi, slti, sltiu, xori, ori, andi, slli, srli, srai, reg_op,
  is_shift,
}
use rv32umos.Vm.Executor.Register.Laws.{
  exec_add_lem, exec_sub_lem, exec_sll_lem, exec_slt_lem, exec_sltu_lem, exec_xor_lem, exec_srl_lem,
  exec_sra_lem, exec_or_lem, exec_and_lem,
}
use rv32umos.Vm.Executor.MulDiv.Laws.{
  exec_mul_lem, exec_mulh_lem, exec_mulhsu_lem, exec_mulhu_lem, exec_div_lem, exec_divu_lem,
  exec_rem_lem, exec_remu_lem,
}
use rv32umos.Vm.Executor.Immediate.Laws.{
  exec_lui_lem, exec_auipc_lem, exec_addi_lem, exec_slti_lem, exec_sltiu_lem, exec_xori_lem,
  exec_ori_lem, exec_andi_lem, exec_slli_lem, exec_srli_lem, exec_srai_lem,
}
use rv32umos.Vm.Execute.{execute, execute_op}

-- The switch is on the three fields alone.
pub execute-fields :
    (cpu : Machine) (w : ℕ) {op f3 f7 : ℕ}
    → Decoder.opcode w ≡ op
    → Decoder.func3 w ≡ f3
    → Decoder.func7 w ≡ f7
    → execute cpu w ≡ execute_op op f3 f7 cpu w
unfolding execute
execute-fields cpu w e e3 e7 i = execute_op (e i) (e3 i) (e7 i) cpu w

module _ (cpu : Machine) (w : ℕ) (regs : IsRegs cpu.regs) where
  -- Executing any of the 18 R-type instructions of RV32IM, on registers that hold words, returns,
  -- gives rd the result of the manual's operation on rs1 and rs2 unless rd is x0, and changes
  -- nothing else of the machine.
  pub execute_reg_op :
      (op : RegOp)
      → Decoder.opcode w ≡ 0x33
      → Decoder.func3 w ≡ funct3 op
      → Decoder.func7 w ≡ funct7 op
      → execute cpu w
        ≡ ok (
            set_reg cpu (Decoder.rd w) (alu op (reg cpu (Decoder.rs1 w)) (reg cpu (Decoder.rs2 w))))
  unfolding execute_op
  execute_reg_op add e e3 e7 = execute-fields cpu w e e3 e7 ∙ exec_add_lem cpu w regs
  execute_reg_op sub e e3 e7 = execute-fields cpu w e e3 e7 ∙ exec_sub_lem cpu w regs
  execute_reg_op sll e e3 e7 = execute-fields cpu w e e3 e7 ∙ exec_sll_lem cpu w regs
  execute_reg_op slt e e3 e7 = execute-fields cpu w e e3 e7 ∙ exec_slt_lem cpu w regs
  execute_reg_op sltu e e3 e7 = execute-fields cpu w e e3 e7 ∙ exec_sltu_lem cpu w regs
  execute_reg_op xor e e3 e7 = execute-fields cpu w e e3 e7 ∙ exec_xor_lem cpu w regs
  execute_reg_op srl e e3 e7 = execute-fields cpu w e e3 e7 ∙ exec_srl_lem cpu w regs
  execute_reg_op sra e e3 e7 = execute-fields cpu w e e3 e7 ∙ exec_sra_lem cpu w regs
  execute_reg_op or e e3 e7 = execute-fields cpu w e e3 e7 ∙ exec_or_lem cpu w regs
  execute_reg_op and e e3 e7 = execute-fields cpu w e e3 e7 ∙ exec_and_lem cpu w regs
  execute_reg_op mul e e3 e7 = execute-fields cpu w e e3 e7 ∙ exec_mul_lem cpu w regs
  execute_reg_op mulh e e3 e7 = execute-fields cpu w e e3 e7 ∙ exec_mulh_lem cpu w regs
  execute_reg_op mulhsu e e3 e7 = execute-fields cpu w e e3 e7 ∙ exec_mulhsu_lem cpu w regs
  execute_reg_op mulhu e e3 e7 = execute-fields cpu w e e3 e7 ∙ exec_mulhu_lem cpu w regs
  execute_reg_op div e e3 e7 = execute-fields cpu w e e3 e7 ∙ exec_div_lem cpu w regs
  execute_reg_op divu e e3 e7 = execute-fields cpu w e e3 e7 ∙ exec_divu_lem cpu w regs
  execute_reg_op rem e e3 e7 = execute-fields cpu w e e3 e7 ∙ exec_rem_lem cpu w regs
  execute_reg_op remu e e3 e7 = execute-fields cpu w e e3 e7 ∙ exec_remu_lem cpu w regs

  -- The second operand: the sign-extended immediate, or the shift amount.
  abbrev pub operand : ImmOp → ℕ
  operand op = if is_shift op then Decoder.shamt_i w else Decoder.imm_i w

  -- The upper seven bits tell the shifts apart, and belong to the immediate elsewhere.
  abbrev pub Shifts : ImmOp → Type 0
  Shifts slli = Decoder.func7 w ≡ 0
  Shifts srli = Decoder.func7 w ≡ 0
  Shifts srai = Decoder.func7 w ≡ 0x20
  Shifts op = Unit {0}

  -- Executing any of the nine instructions on a register and an immediate returns, gives rd the
  -- result of the manual's operation on rs1 and the operand unless rd is x0, and changes nothing
  -- else of the machine.
  pub execute_imm_op :
      (op : ImmOp)
      → Decoder.opcode w ≡ 0x13
      → Decoder.func3 w ≡ funct3 (reg_op op)
      → Shifts op
      → execute cpu w
        ≡ ok (set_reg cpu (Decoder.rd w) (alu (reg_op op) (reg cpu (Decoder.rs1 w)) (operand op)))
  unfolding execute_op
  execute_imm_op addi e e3 s = execute-fields cpu w e e3 refl ∙ exec_addi_lem cpu w regs
  execute_imm_op slti e e3 s = execute-fields cpu w e e3 refl ∙ exec_slti_lem cpu w regs
  execute_imm_op sltiu e e3 s = execute-fields cpu w e e3 refl ∙ exec_sltiu_lem cpu w regs
  execute_imm_op xori e e3 s = execute-fields cpu w e e3 refl ∙ exec_xori_lem cpu w regs
  execute_imm_op ori e e3 s = execute-fields cpu w e e3 refl ∙ exec_ori_lem cpu w regs
  execute_imm_op andi e e3 s = execute-fields cpu w e e3 refl ∙ exec_andi_lem cpu w regs
  execute_imm_op slli e e3 s = execute-fields cpu w e e3 s ∙ exec_slli_lem cpu w regs
  execute_imm_op srli e e3 s = execute-fields cpu w e e3 s ∙ exec_srli_lem cpu w regs
  execute_imm_op srai e e3 s = execute-fields cpu w e e3 s ∙ exec_srai_lem cpu w regs

-- LUI gives rd the upper immediate and AUIPC the pc plus the upper immediate, unless rd is x0, and
-- nothing else of the machine changes.
pub execute_upper :
    (cpu : Machine) (w : ℕ) (is_lui : Bool)
    → Decoder.opcode w ≡ (if is_lui then 0x37 else 0x17)
    → execute cpu w
      ≡ ok (
          set_reg cpu
            (Decoder.rd w)
            (if is_lui then Decoder.imm_u w else add32 cpu.pc (Decoder.imm_u w)))
unfolding execute_op
execute_upper cpu w true e = execute-fields cpu w e refl refl ∙ exec_lui_lem cpu w
execute_upper cpu w false e = execute-fields cpu w e refl refl ∙ exec_auipc_lem cpu w
