-- ===== src/Vm/Executor/Immediate/Laws.antt =====
-- The handlers on a register and an immediate against the manual's operations.
use rv32umos.Base.{ℕ, ◌<◌, ◌^◌, ◌%◌, ◌≡◌, ap, ◌∙◌, arith, ok, Result, to_word-lt, add32}
use rv32umos.Vm.Decoder
use rv32umos.Vm.Decoder.Fields.{shamt_i_lem, imm_i_lem}
use rv32umos.Vm.RegFile.Laws.{IsRegs}
use rv32umos.Vm.Machine.{Machine}
use rv32umos.Vm.Machine.Laws.{reg, set_reg, unary_lem, write_reg-in_range, rd-lt}
use rv32umos.Vm.Isa.{alu, RegOp, add, sll, slt, sltu, xor, srl, sra, or, and, from_bool}
use rv32umos.Vm.Executor.Register.Laws.{ltb_ℤ-signed, shr_ℤ-signed}
use rv32umos.Vm.Executor.Immediate.{
  exec_lui, exec_auipc, exec_addi, exec_slti, exec_sltiu, exec_xori, exec_ori, exec_andi, exec_slli,
  exec_srli, exec_srai,
}

-- What a handler of `op` with the second operand `b` must do.
abbrev pub ComputesWith : RegOp → ℕ → Machine → ℕ → Result Machine → Type 0
ComputesWith op b cpu w r = r ≡ ok (set_reg cpu (Decoder.rd w) (alu op (reg cpu (Decoder.rs1 w)) b))

imm_i-lt : (w : ℕ) → Decoder.imm_i w < 2 ^ 32
imm_i-lt w = omega (arith, imm_i_lem w, to_word-lt)

shamt_i-mod : (w : ℕ) → Decoder.shamt_i w % 32 ≡ Decoder.shamt_i w
shamt_i-mod w = omega (arith, shamt_i_lem w)

-- LUI and AUIPC give the upper immediate, alone and added to the pc.
pub exec_lui_lem :
    (cpu : Machine) (w : ℕ) → exec_lui cpu w ≡ ok (set_reg cpu (Decoder.rd w) (Decoder.imm_u w))
unfolding exec_lui
exec_lui_lem cpu w =
    rw (write_reg-in_range cpu (Decoder.rd w) (Decoder.imm_u w) (rd-lt w)) (ground arith)

pub exec_auipc_lem :
    (cpu : Machine) (w : ℕ)
    → exec_auipc cpu w ≡ ok (set_reg cpu (Decoder.rd w) (add32 cpu.pc (Decoder.imm_u w)))
unfolding exec_auipc
exec_auipc_lem cpu w =
    rw (write_reg-in_range cpu (Decoder.rd w) (add32 cpu.pc (Decoder.imm_u w)) (rd-lt w))
      (ground arith)

module _ (cpu : Machine) (w : ℕ) (regs : IsRegs cpu.regs) where
  pub exec_addi_lem : ComputesWith add (Decoder.imm_i w) cpu w (exec_addi cpu w)
  unfolding exec_addi alu
  exec_addi_lem = unary_lem cpu w _

  pub exec_slti_lem : ComputesWith slt (Decoder.imm_i w) cpu w (exec_slti cpu w)
  unfolding exec_slti alu
  exec_slti_lem =
      unary_lem cpu w _
      ∙ ap (λ b. ok (set_reg cpu (Decoder.rd w) (from_bool b)))
          (ltb_ℤ-signed _ _ (regs.words (Decoder.rs1 w)) (imm_i-lt w))

  pub exec_sltiu_lem : ComputesWith sltu (Decoder.imm_i w) cpu w (exec_sltiu cpu w)
  unfolding exec_sltiu alu
  exec_sltiu_lem = unary_lem cpu w _

  pub exec_xori_lem : ComputesWith xor (Decoder.imm_i w) cpu w (exec_xori cpu w)
  unfolding exec_xori alu
  exec_xori_lem = unary_lem cpu w _

  pub exec_ori_lem : ComputesWith or (Decoder.imm_i w) cpu w (exec_ori cpu w)
  unfolding exec_ori alu
  exec_ori_lem = unary_lem cpu w _

  pub exec_andi_lem : ComputesWith and (Decoder.imm_i w) cpu w (exec_andi cpu w)
  unfolding exec_andi alu
  exec_andi_lem = unary_lem cpu w _

  pub exec_slli_lem : ComputesWith sll (Decoder.shamt_i w) cpu w (exec_slli cpu w)
  unfolding exec_slli alu
  exec_slli_lem = unary_lem cpu w _ ∙ rw (shamt_i-mod w)

  pub exec_srli_lem : ComputesWith srl (Decoder.shamt_i w) cpu w (exec_srli cpu w)
  unfolding exec_srli alu
  exec_srli_lem = unary_lem cpu w _ ∙ rw (shamt_i-mod w)

  pub exec_srai_lem : ComputesWith sra (Decoder.shamt_i w) cpu w (exec_srai cpu w)
  unfolding exec_srai alu
  exec_srai_lem =
      unary_lem cpu w _
      ∙ rw (shamt_i-mod w) (
          ap (λ v. ok (set_reg cpu (Decoder.rd w) v))
            (shr_ℤ-signed _ _ (regs.words (Decoder.rs1 w))))
