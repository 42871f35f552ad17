-- ===== src/Vm/Executor/MulDiv/Laws.antt =====
-- The handlers of the M extension against the manual's operations.
use rv32umos.Base.{ℕ, ap, ◌∙◌, ok}
use rv32umos.Vm.Decoder
use rv32umos.Vm.RegFile.Laws.{IsRegs}
use rv32umos.Vm.Machine.{Machine}
use rv32umos.Vm.Machine.Laws.{set_reg, binary_lem}
use rv32umos.Vm.Isa.{alu, mul, mulh, mulhsu, mulhu, div, divu, rem, remu}
use rv32umos.Vm.Executor.Register.Laws.{Computes}
use rv32umos.Vm.Executor.MulDiv.{
  exec_mul, exec_mulh, exec_mulhsu, exec_mulhu, exec_div, exec_divu, exec_rem, exec_remu,
}
use rv32umos.Vm.Executor.MulDiv
use rv32umos.Vm.Executor.MulDiv.High.{mulh_lem, mulhsu_lem, mulhu_lem}
use rv32umos.Vm.Executor.MulDiv.Quotient.{div_lem, rem_lem}

module _ (cpu : Machine) (w : ℕ) (regs : IsRegs cpu.regs) where
  pub exec_mul_lem : Computes mul cpu w (exec_mul cpu w)
  unfolding exec_mul alu
  exec_mul_lem = binary_lem cpu w _

  pub exec_mulh_lem : Computes mulh cpu w (exec_mulh cpu w)
  unfolding exec_mulh alu
  exec_mulh_lem =
      binary_lem cpu w _
      ∙ ap (λ v. ok (set_reg cpu (Decoder.rd w) v))
          (mulh_lem _ _ (regs.words (Decoder.rs1 w)) (regs.words (Decoder.rs2 w)))

  pub exec_mulhsu_lem : Computes mulhsu cpu w (exec_mulhsu cpu w)
  unfolding exec_mulhsu alu
  exec_mulhsu_lem =
      binary_lem cpu w _
      ∙ ap (λ v. ok (set_reg cpu (Decoder.rd w) v))
          (mulhsu_lem _ _ (regs.words (Decoder.rs1 w)) (regs.words (Decoder.rs2 w)))

  pub exec_mulhu_lem : Computes mulhu cpu w (exec_mulhu cpu w)
  unfolding exec_mulhu alu
  exec_mulhu_lem =
      binary_lem cpu w _
      ∙ ap (λ v. ok (set_reg cpu (Decoder.rd w) v))
          (mulhu_lem _ _ (regs.words (Decoder.rs1 w)) (regs.words (Decoder.rs2 w)))

  pub exec_div_lem : Computes div cpu w (exec_div cpu w)
  unfolding exec_div alu
  exec_div_lem =
      binary_lem cpu w _
      ∙ ap (λ v. ok (set_reg cpu (Decoder.rd w) v))
          (div_lem _ _ (regs.words (Decoder.rs1 w)) (regs.words (Decoder.rs2 w)))

  pub exec_divu_lem : Computes divu cpu w (exec_divu cpu w)
  unfolding exec_divu alu MulDiv.divu
  exec_divu_lem = binary_lem cpu w _

  pub exec_rem_lem : Computes rem cpu w (exec_rem cpu w)
  unfolding exec_rem alu
  exec_rem_lem =
      binary_lem cpu w _
      ∙ ap (λ v. ok (set_reg cpu (Decoder.rd w) v))
          (rem_lem _ _ (regs.words (Decoder.rs1 w)) (regs.words (Decoder.rs2 w)))

  pub exec_remu_lem : Computes remu cpu w (exec_remu cpu w)
  unfolding exec_remu alu MulDiv.remu
  exec_remu_lem = binary_lem cpu w _
