-- ===== src/Vm/Executor/Register/Laws.antt =====
-- The R-type handlers against the manual's operations.
use rv32umos.Base.{
  ℕ, ◌-◌, ◌/◌, ◌^◌, ◌<◌, ◌≡◌, ap, ◌∙◌, arith, ok, Result, signed, to_word, shr_ℤ, ltb_ℤ,
}
use native.Mathlib.Nat.{div-le_self}
use rv32umos.Vm.Decoder
use rv32umos.Vm.Decoder.Fields.{shamt_r_lem}
use rv32umos.Vm.RegFile.Laws.{IsRegs}
use rv32umos.Vm.Machine.{Machine}
use rv32umos.Vm.Machine.Laws.{reg, set_reg, binary_lem}
use rv32umos.Vm.Isa.{
  RegOp, add, sub, sll, slt, sltu, xor, srl, sra, or, and, alu, less_signed, shift_arithmetic,
  from_bool,
}
use rv32umos.Vm.Executor.Register.{
  exec_add, exec_sub, exec_sll, exec_slt, exec_sltu, exec_xor, exec_srl, exec_sra, exec_or,
  exec_and,
}

pub ltb_ℤ-signed :
    (a b : ℕ) → a < 2 ^ 32 → b < 2 ^ 32 → ltb_ℤ (signed 32 a) (signed 32 b) ≡ less_signed a b
ltb_ℤ-signed a b ha hb = ground arith

pub shr_ℤ-signed : (a k : ℕ) → a < 2 ^ 32 → to_word (shr_ℤ (signed 32 a) k) ≡ shift_arithmetic a k
shr_ℤ-signed a k ha = ground (
  arith,
  div-le_self a (2 ^ k),
  div-le_self (2 ^ 32 - a - 1) (2 ^ k),
  ap (λ (t : ℕ). t / 2 ^ k) {x = 2 ^ 32 - a - 1} {y = 2 ^ 32 - 1 - a} (omega arith),
)

-- What a handler of the operation `op` must do.
abbrev pub Computes : RegOp → Machine → ℕ → Result Machine → Type 0
Computes op cpu w r =
    r ≡ ok (set_reg cpu (Decoder.rd w) (alu op (reg cpu (Decoder.rs1 w)) (reg cpu (Decoder.rs2 w))))

module _ (cpu : Machine) (w : ℕ) (regs : IsRegs cpu.regs) where
  pub exec_add_lem : Computes add cpu w (exec_add cpu w)
  unfolding exec_add alu
  exec_add_lem = binary_lem cpu w _

  pub exec_sub_lem : Computes sub cpu w (exec_sub cpu w)
  unfolding exec_sub alu
  exec_sub_lem =
      binary_lem cpu w _
      ∙ ap (λ v. ok (set_reg cpu (Decoder.rd w) v)) (omega (arith, regs.words (Decoder.rs2 w)))

  pub exec_sll_lem : Computes sll cpu w (exec_sll cpu w)
  unfolding exec_sll alu
  exec_sll_lem = binary_lem cpu w _ ∙ rw (shamt_r_lem (reg cpu (Decoder.rs2 w)))

  pub exec_slt_lem : Computes slt cpu w (exec_slt cpu w)
  unfolding exec_slt alu
  exec_slt_lem =
      binary_lem cpu w _
      ∙ ap (λ b. ok (set_reg cpu (Decoder.rd w) (from_bool b)))
          (ltb_ℤ-signed _ _ (regs.words (Decoder.rs1 w)) (regs.words (Decoder.rs2 w)))

  pub exec_sltu_lem : Computes sltu cpu w (exec_sltu cpu w)
  unfolding exec_sltu alu
  exec_sltu_lem = binary_lem cpu w _

  pub exec_xor_lem : Computes xor cpu w (exec_xor cpu w)
  unfolding exec_xor alu
  exec_xor_lem = binary_lem cpu w _

  pub exec_srl_lem : Computes srl cpu w (exec_srl cpu w)
  unfolding exec_srl alu
  exec_srl_lem = binary_lem cpu w _ ∙ rw (shamt_r_lem (reg cpu (Decoder.rs2 w)))

  pub exec_sra_lem : Computes sra cpu w (exec_sra cpu w)
  unfolding exec_sra alu
  exec_sra_lem =
      binary_lem cpu w _
      ∙ rw (shamt_r_lem (reg cpu (Decoder.rs2 w))) (
          ap (λ v. ok (set_reg cpu (Decoder.rd w) v))
            (shr_ℤ-signed _ _ (regs.words (Decoder.rs1 w))))

  pub exec_or_lem : Computes or cpu w (exec_or cpu w)
  unfolding exec_or alu
  exec_or_lem = binary_lem cpu w _

  pub exec_and_lem : Computes and cpu w (exec_and cpu w)
  unfolding exec_and alu
  exec_and_lem = binary_lem cpu w _
