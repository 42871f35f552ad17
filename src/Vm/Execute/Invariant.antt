-- ===== src/Vm/Execute/Invariant.antt =====
-- Every instruction keeps the machine well-formed and never fails the register file's assert.
use rv32umos.Base.{
  ℕ, ◌^◌, ◌<◌, arith, Bool, true, false, ok, Result, ◌==◌, if◌then◌else◌, signed, ltb, ltb_ℤ, leb,
  not, to_word-lt,
}
use rv32umos.Bits.{bit_and-lt}
use rv32umos.Vm.Mmu.Bytes.{Outcome, Outcome-if, Outcome->>=}
use rv32umos.Vm.Decoder
use rv32umos.Vm.Decoder.Fields.{imm_u_lem}
use rv32umos.Vm.Machine.{Machine, fetch, clear_trap, has_trap}
use rv32umos.Vm.Machine.Invariant.{
  IsMachine, Read, fetch-IsMachine, set_reg-IsMachine, clear_trap-IsMachine,
}
use rv32umos.Vm.Isa.{
  add, sub, sll, slt, sltu, xor, srl, sra, or, and, mul, mulh, mulhsu, mulhu, div, divu, rem, remu,
}
use rv32umos.Vm.Executor.Register.Laws.{
  exec_add_lem, exec_sub_lem, exec_sll_lem, exec_slt_lem, exec_sltu_lem, exec_xor_lem, exec_srl_lem,
  exec_sra_lem, exec_or_lem, exec_and_lem,
}
use rv32umos.Vm.Executor.MulDiv.Laws.{
  exec_mul_lem, exec_mulh_lem, exec_mulhsu_lem, exec_mulhu_lem, exec_div_lem, exec_divu_lem,
  exec_rem_lem, exec_remu_lem,
}
use rv32umos.Vm.Executor.Immediate.Laws.{
  exec_lui_lem, exec_auipc_lem, exec_addi_lem, exec_slti_lem, exec_sltiu_lem, exec_xori_lem,
  exec_ori_lem, exec_andi_lem, exec_slli_lem, exec_srli_lem, exec_srai_lem,
}
use rv32umos.Vm.Executor.Access.{
  exec_lb, exec_lh, exec_lw, exec_lbu, exec_lhu, exec_sb, exec_sh, exec_sw,
}
use rv32umos.Vm.Executor.Jump.{exec_beq, exec_bne, exec_blt, exec_bge, exec_bltu, exec_bgeu}
use rv32umos.Vm.Executor.Immediate.{exec_lui, exec_auipc}
use rv32umos.Vm.Execute.Keeps.{
  Keeps, illegal_kept, unknown_opcode_kept, computes, computes_with, imm, shamt, loads, stores,
  branches, exec_jal-Keeps, exec_jalr-Keeps, exec_ecall-Keeps,
}
use rv32umos.Vm.Execute.{
  execute_m_type, choose, base_only, execute_r_type, execute_i_type, execute_store, execute_b_type,
  execute_load, execute_system, execute_misc_mem, execute_op, execute, step,
}

module _ (cpu : Machine) (w : ℕ) (h : IsMachine cpu) where
  -- The rules for the switch.
  either : (b : Bool) (x y : Result Machine) → Keeps x → Keeps y → Keeps (if b then x else y)
  either true x y hx hy = hx
  either false x y hx hy = hy

  choices : (func7 : ℕ) (x y : Result Machine) → Keeps x → Keeps y → Keeps (choose func7 x y)
  unfolding choose
  choices func7 x y hx hy = either _ _ _ hx (either _ _ _ hy illegal_kept)

  bases : (func7 : ℕ) (x : Result Machine) → Keeps x → Keeps (base_only func7 x)
  unfolding base_only
  bases func7 x hx = either _ _ _ hx illegal_kept

  execute_m_type-Keeps : (func3 : ℕ) → Keeps (execute_m_type func3 cpu w)
  unfolding execute_m_type
  execute_m_type-Keeps func3 =
      (either _ _ _ (computes cpu w h mul (exec_mul_lem cpu w h.regs)) (
        either _ _ _ (computes cpu w h mulh (exec_mulh_lem cpu w h.regs)) (
          either _ _ _ (computes cpu w h mulhsu (exec_mulhsu_lem cpu w h.regs)) (
            either _ _ _ (computes cpu w h mulhu (exec_mulhu_lem cpu w h.regs)) (
              either _ _ _ (computes cpu w h div (exec_div_lem cpu w h.regs)) (
                either _ _ _ (computes cpu w h divu (exec_divu_lem cpu w h.regs)) (
                  either _ _ _ (computes cpu w h rem (exec_rem_lem cpu w h.regs)) (
                    either _ _ _ (computes cpu w h remu (exec_remu_lem cpu w h.regs))
                      illegal_kept))))))))

  execute_r_type-Keeps : (func3 func7 : ℕ) → Keeps (execute_r_type func3 func7 cpu w)
  unfolding execute_r_type choose base_only
  execute_r_type-Keeps func3 func7 =
      (either _ _ _ (execute_m_type-Keeps func3) (
        either _ _ _
          (choices func7 _ _ (computes cpu w h add (exec_add_lem cpu w h.regs))
            (computes cpu w h sub (exec_sub_lem cpu w h.regs)))
          (either _ _ _ (bases func7 _ (computes cpu w h sll (exec_sll_lem cpu w h.regs))) (
            either _ _ _ (bases func7 _ (computes cpu w h slt (exec_slt_lem cpu w h.regs))) (
              either _ _ _ (bases func7 _ (computes cpu w h sltu (exec_sltu_lem cpu w h.regs))) (
                either _ _ _ (bases func7 _ (computes cpu w h xor (exec_xor_lem cpu w h.regs))) (
                  either _ _ _
                    (choices func7 _ _ (computes cpu w h srl (exec_srl_lem cpu w h.regs))
                      (computes cpu w h sra (exec_sra_lem cpu w h.regs)))
                    (either _ _ _ (bases func7 _ (computes cpu w h or (exec_or_lem cpu w h.regs))) (
                      either _ _ _
                        (bases func7 _ (computes cpu w h and (exec_and_lem cpu w h.regs)))
                        illegal_kept)))))))))

  execute_i_type-Keeps : (func3 func7 : ℕ) → Keeps (execute_i_type func3 func7 cpu w)
  unfolding execute_i_type choose base_only
  execute_i_type-Keeps func3 func7 =
      (either _ _ _ (computes_with cpu w h add _ (imm cpu w h) (exec_addi_lem cpu w h.regs)) (
        either _ _ _
          (bases func7 _ (computes_with cpu w h sll _ (shamt cpu w h) (exec_slli_lem cpu w h.regs)))
          (either _ _ _ (computes_with cpu w h slt _ (imm cpu w h) (exec_slti_lem cpu w h.regs)) (
            either _ _ _ (computes_with cpu w h sltu _ (imm cpu w h) (exec_sltiu_lem cpu w h.regs))
              (either _ _ _ (computes_with cpu w h xor _ (imm cpu w h) (exec_xori_lem cpu w h.regs))
                (either _ _ _
                  (choices func7 _ _
                    (computes_with cpu w h srl _ (shamt cpu w h) (exec_srli_lem cpu w h.regs))
                    (computes_with cpu w h sra _ (shamt cpu w h) (exec_srai_lem cpu w h.regs)))
                  (either _ _ _
                    (computes_with cpu w h or _ (imm cpu w h) (exec_ori_lem cpu w h.regs))
                    (either _ _ _
                      (computes_with cpu w h and _ (imm cpu w h) (exec_andi_lem cpu w h.regs))
                      illegal_kept))))))))

  execute_store-Keeps : (func3 : ℕ) → Keeps (execute_store func3 cpu w)
  unfolding execute_store exec_sb exec_sh exec_sw
  execute_store-Keeps func3 =
      (either _ _ _ (stores cpu w h 1 (omega arith)) (
        either _ _ _ (stores cpu w h 2 (omega arith))
          (either _ _ _ (stores cpu w h 4 (omega arith)) illegal_kept)))

  execute_b_type-Keeps : (func3 : ℕ) → Keeps (execute_b_type func3 cpu w)
  unfolding execute_b_type exec_beq exec_bne exec_blt exec_bge exec_bltu exec_bgeu
  execute_b_type-Keeps func3 =
      (either _ _ _ (branches cpu w h (λ a b. a == b)) (
        either _ _ _ (branches cpu w h (λ a b. not (a == b))) (
          either _ _ _ (branches cpu w h (λ a b. ltb_ℤ (signed 32 a) (signed 32 b))) (
            either _ _ _ (branches cpu w h (λ a b. not (ltb_ℤ (signed 32 a) (signed 32 b)))) (
              either _ _ _ (branches cpu w h (λ a b. ltb a b))
                (either _ _ _ (branches cpu w h (λ a b. leb b a)) illegal_kept))))))

  execute_load-Keeps : (func3 : ℕ) → Keeps (execute_load func3 cpu w)
  unfolding execute_load exec_lb exec_lh exec_lw exec_lbu exec_lhu
  execute_load-Keeps func3 =
      (either _ _ _ (loads cpu w h 1 _ (omega arith) (omega arith) (λ v hv. to_word-lt _)) (
        either _ _ _ (loads cpu w h 2 _ (omega arith) (omega arith) (λ v hv. to_word-lt _)) (
          either _ _ _ (loads cpu w h 4 (λ v. v) (omega arith) (omega arith) (λ v hv. hv)) (
            either _ _ _
              (loads cpu w h 1 _ (omega arith) (omega arith)
                (λ v hv. bit_and-lt 32 v 0xff (omega arith) (omega arith)))
              (either _ _ _
                (loads cpu w h 2 _ (omega arith) (omega arith)
                  (λ v hv. bit_and-lt 32 v 0xffff (omega arith) (omega arith)))
                illegal_kept)))))

  execute_system-Keeps : (func3 : ℕ) → Keeps (execute_system func3 cpu w)
  unfolding execute_system
  execute_system-Keeps func3 =
      either _ _ _ (either _ _ _ (exec_ecall-Keeps cpu w h) illegal_kept) illegal_kept

  same : Keeps (ok cpu)
  same = record { kept = h }

  execute_misc_mem-Keeps : (func3 : ℕ) → Keeps (execute_misc_mem func3 cpu)
  unfolding execute_misc_mem
  execute_misc_mem-Keeps func3 = either _ _ _ same (either _ _ _ same illegal_kept)

  upper : Decoder.imm_u w < 2 ^ 32
  upper = omega (arith, imm_u_lem w)

  exec_lui-Keeps : Keeps (exec_lui cpu w)
  exec_lui-Keeps =
      rw (exec_lui_lem cpu w) (record { kept = set_reg-IsMachine cpu h (Decoder.rd w) _ upper })

  exec_auipc-Keeps : Keeps (exec_auipc cpu w)
  exec_auipc-Keeps =
      rw (exec_auipc_lem cpu w)
        (record { kept = set_reg-IsMachine cpu h (Decoder.rd w) _ (omega arith) })

  execute_op-Keeps : (op func3 func7 : ℕ) → Keeps (execute_op op func3 func7 cpu w)
  unfolding execute_op
  execute_op-Keeps op func3 func7 =
      (either _ _ _ (execute_r_type-Keeps func3 func7) (
        either _ _ _ (execute_i_type-Keeps func3 func7) (
          either _ _ _ (execute_store-Keeps func3) (
            either _ _ _ (execute_b_type-Keeps func3) (
              either _ _ _ (execute_load-Keeps func3) (
                either _ _ _ exec_lui-Keeps (
                  either _ _ _ exec_auipc-Keeps (
                    either _ _ _ (exec_jal-Keeps cpu w h) (
                      either _ _ _ (exec_jalr-Keeps cpu w h) (
                        either _ _ _ (execute_system-Keeps func3) (
                          either _ _ _ (execute_misc_mem-Keeps func3) unknown_opcode_kept)))))))))))

  -- Executing any word on a well-formed machine either leaves a well-formed machine (registers that
  -- are words with x0 zero, a word as the pc, a memory of bytes, no fault of the MMU unreported) or
  -- stops on something else than a register index out of range.
  execute-IsMachine : Outcome IsMachine (execute cpu w)
  unfolding execute execute_op
  execute-IsMachine = (execute_op-Keeps (Decoder.opcode w) (Decoder.func3 w) (Decoder.func7 w)).kept

-- A step of a well-formed machine, whatever its page tables and its memory hold, either leaves a
-- well-formed machine (registers that are words with x0 zero, a word as the pc, a memory of bytes,
-- no fault of the MMU unreported) or stops on something else than a register index out of range.
pub step-IsMachine : (cpu : Machine) → IsMachine cpu → Outcome IsMachine (step cpu)
unfolding step
step-IsMachine cpu h =
    Outcome->>= (Read 4) IsMachine (fetch (clear_trap cpu)) _
      (fetch-IsMachine (clear_trap cpu) (clear_trap-IsMachine cpu h))
      (λ l hl. Outcome-if IsMachine (has_trap l.0) _ _ hl.0 (execute-IsMachine l.0 l.1 hl.0))
