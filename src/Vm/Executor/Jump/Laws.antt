-- ===== src/Vm/Executor/Jump/Laws.antt =====
-- Where jumps and branches go, once the caller has advanced the pc.
use rv32umos.Base.{
  ℕ, ◌-◌, ◌/◌, ◌%◌, ◌^◌, ◌<◌, ◌≡◌, ap, ◌∙◌, arith, ok, Result, Bool, not, if◌then◌else◌, ◌>>=◌,
  add32, sub32, bit_and, ltb, leb,
}
use rv32umos.Bits.{bit_and-split, bit_and_mask, bit_and-zero}
use rv32umos.Vm.RegFile.Laws.{IsRegs}
use rv32umos.Vm.Decoder
use rv32umos.Vm.Machine.{Machine, advance_pc, set_pc, read_reg}
use rv32umos.Vm.Machine.Laws.{
  reg, set_reg, read_reg-in_range, write_reg-in_range, rd-lt, rs1-lt, rs2-lt,
}
use rv32umos.Vm.Isa.{BranchOp, beq, bne, blt, bge, bltu, bgeu, takes}
use rv32umos.Vm.Executor.Register.Laws.{ltb_ℤ-signed}
use rv32umos.Vm.Executor.Jump.{
  write_link, exec_jal, exec_jalr, exec_beq, exec_bne, exec_blt, exec_bge, exec_bltu, exec_bgeu,
}

-- A handler followed by the caller's `advancePC`.
abbrev pub advanced : Result Machine → Result Machine
advanced r = r >>= λ cpu. ok (advance_pc cpu)

abbrev pub at_pc : Machine → ℕ → Machine
at_pc cpu pc = record cpu { pc = pc }

-- The shape of the branch handlers.
abbrev pub branching : (ℕ → ℕ → Bool) → Machine → ℕ → Result Machine
branching cond cpu instr = do
  let rs1 = Decoder.rs1 instr
  let rs2 = Decoder.rs2 instr
  let imm = Decoder.imm_b instr
  val1 ← read_reg cpu rs1
  val2 ← read_reg cpu rs2
  ok (if cond val1 val2 then set_pc cpu (add32 (sub32 cpu.pc 4) imm) else cpu)

branch_target : (pc imm : ℕ) → pc < 2 ^ 32 → add32 (add32 (sub32 pc 4) imm) 4 ≡ add32 pc imm
branch_target pc imm h = omega arith

jump_target : (pc imm : ℕ) → pc < 2 ^ 32 → add32 (sub32 (add32 pc imm) 4) 4 ≡ add32 pc imm
jump_target pc imm h = omega arith

-- Clearing the lowest bit.
even : (t : ℕ) → t < 2 ^ 32 → bit_and t 0xffff_fffe ≡ t - t % 2
even t h = ground (
  arith,
  bit_and-split 1 (t / 2) (t % 2) (2 ^ 31 - 1) 0,
  bit_and_mask 31 (t / 2),
  bit_and-zero (t % 2),
)

leb-not-ltb : (a b : ℕ) → leb b a ≡ not (ltb a b)
leb-not-ltb a b = ground arith

module _ (cpu : Machine) (w : ℕ) (pc_word : cpu.pc < 2 ^ 32) where
  branching_lem :
      (cond : ℕ → ℕ → Bool)
      → advanced (branching cond cpu w)
        ≡ ok (
            at_pc cpu (
              if cond (reg cpu (Decoder.rs1 w)) (reg cpu (Decoder.rs2 w))
              then add32 cpu.pc (Decoder.imm_b w)
              else add32 cpu.pc 4))
  unfolding set_pc advance_pc
  branching_lem cond =
      rw
        (
          read_reg-in_range cpu (Decoder.rs1 w) (rs1-lt w),
          read_reg-in_range cpu (Decoder.rs2 w) (rs2-lt w),
        )
        (ground (arith, branch_target cpu.pc (Decoder.imm_b w) pc_word))

  pub write_link_lem : (v : ℕ) → write_link cpu (Decoder.rd w) v ≡ ok (set_reg cpu (Decoder.rd w) v)
  unfolding write_link
  write_link_lem v = rw (write_reg-in_range cpu (Decoder.rd w) v (rd-lt w)) (ground arith)

  pub exec_jal_lem :
      advanced (exec_jal cpu w)
      ≡ ok (set_reg (at_pc cpu (add32 cpu.pc (Decoder.imm_j w))) (Decoder.rd w) (add32 cpu.pc 4))
  unfolding exec_jal set_pc advance_pc
  exec_jal_lem = rw (write_link_lem (add32 cpu.pc 4)) (
      ap (λ pc. ok (set_reg (at_pc cpu pc) (Decoder.rd w) (add32 cpu.pc 4)))
        (jump_target cpu.pc (Decoder.imm_j w) pc_word))

  pub exec_jalr_lem :
      let t = add32 (reg cpu (Decoder.rs1 w)) (Decoder.imm_i w) in
      advanced (exec_jalr cpu w)
      ≡ ok (set_reg (at_pc cpu (t - t % 2)) (Decoder.rd w) (add32 cpu.pc 4))
  unfolding exec_jalr set_pc advance_pc
  exec_jalr_lem =
      rw (read_reg-in_range cpu (Decoder.rs1 w) (rs1-lt w), write_link_lem (add32 cpu.pc 4))
        (ap (λ pc. ok (set_reg (at_pc cpu pc) (Decoder.rd w) (add32 cpu.pc 4)))
          (omega (arith, even (add32 (reg cpu (Decoder.rs1 w)) (Decoder.imm_i w)) (omega arith))))

  module _ (regs : IsRegs cpu.regs) where
    -- What the handler of a branch must do.
    abbrev pub Branches : BranchOp → Result Machine → Type 0
    Branches op r =
        advanced r
        ≡ ok (
            at_pc cpu (
              if takes op (reg cpu (Decoder.rs1 w)) (reg cpu (Decoder.rs2 w))
              then add32 cpu.pc (Decoder.imm_b w)
              else add32 cpu.pc 4))

    pub exec_beq_lem : Branches beq (exec_beq cpu w)
    unfolding exec_beq takes
    exec_beq_lem = branching_lem _

    pub exec_bne_lem : Branches bne (exec_bne cpu w)
    unfolding exec_bne takes
    exec_bne_lem = branching_lem _

    pub exec_blt_lem : Branches blt (exec_blt cpu w)
    unfolding exec_blt takes
    exec_blt_lem =
        branching_lem _
        ∙ ap (λ b. ok (at_pc cpu (if b then add32 cpu.pc (Decoder.imm_b w) else add32 cpu.pc 4)))
            (ltb_ℤ-signed _ _ (regs.words (Decoder.rs1 w)) (regs.words (Decoder.rs2 w)))

    pub exec_bge_lem : Branches bge (exec_bge cpu w)
    unfolding exec_bge takes
    exec_bge_lem =
        branching_lem _
        ∙ ap
            (λ b. ok (at_pc cpu (if not b then add32 cpu.pc (Decoder.imm_b w) else add32 cpu.pc 4)))
            (ltb_ℤ-signed _ _ (regs.words (Decoder.rs1 w)) (regs.words (Decoder.rs2 w)))

    pub exec_bltu_lem : Branches bltu (exec_bltu cpu w)
    unfolding exec_bltu takes
    exec_bltu_lem = branching_lem _

    pub exec_bgeu_lem : Branches bgeu (exec_bgeu cpu w)
    unfolding exec_bgeu takes
    exec_bgeu_lem =
        branching_lem _
        ∙ ap (λ b. ok (at_pc cpu (if b then add32 cpu.pc (Decoder.imm_b w) else add32 cpu.pc 4)))
            (leb-not-ltb (reg cpu (Decoder.rs1 w)) (reg cpu (Decoder.rs2 w)))
