-- ===== src/Vm/Execute/Keeps.antt =====
-- Each handler of rv32vm/Executor.cpp keeps the machine well-formed and never fails the register
-- file's assert.
use rv32umos.Base.{
  ℕ, ◌-◌, ◌*◌, ◌%◌, ◌^◌, ◌<◌, ◌≤◌, arith, Bool, true, false, ok, stop, illegal, unknown_opcode,
  Result, ◌==◌, if◌then◌else◌, add32, sub32, bit_and, to_word-lt,
}
use native.Mathlib.Nat.{div-le_self, mod-le}
use rv32umos.Bits.{bit_and-lt, bit_or-lt, bit_xor-lt}
use rv32umos.Vm.Mmu.Bytes.{Outcome, Outcome-if, Outcome->>=}
use rv32umos.Vm.Decoder
use rv32umos.Vm.Decoder.Fields.{shamt_i_lem, imm_i_lem}
use rv32umos.Vm.Machine.{Machine, set_pc, has_trap, load_virtual_memory}
use rv32umos.Vm.Machine.Laws.{reg, set_reg, read_reg-in_range, rd-lt, rs1-lt, rs2-lt}
use rv32umos.Vm.Machine.Invariant.{
  IsMachine, Read, load-IsMachine, store-IsMachine, set_reg-IsMachine, write_reg-IsMachine,
  at_pc-IsMachine, set_trap-IsMachine,
}
use rv32umos.Vm.Isa.{
  RegOp, add, sub, sll, slt, sltu, xor, srl, sra, or, and, mul, mulh, mulhsu, mulhu, div, divu, rem,
  remu, alu,
}
use rv32umos.Vm.Executor.Register.Laws.{Computes}
use rv32umos.Vm.Executor.Immediate.Laws.{ComputesWith}
use rv32umos.Vm.Executor.Access.Laws.{loading, storing, load_address, store_address}
use rv32umos.Vm.Executor.Jump.Laws.{branching, write_link_lem}
use rv32umos.Vm.Executor.Jump.{exec_jal, exec_jalr}
use rv32umos.Vm.Executor.{exec_ecall}

alu-lt : (op : RegOp) (a b : ℕ) → a < 2 ^ 32 → b < 2 ^ 32 → alu op a b < 2 ^ 32
unfolding alu
alu-lt add a b ha hb = omega arith
alu-lt sub a b ha hb = omega arith
alu-lt sll a b ha hb = omega arith
alu-lt slt a b ha hb = ground arith
alu-lt sltu a b ha hb = ground arith
alu-lt xor a b ha hb = bit_xor-lt 32 a b ha hb
alu-lt srl a b ha hb = omega (arith, div-le_self a (2 ^ (b % 32)))
alu-lt sra a b ha hb =
    ground (arith, div-le_self a (2 ^ (b % 32)), div-le_self (2 ^ 32 - 1 - a) (2 ^ (b % 32)))
alu-lt or a b ha hb = bit_or-lt 32 a b ha hb
alu-lt and a b ha hb = bit_and-lt 32 a b ha hb
alu-lt mul a b ha hb = omega arith
alu-lt mulh a b ha hb = omega arith
alu-lt mulhsu a b ha hb = omega arith
alu-lt mulhu a b ha hb = omega arith
alu-lt div a b ha hb = ground (arith, div-le_self a b, div-le_self (2 ^ 32 - a) (2 ^ 32 - b))
alu-lt divu a b ha hb = ground (arith, div-le_self a b)
alu-lt rem a b ha hb = ground (arith, mod-le a b, mod-le a (2 ^ 32 - b))
alu-lt remu a b ha hb = ground (arith, mod-le a b)

-- The handler's outcome: a well-formed machine, or no failed assert of the register file.
pub record Keeps (r : Result Machine) : Type 0 where
  pub kept : Outcome IsMachine r

pub illegal_kept : Keeps (stop illegal)
illegal_kept = record { kept = λ q. cc }

pub unknown_opcode_kept : Keeps (stop unknown_opcode)
unknown_opcode_kept = record { kept = λ q. cc }

module _ (cpu : Machine) (w : ℕ) (h : IsMachine cpu) where
  pub computes : {r : Result Machine} (op : RegOp) → Computes op cpu w r → Keeps r
  computes op e = rw e (record {
    kept =
        set_reg-IsMachine cpu h (Decoder.rd w) _
          (alu-lt op _ _ (h.regs.words (Decoder.rs1 w)) (h.regs.words (Decoder.rs2 w)));
  })

  pub computes_with :
      {r : Result Machine} (op : RegOp) (b : ℕ) → b < 2 ^ 32 → ComputesWith op b cpu w r → Keeps r
  computes_with op b hb e = rw e (record {
    kept =
        set_reg-IsMachine cpu h (Decoder.rd w) _ (alu-lt op _ _ (h.regs.words (Decoder.rs1 w)) hb);
  })

  pub imm : Decoder.imm_i w < 2 ^ 32
  imm = omega (arith, imm_i_lem w, to_word-lt)

  pub shamt : Decoder.shamt_i w < 2 ^ 32
  shamt = omega (arith, shamt_i_lem w)

  pub loads :
      (size : ℕ) (f : ℕ → ℕ)
      → 1 ≤ size
      → size ≤ 4
      → ((v : ℕ) → v < 2 ^ (size * 8) → f v < 2 ^ 32)
      → Keeps (loading size f cpu w)
  loads size f h1 h4 hf = rw (read_reg-in_range cpu (Decoder.rs1 w) (rs1-lt w)) (record {
    kept = Outcome-if IsMachine (Decoder.rd w == 0) _ _ h (
        Outcome->>= (Read size) IsMachine (load_virtual_memory cpu (load_address cpu w) size) _
          (load-IsMachine cpu h (load_address cpu w) size h1 h4)
          (λ l hl.
            Outcome-if IsMachine (has_trap l.0) _ _ hl.0
              (write_reg-IsMachine l.0 hl.0 (Decoder.rd w) _ (rd-lt w) (hf l.1 hl.1))));
  })

  pub stores : (size : ℕ) → 1 ≤ size → Keeps (storing size cpu w)
  stores size h1 =
      rw
        (
          read_reg-in_range cpu (Decoder.rs1 w) (rs1-lt w),
          read_reg-in_range cpu (Decoder.rs2 w) (rs2-lt w),
        )
        (record {
          kept = store-IsMachine cpu h (store_address cpu w) size (reg cpu (Decoder.rs2 w)) h1;
        })

  branch_state :
      (b : Bool)
      → IsMachine (if b then set_pc cpu (add32 (sub32 cpu.pc 4) (Decoder.imm_b w)) else cpu)
  unfolding set_pc
  branch_state true = at_pc-IsMachine cpu h _ (omega arith)
  branch_state false = h

  pub branches : (cond : ℕ → ℕ → Bool) → Keeps (branching cond cpu w)
  unfolding set_pc
  branches cond =
      rw
        (
          read_reg-in_range cpu (Decoder.rs1 w) (rs1-lt w),
          read_reg-in_range cpu (Decoder.rs2 w) (rs2-lt w),
        )
        (record { kept = branch_state (cond (reg cpu (Decoder.rs1 w)) (reg cpu (Decoder.rs2 w))) })

  jumps : (t : ℕ) → Keeps (ok (set_pc (set_reg cpu (Decoder.rd w) (add32 cpu.pc 4)) (sub32 t 4)))
  unfolding set_pc
  jumps t = record {
    kept =
        at_pc-IsMachine (set_reg cpu (Decoder.rd w) (add32 cpu.pc 4))
          (set_reg-IsMachine cpu h (Decoder.rd w) (add32 cpu.pc 4) (omega arith)) (sub32 t 4)
          (omega arith);
  }

  pub exec_jal-Keeps : Keeps (exec_jal cpu w)
  unfolding exec_jal
  exec_jal-Keeps =
      rw (write_link_lem cpu w h.pc (add32 cpu.pc 4)) (jumps (add32 cpu.pc (Decoder.imm_j w)))

  pub exec_jalr-Keeps : Keeps (exec_jalr cpu w)
  unfolding exec_jalr
  exec_jalr-Keeps =
      rw
        (
          read_reg-in_range cpu (Decoder.rs1 w) (rs1-lt w),
          write_link_lem cpu w h.pc (add32 cpu.pc 4),
        )
        (jumps (bit_and (add32 (reg cpu (Decoder.rs1 w)) (Decoder.imm_i w)) 0xffff_fffe))

  pub exec_ecall-Keeps : Keeps (exec_ecall cpu)
  unfolding exec_ecall
  exec_ecall-Keeps =
      rw (read_reg-in_range cpu 17 (omega arith)) (record { kept = set_trap-IsMachine cpu h _ _ })
