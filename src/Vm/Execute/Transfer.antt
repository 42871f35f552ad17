-- ===== src/Vm/Execute/Transfer.antt =====
-- Loads, stores, jumps, branches and ECALL through the switch of `Machine::execute`.
use rv32umos.Base.{
  ℕ, ◌+◌, ◌-◌, ◌%◌, ◌^◌, ◌<◌, ◌≤◌, ◌≡◌, ◌≢◌, ◌∙◌, ap, ok, refl, none, if◌then◌else◌, add32, ltb,
  arith,
}
use rv32umos.Vm.Memory.{memory_size}
use rv32umos.Vm.Memory.Loops.{IsBytes, stored}
use rv32umos.Vm.PageTable.{Pte}
use rv32umos.Vm.Mmu.Translate.{reads, writes, walk, physical}
use rv32umos.Vm.Mmu.Access.{IsOn, Walks, after}
use rv32umos.Vm.Decoder
use rv32umos.Vm.RegFile.Laws.{IsRegs}
use rv32umos.Vm.Machine.{Machine, TrapType, set_trap}
use rv32umos.Vm.Machine.Laws.{reg, set_reg, read_reg-in_range}
use rv32umos.Vm.Machine.Access.{trapped, with_mmu}
use rv32umos.Vm.Isa.{
  LoadOp, lb, lh, lw, lbu, lhu, load_size, load_funct3, StoreOp, sb, sh, sw, store_size,
  store_funct3, BranchOp, beq, bne, blt, bge, bltu, bgeu, branch_funct3, takes,
}
use rv32umos.Vm.Executor.{exec_ecall}
use rv32umos.Vm.Executor.Access.Laws.{
  load_address, store_address, loaded, exec_load, exec_store, exec_load-trapped, exec_load-mapped,
  exec_store-trapped, exec_store-mapped, exec_load-x0,
}
use rv32umos.Vm.Executor.Jump.Laws.{
  advanced, at_pc, exec_jal_lem, exec_jalr_lem, exec_beq_lem, exec_bne_lem, exec_blt_lem,
  exec_bge_lem, exec_bltu_lem, exec_bgeu_lem,
}
use rv32umos.Vm.Execute.{execute, execute_op}
use rv32umos.Vm.Execute.Dispatch.{execute-fields}

exec_ecall_lem :
    (cpu : Machine)
    → exec_ecall cpu
      ≡ ok (record cpu {
        trap = record {
          type = TrapType.syscall;
          value = if ltb (reg cpu 17) 15 then reg cpu 17 else 0xffff_ffff;
        };
      })
unfolding exec_ecall set_trap
exec_ecall_lem cpu = rw (read_reg-in_range cpu 17 (omega arith))

execute-load :
    (cpu : Machine) (w : ℕ) (op : LoadOp)
    → Decoder.opcode w ≡ 0x03
    → Decoder.func3 w ≡ load_funct3 op
    → execute cpu w ≡ exec_load op cpu w
unfolding execute_op
execute-load cpu w lb e e3 = execute-fields cpu w e e3 refl
execute-load cpu w lh e e3 = execute-fields cpu w e e3 refl
execute-load cpu w lw e e3 = execute-fields cpu w e e3 refl
execute-load cpu w lbu e e3 = execute-fields cpu w e e3 refl
execute-load cpu w lhu e e3 = execute-fields cpu w e e3 refl

execute-store :
    (cpu : Machine) (w : ℕ) (op : StoreOp)
    → Decoder.opcode w ≡ 0x23
    → Decoder.func3 w ≡ store_funct3 op
    → execute cpu w ≡ exec_store op cpu w
unfolding execute_op
execute-store cpu w sb e e3 = execute-fields cpu w e e3 refl
execute-store cpu w sh e e3 = execute-fields cpu w e e3 refl
execute-store cpu w sw e e3 = execute-fields cpu w e e3 refl

module _ (cpu : Machine) (w : ℕ) (on : IsOn cpu.mmu) where
  -- A load into another register than x0 that the page table in use does not allow, on a machine
  -- whose MMU is on and without a fault, leaves the page fault trap with the address and changes
  -- nothing else: the registers, the pc, the memory and every page table stay.
  pub execute_load-trapped :
      (op : LoadOp)
      → Decoder.opcode w ≡ 0x03
      → Decoder.func3 w ≡ load_funct3 op
      → Decoder.rd w ≢ 0
      → walk cpu.mmu (load_address cpu w) reads ≡ none
      → execute cpu w ≡ ok (trapped cpu (load_address cpu w))
  execute_load-trapped op e e3 d r = execute-load cpu w op e e3 ∙ exec_load-trapped cpu w on op d r

  -- A store that the page table in use does not allow, on a machine whose MMU is on and without a
  -- fault, leaves the page fault trap with the address and changes nothing else: the registers, the
  -- pc, the memory and every page table stay.
  pub execute_store-trapped :
      (op : StoreOp)
      → Decoder.opcode w ≡ 0x23
      → Decoder.func3 w ≡ store_funct3 op
      → walk cpu.mmu (store_address cpu w) writes ≡ none
      → execute cpu w ≡ ok (trapped cpu (store_address cpu w))
  execute_store-trapped op e e3 r = execute-store cpu w op e e3 ∙ exec_store-trapped cpu w on op r

  module _ (p : ℕ) (pte : Pte) (hm : IsBytes cpu.mmu.memory) where
    -- A load into another register than x0 from a page that the table in use lets the program read,
    -- where the physical bytes lie in the RAM, returns and gives rd the little-endian value of the
    -- bytes, extended as the operation says; the page's entry is marked referenced and nothing else
    -- changes.
    pub execute_load-mapped :
        (op : LoadOp)
        → Decoder.opcode w ≡ 0x03
        → Decoder.func3 w ≡ load_funct3 op
        → cpu.trap.type ≡ TrapType.none
        → Decoder.rd w ≢ 0
        → Walks cpu.mmu (load_address cpu w) reads p pte
        → physical pte (load_address cpu w) + load_size op ≤ memory_size
        → execute cpu w ≡ ok (loaded cpu w on p pte hm op)
    execute_load-mapped op e e3 q d walks fits =
        execute-load cpu w op e e3 ∙ exec_load-mapped cpu w on p pte hm op q d walks fits

    -- A store to a page that the table in use lets the program write, where the physical bytes lie
    -- in the RAM, returns and sets exactly those bytes, to the low bytes of rs2; the page's entry
    -- is marked referenced and dirty and nothing else changes.
    pub execute_store-mapped :
        (op : StoreOp)
        → Decoder.opcode w ≡ 0x23
        → Decoder.func3 w ≡ store_funct3 op
        → Walks cpu.mmu (store_address cpu w) writes p pte
        → physical pte (store_address cpu w) + store_size op ≤ memory_size
        → execute cpu w
          ≡ ok (
              with_mmu cpu (record (after cpu.mmu (store_address cpu w) writes p pte) {
                memory =
                    stored cpu.mmu.memory
                      (physical pte (store_address cpu w))
                      (reg cpu (Decoder.rs2 w))
                      0
                      (store_size op);
              }))
    execute_store-mapped op e e3 walks fits =
        execute-store cpu w op e e3 ∙ exec_store-mapped cpu w on p pte hm op walks fits

-- A load into x0 does nothing at all: it reads no memory and raises no page fault, whatever its
-- address.
pub execute_load-x0 :
    (cpu : Machine) (w : ℕ) (op : LoadOp)
    → Decoder.opcode w ≡ 0x03
    → Decoder.func3 w ≡ load_funct3 op
    → Decoder.rd w ≡ 0
    → execute cpu w ≡ ok cpu
execute_load-x0 cpu w op e e3 d = execute-load cpu w op e e3 ∙ exec_load-x0 cpu w op d

module _ (cpu : Machine) (w : ℕ) (pc_word : cpu.pc < 2 ^ 32) where
  -- After a branch and the caller's advance of the pc, the pc is the branch's own plus the offset
  -- if the manual's condition on rs1 and rs2 holds and the next instruction's if not, and nothing
  -- else of the machine has changed.
  pub execute_branch :
      (op : BranchOp)
      → IsRegs cpu.regs
      → Decoder.opcode w ≡ 0x63
      → Decoder.func3 w ≡ branch_funct3 op
      → advanced (execute cpu w)
        ≡ ok (
            at_pc cpu (
              if takes op (reg cpu (Decoder.rs1 w)) (reg cpu (Decoder.rs2 w))
              then add32 cpu.pc (Decoder.imm_b w)
              else add32 cpu.pc 4))
  unfolding execute_op
  execute_branch beq regs e e3 =
      ap advanced (execute-fields cpu w e e3 refl) ∙ exec_beq_lem cpu w pc_word regs
  execute_branch bne regs e e3 =
      ap advanced (execute-fields cpu w e e3 refl) ∙ exec_bne_lem cpu w pc_word regs
  execute_branch blt regs e e3 =
      ap advanced (execute-fields cpu w e e3 refl) ∙ exec_blt_lem cpu w pc_word regs
  execute_branch bge regs e e3 =
      ap advanced (execute-fields cpu w e e3 refl) ∙ exec_bge_lem cpu w pc_word regs
  execute_branch bltu regs e e3 =
      ap advanced (execute-fields cpu w e e3 refl) ∙ exec_bltu_lem cpu w pc_word regs
  execute_branch bgeu regs e e3 =
      ap advanced (execute-fields cpu w e e3 refl) ∙ exec_bgeu_lem cpu w pc_word regs

  -- After JAL and the caller's advance of the pc, the pc is the jump's own plus the offset, rd
  -- holds the next instruction's address unless it is x0, and nothing else has changed.
  pub execute_jal :
      Decoder.opcode w ≡ 0x6f
      → advanced (execute cpu w)
        ≡ ok (set_reg (at_pc cpu (add32 cpu.pc (Decoder.imm_j w))) (Decoder.rd w) (add32 cpu.pc 4))
  unfolding execute_op
  execute_jal e = ap advanced (execute-fields cpu w e refl refl) ∙ exec_jal_lem cpu w pc_word

  -- After JALR and the caller's advance of the pc, the pc is the sum of rs1 (as it was before, also
  -- if rd is the same register) and the immediate with its lowest bit cleared, rd holds the next
  -- instruction's address unless it is x0, and nothing else has changed.
  pub execute_jalr :
      Decoder.opcode w ≡ 0x67
      → let t = add32 (reg cpu (Decoder.rs1 w)) (Decoder.imm_i w) in
        advanced (execute cpu w)
        ≡ ok (set_reg (at_pc cpu (t - t % 2)) (Decoder.rd w) (add32 cpu.pc 4))
  unfolding execute_op
  execute_jalr e = ap advanced (execute-fields cpu w e refl refl) ∙ exec_jalr_lem cpu w pc_word

-- ECALL leaves the system call trap with the number in a7 if that is one of the 15 system calls and
-- with -1 if not, and changes nothing else.
pub execute_ecall :
    (cpu : Machine) (w : ℕ)
    → Decoder.opcode w ≡ 0x73
    → Decoder.func3 w ≡ 0
    → Decoder.imm_i w ≡ 0
    → execute cpu w
      ≡ ok (record cpu {
        trap = record {
          type = TrapType.syscall;
          value = if ltb (reg cpu 17) 15 then reg cpu 17 else 0xffff_ffff;
        };
      })
unfolding execute_op
execute_ecall cpu w e e3 ei = execute-fields cpu w e e3 refl ∙ rw ei (exec_ecall_lem cpu)
