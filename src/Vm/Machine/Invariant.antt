-- ===== src/Vm/Machine/Invariant.antt =====
-- The machine's well-formedness, and the operations of rv32vm/Machine.cpp that keep it.
use rv32umos.Base.{ℕ, ◌*◌, ◌^◌, ◌<◌, ◌≤◌, ◌≡◌, refl, Bool, true, false, if◌then◌else◌}
use rv32umos.Vm.RegFile.Laws.{IsRegs, written-IsRegs}
use rv32umos.Vm.Memory.Loops.{IsBytes}
use rv32umos.Vm.Mmu.{Mmu, clear_fault}
use rv32umos.Vm.Mmu
use rv32umos.Vm.Mmu.Bytes.{
  Outcome, Loaded, Outcome->>=, load_virtual_memory-Outcome, store_virtual_memory-Outcome,
  fetch-Outcome,
}
use rv32umos.Vm.Machine.{
  Machine, TrapType, trap_fault, load_virtual_memory, store_virtual_memory, fetch, set_trap,
  clear_trap, write_reg,
}
use rv32umos.Vm.Machine.Laws.{set_reg, write_reg-in_range}

-- The registers are words with x0 zero, the pc is a word, the memory holds bytes, and no fault of
-- the MMU is left unreported.
pub record IsMachine (cpu : Machine) : Type 0 where
  pub regs : IsRegs cpu.regs
  pub pc : cpu.pc < 2 ^ 32
  pub bytes : IsBytes cpu.mmu.memory
  pub quiet : cpu.mmu.fault ≡ false

-- What a load of `size` bytes returns.
abbrev pub Read : ℕ → Machine × ℕ → Type 0
Read size (cpu, v) = IsMachine cpu × (v < 2 ^ (size * 8))

if-cases :
    (P : Machine → Type 0) (b : Bool) (x y : Machine)
    → (b ≡ true → P x)
    → (b ≡ false → P y)
    → P (if b then x else y)
if-cases P true x y hx hy = hx refl
if-cases P false x y hx hy = hy refl

trap_fault-IsMachine :
    (cpu : Machine)
    → IsRegs cpu.regs
    → cpu.pc < 2 ^ 32
    → IsBytes cpu.mmu.memory
    → IsMachine (trap_fault cpu)
unfolding trap_fault set_trap Mmu.clear_fault
trap_fault-IsMachine cpu r p b =
    if-cases IsMachine cpu.mmu.fault _ _ (λ e. record { regs = r; pc = p; bytes = b; quiet = refl })
      (λ e. record { regs = r; pc = p; bytes = b; quiet = e })

module _ (cpu : Machine) (h : IsMachine cpu) where
  pub load-IsMachine :
      (vaddr size : ℕ)
      → 1 ≤ size
      → size ≤ 4
      → Outcome (Read size) (load_virtual_memory cpu vaddr size)
  unfolding load_virtual_memory
  load-IsMachine vaddr size h1 h4 =
      Outcome->>= (Loaded size) (Read size) (Mmu.load_virtual_memory cpu.mmu vaddr size) _
        (load_virtual_memory-Outcome cpu.mmu vaddr h.bytes size h1 h4)
        (λ l hl. (trap_fault-IsMachine _ h.regs h.pc hl.0, hl.1))

  pub fetch-IsMachine : Outcome (Read 4) (fetch cpu)
  unfolding fetch
  fetch-IsMachine =
      Outcome->>= (Loaded 4) (Read 4) (Mmu.fetch cpu.mmu cpu.pc) _
        (fetch-Outcome cpu.mmu cpu.pc h.bytes)
        (λ l hl. (trap_fault-IsMachine _ h.regs h.pc hl.0, hl.1))

  pub store-IsMachine :
      (vaddr size value : ℕ)
      → 1 ≤ size
      → Outcome IsMachine (store_virtual_memory cpu vaddr size value)
  unfolding store_virtual_memory
  store-IsMachine vaddr size value h1 =
      Outcome->>= (λ u. IsBytes u.memory) IsMachine
        (Mmu.store_virtual_memory cpu.mmu vaddr size value) _
        (store_virtual_memory-Outcome cpu.mmu vaddr h.bytes size value h1)
        (λ u hu. trap_fault-IsMachine _ h.regs h.pc hu)

  pub set_reg-IsMachine : (d v : ℕ) → v < 2 ^ 32 → IsMachine (set_reg cpu d v)
  set_reg-IsMachine d v hv = record {
    regs = written-IsRegs cpu.regs d v hv h.regs;
    pc = h.pc;
    bytes = h.bytes;
    quiet = h.quiet;
  }

  pub write_reg-IsMachine : (d v : ℕ) → d < 32 → v < 2 ^ 32 → Outcome IsMachine (write_reg cpu d v)
  write_reg-IsMachine d v hd hv = rw (write_reg-in_range cpu d v hd) (set_reg-IsMachine d v hv)

  pub at_pc-IsMachine : (new : ℕ) → new < 2 ^ 32 → IsMachine (record cpu { pc = new })
  at_pc-IsMachine new hn = record { regs = h.regs; pc = hn; bytes = h.bytes; quiet = h.quiet }

  pub set_trap-IsMachine : (type : TrapType) (value : ℕ) → IsMachine (set_trap cpu type value)
  unfolding set_trap
  set_trap-IsMachine type value = record {
    regs = h.regs;
    pc = h.pc;
    bytes = h.bytes;
    quiet = h.quiet;
  }

  pub clear_trap-IsMachine : IsMachine (clear_trap cpu)
  unfolding clear_trap
  clear_trap-IsMachine = record { regs = h.regs; pc = h.pc; bytes = h.bytes; quiet = h.quiet }
