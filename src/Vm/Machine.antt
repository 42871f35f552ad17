-- ===== src/Vm/Machine.antt =====
-- rv32vm/Machine.hpp, and of rv32vm/Machine.cpp the constructor, `reset` and `fetch`. The switch of
-- `execute` and `step` are in Vm/Execute.antt. `dumpRegisters` is output only.
pub mod Laws
pub mod Access
pub mod Invariant
use rv32umos.Base.{
  ℕ, ◌+◌, ◌*◌, ◌/◌, Bool, true, false, Option, Result, ok, ◌>>=◌, add32, if◌then◌else◌,
}
use rv32umos.Vm.RegFile
use rv32umos.Vm.RegFile.{RegFile}
use rv32umos.Vm.Memory.{memory_base}
use rv32umos.Vm.Mmu
use rv32umos.Vm.Mmu.{Mmu}

pub data TrapType : Type 0 where
  none syscall page_fault : TrapType

pub record Trap : Type 0 where
  pub type : TrapType
  pub value : ℕ

pub record Machine : Type 0 where
  pub regs : RegFile
  pub mmu : Mmu
  pub pc : ℕ
  pub trap : Trap

-- STACK_TOP of common/Common.hpp: the end of the 64 MB of virtual memory.
abbrev pub stack_top : ℕ
stack_top = 64 * 1024 * 1024

unfoldable pub advance_pc : Machine → Machine
advance_pc cpu = record cpu { pc = add32 cpu.pc 4 }

unfoldable pub set_pc : Machine → ℕ → Machine
set_pc cpu new_pc = record cpu { pc = new_pc }

unfoldable pub set_trap : Machine → TrapType → ℕ → Machine
set_trap cpu type value = record cpu { trap = record { type = type; value = value } }

unfoldable pub has_trap : Machine → Bool
has_trap cpu = elim cpu.trap.type [ TrapType.none ↦ false | _ ↦ true ]

unfoldable pub clear_trap : Machine → Machine
clear_trap cpu = record cpu { trap = record { type = TrapType.none; value = 0 } }

-- What Machine does after each access of its MMU: a fault becomes a trap.
trap_fault : Machine → Machine
unfolding set_trap
trap_fault cpu =
    if cpu.mmu.fault
    then record (set_trap cpu TrapType.page_fault cpu.mmu.fault_addr) {
      mmu = Mmu.clear_fault cpu.mmu;
    }
    else cpu

pub load_virtual_memory : Machine → ℕ → ℕ → Result (Machine × ℕ)
unfolding trap_fault
load_virtual_memory cpu vaddr size = do
  (u, val) ← Mmu.load_virtual_memory cpu.mmu vaddr size
  ok (trap_fault (record cpu { mmu = u }), val)

pub store_virtual_memory : Machine → ℕ → ℕ → ℕ → Result Machine
unfolding trap_fault
store_virtual_memory cpu vaddr size value = do
  u ← Mmu.store_virtual_memory cpu.mmu vaddr size value
  ok (trap_fault (record cpu { mmu = u }))

pub load_physical_memory : Machine → ℕ → ℕ → Result ℕ
load_physical_memory cpu paddr size = Mmu.load_physical_memory cpu.mmu paddr size

pub store_physical_memory : Machine → ℕ → ℕ → ℕ → Result Machine
store_physical_memory cpu paddr size value = do
  u ← Mmu.store_physical_memory cpu.mmu paddr size value
  ok (record cpu { mmu = u })

pub read_reg : Machine → ℕ → Result ℕ
read_reg cpu index = RegFile.read cpu.regs index

pub write_reg : Machine → ℕ → ℕ → Result Machine
write_reg cpu index value = do r ← RegFile.write cpu.regs index value; ok (record cpu { regs = r })

unfoldable pub set_page_table : Machine → Option ℕ → Machine
set_page_table cpu table = record cpu { mmu = Mmu.set_page_table cpu.mmu table }

pub enable_vm : Machine → Bool → Machine
enable_vm cpu enabled = record cpu { mmu = Mmu.enable_vm cpu.mmu enabled }

unfoldable pub reset : Machine → Result Machine
reset cpu = do
  r ← RegFile.write (RegFile.reset cpu.regs) 2 stack_top
  ok (record cpu { mmu = Mmu.reset cpu.mmu; pc = memory_base; regs = r })

pub fetch : Machine → Result (Machine × ℕ)
unfolding trap_fault
fetch cpu = do (u, val) ← Mmu.fetch cpu.mmu cpu.pc; ok (trap_fault (record cpu { mmu = u }), val)
