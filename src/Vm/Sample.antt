-- ===== src/Vm/Sample.antt =====
-- Test data: a machine whose page 1 is mapped to the frame 2 and may be read and written, and whose
-- other pages are not mapped.
use rv32umos.Base.{◌*◌, ◌%◌, ◌^◌, refl, arith, true, false, [], some}
use rv32umos.Vm.RegFile.{RegFile}
use rv32umos.Vm.RegFile.Laws.{IsRegs}
use rv32umos.Vm.Memory.{Memory}
use rv32umos.Vm.Memory.Loops.{IsBytes}
use rv32umos.Vm.PageTable.{Pte, fresh, PageTable, insert}
use rv32umos.Vm.Mmu.{Mmu}
use rv32umos.Vm.Machine.{Machine, TrapType}
use rv32umos.Vm.Machine.Invariant.{IsMachine}

abbrev pub ram : Memory
ram = record { bytes = λ i. i % 256 }

pub ram-IsBytes : IsBytes ram
ram-IsBytes i = omega arith

-- The register i holds i * 4096.
abbrev pub registers : RegFile
registers = record { regs = λ i. i * 4096 % 2 ^ 32 }

pub registers-IsRegs : IsRegs registers
registers-IsRegs = record { words = λ i. omega arith; zero_wired = refl }

abbrev pub data_page : Pte
data_page = record fresh { ppn = 2; valid = true; can_read = true; can_write = true }

abbrev pub table : PageTable
table = insert [] 1 data_page

abbrev pub mmu : Mmu
mmu = record {
  memory = ram;
  tables = λ p. table;
  current_table = some 0;
  vm_enabled = true;
  fault = false;
  fault_addr = 0;
}

abbrev pub machine : Machine
machine = record {
  regs = registers;
  mmu = mmu;
  pc = 64;
  trap = record { type = TrapType.none; value = 0 };
}

pub machine-IsMachine : IsMachine machine
machine-IsMachine = record {
  regs = registers-IsRegs;
  pc = omega arith;
  bytes = ram-IsBytes;
  quiet = refl;
}
