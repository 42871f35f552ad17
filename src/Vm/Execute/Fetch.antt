-- ===== src/Vm/Execute/Fetch.antt =====
-- `Machine::step`: the instruction is fetched from the page that the pc lies in, and executed.
use rv32umos.Base.{ℕ, ◌+◌, ◌≤◌, ◌≡◌, refl, ok, none}
use rv32umos.Vm.Memory.{memory_size}
use rv32umos.Vm.Memory.Loops.{IsBytes, le_word}
use rv32umos.Vm.PageTable.{Pte}
use rv32umos.Vm.Mmu.Translate.{executes, walk, physical}
use rv32umos.Vm.Mmu.Access.{IsOn, Walks, after}
use rv32umos.Vm.Machine.{Machine, clear_trap, has_trap}
use rv32umos.Vm.Machine.Access.{fetch-mapped, fetch-trapped, trapped, with_mmu}
use rv32umos.Vm.Execute.{execute, step}

module _ (cpu : Machine) (on : IsOn cpu.mmu) where
  -- A step at a pc whose page the table in use does not let the program execute leaves the page
  -- fault trap with the pc in it and changes nothing else: no instruction is executed.
  pub step-trapped : walk cpu.mmu cpu.pc executes ≡ none → step cpu ≡ ok (trapped cpu cpu.pc)
  unfolding step clear_trap has_trap
  step-trapped r = rw (fetch-trapped (clear_trap cpu) on r)

  -- A step at a pc whose page the table in use lets the program execute, where the four bytes of the
  -- instruction lie in the RAM, executes their little-endian word, on the machine with the trap
  -- cleared and the page's entry marked referenced.
  pub step-mapped :
      (p : ℕ) (pte : Pte)
      → IsBytes cpu.mmu.memory
      → Walks cpu.mmu cpu.pc executes p pte
      → physical pte cpu.pc + 4 ≤ memory_size
      → step cpu
        ≡ execute
            (with_mmu (clear_trap cpu) (after cpu.mmu cpu.pc executes p pte))
            (le_word cpu.mmu.memory.bytes (physical pte cpu.pc) 4)
  unfolding step clear_trap has_trap
  step-mapped p pte hm w fits = rw (fetch-mapped (clear_trap cpu) on p pte hm w fits) refl
