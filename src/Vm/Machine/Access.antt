-- ===== src/Vm/Machine/Access.antt =====
-- Loads and stores of the machine: the data of the mapped frame, or a page fault trap.
use rv32umos.Base.{ℕ, ◌+◌, ◌≤◌, ◌≡◌, arith, ok, none, false}
use rv32umos.Vm.Memory.{memory_size}
use rv32umos.Vm.Memory.Loops.{IsBytes, le_word, stored}
use rv32umos.Vm.Memory.Laws.{load-in_range, store-in_range}
use rv32umos.Vm.PageTable.{Pte}
use rv32umos.Vm.Mmu.{Mmu}
use rv32umos.Vm.Mmu
use rv32umos.Vm.Mmu.Translate.{reads, writes, executes, walk, physical}
use rv32umos.Vm.Mmu.Access.{
  IsOn, Walks, after, load_virtual_memory-Walks, store_virtual_memory-Walks, load_refused,
  fetch-Walks, fetch_refused, store_refused,
}
use rv32umos.Vm.Machine.{Machine, fetch, TrapType, load_virtual_memory, store_virtual_memory}

-- The trap that a refused access leaves: nothing else of the machine has changed.
abbrev pub trapped : Machine → ℕ → Machine
trapped cpu vaddr = record cpu {
  trap = record { type = TrapType.page_fault; value = vaddr };
  mmu = record cpu.mmu { fault = false; fault_addr = 0 };
}

abbrev pub with_mmu : Machine → Mmu → Machine
with_mmu cpu u = record cpu { mmu = u }

module _ (cpu : Machine) (vaddr size : ℕ) (on : IsOn cpu.mmu) where
  pub load-trapped :
      walk cpu.mmu vaddr reads ≡ none
      → load_virtual_memory cpu vaddr size ≡ ok (trapped cpu vaddr, 0)
  unfolding load_virtual_memory Mmu.clear_fault
  load-trapped r = rw (load_refused cpu.mmu vaddr size on r)

  pub store-trapped :
      (value : ℕ)
      → walk cpu.mmu vaddr writes ≡ none
      → store_virtual_memory cpu vaddr size value ≡ ok (trapped cpu vaddr)
  unfolding store_virtual_memory Mmu.clear_fault
  store-trapped value r = rw (store_refused cpu.mmu vaddr size value on r)

  module _ (p : ℕ) (pte : Pte) (hm : IsBytes cpu.mmu.memory) (h1 : 1 ≤ size) (h4 : size ≤ 4)
      (fits : physical pte vaddr + size ≤ memory_size) where
    pub load-mapped :
        Walks cpu.mmu vaddr reads p pte
        → load_virtual_memory cpu vaddr size
          ≡ ok (
            with_mmu cpu (after cpu.mmu vaddr reads p pte),
            le_word cpu.mmu.memory.bytes (physical pte vaddr) size,
          )
    unfolding load_virtual_memory
    load-mapped w = simp (
      load_virtual_memory-Walks cpu.mmu vaddr size p pte on w,
      load-in_range cpu.mmu.memory (physical pte vaddr) size hm h1 h4 fits,
      on.quiet,
    )

    pub store-mapped :
        (value : ℕ)
        → Walks cpu.mmu vaddr writes p pte
        → store_virtual_memory cpu vaddr size value
          ≡ ok (
              with_mmu cpu (record (after cpu.mmu vaddr writes p pte) {
                memory = stored cpu.mmu.memory (physical pte vaddr) value 0 size;
              }))
    unfolding store_virtual_memory
    store-mapped value w = simp (
      store_virtual_memory-Walks cpu.mmu vaddr size value p pte on w,
      store-in_range cpu.mmu.memory (physical pte vaddr) size value h1 fits,
      on.quiet,
    )

module _ (cpu : Machine) (on : IsOn cpu.mmu) where
  pub fetch-trapped : walk cpu.mmu cpu.pc executes ≡ none → fetch cpu ≡ ok (trapped cpu cpu.pc, 0)
  unfolding fetch Mmu.clear_fault
  fetch-trapped r = rw (fetch_refused cpu.mmu cpu.pc on r)

  pub fetch-mapped :
      (p : ℕ) (pte : Pte)
      → IsBytes cpu.mmu.memory
      → Walks cpu.mmu cpu.pc executes p pte
      → physical pte cpu.pc + 4 ≤ memory_size
      → fetch cpu
        ≡ ok (
          with_mmu cpu (after cpu.mmu cpu.pc executes p pte),
          le_word cpu.mmu.memory.bytes (physical pte cpu.pc) 4,
        )
  unfolding fetch
  fetch-mapped p pte hm w fits = simp (
    fetch-Walks cpu.mmu cpu.pc p pte on w,
    load-in_range cpu.mmu.memory (physical pte cpu.pc) 4 hm (omega arith) (omega arith) fits,
    on.quiet,
  )
