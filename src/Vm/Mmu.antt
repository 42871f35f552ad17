-- ===== src/Vm/Mmu.antt =====
-- rv32vm/MMU.hpp and rv32vm/MMU.cpp. The MMU holds two pointers that it shares with the kernel:
-- what they reach is part of this state. `memory` is the RAM, and `tables` gives the page table
-- of each process, so `current_table` is the number of the process whose table is in use.
pub mod Translate
pub mod Access
pub mod Bytes
pub mod Tests
use rv32umos.Base.{
  ℕ, ◌*◌, ◌/◌, ◌^◌, Bool, true, false, not, ◌&&◌, Option, none, some, Result, ok, stop, update,
  ◌>>=◌, if◌then◌else◌, bit_and, bit_or, shl32, shr,
}
use rv32umos.Vm.Memory.{Memory, load, store}
use rv32umos.Vm.PageTable.{PageTable, Pte, lookup, insert}

pub record Mmu : Type 0 where
  pub memory : Memory
  pub tables : ℕ → PageTable
  pub current_table : Option ℕ
  pub vm_enabled : Bool
  pub fault : Bool
  pub fault_addr : ℕ

-- The pointees stay; MMU::reset leaves the fault fields alone too.
unfoldable pub reset : Mmu → Mmu
reset u = record u { vm_enabled = false; current_table = none }

unfoldable pub set_page_table : Mmu → Option ℕ → Mmu
set_page_table u table = record u { current_table = table }

pub enable_vm : Mmu → Bool → Mmu
enable_vm u enabled = record u { vm_enabled = enabled }

unfoldable pub clear_fault : Mmu → Mmu
clear_fault u = record u { fault = false; fault_addr = 0 }

raise : Mmu → ℕ → Mmu × ℕ
raise u vaddr = (record u { fault = true; fault_addr = vaddr }, 0)

-- The checks of an entry and the result, from `if (!pte.valid)` on. `p` is the table in use.
translate_entry : Mmu → ℕ → Pte → ℕ → Bool → Bool → Mmu × ℕ
unfolding raise
translate_entry u p pte vaddr is_write is_exec =
    let vpn = shr vaddr 12 in
    let offset = bit_and vaddr 0xfff in
    if not pte.valid
    then raise u vaddr
    else if is_exec && not pte.can_execute
    then raise u vaddr
    else if is_write && not pte.can_write
    then raise u vaddr
    else if not is_write && (not is_exec && not pte.can_read)
    then raise u vaddr
    else (let pte' = record pte {
      referenced = true;
      dirty = if is_write then true else pte.dirty;
    } in
        (
          record u { tables = update u.tables p (insert (u.tables p) vpn pte') },
          bit_or (shl32 pte.ppn 12) offset,
        ))

translate_in : Mmu → ℕ → ℕ → Bool → Bool → Option Pte → Mmu × ℕ
unfolding translate_entry
translate_in u p vaddr is_write is_exec none = raise u vaddr
translate_in u p vaddr is_write is_exec (some pte) = translate_entry u p pte vaddr is_write is_exec

translate_table : Mmu → ℕ → Bool → Bool → Option ℕ → Mmu × ℕ
unfolding translate_in
translate_table u vaddr is_write is_exec none = raise u vaddr
translate_table u vaddr is_write is_exec (some p) =
    translate_in u p vaddr is_write is_exec (lookup (u.tables p) (shr vaddr 12))

pub translate : Mmu → ℕ → Bool → Bool → Mmu × ℕ
unfolding translate_table
translate u vaddr is_write is_exec =
    if not u.vm_enabled
    then (u, vaddr)
    else translate_table u vaddr is_write is_exec u.current_table

pub load_virtual_memory : Mmu → ℕ → ℕ → Result (Mmu × ℕ)
load_virtual_memory u vaddr size =
    let (u', paddr) = translate u vaddr false false in
    if u'.fault then ok (u', 0) else do v ← load u'.memory paddr size; ok (u', v)

pub store_virtual_memory : Mmu → ℕ → ℕ → ℕ → Result Mmu
store_virtual_memory u vaddr size value =
    let (u', paddr) = translate u vaddr true false in
    if u'.fault
    then ok u'
    else do m ← store u'.memory paddr size value; ok (record u' { memory = m })

pub load_physical_memory : Mmu → ℕ → ℕ → Result ℕ
load_physical_memory u paddr size = load u.memory paddr size

pub store_physical_memory : Mmu → ℕ → ℕ → ℕ → Result Mmu
store_physical_memory u paddr size value = do
  m ← store u.memory paddr size value
  ok (record u { memory = m })

pub fetch : Mmu → ℕ → Result (Mmu × ℕ)
fetch u vaddr =
    let (u', paddr) = translate u vaddr false true in
    if u'.fault then ok (u', 0) else do v ← load u'.memory paddr 4; ok (u', v)
