-- ===== src/Vm/Mmu/Tests.antt =====
-- Accesses of the sample machine's memory: page 1 is mapped to the frame 2, page 2 is not mapped.
use rv32umos.Base.{ℕ, ◌/◌, ◌^◌, ◌≡◌, refl, arith, true, false, none, ok}
use rv32umos.Vm.PageTable.{lookup, insert}
use rv32umos.Vm.Mmu.{Mmu, translate, load_virtual_memory, store_virtual_memory}
use rv32umos.Vm.Mmu.Translate.{reads, writes, walk, translated, translate_lem}
use rv32umos.Vm.Mmu.Access.{IsOn, Walks, load-store_virtual, load_straddling}
use rv32umos.Vm.Sample.{ram-IsBytes, data_page, table, mmu}

mmu-IsOn : IsOn mmu
mmu-IsOn = record { enabled = refl; quiet = refl }

writes_page : Walks mmu 4104 writes 0 data_page
unfolding lookup insert
writes_page = record { in_use = refl; entry = refl; valid = refl; permitted = refl }

reads_end : Walks mmu 8190 reads 0 data_page
unfolding lookup insert
reads_end = record { in_use = refl; entry = refl; valid = refl; permitted = refl }

translate_lem_example :
    translate mmu 4104 true false ≡ translated mmu 4104 writes (walk mmu 4104 writes)
translate_lem_example = translate_lem mmu 4104 writes refl

load-store_virtual_example :
    (u₁ : Mmu) × (u₂ : Mmu) × (store_virtual_memory mmu 4104 2 0x12345 ≡ ok u₁)
    × (load_virtual_memory u₁ 4104 2 ≡ ok (u₂, 0x2345))
load-store_virtual_example =
    load-store_virtual mmu 4104 2 0x12345 0 data_page mmu-IsOn ram-IsBytes writes_page refl
      (omega arith) (omega arith) (omega arith)

next_unmapped : lookup table 2 ≡ none
unfolding lookup insert
next_unmapped = refl

-- The word at 8190 ends in page 2, and its highest byte comes from the RAM's address 12289.
load_straddling_example :
    (u' : Mmu) × (v : ℕ) × (load_virtual_memory mmu 8190 4 ≡ ok (u', v))
    × (u'.fault ≡ false)
    × (v / 2 ^ 24 ≡ 1)
load_straddling_example =
    load_straddling mmu 8190 4 0 data_page mmu-IsOn ram-IsBytes reads_end next_unmapped
      (omega arith) (omega arith) (omega arith)
