-- ===== src/Vm/PageTable/Laws.antt =====
-- The page table as a map.
use rv32umos.Base.{ℕ, ◌≡◌, arith, some, [], ◌∷◌, ◌==◌, if◌then◌else◌}
use rv32umos.Vm.PageTable.{PageTable, Pte, lookup, insert}

-- A changed entry is read back, and every other entry stays.
pub lookup-insert :
    (t : PageTable) (k j : ℕ) (pte : Pte)
    → lookup (insert t k pte) j ≡ (if j == k then some pte else lookup t j)
unfolding lookup insert
lookup-insert [] k j pte = ground arith
lookup-insert ((i, old) ∷ t) k j pte = ground (arith, lookup-insert t k j pte)
