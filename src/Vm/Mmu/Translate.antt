-- ===== src/Vm/Mmu/Translate.antt =====
-- Address translation against a page walk written as the permissions of a page table describe it.
use rv32umos.Base.{
  ℕ, ◌+◌, ◌*◌, ◌/◌, ◌%◌, ◌^◌, ◌≡◌, refl, arith, Bool, true, false, ◌&&◌, Option, none, some, update,
  if◌then◌else◌, u32, shl32, bit_and, bit_or, Bool-cases, inl, inr,
}
use mathlib.Core.Option
use rv32umos.Bits.{bit_or-high_low, bit_and_mask}
use rv32umos.Vm.PageTable.{Pte, lookup, insert}
use rv32umos.Vm.PageTable.Laws.{lookup-insert}
use rv32umos.Vm.Mmu.{Mmu, translate, translate_in, translate_table}

pub data Access : Type 0 where
  reads writes executes : Access

abbrev pub is_write : Access → Bool
is_write writes = true
is_write a = false

abbrev pub is_exec : Access → Bool
is_exec executes = true
is_exec a = false

-- The permission bit that an access needs.
abbrev pub permission : Access → Pte → Bool
permission reads pte = pte.can_read
permission writes pte = pte.can_write
permission executes pte = pte.can_execute

-- The entry that the table in use has for the page of an address, if it allows the access.
abbrev pub allowed : Access → Option Pte → Option Pte
allowed a none = none
allowed a (some pte) = if pte.valid && permission a pte then some pte else none

abbrev pub walk_table : Mmu → ℕ → Access → Option ℕ → Option (ℕ × Pte)
walk_table u vaddr a none = none
walk_table u vaddr a (some p) =
    Option.map (λ pte. (p, pte)) (allowed a (lookup (u.tables p) (vaddr / 2 ^ 12)))

pub walk : Mmu → ℕ → Access → Option (ℕ × Pte)
walk u vaddr a = walk_table u vaddr a u.current_table

pub walk_lem :
    (u : Mmu) (vaddr : ℕ) (a : Access) → walk u vaddr a ≡ walk_table u vaddr a u.current_table
unfolding walk
walk_lem u vaddr a = refl

abbrev pub touched : Access → Pte → Pte
touched a pte = record pte { referenced = true; dirty = if is_write a then true else pte.dirty }

abbrev pub physical : Pte → ℕ → ℕ
physical pte vaddr = u32 (pte.ppn * 4096) + vaddr % 4096

abbrev pub translated : Mmu → ℕ → Access → Option (ℕ × Pte) → Mmu × ℕ
translated u vaddr a none = (record u { fault = true; fault_addr = vaddr }, 0)
translated u vaddr a (some (p, pte)) = (
  record u { tables = update u.tables p (insert (u.tables p) (vaddr / 2 ^ 12) (touched a pte)) },
  physical pte vaddr,
)

frame_offset :
    (ppn vaddr : ℕ) → bit_or (shl32 ppn 12) (bit_and vaddr 0xfff) ≡ u32 (ppn * 4096) + vaddr % 4096
frame_offset ppn vaddr =
    ground (arith, bit_and_mask 12 vaddr, bit_or-high_low 12 (ppn % 2 ^ 20) (vaddr % 2 ^ 12))

translate_in_lem :
    (u : Mmu) (p vaddr : ℕ) (a : Access) (o : Option Pte)
    → translate_in u p vaddr (is_write a) (is_exec a) o
      ≡ translated u vaddr a (Option.map (λ pte. (p, pte)) (allowed a o))
unfolding translate_in
translate_in_lem u p vaddr a none = refl
translate_in_lem u p vaddr reads (some pte) = ground (arith, frame_offset pte.ppn vaddr)
translate_in_lem u p vaddr writes (some pte) = ground (arith, frame_offset pte.ppn vaddr)
translate_in_lem u p vaddr executes (some pte) = ground (arith, frame_offset pte.ppn vaddr)

translate_table_lem :
    (u : Mmu) (vaddr : ℕ) (a : Access) (o : Option ℕ)
    → translate_table u vaddr (is_write a) (is_exec a) o
      ≡ translated u vaddr a (walk_table u vaddr a o)
unfolding translate_table
translate_table_lem u vaddr a none = refl
translate_table_lem u vaddr a (some p) =
    translate_in_lem u p vaddr a (lookup (u.tables p) (vaddr / 2 ^ 12))

-- With virtual memory on, translation follows the page walk: where the walk finds an entry, that
-- entry alone is marked referenced (and dirty by a write) and the result is its frame's address
-- plus the offset; where it finds none, the fault is raised at the address and nothing else changes.
pub translate_lem :
    (u : Mmu) (vaddr : ℕ) (a : Access)
    → u.vm_enabled ≡ true
    → translate u vaddr (is_write a) (is_exec a) ≡ translated u vaddr a (walk u vaddr a)
unfolding translate walk
translate_lem u vaddr a on = simp on (translate_table_lem u vaddr a u.current_table)

-- What a page table maps, apart from the bits that record use.
abbrev pub mapping : Pte → Pte
mapping pte = record pte { referenced = false; dirty = false }

abbrev SameMappings : Mmu → Mmu → ℕ → ℕ → Type 0
SameMappings u u' q k =
    (Option.map mapping (lookup (u'.tables q) k) ≡ Option.map mapping (lookup (u.tables q) k))
    × (u'.memory ≡ u.memory)

touched-mapping :
    (u : Mmu) (vaddr p : ℕ) (a : Access) (pte : Pte) (q k : ℕ)
    → lookup (u.tables p) (vaddr / 2 ^ 12) ≡ some pte
    → SameMappings u (translated u vaddr a (some (p, pte))).0 q k
touched-mapping u vaddr p a pte q k e =
    (ground (arith, e, lookup-insert (u.tables p) (vaddr / 2 ^ 12) k (touched a pte)), refl)

allowed-mapping :
    (u : Mmu) (vaddr p : ℕ) (a : Access) (o : Option Pte) (q k : ℕ)
    → lookup (u.tables p) (vaddr / 2 ^ 12) ≡ o
    → SameMappings u (translated u vaddr a (Option.map (λ pte. (p, pte)) (allowed a o))).0 q k
allowed-mapping u vaddr p a none q k e = (refl, refl)
allowed-mapping u vaddr p a (some pte) q k e = elim (Bool-cases (pte.valid && permission a pte)) [
  | inl yes_it ↦ rw yes_it (touched-mapping u vaddr p a pte q k e)
  | inr no_it ↦ rw no_it (refl, refl)
]

walk-mapping :
    (u : Mmu) (vaddr : ℕ) (a : Access) (o : Option ℕ) (q k : ℕ)
    → SameMappings u (translated u vaddr a (walk_table u vaddr a o)).0 q k
walk-mapping u vaddr a none q k = (refl, refl)
walk-mapping u vaddr a (some p) q k = allowed-mapping u vaddr p a _ q k refl

translate-off :
    (u : Mmu) (vaddr : ℕ) (a : Access)
    → u.vm_enabled ≡ false
    → translate u vaddr (is_write a) (is_exec a) ≡ (u, vaddr)
unfolding translate
translate-off u vaddr a off = simp off

-- Translation, whatever its outcome, leaves every entry of every page table as it was but for the
-- referenced and dirty bits, and leaves the memory alone.
pub translate-mapping :
    (u : Mmu) (vaddr : ℕ) (a : Access) (q k : ℕ)
    → let u' = (translate u vaddr (is_write a) (is_exec a)).0 in
      (Option.map mapping (lookup (u'.tables q) k) ≡ Option.map mapping (lookup (u.tables q) k))
      × (u'.memory ≡ u.memory)
unfolding walk
translate-mapping u vaddr a q k = elim (Bool-cases u.vm_enabled) [
  | inl on ↦ simp (translate_lem u vaddr a on) (walk-mapping u vaddr a u.current_table q k)
  | inr off ↦ simp (translate-off u vaddr a off) (refl, refl)
]
