-- ===== src/Vm/Mmu/Access.antt =====
-- Loads and stores through the MMU.
use native.Mathlib.Nat.{div-div-eq-div-mul}
use rv32umos.Base.{
  ℕ, ◌+◌, ◌-◌, ◌*◌, ◌/◌, ◌%◌, ◌^◌, ◌<◌, ◌≤◌, ◌≡◌, ap, ◌∙◌, arith, true, false, none, some, u32, ok,
  ◌>>=◌, le→ltb, zero, suc,
}
use rv32umos.Vm.Memory.{Memory, memory_size, load, store}
use rv32umos.Vm.Memory.Loops.{IsBytes, le_word, two-pow-byte}
use rv32umos.Vm.Memory.Laws.{load_lem, load-store}
use rv32umos.Vm.PageTable.{Pte, lookup}
use rv32umos.Vm.PageTable.Laws.{lookup-insert}
use rv32umos.Vm.Mmu.{Mmu, load_virtual_memory, store_virtual_memory, fetch}
use rv32umos.Vm.Mmu.Translate.{
  Access, reads, writes, executes, permission, walk, touched, physical, translated, translate_lem,
  walk_lem,
}

-- What a successful page walk has found.
pub record Walks (u : Mmu) (vaddr : ℕ) (a : Access) (p : ℕ) (pte : Pte) : Type 0 where
  pub in_use : u.current_table ≡ some p
  pub entry : lookup (u.tables p) (vaddr / 2 ^ 12) ≡ some pte
  pub valid : pte.valid ≡ true
  pub permitted : permission a pte ≡ true

pub walk-Walks :
    {u : Mmu} {vaddr : ℕ} {a : Access} {p : ℕ} {pte : Pte}
    → Walks u vaddr a p pte
    → walk u vaddr a ≡ some (p, pte)
walk-Walks {u} {vaddr} {a} w = simp (walk_lem u vaddr a, w.in_use, w.entry, w.valid, w.permitted)

le_word-top :
    (m : Memory) (i n : ℕ)
    → IsBytes m
    → 1 ≤ n
    → n ≤ 4
    → le_word m.bytes i n / 2 ^ ((n - 1) * 8) ≡ m.bytes (i + n - 1)
le_word-top m i zero hm h1 h4 = absurd (omega arith)
le_word-top m i (suc zero) hm h1 h4 =
    omega (arith, ap m.bytes {x = i + 1 - 1} {y = i} (omega arith))
le_word-top m i (suc (suc n)) hm h1 h4 =
    let p : ℕ = 2 ^ (n * 8) in
    let power : 2 ^ ((suc (suc n) - 1) * 8) ≡ 256 * p =
      ap (λ (t : ℕ). 2 ^ (t * 8)) (omega arith) ∙ two-pow-byte n in
    let rest : ℕ = le_word m.bytes (i + 1) (suc n) in
    let drop : (m.bytes i + 256 * rest) / 256 ≡ rest = omega (arith, hm i) in
    let last : 2 ^ ((suc n - 1) * 8) ≡ p = ap (λ (t : ℕ). 2 ^ (t * 8)) (omega arith) in
    rw (power, ← div-div-eq-div-mul (m.bytes i + 256 * rest) 256 p, drop, ← last)
      (le_word-top m (i + 1) (suc n) hm (omega arith) (omega arith) ∙ ap m.bytes (omega arith))

-- With virtual memory on and no fault pending.
pub record IsOn (u : Mmu) : Type 0 where
  pub enabled : u.vm_enabled ≡ true
  pub quiet : u.fault ≡ false

abbrev pub after : Mmu → ℕ → Access → ℕ → Pte → Mmu
after u vaddr a p pte = (translated u vaddr a (some (p, pte))).0

pub load_virtual_memory-Walks :
    (u : Mmu) (vaddr size p : ℕ) (pte : Pte)
    → IsOn u
    → Walks u vaddr reads p pte
    → load_virtual_memory u vaddr size
      ≡ (load u.memory (physical pte vaddr) size >>= λ v. ok (after u vaddr reads p pte, v))
unfolding load_virtual_memory
load_virtual_memory-Walks u vaddr size p pte on w =
    simp (translate_lem u vaddr reads on.enabled, walk-Walks w, on.quiet)

pub store_virtual_memory-Walks :
    (u : Mmu) (vaddr size value p : ℕ) (pte : Pte)
    → IsOn u
    → Walks u vaddr writes p pte
    → store_virtual_memory u vaddr size value ≡ (
        store u.memory (physical pte vaddr) size value >>= λ m.
        ok (record (after u vaddr writes p pte) { memory = m }))
unfolding store_virtual_memory
store_virtual_memory-Walks u vaddr size value p pte on w =
    simp (translate_lem u vaddr writes on.enabled, walk-Walks w, on.quiet)

pub fetch-Walks :
    (u : Mmu) (vaddr p : ℕ) (pte : Pte)
    → IsOn u
    → Walks u vaddr executes p pte
    → fetch u vaddr
      ≡ (load u.memory (physical pte vaddr) 4 >>= λ v. ok (after u vaddr executes p pte, v))
unfolding fetch
fetch-Walks u vaddr p pte on w =
    simp (translate_lem u vaddr executes on.enabled, walk-Walks w, on.quiet)

-- The fault of an access that the page table in use does not allow.
abbrev pub faulted : Mmu → ℕ → Mmu
faulted u vaddr = record u { fault = true; fault_addr = vaddr }

pub load_refused :
    (u : Mmu) (vaddr size : ℕ)
    → IsOn u
    → walk u vaddr reads ≡ none
    → load_virtual_memory u vaddr size ≡ ok (faulted u vaddr, 0)
unfolding load_virtual_memory
load_refused u vaddr size on r = simp (translate_lem u vaddr reads on.enabled, r)

pub store_refused :
    (u : Mmu) (vaddr size value : ℕ)
    → IsOn u
    → walk u vaddr writes ≡ none
    → store_virtual_memory u vaddr size value ≡ ok (faulted u vaddr)
unfolding store_virtual_memory
store_refused u vaddr size value on r = simp (translate_lem u vaddr writes on.enabled, r)

pub fetch_refused :
    (u : Mmu) (vaddr : ℕ)
    → IsOn u
    → walk u vaddr executes ≡ none
    → fetch u vaddr ≡ ok (faulted u vaddr, 0)
unfolding fetch
fetch_refused u vaddr on r = simp (translate_lem u vaddr executes on.enabled, r)

-- A store of 1 to 4 bytes to a page that the table in use lets the program write and read, where
-- the physical bytes lie in the RAM, returns, and a load of the same size from the same address
-- then gives the value's low bytes.
pub load-store_virtual :
    (u : Mmu) (vaddr size value p : ℕ) (pte : Pte)
    → IsOn u
    → IsBytes u.memory
    → Walks u vaddr writes p pte
    → pte.can_read ≡ true
    → 1 ≤ size
    → size ≤ 4
    → physical pte vaddr + size ≤ memory_size
    → (u₁ : Mmu) × (u₂ : Mmu) × (store_virtual_memory u vaddr size value ≡ ok u₁)
      × (load_virtual_memory u₁ vaddr size ≡ ok (u₂, value % 2 ^ (size * 8)))
load-store_virtual u vaddr size value p pte on hm w readable h1 h4 fits =
    let (m, stores, loads) = load-store u.memory (physical pte vaddr) size value hm h1 h4 fits in
    let u₁ : Mmu = record (after u vaddr writes p pte) { memory = m } in
    let pte₁ : Pte = touched writes pte in
    let found : Walks u₁ vaddr reads p pte₁ = record {
      in_use = w.in_use;
      entry = ground (arith, lookup-insert (u.tables p) (vaddr / 2 ^ 12) (vaddr / 2 ^ 12) pte₁);
      valid = w.valid;
      permitted = readable;
    } in
    (
      u₁,
      after u₁ vaddr reads p pte₁,
      rw (store_virtual_memory-Walks u vaddr size value p pte on w, stores),
      rw (
        load_virtual_memory-Walks u₁ vaddr size p pte₁
            (record { enabled = on.enabled; quiet = on.quiet }) found,
        loads,
      ),
    )

-- The page table is asked for the first byte only: a load that runs past the end of its page
-- returns with no fault although the next page is not mapped, and its highest byte is taken from
-- the frame that follows in the RAM.
pub load_straddling :
    (u : Mmu) (vaddr size p : ℕ) (pte : Pte)
    → IsOn u
    → IsBytes u.memory
    → Walks u vaddr reads p pte
    → lookup (u.tables p) (vaddr / 2 ^ 12 + 1) ≡ none
    → size ≤ 4
    → 4096 < vaddr % 4096 + size
    → physical pte vaddr + size ≤ memory_size
    → (u' : Mmu) × (v : ℕ) × (load_virtual_memory u vaddr size ≡ ok (u', v))
      × (u'.fault ≡ false)
      × (v / 2 ^ ((size - 1) * 8)
          ≡ u.memory.bytes (u32 (pte.ppn * 4096) + 4096 + (vaddr + size - 1) % 4096))
load_straddling u vaddr size p pte on hm w unmapped h4 past fits = (
  after u vaddr reads p pte,
  le_word u.memory.bytes (physical pte vaddr) size,
  rw
      (
        load_virtual_memory-Walks u vaddr size p pte on w,
        load_lem u.memory (physical pte vaddr) size hm (omega arith) h4,
        le→ltb memory_size (physical pte vaddr + size) fits,
      )
      (ground arith),
  on.quiet,
  le_word-top u.memory (physical pte vaddr) size hm (omega arith) h4
      ∙ ap u.memory.bytes (omega arith),
)
