-- ===== src/Kernel/Eviction/Pages.antt =====
-- The loops over the bytes of a page in closed form: inside the RAM they end without a fault.
use rv32umos.Base.{
  ℕ, zero, suc, ◌+◌, ◌-◌, ◌*◌, ◌/◌, ◌%◌, ◌^◌, ◌≤◌, ◌<◌, ◌≡◌, refl, ap, ◌∙◌, arith, ok, u32, ltb,
  leb, ◌&&◌, ◌==◌, if◌then◌else◌, update, fun_ext, Bool-cases, inl, inr,
}
use rv32umos.Vm.Memory.{Memory, memory_size, load, store}
use rv32umos.Vm.Memory.Loops.{IsBytes, stored}
use rv32umos.Vm.Memory.Laws.{load-in_range, store-in_range}
use rv32umos.Kernel.Eviction.{load_page, store_page}

load-byte :
    (m : Memory) (addr : ℕ)
    → IsBytes m
    → addr < memory_size
    → load m (u32 addr) 1 ≡ ok (m.bytes addr)
load-byte m addr hm h =
    let e : u32 addr ≡ addr = omega arith in
    rw e (load-in_range m addr 1 hm (omega arith) (omega arith) (omega arith) ∙ ap ok (omega arith))

store-byte :
    (m : Memory) (addr v : ℕ)
    → addr < memory_size
    → store m (u32 addr) 1 v ≡ ok (record m { bytes = update m.bytes addr (v % 2 ^ 8) })
store-byte m addr v h =
    let e : u32 addr ≡ addr = omega arith in
    rw e (
      store-in_range m addr 1 v (omega arith) (omega arith)
      ∙ ap (λ (f : ℕ → ℕ). ok (record m { bytes = f })) (fun_ext same))
  where
    same : (j : ℕ) → (stored m addr v 0 1).bytes j ≡ update m.bytes addr (v % 2 ^ 8) j
    same j = ground (arith, ap (λ (t : ℕ). v / 2 ^ (t * 8)) {x = j - addr} {y = 0})

-- The buffer after the bytes `i` to `i + left` of a page have been loaded.
abbrev pub loaded : Memory → ℕ → (ℕ → ℕ) → ℕ → ℕ → ℕ → ℕ
loaded m paddr bytes left i j = if leb i j && ltb j (i + left) then m.bytes (paddr + j) else bytes j

pub load_page_lem :
    (m : Memory) (paddr : ℕ) (bytes : ℕ → ℕ) (left i : ℕ)
    → IsBytes m
    → paddr + i + left ≤ memory_size
    → (b : ℕ → ℕ) × (load_page m paddr bytes left i ≡ ok b)
      × ((j : ℕ) → b j ≡ loaded m paddr bytes left i j)
unfolding load_page
load_page_lem m paddr bytes zero i hm h = (bytes, refl, λ j. ground arith)
load_page_lem m paddr bytes (suc left) i hm h =
    let (b, e, all) =
      load_page_lem m paddr (update bytes i (m.bytes (paddr + i) % 2 ^ 8)) left (i + 1) hm
        (omega arith) in
    (
      b,
      rw (load-byte m (paddr + i) hm (omega arith)) e,
      λ j. all j ∙ elim (Bool-cases (j == i)) [
        | inl here ↦
            ground (arith, hm (paddr + i), ap (λ (t : ℕ). m.bytes (paddr + t)) {x = j} {y = i})
        | inr away ↦ ground arith
      ],
    )

-- The memory after the bytes `i` to `i + left` of a page have been stored.
abbrev pub page_bytes : Memory → ℕ → (ℕ → ℕ) → ℕ → ℕ → ℕ → ℕ
page_bytes m paddr bytes left i j =
    if leb (paddr + i) j && ltb j (paddr + i + left) then bytes (j - paddr) % 2 ^ 8 else m.bytes j

pub store_page_lem :
    (m : Memory) (paddr : ℕ) (bytes : ℕ → ℕ) (left i : ℕ)
    → paddr + i + left ≤ memory_size
    → (m' : Memory) × (store_page m paddr bytes left i ≡ ok m')
      × ((j : ℕ) → m'.bytes j ≡ page_bytes m paddr bytes left i j)
unfolding store_page
store_page_lem m paddr bytes zero i h = (m, refl, λ j. ground arith)
store_page_lem m paddr bytes (suc left) i h =
    let m' : Memory = record m { bytes = update m.bytes (paddr + i) (bytes i % 2 ^ 8) } in
    let (m'', e', all) = store_page_lem m' paddr bytes left (i + 1) (omega arith) in
    (
      m'',
      rw (store-byte m (paddr + i) (bytes i) (omega arith)) e',
      λ j. all j ∙ ground (arith, ap bytes {x = j - paddr} {y = i}),
    )
