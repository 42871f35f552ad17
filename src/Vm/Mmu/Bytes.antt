-- ===== src/Vm/Mmu/Bytes.antt =====
-- Whatever the page table says, the MMU keeps a memory of bytes and gives words.
use native.Mathlib.Nat.{one-le-pow}
use rv32umos.Base.{
  ℕ, ◌+◌, ◌*◌, ◌^◌, ◌<◌, ◌≤◌, ◌≢◌, arith, Bool, true, false, Result, ok, stop, bad_index,
  if◌then◌else◌, ◌>>=◌, Bool-cases, inl, inr, leb, ltb,
}
use rv32umos.Vm.Memory.{Memory, memory_size, load, store}
use rv32umos.Vm.Memory.Loops.{IsBytes}
use rv32umos.Vm.Memory.Laws.{load_lem, store_lem, le_word-lt, stored-IsBytes}
use rv32umos.Vm.Mmu.{Mmu, translate, load_virtual_memory, store_virtual_memory, fetch}
use rv32umos.Vm.Mmu.Translate.{
  Access, reads, writes, executes, is_write, is_exec, translate-mapping,
}

-- An outcome that is no failed assert of the register file, or meets `P`.
abbrev pub Outcome {ℓ} : {A : Type ℓ} → (A → Type 0) → Result A → Type 0
Outcome P (ok a) = P a
Outcome P (stop e) = e ≢ bad_index

abbrev pub Loaded : ℕ → Mmu × ℕ → Type 0
Loaded size (u, v) = IsBytes u.memory × (v < 2 ^ (size * 8))

load-Outcome :
    (m : Memory) (addr size : ℕ)
    → IsBytes m
    → 1 ≤ size
    → size ≤ 4
    → Outcome (λ v. v < 2 ^ (size * 8)) (load m addr size)
load-Outcome m addr size hm h1 h4 =
    rw (load_lem m addr size hm h1 h4) (elim (Bool-cases (leb memory_size addr)) [
      | inl e ↦ rw e (λ q. cc)
      | inr e ↦ rw e (elim (Bool-cases (ltb memory_size (addr + size))) [
        | inl f ↦ rw f (λ q. cc)
        | inr f ↦ rw f (le_word-lt m addr size hm)
      ])
    ])

store-Outcome :
    (m : Memory) (addr size value : ℕ)
    → IsBytes m
    → 1 ≤ size
    → Outcome IsBytes (store m addr size value)
store-Outcome m addr size value hm h1 =
    rw (store_lem m addr size value h1) (elim (Bool-cases (leb memory_size addr)) [
      | inl e ↦ rw e (λ q. cc)
      | inr e ↦ rw e (elim (Bool-cases (ltb memory_size (addr + size))) [
        | inl f ↦ rw f (λ q. cc)
        | inr f ↦ rw f (stored-IsBytes m addr value 0 size hm)
      ])
    ])

-- The rules for one test and for one step.
pub Outcome-if :
    {A : Type 0} (P : A → Type 0) (b : Bool) (x y : Result A)
    → Outcome P x
    → Outcome P y
    → Outcome P (if b then x else y)
Outcome-if P true x y hx hy = hx
Outcome-if P false x y hx hy = hy

pub Outcome->>= :
    {A B : Type 0} (P : A → Type 0) (Q : B → Type 0) (m : Result A) (f : A → Result B)
    → Outcome P m
    → ((a : A) → P a → Outcome Q (f a))
    → Outcome Q (m >>= f)
Outcome->>= P Q (ok a) f hm hf = hf a hm
Outcome->>= P Q (stop e) f hm hf = hm

translate-bytes :
    (u : Mmu) (vaddr : ℕ) (a : Access)
    → IsBytes u.memory
    → IsBytes (translate u vaddr (is_write a) (is_exec a)).0.memory
translate-bytes u vaddr a h = rw ((translate-mapping u vaddr a 0 0).1) h

module _ (u : Mmu) (vaddr : ℕ) (h : IsBytes u.memory) where
  pub load_virtual_memory-Outcome :
      (size : ℕ) → 1 ≤ size → size ≤ 4 → Outcome (Loaded size) (load_virtual_memory u vaddr size)
  unfolding load_virtual_memory
  load_virtual_memory-Outcome size h1 h4 =
      let t = translate u vaddr false false in
      let hb : IsBytes t.0.memory = translate-bytes u vaddr reads h in
      Outcome-if (Loaded size) t.0.fault _ _ (hb, one-le-pow (size * 8) 2 (omega arith))
        (Outcome->>= (λ v. v < 2 ^ (size * 8)) (Loaded size) (load t.0.memory t.1 size) _
          (load-Outcome t.0.memory t.1 size hb h1 h4) (λ v hv. (hb, hv)))

  pub fetch-Outcome : Outcome (Loaded 4) (fetch u vaddr)
  unfolding fetch
  fetch-Outcome =
      let t = translate u vaddr false true in
      let hb : IsBytes t.0.memory = translate-bytes u vaddr executes h in
      Outcome-if (Loaded 4) t.0.fault _ _ (hb, omega arith)
        (Outcome->>= (λ v. v < 2 ^ 32) (Loaded 4) (load t.0.memory t.1 4) _
          (load-Outcome t.0.memory t.1 4 hb (omega arith) (omega arith)) (λ v hv. (hb, hv)))

  pub store_virtual_memory-Outcome :
      (size value : ℕ)
      → 1 ≤ size
      → Outcome (λ u'. IsBytes u'.memory) (store_virtual_memory u vaddr size value)
  unfolding store_virtual_memory
  store_virtual_memory-Outcome size value h1 =
      let t = translate u vaddr true false in
      let hb : IsBytes t.0.memory = translate-bytes u vaddr writes h in
      Outcome-if (λ u'. IsBytes u'.memory) t.0.fault _ _ hb
        (Outcome->>= IsBytes (λ u'. IsBytes u'.memory) (store t.0.memory t.1 size value) _
          (store-Outcome t.0.memory t.1 size value hb h1) (λ m hv. hv))
