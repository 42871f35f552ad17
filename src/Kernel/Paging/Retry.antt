-- ===== src/Kernel/Paging/Retry.antt =====
-- The access that has faulted goes through when it is tried again.
use rv32umos.Base.{
  ℕ, ◌+◌, ◌*◌, ◌/◌, ◌%◌, ◌^◌, ◌<◌, ◌≡◌, ◌⊎◌, Bool, refl, ap, ◌∙◌, arith, true, false, Option, none,
  some, Bool-cases, inl, inr, PanicsOnly, PanicsOnly-map,
}
use mathlib.Core.Option
use rv32umos.Vm.PageTable.{Pte, lookup}
use rv32umos.Vm.Memory.{memory_size}
use rv32umos.Vm.Mmu.{translate}
use rv32umos.Vm.Mmu.Translate.{
  Access, is_write, is_exec, permission, walk, walk_lem, walk_table, allowed, translate_lem,
}
use rv32umos.Kernel.Process.{max_process}
use rv32umos.Kernel.Os.{Os}
use rv32umos.Kernel.Host.{Host}
use rv32umos.Kernel.Eviction.{or_fresh, entry}
use rv32umos.Kernel.Eviction.Contents.{IsVirtual}
use rv32umos.Kernel.Eviction.Allocate.{AllTaken}
use rv32umos.Kernel.Paging.{serve_fault}
use rv32umos.Kernel.Paging.Serve.{Served, declined, mapped, serve_fault-Serves}

-- An access to an address of a page that its entry allows.
abbrev pub Permitted : Os → ℕ → ℕ → Access → Type 0
Permitted os pid vaddr a = permission a (entry os pid (vaddr / 2 ^ 12)) ≡ true

-- The access is translated to the frame of the page, and raises no fault.
abbrev pub GoesThrough : Os → ℕ → ℕ → Access → Type 0
GoesThrough os pid vaddr a =
    let (u, paddr) = translate os.system.cpu.mmu vaddr (is_write a) (is_exec a) in
    (u.fault ≡ os.system.cpu.mmu.fault)
    × (paddr ≡ (entry os pid (vaddr / 2 ^ 12)).ppn * 4096 + vaddr % 4096)
    × (paddr < memory_size)

allowed-or_fresh :
    (pid : ℕ) (a : Access) (o : Option Pte)
    → (or_fresh o).valid ≡ true
    → permission a (or_fresh o) ≡ true
    → Option.map {B = ℕ × Pte} (λ (pte : Pte). (pid, pte)) (allowed a o) ≡ some (pid, or_fresh o)
allowed-or_fresh pid a none valid permitted = absurd (cc valid)
allowed-or_fresh pid a (some pte) valid permitted = rw (permitted, valid) refl

-- The walk finds the entry.
walk_entry :
    (os : Os) (pid vaddr : ℕ) (a : Access)
    → os.system.cpu.mmu.current_table ≡ some pid
    → (entry os pid (vaddr / 2 ^ 12)).valid ≡ true
    → Permitted os pid vaddr a
    → walk os.system.cpu.mmu vaddr a ≡ some (pid, entry os pid (vaddr / 2 ^ 12))
walk_entry os pid vaddr a table valid permitted =
    walk_lem os.system.cpu.mmu vaddr a
    ∙ ap (walk_table os.system.cpu.mmu vaddr a) table
    ∙ allowed-or_fresh pid a (lookup (os.system.cpu.mmu.tables pid) (vaddr / 2 ^ 12)) valid
        permitted

goes_through :
    (os : Os) (pid vaddr : ℕ) (a : Access)
    → IsVirtual os 16
    → os.system.cpu.mmu.vm_enabled ≡ true
    → os.system.cpu.mmu.current_table ≡ some pid
    → (entry os pid (vaddr / 2 ^ 12)).valid ≡ true
    → Permitted os pid vaddr a
    → GoesThrough os pid vaddr a
goes_through os pid vaddr a h on table valid permitted =
    let owned = h.paged.owns pid (vaddr / 2 ^ 12) valid in
    rw (translate_lem os.system.cpu.mmu vaddr a on, walk_entry os pid vaddr a table valid permitted)
      (refl, omega (arith, owned.frame), omega (arith, owned.frame))

-- The program counter and the registers are as they were, and the page forbids the access or lets it
-- through.
abbrev pub CanRetry : Os → Os → ℕ → ℕ → Access → Type 0
CanRetry os os' pid vaddr a =
    (os'.system.cpu.pc ≡ os.system.cpu.pc)
    × (os'.system.cpu.regs ≡ os.system.cpu.regs)
    × ((permission a (entry os' pid (vaddr / 2 ^ 12)) ≡ false) ⊎ GoesThrough os' pid vaddr a)

served-CanRetry :
    (os : Os) (pid vaddr : ℕ) (a : Access) (r : Os × Bool)
    → os.system.cpu.mmu.vm_enabled ≡ true
    → os.system.cpu.mmu.current_table ≡ some pid
    → Served os pid (vaddr / 2 ^ 12) r
    → (r ≡ (os, false)) ⊎ CanRetry os r.0 pid vaddr a
served-CanRetry os pid vaddr a (_, _) on table declined = inl refl
served-CanRetry os pid vaddr a (_, _) on table (mapped os' s) = inr (
  s.threads.pc,
  s.threads.regs,
  elim (Bool-cases (permission a (entry os' pid (vaddr / 2 ^ 12)))) [
    | inl permitted ↦ inr (
        goes_through os' pid vaddr a s.virtual (s.threads.vm_enabled ∙ on)
          (s.threads.current_table ∙ table) s.valid permitted)
    | inr forbidden ↦ inl forbidden
  ],
)

-- After a page fault of the current process has been served, the access that faulted, unless the
-- page forbids it, goes through when it is tried again: the program counter and the registers are
-- as they were, and the address is translated, without a fault, to its frame in the RAM. Where the
-- fault is not served, nothing has changed; and a panic means that all swap slots are taken.
pub serve_fault-retry :
    (host : Host) (os : Os) (pid vaddr : ℕ) (a : Access)
    → IsVirtual os 16
    → pid < max_process
    → os.system.cpu.mmu.vm_enabled ≡ true
    → os.system.cpu.mmu.current_table ≡ some pid
    → PanicsOnly
        (AllTaken os.swap)
        (λ r. (r ≡ (os, false)) ⊎ CanRetry os r.0 pid vaddr a)
        (serve_fault host os pid vaddr (vaddr / 2 ^ 12))
serve_fault-retry host os pid vaddr a h hp on table =
    PanicsOnly-map (AllTaken os.swap) (Served os pid (vaddr / 2 ^ 12)) _ _
      (serve_fault-Serves host os pid vaddr (vaddr / 2 ^ 12) h hp)
      (λ r. served-CanRetry os pid vaddr a r on table)
