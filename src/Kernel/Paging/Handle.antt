-- ===== src/Kernel/Paging/Handle.antt =====
-- VirtualMemoryManager::handlePageFault, for the thread that runs.
use rv32umos.Base.{
  ℕ, ◌/◌, ◌%◌, ◌^◌, ◌<◌, ◌≡◌, ◌⊎◌, inl, inr, refl, sym, ap, ◌∙◌, subst, arith, true, false, ◌&&◌,
  ◌==◌, some, ok, Bool-cases, PanicsOnly,
}
use rv32umos.Vm.PageTable.{Pte}
use rv32umos.Vm.Mmu.Translate.{Access}
use rv32umos.Kernel.Process.{max_process}
use rv32umos.Kernel.Os.{Os, thread_at, get_current_thread}
use rv32umos.Kernel.Host.{Host}
use rv32umos.Kernel.Eviction.{entry, set_entry}
use rv32umos.Kernel.Eviction.Invariant.{IsPaged, Owns, entry_changed, entry_kept}
use rv32umos.Kernel.Eviction.Contents.{IsVirtual, IsOut, Droppable, byte_of}
use rv32umos.Kernel.Eviction.Allocate.{AllTaken}
use rv32umos.Kernel.Paging.{serve_fault, handle_page_fault}
use rv32umos.Kernel.Paging.Keeps.{Written, Implements, serve_fault-Implements}
use rv32umos.Kernel.Paging.Retry.{CanRetry, serve_fault-retry}

-- The entry is looked up with `operator[]`, which makes it where there is none.
abbrev pub noted : Os → ℕ → ℕ → Os
noted os pid vpn = set_entry os pid vpn (entry os pid vpn)

module _ (os : Os) (pid vpn : ℕ) where
  noted-entry : (p v : ℕ) → entry (noted os pid vpn) p v ≡ entry os p v
  noted-entry p v = elim (Bool-cases ((p == pid) && (v == vpn))) [
    | inl same ↦
        let po : p ≡ pid = ground arith in
        let pv : v ≡ vpn = ground arith in
        entry_changed os pid vpn (entry os pid vpn) p v same
        ∙ sym (ap (λ (t : ℕ). entry os t v) po ∙ ap (entry os pid) pv)
    | inr other ↦ entry_kept os pid vpn (entry os pid vpn) p v other
  ]

  noted-IsOut : (p v : ℕ) → IsOut (entry (noted os pid vpn) p v) → IsOut (entry os p v)
  noted-IsOut p v out = subst IsOut (noted-entry p v) out

  noted-IsPaged : IsPaged os → IsPaged (noted os pid vpn)
  noted-IsPaged h = record {
    frames = h.frames;
    queue = h.queue;
    queued = h.queued;
    covered = h.covered;
    owns = λ p v valid.
        subst (Owns os.frames p v) (sym (noted-entry p v))
          (h.owns p v (ap (λ (z : Pte). z.valid) (sym (noted-entry p v)) ∙ valid));
  }

  noted-IsVirtual : IsVirtual os 16 → IsVirtual (noted os pid vpn) 16
  noted-IsVirtual h = record {
    paged = noted-IsPaged h.paged;
    bytes = h.bytes;
    held = λ n d used.
        subst (λ (z : Pte). (z.valid ≡ true) × (z.ppn ≡ n)) (sym (noted-entry _ _))
          (h.held n d used);
    swap = h.swap;
    size = h.size;
    slots = λ p v out.
        subst (λ (z : Pte). (z.ppn < os.swap.swap_size) × (os.swap.allocation_map z.ppn ≡ true))
          (sym (noted-entry p v)) (h.slots p v (noted-IsOut p v out));
    unique = λ p v q w out out' same.
        h.unique p v q w (noted-IsOut p v out) (noted-IsOut q w out') (
          ap (λ (z : Pte). z.ppn) (sym (noted-entry p v))
          ∙ same
          ∙ ap (λ (z : Pte). z.ppn) (noted-entry q w));
  }

  noted-Implements : (m : Written) → Implements os m → Implements (noted os pid vpn) m
  noted-Implements m impl p v b q =
      let h = impl p v b q in
      record {
        used = subst (λ (z : Pte). (z.valid ≡ true) ⊎ IsOut z) (sym (noted-entry p v)) h.used;
        written = subst (λ (z : Pte). ¬ Droppable z) (sym (noted-entry p v)) h.written;
        bytes = λ i lt. ap (λ (z : Pte). byte_of os z i % 2 ^ 8) (noted-entry p v) ∙ h.bytes i lt;
      }

module _ (host : Host) (os : Os) (i fault_addr : ℕ) (current : get_current_thread os ≡ ok i) where
  abbrev pid : ℕ
  pid = (thread_at os i).parent

  abbrev vpn : ℕ
  vpn = fault_addr / 2 ^ 12

  handled :
      handle_page_fault host os fault_addr ≡ serve_fault host (noted os pid vpn) pid fault_addr vpn
  unfolding handle_page_fault
  handled = rw current refl

-- A system with a consistent virtual memory that implements an abstract memory, by process, page
-- and byte, of what programs have written (pages that are writable, and are dirty or have been
-- swapped out) still implements it after a page fault of the thread that runs, whichever pages
-- have been moved between frames and slots for it, and its virtual memory is consistent; the code
-- panics only if every slot is taken.
pub handle_page_fault-Implements :
    (host : Host) (os : Os) (i fault_addr : ℕ) (m : Written)
    → get_current_thread os ≡ ok i
    → (thread_at os i).parent < max_process
    → IsVirtual os 16
    → Implements os m
    → PanicsOnly
        (AllTaken os.swap)
        (λ r. IsVirtual r.0 16 × Implements r.0 m)
        (handle_page_fault host os fault_addr)
handle_page_fault-Implements host os i fault_addr m current hp h impl =
    rw (handled host os i fault_addr current) (
      serve_fault-Implements host (noted os (thread_at os i).parent (fault_addr / 2 ^ 12))
        (thread_at os i).parent fault_addr (fault_addr / 2 ^ 12) m
        (noted-IsVirtual os (thread_at os i).parent (fault_addr / 2 ^ 12) h) hp
        (noted-Implements os (thread_at os i).parent (fault_addr / 2 ^ 12) m impl))

-- In a consistent virtual memory that is on, with the page table of the thread that runs in use:
-- after a page fault has been handled, the access that faulted, unless the page forbids it, goes
-- through when it is tried again: the program counter and the registers are as they were, and the
-- address is translated, without a fault, to its frame in the RAM. Where the fault is not handled,
-- the page has got an entry, if it had none, and nothing else has changed. A panic means that all
-- swap slots are taken.
pub handle_page_fault-retry :
    (host : Host) (os : Os) (i vaddr : ℕ) (a : Access)
    → get_current_thread os ≡ ok i
    → (thread_at os i).parent < max_process
    → IsVirtual os 16
    → os.system.cpu.mmu.vm_enabled ≡ true
    → os.system.cpu.mmu.current_table ≡ some (thread_at os i).parent
    → PanicsOnly
        (AllTaken os.swap)
        (λ r.
          (r ≡ (noted os (thread_at os i).parent (vaddr / 2 ^ 12), false))
          ⊎ CanRetry os r.0 (thread_at os i).parent vaddr a)
        (handle_page_fault host os vaddr)
handle_page_fault-retry host os i vaddr a current hp h on table =
    rw (handled host os i vaddr current) (
      serve_fault-retry host (noted os (thread_at os i).parent (vaddr / 2 ^ 12))
        (thread_at os i).parent vaddr a
        (noted-IsVirtual os (thread_at os i).parent (vaddr / 2 ^ 12) h) hp on table)
