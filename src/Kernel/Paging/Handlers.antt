-- ===== src/Kernel/Paging/Handlers.antt =====
-- What each handler of a page fault leaves.
use rv32umos.Base.{
  ℕ, ◌+◌, ◌-◌, ◌/◌, ◌%◌, ◌^◌, ◌<◌, ◌≡◌, refl, sym, ap, ◌∙◌, arith, Bool, true, false, not, ◌&&◌,
  ◌==◌, some, ltb, leb, shr, inr, Result, ok, ◌>>=◌, PanicsOnly, returns, PanicsOnly->>=, bit_and,
}
use rv32umos.Vm.Memory.{Memory, memory_size}
use rv32umos.Vm.Memory.Loops.{IsBytes}
use rv32umos.Vm.PageTable.{Pte, set_pte_flags_from_elf, pf_r, pf_w, pf_x}
use rv32umos.Kernel.Swap.{Swap}
use rv32umos.Kernel.Frames.{kernel_page_size}
use rv32umos.Kernel.Process.{Process, max_process, heap_start, Segment}
use rv32umos.Kernel.Os.{Os, ram, set_ram}
use rv32umos.Kernel.Host.{Host}
use rv32umos.Kernel.Eviction.{entry, set_entry, store_page, store_frame}
use rv32umos.Kernel.Eviction.Pages.{store_page_lem}
use rv32umos.Kernel.Eviction.Contents.{
  IsVirtual, IsOut, Kept, stays, is_dropped, moves, byte_of, page_byte,
}
use rv32umos.Kernel.Eviction.Allocate.{IsAllocated, AllTaken, SameThreads, allocate_frame_lem}
use rv32umos.Kernel.Paging.{
  handle_heap_growth, handle_lazy_loading, load_segment, find_segment, segment_page, writable,
}
use rv32umos.Kernel.Paging.Mapped.{
  OnlyFrame, KeepsSlots, mapped, mapped-entry, mapped-IsVirtual, mapped-Kept,
}

-- A page that was not mapped has a frame now; nothing that was in memory is lost.
pub record IsServed (os : Os) (pid vpn : ℕ) (os' : Os) : Type 0 where
  pub virtual : IsVirtual os' 16
  pub valid : (entry os' pid vpn).valid ≡ true
  pub kept : (p v : ℕ) → (p == pid) && (v == vpn) ≡ false → Kept os os' p v
  pub threads : SameThreads os os'

-- With the bytes of the page and what may be done with it.
pub record IsLoaded (os : Os) (pid vpn : ℕ) (contents : ℕ → ℕ) (r w x : Bool) (os' : Os)
    : Type 0 where
  pub served : IsServed os pid vpn os'
  pub bytes : (i : ℕ) → i < 4096 → page_byte os' pid vpn i ≡ contents i % 2 ^ 8
  pub can_read : (entry os' pid vpn).can_read ≡ r
  pub can_write : (entry os' pid vpn).can_write ≡ w
  pub can_execute : (entry os' pid vpn).can_execute ≡ x
  pub swapped : (entry os' pid vpn).swapped ≡ (entry os pid vpn).swapped

-- A page without a frame keeps its entry.
pub Kept-invalid :
    (os os' : Os) (p v : ℕ)
    → Kept os os' p v
    → (entry os p v).valid ≡ false
    → (entry os' p v ≡ entry os p v)
      × ((i : ℕ) → i < 4096 → IsOut (entry os p v) → page_byte os' p v i ≡ page_byte os p v i)
Kept-invalid os os' p v (stays e b) invalid = (e, λ i lt out. b i lt (inr out))
Kept-invalid os os' p v (is_dropped valid c e) invalid = absurd (cc (sym valid, invalid))
Kept-invalid os os' p v (moves s valid e b) invalid = absurd (cc (sym valid, invalid))

store_frame-eq :
    (os : Os) (paddr : ℕ) (bytes : ℕ → ℕ) (m : Memory)
    → store_page (ram os) paddr bytes kernel_page_size 0 ≡ ok m
    → store_frame os paddr bytes ≡ ok (set_ram os m)
unfolding store_frame
store_frame-eq os paddr bytes m e = rw e

-- The frame's bytes are stored without a fault.
store_frame_lem :
    (os : Os) (paddr : ℕ) (bytes : ℕ → ℕ)
    → IsBytes (ram os)
    → paddr % 4096 ≡ 0
    → paddr < memory_size
    → (m : Memory) × (store_frame os paddr bytes ≡ ok (set_ram os m))
      × OnlyFrame paddr (ram os) m
      × ((i : ℕ) → i < 4096 → m.bytes (paddr + i) ≡ bytes i % 2 ^ 8)
store_frame_lem os paddr bytes hm al lt =
    let (m, e, all) = store_page_lem (ram os) paddr bytes kernel_page_size 0 (omega arith) in
    (
      m,
      store_frame-eq os paddr bytes m e,
      record { bytes = λ j. ground (arith, all j, hm j); others = λ j d. all j ∙ ground arith },
      λ i hi.
          all (paddr + i) ∙ ground (arith, ap bytes {x = paddr + i - paddr} {y = i} (omega arith)),
    )

module _ (os : Os) (h : IsVirtual os 16) (pid vpn : ℕ) (hp : pid < max_process)
    (invalid : (entry os pid vpn).valid ≡ false) where
  -- The rest of a handler, once it has a frame and has made its entry.
  module _ (os' : Os) (paddr : ℕ) (a : IsAllocated os pid vpn (os', paddr)) where
    pub kept_entry : entry os' pid vpn ≡ entry os pid vpn
    kept_entry = (Kept-invalid os os' pid vpn (a.kept pid vpn) invalid).0

    pub still_invalid : (entry os' pid vpn).valid ≡ false
    still_invalid = ap (λ (z : Pte). z.valid) kept_entry ∙ invalid

    pub same_slots : KeepsSlots os' pid vpn os'.swap
    same_slots = record {
      start = refl;
      size = refl;
      slots = λ p v other out. (a.virtual.slots p v out).1;
    }

    module _ (m : Memory) (only : OnlyFrame paddr (ram os') m) (s : Swap)
        (keeps : KeepsSlots os' pid vpn s) (pte : Pte) (valid : pte.valid ≡ true)
        (ppn : pte.ppn ≡ paddr / 4096) where
      abbrev pub final : Os
      final = mapped os os' pid vpn paddr a hp still_invalid m only s keeps pte valid ppn

      pub final-entry : entry final pid vpn ≡ pte
      final-entry =
          mapped-entry os os' pid vpn paddr a hp still_invalid m only s keeps pte valid ppn

      pub final-IsServed : IsServed os pid vpn final
      final-IsServed = record {
        virtual =
            mapped-IsVirtual os os' pid vpn paddr a hp still_invalid m only s keeps pte valid ppn;
        valid = ap (λ (z : Pte). z.valid) final-entry ∙ valid;
        kept = mapped-Kept os os' pid vpn paddr a hp still_invalid m only s keeps pte valid ppn;
        threads = record {
          processes = a.threads.processes;
          threads = a.threads.threads;
          regs = a.threads.regs;
          pc = a.threads.pc;
          current_table = a.threads.current_table;
          vm_enabled = a.threads.vm_enabled;
        };
      }

      final-byte : (i : ℕ) → page_byte final pid vpn i ≡ m.bytes (paddr + i)
      final-byte i =
          ap (λ z. byte_of final z i) final-entry
          ∙ rw valid (ap m.bytes (omega (arith, ppn, a.aligned)))

      final-IsLoaded :
          (contents : ℕ → ℕ)
          → ((i : ℕ) → i < 4096 → m.bytes (paddr + i) ≡ contents i % 2 ^ 8)
          → pte.swapped ≡ (entry os pid vpn).swapped
          → IsLoaded os pid vpn contents pte.can_read pte.can_write pte.can_execute final
      final-IsLoaded contents all sw = record {
        served = final-IsServed;
        bytes = λ i lt. final-byte i ∙ all i lt;
        can_read = ap (λ (z : Pte). z.can_read) final-entry;
        can_write = ap (λ (z : Pte). z.can_write) final-entry;
        can_execute = ap (λ (z : Pte). z.can_execute) final-entry;
        swapped = ap (λ (z : Pte). z.swapped) final-entry ∙ sw;
      }

  -- A handler that has served the fault.
  abbrev pub Loads : (ℕ → ℕ) → Bool → Bool → Bool → Result (Os × Bool) → Type 0
  Loads contents r w x =
      PanicsOnly (AllTaken os.swap) (λ z. IsLoaded os pid vpn contents r w x z.0 × (z.1 ≡ true))

  -- The bytes of a page are stored, and then its entry is made.
  pub loads :
      (contents : ℕ → ℕ) (os' : Os) (paddr : ℕ) (a : IsAllocated os pid vpn (os', paddr))
      (swap : Swap) (pte : Pte) (r w x : Bool) (rest : Os → Result (Os × Bool))
      → pte.can_read ≡ r
      → pte.can_write ≡ w
      → pte.can_execute ≡ x
      → pte.swapped ≡ (entry os pid vpn).swapped
      → KeepsSlots os' pid vpn swap
      → pte.valid ≡ true
      → pte.ppn ≡ paddr / 4096
      → ((m : Memory)
          → rest (set_ram os' m)
            ≡ ok (record (set_entry (set_ram os' m) pid vpn pte) { swap = swap }, true))
      → Loads contents r w x (store_frame os' paddr contents >>= rest)
  loads contents os' paddr a swap pte r w x rest er ew ex sw keeps valid ppn done =
      let (m, e, only, bytes) =
        store_frame_lem os' paddr contents a.virtual.bytes a.aligned a.in_ram in
      let l = final-IsLoaded os' paddr a m only swap keeps pte valid ppn contents bytes sw in
      rw e (
        returns _ (done m) (
          record {
            served = l.served;
            bytes = l.bytes;
            can_read = l.can_read ∙ er;
            can_write = l.can_write ∙ ew;
            can_execute = l.can_execute ∙ ex;
            swapped = l.swapped;
          },
          refl,
        ))

  pub kept_execute :
      (os' : Os) (paddr : ℕ)
      → IsAllocated os pid vpn (os', paddr)
      → (entry os' pid vpn).can_execute ≡ (entry os pid vpn).can_execute
  kept_execute os' paddr a = ap (λ (z : Pte). z.can_execute) (kept_entry os' paddr a)

  pub kept_swapped :
      (os' : Os) (paddr : ℕ)
      → IsAllocated os pid vpn (os', paddr)
      → (entry os' pid vpn).swapped ≡ (entry os pid vpn).swapped
  kept_swapped os' paddr a = ap (λ (z : Pte). z.swapped) (kept_entry os' paddr a)

  -- In a consistent virtual memory, a fault on a page that is not mapped, at an address of the
  -- heap below the program break, is served: the page has a frame, all of zeros, and may be read
  -- and written; no other page loses what it holds but by being dropped while read-only or
  -- unwritten, and the virtual memory is consistent. The handler panics only if every slot is
  -- taken.
  pub handle_heap_growth_lem :
      (fault_addr : ℕ)
      → leb heap_start fault_addr && ltb fault_addr (os.process_list pid).program_break ≡ true
      → Loads
          (λ i. 0)
          true
          true
          (entry os pid vpn).can_execute
          (handle_heap_growth os pid fault_addr vpn)
  unfolding handle_heap_growth
  handle_heap_growth_lem fault_addr on_heap = rw on_heap (
      PanicsOnly->>= (AllTaken os.swap) (IsAllocated os pid vpn) _ _ _
        (allocate_frame_lem os h pid vpn)
        (λ r a.
          loads (λ i. 0) r.0 r.1 a r.0.swap (writable (entry r.0 pid vpn) r.1) true true
            (entry os pid vpn).can_execute _ refl refl (kept_execute r.0 r.1 a)
            (kept_swapped r.0 r.1 a) (same_slots r.0 r.1 a) refl refl (λ m. refl)))

  -- In a consistent virtual memory, a fault on a page that is not mapped, at an address in a
  -- segment, is served: the page has a frame, with the bytes that the loader takes from the file
  -- for it and the permissions of the first such segment; no other page loses what it holds but by
  -- being dropped while read-only or unwritten, and the virtual memory is consistent. The handler
  -- panics only if every slot is taken.
  pub handle_lazy_loading_lem :
      (host : Host) (fault_addr : ℕ) (seg : Segment)
      → find_segment (os.process_list pid).segments fault_addr ≡ some seg
      → Loads
          (segment_page (host.file (os.process_list pid).name) seg vpn)
          (not (bit_and seg.flags pf_r == 0))
          (not (bit_and seg.flags pf_w == 0))
          (not (bit_and seg.flags pf_x == 0))
          (handle_lazy_loading host os pid fault_addr vpn)
  unfolding handle_lazy_loading load_segment set_pte_flags_from_elf
  handle_lazy_loading_lem host fault_addr seg found = rw found (
      PanicsOnly->>= (AllTaken os.swap) (IsAllocated os pid vpn) _ _ _
        (allocate_frame_lem os h pid vpn)
        (λ r a.
          rw
            (ap (λ (f : ℕ → Process). segment_page (host.file (f pid).name) seg vpn)
              a.threads.processes)
            (loads (segment_page (host.file (os.process_list pid).name) seg vpn) r.0 r.1 a r.0.swap
              (set_pte_flags_from_elf
                (record (entry r.0 pid vpn) { ppn = shr r.1 12; valid = true; referenced = true })
                seg.flags)
              _ _ _ _ refl refl refl (kept_swapped r.0 r.1 a) (same_slots r.0 r.1 a) refl refl
              (λ m. refl))))
