-- ===== src/Kernel/Paging.antt =====
-- memory/VirtualMemoryManager.hpp and memory/VirtualMemoryManager.cpp, but for the allocation of
-- frames, which is in Kernel/Eviction.antt. Counters and log lines are left out.
pub mod Mapped
pub mod Handlers
pub mod SwapIn
pub mod Serve
pub mod Retry
pub mod Keeps
pub mod Handle
pub mod Segments
pub mod Tests
use rv32umos.Base.{
  ℕ, ◌+◌, ◌-◌, ◌*◌, ◌%◌, ◌^◌, min, Bool, true, false, not, ◌&&◌, ◌||◌, List, [], ◌∷◌, Option, none,
  some, Result, ok, ◌>>=◌, ltb, leb, if◌then◌else◌, u32, sub32, shr, pos, signed, eqb_ℤ,
}
use rv32umos.Vm.PageTable.{Pte, set_pte_flags_from_elf}
use rv32umos.Vm.Machine.{stack_top}
use rv32umos.Kernel.Swap.{swap_in}
use rv32umos.Kernel.Thread.{Thread}
use rv32umos.Kernel.Frames.{kernel_page_size}
use rv32umos.Kernel.Process.{
  Segment, in_segment, main_stack_size, thread_stack_size, stack_region_bottom, heap_start,
}
use rv32umos.Kernel.Os.{Os, thread_at, get_current_thread}
use rv32umos.Kernel.Host.{Host, HostFile}
use rv32umos.Kernel.Eviction.{entry, set_entry, store_frame, allocate_frame}

-- The buffer of one page is filled from the slot; then the frame from the buffer.
pub handle_swap_in : Os → ℕ → ℕ → Result (Os × Bool)
handle_swap_in os pid vpn =
    if (entry os pid vpn).swapped && not (entry os pid vpn).valid
    then (do
      (os', paddr) ← allocate_frame os pid vpn
      let (swap, buffer) =
          swap_in os'.disk os'.swap (record { size = kernel_page_size; bytes = λ i. 0 })
            (signed 32 (entry os' pid vpn).ppn)
      os'' ← store_frame os' paddr buffer.bytes
      ok (
        record (set_entry os'' pid vpn (record (entry os'' pid vpn) {
          ppn = shr paddr 12;
          valid = true;
          referenced = true;
          dirty = false;
        })) { swap = swap },
        true,
      ))
    else ok (os, false)

-- The loop over the threads: whether the address is on the stack of one of them.
pub on_stack : (ℕ → Thread) → List ℕ → ℕ → Bool
on_stack threads [] fault_addr = false
on_stack threads (t ∷ ts) fault_addr =
    let rest = on_stack threads ts fault_addr in
    let size = if eqb_ℤ (threads t).tid (pos 0) then main_stack_size else thread_stack_size in
    let bottom = sub32 (threads t).stack_top size in
    if leb bottom fault_addr && ltb fault_addr (threads t).stack_top then true else rest

-- The entry of a page that is new on the stack or the heap.
abbrev pub writable : Pte → ℕ → Pte
writable pte paddr = record pte {
  ppn = shr paddr 12;
  valid = true;
  can_read = true;
  can_write = true;
  referenced = true;
}

pub handle_stack_growth : Os → ℕ → ℕ → ℕ → Result (Os × Bool)
handle_stack_growth os pid fault_addr vpn =
    if ltb fault_addr stack_region_bottom || leb stack_top fault_addr
    then ok (os, false)
    else if on_stack os.system.active_threads (os.process_list pid).threads fault_addr
    then (do
      (os', paddr) ← allocate_frame os pid vpn
      ok (set_entry os' pid vpn (writable (entry os' pid vpn) paddr), true))
    else ok (os, false)

pub handle_heap_growth : Os → ℕ → ℕ → ℕ → Result (Os × Bool)
handle_heap_growth os pid fault_addr vpn =
    if leb heap_start fault_addr && ltb fault_addr (os.process_list pid).program_break
    then (do
      (os', paddr) ← allocate_frame os pid vpn
      os'' ← store_frame os' paddr (λ i. 0)
      ok (set_entry os'' pid vpn (writable (entry os'' pid vpn) paddr), true))
    else ok (os, false)

-- The first segment that holds the address.
pub find_segment : List Segment → ℕ → Option Segment
find_segment [] fault_addr = none
find_segment (seg ∷ segs) fault_addr =
    let rest = find_segment segs fault_addr in if in_segment seg fault_addr then some seg else rest

-- `pageStartVAddr - seg.vaddr`, a difference of 32 bits.
abbrev pub offset_in_segment : Segment → ℕ → ℕ
offset_in_segment seg vpn = sub32 (u32 (vpn * kernel_page_size)) seg.vaddr

-- The buffer: zeros, and what can be read of the file where the page starts before its end. A char
-- is stored as its low byte.
pub segment_page : HostFile → Segment → ℕ → ℕ → ℕ
segment_page file seg vpn i =
    let offset = offset_in_segment seg vpn in
    let file_pos = seg.file_offset + offset in
    if ltb offset seg.file_size
      && (ltb i (min kernel_page_size (seg.file_size - offset)) && ltb (file_pos + i) file.size)
    then file.bytes (file_pos + i) % 2 ^ 8
    else 0

load_segment : Host → Os → ℕ → ℕ → Option Segment → Result (Os × Bool)
load_segment host os pid vpn none = ok (os, false)
load_segment host os pid vpn (some seg) = do
  (os', paddr) ← allocate_frame os pid vpn
  os'' ← store_frame os' paddr (segment_page (host.file (os'.process_list pid).name) seg vpn)
  ok (
    set_entry os'' pid vpn (
        set_pte_flags_from_elf
          (record (entry os'' pid vpn) { ppn = shr paddr 12; valid = true; referenced = true })
          seg.flags),
    true,
  )

pub handle_lazy_loading : Host → Os → ℕ → ℕ → ℕ → Result (Os × Bool)
unfolding load_segment
handle_lazy_loading host os pid fault_addr vpn =
    load_segment host os pid vpn (find_segment (os.process_list pid).segments fault_addr)

-- The next handler runs where one has returned false.
infixl 5 ◌orelse◌
abbrev pub ◌orelse◌ : Result (Os × Bool) → (Os → Result (Os × Bool)) → Result (Os × Bool)
m orelse rest = m >>= λ r. if r.1 then ok r else rest r.0

-- Of the process and the page that the fault belongs to.
pub serve_fault : Host → Os → ℕ → ℕ → ℕ → Result (Os × Bool)
serve_fault host os pid fault_addr vpn =
    if (entry os pid vpn).valid
    then ok (os, false)
    else handle_swap_in os pid vpn
      orelse (λ os. handle_stack_growth os pid fault_addr vpn)
      orelse (λ os. handle_lazy_loading host os pid fault_addr vpn)
      orelse (λ os. handle_heap_growth os pid fault_addr vpn)

-- The entry of the page is made where there is none.
pub handle_page_fault : Host → Os → ℕ → Result (Os × Bool)
unfolding serve_fault
handle_page_fault host os fault_addr = do
  i ← get_current_thread os
  let pid = (thread_at os i).parent
  let vpn = shr fault_addr 12
  serve_fault host (set_entry os pid vpn (entry os pid vpn)) pid fault_addr vpn
