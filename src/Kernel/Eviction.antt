-- ===== src/Kernel/Eviction.antt =====
-- `allocateFrame` and `evictPage` of memory/VirtualMemoryManager.cpp, and its loops over the bytes
-- of a page. A reference to an entry of a page table is a lookup, or an insertion of the entry that
-- has changed; counters and log lines are left out.
pub mod Pages
pub mod Invariant
pub mod Handout
pub mod Cases
pub mod Contents
pub mod Swapped
pub mod Allocate
use rv32umos.Base.{
  ℕ, zero, suc, ◌+◌, ◌*◌, ◌%◌, ◌^◌, Bool, true, false, not, ◌&&◌, ◌||◌, Option, none, some, Result,
  ok, stop, panic, out_of_bounds, leb, ◌>>=◌, if◌then◌else◌, update, u32, shr, ℤ, pos, negsuc,
  to_word, eqb_ℤ,
}
use rv32umos.Vm.Memory.{Memory, load, store}
use rv32umos.Vm.PageTable.{Pte, fresh, lookup, insert}
use rv32umos.Kernel.Swap.{swap_out}
use rv32umos.Kernel.Frames.{
  Frames, FrameInfo, FrameAllocInfo, kernel_page_size, free_frame, register_frame_owner,
  on_allocate, find_victim,
}
use rv32umos.Kernel.Frames
use rv32umos.Kernel.Process.{max_process}
use rv32umos.Kernel.Os.{Os, table_of, set_table, ram, set_ram}

abbrev pub or_fresh : Option Pte → Pte
or_fresh none = fresh
or_fresh (some pte) = pte

-- `(*process->getPageTable())[vpn]`: an entry that is not there is a fresh one.
abbrev pub entry : Os → ℕ → ℕ → Pte
entry os pid vpn = or_fresh (lookup (table_of os pid) vpn)

abbrev pub set_entry : Os → ℕ → ℕ → Pte → Os
set_entry os pid vpn pte = set_table os pid (insert (table_of os pid) vpn pte)

-- The loops that store a page of bytes from `paddr` on, at `i`, with `left` of them to go.
pub store_page : Memory → ℕ → (ℕ → ℕ) → ℕ → ℕ → Result Memory
store_page m paddr bytes zero i = ok m
store_page m paddr bytes (suc left) i = do
  m' ← store m (u32 (paddr + i)) 1 (bytes i)
  store_page m' paddr bytes left (i + 1)

-- The loop that fills the buffer of `evictPage`.
pub load_page : Memory → ℕ → (ℕ → ℕ) → ℕ → ℕ → Result (ℕ → ℕ)
load_page m paddr bytes zero i = ok bytes
load_page m paddr bytes (suc left) i = do
  v ← load m (u32 (paddr + i)) 1
  load_page m paddr (update bytes i (v % 2 ^ 8)) left (i + 1)

unfoldable pub store_frame : Os → ℕ → (ℕ → ℕ) → Result Os
store_frame os paddr bytes = do
  m ← store_page (ram os) paddr bytes kernel_page_size 0
  ok (set_ram os m)

abbrev free_of : Os → ℕ → ℕ → Pte → Frames → Os
free_of os pid vpn pte frames = record (set_entry os pid vpn pte) { frames = frames }

-- A page that need not be kept: read-only, or unchanged since it was loaded.
evict_clean : Os → ℕ → ℕ → ℕ → Result Os
evict_clean os victim pid vpn = do
  frames ← free_frame os.frames (u32 (victim * kernel_page_size))
  ok (
      free_of os pid vpn (record (entry os pid vpn) { valid = false; swapped = false; ppn = 0 })
        frames)

swapped_out : Os → ℕ → ℕ → ℕ → ℤ → Result Os
swapped_out os victim pid vpn slot = if eqb_ℤ slot (negsuc 0) then stop panic else (do
  frames ← free_frame os.frames (u32 (victim * kernel_page_size))
  ok (
      free_of os pid vpn
        (record (entry os pid vpn) {
          valid = false;
          swapped = true;
          ppn = to_word slot;
          dirty = false;
        })
        frames))

evict_data : Os → ℕ → ℕ → ℕ → Result Os
unfolding swapped_out
evict_data os victim pid vpn = do
  bytes ← load_page (ram os) (u32 (victim * kernel_page_size)) (λ i. 0) kernel_page_size 0
  let (disk, swap, slot) =
      swap_out os.disk os.swap (record { size = kernel_page_size; bytes = bytes })
  swapped_out (record os { disk = disk; swap = swap }) victim pid vpn slot

abbrev pub is_clean : Pte → Bool
is_clean pte = not pte.can_write || (not pte.dirty && not pte.swapped)

-- The owner of a frame is the place of its process in the list; the code indexes the list unchecked.
evict_frame : Os → ℕ → FrameInfo → Result Os
unfolding evict_clean evict_data
evict_frame os victim info =
    let pid = to_word info.owner_pid in
    if leb max_process pid
    then stop out_of_bounds
    else if is_clean (entry os pid info.vpn)
    then evict_clean os victim pid info.vpn
    else evict_data os victim pid info.vpn

evict_found : Os → ℤ → Result Os
unfolding evict_frame
evict_found os found =
    if eqb_ℤ found (negsuc 0)
    then stop panic
    else evict_frame os (to_word found) (os.frames.frame_table (to_word found))

pub evict_page : Os → Result Os
unfolding evict_found
evict_page os =
    let (queue, found) = find_victim os.queue os.frames.frame_table in
    evict_found (record os { queue = queue }) found

-- The frame that PhysicalMemoryManager::allocateFrame hands out, after an eviction if need be.
pub take_frame : Os → Result (Os × FrameAllocInfo)
take_frame os =
    let (frames, info) = Frames.allocate_frame os.frames in
    if info.status then ok (record os { frames = frames }, info) else (do
      os' ← evict_page os
      let (frames', info') = Frames.allocate_frame os'.frames
      if info'.status then ok (record os' { frames = frames' }, info') else stop panic)

pub allocate_frame : Os → ℕ → ℕ → Result (Os × ℕ)
allocate_frame os pid vpn = do
  (os', info) ← take_frame os
  let ppn = shr info.paddr 12
  frames ← register_frame_owner os'.frames ppn vpn (pos pid)
  ok (record os' { frames = frames; queue = on_allocate os'.queue ppn }, info.paddr)
