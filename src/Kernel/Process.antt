-- ===== src/Kernel/Process.antt =====
-- process/Process.hpp and process/Process.cpp, but for what reaches beyond one process (`wipeMemory`,
-- `recycle` and `terminate` are in Kernel/Os.antt), with memory/Segment.hpp and the address space of
-- common/Common.hpp. A process is named by its pid, its place in the list of processes; its page
-- table is among those of Vm/Mmu.antt, and its threads are numbers. `close` of a file handle does
-- nothing in either class.
pub mod Code
pub mod Stacks
pub mod Descriptors
pub mod Break
pub mod Tests
use rv32umos.Base.{
  ℕ, zero, suc, ◌+◌, ◌-◌, ◌*◌, ◌/◌, Bool, true, false, not, ◌&&◌, ◌||◌, List, [], ◌∷◌, ◌++◌, length,
  get_elem?, Option, none, some, Result, ok, ◌>>=◌, ltb, leb, ◌==◌, if◌then◌else◌, update, u32,
  sub32, ℤ, pos, negsuc, pos_part, ltb_ℤ, to_word, bit_and,
}
use rv32umos.Vm.RegFile
use rv32umos.Vm.RegFile.{RegFile}
use rv32umos.Vm.PageTable.{pf_x}
use rv32umos.Vm.Machine.{stack_top}
use rv32umos.Kernel.Frames.{kernel_page_size}
use rv32umos.Kernel.Thread.{Thread, new_thread}
use rv32umos.Kernel.Mutex.{Mutex, new_mutex}
use rv32umos.Kernel.FileSystem.{Name, DiskFileHandle}

abbrev pub max_process : ℕ
max_process = 8

abbrev pub max_threads : ℕ
max_threads = 5

abbrev pub virtual_memory_size : ℕ
virtual_memory_size = 64 * 1024 * 1024

abbrev pub guard_page_size : ℕ
guard_page_size = kernel_page_size

abbrev pub stack_region_bottom : ℕ
stack_region_bottom = virtual_memory_size / 2

abbrev pub main_stack_size : ℕ
main_stack_size = virtual_memory_size / 4

abbrev pub thread_stack_size : ℕ
thread_stack_size = virtual_memory_size / 4 / (max_threads - 1) - guard_page_size

abbrev pub heap_start : ℕ
heap_start = virtual_memory_size / 4

abbrev pub heap_max_limit : ℕ
heap_max_limit = stack_region_bottom

abbrev pub fd_table_size : ℕ
fd_table_size = 1024

pub record Segment : Type 0 where
  pub vaddr : ℕ
  pub mem_size : ℕ
  pub file_size : ℕ
  pub file_offset : ℕ
  pub flags : ℕ

-- An address and a std::size_t of 32 bits are added on 64 bits.
abbrev pub in_segment : Segment → ℕ → Bool
in_segment seg addr = leb seg.vaddr addr && ltb addr (seg.vaddr + seg.mem_size)

-- ConsoleHandle, by its host descriptor, and DiskFileHandle.
pub data FileHandle : Type 0 where
  console : ℕ → FileHandle
  disk_file : DiskFileHandle → FileHandle

-- The PCB.
pub record Process : Type 0 where
  pub name : Name
  pub active : Bool
  pub segments : List Segment
  pub threads : List ℕ
  pub mutex_list : List Mutex
  pub fd_table : ℕ → Option FileHandle
  pub program_break : ℕ
  pub next_stack_base : ℕ
  pub instructions_executed : ℕ

pub new_process : Name → Process
new_process n = record {
  name = n;
  active = false;
  segments = [];
  threads = [];
  mutex_list = [];
  fd_table = λ fd. if ltb fd 3 then some (console fd) else none;
  program_break = heap_start;
  next_stack_base = stack_top;
  instructions_executed = 0;
}

-- The loop of `createThread` over the segments.
pub is_executable : List Segment → ℕ → Bool
is_executable [] entry_pc = false
is_executable (seg ∷ segs) entry_pc =
    let rest = is_executable segs entry_pc in
    if in_segment seg entry_pc && not (bit_and seg.flags pf_x == 0) then true else rest

is_empty : List ℕ → Bool
is_empty [] = true
is_empty (t ∷ ts) = false

abbrev stack_size_of : List ℕ → ℕ
unfolding is_empty
stack_size_of threads = if is_empty threads then main_stack_size else thread_stack_size

-- `number` is the place that the new thread will have among the active ones, where both callers
-- put it at once.
pub create_thread : Process → ℕ → ℕ → ℕ → ℕ → Result (Process × Option Thread)
unfolding is_executable is_empty
create_thread p pid number entry_pc arg =
    if leb max_threads (length p.threads)
    then ok (p, none)
    else if not (is_executable p.segments entry_pc)
    then ok (p, none)
    else (do
      t ←
          new_thread (record { regs = λ i. 0 }) (pos (length p.threads)) pid entry_pc
            p.next_stack_base
      r ← RegFile.write t.regs 10 arg
      ok (
        record p {
          next_stack_base =
              sub32 (sub32 p.next_stack_base (stack_size_of p.threads)) guard_page_size;
          threads = p.threads ++ (number ∷ []);
        },
        some (record t { regs = r }),
      ))

pub create_mutex : Process → Process × ℕ
create_mutex p = (record p { mutex_list = p.mutex_list ++ (new_mutex ∷ []) }, length p.mutex_list)

pub get_mutex : Process → ℤ → Option Mutex
get_mutex p id = if ltb_ℤ id (pos 0) then none else get_elem? p.mutex_list (pos_part id)

-- The first loop of `addFileHandle`, with `left` places to go.
free_slot : (ℕ → Option FileHandle) → ℕ → ℕ → Option ℕ
free_slot table zero i = none
free_slot table (suc left) i = elim (table i) [
  | none ↦ some i
  | some h ↦ free_slot table left (i + 1)
]

add_at : Process → FileHandle → Option ℕ → Process × ℤ
add_at p handle none = (p, negsuc 0)
add_at p handle (some fd) = (record p { fd_table = update p.fd_table fd (some handle) }, pos fd)

pub add_file_handle : Process → FileHandle → Process × ℤ
unfolding free_slot add_at
add_file_handle p handle = add_at p handle (free_slot p.fd_table fd_table_size 0)

abbrev out_of_table : ℤ → Bool
out_of_table fd = ltb_ℤ fd (pos 0) || leb fd_table_size (pos_part fd)

pub get_file_handle : Process → ℤ → Option FileHandle
get_file_handle p fd = if out_of_table fd then none else p.fd_table (pos_part fd)

close_at : Process → ℕ → Option FileHandle → Process × Bool
close_at p fd none = (p, false)
close_at p fd (some h) = (record p { fd_table = update p.fd_table fd none }, true)

pub close_file_handle : Process → ℤ → Process × Bool
unfolding close_at
close_file_handle p fd =
    if out_of_table fd then (p, false) else close_at p (pos_part fd) (p.fd_table (pos_part fd))

pub sbrk : Process → ℤ → Process × ℕ
sbrk p increment =
    let new_break = u32 (p.program_break + to_word increment) in
    if ltb new_break heap_start || ltb heap_max_limit new_break
    then (p, 0)
    else (record p { program_break = new_break }, p.program_break)
