-- ===== src/Kernel/Os.antt =====
-- The state of the whole system, and what of process/ProcessManager.hpp, ProcessManager.cpp and
-- Process.cpp reaches beyond one process. Every service that the source looks up by name
-- (kernel/KernelService.hpp, hal/HAL.hpp) is a field here. A pid is a place in the list of
-- processes; an int that names a process is its word. A thread is its place among the active ones:
-- none ever leaves them.
pub mod Current
pub mod Ending
pub mod Recycling
use rv32umos.Base.{
  ℕ, ◌+◌, ◌*◌, Bool, true, false, not, ◌||◌, List, [], ◌∷◌, Option, none, some, Result, ok, stop,
  panic, ◌>>=◌, ltb, leb, if◌then◌else◌, update, u32, ℤ, pos, negsuc, ltb_ℤ, pos_part,
}
use rv32umos.Vm.Memory.{Memory}
use rv32umos.Vm.PageTable.{PageTable}
use rv32umos.Vm.Machine.{Machine, stack_top}
use rv32umos.Kernel.Disk.{Disk}
use rv32umos.Kernel.Swap.{Swap}
use rv32umos.Kernel.Thread.{Thread, ThreadState}
use rv32umos.Kernel.Frames.{Frames, free_frame, kernel_page_size}
use rv32umos.Kernel.FileSystem.{Name, FileSystem}
use rv32umos.Kernel.Scheduler.{System}
use rv32umos.Kernel.Process.{Process, max_process, heap_start}

pub record Os : Type 0 where
  -- ProcessManager's active threads and current index, and the machine.
  pub system : System
  pub process_list : ℕ → Process
  pub exit_codes : ℕ → Option ℤ
  -- A pid that the map does not have has no waiting thread.
  pub process_waiters : ℕ → List ℕ
  pub frames : Frames
  -- The FIFO queue of the page replacement policy.
  pub queue : List ℕ
  pub swap : Swap
  pub disk : Disk
  pub vfs : FileSystem
  -- How often the console has been read or written; see Kernel/Host.antt.
  pub host_calls : ℕ

abbrev pub thread_at : Os → ℕ → Thread
thread_at os i = os.system.active_threads i

abbrev pub set_thread : Os → ℕ → Thread → Os
set_thread os i t = record os {
  system = record os.system { active_threads = update os.system.active_threads i t };
}

abbrev pub set_state : Os → ℕ → ThreadState → Os
set_state os i s = set_thread os i (record (thread_at os i) { state = s })

abbrev pub set_process : Os → ℕ → Process → Os
set_process os pid p = record os { process_list = update os.process_list pid p }

abbrev pub set_cpu : Os → Machine → Os
set_cpu os cpu = record os { system = record os.system { cpu = cpu } }

abbrev pub table_of : Os → ℕ → PageTable
table_of os pid = os.system.cpu.mmu.tables pid

abbrev pub set_table : Os → ℕ → PageTable → Os
set_table os pid table = set_cpu os (record os.system.cpu {
  mmu = record os.system.cpu.mmu { tables = update os.system.cpu.mmu.tables pid table };
})

abbrev pub ram : Os → Memory
ram os = os.system.cpu.mmu.memory

abbrev pub set_ram : Os → Memory → Os
set_ram os m = set_cpu os (record os.system.cpu { mmu = record os.system.cpu.mmu { memory = m } })

-- Any negative index fails, as -1 or as a std::size_t beyond the vector.
current_at : ℕ → ℤ → Result ℕ
current_at count (negsuc i) = stop panic
current_at count (pos i) = if leb count i then stop panic else ok i

pub get_current_thread : Os → Result ℕ
unfolding current_at
get_current_thread os = current_at os.system.count os.system.current_thread_index

-- `K_PROC_MANAGER->activeThreads.push_back`, of the thread that stands behind the active ones.
pub push_active : Os → Thread → Os
push_active os t = record os {
  system = record os.system {
    active_threads = update os.system.active_threads os.system.count t;
    count = os.system.count + 1;
  };
}

-- The loop of `Process::wipeMemory`, over the entries of the page table.
pub wipe_memory : PageTable → Frames → Result Frames
wipe_memory [] frames = ok frames
wipe_memory ((vpn, pte) ∷ table) frames = do
  frames' ← if pte.valid then free_frame frames (u32 (pte.ppn * kernel_page_size)) else ok frames
  wipe_memory table frames'

abbrev recycled : Process → Name → Process
recycled p new_name = record {
  name = new_name;
  active = true;
  segments = [];
  threads = [];
  mutex_list = [];
  fd_table = λ fd. if ltb fd 3 then p.fd_table fd else none;
  program_break = heap_start;
  next_stack_base = stack_top;
  instructions_executed = 0;
}

pub recycle : Os → ℕ → Name → Result Os
recycle os pid new_name = do
  frames ← wipe_memory (table_of os pid) os.frames
  ok (
      set_process (set_table (record os { frames = frames }) pid []) pid
        (recycled (os.process_list pid) new_name))

-- The loops of `terminate` that set the state of every thread of a list.
pub set_states : (ℕ → Thread) → List ℕ → ThreadState → ℕ → Thread
set_states threads [] s = threads
set_states threads (t ∷ ts) s =
    set_states (update threads t (record (threads t) { state = s })) ts s

abbrev terminated : Os → ℕ → ℤ → Frames → Os
terminated os pid exit_code frames = record os {
  frames = frames;
  system = record os.system {
    active_threads =
        set_states
          (set_states os.system.active_threads (os.process_list pid).threads ThreadState.terminated)
          (os.process_waiters pid) ThreadState.ready;
  };
  exit_codes = update os.exit_codes pid (some exit_code);
  process_waiters = update os.process_waiters pid [];
  process_list = update os.process_list pid (record (os.process_list pid) { active = false });
}

-- Whether the process has crashed only chooses a log line.
pub terminate : Os → ℤ → ℤ → Result (Os × Bool)
terminate os pid exit_code =
    if ltb_ℤ pid (pos 0) || leb max_process (pos_part pid)
    then ok (os, false)
    else if not (os.process_list (pos_part pid)).active
    then ok (os, false)
    else (do
      frames ← wipe_memory (table_of os (pos_part pid)) os.frames
      ok (terminated os (pos_part pid) exit_code frames, true))

pub kill_process : Os → ℤ → Result (Os × Bool)
kill_process os pid = terminate os pid (negsuc 0)
