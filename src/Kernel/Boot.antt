-- ===== src/Kernel/Boot.antt =====
-- kernel/Kernel.hpp and kernel/Kernel.cpp, and RV32UMOS.hpp and RV32UMOS.cpp: how the system starts,
-- how a trap is served, and the main loop. The registration of services and devices by name is left
-- out, as are log lines and counters.
pub mod Start
pub mod Tests
use rv32umos.Base.{
  ℕ, zero, suc, ◌+◌, ◌%◌, Bool, true, false, not, [], none, Result, ok, stop, panic, ◌>>=◌, ◌==◌,
  if◌then◌else◌, pos, negsuc, eqb_ℤ,
}
use rv32umos.Vm.Machine.{
  Machine, Trap, TrapType, reset, read_reg, write_reg, advance_pc, enable_vm, has_trap, clear_trap,
}
use rv32umos.Vm.Execute.{step}
use rv32umos.Kernel.Disk.{new_disk}
use rv32umos.Kernel.Swap.{new_swap}
use rv32umos.Kernel.Thread.{Thread}
use rv32umos.Kernel.Frames
use rv32umos.Kernel.FileSystem.{Name, new_file_system}
use rv32umos.Kernel.FileSystem.Overlap.{num_disk_blocks, num_swap_blocks}
use rv32umos.Kernel.Scheduler.{is_running, preempt, check_all_terminated}
use rv32umos.Kernel.Process.{new_process}
use rv32umos.Kernel.Os.{Os, thread_at, set_process, set_cpu, get_current_thread, kill_process}
use rv32umos.Kernel.Host.{Host}
use rv32umos.Kernel.Loader.{create_process}
use rv32umos.Kernel.Paging
use rv32umos.Kernel.Syscall.{dispatch}
use rv32umos.Kernel.Syscall.Context.{SyscallContext, SyscallResult}

-- A machine as it is made, before its constructor resets it; the RAM is made of zeros.
abbrev bare_machine : Machine
bare_machine = record {
  regs = record { regs = λ i. 0 };
  mmu = record {
    memory = record { bytes = λ i. 0 };
    tables = λ pid. [];
    current_table = none;
    vm_enabled = false;
    fault = false;
    fault_addr = 0;
  };
  pc = 0;
  trap = record { type = TrapType.none; value = 0 };
}

-- RV32UMOS::init. A place that holds no thread yet holds any: `blank`.
pub init : Thread → Result Os
init blank = do
  cpu ← reset bare_machine
  ok (record {
    system = record {
      active_threads = λ i. blank;
      count = 0;
      current_thread_index = negsuc 0;
      cpu = cpu;
    };
    process_list = λ pid. new_process [];
    exit_codes = λ pid. none;
    process_waiters = λ pid. [];
    frames = Frames.init;
    queue = [];
    swap = new_swap num_disk_blocks num_swap_blocks;
    disk = new_disk num_disk_blocks;
    vfs = new_file_system;
    host_calls = 0;
  })

pub load_application : Host → Os → Name → Result (Os × Bool)
load_application host os filename = create_process host os filename

-- Killing the process of the current thread, which has to succeed.
pub kill_current : Os → Result Os
kill_current os = do
  current ← get_current_thread os
  (os', killed) ← kill_process os (pos (thread_at os current).parent)
  if killed then ok os' else stop panic

context : Machine → ℕ → Result SyscallContext
context cpu id = do
  a0 ← read_reg cpu 10
  a1 ← read_reg cpu 11
  a2 ← read_reg cpu 12
  a3 ← read_reg cpu 13
  a4 ← read_reg cpu 14
  a5 ← read_reg cpu 15
  ok (record { id = id; arg0 = a0; arg1 = a1; arg2 = a2; arg3 = a3; arg4 = a4; arg5 = a5 })

-- What `handleSyscall` does with the result of a call.
pub finish : Os → SyscallResult → Result Os
finish os result = do
  cpu ←
      if result.has_return_value
      then write_reg os.system.cpu 10 result.return_value
      else ok os.system.cpu
  let os' = set_cpu os (if result.advance_pc then advance_pc cpu else cpu)
  if result.error then kill_current os' else ok os'

pub handle_syscall : Host → Os → ℕ → Result Os
unfolding context finish
handle_syscall host os id = do
  ctx ← context os.system.cpu id
  (os', result) ← dispatch host os ctx
  finish os' result

pub handle_page_fault : Host → Os → ℕ → Result Os
handle_page_fault host os fault_addr = do
  (os', handled) ← Paging.handle_page_fault host os fault_addr
  if handled then ok os' else kill_current os'

-- SCHED_QUANTUM_INSTRUCTIONS of common/Common.hpp.
abbrev pub sched_quantum_instructions : ℕ
sched_quantum_instructions = 100

abbrev reschedule : Os → Os
reschedule os = record os { system = preempt os.system }

abbrev all_terminated : Os → Bool
all_terminated os = check_all_terminated os.system.active_threads os.system.count

-- Whether there is a current thread that runs: what the loop tests twice. An index that is not -1
-- has to be one of an active thread.
pub is_current_running : Os → Result Bool
is_current_running os =
    if eqb_ℤ os.system.current_thread_index (negsuc 0)
    then ok false
    else (do i ← get_current_thread os; ok (is_running (thread_at os i).state))

-- After a trap: which handler serves it.
serve_trap : Host → Os → Trap → Result Os
serve_trap host os trap = elim trap.type [
  | TrapType.none ↦ ok os
  | TrapType.syscall ↦ handle_syscall host os trap.value
  | TrapType.page_fault ↦ handle_page_fault host os trap.value
]

count_instruction : Os → ℕ → Os
count_instruction os pid = set_process os pid (record (os.process_list pid) {
  instructions_executed = (os.process_list pid).instructions_executed + 1;
})

-- The quantum that ends with this tick.
end_tick : Os → ℕ → Os
end_tick os ticks = if ticks % sched_quantum_instructions == 0 then reschedule os else os

after_trap : Host → Os → ℕ → ℕ → Trap → Result Os
unfolding serve_trap end_tick
after_trap host os self ticks trap = do
  os' ← serve_trap host os trap
  ok (if not (is_running (thread_at os' self).state) then reschedule os' else end_tick os' ticks)

-- A round of the loop in which thread `self` runs; `ticks` counts this round too.
pub run_thread : Host → Os → ℕ → ℕ → Result Os
unfolding count_instruction after_trap
run_thread host os self ticks = do
  cpu ← step os.system.cpu
  let os' = set_cpu (count_instruction os (thread_at os self).parent) cpu
  if has_trap cpu
      then after_trap host (set_cpu os' (clear_trap cpu)) self ticks cpu.trap
      else ok (end_tick (set_cpu os' (advance_pc cpu)) ticks)

-- How a round ends: the loop goes on with the count of ticks, or breaks, because every thread has
-- terminated or because none can run.
pub data Round : Type 0 where
  goes_on : Os → ℕ → Round
  finished : Os → Round
  stalled : Os → Round

find_work : Os → ℕ → Result Round
find_work os ticks =
    let os' = reschedule os in
    if all_terminated os' then ok (finished os') else (do
      running ← is_current_running os'
      ok (if running then goes_on os' ticks else stalled os'))

pub round : Host → Os → ℕ → Result Round
unfolding find_work
round host os ticks = if all_terminated os then ok (finished os) else (do
  running ← is_current_running os
  if not running then find_work os ticks else (do
    self ← get_current_thread os
    os' ← run_thread host os self (ticks + 1)
    ok (goes_on os' (ticks + 1))))

-- The loop, for at most as many rounds as are given: programs need not end.
pub rounds : Host → ℕ → Os → ℕ → Result Round
rounds host zero os ticks = ok (goes_on os ticks)
rounds host (suc left) os ticks = do
  r ← round host os ticks
  elim r [
    | goes_on os' ticks' ↦ rounds host left os' ticks'
    | finished os' ↦ ok (finished os')
    | stalled os' ↦ ok (stalled os')
  ]

-- `start`, for at most as many rounds of its loop as are given.
pub start : Host → ℕ → Os → Result Round
unfolding rounds
start host left os =
    if os.system.count == 0
    then ok (finished os)
    else rounds host left (reschedule (set_cpu os (enable_vm os.system.cpu true))) 0
