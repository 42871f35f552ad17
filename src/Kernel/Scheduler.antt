-- ===== src/Kernel/Scheduler.antt =====
-- scheduler/Scheduler.hpp and scheduler/Scheduler.cpp, with the vector of active threads and the
-- index of the current one of process/ProcessManager.hpp. Log lines and the counter of switches are
-- left out. An index is one of the `count` threads.
pub mod Laws
pub mod Away
pub mod Invariant
pub mod Tests
use rv32umos.Base.{
  ℕ, zero, suc, ◌+◌, ◌-◌, ◌%◌, ◌^◌, Bool, true, false, not, ◌&&◌, Option, none, some, ◌==◌,
  if◌then◌else◌, update, ℤ, pos, negsuc,
}
use rv32umos.Vm.Machine.{Machine, set_page_table, set_pc}
use rv32umos.Kernel.Thread.{Thread, ThreadState}

pub record System : Type 0 where
  pub active_threads : ℕ → Thread
  pub count : ℕ
  pub current_thread_index : ℤ
  pub cpu : Machine

abbrev pub is_ready : ThreadState → Bool
is_ready ThreadState.ready = true
is_ready s = false

abbrev pub is_running : ThreadState → Bool
is_running ThreadState.running = true
is_running s = false

abbrev pub is_terminated : ThreadState → Bool
is_terminated ThreadState.terminated = true
is_terminated s = false

-- `nextIndex + 1`, an int that `%` then reads as a std::size_t.
abbrev pub following : ℤ → ℕ
following (pos i) = i + 1
following (negsuc i) = (2 ^ 64 - i) % 2 ^ 64

-- The loop of `preempt`, with `left` attempts to go; `index` is `nextIndex + 1`.
pub find_ready : (ℕ → Thread) → ℕ → ℕ → ℕ → Option ℕ
find_ready threads count zero index = none
find_ready threads count (suc left) index =
    let next_index = index % count in
    let rest = find_ready threads count left (next_index + 1) in
    if is_ready (threads next_index).state then some next_index else rest

-- What becomes of the thread that leaves the processor.
pub saved : Machine → Thread → Thread
saved cpu t = if is_terminated t.state then t else record t {
  regs = cpu.regs;
  pc = cpu.pc;
  state = if is_running t.state then ThreadState.ready else t.state;
}

-- The part of `contextSwitch` that concerns the thread it leaves.
pub leave : System → ℤ → ℕ → Thread
unfolding saved
leave s (negsuc i) = s.active_threads
leave s (pos i) = update s.active_threads i (saved s.cpu (s.active_threads i))

-- Whether the page table has to be switched.
other_process : System → ℤ → ℕ → Bool
other_process s (negsuc i) next_index = true
other_process s (pos i) next_index =
    not ((s.active_threads i).parent == (s.active_threads next_index).parent)

pub context_switch : System → ℕ → System
unfolding leave other_process
context_switch s next_index =
    let threads = leave s s.current_thread_index in
    let next_thread = threads next_index in
    let cpu = set_pc (record s.cpu { regs = next_thread.regs }) next_thread.pc in
    record s {
      active_threads =
          update threads next_index (record next_thread { state = ThreadState.running });
      cpu =
          if other_process s s.current_thread_index next_index
          then set_page_table cpu (some next_thread.parent)
          else cpu;
      current_thread_index = pos next_index;
    }

-- `nextIndex != prevIndex`
is_index : ℤ → ℕ → Bool
is_index (pos i) next_index = next_index == i
is_index (negsuc i) next_index = false

preempt_to : System → Option ℕ → System
unfolding is_index
preempt_to s none = s
preempt_to s (some next_index) =
    if is_index s.current_thread_index next_index then s else context_switch s next_index

-- Where no thread is ready, the three remaining cases of the source only log.
pub preempt : System → System
unfolding preempt_to
preempt s =
    if s.count == 0
    then s
    else preempt_to s
        (find_ready s.active_threads s.count s.count (following s.current_thread_index))

pub check_all_terminated : (ℕ → Thread) → ℕ → Bool
check_all_terminated threads zero = true
check_all_terminated threads (suc n) =
    is_terminated (threads n).state && check_all_terminated threads n
