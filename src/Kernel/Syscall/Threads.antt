-- ===== src/Kernel/Syscall/Threads.antt =====
-- The handlers of syscall/SyscallHandler.cpp for threads.
pub mod Joining
use rv32umos.Base.{
  ℕ, true, List, [], ◌∷◌, Option, none, some, Result, ok, ◌>>=◌, if◌then◌else◌, add32, ℤ, signed,
  to_word, eqb_ℤ,
}
use rv32umos.Vm.RegFile
use rv32umos.Kernel.Thread.{Thread, ThreadState}
use rv32umos.Kernel.Scheduler.{is_terminated}
use rv32umos.Kernel.Process.{Process, create_thread}
use rv32umos.Kernel.Os.{
  Os, thread_at, set_thread, set_state, set_process, get_current_thread, push_active,
}
use rv32umos.Kernel.Syscall.Context.{SyscallContext, SyscallResult, returns, minus_one, reschedules}

-- The loop over the threads of the process.
unfoldable pub find_thread : (ℕ → Thread) → List ℕ → ℤ → Option ℕ
find_thread threads [] tid = none
find_thread threads (t ∷ ts) tid =
    let rest = find_thread threads ts tid in if eqb_ℤ (threads t).tid tid then some t else rest

-- A target that has not ended gets a joiner, and the current thread waits.
pub wait_for : Os → ℕ → ℕ → Os
wait_for os current target =
    let os' =
      set_thread os target
        (record (thread_at os target) { has_been_joined = true; joiner = some current }) in
    set_state os' current ThreadState.blocked

pub join_found : Os → ℕ → Option ℕ → Os × SyscallResult
unfolding wait_for
join_found os current none = (os, returns minus_one)
join_found os current (some target) =
    if eqb_ℤ (thread_at os target).tid (thread_at os current).tid
    then (os, returns minus_one)
    else if (thread_at os target).has_been_joined
    then (os, returns minus_one)
    else if is_terminated (thread_at os target).state
    then (
      set_thread os target (record (thread_at os target) { has_been_joined = true }),
      returns (to_word (thread_at os target).exit_code),
    )
    else (wait_for os current target, reschedules)

pub handle_thread_join : Os → SyscallContext → Result (Os × SyscallResult)
handle_thread_join os ctx = do
  current ← get_current_thread os
  let process = os.process_list (thread_at os current).parent
  let found = find_thread os.system.active_threads process.threads (signed 32 ctx.arg0)
  ok (join_found os current found)

-- The thread that waits for this one goes on behind its call, with the exit code.
pub wake_joiner : Os → ℕ → Option ℕ → Result Os
wake_joiner os exit_code none = ok os
wake_joiner os exit_code (some joiner) = do
  let t = thread_at os joiner
  r ← RegFile.write t.regs 10 exit_code
  ok (set_thread os joiner (record t { state = ThreadState.ready; regs = r; pc = add32 t.pc 4 }))

pub handle_thread_exit : Os → SyscallContext → Result (Os × SyscallResult)
handle_thread_exit os ctx = do
  current ← get_current_thread os
  let t = record (thread_at os current) {
    state = ThreadState.terminated;
    exit_code = signed 32 ctx.arg0;
  }
  os' ← wake_joiner (set_thread os current t) ctx.arg0 t.joiner
  ok (os', reschedules)

created : Os → ℕ → Process → Option Thread → Os × SyscallResult
created os pid p none = (set_process os pid p, returns minus_one)
created os pid p (some t) = (
  push_active (set_process os pid p) (record t { state = ThreadState.ready }),
  returns (to_word t.tid),
)

pub handle_thread_create : Os → SyscallContext → Result (Os × SyscallResult)
unfolding created
handle_thread_create os ctx = do
  current ← get_current_thread os
  let pid = (thread_at os current).parent
  (p, t) ← create_thread (os.process_list pid) pid os.system.count ctx.arg0 ctx.arg1
  ok (created os pid p t)
