-- ===== src/Kernel/Syscall/Processes.antt =====
-- The handlers of syscall/SyscallHandler.cpp for processes and the heap.
pub mod Waiting
use rv32umos.Base.{
  ℕ, not, ◌&&◌, ◌++◌, [], ◌∷◌, Option, none, some, Result, ok, stop, panic, ◌>>=◌, ◌==◌, ltb,
  if◌then◌else◌, update, ℤ, pos, signed, to_word,
}
use rv32umos.Vm.Machine.{store_virtual_memory}
use rv32umos.Kernel.Thread.{ThreadState}
use rv32umos.Kernel.Process.{sbrk, max_process}
use rv32umos.Kernel.Os.{
  Os, thread_at, set_process, set_state, set_cpu, get_current_thread, terminate,
}
use rv32umos.Kernel.Host.{Host}
use rv32umos.Kernel.Loader.{load_elf}
use rv32umos.Kernel.Syscall.Context.{SyscallContext, SyscallResult, returns, minus_one, reschedules}
use rv32umos.Kernel.Syscall.Files.{read_name}

pub handle_exit : Os → SyscallContext → Result (Os × SyscallResult)
handle_exit os ctx = do
  current ← get_current_thread os
  (os', done) ← terminate os (pos (thread_at os current).parent) (signed 32 ctx.arg0)
  if done then ok (os', reschedules) else stop panic

pub handle_sbrk : Os → SyscallContext → Result (Os × SyscallResult)
handle_sbrk os ctx = do
  current ← get_current_thread os
  let pid = (thread_at os current).parent
  let (p, old_break) = sbrk (os.process_list pid) (signed 32 ctx.arg0)
  ok (set_process os pid p, returns (if old_break == 0 then minus_one else old_break))

-- A pid of -1 is the word `minus_one`.
pub handle_create_process : Host → Os → SyscallContext → Result (Os × SyscallResult)
handle_create_process host os ctx = do
  (os', filename) ← read_name os ctx.arg0
  (os'', pid) ← load_elf host os' filename
  ok (os'', returns (to_word pid))

-- The exit code goes to the address that the caller gave, unless it is 0.
store_code : Os → ℕ → ℤ → Result Os
store_code os status_ptr exit_code = if status_ptr == 0 then ok os else (do
  cpu ← store_virtual_memory os.system.cpu status_ptr 4 (to_word exit_code)
  ok (set_cpu os cpu))

abbrev waiting : Os → ℕ → ℕ → Os
waiting os pid current = record (set_state os current ThreadState.blocked) {
  process_waiters = update os.process_waiters pid (os.process_waiters pid ++ (current ∷ []));
}

-- By whether the map has an exit code for the pid.
pub join_process : Os → SyscallContext → Option ℤ → Result (Os × SyscallResult)
unfolding store_code
join_process os ctx (some exit_code) = do
  os' ← store_code os ctx.arg1 exit_code
  ok (record os' { exit_codes = update os'.exit_codes ctx.arg0 none }, returns 1)
join_process os ctx none =
    if not (ltb ctx.arg0 max_process && (os.process_list ctx.arg0).active)
    then ok (os, returns minus_one)
    else (do current ← get_current_thread os; ok (waiting os ctx.arg0 current, reschedules))

pub handle_join_process : Os → SyscallContext → Result (Os × SyscallResult)
unfolding join_process
handle_join_process os ctx = join_process os ctx (os.exit_codes ctx.arg0)
