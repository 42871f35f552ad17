-- ===== src/Kernel/Syscall/Mutexes.antt =====
-- The handlers of syscall/SyscallHandler.cpp for mutexes.
use rv32umos.Base.{
  ℕ, Option, none, some, Result, ok, ◌>>=◌, if◌then◌else◌, set, pos_part, signed, u32,
}
use rv32umos.Kernel.Mutex.{Mutex, States, acquire, release}
use rv32umos.Kernel.Process.{create_mutex, get_mutex}
use rv32umos.Kernel.Os.{Os, thread_at, set_process, get_current_thread}
use rv32umos.Kernel.Syscall.Context.{SyscallContext, SyscallResult, returns, reschedules, fails}

abbrev pub states_of : Os → States
states_of os i = (thread_at os i).state

abbrev pub set_states : Os → States → Os
set_states os states = record os {
  system = record os.system {
    active_threads = λ i. record (os.system.active_threads i) { state = states i };
  };
}

-- The mutex of a process changes where it is, and with it the states of threads.
abbrev pub set_mutex : Os → ℕ → ℕ → Mutex → States → Os
set_mutex os pid id m states =
    set_states
      (set_process os pid
        (record (os.process_list pid) { mutex_list = set (os.process_list pid).mutex_list id m }))
      states

pub handle_mutex_create : Os → SyscallContext → Result (Os × SyscallResult)
handle_mutex_create os ctx = do
  current ← get_current_thread os
  let pid = (thread_at os current).parent
  let (p, mutex_id) = create_mutex (os.process_list pid)
  ok (set_process os pid p, returns (u32 mutex_id))

lock_found : Os → ℕ → ℕ → ℕ → Option Mutex → Os × SyscallResult
lock_found os current pid id none = (os, fails)
lock_found os current pid id (some lock) =
    let (lock', states, acquired) = acquire lock (states_of os) current in
    (set_mutex os pid id lock' states, if acquired then returns 0 else reschedules)

pub handle_mutex_lock : Os → SyscallContext → Result (Os × SyscallResult)
unfolding lock_found
handle_mutex_lock os ctx = do
  current ← get_current_thread os
  let pid = (thread_at os current).parent
  let id = signed 32 ctx.arg0
  ok (lock_found os current pid (pos_part id) (get_mutex (os.process_list pid) id))

unlock_found : Os → ℕ → ℕ → ℕ → Option Mutex → Os × SyscallResult
unlock_found os current pid id none = (os, fails)
unlock_found os current pid id (some lock) =
    let (lock', states, success) = release lock (states_of os) current in
    (set_mutex os pid id lock' states, if success then returns 0 else fails)

pub handle_mutex_unlock : Os → SyscallContext → Result (Os × SyscallResult)
unfolding unlock_found
handle_mutex_unlock os ctx = do
  current ← get_current_thread os
  let pid = (thread_at os current).parent
  let id = signed 32 ctx.arg0
  ok (unlock_found os current pid (pos_part id) (get_mutex (os.process_list pid) id))
