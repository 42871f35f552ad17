-- ===== src/Kernel/Syscall.antt =====
-- syscall/SyscallHandler.hpp and `dispatch` of syscall/SyscallHandler.cpp. The handlers are in the
-- modules below. Log lines and counters are left out.
pub mod Context
pub mod Threads
pub mod Mutexes
pub mod Files
pub mod Processes
pub mod Tests
use rv32umos.Base.{ℕ, Result, stop, panic, ◌==◌, if◌then◌else◌}
use rv32umos.Kernel.Os.{Os}
use rv32umos.Kernel.Host.{Host}
use Context.{SyscallContext, SyscallResult}
use Threads.{handle_thread_create, handle_thread_exit, handle_thread_join}
use Mutexes.{handle_mutex_create, handle_mutex_lock, handle_mutex_unlock}
use Files.{handle_write, handle_read, handle_open, handle_close, handle_create}
use Processes.{handle_exit, handle_sbrk, handle_create_process, handle_join_process}

-- The switch, by the numbers of SyscallID.
pub dispatch : Host → Os → SyscallContext → Result (Os × SyscallResult)
dispatch host os ctx =
    if ctx.id == 0
    then handle_exit os ctx
    else if ctx.id == 1
    then handle_write host os ctx
    else if ctx.id == 2
    then handle_read host os ctx
    else if ctx.id == 3
    then handle_thread_create os ctx
    else if ctx.id == 4
    then handle_thread_exit os ctx
    else if ctx.id == 5
    then handle_thread_join os ctx
    else if ctx.id == 6
    then handle_mutex_create os ctx
    else if ctx.id == 7
    then handle_mutex_lock os ctx
    else if ctx.id == 8
    then handle_mutex_unlock os ctx
    else if ctx.id == 9
    then handle_open os ctx
    else if ctx.id == 10
    then handle_close os ctx
    else if ctx.id == 11
    then handle_create os ctx
    else if ctx.id == 12
    then handle_sbrk os ctx
    else if ctx.id == 13
    then handle_create_process host os ctx
    else if ctx.id == 14
    then handle_join_process os ctx
    else stop panic
