-- ===== src/Vm/Executor.antt =====
-- rv32vm/Executor.cpp and Executor.hpp: a module for each group of instructions, and ECALL here.
-- The laws are in the modules below.
pub mod Immediate
pub mod Register
pub mod MulDiv
pub mod Access
pub mod Jump
use rv32umos.Base.{ℕ, Result, ok, ◌>>=◌, ltb, if◌then◌else◌}
use rv32umos.Vm.Machine.{Machine, TrapType, read_reg, set_trap}

-- SYS_UNKNOWN of syscall/SyscallDefinition.hpp, which is -1, as a word.
abbrev pub sys_unknown : ℕ
sys_unknown = 0xffff_ffff

-- The trap's value for the system call numbered by a7; sysCallNameMap has the numbers 0 to 14.
abbrev pub syscall_id : ℕ → ℕ
syscall_id a7 = if ltb a7 15 then a7 else sys_unknown

unfoldable pub exec_ecall : Machine → Result Machine
exec_ecall cpu = do a7 ← read_reg cpu 17; ok (set_trap cpu TrapType.syscall (syscall_id a7))
