-- ===== src/Kernel/Syscall/Context.antt =====
-- syscall/SyscallDefinition.hpp: what a system call is given and what it answers.
use rv32umos.Base.{ℕ, ◌-◌, ◌^◌, Bool, true, false}

-- `id` is the trap's value, a word; 0xffffffff is SYS_UNKNOWN. Of the six arguments no handler reads
-- the last three.
pub record SyscallContext : Type 0 where
  pub id : ℕ
  pub arg0 : ℕ
  pub arg1 : ℕ
  pub arg2 : ℕ
  pub arg3 : ℕ
  pub arg4 : ℕ
  pub arg5 : ℕ

pub record SyscallResult : Type 0 where
  pub return_value : ℕ
  pub has_return_value : Bool
  pub error : Bool
  pub need_reschedule : Bool
  pub advance_pc : Bool

-- A `result` with the default members and a return value.
abbrev pub returns : ℕ → SyscallResult
returns value = record {
  return_value = value;
  has_return_value = true;
  error = false;
  need_reschedule = false;
  advance_pc = true;
}

-- (Word)-1
abbrev pub minus_one : ℕ
minus_one = 2 ^ 32 - 1

-- What the handlers return that leave the processor: no value, and the pc stays.
abbrev pub reschedules : SyscallResult
reschedules = record (returns 0) {
  has_return_value = false;
  need_reschedule = true;
  advance_pc = false;
}

-- What ends the process that made the call.
abbrev pub fails : SyscallResult
fails = record (returns minus_one) { error = true }
