-- ===== src/Kernel/Thread.antt =====
-- thread/Thread.hpp and thread/Thread.cpp: the control block of a thread. Other threads are numbers
-- in place of pointers, and the process is its pid. The getters and setters are the record's fields.
use rv32umos.Base.{ℕ, Bool, false, Option, none, Result, ok, ◌>>=◌, ℤ, pos}
use rv32umos.Vm.RegFile
use rv32umos.Vm.RegFile.{RegFile}

pub data ThreadState : Type 0 where
  new ready running blocked terminated : ThreadState

pub record Thread : Type 0 where
  pub joiner : Option ℕ
  pub has_been_joined : Bool
  pub tid : ℤ
  pub exit_code : ℤ
  pub state : ThreadState
  pub pc : ℕ
  pub regs : RegFile
  pub parent : ℕ
  pub stack_top : ℕ

-- `regs` is what the new register file holds before the constructor resets it.
unfoldable pub new_thread : RegFile → ℤ → ℕ → ℕ → ℕ → Result Thread
new_thread regs id parent entry stack = do
  r ← RegFile.write (RegFile.reset regs) 2 stack
  ok (record {
    joiner = none;
    has_been_joined = false;
    tid = id;
    exit_code = pos 0;
    state = ThreadState.new;
    pc = entry;
    regs = r;
    parent = parent;
    stack_top = stack;
  })
