-- ===== src/Kernel/Syscall/Tests.antt =====
-- Threads 0 and 1 of process 0; process 1 is active and has no page.
use rv32umos.Base.{
  ℕ, ◌≡◌, ◌≢◌, refl, arith, true, false, contains, ◌==◌, none, some, [], ◌∷◌, inr, ok,
  if◌then◌else◌, pos, add32,
}
use rv32umos.Vm.Mmu
use rv32umos.Vm.PageTable.{fresh}
use rv32umos.Vm.Machine.{stack_top}
use rv32umos.Kernel.Frames
use rv32umos.Vm.RegFile.Laws.{written}
use rv32umos.Kernel.Scheduler.{System, context_switch}
use rv32umos.Kernel.Scheduler.Away.{Away, here, next, runs, switch-index}
use rv32umos.Kernel.Thread.{Thread, ThreadState}
use rv32umos.Kernel.Process.{new_process}
use rv32umos.Kernel.Os.{Os, thread_at, set_table, table_of, terminate, recycle}
use rv32umos.Kernel.Os.Current.{running}
use rv32umos.Kernel.Os.Ending.{Backed, released, terminate_lem}
use rv32umos.Kernel.Os.Recycling.{terminate-recycle}
use rv32umos.Kernel.Syscall.Context.{SyscallContext, returns, minus_one, reschedules}
use rv32umos.Kernel.Syscall.Threads.{
  find_thread, join_found, wait_for, handle_thread_join, handle_thread_exit,
}
use rv32umos.Kernel.Syscall.Threads.Joining.{
  Asks, handle_thread_join-handle_thread_exit, handle_thread_exit-join_found,
}
use rv32umos.Kernel.Syscall.Processes.{handle_join_process}
use rv32umos.Kernel.Syscall.Processes.Waiting.{handle_join_process-terminate}
use rv32umos.Kernel.Boot.Start.{started}

abbrev thread : ℕ → Thread
thread i = record {
  state = ThreadState.ready;
  regs = record { regs = λ i. 0 };
  tid = pos i;
  parent = 0;
  pc = 0x400000;
  stack_top = stack_top;
  has_been_joined = false;
  joiner = none;
  exit_code = pos 0;
}

abbrev two_threads : Os
two_threads = record (started (thread 0)) {
  system = record (started (thread 0)).system { active_threads = thread; count = 2 };
  process_list = λ pid. record (new_process []) { active = pid == 1 };
}

-- Exit code 5 of a thread; and process 1, with no place for its code.
abbrev five : SyscallContext
five = record { id = 4; arg0 = 5; arg1 = 0; arg2 = 0; arg3 = 0; arg4 = 0; arg5 = 0 }

abbrev one : SyscallContext
one = record { id = 14; arg0 = 1; arg1 = 0; arg2 = 0; arg3 = 0; arg4 = 0; arg5 = 0 }

-- Thread 0 runs and joins thread 1, whose thread id is 1; that runs to its pc 64.
abbrev calling : Os
calling = record two_threads {
  system = record two_threads.system { current_thread_index = pos 0 };
  process_list = λ pid. record (new_process []) { threads = 0 ∷ 1 ∷ [] };
}

abbrev away : System
away = context_switch (wait_for calling 0 1).system 1

abbrev exiting : Os
exiting = record calling { system = record away { cpu = record away.cpu { pc = 64 } } }

one-Asks : Asks calling 0 1 one
unfolding find_thread
one-Asks = record {
  runs = refl;
  there = omega arith;
  target = refl;
  target_there = omega arith;
  other = refl;
  fresh = refl;
  alive = refl;
}

one_ne-zero : ◌≢◌ {A = ℕ} 1 0
one_ne-zero q = omega arith

absent : Away 0 away exiting.system
absent = next here (
    runs exiting.system.cpu exiting.system.active_threads exiting.system.count refl (omega arith)
      refl refl (λ t h. h))

handle_thread_join-handle_thread_exit_example :
    (handle_thread_join calling one ≡ ok (wait_for calling 0 1, reschedules))
    × ((thread_at (wait_for calling 0 1) 0).state ≡ ThreadState.blocked)
    × ((os'' : Os) × (handle_thread_exit exiting five ≡ ok (os'', reschedules))
        × ((thread_at os'' 0).state ≡ ThreadState.ready)
        × ((thread_at os'' 1).state ≡ ThreadState.terminated)
        × ((context_switch os''.system 0).cpu.regs ≡ written calling.system.cpu.regs 10 5)
        × ((context_switch os''.system 0).cpu.pc ≡ add32 calling.system.cpu.pc 4))
handle_thread_join-handle_thread_exit_example =
    handle_thread_join-handle_thread_exit calling exiting 0 1 1 one five one-Asks one_ne-zero absent
      (switch-index (wait_for calling 0 1).system 1)

handle_thread_exit-join_found_example :
    (os' : Os) × (handle_thread_exit (running two_threads 1) five ≡ ok (os', reschedules))
    × ((join_found os' 0 (some 1)).1 ≡ returns 5)
handle_thread_exit-join_found_example =
    handle_thread_exit-join_found two_threads 0 1 five (omega arith) (omega arith) refl refl refl
      (omega arith)

no_page : Backed (table_of two_threads 1)
unfolding Mmu.reset Backed
no_page = tt

terminate_lem_example :
    (os' : Os) × (terminate two_threads (pos 1) (pos 9) ≡ ok (os', true))
    × ((j : ℕ)
        → (thread_at os' j).state ≡ (
            if contains (two_threads.process_waiters 1) j
            then ThreadState.ready
            else if contains (two_threads.process_list 1).threads j
            then ThreadState.terminated
            else (thread_at two_threads j).state))
    × (os'.exit_codes 1 ≡ some (pos 9))
    × (os'.process_waiters 1 ≡ [])
    × ((os'.process_list 1).active ≡ false)
unfolding Frames.init
terminate_lem_example = terminate_lem two_threads 1 (pos 9) (omega arith) refl no_page refl

-- Page 1024 of process 1 is in frame 3.
abbrev mapped_page : Os
mapped_page = set_table two_threads 1 ((1024, record fresh { ppn = 3; valid = true }) ∷ [])

one_page : Backed (table_of mapped_page 1)
unfolding Backed
one_page = (inr (omega arith), tt)

terminate-recycle_example :
    (os₁ : Os) × (terminate mapped_page (pos 1) (pos 9) ≡ ok (os₁, true))
    × ((os₂ : Os) × (recycle os₁ 1 [] ≡ ok os₂)
        × (os₂.frames.free_frames
            ≡ released
                (table_of mapped_page 1)
                (released (table_of mapped_page 1) mapped_page.frames.free_frames)))
unfolding Frames.init
terminate-recycle_example =
    terminate-recycle mapped_page 1 (pos 9) [] (omega arith) refl one_page refl

handle_join_process-terminate_example :
    (os₁ : Os) × (handle_join_process (running two_threads 0) one ≡ ok (os₁, reschedules))
    × ((thread_at os₁ 0).state ≡ ThreadState.blocked)
    × ((os₂ : Os) × (terminate os₁ (pos 1) (pos 9) ≡ ok (os₂, true))
        × ((thread_at os₂ 0).state ≡ ThreadState.ready)
        × ((os₃ : Os) × (handle_join_process os₂ one ≡ ok (os₃, returns 1))
            × (handle_join_process os₃ one ≡ ok (os₃, returns minus_one))))
unfolding Frames.init
handle_join_process-terminate_example =
    handle_join_process-terminate two_threads 0 one (pos 9) (omega arith) (omega arith) refl refl
      refl no_page refl
