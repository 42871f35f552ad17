-- ===== src/Kernel/Scheduler/Tests.antt =====
-- Three threads of two processes; thread 0 runs, 1 is blocked and 2 is ready.
use rv32umos.Base.{ℕ, ◌≡◌, ◌≢◌, refl, arith, false, none, ◌==◌, if◌then◌else◌, pos, update}
use rv32umos.Vm.Sample.{registers, machine}
use rv32umos.Kernel.Thread.{Thread, ThreadState}
use rv32umos.Kernel.Scheduler.{System, context_switch, preempt}
use rv32umos.Kernel.Scheduler.Laws.{FirstReady, preempt-round_robin}
use rv32umos.Kernel.Scheduler.Away.{Away, here, next, switches, runs, context_switch-restores}
use rv32umos.Kernel.Scheduler.Invariant.{IsSystem, preempt-IsSystem}

abbrev thread_in : ThreadState → ℕ → Thread
thread_in state parent = record {
  joiner = none;
  has_been_joined = false;
  tid = pos 0;
  exit_code = pos 0;
  state = state;
  pc = 128;
  regs = registers;
  parent = parent;
  stack_top = 0x400_0000;
}

abbrev threads : ℕ → Thread
threads i =
    if i == 0
    then thread_in ThreadState.running 0
    else if i == 1
    then thread_in ThreadState.blocked 0
    else thread_in ThreadState.ready 1

abbrev system : System
system = record { active_threads = threads; count = 3; current_thread_index = pos 0; cpu = machine }

second_next : FirstReady threads 3 1 1
second_next = (refl, λ j h. ground arith)

preempt-round_robin_example : preempt system ≡ context_switch system 2
preempt-round_robin_example = preempt-round_robin system 0 1 refl (omega arith) second_next

two_ne-zero : ◌≢◌ {A = ℕ} 2 0
two_ne-zero q = omega arith

-- Thread 2 runs, with its pc at 4 in the end; thread 1 is woken; and the scheduler switches to it.
abbrev gone : System
gone = context_switch system 2

abbrev ran : System
ran = record gone {
  cpu = record gone.cpu { pc = 4 };
  active_threads = update gone.active_threads 1 (thread_in ThreadState.ready 0);
}

one_ne-zero : ◌≢◌ {A = ℕ} 1 0
one_ne-zero q = omega arith

absent : Away 0 gone (context_switch ran 1)
unfolding context_switch
absent =
    next
      (next here
        (runs ran.cpu ran.active_threads 3 refl (omega arith) refl refl (λ t h. ground arith)))
      (switches 1 one_ne-zero refl)

context_switch-restores_example :
    let back = context_switch (context_switch ran 1) 0 in
    (back.cpu.regs ≡ registers) × (back.cpu.pc ≡ 64)
context_switch-restores_example =
    context_switch-restores system (context_switch ran 1) 0 2 refl two_ne-zero refl absent

system-IsSystem : IsSystem system
system-IsSystem = record { mapped = λ i q. ground arith; alone = λ t r. ground arith }

preempt-IsSystem_example : IsSystem (preempt system)
preempt-IsSystem_example = preempt-IsSystem system system-IsSystem
