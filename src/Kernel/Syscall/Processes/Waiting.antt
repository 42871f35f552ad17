-- ===== src/Kernel/Syscall/Processes/Waiting.antt =====
-- A thread that joins a process waits until it has ended.
use rv32umos.Base.{
  ℕ, ◌<◌, ◌≡◌, refl, ◌∙◌, arith, true, false, contains, contains-append, none, ok, ◌==◌, ltb,
  update, ℤ, pos,
}
use rv32umos.Kernel.Thread.{ThreadState}
use rv32umos.Kernel.Process.{max_process}
use rv32umos.Kernel.Os.{Os, thread_at, table_of, terminate}
use rv32umos.Kernel.Os.Current.{running, current-running}
use rv32umos.Kernel.Os.Ending.{Backed, terminate_lem}
use rv32umos.Kernel.Syscall.Context.{SyscallContext, returns, minus_one, reschedules}
use rv32umos.Kernel.Syscall.Processes.{handle_join_process, join_process, store_code, waiting}

-- A process that is not active and has no exit code cannot be joined.
join_gone :
    (os : Os) (ctx : SyscallContext)
    → ctx.arg0 < max_process
    → (os.process_list ctx.arg0).active ≡ false
    → os.exit_codes ctx.arg0 ≡ none
    → handle_join_process os ctx ≡ ok (os, returns minus_one)
unfolding handle_join_process join_process
join_gone os ctx lt gone no_code =
    let inside : ltb ctx.arg0 max_process ≡ true = ground (arith, lt) in
    rw (no_code, inside, gone) refl

-- Joining a process that is active, has left no exit code behind and has its mapped pages in the
-- 16 frames blocks the thread; when the process ends, the thread is ready, its call, which it
-- makes again, returns 1 (here for a caller that gives no address for the exit code), and one that
-- joins once more gets -1.
pub handle_join_process-terminate :
    (os : Os) (i : ℕ) (ctx : SyscallContext) (code : ℤ)
    → i < os.system.count
    → ctx.arg0 < max_process
    → ctx.arg1 ≡ 0
    → (os.process_list ctx.arg0).active ≡ true
    → os.exit_codes ctx.arg0 ≡ none
    → Backed (table_of os ctx.arg0)
    → os.frames.total_frames ≡ 16
    → (os₁ : Os) × (handle_join_process (running os i) ctx ≡ ok (os₁, reschedules))
      × ((thread_at os₁ i).state ≡ ThreadState.blocked)
      × ((os₂ : Os) × (terminate os₁ (pos ctx.arg0) code ≡ ok (os₂, true))
          × ((thread_at os₂ i).state ≡ ThreadState.ready)
          × ((os₃ : Os) × (handle_join_process os₂ ctx ≡ ok (os₃, returns 1))
              × (handle_join_process os₃ ctx ≡ ok (os₃, returns minus_one))))
unfolding handle_join_process join_process store_code
handle_join_process-terminate os i ctx code lt pid_lt no_status active no_code backed total =
    let inside : ltb ctx.arg0 max_process ≡ true = ground (arith, pid_lt) in
    let i_i : (i == i) ≡ true = ground arith in
    let here : (ctx.arg0 == ctx.arg0) ≡ true = ground arith in
    let os₁ : Os = waiting (running os i) ctx.arg0 i in
    let (os₂, e, states, code_kept, _, gone) =
      terminate_lem os₁ ctx.arg0 code pid_lt active backed total in
    let listed : contains (os₁.process_waiters ctx.arg0) i ≡ true =
      rw here (contains-append (os.process_waiters ctx.arg0) i i ∙ rw i_i refl) in
    let os₃ : Os = record os₂ { exit_codes = update os₂.exit_codes ctx.arg0 none } in
    (
      os₁,
      rw (no_code, inside, active, current-running os i lt) refl,
      rw i_i refl,
      (
        os₂,
        e,
        states i ∙ rw listed refl,
        (os₃, rw (code_kept, no_status) refl, join_gone os₃ ctx pid_lt gone (rw here refl)),
      ),
    )
