-- ===== src/Kernel/Syscall/Threads/Joining.antt =====
-- A thread that joins another one gets its exit code, whichever of the two comes first.
use rv32umos.Base.{
  ℕ, ◌^◌, ◌<◌, ◌≡◌, ◌≢◌, refl, sym, ap, arith, pos, true, false, ◌==◌, Option, none, some, ok,
  add32, eqb_ℤ, eqb_ℤ-refl, signed, to_word-signed,
}
use rv32umos.Vm.RegFile.{RegFile, write}
use rv32umos.Vm.RegFile.Laws.{written}
use rv32umos.Kernel.Thread.{Thread, ThreadState}
use rv32umos.Kernel.Scheduler.{is_terminated, context_switch}
use rv32umos.Kernel.Scheduler.Away.{
  Away, IsSaved, IsJoined, leaves-IsSaved, Away-IsSaved, Away-IsJoined, switch-IsJoined,
  returns-IsSaved,
}
use rv32umos.Kernel.Os.{Os, thread_at, set_thread, get_current_thread}
use rv32umos.Kernel.Os.Current.{running, current-index, current-running}
use rv32umos.Kernel.Syscall.Context.{SyscallContext, returns, reschedules}
use rv32umos.Kernel.Syscall.Threads.{
  find_thread, join_found, wait_for, wake_joiner, handle_thread_join, handle_thread_exit,
}

-- What `handle_thread_exit` leaves: the thread that waits goes on behind its call.
abbrev exited : Thread → ℕ → Thread
exited t code = record t { state = ThreadState.terminated; exit_code = signed 32 code }

abbrev woken : Thread → ℕ → Thread
woken t code = record t {
  state = ThreadState.ready;
  regs = written t.regs 10 code;
  pc = add32 t.pc 4;
}

-- The state when thread `t` has exited, by who waits for it.
abbrev left : Os → ℕ → ℕ → Os
left os t code = set_thread os t (exited (thread_at os t) code)

abbrev after_exit : Os → ℕ → ℕ → Option ℕ → Os
after_exit os t code none = left os t code
after_exit os t code (some j) =
    set_thread (left os t code) j (woken (thread_at (left os t code) j) code)

exit_lem :
    (os : Os) (t : ℕ) (ctx : SyscallContext) (o : Option ℕ)
    → get_current_thread os ≡ ok t
    → (thread_at os t).joiner ≡ o
    → handle_thread_exit os ctx ≡ ok (after_exit os t ctx.arg0 o, reschedules)
unfolding handle_thread_exit wake_joiner write
exit_lem os t ctx none current e = rw (current, e) refl
exit_lem os t ctx (some j) current e = rw (current, e) refl

-- A thread has one thread id.
tids-differ : (os : Os) (i t : ℕ) → eqb_ℤ (thread_at os t).tid (thread_at os i).tid ≡ false → t ≢ i
tids-differ os i t tids q =
    let same : eqb_ℤ (thread_at os i).tid (thread_at os i).tid ≡ true =
      eqb_ℤ-refl (thread_at os i).tid in
    absurd (cc (sym tids, ap (λ (z : ℕ). eqb_ℤ (thread_at os z).tid (thread_at os i).tid) q, same))

-- Thread i, which runs, asks to join thread t.
pub record Asks (os : Os) (i t : ℕ) (ask : SyscallContext) : Type 0 where
  pub runs : os.system.current_thread_index ≡ pos i
  pub there : i < os.system.count
  pub target :
      find_thread os.system.active_threads
        (os.process_list (thread_at os i).parent).threads
        (signed 32 ask.arg0)
      ≡ some t
  pub target_there : t < os.system.count
  pub other : eqb_ℤ (thread_at os t).tid (thread_at os i).tid ≡ false
  pub fresh : (thread_at os t).has_been_joined ≡ false
  pub alive : is_terminated (thread_at os t).state ≡ false

-- The call of the joiner.
join_lem :
    (os : Os) (i t : ℕ) (ask : SyscallContext)
    → Asks os i t ask
    → handle_thread_join os ask ≡ ok (wait_for os i t, reschedules)
unfolding handle_thread_join join_found
join_lem os i t ask h =
    rw (current-index os i h.runs h.there, h.target, h.other, h.fresh, h.alive) refl

wait-IsJoined :
    (os : Os) (i t : ℕ) → t ≢ i → t < os.system.count → IsJoined i t (wait_for os i t).system
unfolding wait_for
wait-IsJoined os i t differ lt =
    let t_i : (t == i) ≡ false = ground (arith, differ) in
    let t_t : (t == t) ≡ true = ground arith in record { there = lt; joiner = rw (t_i, t_t) refl }

wait-leaves :
    (os : Os) (i t j : ℕ)
    → os.system.current_thread_index ≡ pos i
    → j ≢ i
    → ((thread_at (wait_for os i t) i).state ≡ ThreadState.blocked)
      × IsSaved i os.system.cpu.regs os.system.cpu.pc (context_switch (wait_for os i t).system j)
unfolding wait_for
wait-leaves os i t j e n =
    let i_i : (i == i) ≡ true = ground arith in
    (rw i_i refl, leaves-IsSaved (wait_for os i t).system i j e n (rw i_i refl))

-- The exit of thread t writes the code and the pc behind the call to what is saved for thread i.
exit-IsSaved :
    (os : Os) (i t code : ℕ) (regs : RegFile) (pc : ℕ)
    → os.system.current_thread_index ≡ pos t
    → t ≢ i
    → IsSaved i regs pc os.system
    → IsSaved i (written regs 10 code) (add32 pc 4) (after_exit os t code (some i)).system
exit-IsSaved os i t code regs pc e differ h =
    let i_t : (i == t) ≡ false = ground (arith, differ) in
    let i_i : (i == i) ≡ true = ground arith in
    record {
      current = t;
      index = e;
      other = differ;
      regs_kept = rw (i_i, i_t) (ap (λ (r : RegFile). written r 10 code) h.regs_kept);
      pc_kept = rw (i_i, i_t) (ap (λ (z : ℕ). add32 z 4) h.pc_kept);
    }

-- A thread that joins another one, by a call that finds it, that has not ended, has another thread id
-- and has not been joined is blocked, and the scheduler switches to another thread. When the other
-- thread, after any sequence of switches and of changes that leave alone what is saved for the thread
-- that waits and its place as a joiner, runs and exits, the latter is ready and the former has
-- terminated; and when the scheduler then switches back, the processor has the registers that it had
-- at the call, but for the exit code in a0, and the pc behind the call.
pub handle_thread_join-handle_thread_exit :
    (os os' : Os) (i t j : ℕ) (ask bye : SyscallContext)
    → Asks os i t ask
    → j ≢ i
    → Away i (context_switch (wait_for os i t).system j) os'.system
    → os'.system.current_thread_index ≡ pos t
    → (handle_thread_join os ask ≡ ok (wait_for os i t, reschedules))
      × ((thread_at (wait_for os i t) i).state ≡ ThreadState.blocked)
      × ((os'' : Os) × (handle_thread_exit os' bye ≡ ok (os'', reschedules))
          × ((thread_at os'' i).state ≡ ThreadState.ready)
          × ((thread_at os'' t).state ≡ ThreadState.terminated)
          × ((context_switch os''.system i).cpu.regs ≡ written os.system.cpu.regs 10 bye.arg0)
          × ((context_switch os''.system i).cpu.pc ≡ add32 os.system.cpu.pc 4))
handle_thread_join-handle_thread_exit os os' i t j ask bye asks n away e =
    let differ = tids-differ os i t asks.other in
    let t_i : (t == i) ≡ false = ground (arith, differ) in
    let i_i : (i == i) ≡ true = ground arith in
    let t_t : (t == t) ≡ true = ground arith in
    let joined = Away-IsJoined away (
      switch-IsJoined i t (wait_for os i t).system j
        (wait-IsJoined os i t differ asks.target_there)) in
    let (blocked, leaves) = wait-leaves os i t j asks.runs n in
    let kept = Away-IsSaved i os.system.cpu.regs os.system.cpu.pc away leaves in
    let (regs, pc) =
      returns-IsSaved (after_exit os' t bye.arg0 (some i)).system i _ _
        (exit-IsSaved os' i t bye.arg0 os.system.cpu.regs os.system.cpu.pc e differ kept) in
    (
      join_lem os i t ask asks,
      blocked,
      (
        after_exit os' t bye.arg0 (some i),
        exit_lem os' t bye (some i) (current-index os' t e joined.there) joined.joiner,
        rw i_i refl,
        rw (t_i, t_t) refl,
        regs,
        pc,
      ),
    )

-- When a thread that nobody has joined or waits for runs and exits with a word as its code,
-- another thread, with another thread id, that joins it then gets the code at once.
pub handle_thread_exit-join_found :
    (os : Os) (i t : ℕ) (ctx : SyscallContext)
    → t ≢ i
    → t < os.system.count
    → eqb_ℤ (thread_at os t).tid (thread_at os i).tid ≡ false
    → (thread_at os t).has_been_joined ≡ false
    → (thread_at os t).joiner ≡ none
    → ctx.arg0 < 2 ^ 32
    → (os' : Os) × (handle_thread_exit (running os t) ctx ≡ ok (os', reschedules))
      × ((join_found os' i (some t)).1 ≡ returns ctx.arg0)
unfolding join_found
handle_thread_exit-join_found os i t ctx differ lt tids fresh alone word =
    let t_t : (t == t) ≡ true = ground arith in
    let i_t : (i == t) ≡ false = ground (arith, differ) in
    (
      left (running os t) t ctx.arg0,
      exit_lem (running os t) t ctx none (current-running os t lt) alone,
      rw (t_t, i_t) (rw (tids, fresh) (ap returns (to_word-signed ctx.arg0 word))),
    )
