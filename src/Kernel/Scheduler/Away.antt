-- ===== src/Kernel/Scheduler/Away.antt =====
-- What may happen while a thread is away from the processor.
use rv32umos.Base.{
  ℕ, ◌≤◌, ◌<◌, ◌≡◌, ◌≢◌, ◌∙◌, refl, sym, ap, subst, arith, false, some, ◌==◌, pos, negsuc, ℤ,
  Bool-cases, inl, inr,
}
use rv32umos.Vm.RegFile.{RegFile}
use rv32umos.Vm.Machine.{Machine}
use rv32umos.Kernel.Thread.{Thread}
use rv32umos.Kernel.Scheduler.{System, is_terminated, saved, leave, context_switch}
use rv32umos.Kernel.Scheduler.Laws.{
  context_switch-context, context_switch-other, leave-other, leave_self,
}

-- One thing that happens while thread i is away. The scheduler switches to another thread; or
-- instructions, system calls and page faults of the thread that runs change the processor and the
-- threads, of which there may be more then, but not the registers and the pc that are saved for
-- thread i, and no thread that i joins is given another joiner.
pub data Step (i : ℕ) (s s' : System) : Type 0 where
  switches : (j : ℕ) → j ≢ i → s' ≡ context_switch s j → Step i s s'
  runs :
      (cpu : Machine) (threads : ℕ → Thread) (count : ℕ)
      → s' ≡ record s { cpu = cpu; active_threads = threads; count = count }
      → s.count ≤ count
      → (threads i).regs ≡ (s.active_threads i).regs
      → (threads i).pc ≡ (s.active_threads i).pc
      → ((t : ℕ) → (s.active_threads t).joiner ≡ some i → (threads t).joiner ≡ some i)
      → Step i s s'

-- Any sequence of these.
pub data Away (i : ℕ) (s : System) : System → Type 0 where
  here : Away i s s
  next : {s' s'' : System} → Away i s s' → Step i s' s'' → Away i s s''

-- The context of a thread that is away.
pub record IsSaved (i : ℕ) (regs : RegFile) (pc : ℕ) (s : System) : Type 0 where
  pub current : ℕ
  pub index : s.current_thread_index ≡ pos current
  pub other : current ≢ i
  pub regs_kept : (s.active_threads i).regs ≡ regs
  pub pc_kept : (s.active_threads i).pc ≡ pc

pub switch-index : (s : System) (j : ℕ) → (context_switch s j).current_thread_index ≡ pos j
unfolding context_switch
switch-index s j = refl

-- A switch away from thread i saves its context.
pub leaves-IsSaved :
    (s : System) (i j : ℕ)
    → s.current_thread_index ≡ pos i
    → j ≢ i
    → is_terminated (s.active_threads i).state ≡ false
    → IsSaved i s.cpu.regs s.cpu.pc (context_switch s j)
leaves-IsSaved s i j e n alive =
    let differ : i ≢ j = λ q. n (sym q) in
    let kept : (context_switch s j).active_threads i ≡ leave s (pos i) i =
      context_switch-other s j i differ ∙ ap (λ z. leave s z i) e in
    record {
      current = j;
      index = switch-index s j;
      other = n;
      regs_kept = ap (λ (t : Thread). t.regs) kept ∙ (leave_self s i alive).0;
      pc_kept = ap (λ (t : Thread). t.pc) kept ∙ (leave_self s i alive).1;
    }

module _ (i : ℕ) (regs : RegFile) (pc : ℕ) where
  -- Another switch leaves it alone.
  switch-IsSaved :
      (s : System) (j : ℕ) → j ≢ i → IsSaved i regs pc s → IsSaved i regs pc (context_switch s j)
  switch-IsSaved s j n h =
      let kept : (context_switch s j).active_threads i ≡ s.active_threads i =
        context_switch-other s j i (λ q. n (sym q))
        ∙ ap (λ z. leave s z i) h.index
        ∙ leave-other s h.current i (λ q. h.other (sym q)) in
      record {
        current = j;
        index = switch-index s j;
        other = n;
        regs_kept = ap (λ (t : Thread). t.regs) kept ∙ h.regs_kept;
        pc_kept = ap (λ (t : Thread). t.pc) kept ∙ h.pc_kept;
      }

  Step-IsSaved : (s s' : System) → Step i s s' → IsSaved i regs pc s → IsSaved i regs pc s'
  Step-IsSaved s s' (switches j n e) h = subst (IsSaved i regs pc) (sym e) (switch-IsSaved s j n h)
  Step-IsSaved s s' (runs cpu threads count e more er ep joiners) h =
      subst (IsSaved i regs pc) (sym e) (record {
        current = h.current;
        index = h.index;
        other = h.other;
        regs_kept = er ∙ h.regs_kept;
        pc_kept = ep ∙ h.pc_kept;
      })

  pub Away-IsSaved : {s s' : System} → Away i s s' → IsSaved i regs pc s → IsSaved i regs pc s'
  Away-IsSaved here h = h
  Away-IsSaved (next r st) h = Step-IsSaved _ _ st (Away-IsSaved r h)

saved-joiner : (cpu : Machine) (t : Thread) → (saved cpu t).joiner ≡ t.joiner
unfolding saved
saved-joiner cpu t = elim (Bool-cases (is_terminated t.state)) [
  | inl ended ↦ rw ended refl
  | inr alive ↦ rw alive refl
]

leave-joiner : (s : System) (k : ℤ) (t : ℕ) → (leave s k t).joiner ≡ (s.active_threads t).joiner
unfolding leave
leave-joiner s (negsuc k) t = refl
leave-joiner s (pos k) t = elim (Bool-cases (t == k)) [
  | inl same ↦ rw same (
      saved-joiner s.cpu (s.active_threads k)
      ∙ ap (λ (z : ℕ). (s.active_threads z).joiner) {x = k} {y = t} (ground arith))
  | inr differ ↦ rw differ refl
]

-- A switch gives no thread another joiner, and there are as many threads as before.
pub switch-joiner :
    (s : System) (j t : ℕ)
    → (((context_switch s j).active_threads t).joiner ≡ (s.active_threads t).joiner)
      × ((context_switch s j).count ≡ s.count)
unfolding context_switch
switch-joiner s j t = elim (Bool-cases (t == j)) [
  | inl same ↦ (
    rw same (
        leave-joiner s s.current_thread_index j
        ∙ ap (λ (z : ℕ). (s.active_threads z).joiner) {x = j} {y = t} (ground arith)),
    refl,
  )
  | inr differ ↦ (rw differ (leave-joiner s s.current_thread_index t), refl)
]

-- A thread that there is and that thread i has joined.
pub record IsJoined (i t : ℕ) (s : System) : Type 0 where
  pub there : t < s.count
  pub joiner : (s.active_threads t).joiner ≡ some i

pub switch-IsJoined :
    (i t : ℕ) (s : System) (j : ℕ) → IsJoined i t s → IsJoined i t (context_switch s j)
switch-IsJoined i t s j h = record {
  there = omega (arith, (switch-joiner s j t).1, h.there);
  joiner = (switch-joiner s j t).0 ∙ h.joiner;
}

Step-IsJoined : (i t : ℕ) (s s' : System) → Step i s s' → IsJoined i t s → IsJoined i t s'
Step-IsJoined i t s s' (switches j n e) h = subst (IsJoined i t) (sym e) (switch-IsJoined i t s j h)
Step-IsJoined i t s s' (runs cpu threads count e more er ep joiners) h =
    subst (IsJoined i t) (sym e)
      (record { there = omega (arith, more, h.there); joiner = joiners t h.joiner })

pub Away-IsJoined : {i t : ℕ} {s s' : System} → Away i s s' → IsJoined i t s → IsJoined i t s'
Away-IsJoined here h = h
Away-IsJoined (next r st) h = Step-IsJoined _ _ _ _ st (Away-IsJoined r h)

-- A switch back loads the context.
pub returns-IsSaved :
    (s : System) (i : ℕ) (regs : RegFile) (pc : ℕ)
    → IsSaved i regs pc s
    → ((context_switch s i).cpu.regs ≡ regs) × ((context_switch s i).cpu.pc ≡ pc)
returns-IsSaved s i regs pc h =
    let kept : leave s s.current_thread_index i ≡ s.active_threads i =
      ap (λ z. leave s z i) h.index ∙ leave-other s h.current i (λ q. h.other (sym q)) in
    (
      (context_switch-context s i).0 ∙ ap (λ (t : Thread). t.regs) kept ∙ h.regs_kept,
      (context_switch-context s i).1 ∙ ap (λ (t : Thread). t.pc) kept ∙ h.pc_kept,
    )

-- A thread that has not been terminated and leaves the processor for another one gets its registers
-- and its pc back when it is switched to again, after any sequence of switches to other threads and
-- of changes of the processor and of the threads in which nothing writes to its saved registers and
-- pc (as the exit of a thread that it joins does).
pub context_switch-restores :
    (s s' : System) (i j : ℕ)
    → s.current_thread_index ≡ pos i
    → j ≢ i
    → is_terminated (s.active_threads i).state ≡ false
    → Away i (context_switch s j) s'
    → let back = context_switch s' i in (back.cpu.regs ≡ s.cpu.regs) × (back.cpu.pc ≡ s.cpu.pc)
context_switch-restores s s' i j e n alive away =
    returns-IsSaved s' i s.cpu.regs s.cpu.pc
      (Away-IsSaved i s.cpu.regs s.cpu.pc away (leaves-IsSaved s i j e n alive))
