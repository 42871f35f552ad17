-- ===== src/Kernel/Scheduler/Invariant.antt =====
-- One thread runs at a time, with its process's page table.
use rv32umos.Base.{
  ℕ, ◌≡◌, ◌∙◌, refl, sym, ap, arith, true, false, not, Option, none, some, ◌==◌, if◌then◌else◌, ℤ,
  pos, negsuc, eq→==, Bool-cases, inl, inr,
}
use rv32umos.Vm.Machine.{Machine, set_page_table, set_pc}
use rv32umos.Vm.Mmu
use rv32umos.Kernel.Thread.{Thread, ThreadState}
use rv32umos.Kernel.Scheduler.{
  System, is_running, is_terminated, saved, leave, other_process, context_switch, is_index,
  preempt_to, preempt,
}
use rv32umos.Kernel.Scheduler.Laws.{context_switch-other}

-- The current thread's page table is in use, and no other thread is running.
pub record IsSystem (s : System) : Type 0 where
  pub mapped :
      (i : ℕ)
      → s.current_thread_index ≡ pos i
      → s.cpu.mmu.current_table ≡ some (s.active_threads i).parent
  pub alone :
      (t : ℕ) → is_running (s.active_threads t).state ≡ true → s.current_thread_index ≡ pos t

leave-parent : (s : System) (c : ℤ) (t : ℕ) → (leave s c t).parent ≡ (s.active_threads t).parent
unfolding leave saved
leave-parent s (negsuc i) t = refl
leave-parent s (pos i) t = ground arith

stopped :
    (st : ThreadState)
    → is_running (if is_terminated st then st else if is_running st then ThreadState.ready else st)
      ≡ false
stopped ThreadState.new = refl
stopped ThreadState.ready = refl
stopped ThreadState.running = refl
stopped ThreadState.blocked = refl
stopped ThreadState.terminated = refl

saved-running : (cpu : Machine) (t : Thread) → is_running (saved cpu t).state ≡ false
unfolding saved
saved-running cpu t = elim (Bool-cases (is_terminated t.state)) [
  | inl dead ↦
      ap
        (λ b.
          is_running
            (if b then t else record t {
              regs = cpu.regs;
              pc = cpu.pc;
              state = if is_running t.state then ThreadState.ready else t.state;
            }).state)
        dead
      ∙ ap
          (λ b.
            is_running
              (if b then t.state else if is_running t.state then ThreadState.ready else t.state))
          (sym dead)
      ∙ stopped t.state
  | inr alive ↦
      ap
        (λ b.
          is_running
            (if b then t else record t {
              regs = cpu.regs;
              pc = cpu.pc;
              state = if is_running t.state then ThreadState.ready else t.state;
            }).state)
        alive
      ∙ ap
          (λ b.
            is_running
              (if b then t.state else if is_running t.state then ThreadState.ready else t.state))
          (sym alive)
      ∙ stopped t.state
]

leave-running :
    (s : System) (c : ℤ) (t : ℕ)
    → (is_running (s.active_threads t).state ≡ true → c ≡ pos t)
    → is_running (leave s c t).state ≡ false
unfolding leave
leave-running s (negsuc i) t h = elim (Bool-cases (is_running (s.active_threads t).state)) [
  | inl runs ↦ absurd (cc (h runs))
  | inr rests ↦ rests
]
leave-running s (pos i) t h = elim (Bool-cases (t == i)) [
  | inl same ↦ rw same (saved-running s.cpu (s.active_threads i))
  | inr other ↦ rw other (elim (Bool-cases (is_running (s.active_threads t).state)) [
    | inl runs ↦ let moved : pos i ≡ pos t = h runs in absurd (ground arith)
    | inr rests ↦ rests
  ])
]

switch-mapped :
    (s : System) (j : ℕ) (c : ℤ)
    → s.current_thread_index ≡ c
    → IsSystem s
    → (context_switch s j).cpu.mmu.current_table ≡ some (s.active_threads j).parent
unfolding context_switch set_pc set_page_table Mmu.set_page_table other_process
switch-mapped s j (negsuc i) e h =
    rw (ap (λ c. other_process s c j) e) (ap some (leave-parent s s.current_thread_index j))
switch-mapped s j (pos i) e h =
    elim (Bool-cases ((s.active_threads i).parent == (s.active_threads j).parent)) [
      | inl same ↦
          rw (ap (λ c. other_process s c j) e ∙ ap not same) (h.mapped i e ∙ ap some (ground arith))
      | inr other ↦
          rw (ap (λ c. other_process s c j) e ∙ ap not other)
            (ap some (leave-parent s s.current_thread_index j))
    ]

switch-parent :
    (s : System) (j t : ℕ)
    → ((context_switch s j).active_threads t).parent ≡ (s.active_threads t).parent
unfolding context_switch
switch-parent s j t = elim (Bool-cases (t == j)) [
  | inl same ↦ rw same (
      leave-parent s s.current_thread_index j
      ∙ ap (λ (k : ℕ). (s.active_threads k).parent) (ground arith))
  | inr other ↦ rw other (leave-parent s s.current_thread_index t)
]

context_switch-IsSystem : (s : System) (j : ℕ) → IsSystem s → IsSystem (context_switch s j)
unfolding context_switch
context_switch-IsSystem s j h = record {
  mapped = λ i q.
      switch-mapped s j s.current_thread_index refl h
      ∙ ap (λ (t : ℕ). some (s.active_threads t).parent) (ground arith)
      ∙ ap some (sym (switch-parent s j i));
  alone = λ t r. elim (Bool-cases (t == j)) [
    | inl same ↦ ap pos (ground arith)
    | inr other ↦ absurd (
        cc (
          sym r,
          ap (λ z. is_running z.state)
              (context_switch-other s j t (λ q. cc (sym other, eq→== t j q))),
          leave-running s s.current_thread_index t (h.alone t),
        ))
  ];
}

preempt_to-IsSystem : (s : System) (o : Option ℕ) → IsSystem s → IsSystem (preempt_to s o)
unfolding preempt_to
preempt_to-IsSystem s none h = h
preempt_to-IsSystem s (some j) h = elim (Bool-cases (is_index s.current_thread_index j)) [
  | inl same ↦ rw same h
  | inr other ↦ rw other (context_switch-IsSystem s j h)
]

-- Preemption keeps the current thread's page table in use and every thread but the current one from
-- running.
pub preempt-IsSystem : (s : System) → IsSystem s → IsSystem (preempt s)
unfolding preempt
preempt-IsSystem s h = elim (Bool-cases (s.count == 0)) [
  | inl none_active ↦ rw none_active h
  | inr some_active ↦ rw some_active (preempt_to-IsSystem s _ h)
]
