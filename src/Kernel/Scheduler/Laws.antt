-- ===== src/Kernel/Scheduler/Laws.antt =====
-- Round robin, and the contexts of the threads.
use native.Mathlib.Nat.{mod-add-mod}
use rv32umos.Base.{
  ℕ, zero, suc, ◌+◌, ◌%◌, ◌<◌, ◌≡◌, ◌≢◌, ◌∙◌, refl, sym, ap, arith, true, false, some, ◌==◌,
  if◌then◌else◌, pos, ne→==, eq→==, Bool-cases, inl, inr,
}
use rv32umos.Vm.Machine.{set_page_table, set_pc}
use rv32umos.Kernel.Thread.{Thread}
use rv32umos.Kernel.Scheduler.{
  System, is_ready, is_terminated, find_ready, saved, leave, other_process, context_switch,
  is_index, preempt_to, preempt,
}

-- Among the next `left` threads from `index` on, cyclically, the one at distance k is the first that
-- is ready.
abbrev pub FirstReady : (ℕ → Thread) → ℕ → ℕ → ℕ → Type 0
FirstReady threads count index k =
    (is_ready (threads ((index + k) % count)).state ≡ true)
    × ((j : ℕ) → j < k → is_ready (threads ((index + j) % count)).state ≡ false)

around : (index j count : ℕ) → (index % count + 1 + j) % count ≡ (index + suc j) % count
around index j count =
    ap (λ (t : ℕ). t % count) {x = index % count + 1 + j} {y = index % count + suc j} (omega arith)
    ∙ mod-add-mod index count (suc j)

find_ready_lem :
    (threads : ℕ → Thread) (count left index k : ℕ)
    → k < left
    → FirstReady threads count index k
    → find_ready threads count left index ≡ some ((index + k) % count)
unfolding find_ready
find_ready_lem threads count zero index k lt (r, before) = absurd (omega arith)
find_ready_lem threads count (suc left) index zero lt (r, before) =
    let start : index + 0 ≡ index = omega arith in
    rw (ap (λ (t : ℕ). is_ready (threads (t % count)).state) (sym start) ∙ r) (rw start)
find_ready_lem threads count (suc left) index (suc k) lt (r, before) =
    rw
      (ap (λ (t : ℕ). is_ready (threads (t % count)).state) {x = index} {y = index + 0}
          (omega arith)
        ∙ before 0 (omega arith))
      (find_ready_lem threads count left (index % count + 1) k (omega arith) later
        ∙ ap some (around index k count))
  where
    later : FirstReady threads count (index % count + 1) k
    later = (
      ap (λ (t : ℕ). is_ready (threads t).state) (around index k count) ∙ r,
      λ j h.
          ap (λ (t : ℕ). is_ready (threads t).state) (around index j count)
          ∙ before (suc j) (omega arith),
    )

-- When thread i is current, preemption goes to the first ready thread after it, cyclically, and
-- leaves the processor alone if that is thread i itself.
pub preempt-round_robin :
    (s : System) (i k : ℕ)
    → s.current_thread_index ≡ pos i
    → k < s.count
    → FirstReady s.active_threads s.count (i + 1) k
    → preempt s
      ≡ (if (i + 1 + k) % s.count == i then s else context_switch s ((i + 1 + k) % s.count))
unfolding preempt preempt_to is_index
preempt-round_robin s i k e lt first =
    simp (ne→== s.count 0 (λ q. omega arith), e)
      (rw (find_ready_lem s.active_threads s.count s.count (i + 1) k lt first) (simp e refl))

-- The context that a switch loads.
pub context_switch-context :
    (s : System) (j : ℕ)
    → ((context_switch s j).cpu.regs ≡ (leave s s.current_thread_index j).regs)
      × ((context_switch s j).cpu.pc ≡ (leave s s.current_thread_index j).pc)
unfolding context_switch set_pc set_page_table
context_switch-context s j = elim (Bool-cases (other_process s s.current_thread_index j)) [
  | inl yes_it ↦ rw yes_it (refl, refl)
  | inr no_it ↦ rw no_it (refl, refl)
]

pub context_switch-other :
    (s : System) (j t : ℕ)
    → t ≢ j
    → (context_switch s j).active_threads t ≡ leave s s.current_thread_index t
unfolding context_switch
context_switch-other s j t n = rw (ne→== t j n)

pub leave-other : (s : System) (i t : ℕ) → t ≢ i → leave s (pos i) t ≡ s.active_threads t
unfolding leave
leave-other s i t n = rw (ne→== t i n)

pub leave_self :
    (s : System) (i : ℕ)
    → is_terminated (s.active_threads i).state ≡ false
    → ((leave s (pos i) i).regs ≡ s.cpu.regs) × ((leave s (pos i) i).pc ≡ s.cpu.pc)
unfolding leave saved
leave_self s i t = rw (eq→== i i refl, t) (refl, refl)
