-- ===== src/Kernel/Process/Stacks.antt =====
-- The stacks of the threads of a process.
use rv32umos.Base.{
  ℕ, zero, suc, ◌+◌, ◌-◌, ◌*◌, ◌<◌, ◌≤◌, ◌≡◌, ◌⊎◌, refl, sym, ap, ◌∙◌, arith, false, Option, none,
  some, List, [], ◌∷◌, ◌++◌, length, length-append, ok, leb, sub32, update, if◌then◌else◌, pos,
  Bool-cases, inl, inr,
}
use rv32umos.Vm.RegFile.{reset, write}
use rv32umos.Vm.Machine.{stack_top}
use rv32umos.Kernel.Thread.{Thread, ThreadState, new_thread}
use rv32umos.Kernel.Process.Code.{IsCode, is_executable-IsCode}
use rv32umos.Kernel.Process.{
  Process, max_threads, guard_page_size, stack_region_bottom, main_stack_size, thread_stack_size,
  is_empty, create_thread,
}

-- The size of the stack of thread n of a process.
abbrev pub stack_size : ℕ → ℕ
stack_size zero = main_stack_size
stack_size (suc n) = thread_stack_size

-- Where the stack of thread n ends: every stack is followed by a guard page below it.
abbrev pub stack_base : ℕ → ℕ
stack_base zero = stack_top
stack_base (suc n) =
    stack_top - (main_stack_size + guard_page_size) - n * (thread_stack_size + guard_page_size)

-- The next stack stands below those of the threads that there are.
pub record HasStacks (p : Process) : Type 0 where
  pub few : length p.threads ≤ max_threads
  pub next : p.next_stack_base ≡ stack_base (length p.threads)

-- The outcome of a call: no thread, if the process has all it may have or may not execute the entry;
-- and otherwise one with a stack of its own.
pub data Creates (p : Process) (entry_pc arg : ℕ) : Process × Option Thread → Type 0 where
  refused :
      (max_threads ≤ length p.threads) ⊎ (¬ IsCode p.segments entry_pc)
      → Creates p entry_pc arg (p, none)
  creates :
      (p' : Process) (t : Thread)
      → length p.threads < max_threads
      → IsCode p.segments entry_pc
      → HasStacks p'
      → length p'.threads ≡ length p.threads + 1
      → t.stack_top ≡ stack_base (length p.threads)
      → stack_region_bottom + stack_size (length p.threads) ≤ t.stack_top
      → p'.next_stack_base + guard_page_size + stack_size (length p.threads) ≡ t.stack_top
      → (t.pc ≡ entry_pc) × (t.tid ≡ pos (length p.threads))
      → (t.regs.regs 2 ≡ t.stack_top) × (t.regs.regs 10 ≡ arg)
      → Creates p entry_pc arg (p', some t)

bases :
    (n : ℕ)
    → n < max_threads
    → (stack_region_bottom + stack_size n ≤ stack_base n)
      × (stack_base n < 2 * stack_top)
      × (stack_base (suc n) + guard_page_size + stack_size n ≡ stack_base n)
bases zero lt = omega arith
bases (suc n) lt = omega (arith, lt)

size_of :
    (threads : List ℕ)
    → (if is_empty threads then main_stack_size else thread_stack_size)
      ≡ stack_size (length threads)
unfolding is_empty
size_of [] = refl
size_of (t ∷ ts) = refl

abbrev made_process : Process → ℕ → Process
made_process p number = record p {
  next_stack_base =
      sub32
        (sub32 p.next_stack_base
          (if is_empty p.threads then main_stack_size else thread_stack_size))
        guard_page_size;
  threads = p.threads ++ (number ∷ []);
}

abbrev made_thread : Process → ℕ → ℕ → ℕ → Thread
made_thread p pid entry_pc arg = record {
  joiner = none;
  has_been_joined = false;
  tid = pos (length p.threads);
  exit_code = pos 0;
  state = ThreadState.new;
  pc = entry_pc;
  regs = record { regs = update (update (λ i. 0) 2 p.next_stack_base) 10 arg };
  parent = pid;
  stack_top = p.next_stack_base;
}

made-next :
    (p : Process) (number : ℕ)
    → HasStacks p
    → length p.threads < max_threads
    → (made_process p number).next_stack_base ≡ stack_base (suc (length p.threads))
made-next p number h lt =
    let (low, high, next) = bases (length p.threads) lt in
    rw (size_of p.threads, h.next) (omega (arith, low, high, next))

-- For a process of at most five threads whose next stack stands below those of its threads,
-- creating a thread always returns. Where the process has five threads or the entry is in no segment
-- that may be executed, it is refused and leaves the process as it was. Where it has fewer and the
-- entry is in one, the thread gets the entry, the argument and a stack that lies in the stack region,
-- with a guard page between it and the next one, and the process is such a process again.
pub create_thread_lem :
    (p : Process) (pid number entry_pc arg : ℕ)
    → HasStacks p
    → (r : Process × Option Thread) × (create_thread p pid number entry_pc arg ≡ ok r)
      × Creates p entry_pc arg r
unfolding create_thread new_thread reset write
create_thread_lem p pid number entry_pc arg h =
    elim (Bool-cases (leb max_threads (length p.threads))) [
      | inl full ↦ ((p, none), rw full refl, refused (inl (ground (arith, full))))
      | inr room ↦ elim (is_executable-IsCode p.segments entry_pc) [
        | inr (no_code, none_there) ↦ ((p, none), rw (room, no_code) refl, refused (inr none_there))
        | inl (code, there) ↦
            let lt : length p.threads < max_threads = ground (arith, room) in
            let (low, high, next) = bases (length p.threads) lt in
            let down = made-next p number h lt in
            let longer : length (made_process p number).threads ≡ length p.threads + 1 =
              length-append p.threads (number ∷ []) in
            let longer_suc : length (made_process p number).threads ≡ suc (length p.threads) =
              longer ∙ omega arith in
            (
              (made_process p number, some (made_thread p pid entry_pc arg)),
              rw (room, code) refl,
              creates (made_process p number) (made_thread p pid entry_pc arg) lt there
                  (record {
                    few = omega (arith, longer, lt);
                    next = down ∙ ap stack_base (sym longer_suc);
                  })
                  longer h.next (omega (arith, low, h.next)) (omega (arith, down, next, h.next))
                  (refl, refl) (refl, refl),
            )
      ]
    ]
