-- ===== src/Kernel/Paging/Tests/Swapping.antt =====
-- Page 5 of process 0 is in the first slot of the swap space.
use rv32umos.Base.{
  ℕ, ◌≡◌, refl, sym, ap, ◌∙◌, arith, true, false, ◌&&◌, ◌==◌, none, some, Bool-cases, inl, inr,
  subst, if◌then◌else◌, PanicsOnly, ok, ◌⊎◌,
}
use rv32umos.Vm.PageTable.{Pte}
use rv32umos.Kernel.Swap.{new_swap}
use rv32umos.Kernel.Process.{heap_start}
use rv32umos.Kernel.Os.{Os}
use rv32umos.Kernel.Eviction.{entry, set_entry}
use rv32umos.Kernel.Eviction.Invariant.{entry_changed, entry_kept}
use rv32umos.Kernel.Eviction.Contents.{IsVirtual, IsOut, page_byte}
use rv32umos.Kernel.Eviction.Allocate.{AllTaken}
use rv32umos.Kernel.Paging.{handle_page_fault, handle_swap_in}
use rv32umos.Kernel.Paging.Handlers.{IsLoaded}
use rv32umos.Kernel.Paging.SwapIn.{handle_swap_in_lem}
use rv32umos.Kernel.Eviction.Contents.{Droppable}
use rv32umos.Kernel.Paging.Keeps.{Written, Holds, Implements}
use rv32umos.Kernel.Paging.Handle.{handle_page_fault-Implements}
use rv32umos.Kernel.Os.Current.{current-running}
use rv32umos.Kernel.Os.{get_current_thread}
use rv32umos.Kernel.Boot.Start.{no_entry}
use rv32umos.Kernel.Paging.Tests.{blank, busy, busy-IsVirtual, host}

-- Page 5 is out, in slot 0.
abbrev out_entry : Pte
out_entry = record {
  ppn = 0;
  valid = false;
  referenced = false;
  dirty = false;
  swapped = true;
  can_read = true;
  can_write = true;
  can_execute = false;
}

abbrev swapping : Os
swapping = record (set_entry busy 0 5 out_entry) {
  swap = record busy.swap { allocation_map = λ i. i == 0 };
}

swapping-entry :
    (p v : ℕ)
    → ((p ≡ 0) × (v ≡ 5) × (entry swapping p v ≡ out_entry)) ⊎ (entry swapping p v ≡ entry busy p v)
swapping-entry p v = elim (Bool-cases ((p == 0) && (v == 5))) [
  | inl here ↦ inl (ground arith, ground arith, entry_changed busy 0 5 out_entry p v here)
  | inr other ↦ inr (entry_kept busy 0 5 out_entry p v other)
]

swapping-invalid : (p v : ℕ) → (entry swapping p v).valid ≡ false
swapping-invalid p v = elim (swapping-entry p v) [
  | inl (_, _, e) ↦ ap (λ (z : Pte). z.valid) e
  | inr e ↦ ap (λ (z : Pte). z.valid) (e ∙ no_entry blank p v)
]

swapping-IsOut :
    (p v : ℕ) → IsOut (entry swapping p v) → (p ≡ 0) × (v ≡ 5) × (entry swapping p v ≡ out_entry)
swapping-IsOut p v out = elim (swapping-entry p v) [
  | inl here ↦ here
  | inr e ↦ absurd (cc (sym (ap (λ (z : Pte). z.swapped) (e ∙ no_entry blank p v)) ∙ out.1))
]

swapping-IsVirtual : IsVirtual swapping 16
unfolding new_swap
swapping-IsVirtual =
    let h = busy-IsVirtual in
    record {
      paged = record {
        frames = h.paged.frames;
        queue = h.paged.queue;
        queued = h.paged.queued;
        covered = h.paged.covered;
        owns = λ p v valid. absurd (cc (sym (swapping-invalid p v) ∙ valid));
      };
      bytes = h.bytes;
      held = λ n d used. absurd (cc (h.paged.queued n used));
      swap = record { small = h.swap.small; on_disk = h.swap.on_disk };
      size = h.size;
      slots = λ p v out. let (_, _, e) = swapping-IsOut p v out in rw e (omega arith, refl);
      unique = λ p v q w out out' same.
          let (po, pv, _) = swapping-IsOut p v out in
          let (qo, qv, _) = swapping-IsOut q w out' in (po ∙ sym qo, pv ∙ sym qv);
    }

page_five : entry swapping 0 5 ≡ out_entry
page_five = entry_changed busy 0 5 out_entry 0 5 refl

handle_swap_in_lem_example :
    PanicsOnly
      (AllTaken swapping.swap)
      (λ z.
        IsLoaded swapping 0 5
          (page_byte swapping 0 5)
          (entry swapping 0 5).can_read
          (entry swapping 0 5).can_write
          (entry swapping 0 5).can_execute
          z.0
        × (z.1 ≡ true))
      (handle_swap_in swapping 0 5)
handle_swap_in_lem_example =
    handle_swap_in_lem swapping swapping-IsVirtual 0 5 (omega arith)
      (ap (λ (z : Pte). z.valid) page_five, ap (λ (z : Pte). z.swapped) page_five)

-- The abstract memory of page 5.
abbrev written : Written
written p v = if (p == 0) && (v == 5) then some (page_byte swapping 0 5) else none

five-Holds : Holds swapping 0 5 (page_byte swapping 0 5)
five-Holds = record {
  used = inr (ap (λ (z : Pte). z.valid) page_five, ap (λ (z : Pte). z.swapped) page_five);
  written = λ d. subst (λ (z : Pte). ¬ Droppable z) (sym page_five) not_droppable d;
  bytes = λ i lt. refl;
}
  where
    not_droppable : ¬ Droppable out_entry
    not_droppable (inl read_only) = absurd (cc read_only)
    not_droppable (inr (_, never)) = absurd (cc never)

written_here : (p v : ℕ) → (p == 0) && (v == 5) ≡ true → written p v ≡ some (page_byte swapping 0 5)
written_here p v here = rw here refl

swapping-Implements : Implements swapping written
swapping-Implements p v b q = elim (Bool-cases ((p == 0) && (v == 5))) [
  | inr other ↦ let missing : written p v ≡ none = rw other refl in absurd (cc (sym missing, q))
  | inl here ↦
      let po : p ≡ 0 = ground arith in
      let pv : v ≡ 5 = ground arith in
      let stored : page_byte swapping 0 5 ≡ b = cc (sym q, written_here p v here) in
      subst (λ (t : ℕ). Holds swapping t v b) (sym po)
        (subst (λ (t : ℕ). Holds swapping 0 t b) (sym pv)
          (subst (λ (c : ℕ → ℕ). Holds swapping 0 5 c) stored five-Holds))
]

swapping_current : get_current_thread swapping ≡ ok 0
swapping_current = current-running swapping 0 (omega arith)

handle_page_fault-Implements_example :
    PanicsOnly
      (AllTaken swapping.swap)
      (λ r. IsVirtual r.0 16 × Implements r.0 written)
      (handle_page_fault host swapping heap_start)
handle_page_fault-Implements_example =
    handle_page_fault-Implements host swapping 0 heap_start written swapping_current (omega arith)
      swapping-IsVirtual swapping-Implements
