-- ===== src/Kernel/Paging/SwapIn.antt =====
-- A page comes back from its slot, and a page of a stack gets a frame.
use rv32umos.Base.{
  ℕ, ◌+◌, ◌%◌, ◌^◌, ◌<◌, ◌≡◌, ◌≢◌, refl, sym, ap, ◌∙◌, arith, Bool, true, false, ◌||◌, pos, signed,
  ltb, leb, shr, Result, PanicsOnly, returns, panics, PanicsOnly->>=, update,
}
use rv32umos.Vm.Machine.{stack_top}
use rv32umos.Vm.PageTable.{Pte}
use rv32umos.Kernel.Disk.{read_block}
use rv32umos.Kernel.Disk.Laws.{read_block-in_range}
use rv32umos.Kernel.Swap.{Swap}
use rv32umos.Kernel.Swap.Roundtrip.{swap_in-in_range}
use rv32umos.Kernel.Frames.{kernel_page_size}
use rv32umos.Kernel.Process.{max_process, stack_region_bottom}
use rv32umos.Kernel.Os.{Os, ram}
use rv32umos.Kernel.Eviction.{entry}
use rv32umos.Kernel.Eviction.Contents.{IsVirtual, IsOut, page_byte}
use rv32umos.Kernel.Eviction.Allocate.{IsAllocated, AllTaken, allocate_frame_lem}
use rv32umos.Kernel.Paging.{handle_swap_in, handle_stack_growth, on_stack, writable}
use rv32umos.Kernel.Paging.Mapped.{KeepsSlots, OnlyFrame}
use rv32umos.Kernel.Paging.Handlers.{
  IsServed, Loads, loads, kept_entry, Kept-invalid, final-entry, final-IsServed, same_slots,
}

module _ (os : Os) (h : IsVirtual os 16) (pid vpn : ℕ) (hp : pid < max_process)
    (out : IsOut (entry os pid vpn)) where
  Loads-ext :
      (c c' : ℕ → ℕ) (r w x : Bool) (m : Result (Os × Bool))
      → ((i : ℕ) → i < 4096 → c i ≡ c' i)
      → Loads os h pid vpn hp out.0 c r w x m
      → Loads os h pid vpn hp out.0 c' r w x m
  Loads-ext c c' r w x m same (panics cause e) = panics cause e
  Loads-ext c c' r w x m same (returns a e (l, t)) = returns a e (
    record {
      served = l.served;
      bytes = λ i lt. l.bytes i lt ∙ ap (λ (z : ℕ). z % 2 ^ 8) (same i lt);
      can_read = l.can_read;
      can_write = l.can_write;
      can_execute = l.can_execute;
      swapped = l.swapped;
    },
    t,
  )

  module _ (os' : Os) (paddr : ℕ) (a : IsAllocated os pid vpn (os', paddr)) where
    same : entry os' pid vpn ≡ entry os pid vpn
    same = kept_entry os h pid vpn hp out.0 os' paddr a

    out' : IsOut (entry os' pid vpn)
    out' = (ap (λ (z : Pte). z.valid) same ∙ out.0, ap (λ (z : Pte). z.swapped) same ∙ out.1)

    abbrev slot : ℕ
    slot = (entry os' pid vpn).ppn

    abbrev freed_slot : Swap
    freed_slot = record os'.swap { allocation_map = update os'.swap.allocation_map slot false }

    in_range : slot < os'.swap.swap_size
    in_range = (a.virtual.slots pid vpn out').0

    number : signed 32 slot ≡ pos slot
    number = ground (arith, in_range, a.virtual.size)

    others_keep : KeepsSlots os' pid vpn freed_slot
    others_keep = record {
      start = refl;
      size = refl;
      slots = λ p v other o.
          let differs : (entry os' p v).ppn ≢ slot =
            λ q. let (po, pv) = a.virtual.unique p v pid vpn o out' q in ground (arith, po, pv) in
          ground (arith, (a.virtual.slots p v o).1);
    }

    slot_byte :
        (i : ℕ)
        → i < 4096
        → (read_block os'.disk
              (os'.swap.swap_start_block + slot)
              (record { size = kernel_page_size; bytes = λ j. 0 })).bytes
            i
          ≡ page_byte os pid vpn i
    slot_byte i lt =
        read_block-in_range os'.disk (os'.swap.swap_start_block + slot) i
          (record { size = kernel_page_size; bytes = λ j. 0 }) a.virtual.swap.small refl
          (omega (arith, in_range, a.virtual.swap.on_disk)) lt
        ∙ sym (rw out'.0 refl)
        ∙ (Kept-invalid os os' pid vpn (a.kept pid vpn) out.0).1 i lt out

  -- In a consistent virtual memory, a fault on a page that is in its slot is served: the page has
  -- a frame again, with the bytes and the permissions that it had in the slot, no other page loses
  -- what it holds but by being dropped while read-only or unwritten, and the virtual memory is
  -- consistent. The handler panics only if every slot is taken.
  pub handle_swap_in_lem :
      Loads os h pid vpn hp out.0
        (page_byte os pid vpn)
        (entry os pid vpn).can_read
        (entry os pid vpn).can_write
        (entry os pid vpn).can_execute
        (handle_swap_in os pid vpn)
  unfolding handle_swap_in
  handle_swap_in_lem =
      rw (out.1, out.0)
        (PanicsOnly->>= (AllTaken os.swap) (IsAllocated os pid vpn) _ _ _
          (allocate_frame_lem os h pid vpn)
          (λ r a.
            rw
              (
                number r.0 r.1 a,
                swap_in-in_range r.0.disk r.0.swap
                    (record { size = kernel_page_size; bytes = λ i. 0 }) (entry r.0 pid vpn).ppn
                    (in_range r.0 r.1 a),
              )
              (Loads-ext _ _ _ _ _ _ (slot_byte r.0 r.1 a) (
                loads os h pid vpn hp out.0 _ r.0 r.1 a (freed_slot r.0 r.1 a)
                  (record (entry r.0 pid vpn) {
                    ppn = shr r.1 12;
                    valid = true;
                    referenced = true;
                    dirty = false;
                  })
                  _ _ _ _ (ap (λ (z : Pte). z.can_read) (same r.0 r.1 a))
                  (ap (λ (z : Pte). z.can_write) (same r.0 r.1 a))
                  (ap (λ (z : Pte). z.can_execute) (same r.0 r.1 a))
                  (ap (λ (z : Pte). z.swapped) (same r.0 r.1 a)) (others_keep r.0 r.1 a) refl refl
                  (λ m. refl)))))

-- A page of a stack gets a frame, with whatever bytes that has.
module _ (os : Os) (h : IsVirtual os 16) (pid vpn : ℕ) (hp : pid < max_process)
    (invalid : (entry os pid vpn).valid ≡ false) where
  pub handle_stack_growth_lem :
      (fault_addr : ℕ)
      → (ltb fault_addr stack_region_bottom || leb stack_top fault_addr) ≡ false
      → on_stack os.system.active_threads (os.process_list pid).threads fault_addr ≡ true
      → PanicsOnly
          (AllTaken os.swap)
          (λ r.
            IsServed os pid vpn r.0
            × (r.1 ≡ true)
            × ((entry r.0 pid vpn).can_read ≡ true)
            × ((entry r.0 pid vpn).can_write ≡ true))
          (handle_stack_growth os pid fault_addr vpn)
  unfolding handle_stack_growth
  handle_stack_growth_lem fault_addr region stack =
      rw (region, stack)
        (PanicsOnly->>= (AllTaken os.swap) (IsAllocated os pid vpn) _ _ _
          (allocate_frame_lem os h pid vpn)
          (λ r a.
            let only : OnlyFrame r.1 (ram r.0) (ram r.0) = record {
              bytes = a.virtual.bytes;
              others = λ j d. refl;
            } in
            let pte = writable (entry r.0 pid vpn) r.1 in
            let served =
              final-IsServed os h pid vpn hp invalid r.0 r.1 a (ram r.0) only r.0.swap
                (same_slots os h pid vpn hp invalid r.0 r.1 a) pte refl refl in
            let made =
              final-entry os h pid vpn hp invalid r.0 r.1 a (ram r.0) only r.0.swap
                (same_slots os h pid vpn hp invalid r.0 r.1 a) pte refl refl in
            returns _ refl (
              served,
              refl,
              ap (λ (z : Pte). z.can_read) made,
              ap (λ (z : Pte). z.can_write) made,
            )))
