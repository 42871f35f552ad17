-- ===== src/Kernel/Paging/Keeps.antt =====
-- What programs have written is not lost when page faults are served: against a memory that knows
-- nothing of frames and slots.
use rv32umos.Base.{
  ℕ, ◌%◌, ◌^◌, ◌<◌, ◌≡◌, ◌⊎◌, inl, inr, refl, sym, ap, ◌∙◌, subst, arith, Bool, true, false, ◌&&◌,
  ◌==◌, Option, some, Bool-cases, Result, ok, PanicsOnly, PanicsOnly->>=, PanicsOnly-map, returns,
  panics,
}
use rv32umos.Vm.PageTable.{Pte}
use rv32umos.Kernel.Process.{max_process}
use rv32umos.Kernel.Os.{Os}
use rv32umos.Kernel.Host.{Host}
use rv32umos.Kernel.Eviction.{entry}
use rv32umos.Kernel.Eviction.Contents.{
  IsVirtual, IsOut, Kept, stays, is_dropped, moves, Droppable, page_byte,
}
use rv32umos.Kernel.Eviction.Allocate.{AllTaken}
use rv32umos.Kernel.Paging.{serve_fault, ◌orelse◌}
use rv32umos.Kernel.Paging.Handlers.{IsLoaded}
use rv32umos.Kernel.Paging.SwapIn.{handle_swap_in_lem}
use rv32umos.Kernel.Paging.Serve.{Served, Serves, declined, mapped, serve_fault-Serves}

-- The bytes of the pages that programs have written, by process and page.
abbrev pub Written : Type 0
Written = ℕ → ℕ → Option (ℕ → ℕ)

-- A page that is in a frame or a slot, and must not be dropped, with its bytes.
pub record Holds (os : Os) (p v : ℕ) (b : ℕ → ℕ) : Type 0 where
  pub used : ((entry os p v).valid ≡ true) ⊎ IsOut (entry os p v)
  pub written : ¬ Droppable (entry os p v)
  pub bytes : (i : ℕ) → i < 4096 → page_byte os p v i % 2 ^ 8 ≡ b i % 2 ^ 8

-- The system holds every page of the abstract memory.
abbrev pub Implements : Os → Written → Type 0
Implements os m = (p v : ℕ) (b : ℕ → ℕ) → m p v ≡ some b → Holds os p v b

used_now : (x y : Pte) → x ≡ y → (x.valid ≡ true) ⊎ IsOut x → (y.valid ≡ true) ⊎ IsOut y
used_now x y e u = subst (λ (z : Pte). (z.valid ≡ true) ⊎ IsOut z) e u

still_written :
    (x y : Pte) → ¬ Droppable x → y.can_write ≡ x.can_write → y.swapped ≡ true → ¬ Droppable y
still_written x y d cw sw (inl read_only) = d (inl (sym cw ∙ read_only))
still_written x y d cw sw (inr (_, never)) = absurd (cc (sym sw ∙ never))

-- A page that is held is held after another one has been given a frame.
Kept-Holds :
    (os os' : Os) (p v : ℕ) (b : ℕ → ℕ) → Kept os os' p v → Holds os p v b → Holds os' p v b
Kept-Holds os os' p v b (stays e bytes) h = record {
  used = used_now (entry os p v) (entry os' p v) (sym e) h.used;
  written = subst (λ (z : Pte). ¬ Droppable z) (sym e) h.written;
  bytes = λ i lt. ap (λ (z : ℕ). z % 2 ^ 8) (bytes i lt h.used) ∙ h.bytes i lt;
}
Kept-Holds os os' p v b (is_dropped valid clean e) h = absurd (h.written clean)
Kept-Holds os os' p v b (moves slot valid e bytes) h = record {
  used = inr (ap (λ (z : Pte). z.valid) e, ap (λ (z : Pte). z.swapped) e);
  written =
      still_written (entry os p v) (entry os' p v) h.written (ap (λ (z : Pte). z.can_write) e)
        (ap (λ (z : Pte). z.swapped) e);
  bytes = λ i lt. ap (λ (z : ℕ). z % 2 ^ 8) (bytes i lt) ∙ h.bytes i lt;
}

-- A handler that serves the fault is the last one to run.
first :
    (C : Type 0) (P : Os × Bool → Type 0) (m : Result (Os × Bool)) (rest : Os → Result (Os × Bool))
    → PanicsOnly C P m
    → ((r : Os × Bool) → P r → r.1 ≡ true)
    → PanicsOnly C P (m orelse rest)
first C P m rest h served = PanicsOnly->>= C P P _ _ h (λ r p. returns r (rw (served r p) refl) p)

module _ (host : Host) (os : Os) (pid fault_addr vpn : ℕ) (h : IsVirtual os 16)
    (hp : pid < max_process) where
  -- The page of the fault itself: it is mapped, or comes back from its slot.
  same_page :
      (b : ℕ → ℕ)
      → Holds os pid vpn b
      → PanicsOnly
          (AllTaken os.swap)
          (λ r. Holds r.0 pid vpn b)
          (serve_fault host os pid fault_addr vpn)
  unfolding serve_fault
  same_page b held = elim held.used [
    | inl valid ↦ returns (os, false) (rw valid refl) held
    | inr out ↦ rw (out.0) (
        PanicsOnly-map (AllTaken os.swap)
          (λ z.
            IsLoaded os pid vpn (page_byte os pid vpn) (entry os pid vpn).can_read
              (entry os pid vpn).can_write (entry os pid vpn).can_execute z.0
            × (z.1 ≡ true))
          _ _
          (first (AllTaken os.swap) _ _ _
            (first (AllTaken os.swap) _ _ _
              (first (AllTaken os.swap) _ _ _ (handle_swap_in_lem os h pid vpn hp out) (λ r l. l.1))
              (λ r l. l.1))
            (λ r l. l.1))
          (λ r l. record {
            used = inl l.0.served.valid;
            written =
                still_written (entry os pid vpn) (entry r.0 pid vpn) held.written l.0.can_write
                  (l.0.swapped ∙ out.1);
            bytes =
                λ i lt. ap (λ (z : ℕ). z % 2 ^ 8) (l.0.bytes i lt) ∙ omega arith ∙ held.bytes i lt;
          }))
  ]

  other_page :
      (p v : ℕ) (b : ℕ → ℕ)
      → (p == pid) && (v == vpn) ≡ false
      → Holds os p v b
      → (r : Os × Bool) → Served os pid vpn r
      → Holds r.0 p v b
  other_page p v b other held (_, _) declined = held
  other_page p v b other held (_, _) (mapped os' s) =
      Kept-Holds os os' p v b (s.kept p v other) held

-- What holds of the value that an operation returns.
at_value :
    (C : Type 0) (P : Os × Bool → Type 0) (m : Result (Os × Bool)) (r : Os × Bool)
    → m ≡ ok r
    → PanicsOnly C P m
    → P r
at_value C P m r e (returns r' e' p) = let same : r' ≡ r = cc (sym e', e) in subst P same p
at_value C P m r e (panics cause e') = absurd (cc (sym e, e'))

served-IsVirtual :
    (os : Os) (pid vpn : ℕ) (r : Os × Bool)
    → IsVirtual os 16
    → Served os pid vpn r
    → IsVirtual r.0 16
served-IsVirtual os pid vpn (_, _) h declined = h
served-IsVirtual os pid vpn (_, _) h (mapped os' s) = s.virtual

-- A system that implements an abstract memory, by process, page and byte, of what programs have
-- written (pages that are writable, and are dirty or have been swapped out) still implements it
-- after a page fault of any process, whichever pages have been moved between frames and slots for
-- it, and its virtual memory is consistent; the code panics only if every slot is taken.
pub serve_fault-Implements :
    (host : Host) (os : Os) (pid fault_addr vpn : ℕ) (m : Written)
    → IsVirtual os 16
    → pid < max_process
    → Implements os m
    → PanicsOnly
        (AllTaken os.swap)
        (λ r. IsVirtual r.0 16 × Implements r.0 m)
        (serve_fault host os pid fault_addr vpn)
serve_fault-Implements host os pid fault_addr vpn m h hp impl =
    refined (serve_fault-Serves host os pid fault_addr vpn h hp)
  where
    refined :
        Serves os pid vpn (serve_fault host os pid fault_addr vpn)
        → PanicsOnly
            (AllTaken os.swap)
            (λ r. IsVirtual r.0 16 × Implements r.0 m)
            (serve_fault host os pid fault_addr vpn)
    refined (panics cause e) = panics cause e
    refined (returns r e s) = returns r e (
      served-IsVirtual os pid vpn r h s,
      λ p v b q. elim (Bool-cases ((p == pid) && (v == vpn))) [
        | inr other ↦ other_page host os pid fault_addr vpn h hp p v b other (impl p v b q) r s
        | inl same ↦
            let po : p ≡ pid = ground arith in
            let pv : v ≡ vpn = ground arith in
            subst (λ (t : ℕ). Holds r.0 t v b) (sym po)
              (subst (λ (t : ℕ). Holds r.0 pid t b) (sym pv)
                (at_value (AllTaken os.swap) (λ z. Holds z.0 pid vpn b) _ r e
                  (same_page host os pid fault_addr vpn h hp b
                    (impl pid vpn b (sym (ap (λ (t : ℕ). m t v) po ∙ ap (m pid) pv) ∙ q)))))
      ],
    )
