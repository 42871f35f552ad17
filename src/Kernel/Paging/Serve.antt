-- ===== src/Kernel/Paging/Serve.antt =====
-- A page fault is served, or nothing has changed.
use rv32umos.Base.{
  ℕ, ◌<◌, ◌≡◌, refl, Bool, true, false, ◌&&◌, ◌||◌, if◌then◌else◌, ltb, leb, Bool-cases,
  Option-cases, inl, inr, Result, ok, PanicsOnly, returns, panics, PanicsOnly->>=,
}
use rv32umos.Vm.Machine.{stack_top}
use rv32umos.Kernel.Process.{max_process, stack_region_bottom, heap_start}
use rv32umos.Kernel.Os.{Os}
use rv32umos.Kernel.Host.{Host}
use rv32umos.Kernel.Eviction.{entry}
use rv32umos.Kernel.Eviction.Contents.{IsVirtual}
use rv32umos.Kernel.Eviction.Allocate.{AllTaken}
use rv32umos.Kernel.Paging.{
  handle_swap_in, handle_stack_growth, handle_heap_growth, handle_lazy_loading, load_segment,
  find_segment, on_stack, serve_fault, ◌orelse◌,
}
use rv32umos.Kernel.Paging.Handlers.{IsServed, handle_heap_growth_lem, handle_lazy_loading_lem}
use rv32umos.Kernel.Paging.SwapIn.{handle_swap_in_lem, handle_stack_growth_lem}

-- What a handler returns: it has mapped the page, or it has not touched anything.
pub data Served (os : Os) (pid vpn : ℕ) : Os × Bool → Type 0 where
  declined : Served os pid vpn (os, false)
  mapped : (os' : Os) → IsServed os pid vpn os' → Served os pid vpn (os', true)

abbrev pub Serves : Os → ℕ → ℕ → Result (Os × Bool) → Type 0
Serves os pid vpn = PanicsOnly (AllTaken os.swap) (Served os pid vpn)

served-mapped :
    (os : Os) (pid vpn : ℕ) (r : Os × Bool)
    → IsServed os pid vpn r.0
    → r.1 ≡ true
    → Served os pid vpn r
served-mapped os pid vpn (os', true) s e = mapped os' s
served-mapped os pid vpn (os', false) s e = absurd (cc e)

-- A handler that maps the page, whatever else it promises.
Serves-map :
    (os : Os) (pid vpn : ℕ) (P : Os × Bool → Type 0) (m : Result (Os × Bool))
    → PanicsOnly (AllTaken os.swap) P m
    → ((r : Os × Bool) → P r → IsServed os pid vpn r.0 × (r.1 ≡ true))
    → Serves os pid vpn m
Serves-map os pid vpn P m (panics cause e) f = panics cause e
Serves-map os pid vpn P m (returns r e p) f =
    returns r e (served-mapped os pid vpn r (f r p).0 (f r p).1)

-- One handler after the other.
Serves-orelse :
    (os : Os) (pid vpn : ℕ) (m : Result (Os × Bool)) (rest : Os → Result (Os × Bool))
    → Serves os pid vpn m
    → Serves os pid vpn (rest os)
    → Serves os pid vpn (m orelse rest)
Serves-orelse os pid vpn m rest hm hr =
    PanicsOnly->>= (AllTaken os.swap) (Served os pid vpn) _ _ _ hm (λ r s. next r s)
  where
    next :
        (r : Os × Bool) → Served os pid vpn r → Serves os pid vpn (if r.1 then ok r else rest r.0)
    next (_, _) declined = hr
    next (_, _) (mapped os' served) = returns (os', true) refl (mapped os' served)

module _ (os : Os) (h : IsVirtual os 16) (pid vpn : ℕ) (hp : pid < max_process)
    (invalid : (entry os pid vpn).valid ≡ false) where
  handle_swap_in-Serves : Serves os pid vpn (handle_swap_in os pid vpn)
  unfolding handle_swap_in
  handle_swap_in-Serves = elim (Bool-cases (entry os pid vpn).swapped) [
    | inl out ↦
        Serves-map os pid vpn _ _ (handle_swap_in_lem os h pid vpn hp (invalid, out))
          (λ r l. (l.0.served, l.1))
    | inr not_out ↦ returns (os, false) (rw not_out refl) declined
  ]

  handle_stack_growth-Serves : (a : ℕ) → Serves os pid vpn (handle_stack_growth os pid a vpn)
  unfolding handle_stack_growth
  handle_stack_growth-Serves a = elim (Bool-cases (ltb a stack_region_bottom || leb stack_top a)) [
    | inl outside ↦ returns (os, false) (rw outside refl) declined
    | inr region ↦
        elim (Bool-cases (on_stack os.system.active_threads (os.process_list pid).threads a)) [
          | inl stack ↦
              Serves-map os pid vpn _ _
                (handle_stack_growth_lem os h pid vpn hp invalid a region stack) (λ r l. (l.0, l.1))
          | inr no_stack ↦ returns (os, false) (rw (region, no_stack) refl) declined
        ]
  ]

  handle_lazy_loading-Serves :
      (host : Host) (a : ℕ) → Serves os pid vpn (handle_lazy_loading host os pid a vpn)
  unfolding handle_lazy_loading load_segment
  handle_lazy_loading-Serves host a =
      elim (Option-cases (find_segment (os.process_list pid).segments a)) [
        | inl none_there ↦ returns (os, false) (rw none_there refl) declined
        | inr (seg, found) ↦
            Serves-map os pid vpn _ _
              (handle_lazy_loading_lem os h pid vpn hp invalid host a seg found)
              (λ r l. (l.0.served, l.1))
      ]

  handle_heap_growth-Serves : (a : ℕ) → Serves os pid vpn (handle_heap_growth os pid a vpn)
  unfolding handle_heap_growth
  handle_heap_growth-Serves a =
      elim (Bool-cases (leb heap_start a && ltb a (os.process_list pid).program_break)) [
        | inl on_heap ↦
            Serves-map os pid vpn _ _ (handle_heap_growth_lem os h pid vpn hp invalid a on_heap)
              (λ r l. (l.0.served, l.1))
        | inr off_heap ↦ returns (os, false) (rw off_heap refl) declined
      ]

-- In a consistent virtual memory, serving a page fault maps the page, leaves the virtual memory
-- consistent (no frame or slot is shared by two pages) and keeps what every other page holds, but
-- for pages that are read-only or unwritten and may be dropped; or it declines and changes nothing.
-- It panics only when all slots of the swap space are taken.
pub serve_fault-Serves :
    (host : Host) (os : Os) (pid fault_addr vpn : ℕ)
    → IsVirtual os 16
    → pid < max_process
    → Serves os pid vpn (serve_fault host os pid fault_addr vpn)
unfolding serve_fault
serve_fault-Serves host os pid a vpn h hp = elim (Bool-cases (entry os pid vpn).valid) [
  | inl valid ↦ returns (os, false) (rw valid refl) declined
  | inr invalid ↦ rw invalid (
      Serves-orelse os pid vpn _ _
        (Serves-orelse os pid vpn _ _
          (Serves-orelse os pid vpn _ _ (handle_swap_in-Serves os h pid vpn hp invalid)
            (handle_stack_growth-Serves os h pid vpn hp invalid a))
          (handle_lazy_loading-Serves os h pid vpn hp invalid host a))
        (handle_heap_growth-Serves os h pid vpn hp invalid a))
]
