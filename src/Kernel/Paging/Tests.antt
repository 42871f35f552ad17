-- ===== src/Kernel/Paging/Tests.antt =====
-- Process 0 with one page of heap, one segment and one thread; its page 4096 is on the heap.
pub mod Swapping
use rv32umos.Base.{
  ℕ, ◌*◌, ◌+◌, ◌-◌, ◌/◌, ◌^◌, ◌≡◌, refl, sym, ap, ◌∙◌, arith, true, false, ◌&&◌, ◌==◌, [], ◌∷◌,
  none, some, pos, Bool-cases, inl, inr, PanicsOnly, ok, ◌⊎◌,
}
use rv32umos.Vm.PageTable.{Pte}
use rv32umos.Vm.Machine.{stack_top}
use rv32umos.Vm.Mmu.Translate.{reads}
use rv32umos.Kernel.Swap.{new_swap}
use rv32umos.Kernel.Thread.{Thread, ThreadState}
use rv32umos.Kernel.Process.{Segment, new_process, heap_start}
use rv32umos.Kernel.Os.{get_current_thread, Os}
use rv32umos.Kernel.Host.{Host}
use rv32umos.Kernel.Eviction.{entry, set_entry}
use rv32umos.Kernel.Eviction.Invariant.{entry_changed, entry_kept}
use rv32umos.Kernel.Eviction.Contents.{IsVirtual, IsOut, page_byte}
use rv32umos.Kernel.Eviction.Allocate.{AllTaken, IsAllocated, allocate_frame_lem}
use rv32umos.Kernel.Eviction
use rv32umos.Kernel.Paging.{
  handle_page_fault, serve_fault, find_segment, segment_page, on_stack, handle_swap_in,
  handle_heap_growth, handle_lazy_loading, handle_stack_growth,
}
use rv32umos.Kernel.Paging.Handlers.{IsLoaded, IsServed, handle_heap_growth_lem}
use rv32umos.Kernel.Paging.SwapIn.{handle_swap_in_lem, handle_stack_growth_lem}
use rv32umos.Kernel.Paging.Serve.{Serves, serve_fault-Serves}
use rv32umos.Kernel.Paging.Retry.{CanRetry}
use rv32umos.Kernel.Paging.Segments.{segment_byte, handle_lazy_loading-segment_byte}
use rv32umos.Kernel.Paging.Handle.{noted, handle_page_fault-retry}
use rv32umos.Kernel.Os.Current.{current-running}
use rv32umos.Kernel.Eviction.Contents.{Droppable}
use rv32umos.Kernel.Paging.Keeps.{Written, Holds, Implements, serve_fault-Implements}
use rv32umos.Kernel.Boot.Start.{started, started-IsVirtual, no_entry}

abbrev pub blank : Thread
blank = record {
  state = ThreadState.ready;
  regs = record { regs = λ i. 0 };
  tid = pos 0;
  parent = 0;
  pc = 0;
  stack_top = stack_top;
  has_been_joined = false;
  joiner = none;
  exit_code = pos 0;
}

abbrev text : Segment
text = record { vaddr = 0x400000; mem_size = 4096; file_size = 100; file_offset = 0; flags = 5 }

abbrev pub busy : Os
busy = record (started blank) {
  process_list = λ p. record (new_process []) {
    program_break = heap_start + 4096;
    segments = text ∷ [];
    threads = 0 ∷ [];
  };
  system = record (started blank).system {
    count = 1;
    current_thread_index = pos 0;
    cpu = record (started blank).system.cpu {
      mmu = record (started blank).system.cpu.mmu { vm_enabled = true; current_table = some 0 };
    };
  };
}

pub busy-IsVirtual : IsVirtual busy 16
busy-IsVirtual =
    let h = started-IsVirtual blank in
    record {
      paged = record {
        frames = h.paged.frames;
        queue = h.paged.queue;
        queued = h.paged.queued;
        covered = h.paged.covered;
        owns = h.paged.owns;
      };
      bytes = h.bytes;
      held = h.held;
      swap = h.swap;
      size = h.size;
      slots = h.slots;
      unique = h.unique;
    }

-- The program's file has 100 bytes, all of them 7; the console reads nothing and writes all.
abbrev pub host : Host
host = record {
  elf_header = λ name. none;
  program_header = λ name i. record {
    p_type = 1;
    p_vaddr = 0;
    p_memsz = 0;
    p_filesz = 0;
    p_offset = 0;
    p_flags = 0;
  };
  file = λ name. record { size = 100; bytes = λ i. 7 };
  read = λ call n. (pos 0, λ i. 0);
  write = λ call fd b n. pos n;
}

serve_fault-Serves_example : Serves busy 0 4096 (serve_fault host busy 0 heap_start 4096)
serve_fault-Serves_example =
    serve_fault-Serves host busy 0 heap_start 4096 busy-IsVirtual (omega arith)

current : get_current_thread busy ≡ ok 0
current = current-running busy 0 (omega arith)

handle_page_fault-retry_example :
    PanicsOnly
      (AllTaken busy.swap)
      (λ r.
        (r ≡ (noted busy 0 ((heap_start + 8) / 2 ^ 12), false))
        ⊎ CanRetry busy r.0 0 (heap_start + 8) reads)
      (handle_page_fault host busy (heap_start + 8))
handle_page_fault-retry_example =
    handle_page_fault-retry host busy 0 (heap_start + 8) reads current (omega arith) busy-IsVirtual
      refl refl

allocate_frame_lem_example :
    PanicsOnly (AllTaken busy.swap) (IsAllocated busy 0 4096) (Eviction.allocate_frame busy 0 4096)
allocate_frame_lem_example = allocate_frame_lem busy busy-IsVirtual 0 4096

busy-invalid : (v : ℕ) → (entry busy 0 v).valid ≡ false
busy-invalid v = ap (λ (z : Pte). z.valid) (no_entry blank 0 v)

handle_heap_growth_lem_example :
    PanicsOnly
      (AllTaken busy.swap)
      (λ z.
        IsLoaded busy 0 4096 (λ i. 0) true true (entry busy 0 4096).can_execute z.0 × (z.1 ≡ true))
      (handle_heap_growth busy 0 heap_start 4096)
handle_heap_growth_lem_example =
    handle_heap_growth_lem busy busy-IsVirtual 0 4096 (omega arith) (busy-invalid 4096) heap_start
      refl

handle_lazy_loading-segment_byte_example :
    PanicsOnly
      (AllTaken busy.swap)
      (λ z.
        IsLoaded busy 0 1024
          (λ i. segment_byte (host.file []) text (1024 * 4096 + i))
          true
          false
          true
          z.0
        × (z.1 ≡ true))
      (handle_lazy_loading host busy 0 0x400004 1024)
unfolding find_segment
handle_lazy_loading-segment_byte_example =
    handle_lazy_loading-segment_byte host busy 0 0x400004 1024 text busy-IsVirtual (omega arith)
      (busy-invalid 1024) refl
      (record { start = omega arith; word = omega arith; on_file = omega arith })

handle_stack_growth_lem_example :
    PanicsOnly
      (AllTaken busy.swap)
      (λ r.
        IsServed busy 0 ((stack_top - 4) / 2 ^ 12) r.0
        × (r.1 ≡ true)
        × ((entry r.0 0 ((stack_top - 4) / 2 ^ 12)).can_read ≡ true)
        × ((entry r.0 0 ((stack_top - 4) / 2 ^ 12)).can_write ≡ true))
      (handle_stack_growth busy 0 (stack_top - 4) ((stack_top - 4) / 2 ^ 12))
unfolding on_stack
handle_stack_growth_lem_example =
    handle_stack_growth_lem busy busy-IsVirtual 0 ((stack_top - 4) / 2 ^ 12) (omega arith)
      (busy-invalid ((stack_top - 4) / 2 ^ 12)) (stack_top - 4) refl refl
