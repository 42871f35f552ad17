-- ===== src/Kernel/Boot/Start.antt =====
-- The state that the system starts in.
use rv32umos.Base.{ℕ, ◌*◌, ◌≡◌, refl, sym, ap, ◌∙◌, arith, false, [], none, negsuc, ok, update}
use rv32umos.Vm.RegFile
use rv32umos.Vm.Mmu
use rv32umos.Vm.Machine
use rv32umos.Vm.Machine.{Machine, stack_top}
use rv32umos.Vm.PageTable
use rv32umos.Vm.PageTable.{Pte, fresh}
use rv32umos.Kernel.Disk.{new_disk}
use rv32umos.Kernel.Swap.{new_swap}
use rv32umos.Kernel.Thread.{Thread}
use rv32umos.Kernel.Frames
use rv32umos.Kernel.Frames.Laws.{init-free, init-IsFrames}
use rv32umos.Kernel.FileSystem.{new_file_system}
use rv32umos.Kernel.Process.{new_process}
use rv32umos.Kernel.Os.{Os}
use rv32umos.Kernel.Eviction.{entry}
use rv32umos.Kernel.Eviction.Invariant.{IsPaged}
use rv32umos.Kernel.Eviction.Contents.{IsVirtual, IsOut}
use rv32umos.Kernel.Boot.{bare_machine, init}

-- The machine after its reset.
abbrev started_machine : Machine
started_machine = record bare_machine {
  mmu = Mmu.reset bare_machine.mmu;
  pc = 0;
  regs = record { regs = update (λ i. 0) 2 stack_top };
}

abbrev pub started : Thread → Os
started blank = record {
  system = record {
    active_threads = λ i. blank;
    count = 0;
    current_thread_index = negsuc 0;
    cpu = started_machine;
  };
  process_list = λ pid. new_process [];
  exit_codes = λ pid. none;
  process_waiters = λ pid. [];
  frames = Frames.init;
  queue = [];
  swap = new_swap 4096 2048;
  disk = new_disk 4096;
  vfs = new_file_system;
  host_calls = 0;
}

init-started : (blank : Thread) → init blank ≡ ok (started blank)
unfolding init Machine.reset RegFile.write RegFile.reset Mmu.reset
init-started blank = refl

pub no_entry : (blank : Thread) (p v : ℕ) → entry (started blank) p v ≡ fresh
unfolding Mmu.reset PageTable.lookup
no_entry blank p v = refl

nothing-IsOut : (blank : Thread) (p v : ℕ) → ¬ IsOut (entry (started blank) p v)
nothing-IsOut blank p v out =
    absurd (cc (ap (λ (z : Pte). z.swapped) (sym (no_entry blank p v)) ∙ out.1))

pub started-IsPaged : (blank : Thread) → IsPaged (started blank)
unfolding Frames.init Mmu.reset
started-IsPaged blank = record {
  frames = init-IsFrames;
  queue = λ n q. absurd (cc q);
  queued = λ n q. absurd (cc q);
  covered = λ n lt q. ground (arith, init-free (n * 4096));
  owns = λ p v q. absurd (cc (no_entry blank p v, q));
}

pub started-IsVirtual : (blank : Thread) → IsVirtual (started blank) 16
unfolding Frames.init Mmu.reset new_swap new_disk
started-IsVirtual blank = record {
  paged = started-IsPaged blank;
  bytes = λ i. omega arith;
  held = λ n d used. absurd (cc used);
  swap = record { small = omega arith; on_disk = omega arith };
  size = omega arith;
  slots = λ p v out. absurd (nothing-IsOut blank p v out);
  unique = λ p v q w out out' same. absurd (nothing-IsOut blank p v out);
}

-- The system starts, without a fault, in a state where the virtual memory is consistent, no page
-- is mapped or out, and all slots are free.
pub init-IsVirtual :
    (blank : Thread)
    → (os : Os) × (init blank ≡ ok os)
      × IsVirtual os 16
      × ((p v : ℕ) → ((entry os p v).valid ≡ false) × ((entry os p v).swapped ≡ false))
      × ((i : ℕ) → os.swap.allocation_map i ≡ false)
unfolding new_swap
init-IsVirtual blank = (
  started blank,
  init-started blank,
  started-IsVirtual blank,
  λ p v. (
    ap (λ (z : Pte). z.valid) (no_entry blank p v),
    ap (λ (z : Pte). z.swapped) (no_entry blank p v),
  ),
  λ i. refl,
)
