-- ===== src/Kernel/Eviction/Allocate.antt =====
-- A frame for a page, from the free list or by an eviction.
use rv32umos.Base.{
  ℕ, ◌*◌, ◌/◌, ◌%◌, ◌<◌, ◌≡◌, ◌≢◌, refl, sym, ap, ◌∙◌, subst, arith, true, false, List, [], ◌∷◌,
  contains, shr, ℤ, pos, negsuc, to_word, eqb_ℤ, Bool-cases, inl, inr, Result, ok, ◌>>=◌,
  PanicsOnly, returns, panics,
}
use rv32umos.Vm.Memory.{memory_size}
use rv32umos.Kernel.Disk.{Disk, Buffer}
use rv32umos.Kernel.Swap.{Swap, swap_out}
use rv32umos.Kernel.Swap.Laws.{swap_out-slot, free-cases, swap_out-free}
use rv32umos.Kernel.Frames.{Frames, FrameInfo, allocate_frame, register_frame_owner, on_allocate}
use rv32umos.Kernel.Frames.Laws.{allocate_frame-cases, allocate_frame-free, register-in_range}
use rv32umos.Kernel.Process.{max_process}
use rv32umos.Kernel.Os.{Os}
use rv32umos.Kernel.Eviction.{entry, evict_page, take_frame}
use rv32umos.Kernel.Eviction
use rv32umos.Kernel.Eviction.Invariant.{owner, unmapped}
use rv32umos.Kernel.Eviction.Handout.{
  handed, handed-aligned, handed-registered, handed-kept, handed-IsPaged,
}
use rv32umos.Kernel.Eviction.Cases.{
  Evicts, drops, swaps, no_victim, swap_full, evict_page-cases, victim_entry, in_slot,
}
use rv32umos.Kernel.Eviction.Contents.{
  IsVirtual, Kept, Kept-then, stays, drops-IsVirtual, drops-Kept,
}
use rv32umos.Kernel.Eviction.Swapped.{swapped-IsVirtual, swapped-Kept, swapped}

-- No slot is free.
abbrev pub AllTaken : Swap → Type 0
AllTaken s = (j : ℕ) → j < s.swap_size → s.allocation_map j ≡ true

-- The threads, the processes and the machine's own state are left alone.
pub record SameThreads (os os' : Os) : Type 0 where
  pub processes : os'.process_list ≡ os.process_list
  pub threads : os'.system.active_threads ≡ os.system.active_threads
  pub regs : os'.system.cpu.regs ≡ os.system.cpu.regs
  pub pc : os'.system.cpu.pc ≡ os.system.cpu.pc
  pub current_table : os'.system.cpu.mmu.current_table ≡ os.system.cpu.mmu.current_table
  pub vm_enabled : os'.system.cpu.mmu.vm_enabled ≡ os.system.cpu.mmu.vm_enabled

abbrev pub unchanged : (os : Os) → SameThreads os os
unchanged os = record {
  processes = refl;
  threads = refl;
  regs = refl;
  pc = refl;
  current_table = refl;
  vm_enabled = refl;
}

pub record IsEvicted (os os' : Os) : Type 0 where
  pub virtual : IsVirtual os' 16
  pub kept : (p v : ℕ) → Kept os os' p v
  pub threads : SameThreads os os'
  pub room : (frame : ℕ) × (rest : List ℕ) × (os'.frames.free_frames ≡ frame ∷ rest)

-- With no frame free there is a victim.
some_victim :
    (os : Os)
    → IsVirtual os 16
    → os.frames.free_frames ≡ []
    → (os.frames.frame_table 0).allocated ≡ true
some_victim os h e = elim (Bool-cases (os.frames.frame_table 0).allocated) [
  | inl used ↦ used
  | inr free ↦
      absurd (cc (sym (h.paged.covered 0 (omega arith) free), ap (λ l. contains l (0 * 4096)) e))
]

slot-ne : (m : ℕ) → eqb_ℤ (pos m) (negsuc 0) ≡ false
slot-ne m = ground arith

module _ (os : Os) (h : IsVirtual os 16) (e : os.frames.free_frames ≡ []) where
  not_full :
      (b : Buffer) (d : Disk) (s : Swap) (slot : ℤ)
      → swap_out os.disk os.swap b ≡ (d, s, slot)
      → eqb_ℤ slot (negsuc 0) ≡ true
      → AllTaken os.swap
  not_full b d s slot q full = elim (free-cases os.swap os.swap.swap_size) [
    | inl all ↦ all
    | inr (k, lt, free) ↦
        let (m, _, _, r) = swap_out-free os.disk os.swap b h.size k lt free in
        let is_slot : slot ≡ pos m = ap (λ (t : Disk × Swap × ℤ). t.2) (sym q ∙ r) in
        absurd (cc (sym full, ap (λ z. eqb_ℤ z (negsuc 0)) is_slot, slot-ne m))
  ]

  evicted : Evicts os (evict_page os) → PanicsOnly (AllTaken os.swap) (IsEvicted os) (evict_page os)
  evicted (no_victim none r) =
      absurd (cc (sym (some_victim os h e), none 0 (h.paged.queued 0 (some_victim os h e))))
  evicted (drops victim left v clean r) = returns _ r (record {
    virtual = drops-IsVirtual os h victim left v;
    kept = drops-Kept os h victim left v clean;
    threads = record {
      processes = refl;
      threads = refl;
      regs = refl;
      pc = refl;
      current_table = refl;
      vm_enabled = refl;
    };
    room = (_, _, refl);
  })
  evicted (swap_full victim left b d s slot v full q minus r) =
      panics (not_full b d s slot q minus) r
  evicted (swaps victim left b d s slot v dirty full q room r) =
      let (m, free, hm, t) = swap_out-slot os.disk os.swap b h.size d s slot q room in
      let result : Disk × Swap × ℤ → Os = λ z.
        record (unmapped os victim left (in_slot (victim_entry os victim) z.2)) {
          disk = z.0;
          swap = z.1;
        } in
      returns (swapped os h victim left v b full m free hm) (r ∙ ap (λ z. ok (result z)) t)
        (record {
          virtual = swapped-IsVirtual os h victim left v b full m free hm;
          kept = swapped-Kept os h victim left v b full m free hm;
          threads = record {
            processes = refl;
            threads = refl;
            regs = refl;
            pc = refl;
            current_table = refl;
            vm_enabled = refl;
          };
          room = (_, _, refl);
        })

  owned : (n : ℕ) → n < 16 → (os.frames.frame_table n).allocated ≡ true → owner os n < max_process
  owned n lt used = (h.paged.owns _ _ (h.held n (omega (arith, lt)) used).0).process

  pub evict_page_lem : PanicsOnly (AllTaken os.swap) (IsEvicted os) (evict_page os)
  evict_page_lem = evicted (evict_page-cases os h.paged h.bytes owned)

-- What the allocation of a frame for a page leaves, with the frame's address.
pub record IsAllocated (os : Os) (pid vpn : ℕ) (r : Os × ℕ) : Type 0 where
  pub virtual : IsVirtual r.0 (r.1 / 4096)
  pub aligned : r.1 % 4096 ≡ 0
  pub in_ram : r.1 < memory_size
  pub registered :
      r.0.frames.frame_table (r.1 / 4096)
      ≡ record { owner_pid = pos pid; vpn = vpn; allocated = true }
  pub kept : (p v : ℕ) → Kept os r.0 p v
  pub threads : SameThreads os r.0

-- A free frame is handed out.
module _ (os₀ os : Os) (h : IsVirtual os 16) (pid vpn frame : ℕ) (rest : List ℕ)
    (e : os.frames.free_frames ≡ frame ∷ rest) (kept : (p v : ℕ) → Kept os₀ os p v)
    (same : SameThreads os₀ os) where
  abbrev HeldBy : ℕ → FrameInfo → Type 0
  HeldBy n info =
      ((entry os (to_word info.owner_pid) info.vpn).valid ≡ true)
      × ((entry os (to_word info.owner_pid) info.vpn).ppn ≡ n)

  handed-held :
      (n : ℕ)
      → n ≢ frame / 4096
      → ((handed os h.paged frame rest e pid vpn).frames.frame_table n).allocated ≡ true
      → HeldBy n ((handed os h.paged frame rest e pid vpn).frames.frame_table n)
  handed-held n d a =
      let te = handed-kept os h.paged frame rest e pid vpn n d in
      let used : (os.frames.frame_table n).allocated ≡ true =
        ap (λ (i : FrameInfo). i.allocated) (sym te) ∙ a in
      let small : n < 16 = h.paged.queue n (h.paged.queued n used) in
      subst (HeldBy n) (sym te) (h.held n (omega (arith, small)) used)

  pub handed_lem : IsAllocated os₀ pid vpn (handed os h.paged frame rest e pid vpn, frame)
  handed_lem = record {
    virtual = record {
      paged = handed-IsPaged os h.paged frame rest e pid vpn;
      bytes = h.bytes;
      held = handed-held;
      swap = h.swap;
      size = h.size;
      slots = h.slots;
      unique = h.unique;
    };
    aligned = (handed-aligned os h.paged frame rest e pid vpn).0;
    in_ram = (handed-aligned os h.paged frame rest e pid vpn).1;
    registered = handed-registered os h.paged frame rest e pid vpn;
    kept = λ p v. Kept-then os₀ os _ p v (kept p v) refl (λ i lt u. refl);
    threads = record {
      processes = same.processes;
      threads = same.threads;
      regs = same.regs;
      pc = same.pc;
      current_table = same.current_table;
      vm_enabled = same.vm_enabled;
    };
  }

  abbrev placed : Frames → Result (Os × ℕ)
  placed frames =
      ok (record os { frames = frames; queue = on_allocate os.queue (shr frame 12) }, frame)

  pub registers :
      (register_frame_owner (record os.frames { free_frames = rest }) (shr frame 12) vpn (pos pid)
        >>= placed)
      ≡ ok (handed os h.paged frame rest e pid vpn, frame)
  unfolding on_allocate
  registers =
      let (_, in_ram) = handed-aligned os h.paged frame rest e pid vpn in
      rw
        (register-in_range (record os.frames { free_frames = rest }) frame vpn (pos pid)
          (omega (arith, in_ram, h.paged.frames.total)))
        refl

module _ (os : Os) (h : IsVirtual os 16) (pid vpn : ℕ) where
  after_evict :
      allocate_frame os.frames ≡ (os.frames, record { paddr = 0; status = false })
      → PanicsOnly (AllTaken os.swap) (IsEvicted os) (evict_page os)
      → PanicsOnly (AllTaken os.swap) (IsAllocated os pid vpn) (Eviction.allocate_frame os pid vpn)
  unfolding Eviction.allocate_frame take_frame
  after_evict none (panics c r) = rw (none, r) (panics c refl)
  after_evict none (returns os' r ev) =
      let (frame, rest, e) = ev.room in
      rw (none, r, allocate_frame-free os'.frames frame rest e)
        (returns _ (registers os os' ev.virtual pid vpn frame rest e ev.kept ev.threads)
          (handed_lem os os' ev.virtual pid vpn frame rest e ev.kept ev.threads))

  -- In a consistent virtual memory, an allocation yields a frame of the RAM, registered for the
  -- page. A page that loses its frame for it was read-only or unwritten, and is dropped, or its
  -- bytes are in a slot afterwards; every other page in use keeps its entry and its bytes, and the
  -- virtual memory is consistent but for the new frame, which no entry has yet. Otherwise the code
  -- panics, and every slot is taken.
  pub allocate_frame_lem :
      PanicsOnly (AllTaken os.swap) (IsAllocated os pid vpn) (Eviction.allocate_frame os pid vpn)
  unfolding Eviction.allocate_frame take_frame
  allocate_frame_lem = elim (allocate_frame-cases os.frames) [
    | inr (frame, rest, e, a) ↦
        let same = unchanged os in
        let kept : (p v : ℕ) → Kept os os p v = λ p v. stays refl (λ i lt u. refl) in
        rw a (
          returns _ (registers os os h pid vpn frame rest e kept same)
            (handed_lem os os h pid vpn frame rest e kept same))
    | inl (e, a) ↦ after_evict a (evict_page_lem os h e)
  ]
