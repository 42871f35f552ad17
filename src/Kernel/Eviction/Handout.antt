-- ===== src/Kernel/Eviction/Handout.antt =====
-- A free frame becomes the frame of a page.
use rv32umos.Base.{
  ℕ, ◌*◌, ◌/◌, ◌%◌, ◌<◌, ◌≡◌, ◌≢◌, sym, ap, ◌∙◌, arith, true, ◌&&◌, List, [], ◌∷◌, ◌++◌, ◌==◌,
  contains, contains-append, shr, pos, subst, Bool-cases, inl, inr,
}
use rv32umos.Vm.Memory.{Memory, memory_size}
use rv32umos.Vm.PageTable.{Pte}
use rv32umos.Kernel.Disk.{Disk}
use rv32umos.Kernel.Swap.{Swap}
use rv32umos.Kernel.Frames.{Frames, FrameInfo}
use rv32umos.Kernel.Frames.Laws.{owned, owned-IsFrames, HandsOut, takes_first}
use rv32umos.Kernel.Os.{Os, set_ram}
use rv32umos.Kernel.Eviction.{entry, set_entry}
use rv32umos.Kernel.Eviction.Invariant.{IsPaged, Owns, entry_changed, entry_kept}

module _ (os : Os) (h : IsPaged os) (frame : ℕ) (rest : List ℕ)
    (e : os.frames.free_frames ≡ frame ∷ rest) (pid vpn : ℕ) where
  abbrev pub taken : Frames
  taken = record os.frames { free_frames = rest }

  abbrev pub handed : Os
  handed = record os {
    frames = owned taken frame vpn (pos pid);
    queue = os.queue ++ (shr frame 12 ∷ []);
  }

  handed-HandsOut : HandsOut os.frames (taken, record { paddr = frame; status = true })
  handed-HandsOut = takes_first os.frames frame rest h.frames e

  pub handed-aligned : (frame % 4096 ≡ 0) × (frame < memory_size)
  handed-aligned = (handed-HandsOut.1, handed-HandsOut.2)

  pub handed-registered :
      handed.frames.frame_table (frame / 4096)
      ≡ record { owner_pid = pos pid; vpn = vpn; allocated = true }
  handed-registered = ground arith

  pub handed-kept :
      (n : ℕ) → n ≢ frame / 4096 → handed.frames.frame_table n ≡ os.frames.frame_table n
  handed-kept n d = ground arith

  handed-covered :
      (n : ℕ)
      → n ≢ frame / 4096
      → contains os.frames.free_frames (n * 4096) ≡ true
      → contains rest (n * 4096) ≡ true
  handed-covered n d c =
      let c' : contains (frame ∷ rest) (n * 4096) ≡ true =
        ap (λ l. contains l (n * 4096)) (sym e) ∙ c in
      let d' : n * 4096 ≢ frame = λ q. d (omega arith) in ground arith

  handed-Owns : (p v : ℕ) (pte : Pte) → Owns os.frames p v pte → Owns handed.frames p v pte
  handed-Owns p v pte o =
      let (_, _, _, _, free) = handed-HandsOut in
      let differs : pte.ppn ≢ frame / 4096 = λ q. cc (
        sym free,
        ap (λ (t : ℕ). (os.frames.frame_table t).allocated) (sym q)
            ∙ ap (λ (i : FrameInfo). i.allocated) o.registered,
      ) in
      record {
        process = o.process;
        frame = o.frame;
        registered = handed-kept pte.ppn differs ∙ o.registered;
      }

  pub handed-IsPaged : IsPaged handed
  handed-IsPaged =
      let (frames', al, lt, out, free) = handed-HandsOut in
      record {
        frames = owned-IsFrames taken frame vpn (pos pid) frames' al out;
        queue = λ n q. elim (Bool-cases (n == shr frame 12)) [
          | inl same ↦ ground arith
          | inr other ↦ h.queue n (ground (arith, contains-append os.queue (shr frame 12) n))
        ];
        queued = λ n q. elim (Bool-cases (n == shr frame 12)) [
          | inl same ↦ contains-append os.queue (shr frame 12) n ∙ ground arith
          | inr other ↦
              let d : n ≢ frame / 4096 = ground arith in
              let old : contains os.queue n ≡ true =
                h.queued n (ap (λ (i : FrameInfo). i.allocated) (sym (handed-kept n d)) ∙ q) in
              contains-append os.queue (shr frame 12) n ∙ ground arith
        ];
        covered = λ n hn q. elim (Bool-cases (n == frame / 4096)) [
          | inl same ↦ absurd (ground arith)
          | inr other ↦
              let d : n ≢ frame / 4096 = ground arith in
              handed-covered n d
                (h.covered n hn (ap (λ (i : FrameInfo). i.allocated) (sym (handed-kept n d)) ∙ q))
        ];
        owns = λ p v q. handed-Owns p v (entry os p v) (h.owns p v q);
      }

-- An entry that is made for a page with a registered frame.
pub mapped-IsPaged :
    (os : Os) (p v : ℕ) (pte : Pte)
    → IsPaged os
    → Owns os.frames p v pte
    → IsPaged (set_entry os p v pte)
mapped-IsPaged os p v pte h o = record {
  frames = h.frames;
  queue = h.queue;
  queued = h.queued;
  covered = h.covered;
  owns = λ q w valid. elim (Bool-cases ((q == p) && (w == v))) [
    | inl same ↦
        subst (λ z. Owns os.frames q w z) (sym (entry_changed os p v pte q w same))
          (subst (λ (t : ℕ). Owns os.frames t w pte) {x = p} {y = q} (ground arith)
            (subst (λ (t : ℕ). Owns os.frames p t pte) {x = v} {y = w} (ground arith) o))
    | inr other ↦
        let k : entry (set_entry os p v pte) q w ≡ entry os q w = entry_kept os p v pte q w other in
        subst (λ z. Owns os.frames q w z) (sym k)
          (h.owns q w (ap (λ (z : Pte). z.valid) (sym k) ∙ valid))
  ];
}

-- What leaves the page tables, the frames and the queue alone.
module _ (os : Os) (h : IsPaged os) where
  pub set_ram-IsPaged : (m : Memory) → IsPaged (set_ram os m)
  set_ram-IsPaged m = record {
    frames = h.frames;
    queue = h.queue;
    queued = h.queued;
    covered = h.covered;
    owns = h.owns;
  }

  pub set_swap-IsPaged : (d : Disk) (s : Swap) → IsPaged (record os { disk = d; swap = s })
  set_swap-IsPaged d s = record {
    frames = h.frames;
    queue = h.queue;
    queued = h.queued;
    covered = h.covered;
    owns = h.owns;
  }
