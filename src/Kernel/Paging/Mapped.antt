-- ===== src/Kernel/Paging/Mapped.antt =====
-- The page that a fault was about gets its entry.
use rv32umos.Base.{
  ℕ, ◌+◌, ◌*◌, ◌/◌, ◌<◌, ◌≡◌, ◌≢◌, refl, sym, ap, ◌∙◌, subst, arith, true, false, ◌&&◌, ◌==◌, ◌⊎◌,
  pos, pos_part, to_word, Bool-cases, inl, inr,
}
use rv32umos.Vm.Memory.{Memory}
use rv32umos.Vm.Memory.Loops.{IsBytes}
use rv32umos.Vm.PageTable.{Pte}
use rv32umos.Kernel.Swap.{Swap}
use rv32umos.Kernel.Frames.{FrameInfo}
use rv32umos.Kernel.Process.{max_process}
use rv32umos.Kernel.Os.{Os, ram, set_ram}
use rv32umos.Kernel.Eviction.{entry, set_entry}
use rv32umos.Kernel.Eviction.Invariant.{Owns, entry_changed, entry_kept}
use rv32umos.Kernel.Eviction.Handout.{mapped-IsPaged, set_ram-IsPaged, set_swap-IsPaged}
use rv32umos.Kernel.Eviction.Contents.{IsVirtual, IsOut, Kept, Kept-then, byte_of}
use rv32umos.Kernel.Eviction.Allocate.{IsAllocated}

-- A memory that differs only in the frame at `paddr`.
pub record OnlyFrame (paddr : ℕ) (m m' : Memory) : Type 0 where
  pub bytes : IsBytes m'
  pub others : (j : ℕ) → j / 4096 ≢ paddr / 4096 → m'.bytes j ≡ m.bytes j

-- Slots for every page that is out, but for one page.
pub record KeepsSlots (os : Os) (pid vpn : ℕ) (s : Swap) : Type 0 where
  pub start : s.swap_start_block ≡ os.swap.swap_start_block
  pub size : s.swap_size ≡ os.swap.swap_size
  pub slots :
      (p v : ℕ)
      → (p == pid) && (v == vpn) ≡ false
      → IsOut (entry os p v)
      → s.allocation_map (entry os p v).ppn ≡ true

module _ (os₀ os : Os) (pid vpn paddr : ℕ) (a : IsAllocated os₀ pid vpn (os, paddr))
    (hp : pid < max_process) (invalid : (entry os pid vpn).valid ≡ false) (m : Memory)
    (only : OnlyFrame paddr (ram os) m) (s : Swap) (keeps : KeepsSlots os pid vpn s) (pte : Pte)
    (valid : pte.valid ≡ true) (ppn : pte.ppn ≡ paddr / 4096) where
  abbrev pub mapped : Os
  mapped = record (set_entry (set_ram os m) pid vpn pte) { swap = s }

  pub mapped-entry : entry mapped pid vpn ≡ pte
  mapped-entry = entry_changed (set_ram os m) pid vpn pte pid vpn (ground arith)

  owns : Owns os.frames pid vpn pte
  owns = record {
    process = hp;
    frame = omega (arith, ppn, a.in_ram);
    registered = ap os.frames.frame_table ppn ∙ a.registered;
  }

  -- An entry is the new one, or as it was.
  mapped-cases :
      (p v : ℕ)
      → ((p ≡ pid) × (v ≡ vpn) × (entry mapped p v ≡ pte))
        ⊎ (((p == pid) && (v == vpn) ≡ false) × (entry mapped p v ≡ entry os p v))
  mapped-cases p v = elim (Bool-cases ((p == pid) && (v == vpn))) [
    | inl same ↦ inl (ground arith, ground arith, entry_changed (set_ram os m) pid vpn pte p v same)
    | inr other ↦ inr (other, entry_kept (set_ram os m) pid vpn pte p v other)
  ]

  abbrev HeldBy : ℕ → FrameInfo → Type 0
  HeldBy n info =
      ((entry mapped (to_word info.owner_pid) info.vpn).valid ≡ true)
      × ((entry mapped (to_word info.owner_pid) info.vpn).ppn ≡ n)

  mapped-held :
      (n : ℕ) → (os.frames.frame_table n).allocated ≡ true → HeldBy n (os.frames.frame_table n)
  mapped-held n used = elim (Bool-cases (n == paddr / 4096)) [
    | inl here ↦
        let at : n ≡ paddr / 4096 = ground arith in
        let pid_word : to_word (pos pid) ≡ pid = omega (arith, hp) in
        subst (HeldBy n) (sym (ap os.frames.frame_table at ∙ a.registered)) (
          ap (λ (t : ℕ). (entry mapped t vpn).valid) pid_word
              ∙ ap (λ (z : Pte). z.valid) mapped-entry
              ∙ valid,
          ap (λ (t : ℕ). (entry mapped t vpn).ppn) pid_word
              ∙ ap (λ (z : Pte). z.ppn) mapped-entry
              ∙ ppn
              ∙ sym at,
        )
    | inr away ↦
        let old = a.virtual.held n (ground arith) used in
        elim (mapped-cases (to_word (os.frames.frame_table n).owner_pid)
          (os.frames.frame_table n).vpn) [
            | inl (po, pv, e) ↦ absurd (cc (sym invalid, old.0))
            | inr (_, e) ↦ (ap (λ (z : Pte). z.valid) e ∙ old.0, ap (λ (z : Pte). z.ppn) e ∙ old.1)
          ]
  ]

  mapped-IsOut :
      (p v : ℕ)
      → IsOut (entry mapped p v)
      → ((p == pid) && (v == vpn) ≡ false)
        × IsOut (entry os p v)
        × (entry mapped p v ≡ entry os p v)
  mapped-IsOut p v (nv, sw) = elim (mapped-cases p v) [
    | inl (_, _, e) ↦ absurd (cc (e, valid, nv))
    | inr (other, e) ↦ (
      other,
      (ap (λ (z : Pte). z.valid) (sym e) ∙ nv, ap (λ (z : Pte). z.swapped) (sym e) ∙ sw),
      e,
    )
  ]

  -- The new entry makes the virtual memory consistent again.
  pub mapped-IsVirtual : IsVirtual mapped 16
  mapped-IsVirtual = record {
    paged =
        set_swap-IsPaged _
          (mapped-IsPaged (set_ram os m) pid vpn pte (set_ram-IsPaged os a.virtual.paged m) owns) _
          s;
    bytes = only.bytes;
    held = λ n d used. mapped-held n used;
    swap = record {
      small = a.virtual.swap.small;
      on_disk = omega (arith, keeps.start, keeps.size, a.virtual.swap.on_disk);
    };
    size = omega (arith, keeps.size, a.virtual.size);
    slots = λ p v out.
        let (other, o, e) = mapped-IsOut p v out in
        subst (λ (z : Pte). (z.ppn < s.swap_size) × (s.allocation_map z.ppn ≡ true)) (sym e)
          (omega (arith, keeps.size, (a.virtual.slots p v o).0), keeps.slots p v other o);
    unique = λ p v q w out out' same.
        let (_, o, e) = mapped-IsOut p v out in
        let (_, o', e') = mapped-IsOut q w out' in
        a.virtual.unique p v q w o o'
          (ap (λ (z : Pte). z.ppn) (sym e) ∙ same ∙ ap (λ (z : Pte). z.ppn) e');
  }

  mapped-byte :
      (p v i : ℕ)
      → (p == pid) && (v == vpn) ≡ false
      → i < 4096
      → ((entry os p v).valid ≡ true) ⊎ IsOut (entry os p v)
      → byte_of mapped (entry os p v) i ≡ byte_of os (entry os p v) i
  mapped-byte p v i other lt (inl valid') =
      let o = a.virtual.paged.owns p v valid' in
      let differs : (entry os p v).ppn ≢ paddr / 4096 = λ q.
        let r : ◌≡◌ {A = FrameInfo} (record { owner_pid = pos p; vpn = v; allocated = true })
            (record { owner_pid = pos pid; vpn = vpn; allocated = true }) =
          sym o.registered ∙ ap os.frames.frame_table q ∙ a.registered in
        let po : p ≡ pid = ap (λ (z : FrameInfo). pos_part z.owner_pid) r in
        let pv : v ≡ vpn = ap (λ (z : FrameInfo). z.vpn) r in ground (arith, po, pv) in
      rw valid' (only.others ((entry os p v).ppn * 4096 + i) (λ q. differs (omega (arith, q, lt))))
  mapped-byte p v i other lt (inr out) = rw (out.0, keeps.start) refl

  -- What has become of the other pages is what the allocation did to them.
  pub mapped-Kept : (p v : ℕ) → (p == pid) && (v == vpn) ≡ false → Kept os₀ mapped p v
  mapped-Kept p v other =
      let e = entry_kept (set_ram os m) pid vpn pte p v other in
      Kept-then os₀ os mapped p v (a.kept p v) e
        (λ i lt u. ap (λ z. byte_of mapped z i) e ∙ mapped-byte p v i other lt u)
