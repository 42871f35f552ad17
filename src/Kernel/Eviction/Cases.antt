-- ===== src/Kernel/Eviction/Cases.antt =====
-- The four ways in which `evictPage` ends.
use rv32umos.Base.{
  ℕ, ◌+◌, ◌*◌, ◌<◌, ◌≡◌, refl, ◌∙◌, arith, true, false, List, [], Result, ok, stop, panic, u32, ℤ,
  pos, negsuc, to_word, eqb_ℤ, Bool-cases, inl, inr, leb,
}
use rv32umos.Vm.Memory.{Memory}
use rv32umos.Vm.Memory.Loops.{IsBytes}
use rv32umos.Vm.PageTable.{Pte}
use rv32umos.Kernel.Disk.{Disk, Buffer}
use rv32umos.Kernel.Swap.{Swap, swap_out}
use rv32umos.Kernel.Frames.{kernel_page_size, free_frame}
use rv32umos.Kernel.Frames.Laws.{free_frame-in_range}
use rv32umos.Kernel.Frames.Fifo.{NoneOwned, find_victim-none}
use rv32umos.Kernel.Frames.Victims.{IsVictim, find-IsVictim-cases}
use rv32umos.Kernel.Process.{max_process}
use rv32umos.Kernel.Os.{Os, ram}
use rv32umos.Kernel.Eviction.{
  entry, evict_page, evict_found, evict_frame, evict_clean, evict_data, swapped_out, is_clean,
}
use rv32umos.Kernel.Eviction.Pages.{load_page_lem}
use rv32umos.Kernel.Eviction.Invariant.{IsPaged, owner, page, unmapped}

-- The entry of a page that is dropped, and of one that has gone to a slot.
abbrev pub dropped : Pte → Pte
dropped pte = record pte { valid = false; swapped = false; ppn = 0 }

abbrev pub in_slot : Pte → ℤ → Pte
in_slot pte slot = record pte { valid = false; swapped = true; ppn = to_word slot; dirty = false }

abbrev pub victim_entry : Os → ℕ → Pte
victim_entry os victim = entry os (owner os victim) (page os victim)

-- The buffer that holds a frame's bytes.
pub record IsPage (m : Memory) (victim : ℕ) (b : Buffer) : Type 0 where
  pub size : b.size ≡ kernel_page_size
  pub bytes : (j : ℕ) → j < kernel_page_size → b.bytes j ≡ m.bytes (victim * 4096 + j)

pub data Evicts (os : Os) (r : Result Os) : Type 0 where
  no_victim : NoneOwned os.queue os.frames.frame_table → r ≡ stop panic → Evicts os r
  drops :
      (victim : ℕ) (left : List ℕ)
      → IsVictim os.queue os.frames.frame_table victim left
      → is_clean (victim_entry os victim) ≡ true
      → r ≡ ok (unmapped os victim left (dropped (victim_entry os victim)))
      → Evicts os r
  swap_full :
      (victim : ℕ) (left : List ℕ) (b : Buffer) (d : Disk) (s : Swap) (slot : ℤ)
      → IsVictim os.queue os.frames.frame_table victim left
      → IsPage (ram os) victim b
      → swap_out os.disk os.swap b ≡ (d, s, slot)
      → eqb_ℤ slot (negsuc 0) ≡ true
      → r ≡ stop panic
      → Evicts os r
  swaps :
      (victim : ℕ) (left : List ℕ) (b : Buffer) (d : Disk) (s : Swap) (slot : ℤ)
      → IsVictim os.queue os.frames.frame_table victim left
      → is_clean (victim_entry os victim) ≡ false
      → IsPage (ram os) victim b
      → swap_out os.disk os.swap b ≡ (d, s, slot)
      → eqb_ℤ slot (negsuc 0) ≡ false
      → r
        ≡ ok (record (unmapped os victim left (in_slot (victim_entry os victim) slot)) {
          disk = d;
          swap = s;
        })
      → Evicts os r

module _ (os : Os) (h : IsPaged os) (hm : IsBytes (ram os)) where
  at : (victim : ℕ) → victim < 16 → u32 (victim * kernel_page_size) ≡ victim * 4096
  at victim lt = omega arith

  free_victim :
      (victim : ℕ)
      → victim < 16
      → free_frame os.frames (victim * 4096)
        ≡ ok (unmapped os victim [] (dropped (victim_entry os victim))).frames
  free_victim victim lt =
      free_frame-in_range os.frames (victim * 4096) (omega (arith, h.frames.total))

  data-Evicts :
      (victim : ℕ) (left : List ℕ)
      → victim < 16
      → IsVictim os.queue os.frames.frame_table victim left
      → is_clean (victim_entry os victim) ≡ false
      → Evicts os
          (evict_data (record os { queue = left }) victim (owner os victim) (page os victim))
  unfolding evict_data swapped_out
  data-Evicts victim left lt v dirty =
      let (bytes, e, all) =
        load_page_lem (ram os) (victim * 4096) (λ i. 0) kernel_page_size 0 hm (omega arith) in
      let b : Buffer = record { size = kernel_page_size; bytes = bytes } in
      let copied : IsPage (ram os) victim b = record {
        size = refl;
        bytes = λ j q. all j ∙ ground arith;
      } in
      let (d, s, slot) = swap_out os.disk os.swap b in
      rw (at victim lt, e)
        (elim (Bool-cases (eqb_ℤ slot (negsuc 0))) [
          | inl full ↦ rw full (swap_full victim left b d s slot v copied refl full refl)
          | inr room ↦
              rw (room, free_victim victim lt)
                (swaps victim left b d s slot v dirty copied refl room refl)
        ])

  -- The frames that are in use belong to processes of the list.
  pub evict_page-cases :
      ((n : ℕ) → n < 16 → (os.frames.frame_table n).allocated ≡ true → owner os n < max_process)
      → Evicts os (evict_page os)
  unfolding evict_page evict_found evict_frame evict_clean
  evict_page-cases owned =
      elim (find-IsVictim-cases os.queue os.frames.frame_table
        (λ n q. omega (arith, h.queue n q))) [
          | inl none ↦
              rw (find_victim-none os.queue os.frames.frame_table none) (no_victim none refl)
          | inr (victim, left, v) ↦
              let lt : victim < 16 = h.queue victim v.listed in
              let number : u32 victim ≡ victim = omega arith in
              let inside : leb max_process (owner os victim) ≡ false =
                ground (arith, owned victim lt v.allocated) in
              let found : eqb_ℤ (pos victim) (negsuc 0) ≡ false = ground arith in
              rw v.found (
                rw found (
                  rw (number, inside)
                    (elim (Bool-cases (is_clean (victim_entry os victim))) [
                      | inl clean ↦
                          rw (clean, at victim lt, free_victim victim lt)
                            (drops victim left v clean refl)
                      | inr dirty ↦ rw dirty (data-Evicts victim left lt v dirty)
                    ])))
        ]
