-- ===== src/Kernel/Eviction/Swapped.antt =====
-- The victim's bytes go to a free slot.
use rv32umos.Base.{
  ℕ, ◌+◌, ◌*◌, ◌<◌, ◌≡◌, ◌≢◌, refl, sym, ap, ◌∙◌, subst, arith, true, false, ◌==◌, List, ◌⊎◌,
  if◌then◌else◌, pos, update, inl, inr, ne→==, eq→==,
}
use rv32umos.Vm.PageTable.{Pte}
use rv32umos.Kernel.Disk.{Buffer, write_block}
use rv32umos.Kernel.Disk.Laws.{block, write_block-block, write_block-blocks}
use rv32umos.Kernel.Frames.Victims.{IsVictim}
use rv32umos.Kernel.Os.{Os, ram}
use rv32umos.Kernel.Eviction.{entry}
use rv32umos.Kernel.Eviction.Invariant.{owner, page}
use rv32umos.Kernel.Eviction.Handout.{set_swap-IsPaged}
use rv32umos.Kernel.Eviction.Cases.{in_slot, victim_entry, IsPage}
use rv32umos.Kernel.Eviction.Contents.{
  IsVirtual, IsOut, Kept, stays, moves, byte_of, victim_held, gone, gone-IsPaged, gone-cases,
  gone-held,
}

module _ (os : Os) (h : IsVirtual os 16) (victim : ℕ) (left : List ℕ)
    (v : IsVictim os.queue os.frames.frame_table victim left) (b : Buffer)
    (full : IsPage (ram os) victim b) (m : ℕ) (free : os.swap.allocation_map m ≡ false)
    (hm : m < os.swap.swap_size) where
  abbrev moved : Pte
  moved = in_slot (victim_entry os victim) (pos m)

  abbrev pub swapped : Os
  swapped = record (gone os h victim left v moved) {
    disk = write_block os.disk (os.swap.swap_start_block + m) b;
    swap = record os.swap { allocation_map = update os.swap.allocation_map m true };
  }

  number : moved.ppn ≡ m
  number = omega (arith, h.size)

  abbrev Slot : Pte → Type 0
  Slot z = (z.ppn < os.swap.swap_size) × (update os.swap.allocation_map m true z.ppn ≡ true)

  -- A page that is out is the victim's, in slot m, or was out before, in another slot.
  swapped-IsOut :
      (p q : ℕ)
      → IsOut (entry swapped p q)
      → ((p ≡ owner os victim) × (q ≡ page os victim) × ((entry swapped p q).ppn ≡ m))
        ⊎ (IsOut (entry os p q) × (entry swapped p q ≡ entry os p q) × ((entry os p q).ppn ≢ m))
  swapped-IsOut p q (nv, sw) = elim (gone-cases os h victim left v moved p q) [
    | inl (po, pp, e) ↦ inl (po, pp, ap (λ (z : Pte). z.ppn) e ∙ number)
    | inr (_, e) ↦
        let o : IsOut (entry os p q) =
          (ap (λ (z : Pte). z.valid) (sym e) ∙ nv, ap (λ (z : Pte). z.swapped) (sym e) ∙ sw) in
        inr (o, e, λ r. cc (sym free, ap os.swap.allocation_map (sym r) ∙ (h.slots p q o).1))
  ]

  swapped-slots : (p q : ℕ) → IsOut (entry swapped p q) → Slot (entry swapped p q)
  swapped-slots p q out = elim (swapped-IsOut p q out) [
    | inl (_, _, e) ↦ (omega (arith, e, hm), ground (arith, e))
    | inr (o, e, _) ↦ subst Slot (sym e) ((h.slots p q o).0, ground (arith, (h.slots p q o).1))
  ]

  swapped_unique :
      (p q p' q' : ℕ)
      → IsOut (entry swapped p q)
      → IsOut (entry swapped p' q')
      → (entry swapped p q).ppn ≡ (entry swapped p' q').ppn
      → (p ≡ p') × (q ≡ q')
  swapped_unique p q p' q' out out' same = elim (swapped-IsOut p q out) [
    | inl (po, pp, e) ↦ elim (swapped-IsOut p' q' out') [
      | inl (po', pp', e') ↦ (po ∙ sym po', pp ∙ sym pp')
      | inr (_, e', d) ↦ absurd (d (ap (λ (z : Pte). z.ppn) (sym e') ∙ sym same ∙ e))
    ]
    | inr (o, e, d) ↦ elim (swapped-IsOut p' q' out') [
      | inl (_, _, e') ↦ absurd (d (ap (λ (z : Pte). z.ppn) (sym e) ∙ same ∙ e'))
      | inr (o', e', _) ↦
          h.unique p q p' q' o o'
            (ap (λ (z : Pte). z.ppn) (sym e) ∙ same ∙ ap (λ (z : Pte). z.ppn) e')
    ]
  ]

  blocks : swapped.disk.total_blocks ≡ os.disk.total_blocks
  blocks = write_block-blocks os.disk (os.swap.swap_start_block + m) b

  -- What is in a block of the disk now.
  slot_byte :
      (k i : ℕ)
      → i < 4096
      → block swapped.disk k i
        ≡ (if k == os.swap.swap_start_block + m then b.bytes i else block os.disk k i)
  slot_byte k i lt =
      write_block-block os.disk (os.swap.swap_start_block + m) k i b h.swap.small full.size
        (omega (arith, h.swap.on_disk, hm)) lt

  moved_byte : (i : ℕ) → i < 4096 → byte_of swapped moved i ≡ byte_of os (victim_entry os victim) i
  moved_byte i lt =
      let (valid, ppn) = victim_held os h victim left v in
      rw valid (
        ap (λ (t : ℕ). block swapped.disk (os.swap.swap_start_block + t) i) number
        ∙ slot_byte (os.swap.swap_start_block + m) i lt
        ∙ rw (eq→== (os.swap.swap_start_block + m) (os.swap.swap_start_block + m) refl)
            (full.bytes i lt ∙ ap (λ (t : ℕ). (ram os).bytes (t * 4096 + i)) (sym ppn)))

  kept_byte :
      (p q i : ℕ)
      → i < 4096
      → ((entry os p q).valid ≡ true) ⊎ IsOut (entry os p q)
      → byte_of swapped (entry os p q) i ≡ byte_of os (entry os p q) i
  kept_byte p q i lt (inl valid) = rw valid
  kept_byte p q i lt (inr out) =
      let d : (entry os p q).ppn ≢ m =
        λ r. cc (sym free, ap os.swap.allocation_map (sym r) ∙ (h.slots p q out).1) in
      rw out.0 (
        slot_byte (os.swap.swap_start_block + (entry os p q).ppn) i lt
        ∙ rw (
            ne→== (os.swap.swap_start_block + (entry os p q).ppn) (os.swap.swap_start_block + m)
              (λ r. d (omega (arith, r)))))

  pub swapped-IsVirtual : IsVirtual swapped 16
  swapped-IsVirtual = record {
    paged = set_swap-IsPaged _ (gone-IsPaged os h victim left v moved refl) _ _;
    bytes = h.bytes;
    held = gone-held os h victim left v moved;
    swap = record {
      small = omega (arith, blocks, h.swap.small);
      on_disk = omega (arith, blocks, h.swap.on_disk);
    };
    size = h.size;
    slots = swapped-slots;
    unique = swapped_unique;
  }

  pub swapped-Kept : (p q : ℕ) → Kept os swapped p q
  swapped-Kept p q = elim (gone-cases os h victim left v moved p q) [
    | inl (po, pp, e) ↦
        let same : entry os p q ≡ victim_entry os victim =
          ap (λ (t : ℕ). entry os t q) po ∙ ap (λ (t : ℕ). entry os (owner os victim) t) pp in
        moves m (ap (λ (z : Pte). z.valid) same ∙ (victim_held os h victim left v).0)
          (e ∙ ap (λ z. in_slot z (pos m)) (sym same))
          (λ i lt.
            ap (λ z. byte_of swapped z i) e ∙ moved_byte i lt ∙ ap (λ z. byte_of os z i) (sym same))
    | inr (_, e) ↦ stays e (λ i lt u. ap (λ z. byte_of swapped z i) e ∙ kept_byte p q i lt u)
  ]
