-- ===== src/Kernel/Swap/Roundtrip.antt =====
-- A page that goes out to the swap area comes back as it was, and no other block changes.
use rv32umos.Base.{
  ℕ, ◌+◌, ◌-◌, ◌^◌, ◌<◌, ◌≡◌, ◌≢◌, sym, ap, ◌∙◌, arith, true, false, ◌⊎◌, inl, inr, pos, ne→==,
  update,
}
use rv32umos.Kernel.Disk.{Disk, Buffer, block_size, write_block, read_block}
use rv32umos.Kernel.Disk.Laws.{
  IsBlock, block, read_block-in_range, write_block-block, write_block-blocks,
}
use rv32umos.Kernel.Swap.{Swap, swap_out, swap_in}
use rv32umos.Kernel.Swap.Laws.{IsSwap, swap_out-free}

pub swap_in-in_range :
    (d : Disk) (s : Swap) (target : Buffer) (m : ℕ)
    → m < s.swap_size
    → swap_in d s target (pos m) ≡ (
      record s { allocation_map = update s.allocation_map m false },
      read_block d (s.swap_start_block + m) target,
    )
unfolding swap_in
swap_in-in_range d s target m h = ground arith

module _ (d : Disk) (s : Swap) (buffer : Buffer) (h : IsSwap d s) (hs : s.swap_size < 2 ^ 31)
    (hb : IsBlock buffer) (k : ℕ) (hk : k < s.swap_size) (free : s.allocation_map k ≡ false) where
  -- With a slot free, a swap-out of a block of bytes and a swap-in, into any buffer of one block,
  -- of the slot that it returned give the bytes back and leave the slots as they were before both.
  pub swap_in-swap_out :
      (target : Buffer)
      → IsBlock target
      → let (d', s', slot) = swap_out d s buffer in
        let (s'', result) = swap_in d' s' target slot in
        ((j : ℕ) → j < block_size → result.bytes j ≡ buffer.bytes j)
        × ((i : ℕ) → s''.allocation_map i ≡ s.allocation_map i)
  swap_in-swap_out target ht =
      let (m, (_, fm, _), lt, e) = swap_out-free d s buffer hs k hk free in
      let d' : Disk = write_block d (s.swap_start_block + m) buffer in
      let s' : Swap = record s { allocation_map = update s.allocation_map m true } in
      let blocks : d'.total_blocks ≡ d.total_blocks =
        write_block-blocks d (s.swap_start_block + m) buffer in
      rw (e, swap_in-in_range d' s' target m lt)
        (
          λ j p.
              read_block-in_range d' (s.swap_start_block + m) j target
                (omega (arith, blocks, h.small)) ht (omega (arith, blocks, h.on_disk)) p
              ∙ write_block-block d (s.swap_start_block + m) (s.swap_start_block + m) j buffer
                  h.small hb (omega (arith, h.on_disk)) p
              ∙ ground arith,
          λ i. ground (arith, fm),
        )

  -- With a slot free, a swap-out of a block of bytes leaves every block as it was that lies below
  -- the swap area or in a slot that was taken.
  pub swap_out-others :
      (b j : ℕ)
      → (b < s.swap_start_block) ⊎ (s.allocation_map (b - s.swap_start_block) ≡ true)
      → j < block_size
      → block (swap_out d s buffer).0 b j ≡ block d b j
  swap_out-others b j apart hj =
      let (m, (_, fm, _), lt, e) = swap_out-free d s buffer hs k hk free in
      rw e (
        write_block-block d (s.swap_start_block + m) b j buffer h.small hb
          (omega (arith, h.on_disk)) hj
        ∙ rw (ne→== b (s.swap_start_block + m) (differs m fm)))
    where
      differs : (m : ℕ) → s.allocation_map m ≡ false → b ≢ s.swap_start_block + m
      differs m fm q = elim apart [
        | inl below ↦ omega arith
        | inr taken ↦ cc (sym taken ∙ ap s.allocation_map (omega arith) ∙ fm)
      ]
