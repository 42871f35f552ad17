-- ===== src/Kernel/Swap/Laws.antt =====
-- Pages go out to the swap area and come back.
use rv32umos.Base.{
  ℕ, zero, suc, ◌+◌, ◌^◌, ◌<◌, ◌≤◌, ◌≡◌, ◌≢◌, refl, sym, ap, ◌∙◌, arith, true, false, Bool-cases,
  inl, inr, ◌⊎◌, ◌==◌, update, ℤ, pos, negsuc, eqb_ℤ,
}
use rv32umos.Kernel.Disk.{Disk, Buffer, write_block}
use rv32umos.Kernel.Disk.Laws.{IsSmall}
use rv32umos.Kernel.Swap.{Swap, swap_out_loop, swap_out}

-- The swap area lies on the disk, and its slots are numbers of an int.
pub record IsSwap (d : Disk) (s : Swap) : Type 0 where
  pub small : IsSmall d
  pub on_disk : s.swap_start_block + s.swap_size ≤ d.total_blocks

-- Slot k is the first free one from i on.
abbrev pub FirstFree : Swap → ℕ → ℕ → Type 0
FirstFree s i k =
    (i ≤ k) × (s.allocation_map k ≡ false) × ((j : ℕ) → i ≤ j → j < k → s.allocation_map j ≡ true)

-- What a swap-out to slot k leaves.
abbrev pub swapped_out : Disk → Swap → Buffer → ℕ → Disk × Swap × ℤ
swapped_out d s buffer k = (
  write_block d (s.swap_start_block + k) buffer,
  record s { allocation_map = update s.allocation_map k true },
  pos k,
)

-- Every slot below `n` is taken, or one is free.
pub free-cases :
    (s : Swap) (n : ℕ)
    → ((j : ℕ) → j < n → s.allocation_map j ≡ true)
      ⊎ ((k : ℕ) × (k < n) × (s.allocation_map k ≡ false))
free-cases s zero = inl (λ j q. absurd (omega arith))
free-cases s (suc n) = elim (Bool-cases (s.allocation_map n)) [
  | inr free ↦ inr (n, omega arith, free)
  | inl taken ↦ elim (free-cases s n) [
    | inr (k, q, free) ↦ inr (k, omega arith, free)
    | inl all ↦ inl (λ j q. elim (Bool-cases (j == n)) [
      | inl same ↦ ap s.allocation_map (ground arith) ∙ taken
      | inr other ↦ all j (ground arith)
    ])
  ]
]

module _ (d : Disk) (s : Swap) (buffer : Buffer) (hs : s.swap_size < 2 ^ 31) where
  loop-full :
      (left i : ℕ)
      → ((j : ℕ) → i ≤ j → j < i + left → s.allocation_map j ≡ true)
      → swap_out_loop d s buffer left i ≡ (d, s, negsuc 0)
  unfolding swap_out_loop
  loop-full zero i all = refl
  loop-full (suc left) i all =
      rw (all i (omega arith) (omega arith))
        (loop-full left (i + 1) (λ j p q. all j (omega arith) (omega arith)))

  loop-free :
      (left i k : ℕ)
      → k < i + left
      → i + left ≤ s.swap_size
      → s.allocation_map k ≡ false
      → i ≤ k
      → (m : ℕ) × FirstFree s i m
        × (m < i + left)
        × (swap_out_loop d s buffer left i ≡ swapped_out d s buffer m)
  unfolding swap_out_loop
  loop-free zero i k hk hl free le = absurd (omega arith)
  loop-free (suc left) i k hk hl free le = elim (Bool-cases (s.allocation_map i)) [
    | inl taken ↦
        let differs : k ≢ i = λ q. cc in
        let (m, (im, fm, before), lt, e) =
          loop-free left (i + 1) k (omega arith) (omega arith) free (omega (arith, differs)) in
        (
          m,
          (
            omega arith,
            fm,
            λ j p q. elim (Bool-cases (j == i)) [
              | inl same ↦ ap s.allocation_map (ground arith) ∙ taken
              | inr other ↦ before j (ground arith) q
            ],
          ),
          omega arith,
          rw taken e,
        )
    | inr free_here ↦ (
      i,
      (omega arith, free_here, λ j p q. absurd (omega arith)),
      omega arith,
      rw free_here (
          ap
            (λ z. (
              write_block d (s.swap_start_block + i) buffer,
              record s { allocation_map = update s.allocation_map i true },
              z,
            ))
            (ground arith)),
    )
  ]

  -- With every slot taken, a swap-out returns -1 and changes neither the disk nor the slots.
  pub swap_out-full :
      ((j : ℕ) → j < s.swap_size → s.allocation_map j ≡ true)
      → swap_out d s buffer ≡ (d, s, negsuc 0)
  unfolding swap_out
  swap_out-full all = loop-full s.swap_size 0 (λ j p q. all j (omega arith))

  -- With slot k free, a swap-out takes the first free one.
  pub swap_out-free :
      (k : ℕ)
      → k < s.swap_size
      → s.allocation_map k ≡ false
      → (m : ℕ) × FirstFree s 0 m
        × (m < s.swap_size)
        × (swap_out d s buffer ≡ swapped_out d s buffer m)
  unfolding swap_out
  swap_out-free k hk free =
      let (m, first, lt, e) =
        loop-free s.swap_size 0 k (omega arith) (omega arith) free (omega arith) in
      (m, first, omega arith, e)

  -- A swap-out that returns a slot has taken a free one.
  pub swap_out-slot :
      (d' : Disk) (s' : Swap) (slot : ℤ)
      → swap_out d s buffer ≡ (d', s', slot)
      → eqb_ℤ slot (negsuc 0) ≡ false
      → (m : ℕ) × (s.allocation_map m ≡ false)
        × (m < s.swap_size)
        × ((d', s', slot) ≡ swapped_out d s buffer m)
  swap_out-slot d' s' slot e room = elim (free-cases s s.swap_size) [
    | inl all ↦
        let full : slot ≡ negsuc 0 =
          ap (λ (t : Disk × Swap × ℤ). t.2) (sym e ∙ swap_out-full all) in
        absurd (cc (sym room ∙ ap (λ z. eqb_ℤ z (negsuc 0)) full))
    | inr (k, lt, free) ↦
        let (m, (_, fm, _), hm, q) = swap_out-free k lt free in (m, fm, hm, sym e ∙ q)
  ]
