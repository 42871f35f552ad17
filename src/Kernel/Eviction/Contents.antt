-- ===== src/Kernel/Eviction/Contents.antt =====
-- The bytes of a page, in its frame or in its slot, and what an eviction does to them.
use rv32umos.Base.{
  ℕ, ◌+◌, ◌*◌, ◌/◌, ◌^◌, ◌<◌, ◌≡◌, ◌≢◌, refl, sym, ap, ◌∙◌, subst, arith, true, false, ◌&&◌, List,
  ◌==◌, if◌then◌else◌, ◌⊎◌, pos, to_word, Bool-cases, inl, inr,
}
use rv32umos.Vm.Memory.Loops.{IsBytes}
use rv32umos.Vm.PageTable.{Pte}
use rv32umos.Kernel.Disk.Laws.{block}
use rv32umos.Kernel.Swap.Laws.{IsSwap}
use rv32umos.Kernel.Frames.{FrameInfo}
use rv32umos.Kernel.Frames.Laws.{freed}
use rv32umos.Kernel.Frames.Victims.{IsVictim}
use rv32umos.Kernel.Os.{Os, ram}
use rv32umos.Kernel.Eviction.{entry, is_clean}
use rv32umos.Kernel.Eviction.Invariant.{
  IsPaged, owner, page, unmapped, unmapped-IsPaged, entry_changed, entry_kept,
}
use rv32umos.Kernel.Eviction.Cases.{dropped, in_slot, victim_entry}

-- Byte i of a page that has a frame or a slot.
abbrev pub byte_of : Os → Pte → ℕ → ℕ
byte_of os pte i =
    if pte.valid
    then (ram os).bytes (pte.ppn * 4096 + i)
    else block os.disk (os.swap.swap_start_block + pte.ppn) i

abbrev pub page_byte : Os → ℕ → ℕ → ℕ → ℕ
page_byte os p v i = byte_of os (entry os p v) i

-- A page that is in its slot.
abbrev pub IsOut : Pte → Type 0
IsOut pte = (pte.valid ≡ false) × (pte.swapped ≡ true)

-- The virtual memory is consistent: each page in use is in the one frame that is registered for it,
-- or in a slot of its own. The frame `hole` is registered for a page that has no entry yet; 16 is no
-- frame.
pub record IsVirtual (os : Os) (hole : ℕ) : Type 0 where
  pub paged : IsPaged os
  pub bytes : IsBytes (ram os)
  pub held :
      (n : ℕ)
      → n ≢ hole
      → (os.frames.frame_table n).allocated ≡ true
      → ((victim_entry os n).valid ≡ true) × ((victim_entry os n).ppn ≡ n)
  pub swap : IsSwap os.disk os.swap
  pub size : os.swap.swap_size < 2 ^ 31
  pub slots :
      (p v : ℕ)
      → IsOut (entry os p v)
      → ((entry os p v).ppn < os.swap.swap_size)
        × (os.swap.allocation_map (entry os p v).ppn ≡ true)
  pub unique :
      (p v q w : ℕ)
      → IsOut (entry os p v)
      → IsOut (entry os q w)
      → (entry os p v).ppn ≡ (entry os q w).ppn
      → (p ≡ q) × (v ≡ w)

-- A page that is read-only, or has never been swapped out and not been written since it was mapped.
abbrev pub Droppable : Pte → Type 0
Droppable pte = (pte.can_write ≡ false) ⊎ ((pte.dirty ≡ false) × (pte.swapped ≡ false))

is_clean-Droppable : (pte : Pte) → is_clean pte ≡ true → Droppable pte
is_clean-Droppable pte clean = elim (Bool-cases pte.can_write) [
  | inr read_only ↦ inl read_only
  | inl writable ↦ inr (ground (arith, writable, clean), ground (arith, writable, clean))
]

-- What may become of a page when another one needs a frame: nothing; or it had a frame and was
-- read-only or unchanged, and is dropped; or it had a frame and its bytes are now in a slot.
pub data Kept (os os' : Os) (p v : ℕ) : Type 0 where
  stays :
      entry os' p v ≡ entry os p v
      → ((i : ℕ)
          → i < 4096
          → ((entry os p v).valid ≡ true) ⊎ IsOut (entry os p v)
          → page_byte os' p v i ≡ page_byte os p v i)
      → Kept os os' p v
  is_dropped :
      (entry os p v).valid ≡ true
      → Droppable (entry os p v)
      → entry os' p v ≡ dropped (entry os p v)
      → Kept os os' p v
  moves :
      (slot : ℕ)
      → (entry os p v).valid ≡ true
      → entry os' p v ≡ in_slot (entry os p v) (pos slot)
      → ((i : ℕ) → i < 4096 → page_byte os' p v i ≡ page_byte os p v i)
      → Kept os os' p v

-- What leaves an entry and the bytes of its page alone.
pub Kept-then :
    (os₀ os os' : Os) (p v : ℕ)
    → Kept os₀ os p v
    → entry os' p v ≡ entry os p v
    → ((i : ℕ)
        → i < 4096
        → ((entry os p v).valid ≡ true) ⊎ IsOut (entry os p v)
        → page_byte os' p v i ≡ page_byte os p v i)
    → Kept os₀ os' p v
Kept-then os₀ os os' p v (stays e b) e' b' =
    stays (e' ∙ e)
      (λ i lt u. b' i lt (used_now (entry os₀ p v) (entry os p v) (sym e) u) ∙ b i lt u)
  where
    used_now : (x y : Pte) → x ≡ y → (x.valid ≡ true) ⊎ IsOut x → (y.valid ≡ true) ⊎ IsOut y
    used_now x y q (inl valid) = inl (ap (λ (z : Pte). z.valid) (sym q) ∙ valid)
    used_now x y q (inr out) =
        inr (ap (λ (z : Pte). z.valid) (sym q) ∙ out.0, ap (λ (z : Pte). z.swapped) (sym q) ∙ out.1)
Kept-then os₀ os os' p v (is_dropped valid clean e) e' b' = is_dropped valid clean (e' ∙ e)
Kept-then os₀ os os' p v (moves slot valid e b) e' b' =
    moves slot valid (e' ∙ e)
      (λ i lt. b' i lt (inr (ap (λ (z : Pte). z.valid) e, ap (λ (z : Pte). z.swapped) e)) ∙ b i lt)

module _ (os : Os) (h : IsVirtual os 16) (victim : ℕ) (left : List ℕ)
    (v : IsVictim os.queue os.frames.frame_table victim left) where
  pub frame-lt : victim < 16
  frame-lt = h.paged.queue victim v.listed

  pub victim_held :
      ((victim_entry os victim).valid ≡ true) × ((victim_entry os victim).ppn ≡ victim)
  victim_held = h.held victim (omega (arith, frame-lt)) v.allocated

  abbrev pub gone : Pte → Os
  gone pte = unmapped os victim left pte

  pub gone-IsPaged : (pte : Pte) → pte.valid ≡ false → IsPaged (gone pte)
  gone-IsPaged pte e =
      unmapped-IsPaged os h.paged victim left frame-lt v.allocated v.fewer v.others pte e

  -- An entry is the victim's, or as it was.
  pub gone-cases :
      (pte : Pte) (p q : ℕ)
      → ((p ≡ owner os victim) × (q ≡ page os victim) × (entry (gone pte) p q ≡ pte))
        ⊎ (((p == owner os victim) && (q == page os victim) ≡ false)
            × (entry (gone pte) p q ≡ entry os p q))
  gone-cases pte p q = elim (Bool-cases ((p == owner os victim) && (q == page os victim))) [
    | inl same ↦ inl (
      ground arith,
      ground arith,
      entry_changed os (owner os victim) (page os victim) pte p q same,
    )
    | inr other ↦ inr (other, entry_kept os (owner os victim) (page os victim) pte p q other)
  ]

  gone-table :
      (n : ℕ)
      → ((freed os.frames (victim * 4096)).frame_table n).allocated ≡ true
      → (n ≢ victim) × ((freed os.frames (victim * 4096)).frame_table n ≡ os.frames.frame_table n)
  gone-table n a =
      let slot : victim * 4096 / 4096 ≡ victim = omega arith in
      let differs : n ≢ victim = λ q. ground arith in (differs, ground arith)

  abbrev pub HeldBy : Pte → ℕ → FrameInfo → Type 0
  HeldBy pte n info =
      ((entry (gone pte) (to_word info.owner_pid) info.vpn).valid ≡ true)
      × ((entry (gone pte) (to_word info.owner_pid) info.vpn).ppn ≡ n)

  pub gone-held :
      (pte : Pte) (n : ℕ)
      → n ≢ 16
      → ((gone pte).frames.frame_table n).allocated ≡ true
      → HeldBy pte n ((gone pte).frames.frame_table n)
  gone-held pte n ne a =
      let (differs, te) = gone-table n a in
      let old = h.held n ne (ap (λ (i : FrameInfo). i.allocated) (sym te) ∙ a) in
      subst (HeldBy pte n) (sym te) (elim (gone-cases pte (owner os n) (page os n)) [
        | inl (po, pp, e) ↦ absurd (
            differs (
              sym old.1
              ∙ ap (λ (t : ℕ). (entry os t (page os n)).ppn) po
              ∙ ap (λ (t : ℕ). (entry os (owner os victim) t).ppn) pp
              ∙ victim_held.1))
        | inr (other, e) ↦ (ap (λ (z : Pte). z.valid) e ∙ old.0, ap (λ (z : Pte). z.ppn) e ∙ old.1)
      ])

  -- A page that is out was out before, unless it is the victim's.
  pub gone-IsOut :
      (pte : Pte) (p q : ℕ)
      → pte.swapped ≡ false
      → IsOut (entry (gone pte) p q)
      → IsOut (entry os p q) × (entry (gone pte) p q ≡ entry os p q)
  gone-IsOut pte p q ns (nv, sw) = elim (gone-cases pte p q) [
    | inl (po, pp, e) ↦ absurd (cc (e, ns, sw))
    | inr (other, e) ↦
        ((ap (λ (z : Pte). z.valid) (sym e) ∙ nv, ap (λ (z : Pte). z.swapped) (sym e) ∙ sw), e)
  ]

  pub drops-IsVirtual : IsVirtual (gone (dropped (victim_entry os victim))) 16
  drops-IsVirtual = record {
    paged = gone-IsPaged _ refl;
    bytes = h.bytes;
    held = gone-held _;
    swap = h.swap;
    size = h.size;
    slots = λ p q out.
        let (o, e) = gone-IsOut _ p q refl out in
        subst (λ (z : Pte). (z.ppn < os.swap.swap_size) × (os.swap.allocation_map z.ppn ≡ true))
          (sym e) (h.slots p q o);
    unique = λ p q p' q' out out' same.
        let (o, e) = gone-IsOut _ p q refl out in
        let (o', e') = gone-IsOut _ p' q' refl out' in
        h.unique p q p' q' o o'
          (ap (λ (z : Pte). z.ppn) (sym e) ∙ same ∙ ap (λ (z : Pte). z.ppn) e');
  }

  pub drops-Kept :
      is_clean (victim_entry os victim) ≡ true
      → (p q : ℕ) → Kept os (gone (dropped (victim_entry os victim))) p q
  drops-Kept clean p q = elim (gone-cases (dropped (victim_entry os victim)) p q) [
    | inl (po, pp, e) ↦
        let same : entry os p q ≡ victim_entry os victim =
          ap (λ (t : ℕ). entry os t q) po ∙ ap (λ (t : ℕ). entry os (owner os victim) t) pp in
        is_dropped (ap (λ (z : Pte). z.valid) same ∙ victim_held.0)
          (is_clean-Droppable (entry os p q) (ap is_clean same ∙ clean)) (e ∙ ap dropped (sym same))
    | inr (other, e) ↦ stays e (λ i lt' u. ap (λ z. byte_of os z i) e)
  ]
