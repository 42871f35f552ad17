-- ===== src/Kernel/Eviction/Invariant.antt =====
-- Who holds which frame: the page tables, the frame table, the free list and the replacement queue
-- agree.
use rv32umos.Base.{
  ℕ, ◌*◌, ◌/◌, ◌<◌, ◌≡◌, ◌≢◌, inl, inr, refl, sym, ap, ◌∙◌, arith, true, false, ◌&&◌, List, ◌==◌,
  if◌then◌else◌, contains, pos, subst, to_word, Bool-cases,
}
use rv32umos.Vm.PageTable.{Pte}
use rv32umos.Vm.PageTable.Laws.{lookup-insert}
use rv32umos.Kernel.Frames.{Frames, FrameInfo}
use rv32umos.Kernel.Frames.Laws.{IsFrames, freed, not_free, freed-IsFrames}
use rv32umos.Kernel.Process.{max_process}
use rv32umos.Kernel.Os.{Os}
use rv32umos.Kernel.Eviction.{entry, set_entry}

pub entry-set_entry :
    (os : Os) (p v : ℕ) (pte : Pte) (q w : ℕ)
    → entry (set_entry os p v pte) q w ≡ (if (q == p) && (w == v) then pte else entry os q w)
entry-set_entry os p v pte q w = elim (Bool-cases (q == p)) [
  | inl same ↦
      rw (same, lookup-insert (os.system.cpu.mmu.tables p) v w pte)
        (elim (Bool-cases (w == v)) [
          | inl page ↦ rw page refl
          | inr other ↦ rw other (ap (λ (t : ℕ). entry os t w) {x = p} {y = q} (ground arith))
        ])
  | inr other ↦ rw other refl
]

module _ (os : Os) (p v : ℕ) (pte : Pte) (q w : ℕ) where
  pub entry_changed : (q == p) && (w == v) ≡ true → entry (set_entry os p v pte) q w ≡ pte
  entry_changed e = rw (entry-set_entry os p v pte q w, e)

  pub entry_kept : (q == p) && (w == v) ≡ false → entry (set_entry os p v pte) q w ≡ entry os q w
  entry_kept e = rw (entry-set_entry os p v pte q w, e)

-- The frame of an entry is one of the 16 of the RAM, and is registered for that page of that
-- process.
pub record Owns (frames : Frames) (p v : ℕ) (pte : Pte) : Type 0 where
  pub process : p < max_process
  pub frame : pte.ppn < 16
  pub registered :
      frames.frame_table pte.ppn ≡ record { owner_pid = pos p; vpn = v; allocated = true }

pub record IsPaged (os : Os) : Type 0 where
  pub frames : IsFrames os.frames
  pub queue : (n : ℕ) → contains os.queue n ≡ true → n < 16
  pub queued : (n : ℕ) → (os.frames.frame_table n).allocated ≡ true → contains os.queue n ≡ true
  pub covered :
      (n : ℕ)
      → n < 16
      → (os.frames.frame_table n).allocated ≡ false
      → contains os.frames.free_frames (n * 4096) ≡ true
  pub owns : (p v : ℕ) → (entry os p v).valid ≡ true → Owns os.frames p v (entry os p v)

-- No two pages share a frame.
pub frame-alone :
    (os : Os) (p v q w : ℕ)
    → IsPaged os
    → (entry os p v).valid ≡ true
    → (entry os q w).valid ≡ true
    → (entry os p v).ppn ≡ (entry os q w).ppn
    → (p ≡ q) × (v ≡ w)
frame-alone os p v q w h hp hq e =
    let a = (h.owns p v hp).registered in
    let b = (h.owns q w hq).registered in
    let same = sym a ∙ ap os.frames.frame_table e ∙ b in
    (ground (arith, same), ground (arith, same))

-- The process and the page that a frame is registered for.
abbrev pub owner : Os → ℕ → ℕ
owner os victim = to_word (os.frames.frame_table victim).owner_pid

abbrev pub page : Os → ℕ → ℕ
page os victim = (os.frames.frame_table victim).vpn

abbrev pub unmapped : Os → ℕ → List ℕ → Pte → Os
unmapped os victim left pte = record (set_entry os (owner os victim) (page os victim) pte) {
  frames = freed os.frames (victim * 4096);
  queue = left;
}

-- A victim's page loses its frame.
module _ (os : Os) (h : IsPaged os) (victim : ℕ) (left : List ℕ) (lt : victim < 16)
    (used : (os.frames.frame_table victim).allocated ≡ true)
    (fewer : (n : ℕ) → contains left n ≡ true → contains os.queue n ≡ true)
    (others : (n : ℕ)
      → n ≢ victim
      → (os.frames.frame_table n).allocated ≡ true
      → contains os.queue n ≡ true
      → contains left n ≡ true) where
  slot : victim * 4096 / 4096 ≡ victim
  slot = omega arith

  -- Another frame's entry in the table.
  table_other :
      (n : ℕ)
      → n ≢ victim
      → (freed os.frames (victim * 4096)).frame_table n ≡ os.frames.frame_table n
  table_other n d = ground (arith, slot)

  unmapped-Owns :
      (pte : Pte) (p v : ℕ)
      → (p == owner os victim) && (v == page os victim) ≡ false
      → (entry os p v).valid ≡ true
      → Owns (freed os.frames (victim * 4096)) p v (entry os p v)
  unmapped-Owns pte p v apart valid =
      let o = h.owns p v valid in
      let differs : (entry os p v).ppn ≢ victim = λ e.
        let r : os.frames.frame_table victim
            ≡ record { owner_pid = pos p; vpn = v; allocated = true } =
          ap os.frames.frame_table (sym e) ∙ o.registered in
        let po : owner os victim ≡ p =
          ap (λ (i : FrameInfo). to_word i.owner_pid) r ∙ omega (arith, o.process) in
        let pv : page os victim ≡ v = ap (λ (i : FrameInfo). i.vpn) r in ground (arith, po, pv) in
      record {
        process = o.process;
        frame = o.frame;
        registered = table_other (entry os p v).ppn differs ∙ o.registered;
      }

  pub unmapped-IsPaged : (pte : Pte) → pte.valid ≡ false → IsPaged (unmapped os victim left pte)
  unmapped-IsPaged pte invalid = record {
    frames =
        freed-IsFrames os.frames (victim * 4096) h.frames (omega arith)
          (omega (arith, h.frames.total))
          (not_free os.frames (victim * 4096) h.frames
            (ap (λ (t : ℕ). (os.frames.frame_table t).allocated) slot ∙ used));
    queue = λ n q. h.queue n (fewer n q);
    queued = λ n q. elim (Bool-cases (n == victim)) [
      | inl same ↦ absurd (ground (arith, slot))
      | inr other ↦
          let d : n ≢ victim = ground arith in
          let a : (os.frames.frame_table n).allocated ≡ true =
            ap (λ (i : FrameInfo). i.allocated) (sym (table_other n d)) ∙ q in
          others n d a (h.queued n a)
    ];
    covered = λ n hn q. elim (Bool-cases (n == victim)) [
      | inl same ↦ ground arith
      | inr other ↦
          let d : n ≢ victim = ground arith in
          let old : contains os.frames.free_frames (n * 4096) ≡ true =
            h.covered n hn (ap (λ (i : FrameInfo). i.allocated) (sym (table_other n d)) ∙ q) in
          ground arith
    ];
    owns = λ p v q. elim (Bool-cases ((p == owner os victim) && (v == page os victim))) [
      | inl same ↦
          absurd (cc (entry_changed os (owner os victim) (page os victim) pte p v same, q, invalid))
      | inr other ↦
          let e : entry (set_entry os (owner os victim) (page os victim) pte) p v ≡ entry os p v =
            entry_kept os (owner os victim) (page os victim) pte p v other in
          subst (λ z. Owns (freed os.frames (victim * 4096)) p v z) (sym e)
            (unmapped-Owns pte p v other (ap (λ (z : Pte). z.valid) (sym e) ∙ q))
    ];
  }
