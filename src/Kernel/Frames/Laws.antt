-- ===== src/Kernel/Frames/Laws.antt =====
-- No frame is handed out twice, over every sequence of allocations and releases.
use rv32umos.Base.{
  ℕ, ◌/◌, ◌%◌, ◌<◌, ◌≡◌, ◌≢◌, refl, ap, subst, arith, true, false, List, [], ◌∷◌, ok, ltb, ◌==◌,
  ◌&&◌, update, shr, ℤ, contains, Bool-cases, inl, inr, ◌⊎◌,
}
use rv32umos.Vm.Memory.{memory_size}
use rv32umos.Kernel.Frames.{
  Frames, FrameAllocInfo, allocate_from, init_loop, init, allocate_frame, free_frame,
  register_frame_owner, clear,
}

-- The free list starts with every frame of the RAM.
pub init-free : (f : ℕ) → contains init.free_frames f ≡ (f % 4096 == 0) && ltb f memory_size
unfolding init init_loop
init-free f = ground arith

-- No frame stands twice in the list.
abbrev pub Distinct : List ℕ → Type 0
Distinct [] = Unit {0}
Distinct (x ∷ xs) = (contains xs x ≡ false) × Distinct xs

-- The free frames are distinct, are pages of the RAM, and have no owner.
pub record IsFrames (f : Frames) : Type 0 where
  pub distinct : Distinct f.free_frames
  pub aligned : (p : ℕ) → contains f.free_frames p ≡ true → (p % 4096 ≡ 0) × (p < memory_size)
  pub unused :
      (p : ℕ) → contains f.free_frames p ≡ true → (f.frame_table (p / 4096)).allocated ≡ false
  pub total : f.total_frames ≡ 16

-- The first part of VirtualMemoryManager::allocateFrame, where a frame is free: the frame is taken
-- and its owner registered. And the release of a frame that has an owner.
pub data Step : Frames → Frames → Type 0 where
  allocates :
      {f f' : Frames} (vpn : ℕ) (pid : ℤ)
      → (allocate_frame f).1.status ≡ true
      → register_frame_owner (allocate_frame f).0 (shr (allocate_frame f).1.paddr 12) vpn pid
        ≡ ok f'
      → Step f f'
  frees :
      {f f' : Frames} (frame : ℕ)
      → frame % 4096 ≡ 0
      → (f.frame_table (frame / 4096)).allocated ≡ true
      → free_frame f frame ≡ ok f'
      → Step f f'

pub data Reachable : Frames → Type 0 where
  start : Reachable init
  later : {f f' : Frames} → Reachable f → Step f f' → Reachable f'

pub init-IsFrames : IsFrames init
unfolding init init_loop
init-IsFrames = record {
  distinct = (
    refl,
    (
      refl,
      (
        refl,
        (
          refl,
          (
            refl,
            (
              refl,
              (refl, (refl, (refl, (refl, (refl, (refl, (refl, (refl, (refl, (refl, tt)))))))))),
            ),
          ),
        ),
      ),
    ),
  );
  aligned = λ p h. ground (arith, init-free p);
  unused = λ p h. refl;
  total = refl;
}

abbrev pub freed : Frames → ℕ → Frames
freed f frame = record f {
  free_frames = frame ∷ f.free_frames;
  frame_table = update f.frame_table (frame / 4096) clear;
}

abbrev pub owned : Frames → ℕ → ℕ → ℤ → Frames
owned f frame vpn pid = record f {
  frame_table =
      update f.frame_table (frame / 4096) (record { allocated = true; owner_pid = pid; vpn = vpn });
}

pub free_frame-eq :
    (f f' : Frames) (frame : ℕ)
    → free_frame f frame ≡ ok f'
    → (frame / 4096 < f.total_frames) × (f' ≡ freed f frame)
unfolding free_frame
free_frame-eq f f' frame e = (ground arith, ground arith)

pub free_frame-in_range :
    (f : Frames) (frame : ℕ)
    → frame / 4096 < f.total_frames
    → free_frame f frame ≡ ok (freed f frame)
unfolding free_frame
free_frame-in_range f frame h = ground arith

pub register-in_range :
    (f : Frames) (frame vpn : ℕ) (pid : ℤ)
    → frame / 4096 < f.total_frames
    → register_frame_owner f (shr frame 12) vpn pid ≡ ok (owned f frame vpn pid)
unfolding register_frame_owner
register-in_range f frame vpn pid h = ground arith

pub register-eq :
    (f f' : Frames) (frame vpn : ℕ) (pid : ℤ)
    → register_frame_owner f (shr frame 12) vpn pid ≡ ok f'
    → f' ≡ owned f frame vpn pid
unfolding register_frame_owner
register-eq f f' frame vpn pid e = ground arith

-- Two pages in one frame of the table are the same.
same_page : (p q : ℕ) → p % 4096 ≡ 0 → q % 4096 ≡ 0 → p / 4096 ≡ q / 4096 → p ≡ q
same_page p q hp hq h = omega arith

-- A frame with an owner is not free.
pub not_free :
    (f : Frames) (frame : ℕ)
    → IsFrames f
    → (f.frame_table (frame / 4096)).allocated ≡ true
    → contains f.free_frames frame ≡ false
not_free f frame h used = elim (Bool-cases (contains f.free_frames frame)) [
  | inl listed ↦ absurd (cc (h.unused frame listed))
  | inr out ↦ out
]

pub freed-IsFrames :
    (f : Frames) (frame : ℕ)
    → IsFrames f
    → frame % 4096 ≡ 0
    → frame / 4096 < f.total_frames
    → contains f.free_frames frame ≡ false
    → IsFrames (freed f frame)
freed-IsFrames f frame h al lt out = record {
  distinct = (out, h.distinct);
  aligned = λ p q. elim (Bool-cases (p == frame)) [
    | inl same ↦ ground (arith, h.total)
    | inr other ↦ h.aligned p (ground arith)
  ];
  unused = λ p q. ground (arith, h.unused p);
  total = h.total;
}

pub owned-IsFrames :
    (f : Frames) (frame vpn : ℕ) (pid : ℤ)
    → IsFrames f
    → frame % 4096 ≡ 0
    → contains f.free_frames frame ≡ false
    → IsFrames (owned f frame vpn pid)
owned-IsFrames f frame vpn pid h al out = record {
  distinct = h.distinct;
  aligned = h.aligned;
  unused = λ p q.
      let differs : p ≢ frame = λ e. cc in
      ground (arith, h.unused p q, (h.aligned p q).0, same_page p frame);
  total = h.total;
}

-- The frame that is handed out, and what is left.
abbrev pub HandsOut : Frames → Frames × FrameAllocInfo → Type 0
HandsOut f (f', info) =
    IsFrames f'
    × (info.paddr % 4096 ≡ 0)
    × (info.paddr < memory_size)
    × (contains f'.free_frames info.paddr ≡ false)
    × ((f.frame_table (info.paddr / 4096)).allocated ≡ false)

pub takes_first :
    (f : Frames) (frame : ℕ) (rest : List ℕ)
    → IsFrames f
    → f.free_frames ≡ frame ∷ rest
    → HandsOut f (record f { free_frames = rest }, record { paddr = frame; status = true })
takes_first f frame rest h e =
    let (out, distinct) = subst Distinct e h.distinct in
    let listed : contains f.free_frames frame ≡ true = rw e (ground arith) in
    (
      record {
        distinct = distinct;
        aligned = λ p q. h.aligned p (tail_in p q);
        unused = λ p q. h.unused p (tail_in p q);
        total = h.total;
      },
      (h.aligned frame listed).0,
      (h.aligned frame listed).1,
      out,
      h.unused frame listed,
    )
  where
    tail_in : (p : ℕ) → contains rest p ≡ true → contains f.free_frames p ≡ true
    tail_in p q = rw e (ground arith)

allocate_from-HandsOut :
    (f : Frames) (free : List ℕ)
    → IsFrames f
    → f.free_frames ≡ free
    → (allocate_from f free).1.status ≡ true
    → HandsOut f (allocate_from f free)
unfolding allocate_from
allocate_from-HandsOut f [] h e s = cc
allocate_from-HandsOut f (frame ∷ rest) h e s = takes_first f frame rest h e

allocate_frame-HandsOut :
    (f : Frames) → IsFrames f → (allocate_frame f).1.status ≡ true → HandsOut f (allocate_frame f)
unfolding allocate_frame
allocate_frame-HandsOut f h s = allocate_from-HandsOut f f.free_frames h refl s

Step-IsFrames : {f f' : Frames} → Step f f' → IsFrames f → IsFrames f'
Step-IsFrames {f} {f'} (allocates vpn pid s e) h =
    let (h', al, lt, out, free) = allocate_frame-HandsOut f h s in
    rw (register-eq (allocate_frame f).0 f' (allocate_frame f).1.paddr vpn pid e)
      (owned-IsFrames (allocate_frame f).0 (allocate_frame f).1.paddr vpn pid h' al out)
Step-IsFrames {f} {f'} (frees frame al used e) h =
    let (lt, same) = free_frame-eq f f' frame e in
    rw same (freed-IsFrames f frame h al lt (not_free f frame h used))

Reachable-IsFrames : (f : Frames) → Reachable f → IsFrames f
Reachable-IsFrames f start = init-IsFrames
Reachable-IsFrames f' (later r s) = Step-IsFrames s (Reachable-IsFrames _ r)

pub allocate_frame-free :
    (f : Frames) (frame : ℕ) (rest : List ℕ)
    → f.free_frames ≡ frame ∷ rest
    → allocate_frame f ≡ (record f { free_frames = rest }, record { paddr = frame; status = true })
unfolding allocate_frame allocate_from
allocate_frame-free f frame rest e = ap (allocate_from f) e

-- What an allocation does, by whether a frame is free.
pub allocate_frame-cases :
    (f : Frames)
    → ((f.free_frames ≡ []) × (allocate_frame f ≡ (f, record { paddr = 0; status = false })))
      ⊎ ((frame : ℕ) × (rest : List ℕ) × (f.free_frames ≡ frame ∷ rest)
          × (allocate_frame f
              ≡ (record f { free_frames = rest }, record { paddr = frame; status = true })))
unfolding allocate_frame
allocate_frame-cases f = of_list f.free_frames refl
  where
    of_list :
        (free : List ℕ)
        → f.free_frames ≡ free
        → ((f.free_frames ≡ [])
            × (allocate_from f free ≡ (f, record { paddr = 0; status = false })))
          ⊎ ((frame : ℕ) × (rest : List ℕ) × (f.free_frames ≡ frame ∷ rest)
              × (allocate_from f free
                  ≡ (record f { free_frames = rest }, record { paddr = frame; status = true })))
    of_list [] e = inl (e, refl)
    of_list (frame ∷ rest) e = inr (frame, rest, e, refl)

-- After any sequence of allocations, each with the registration of the frame's owner, and of
-- releases of frames that have an owner, an allocation that succeeds hands out a page of the RAM
-- that has no owner, and that page is not free any more.
pub allocate_frame-unused :
    (f : Frames)
    → Reachable f
    → (allocate_frame f).1.status ≡ true
    → let (f', info) = allocate_frame f in
      (info.paddr % 4096 ≡ 0)
      × (info.paddr < memory_size)
      × (contains f'.free_frames info.paddr ≡ false)
      × ((f.frame_table (info.paddr / 4096)).allocated ≡ false)
allocate_frame-unused f r s =
    let (_, al, lt, out, free) = allocate_frame-HandsOut f (Reachable-IsFrames f r) s in
    (al, lt, out, free)
