-- ===== src/Kernel/Os/Ending.antt =====
-- How a process ends.
use rv32umos.Base.{
  ℕ, ◌*◌, ◌<◌, ◌≡◌, refl, sym, ap, ◌∙◌, arith, true, false, List, [], ◌∷◌, contains, some, ok, ◌==◌,
  leb, if◌then◌else◌, update, ltb_ℤ, u32, ℤ, pos, Bool-cases, inl, inr, ◌⊎◌,
}
use rv32umos.Vm.PageTable.{Pte, PageTable}
use rv32umos.Kernel.Frames.{Frames, kernel_page_size}
use rv32umos.Kernel.Frames.Laws.{freed, free_frame-in_range}
use rv32umos.Kernel.Thread.{Thread, ThreadState}
use rv32umos.Kernel.Process.{max_process}
use rv32umos.Kernel.Os.{Os, thread_at, table_of, wipe_memory, set_states, terminate, terminated}

-- Every page that a table maps is in one of the frames.
unfoldable pub Backed : PageTable → Type 0
Backed [] = Unit
Backed ((vpn, pte) ∷ table) = ((pte.valid ≡ false) ⊎ (pte.ppn < 16)) × Backed table

in_frames : (pte : Pte) → (pte.valid ≡ false) ⊎ (pte.ppn < 16) → pte.valid ≡ true → pte.ppn < 16
in_frames pte (inl invalid) valid = absurd (cc (sym invalid ∙ valid))
in_frames pte (inr lt) valid = lt

-- The free list when the frames of a table have gone to its front, the last one first.
pub released : PageTable → List ℕ → List ℕ
released [] free = free
released ((vpn, pte) ∷ table) free =
    let kept = released table free in
    let given = released table (u32 (pte.ppn * kernel_page_size) ∷ free) in
    if pte.valid then given else kept

-- The loop frees every frame, and does not panic.
pub wipe_memory_lem :
    (table : PageTable) (frames : Frames)
    → Backed table
    → frames.total_frames ≡ 16
    → (frames' : Frames) × (wipe_memory table frames ≡ ok frames')
      × (frames'.total_frames ≡ 16)
      × (frames'.free_frames ≡ released table frames.free_frames)
unfolding wipe_memory Backed released
wipe_memory_lem [] frames b t = (frames, refl, t, refl)
wipe_memory_lem ((vpn, pte) ∷ table) frames (held, b) t = elim (Bool-cases pte.valid) [
  | inr invalid ↦
      let (f, e, total, free) = wipe_memory_lem table frames b t in
      (f, rw invalid e, total, rw invalid free)
  | inl valid ↦
      let lt : pte.ppn < 16 = in_frames pte held valid in
      let (f, e, total, free) =
        wipe_memory_lem table (freed frames (u32 (pte.ppn * kernel_page_size))) b t in
      (
        f,
        rw
            (
              valid,
              free_frame-in_range frames (u32 (pte.ppn * kernel_page_size)) (omega (arith, lt, t)),
            )
            e,
        total,
        rw valid free,
      )
]

-- The loop over the threads sets the states of those that it meets, and leaves the rest alone.
set_states_lem :
    (threads : ℕ → Thread) (ts : List ℕ) (s : ThreadState) (j : ℕ)
    → (set_states threads ts s j).state ≡ (if contains ts j then s else (threads j).state)
unfolding set_states
set_states_lem threads [] s j = refl
set_states_lem threads (t ∷ ts) s j =
    set_states_lem (update threads t (record (threads t) { state = s })) ts s j
    ∙ elim (Bool-cases (j == t)) [
      | inl same ↦ elim (Bool-cases (contains ts j)) [
        | inl later ↦ rw (same, later) refl
        | inr once ↦ rw (same, once) refl
      ]
      | inr other ↦ rw other refl
    ]

-- Ending an active process, one of the eight, that has its mapped pages in the 16 frames returns:
-- its threads have terminated, the threads that waited for it are ready, whatever state they were
-- in, the other threads keep theirs, nobody waits for it any longer, its exit code is kept and it
-- is not active.
pub terminate_lem :
    (os : Os) (pid : ℕ) (exit_code : ℤ)
    → pid < max_process
    → (os.process_list pid).active ≡ true
    → Backed (table_of os pid)
    → os.frames.total_frames ≡ 16
    → (os' : Os) × (terminate os (pos pid) exit_code ≡ ok (os', true))
      × ((j : ℕ)
          → (thread_at os' j).state ≡ (
              if contains (os.process_waiters pid) j
              then ThreadState.ready
              else if contains (os.process_list pid).threads j
              then ThreadState.terminated
              else (thread_at os j).state))
      × (os'.exit_codes pid ≡ some exit_code)
      × (os'.process_waiters pid ≡ [])
      × ((os'.process_list pid).active ≡ false)
unfolding terminate
terminate_lem os pid exit_code lt active backed total =
    let (frames, e, _, _) = wipe_memory_lem (table_of os pid) os.frames backed total in
    let inside : leb max_process pid ≡ false = ground (arith, lt) in
    let not_negative : ltb_ℤ (pos pid) (pos 0) ≡ false = ground arith in
    let here : (pid == pid) ≡ true = ground arith in
    (
      terminated os pid exit_code frames,
      rw (not_negative, inside, active, e) refl,
      λ j.
          set_states_lem
            (set_states os.system.active_threads (os.process_list pid).threads
              ThreadState.terminated)
            (os.process_waiters pid) ThreadState.ready j
          ∙ ap
              (λ (s : ThreadState).
                if contains (os.process_waiters pid) j then ThreadState.ready else s)
              (set_states_lem os.system.active_threads (os.process_list pid).threads
                ThreadState.terminated j),
      rw here refl,
      rw here refl,
      rw here refl,
    )
