-- ===== src/Kernel/Os/Recycling.antt =====
-- A process that ends, and its slot that is used again.
use rv32umos.Base.{ℕ, ◌<◌, ◌≡◌, refl, ap, ◌∙◌, arith, true, false, [], ok, leb, ltb_ℤ, ℤ, pos}
use rv32umos.Kernel.FileSystem.{Name}
use rv32umos.Kernel.Process.{max_process}
use rv32umos.Kernel.Os.{
  Os, table_of, set_process, set_table, recycled, terminate, terminated, recycle,
}
use rv32umos.Kernel.Os.Ending.{Backed, released, wipe_memory_lem}

-- When an active process, one of the eight, that has its mapped pages in the 16 frames is ended
-- and its slot is used again, with nothing in between, both return, and every frame that it held
-- has been put on the free list twice: its pages stay mapped when it ends.
pub terminate-recycle :
    (os : Os) (pid : ℕ) (exit_code : ℤ) (name : Name)
    → pid < max_process
    → (os.process_list pid).active ≡ true
    → Backed (table_of os pid)
    → os.frames.total_frames ≡ 16
    → (os₁ : Os) × (terminate os (pos pid) exit_code ≡ ok (os₁, true))
      × ((os₂ : Os) × (recycle os₁ pid name ≡ ok os₂)
          × (os₂.frames.free_frames
              ≡ released (table_of os pid) (released (table_of os pid) os.frames.free_frames)))
unfolding terminate recycle
terminate-recycle os pid exit_code name lt active backed total =
    let (f, e, t, free) = wipe_memory_lem (table_of os pid) os.frames backed total in
    let (f', e', _, free') = wipe_memory_lem (table_of os pid) f backed t in
    let inside : leb max_process pid ≡ false = ground (arith, lt) in
    let not_negative : ltb_ℤ (pos pid) (pos 0) ≡ false = ground arith in
    let os₁ : Os = terminated os pid exit_code f in
    (
      os₁,
      rw (not_negative, inside, active, e) refl,
      (
        set_process (set_table (record os₁ { frames = f' }) pid []) pid
            (recycled (os₁.process_list pid) name),
        rw e' refl,
        free' ∙ ap (released (table_of os pid)) free,
      ),
    )
