-- ===== src/Kernel/Os/Current.antt =====
-- The thread that runs.
use rv32umos.Base.{ℕ, ◌<◌, ◌≡◌, refl, arith, false, ok, leb, pos}
use rv32umos.Kernel.Os.{Os, get_current_thread, current_at}

-- Thread `t` runs.
abbrev pub running : Os → ℕ → Os
running os t = record os { system = record os.system { current_thread_index = pos t } }

-- A thread whose place is the current index runs.
pub current-index :
    (os : Os) (t : ℕ)
    → os.system.current_thread_index ≡ pos t
    → t < os.system.count
    → get_current_thread os ≡ ok t
unfolding get_current_thread current_at
current-index os t e lt =
    let inside : leb os.system.count t ≡ false = ground (arith, lt) in rw (e, inside) refl

pub current-running :
    (os : Os) (t : ℕ) → t < os.system.count → get_current_thread (running os t) ≡ ok t
current-running os t lt = current-index (running os t) t refl lt
