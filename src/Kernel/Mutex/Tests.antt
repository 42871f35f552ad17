-- ===== src/Kernel/Mutex/Tests.antt =====
-- Threads 1 to 3 on one mutex: 1 holds it and 2 and 3 wait.
use rv32umos.Base.{refl, true, [], ◌∷◌, some, ◌==◌, if◌then◌else◌}
use rv32umos.Kernel.Thread.{ThreadState}
use rv32umos.Kernel.Mutex.{Mutex, States, new_mutex, acquire}
use rv32umos.Kernel.Mutex.Laws.{start, later, acquires, IsMutex, Reachable-IsMutex}

abbrev held : Mutex
held = record { owner = some 1; wait_queue = 2 ∷ 3 ∷ []; locked = true }

abbrev states : States
states j =
    if j == 2
    then ThreadState.blocked
    else if j == 3
    then ThreadState.blocked
    else ThreadState.running

abbrev all_running : States
all_running j = ThreadState.running

Reachable-IsMutex_example :
    IsMutex ((acquire new_mutex all_running 1).0, (acquire new_mutex all_running 1).1)
Reachable-IsMutex_example =
    Reachable-IsMutex ((acquire new_mutex all_running 1).0, (acquire new_mutex all_running 1).1)
      (later (start all_running (λ t. refl)) (acquires new_mutex all_running 1 refl))
