-- ===== src/Kernel/Mutex.antt =====
-- sync/Mutex.hpp and sync/Mutex.cpp. A thread is a number in place of a pointer, and the states of
-- all threads are passed to each operation and returned.
pub mod Laws
pub mod Tests
use rv32umos.Base.{
  ℕ, Bool, true, false, List, [], ◌∷◌, ◌++◌, Option, none, some, ◌==◌, not, if◌then◌else◌, update,
}
use rv32umos.Kernel.Thread.{ThreadState}

abbrev pub States : Type 0
States = ℕ → ThreadState

pub record Mutex : Type 0 where
  pub owner : Option ℕ
  pub wait_queue : List ℕ
  pub locked : Bool

abbrev pub new_mutex : Mutex
new_mutex = record { owner = none; wait_queue = []; locked = false }

pub acquire : Mutex → States → ℕ → Mutex × States × Bool
acquire m states thread =
    if m.locked
    then (
      record m { wait_queue = m.wait_queue ++ (thread ∷ []) },
      update states thread ThreadState.blocked,
      false,
    )
    else (record m { locked = true; owner = some thread }, states, true)

-- `thread == this->owner`
is_owner : Option ℕ → ℕ → Bool
is_owner none thread = false
is_owner (some t) thread = thread == t

-- The loop that empties the queue.
wake_all : States → List ℕ → States
wake_all states [] = states
wake_all states (t ∷ ts) = wake_all (update states t ThreadState.ready) ts

is_empty : List ℕ → Bool
is_empty [] = true
is_empty (t ∷ ts) = false

pub release : Mutex → States → ℕ → Mutex × States × Bool
unfolding is_owner
release m states thread =
    if not (is_owner m.owner thread)
    then (m, states, false)
    else if is_empty m.wait_queue
    then (record m { owner = none; locked = false }, states, true)
    else (
      record m { locked = false; owner = none; wait_queue = [] },
      wake_all states m.wait_queue,
      true,
    )
