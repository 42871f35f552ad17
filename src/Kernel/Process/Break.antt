-- ===== src/Kernel/Process/Break.antt =====
-- The program break.
use rv32umos.Base.{◌+◌, ◌%◌, ◌^◌, ◌<◌, ◌≤◌, ◌≡◌, ◌⊎◌, arith, ℤ, to_word}
use rv32umos.Kernel.Process.{Process, heap_start, heap_max_limit, sbrk}

-- The heap stands between its start and its limit.
abbrev pub HasHeap : Process → Type 0
HasHeap p = (heap_start ≤ p.program_break) × (p.program_break ≤ heap_max_limit)

-- For a process whose break lies between the start of the heap and its limit, a call moves the
-- break by the increment, a signed word, and returns where it was, if the break stays there;
-- otherwise it leaves it and returns 0, which is no address of the heap. Either way the break lies
-- between the two afterwards.
pub sbrk-HasHeap :
    (p : Process) (increment : ℤ)
    → HasHeap p
    → let (p', old) = sbrk p increment in
      HasHeap p'
      × (((p'.program_break ≡ p.program_break)
            × (old ≡ 0)
            × (((p.program_break + to_word increment) % 2 ^ 32 < heap_start)
                ⊎ (heap_max_limit < (p.program_break + to_word increment) % 2 ^ 32)))
          ⊎ ((p'.program_break ≡ (p.program_break + to_word increment) % 2 ^ 32)
              × (old ≡ p.program_break)))
unfolding sbrk
sbrk-HasHeap p increment h = ground (arith, h.0, h.1)
