-- ===== src/Kernel/Process/Tests.antt =====
-- A process with one executable segment and no thread yet.
use rv32umos.Base.{
  ℕ, ◌+◌, ◌%◌, ◌^◌, ◌<◌, ◌≡◌, ◌⊎◌, refl, arith, true, false, Option, none, some, [], ◌∷◌, ok, ℤ,
  pos, negsuc, eqb_ℤ, if◌then◌else◌, to_word,
}
use rv32umos.Kernel.Thread.{Thread}
use rv32umos.Kernel.Process.{
  Process, FileHandle, console, Segment, new_process, create_thread, fd_table_size, heap_start,
  heap_max_limit, add_file_handle, get_file_handle, close_file_handle, sbrk,
}
use rv32umos.Kernel.Process.Stacks.{Creates, HasStacks, create_thread_lem}
use rv32umos.Kernel.Process.Descriptors.{Taken, add_file_handle_lem, close_file_handle_lem}
use rv32umos.Kernel.Process.Break.{HasHeap, sbrk-HasHeap}

abbrev text : Segment
text = record { vaddr = 0x400000; mem_size = 4096; file_size = 4096; file_offset = 0; flags = 5 }

abbrev process : Process
process = record (new_process []) { segments = text ∷ [] }

process-HasStacks : HasStacks process
unfolding new_process
process-HasStacks = record { few = omega arith; next = refl }

create_thread_lem_example :
    (r : Process × Option Thread) × (create_thread process 2 7 0x400010 9 ≡ ok r)
    × Creates process 0x400010 9 r
create_thread_lem_example = create_thread_lem process 2 7 0x400010 9 process-HasStacks

add_file_handle_lem_example :
    ((add_file_handle process (console 1) ≡ (process, negsuc 0))
      × ((j : ℕ) → j < fd_table_size → Taken process.fd_table j))
    ⊎ ((fd : ℕ) × ((add_file_handle process (console 1)).1 ≡ pos fd)
        × (fd < fd_table_size)
        × (process.fd_table fd ≡ none)
        × ((j : ℕ) → j < fd → Taken process.fd_table j)
        × ((d : ℤ)
            → get_file_handle (add_file_handle process (console 1)).0 d
              ≡ (if eqb_ℤ d (pos fd) then some (console 1) else get_file_handle process d)))
add_file_handle_lem_example = add_file_handle_lem process (console 1)

close_file_handle_lem_example :
    ((get_file_handle process (pos 2) ≡ none)
      × (close_file_handle process (pos 2) ≡ (process, false)))
    ⊎ ((h : FileHandle) × (get_file_handle process (pos 2) ≡ some h)
        × ((close_file_handle process (pos 2)).1 ≡ true)
        × ((d : ℤ)
            → get_file_handle (close_file_handle process (pos 2)).0 d
              ≡ (if eqb_ℤ d (pos 2) then none else get_file_handle process d)))
close_file_handle_lem_example = close_file_handle_lem process (pos 2)

process-HasHeap : HasHeap process
unfolding new_process
process-HasHeap = omega arith

sbrk-HasHeap_example :
    let (p', old) = sbrk process (pos 4096) in
    HasHeap p'
    × (((p'.program_break ≡ process.program_break)
          × (old ≡ 0)
          × (((process.program_break + to_word (pos 4096)) % 2 ^ 32 < heap_start)
              ⊎ (heap_max_limit < (process.program_break + to_word (pos 4096)) % 2 ^ 32)))
        ⊎ ((p'.program_break ≡ (process.program_break + to_word (pos 4096)) % 2 ^ 32)
            × (old ≡ process.program_break)))
sbrk-HasHeap_example = sbrk-HasHeap process (pos 4096) process-HasHeap
