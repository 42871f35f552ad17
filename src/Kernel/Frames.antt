-- ===== src/Kernel/Frames.antt =====
-- memory/PhysicalMemoryManager.hpp and memory/PhysicalMemoryManager.cpp, and `FrameInfo` and
-- FIFOPolicy of memory/PageReplacementPolicy.hpp and memory/PageReplacementPolicy.cpp. The vector of
-- free frames is a list with its back at the front. The memory that the manager points to is the
-- one of Vm/Memory.antt, and its `load` and `store` are those.
pub mod Laws
pub mod Fifo
pub mod Victims
use rv32umos.Base.{
  ℕ, zero, suc, ◌+◌, ◌/◌, Bool, true, false, List, [], ◌∷◌, ◌++◌, Result, ok, stop, panic, ltb, leb,
  if◌then◌else◌, update, shr, u32, ℤ, pos, negsuc, signed,
}
use rv32umos.Vm.Memory.{memory_size, memory_base}

-- KERNEL_PAGE_SIZE of common/Common.hpp.
abbrev pub kernel_page_size : ℕ
kernel_page_size = 4096

pub record FrameInfo : Type 0 where
  pub owner_pid : ℤ
  pub vpn : ℕ
  pub allocated : Bool

abbrev pub clear : FrameInfo
clear = record { owner_pid = negsuc 0; vpn = 0; allocated = false }

pub record FrameAllocInfo : Type 0 where
  pub paddr : ℕ
  pub status : Bool

pub record Frames : Type 0 where
  pub free_frames : List ℕ
  pub frame_table : ℕ → FrameInfo
  pub total_frames : ℕ

-- The loop of `init` at `frame`, on fuel.
pub init_loop : ℕ → ℕ → List ℕ → List ℕ
init_loop zero frame free = free
init_loop (suc fuel) frame free =
    let rest = init_loop fuel (u32 (frame + kernel_page_size)) (frame ∷ free) in
    if ltb frame (memory_base + memory_size) then rest else free

-- 17 rounds are enough for the 16 frames; `resize` makes entries of zeros.
unfoldable pub init : Frames
unfolding init_loop
init = record {
  free_frames = init_loop 17 memory_base [];
  frame_table = λ ppn. record { owner_pid = pos 0; vpn = 0; allocated = false };
  total_frames = memory_size / kernel_page_size;
}

allocate_from : Frames → List ℕ → Frames × FrameAllocInfo
allocate_from f [] = (f, record { paddr = 0; status = false })
allocate_from f (frame ∷ rest) =
    (record f { free_frames = rest }, record { paddr = frame; status = true })

pub allocate_frame : Frames → Frames × FrameAllocInfo
unfolding allocate_from
allocate_frame f = allocate_from f f.free_frames

pub free_frame : Frames → ℕ → Result Frames
free_frame f frame =
    let ppn = shr frame 12 in
    if leb f.total_frames ppn
    then stop panic
    else ok (record f {
      free_frames = frame ∷ f.free_frames;
      frame_table = update f.frame_table ppn clear;
    })

pub register_frame_owner : Frames → ℕ → ℕ → ℤ → Result Frames
register_frame_owner f ppn vpn owner_pid =
    if leb f.total_frames ppn
    then stop panic
    else ok (record f {
      frame_table =
          update f.frame_table ppn (record { allocated = true; owner_pid = owner_pid; vpn = vpn });
    })

-- FIFOPolicy: the queue of frames, from its front.
unfoldable pub on_allocate : List ℕ → ℕ → List ℕ
on_allocate queue ppn = queue ++ (ppn ∷ [])

pub find_victim : List ℕ → (ℕ → FrameInfo) → List ℕ × ℤ
find_victim [] frame_table = ([], negsuc 0)
find_victim (victim ∷ queue) frame_table =
    let rest = find_victim queue frame_table in
    if (frame_table victim).allocated then (queue, signed 32 (u32 victim)) else rest
