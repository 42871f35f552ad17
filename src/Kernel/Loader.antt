-- ===== src/Kernel/Loader.antt =====
-- process/Loader.hpp and process/Loader.cpp, and ProcessManager::createProcess.
use rv32umos.Base.{
  ℕ, zero, suc, ◌+◌, Bool, false, not, ◌&&◌, List, [], ◌∷◌, ◌++◌, Option, none, some, Result, ok,
  ◌>>=◌, ◌==◌, if◌then◌else◌, ℤ, pos, negsuc, eqb_ℤ,
}
use rv32umos.Kernel.Thread.{Thread, ThreadState}
use rv32umos.Kernel.FileSystem.{Name}
use rv32umos.Kernel.Process.{Process, Segment, create_thread, max_process}
use rv32umos.Kernel.Os.{Os, recycle, set_process, push_active}
use rv32umos.Kernel.Host.{Host, ElfHeader, ProgramHeader}

-- ELFMAG0 to ELFMAG3 of <elf.h>.
is_elf : ElfHeader → Bool
is_elf ehdr =
    (ehdr.e_ident 0 == 0x7f)
    && ((ehdr.e_ident 1 == b'E') && ((ehdr.e_ident 2 == b'L') && (ehdr.e_ident 3 == b'F')))

-- PT_LOAD of <elf.h>.
abbrev pt_load : ℕ
pt_load = 1

-- The loop over the list of processes, with `left` of them to go.
pub find_inactive : (ℕ → Process) → ℕ → ℕ → Option ℕ
find_inactive processes zero i = none
find_inactive processes (suc left) i =
    let rest = find_inactive processes left (i + 1) in
    if not (processes i).active then some i else rest

segment_of : ProgramHeader → Segment
segment_of phdr = record {
  vaddr = phdr.p_vaddr;
  mem_size = phdr.p_memsz;
  file_size = phdr.p_filesz;
  file_offset = phdr.p_offset;
  flags = phdr.p_flags;
}

-- The loop over the program headers, with `left` of them to go.
pub load_segments : Host → Name → ℕ → ℕ → List Segment → List Segment
unfolding segment_of
load_segments host filename zero i segments = segments
load_segments host filename (suc left) i segments = load_segments host filename left (i + 1) (
    if not ((host.program_header filename i).p_type == pt_load)
    then segments
    else segments ++ (segment_of (host.program_header filename i) ∷ []))

-- What becomes of the main thread that `createThread` returns.
add_main : Os → ℕ → Process → Option Thread → Os × ℤ
add_main os pid p none = (set_process os pid (record p { active = false }), negsuc 0)
add_main os pid p (some t) =
    (push_active (set_process os pid p) (record t { state = ThreadState.ready }), pos pid)

load_into : Host → Os → Name → ElfHeader → Option ℕ → Result (Os × ℤ)
unfolding add_main
load_into host os filename ehdr none = ok (os, negsuc 0)
load_into host os filename ehdr (some pid) = do
  os' ← recycle os pid filename
  let p = os'.process_list pid
  (p', t) ←
      create_thread (record p { segments = load_segments host filename ehdr.e_phnum 0 p.segments })
        pid os'.system.count ehdr.e_entry 0
  ok (add_main os' pid p' t)

load_header : Host → Os → Name → Option ElfHeader → Result (Os × ℤ)
unfolding is_elf load_into
load_header host os filename none = ok (os, negsuc 0)
load_header host os filename (some ehdr) =
    if not (is_elf ehdr)
    then ok (os, negsuc 0)
    else load_into host os filename ehdr (find_inactive os.process_list max_process 0)

pub load_elf : Host → Os → Name → Result (Os × ℤ)
unfolding load_header
load_elf host os filename = load_header host os filename (host.elf_header filename)

pub create_process : Host → Os → Name → Result (Os × Bool)
create_process host os filename = do
  (os', pid) ← load_elf host os filename
  ok (os', not (eqb_ℤ pid (negsuc 0)))
