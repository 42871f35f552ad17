-- ===== src/Lib.antt =====
-- Verification of rv32umos: an RV32IM simulator and the user-mode operating system that runs beside
-- it. Paths are from the repository's root.
--
-- The virtual machine (Vm)
--   Vm/Utils.antt        common/Utils.hpp: signExtend, extractBits.
--   Vm/Decoder.antt      rv32vm/Decoder.hpp and .cpp: the fields and immediates of a word. An Opcode,
--                        Func3 or Func7 is the number that its enumeration gives it.
--                        Vm/Decoder/Encoding.antt has the six formats of the manual.
--   Vm/RegFile.antt      rv32vm/RegFile.hpp and .cpp.
--   Vm/Memory.antt       rv32vm/Memory.hpp and .cpp: `load` and `store` with their loops.
--   Vm/PageTable.antt    memory/PTE.hpp: entries, and a page table as an association list.
--   Vm/Mmu.antt          rv32vm/MMU.hpp and .cpp.
--   Vm/Machine.antt      rv32vm/Machine.hpp, and reset and fetch of rv32vm/Machine.cpp.
--   Vm/Executor.antt     rv32vm/Executor.hpp and .cpp: execECALL, and below it a module for each group
--                        of handlers, Immediate, Register, MulDiv, Access (loads and stores) and Jump.
--   Vm/Execute.antt      rv32vm/Machine.cpp: the switch of execute, and step.
--   Vm/Isa.antt          the meaning of the instructions after the RISC-V manual, which the handlers
--                        are compared with. It is not translated from the source.
--
-- The kernel (Kernel)
--   Kernel/Disk.antt        disk/InMemoryDisk.hpp and .cpp.
--   Kernel/Swap.antt        memory/SwapManager.hpp and .cpp.
--   Kernel/Thread.antt      thread/Thread.hpp.
--   Kernel/Mutex.antt       sync/Mutex.hpp and .cpp.
--   Kernel/FileSystem.antt  filesystem/StubFileSystem.hpp and .cpp.
--   Kernel/FileHandle.antt  filesystem/DiskFileHandle.hpp and .cpp: eof, read, write, seek and reset.
--   Kernel/Frames.antt      memory/PhysicalMemoryManager.hpp and .cpp, and FIFOPolicy of
--                           memory/PageReplacementPolicy.hpp and .cpp.
--   Kernel/Scheduler.antt   scheduler/Scheduler.hpp and .cpp, on the machine of Vm/Machine.antt.
--   Kernel/Process.antt     process/Process.hpp and .cpp for one process, memory/Segment.hpp, and the
--                           address space of common/Common.hpp.
--   Kernel/Os.antt          the state of the whole system (ProcessManager with all services), and of
--                           process/Process.cpp and ProcessManager.cpp what reaches beyond one process:
--                           recycle, terminate, killProcess, getCurrentThread.
--   Kernel/Host.antt        what comes from the host, and filesystem/ConsoleHandle.hpp and .cpp and
--                           filesystem/FileHandleInterface.hpp.
--   Kernel/Loader.antt      process/Loader.hpp and .cpp.
--   Kernel/Eviction.antt    memory/VirtualMemoryManager.cpp: allocateFrame and evictPage.
--   Kernel/Paging.antt      memory/VirtualMemoryManager.cpp: handlePageFault and its four handlers.
--   Kernel/Syscall.antt     syscall/SyscallHandler.hpp and .cpp: the dispatch, and below it the handlers
--                           by what they are about, Threads, Mutexes, Files and Processes, with
--                           syscall/SyscallDefinition.hpp in Context.
--   Kernel/Boot.antt        kernel/Kernel.hpp and .cpp, and RV32UMOS.hpp and .cpp: init, handleSyscall,
--                           handlePageFault, and the loop of start.
--   A round of the loop runs one instruction of the current thread (Vm/Execute.antt); a trap goes to
--   Kernel/Syscall.antt or Kernel/Paging.antt; and a thread that cannot go on, or the end of its
--   quantum, goes to Kernel/Scheduler.antt.
--
-- How the code is read
--   A function takes the state and returns the new one. A name of the source in camelCase is the same
--   name with underscores; the function of a class is a function of the class's module.
--   An operation that may end the simulator returns a Result (Base/Results.antt): a failed assert, a
--   call of Utils::illegal, the panic macro, or an access past the end of the vector of RAM, which C++
--   leaves undefined. A page fault is no Result: it is the fault flag of the MMU and the trap of the
--   machine, as in the source.
--   Numbers are the native ℕ. uint32_t has its wrap-around written out (Base/Word.antt); int32_t is an
--   integer read off the bit pattern, and int64_t and uint64_t products do not overflow.
--   The RAM, the disk and the register file are functions of the index, with the bounds tested where
--   the source tests them or the vector ends. Pointers between objects are numbers: a page table is
--   named by its process, a thread by its place. What two objects share, such as the RAM and the page
--   tables behind the MMU or the disk of the file system and the swap manager, is one part of the
--   state or is passed to each operation and returned.
--   Host (Kernel/Host.antt) is a parameter of the definitions that use it: the ELF headers, as <elf.h>
--   lays them out, and the bytes of the files that programs are loaded from, and the results of the
--   calls ::read and ::write on the console, by the number of the call. Nothing is assumed of it.
--   The loops are recursions on the number of rounds that is left. Some have fuel: the one that
--   collects the free frames has 17 rounds, one more than the 16 frames of the RAM; those that read
--   and write a file have a round for each byte, where each round transfers at least one; the one that
--   reads a name from the memory of a program has 129, since the code stops when the offset is above
--   128; and the loop of start has the rounds that it is given, since programs need not end.
--
-- Not modelled: log lines, statistics and other output; Memory::loadBinary, which nothing calls; the
-- registry of kernel services and the device map, which are glue; the destruction of objects, with
-- RV32UMOS::destroy and reset; main.cpp; the user programs.
pub mod Base
pub mod Bits
pub mod Vm
pub mod Kernel
