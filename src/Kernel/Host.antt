-- ===== src/Kernel/Host.antt =====
-- What the system takes from the host and does not implement: the files that programs are loaded
-- from, as <elf.h> lays them out, and the console. The definitions that use it take it as a
-- parameter. Reading and writing a disk file or the console through a handle is here too
-- (filesystem/FileHandleInterface.hpp, filesystem/ConsoleHandle.cpp).
use rv32umos.Base.{ℕ, ◌+◌, Option, ◌==◌, ◌||◌, if◌then◌else◌, ℤ, negsuc, Result, ok, ◌>>=◌}
use rv32umos.Kernel.Disk.{Disk, Buffer}
use rv32umos.Kernel.FileSystem.{Name}
use rv32umos.Kernel.FileHandle as Files
use rv32umos.Kernel.Process.{FileHandle, console, disk_file}

-- Elf32_Ehdr and Elf32_Phdr, as far as they are used.
pub record ElfHeader : Type 0 where
  pub e_ident : ℕ → ℕ
  pub e_entry : ℕ
  pub e_phnum : ℕ

pub record ProgramHeader : Type 0 where
  pub p_type : ℕ
  pub p_vaddr : ℕ
  pub p_memsz : ℕ
  pub p_filesz : ℕ
  pub p_offset : ℕ
  pub p_flags : ℕ

-- The bytes of a host file, all that a std::ifstream can read of it: none where it cannot be opened.
pub record HostFile : Type 0 where
  pub size : ℕ
  pub bytes : ℕ → ℕ

pub record Host : Type 0 where
  -- Opening a file and reading its header; `none` where either fails.
  pub elf_header : Name → Option ElfHeader
  -- The entry of its program headers at a place.
  pub program_header : Name → ℕ → ProgramHeader
  pub file : Name → HostFile
  -- `::read` of the standard input: what the call of this number returns for a size, and the bytes.
  pub read : ℕ → ℕ → ℤ × (ℕ → ℕ)
  -- `::write` to a descriptor: what the call of this number returns for a buffer and a size.
  pub write : ℕ → ℕ → Buffer → ℕ → ℤ

-- The result of a transfer through a handle: the handle and the disk afterwards, the buffer, the
-- number returned, and the number of calls of the host so far.
pub record Transfer : Type 0 where
  pub handle : FileHandle
  pub disk : Disk
  pub buffer : Buffer
  pub count : ℤ
  pub host_calls : ℕ

console_read : Host → ℕ → ℕ → Disk → Buffer → ℕ → Transfer
console_read host calls fd d buffer size =
    if fd == 0
    then (let (n, bytes) = host.read calls size in
        record {
          handle = console fd;
          disk = d;
          buffer = record buffer { bytes = bytes };
          count = n;
          host_calls = calls + 1;
        })
    else record {
      handle = console fd;
      disk = d;
      buffer = buffer;
      count = negsuc 0;
      host_calls = calls;
    }

console_write : Host → ℕ → ℕ → Disk → Buffer → ℕ → Transfer
console_write host calls fd d buffer size = record {
  handle = console fd;
  disk = d;
  buffer = buffer;
  count = if (fd == 1) || (fd == 2) then host.write calls fd buffer size else negsuc 0;
  host_calls = if (fd == 1) || (fd == 2) then calls + 1 else calls;
}

-- The two virtual functions `read` and `write`.
pub read : Host → ℕ → FileHandle → Disk → Buffer → ℕ → Transfer
unfolding console_read
read host calls (console fd) d buffer size = console_read host calls fd d buffer size
read host calls (disk_file h) d buffer size =
    let (h', b, n) = Files.read h d buffer size in
    record { handle = disk_file h'; disk = d; buffer = b; count = n; host_calls = calls }

pub write : Host → ℕ → FileHandle → Disk → Buffer → ℕ → Result Transfer
unfolding console_write
write host calls (console fd) d buffer size = ok (console_write host calls fd d buffer size)
write host calls (disk_file h) d buffer size = do
  (h', d', n) ← Files.write h d buffer size
  ok (record { handle = disk_file h'; disk = d'; buffer = buffer; count = n; host_calls = calls })
