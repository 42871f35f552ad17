-- ===== src/Kernel/Syscall/Files.antt =====
-- The handlers of syscall/SyscallHandler.cpp for files, and the loops that copy between the address
-- space of the process and a buffer of the kernel.
use rv32umos.Base.{
  ℕ, zero, suc, ◌+◌, ◌%◌, ◌^◌, [], ◌∷◌, ◌++◌, Option, none, some, Result, ok, ◌>>=◌, ◌==◌,
  if◌then◌else◌, update, u32, signed, to_word, pos_part,
}
use rv32umos.Vm.Machine.{Machine, load_virtual_memory, store_virtual_memory}
use rv32umos.Kernel.Disk.{Buffer}
use rv32umos.Kernel.FileSystem.{Name, DiskFileHandle, open_file, create_file}
use rv32umos.Kernel.Process.{
  FileHandle, disk_file, get_file_handle, add_file_handle, close_file_handle,
}
use rv32umos.Kernel.Os.{Os, thread_at, set_process, set_cpu, get_current_thread}
use rv32umos.Kernel.Host.{Host, Transfer}
use rv32umos.Kernel.Host as Handles
use rv32umos.Kernel.Syscall.Context.{SyscallContext, SyscallResult, returns, minus_one}

-- MAX_FILE_NAME_LENGTH of common/Common.hpp.
abbrev pub max_file_name_length : ℕ
max_file_name_length = 128

-- The loop that fills the buffer of `write` from byte i on, with `left` of them to go.
pub copy_in : Machine → ℕ → (ℕ → ℕ) → ℕ → ℕ → Result (Machine × (ℕ → ℕ))
copy_in cpu addr bytes zero i = ok (cpu, bytes)
copy_in cpu addr bytes (suc left) i = do
  (cpu', c) ← load_virtual_memory cpu (u32 (addr + i)) 1
  copy_in cpu' addr (update bytes i (c % 2 ^ 8)) left (i + 1)

-- The loop that copies the buffer of `read` back.
pub copy_out : Machine → ℕ → (ℕ → ℕ) → ℕ → ℕ → Result Machine
copy_out cpu addr bytes zero i = ok cpu
copy_out cpu addr bytes (suc left) i = do
  cpu' ← store_virtual_memory cpu (u32 (addr + i)) 1 (bytes i % 2 ^ 8)
  copy_out cpu' addr bytes left (i + 1)

-- The loop that reads a name, with `left` characters at most to go.
pub read_string : Machine → ℕ → ℕ → ℕ → Name → Result (Machine × Name)
read_string cpu addr zero offset filename = ok (cpu, filename)
read_string cpu addr (suc left) offset filename = do
  (cpu', c) ← load_virtual_memory cpu (u32 (addr + offset)) 1
  let rest = read_string cpu' addr left (offset + 1) (filename ++ ((c % 2 ^ 8) ∷ []))
  if c % 2 ^ 8 == 0 then ok (cpu', filename) else rest

-- The loop ends once the offset is above the limit: after one character more.
pub read_name : Os → ℕ → Result (Os × Name)
read_name os addr = do
  (cpu, filename) ← read_string os.system.cpu addr (max_file_name_length + 1) 0 []
  ok (set_cpu os cpu, filename)

-- What a transfer leaves of the handle, which the table points to, of the disk and of the host.
pub set_transfer : Os → ℕ → ℕ → Transfer → Os
set_transfer os pid fd t =
    set_process (record os { disk = t.disk; host_calls = t.host_calls }) pid
      (record (os.process_list pid) {
        fd_table = update (os.process_list pid).fd_table fd (some t.handle);
      })

write_found : Host → Os → ℕ → ℕ → SyscallContext → Option FileHandle → Result (Os × SyscallResult)
write_found host os pid fd ctx none = ok (os, returns minus_one)
write_found host os pid fd ctx (some handle) = do
  (cpu, bytes) ← copy_in os.system.cpu ctx.arg1 (λ i. 0) ctx.arg2 0
  let buffer : Buffer = record { size = ctx.arg2; bytes = bytes }
  t ← Handles.write host os.host_calls handle os.disk buffer ctx.arg2
  ok (set_transfer (set_cpu os cpu) pid fd t, returns (to_word t.count))

pub handle_write : Host → Os → SyscallContext → Result (Os × SyscallResult)
unfolding write_found
handle_write host os ctx = do
  current ← get_current_thread os
  let pid = (thread_at os current).parent
  let fd = signed 32 ctx.arg0
  write_found host os pid (pos_part fd) ctx (get_file_handle (os.process_list pid) fd)

-- A negative count copies nothing.
read_found : Host → Os → ℕ → ℕ → SyscallContext → Option FileHandle → Result (Os × SyscallResult)
read_found host os pid fd ctx none = ok (os, returns minus_one)
read_found host os pid fd ctx (some handle) = do
  let buffer : Buffer = record { size = ctx.arg2; bytes = λ i. 0 }
  let t = Handles.read host os.host_calls handle os.disk buffer ctx.arg2
  cpu ← copy_out os.system.cpu ctx.arg1 t.buffer.bytes (pos_part t.count) 0
  ok (set_transfer (set_cpu os cpu) pid fd t, returns (to_word t.count))

pub handle_read : Host → Os → SyscallContext → Result (Os × SyscallResult)
unfolding read_found
handle_read host os ctx = do
  current ← get_current_thread os
  let pid = (thread_at os current).parent
  let fd = signed 32 ctx.arg0
  read_found host os pid (pos_part fd) ctx (get_file_handle (os.process_list pid) fd)

open_found : Os → Option DiskFileHandle → Result (Os × SyscallResult)
open_found os none = ok (os, returns minus_one)
open_found os (some handle) = do
  current ← get_current_thread os
  let pid = (thread_at os current).parent
  let (p, fd) = add_file_handle (os.process_list pid) (disk_file handle)
  ok (set_process os pid p, returns (to_word fd))

pub handle_open : Os → SyscallContext → Result (Os × SyscallResult)
unfolding open_found
handle_open os ctx = do
  (os', filename) ← read_name os ctx.arg0
  open_found os' (open_file os'.vfs filename)

pub handle_close : Os → SyscallContext → Result (Os × SyscallResult)
handle_close os ctx = do
  current ← get_current_thread os
  let pid = (thread_at os current).parent
  let (p, done) = close_file_handle (os.process_list pid) (signed 32 ctx.arg0)
  ok (set_process os pid p, returns (if done then 0 else 1))

pub handle_create : Os → SyscallContext → Result (Os × SyscallResult)
handle_create os ctx = do
  (os', filename) ← read_name os ctx.arg0
  let (vfs, success) = create_file os'.vfs os'.disk filename ctx.arg1
  ok (record os' { vfs = vfs }, returns (if success then 0 else minus_one))
