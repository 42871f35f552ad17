-- ===== src/Kernel.antt =====
-- The operating system that runs beside the machine: the devices and managers of the kernel.
pub mod Disk
pub mod Swap
pub mod Thread
pub mod Mutex
pub mod FileSystem
pub mod FileHandle
pub mod Frames
pub mod Scheduler
pub mod Process
pub mod Os
pub mod Host
pub mod Loader
pub mod Eviction
pub mod Paging
pub mod Syscall
pub mod Boot
