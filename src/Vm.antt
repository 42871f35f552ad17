-- ===== src/Vm.antt =====
-- rv32vm/: the RV32IM processor
pub mod Utils
pub mod Decoder
pub mod RegFile
pub mod Memory
pub mod PageTable
pub mod Mmu
pub mod Machine
pub mod Executor
pub mod Isa
pub mod Execute
pub mod Sample
