-- ===== src/Vm/Execute/Tests.antt =====
-- Instructions run on the sample machine: x1 holds 4096, x2 holds 8192, x3 holds 12288.
use rv32umos.Base.{ℕ, ◌-◌, ◌%◌, ◌≡◌, ◌≢◌, refl, arith, none, ok, add32, if◌then◌else◌, [], true}
use rv32umos.Vm.PageTable.{lookup, insert, Pte}
use rv32umos.Vm.Memory.Loops.{stored, le_word}
use rv32umos.Vm.Mmu.Bytes.{Outcome}
use rv32umos.Vm.Mmu.Translate.{reads, writes, walk, walk_lem, physical, executes}
use rv32umos.Vm.Mmu.Access.{IsOn, Walks, after}
use rv32umos.Vm.Decoder
use rv32umos.Vm.Decoder.Fields.{
  opcode_lem, rd_lem, func3_lem, func7_lem, imm_i_lem, rs1_lem, imm_s_lem,
}
use rv32umos.Vm.Machine.{clear_trap, Machine}
use rv32umos.Vm.Machine.Laws.{reg, set_reg}
use rv32umos.Vm.Machine.Access.{trapped, with_mmu}
use rv32umos.Vm.Machine.Invariant.{IsMachine}
use rv32umos.Vm.Isa.{rem, alu, srai, sra, lw, sb, bltu, takes}
use rv32umos.Vm.Executor.Access.Laws.{load_address, store_address, loaded}
use rv32umos.Vm.Executor.Jump.Laws.{advanced, at_pc}
use rv32umos.Vm.Execute.{execute, step}
use rv32umos.Vm.Execute.Fetch.{step-mapped, step-trapped}
use rv32umos.Vm.Execute.Dispatch.{execute_reg_op, execute_imm_op}
use rv32umos.Vm.Execute.Transfer.{
  execute_load-trapped, execute_store-trapped, execute_load-mapped, execute_store-mapped,
  execute_branch, execute_jalr,
}
use rv32umos.Vm.Execute.Invariant.{step-IsMachine}
use rv32umos.Vm.Sample.{
  machine, machine-IsMachine, registers-IsRegs, ram, ram-IsBytes, mmu, data_page,
}

-- rem x3, x1, x2
abbrev rem_word : ℕ
rem_word = 0x0220_e1b3

execute_reg_op_example :
    execute machine rem_word
    ≡ ok (
        set_reg machine
          (Decoder.rd rem_word)
          (alu rem (reg machine (Decoder.rs1 rem_word)) (reg machine (Decoder.rs2 rem_word))))
execute_reg_op_example =
    execute_reg_op machine rem_word registers-IsRegs rem (opcode_lem rem_word) (func3_lem rem_word)
      (func7_lem rem_word)

-- srai x3, x1, 4
abbrev srai_word : ℕ
srai_word = 0x4040_d193

execute_imm_op_example :
    execute machine srai_word
    ≡ ok (
        set_reg machine
          (Decoder.rd srai_word)
          (alu sra (reg machine (Decoder.rs1 srai_word)) (Decoder.shamt_i srai_word)))
execute_imm_op_example =
    execute_imm_op machine srai_word registers-IsRegs srai (opcode_lem srai_word)
      (func3_lem srai_word) (func7_lem srai_word)

mmu-IsOn : IsOn mmu
mmu-IsOn = record { enabled = refl; quiet = refl }

-- lw x5, 8(x1), a word on page 1
abbrev load_word : ℕ
load_word = 0x0080_a283

load_word-address : load_address machine load_word ≡ 4104
load_word-address = rw (rs1_lem load_word, imm_i_lem load_word) refl

load_word-Walks : Walks mmu (load_address machine load_word) reads 0 data_page
unfolding lookup insert
load_word-Walks =
    rw load_word-address (record { in_use = refl; entry = refl; valid = refl; permitted = refl })

load_word-rd : Decoder.rd load_word ≢ 0
load_word-rd q = omega (arith, rd_lem load_word)

execute_load-mapped_example :
    execute machine load_word ≡ ok (loaded machine load_word mmu-IsOn 0 data_page ram-IsBytes lw)
execute_load-mapped_example =
    execute_load-mapped machine load_word mmu-IsOn 0 data_page ram-IsBytes lw (opcode_lem load_word)
      (func3_lem load_word) refl load_word-rd load_word-Walks (omega (arith, load_word-address))

-- lw x5, 8(x2), a word on page 2
abbrev load_unmapped : ℕ
load_unmapped = 0x0081_2283

load_unmapped-address : load_address machine load_unmapped ≡ 8200
load_unmapped-address = rw (rs1_lem load_unmapped, imm_i_lem load_unmapped) refl

load_unmapped-walk : walk mmu (load_address machine load_unmapped) reads ≡ none
unfolding lookup insert
load_unmapped-walk = rw load_unmapped-address (walk_lem mmu 8200 reads)

load_unmapped-rd : Decoder.rd load_unmapped ≢ 0
load_unmapped-rd q = omega (arith, rd_lem load_unmapped)

execute_load-trapped_example :
    execute machine load_unmapped ≡ ok (trapped machine (load_address machine load_unmapped))
execute_load-trapped_example =
    execute_load-trapped machine load_unmapped mmu-IsOn lw (opcode_lem load_unmapped)
      (func3_lem load_unmapped) load_unmapped-rd load_unmapped-walk

-- sb x3, 8(x1)
abbrev store_byte : ℕ
store_byte = 0x0030_8423

store_byte-address : store_address machine store_byte ≡ 4104
store_byte-address = rw (rs1_lem store_byte, imm_s_lem store_byte) refl

store_byte-Walks : Walks mmu (store_address machine store_byte) writes 0 data_page
unfolding lookup insert
store_byte-Walks =
    rw store_byte-address (record { in_use = refl; entry = refl; valid = refl; permitted = refl })

execute_store-mapped_example :
    execute machine store_byte
    ≡ ok (
        with_mmu machine (record (after mmu (store_address machine store_byte) writes 0 data_page) {
          memory =
              stored ram
                (physical data_page (store_address machine store_byte))
                (reg machine (Decoder.rs2 store_byte))
                0
                1;
        }))
execute_store-mapped_example =
    execute_store-mapped machine store_byte mmu-IsOn 0 data_page ram-IsBytes sb
      (opcode_lem store_byte) (func3_lem store_byte) store_byte-Walks
      (omega (arith, store_byte-address))

-- sb x3, 8(x2)
abbrev store_unmapped : ℕ
store_unmapped = 0x0031_0423

store_unmapped-address : store_address machine store_unmapped ≡ 8200
store_unmapped-address = rw (rs1_lem store_unmapped, imm_s_lem store_unmapped) refl

store_unmapped-walk : walk mmu (store_address machine store_unmapped) writes ≡ none
unfolding lookup insert
store_unmapped-walk = rw store_unmapped-address (walk_lem mmu 8200 writes)

execute_store-trapped_example :
    execute machine store_unmapped ≡ ok (trapped machine (store_address machine store_unmapped))
execute_store-trapped_example =
    execute_store-trapped machine store_unmapped mmu-IsOn sb (opcode_lem store_unmapped)
      (func3_lem store_unmapped) store_unmapped-walk

-- bltu x1, x2, 8
abbrev branch_word : ℕ
branch_word = 0x0020_e463

execute_branch_example :
    advanced (execute machine branch_word)
    ≡ ok (
        at_pc machine (
          if takes bltu
            (reg machine (Decoder.rs1 branch_word))
            (reg machine (Decoder.rs2 branch_word))
          then add32 64 (Decoder.imm_b branch_word)
          else add32 64 4))
execute_branch_example =
    execute_branch machine branch_word (omega arith) bltu registers-IsRegs (opcode_lem branch_word)
      (func3_lem branch_word)

-- jalr x1, 9(x1)
execute_jalr_example :
    let t = add32 (reg machine (Decoder.rs1 0x0090_80e7)) (Decoder.imm_i 0x0090_80e7) in
    advanced (execute machine 0x0090_80e7)
    ≡ ok (set_reg (at_pc machine (t - t % 2)) (Decoder.rd 0x0090_80e7) 68)
execute_jalr_example = execute_jalr machine 0x0090_80e7 (omega arith) (opcode_lem 0x0090_80e7)

step-IsMachine_example : Outcome IsMachine (step machine)
step-IsMachine_example = step-IsMachine machine machine-IsMachine

-- A machine whose page 1 may be executed and whose pc lies in it; page 0 is not mapped.
abbrev code_page : Pte
code_page = record data_page { can_execute = true }

abbrev code_machine : Machine
code_machine = record machine {
  mmu = record mmu { tables = λ p. insert [] 1 code_page };
  pc = 4100;
}

fetches : Walks code_machine.mmu 4100 executes 0 code_page
unfolding lookup insert
fetches = record { in_use = refl; entry = refl; valid = refl; permitted = refl }

step-mapped_example :
    step code_machine
    ≡ execute
        (with_mmu (clear_trap code_machine) (after code_machine.mmu 4100 executes 0 code_page))
        (le_word ram.bytes 8196 4)
step-mapped_example =
    step-mapped code_machine (record { enabled = refl; quiet = refl }) 0 code_page ram-IsBytes
      fetches (omega arith)

nothing_at_zero : walk mmu 64 executes ≡ none
unfolding lookup insert
nothing_at_zero = walk_lem mmu 64 executes

step-trapped_example : step machine ≡ ok (trapped machine 64)
step-trapped_example = step-trapped machine mmu-IsOn nothing_at_zero
