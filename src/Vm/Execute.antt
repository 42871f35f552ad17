-- ===== src/Vm/Execute.antt =====
-- rv32vm/Machine.cpp: `execute`, one function for each case of its outer switch, and `step`.
pub mod Dispatch
pub mod Transfer
pub mod Fetch
pub mod Keeps
pub mod Invariant
pub mod Tests
use rv32umos.Base.{ℕ, Result, ok, stop, illegal, unknown_opcode, ◌==◌, not, if◌then◌else◌, ◌>>=◌}
use rv32umos.Vm.Decoder
use rv32umos.Vm.Machine.{Machine, clear_trap, fetch, has_trap}
use rv32umos.Vm.Executor.{exec_ecall}
use rv32umos.Vm.Executor.Immediate
use rv32umos.Vm.Executor.Register
use rv32umos.Vm.Executor.MulDiv
use rv32umos.Vm.Executor.Access
use rv32umos.Vm.Executor.Jump

execute_m_type : ℕ → Machine → ℕ → Result Machine
execute_m_type func3 cpu instr =
    if func3 == 0
    then MulDiv.exec_mul cpu instr
    else if func3 == 1
    then MulDiv.exec_mulh cpu instr
    else if func3 == 2
    then MulDiv.exec_mulhsu cpu instr
    else if func3 == 3
    then MulDiv.exec_mulhu cpu instr
    else if func3 == 4
    then MulDiv.exec_div cpu instr
    else if func3 == 5
    then MulDiv.exec_divu cpu instr
    else if func3 == 6
    then MulDiv.exec_rem cpu instr
    else if func3 == 7
    then MulDiv.exec_remu cpu instr
    else stop illegal

-- `func7` picks one of two instructions, and any other value is illegal.
choose : ℕ → Result Machine → Result Machine → Result Machine
choose func7 base alternate =
    if func7 == 0x00 then base else if func7 == 0x20 then alternate else stop illegal

-- `if (func7 != Func7::ADD_SRL) illegal(…);`
base_only : ℕ → Result Machine → Result Machine
base_only func7 run = if func7 == 0x00 then run else stop illegal

execute_r_type : ℕ → ℕ → Machine → ℕ → Result Machine
unfolding execute_m_type choose base_only
execute_r_type func3 func7 cpu instr =
    if func7 == 0x01
    then execute_m_type func3 cpu instr
    else if func3 == 0x0
    then choose func7 (Register.exec_add cpu instr) (Register.exec_sub cpu instr)
    else if func3 == 0x1
    then base_only func7 (Register.exec_sll cpu instr)
    else if func3 == 0x2
    then base_only func7 (Register.exec_slt cpu instr)
    else if func3 == 0x3
    then base_only func7 (Register.exec_sltu cpu instr)
    else if func3 == 0x4
    then base_only func7 (Register.exec_xor cpu instr)
    else if func3 == 0x5
    then choose func7 (Register.exec_srl cpu instr) (Register.exec_sra cpu instr)
    else if func3 == 0x6
    then base_only func7 (Register.exec_or cpu instr)
    else if func3 == 0x7
    then base_only func7 (Register.exec_and cpu instr)
    else stop illegal

execute_i_type : ℕ → ℕ → Machine → ℕ → Result Machine
unfolding choose base_only
execute_i_type func3 func7 cpu instr =
    if func3 == 0x0
    then Immediate.exec_addi cpu instr
    else if func3 == 0x1
    then base_only func7 (Immediate.exec_slli cpu instr)
    else if func3 == 0x2
    then Immediate.exec_slti cpu instr
    else if func3 == 0x3
    then Immediate.exec_sltiu cpu instr
    else if func3 == 0x4
    then Immediate.exec_xori cpu instr
    else if func3 == 0x5
    then choose func7 (Immediate.exec_srli cpu instr) (Immediate.exec_srai cpu instr)
    else if func3 == 0x6
    then Immediate.exec_ori cpu instr
    else if func3 == 0x7
    then Immediate.exec_andi cpu instr
    else stop illegal

execute_store : ℕ → Machine → ℕ → Result Machine
execute_store func3 cpu instr =
    if func3 == 0x0
    then Access.exec_sb cpu instr
    else if func3 == 0x1
    then Access.exec_sh cpu instr
    else if func3 == 0x2
    then Access.exec_sw cpu instr
    else stop illegal

execute_b_type : ℕ → Machine → ℕ → Result Machine
execute_b_type func3 cpu instr =
    if func3 == 0x0
    then Jump.exec_beq cpu instr
    else if func3 == 0x1
    then Jump.exec_bne cpu instr
    else if func3 == 0x4
    then Jump.exec_blt cpu instr
    else if func3 == 0x5
    then Jump.exec_bge cpu instr
    else if func3 == 0x6
    then Jump.exec_bltu cpu instr
    else if func3 == 0x7
    then Jump.exec_bgeu cpu instr
    else stop illegal

execute_load : ℕ → Machine → ℕ → Result Machine
execute_load func3 cpu instr =
    if func3 == 0x0
    then Access.exec_lb cpu instr
    else if func3 == 0x1
    then Access.exec_lh cpu instr
    else if func3 == 0x2
    then Access.exec_lw cpu instr
    else if func3 == 0x4
    then Access.exec_lbu cpu instr
    else if func3 == 0x5
    then Access.exec_lhu cpu instr
    else stop illegal

execute_system : ℕ → Machine → ℕ → Result Machine
execute_system func3 cpu instr =
    if func3 == 0x0
    then (if Decoder.imm_i instr == 0 then exec_ecall cpu else stop illegal)
    else stop illegal

-- Both fences do nothing.
execute_misc_mem : ℕ → Machine → Result Machine
execute_misc_mem func3 cpu =
    if func3 == 0x0 then ok cpu else if func3 == 0x1 then ok cpu else stop illegal

-- The outer switch, on the decoded fields.
pub execute_op : ℕ → ℕ → ℕ → Machine → ℕ → Result Machine
unfolding execute_r_type execute_i_type execute_store execute_b_type execute_load execute_system
    execute_misc_mem
execute_op op func3 func7 cpu instr =
    if op == 0x33
    then execute_r_type func3 func7 cpu instr
    else if op == 0x13
    then execute_i_type func3 func7 cpu instr
    else if op == 0x23
    then execute_store func3 cpu instr
    else if op == 0x63
    then execute_b_type func3 cpu instr
    else if op == 0x03
    then execute_load func3 cpu instr
    else if op == 0x37
    then Immediate.exec_lui cpu instr
    else if op == 0x17
    then Immediate.exec_auipc cpu instr
    else if op == 0x6f
    then Jump.exec_jal cpu instr
    else if op == 0x67
    then Jump.exec_jalr cpu instr
    else if op == 0x73
    then execute_system func3 cpu instr
    else if op == 0x0f
    then execute_misc_mem func3 cpu
    else stop unknown_opcode

pub execute : Machine → ℕ → Result Machine
unfolding execute_op
execute cpu instr =
    execute_op (Decoder.opcode instr) (Decoder.func3 instr) (Decoder.func7 instr) cpu instr

pub step : Machine → Result Machine
step cpu = do
  (cpu', instr) ← fetch (clear_trap cpu)
  if has_trap cpu' then ok cpu' else execute cpu' instr
