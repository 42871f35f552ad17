-- ===== src/Vm/Executor/MulDiv.antt =====
-- rv32vm/Executor.cpp: the M extension. A product of two words is below 2 ^ 64 in absolute value and
-- a product of a signed and an unsigned one within int64_t, so products are those of ℤ and ℕ.
pub mod High
pub mod Quotient
pub mod Laws
use rv32umos.Base.{
  ℕ, ◌*◌, ◌/◌, ◌%◌, Result, ok, Bool, true, false, ◌&&◌, ◌==◌, if◌then◌else◌, ◌>>=◌, mul32, shr,
  shr_ℤ, signed, to_word, ℤ, pos, negsuc, ◌*ℤ◌, ◌/ℤ◌, ◌%ℤ◌, u32,
}
use rv32umos.Vm.Decoder
use rv32umos.Vm.Machine.{Machine, read_reg, write_reg}

-- The tests of `execDIV` and `execREM` on their operands.
pub is_zero : ℤ → Bool
is_zero (pos n) = n == 0
is_zero (negsuc n) = false

pub is_int_min : ℤ → Bool
is_int_min (pos n) = false
is_int_min (negsuc n) = n == 0x7fff_ffff

pub is_minus_one : ℤ → Bool
is_minus_one (pos n) = false
is_minus_one (negsuc n) = n == 0

-- What is written to the register: the bodies of the handlers from the operands on.
pub mulh : ℕ → ℕ → ℕ
mulh val1 val2 = to_word (shr_ℤ (signed 32 val1 *ℤ signed 32 val2) 32)

pub mulhsu : ℕ → ℕ → ℕ
mulhsu val1 val2 = to_word (shr_ℤ (signed 32 val1 *ℤ pos val2) 32)

pub mulhu : ℕ → ℕ → ℕ
mulhu val1 val2 = u32 (shr (val1 * val2) 32)

div_signed : ℤ → ℤ → ℕ
div_signed dividend divisor =
    if is_zero divisor
    then to_word (negsuc 0)
    else if is_int_min dividend && is_minus_one divisor
    then to_word dividend
    else to_word (dividend /ℤ divisor)

pub div : ℕ → ℕ → ℕ
unfolding div_signed is_zero is_int_min is_minus_one
div val1 val2 = div_signed (signed 32 val1) (signed 32 val2)

pub divu : ℕ → ℕ → ℕ
divu dividend divisor = if divisor == 0 then 0xffff_ffff else dividend / divisor

rem_signed : ℤ → ℤ → ℕ
rem_signed dividend divisor =
    if is_zero divisor
    then to_word dividend
    else if is_int_min dividend && is_minus_one divisor
    then 0
    else to_word (dividend %ℤ divisor)

pub rem : ℕ → ℕ → ℕ
unfolding rem_signed is_zero is_int_min is_minus_one
rem val1 val2 = rem_signed (signed 32 val1) (signed 32 val2)

pub remu : ℕ → ℕ → ℕ
remu dividend divisor = if divisor == 0 then dividend else dividend % divisor

pub exec_mul : Machine → ℕ → Result Machine
exec_mul cpu instr =
    let rd = Decoder.rd instr in
    if rd == 0 then ok cpu else do
      let rs1 = Decoder.rs1 instr
      let rs2 = Decoder.rs2 instr
      val1 ← read_reg cpu rs1
      val2 ← read_reg cpu rs2
      write_reg cpu rd (mul32 val1 val2)

pub exec_mulh : Machine → ℕ → Result Machine
exec_mulh cpu instr =
    let rd = Decoder.rd instr in
    if rd == 0 then ok cpu else do
      let rs1 = Decoder.rs1 instr
      let rs2 = Decoder.rs2 instr
      val1 ← read_reg cpu rs1
      val2 ← read_reg cpu rs2
      write_reg cpu rd (mulh val1 val2)

pub exec_mulhsu : Machine → ℕ → Result Machine
exec_mulhsu cpu instr =
    let rd = Decoder.rd instr in
    if rd == 0 then ok cpu else do
      let rs1 = Decoder.rs1 instr
      let rs2 = Decoder.rs2 instr
      val1 ← read_reg cpu rs1
      val2 ← read_reg cpu rs2
      write_reg cpu rd (mulhsu val1 val2)

pub exec_mulhu : Machine → ℕ → Result Machine
exec_mulhu cpu instr =
    let rd = Decoder.rd instr in
    if rd == 0 then ok cpu else do
      let rs1 = Decoder.rs1 instr
      let rs2 = Decoder.rs2 instr
      val1 ← read_reg cpu rs1
      val2 ← read_reg cpu rs2
      write_reg cpu rd (mulhu val1 val2)

pub exec_div : Machine → ℕ → Result Machine
exec_div cpu instr =
    let rd = Decoder.rd instr in
    if rd == 0 then ok cpu else do
      let rs1 = Decoder.rs1 instr
      let rs2 = Decoder.rs2 instr
      val1 ← read_reg cpu rs1
      val2 ← read_reg cpu rs2
      write_reg cpu rd (div val1 val2)

pub exec_divu : Machine → ℕ → Result Machine
exec_divu cpu instr =
    let rd = Decoder.rd instr in
    if rd == 0 then ok cpu else do
      let rs1 = Decoder.rs1 instr
      let rs2 = Decoder.rs2 instr
      val1 ← read_reg cpu rs1
      val2 ← read_reg cpu rs2
      write_reg cpu rd (divu val1 val2)

pub exec_rem : Machine → ℕ → Result Machine
exec_rem cpu instr =
    let rd = Decoder.rd instr in
    if rd == 0 then ok cpu else do
      let rs1 = Decoder.rs1 instr
      let rs2 = Decoder.rs2 instr
      val1 ← read_reg cpu rs1
      val2 ← read_reg cpu rs2
      write_reg cpu rd (rem val1 val2)

pub exec_remu : Machine → ℕ → Result Machine
exec_remu cpu instr =
    let rd = Decoder.rd instr in
    if rd == 0 then ok cpu else do
      let rs1 = Decoder.rs1 instr
      let rs2 = Decoder.rs2 instr
      val1 ← read_reg cpu rs1
      val2 ← read_reg cpu rs2
      write_reg cpu rd (remu val1 val2)
