-- ===== src/Vm/Isa.antt =====
-- The meaning of the RV32IM operations as the RISC-V manual gives it, on words: signed orders by
-- moving the range up by 2 ^ 31, high products from the 64-bit product, and signed division by
-- sign and magnitude. Nothing here is translated from the source; rv32vm/Executor.cpp is compared
-- with it.
use rv32umos.Base.{
  ℕ, ◌+◌, ◌-◌, ◌*◌, ◌/◌, ◌%◌, ◌^◌, Bool, true, false, ltb, ◌==◌, if◌then◌else◌, bit_and, bit_or,
  bit_xor, not,
}

-- The operations of the R-type instructions.
pub data RegOp : Type 0 where
  add sub sll slt sltu xor srl sra or and : RegOp
  mul mulh mulhsu mulhu div divu rem remu : RegOp

abbrev pub from_bool : Bool → ℕ
from_bool b = if b then 1 else 0

abbrev pub flip_sign : ℕ → ℕ
flip_sign a = (a + 2 ^ 31) % 2 ^ 32

abbrev pub less_signed : ℕ → ℕ → Bool
less_signed a b = ltb (flip_sign a) (flip_sign b)

abbrev pub is_negative : ℕ → Bool
is_negative a = not (ltb a (2 ^ 31))

abbrev pub shift_arithmetic : ℕ → ℕ → ℕ
shift_arithmetic a k = if is_negative a then 2 ^ 32 - 1 - (2 ^ 32 - 1 - a) / 2 ^ k else a / 2 ^ k

-- Sign extension to 64 bits.
abbrev pub extend : ℕ → ℕ
extend a = if is_negative a then a + (2 ^ 64 - 2 ^ 32) else a

abbrev pub high_word : ℕ → ℕ
high_word n = n % 2 ^ 64 / 2 ^ 32

abbrev pub magnitude : ℕ → ℕ
magnitude a = if is_negative a then 2 ^ 32 - a else a

abbrev pub negate : ℕ → ℕ
negate n = (2 ^ 32 - n) % 2 ^ 32

abbrev pub quotient : ℕ → ℕ → ℕ
quotient a b =
    if ltb a (2 ^ 31)
    then (if ltb b (2 ^ 31) then a / b else negate (a / magnitude b))
    else (if ltb b (2 ^ 31) then negate (magnitude a / b) else magnitude a / magnitude b)

abbrev pub remainder : ℕ → ℕ → ℕ
remainder a b = if is_negative a then negate (magnitude a % magnitude b) else a % magnitude b

unfoldable pub alu : RegOp → ℕ → ℕ → ℕ
alu add a b = (a + b) % 2 ^ 32
alu sub a b = (a + (2 ^ 32 - b)) % 2 ^ 32
alu sll a b = a * 2 ^ (b % 32) % 2 ^ 32
alu slt a b = from_bool (less_signed a b)
alu sltu a b = from_bool (ltb a b)
alu xor a b = bit_xor a b
alu srl a b = a / 2 ^ (b % 32)
alu sra a b = shift_arithmetic a (b % 32)
alu or a b = bit_or a b
alu and a b = bit_and a b
alu mul a b = a * b % 2 ^ 32
alu mulh a b = high_word (extend a * extend b)
alu mulhsu a b = high_word (extend a * b)
alu mulhu a b = high_word (a * b)
alu div a b = if b == 0 then 2 ^ 32 - 1 else quotient a b
alu divu a b = if b == 0 then 2 ^ 32 - 1 else a / b
alu rem a b = if b == 0 then a else remainder a b
alu remu a b = if b == 0 then a else a % b

-- The fields that select an R-type instruction.
abbrev pub funct3 : RegOp → ℕ
funct3 add = 0
funct3 sub = 0
funct3 sll = 1
funct3 slt = 2
funct3 sltu = 3
funct3 xor = 4
funct3 srl = 5
funct3 sra = 5
funct3 or = 6
funct3 and = 7
funct3 mul = 0
funct3 mulh = 1
funct3 mulhsu = 2
funct3 mulhu = 3
funct3 div = 4
funct3 divu = 5
funct3 rem = 6
funct3 remu = 7

abbrev pub funct7 : RegOp → ℕ
funct7 add = 0
funct7 sub = 0x20
funct7 sll = 0
funct7 slt = 0
funct7 sltu = 0
funct7 xor = 0
funct7 srl = 0
funct7 sra = 0x20
funct7 or = 0
funct7 and = 0
funct7 op = 1

-- The instructions on a register and an immediate.
pub data ImmOp : Type 0 where
  addi slti sltiu xori ori andi slli srli srai : ImmOp

abbrev pub reg_op : ImmOp → RegOp
reg_op addi = add
reg_op slti = slt
reg_op sltiu = sltu
reg_op xori = xor
reg_op ori = or
reg_op andi = and
reg_op slli = sll
reg_op srli = srl
reg_op srai = sra

abbrev pub is_shift : ImmOp → Bool
is_shift slli = true
is_shift srli = true
is_shift srai = true
is_shift op = false

-- Loads, by size and extension.
pub data LoadOp : Type 0 where
  lb lh lw lbu lhu : LoadOp

abbrev pub load_funct3 : LoadOp → ℕ
load_funct3 lb = 0
load_funct3 lh = 1
load_funct3 lw = 2
load_funct3 lbu = 4
load_funct3 lhu = 5

abbrev pub load_size : LoadOp → ℕ
load_size lb = 1
load_size lh = 2
load_size lw = 4
load_size lbu = 1
load_size lhu = 2

-- The register's word for the bytes that were read.
unfoldable pub load_extend : LoadOp → ℕ → ℕ
load_extend lb v = if ltb v (2 ^ 7) then v else v + (2 ^ 32 - 2 ^ 8)
load_extend lh v = if ltb v (2 ^ 15) then v else v + (2 ^ 32 - 2 ^ 16)
load_extend op v = v

pub data StoreOp : Type 0 where
  sb sh sw : StoreOp

abbrev pub store_funct3 : StoreOp → ℕ
store_funct3 sb = 0
store_funct3 sh = 1
store_funct3 sw = 2

abbrev pub store_size : StoreOp → ℕ
store_size sb = 1
store_size sh = 2
store_size sw = 4

pub data BranchOp : Type 0 where
  beq bne blt bge bltu bgeu : BranchOp

abbrev pub branch_funct3 : BranchOp → ℕ
branch_funct3 beq = 0
branch_funct3 bne = 1
branch_funct3 blt = 4
branch_funct3 bge = 5
branch_funct3 bltu = 6
branch_funct3 bgeu = 7

-- Whether a branch is taken.
unfoldable pub takes : BranchOp → ℕ → ℕ → Bool
takes beq a b = a == b
takes bne a b = not (a == b)
takes blt a b = less_signed a b
takes bge a b = not (less_signed a b)
takes bltu a b = ltb a b
takes bgeu a b = not (ltb a b)
