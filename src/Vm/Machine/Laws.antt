-- ===== src/Vm/Machine/Laws.antt =====
-- Registers of the machine at the indices that a decoder gives.
use rv32umos.Base.{ℕ, ◌<◌, ◌≡◌, arith, ok, ◌==◌, if◌then◌else◌, ◌>>=◌, Result}
use rv32umos.Vm.RegFile.Laws.{read-in_range, write-in_range, written}
use rv32umos.Vm.Decoder
use rv32umos.Vm.Decoder.Fields.{rd_lem, rs1_lem, rs2_lem}
use rv32umos.Vm.Machine.{Machine, read_reg, write_reg}

-- The word in a register.
abbrev pub reg : Machine → ℕ → ℕ
reg cpu i = cpu.regs.regs i

-- The machine after a register has been given a value; x0 keeps its own.
abbrev pub set_reg : Machine → ℕ → ℕ → Machine
set_reg cpu d v = record cpu { regs = written cpu.regs d v }

pub read_reg-in_range : (cpu : Machine) (i : ℕ) → i < 32 → read_reg cpu i ≡ ok (reg cpu i)
unfolding read_reg
read_reg-in_range cpu i h = read-in_range cpu.regs i h

pub write_reg-in_range :
    (cpu : Machine) (i v : ℕ) → i < 32 → write_reg cpu i v ≡ ok (set_reg cpu i v)
unfolding write_reg
write_reg-in_range cpu i v h = rw (write-in_range cpu.regs i v h)

module _ (w : ℕ) where
  pub rd-lt : Decoder.rd w < 32
  rd-lt = omega (arith, rd_lem w)

  pub rs1-lt : Decoder.rs1 w < 32
  rs1-lt = omega (arith, rs1_lem w)

  pub rs2-lt : Decoder.rs2 w < 32
  rs2-lt = omega (arith, rs2_lem w)

-- The shape of the handlers that compute a register from two others.
abbrev pub binary : (ℕ → ℕ → ℕ) → Machine → ℕ → Result Machine
binary f cpu instr =
    let rd = Decoder.rd instr in
    if rd == 0 then ok cpu else do
      let rs1 = Decoder.rs1 instr
      let rs2 = Decoder.rs2 instr
      val1 ← read_reg cpu rs1
      val2 ← read_reg cpu rs2
      write_reg cpu rd (f val1 val2)

-- And of those that compute it from one.
abbrev pub unary : (ℕ → ℕ) → Machine → ℕ → Result Machine
unary f cpu instr =
    let rd = Decoder.rd instr in
    if rd == 0
    then ok cpu
    else do let rs1 = Decoder.rs1 instr; val1 ← read_reg cpu rs1; write_reg cpu rd (f val1)

module _ (cpu : Machine) (w : ℕ) where
  pub binary_lem :
      (f : ℕ → ℕ → ℕ)
      → binary f cpu w
        ≡ ok (set_reg cpu (Decoder.rd w) (f (reg cpu (Decoder.rs1 w)) (reg cpu (Decoder.rs2 w))))
  binary_lem f =
      rw
        (
          read_reg-in_range cpu (Decoder.rs1 w) (rs1-lt w),
          read_reg-in_range cpu (Decoder.rs2 w) (rs2-lt w),
          write_reg-in_range cpu (Decoder.rd w)
              (f (reg cpu (Decoder.rs1 w)) (reg cpu (Decoder.rs2 w))) (rd-lt w),
        )
        (ground arith)

  pub unary_lem :
      (f : ℕ → ℕ) → unary f cpu w ≡ ok (set_reg cpu (Decoder.rd w) (f (reg cpu (Decoder.rs1 w))))
  unary_lem f =
      rw
        (
          read_reg-in_range cpu (Decoder.rs1 w) (rs1-lt w),
          write_reg-in_range cpu (Decoder.rd w) (f (reg cpu (Decoder.rs1 w))) (rd-lt w),
        )
        (ground arith)
