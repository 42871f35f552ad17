-- ===== src/Vm/RegFile/Laws.antt =====
-- The register file of 32 words with x0 wired to zero.
use rv32umos.Base.{
  ℕ, ◌<◌, ◌^◌, ◌≡◌, refl, arith, ok, stop, bad_index, update, ◌==◌, ◌&&◌, not, leb, if◌then◌else◌,
  lt→ltb,
}
use rv32umos.Vm.RegFile.{RegFile, reset, read, write}

-- The registers are words, and x0 holds 0.
pub record IsRegs (r : RegFile) : Type 0 where
  pub words : (i : ℕ) → r.regs i < 2 ^ 32
  pub zero_wired : r.regs 0 ≡ 0

pub read-in_range : (r : RegFile) (i : ℕ) → i < 32 → read r i ≡ ok (r.regs i)
unfolding read
read-in_range r i h = rw (lt→ltb _ _ h)

-- The registers after a write: x0 does not change.
abbrev pub written : RegFile → ℕ → ℕ → RegFile
written r i v = if i == 0 then r else record r { regs = update r.regs i v }

pub write-in_range : (r : RegFile) (i v : ℕ) → i < 32 → write r i v ≡ ok (written r i v)
unfolding write
write-in_range r i v h = rw (lt→ltb _ _ h) (ground arith)

-- A write to one of the 32 registers returns, and a read of any index then gives the value if the
-- index is the one written and not 0, and what it gave before if not; a write from index 32 on
-- fails its assert.
pub read-write :
    (r : RegFile) (i v : ℕ)
    → (r' : RegFile) × (write r i v ≡ (if leb 32 i then stop bad_index else ok r'))
      × ((j : ℕ)
          → read r' j ≡ (if (j == i) && (not (i == 0) && not (leb 32 i)) then ok v else read r j))
unfolding read write
read-write r i v = (if leb 32 i then r else written r i v, ground arith, λ j. ground arith)

pub reset-IsRegs : (r : RegFile) → IsRegs (reset r)
unfolding reset
reset-IsRegs r = record { words = λ i. omega arith; zero_wired = refl }

pub written-IsRegs : (r : RegFile) (i v : ℕ) → v < 2 ^ 32 → IsRegs r → IsRegs (written r i v)
written-IsRegs r i v hv h = record {
  words = λ j. ground (arith, h.words j);
  zero_wired = ground (arith, h.zero_wired);
}

-- A reset or a write of a word keeps the registers words and x0 zero, whatever the index.
pub write-IsRegs :
    (r r' : RegFile) (i v : ℕ) → v < 2 ^ 32 → IsRegs r → write r i v ≡ ok r' → IsRegs r'
unfolding write
write-IsRegs r r' i v hv h e = rw same (written-IsRegs r i v hv h)
  where
    same : r' ≡ written r i v
    same = ground arith
