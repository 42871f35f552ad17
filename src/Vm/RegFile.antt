-- ===== src/Vm/RegFile.antt =====
-- rv32vm/RegFile.hpp and rv32vm/RegFile.cpp. The array of 32 words is a function of the index; an
-- index from 32 on never reaches it, since `read` and `write` assert first.
pub mod Laws
use rv32umos.Base.{ℕ, Result, ok, stop, bad_index, ltb, ◌==◌, update, if◌then◌else◌}

pub record RegFile : Type 0 where
  pub regs : ℕ → ℕ

unfoldable pub reset : RegFile → RegFile
reset r = record r { regs = λ i. 0 }

-- Also RegFile::operator[], which calls it.
pub read : RegFile → ℕ → Result ℕ
read r index = if ltb index 32 then ok (r.regs index) else stop bad_index

unfoldable pub write : RegFile → ℕ → ℕ → Result RegFile
write r index value =
    if ltb index 32
    then (if index == 0 then ok r else ok (record r { regs = update r.regs index value }))
    else stop bad_index
