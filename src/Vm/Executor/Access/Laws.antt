-- ===== src/Vm/Executor/Access/Laws.antt =====
-- The load and store handlers, where the page table allows the access and where it does not.
use rv32umos.Base.{
  ℕ, ◌+◌, ◌%◌, ◌^◌, ◌<◌, ◌≤◌, ◌≡◌, ◌≢◌, ap, ◌∙◌, arith, ok, none, false, Result, ◌==◌,
  if◌then◌else◌, ◌>>=◌, add32, signed, to_word, bit_and, ne→==,
}
use rv32umos.Bits.{bit_and_mask}
use rv32umos.Vm.Memory.{memory_size}
use rv32umos.Vm.Memory.Loops.{IsBytes, le_word, stored}
use rv32umos.Vm.Memory.Laws.{le_word-lt}
use rv32umos.Vm.PageTable.{Pte}
use rv32umos.Vm.Mmu.{Mmu}
use rv32umos.Vm.Mmu.Translate.{reads, writes, walk, physical}
use rv32umos.Vm.Mmu.Access.{IsOn, Walks, after}
use rv32umos.Vm.Decoder
use rv32umos.Vm.Machine.{
  Machine, TrapType, read_reg, write_reg, has_trap, load_virtual_memory, store_virtual_memory,
}
use rv32umos.Vm.Machine.Laws.{
  reg, set_reg, read_reg-in_range, write_reg-in_range, rd-lt, rs1-lt, rs2-lt,
}
use rv32umos.Vm.Machine.Access.{
  trapped, with_mmu, load-trapped, load-mapped, store-trapped, store-mapped,
}
use rv32umos.Vm.Isa.{
  LoadOp, lb, lh, lw, lbu, lhu, load_size, load_extend, StoreOp, sb, sh, sw, store_size,
}
use rv32umos.Vm.Executor.Access.{
  exec_lb, exec_lh, exec_lw, exec_lbu, exec_lhu, exec_sb, exec_sh, exec_sw,
}

-- The shapes of the handlers.
abbrev pub loading : ℕ → (ℕ → ℕ) → Machine → ℕ → Result Machine
loading size f cpu instr =
    let rd = Decoder.rd instr in
    if rd == 0 then ok cpu else do
      let rs1 = Decoder.rs1 instr
      let imm = Decoder.imm_i instr
      base ← read_reg cpu rs1
      let addr = add32 base imm
      (cpu', val) ← load_virtual_memory cpu addr size
      if has_trap cpu' then ok cpu' else write_reg cpu' rd (f val)

abbrev pub storing : ℕ → Machine → ℕ → Result Machine
storing size cpu instr = do
  let rs1 = Decoder.rs1 instr
  let rs2 = Decoder.rs2 instr
  let imm = Decoder.imm_s instr
  base ← read_reg cpu rs1
  let addr = add32 base imm
  val ← read_reg cpu rs2
  store_virtual_memory cpu addr size val

-- The handler of each operation.
abbrev pub exec_load : LoadOp → Machine → ℕ → Result Machine
exec_load lb = exec_lb
exec_load lh = exec_lh
exec_load lw = exec_lw
exec_load lbu = exec_lbu
exec_load lhu = exec_lhu

abbrev pub exec_store : StoreOp → Machine → ℕ → Result Machine
exec_store sb = exec_sb
exec_store sh = exec_sh
exec_store sw = exec_sw

abbrev pub load_address : Machine → ℕ → ℕ
load_address cpu w = add32 (reg cpu (Decoder.rs1 w)) (Decoder.imm_i w)

abbrev pub store_address : Machine → ℕ → ℕ
store_address cpu w = add32 (reg cpu (Decoder.rs1 w)) (Decoder.imm_s w)

load_size-bounds : (op : LoadOp) → (1 ≤ load_size op) × (load_size op ≤ 4)
load_size-bounds lb = omega arith
load_size-bounds lh = omega arith
load_size-bounds lw = omega arith
load_size-bounds lbu = omega arith
load_size-bounds lhu = omega arith

store_size-bounds : (op : StoreOp) → (1 ≤ store_size op) × (store_size op ≤ 4)
store_size-bounds sb = omega arith
store_size-bounds sh = omega arith
store_size-bounds sw = omega arith

has_trap-with_mmu :
    (cpu : Machine) (u : Mmu) → cpu.trap.type ≡ TrapType.none → has_trap (with_mmu cpu u) ≡ false
unfolding has_trap
has_trap-with_mmu cpu u e = ground arith

module _ (cpu : Machine) (w : ℕ) (on : IsOn cpu.mmu) where
  loading-trapped :
      (size : ℕ) (f : ℕ → ℕ)
      → Decoder.rd w ≢ 0
      → walk cpu.mmu (load_address cpu w) reads ≡ none
      → loading size f cpu w ≡ ok (trapped cpu (load_address cpu w))
  unfolding has_trap
  loading-trapped size f d r = rw (
    ne→== (Decoder.rd w) 0 d,
    read_reg-in_range cpu (Decoder.rs1 w) (rs1-lt w),
    load-trapped cpu (load_address cpu w) size on r,
  )

  storing-trapped :
      (size : ℕ)
      → walk cpu.mmu (store_address cpu w) writes ≡ none
      → storing size cpu w ≡ ok (trapped cpu (store_address cpu w))
  storing-trapped size r = rw (
    read_reg-in_range cpu (Decoder.rs1 w) (rs1-lt w),
    read_reg-in_range cpu (Decoder.rs2 w) (rs2-lt w),
    store-trapped cpu (store_address cpu w) size on (reg cpu (Decoder.rs2 w)) r,
  )

  module _ (p : ℕ) (pte : Pte) (hm : IsBytes cpu.mmu.memory) where
    loading-mapped :
        (size : ℕ) (f : ℕ → ℕ)
        → 1 ≤ size
        → size ≤ 4
        → cpu.trap.type ≡ TrapType.none
        → Decoder.rd w ≢ 0
        → Walks cpu.mmu (load_address cpu w) reads p pte
        → physical pte (load_address cpu w) + size ≤ memory_size
        → loading size f cpu w
          ≡ ok (
              set_reg
                (with_mmu cpu (after cpu.mmu (load_address cpu w) reads p pte))
                (Decoder.rd w)
                (f (le_word cpu.mmu.memory.bytes (physical pte (load_address cpu w)) size)))
    loading-mapped size f h1 h4 none_yet d walks fits =
        let u : Mmu = after cpu.mmu (load_address cpu w) reads p pte in
        rw
          (
            ne→== (Decoder.rd w) 0 d,
            read_reg-in_range cpu (Decoder.rs1 w) (rs1-lt w),
            load-mapped cpu (load_address cpu w) size on p pte hm h1 h4 fits walks,
            has_trap-with_mmu cpu u none_yet,
            write_reg-in_range (with_mmu cpu u) (Decoder.rd w) _ (rd-lt w),
          )
          (rw (ne→== (Decoder.rd w) 0 d))

    storing-mapped :
        (size : ℕ)
        → 1 ≤ size
        → size ≤ 4
        → Walks cpu.mmu (store_address cpu w) writes p pte
        → physical pte (store_address cpu w) + size ≤ memory_size
        → storing size cpu w
          ≡ ok (
              with_mmu cpu (record (after cpu.mmu (store_address cpu w) writes p pte) {
                memory =
                    stored cpu.mmu.memory
                      (physical pte (store_address cpu w))
                      (reg cpu (Decoder.rs2 w))
                      0
                      size;
              }))
    storing-mapped size h1 h4 walks fits = rw (
      read_reg-in_range cpu (Decoder.rs1 w) (rs1-lt w),
      read_reg-in_range cpu (Decoder.rs2 w) (rs2-lt w),
      store-mapped cpu (store_address cpu w) size on p pte hm h1 h4 fits (reg cpu (Decoder.rs2 w))
          walks,
    )

-- The extensions of the handlers are the manual's.
extend-byte : (v : ℕ) → v < 2 ^ 8 → to_word (signed 8 (v % 2 ^ 8)) ≡ load_extend lb v
unfolding load_extend
extend-byte v h = ground arith

extend-half : (v : ℕ) → v < 2 ^ 16 → to_word (signed 16 (v % 2 ^ 16)) ≡ load_extend lh v
unfolding load_extend
extend-half v h = ground arith

extend-byte_unsigned : (v : ℕ) → v < 2 ^ 8 → bit_and v 0xff ≡ load_extend lbu v
unfolding load_extend
extend-byte_unsigned v h = omega (arith, bit_and_mask 8 v)

extend-half_unsigned : (v : ℕ) → v < 2 ^ 16 → bit_and v 0xffff ≡ load_extend lhu v
unfolding load_extend
extend-half_unsigned v h = omega (arith, bit_and_mask 16 v)

module _ (cpu : Machine) (w : ℕ) (on : IsOn cpu.mmu) where
  pub exec_load-trapped :
      (op : LoadOp)
      → Decoder.rd w ≢ 0
      → walk cpu.mmu (load_address cpu w) reads ≡ none
      → exec_load op cpu w ≡ ok (trapped cpu (load_address cpu w))
  unfolding exec_lb exec_lh exec_lw exec_lbu exec_lhu
  exec_load-trapped lb d r = loading-trapped cpu w on 1 _ d r
  exec_load-trapped lh d r = loading-trapped cpu w on 2 _ d r
  exec_load-trapped lw d r = loading-trapped cpu w on 4 (λ v. v) d r
  exec_load-trapped lbu d r = loading-trapped cpu w on 1 _ d r
  exec_load-trapped lhu d r = loading-trapped cpu w on 2 _ d r

  pub exec_store-trapped :
      (op : StoreOp)
      → walk cpu.mmu (store_address cpu w) writes ≡ none
      → exec_store op cpu w ≡ ok (trapped cpu (store_address cpu w))
  unfolding exec_sb exec_sh exec_sw
  exec_store-trapped sb r = storing-trapped cpu w on 1 r
  exec_store-trapped sh r = storing-trapped cpu w on 2 r
  exec_store-trapped sw r = storing-trapped cpu w on 4 r

  module _ (p : ℕ) (pte : Pte) (hm : IsBytes cpu.mmu.memory) where
    -- The machine after a load of the operation `op` from the frame of `pte`.
    abbrev pub loaded : LoadOp → Machine
    loaded op =
        set_reg (with_mmu cpu (after cpu.mmu (load_address cpu w) reads p pte)) (Decoder.rd w) (
          load_extend op
            (le_word cpu.mmu.memory.bytes (physical pte (load_address cpu w)) (load_size op)))

    pub exec_load-mapped :
        (op : LoadOp)
        → cpu.trap.type ≡ TrapType.none
        → Decoder.rd w ≢ 0
        → Walks cpu.mmu (load_address cpu w) reads p pte
        → physical pte (load_address cpu w) + load_size op ≤ memory_size
        → exec_load op cpu w ≡ ok (loaded op)
    unfolding exec_lb exec_lh exec_lw exec_lbu exec_lhu load_extend
    exec_load-mapped lb q d walks fits =
        loading-mapped cpu w on p pte hm 1 _ (omega arith) (omega arith) q d walks fits
        ∙ ap
            (λ v. ok (
              set_reg (with_mmu cpu (after cpu.mmu (load_address cpu w) reads p pte)) (Decoder.rd w)
                v))
            (extend-byte _ (le_word-lt cpu.mmu.memory _ 1 hm))
    exec_load-mapped lh q d walks fits =
        loading-mapped cpu w on p pte hm 2 _ (omega arith) (omega arith) q d walks fits
        ∙ ap
            (λ v. ok (
              set_reg (with_mmu cpu (after cpu.mmu (load_address cpu w) reads p pte)) (Decoder.rd w)
                v))
            (extend-half _ (le_word-lt cpu.mmu.memory _ 2 hm))
    exec_load-mapped lw q d walks fits =
        loading-mapped cpu w on p pte hm 4 (λ v. v) (omega arith) (omega arith) q d walks fits
    exec_load-mapped lbu q d walks fits =
        loading-mapped cpu w on p pte hm 1 _ (omega arith) (omega arith) q d walks fits
        ∙ ap
            (λ v. ok (
              set_reg (with_mmu cpu (after cpu.mmu (load_address cpu w) reads p pte)) (Decoder.rd w)
                v))
            (extend-byte_unsigned _ (le_word-lt cpu.mmu.memory _ 1 hm))
    exec_load-mapped lhu q d walks fits =
        loading-mapped cpu w on p pte hm 2 _ (omega arith) (omega arith) q d walks fits
        ∙ ap
            (λ v. ok (
              set_reg (with_mmu cpu (after cpu.mmu (load_address cpu w) reads p pte)) (Decoder.rd w)
                v))
            (extend-half_unsigned _ (le_word-lt cpu.mmu.memory _ 2 hm))

    pub exec_store-mapped :
        (op : StoreOp)
        → Walks cpu.mmu (store_address cpu w) writes p pte
        → physical pte (store_address cpu w) + store_size op ≤ memory_size
        → exec_store op cpu w
          ≡ ok (
              with_mmu cpu (record (after cpu.mmu (store_address cpu w) writes p pte) {
                memory =
                    stored cpu.mmu.memory
                      (physical pte (store_address cpu w))
                      (reg cpu (Decoder.rs2 w))
                      0
                      (store_size op);
              }))
    unfolding exec_sb exec_sh exec_sw
    exec_store-mapped sb walks fits =
        storing-mapped cpu w on p pte hm 1 (omega arith) (omega arith) walks fits
    exec_store-mapped sh walks fits =
        storing-mapped cpu w on p pte hm 2 (omega arith) (omega arith) walks fits
    exec_store-mapped sw walks fits =
        storing-mapped cpu w on p pte hm 4 (omega arith) (omega arith) walks fits

pub exec_load-x0 :
    (cpu : Machine) (w : ℕ) (op : LoadOp) → Decoder.rd w ≡ 0 → exec_load op cpu w ≡ ok cpu
unfolding exec_lb exec_lh exec_lw exec_lbu exec_lhu
exec_load-x0 cpu w lb d = rw d
exec_load-x0 cpu w lh d = rw d
exec_load-x0 cpu w lw d = rw d
exec_load-x0 cpu w lbu d = rw d
exec_load-x0 cpu w lhu d = rw d
