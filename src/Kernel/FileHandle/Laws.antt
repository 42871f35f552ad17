-- ===== src/Kernel/FileHandle/Laws.antt =====
-- Reading a file from its blocks.
use rv32umos.Base.{
  ℕ, zero, suc, ◌+◌, ◌-◌, ◌*◌, ◌/◌, ◌%◌, ◌^◌, ◌≤◌, ◌<◌, ◌≡◌, ◌∙◌, refl, ap, arith, min, false, ltb,
  leb, u32, pos, signed, Bool-cases, inl, inr, lt→ltb,
}
use rv32umos.Kernel.Disk.{Disk, Buffer, block_size}
use rv32umos.Kernel.Disk.Laws.{IsSmall, IsBlock, read_block-in_range, read_block-size}
use rv32umos.Kernel.FileSystem.{DiskFileHandle}
use rv32umos.Kernel.FileHandle.{
  Reading, eof, truncated, resize, chunk_of, read_round, read_loop, read_all, read,
}

-- Byte i of a file.
abbrev pub file_byte : Disk → DiskFileHandle → ℕ → ℕ
file_byte d h i = d.contents (h.start_block_index * block_size + i)

-- The state of the loop after `r.bytes_read` of `to_read` bytes, from the handle `h` on.
pub record IsReading (d : Disk) (h : DiskFileHandle) (to_read : ℕ) (r : Reading) : Type 0 where
  pub within : r.bytes_read ≤ to_read
  pub start : r.handle.start_block_index ≡ h.start_block_index
  pub file : r.handle.file_size ≡ h.file_size
  pub moved : r.handle.cursor ≡ h.cursor + r.bytes_read
  pub temp : IsBlock r.temp
  pub size : r.buffer.size ≡ to_read
  pub filled : (j : ℕ) → j < r.bytes_read → r.buffer.bytes j ≡ file_byte d h (h.cursor + j)

-- The file from the cursor on lies on the disk.
pub record IsOnDisk (d : Disk) (h : DiskFileHandle) (to_read : ℕ) : Type 0 where
  pub small : IsSmall d
  pub fits : h.start_block_index * block_size + h.cursor + to_read ≤ d.total_blocks * block_size

pub lt→leb : (a b : ℕ) → a < b → leb b a ≡ false
lt→leb a b h = ground arith

module _ (d : Disk) (h : DiskFileHandle) (to_read : ℕ) (on : IsOnDisk d h to_read) where
  chunk-bounds :
      (r : Reading)
      → r.bytes_read < to_read
      → (1 ≤ chunk_of to_read r)
        × (r.bytes_read + chunk_of to_read r ≤ to_read)
        × (r.handle.cursor % block_size + chunk_of to_read r ≤ block_size)
  unfolding chunk_of
  chunk-bounds r lt = omega arith

  -- The block that a round reads.
  block-in_range :
      (r : Reading)
      → r.bytes_read < to_read
      → IsReading d h to_read r
      → (u32 (r.handle.start_block_index + r.handle.cursor / block_size)
          ≡ h.start_block_index + r.handle.cursor / block_size)
        × (h.start_block_index + r.handle.cursor / block_size < d.total_blocks)
  block-in_range r lt i =
      let inside : h.start_block_index + r.handle.cursor / block_size < d.total_blocks =
        omega (arith, on.fits, i.moved, lt) in
      (omega (arith, inside, on.small, i.start), inside)

  round-byte :
      (r : Reading)
      → r.bytes_read < to_read
      → IsReading d h to_read r
      → (j : ℕ) → j < r.bytes_read + chunk_of to_read r
      → (read_round d to_read r).buffer.bytes j ≡ file_byte d h (h.cursor + j)
  unfolding read_round
  round-byte r lt i j lt' = elim (Bool-cases (leb r.bytes_read j)) [
    | inr before ↦ rw before (i.filled j (ground arith))
    | inl after ↦
        let c : ℕ = r.handle.cursor in
        let offset : ℕ = c % block_size + (j - r.bytes_read) in
        let absolute : ℕ = u32 (r.handle.start_block_index + c / block_size) in
        let least : r.bytes_read ≤ j = ground arith in
        let (same, inside) = block-in_range r lt i in
        let (_, _, fits) = chunk-bounds r lt in
        rw
          (
            after,
            lt→ltb (j - r.bytes_read) (c % block_size + chunk_of to_read r - c % block_size)
                (omega arith),
          )
          (read_block-in_range d absolute offset r.temp on.small i.temp
              (omega (arith, same, inside)) (omega arith)
            ∙ ap d.contents (omega (arith, same, i.moved)))
  ]

  round-IsReading :
      (r : Reading)
      → r.bytes_read < to_read
      → IsReading d h to_read r
      → IsReading d h to_read (read_round d to_read r)
  unfolding read_round
  round-IsReading r lt i =
      let (least, most, inside) = chunk-bounds r lt in
      record {
        within = most;
        start = i.start;
        file = i.file;
        moved = omega (arith, on.fits, on.small, i.moved, most);
        temp = read_block-size d _ r.temp ∙ i.temp;
        size = i.size;
        filled = λ j lt'. round-byte r lt i j lt';
      }

  loop-IsReading :
      (fuel : ℕ) (r : Reading)
      → IsReading d h to_read r
      → to_read ≤ r.bytes_read + fuel
      → IsReading d h to_read (read_loop d to_read fuel r)
        × ((read_loop d to_read fuel r).bytes_read ≡ to_read)
  unfolding read_loop read_round
  loop-IsReading zero r i enough = (i, omega (arith, i.within))
  loop-IsReading (suc fuel) r i enough = elim (Bool-cases (ltb r.bytes_read to_read)) [
    | inl more ↦
        let lt : r.bytes_read < to_read = ground arith in
        let (least, _, _) = chunk-bounds r lt in
        rw more (
          loop-IsReading fuel (read_round d to_read r) (round-IsReading r lt i)
            (omega (arith, least, enough)))
    | inr done ↦ rw done (i, ground (arith, i.within))
  ]

-- The number of bytes from the cursor on that a transfer of `size` covers.
abbrev pub available : DiskFileHandle → ℕ → ℕ
available h size = min size (h.file_size - h.cursor)

pub truncated_lem :
    (h : DiskFileHandle) (size : ℕ)
    → h.cursor < h.file_size
    → h.cursor < 2 ^ 32
    → size < 2 ^ 32
    → truncated h size ≡ available h size
unfolding truncated
truncated_lem h size lt hc hs = ground arith

-- A read asks for any 32-bit number of bytes, on a handle before the end of its file. That number,
-- or what is left of the file if that is less, is what it transfers, on the condition that these bytes
-- are fewer than 2 ^ 31 and lie on the disk, and that the disk has fewer than 2 ^ 20 blocks: it then
-- returns after at most one round for each of them; the number returned is theirs, the buffer has
-- that many bytes, they are the file's from the cursor on, across blocks, and the cursor has moved
-- behind them.
pub read_lem :
    (h : DiskFileHandle) (d : Disk) (buffer : Buffer) (size : ℕ)
    → h.cursor < h.file_size
    → size < 2 ^ 32
    → available h size < 2 ^ 31
    → IsOnDisk d h (available h size)
    → let (h', b, n) = read h d buffer size in
      (n ≡ pos (available h size))
      × (h'.cursor ≡ h.cursor + available h size)
      × (b.size ≡ available h size)
      × ((j : ℕ) → j < available h size → b.bytes j ≡ file_byte d h (h.cursor + j))
unfolding read read_all eof
read_lem h d buffer size lt hs small on =
    let n : ℕ = available h size in
    let first : Reading = record {
      handle = h;
      buffer = resize buffer n;
      temp = record { size = block_size; bytes = λ j. 0 };
      bytes_read = 0;
    } in
    let begins : IsReading d h n first = record {
      within = omega arith;
      start = refl;
      file = refl;
      moved = omega arith;
      temp = refl;
      size = refl;
      filled = λ j q. absurd (omega arith);
    } in
    let (i, all) = loop-IsReading d h n on n first begins (omega arith) in
    rw
      (
        truncated_lem h size lt (omega (arith, on.fits, on.small)) hs,
        lt→leb h.cursor h.file_size lt,
      )
      (
        ap (λ (t : ℕ). signed 32 (u32 t)) all ∙ ground arith,
        i.moved ∙ ap (λ (t : ℕ). h.cursor + t) all,
        i.size,
        λ j q. i.filled j (omega (arith, all)),
      )
