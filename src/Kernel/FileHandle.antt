-- ===== src/Kernel/FileHandle.antt =====
-- filesystem/DiskFileHandle.hpp and filesystem/DiskFileHandle.cpp: the handles are those of
-- Kernel/FileSystem.antt. The disk is passed to each operation.
pub mod Laws
pub mod Write
pub mod Tests
use rv32umos.Base.{
  ℕ, zero, suc, ◌+◌, ◌-◌, ◌/◌, ◌%◌, ◌^◌, min, Bool, ltb, leb, if◌then◌else◌, u32, ℤ, pos, signed,
  to_word, Result, ok, stop, out_of_bounds, ◌>>=◌,
}
use rv32umos.Kernel.Disk.{Disk, Buffer, block_size, copy, read_block, write_block}
use rv32umos.Kernel.FileSystem.{DiskFileHandle}

pub eof : DiskFileHandle → Bool
eof h = leb h.file_size h.cursor

-- The bytes that a transfer of `size` covers: `cursor + toRead` is a std::size_t.
pub truncated : DiskFileHandle → ℕ → ℕ
truncated h size =
    if ltb h.file_size ((h.cursor + size) % 2 ^ 64) then h.file_size - h.cursor else size

-- std::vector::resize: new bytes are 0.
abbrev pub resize : Buffer → ℕ → Buffer
resize b n = record { size = n; bytes = λ j. if ltb j b.size then b.bytes j else 0 }

-- The state of the loop of `read`.
pub record Reading : Type 0 where
  pub handle : DiskFileHandle
  pub buffer : Buffer
  pub temp : Buffer
  pub bytes_read : ℕ

pub chunk_of : ℕ → Reading → ℕ
chunk_of to_read r =
    let bytes_left_in_block = block_size - r.handle.cursor % block_size in
    let remaining_needed = to_read - r.bytes_read in min bytes_left_in_block remaining_needed

-- One round.
pub read_round : Disk → ℕ → Reading → Reading
unfolding chunk_of
read_round d to_read r =
    let relative_block = r.handle.cursor / block_size in
    let absolute_block = u32 (r.handle.start_block_index + relative_block) in
    let offset_in_block = r.handle.cursor % block_size in
    let temp = read_block d absolute_block r.temp in
    let chunk = chunk_of to_read r in
    record {
      handle = record r.handle { cursor = u32 (r.handle.cursor + chunk) };
      buffer = record r.buffer {
        bytes =
            copy temp.bytes offset_in_block (offset_in_block + chunk) r.buffer.bytes r.bytes_read;
      };
      temp = temp;
      bytes_read = r.bytes_read + chunk;
    }

-- The loop, on fuel. A round transfers at least a byte, so `to_read` rounds are enough.
pub read_loop : Disk → ℕ → ℕ → Reading → Reading
read_loop d to_read zero r = r
read_loop d to_read (suc fuel) r =
    let rest = read_loop d to_read fuel (read_round d to_read r) in
    if ltb r.bytes_read to_read then rest else r

read_all : DiskFileHandle → Disk → Buffer → ℕ → Reading
read_all h d buffer to_read = read_loop d to_read to_read (record {
  handle = h;
  buffer = resize buffer to_read;
  temp = record { size = block_size; bytes = λ j. 0 };
  bytes_read = 0;
})

pub read : DiskFileHandle → Disk → Buffer → ℕ → DiskFileHandle × Buffer × ℤ
unfolding read_all truncated eof
read h d buffer size =
    let r = read_all h d buffer (truncated h size) in
    if eof h then (h, buffer, pos 0) else (r.handle, r.buffer, signed 32 (u32 r.bytes_read))

-- The state of the loop of `write`.
pub record Writing : Type 0 where
  pub handle : DiskFileHandle
  pub disk : Disk
  pub temp : Buffer
  pub bytes_written : ℕ

pub write_chunk_of : ℕ → Writing → ℕ
write_chunk_of to_write w =
    let bytes_left_in_block = block_size - w.handle.cursor % block_size in
    let remaining_needed = to_write - w.bytes_written in min bytes_left_in_block remaining_needed

-- One round, where the buffer has the bytes that it copies.
pub written_round : Buffer → ℕ → Writing → Writing
unfolding write_chunk_of
written_round buffer to_write w =
    let relative_block = w.handle.cursor / block_size in
    let absolute_block = u32 (w.handle.start_block_index + relative_block) in
    let offset_in_block = w.handle.cursor % block_size in
    let old = read_block w.disk absolute_block w.temp in
    let chunk = write_chunk_of to_write w in
    let temp = record old {
      bytes = copy buffer.bytes w.bytes_written (w.bytes_written + chunk) old.bytes offset_in_block;
    } in
    record {
      handle = record w.handle { cursor = u32 (w.handle.cursor + chunk) };
      disk = write_block w.disk absolute_block temp;
      temp = temp;
      bytes_written = w.bytes_written + chunk;
    }

-- Copying from past the end of the buffer is undefined.
pub write_round : Buffer → ℕ → Writing → Result Writing
unfolding written_round write_chunk_of
write_round buffer to_write w =
    if ltb buffer.size (w.bytes_written + write_chunk_of to_write w)
    then stop out_of_bounds
    else ok (written_round buffer to_write w)

pub write_loop : Buffer → ℕ → ℕ → Writing → Result Writing
write_loop buffer to_write zero w = ok w
write_loop buffer to_write (suc fuel) w =
    let rest : Result Writing = (do
      w' ← write_round buffer to_write w
      write_loop buffer to_write fuel w') in
    if ltb w.bytes_written to_write then rest else ok w

write_all : DiskFileHandle → Disk → Buffer → ℕ → Result Writing
write_all h d buffer to_write = write_loop buffer to_write to_write (record {
  handle = h;
  disk = d;
  temp = record { size = block_size; bytes = λ j. 0 };
  bytes_written = 0;
})

pub write : DiskFileHandle → Disk → Buffer → ℕ → Result (DiskFileHandle × Disk × ℤ)
unfolding write_all truncated eof
write h d buffer size =
    let rest : Result (DiskFileHandle × Disk × ℤ) = (do
      w ← write_all h d buffer (truncated h size)
      ok (w.handle, w.disk, signed 32 (u32 w.bytes_written))) in
    if eof h then ok (h, d, pos 0) else rest

pub seek : DiskFileHandle → ℤ → DiskFileHandle × ℤ
seek h offset =
    let cursor = u32 (h.cursor + to_word offset) in (record h { cursor = cursor }, signed 32 cursor)

pub reset : DiskFileHandle → DiskFileHandle × ℤ
reset h = (record h { cursor = 0 }, pos 0)
