-- ===== src/Kernel/FileHandle/Write.antt =====
-- Writing a file to its blocks.
use rv32umos.Base.{
  ℕ, zero, suc, ◌+◌, ◌-◌, ◌*◌, ◌/◌, ◌%◌, ◌^◌, ◌≤◌, ◌<◌, ◌≡◌, ◌∙◌, refl, sym, ap, arith, true, false,
  ltb, leb, ◌&&◌, if◌then◌else◌, u32, pos, signed, Bool-cases, inl, inr, lt→ltb, ok,
}
use rv32umos.Kernel.Disk.{Disk, Buffer, block_size, copy, read_block}
use rv32umos.Kernel.Disk.Laws.{
  IsSmall, IsBlock, read_block-in_range, read_block-size, write_block-contents, write_block-blocks,
}
use rv32umos.Kernel.FileSystem.{DiskFileHandle}
use rv32umos.Kernel.FileHandle.{
  Writing, eof, write_chunk_of, written_round, write_round, write_loop, write_all, write,
}
use rv32umos.Kernel.FileHandle.Laws.{IsOnDisk, available, truncated_lem, lt→leb}

-- The place on the disk of a handle's cursor.
abbrev pub place : DiskFileHandle → ℕ
place h = h.start_block_index * block_size + h.cursor

-- The contents after `n` bytes of a buffer have been put at place `at`.
abbrev pub put : (ℕ → ℕ) → ℕ → ℕ → (ℕ → ℕ) → ℕ → ℕ
put source at n contents p = if leb at p && ltb p (at + n) then source (p - at) else contents p

le→leb : (a b : ℕ) → a ≤ b → leb a b ≡ true
le→leb a b h = ground arith

put-put :
    (source contents mid : ℕ → ℕ) (at n m p : ℕ)
    → mid p ≡ put source at n contents p
    → put (λ j. source (n + j)) (at + n) m mid p ≡ put source at (n + m) contents p
put-put source contents mid at n m p h = elim (Bool-cases (leb (at + n) p && ltb p (at + n + m))) [
  | inl inside ↦
      let least : at + n ≤ p = ground arith in
      let most : p < at + n + m = ground arith in
      rw (inside, le→leb at p (omega arith), lt→ltb p (at + (n + m)) (omega arith))
        (ap source (omega arith))
  | inr outside ↦ rw outside (h ∙ ground arith)
]

-- A block with bytes `n` to `n + m` of `source` at offset `o`, on a disk that held the rest of it.
splice :
    (source contents old : ℕ → ℕ) (b o n m p : ℕ)
    → o + m ≤ block_size
    → (p - b < block_size → b ≤ p → old (p - b) ≡ contents p)
    → (if leb b p && ltb p (b + block_size)
        then copy source n (n + m) old o (p - b)
        else contents p)
      ≡ put (λ j. source (n + j)) (b + o) m contents p
splice source contents old b o n m p fits kept =
    elim (Bool-cases (leb b p && ltb p (b + block_size))) [
      | inr outside ↦ rw outside (ground arith)
      | inl inside ↦
          let least : b ≤ p = ground arith in
          let most : p < b + block_size = ground arith in
          let same : old (p - b) ≡ contents p = kept (omega arith) least in
          rw inside (elim (Bool-cases (leb o (p - b) && ltb (p - b - o) (n + m - n))) [
            | inl new ↦
                let least' : o ≤ p - b = ground arith in
                let most' : p - b - o < n + m - n = ground arith in
                rw (new, le→leb (b + o) p (omega arith), lt→ltb p (b + o + m) (omega arith))
                  (ap source (omega arith))
            | inr held ↦ rw held (same ∙ ground arith)
          ])
    ]

pub record IsWriting (d : Disk) (h : DiskFileHandle) (buffer : Buffer) (to_write : ℕ) (w : Writing)
    : Type 0 where
  pub within : w.bytes_written ≤ to_write
  pub start : w.handle.start_block_index ≡ h.start_block_index
  pub moved : w.handle.cursor ≡ h.cursor + w.bytes_written
  pub temp : IsBlock w.temp
  pub blocks : w.disk.total_blocks ≡ d.total_blocks
  pub contents :
      (p : ℕ) → w.disk.contents p ≡ put buffer.bytes (place h) w.bytes_written d.contents p

module _ (d : Disk) (h : DiskFileHandle) (buffer : Buffer) (to_write : ℕ)
    (on : IsOnDisk d h to_write) where
  chunk-bounds :
      (w : Writing)
      → w.bytes_written < to_write
      → (1 ≤ write_chunk_of to_write w)
        × (w.bytes_written + write_chunk_of to_write w ≤ to_write)
        × (w.handle.cursor % block_size + write_chunk_of to_write w ≤ block_size)
  unfolding write_chunk_of
  chunk-bounds w lt = omega arith

  block-in_range :
      (w : Writing)
      → w.bytes_written < to_write
      → IsWriting d h buffer to_write w
      → (u32 (w.handle.start_block_index + w.handle.cursor / block_size)
          ≡ h.start_block_index + w.handle.cursor / block_size)
        × (h.start_block_index + w.handle.cursor / block_size < d.total_blocks)
  block-in_range w lt i =
      let inside : h.start_block_index + w.handle.cursor / block_size < d.total_blocks =
        omega (arith, on.fits, i.moved, lt) in
      (omega (arith, inside, on.small, i.start), inside)

  -- A round puts its bytes where the cursor is.
  round-contents :
      (w : Writing)
      → w.bytes_written < to_write
      → IsWriting d h buffer to_write w
      → (p : ℕ)
      → (written_round buffer to_write w).disk.contents p
        ≡ put
            (λ j. buffer.bytes (w.bytes_written + j))
            (place h + w.bytes_written)
            (write_chunk_of to_write w)
            w.disk.contents
            p
  unfolding written_round
  round-contents w lt i p =
      let (same, inside) = block-in_range w lt i in
      let (_, _, fits) = chunk-bounds w lt in
      let absolute : ℕ = u32 (w.handle.start_block_index + w.handle.cursor / block_size) in
      let old : Buffer = read_block w.disk absolute w.temp in
      let start_of : ℕ = absolute * block_size in
      let chunk : ℕ = write_chunk_of to_write w in
      let small : IsSmall w.disk = omega (arith, on.small, i.blocks) in
      let inside' : absolute < w.disk.total_blocks = omega (arith, same, inside, i.blocks) in
      let at : place h + w.bytes_written ≡ start_of + w.handle.cursor % block_size =
        omega (arith, same, i.moved) in
      write_block-contents w.disk absolute _ p small
        (read_block-size w.disk absolute w.temp ∙ i.temp) inside'
      ∙ splice buffer.bytes w.disk.contents old.bytes start_of (w.handle.cursor % block_size)
          w.bytes_written chunk p fits
          (λ j<n b≤p.
            read_block-in_range w.disk absolute (p - start_of) w.temp small i.temp inside' j<n
            ∙ ap w.disk.contents (omega arith))
      ∙ ap (λ (q : ℕ). put (λ j. buffer.bytes (w.bytes_written + j)) q chunk w.disk.contents p)
          (sym at)

  round-IsWriting :
      (w : Writing)
      → w.bytes_written < to_write
      → IsWriting d h buffer to_write w
      → IsWriting d h buffer to_write (written_round buffer to_write w)
  unfolding written_round
  round-IsWriting w lt i =
      let (least, most, inside) = chunk-bounds w lt in
      record {
        within = most;
        start = i.start;
        moved = omega (arith, on.fits, on.small, i.moved, most);
        temp = read_block-size w.disk _ w.temp ∙ i.temp;
        blocks = write_block-blocks w.disk _ _ ∙ i.blocks;
        contents = λ p.
            round-contents w lt i p
            ∙ put-put buffer.bytes d.contents w.disk.contents (place h) w.bytes_written _ p
                (i.contents p);
      }

  -- The buffer has the bytes of a round.
  round_lem :
      to_write ≤ buffer.size
      → (w : Writing) → w.bytes_written < to_write
      → write_round buffer to_write w ≡ ok (written_round buffer to_write w)
  unfolding write_round
  round_lem room w lt =
      let (_, most, _) = chunk-bounds w lt in
      let inside : ltb buffer.size (w.bytes_written + write_chunk_of to_write w) ≡ false =
        ground (arith, most, room) in
      rw inside refl

  loop-IsWriting :
      to_write ≤ buffer.size
      → (fuel : ℕ) (w : Writing) → IsWriting d h buffer to_write w
      → to_write ≤ w.bytes_written + fuel
      → (w' : Writing) × (write_loop buffer to_write fuel w ≡ ok w')
        × IsWriting d h buffer to_write w'
        × (w'.bytes_written ≡ to_write)
  unfolding write_loop written_round
  loop-IsWriting room zero w i enough = (w, refl, i, omega (arith, i.within))
  loop-IsWriting room (suc fuel) w i enough = elim (Bool-cases (ltb w.bytes_written to_write)) [
    | inl more ↦
        let lt : w.bytes_written < to_write = ground arith in
        let (least, _, _) = chunk-bounds w lt in
        rw (more, round_lem room w lt)
          (loop-IsWriting room fuel (written_round buffer to_write w) (round-IsWriting w lt i)
            (omega (arith, least, enough)))
    | inr done ↦ rw done (w, refl, i, ground (arith, i.within))
  ]

-- A write asks for any 32-bit number of bytes, on a handle before the end of its file. That number,
-- or what is left of the file if that is less, is what it transfers, on the condition that these bytes
-- are fewer than 2 ^ 31, are in the buffer and lie on the disk, and that the disk has fewer than
-- 2 ^ 20 blocks: it then returns after at most one round for each of them, without a fault; the number
-- returned is theirs, the cursor has moved behind them, the disk has as many blocks as before, and of
-- its bytes exactly those from the cursor on are replaced, by the buffer's, across blocks.
pub write_lem :
    (h : DiskFileHandle) (d : Disk) (buffer : Buffer) (size : ℕ)
    → h.cursor < h.file_size
    → size < 2 ^ 32
    → available h size < 2 ^ 31
    → available h size ≤ buffer.size
    → IsOnDisk d h (available h size)
    → (h' : DiskFileHandle) × (d' : Disk) × (write h d buffer size
        ≡ ok (h', d', pos (available h size)))
      × (h'.cursor ≡ h.cursor + available h size)
      × (d'.total_blocks ≡ d.total_blocks)
      × ((p : ℕ) → d'.contents p ≡ put buffer.bytes (place h) (available h size) d.contents p)
unfolding write write_all eof
write_lem h d buffer size lt hs small room on =
    let n : ℕ = available h size in
    let first : Writing = record {
      handle = h;
      disk = d;
      temp = record { size = block_size; bytes = λ j. 0 };
      bytes_written = 0;
    } in
    let begins : IsWriting d h buffer n first = record {
      within = omega arith;
      start = refl;
      moved = omega arith;
      temp = refl;
      blocks = refl;
      contents = λ p. ground arith;
    } in
    let (w, e, i, all) = loop-IsWriting d h buffer n on room n first begins (omega arith) in
    let count : signed 32 (u32 w.bytes_written) ≡ pos n =
      ap (λ (t : ℕ). signed 32 (u32 t)) all ∙ ground arith in
    (
      w.handle,
      w.disk,
      rw
          (
            truncated_lem h size lt (omega (arith, on.fits, on.small)) hs,
            lt→leb h.cursor h.file_size lt,
            e,
          )
          (ap (λ z. ok (w.handle, w.disk, z)) count),
      i.moved ∙ ap (λ (t : ℕ). h.cursor + t) all,
      i.blocks,
      λ p. i.contents p ∙ ap (λ (t : ℕ). put buffer.bytes (place h) t d.contents p) all,
    )
