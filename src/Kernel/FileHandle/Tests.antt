-- ===== src/Kernel/FileHandle/Tests.antt =====
-- A read of all that is left and a write across two blocks of a file of 5000 bytes that starts at
-- block 2.
use rv32umos.Base.{ℕ, ◌+◌, ◌%◌, ◌<◌, ◌≤◌, ◌≡◌, arith, pos, ok}
use rv32umos.Kernel.Disk.{Disk, Buffer}
use rv32umos.Kernel.FileSystem.{DiskFileHandle}
use rv32umos.Kernel.FileHandle.{read, write}
use rv32umos.Kernel.FileHandle.Laws.{IsOnDisk, file_byte, read_lem}
use rv32umos.Kernel.FileHandle.Write.{put, write_lem}

abbrev disk : Disk
disk = record { contents = λ i. i % 256; total_blocks = 4096 }

abbrev handle : DiskFileHandle
handle = record { start_block_index = 2; file_size = 5000; cursor = 4090 }

abbrev empty : Buffer
empty = record { size = 0; bytes = λ j. 0 }

handle-IsOnDisk : (n : ℕ) → n ≤ 910 → IsOnDisk disk handle n
handle-IsOnDisk n le = record { small = omega arith; fits = omega arith }

read_lem_example :
    let (h', b, n) = read handle disk empty 0xffff_ffff in
    (n ≡ pos 910)
    × (h'.cursor ≡ 5000)
    × (b.size ≡ 910)
    × ((j : ℕ) → j < 910 → b.bytes j ≡ file_byte disk handle (4090 + j))
read_lem_example =
    read_lem handle disk empty 0xffff_ffff (omega arith) (omega arith) (omega arith)
      (handle-IsOnDisk 910 (omega arith))

abbrev letters : Buffer
letters = record { size = 20; bytes = λ j. 65 + j }

write_lem_example :
    (h' : DiskFileHandle) × (d' : Disk) × (write handle disk letters 20 ≡ ok (h', d', pos 20))
    × (h'.cursor ≡ 4110)
    × (d'.total_blocks ≡ 4096)
    × ((p : ℕ) → d'.contents p ≡ put letters.bytes 12282 20 disk.contents p)
write_lem_example =
    write_lem handle disk letters 20 (omega arith) (omega arith) (omega arith) (omega arith)
      (handle-IsOnDisk 20 (omega arith))
