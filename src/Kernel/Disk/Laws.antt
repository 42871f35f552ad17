-- ===== src/Kernel/Disk/Laws.antt =====
-- Blocks of the disk as they are read and written, for a disk of less than 4 GB.
use rv32umos.Base.{ℕ, ◌+◌, ◌-◌, ◌*◌, ◌^◌, ◌<◌, ◌≡◌, arith, leb, ltb, ◌&&◌, ◌==◌, if◌then◌else◌}
use rv32umos.Kernel.Disk.{Disk, Buffer, block_size, read_block, write_block}

-- Addresses of the disk fit in 32 bits.
abbrev pub IsSmall : Disk → Type 0
IsSmall d = d.total_blocks < 2 ^ 20

-- A buffer that holds one block.
abbrev pub IsBlock : Buffer → Type 0
IsBlock b = b.size ≡ block_size

abbrev pub block : Disk → ℕ → ℕ → ℕ
block d i j = d.contents (i * block_size + j)

pub read_block-in_range :
    (d : Disk) (i j : ℕ) (b : Buffer)
    → IsSmall d
    → IsBlock b
    → i < d.total_blocks
    → j < block_size
    → (read_block d i b).bytes j ≡ block d i j
unfolding read_block
read_block-in_range d i j b small size h hj = ground (arith, small)

pub read_block-size : (d : Disk) (i : ℕ) (b : Buffer) → (read_block d i b).size ≡ b.size
unfolding read_block
read_block-size d i b = ground arith

pub write_block-blocks :
    (d : Disk) (i : ℕ) (b : Buffer) → (write_block d i b).total_blocks ≡ d.total_blocks
unfolding write_block
write_block-blocks d i b = ground arith

pub write_block-block :
    (d : Disk) (i k j : ℕ) (b : Buffer)
    → IsSmall d
    → IsBlock b
    → i < d.total_blocks
    → j < block_size
    → block (write_block d i b) k j ≡ (if k == i then b.bytes j else block d k j)
unfolding write_block
write_block-block d i k j b small size h hj = ground (arith, small, size)

-- A written block, seen from a place on the disk.
pub write_block-contents :
    (d : Disk) (i : ℕ) (b : Buffer) (p : ℕ)
    → IsSmall d
    → IsBlock b
    → i < d.total_blocks
    → (write_block d i b).contents p ≡ (
        if leb (i * block_size) p && ltb p (i * block_size + block_size)
        then b.bytes (p - i * block_size)
        else d.contents p)
unfolding write_block
write_block-contents d i b p small size h = ground (arith, small, size)
