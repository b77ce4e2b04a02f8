-- ===== src/FileSystem/Device.antt =====
-- devices/block.h and devices/block.c: a block device and its sectors. The driver's `read` and
-- `write` move a sector of the contents that the device keeps.
use project_os.Base.{
  ℕ, ◌+◌, ◌%◌, ◌^◌, Bool, true, false, not, Option, some, ltb, assert, update, ◌>>◌,
}

abbrev pub block_sector_size : ℕ
block_sector_size = 512

-- `enum block_type`
pub data BlockType : Type 0 where
  kernel filesys scratch swap raw foreign : BlockType

-- `sectors s o` is the byte at offset `o` of sector `s`.
pub record Block : Type 0 where
  pub type : BlockType
  pub size : ℕ
  pub sectors : ℕ → ℕ → ℕ
  pub read_cnt : ℕ
  pub write_cnt : ℕ

abbrev pub is_foreign : BlockType → Bool
is_foreign foreign = true
is_foreign _ = false

-- `PANIC` past the end of the device
abbrev pub check_sector : Block → ℕ → Option (Unit {0})
check_sector block sector = assert (ltb sector block.size)

-- The device and the bytes that are put in the buffer.
abbrev pub block_read : Block → (sector : ℕ) → Option (Block × (ℕ → ℕ))
block_read block sector = do
  check_sector block sector
  some (record block { read_cnt = (block.read_cnt + 1) % 2 ^ 64 }, block.sectors sector)

abbrev pub block_write : Block → (sector : ℕ) → (ℕ → ℕ) → Option Block
block_write block sector buffer = do
  check_sector block sector
  assert (not (is_foreign block.type))
  some (record block {
    sectors = update block.sectors sector buffer;
    write_cnt = (block.write_cnt + 1) % 2 ^ 64;
  })
