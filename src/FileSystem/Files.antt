-- ===== src/FileSystem/Files.antt =====
-- filesys/inode.c, filesys/free-map.c and filesys/file.c: the inodes in memory, the free map and
-- open files. Memory that is asked for comes as an argument: an address or success.
use project_os.Base.{
  ℕ, ◌+◌, ◌-◌, ◌*◌, ◌/◌, ◌%◌, ◌^◌, Bool, true, false, Option, none, some, List, ltb, ◌==◌,
  if◌then◌else◌, get_or, assert, ◌>>=◌, ◌>>◌,
}
use project_os.Bitmap.{Bitmap, byte_cnt, bitmap_all, bitmap_set_multiple, bitmap_scan_and_flip}
use project_os.FileSystem.Device.{Block}
use project_os.FileSystem.Inode.{Inode, InodeDisk, inode_read_at, inode_write_at}

-- `struct file`
pub record File : Type 0 where
  pub inode : ℕ
  pub pos : ℕ
  pub deny_write : Bool

-- `fs_device`, `free_map`, `free_map_file` and `open_inodes`; `inodes` is the memory that holds
-- inodes, by address.
pub record FileSys : Type 0 where
  pub fs_device : Block
  pub free_map : Bitmap
  pub free_map_file : Option File
  pub inodes : ℕ → Inode
  pub open_inodes : List ℕ

abbrev pub inode_magic : ℕ
inode_magic = 1229868868

-- Byte `k` of a number in memory
abbrev pub byte : (n k : ℕ) → ℕ
byte n k = n / 256 ^ k % 256

abbrev pub word_at : (ℕ → ℕ) → (ofs : ℕ) → ℕ
word_at bytes ofs =
    bytes ofs + 256 * bytes (ofs + 1) + 65536 * bytes (ofs + 2) + 16777216 * bytes (ofs + 3)

-- The sector that holds a `struct inode_disk`, and back
unfoldable pub disk_bytes : InodeDisk → ℕ → ℕ
disk_bytes d o =
    if ltb o 4
    then byte d.start o
    else if ltb o 8
    then byte d.length (o - 4)
    else if ltb o 12
    then byte d.magic (o - 8)
    else 0

abbrev pub disk_of : (ℕ → ℕ) → InodeDisk
disk_of bytes = record {
  start = word_at bytes 0;
  length = word_at bytes 4;
  magic = word_at bytes 8;
}

unfoldable pub file_read_at :
    FileSys
    → (malloc_ok : Bool) → File
    → (buffer : ℕ → ℕ) → (size file_ofs : ℕ) → Option (ℕ × (ℕ → ℕ) × FileSys)
file_read_at fs malloc_ok file buffer size file_ofs = do
  (n, bytes, device) ←
      inode_read_at (fs.inodes file.inode) malloc_ok fs.fs_device buffer size file_ofs
  some (n, bytes, record fs { fs_device = device })

unfoldable pub file_write_at :
    FileSys
    → (malloc_ok : Bool) → File
    → (buffer : ℕ → ℕ) → (size file_ofs : ℕ) → Option (ℕ × FileSys)
file_write_at fs malloc_ok file buffer size file_ofs = do
  (n, device) ← inode_write_at (fs.inodes file.inode) malloc_ok fs.fs_device buffer size file_ofs
  some (n, record fs { fs_device = device })

unfoldable pub file_read :
    FileSys
    → (malloc_ok : Bool) → File
    → (buffer : ℕ → ℕ) → (size : ℕ) → Option (ℕ × (ℕ → ℕ) × File × FileSys)
unfolding file_read_at
file_read fs malloc_ok file buffer size = do
  (n, bytes, fs') ← file_read_at fs malloc_ok file buffer size file.pos
  some (n, bytes, record file { pos = file.pos + n }, fs')

unfoldable pub file_write :
    FileSys
    → (malloc_ok : Bool) → File
    → (buffer : ℕ → ℕ) → (size : ℕ) → Option (ℕ × File × FileSys)
unfolding file_write_at
file_write fs malloc_ok file buffer size = do
  (n, fs') ← file_write_at fs malloc_ok file buffer size file.pos
  some (n, record file { pos = file.pos + n }, fs')

abbrev pub file_seek : File → (new_pos : ℕ) → File
file_seek file new_pos = record file { pos = new_pos }

-- The elements of a bitmap as bytes
abbrev pub bitmap_bytes : Bitmap → ℕ → ℕ
bitmap_bytes b k = byte (get_or b.bits (k / 4) 0) (k % 4)

unfoldable pub bitmap_write : FileSys → (malloc_ok : Bool) → Bitmap → File → Option (Bool × FileSys)
unfolding file_write_at
bitmap_write fs malloc_ok b file = do
  (n, fs') ← file_write_at fs malloc_ok file (bitmap_bytes b) (byte_cnt b.bit_cnt) 0
  some (n == byte_cnt b.bit_cnt, fs')

-- What follows the write of the map to its file.
unfoldable pub keep_or_undo : (sector cnt : ℕ) → Bool × FileSys → Option (Option ℕ × FileSys)
keep_or_undo sector cnt (true, fs) = some (some sector, fs)
keep_or_undo sector cnt (false, fs) = do
  map ← bitmap_set_multiple fs.free_map sector cnt false
  some (none, record fs { free_map = map })

unfoldable pub record_found :
    FileSys → (malloc_ok : Bool) → (cnt : ℕ) → Option ℕ → Option File → Option (Option ℕ × FileSys)
unfolding bitmap_write keep_or_undo
record_found fs malloc_ok cnt none file = some (none, fs)
record_found fs malloc_ok cnt (some sector) none = some (some sector, fs)
record_found fs malloc_ok cnt (some sector) (some file) =
    bitmap_write fs malloc_ok fs.free_map file >>= keep_or_undo sector cnt

unfoldable pub free_map_allocate :
    FileSys → (malloc_ok : Bool) → (cnt : ℕ) → Option (Option ℕ × FileSys)
unfolding record_found
free_map_allocate fs malloc_ok cnt = do
  (found, map) ← bitmap_scan_and_flip fs.free_map 0 cnt false
  record_found (record fs { free_map = map }) malloc_ok cnt found fs.free_map_file

-- The map cannot be written before its file is open.
unfoldable pub write_map : FileSys → (malloc_ok : Bool) → Option File → Option FileSys
unfolding bitmap_write
write_map fs malloc_ok none = none
write_map fs malloc_ok (some file) = do
  (_, fs') ← bitmap_write fs malloc_ok fs.free_map file
  some fs'

unfoldable pub free_map_release : FileSys → (malloc_ok : Bool) → (sector cnt : ℕ) → Option FileSys
unfolding write_map
free_map_release fs malloc_ok sector cnt = do
  all ← bitmap_all fs.free_map sector cnt
  assert all
  map ← bitmap_set_multiple fs.free_map sector cnt false
  write_map (record fs { free_map = map }) malloc_ok fs.free_map_file
