-- ===== src/FileSystem/Open.antt =====
-- filesys/inode.c and filesys/file.c: creating, opening, sharing and closing inodes and files. To
-- use an inode that nobody has open is to use freed memory, and has no result here.
use project_os.Base.{
  ℕ, zero, suc, ◌+◌, ◌-◌, ◌%◌, ◌^◌, Bool, true, false, Option, none, some, List, [], ◌∷◌, ltb, leb,
  ◌==◌, if◌then◌else◌, update, remove_elem, assert, ◌>>=◌, ◌>>◌,
}
use project_os.FileSystem.Device.{Block, block_read, block_write}
use project_os.FileSystem.Inode.{Inode, InodeDisk, bytes_to_sectors, inode_length}
use project_os.FileSystem.Files.{
  File, FileSys, inode_magic, disk_bytes, disk_of, free_map_allocate, free_map_release,
}

-- `for (i = 0; i < sectors; i++) block_write (fs_device, disk_inode->start + i, zeros);` with `n`
-- rounds left
unfoldable pub zero_sectors : (n : ℕ) → Block → (start i : ℕ) → Option Block
zero_sectors zero d start i = some d
zero_sectors (suc n) d start i = do
  d' ← block_write d ((start + i) % 2 ^ 32) (λ _. 0)
  zero_sectors n d' start (i + 1)

abbrev pub new_disk : (start length : ℕ) → InodeDisk
new_disk start length = record { start = start; length = length; magic = inode_magic }

-- After the free map has given the sectors.
unfoldable pub create_at : (sector length : ℕ) → Option ℕ × FileSys → Option (Bool × FileSys)
unfolding zero_sectors disk_bytes
create_at sector length (none, fs) = some (false, fs)
create_at sector length (some start, fs) = do
  d ← block_write fs.fs_device sector (disk_bytes (new_disk start length))
  d' ← zero_sectors (bytes_to_sectors length) d start 0
  some (true, record fs { fs_device = d' })

unfoldable pub inode_create :
    FileSys → (calloc_ok malloc_ok : Bool) → (sector length : ℕ) → Option (Bool × FileSys)
unfolding create_at free_map_allocate
inode_create fs calloc_ok malloc_ok sector length =
    if calloc_ok
    then (free_map_allocate fs malloc_ok (bytes_to_sectors length) >>= create_at sector length)
    else some (false, fs)

-- The search of `open_inodes`.
unfoldable pub find_open : (ℕ → Inode) → (sector : ℕ) → List ℕ → Option ℕ
find_open inodes sector [] = none
find_open inodes sector (p ∷ ps) =
    if (inodes p).sector == sector then some p else find_open inodes sector ps

abbrev pub set_inode : FileSys → ℕ → Inode → FileSys
set_inode fs p i = record fs { inodes = update fs.inodes p i }

unfoldable pub inode_reopen : FileSys → ℕ → FileSys
inode_reopen fs p = set_inode fs p (record (fs.inodes p) { open_cnt = (fs.inodes p).open_cnt + 1 })

unfoldable pub open_new : FileSys → (sector : ℕ) → (malloc : Option ℕ) → Option (Option ℕ × FileSys)
open_new fs sector none = some (none, fs)
open_new fs sector (some p) = do
  (device, bytes) ← block_read fs.fs_device sector
  some (
    some p,
    record fs {
      fs_device = device;
      open_inodes = p ∷ fs.open_inodes;
      inodes = update fs.inodes p (record {
        sector = sector;
        open_cnt = 1;
        removed = false;
        deny_write_cnt = 0;
        contents = disk_of bytes;
      });
    },
  )

-- `found` is the inode that the search has come upon.
unfoldable pub open_found :
    FileSys → (sector : ℕ) → (malloc found : Option ℕ) → Option (Option ℕ × FileSys)
unfolding open_new inode_reopen
open_found fs sector malloc none = open_new fs sector malloc
open_found fs sector malloc (some p) = some (some p, inode_reopen fs p)

unfoldable pub inode_open :
    FileSys → (malloc : Option ℕ) → (sector : ℕ) → Option (Option ℕ × FileSys)
unfolding open_found find_open
inode_open fs malloc sector =
    open_found fs sector malloc (find_open fs.inodes sector fs.open_inodes)

unfoldable pub inode_remove : FileSys → ℕ → FileSys
inode_remove fs p = set_inode fs p (record (fs.inodes p) { removed = true })

-- The last opener has gone: the two calls of `free_map_release` for a removed inode.
unfoldable pub close_last : FileSys → (ok_inode ok_data : Bool) → Inode → Option FileSys
unfolding free_map_release
close_last fs ok_inode ok_data i =
    if i.removed
    then (free_map_release fs ok_inode i.sector 1 >>= λ fs'.
        free_map_release fs' ok_data i.contents.start (bytes_to_sectors (inode_length i)))
    else some fs

-- `--inode->open_cnt`
abbrev pub one_less : FileSys → ℕ → FileSys
one_less fs p = set_inode fs p (record (fs.inodes p) { open_cnt = (fs.inodes p).open_cnt - 1 })

unfoldable pub inode_close : FileSys → (ok_inode ok_data : Bool) → ℕ → Option FileSys
unfolding close_last remove_elem
inode_close fs ok_inode ok_data p = do
  assert (ltb 0 (fs.inodes p).open_cnt)
  if (fs.inodes p).open_cnt == 1
      then close_last (record (one_less fs p) { open_inodes = remove_elem p fs.open_inodes })
          ok_inode ok_data (fs.inodes p)
      else some (one_less fs p)

unfoldable pub inode_deny_write : FileSys → ℕ → Option FileSys
inode_deny_write fs p = do
  assert (leb ((fs.inodes p).deny_write_cnt + 1) (fs.inodes p).open_cnt)
  some (set_inode fs p (record (fs.inodes p) { deny_write_cnt = (fs.inodes p).deny_write_cnt + 1 }))

unfoldable pub inode_allow_write : FileSys → ℕ → Option FileSys
inode_allow_write fs p = do
  assert (ltb 0 (fs.inodes p).deny_write_cnt)
  assert (leb (fs.inodes p).deny_write_cnt (fs.inodes p).open_cnt)
  some (set_inode fs p (record (fs.inodes p) { deny_write_cnt = (fs.inodes p).deny_write_cnt - 1 }))

unfoldable pub file_open :
    FileSys → (calloc_ok ok_inode ok_data : Bool) → Option ℕ → Option (Option File × FileSys)
unfolding inode_close
file_open fs calloc_ok ok_inode ok_data none = some (none, fs)
file_open fs calloc_ok ok_inode ok_data (some p) =
    if calloc_ok
    then some (some (record { inode = p; pos = 0; deny_write = false }), fs)
    else (inode_close fs ok_inode ok_data p >>= λ fs'. some (none, fs'))

unfoldable pub file_reopen :
    FileSys → (calloc_ok ok_inode ok_data : Bool) → File → Option (Option File × FileSys)
unfolding file_open inode_reopen
file_reopen fs calloc_ok ok_inode ok_data file =
    file_open (inode_reopen fs file.inode) calloc_ok ok_inode ok_data (some file.inode)

unfoldable pub file_deny_write : FileSys → File → Option (File × FileSys)
unfolding inode_deny_write
file_deny_write fs file =
    if file.deny_write
    then some (file, fs)
    else (inode_deny_write fs file.inode >>= λ fs'. some (record file { deny_write = true }, fs'))

unfoldable pub file_allow_write : FileSys → File → Option (File × FileSys)
unfolding inode_allow_write
file_allow_write fs file =
    if file.deny_write
    then (inode_allow_write fs file.inode >>= λ fs'. some (record file { deny_write = false }, fs'))
    else some (file, fs)

unfoldable pub file_close : FileSys → (ok_inode ok_data : Bool) → File → Option FileSys
unfolding file_allow_write inode_close
file_close fs ok_inode ok_data file = do
  (file', fs') ← file_allow_write fs file
  inode_close fs' ok_inode ok_data file'.inode
