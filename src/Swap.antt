-- ===== src/Swap.antt =====
-- vm/swap.c: pages on the swap device. Its locks guard single accesses; the functions are steps of
-- one thread here.
pub mod Sectors
pub mod Slots
mod Tests
use project_os.Base.{
  ℕ, zero, suc, ◌+◌, ◌-◌, ◌*◌, ◌/◌, ◌%◌, ◌^◌, Bool, true, false, ◌&&◌, Option, none, some, List, [],
  ◌∷◌, ◌++◌, ltb, leb, ◌==◌, if◌then◌else◌, ◌>>=◌,
}
use project_os.Bitmap.{Bitmap, bitmap_scan, bitmap_set_multiple, bitmap_set_all}
use project_os.FileSystem.Device.{Block, block_read, block_write, block_sector_size}
use project_os.FileSystem.Inode.{copied}

-- `PGSIZE / BLOCK_SECTOR_SIZE`
abbrev pub sector_count : ℕ
sector_count = 8

-- `struct swap_entry`
pub record SwapEntry : Type 0 where
  pub uspage : ℕ
  pub t_blongs_to : ℕ
  pub block_sector : ℕ

-- `memory` is the memory by address.
pub record Swap : Type 0 where
  pub device : Block
  pub bmap : Bitmap
  pub swap_table : List SwapEntry
  pub memory : ℕ → ℕ

-- The map of four times as many bits as the device has sectors, on the words that `bitmap_create`
-- gets.
unfoldable pub init_swap_block : Block → (words : List ℕ) → Option Bitmap
init_swap_block b words =
    bitmap_set_all (record { bit_cnt = b.size * 4 % 2 ^ 32; bits = words }) false

-- BITMAP_ERROR as a number of 32 bits
abbrev pub start_of : Option ℕ → ℕ
start_of none = 2 ^ 32 - 1
start_of (some start) = start

-- The loop of `block_write` with `n` rounds left
unfoldable pub write_sectors :
    (n : ℕ) → Block → (memory : ℕ → ℕ) → (page start i : ℕ) → Option Block
write_sectors zero d memory page start i = some d
write_sectors (suc n) d memory page start i = do
  d' ← block_write d ((start + i) % 2 ^ 32) (λ o. memory (page + i * block_sector_size + o))
  write_sectors n d' memory page start (i + 1)

unfoldable pub write_to_swap : Swap → (page : ℕ) → Option (ℕ × Swap)
unfolding write_sectors
write_to_swap sw page = do
  found ← bitmap_scan sw.bmap 0 sector_count false
  bmap ← bitmap_set_multiple sw.bmap (start_of found) sector_count true
  d ← write_sectors sector_count sw.device sw.memory page (start_of found) 0
  some (start_of found, record sw { bmap = bmap; device = d })

-- `current` is the running thread.
unfoldable pub lookup_swap : List SwapEntry → (upage current : ℕ) → Option SwapEntry
lookup_swap [] upage current = none
lookup_swap (e ∷ es) upage current =
    if e.uspage == upage && e.t_blongs_to == current then some e else lookup_swap es upage current

-- `list_remove` of the entry that `lookup_swap` has found
unfoldable pub remove_found : List SwapEntry → (upage current : ℕ) → List SwapEntry
remove_found [] upage current = []
remove_found (e ∷ es) upage current =
    if e.uspage == upage && e.t_blongs_to == current then es else e ∷ remove_found es upage current

-- The loop of `block_read` with `n` rounds left
unfoldable pub read_sectors :
    (n : ℕ) → Block → (memory : ℕ → ℕ) → (page start i : ℕ) → Option (Block × (ℕ → ℕ))
read_sectors zero d memory page start i = some (d, memory)
read_sectors (suc n) d memory page start i = do
  (d', bytes) ← block_read d ((start + i) % 2 ^ 32)
  read_sectors n d' (copied memory (page + i * block_sector_size) bytes 0 block_sector_size) page
      start (i + 1)

-- Without an entry a null pointer is read.
unfoldable pub read_from_swap : Swap → (current uspage kepage : ℕ) → Option Swap
unfolding read_sectors lookup_swap remove_found
read_from_swap sw current uspage kepage = do
  entry ← lookup_swap sw.swap_table uspage current
  bmap ← bitmap_set_multiple sw.bmap entry.block_sector sector_count false
  (d, memory) ← read_sectors sector_count sw.device sw.memory kepage entry.block_sector 0
  some (record sw {
    bmap = bmap;
    swap_table = remove_found sw.swap_table uspage current;
    device = d;
    memory = memory;
  })

-- Of `frame_evict`: the page of a frame goes to the swap device, and an entry is added.
unfoldable pub swap_out : Swap → (owner upage kpage : ℕ) → Option Swap
unfolding write_to_swap
swap_out sw owner upage kpage = do
  (start, sw') ← write_to_swap sw kpage
  some (record sw' {
    swap_table =
        sw'.swap_table
        ++ (record { uspage = upage; t_blongs_to = owner; block_sector = start } ∷ []);
  })
