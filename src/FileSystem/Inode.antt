-- ===== src/FileSystem/Inode.antt =====
-- filesys/inode.c: the transfers between an inode's sectors and a buffer. Offsets and sizes are not
-- negative. The one call of `malloc`, for the bounce buffer, succeeds as `malloc_ok` tells.
use project_os.Base.{
  ℕ, zero, suc, ◌+◌, ◌-◌, ◌/◌, ◌%◌, ◌^◌, Bool, Option, none, some, ltb, leb, ◌==◌, ◌&&◌, ◌||◌,
  if◌then◌else◌, ◌>>=◌, not,
}
use project_os.FileSystem.Device.{Block, block_read, block_write, block_sector_size}

-- `struct inode_disk`, less its padding
pub record InodeDisk : Type 0 where
  pub start : ℕ
  pub length : ℕ
  pub magic : ℕ

-- `struct inode`
pub record Inode : Type 0 where
  pub sector : ℕ
  pub open_cnt : ℕ
  pub removed : Bool
  pub deny_write_cnt : ℕ
  pub contents : InodeDisk

-- `DIV_ROUND_UP (size, BLOCK_SECTOR_SIZE)`; the sum does not overflow for sizes up to 2 ^ 31 - 512.
abbrev pub bytes_to_sectors : ℕ → ℕ
bytes_to_sectors size = (size + block_sector_size - 1) / block_sector_size

abbrev pub inode_length : Inode → ℕ
inode_length inode = inode.contents.length

-- -1 is the last number of 32 bits.
abbrev pub byte_to_sector : Inode → (pos : ℕ) → ℕ
byte_to_sector inode pos =
    if ltb pos inode.contents.length
    then (inode.contents.start + pos / block_sector_size) % 2 ^ 32
    else 2 ^ 32 - 1

-- The variables of the loops: `count` is `bytes_read` or `bytes_written`.
pub record Transfer : Type 0 where
  pub device : Block
  pub buffer : ℕ → ℕ
  pub size : ℕ
  pub offset : ℕ
  pub count : ℕ

-- A round ends the loop or goes on.
pub data Round : Type 0 where
  finished again : Transfer → Round

abbrev pub sector_left : (offset : ℕ) → ℕ
sector_left offset = block_sector_size - offset % block_sector_size

abbrev pub lesser : ℕ → ℕ → ℕ
lesser a b = if ltb a b then a else b

-- The bytes left in the inode are 0 or fewer from its end on, where the code stops.
abbrev pub chunk_size : Inode → Transfer → ℕ
chunk_size inode t = lesser t.size (lesser (inode_length inode - t.offset) (sector_left t.offset))

-- `sector_ofs == 0 && chunk_size == BLOCK_SECTOR_SIZE`
abbrev pub is_full : (offset chunk : ℕ) → Bool
is_full offset chunk = offset % block_sector_size == 0 && chunk == block_sector_size

-- `memcpy (to + to_ofs, from + from_ofs, size)`
abbrev pub copied : (to : ℕ → ℕ) → (to_ofs : ℕ) → (source : ℕ → ℕ) → (from_ofs size : ℕ) → ℕ → ℕ
copied to to_ofs source from_ofs size j =
    if leb to_ofs j && ltb j (to_ofs + size) then source (from_ofs + (j - to_ofs)) else to j

-- `size -= chunk_size; offset += chunk_size; count += chunk_size;`
abbrev pub advance : Transfer → Block → (ℕ → ℕ) → (chunk : ℕ) → Transfer
advance t device buffer chunk = record {
  device = device;
  buffer = buffer;
  size = t.size - chunk;
  offset = t.offset + chunk;
  count = t.count + chunk;
}

unfoldable pub read_chunk : Inode → Transfer → (chunk : ℕ) → Option Round
read_chunk inode t chunk = do
  (device, bytes) ← block_read t.device (byte_to_sector inode t.offset)
  some (
      again (
        advance t device (copied t.buffer t.count bytes (t.offset % block_sector_size) chunk)
          chunk))

unfoldable pub read_round : Inode → (malloc_ok : Bool) → Transfer → Option Round
unfolding read_chunk
read_round inode malloc_ok t =
    if t.size == 0
    then some (finished t)
    else if chunk_size inode t == 0
    then some (finished t)
    else if is_full t.offset (chunk_size inode t) || malloc_ok
    then read_chunk inode t (chunk_size inode t)
    else some (finished t)

-- The sector's bytes before the copy: read where some of them stay.
unfoldable pub bounce_bytes : Inode → Transfer → (chunk : ℕ) → Option (Block × (ℕ → ℕ))
bounce_bytes inode t chunk =
    if not (t.offset % block_sector_size == 0) || ltb chunk (sector_left t.offset)
    then block_read t.device (byte_to_sector inode t.offset)
    else some (t.device, λ _. 0)

unfoldable pub write_bounced : Inode → Transfer → (chunk : ℕ) → Option Round
unfolding bounce_bytes
write_bounced inode t chunk = do
  (device, bounce) ← bounce_bytes inode t chunk
  device' ←
      block_write device (byte_to_sector inode t.offset)
        (copied bounce (t.offset % block_sector_size) t.buffer t.count chunk)
  some (again (advance t device' t.buffer chunk))

unfoldable pub write_full : Inode → Transfer → (chunk : ℕ) → Option Round
write_full inode t chunk = do
  device ← block_write t.device (byte_to_sector inode t.offset) (λ o. t.buffer (t.count + o))
  some (again (advance t device t.buffer chunk))

unfoldable pub write_round : Inode → (malloc_ok : Bool) → Transfer → Option Round
unfolding write_full write_bounced
write_round inode malloc_ok t =
    if t.size == 0
    then some (finished t)
    else if chunk_size inode t == 0
    then some (finished t)
    else if is_full t.offset (chunk_size inode t)
    then write_full inode t (chunk_size inode t)
    else if malloc_ok
    then write_bounced inode t (chunk_size inode t)
    else some (finished t)

-- What is left to do after a round, `rest` being the rounds that follow.
abbrev pub follow : (rest : Transfer → Option Transfer) → Round → Option Transfer
follow rest (finished t) = some t
follow rest (again t) = rest t

-- The loop on fuel.
unfoldable pub rounds : (Transfer → Option Round) → (fuel : ℕ) → Transfer → Option Transfer
rounds round zero t = none
rounds round (suc fuel) t = round t >>= follow (rounds round fuel)

abbrev pub transfer : Block → (ℕ → ℕ) → (size offset : ℕ) → Transfer
transfer device buffer size offset = record {
  device = device;
  buffer = buffer;
  size = size;
  offset = offset;
  count = 0;
}

unfoldable pub inode_read_at :
    Inode
    → (malloc_ok : Bool) → Block
    → (buffer : ℕ → ℕ) → (size offset : ℕ) → Option (ℕ × (ℕ → ℕ) × Block)
unfolding rounds read_round
inode_read_at inode malloc_ok device buffer size offset = do
  t ← rounds (read_round inode malloc_ok) (suc size) (transfer device buffer size offset)
  some (t.count, t.buffer, t.device)

unfoldable pub inode_write_at :
    Inode → (malloc_ok : Bool) → Block → (buffer : ℕ → ℕ) → (size offset : ℕ) → Option (ℕ × Block)
unfolding rounds write_round
inode_write_at inode malloc_ok device buffer size offset =
    let written = (do
      t ← rounds (write_round inode malloc_ok) (suc size) (transfer device buffer size offset)
      some (t.count, t.device)) in
    if inode.deny_write_cnt == 0 then written else some (0, device)
