-- ===== src/FileSystem/Create.antt =====
-- `inode_create`, and the file that an `inode_open` then finds.
use project_os.Base.{
  ℕ, zero, suc, ◌+◌, ◌/◌, ◌%◌, ◌^◌, ◌≤◌, ◌<◌, ◌≡◌, refl, ◌∙◌, ap, inl, inr, Bool, true, false, ◌&&◌,
  some, arith, ltb, leb, if◌then◌else◌, Option-cases, some->>=,
}
use mathlib.Core.Path.{subst}
use project_os.Bitmap.{Bitmap}
use project_os.Bitmap.View.{IsValid, holds}
use project_os.Bitmap.Range.{AllAre, Filled}
use project_os.FileSystem.Device.{Block}
use project_os.FileSystem.Place.{Fits}
use project_os.FileSystem.Files.{File, FileSys}
use project_os.FileSystem.FreeMap.{Allocated, free_map_allocate-Allocated}
use project_os.Base.{update}
use project_os.FileSystem.Device.{is_foreign, block_sector_size}
use project_os.FileSystem.Place.{block_write-inside}
use project_os.FileSystem.Inode.{InodeDisk, bytes_to_sectors}
use project_os.FileSystem.Files.{disk_bytes, disk_of, word_at, byte}
use project_os.FileSystem.Open.{zero_sectors, new_disk, create_at, inode_create}

-- A number of 32 bits is read back from its bytes.
word_at-bytes :
    (f : ℕ → ℕ) (ofs n : ℕ)
    → n < 2 ^ 32
    → f ofs ≡ byte n 0
    → f (ofs + 1) ≡ byte n 1
    → f (ofs + 2) ≡ byte n 2
    → f (ofs + 3) ≡ byte n 3
    → word_at f ofs ≡ n
word_at-bytes f ofs n h a b c d = omega arith

-- What is written to the inode's sector is read back.
disk_of-disk_bytes :
    (d : InodeDisk)
    → d.start < 2 ^ 32
    → d.length < 2 ^ 32
    → d.magic < 2 ^ 32
    → disk_of (disk_bytes d) ≡ d
unfolding disk_bytes
disk_of-disk_bytes d a b c = λ i. record {
  start = word_at-bytes (disk_bytes d) 0 d.start a refl refl refl refl i;
  length = word_at-bytes (disk_bytes d) 4 d.length b refl refl refl refl i;
  magic = word_at-bytes (disk_bytes d) 8 d.magic c refl refl refl refl i;
}

-- The sectors of a new file have been filled with zeros.
record Zeroed (d d' : Block) (start n : ℕ) : Type 0 where
  size : d'.size ≡ d.size
  type : d'.type ≡ d.type
  bytes :
      (s o : ℕ) → d'.sectors s o ≡ (if leb start s && ltb s (start + n) then 0 else d.sectors s o)

zero_sectors-Zeroed :
    (n : ℕ) (d : Block) (start i : ℕ)
    → start + i + n ≤ d.size
    → d.size < 2 ^ 32
    → is_foreign d.type ≡ false
    → (d' : Block) × (zero_sectors n d start i ≡ some d') × Zeroed d d' (start + i) n
unfolding zero_sectors
zero_sectors-Zeroed zero d start i h small ours =
    (d, refl, record { size = refl; type = refl; bytes = λ s o. ground arith })
zero_sectors-Zeroed (suc n) d start i h small ours =
    let at : (start + i) % 2 ^ 32 ≡ start + i = omega arith in
    let d1 : Block = record d {
      sectors = update d.sectors (start + i) (λ _. 0);
      write_cnt = (d.write_cnt + 1) % 2 ^ 64;
    } in
    let (d', e, z) = zero_sectors-Zeroed n d1 start (i + 1) (omega arith) small ours in
    (
      d',
      rw at (some->>= _ _ _ (block_write-inside d (start + i) (λ _. 0) (ground arith) ours)) ∙ e,
      record { size = z.size; type = z.type; bytes = λ s o. ground (arith, z.bytes s o) },
    )

-- A new file: its sector holds an inode with the start, the length and the magic number of the file,
-- its bytes are all 0, and its sectors were free.
pub record NewFile (fs : FileSys) (sector length start : ℕ) (fs' : FileSys) : Type 0 where
  pub start_there : (disk_of (fs'.fs_device.sectors sector)).start ≡ start
  pub length_there : (disk_of (fs'.fs_device.sectors sector)).length ≡ length
  pub magic_there : (disk_of (fs'.fs_device.sectors sector)).magic ≡ 1229868868
  pub inside : start + bytes_to_sectors length ≤ fs'.fs_device.size
  pub zeros :
      (p : ℕ)
      → p < length
      → fs'.fs_device.sectors (start + p / block_sector_size) (p % block_sector_size) ≡ 0
  pub taken : Filled fs.free_map fs'.free_map start (bytes_to_sectors length) true
  pub was_free : AllAre (holds fs.free_map) start (bytes_to_sectors length) false

-- With success there is a new file; without, no sector has been taken.
abbrev pub Created : FileSys → (sector length : ℕ) → Bool → FileSys → Type 0
Created fs sector length true fs' = (start : ℕ) × NewFile fs sector length start fs'
Created fs sector length false fs' = (j : ℕ) → holds fs'.free_map j ≡ holds fs.free_map j

module _ (fs : FileSys) (ok : Bool) (sector length : ℕ) (v : IsValid fs.free_map)
    (whole : fs.free_map.bit_cnt ≡ fs.fs_device.size) (ours : is_foreign fs.fs_device.type ≡ false)
    (used : holds fs.free_map sector ≡ true) (in_device : sector < fs.fs_device.size)
    (small : length + 512 ≤ 2 ^ 31) where
  create_at-NewFile :
      (map : Bitmap) (d : Block) (start : ℕ)
      → Allocated fs ok (bytes_to_sectors length) (some start) map d
      → (fs' : FileSys) × (create_at sector length
            (some start, record fs { free_map = map; fs_device = d })
          ≡ some (true, fs'))
        × NewFile fs sector length start fs'
  unfolding create_at
  create_at-NewFile map d start a =
      let (first, filled) = a.taken start refl in
      let (size_d, type_d) = a.device in
      let fits : start + bytes_to_sectors length ≤ d.size =
        omega (arith, first.fits, size_d, whole) in
      let small_d : d.size < 2 ^ 32 = omega (arith, v.small, whole, size_d) in
      let ours_d : is_foreign d.type ≡ false = rw type_d ours in
      let d1 : Block = record d {
        sectors = update d.sectors sector (disk_bytes (new_disk start length));
        write_cnt = (d.write_cnt + 1) % 2 ^ 64;
      } in
      let e1 =
        block_write-inside d sector (disk_bytes (new_disk start length)) (ground (arith, size_d))
          ours_d in
      let (d', e, z) =
        zero_sectors-Zeroed (bytes_to_sectors length) d1 start 0 (omega arith) small_d ours_d in
      let written : (o : ℕ) → d'.sectors sector o ≡ disk_bytes (new_disk start length) o =
        λ o. ground (arith, z.bytes sector o, first.group sector, used) in
      let inode : disk_of (d'.sectors sector) ≡ new_disk start length =
        ap disk_of (λ i o. written o i)
        ∙ disk_of-disk_bytes (new_disk start length) (omega (arith, first.fits, v.small))
            (omega arith) (omega arith) in
      (
        record fs { free_map = map; fs_device = d' },
        some->>= _ _ _ e1 ∙ some->>= _ _ _ e,
        record {
          start_there = ap (λ n. n.start) inode;
          length_there = ap (λ n. n.length) inode;
          magic_there = ap (λ n. n.magic) inode;
          inside = omega (arith, z.size);
          zeros = λ p h.
              ground (arith, z.bytes (start + p / block_sector_size) (p % block_sector_size));
          taken = filled;
          was_free = first.group;
        },
      )

  -- `inode_create` of a file in a sector of the device always returns, with no panic. With success
  -- the sector holds an inode with the length, the magic number and the first sector of the file, whose
  -- sectors were free and are in use, and every byte of the file is 0; else no sector has been taken. The map is valid and has a bit for each sector, `sector` is
  -- in use, `length` is at most 2 ^ 31 - 512, and the map's file, once it is open, lies on the device.
  pub inode_create-Created :
      (calloc_ok : Bool)
      → ((file : File) → fs.free_map_file ≡ some file → Fits (fs.inodes file.inode) fs.fs_device)
      → (b : Bool) × (fs' : FileSys) × (inode_create fs calloc_ok ok sector length ≡ some (b, fs'))
        × Created fs sector length b fs'
  unfolding inode_create create_at
  inode_create-Created false f = (false, fs, refl, λ j. refl)
  inode_create-Created true f =
      let (r, map, d, e, a) = free_map_allocate-Allocated fs ok (bytes_to_sectors length) v f in
      elim (Option-cases r) [
        | inl n ↦ (
          false,
          record fs { free_map = map; fs_device = d },
          some->>= _ _ _ e ∙ rw n refl,
          a.undone n,
        )
        | inr (start, m) ↦
            let (fs', e', new) =
              create_at-NewFile map d start
                (subst (λ x. Allocated fs ok (bytes_to_sectors length) x map d) m a) in
            (true, fs', some->>= _ _ _ e ∙ rw m e', (start, new))
      ]
