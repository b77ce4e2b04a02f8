-- ===== src/FileSystem/Tests.antt =====
-- A device of eight sectors: sectors 0 and 1 hold the inodes of the free map's file and of a file
-- of 300 bytes, sectors 2 and 3 their data.
use project_os.Base.{
  ℕ, ◌+◌, ◌-◌, ◌≡◌, ◌≢◌, ◌<◌, refl, ap, ◌∙◌, Bool, true, false, Option, some, [], ◌∷◌, arith, ◌==◌,
  if◌then◌else◌,
}
use mathlib.Core.Path.{subst}
use project_os.Bitmap.{Bitmap}
use project_os.Bitmap.View.{IsValid, holds}
use project_os.FileSystem.Device.{Block, BlockType}
use project_os.FileSystem.Inode.{
  Inode, Transfer, inode_length, lesser, transfer, inode_read_at, inode_write_at,
}
use project_os.FileSystem.Place.{Fits, byte_at}
use project_os.FileSystem.Read.{Reads, inode_read_at-Reads}
use project_os.FileSystem.Write.{Writes, inode_write_at-Writes}
use project_os.FileSystem.RoundTrip.{inode_read_at-write, inode_write_at-others}
use project_os.FileSystem.Files.{File, FileSys, free_map_allocate}
use project_os.FileSystem.Open.{inode_open}
use project_os.FileSystem.Openers.{Table}
use project_os.FileSystem.Opening.{Opened, inode_open-Opened}
use project_os.FileSystem.Deleting.{Deletable}
use project_os.FileSystem.FreeMap.{Allocated, free_map_allocate-Allocated}

abbrev pub device : Block
device = record {
  type = BlockType.filesys;
  size = 8;
  sectors = λ s o. s + o;
  read_cnt = 0;
  write_cnt = 0;
}

abbrev pub inode_at : (sector start length : ℕ) (removed : Bool) → Inode
inode_at sector start length removed = record {
  sector = sector;
  open_cnt = 1;
  removed = removed;
  deny_write_cnt = 0;
  contents = record { start = start; length = length; magic = 1229868868 };
}

abbrev pub map_inode : Inode
map_inode = inode_at 0 2 4 false

abbrev pub note : Inode
note = inode_at 1 3 300 false

abbrev pub map_file : File
map_file = record { inode = 100; pos = 0; deny_write = false }

abbrev pub note_file : File
note_file = record { inode = 101; pos = 10; deny_write = false }

-- The file of 300 bytes is removed or not.
abbrev pub sample : Bool → FileSys
sample removed = record {
  fs_device = device;
  free_map = record { bit_cnt = 8; bits = 15 ∷ [] };
  free_map_file = some map_file;
  inodes = λ p. if p == 100 then map_inode else inode_at 1 3 300 removed;
  open_inodes = 100 ∷ 101 ∷ [];
}

abbrev pub zeros : ℕ → ℕ
zeros _ = 0

pub note-Fits : Fits note device
note-Fits = record { inside = omega arith; small = omega arith; ours = refl }

pub map-Fits : Fits map_inode device
map-Fits = record { inside = omega arith; small = omega arith; ours = refl }

pub sample-IsValid : IsValid (sample false).free_map
sample-IsValid = record { small = omega arith; stored = omega arith; words = omega arith }

pub sample-Table : (removed : Bool) → Table (sample removed)
sample-Table removed = record {
  once = λ p. ground arith;
  apart = λ p q. ground arith;
  live = λ p. ground arith;
  denied = λ p. ground arith;
}

pub map_file-Fits :
    (file : File)
    → (sample false).free_map_file ≡ some file
    → Fits ((sample false).inodes file.inode) device
map_file-Fits file e =
    let same : map_file ≡ file = cc in
    subst (λ x. Fits ((sample false).inodes x.inode) device) same map-Fits

-- Bits 0 to 3 are set.
pub is_used :
    (holds (sample false).free_map 0 ≡ true)
    × (holds (sample false).free_map 1 ≡ true)
    × (holds (sample false).free_map 3 ≡ true)
    × (holds (sample false).free_map 4 ≡ false)
unfolding holds
is_used = (refl, refl, refl, refl)

pub sample-Deletable : Deletable (sample true) 101 map_file
sample-Deletable = record {
  valid = sample-IsValid;
  map_file = refl;
  other = omega arith;
  fits = map-Fits;
  on_map = omega arith;
  data_on_map = omega arith;
  used = is_used.1;
  data_used =
      λ j a b. let at : j ≡ 3 = omega arith in ap (holds (sample false).free_map) at ∙ is_used.2;
  apart = refl;
}

inode_read_at-Reads_example :
    (t' : Transfer) × (inode_read_at note true device zeros 400 10
      ≡ some (t'.count, t'.buffer, t'.device))
    × Reads note true (transfer device zeros 400 10) t'
inode_read_at-Reads_example = inode_read_at-Reads note true device zeros 400 10 note-Fits

inode_write_at-Writes_example :
    ((note.deny_write_cnt ≡ 0)
      → (t' : Transfer) × (inode_write_at note true device zeros 400 10
          ≡ some (t'.count, t'.device))
        × Writes note true (transfer device zeros 400 10) t')
    × ((note.deny_write_cnt ≢ 0) → inode_write_at note true device zeros 400 10 ≡ some (0, device))
inode_write_at-Writes_example = inode_write_at-Writes note true device zeros 400 10 note-Fits

inode_read_at-write_example :
    (n : ℕ) × (d1 d2 : Block) × (found : ℕ → ℕ) × (inode_write_at note true device zeros 400 10
      ≡ some (n, d1))
    × (inode_read_at note true d1 zeros 400 10 ≡ some (n, found, d2))
    × (n ≡ lesser 400 (inode_length note - 10))
    × ((k : ℕ) → k < n → found k ≡ zeros k)
inode_read_at-write_example = inode_read_at-write note device zeros zeros 400 10 note-Fits refl

inode_write_at-others_example :
    (n : ℕ) × (d' : Block) × (inode_write_at note true device zeros 400 10 ≡ some (n, d'))
    × ((p : ℕ) → p < inode_length map_inode → byte_at map_inode d' p ≡ byte_at map_inode device p)
inode_write_at-others_example =
    inode_write_at-others note map_inode true device zeros 400 10 note-Fits (λ p q a b. omega arith)

inode_open-Opened_example :
    (r : Option ℕ) × (fs' : FileSys) × (inode_open (sample false) (some 102) 5 ≡ some (r, fs'))
    × Opened (sample false) 5 (some 102) r fs'
inode_open-Opened_example =
    inode_open-Opened (sample false) (some 102) 5 (sample-Table false) (λ p e. ground arith)
      (omega arith)

free_map_allocate-Allocated_example :
    (r : Option ℕ) × (map : Bitmap) × (d : Block) × (free_map_allocate (sample false) true 2
      ≡ some (r, record (sample false) { free_map = map; fs_device = d }))
    × Allocated (sample false) true 2 r map d
free_map_allocate-Allocated_example =
    free_map_allocate-Allocated (sample false) true 2 sample-IsValid map_file-Fits
