-- ===== src/FileSystem/FreeMap.antt =====
-- The free map: taking sectors and giving them back, in memory and in the free map's file.
use project_os.Base.{
  ℕ, ◌+◌, ◌-◌, ◌≤◌, ◌<◌, ◌≡◌, refl, ◌∙◌, ap, inl, inr, Bool, true, false, Option, none, some, arith,
  ◌==◌, Bool-cases, some->>=,
}
use mathlib.Core.Path.{subst}
use project_os.Bitmap.{Bitmap, byte_cnt}
use project_os.Bitmap.View.{IsValid, holds}
use project_os.Bitmap.Range.{Filled, bitmap_set_multiple-Filled}
use project_os.Bitmap.Scan.{IsFirst, NoGroup, Flipped, bitmap_scan_and_flip-Flipped}
use project_os.FileSystem.Device.{Block}
use project_os.FileSystem.Inode.{Inode, Transfer, inode_length, transfer}
use project_os.FileSystem.Place.{Fits, byte_at}
use project_os.FileSystem.Write.{Writes, inode_write_at-Writes}
use project_os.FileSystem.RoundTrip.{byte_at-written}
use project_os.FileSystem.Files.{
  File, FileSys, file_write_at, bitmap_bytes, bitmap_write, keep_or_undo, record_found,
  free_map_allocate,
}

-- The file can take the whole map, and may be written.
pub record Room (fs : FileSys) (file : File) (map : Bitmap) : Type 0 where
  pub allowed : (fs.inodes file.inode).deny_write_cnt ≡ 0
  pub long : byte_cnt map.bit_cnt ≤ inode_length (fs.inodes file.inode)

-- The bytes of the file are those of the map.
abbrev pub Holds : FileSys → File → Block → Bitmap → Type 0
Holds fs file d map =
    (k : ℕ) → k < byte_cnt map.bit_cnt → byte_at (fs.inodes file.inode) d k ≡ bitmap_bytes map k

-- The map has been written to the file, with success or not.
pub record Saved (fs : FileSys) (ok : Bool) (map : Bitmap) (file : File) (b : Bool) (d : Block)
    : Type 0 where
  pub size : d.size ≡ fs.fs_device.size
  pub type : d.type ≡ fs.fs_device.type
  pub bytes : b ≡ true → Holds fs file d map
  pub done : ok ≡ true → Room fs file map → b ≡ true

-- A whole buffer has been written at the start of a file.
whole_written :
    (i : Inode) (ok : Bool) (d : Block) (g : ℕ → ℕ) (n k : ℕ) (t' : Transfer)
    → Writes i ok (transfer d g n 0) t'
    → (t'.count == n) ≡ true
    → k < n
    → byte_at i t'.device k ≡ g k
whole_written i ok d g n k t' w e h =
    let same : g (0 + (k - 0)) ≡ g k = ap g (omega arith) in
    byte_at-written i ok (transfer d g n 0) t' k w ∙ ground (arith, w.count, same)

pub bitmap_write-Saved :
    (fs : FileSys) (ok : Bool) (map : Bitmap) (file : File)
    → Fits (fs.inodes file.inode) fs.fs_device
    → (b : Bool) × (d : Block) × (bitmap_write fs ok map file
        ≡ some (b, record fs { fs_device = d }))
      × Saved fs ok map file b d
unfolding bitmap_write file_write_at
bitmap_write-Saved fs ok map file f =
    let i = fs.inodes file.inode in
    let (writes, denied) =
      inode_write_at-Writes i ok fs.fs_device (bitmap_bytes map) (byte_cnt map.bit_cnt) 0 f in
    elim (Bool-cases (i.deny_write_cnt == 0)) [
      | inl z ↦
          let (t', e, w) = writes (ground arith) in
          (
            t'.count == byte_cnt map.bit_cnt,
            t'.device,
            some->>= _ _ _ (some->>= _ _ _ e),
            record {
              size = w.size;
              type = w.type;
              bytes = λ b k h. whole_written i ok fs.fs_device (bitmap_bytes map) _ k t' w b h;
              done = λ o r. ground (arith, w.count, w.all o, r.long);
            },
          )
      | inr z ↦ (
        0 == byte_cnt map.bit_cnt,
        fs.fs_device,
        some->>= _ _ _ (some->>= _ _ _ (denied (ground arith))),
        record {
          size = refl;
          type = refl;
          bytes = λ b k h. ground arith;
          done = λ o r. ground (arith, r.allowed);
        },
      )
    ]

module _ (fs : FileSys) (ok : Bool) (cnt : ℕ) where
  -- After sectors have been asked for.
  pub record Allocated (r : Option ℕ) (map : Bitmap) (d : Block) : Type 0 where
    pub valid : IsValid map
    pub size : map.bit_cnt ≡ fs.free_map.bit_cnt
    pub device : (d.size ≡ fs.fs_device.size) × (d.type ≡ fs.fs_device.type)
    pub taken :
        (s : ℕ) → r ≡ some s → IsFirst fs.free_map 0 cnt false s × Filled fs.free_map map s cnt true
    pub undone : r ≡ none → (j : ℕ) → holds map j ≡ holds fs.free_map j
    pub full :
        r ≡ none
        → ok ≡ true
        → ((file : File) → fs.free_map_file ≡ some file → Room fs file fs.free_map)
        → NoGroup fs.free_map 0 cnt false
    pub saved :
        (s : ℕ) (file : File) → r ≡ some s → fs.free_map_file ≡ some file → Holds fs file d map

  -- The map with the sectors taken, and its file.
  recorded :
      (s : ℕ) (map : Bitmap) (file : File)
      → IsValid fs.free_map
      → IsFirst fs.free_map 0 cnt false s
      → Filled fs.free_map map s cnt true
      → fs.free_map_file ≡ some file
      → Fits (fs.inodes file.inode) fs.fs_device
      → (r : Option ℕ) × (map' : Bitmap) × (d : Block) × (record_found
            (record fs { free_map = map })
            ok
            cnt
            (some s)
            (some file)
          ≡ some (r, record fs { free_map = map'; fs_device = d }))
        × Allocated r map' d
  unfolding record_found keep_or_undo
  recorded s map file v first filled e f =
      let (b, d, w, saved) = bitmap_write-Saved (record fs { free_map = map }) ok map file f in
      elim (Bool-cases b) [
        | inl yes_ ↦ (
          some s,
          map,
          d,
          some->>= _ _ _ w ∙ rw yes_ refl,
          record {
            valid = filled.valid;
            size = filled.size;
            device = (saved.size, saved.type);
            taken = λ q eq.
                let same : s ≡ q = cc in
                subst (λ x. IsFirst fs.free_map 0 cnt false x × Filled fs.free_map map x cnt true)
                  same (first, filled);
            undone = λ n. cc;
            full = λ n. cc;
            saved = λ q g eq eg.
                let same : file ≡ g = cc in subst (λ x. Holds fs x d map) same (saved.bytes yes_);
          },
        )
        | inr no_ ↦
            let (map', e', undo) =
              bitmap_set_multiple-Filled map s cnt filled.valid (rw filled.size first.fits) false in
            (
              none,
              map',
              d,
              some->>= _ _ _ w ∙ rw no_ (some->>= _ _ _ e'),
              record {
                valid = undo.valid;
                size = undo.size ∙ filled.size;
                device = (saved.size, saved.type);
                taken = λ q n. cc;
                undone = λ _ j. ground (arith, undo.view j, filled.view j, first.group j);
                full = λ _ o room.
                    let can = room file e in
                    let written =
                      saved.done o
                        (record { allowed = can.allowed; long = rw filled.size can.long }) in
                    cc;
                saved = λ q g n. cc;
              },
            )
      ]

  after_scan :
      (found : Option ℕ) (map : Bitmap) (where_to : Option File)
      → IsValid fs.free_map
      → ((file : File) → fs.free_map_file ≡ some file → Fits (fs.inodes file.inode) fs.fs_device)
      → fs.free_map_file ≡ where_to
      → Flipped fs.free_map 0 cnt false found map
      → (r : Option ℕ) × (map' : Bitmap) × (d : Block) × (record_found
            (record fs { free_map = map })
            ok
            cnt
            found
            where_to
          ≡ some (r, record fs { free_map = map'; fs_device = d }))
        × Allocated r map' d
  unfolding record_found
  after_scan none map where_to v f e (full, same) = (
    none,
    map,
    fs.fs_device,
    refl,
    record {
      valid = rw same v;
      size = ap (λ (b : Bitmap). b.bit_cnt) same;
      device = (refl, refl);
      taken = λ q n. cc;
      undone = λ _ j. ap (λ b. holds b j) same;
      full = λ _ _ _. full;
      saved = λ q g n. cc;
    },
  )
  after_scan (some s) map none v f e (first, filled) = (
    some s,
    map,
    fs.fs_device,
    refl,
    record {
      valid = filled.valid;
      size = filled.size;
      device = (refl, refl);
      taken = λ q n.
          let same : s ≡ q = cc in
          subst (λ x. IsFirst fs.free_map 0 cnt false x × Filled fs.free_map map x cnt true) same
            (first, filled);
      undone = λ n. cc;
      full = λ n. cc;
      saved = λ q g n eg. cc;
    },
  )
  after_scan (some s) map (some file) v f e (first, filled) =
      recorded s map file v first filled e (f file e)

  -- `free_map_allocate` always returns, with no panic. It takes the first run of `cnt` free sectors,
  -- changes no other bit of the map, and leaves the new map in the free map's file; or it fails and
  -- takes nothing. With memory, and a file that can take the map, it fails only if there is no such
  -- run. The map is valid, and its file, once it is open, lies on the device.
  pub free_map_allocate-Allocated :
      IsValid fs.free_map
      → ((file : File) → fs.free_map_file ≡ some file → Fits (fs.inodes file.inode) fs.fs_device)
      → (r : Option ℕ) × (map : Bitmap) × (d : Block) × (free_map_allocate fs ok cnt
          ≡ some (r, record fs { free_map = map; fs_device = d }))
        × Allocated r map d
  unfolding free_map_allocate
  free_map_allocate-Allocated v f =
      let (r, map, e, flipped) =
        bitmap_scan_and_flip-Flipped fs.free_map 0 cnt false v (omega arith) in
      let (r', map', d, e', a) = after_scan r map fs.free_map_file v f refl flipped in
      (r', map', d, some->>= _ _ _ e ∙ e', a)
