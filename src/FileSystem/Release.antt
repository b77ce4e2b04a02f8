-- ===== src/FileSystem/Release.antt =====
-- Giving sectors back to the free map.
use project_os.Base.{
  ℕ, ◌+◌, ◌≤◌, ◌≡◌, ◌⊎◌, ◌∙◌, ap, inl, inr, Bool, true, false, Option, none, some, arith, some->>=,
}
use mathlib.Core.Path.{subst}
use project_os.Bitmap.{Bitmap, bitmap_all}
use project_os.Bitmap.View.{IsValid, holds}
use project_os.Bitmap.Range.{
  AllAre, Occurs, Filled, bitmap_set_multiple-Filled, bitmap_contains-Finds,
}
use project_os.FileSystem.Device.{Block}
use project_os.FileSystem.Place.{Fits}
use project_os.FileSystem.Files.{File, FileSys, free_map_allocate, write_map, free_map_release}
use project_os.FileSystem.FreeMap.{Room, Holds, bitmap_write-Saved, free_map_allocate-Allocated}

bitmap_all-Finds :
    (b : Bitmap) (start cnt : ℕ)
    → IsValid b
    → start + cnt ≤ b.bit_cnt
    → ((bitmap_all b start cnt ≡ some true) × AllAre (holds b) start cnt true)
      ⊎ ((bitmap_all b start cnt ≡ some false) × Occurs (holds b) start cnt false)
unfolding bitmap_all
bitmap_all-Finds b start cnt v h = elim (bitmap_contains-Finds b start cnt v h false) [
  | inl (e, found) ↦ inr (some->>= _ _ _ e, found)
  | inr (e, all) ↦ inl (some->>= _ _ _ e, all)
]

module _ (fs : FileSys) (ok : Bool) (sector cnt : ℕ) (file : File) where
  -- After sectors have been given back.
  pub record Released (map : Bitmap) (d : Block) : Type 0 where
    pub cleared : Filled fs.free_map map sector cnt false
    pub size : d.size ≡ fs.fs_device.size
    pub type : d.type ≡ fs.fs_device.type
    pub saved : ok ≡ true → Room fs file fs.free_map → Holds fs file d map

  -- `free_map_release` of sectors that are all in use clears their bits and no other, and leaves the
  -- new map in the free map's file if there is memory and the file can take it. If one of them is
  -- free already, the kernel panics. The map is valid and the sectors are within it, and its file is
  -- open and lies on the device.
  pub free_map_release-Released :
      IsValid fs.free_map
      → sector + cnt ≤ fs.free_map.bit_cnt
      → fs.free_map_file ≡ some file
      → Fits (fs.inodes file.inode) fs.fs_device
      → (AllAre (holds fs.free_map) sector cnt true
          → (map : Bitmap) × (d : Block) × (free_map_release fs ok sector cnt
              ≡ some (record fs { free_map = map; fs_device = d }))
            × Released map d)
        × (Occurs (holds fs.free_map) sector cnt false → free_map_release fs ok sector cnt ≡ none)
  unfolding free_map_release write_map
  free_map_release-Released v h open_ f = elim (bitmap_all-Finds fs.free_map sector cnt v h) [
    | inl (e, all) ↦
        let (map, e1, cleared) = bitmap_set_multiple-Filled fs.free_map sector cnt v h false in
        let (b, d, w, saved) = bitmap_write-Saved (record fs { free_map = map }) ok map file f in
        (
          λ _. (
            map,
            d,
            some->>= _ _ _ e
                ∙ some->>= _ _ _ e1
                ∙ ap (write_map (record fs { free_map = map }) ok) open_
                ∙ some->>= _ _ _ w,
            record {
              cleared = cleared;
              size = saved.size;
              type = saved.type;
              saved = λ o room. saved.bytes (
                  saved.done o
                    (record { allowed = room.allowed; long = rw cleared.size room.long }));
            },
          ),
          λ o. let (j, p, q, bad) = o in let good = all j p q in cc,
        )
    | inr (e, (j, p, q, bad)) ↦
        (λ all. let good = all j p q in let wrong : ⊥ = cc in absurd wrong, λ _. some->>= _ _ _ e)
  ]

-- What `free_map_allocate` takes, `free_map_release` gives back, with no panic, and every bit of the
-- map is as it was. The map is valid, and its file is open and lies on the device.
pub free_map_release-allocate :
    (fs : FileSys) (ok ok' : Bool) (cnt : ℕ) (file : File)
    → IsValid fs.free_map
    → fs.free_map_file ≡ some file
    → Fits (fs.inodes file.inode) fs.fs_device
    → (r : Option ℕ) × (fs1 : FileSys) × (free_map_allocate fs ok cnt ≡ some (r, fs1))
      × ((s : ℕ)
          → r ≡ some s
          → (fs2 : FileSys) × (free_map_release fs1 ok' s cnt ≡ some fs2)
            × ((j : ℕ) → holds fs2.free_map j ≡ holds fs.free_map j))
free_map_release-allocate fs ok ok' cnt file v open_ f =
    let fits : (g : File) → fs.free_map_file ≡ some g → Fits (fs.inodes g.inode) fs.fs_device =
      λ g e.
        let same : file ≡ g = cc in subst (λ x. Fits (fs.inodes x.inode) fs.fs_device) same f in
    let (r, map, d, e, a) = free_map_allocate-Allocated fs ok cnt v fits in
    (
      r,
      record fs { free_map = map; fs_device = d },
      e,
      λ s er.
          let (first, filled) = a.taken s er in
          let (works, panics) =
            free_map_release-Released (record fs { free_map = map; fs_device = d }) ok' s cnt file
              a.valid (rw a.size first.fits) open_
              (record {
                inside = rw (a.device.0) f.inside;
                small = rw (a.device.0) f.small;
                ours = rw (a.device.1) f.ours;
              }) in
          let (map', d', e', gone) = works (λ j p q. ground (arith, filled.view j)) in
          (_, e', λ j. ground (arith, gone.cleared.view j, filled.view j, first.group j)),
    )
