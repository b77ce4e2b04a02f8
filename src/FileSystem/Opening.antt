-- ===== src/FileSystem/Opening.antt =====
-- Opening an inode.
use project_os.Base.{
  ℕ, ◌+◌, ◌%◌, ◌^◌, ◌<◌, ◌≡◌, refl, ap, inl, inr, false, Option, none, some, ◌∷◌, arith, ◌==◌,
  if◌then◌else◌, Option-cases, update, count, some->>=, lt→ltb,
}
use project_os.FileSystem.Place.{block_read-inside}
use project_os.FileSystem.Inode.{Inode}
use project_os.FileSystem.Files.{FileSys, disk_of}
use project_os.FileSystem.Open.{find_open, inode_open, open_found, open_new, inode_reopen}
use project_os.FileSystem.Openers.{
  Table, openers, openers_of, find_open-Found, find_open-Missing, find_open-same,
}

-- What an inode keeps, however it is opened.
pub record Kept (i j : Inode) : Type 0 where
  pub sector : j.sector ≡ i.sector
  pub removed : j.removed ≡ i.removed
  pub denied : j.deny_write_cnt ≡ i.deny_write_cnt
  pub contents : j.contents ≡ i.contents

-- After an inode has been asked for: `r` is the result.
pub record Opened (fs : FileSys) (sector : ℕ) (malloc r : Option ℕ) (fs' : FileSys) : Type 0 where
  pub table : Table fs'
  pub openers_after :
      (s : ℕ)
      → openers fs' s ≡ openers fs s + (if s == sector then elim r [ none ↦ 0 | some p ↦ 1 ] else 0)
  pub fails : r ≡ none → (malloc ≡ none) × (openers fs sector ≡ 0) × (fs' ≡ fs)
  pub at : (p : ℕ) → r ≡ some p → (0 < count p fs'.open_inodes) × ((fs'.inodes p).sector ≡ sector)
  pub loaded :
      (p : ℕ)
      → r ≡ some p
      → openers fs sector ≡ 0
      → (fs'.inodes p).contents ≡ disk_of (fs.fs_device.sectors sector)
  pub others :
      (q : ℕ)
      → 0 < count q fs.open_inodes
      → (0 < count q fs'.open_inodes) × Kept (fs.inodes q) (fs'.inodes q)
  pub map : fs'.free_map ≡ fs.free_map
  pub bytes : fs'.fs_device.sectors ≡ fs.fs_device.sectors

-- An open inode gets one more opener.
reopen-Opened :
    (fs : FileSys) (sector p : ℕ) (malloc : Option ℕ)
    → Table fs
    → find_open fs.inodes sector fs.open_inodes ≡ some p
    → Opened fs sector malloc (some p) (inode_reopen fs p)
unfolding inode_reopen openers
reopen-Opened fs sector p malloc t e =
    let (listed, at) = find_open-Found fs.inodes sector p fs.open_inodes e in
    record {
      table = record {
        once = t.once;
        apart = λ a b ha hb. ground (arith, t.apart a b ha hb);
        live = λ a ha. ground (arith, t.live a ha);
        denied = λ a ha. ground (arith, t.denied a ha);
      };
      openers_after = λ s.
          let moved =
            find_open-same fs.inodes (inode_reopen fs p).inodes s fs.open_inodes
              (λ q h. ground arith) in
          elim (Option-cases (find_open fs.inodes s fs.open_inodes)) [
            | inl n ↦ rw (moved, n) (ground (arith, e, n))
            | inr (q, f) ↦
                let (there, here) = find_open-Found fs.inodes s q fs.open_inodes f in
                rw (moved, f) (ground (arith, at, here, e, f))
          ];
      fails = λ n. cc;
      at = λ q eq. ground (arith, listed, at);
      loaded = λ q eq z. ground (arith, t.live p listed, e);
      others = λ q h. (
        h,
        record {
          sector = ground arith;
          removed = ground arith;
          denied = ground arith;
          contents = ground arith;
        },
      );
      map = refl;
      bytes = refl;
    }

-- The inode that is read from its sector.
abbrev new_inode : FileSys → (sector : ℕ) → Inode
new_inode fs sector = record {
  sector = sector;
  open_cnt = 1;
  removed = false;
  deny_write_cnt = 0;
  contents = disk_of (fs.fs_device.sectors sector);
}

abbrev with_new : FileSys → (sector p : ℕ) → FileSys
with_new fs sector p = record fs {
  fs_device = record (fs.fs_device) { read_cnt = (fs.fs_device.read_cnt + 1) % 2 ^ 64 };
  open_inodes = p ∷ fs.open_inodes;
  inodes = update fs.inodes p (new_inode fs sector);
}

-- An inode that nobody has open comes into the table.
new-Opened :
    (fs : FileSys) (sector p : ℕ)
    → Table fs
    → find_open fs.inodes sector fs.open_inodes ≡ none
    → count p fs.open_inodes ≡ 0
    → Opened fs sector (some p) (some p) (with_new fs sector p)
unfolding openers find_open
new-Opened fs sector p t e fresh = record {
  table = record {
    once = λ a. ground (arith, t.once a);
    apart = λ a b ha hb. ground (
      arith,
      t.apart a b,
      find_open-Missing fs.inodes sector a _ e,
      find_open-Missing fs.inodes sector b _ e,
    );
    live = λ a ha. ground (arith, t.live a);
    denied = λ a ha. ground (arith, t.denied a);
  };
  openers_after = λ s.
      let moved =
        find_open-same fs.inodes (with_new fs sector p).inodes s fs.open_inodes
          (λ q h. ground arith) in
      elim (Option-cases (find_open fs.inodes s fs.open_inodes)) [
        | inl n ↦ rw (moved, n) (ground (arith, e, n))
        | inr (q, f) ↦
            let (there, here) = find_open-Found fs.inodes s q fs.open_inodes f in
            rw (moved, f) (ground (arith, here, e, f))
      ];
  fails = λ n. cc;
  at = λ q eq. ground arith;
  loaded = λ q eq z. ground arith;
  others = λ q h. (
    ground arith,
    record {
      sector = ground arith;
      removed = ground arith;
      denied = ground arith;
      contents = ground arith;
    },
  );
  map = refl;
  bytes = refl;
}

-- `inode_open` of a sector of the device returns an inode for it, with no panic, unless the sector
-- is not open and there is no memory; then nothing changes. Otherwise the sector has one opener more,
-- and no other has. An inode that is open already is shared, and a new one holds what its sector
-- says. The other open inodes, the free map and the bytes of the device stay. `malloc` returns
-- memory that is not in use.
pub inode_open-Opened :
    (fs : FileSys) (malloc : Option ℕ) (sector : ℕ)
    → Table fs
    → ((p : ℕ) → malloc ≡ some p → count p fs.open_inodes ≡ 0)
    → sector < fs.fs_device.size
    → (r : Option ℕ) × (fs' : FileSys) × (inode_open fs malloc sector ≡ some (r, fs'))
      × Opened fs sector malloc r fs'
unfolding inode_open open_found open_new openers
inode_open-Opened fs malloc sector t fresh inside =
    elim (Option-cases (find_open fs.inodes sector fs.open_inodes)) [
      | inr (p, e) ↦ (some p, inode_reopen fs p, rw e refl, reopen-Opened fs sector p malloc t e)
      | inl e ↦ elim (Option-cases malloc) [
        | inl m ↦ (
          none,
          fs,
          rw (e, m) refl,
          record {
            table = t;
            openers_after = λ s. ground arith;
            fails = λ _. (m, ap (openers_of fs.inodes) e, refl);
            at = λ p n. cc;
            loaded = λ p n. cc;
            others = λ q h.
                (h, record { sector = refl; removed = refl; denied = refl; contents = refl });
            map = refl;
            bytes = refl;
          },
        )
        | inr (p, m) ↦ (
          some p,
          with_new fs sector p,
          rw (e, m) (some->>= _ _ _ (block_read-inside fs.fs_device sector (lt→ltb _ _ inside))),
          rw m (new-Opened fs sector p t e (fresh p m)),
        )
      ]
    ]
