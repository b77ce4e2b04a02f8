-- ===== src/FileSystem/Deleting.antt =====
-- `inode_close`: the last opener of a removed inode gives its sectors back.
use project_os.Base.{
  ℕ, ◌+◌, ◌≤◌, ◌<◌, ◌≡◌, ◌≢◌, refl, sym, ◌∙◌, ap, inl, inr, Bool, true, false, ◌&&◌, ◌||◌, some,
  arith, ltb, ◌==◌, if◌then◌else◌, Bool-cases, count, remove_elem, some->>=, if-true, if-false,
  assert-true,
}
use project_os.FileSystem.Files.{FileSys}
use project_os.FileSystem.Open.{inode_close, close_last, one_less}
use project_os.FileSystem.Openers.{Table, openers}
use mathlib.Core.Path.{subst}
use project_os.Bitmap.View.{IsValid, holds}
use project_os.Bitmap.Range.{AllAre, is_within}
use project_os.FileSystem.Place.{Fits}
use project_os.FileSystem.Inode.{bytes_to_sectors, inode_length}
use project_os.FileSystem.Files.{File}
use project_os.FileSystem.Release.{free_map_release-Released}
use project_os.FileSystem.Closing.{Closed, last-Closed, more-Closed}

-- The map and its file, apart from the inode at `p`, whose sectors are in use.
pub record Deletable (fs : FileSys) (p : ℕ) (file : File) : Type 0 where
  pub valid : IsValid fs.free_map
  pub map_file : fs.free_map_file ≡ some file
  pub other : file.inode ≢ p
  pub fits : Fits (fs.inodes file.inode) fs.fs_device
  pub on_map : (fs.inodes p).sector + 1 ≤ fs.free_map.bit_cnt
  pub data_on_map :
      (fs.inodes p).contents.start + bytes_to_sectors (inode_length (fs.inodes p))
      ≤ fs.free_map.bit_cnt
  pub used : holds fs.free_map (fs.inodes p).sector ≡ true
  pub data_used :
      AllAre
        (holds fs.free_map)
        (fs.inodes p).contents.start
        (bytes_to_sectors (inode_length (fs.inodes p)))
        true
  pub apart :
      is_within
        (fs.inodes p).contents.start
        (bytes_to_sectors (inode_length (fs.inodes p)))
        (fs.inodes p).sector
      ≡ false

-- The state in which the sectors are given back.
abbrev unlisted : FileSys → ℕ → FileSys
unlisted fs p = record (one_less fs p) { open_inodes = remove_elem p fs.open_inodes }

module _ (fs : FileSys) (p : ℕ) (ok ok' : Bool) (t : Table fs) (h : 0 < count p fs.open_inodes)
    (spare : (fs.inodes p).deny_write_cnt < (fs.inodes p).open_cnt) where
  is_used : ltb 0 (fs.inodes p).open_cnt ≡ true
  is_used = ground (arith, t.live p h)

  -- Both releases of a removed inode.
  close_last-Closed :
      (file : File)
      → Deletable fs p file
      → (fs.inodes p).open_cnt ≡ 1
      → (fs.inodes p).removed ≡ true
      → (fs' : FileSys) × (close_last (unlisted fs p) ok ok' (fs.inodes p) ≡ some fs')
        × Closed fs p fs'
        × ((j : ℕ)
            → holds fs'.free_map j ≡ (
                if j == (fs.inodes p).sector
                  || is_within
                      (fs.inodes p).contents.start
                      (bytes_to_sectors (inode_length (fs.inodes p)))
                      j
                then false
                else holds fs.free_map j))
  unfolding close_last openers
  close_last-Closed file del last gone =
      let i = fs.inodes p in
      let kept : (unlisted fs p).inodes file.inode ≡ fs.inodes file.inode =
        if-false (file.inode == p) _ _ (ground (arith, del.other)) in
      let (works1, _) =
        free_map_release-Released (unlisted fs p) ok i.sector 1 file del.valid del.on_map
          del.map_file (subst (λ x. Fits x fs.fs_device) (sym kept) del.fits) in
      let (map1, d1, e1, r1) =
        works1
          (λ j a b. let at : j ≡ i.sector = omega arith in ap (holds fs.free_map) at ∙ del.used) in
      let fs1 : FileSys = record (unlisted fs p) { free_map = map1; fs_device = d1 } in
      let (works2, _) =
        free_map_release-Released fs1 ok' i.contents.start (bytes_to_sectors (inode_length i)) file
          r1.cleared.valid (rw r1.cleared.size del.data_on_map) del.map_file
          (subst (λ x. Fits x d1) (sym kept)
            (record {
              inside = rw r1.size del.fits.inside;
              small = rw r1.size del.fits.small;
              ours = rw r1.type del.fits.ours;
            })) in
      let (map2, d2, e2, r2) =
        works2 (λ j a b. ground (arith, r1.cleared.view j, del.data_used j a b, del.apart)) in
      let c = last-Closed fs p t h spare last in
      (
        record fs1 { free_map = map2; fs_device = d2 },
        if-true _ _ _ gone ∙ some->>= _ _ _ e1 ∙ e2,
        record {
          table = record {
            once = c.table.once;
            apart = c.table.apart;
            live = c.table.live;
            denied = c.table.denied;
          };
          openers_after = c.openers_after;
          listed = c.listed;
          others = c.others;
        },
        λ j. ground (arith, r2.cleared.view j, r1.cleared.view j),
      )

  -- `inode_close` by an opener who does not deny writes takes one opener off the inode's sector and
  -- none off another. The inode leaves the table with its last opener; if it is removed, its own
  -- sector and those of its data become free, and no other. Else the free map stays. For the
  -- sectors to be given back the map's file has to be open, and they have to be in use.
  pub inode_close-Closed :
      (file : File)
      → ((fs.inodes p).open_cnt ≡ 1 → (fs.inodes p).removed ≡ true → Deletable fs p file)
      → (fs' : FileSys) × (inode_close fs ok ok' p ≡ some fs')
        × Closed fs p fs'
        × ((j : ℕ)
            → holds fs'.free_map j ≡ (
                if ((fs.inodes p).open_cnt == 1 && (fs.inodes p).removed)
                  && (j == (fs.inodes p).sector
                      || is_within
                          (fs.inodes p).contents.start
                          (bytes_to_sectors (inode_length (fs.inodes p)))
                          j)
                then false
                else holds fs.free_map j))
  unfolding inode_close close_last
  inode_close-Closed file deletable = elim (Bool-cases ((fs.inodes p).open_cnt == 1)) [
    | inr more ↦ (
      one_less fs p,
      assert-true _ _ is_used ∙ if-false _ _ _ more,
      more-Closed fs p t h spare (ground arith),
      λ j. rw more refl,
    )
    | inl last ↦ elim (Bool-cases (fs.inodes p).removed) [
      | inl gone ↦
          let (fs', e, c, view) =
            close_last-Closed file (deletable (ground arith) gone) (ground arith) gone in
          (fs', assert-true _ _ is_used ∙ if-true _ _ _ last ∙ e, c, λ j. rw (last, gone) (view j))
      | inr stays ↦ (
        unlisted fs p,
        assert-true _ _ is_used ∙ if-true _ _ _ last ∙ if-false _ _ _ stays,
        last-Closed fs p t h spare (ground arith),
        λ j. rw (last, stays) refl,
      )
    ]
  ]
