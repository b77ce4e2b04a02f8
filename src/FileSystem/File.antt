-- ===== src/FileSystem/File.antt =====
-- filesys/file.c: positions in a file, and denial of writes.
use project_os.Base.{
  ℕ, ◌+◌, ◌-◌, ◌<◌, ◌≡◌, refl, sym, ◌∙◌, ap, inl, inr, Bool, true, false, some, arith, ltb, leb,
  ◌==◌, Bool-cases, some->>=, if-true, if-false, assert-true,
}
use project_os.FileSystem.Inode.{Inode}
use project_os.FileSystem.Files.{FileSys}
use project_os.FileSystem.Open.{set_inode}
use project_os.Base.{if-true}
use project_os.FileSystem.Inode.{inode_length, lesser, inode_write_at}
use project_os.FileSystem.Place.{Fits}
use project_os.FileSystem.Write.{inode_write_at-Writes}
use project_os.FileSystem.RoundTrip.{inode_read_at-write}
use project_os.FileSystem.Files.{
  File, file_read, file_write, file_seek, file_read_at, file_write_at,
}
use project_os.FileSystem.Open.{
  file_deny_write, file_allow_write, inode_deny_write, inode_allow_write,
}

-- What `file_write` writes, `file_read` reads again after `file_seek` to the old position, and both
-- move the position by the number of bytes. They write and read up to the end of the file; there is
-- memory for them, the file's sectors lie on the device, and writes are not denied.
pub file_read-write :
    (fs : FileSys) (file : File) (buffer other : ℕ → ℕ) (size : ℕ)
    → Fits (fs.inodes file.inode) fs.fs_device
    → (fs.inodes file.inode).deny_write_cnt ≡ 0
    → (n : ℕ) × (file1 file2 : File) × (fs1 fs2 : FileSys) × (found : ℕ → ℕ) × (file_write fs true
          file buffer size
        ≡ some (n, file1, fs1))
      × (file_read fs1 true (file_seek file1 file.pos) other size ≡ some (n, found, file2, fs2))
      × (n ≡ lesser size (inode_length (fs.inodes file.inode) - file.pos))
      × (file1.pos ≡ file.pos + n)
      × (file2.pos ≡ file.pos + n)
      × ((k : ℕ) → k < n → found k ≡ buffer k)
unfolding file_read file_write file_read_at file_write_at
file_read-write fs file buffer other size f z =
    let (n, d1, d2, found, e1, e2, en, same) =
      inode_read_at-write (fs.inodes file.inode) fs.fs_device buffer other size file.pos f z in
    (
      n,
      record file { pos = file.pos + n },
      record file { pos = file.pos + n },
      record fs { fs_device = d1 },
      record fs { fs_device = d2 },
      found,
      some->>= _ _ _ (some->>= _ _ _ e1),
      some->>= _ _ _ (some->>= _ _ _ e2),
      en,
      refl,
      refl,
      same,
    )

-- An opener of an inode who denies writes makes every write to the inode return 0 and change
-- nothing; allowing them again brings back the count. The inode lies on the device and has an opener
-- who does not deny writes yet.
pub file_deny_write-Denied :
    (fs : FileSys) (file : File)
    → Fits (fs.inodes file.inode) fs.fs_device
    → file.deny_write ≡ false
    → (fs.inodes file.inode).deny_write_cnt < (fs.inodes file.inode).open_cnt
    → (file1 : File) × (fs1 fs2 : FileSys) × (file_deny_write fs file ≡ some (file1, fs1))
      × ((writer : File) (ok : Bool) (buffer : ℕ → ℕ) (size : ℕ)
          → writer.inode ≡ file.inode
          → file_write fs1 ok writer buffer size ≡ some (0, writer, fs1))
      × (file_allow_write fs1 file1 ≡ some (file, fs2))
      × ((p : ℕ) → fs2.inodes p ≡ fs.inodes p)
unfolding file_deny_write file_allow_write inode_deny_write inode_allow_write file_write
    file_write_at
file_deny_write-Denied fs file f off spare =
    let i = fs.inodes file.inode in
    let i1 : Inode = record i { deny_write_cnt = i.deny_write_cnt + 1 } in
    let fs1 : FileSys = set_inode fs file.inode i1 in
    let fs2 : FileSys = set_inode fs1 file.inode (record (fs1.inodes file.inode) {
      deny_write_cnt = (fs1.inodes file.inode).deny_write_cnt - 1;
    }) in
    let at : fs1.inodes file.inode ≡ i1 = if-true (file.inode == file.inode) _ _ (ground arith) in
    let denies : (fs1.inodes file.inode).deny_write_cnt ≡ i.deny_write_cnt + 1 =
      ap (λ (x : Inode). x.deny_write_cnt) at in
    let opens : (fs1.inodes file.inode).open_cnt ≡ i.open_cnt = ap (λ (x : Inode). x.open_cnt) at in
    (
      record file { deny_write = true },
      fs1,
      fs2,
      if-false _ _ _ off
          ∙ some->>= _ _ _ (assert-true (leb (i.deny_write_cnt + 1) i.open_cnt) _ (ground arith)),
      (λ writer ok buffer size e.
          let there : fs1.inodes writer.inode ≡ i1 =
            if-true (writer.inode == file.inode) _ _ (ground (arith, e)) in
          let none_written =
            ap (λ x. inode_write_at x ok fs.fs_device buffer size writer.pos) there
            ∙ (inode_write_at-Writes i1 ok fs.fs_device buffer size writer.pos
                  (record { inside = f.inside; small = f.small; ours = f.ours })).1
                (omega arith) in
          let stays : writer.pos + 0 ≡ writer.pos = omega arith in
          some->>= _ _ _ (some->>= _ _ _ none_written)
          ∙ ap (λ q. some (0, record writer { pos = q }, fs1)) stays),
      (some->>= _ _ _ (
            assert-true (ltb 0 (fs1.inodes file.inode).deny_write_cnt) _ (ground (arith, denies))
            ∙ assert-true
                (leb (fs1.inodes file.inode).deny_write_cnt (fs1.inodes file.inode).open_cnt) _
                (ground (arith, denies, opens)))
          ∙ ap (λ b. some (record file { deny_write = b }, fs2)) (sym off)),
      (λ p. elim (Bool-cases (p == file.inode)) [
        | inr other ↦ if-false _ _ _ other ∙ if-false _ _ _ other
        | inl same ↦
            let here : file.inode ≡ p = ground arith in
            let back : i.deny_write_cnt + 1 - 1 ≡ i.deny_write_cnt = omega arith in
            if-true _ _ _ same
            ∙ ap (λ (x : Inode). record x { deny_write_cnt = x.deny_write_cnt - 1 }) at
            ∙ ap (λ n. record i { deny_write_cnt = n }) back
            ∙ ap fs.inodes here
      ]),
    )
