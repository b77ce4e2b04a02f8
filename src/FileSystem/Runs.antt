-- ===== src/FileSystem/Runs.antt =====
-- The sample file system when sectors are given back, inodes are closed and files are used.
use project_os.Base.{
  ℕ, ◌≡◌, refl, Bool, true, false, ◌&&◌, ◌||◌, none, some, arith, ◌==◌, if◌then◌else◌,
}
use project_os.Bitmap.{Bitmap}
use project_os.Bitmap.View.{holds}
use project_os.Bitmap.Range.{AllAre, Occurs, is_within}
use project_os.FileSystem.Device.{Block}
use project_os.FileSystem.Files.{File, FileSys, file_write, free_map_release}
use project_os.FileSystem.Open.{inode_close, inode_create, file_deny_write, file_allow_write}
use project_os.FileSystem.Closing.{Closed}
use project_os.FileSystem.Deleting.{inode_close-Closed}
use project_os.FileSystem.Release.{Released, free_map_release-Released}
use project_os.FileSystem.Create.{Created, inode_create-Created}
use project_os.FileSystem.File.{file_deny_write-Denied}
use project_os.FileSystem.Tests.{
  map_file, note_file, sample, note-Fits, map-Fits, sample-IsValid, sample-Table, is_used,
  sample-Deletable, map_file-Fits,
}

free_map_release-Released_example :
    (AllAre (holds (sample false).free_map) 3 1 true
      → (map : Bitmap) × (d : Block) × (free_map_release (sample false) true 3 1
          ≡ some (record (sample false) { free_map = map; fs_device = d }))
        × Released (sample false) true 3 1 map_file map d)
    × (Occurs (holds (sample false).free_map) 3 1 false
        → free_map_release (sample false) true 3 1 ≡ none)
free_map_release-Released_example =
    free_map_release-Released (sample false) true 3 1 map_file sample-IsValid (omega arith) refl
      map-Fits

inode_close-Closed_example :
    (fs' : FileSys) × (inode_close (sample true) true true 101 ≡ some fs')
    × Closed (sample true) 101 fs'
    × ((j : ℕ)
        → holds fs'.free_map j
          ≡ (if true && (j == 1 || is_within 3 1 j) then false else holds (sample true).free_map j))
inode_close-Closed_example =
    inode_close-Closed (sample true) 101 true true (sample-Table true) (omega arith) (omega arith)
      map_file (λ _ _. sample-Deletable)

inode_create-Created_example :
    (b : Bool) × (fs' : FileSys) × (inode_create (sample false) true true 1 700 ≡ some (b, fs'))
    × Created (sample false) 1 700 b fs'
inode_create-Created_example =
    inode_create-Created (sample false) true 1 700 sample-IsValid refl refl is_used.1 (omega arith)
      (omega arith) true map_file-Fits

file_deny_write-Denied_example :
    (file1 : File) × (fs1 fs2 : FileSys) × (file_deny_write (sample false) note_file
      ≡ some (file1, fs1))
    × ((writer : File) (ok : Bool) (buffer : ℕ → ℕ) (size : ℕ)
        → writer.inode ≡ 101
        → file_write fs1 ok writer buffer size ≡ some (0, writer, fs1))
    × (file_allow_write fs1 file1 ≡ some (note_file, fs2))
    × ((p : ℕ) → fs2.inodes p ≡ (sample false).inodes p)
file_deny_write-Denied_example =
    file_deny_write-Denied (sample false) note_file note-Fits refl (omega arith)
