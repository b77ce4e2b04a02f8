-- ===== src/FileSystem/Covers.antt =====
-- Which bytes of a device belong to a run of bytes of a file, and what a change of one sector does.
use project_os.Base.{
  ℕ, ◌+◌, ◌-◌, ◌*◌, ◌/◌, ◌%◌, ◌≤◌, ◌<◌, ◌≡◌, ◌≢◌, ◌∙◌, ap, inl, inr, Bool, false, ◌&&◌, ltb, leb,
  ◌==◌, arith, if◌then◌else◌, Bool-cases, update,
}
use project_os.FileSystem.Device.{block_sector_size}
use project_os.FileSystem.Inode.{Inode, Transfer, copied, sector_left}

-- The byte `o` of sector `s` belongs to the `amount` bytes of the file from `offset` on.
abbrev pub covers : Inode → (offset amount s o : ℕ) → Bool
covers i offset amount s o =
    leb i.contents.start s
    && (leb offset ((s - i.contents.start) * block_sector_size + o)
        && ltb ((s - i.contents.start) * block_sector_size + o) (offset + amount))

-- In the sector of the chunk its bytes are covered, and in no other.
covers_same :
    (i : Inode) (offset c s o : ℕ)
    → s ≡ i.contents.start + offset / block_sector_size
    → covers i offset c s o
      ≡ (leb (offset % block_sector_size) o && ltb o (offset % block_sector_size + c))
covers_same i offset c s o e =
    let at : (s - i.contents.start) * block_sector_size + o + offset % block_sector_size
        ≡ offset + o =
      omega arith in
    ground (arith, at)

covers_other :
    (i : Inode) (offset c s o : ℕ)
    → s ≢ i.contents.start + offset / block_sector_size
    → c ≤ sector_left offset
    → o < block_sector_size
    → covers i offset c s o ≡ false
covers_other i offset c s o e h p = ground arith

-- The bytes of the device after the sector of a chunk is replaced.
pub chunk_bytes :
    (i : Inode) (t : Transfer) (c sector : ℕ) (new : ℕ → ℕ)
    → sector ≡ i.contents.start + t.offset / block_sector_size
    → c ≤ sector_left t.offset
    → ((o : ℕ)
        → o < block_sector_size
        → new o
          ≡ copied (t.device.sectors sector) (t.offset % block_sector_size) t.buffer t.count c o)
    → (s o : ℕ) → o < block_sector_size
    → update t.device.sectors sector new s o ≡ (
        if covers i t.offset c s o
        then t.buffer (t.count + ((s - i.contents.start) * block_sector_size + o - t.offset))
        else t.device.sectors s o)
chunk_bytes i t c sector new e h old s o p = elim (Bool-cases (s == sector)) [
  | inl same ↦
      let here : s ≡ sector = ground arith in
      let at : t.offset % block_sector_size ≤ o
          → t.count + (o - t.offset % block_sector_size)
            ≡ t.count + ((s - i.contents.start) * block_sector_size + o - t.offset) =
        λ q. omega arith in
      let moved : t.offset % block_sector_size ≤ o
          → t.buffer (t.count + (o - t.offset % block_sector_size))
            ≡ t.buffer (t.count + ((s - i.contents.start) * block_sector_size + o - t.offset)) =
        λ q. ap t.buffer (at q) in
      let stays : t.device.sectors s o ≡ t.device.sectors sector o =
        ap (λ x. t.device.sectors x o) here in
      rw (covers_same i t.offset c s o (here ∙ e)) (ground (arith, old o p, moved, stays))
  | inr differs ↦ rw (covers_other i t.offset c s o (ground arith) h p) (ground arith)
]
