-- ===== src/FileSystem/RoundTrip.antt =====
-- Reading what has been written, and what a write leaves of other files.
use project_os.Base.{
  ℕ, ◌+◌, ◌-◌, ◌*◌, ◌/◌, ◌%◌, ◌≤◌, ◌<◌, ◌≡◌, ◌≢◌, refl, ◌∙◌, ap, inl, inr, Bool, true, false, ◌&&◌,
  some, ltb, leb, ◌==◌, arith, if◌then◌else◌, Bool-cases, if-false,
}
use project_os.FileSystem.Device.{Block, block_sector_size}
use project_os.FileSystem.Inode.{
  Inode, Transfer, inode_length, lesser, transfer, inode_read_at, inode_write_at,
}
use project_os.FileSystem.Place.{Fits, byte_at}
use project_os.FileSystem.Read.{inode_read_at-Reads}
use project_os.FileSystem.Covers.{covers}
use project_os.FileSystem.Write.{Writes, inode_write_at-Writes}

-- The byte of the file at a position after a write.
pub byte_at-written :
    (i : Inode) (ok : Bool) (t t' : Transfer) (p : ℕ)
    → (w : Writes i ok t t')
    → byte_at i t'.device p ≡ (
        if leb t.offset p && ltb p (t.offset + w.amount)
        then t.buffer (t.count + (p - t.offset))
        else byte_at i t.device p)
byte_at-written i ok t t' p w =
    let e : (i.contents.start + p / block_sector_size - i.contents.start) * block_sector_size
          + p % block_sector_size
        ≡ p =
      omega arith in
    let r =
      w.bytes (i.contents.start + p / block_sector_size) (p % block_sector_size) (omega arith) in
    let from_buffer = ap (λ q. t.buffer (t.count + (q - t.offset))) e in
    ground (arith, r, e, from_buffer)

-- What is written is read again: by a read of the same place, after a write with the bounce buffer,
-- of as many bytes as the write has written.
pub inode_read_at-write :
    (i : Inode) (d : Block) (buffer other : ℕ → ℕ) (size offset : ℕ)
    → Fits i d
    → i.deny_write_cnt ≡ 0
    → (n : ℕ) × (d1 d2 : Block) × (found : ℕ → ℕ) × (inode_write_at i true d buffer size offset
        ≡ some (n, d1))
      × (inode_read_at i true d1 other size offset ≡ some (n, found, d2))
      × (n ≡ lesser size (inode_length i - offset))
      × ((k : ℕ) → k < n → found k ≡ buffer k)
inode_read_at-write i d buffer other size offset f z =
    let (t1, e1, w) = (inode_write_at-Writes i true d buffer size offset f).0 z in
    let f1 : Fits i t1.device = record {
      inside = rw w.size f.inside;
      small = rw w.size f.small;
      ours = rw w.type f.ours;
    } in
    let (t2, e2, r) = inode_read_at-Reads i true t1.device other size offset f1 in
    let same : t2.count ≡ t1.count = ground (arith, r.count, r.all refl, w.all refl, w.count) in
    (
      t1.count,
      t1.device,
      t2.device,
      t2.buffer,
      e1,
      rw (← same) e2,
      ground (arith, w.count, w.all refl),
      λ k h.
          let found = r.bytes k in
          let written = byte_at-written i true (transfer d buffer size offset) t1 (offset + k) w in
          let moved : buffer (offset + k - offset) ≡ buffer k = ap buffer (omega arith) in
          ground (arith, w.all refl, r.all refl, w.count, found, written, moved),
    )

-- No sector belongs to both files.
abbrev pub Apart : Inode → Inode → Type 0
Apart i j =
    (p q : ℕ)
    → p < inode_length i
    → q < inode_length j
    → i.contents.start + p / block_sector_size ≢ j.contents.start + q / block_sector_size

-- The sectors of the other file are not covered.
covers-Apart :
    (i j : Inode) (offset amount p : ℕ)
    → Apart i j
    → amount ≤ inode_length i - offset
    → p < inode_length j
    → covers i offset amount (j.contents.start + p / block_sector_size) (p % block_sector_size)
      ≡ false
covers-Apart i j offset amount p apart most h =
    let pos : ℕ =
      (j.contents.start + p / block_sector_size - i.contents.start) * block_sector_size
      + p % block_sector_size in
    let never : i.contents.start ≤ j.contents.start + p / block_sector_size
        → pos < inode_length i
        → ⊥ =
      λ a b. apart pos p b h (omega arith) in
    ground (arith, never)

-- A write to one file changes no byte of a file that shares no sector with it.
pub inode_write_at-others :
    (i j : Inode) (ok : Bool) (d : Block) (buffer : ℕ → ℕ) (size offset : ℕ)
    → Fits i d
    → Apart i j
    → (n : ℕ) × (d' : Block) × (inode_write_at i ok d buffer size offset ≡ some (n, d'))
      × ((p : ℕ) → p < inode_length j → byte_at j d' p ≡ byte_at j d p)
inode_write_at-others i j ok d buffer size offset f apart =
    let (writes, denied) = inode_write_at-Writes i ok d buffer size offset f in
    elim (Bool-cases (i.deny_write_cnt == 0)) [
      | inl z ↦
          let (t', e, w) = writes (ground arith) in
          (
            t'.count,
            t'.device,
            e,
            λ p h.
                w.bytes (j.contents.start + p / block_sector_size) (p % block_sector_size)
                  (omega arith)
                ∙ if-false _ _ _
                    (covers-Apart i j offset w.amount p apart (ground (arith, w.most)) h),
          )
      | inr z ↦ (0, d, denied (ground arith), λ p h. refl)
    ]
