-- ===== src/FileSystem/Read.antt =====
-- What `inode_read_at` reads.
use project_os.Base.{
  ℕ, suc, ◌+◌, ◌-◌, ◌/◌, ◌%◌, ◌^◌, ◌≤◌, ◌<◌, ◌≡◌, ◌⊎◌, refl, ◌∙◌, ap, inl, inr, Bool, true, ◌&&◌,
  ◌||◌, some, ltb, leb, ◌==◌, arith, if◌then◌else◌, some->>=, Bool-cases,
}
use project_os.FileSystem.Device.{Block, block_sector_size}
use project_os.FileSystem.Inode.{
  Inode, Transfer, byte_to_sector, inode_length, finished, again, chunk_size, read_chunk,
  read_round, advance, copied, is_full, lesser, sector_left, transfer, inode_read_at,
}
use project_os.FileSystem.Place.{Fits, byte_at, byte_to_sector_lem, block_read-inside, rounds-Ends}

-- The bytes that are read follow each other in the file and in the buffer. All that there are are
-- read, unless the bounce buffer cannot be had.
pub record Reads (i : Inode) (ok : Bool) (t t' : Transfer) : Type 0 where
  pub amount : ℕ
  pub count : t'.count ≡ t.count + amount
  pub most : amount ≤ lesser t.size (inode_length i - t.offset)
  pub all : ok ≡ true → amount ≡ lesser t.size (inode_length i - t.offset)
  pub bytes :
      (j : ℕ)
      → t'.buffer j ≡ (
          if leb t.count j && ltb j (t.count + amount)
          then byte_at i t.device (t.offset + (j - t.count))
          else t.buffer j)
  pub sectors : t'.device.sectors ≡ t.device.sectors
  pub size : t'.device.size ≡ t.device.size
  pub type : t'.device.type ≡ t.device.type
  pub writes : t'.device.write_cnt ≡ t.device.write_cnt

Reads-none :
    (i : Inode) (ok : Bool) (t : Transfer)
    → (ok ≡ true → lesser t.size (inode_length i - t.offset) ≡ 0)
    → Reads i ok t t
Reads-none i ok t h = record {
  amount = 0;
  count = omega arith;
  most = omega arith;
  all = λ e. omega (arith, h e);
  bytes = λ j. ground arith;
  sectors = refl;
  size = refl;
  type = refl;
  writes = refl;
}

-- Two runs of bytes, one after the other.
run_join :
    (g : ℕ → ℕ) (n o c m j b b1 b2 : ℕ)
    → b1 ≡ (if leb n j && ltb j (n + c) then g (o + (j - n)) else b)
    → b2 ≡ (if leb (n + c) j && ltb j (n + c + m) then g (o + c + (j - (n + c))) else b1)
    → b2 ≡ (if leb n j && ltb j (n + (c + m)) then g (o + (j - n)) else b)
run_join g n o c m j b b1 b2 e1 e2 =
    let moved : n + c ≤ j → g (o + c + (j - (n + c))) ≡ g (o + (j - n)) = λ h. ap g (omega arith) in
    ground (arith, moved)

-- A chunk and the rounds that follow it.
module _ (i : Inode) (ok : Bool) (t t1 : Transfer) (c : ℕ)
    (some_left : c ≤ lesser t.size (inode_length i - t.offset))
    (one_sector : c ≤ sector_left t.offset) (size1 : t1.size ≡ t.size - c)
    (offset1 : t1.offset ≡ t.offset + c) (count1 : t1.count ≡ t.count + c)
    (bytes1 : (j : ℕ)
      → t1.buffer j ≡ (
          if leb t.count j && ltb j (t.count + c)
          then byte_at i t.device (t.offset + (j - t.count))
          else t.buffer j))
    (sectors1 : t1.device.sectors ≡ t.device.sectors) (size_d : t1.device.size ≡ t.device.size)
    (type_d : t1.device.type ≡ t.device.type)
    (writes_d : t1.device.write_cnt ≡ t.device.write_cnt) where
  Reads-more : (t' : Transfer) → Reads i ok t1 t' → Reads i ok t t'
  Reads-more t' r = record {
    amount = c + r.amount;
    count = omega (arith, r.count);
    most = ground (arith, r.most);
    all = λ e. ground (arith, r.all e);
    bytes = λ j.
        run_join (byte_at i t.device) t.count t.offset c r.amount j (t.buffer j) (t1.buffer j)
          (t'.buffer j) (bytes1 j) (rw (← count1, ← offset1, ← sectors1) (r.bytes j));
    sectors = r.sectors ∙ sectors1;
    size = r.size ∙ size_d;
    type = r.type ∙ type_d;
    writes = r.writes ∙ writes_d;
  }

-- A part of one sector lies in one sector.
byte_at_chunk :
    (i : Inode) (d : Block) (offset k sector : ℕ)
    → sector ≡ i.contents.start + offset / block_sector_size
    → k < sector_left offset
    → byte_at i d (offset + k) ≡ d.sectors sector (offset % block_sector_size + k)
byte_at_chunk i d offset k sector e h =
    let same_sector : i.contents.start + (offset + k) / block_sector_size ≡ sector = omega arith in
    let same_ofs : (offset + k) % block_sector_size ≡ offset % block_sector_size + k =
      omega arith in
    ap (λ s. d.sectors s ((offset + k) % block_sector_size)) same_sector
    ∙ ap (d.sectors sector) same_ofs

chunk_bytes :
    (i : Inode) (t : Transfer) (c sector j : ℕ)
    → sector ≡ i.contents.start + t.offset / block_sector_size
    → c ≤ sector_left t.offset
    → copied t.buffer t.count (t.device.sectors sector) (t.offset % block_sector_size) c j ≡ (
        if leb t.count j && ltb j (t.count + c)
        then byte_at i t.device (t.offset + (j - t.count))
        else t.buffer j)
chunk_bytes i t c sector j e h =
    let same : j < t.count + c
        → t.count ≤ j
        → byte_at i t.device (t.offset + (j - t.count))
          ≡ t.device.sectors sector (t.offset % block_sector_size + (j - t.count)) =
      λ a b. byte_at_chunk i t.device t.offset (j - t.count) sector e (omega arith) in
    ground (arith, same)

module _ (i : Inode) (ok : Bool) where
  read_chunk-Reads :
      (t : Transfer) (c : ℕ)
      → Fits i t.device
      → 0 < c
      → c ≡ chunk_size i t
      → (t1 : Transfer) × (read_chunk i t c ≡ some (again t1))
        × (t1.size < t.size)
        × Fits i t1.device
        × ((t' : Transfer) → Reads i ok t1 t' → Reads i ok t t')
  unfolding read_chunk
  read_chunk-Reads t c f pos e =
      let (at, inside) = byte_to_sector_lem i t.device t.offset f (ground arith) in
      let d1 : Block = record (t.device) { read_cnt = (t.device.read_cnt + 1) % 2 ^ 64 } in
      let t1 : Transfer =
        advance t d1
          (copied t.buffer t.count (t.device.sectors (byte_to_sector i t.offset))
            (t.offset % block_sector_size) c)
          c in
      (
        t1,
        some->>= _ _ _ (block_read-inside t.device _ inside),
        ground arith,
        record { inside = f.inside; small = f.small; ours = f.ours },
        Reads-more i ok t t1 c (ground arith) (ground arith) refl refl refl
            (λ j. chunk_bytes i t c _ j at (ground arith)) refl refl refl refl,
      )

  read_round-Reads :
      (t : Transfer)
      → Fits i t.device
      → ((read_round i ok t ≡ some (finished t)) × Reads i ok t t)
        ⊎ ((t1 : Transfer) × (read_round i ok t ≡ some (again t1))
            × (t1.size < t.size)
            × Fits i t1.device
            × ((t' : Transfer) → Reads i ok t1 t' → Reads i ok t t'))
  unfolding read_round
  read_round-Reads t f = elim (Bool-cases (t.size == 0 || chunk_size i t == 0)) [
    | inl z ↦ inl (ground arith, Reads-none i ok t (λ e. ground arith))
    | inr z ↦ elim (Bool-cases (is_full t.offset (chunk_size i t) || ok)) [
      | inl can ↦
          let (t1, e, less, f1, more) = read_chunk-Reads t (chunk_size i t) f (ground arith) refl in
          inr (t1, ground (arith, e), less, f1, more)
      | inr cannot ↦ inl (ground arith, Reads-none i ok t (λ e. ground arith))
    ]
  ]

  -- In a file whose sectors lie on the device, `inode_read_at` always returns, with no panic. It
  -- puts the bytes of the file from `offset` on at the start of the buffer, as many as are asked
  -- for, up to the end of the file, and fewer only where the bounce buffer cannot be had. The rest
  -- of the buffer and the bytes of the device stay.
  pub inode_read_at-Reads :
      (d : Block) (buffer : ℕ → ℕ) (size offset : ℕ)
      → Fits i d
      → (t' : Transfer) × (inode_read_at i ok d buffer size offset
          ≡ some (t'.count, t'.buffer, t'.device))
        × Reads i ok (transfer d buffer size offset) t'
  unfolding inode_read_at
  inode_read_at-Reads d buffer size offset f =
      let (t', e, r) =
        rounds-Ends (read_round i ok) (λ t. Fits i t.device) (Reads i ok) read_round-Reads
          (suc size) (transfer d buffer size offset) f (omega arith) in
      (t', some->>= _ _ _ e, r)
