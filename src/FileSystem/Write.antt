-- ===== src/FileSystem/Write.antt =====
-- What `inode_write_at` writes.
use project_os.Base.{
  ℕ, suc, ◌+◌, ◌-◌, ◌*◌, ◌%◌, ◌^◌, ◌≤◌, ◌<◌, ◌≡◌, ◌≢◌, ◌⊎◌, refl, ◌∙◌, ap, inl, inr, Bool, true,
  not, ◌&&◌, ◌||◌, Option, some, ltb, leb, ◌==◌, arith, if◌then◌else◌, some->>=, Bool-cases, update,
  if-true, if-false,
}
use mathlib.Core.Path.{subst}
use project_os.FileSystem.Device.{Block, block_sector_size}
use project_os.FileSystem.Inode.{
  Inode, Transfer, Round, byte_to_sector, inode_length, finished, again, chunk_size, write_full,
  write_bounced, bounce_bytes, write_round, advance, copied, is_full, lesser, sector_left, transfer,
  inode_write_at,
}
use project_os.FileSystem.Place.{
  Fits, byte_to_sector_lem, block_read-inside, block_write-inside, rounds-Ends,
}
use project_os.FileSystem.Covers.{covers, chunk_bytes}

-- The whole device after a write: the bytes of the buffer stand in their places in the file, and no
-- other byte has changed.
pub record Writes (i : Inode) (ok : Bool) (t t' : Transfer) : Type 0 where
  pub amount : ℕ
  pub count : t'.count ≡ t.count + amount
  pub most : amount ≤ lesser t.size (inode_length i - t.offset)
  pub all : ok ≡ true → amount ≡ lesser t.size (inode_length i - t.offset)
  pub bytes :
      (s o : ℕ)
      → o < block_sector_size
      → t'.device.sectors s o ≡ (
          if covers i t.offset amount s o
          then t.buffer (t.count + ((s - i.contents.start) * block_sector_size + o - t.offset))
          else t.device.sectors s o)
  pub size : t'.device.size ≡ t.device.size
  pub type : t'.device.type ≡ t.device.type

Writes-none :
    (i : Inode) (ok : Bool) (t : Transfer)
    → (ok ≡ true → lesser t.size (inode_length i - t.offset) ≡ 0)
    → Writes i ok t t
Writes-none i ok t h = record {
  amount = 0;
  count = omega arith;
  most = omega arith;
  all = λ e. omega (arith, h e);
  bytes = λ s o p. ground arith;
  size = refl;
  type = refl;
}

-- A chunk has been written to its sector.
record Chunk (i : Inode) (t t1 : Transfer) (c : ℕ) : Type 0 where
  some_left : c ≤ lesser t.size (inode_length i - t.offset)
  size1 : t1.size ≡ t.size - c
  offset1 : t1.offset ≡ t.offset + c
  count1 : t1.count ≡ t.count + c
  buffer1 : t1.buffer ≡ t.buffer
  bytes1 :
      (s o : ℕ)
      → o < block_sector_size
      → t1.device.sectors s o ≡ (
          if covers i t.offset c s o
          then t.buffer (t.count + ((s - i.contents.start) * block_sector_size + o - t.offset))
          else t.device.sectors s o)
  size_d : t1.device.size ≡ t.device.size
  type_d : t1.device.type ≡ t.device.type

-- Two runs of bytes on the device, one after the other; `p` is the position in the file.
run_join :
    (g : ℕ → ℕ) (n x c m p b b1 b2 : ℕ) (inside : Bool)
    → b1 ≡ (if inside && (leb x p && ltb p (x + c)) then g (n + (p - x)) else b)
    → b2
      ≡ (if inside && (leb (x + c) p && ltb p (x + c + m)) then g (n + c + (p - (x + c))) else b1)
    → b2 ≡ (if inside && (leb x p && ltb p (x + (c + m))) then g (n + (p - x)) else b)
run_join g n x c m p b b1 b2 inside e1 e2 =
    let moved : x + c ≤ p → g (n + c + (p - (x + c))) ≡ g (n + (p - x)) = λ h. ap g (omega arith) in
    ground (arith, moved)

module _ (i : Inode) (ok : Bool) where
  Writes-more :
      (t t1 : Transfer) (c : ℕ)
      → Chunk i t t1 c
      → (t' : Transfer) → Writes i ok t1 t'
      → Writes i ok t t'
  Writes-more t t1 c k t' r = record {
    amount = c + r.amount;
    count = omega (arith, r.count, k.count1);
    most = ground (arith, r.most, k.size1, k.offset1, k.some_left);
    all = λ e. ground (arith, r.all e, k.size1, k.offset1, k.some_left);
    bytes = λ s o p.
        run_join t.buffer t.count t.offset c r.amount
          ((s - i.contents.start) * block_sector_size + o) (t.device.sectors s o)
          (t1.device.sectors s o) (t'.device.sectors s o) (leb i.contents.start s) (k.bytes1 s o p)
          (rw (← k.count1, ← k.offset1, ← k.buffer1) (r.bytes s o p));
    size = r.size ∙ k.size_d;
    type = r.type ∙ k.type_d;
  }

-- The device with one sector replaced, after some reads.
abbrev stored : Block → (sector : ℕ) → (ℕ → ℕ) → (read_cnt : ℕ) → Block
stored d sector new n = record d {
  sectors = update d.sectors sector new;
  read_cnt = n;
  write_cnt = (d.write_cnt + 1) % 2 ^ 64;
}

module _ (i : Inode) (ok : Bool) where
  -- What a round that writes leads to.
  abbrev Goes : Transfer → Option Round → Type 0
  Goes t r =
      (t1 : Transfer) × (r ≡ some (again t1))
      × (t1.size < t.size)
      × Fits i t1.device
      × ((t' : Transfer) → Writes i ok t1 t' → Writes i ok t t')

  stored-Goes :
      (t : Transfer) (r : Option Round) (c : ℕ) (new : ℕ → ℕ) (n : ℕ)
      → Fits i t.device
      → 0 < c
      → c ≡ chunk_size i t
      → ((o : ℕ)
          → o < block_sector_size
          → new o
            ≡ copied
                (t.device.sectors (byte_to_sector i t.offset))
                (t.offset % block_sector_size)
                t.buffer
                t.count
                c
                o)
      → r ≡ some (again (advance t (stored t.device (byte_to_sector i t.offset) new n) t.buffer c))
      → Goes t r
  stored-Goes t r c new n f pos e old er =
      let (at, inside) = byte_to_sector_lem i t.device t.offset f (ground arith) in
      (
        _,
        er,
        ground arith,
        record { inside = f.inside; small = f.small; ours = f.ours },
        Writes-more i ok t _ c (record {
          some_left = ground arith;
          size1 = refl;
          offset1 = refl;
          count1 = refl;
          buffer1 = refl;
          bytes1 = chunk_bytes i t c (byte_to_sector i t.offset) new at (ground arith) old;
          size_d = refl;
          type_d = refl;
        }),
      )

  write_full-Goes :
      (t : Transfer) (c : ℕ)
      → Fits i t.device
      → c ≡ chunk_size i t
      → is_full t.offset c ≡ true
      → Goes t (write_full i t c)
  unfolding write_full
  write_full-Goes t c f e full =
      let (at, inside) = byte_to_sector_lem i t.device t.offset f (ground arith) in
      stored-Goes t _ c (λ o. t.buffer (t.count + o)) t.device.read_cnt f (ground arith) e
        (λ o p.
          let first : t.offset % block_sector_size ≡ 0 = ground arith in
          let same : t.buffer (t.count + o)
              ≡ t.buffer (t.count + (o - t.offset % block_sector_size)) =
            ap t.buffer (omega arith) in
          ground (arith, same))
        (some->>= _ _ _ (block_write-inside t.device _ _ inside f.ours))

  write_bounced-Goes :
      (t : Transfer) (c : ℕ)
      → Fits i t.device
      → 0 < c
      → c ≡ chunk_size i t
      → Goes t (write_bounced i t c)
  unfolding write_bounced bounce_bytes
  write_bounced-Goes t c f pos e =
      let (at, inside) = byte_to_sector_lem i t.device t.offset f (ground arith) in
      elim (Bool-cases (not (t.offset % block_sector_size == 0) || ltb c (sector_left t.offset))) [
        | inl reads ↦
            stored-Goes t _ c
              (copied (t.device.sectors (byte_to_sector i t.offset)) (t.offset % block_sector_size)
                t.buffer t.count c)
              ((t.device.read_cnt + 1) % 2 ^ 64) f pos e (λ o p. refl)
              (some->>= _ _ _ (if-true _ _ _ reads ∙ block_read-inside t.device _ inside)
                ∙ some->>= _ _ _ (block_write-inside _ _ _ inside f.ours))
        | inr whole ↦
            stored-Goes t _ c (copied (λ _. 0) (t.offset % block_sector_size) t.buffer t.count c)
              t.device.read_cnt f pos e (λ o p. ground arith)
              (some->>= _ _ _ (if-false _ _ _ whole)
                ∙ some->>= _ _ _ (block_write-inside t.device _ _ inside f.ours))
      ]

  write_round-Writes :
      (t : Transfer)
      → Fits i t.device
      → ((write_round i ok t ≡ some (finished t)) × Writes i ok t t) ⊎ Goes t (write_round i ok t)
  unfolding write_round
  write_round-Writes t f = elim (Bool-cases (t.size == 0 || chunk_size i t == 0)) [
    | inl z ↦ inl (ground arith, Writes-none i ok t (λ e. ground arith))
    | inr z ↦ elim (Bool-cases (is_full t.offset (chunk_size i t))) [
      | inl full ↦
          inr (subst (Goes t) (ground arith) (write_full-Goes t (chunk_size i t) f refl full))
      | inr part ↦ elim (Bool-cases ok) [
        | inl can ↦ inr (
            subst (Goes t) (ground arith)
              (write_bounced-Goes t (chunk_size i t) f (ground arith) refl))
        | inr cannot ↦ inl (ground arith, Writes-none i ok t (λ e. ground arith))
      ]
    ]
  ]

-- In a file whose sectors lie on the device, `inode_write_at` always returns, with no panic. While
-- writes are denied it returns 0 and leaves the device as it was. Otherwise it writes as many bytes
-- as there are, up to the end of the file, and fewer only where the bounce buffer cannot be had;
-- every other byte of the device stays.
pub inode_write_at-Writes :
    (i : Inode) (ok : Bool) (d : Block) (buffer : ℕ → ℕ) (size offset : ℕ)
    → Fits i d
    → ((i.deny_write_cnt ≡ 0)
        → (t' : Transfer) × (inode_write_at i ok d buffer size offset ≡ some (t'.count, t'.device))
          × Writes i ok (transfer d buffer size offset) t')
      × ((i.deny_write_cnt ≢ 0) → inode_write_at i ok d buffer size offset ≡ some (0, d))
unfolding inode_write_at
inode_write_at-Writes i ok d buffer size offset f =
    let (t', e, w) =
      rounds-Ends (write_round i ok) (λ t. Fits i t.device) (Writes i ok) (write_round-Writes i ok)
        (suc size) (transfer d buffer size offset) f (omega arith) in
    (
      λ z. (t', if-true (i.deny_write_cnt == 0) _ _ (ground arith) ∙ some->>= _ _ _ e, w),
      λ z. if-false (i.deny_write_cnt == 0) _ _ (ground arith),
    )
