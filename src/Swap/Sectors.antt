-- ===== src/Swap/Sectors.antt =====
-- The loops over the sectors of a page.
use project_os.Base.{
  ℕ, zero, suc, ◌+◌, ◌-◌, ◌*◌, ◌/◌, ◌%◌, ◌^◌, ◌≤◌, ◌<◌, ◌≡◌, refl, ◌∙◌, ap, inl, inr, false, ◌&&◌,
  none, some, arith, ltb, leb, ◌==◌, if◌then◌else◌, Bool-cases, update, some->>=, ◌>>=◌,
}
use project_os.FileSystem.Device.{Block, is_foreign, block_write, block_sector_size}
use project_os.FileSystem.Inode.{copied}
use project_os.FileSystem.Place.{block_read-inside, block_write-inside}
use project_os.Swap.{write_sectors, read_sectors}

-- The `n` sectors from `start + i` on hold the bytes of memory that belong to them.
pub record Stored (memory : ℕ → ℕ) (page start i n : ℕ) (d d' : Block) : Type 0 where
  pub size : d'.size ≡ d.size
  pub type : d'.type ≡ d.type
  pub bytes :
      (s o : ℕ)
      → d'.sectors s o ≡ (
          if leb (start + i) s && ltb s (start + i + n)
          then memory (page + (s - start) * block_sector_size + o)
          else d.sectors s o)

pub write_sectors-Stored :
    (n : ℕ) (d : Block) (memory : ℕ → ℕ) (page start i : ℕ)
    → start + i + n ≤ d.size
    → d.size < 2 ^ 32
    → is_foreign d.type ≡ false
    → (d' : Block) × (write_sectors n d memory page start i ≡ some d')
      × Stored memory page start i n d d'
unfolding write_sectors
write_sectors-Stored zero d memory page start i h small ours =
    (d, refl, record { size = refl; type = refl; bytes = λ s o. ground arith })
write_sectors-Stored (suc n) d memory page start i h small ours =
    let at : (start + i) % 2 ^ 32 ≡ start + i = omega arith in
    let new : ℕ → ℕ = λ o. memory (page + i * block_sector_size + o) in
    let d1 : Block = record d {
      sectors = update d.sectors (start + i) new;
      write_cnt = (d.write_cnt + 1) % 2 ^ 64;
    } in
    let (d', e, z) = write_sectors-Stored n d1 memory page start (i + 1) (omega arith) small ours in
    (
      d',
      rw at (some->>= _ _ _ (block_write-inside d (start + i) new (ground arith) ours)) ∙ e,
      record {
        size = z.size;
        type = z.type;
        bytes = λ s o. elim (Bool-cases (s == start + i)) [
          | inl same ↦
              let here : s ≡ start + i = ground arith in
              let moved : memory (page + i * block_sector_size + o)
                  ≡ memory (page + (s - start) * block_sector_size + o) =
                ap memory (omega arith) in
              ground (arith, z.bytes s o, moved)
          | inr other ↦ ground (arith, z.bytes s o)
        ];
      },
    )

-- A sector past the end of the device is a panic.
pub write_sectors-panics :
    (n : ℕ) (d : Block) (memory : ℕ → ℕ) (page start i : ℕ)
    → d.size < start + i + n
    → 0 < n
    → start + i + n < 2 ^ 32
    → write_sectors n d memory page start i ≡ none
unfolding write_sectors
write_sectors-panics zero d memory page start i h in_ small = absurd (omega arith)
write_sectors-panics (suc n) d memory page start i h in_ small =
    let at : (start + i) % 2 ^ 32 ≡ start + i = omega arith in
    let d1 : Block = record d {
      sectors = update d.sectors (start + i) (λ o. memory (page + i * block_sector_size + o));
      write_cnt = (d.write_cnt + 1) % 2 ^ 64;
    } in
    elim (Bool-cases (ltb (start + i) d.size)) [
      | inl inside ↦ elim (Bool-cases (is_foreign d.type)) [
        | inl foreign_ ↦ rw (at, inside, foreign_) refl
        | inr ours ↦
            ap
              (λ q. block_write d q (λ o. memory (page + i * block_sector_size + o)) >>= λ d2.
                write_sectors n d2 memory page start (i + 1))
              at
            ∙ some->>= _ _ _ (
                block_write-inside d (start + i) (λ o. memory (page + i * block_sector_size + o))
                  inside ours)
            ∙ write_sectors-panics n d1 memory page start (i + 1) (omega arith) (ground arith)
                (omega arith)
      ]
      | inr past ↦ rw (at, past) refl
    ]

-- The bytes of the sectors are in memory, from `page + i * 512` on.
pub record Loaded (page start i n : ℕ) (d d' : Block) (memory memory' : ℕ → ℕ) : Type 0 where
  pub sectors : d'.sectors ≡ d.sectors
  pub size : d'.size ≡ d.size
  pub type : d'.type ≡ d.type
  pub bytes :
      (a : ℕ)
      → memory' a ≡ (
          if leb (page + i * block_sector_size) a && ltb a (page + (i + n) * block_sector_size)
          then d.sectors (start + (a - page) / block_sector_size) ((a - page) % block_sector_size)
          else memory a)

pub read_sectors-Loaded :
    (n : ℕ) (d : Block) (memory : ℕ → ℕ) (page start i : ℕ)
    → start + i + n ≤ d.size
    → d.size < 2 ^ 32
    → (d' : Block) × (memory' : ℕ → ℕ) × (read_sectors n d memory page start i ≡ some (d', memory'))
      × Loaded page start i n d d' memory memory'
unfolding read_sectors
read_sectors-Loaded zero d memory page start i h small = (
  d,
  memory,
  refl,
  record { sectors = refl; size = refl; type = refl; bytes = λ a. ground arith },
)
read_sectors-Loaded (suc n) d memory page start i h small =
    let at : (start + i) % 2 ^ 32 ≡ start + i = omega arith in
    let d1 : Block = record d { read_cnt = (d.read_cnt + 1) % 2 ^ 64 } in
    let memory1 : ℕ → ℕ =
      copied memory (page + i * block_sector_size) (d.sectors (start + i)) 0 block_sector_size in
    let (d', memory', e, z) =
      read_sectors-Loaded n d1 memory1 page start (i + 1) (omega arith) small in
    (
      d',
      memory',
      rw at (some->>= _ _ _ (block_read-inside d (start + i) (ground arith))) ∙ e,
      record {
        sectors = z.sectors;
        size = z.size;
        type = z.type;
        bytes = λ a.
            let here : page + i * block_sector_size ≤ a
                → a < page + i * block_sector_size + block_sector_size
                → d.sectors (start + i) (0 + (a - (page + i * block_sector_size)))
                  ≡ d.sectors (start + (a - page) / block_sector_size)
                      ((a - page) % block_sector_size) =
              λ low high.
                let sector : start + i ≡ start + (a - page) / block_sector_size = omega arith in
                let ofs : 0 + (a - (page + i * block_sector_size))
                    ≡ (a - page) % block_sector_size =
                  omega arith in
                ap (d.sectors (start + i)) ofs
                ∙ ap (λ q. d.sectors q ((a - page) % block_sector_size)) sector in
            ground (arith, z.bytes a, here);
      },
    )
