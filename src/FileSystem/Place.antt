-- ===== src/FileSystem/Place.antt =====
-- Where the bytes of an inode lie on its device, and what ends the loops of the transfers.
use project_os.Base.{
  ℕ, zero, suc, ◌+◌, ◌/◌, ◌%◌, ◌^◌, ◌≤◌, ◌<◌, ◌≡◌, ◌⊎◌, ◌∙◌, inl, inr, true, false, Option, some,
  ltb, arith, some->>=, assert-true, assert-not, update,
}
use project_os.FileSystem.Device.{Block, is_foreign, block_read, block_write, block_sector_size}
use project_os.FileSystem.Inode.{
  Inode, Transfer, Round, byte_to_sector, bytes_to_sectors, inode_length, rounds, finished, again,
}

-- The sectors of the inode lie on the device, and a device has less than 2 ^ 32 sectors.
pub record Fits (i : Inode) (d : Block) : Type 0 where
  pub inside : i.contents.start + bytes_to_sectors (inode_length i) ≤ d.size
  pub small : d.size < 2 ^ 32
  pub ours : is_foreign d.type ≡ false

-- The byte at a position of the file.
abbrev pub byte_at : Inode → Block → (pos : ℕ) → ℕ
byte_at i d pos = d.sectors (i.contents.start + pos / block_sector_size) (pos % block_sector_size)

-- A position of the file has its sector on the device.
pub byte_to_sector_lem :
    (i : Inode) (d : Block) (pos : ℕ)
    → Fits i d
    → pos < inode_length i
    → (byte_to_sector i pos ≡ i.contents.start + pos / block_sector_size)
      × (ltb (byte_to_sector i pos) d.size ≡ true)
byte_to_sector_lem i d pos f h =
    (ground (arith, f.inside, f.small), ground (arith, f.inside, f.small))

-- Access to a sector of the device.
pub block_read-inside :
    (d : Block) (sector : ℕ)
    → ltb sector d.size ≡ true
    → block_read d sector
      ≡ some (record d { read_cnt = (d.read_cnt + 1) % 2 ^ 64 }, d.sectors sector)
block_read-inside d sector h = assert-true _ _ h

pub block_write-inside :
    (d : Block) (sector : ℕ) (bytes : ℕ → ℕ)
    → ltb sector d.size ≡ true
    → is_foreign d.type ≡ false
    → block_write d sector bytes
      ≡ some (record d {
        sectors = update d.sectors sector bytes;
        write_cnt = (d.write_cnt + 1) % 2 ^ 64;
      })
block_write-inside d sector bytes h ours = assert-true _ _ h ∙ assert-not _ _ ours

module _ (round : Transfer → Option Round) (P : Transfer → Type 0)
    (Q : Transfer → Transfer → Type 0)
    (each : (t : Transfer)
      → P t
      → ((round t ≡ some (finished t)) × Q t t)
        ⊎ ((t1 : Transfer) × (round t ≡ some (again t1))
            × (t1.size < t.size)
            × P t1
            × ((t' : Transfer) → Q t1 t' → Q t t'))) where
  -- Rounds that move at least a byte each come to an end.
  pub rounds-Ends :
      (fuel : ℕ) (t : Transfer)
      → P t
      → t.size < fuel
      → (t' : Transfer) × (rounds round fuel t ≡ some t') × Q t t'
  unfolding rounds
  rounds-Ends zero t p h = let none_left : ⊥ = omega arith in elim none_left [ ]
  rounds-Ends (suc fuel) t p h = elim (each t p) [
    | inl (e, q) ↦ (t, some->>= _ _ _ e, q)
    | inr (t1, e, less, p1, more) ↦
        let (t', e', q) = rounds-Ends fuel t1 p1 (omega arith) in
        (t', some->>= _ _ _ e ∙ e', more t' q)
  ]
