-- ===== src/Swap/Slots.antt =====
-- Pages that go to the swap device and come back.
use project_os.Base.{
  ℕ, ◌+◌, ◌-◌, ◌*◌, ◌/◌, ◌%◌, ◌^◌, ◌≤◌, ◌<◌, ◌≡◌, ◌⊎◌, refl, ◌∙◌, ap, inl, inr, true, false, ◌&&◌,
  none, some, List, [], ◌∷◌, ◌++◌, arith, ltb, leb, ◌==◌, if◌then◌else◌, Bool-cases, some->>=,
  none->>=, if-false, if-true,
}
use project_os.Bitmap.{Bitmap}
use project_os.Bitmap.View.{IsValid, holds}
use project_os.Bitmap.Range.{Filled, bitmap_set_multiple-Filled, bitmap_set_multiple-past}
use project_os.Bitmap.Scan.{IsFirst, NoGroup, bitmap_scan-Scans}
use project_os.FileSystem.Device.{is_foreign, block_sector_size}
use project_os.Swap.{
  Swap, SwapEntry, sector_count, write_to_swap, lookup_swap, remove_found, read_from_swap, swap_out,
}
use project_os.Swap.Sectors.{
  Stored, write_sectors-Stored, write_sectors-panics, read_sectors-Loaded,
}

-- After a page has been written to a free slot.
pub record Written (sw : Swap) (page start : ℕ) (sw' : Swap) : Type 0 where
  pub first : IsFirst sw.bmap 0 sector_count false start
  pub taken : Filled sw.bmap sw'.bmap start sector_count true
  pub stored : Stored sw.memory page start 0 sector_count sw.device sw'.device
  pub table : sw'.swap_table ≡ sw.swap_table
  pub memory : sw'.memory ≡ sw.memory

module _ (sw : Swap) (page : ℕ) (v : IsValid sw.bmap) (large : sw.bmap.bit_cnt < 2 ^ 32 - 1)
    (small : sw.device.size < 2 ^ 32) (ours : is_foreign sw.device.type ≡ false) where
  -- `write_to_swap` takes the first free slot of eight sectors if it lies on the device, and the
  -- page is in these sectors and no other byte of the device has changed. If that slot does not lie
  -- on the device, or there is none, the kernel panics. The map is valid.
  pub write_to_swap-Written :
      ((start : ℕ) × (sw' : Swap) × (write_to_swap sw page ≡ some (start, sw'))
        × (start + sector_count ≤ sw.device.size)
        × Written sw page start sw')
      ⊎ ((write_to_swap sw page ≡ none)
          × (NoGroup sw.bmap 0 sector_count false
              ⊎ ((start : ℕ) × IsFirst sw.bmap 0 sector_count false start
                  × (sw.device.size < start + sector_count))))
  unfolding write_to_swap
  write_to_swap-Written = elim (bitmap_scan-Scans sw.bmap sector_count false v 0 (omega arith)) [
    | inr (e, full) ↦ inr (
      some->>= _ _ _ e
          ∙ none->>= _ _ (bitmap_set_multiple-past sw.bmap (2 ^ 32 - 1) sector_count true large),
      inl full,
    )
    | inl (start, e, first) ↦
        let (bmap, e1, taken) =
          bitmap_set_multiple-Filled sw.bmap start sector_count v first.fits true in
        elim (Bool-cases (leb (start + sector_count) sw.device.size)) [
          | inl fits ↦
              let (d, e2, stored) =
                write_sectors-Stored sector_count sw.device sw.memory page start 0 (ground arith)
                  small ours in
              inl (
                start,
                record sw { bmap = bmap; device = d },
                some->>= _ _ _ e ∙ some->>= _ _ _ e1 ∙ some->>= _ _ _ e2,
                ground arith,
                record {
                  first = first;
                  taken = taken;
                  stored = stored;
                  table = refl;
                  memory = refl;
                },
              )
          | inr past ↦
              let fails =
                write_sectors-panics sector_count sw.device sw.memory page start 0 (ground arith)
                  (omega arith) (omega (arith, first.fits, v.small)) in
              inr (
                some->>= _ _ _ e ∙ some->>= _ _ _ e1 ∙ none->>= _ _ fails,
                inr (start, first, ground arith),
              )
        ]
  ]

-- The first place is one.
IsFirst-unique :
    (b : Bitmap) (cnt i j : ℕ) → IsFirst b 0 cnt false i → IsFirst b 0 cnt false j → i ≤ j
IsFirst-unique b cnt i j f g = elim (Bool-cases (ltb j i)) [
  | inr le ↦ ground arith
  | inl less ↦
      let (k, p, q, t) = f.first j (omega arith) (ground arith) in let free = g.group k p q in cc
]

-- An entry that is put at the end is found again, where there was none before.
lookup_swap-last :
    (es : List SwapEntry) (e : SwapEntry)
    → lookup_swap es e.uspage e.t_blongs_to ≡ none
    → (lookup_swap (es ++ (e ∷ [])) e.uspage e.t_blongs_to ≡ some e)
      × (remove_found (es ++ (e ∷ [])) e.uspage e.t_blongs_to ≡ es)
unfolding lookup_swap remove_found
lookup_swap-last [] e h = (ground arith, ground arith)
lookup_swap-last (x ∷ xs) e h =
    elim (Bool-cases (x.uspage == e.uspage && x.t_blongs_to == e.t_blongs_to)) [
      | inl hit ↦ ground (arith, h)
      | inr miss ↦
          let (found, rest) = lookup_swap-last xs e (ground (arith, h)) in
          (if-false _ _ _ miss ∙ found, if-false _ _ _ miss ∙ ap (λ l. x ∷ l) rest)
    ]

-- A byte of a page, from memory to a sector and back to memory.
page_byte :
    (start kpage kepage k : ℕ) (g : ℕ → ℕ) (s0 s1 : ℕ → ℕ → ℕ) (m m0 : ℕ → ℕ)
    → k < 4096
    → ((s o : ℕ)
        → s1 s o ≡ (
            if leb (start + 0) s && ltb s (start + 0 + sector_count)
            then g (kpage + (s - start) * block_sector_size + o)
            else s0 s o))
    → ((a : ℕ)
        → m a ≡ (
            if leb (kepage + 0 * block_sector_size) a
              && ltb a (kepage + (0 + sector_count) * block_sector_size)
            then s1 (start + (a - kepage) / block_sector_size) ((a - kepage) % block_sector_size)
            else m0 a))
    → m (kepage + k) ≡ g (kpage + k)
page_byte start kpage kepage k g s0 s1 m m0 h hs hm =
    let x : ℕ = kepage + k - kepage in
    let back : kpage
          + (start + x / block_sector_size - start) * block_sector_size
          + x % block_sector_size
        ≡ kpage + k =
      omega arith in
    let from_page = ap g back in
    let on_device =
      if-true
        (leb (start + 0) (start + x / block_sector_size)
          && ltb (start + x / block_sector_size) (start + 0 + sector_count))
        (g (
          kpage
          + (start + x / block_sector_size - start) * block_sector_size
          + x % block_sector_size))
        (s0 (start + x / block_sector_size) (x % block_sector_size)) (ground arith) in
    let in_memory =
      if-true
        (leb (kepage + 0 * block_sector_size) (kepage + k)
          && ltb (kepage + k) (kepage + (0 + sector_count) * block_sector_size))
        (s1 (start + x / block_sector_size) (x % block_sector_size)) (m0 (kepage + k))
        (ground arith) in
    hm (kepage + k)
    ∙ in_memory
    ∙ hs (start + x / block_sector_size) (x % block_sector_size)
    ∙ on_device
    ∙ from_page

module _ (sw : Swap) (owner upage kpage kepage : ℕ) (v : IsValid sw.bmap)
    (large : sw.bmap.bit_cnt < 2 ^ 32 - 1) (small : sw.device.size < 2 ^ 32)
    (ours : is_foreign sw.device.type ≡ false) where
  -- The page comes back from the sectors to which it has been written.
  come_back :
      (start : ℕ) (sw' : Swap) (memory : ℕ → ℕ)
      → start + sector_count ≤ sw.device.size
      → Written sw kpage start sw'
      → lookup_swap sw.swap_table upage owner ≡ none
      → (sw2 : Swap) × (read_from_swap
            (record sw' {
              swap_table =
                  sw'.swap_table
                  ++ (record { uspage = upage; t_blongs_to = owner; block_sector = start } ∷ []);
              memory = memory;
            })
            owner
            upage
            kepage
          ≡ some sw2)
        × ((k : ℕ) → k < 4096 → sw2.memory (kepage + k) ≡ sw.memory (kpage + k))
        × ((j : ℕ) → holds sw2.bmap j ≡ holds sw.bmap j)
        × (sw2.swap_table ≡ sw.swap_table)
  unfolding read_from_swap
  come_back start sw' memory fits w absent =
      let entry : SwapEntry = record {
        uspage = upage;
        t_blongs_to = owner;
        block_sector = start;
      } in
      let (found, gone) =
        lookup_swap-last sw'.swap_table entry
          (ap (λ l. lookup_swap l upage owner) w.table ∙ absent) in
      let (bmap, e1, freed) =
        bitmap_set_multiple-Filled sw'.bmap start sector_count w.taken.valid
          (rw w.taken.size w.first.fits) false in
      let (d, m, e2, loaded) =
        read_sectors-Loaded sector_count sw'.device memory kepage start 0
          (rw w.stored.size (omega (arith, fits))) (rw w.stored.size small) in
      (
        _,
        some->>= _ _ _ found ∙ some->>= _ _ _ e1 ∙ some->>= _ _ _ e2,
        (λ k h.
            page_byte start kpage kepage k sw.memory sw.device.sectors sw'.device.sectors m memory h
              w.stored.bytes loaded.bytes),
        (λ j. ground (arith, freed.view j, w.taken.view j, w.first.group j)),
        gone ∙ w.table,
      )

  -- A page that `swap_out` writes to the swap device comes back by `read_from_swap`, byte for byte,
  -- whatever memory holds by then, with no panic. Its slot is free again, and its entry is gone. The
  -- first free slot lies on the device, and the owner has no entry for the address yet.
  pub read_from_swap-swap_out :
      (start : ℕ) (memory : ℕ → ℕ)
      → IsFirst sw.bmap 0 sector_count false start
      → start + sector_count ≤ sw.device.size
      → lookup_swap sw.swap_table upage owner ≡ none
      → (sw1 sw2 : Swap) × (swap_out sw owner upage kpage ≡ some sw1)
        × (read_from_swap (record sw1 { memory = memory }) owner upage kepage ≡ some sw2)
        × ((k : ℕ) → k < 4096 → sw2.memory (kepage + k) ≡ sw.memory (kpage + k))
        × ((j : ℕ) → holds sw2.bmap j ≡ holds sw.bmap j)
        × (sw2.swap_table ≡ sw.swap_table)
  unfolding swap_out
  read_from_swap-swap_out start memory first fits absent =
      elim (write_to_swap-Written sw kpage v large small ours) [
        | inl (start', sw', e, fits', w) ↦
            let (sw2, e2, bytes, slots, table) = come_back start' sw' memory fits' w absent in
            (_, sw2, some->>= _ _ _ e, e2, bytes, slots, table)
        | inr (e, inl full) ↦
            let (j, p, q, t) = full start (omega arith) first.fits in
            let free = first.group j p q in let never : ⊥ = cc in absurd never
        | inr (e, inr (start', first', past)) ↦ absurd (
            omega (
              arith,
              IsFirst-unique sw.bmap sector_count start start' first first',
              IsFirst-unique sw.bmap sector_count start' start first' first,
            ))
      ]
