-- ===== src/Swap/Tests.antt =====
-- A swap device of sixteen sectors, all free.
use project_os.Base.{
  ℕ, ◌+◌, ◌/◌, ◌%◌, ◌≤◌, ◌<◌, ◌≡◌, ◌⊎◌, refl, ap, ◌∙◌, false, none, some, [], ◌∷◌, arith, ◌==◌,
  get_or,
}
use project_os.Base.Bits.{bit, bit-zero}
use project_os.Bitmap.{Bitmap}
use project_os.Bitmap.View.{IsValid, holds}
use project_os.Bitmap.Scan.{IsFirst, NoGroup}
use project_os.FileSystem.Device.{BlockType}
use project_os.Swap.{Swap, sector_count, write_to_swap, read_from_swap, swap_out, lookup_swap}
use project_os.Swap.Slots.{Written, write_to_swap-Written, read_from_swap-swap_out}

abbrev free_slots : Bitmap
free_slots = record { bit_cnt = 64; bits = 0 ∷ 0 ∷ [] }

abbrev sample : Swap
sample = record {
  device = record {
    type = BlockType.swap;
    size = 16;
    sectors = λ s o. 0;
    read_cnt = 0;
    write_cnt = 0;
  };
  bmap = free_slots;
  swap_table = [];
  memory = λ a. a % 256;
}

free_slots-IsValid : IsValid free_slots
free_slots-IsValid = record { small = omega arith; stored = omega arith; words = omega arith }

is_free : (j : ℕ) → j < 8 → holds free_slots j ≡ false
unfolding holds
is_free j h =
    let word : j / 32 ≡ 0 = omega arith in
    ap (λ q. bit (get_or (0 ∷ 0 ∷ []) q 0) (j % 32) == 1) word
    ∙ ap (λ b. b == 1) (bit-zero (j % 32))

free_slots-IsFirst : IsFirst free_slots 0 sector_count false 0
free_slots-IsFirst = record {
  after = omega arith;
  fits = omega arith;
  group = λ j p q. is_free j q;
  first = λ k p q. absurd (omega arith);
}

absent : lookup_swap sample.swap_table 134512640 2 ≡ none
unfolding lookup_swap
absent = refl

write_to_swap-Written_example :
    ((start : ℕ) × (sw' : Swap) × (write_to_swap sample 8192 ≡ some (start, sw'))
      × (start + sector_count ≤ 16)
      × Written sample 8192 start sw')
    ⊎ ((write_to_swap sample 8192 ≡ none)
        × (NoGroup free_slots 0 sector_count false
            ⊎ ((start : ℕ) × IsFirst free_slots 0 sector_count false start
                × (16 < start + sector_count))))
write_to_swap-Written_example =
    write_to_swap-Written sample 8192 free_slots-IsValid (omega arith) (omega arith) refl

read_from_swap-swap_out_example :
    (sw1 sw2 : Swap) × (swap_out sample 2 134512640 8192 ≡ some sw1)
    × (read_from_swap (record sw1 { memory = λ _. 7 }) 2 134512640 12288 ≡ some sw2)
    × ((k : ℕ) → k < 4096 → sw2.memory (12288 + k) ≡ sample.memory (8192 + k))
    × ((j : ℕ) → holds sw2.bmap j ≡ holds free_slots j)
    × (sw2.swap_table ≡ [])
read_from_swap-swap_out_example =
    read_from_swap-swap_out sample 2 134512640 8192 12288 free_slots-IsValid (omega arith)
      (omega arith) refl 0 (λ _. 7) free_slots-IsFirst (omega arith) absent
