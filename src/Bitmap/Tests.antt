-- ===== src/Bitmap/Tests.antt =====
-- A bitmap of 40 bits in two elements, and runs of the functions on it.
use project_os.Base.{ℕ, ◌≡◌, refl, true, false, Option, none, some, [], ◌∷◌, arith}
use project_os.Bitmap.{
  Bitmap, bitmap_contains, bitmap_any, bitmap_none, bitmap_all, bitmap_scan_and_flip,
  bitmap_create_in_buf,
}
use project_os.Bitmap.View.{IsValid}
use project_os.Bitmap.Scan.{Flipped, bitmap_scan_and_flip-Flipped}

-- Bits 0, 2 and 32 are set.
abbrev sample : Bitmap
sample = record { bit_cnt = 40; bits = 5 ∷ 1 ∷ [] }

sample-IsValid : IsValid sample
sample-IsValid = record {
  small = omega arith;
  stored = omega arith;
  words = (omega arith, (omega arith, tt));
}

tests_of_ranges :
    (bitmap_any sample 3 29 ≡ some false)
    × (bitmap_none sample 3 29 ≡ some true)
    × (bitmap_all sample 2 1 ≡ some true)
    × (bitmap_any sample 3 38 ≡ none)
unfolding bitmap_any bitmap_none bitmap_all bitmap_contains
tests_of_ranges = (refl, refl, refl, refl)

-- A group of no bits is found at `start`.
scan_of_none : bitmap_scan_and_flip sample 7 0 true ≡ some (some 7, sample)
unfolding bitmap_scan_and_flip
scan_of_none = refl

create_clears : bitmap_create_in_buf 8 (255 ∷ []) 12 ≡ some (record { bit_cnt = 8; bits = 0 ∷ [] })
unfolding bitmap_create_in_buf
create_clears = refl

bitmap_scan_and_flip-Flipped_example :
    (r : Option ℕ) × (b' : Bitmap) × (bitmap_scan_and_flip sample 0 3 false ≡ some (r, b'))
    × Flipped sample 0 3 false r b'
bitmap_scan_and_flip-Flipped_example =
    bitmap_scan_and_flip-Flipped sample 0 3 false sample-IsValid (omega arith)
