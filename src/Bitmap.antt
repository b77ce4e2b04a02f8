-- ===== src/Bitmap.antt =====
-- src/lib/kernel/bitmap.c: arrays of bits, 32 to an element (`unsigned long` on i386).
-- A function returns `none` where an ASSERT fails or an element out of range is touched.
pub mod View
pub mod Single
pub mod Range
pub mod Scan
mod Tests
use Prim.Native.Nat.{bit_and, bit_or, bit_xor}
use project_os.Base.{
  ℕ, zero, suc, ◌+◌, ◌-◌, ◌*◌, ◌/◌, ◌%◌, ◌^◌, Bool, true, false, not, Option, none, some, List, ltb,
  leb, ◌==◌, if◌then◌else◌, get_elem?, set, assert, ◌>>=◌, ◌>>◌,
}
use project_os.Base.Bits.{complement}

-- `ELEM_BITS`
abbrev pub elem_bits : ℕ
elem_bits = 32

-- `size_t` addition
abbrev pub add_size : ℕ → ℕ → ℕ
add_size a b = (a + b) % 2 ^ 32

pub record Bitmap : Type 0 where
  pub bit_cnt : ℕ
  pub bits : List ℕ

abbrev pub elem_idx : ℕ → ℕ
elem_idx bit_idx = bit_idx / elem_bits

abbrev pub bit_mask : ℕ → ℕ
bit_mask bit_idx = 2 ^ (bit_idx % elem_bits)

-- `DIV_ROUND_UP (bit_cnt, ELEM_BITS)`, with the wrap of its sum.
abbrev pub elem_cnt : ℕ → ℕ
elem_cnt bit_cnt = (bit_cnt + elem_bits - 1) % 2 ^ 32 / elem_bits

abbrev pub byte_cnt : ℕ → ℕ
byte_cnt bit_cnt = 4 * elem_cnt bit_cnt

-- The update `b->bits[elem_idx (bit_idx)] = f (b->bits[elem_idx (bit_idx)])`.
update_elem : (ℕ → ℕ) → Bitmap → ℕ → Option Bitmap
update_elem f b bit_idx = do
  word ← get_elem? b.bits (elem_idx bit_idx)
  some (record b { bits = set b.bits (elem_idx bit_idx) (f word) })

pub bitmap_mark : Bitmap → ℕ → Option Bitmap
unfolding update_elem
bitmap_mark b bit_idx = update_elem (λ word. bit_or word (bit_mask bit_idx)) b bit_idx

pub bitmap_reset : Bitmap → ℕ → Option Bitmap
unfolding update_elem
bitmap_reset b bit_idx =
    update_elem (λ word. bit_and word (complement 32 (bit_mask bit_idx))) b bit_idx

pub bitmap_flip : Bitmap → ℕ → Option Bitmap
unfolding update_elem
bitmap_flip b bit_idx = update_elem (λ word. bit_xor word (bit_mask bit_idx)) b bit_idx

pub bitmap_set : Bitmap → ℕ → Bool → Option Bitmap
unfolding bitmap_mark bitmap_reset
bitmap_set b idx value = do
  assert (ltb idx b.bit_cnt)
  if value then bitmap_mark b idx else bitmap_reset b idx

pub bitmap_test : Bitmap → ℕ → Option Bool
bitmap_test b idx = do
  assert (ltb idx b.bit_cnt)
  word ← get_elem? b.bits (elem_idx idx)
  some (not (bit_and word (bit_mask idx) == 0))

-- `for (i = …; i < cnt; i++) bitmap_set (b, start + i, value);` with `n` rounds left.
set_loop : (n : ℕ) → Bitmap → (start i : ℕ) → Bool → Option Bitmap
set_loop zero b start i value = some b
set_loop (suc n) b start i value = do
  b' ← bitmap_set b (add_size start i) value
  set_loop n b' start (i + 1) value

-- The two assertions of the functions on a range.
check_range : Bitmap → ℕ → ℕ → Option (Unit {0})
check_range b start cnt = do
  assert (leb start b.bit_cnt)
  assert (leb (add_size start cnt) b.bit_cnt)

unfoldable pub bitmap_set_multiple : Bitmap → (start cnt : ℕ) → Bool → Option Bitmap
unfolding set_loop check_range bitmap_set
bitmap_set_multiple b start cnt value = do check_range b start cnt; set_loop cnt b start 0 value

pub bitmap_set_all : Bitmap → Bool → Option Bitmap
unfolding bitmap_set_multiple
bitmap_set_all b value = bitmap_set_multiple b 0 b.bit_cnt value

same : Bool → Bool → Bool
same true v = v
same false v = not v

count_loop : (n : ℕ) → Bitmap → (start i : ℕ) → Bool → (value_cnt : ℕ) → Option ℕ
count_loop zero b start i value value_cnt = some value_cnt
count_loop (suc n) b start i value value_cnt = do
  t ← bitmap_test b (add_size start i)
  count_loop n b start (i + 1) value (if same t value then value_cnt + 1 else value_cnt)

pub bitmap_count : Bitmap → (start cnt : ℕ) → Bool → Option ℕ
unfolding count_loop check_range bitmap_test same
bitmap_count b start cnt value = do check_range b start cnt; count_loop cnt b start 0 value 0

contains_loop : (n : ℕ) → Bitmap → (start i : ℕ) → Bool → Option Bool
contains_loop zero b start i value = some false
contains_loop (suc n) b start i value = do
  t ← bitmap_test b (add_size start i)
  let rest = contains_loop n b start (i + 1) value
  if same t value then some true else rest

pub bitmap_contains : Bitmap → (start cnt : ℕ) → Bool → Option Bool
unfolding contains_loop check_range bitmap_test same
bitmap_contains b start cnt value = do check_range b start cnt; contains_loop cnt b start 0 value

pub bitmap_any : Bitmap → ℕ → ℕ → Option Bool
bitmap_any b start cnt = bitmap_contains b start cnt true

pub bitmap_none : Bitmap → ℕ → ℕ → Option Bool
bitmap_none b start cnt = do found ← bitmap_contains b start cnt true; some (not found)

unfoldable pub bitmap_all : Bitmap → ℕ → ℕ → Option Bool
bitmap_all b start cnt = do found ← bitmap_contains b start cnt false; some (not found)

-- `for (i = …; i <= last; i++)` with `n` rounds left. The inner `none` is BITMAP_ERROR.
scan_loop : (n : ℕ) → Bitmap → (i cnt : ℕ) → Bool → Option (Option ℕ)
scan_loop zero b i cnt value = some none
scan_loop (suc n) b i cnt value = do
  found ← bitmap_contains b i cnt (not value)
  let rest = scan_loop n b (i + 1) cnt value
  if found then rest else some (some i)

pub bitmap_scan : Bitmap → (start cnt : ℕ) → Bool → Option (Option ℕ)
unfolding scan_loop bitmap_contains
bitmap_scan b start cnt value = do
  assert (leb start b.bit_cnt)
  if leb cnt b.bit_cnt then scan_loop (b.bit_cnt - cnt + 1 - start) b start cnt value else some none

-- What `bitmap_scan_and_flip` does with the index found.
flip_found : Bitmap → ℕ → Bool → Option ℕ → Option (Option ℕ × Bitmap)
flip_found b cnt value none = some (none, b)
flip_found b cnt value (some idx) = do
  b' ← bitmap_set_multiple b idx cnt (not value)
  some (some idx, b')

unfoldable pub bitmap_scan_and_flip : Bitmap → (start cnt : ℕ) → Bool → Option (Option ℕ × Bitmap)
unfolding bitmap_scan flip_found bitmap_set_multiple
bitmap_scan_and_flip b start cnt value = do
  found ← bitmap_scan b start cnt value
  flip_found b cnt value found

-- `bitmap_buf_size`, with a `struct bitmap` of 8 bytes.
abbrev pub bitmap_buf_size : ℕ → ℕ
bitmap_buf_size bit_cnt = add_size 8 (byte_cnt bit_cnt)

-- `block` is what the storage of the elements holds before.
unfoldable pub bitmap_create_in_buf :
    (bit_cnt : ℕ) → (block : List ℕ) → (block_size : ℕ) → Option Bitmap
unfolding bitmap_set_all
bitmap_create_in_buf bit_cnt block block_size = do
  assert (leb (bitmap_buf_size bit_cnt) block_size)
  bitmap_set_all (record { bit_cnt = bit_cnt; bits = block }) false
