-- ===== src/Bitmap/Single.antt =====
-- `bitmap_mark`, `bitmap_reset`, `bitmap_flip` and `bitmap_set`: one bit of the view.
use Prim.Native.Nat.{bit_and, bit_or, bit_xor}
use project_os.Base.{
  ℕ, ◌-◌, ◌%◌, ◌^◌, ◌<◌, ◌≡◌, ◌≢◌, refl, sym, Bool, true, false, not, some, arith, ◌==◌,
  if◌then◌else◌, set, lt→ltb, length-set,
}
use project_os.Base.Bits.{
  bit, bit-lt, complement, bit-bit_or, bit-bit_and, bit-bit_xor, bit-pow_self, bit-pow_ne,
  bit-complement, bit_or-lt, bit_xor-lt, bit_and-le,
}
use project_os.Bitmap.{
  Bitmap, elem_idx, update_elem, bitmap_mark, bitmap_reset, bitmap_flip, bitmap_set,
}
use project_os.Bitmap.View.{
  IsValid, word_of, bit_of, holds, get_elem?_in, get_or-AllWords, set-AllWords, get_or-set, mask-lt,
}

-- `b'` is `b` but for its view at `idx`, which is `value` now.
pub record Changed (b b' : Bitmap) (idx : ℕ) (value : Bool) : Type 0 where
  pub valid : IsValid b'
  pub size : b'.bit_cnt ≡ b.bit_cnt
  pub view : (j : ℕ) → holds b' j ≡ (if j == idx then value else holds b j)

-- `f` changes bit `k` of a word to `g` of it, and no other bit.
record Masks (f g : ℕ → ℕ) (k : ℕ) : Type 0 where
  hit : (w : ℕ) → bit (f w) k ≡ g (bit w k)
  miss : (w i : ℕ) → i < 32 → i ≢ k → bit (f w) i ≡ bit w i
  fits : (w : ℕ) → w < 2 ^ 32 → f w < 2 ^ 32

pow-fits : (k : ℕ) → k < 32 → 2 ^ k < 2 ^ 32
pow-fits k h = rw (mod_self k h) at (mask-lt k)
  where
    mod_self : (k : ℕ) → k < 32 → k % 32 ≡ k
    mod_self k h = omega arith

or-Masks : (k : ℕ) → k < 32 → Masks (λ w. bit_or w (2 ^ k)) (λ _. 1) k
or-Masks k h = record {
  hit = λ w. omega (arith, bit-bit_or k w (2 ^ k), bit-pow_self k, bit-lt k w);
  miss = λ w i h ne. omega (arith, bit-bit_or i w (2 ^ k), bit-pow_ne k i (λ e. ne (sym e)));
  fits = λ w lt. bit_or-lt 32 w (2 ^ k) lt (pow-fits k h);
}

and-Masks : (k : ℕ) → k < 32 → Masks (λ w. bit_and w (complement 32 (2 ^ k))) (λ _. 0) k
and-Masks k h = record {
  hit = λ w. omega (
    arith,
    bit-bit_and k w (complement 32 (2 ^ k)),
    bit-complement 32 k (2 ^ k) (pow-fits k h) h,
    bit-pow_self k,
  );
  miss = λ w i lt ne. omega (
    arith,
    bit-bit_and i w (complement 32 (2 ^ k)),
    bit-complement 32 i (2 ^ k) (pow-fits k h) lt,
    bit-pow_ne k i (λ e. ne (sym e)),
    bit-lt i w,
  );
  fits = λ w lt. omega (arith, bit_and-le w w (complement 32 (2 ^ k)) (omega arith));
}

xor-Masks : (k : ℕ) → k < 32 → Masks (λ w. bit_xor w (2 ^ k)) (λ x. 1 - x) k
xor-Masks k h = record {
  hit = λ w. omega (arith, bit-bit_xor k w (2 ^ k), bit-pow_self k, bit-lt k w);
  miss = λ w i h ne.
      omega (arith, bit-bit_xor i w (2 ^ k), bit-pow_ne k i (λ e. ne (sym e)), bit-lt i w);
  fits = λ w lt. bit_xor-lt 32 w (2 ^ k) lt (pow-fits k h);
}

module _ (f g : ℕ → ℕ) (b : Bitmap) (idx : ℕ) (v : IsValid b) (h : idx < b.bit_cnt) where
  after : Bitmap
  after = record b { bits = set b.bits (elem_idx idx) (f (word_of b idx)) }

  update_elem-after : update_elem f b idx ≡ some after
  unfolding update_elem after
  update_elem-after = rw (get_elem?_in b.bits (elem_idx idx) (omega arith)) refl

  after-IsValid : Masks f g (idx % 32) → IsValid after
  unfolding after
  after-IsValid m = record {
    small = v.small;
    stored = omega (arith, v.stored, length-set b.bits (elem_idx idx) (f (word_of b idx)));
    words =
        set-AllWords b.bits (elem_idx idx) (f (word_of b idx))
          (m.fits (word_of b idx) (get_or-AllWords b.bits (elem_idx idx) v.words)) v.words;
  }

  after_bits :
      Masks f g (idx % 32)
      → (j : ℕ) → bit_of after j ≡ (if j == idx then g (bit_of b idx) else bit_of b j)
  unfolding after
  after_bits m j = ground (
    arith,
    get_or-set b.bits (elem_idx idx) (elem_idx j) (f (word_of b idx)) (omega arith),
    m.hit (word_of b idx),
    m.miss (word_of b idx) (j % 32),
  )

  update_elem-Changed :
      (value : Bool)
      → Masks f g (idx % 32)
      → (g (bit_of b idx) == 1) ≡ value
      → (b' : Bitmap) × (update_elem f b idx ≡ some b') × Changed b b' idx value
  unfolding holds after
  update_elem-Changed value m e = (
    after,
    update_elem-after,
    record { valid = after-IsValid m; size = refl; view = λ j. ground (arith, after_bits m j) },
  )

module _ (b : Bitmap) (idx : ℕ) (v : IsValid b) (h : idx < b.bit_cnt) where
  pub bitmap_mark-Changed : (b' : Bitmap) × (bitmap_mark b idx ≡ some b') × Changed b b' idx true
  unfolding bitmap_mark
  bitmap_mark-Changed =
      update_elem-Changed _ _ b idx v h true (or-Masks (idx % 32) (omega arith)) refl

  pub bitmap_reset-Changed : (b' : Bitmap) × (bitmap_reset b idx ≡ some b') × Changed b b' idx false
  unfolding bitmap_reset
  bitmap_reset-Changed =
      update_elem-Changed _ _ b idx v h false (and-Masks (idx % 32) (omega arith)) refl

  -- `bitmap_flip` of a bit within the size of a valid bitmap succeeds, keeps the invariant and the
  -- size, and negates that bit of the view and no other.
  pub bitmap_flip-Changed :
      (b' : Bitmap) × (bitmap_flip b idx ≡ some b') × Changed b b' idx (not (holds b idx))
  unfolding bitmap_flip holds
  bitmap_flip-Changed =
      update_elem-Changed _ _ b idx v h _ (xor-Masks (idx % 32) (omega arith))
        (ground (arith, bit-lt (idx % 32) (word_of b idx)))

  -- `bitmap_set` of a bit within the size of a valid bitmap succeeds, keeps the invariant and the
  -- size, and changes that bit of the view and no other.
  pub bitmap_set-Changed :
      (value : Bool) → (b' : Bitmap) × (bitmap_set b idx value ≡ some b') × Changed b b' idx value
  unfolding bitmap_set
  bitmap_set-Changed true = rw (lt→ltb _ _ h) bitmap_mark-Changed
  bitmap_set-Changed false = rw (lt→ltb _ _ h) bitmap_reset-Changed
