-- ===== src/Bitmap/Scan.antt =====
-- `bitmap_scan` and `bitmap_scan_and_flip`: the first run of equal bits.
use native.Mathlib.Decide.{ℕ_discrete, dec_lt}
use project_os.Base.{
  ℕ, zero, suc, ◌+◌, ◌-◌, ◌≤◌, ◌<◌, ◌≡◌, ◌⊎◌, refl, inl, inr, Bool, true, false, not, Option, none,
  some, arith, leb, le→leb, leb→le, Bool-cases,
}
use project_os.Bitmap.{Bitmap, scan_loop, bitmap_scan, flip_found, bitmap_scan_and_flip}
use project_os.Bitmap.View.{IsValid, holds}
use project_os.Bitmap.Range.{
  Occurs, AllAre, bitmap_contains-Finds, Filled, bitmap_set_multiple-Filled,
}

-- `i` is the first place at or after `start` where `cnt` bits are `value`.
pub record IsFirst (b : Bitmap) (start cnt : ℕ) (value : Bool) (i : ℕ) : Type 0 where
  pub after : start ≤ i
  pub fits : i + cnt ≤ b.bit_cnt
  pub group : AllAre (holds b) i cnt value
  pub first : (k : ℕ) → start ≤ k → k < i → Occurs (holds b) k cnt (not value)

-- From `start` on no `cnt` bits in a row are `value`.
abbrev pub NoGroup : Bitmap → (start cnt : ℕ) → Bool → Type 0
NoGroup b start cnt value =
    (k : ℕ) → start ≤ k → k + cnt ≤ b.bit_cnt → Occurs (holds b) k cnt (not value)

abbrev pub Scans : Bitmap → (start cnt : ℕ) → Bool → Option (Option ℕ) → Type 0
Scans b start cnt value r =
    ((i : ℕ) × (r ≡ some (some i)) × IsFirst b start cnt value i)
    ⊎ ((r ≡ some none) × NoGroup b start cnt value)

not-not : (a : Bool) → not (not a) ≡ a
not-not true = refl
not-not false = refl

module _ (b : Bitmap) (cnt : ℕ) (value : Bool) (v : IsValid b) where
  -- One more place has failed.
  widen :
      (i : ℕ) (r : Option (Option ℕ))
      → Occurs (holds b) i cnt (not value)
      → Scans b (i + 1) cnt value r
      → Scans b i cnt value r
  widen i r miss (inl (k, e, f)) = inl (
    k,
    e,
    record {
      after = omega (arith, f.after);
      fits = f.fits;
      group = f.group;
      first = λ j p q. elim (ℕ_discrete j i) [
        | yes here ↦ rw here miss
        | no other ↦ f.first j (omega arith) q
      ];
    },
  )
  widen i r miss (inr (e, all)) = inr (
    e,
    λ j p q. elim (ℕ_discrete j i) [ yes here ↦ rw here miss | no other ↦ all j (omega arith) q ],
  )

  scan_loop-Scans :
      (n i : ℕ)
      → i + n ≡ b.bit_cnt - cnt + 1
      → cnt ≤ b.bit_cnt
      → Scans b i cnt value (scan_loop n b i cnt value)
  unfolding scan_loop
  scan_loop-Scans zero i e h = inr (refl, λ k p q. absurd (omega arith))
  scan_loop-Scans (suc n) i e h = elim (bitmap_contains-Finds b i cnt v (omega arith) (not value)) [
    | inl (found, occurs) ↦ rw found (widen i _ occurs (scan_loop-Scans n (i + 1) (omega arith) h))
    | inr (missing, all) ↦ rw missing (
        inl (
          i,
          refl,
          record {
            after = omega arith;
            fits = omega arith;
            group = rw not-not at all;
            first = λ k p q. absurd (omega arith);
          },
        ))
  ]

  in_range :
      (start : ℕ)
      → cnt ≤ b.bit_cnt
      → Scans b start cnt value (scan_loop (b.bit_cnt - cnt + 1 - start) b start cnt value)
  unfolding scan_loop
  in_range start fits = elim (dec_lt start (b.bit_cnt - cnt + 2)) [
    | yes near ↦ scan_loop-Scans (b.bit_cnt - cnt + 1 - start) start (omega arith) fits
    | no far ↦ past far
  ]
    where
      past :
          ¬ (start < b.bit_cnt - cnt + 2)
          → Scans b start cnt value (scan_loop (b.bit_cnt - cnt + 1 - start) b start cnt value)
      past far =
          let none_left : b.bit_cnt - cnt + 1 - start ≡ 0 = omega arith in
          rw (none_left, scan_loop) (inr (refl, λ k p q. absurd (omega arith)))

  -- `bitmap_scan` returns the first place at or after `start` where `cnt` bits are `value`, or
  -- BITMAP_ERROR if there is none. The bitmap is valid, and `start` is at most its size.
  pub bitmap_scan-Scans :
      (start : ℕ) → start ≤ b.bit_cnt → Scans b start cnt value (bitmap_scan b start cnt value)
  unfolding bitmap_scan
  bitmap_scan-Scans start h = elim (Bool-cases (leb cnt b.bit_cnt)) [
    | inl fits ↦ rw (le→leb _ _ h, fits) (in_range start (leb→le _ _ fits))
    | inr large ↦ rw (le→leb _ _ h, large) (inr (refl, λ k p q. absurd (ground arith)))
  ]

-- What the bitmap is after a group has been found at `i`, and if none has been found.
abbrev pub Flipped : Bitmap → (start cnt : ℕ) → Bool → Option ℕ → Bitmap → Type 0
Flipped b start cnt value (some i) b' = IsFirst b start cnt value i × Filled b b' i cnt (not value)
Flipped b start cnt value none b' = NoGroup b start cnt value × (b' ≡ b)

-- `bitmap_scan_and_flip` takes the first group of `cnt` bits that are `value` and changes them, and
-- no other bit; if there is no such group it returns BITMAP_ERROR and leaves the bitmap alone. The
-- bitmap is valid, and `start` is at most its size.
pub bitmap_scan_and_flip-Flipped :
    (b : Bitmap) (start cnt : ℕ) (value : Bool)
    → IsValid b
    → start ≤ b.bit_cnt
    → (r : Option ℕ) × (b' : Bitmap) × (bitmap_scan_and_flip b start cnt value ≡ some (r, b'))
      × Flipped b start cnt value r b'
unfolding bitmap_scan_and_flip
bitmap_scan_and_flip-Flipped b start cnt value v h =
    elim (bitmap_scan-Scans b cnt value v start h) [
      | inl (i, e, f) ↦
          let (b', e', filled) = bitmap_set_multiple-Filled b i cnt v f.fits (not value) in
          (some i, b', rw (e, flip_found, e'), (f, filled))
      | inr (e, none_there) ↦ (none, b, rw (e, flip_found), (none_there, refl))
    ]
