-- ===== src/Bitmap/Range.antt =====
-- The functions on a range of bits: `bitmap_set_multiple`, `bitmap_count`, `bitmap_contains` and
-- the tests built on it.
use native.Mathlib.Decide.{ℕ_discrete}
use native.Mathlib.Nat.{add-zero}
use project_os.Base.{
  ℕ, zero, suc, ◌+◌, ◌^◌, ◌≤◌, ◌<◌, ◌≡◌, ◌⊎◌, refl, ◌∙◌, ap, inl, inr, Bool, true, false, not, ◌&&◌,
  Option, none, some, arith, ltb, leb, if◌then◌else◌, le→leb, Bool-cases,
}
use project_os.Bitmap.{
  Bitmap, add_size, check_range, set_loop, bitmap_set_multiple, same, count_loop, bitmap_count,
  contains_loop, bitmap_contains,
}
use project_os.Bitmap.View.{IsValid, holds, bitmap_test-holds}
use project_os.Bitmap.Single.{bitmap_set-Changed}

abbrev pub is_within : (start cnt j : ℕ) → Bool
is_within start cnt j = leb start j && ltb j (start + cnt)

-- `b'` is `b` but for the `cnt` bits from `start` on, which are all `value` now.
pub record Filled (b b' : Bitmap) (start cnt : ℕ) (value : Bool) : Type 0 where
  pub valid : IsValid b'
  pub size : b'.bit_cnt ≡ b.bit_cnt
  pub view : (j : ℕ) → holds b' j ≡ (if is_within start cnt j then value else holds b j)

add_size-small : (a b : ℕ) → a + b < 2 ^ 32 → add_size a b ≡ a + b
add_size-small a b h = omega arith

set_loop-Filled :
    (n : ℕ) (b : Bitmap) (start i : ℕ) (value : Bool)
    → IsValid b
    → start + i + n ≤ b.bit_cnt
    → (b' : Bitmap) × (set_loop n b start i value ≡ some b') × Filled b b' (start + i) n value
unfolding set_loop
set_loop-Filled zero b start i value v h =
    (b, refl, record { valid = v; size = refl; view = λ j. ground arith })
set_loop-Filled (suc n) b start i value v h =
    let small : start + i < 2 ^ 32 = omega (arith, v.small) in
    let (b1, e1, c1) = bitmap_set-Changed b (start + i) v (omega arith) value in
    let (b2, e2, c2) = set_loop-Filled n b1 start (i + 1) value c1.valid (omega (arith, c1.size)) in
    (
      b2,
      rw (add_size-small start i small, e1) e2,
      record {
        valid = c2.valid;
        size = c2.size ∙ c1.size;
        view = λ j. ground (arith, c1.view j, c2.view j);
      },
    )

module _ (b : Bitmap) (start cnt : ℕ) (v : IsValid b) (h : start + cnt ≤ b.bit_cnt) where
  check_range-passes : check_range b start cnt ≡ some tt
  unfolding check_range
  check_range-passes = rw (
    le→leb start b.bit_cnt (omega arith),
    le→leb (add_size start cnt) b.bit_cnt (omega (arith, v.small)),
  )

  -- Filling a range within the size of a valid bitmap succeeds, keeps the bitmap valid and of its
  -- size, and sets the bits of the range to the value and changes no other.
  pub bitmap_set_multiple-Filled :
      (value : Bool)
      → (b' : Bitmap) × (bitmap_set_multiple b start cnt value ≡ some b')
        × Filled b b' start cnt value
  unfolding bitmap_set_multiple
  bitmap_set_multiple-Filled value =
      let (b', e, f) = set_loop-Filled cnt b start 0 value v (omega arith) in
      (
        b',
        rw check_range-passes e,
        record { valid = f.valid; size = f.size; view = λ j. ground (arith, f.view j) },
      )

abbrev pub agreement : Bool → Bool → ℕ
agreement true true = 1
agreement true false = 0
agreement false true = 0
agreement false false = 1

-- How many of the `n` bits from `i` on are `value`.
abbrev pub holding : (ℕ → Bool) → (i n : ℕ) → Bool → ℕ
holding p i zero value = 0
holding p i (suc n) value = agreement (p i) value + holding p (i + 1) n value

-- A range that begins past the end fails an assertion.
pub bitmap_set_multiple-past :
    (b : Bitmap) (start cnt : ℕ) (value : Bool)
    → b.bit_cnt < start
    → bitmap_set_multiple b start cnt value ≡ none
unfolding bitmap_set_multiple check_range
bitmap_set_multiple-past b start cnt value h =
    let past : leb start b.bit_cnt ≡ false = ground arith in rw past refl

count_loop-holding :
    (n : ℕ) (b : Bitmap) (start i : ℕ) (value : Bool) (k : ℕ)
    → IsValid b
    → start + i + n ≤ b.bit_cnt
    → count_loop n b start i value k ≡ some (k + holding (holds b) (start + i) n value)
unfolding count_loop same
count_loop-holding zero b start i value k v h = ap some (omega arith)
count_loop-holding (suc n) b start i value k v h =
    let small : start + i < 2 ^ 32 = omega (arith, v.small) in
    rw (add_size-small start i small, bitmap_test-holds b (start + i) v (omega arith))
      (count_loop-holding n b start (i + 1) value _ v (omega arith) ∙ ap some (ground arith))

-- A range of a view in which `value` occurs, with the place.
abbrev pub Occurs : (ℕ → Bool) → (start cnt : ℕ) → Bool → Type 0
Occurs p start cnt value = (j : ℕ) × (start ≤ j) × (j < start + cnt) × (p j ≡ value)

-- A range of a view that is `value` throughout.
abbrev pub AllAre : (ℕ → Bool) → (start cnt : ℕ) → Bool → Type 0
AllAre p start cnt value = (j : ℕ) → start ≤ j → j < start + cnt → p j ≡ value

-- What a search for `value` in a range tells.
abbrev pub Finds : (ℕ → Bool) → (start cnt : ℕ) → Bool → Option Bool → Type 0
Finds p start cnt value r =
    ((r ≡ some true) × Occurs p start cnt value)
    ⊎ ((r ≡ some false) × AllAre p start cnt (not value))

same-true : (a c : Bool) → same a c ≡ true → a ≡ c
unfolding same
same-true true c h = ground arith
same-true false c h = ground arith

same-false : (a c : Bool) → same a c ≡ false → a ≡ not c
unfolding same
same-false true c h = ground arith
same-false false c h = ground arith

contains_loop-Finds :
    (n : ℕ) (b : Bitmap) (start i : ℕ) (value : Bool)
    → IsValid b
    → start + i + n ≤ b.bit_cnt
    → Finds (holds b) (start + i) n value (contains_loop n b start i value)
unfolding contains_loop
contains_loop-Finds zero b start i value v h = inr (refl, λ j p q. absurd (omega arith))
contains_loop-Finds (suc n) b start i value v h =
    let small : start + i < 2 ^ 32 = omega (arith, v.small) in
    rw (add_size-small start i small, bitmap_test-holds b (start + i) v (omega arith))
      (elim (Bool-cases (same (holds b (start + i)) value)) [
        | inl hit ↦
            rw hit (inl (refl, (start + i, omega arith, omega arith, same-true _ value hit)))
        | inr miss ↦ rw miss (elim (contains_loop-Finds n b start (i + 1) value v (omega arith)) [
          | inl (e, (j, p, q, t)) ↦ inl (e, (j, omega arith, omega arith, t))
          | inr (e, all) ↦ inr (e, later miss all)
        ])
      ])
  where
    later :
        same (holds b (start + i)) value ≡ false
        → AllAre (holds b) (start + (i + 1)) n (not value)
        → AllAre (holds b) (start + i) (suc n) (not value)
    later miss all j p q = elim (ℕ_discrete j (start + i)) [
      | yes e ↦ rw e (same-false _ value miss)
      | no ne ↦ all j (omega arith) (omega arith)
    ]

module _ (b : Bitmap) (start cnt : ℕ) (v : IsValid b) (h : start + cnt ≤ b.bit_cnt) where
  -- `bitmap_count` of a range within the size of a valid bitmap returns how many of its bits are
  -- `value`.
  pub bitmap_count-holding :
      (value : Bool) → bitmap_count b start cnt value ≡ some (holding (holds b) start cnt value)
  unfolding bitmap_count
  bitmap_count-holding value = rw (check_range-passes b start cnt v h) (
      count_loop-holding cnt b start 0 value 0 v (omega arith)
      ∙ ap some (rw add-zero (omega arith)))

  -- `bitmap_contains` of a range within the size of a valid bitmap returns true, and `value` occurs
  -- in the range, or false, and every bit of the range is the other value.
  pub bitmap_contains-Finds :
      (value : Bool) → Finds (holds b) start cnt value (bitmap_contains b start cnt value)
  unfolding bitmap_contains
  bitmap_contains-Finds value =
      rw (check_range-passes b start cnt v h)
        (rw add-zero at (contains_loop-Finds cnt b start 0 value v (omega arith)))
