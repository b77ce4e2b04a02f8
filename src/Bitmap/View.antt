-- ===== src/Bitmap/View.antt =====
-- A bitmap seen as a function from bit numbers to Booleans, and its representation invariant.
use native.Mathlib.Nat.{one-le-pow, pow-le-pow_right}
use project_os.Base.{
  ℕ, zero, suc, ◌*◌, ◌%◌, ◌^◌, ◌≤◌, ◌<◌, ◌≡◌, refl, ap, Bool, not, some, List, [], ◌∷◌, arith, ◌==◌,
  if◌then◌else◌, length, get_elem?, get_or, set, lt→ltb,
}
use project_os.Base.Bits.{bit, bit-lt, bit_and_pow}
use project_os.Bitmap.{Bitmap, elem_idx, bit_mask, bitmap_test}

-- Every element is a word.
abbrev pub AllWords : List ℕ → Type 0
AllWords [] = Unit
AllWords (w ∷ ws) = (w < 2 ^ 32) × AllWords ws

-- There are elements for all the bits.
pub record IsValid (b : Bitmap) : Type 0 where
  pub small : b.bit_cnt < 2 ^ 32
  pub stored : b.bit_cnt ≤ 32 * length b.bits
  pub words : AllWords b.bits

-- The element that holds bit `j`, and the bit.
abbrev pub word_of : Bitmap → ℕ → ℕ
word_of b j = get_or b.bits (elem_idx j) 0

abbrev pub bit_of : Bitmap → ℕ → ℕ
bit_of b j = bit (word_of b j) (j % 32)

unfoldable pub holds : Bitmap → ℕ → Bool
holds b j = bit_of b j == 1

pub get_elem?_in : (ws : List ℕ) (i : ℕ) → i < length ws → get_elem? ws i ≡ some (get_or ws i 0)
get_elem?_in [] i h = elim h [ ]
get_elem?_in (w ∷ ws) zero h = refl
get_elem?_in (w ∷ ws) (suc i) h = get_elem?_in ws i (omega arith)

pub get_or-AllWords : (ws : List ℕ) (i : ℕ) → AllWords ws → get_or ws i 0 < 2 ^ 32
get_or-AllWords [] i h = omega arith
get_or-AllWords (w ∷ ws) zero h = h.0
get_or-AllWords (w ∷ ws) (suc i) h = get_or-AllWords ws i h.1

pub set-AllWords : (ws : List ℕ) (i v : ℕ) → v < 2 ^ 32 → AllWords ws → AllWords (set ws i v)
set-AllWords [] i v k h = tt
set-AllWords (w ∷ ws) zero v k h = (k, h.1)
set-AllWords (w ∷ ws) (suc i) v k h = (h.0, set-AllWords ws i v k h.1)

pub get_or-set :
    (ws : List ℕ) (i j v : ℕ)
    → i < length ws
    → get_or (set ws i v) j 0 ≡ (if i == j then v else get_or ws j 0)
get_or-set [] i j v h = elim h [ ]
get_or-set (w ∷ ws) zero zero v h = refl
get_or-set (w ∷ ws) zero (suc j) v h = ground arith
get_or-set (w ∷ ws) (suc i) zero v h = ground arith
get_or-set (w ∷ ws) (suc i) (suc j) v h = ground (arith, get_or-set ws i j v (omega arith))

pub mask-lt : (j : ℕ) → bit_mask j < 2 ^ 32
mask-lt j =
    let below : 2 ^ (j % 32) ≤ 2 ^ 31 =
      pow-le-pow_right {n = 2} (omega arith) {j = 31} (omega arith) in
    omega arith

masked : (w i : ℕ) → (w' : ℕ) → w' ≡ bit w i * 2 ^ i → not (w' == 0) ≡ (bit w i == 1)
masked w i w' e = grind (arith, bit-lt i w, one-le-pow i 2)

-- Within its size a valid bitmap answers the test of a bit by its view, and does not panic.
pub bitmap_test-holds :
    (b : Bitmap) (idx : ℕ) → IsValid b → idx < b.bit_cnt → bitmap_test b idx ≡ some (holds b idx)
unfolding bitmap_test holds
bitmap_test-holds b idx v h =
    rw (lt→ltb _ _ h, get_elem?_in b.bits (elem_idx idx) (omega arith))
      (ap some (masked (word_of b idx) (idx % 32) _ (bit_and_pow (idx % 32) (word_of b idx))))
