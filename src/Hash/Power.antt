-- ===== src/Hash/Power.antt =====
-- The number of buckets: `is_power_of_2` and the loop that looks for a power of 2.
use Prim.Native.Nat.{bit_and}
use project_os.Base.{
  ℕ, zero, suc, ◌-◌, ◌*◌, ◌/◌, ◌%◌, ◌^◌, ◌≤◌, ◌<◌, ◌≡◌, ◌≢◌, ◌↔◌, refl, ◌∙◌, ap, inl, inr, true,
  some, arith, ◌==◌, if◌then◌else◌, Bool-cases, if-true, if-false,
}
use project_os.Base.Bits.{bit_and_halves, bit_and-le, bit_and-le_right}
use project_os.Hash.{turn_off_least_1bit, is_power_of_2, power_loop, wanted_buckets, new_bucket_cnt}

bit_and_self : (fuel a : ℕ) → a ≤ fuel → bit_and a a ≡ a
bit_and_self zero a h = omega (arith, bit_and-le 0 a a h)
bit_and_self (suc fuel) a h =
    omega (arith, bit_and_halves a a, bit_and_self fuel (a / 2) (omega arith))

-- Without its lowest bit, a number is odd and one less, or twice what its half is without it.
turn_off_halves :
    (n : ℕ)
    → 0 < n
    → bit_and n (n - 1) ≡ (if n % 2 == 1 then n - 1 else 2 * bit_and (n / 2) (n / 2 - 1))
turn_off_halves n h = elim (Bool-cases (n % 2 == 1)) [
  | inl odd ↦
      let half : (n - 1) / 2 ≡ n / 2 = ground arith in
      let one : n % 2 ≡ 1 = ground arith in
      let same = ap (bit_and (n / 2)) half ∙ bit_and_self (n / 2) (n / 2) (omega arith) in
      rw odd (omega (arith, bit_and_halves n (n - 1), same, one))
  | inr even ↦
      let zero_ : n % 2 ≡ 0 = ground arith in
      let half : (n - 1) / 2 ≡ n / 2 - 1 = omega arith in
      let same = ap (bit_and (n / 2)) half in
      rw even (omega (arith, bit_and_halves n (n - 1), same, zero_))
]

abbrev pub IsPower : ℕ → Type 0
IsPower n = (k : ℕ) × (n ≡ 2 ^ k)

pos_pow : (k : ℕ) → 0 < 2 ^ k
pos_pow zero = omega arith
pos_pow (suc k) = omega (arith, pos_pow k)

double : (k : ℕ) → 2 ^ suc k ≡ 2 * 2 ^ k
double k = omega arith

twice : (n k : ℕ) → n / 2 ≡ 2 ^ k → n % 2 ≡ 0 → n ≡ 2 ^ suc k
twice n k h even = omega (arith, double k)

cleared-IsPower : (fuel n : ℕ) → n ≤ fuel → 0 < n → bit_and n (n - 1) ≡ 0 → IsPower n
cleared-IsPower zero n h pos e = absurd (omega arith)
cleared-IsPower (suc fuel) n h pos e = elim (Bool-cases (n % 2 == 1)) [
  | inl odd ↦ (0, ground (arith, turn_off_halves n pos))
  | inr even ↦
      let (k, p) =
        cleared-IsPower fuel (n / 2) (omega arith) (ground arith)
          (ground (arith, turn_off_halves n pos)) in
      (suc k, twice n k p (ground arith))
]

power_cleared : (k : ℕ) → bit_and (2 ^ k) (2 ^ k - 1) ≡ 0
power_cleared zero = refl
power_cleared (suc k) =
    let pos : 0 < 2 ^ k = pos_pow k in
    let half : 2 ^ suc k / 2 ≡ 2 ^ k = omega (arith, double k) in
    let even : 2 ^ suc k % 2 ≡ 0 = omega (arith, double k) in
    let same = ap (λ q. bit_and q (q - 1)) half in
    ground
      (arith, turn_off_halves (2 ^ suc k) (omega (arith, double k)), even, same, power_cleared k)

-- Clearing the lowest bit keeps every power of 2 that a number reaches, unless nothing is left.
cleared-le : (k n : ℕ) → 0 < n → bit_and n (n - 1) ≢ 0 → 2 ^ k ≤ n → 2 ^ k ≤ bit_and n (n - 1)
cleared-le zero n pos e h = omega arith
cleared-le (suc k) n pos e h = elim (Bool-cases (n % 2 == 1)) [
  | inl odd ↦ ground (arith, turn_off_halves n pos, double k)
  | inr even ↦
      let less : bit_and (n / 2) (n / 2 - 1) ≢ 0 = ground (arith, turn_off_halves n pos, e) in
      let rest = cleared-le k (n / 2) (ground arith) less (omega (arith, double k)) in
      ground (arith, turn_off_halves n pos, double k, rest)
]

turn_off_lem : (n : ℕ) → 0 < n → n < 2 ^ 32 → turn_off_least_1bit n ≡ bit_and n (n - 1)
unfolding turn_off_least_1bit
turn_off_lem n pos small = ap (bit_and n) (omega arith)

-- `is_power_of_2` is true of the powers of 2 below 2 ^ 32, and of no other number there.
pub is_power_of_2-IsPower : (n : ℕ) → n < 2 ^ 32 → (is_power_of_2 n ≡ true) ↔ IsPower n
unfolding is_power_of_2
is_power_of_2-IsPower n small = (
  λ h. cleared-IsPower n n (omega arith) (ground arith) (ground (arith, turn_off_lem n)),
  λ p.
      let (k, e) = p in
      let cleared = ap (λ q. bit_and q (q - 1)) e ∙ power_cleared k in
      ground (arith, turn_off_lem n, cleared, pos_pow k),
)

-- The loop comes to an end at the largest power of 2 that is not above `n`.
power_loop-Largest :
    (fuel n : ℕ)
    → n ≤ fuel
    → 0 < n
    → n < 2 ^ 32
    → (m : ℕ) × (power_loop fuel n ≡ some m)
      × IsPower m
      × (m ≤ n)
      × (0 < m)
      × ((k : ℕ) → 2 ^ k ≤ n → 2 ^ k ≤ m)
unfolding power_loop is_power_of_2
power_loop-Largest zero n h pos small = absurd (omega arith)
power_loop-Largest (suc fuel) n h pos small = elim (Bool-cases (is_power_of_2 n)) [
  | inl done ↦
      (n, if-true _ _ _ done, (is_power_of_2-IsPower n small).0 done, omega arith, pos, λ k p. p)
  | inr more ↦
      let cut = turn_off_lem n pos small in
      let left_over : bit_and n (n - 1) ≢ 0 = ground (arith, cut) in
      let less = bit_and-le_right n n (n - 1) (omega arith) in
      let (m, e, p, low, pos_m, large) =
        power_loop-Largest fuel (turn_off_least_1bit n) (omega (arith, cut, less))
          (omega (arith, cut)) (omega (arith, cut, less)) in
      (
        m,
        if-false _ _ _ more ∙ e,
        p,
        omega (arith, cut, less),
        pos_m,
        λ k q. large k (rw cut (cleared-le k n pos left_over q)),
      )
]

-- The number of buckets that is wanted for `elem_cnt` elements is found: below 8 elements it is 4,
-- and from 8 on the largest power of 2 that is at most half of `elem_cnt`.
pub new_bucket_cnt-Largest :
    (elem_cnt : ℕ)
    → elem_cnt < 2 ^ 32
    → (m : ℕ) × (new_bucket_cnt elem_cnt ≡ some m)
      × IsPower m
      × (4 ≤ m)
      × (elem_cnt < 8 → m ≡ 4)
      × (8 ≤ elem_cnt → 2 * m ≤ elem_cnt)
      × ((k : ℕ) → 2 * 2 ^ k ≤ elem_cnt → 2 ^ k ≤ m)
unfolding new_bucket_cnt
new_bucket_cnt-Largest elem_cnt small =
    let (m, e, p, low, pos, large) =
      power_loop-Largest (wanted_buckets elem_cnt) (wanted_buckets elem_cnt) (omega arith)
        (ground arith) (ground arith) in
    let four : 4 ≤ m = large 2 (ground arith) in
    (m, e, p, four, (λ few. ground arith), (λ many. ground arith), λ k h. large k (ground arith))
