-- ===== src/Hash/Buckets.antt =====
-- What a valid table is, and what `find_elem` finds in a bucket.
use Prim.Native.Nat.{bit_and}
use project_os.Base.{
  ℕ, zero, suc, ◌+◌, ◌-◌, ◌%◌, ◌^◌, ◌≤◌, ◌<◌, ◌≡◌, ◌⊎◌, ap, inl, inr, Bool, true, false, none, some,
  List, [], ◌∷◌, arith, ◌==◌, Bool-cases, Option-cases, count, length,
}
use project_os.Base.Bits.{bit_and-le_right}
use project_os.Hash.{Hash, bucket_idx, same_key, find_elem, hash_find}

-- The lengths of `n` buckets from bucket `i` on.
unfoldable pub total : (n : ℕ) → (ℕ → List ℕ) → (i : ℕ) → ℕ
total zero b i = 0
total (suc n) b i = length (b i) + total n b (i + 1)

-- How often an element stands in the table.
abbrev pub holding : (hash : ℕ → ℕ) → Hash → ℕ → ℕ
holding hash h x = count x (h.buckets (bucket_idx hash h.bucket_cnt x))

-- A bucket number is in range.
pub bucket_idx-lt : (hash : ℕ → ℕ) (n x : ℕ) → 0 < n → n < 2 ^ 32 → bucket_idx hash n x < n
bucket_idx-lt hash n x pos h =
    omega (arith, bit_and-le_right (hash x) (hash x) ((n + 2 ^ 32 - 1) % 2 ^ 32) (omega arith))

module _ (hash : ℕ → ℕ) (less : ℕ → ℕ → Bool) where
  -- What the functions that a table is given have to satisfy.
  pub record IsKey : Type 0 where
    pub self : (a : ℕ) → same_key less a a ≡ true
    pub trans :
        (a b c : ℕ) → same_key less a b ≡ true → same_key less b c ≡ true → same_key less a c ≡ true
    pub agrees : (a b : ℕ) → same_key less a b ≡ true → hash a ≡ hash b

  -- Each element is in its bucket, once, there are no equal elements, and they are counted.
  pub record Valid (h : Hash) : Type 0 where
    pub some_buckets : 0 < h.bucket_cnt
    pub few_buckets : h.bucket_cnt < 2 ^ 32
    pub placed :
        (x i : ℕ)
        → i < h.bucket_cnt
        → 0 < count x (h.buckets i)
        → bucket_idx hash h.bucket_cnt x ≡ i
    pub once : (x : ℕ) → holding hash h x ≤ 1
    pub distinct :
        (x y : ℕ) → 0 < holding hash h x → 0 < holding hash h y → same_key less x y ≡ true → x ≡ y
    pub counted : h.elem_cnt ≡ total h.bucket_cnt h.buckets 0
    pub small : h.elem_cnt < 2 ^ 32

  find_elem-Found :
      (xs : List ℕ) (e y : ℕ)
      → find_elem less xs e ≡ some y
      → (0 < count y xs) × (same_key less y e ≡ true)
  unfolding find_elem
  find_elem-Found [] e y h = cc
  find_elem-Found (x ∷ xs) e y h = elim (Bool-cases (same_key less x e)) [
    | inl hit ↦ let same : x ≡ y = ground (arith, h) in (ground arith, rw (← same) hit)
    | inr miss ↦ let (there, eq) = find_elem-Found xs e y (ground (arith, h)) in (ground arith, eq)
  ]

  find_elem-Missing :
      (xs : List ℕ) (e y : ℕ)
      → find_elem less xs e ≡ none
      → 0 < count y xs
      → same_key less y e ≡ false
  unfolding find_elem
  find_elem-Missing [] e y h p = absurd (omega arith)
  find_elem-Missing (x ∷ xs) e y h p = elim (Bool-cases (same_key less x e)) [
    | inl hit ↦ ground (arith, h)
    | inr miss ↦ elim (Bool-cases (x == y)) [
      | inl here ↦ let same : x ≡ y = ground arith in rw (← same) miss
      | inr other ↦ find_elem-Missing xs e y (ground (arith, h)) (ground arith)
    ]
  ]

  -- `hash_find` returns an element of the table that is equal to `e`, or none if there is none.
  pub hash_find-Finds :
      (h : Hash) (e : ℕ)
      → IsKey
      → ((y : ℕ) × (hash_find hash less h e ≡ some y)
          × (0 < holding hash h y)
          × (same_key less y e ≡ true))
        ⊎ ((hash_find hash less h e ≡ none)
            × ((y : ℕ) → 0 < holding hash h y → same_key less y e ≡ false))
  unfolding hash_find
  hash_find-Finds h e k =
      elim (Option-cases (find_elem less (h.buckets (bucket_idx hash h.bucket_cnt e)) e)) [
        | inl n ↦ inr (
          n,
          λ y p. elim (Bool-cases (same_key less y e)) [
            | inr unequal ↦ unequal
            | inl eq ↦
                let same : bucket_idx hash h.bucket_cnt y ≡ bucket_idx hash h.bucket_cnt e =
                  ap (λ n. bit_and n ((h.bucket_cnt + 2 ^ 32 - 1) % 2 ^ 32)) (k.agrees y e eq) in
                find_elem-Missing _ e y n (rw (← same) p)
          ],
        )
        | inr (y, f) ↦
            let (there, eq) = find_elem-Found _ e y f in
            let same : bucket_idx hash h.bucket_cnt y ≡ bucket_idx hash h.bucket_cnt e =
              ap (λ n. bit_and n ((h.bucket_cnt + 2 ^ 32 - 1) % 2 ^ 32)) (k.agrees y e eq) in
            inl (y, f, rw same there, eq)
      ]
