-- ===== src/Hash/Moving.antt =====
-- `rehash`: the elements move to other buckets, and none is lost or doubled.
use project_os.Base.{
  ℕ, zero, suc, ◌+◌, ◌^◌, ◌≤◌, ◌<◌, ◌≡◌, refl, ◌∙◌, ap, inl, inr, Bool, not, ◌&&◌, ◌||◌, some, List,
  [], ◌∷◌, arith, ltb, leb, ◌==◌, if◌then◌else◌, Bool-cases, update, count, length,
}
use project_os.Hash.{Hash, bucket_idx, move_bucket, move_buckets, install, rehash}
use project_os.Base.{some->>=}
use project_os.Hash.Power.{new_bucket_cnt-Largest}
use project_os.Hash.Buckets.{total, holding, Valid, bucket_idx-lt}

-- How often an element stands in `n` buckets from bucket `i` on.
count_in : (n : ℕ) → (ℕ → List ℕ) → (i x : ℕ) → ℕ
count_in zero b i x = 0
count_in (suc n) b i x = count x (b i) + count_in n b (i + 1) x

-- One bucket changes.
pub total-update :
    (n : ℕ) (b : ℕ → List ℕ) (i k : ℕ) (l : List ℕ)
    → total n (update b k l) i + (if leb i k && ltb k (i + n) then length (b k) else 0)
      ≡ total n b i + (if leb i k && ltb k (i + n) then length l else 0)
unfolding total
total-update zero b i k l = ground arith
total-update (suc n) b i k l = elim (Bool-cases (i == k)) [
  | inl here ↦
      let at : i ≡ k = ground arith in
      let same = ap (λ j. length (b j)) at in ground (arith, total-update n b (i + 1) k l, same)
  | inr other ↦ ground (arith, total-update n b (i + 1) k l)
]

total-empty : (n i : ℕ) → total n (λ _. []) i ≡ 0
unfolding total
total-empty zero i = refl
total-empty (suc n) i = omega (arith, total-empty n (i + 1))

module _ (hash : ℕ → ℕ) (cnt : ℕ) where
  count-move_bucket :
      (xs : List ℕ) (b : ℕ → List ℕ) (j x : ℕ)
      → count x (move_bucket hash cnt xs b j)
        ≡ (if bucket_idx hash cnt x == j then count x xs else 0) + count x (b j)
  unfolding move_bucket
  count-move_bucket [] b j x = ground arith
  count-move_bucket (e ∷ es) b j x = ground (
    arith,
    count-move_bucket es (update b (bucket_idx hash cnt e) (e ∷ b (bucket_idx hash cnt e))) j x,
  )

  count-move_buckets :
      (n : ℕ) (old : ℕ → List ℕ) (i : ℕ) (b : ℕ → List ℕ) (j x : ℕ)
      → count x (move_buckets hash n cnt old i b j)
        ≡ (if bucket_idx hash cnt x == j then count_in n old i x else 0) + count x (b j)
  unfolding move_buckets count_in
  count-move_buckets zero old i b j x = ground arith
  count-move_buckets (suc n) old i b j x = ground (
    arith,
    count-move_buckets n old (i + 1) (move_bucket hash cnt (old i) b) j x,
    count-move_bucket (old i) b j x,
  )

  module _ (pos : 0 < cnt) (small : cnt < 2 ^ 32) where
    total-move_bucket :
        (xs : List ℕ) (b : ℕ → List ℕ)
        → total cnt (move_bucket hash cnt xs b) 0 ≡ length xs + total cnt b 0
    unfolding move_bucket
    total-move_bucket [] b = omega arith
    total-move_bucket (e ∷ es) b =
        let inside = bucket_idx-lt hash cnt e pos small in
        ground (
          arith,
          total-move_bucket es (update b (bucket_idx hash cnt e) (e ∷ b (bucket_idx hash cnt e))),
          total-update cnt b 0 (bucket_idx hash cnt e) (e ∷ b (bucket_idx hash cnt e)),
          inside,
        )

    total-move_buckets :
        (n : ℕ) (old : ℕ → List ℕ) (i : ℕ) (b : ℕ → List ℕ)
        → total cnt (move_buckets hash n cnt old i b) 0 ≡ total n old i + total cnt b 0
    unfolding move_buckets total
    total-move_buckets zero old i b = omega arith
    total-move_buckets (suc n) old i b = omega (
      arith,
      total-move_buckets n old (i + 1) (move_bucket hash cnt (old i) b),
      total-move_bucket (old i) b,
    )

-- An element that stands in one bucket at most.
count_in_one :
    (n : ℕ) (b : ℕ → List ℕ) (i x k : ℕ)
    → ((j : ℕ) → i ≤ j → j < i + n → 0 < count x (b j) → k ≡ j)
    → count_in n b i x ≡ (if leb i k && ltb k (i + n) then count x (b k) else 0)
unfolding count_in
count_in_one zero b i x k h = ground arith
count_in_one (suc n) b i x k h =
    let rest = count_in_one n b (i + 1) x k (λ j p q. h j (omega arith) (omega arith)) in
    elim (Bool-cases (i == k)) [
      | inl here ↦
          let at : i ≡ k = ground arith in
          let same = ap (λ j. count x (b j)) at in ground (arith, rest, same)
      | inr other ↦ ground (arith, rest, h i)
    ]

module _ (hash : ℕ → ℕ) (less : ℕ → ℕ → Bool) where
  -- The table has other buckets and the same elements.
  pub record Same (h h' : Hash) : Type 0 where
    pub valid : Valid hash less h'
    pub elements : (x : ℕ) → holding hash h' x ≡ holding hash h x
    pub size : h'.elem_cnt ≡ h.elem_cnt

  Same-refl : (h : Hash) → Valid hash less h → Same h h
  Same-refl h v = record { valid = v; elements = λ x. refl; size = refl }

  module _ (h : Hash) (v : Valid hash less h) (n : ℕ) (pos : 0 < n) (small : n < 2 ^ 32) where
    installed :
        (j x : ℕ)
        → count x ((install hash h n).buckets j)
          ≡ (if bucket_idx hash n x == j then holding hash h x else 0)
    unfolding install
    installed j x =
        let inside = bucket_idx-lt hash h.bucket_cnt x v.some_buckets v.few_buckets in
        let one =
          count_in_one h.bucket_cnt h.buckets 0 x (bucket_idx hash h.bucket_cnt x)
            (λ i p q c. v.placed x i (omega arith) c) in
        ground
          (arith, count-move_buckets hash n h.bucket_cnt h.buckets 0 (λ _. []) j x, one, inside)

    install-Same : Same h (install hash h n)
    unfolding install
    install-Same =
        let kept : (x : ℕ) → holding hash (install hash h n) x ≡ holding hash h x =
          λ x. ground (arith, installed (bucket_idx hash n x) x) in
        record {
          valid = record {
            some_buckets = pos;
            few_buckets = small;
            placed = λ x i q c. ground (arith, installed i x, c);
            once = λ x. omega (arith, kept x, v.once x);
            distinct = λ x y a b e. v.distinct x y (rw (← kept x) a) (rw (← kept y) b) e;
            counted = omega (
              arith,
              total-move_buckets hash n pos small h.bucket_cnt h.buckets 0 (λ _. []),
              total-empty n 0,
              v.counted,
            );
            small = v.small;
          };
          elements = kept;
          size = refl;
        }

  -- `rehash` of a valid table always returns, with memory for new buckets or without: the table
  -- that it leaves is valid too, so each element is in the bucket where the search looks for it, and
  -- holds the same elements.
  pub rehash-Same :
      (h : Hash) (ok : Bool)
      → Valid hash less h
      → (h' : Hash) × (rehash hash h ok ≡ some h') × Same h h'
  unfolding rehash
  rehash-Same h ok v =
      let (n, e, power, four, few, many, large) = new_bucket_cnt-Largest h.elem_cnt v.small in
      elim (Bool-cases (n == h.bucket_cnt || not ok)) [
        | inl stays ↦ (h, some->>= _ _ _ e ∙ ground arith, Same-refl h v)
        | inr moves ↦ (
          install hash h n,
          some->>= _ _ _ e ∙ ground arith,
          install-Same h v n (omega arith) (ground (arith, v.small)),
        )
      ]
