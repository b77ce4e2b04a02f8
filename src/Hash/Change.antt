-- ===== src/Hash/Change.antt =====
-- One element comes into its bucket, or leaves it.
use project_os.Base.{
  ℕ, ◌+◌, ◌^◌, ◌<◌, ◌≡◌, ap, inl, inr, Bool, true, false, List, [], ◌∷◌, arith, ◌==◌, if◌then◌else◌,
  Bool-cases, count, length, remove_elem, count-remove_elem,
}
use project_os.Hash.{Hash, bucket_idx, same_key, insert_elem, remove_hash_elem}
use project_os.Hash.Buckets.{total, holding, IsKey, Valid, bucket_idx-lt}
use project_os.Hash.Moving.{total-update}

length-remove_elem :
    (t : ℕ) (xs : List ℕ) → 0 < count t xs → length (remove_elem t xs) + 1 ≡ length xs
unfolding remove_elem
length-remove_elem t [] h = absurd (omega arith)
length-remove_elem t (x ∷ xs) h = elim (Bool-cases (x == t)) [
  | inl here ↦ ground arith
  | inr other ↦ ground (arith, length-remove_elem t xs (ground arith))
]

module _ (hash : ℕ → ℕ) (less : ℕ → ℕ → Bool) (k : IsKey hash less) (h : Hash)
    (v : Valid hash less h) where
  -- What has changed in the elements: `x` comes, or goes.
  pub insert_elem-Valid :
      (x : ℕ)
      → h.elem_cnt + 1 < 2 ^ 32
      → ((y : ℕ) → 0 < holding hash h y → same_key less y x ≡ false)
      → Valid hash less (insert_elem hash h x)
        × ((y : ℕ)
            → holding hash (insert_elem hash h x) y ≡ holding hash h y + (if y == x then 1 else 0))
        × ((insert_elem hash h x).elem_cnt ≡ h.elem_cnt + 1)
  unfolding insert_elem
  insert_elem-Valid x room new =
      let inside = bucket_idx-lt hash h.bucket_cnt x v.some_buckets v.few_buckets in
      let more : (y : ℕ)
          → holding hash (insert_elem hash h x) y ≡ holding hash h y + (if y == x then 1 else 0) =
        λ y. elim (Bool-cases (bucket_idx hash h.bucket_cnt y == bucket_idx hash h.bucket_cnt x)) [
          | inl same ↦
              let at : bucket_idx hash h.bucket_cnt y ≡ bucket_idx hash h.bucket_cnt x =
                ground arith in
              let here = ap (λ j. count y (h.buckets j)) at in ground (arith, here)
          | inr other ↦
              let differ : y ≡ x → bucket_idx hash h.bucket_cnt y ≡ bucket_idx hash h.bucket_cnt x =
                λ e. ap (bucket_idx hash h.bucket_cnt) e in
              ground (arith, differ)
        ] in
      let absent : holding hash h x ≡ 0 = ground (arith, new x, k.self x) in
      (
        record {
          some_buckets = v.some_buckets;
          few_buckets = v.few_buckets;
          placed = λ y i q c. ground (arith, v.placed y i q, c);
          once = λ y. ground (arith, more y, v.once y, absent);
          distinct = λ a b ha hb e. elim (Bool-cases (a == x)) [
            | inl first ↦ elim (Bool-cases (b == x)) [
              | inl both ↦ ground arith
              | inr second ↦
                  let at : a ≡ x = ground arith in
                  let unequal = new b (ground (arith, more b)) in
                  let equal : same_key less x b ≡ true = rw (← at) e in
                  ground (arith, unequal, equal)
            ]
            | inr first ↦ elim (Bool-cases (b == x)) [
              | inl second ↦
                  let at : b ≡ x = ground arith in
                  let unequal = new a (ground (arith, more a)) in
                  let equal : same_key less a x ≡ true = rw (← at) e in
                  ground (arith, unequal, equal)
              | inr neither ↦ v.distinct a b (ground (arith, more a)) (ground (arith, more b)) e
            ]
          ];
          counted = ground (
            arith,
            total-update h.bucket_cnt h.buckets 0 (bucket_idx hash h.bucket_cnt x)
                (x ∷ h.buckets (bucket_idx hash h.bucket_cnt x)),
            inside,
            v.counted,
          );
          small = omega arith;
        },
        more,
        omega arith,
      )

  pub remove_hash_elem-Valid :
      (x : ℕ)
      → 0 < holding hash h x
      → Valid hash less (remove_hash_elem hash h x)
        × ((y : ℕ)
            → holding hash (remove_hash_elem hash h x) y ≡ (if y == x then 0 else holding hash h y))
        × ((remove_hash_elem hash h x).elem_cnt + 1 ≡ h.elem_cnt)
  unfolding remove_hash_elem
  remove_hash_elem-Valid x there =
      let inside = bucket_idx-lt hash h.bucket_cnt x v.some_buckets v.few_buckets in
      let shorter = length-remove_elem x (h.buckets (bucket_idx hash h.bucket_cnt x)) there in
      let totals =
        total-update h.bucket_cnt h.buckets 0 (bucket_idx hash h.bucket_cnt x)
          (remove_elem x (h.buckets (bucket_idx hash h.bucket_cnt x))) in
      let one_less : total h.bucket_cnt (remove_hash_elem hash h x).buckets 0 + 1 ≡ h.elem_cnt =
        ground (arith, totals, shorter, inside, v.counted) in
      let left : (y : ℕ)
          → holding hash (remove_hash_elem hash h x) y ≡ (if y == x then 0 else holding hash h y) =
        λ y.
          let removed = count-remove_elem y x (h.buckets (bucket_idx hash h.bucket_cnt x)) in
          let at : y ≡ x → bucket_idx hash h.bucket_cnt y ≡ bucket_idx hash h.bucket_cnt x =
            λ e. ap (bucket_idx hash h.bucket_cnt) e in
          elim (Bool-cases (bucket_idx hash h.bucket_cnt y == bucket_idx hash h.bucket_cnt x)) [
            | inl same ↦
                let at2 : bucket_idx hash h.bucket_cnt y ≡ bucket_idx hash h.bucket_cnt x =
                  ground arith in
                let here = ap (λ j. count y (h.buckets j)) at2 in
                ground (arith, here, removed, v.once x, v.once y)
            | inr other ↦ ground (arith, at)
          ] in
      (
        record {
          some_buckets = v.some_buckets;
          few_buckets = v.few_buckets;
          placed = λ y i q c. ground (
            arith,
            v.placed y i q,
            c,
            count-remove_elem y x (h.buckets (bucket_idx hash h.bucket_cnt x)),
            v.placed y (bucket_idx hash h.bucket_cnt x) inside,
          );
          once = λ y. ground (arith, left y, v.once y);
          distinct = λ a b ha hb e.
              v.distinct a b (ground (arith, left a, ha)) (ground (arith, left b, hb)) e;
          counted = omega (arith, one_less, v.small);
          small = omega arith;
        },
        left,
        omega (arith, one_less, v.small),
      )
