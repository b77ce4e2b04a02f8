-- ===== src/Hash/Iterator.antt =====
-- `hash_first`, `hash_next` and `hash_cur`: the elements one by one.
use project_os.Base.{
  ℕ, zero, suc, ◌+◌, ◌-◌, ◌<◌, ◌≡◌, refl, ◌∙◌, sym, ap, Option, none, some, inl, inr, Option-cases,
  List, [], ◌∷◌, ◌++◌, arith, length, inl, inr, Option-cases,
}
use project_os.Hash.{Hash, apply_loop, hash_apply}

-- `struct hash_iterator`: `rest` is what follows `elem` on the list of its bucket.
pub record Iterator : Type 0 where
  pub bucket : ℕ
  pub elem : Option ℕ
  pub rest : List ℕ

-- `elem` is at the head of the first bucket, before its elements.
abbrev pub hash_first : Hash → Iterator
hash_first h = record { bucket = 0; elem = none; rest = h.buckets 0 }

-- `n` buckets come after this one.
unfoldable pub next_loop : (n : ℕ) → Hash → (bucket : ℕ) → List ℕ → Iterator
next_loop n h bucket (x ∷ xs) = record { bucket = bucket; elem = some x; rest = xs }
next_loop zero h bucket [] = record { bucket = bucket + 1; elem = none; rest = [] }
next_loop (suc n) h bucket [] = next_loop n h (bucket + 1) (h.buckets (bucket + 1))

unfoldable pub hash_next : Hash → Iterator → Iterator
unfolding next_loop
hash_next h i = next_loop (h.bucket_cnt - 1 - i.bucket) h i.bucket i.rest

abbrev pub hash_cur : Iterator → Option ℕ
hash_cur i = i.elem

abbrev pub see : Option ℕ → List ℕ → List ℕ
see none rest = []
see (some x) rest = x ∷ rest

-- `while (hash_next (&i)) … hash_cur (&i) …` on fuel: the elements that the body sees.
unfoldable pub visit : (fuel : ℕ) → Hash → Iterator → List ℕ
unfolding hash_next
visit zero h i = []
visit (suc fuel) h i = see (hash_cur (hash_next h i)) (visit fuel h (hash_next h i))

-- What is still to come.
left : Hash → Iterator → List ℕ
left h i = i.rest ++ apply_loop (h.bucket_cnt - 1 - i.bucket) h.buckets (i.bucket + 1)

-- A step takes the first of the elements that are to come.
record Steps (h : Hash) (before : List ℕ) (i' : Iterator) : Type 0 where
  inside : (x : ℕ) → i'.elem ≡ some x → i'.bucket < h.bucket_cnt
  gives : (x : ℕ) → i'.elem ≡ some x → before ≡ x ∷ left h i'
  ends : i'.elem ≡ none → before ≡ []

found-Steps :
    (n : ℕ) (h : Hash) (bucket x : ℕ) (xs : List ℕ)
    → bucket + 1 + n ≡ h.bucket_cnt
    → Steps h
        (x ∷ (xs ++ apply_loop n h.buckets (bucket + 1)))
        (record { bucket = bucket; elem = some x; rest = xs })
unfolding left
found-Steps n h bucket x xs e =
    let after : n ≡ h.bucket_cnt - 1 - bucket = omega arith in
    let same_rest = ap (λ k. xs ++ apply_loop k h.buckets (bucket + 1)) after in
    record {
      inside = λ y q. omega arith;
      gives = λ y q.
          let same : x ≡ y = cc in
          ap (λ l. x ∷ l) same_rest
          ∙ ap (λ z. z ∷ left h (record { bucket = bucket; elem = some x; rest = xs })) same;
      ends = λ q. cc;
    }

next_loop-Steps :
    (n : ℕ) (h : Hash) (bucket : ℕ) (rest : List ℕ)
    → bucket + 1 + n ≡ h.bucket_cnt
    → Steps h (rest ++ apply_loop n h.buckets (bucket + 1)) (next_loop n h bucket rest)
unfolding next_loop left apply_loop
next_loop-Steps zero h bucket (x ∷ xs) e = found-Steps zero h bucket x xs e
next_loop-Steps (suc n) h bucket (x ∷ xs) e = found-Steps (suc n) h bucket x xs e
next_loop-Steps zero h bucket [] e = record {
  inside = λ y q. cc;
  gives = λ y q. cc;
  ends = λ q. refl;
}
next_loop-Steps (suc n) h bucket [] e =
    next_loop-Steps n h (bucket + 1) (h.buckets (bucket + 1)) (omega arith)

hash_next-Steps :
    (h : Hash) (i : Iterator) → i.bucket < h.bucket_cnt → Steps h (left h i) (hash_next h i)
unfolding hash_next left
hash_next-Steps h i b =
    next_loop-Steps (h.bucket_cnt - 1 - i.bucket) h i.bucket i.rest (omega arith)

-- The elements that a loop sees from a bucket on are those that are to come.
visit-left :
    (fuel : ℕ) (h : Hash) (i : Iterator)
    → i.bucket < h.bucket_cnt
    → length (left h i) < fuel
    → visit fuel h i ≡ left h i
unfolding visit
visit-left zero h i b enough = absurd (omega arith)
visit-left (suc fuel) h i b enough =
    let s = hash_next-Steps h i b in
    elim (Option-cases (hash_next h i).elem) [
      | inl n ↦ ap (λ o. see o (visit fuel h (hash_next h i))) n ∙ sym (s.ends n)
      | inr (x, f) ↦
          let shorter = ap length (s.gives x f) in
          let rest = visit-left fuel h (hash_next h i) (s.inside x f) (omega arith) in
          ap (λ o. see o (visit fuel h (hash_next h i))) f
          ∙ ap (λ l. x ∷ l) rest
          ∙ sym (s.gives x f)
    ]

left-first : (h : Hash) → 0 < h.bucket_cnt → left h (hash_first h) ≡ hash_apply h
unfolding hash_apply left apply_loop
left-first h pos =
    let one : h.bucket_cnt ≡ suc (h.bucket_cnt - 1 - 0) = omega arith in
    sym (ap (λ n. apply_loop n h.buckets 0) one)

-- The loop `hash_first`, `hash_next` sees the elements in the order of `hash_apply`, each as often
-- as it stands in the table, and comes to an end. The table has buckets.
pub visit-hash_apply :
    (h : Hash)
    → 0 < h.bucket_cnt
    → visit (suc (length (hash_apply h))) h (hash_first h) ≡ hash_apply h
visit-hash_apply h pos =
    visit-left _ h (hash_first h) pos (omega (arith, ap length (left-first h pos)))
    ∙ left-first h pos
