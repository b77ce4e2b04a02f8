-- ===== src/Hash/Tests.antt =====
-- A table of three elements whose keys are their tens.
use Prim.Native.Nat.{bit_and}
use project_os.Base.{
  ◌*◌, ℕ, ◌/◌, ◌^◌, ◌≤◌, ◌<◌, ◌≡◌, ◌↔◌, refl, ap, ◌∙◌, inl, inr, Bool, true, Option, some, [], ◌∷◌,
  arith, ltb, ◌==◌, if◌then◌else◌, count, Bool-cases,
}
use project_os.Hash.{
  Hash, hash_insert, hash_delete, rehash, new_bucket_cnt, is_power_of_2, hash_apply,
}
use project_os.Base.{suc, length}
use project_os.Hash.Iterator.{visit, hash_first, visit-hash_apply}
use project_os.Hash.Power.{IsPower, is_power_of_2-IsPower, new_bucket_cnt-Largest}
use project_os.Hash.Buckets.{IsKey, Valid, total}
use project_os.Hash.Moving.{Same, rehash-Same}
use project_os.Hash.Update.{Inserted, hash_insert-Inserted, Deleted, hash_delete-Deleted}

abbrev tens : ℕ → ℕ
tens e = e / 10

abbrev by_tens : ℕ → ℕ → Bool
by_tens a b = ltb (a / 10) (b / 10)

tens-IsKey : IsKey tens by_tens
tens-IsKey = record {
  self = λ a. ground arith;
  trans = λ a b c e f. ground arith;
  agrees = λ a b e. ground arith;
}

-- Keys 1 and 5 share bucket 1.
abbrev sample : Hash
sample = record {
  elem_cnt = 3;
  bucket_cnt = 4;
  buckets = λ i. if i == 1 then 57 ∷ 10 ∷ [] else if i == 2 then 20 ∷ [] else [];
}

sample-listed : (x i : ℕ) → 0 < count x (sample.buckets i) → bit_and (x / 10) 3 ≡ i
sample-listed x i c = elim (Bool-cases (x == 57)) [
  | inl a ↦ let e : x ≡ 57 = ground arith in ap (λ n. bit_and (n / 10) 3) e ∙ ground (arith, c)
  | inr na ↦ elim (Bool-cases (x == 10)) [
    | inl b ↦ let e : x ≡ 10 = ground arith in ap (λ n. bit_and (n / 10) 3) e ∙ ground (arith, c)
    | inr nb ↦
        let e : x ≡ 20 = ground (arith, c) in ap (λ n. bit_and (n / 10) 3) e ∙ ground (arith, c)
  ]
]

sample-Valid : Valid tens by_tens sample
unfolding total
sample-Valid = record {
  some_buckets = omega arith;
  few_buckets = omega arith;
  placed = λ x i q c. sample-listed x i c;
  once = λ x. ground arith;
  distinct = λ x y a b e. ground arith;
  counted = refl;
  small = omega arith;
}

hash_insert-Inserted_example :
    (r : Option ℕ) × (h' : Hash) × (hash_insert tens by_tens sample true 31 ≡ some (r, h'))
    × Inserted tens by_tens sample 31 r h'
hash_insert-Inserted_example =
    hash_insert-Inserted tens by_tens tens-IsKey sample true sample-Valid 31 (omega arith)

hash_delete-Deleted_example :
    (r : Option ℕ) × (h' : Hash) × (hash_delete tens by_tens sample true 55 ≡ some (r, h'))
    × Deleted tens by_tens sample 55 r h'
hash_delete-Deleted_example =
    hash_delete-Deleted tens by_tens tens-IsKey sample true sample-Valid 55

rehash-Same_example :
    (h' : Hash) × (rehash tens sample true ≡ some h') × Same tens by_tens sample h'
rehash-Same_example = rehash-Same tens by_tens sample true sample-Valid

is_power_of_2-IsPower_example : (is_power_of_2 12 ≡ true) ↔ IsPower 12
is_power_of_2-IsPower_example = is_power_of_2-IsPower 12 (omega arith)

new_bucket_cnt-Largest_example :
    (m : ℕ) × (new_bucket_cnt 27 ≡ some m)
    × IsPower m
    × (4 ≤ m)
    × (27 < 8 → m ≡ 4)
    × (8 ≤ 27 → 2 * m ≤ 27)
    × ((k : ℕ) → 2 * 2 ^ k ≤ 27 → 2 ^ k ≤ m)
new_bucket_cnt-Largest_example = new_bucket_cnt-Largest 27 (omega arith)

visit-hash_apply_example :
    visit (suc (length (hash_apply sample))) sample (hash_first sample) ≡ hash_apply sample
visit-hash_apply_example = visit-hash_apply sample (omega arith)
