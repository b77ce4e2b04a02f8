-- ===== src/Hash.antt =====
-- lib/kernel/hash.c: hash tables. Elements are addresses; `hash` and `less` are the functions that
-- the table is initialised with. A bucket is the list of its elements, and `malloc` succeeds as an
-- argument tells.
pub mod Power
pub mod Buckets
pub mod Moving
pub mod Change
pub mod Update
pub mod Iterator
mod Tests
use Prim.Native.Nat.{bit_and, bit_xor}
use project_os.Base.{
  ℕ, zero, suc, ◌+◌, ◌-◌, ◌*◌, ◌/◌, ◌%◌, ◌^◌, Bool, true, false, not, ◌&&◌, Option, none, some,
  List, [], ◌∷◌, ◌++◌, ltb, ◌==◌, if◌then◌else◌, update, remove_elem, ◌>>=◌,
}

pub record Hash : Type 0 where
  pub elem_cnt : ℕ
  pub bucket_cnt : ℕ
  pub buckets : ℕ → List ℕ

-- `X & (X - 1)`
unfoldable pub turn_off_least_1bit : ℕ → ℕ
turn_off_least_1bit x = bit_and x ((x + 2 ^ 32 - 1) % 2 ^ 32)

unfoldable pub is_power_of_2 : ℕ → Bool
unfolding turn_off_least_1bit
is_power_of_2 x = not (x == 0) && turn_off_least_1bit x == 0

-- `while (!is_power_of_2 (n)) n = turn_off_least_1bit (n);` on fuel
unfoldable pub power_loop : (fuel : ℕ) → ℕ → Option ℕ
unfolding is_power_of_2 turn_off_least_1bit
power_loop zero n = none
power_loop (suc fuel) n =
    let rest = power_loop fuel (turn_off_least_1bit n) in if is_power_of_2 n then some n else rest

-- One bucket for two elements, and four buckets at least.
abbrev pub wanted_buckets : (elem_cnt : ℕ) → ℕ
wanted_buckets elem_cnt = if ltb (elem_cnt / 2) 4 then 4 else elem_cnt / 2

unfoldable pub new_bucket_cnt : (elem_cnt : ℕ) → Option ℕ
unfolding power_loop
new_bucket_cnt elem_cnt = power_loop (wanted_buckets elem_cnt) (wanted_buckets elem_cnt)

unfoldable pub hash_loop : List ℕ → ℕ → ℕ
hash_loop [] h = h
hash_loop (b ∷ bs) h = hash_loop bs (bit_xor (h * 16777619 % 2 ^ 32) b)

unfoldable pub hash_bytes : List ℕ → ℕ
unfolding hash_loop
hash_bytes bytes = hash_loop bytes 2166136261

-- The bytes of an `int` in memory
unfoldable pub hash_int : ℕ → ℕ
unfolding hash_bytes
hash_int i = hash_bytes (i % 256 ∷ (i / 256 % 256) ∷ (i / 65536 % 256) ∷ (i / 16777216 % 256) ∷ [])

abbrev pub hash_size : Hash → ℕ
hash_size h = h.elem_cnt

abbrev pub hash_empty : Hash → Bool
hash_empty h = h.elem_cnt == 0

-- The elements in the order in which `hash_apply` calls the action, from bucket `i` on.
unfoldable pub apply_loop : (n : ℕ) → (ℕ → List ℕ) → (i : ℕ) → List ℕ
apply_loop zero buckets i = []
apply_loop (suc n) buckets i = buckets i ++ apply_loop n buckets (i + 1)

unfoldable pub hash_apply : Hash → List ℕ
unfolding apply_loop
hash_apply h = apply_loop h.bucket_cnt h.buckets 0

-- `list_init` of each bucket
unfoldable pub clear_loop : (n : ℕ) → (ℕ → List ℕ) → (i : ℕ) → ℕ → List ℕ
clear_loop zero buckets i = buckets
clear_loop (suc n) buckets i = clear_loop n (update buckets i []) (i + 1)

-- The elements on which the destructor is called, and the table.
unfoldable pub hash_clear : Hash → (destructor : Bool) → List ℕ × Hash
unfolding apply_loop clear_loop
hash_clear h destructor = (
  if destructor then apply_loop h.bucket_cnt h.buckets 0 else [],
  record h { elem_cnt = 0; buckets = clear_loop h.bucket_cnt h.buckets 0 },
)

-- `memory` is what the new array holds before `hash_clear`.
unfoldable pub hash_init : (malloc_ok : Bool) → (memory : ℕ → List ℕ) → Bool × Hash
unfolding hash_clear
hash_init malloc_ok memory =
    let h : Hash = record { elem_cnt = 0; bucket_cnt = 4; buckets = memory } in
    if malloc_ok then (true, (hash_clear h false).1) else (false, h)

module _ (less : ℕ → ℕ → Bool) where
  abbrev pub same_key : ℕ → ℕ → Bool
  same_key a b = not (less a b) && not (less b a)

  unfoldable pub find_elem : List ℕ → ℕ → Option ℕ
  find_elem [] e = none
  find_elem (x ∷ xs) e = if same_key x e then some x else find_elem xs e

module _ (hash : ℕ → ℕ) where
  abbrev pub bucket_idx : (bucket_cnt e : ℕ) → ℕ
  bucket_idx bucket_cnt e = bit_and (hash e) ((bucket_cnt + 2 ^ 32 - 1) % 2 ^ 32)

  -- The elements of an old bucket are pushed to the fronts of their new ones.
  unfoldable pub move_bucket : (bucket_cnt : ℕ) → List ℕ → (ℕ → List ℕ) → ℕ → List ℕ
  move_bucket bucket_cnt [] b = b
  move_bucket bucket_cnt (e ∷ es) b =
      move_bucket bucket_cnt es
        (update b (bucket_idx bucket_cnt e) (e ∷ b (bucket_idx bucket_cnt e)))

  unfoldable pub move_buckets :
      (n bucket_cnt : ℕ) → (old : ℕ → List ℕ) → (i : ℕ) → (ℕ → List ℕ) → ℕ → List ℕ
  unfolding move_bucket
  move_buckets zero bucket_cnt old i b = b
  move_buckets (suc n) bucket_cnt old i b =
      move_buckets n bucket_cnt old (i + 1) (move_bucket bucket_cnt (old i) b)

  unfoldable pub install : Hash → (bucket_cnt : ℕ) → Hash
  unfolding move_buckets
  install h bucket_cnt = record h {
    bucket_cnt = bucket_cnt;
    buckets = move_buckets h.bucket_cnt bucket_cnt h.buckets 0 (λ _. []);
  }

  unfoldable pub rehash : Hash → (malloc_ok : Bool) → Option Hash
  unfolding install new_bucket_cnt
  rehash h malloc_ok = do
    n ← new_bucket_cnt h.elem_cnt
    some (if n == h.bucket_cnt then h else if malloc_ok then install h n else h)

  unfoldable pub insert_elem : Hash → ℕ → Hash
  insert_elem h e = record h {
    elem_cnt = (h.elem_cnt + 1) % 2 ^ 32;
    buckets =
        update h.buckets (bucket_idx h.bucket_cnt e) (e ∷ h.buckets (bucket_idx h.bucket_cnt e));
  }

  -- `e` is on the list of its bucket.
  unfoldable pub remove_hash_elem : Hash → ℕ → Hash
  unfolding remove_elem
  remove_hash_elem h e = record h {
    elem_cnt = (h.elem_cnt + 2 ^ 32 - 1) % 2 ^ 32;
    buckets =
        update h.buckets (bucket_idx h.bucket_cnt e)
          (remove_elem e (h.buckets (bucket_idx h.bucket_cnt e)));
  }

  unfoldable pub delete_found :
      Hash → (malloc_ok : Bool) → (found : Option ℕ) → Option (Option ℕ × Hash)
  unfolding rehash remove_hash_elem
  delete_found h malloc_ok none = some (none, h)
  delete_found h malloc_ok (some found) = do
    h' ← rehash (remove_hash_elem h found) malloc_ok
    some (some found, h')

  module _ (less : ℕ → ℕ → Bool) where
    unfoldable pub hash_find : Hash → ℕ → Option ℕ
    unfolding find_elem
    hash_find h e = find_elem less (h.buckets (bucket_idx h.bucket_cnt e)) e

    abbrev pub unless_found : Option ℕ → Hash → Hash → Hash
    unless_found none h h' = h'
    unless_found (some old) h h' = h

    unfoldable pub hash_insert : Hash → (malloc_ok : Bool) → ℕ → Option (Option ℕ × Hash)
    unfolding hash_find insert_elem rehash
    hash_insert h malloc_ok new = do
      h' ← rehash (unless_found (hash_find h new) h (insert_elem h new)) malloc_ok
      some (hash_find h new, h')

    abbrev pub without : Option ℕ → Hash → Hash
    without none h = h
    without (some old) h = remove_hash_elem h old

    unfoldable pub hash_replace : Hash → (malloc_ok : Bool) → ℕ → Option (Option ℕ × Hash)
    unfolding hash_find insert_elem rehash remove_hash_elem
    hash_replace h malloc_ok new = do
      h' ← rehash (insert_elem (without (hash_find h new) h) new) malloc_ok
      some (hash_find h new, h')

    unfoldable pub hash_delete : Hash → (malloc_ok : Bool) → ℕ → Option (Option ℕ × Hash)
    unfolding hash_find delete_found
    hash_delete h malloc_ok e = delete_found h malloc_ok (hash_find h e)
