-- ===== src/CString/Move.antt =====
-- `memcpy`, `memmove` and `memset`: what they leave in memory, and what they return.
use project_os.Base.{
  ℕ, zero, suc, ◌+◌, ◌-◌, ◌%◌, ◌≤◌, ◌<◌, ◌≡◌, ◌⊎◌, refl, ap, inl, inr, arith, ltb, if◌then◌else◌,
  Bool-cases, ◌∙◌, not, ◌||◌, ◌==◌, ◌≢◌, some, none, assert-true,
}
use project_os.CString.{Memory, store, copy_up, copy_down, memcpy, memmove, memset, memset_loop}
use project_os.CString.Memory.{is_inside, moved, Apart}

read_shift :
    (mem : Memory) (a dst src : ℕ)
    → dst < a
    → mem (src + 1 + (a - (dst + 1))) ≡ mem (src + (a - dst))
read_shift mem a dst src h = ap mem (omega arith)

read_here : (mem : Memory) (a dst src : ℕ) → a ≡ dst → mem (src + (a - dst)) ≡ mem src
read_here mem a dst src h = ap mem (omega arith)

copy_up-moved :
    (n : ℕ) (mem : Memory) (dst src a : ℕ)
    → (dst ≤ src) ⊎ (src + n ≤ dst)
    → (copy_up n mem dst src).1 a ≡ moved mem dst src n a
unfolding copy_up
copy_up-moved zero mem dst src a h = ground arith
copy_up-moved (suc n) mem dst src a h = ground (
  arith,
  copy_up-moved n (store mem dst (mem src)) (dst + 1) (src + 1) a,
  read_shift mem a dst src,
  read_here mem a dst src,
)

copy_up-end : (n : ℕ) (mem : Memory) (dst src : ℕ) → (copy_up n mem dst src).0 ≡ dst + n
unfolding copy_up
copy_up-end zero mem dst src = omega arith
copy_up-end (suc n) mem dst src =
    omega (arith, copy_up-end n (store mem dst (mem src)) (dst + 1) (src + 1))

read_last :
    (mem : Memory) (a dst src n s : ℕ)
    → a ≡ dst + n
    → s ≡ src + suc n
    → mem (src + (a - dst)) ≡ mem (s - 1)
read_last mem a dst src n s h e = ap mem (omega arith)

-- The loop begins at the ends `d` and `s` of the two regions.
copy_down-moved :
    (n : ℕ) (mem : Memory) (dst src d s a : ℕ)
    → (src ≤ dst) ⊎ (dst + n ≤ src)
    → d ≡ dst + n
    → s ≡ src + n
    → (copy_down n mem d s).1 a ≡ moved mem dst src n a
unfolding copy_down
copy_down-moved zero mem dst src d s a h p q = ground arith
copy_down-moved (suc n) mem dst src d s a h p q = ground (
  arith,
  copy_down-moved n (store mem (d - 1) (mem (s - 1))) dst src (d - 1) (s - 1) a,
  read_last mem a dst src n s,
)

copy_down-end : (n : ℕ) (mem : Memory) (dst d s : ℕ) → d ≡ dst + n → (copy_down n mem d s).0 ≡ dst
unfolding copy_down
copy_down-end zero mem dst d s p = omega arith
copy_down-end (suc n) mem dst d s p =
    copy_down-end n (store mem (d - 1) (mem (s - 1))) dst (d - 1) (s - 1) (omega arith)

-- What the loop of `memmove` leaves, with the pointer that it has moved.
abbrev Moves : Memory → (dst src size : ℕ) → ℕ × Memory → Type 0
Moves mem dst src size r =
    ((a : ℕ) → r.1 a ≡ moved mem dst src size a) × (r.0 ≡ (if ltb dst src then dst + size else dst))

moves :
    (mem : Memory) (dst src size : ℕ)
    → Moves mem dst src size (
        if ltb dst src
        then copy_up size mem dst src
        else copy_down size mem (dst + size) (src + size))
moves mem dst src size = elim (Bool-cases (ltb dst src)) [
  | inl before ↦
      rw before
        ((λ a. copy_up-moved size mem dst src a (inl (ground arith))), copy_up-end size mem dst src)
  | inr after ↦ rw after (
    (λ a. copy_down-moved size mem dst src _ _ a (inl (ground arith)) refl refl),
    copy_down-end size mem dst (dst + size) (src + size) refl,
  )
]

-- With pointers that are not null, or a size of 0, `memmove` moves every byte of the source as it was
-- before, whether the regions overlap or not, and changes nothing outside the destination. It returns
-- `dst` if that is not before `src`, and the end of the destination if it is. With a null pointer and
-- a size above 0 it panics.
pub memmove-moved :
    (mem : Memory) (dst src size : ℕ)
    → ((dst ≢ 0) × (src ≢ 0) ⊎ (size ≡ 0)
        → (end : ℕ) × (mem' : Memory) × (memmove mem dst src size ≡ some (end, mem'))
          × ((a : ℕ) → mem' a ≡ moved mem dst src size a)
          × (end ≡ (if ltb dst src then dst + size else dst)))
      × ((dst ≡ 0) ⊎ (src ≡ 0) → 0 < size → memmove mem dst src size ≡ none)
unfolding memmove
memmove-moved mem dst src size = (
  λ h.
      let (bytes, back) = moves mem dst src size in
      (
        _,
        _,
        assert-true (not (dst == 0) || size == 0) _ (ground (arith, h))
            ∙ assert-true (not (src == 0) || size == 0) _ (ground (arith, h)),
        bytes,
        back,
      ),
  λ h some_size. ground (arith, h),
)

-- `memcpy` of regions that do not overlap copies the source, changes nothing else and returns `dst`.
pub memcpy-moved :
    (mem : Memory) (dst src size : ℕ)
    → Apart dst src size size
    → ((a : ℕ) → (memcpy mem dst src size).1 a ≡ moved mem dst src size a)
      × ((memcpy mem dst src size).0 ≡ dst)
unfolding memcpy
memcpy-moved mem dst src size h = ((λ a. copy_up-moved size mem dst src a (clear h)), refl)
  where
    clear : Apart dst src size size → (dst ≤ src) ⊎ (src + size ≤ dst)
    clear (inl before) = inl (omega arith)
    clear (inr after) = inr after

memset_loop-filled :
    (n : ℕ) (mem : Memory) (dst value a : ℕ)
    → memset_loop n mem dst value a ≡ (if is_inside dst n a then value % 256 else mem a)
unfolding memset_loop
memset_loop-filled zero mem dst value a = ground arith
memset_loop-filled (suc n) mem dst value a =
    ground (arith, memset_loop-filled n (store mem dst (value % 256)) (dst + 1) value a)

-- `memset` sets the bytes of the region to the low byte of the value, and no other, and returns `dst`.
pub memset-filled :
    (mem : Memory) (dst value size : ℕ)
    → ((a : ℕ)
        → (memset mem dst value size).1 a ≡ (if is_inside dst size a then value % 256 else mem a))
      × ((memset mem dst value size).0 ≡ dst)
unfolding memset
memset-filled mem dst value size = (memset_loop-filled size mem dst value, refl)
