-- ===== src/Palloc/Get.antt =====
-- `palloc_get_multiple`: which pages it hands out.
use Prim.Native.Nat.{zero-le}
use project_os.Base.{
  ℕ, zero, suc, ◌+◌, ◌*◌, ◌%◌, ◌^◌, ◌≤◌, ◌<◌, ◌≡◌, ◌⊎◌, refl, inl, inr, Bool, true, false, not,
  Option, none, some, arith, ◌==◌, if◌then◌else◌,
}
use project_os.Bitmap
use project_os.Bitmap.{Bitmap, bitmap_scan_and_flip}
use project_os.Bitmap.View.{holds}
use project_os.Bitmap.Range.{Filled}
use project_os.Bitmap.Scan.{IsFirst, NoGroup, Flipped, bitmap_scan_and_flip-Flipped}
use project_os.Palloc.{
  pg_size, Pool, Allocator, has_flag, pal_assert, pal_zero, pal_user, fill, pool_of, with_pool,
  zeroed, get_from, pages_at, finish_get, palloc_get_multiple,
}

-- A pool is page-aligned, and its pages are addresses that do not wrap.
pub record IsPool (p : Pool) : Type 0 where
  pub map : Bitmap.View.IsValid p.used_map
  pub aligned : p.base % pg_size ≡ 0
  pub placed : 0 < p.base
  pub room : p.base + pg_size * p.used_map.bit_cnt ≤ 2 ^ 32

-- The kernel pool lies below the user pool.
pub record IsValid (s : Allocator) : Type 0 where
  pub kernel : IsPool s.kernel_pool
  pub user : IsPool s.user_pool
  pub apart : s.kernel_pool.base + pg_size * s.kernel_pool.used_map.bit_cnt ≤ s.user_pool.base

pub pool_of-IsPool : (user : Bool) (s : Allocator) → IsValid s → IsPool (pool_of user s)
pool_of-IsPool true s v = v.user
pool_of-IsPool false s v = v.kernel

abbrev pub page_at : Pool → ℕ → ℕ
page_at p i = p.base + pg_size * i

-- Page `i` of the chosen pool begins the `page_cnt` pages granted: all were free, they are the
-- first such group, they are marked used and nothing else in the pool is, the other pool is as it
-- was, and the pages are zeroed if `z` says so.
pub record Granted (user z : Bool) (s : Allocator) (page_cnt i : ℕ) (s' : Allocator) : Type 0 where
  pub valid : IsValid s'
  pub first : IsFirst (pool_of user s).used_map 0 page_cnt false i
  pub marked : Filled (pool_of user s).used_map (pool_of user s').used_map i page_cnt true
  pub base : (pool_of user s').base ≡ (pool_of user s).base
  pub other : pool_of (not user) s' ≡ pool_of (not user) s
  pub bytes :
      s'.memory
      ≡ (if z then fill s.memory (page_at (pool_of user s) i) 0 (pg_size * page_cnt) else s.memory)

abbrev pub with_map : (user : Bool) → Allocator → Bitmap → Allocator
with_map user s map = with_pool user s (record (pool_of user s) { used_map = map })

-- A pool with a map of the same size in place of its own is a pool still.
remap-IsPool :
    (p : Pool) (map : Bitmap)
    → IsPool p
    → Bitmap.View.IsValid map
    → map.bit_cnt ≡ p.used_map.bit_cnt
    → IsPool (record p { used_map = map })
remap-IsPool p map v w e = record {
  map = w;
  aligned = v.aligned;
  placed = v.placed;
  room = rw e v.room;
}

pub with_map-IsValid :
    (user : Bool) (s : Allocator) (map : Bitmap)
    → IsValid s
    → Bitmap.View.IsValid map
    → map.bit_cnt ≡ (pool_of user s).used_map.bit_cnt
    → IsValid (with_map user s map)
with_map-IsValid true s map v w e = record {
  kernel = v.kernel;
  user = remap-IsPool s.user_pool map v.user w e;
  apart = v.apart;
}
with_map-IsValid false s map v w e = record {
  kernel = remap-IsPool s.kernel_pool map v.kernel w e;
  user = v.user;
  apart = rw e v.apart;
}

module _ (s : Allocator) (page_cnt i : ℕ) (map : Bitmap) (v : IsValid s) where
  zeroed-Granted :
      (user z : Bool)
      → IsFirst (pool_of user s).used_map 0 page_cnt false i
      → Filled (pool_of user s).used_map map i page_cnt true
      → Granted user z s page_cnt i
          (zeroed z (with_map user s map) (page_at (pool_of user s) i) page_cnt)
  zeroed-Granted true true f m = record {
    valid = remade (with_map-IsValid true s map v m.valid m.size);
    first = f;
    marked = m;
    base = refl;
    other = refl;
    bytes = refl;
  }
    where
      remade :
          IsValid (with_map true s map)
          → IsValid (zeroed true (with_map true s map) (page_at s.user_pool i) page_cnt)
      remade w = record { kernel = w.kernel; user = w.user; apart = w.apart }
  zeroed-Granted true false f m = record {
    valid = with_map-IsValid true s map v m.valid m.size;
    first = f;
    marked = m;
    base = refl;
    other = refl;
    bytes = refl;
  }
  zeroed-Granted false true f m = record {
    valid = remade (with_map-IsValid false s map v m.valid m.size);
    first = f;
    marked = m;
    base = refl;
    other = refl;
    bytes = refl;
  }
    where
      remade :
          IsValid (with_map false s map)
          → IsValid (zeroed true (with_map false s map) (page_at s.kernel_pool i) page_cnt)
      remade w = record { kernel = w.kernel; user = w.user; apart = w.apart }
  zeroed-Granted false false f m = record {
    valid = with_map-IsValid false s map v m.valid m.size;
    first = f;
    marked = m;
    base = refl;
    other = refl;
    bytes = refl;
  }

with_map_same : (user : Bool) (s : Allocator) → with_map user s (pool_of user s).used_map ≡ s
with_map_same true s = refl
with_map_same false s = refl

abbrev pub Gets : (user : Bool) → Allocator → (flags page_cnt : ℕ) → Option (ℕ × Allocator) → Type 0
Gets user s flags page_cnt r =
    ((i : ℕ) × (s' : Allocator) × (r ≡ some (page_at (pool_of user s) i, s'))
      × Granted user (has_flag pal_zero flags) s page_cnt i s')
    ⊎ (NoGroup (pool_of user s).used_map 0 page_cnt false
        × (r ≡ (if has_flag pal_assert flags then none else some (0, s))))

-- The address of a page of a pool neither wraps nor is null.
pages_at-page_at :
    (p : Pool) (i n : ℕ)
    → IsPool p
    → i + suc n ≤ p.used_map.bit_cnt
    → (pages_at p (some i) ≡ page_at p i) × ((page_at p i == 0) ≡ false)
unfolding pages_at
pages_at-page_at p i n v h =
    let small : page_at p i < 2 ^ 32 = omega (arith, v.room) in
    let pos : 0 < page_at p i = omega (arith, v.placed) in (omega arith, ground arith)

get_from-Gets_of :
    (user : Bool) (s : Allocator) (flags n : ℕ) (r : Option ℕ) (map : Bitmap)
    → IsValid s
    → bitmap_scan_and_flip (pool_of user s).used_map 0 (suc n) false ≡ some (r, map)
    → Flipped (pool_of user s).used_map 0 (suc n) false r map
    → Gets user s flags (suc n) (get_from user s flags (suc n))
unfolding get_from pages_at finish_get
get_from-Gets_of user s flags n (some i) map v e (f, m) =
    let (a, pos) = pages_at-page_at (pool_of user s) i n (pool_of-IsPool user s v) f.fits in
    inl (
      i,
      zeroed (has_flag pal_zero flags) (with_map user s map) (page_at (pool_of user s) i) (suc n),
      rw (e, a, pos) refl,
      zeroed-Granted s (suc n) i map v user _ f m,
    )
get_from-Gets_of user s flags n none map v e (g, same) = inr (g, rw (e, same, with_map_same) refl)

-- A request to a valid allocator for one page or more either is granted, with the first free group of the pool chosen by PAL_USER,
-- or, if the pool has no such group, returns a null pointer and changes nothing, or panics if
-- PAL_ASSERT asks for it.
pub palloc_get_multiple-Gets :
    (s : Allocator) (flags page_cnt : ℕ)
    → IsValid s
    → 0 < page_cnt
    → Gets (has_flag pal_user flags) s flags page_cnt (palloc_get_multiple s flags page_cnt)
unfolding palloc_get_multiple
palloc_get_multiple-Gets s flags zero v h = elim h [ ]
palloc_get_multiple-Gets s flags (suc n) v h =
    let user = has_flag pal_user flags in
    let (r, map, e, f) =
      bitmap_scan_and_flip-Flipped (pool_of user s).used_map 0 (suc n) false
        (pool_of-IsPool user s v).map zero-le in
    let asks : (suc n == 0) ≡ false = ground arith in
    rw asks (get_from-Gets_of user s flags n r map v e f)
