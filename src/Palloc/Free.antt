-- ===== src/Palloc/Free.antt =====
-- `palloc_free_multiple` of src/threads/palloc.c, alone and after `palloc_get_multiple`.
use project_os.Base.{
  ℕ, zero, suc, ◌+◌, ◌*◌, ◌%◌, ◌^◌, ◌≤◌, ◌<◌, ◌≡◌, ◌≢◌, inl, inr, refl, sym, ◌∙◌, Bool, true, false,
  not, ◌||◌, Option, some, arith, ◌==◌,
}
use project_os.Bitmap.{Bitmap}
use project_os.Bitmap.View.{holds}
use project_os.Bitmap.Range.{Filled, bitmap_set_multiple-Filled}
use project_os.Palloc.{
  pg_size, pg_no, Pool, Allocator, has_flag, pal_zero, pal_user, fill, pool_of, page_from_pool,
  page_idx_of, palloc_get_multiple, palloc_free_multiple,
}
use project_os.Palloc.Get.{
  IsPool, IsValid, page_at, with_map, with_map-IsValid, Granted, palloc_get_multiple-Gets,
}

-- The `n` pages from page `i` of the chosen pool on are free, and filled with 0xcc; no other page
-- changes its state, and the other pool is as it was.
pub record Freed (user : Bool) (s : Allocator) (n i : ℕ) (s' : Allocator) : Type 0 where
  pub valid : IsValid s'
  pub cleared : Filled (pool_of user s).used_map (pool_of user s').used_map i n false
  pub base : (pool_of user s').base ≡ (pool_of user s).base
  pub other : pool_of (not user) s' ≡ pool_of (not user) s
  pub bytes : s'.memory ≡ fill s.memory (page_at (pool_of user s) i) 0xcc (pg_size * n)

module _ (p : Pool) (i n : ℕ) (v : IsPool p) (h : i + suc n ≤ p.used_map.bit_cnt) where
  page_idx_of-page_at : page_idx_of p (page_at p i) ≡ i
  unfolding page_idx_of
  page_idx_of-page_at = omega (arith, v.aligned, v.room)

  page_from_pool_own : page_from_pool p (page_at p i) ≡ true
  unfolding page_from_pool
  page_from_pool_own =
      let lower : pg_no p.base ≤ pg_no (page_at p i) = omega (arith, v.aligned) in
      let upper : pg_no (page_at p i) < (pg_no p.base + p.used_map.bit_cnt) % 2 ^ 32 =
        omega (arith, v.aligned, v.room) in
      ground arith

  -- A page of another pool that lies wholly below is told apart.
  page_from_pool_other :
      (q : Pool)
      → IsPool q
      → q.base + pg_size * q.used_map.bit_cnt ≤ p.base
      → page_from_pool q (page_at p i) ≡ false
  unfolding page_from_pool
  page_from_pool_other q w apart =
      let beyond : (pg_no q.base + q.used_map.bit_cnt) % 2 ^ 32 ≤ pg_no (page_at p i) =
        omega (arith, v.aligned, w.aligned, v.room, w.room) in
      ground arith

  not_null : ((page_at p i % pg_size == 0) ≡ true) × (((page_at p i == 0) || (suc n == 0)) ≡ false)
  not_null =
      let rem : page_at p i % pg_size ≡ 0 = omega (arith, v.aligned) in
      let pos : 0 < page_at p i = omega (arith, v.placed) in (ground arith, ground arith)

with_map_junk : (user : Bool) → Allocator → Bitmap → (pages n : ℕ) → Allocator
with_map_junk user s map pages n = record (with_map user s map) {
  memory = fill s.memory pages 0xcc (pg_size * n);
}

with_map_junk-Freed :
    (user : Bool) (s : Allocator) (map : Bitmap) (n i : ℕ)
    → IsValid s
    → Filled (pool_of user s).used_map map i n false
    → Freed user s n i (with_map_junk user s map (page_at (pool_of user s) i) n)
unfolding with_map_junk
with_map_junk-Freed true s map n i v f =
    let w = with_map-IsValid true s map v f.valid f.size in
    record {
      valid = record { kernel = w.kernel; user = w.user; apart = w.apart };
      cleared = f;
      base = refl;
      other = refl;
      bytes = refl;
    }
with_map_junk-Freed false s map n i v f =
    let w = with_map-IsValid false s map v f.valid f.size in
    record {
      valid = record { kernel = w.kernel; user = w.user; apart = w.apart };
      cleared = f;
      base = refl;
      other = refl;
      bytes = refl;
    }

-- Freeing one page or more of either pool of a valid allocator succeeds: it marks exactly those
-- pages free and fills them with 0xcc.
pub palloc_free_multiple-Freed :
    (user : Bool) (s : Allocator) (n i : ℕ)
    → IsValid s
    → 0 < n
    → i + n ≤ (pool_of user s).used_map.bit_cnt
    → (s' : Allocator) × (palloc_free_multiple s (page_at (pool_of user s) i) n ≡ some s')
      × Freed user s n i s'
unfolding palloc_free_multiple with_map_junk
palloc_free_multiple-Freed user s zero i v pos h = elim pos [ ]
palloc_free_multiple-Freed true s (suc n) i v pos h =
    let p = s.user_pool in
    let (map, e, f) = bitmap_set_multiple-Filled p.used_map i (suc n) v.user.map h false in
    let (a, b) = not_null p i n v.user h in
    (
      with_map_junk true s map (page_at p i) (suc n),
      rw (
        a,
        b,
        page_from_pool_other p i n v.user h s.kernel_pool v.kernel v.apart,
        page_from_pool_own p i n v.user h,
        page_idx_of-page_at p i n v.user h,
        e,
      ),
      with_map_junk-Freed true s map (suc n) i v f,
    )
palloc_free_multiple-Freed false s (suc n) i v pos h =
    let p = s.kernel_pool in
    let (map, e, f) = bitmap_set_multiple-Filled p.used_map i (suc n) v.kernel.map h false in
    let (a, b) = not_null p i n v.kernel h in
    (
      with_map_junk false s map (page_at p i) (suc n),
      rw (a, b, page_from_pool_own p i n v.kernel h, page_idx_of-page_at p i n v.kernel h, e),
      with_map_junk-Freed false s map (suc n) i v f,
    )

-- What was granted can be freed, and then the pool is as free as it was before the grant.
Freed-Granted :
    (user z : Bool) (s s' : Allocator) (n i : ℕ)
    → 0 < n
    → Granted user z s n i s'
    → (s'' : Allocator) × (palloc_free_multiple s' (page_at (pool_of user s) i) n ≡ some s'')
      × IsValid s''
      × ((j : ℕ) → holds (pool_of user s'').used_map j ≡ holds (pool_of user s).used_map j)
Freed-Granted user z s s' n i pos g =
    let fits : i + n ≤ (pool_of user s').used_map.bit_cnt = rw (g.marked.size) g.first.fits in
    let (s'', e, f) = palloc_free_multiple-Freed user s' n i g.valid pos fits in
    (
      s'',
      rw (← g.base) e,
      f.valid,
      λ j. ground (arith, f.cleared.view j, g.marked.view j, g.first.group j),
    )

-- A request that returns pages has been granted them.
pub granted :
    (s s' : Allocator) (flags n pages : ℕ)
    → IsValid s
    → 0 < n
    → palloc_get_multiple s flags n ≡ some (pages, s')
    → pages ≢ 0
    → (i : ℕ) × (pages ≡ page_at (pool_of (has_flag pal_user flags) s) i)
      × Granted (has_flag pal_user flags) (has_flag pal_zero flags) s n i s'
granted s s' flags n pages v pos e ne = elim (palloc_get_multiple-Gets s flags n v pos) [
  | inl (i, t, e', g) ↦
      let both : ◌≡◌ {A = Option (ℕ × Allocator)} (some (pages, s'))
          (some (page_at (pool_of (has_flag pal_user flags) s) i, t)) =
        sym e ∙ e' in
      let at : pages ≡ page_at (pool_of (has_flag pal_user flags) s) i = cc in
      let state : s' ≡ t = cc in (i, at, rw state g)
  | inr (g, e') ↦ absurd (ne (ground arith))
]

-- If a request to a valid allocator for one page or more returns pages, freeing them succeeds and
-- leaves every page of the pool free or used as it was before the request.
pub palloc_free-get :
    (s s' : Allocator) (flags page_cnt pages : ℕ)
    → IsValid s
    → 0 < page_cnt
    → palloc_get_multiple s flags page_cnt ≡ some (pages, s')
    → pages ≢ 0
    → (s'' : Allocator) × (palloc_free_multiple s' pages page_cnt ≡ some s'')
      × IsValid s''
      × ((j : ℕ)
          → holds (pool_of (has_flag pal_user flags) s'').used_map j
            ≡ holds (pool_of (has_flag pal_user flags) s).used_map j)
palloc_free-get s s' flags n pages v pos e ne =
    let (i, at, g) = granted s s' flags n pages v pos e ne in
    rw at (Freed-Granted _ _ s s' n i pos g)
