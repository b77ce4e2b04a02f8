-- ===== src/Palloc.antt =====
-- src/threads/palloc.c: the page allocator, with the address arithmetic of src/threads/vaddr.h.
-- The lock of a pool is held over `bitmap_scan_and_flip` alone, which is one step here.
pub mod Get
pub mod Free
pub mod Apart
mod Tests
use Prim.Native.Nat.{bit_and}
use project_os.Base.{
  ℕ, ◌+◌, ◌-◌, ◌*◌, ◌/◌, ◌%◌, ◌^◌, Bool, true, false, ◌&&◌, ◌||◌, Option, none, some, List, ltb,
  leb, ◌==◌, if◌then◌else◌, assert, ◌>>=◌, ◌>>◌,
}
use project_os.Bitmap.{
  Bitmap, bitmap_buf_size, bitmap_create_in_buf, bitmap_set_multiple, bitmap_scan_and_flip,
}

abbrev pub pg_size : ℕ
pg_size = 4096

abbrev pub pg_no : ℕ → ℕ
pg_no va = va / pg_size

-- `PHYS_BASE`
abbrev pub phys_base : ℕ
phys_base = 0xc000_0000

-- `struct pool`, less its lock.
pub record Pool : Type 0 where
  pub used_map : Bitmap
  pub base : ℕ

-- The two pools, and the bytes of memory by their addresses.
pub record Allocator : Type 0 where
  pub kernel_pool : Pool
  pub user_pool : Pool
  pub memory : ℕ → ℕ

-- `flags & PAL_ASSERT`, and so on.
abbrev pub has_flag : ℕ → ℕ → Bool
has_flag flag flags = elim (bit_and flags flag == 0) [ true ↦ false | false ↦ true ]

abbrev pub pal_assert : ℕ
pal_assert = 1

abbrev pub pal_zero : ℕ
pal_zero = 2

abbrev pub pal_user : ℕ
pal_user = 4

-- `memset (start, value, size)`
abbrev pub fill : (ℕ → ℕ) → (start value size : ℕ) → ℕ → ℕ
fill memory start value size a = if leb start a && ltb a (start + size) then value else memory a

-- `flags & PAL_USER ? &user_pool : &kernel_pool`, and a write through that pointer.
abbrev pub pool_of : (user : Bool) → Allocator → Pool
pool_of true s = s.user_pool
pool_of false s = s.kernel_pool

abbrev pub with_pool : (user : Bool) → Allocator → Pool → Allocator
with_pool true s p = record s { user_pool = p }
with_pool false s p = record s { kernel_pool = p }

-- What follows the search: the address of the pages, 0 for a null pointer.
pages_at : Pool → Option ℕ → ℕ
pages_at p none = 0
pages_at p (some page_idx) = (p.base + pg_size * page_idx) % 2 ^ 32

abbrev pub zeroed : (z : Bool) → Allocator → (pages page_cnt : ℕ) → Allocator
zeroed true s pages page_cnt = record s { memory = fill s.memory pages 0 (pg_size * page_cnt) }
zeroed false s pages page_cnt = s

finish_get : Allocator → (flags page_cnt pages : ℕ) → Option (ℕ × Allocator)
finish_get s flags page_cnt pages =
    if pages == 0
    then (if has_flag pal_assert flags then none else some (0, s))
    else some (pages, zeroed (has_flag pal_zero flags) s pages page_cnt)

get_from : (user : Bool) → Allocator → (flags page_cnt : ℕ) → Option (ℕ × Allocator)
get_from user s flags page_cnt = do
  (found, map) ← bitmap_scan_and_flip (pool_of user s).used_map 0 page_cnt false
  let s' = with_pool user s (record (pool_of user s) { used_map = map })
  finish_get s' flags page_cnt (pages_at (pool_of user s) found)

pub palloc_get_multiple : Allocator → (flags page_cnt : ℕ) → Option (ℕ × Allocator)
unfolding pages_at finish_get get_from
palloc_get_multiple s flags page_cnt =
    if page_cnt == 0 then some (0, s) else get_from (has_flag pal_user flags) s flags page_cnt

pub palloc_get_page : Allocator → ℕ → Option (ℕ × Allocator)
palloc_get_page s flags = palloc_get_multiple s flags 1

pub page_from_pool : Pool → ℕ → Bool
page_from_pool p page =
    leb (pg_no p.base) (pg_no page)
    && ltb (pg_no page) ((pg_no p.base + p.used_map.bit_cnt) % 2 ^ 32)

-- `pg_no (pages) - pg_no (pool->base)`, with its wrap.
page_idx_of : Pool → ℕ → ℕ
page_idx_of p pages = (pg_no pages + 2 ^ 32 - pg_no p.base) % 2 ^ 32

release : Pool → (pages page_cnt : ℕ) → Option Pool
unfolding page_idx_of
release p pages page_cnt = do
  map ← bitmap_set_multiple p.used_map (page_idx_of p pages) page_cnt false
  some (record p { used_map = map })

-- `memset (pages, 0xcc, …)` comes before the bitmap is changed; NDEBUG is not defined.
junked : Allocator → (pages page_cnt : ℕ) → ℕ → ℕ
junked s pages page_cnt = fill s.memory pages 0xcc (pg_size * page_cnt)

free_kernel : Allocator → (pages page_cnt : ℕ) → Option Allocator
free_kernel s pages page_cnt = do
  p ← release s.kernel_pool pages page_cnt
  some (record s { kernel_pool = p; memory = junked s pages page_cnt })

free_user : Allocator → (pages page_cnt : ℕ) → Option Allocator
free_user s pages page_cnt = do
  p ← release s.user_pool pages page_cnt
  some (record s { user_pool = p; memory = junked s pages page_cnt })

pub palloc_free_multiple : Allocator → (pages page_cnt : ℕ) → Option Allocator
unfolding page_from_pool release free_kernel free_user junked
palloc_free_multiple s pages page_cnt = do
  assert (pages % pg_size == 0)
  if pages == 0 || page_cnt == 0
      then some s
      else if page_from_pool s.kernel_pool pages
      then free_kernel s pages page_cnt
      else if page_from_pool s.user_pool pages
      then free_user s pages page_cnt
      else none

pub palloc_free_page : Allocator → ℕ → Option Allocator
palloc_free_page s page = palloc_free_multiple s page 1

-- `init_pool`; `block` is what the pool's first pages hold, from the elements of the bitmap on.
pub init_pool : (base page_cnt : ℕ) → (block : List ℕ) → Option Pool
init_pool base page_cnt block =
    let bm_pages = (bitmap_buf_size page_cnt + pg_size - 1) / pg_size in
    do
      assert (leb bm_pages page_cnt)
      map ← bitmap_create_in_buf (page_cnt - bm_pages) block (bm_pages * pg_size)
      some (record { used_map = map; base = base + bm_pages * pg_size })

abbrev pub least : ℕ → ℕ → ℕ
least a b = if ltb b a then b else a

-- `palloc_init`, of a machine with `ram_pages` pages; the blocks are as for `init_pool`.
pub palloc_init :
    (user_page_limit ram_pages : ℕ)
    → (kernel_block user_block : List ℕ) → (memory : ℕ → ℕ) → Option Allocator
unfolding init_pool
palloc_init user_page_limit ram_pages kernel_block user_block memory =
    let free_start = phys_base + 1024 * 1024 in
    let free_pages = (phys_base + ram_pages * pg_size - free_start) / pg_size in
    let user_pages = least (free_pages / 2) user_page_limit in
    let kernel_pages = free_pages - user_pages in
    do
      kernel ← init_pool free_start kernel_pages kernel_block
      user ← init_pool (free_start + kernel_pages * pg_size) user_pages user_block
      some (record { kernel_pool = kernel; user_pool = user; memory = memory })
