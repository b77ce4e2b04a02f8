-- ===== src/Palloc/Tests.antt =====
-- Two pools of eight pages, and runs of the allocator on them.
use project_os.Base.{ℕ, ◌+◌, ◌*◌, ◌≤◌, ◌≡◌, ◌⊎◌, refl, none, some, [], ◌∷◌, arith}
use project_os.Bitmap.{bitmap_scan_and_flip, bitmap_create_in_buf}
use project_os.Bitmap.View.{holds}
use project_os.Palloc.{
  pg_size, Allocator, has_flag, pal_user, pool_of, palloc_get_multiple, palloc_get_page,
  palloc_free_multiple, palloc_free_page, init_pool, palloc_init,
}
use project_os.Palloc.Get.{IsValid, Gets, palloc_get_multiple-Gets}
use project_os.Palloc.Free.{palloc_free-get}
use project_os.Palloc.Apart.{palloc_get_multiple-Disjoint}

-- The first two pages of the kernel's eight are used.
abbrev sample : Allocator
sample = record {
  kernel_pool = record { used_map = record { bit_cnt = 8; bits = 3 ∷ [] }; base = 0xc010_0000 };
  user_pool = record { used_map = record { bit_cnt = 8; bits = 0 ∷ [] }; base = 0xc010_8000 };
  memory = λ _. 7;
}

sample-IsValid : IsValid sample
sample-IsValid = record {
  kernel = record {
    map = record { small = omega arith; stored = omega arith; words = (omega arith, tt) };
    aligned = refl;
    placed = omega arith;
    room = omega arith;
  };
  user = record {
    map = record { small = omega arith; stored = omega arith; words = (omega arith, tt) };
    aligned = refl;
    placed = omega arith;
    room = omega arith;
  };
  apart = omega arith;
}

-- The kernel pool after a grant of two pages, and the user pool after a grant of one.
abbrev after : Allocator
after = record sample {
  kernel_pool = record { used_map = record { bit_cnt = 8; bits = 15 ∷ [] }; base = 0xc010_0000 };
}

abbrev after_both : Allocator
after_both = record after {
  user_pool = record { used_map = record { bit_cnt = 8; bits = 1 ∷ [] }; base = 0xc010_8000 };
}

first_grant : palloc_get_multiple sample 0 2 ≡ some (0xc010_2000, after)
unfolding palloc_get_multiple bitmap_scan_and_flip
first_grant = refl

second_grant : palloc_get_multiple after 4 1 ≡ some (0xc010_8000, after_both)
unfolding palloc_get_multiple bitmap_scan_and_flip
second_grant = refl

one_page_runs :
    (palloc_get_page after 4 ≡ some (0xc010_8000, after_both))
    × (palloc_free_page after 4097 ≡ none)
unfolding palloc_get_page palloc_get_multiple palloc_free_page palloc_free_multiple
    bitmap_scan_and_flip
one_page_runs = (refl, refl)

-- A page of the map leaves seven for the pool.
pool_of_eight :
    init_pool 4096 8 (255 ∷ [])
    ≡ some (record { used_map = record { bit_cnt = 7; bits = 128 ∷ [] }; base = 8192 })
unfolding init_pool bitmap_create_in_buf
pool_of_eight = refl

-- Memory that is too small for the bitmap of its kernel pool.
no_memory : palloc_init 0 256 [] [] (λ _. 0) ≡ none
unfolding palloc_init
no_memory = refl

palloc_get_multiple-Gets_example :
    Gets (has_flag pal_user 0) sample 0 2 (palloc_get_multiple sample 0 2)
palloc_get_multiple-Gets_example = palloc_get_multiple-Gets sample 0 2 sample-IsValid (omega arith)

palloc_free-get_example :
    (s'' : Allocator) × (palloc_free_multiple after 0xc010_2000 2 ≡ some s'')
    × IsValid s''
    × ((j : ℕ)
        → holds (pool_of (has_flag pal_user 0) s'').used_map j
          ≡ holds (pool_of (has_flag pal_user 0) sample).used_map j)
palloc_free-get_example =
    palloc_free-get sample after 0 2 0xc010_2000 sample-IsValid (omega arith) first_grant
      (λ e. absurd (omega arith))

palloc_get_multiple-Disjoint_example :
    (0xc010_2000 + pg_size * 2 ≤ 0xc010_8000) ⊎ (0xc010_8000 + pg_size * 1 ≤ 0xc010_2000)
palloc_get_multiple-Disjoint_example =
    palloc_get_multiple-Disjoint sample after after_both 0 4 2 1 0xc010_2000 0xc010_8000
      sample-IsValid (omega arith) (omega arith) first_grant (λ e. absurd (omega arith))
      second_grant (λ e. absurd (omega arith))
