-- ===== src/Palloc/Apart.antt =====
-- Two requests to `palloc_get_multiple` of src/threads/palloc.c.
use project_os.Base.{
  ℕ, ◌+◌, ◌*◌, ◌≤◌, ◌<◌, ◌≡◌, ◌≢◌, ◌⊎◌, inl, inr, ap, Bool, true, false, some, arith,
}
use project_os.Palloc.{pg_size, Pool, Allocator, pool_of, palloc_get_multiple}
use project_os.Palloc.Get.{IsValid, page_at, Granted}
use project_os.Palloc.Free.{granted}

-- Two grants from a pool with no release between them have no page in common.
Granted-apart :
    (user z1 z2 : Bool) (s t u : Allocator) (n1 n2 i1 i2 : ℕ)
    → 0 < n1
    → 0 < n2
    → Granted user z1 s n1 i1 t
    → Granted user z2 t n2 i2 u
    → (i1 + n1 ≤ i2) ⊎ (i2 + n2 ≤ i1)
Granted-apart user z1 z2 s t u n1 n2 i1 i2 p1 p2 g1 g2 =
    ground (arith, g1.marked.view i1, g1.marked.view i2, g2.first.group i1, g2.first.group i2)

abbrev Disjoint : (p n1 q n2 : ℕ) → Type 0
Disjoint p n1 q n2 = (p + pg_size * n1 ≤ q) ⊎ (q + pg_size * n2 ≤ p)

Granted-Disjoint :
    (a b z1 z2 : Bool) (s t u : Allocator) (n1 n2 i1 i2 : ℕ)
    → IsValid s
    → 0 < n1
    → 0 < n2
    → Granted a z1 s n1 i1 t
    → Granted b z2 t n2 i2 u
    → Disjoint (page_at (pool_of a s) i1) n1 (page_at (pool_of b t) i2) n2
Granted-Disjoint true true z1 z2 s t u n1 n2 i1 i2 v p1 p2 g1 g2 =
    elim (Granted-apart true z1 z2 s t u n1 n2 i1 i2 p1 p2 g1 g2) [
      | inl h ↦ inl (omega (arith, g1.base))
      | inr h ↦ inr (omega (arith, g1.base))
    ]
Granted-Disjoint false false z1 z2 s t u n1 n2 i1 i2 v p1 p2 g1 g2 =
    elim (Granted-apart false z1 z2 s t u n1 n2 i1 i2 p1 p2 g1 g2) [
      | inl h ↦ inl (omega (arith, g1.base))
      | inr h ↦ inr (omega (arith, g1.base))
    ]
Granted-Disjoint true false z1 z2 s t u n1 n2 i1 i2 v p1 p2 g1 g2 =
    let at = ap Pool.base g1.other in
    let size = ap (λ p. p.used_map.bit_cnt) g1.other in
    inr (omega (arith, v.apart, g2.first.fits, at, size))
Granted-Disjoint false true z1 z2 s t u n1 n2 i1 i2 v p1 p2 g1 g2 =
    let at = ap Pool.base g1.other in inl (omega (arith, v.apart, g1.first.fits, at))

-- Two requests to a valid allocator with no release between them, for one page or more of either
-- pool, that both return pages return regions with no byte in common.
pub palloc_get_multiple-Disjoint :
    (s t u : Allocator) (flags1 flags2 n1 n2 pages1 pages2 : ℕ)
    → IsValid s
    → 0 < n1
    → 0 < n2
    → palloc_get_multiple s flags1 n1 ≡ some (pages1, t)
    → pages1 ≢ 0
    → palloc_get_multiple t flags2 n2 ≡ some (pages2, u)
    → pages2 ≢ 0
    → (pages1 + pg_size * n1 ≤ pages2) ⊎ (pages2 + pg_size * n2 ≤ pages1)
palloc_get_multiple-Disjoint s t u f1 f2 n1 n2 pages1 pages2 v p1 p2 e1 ne1 e2 ne2 =
    let (i1, at1, g1) = granted s t f1 n1 pages1 v p1 e1 ne1 in
    let (i2, at2, g2) = granted t u f2 n2 pages2 g1.valid p2 e2 ne2 in
    rw (at1, at2) (Granted-Disjoint _ _ _ _ s t u n1 n2 i1 i2 v p1 p2 g1 g2)
