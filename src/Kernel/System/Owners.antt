-- ===== src/Kernel/System/Owners.antt =====
-- Who owns a lock, apart from the rest of the kernel: the holders `h`, the values `v` of the locks'
-- semaphores, and which threads have taken a semaphore and not set the holder yet, `c`.
use project_os.Base.{
  ℕ, ◌+◌, ◌≤◌, ◌<◌, ◌≡◌, ◌≢◌, Bool, true, false, not, ◌&&◌, ◌||◌, Option, none, some, arith, ◌==◌,
}
use project_os.Kernel.{points_to}

pub record Excl (h : ℕ → Option ℕ) (v : ℕ → ℕ) (c : ℕ → ℕ → Bool) : Type 0 where
  pub one :
      (l t u : ℕ)
      → (points_to (h l) t || c l t) ≡ true
      → (points_to (h l) u || c l u) ≡ true
      → t ≡ u
  pub free : (l t : ℕ) → 0 < v l → (points_to (h l) t || c l t) ≡ false
  pub low : (l : ℕ) → v l ≤ 1

module _ (h : ℕ → Option ℕ) (v : ℕ → ℕ) (c : ℕ → ℕ → Bool) (x : Excl h v c) where
  pub Excl-same :
      (h' : ℕ → Option ℕ) (v' : ℕ → ℕ) (c' : ℕ → ℕ → Bool)
      → ((l : ℕ) → h' l ≡ h l)
      → ((l : ℕ) → v' l ≡ v l)
      → ((l t : ℕ) → c' l t ≡ c l t)
      → Excl h' v' c'
  Excl-same h' v' c' eh ev ec = record {
    one = λ l t u a b. x.one l t u (rw (← eh l, ← ec l t) a) (rw (← eh l, ← ec l u) b);
    free = λ l t p. rw (eh l, ec l t) (x.free l t (rw (← ev l) p));
    low = λ l. rw (ev l) (x.low l);
  }

  -- `t0` takes the semaphore of `l0`.
  pub Excl-take :
      (v' : ℕ → ℕ) (c' : ℕ → ℕ → Bool) (l0 t0 : ℕ)
      → v' l0 + 1 ≡ v l0
      → ((l : ℕ) → l ≢ l0 → v' l ≡ v l)
      → ((l t : ℕ) → c' l t ≡ ((l == l0 && t == t0) || c l t))
      → Excl h v' c'
  Excl-take v' c' l0 t0 e ev ec = record {
    one = λ l t u. ground (arith, x.one l t u, x.free l t, x.free l u, ec l t, ec l u);
    free = λ l t. ground (arith, x.free l t, x.low l, ev l, ec l t);
    low = λ l. ground (arith, x.low l, ev l);
  }

  -- `t0`, which has taken the semaphore of `l0`, becomes its holder.
  pub Excl-own :
      (h' : ℕ → Option ℕ) (c' : ℕ → ℕ → Bool) (l0 t0 : ℕ)
      → c l0 t0 ≡ true
      → h' l0 ≡ some t0
      → ((l : ℕ) → l ≢ l0 → h' l ≡ h l)
      → ((l t : ℕ) → c' l t ≡ (c l t && not (l == l0 && t == t0)))
      → Excl h' v c'
  Excl-own h' c' l0 t0 took e eh ec = record {
    one = λ l t u. ground (arith, x.one l t u, x.one l0 t0 t, x.one l0 t0 u, eh l, ec l t, ec l u);
    free = λ l t. ground (arith, x.free l t, x.free l0 t0, eh l, ec l t);
    low = x.low;
  }

  -- The holder `t0` of `l0` gives it up.
  pub Excl-release :
      (h' : ℕ → Option ℕ) (v' : ℕ → ℕ) (l0 t0 : ℕ)
      → points_to (h l0) t0 ≡ true
      → ((l : ℕ) → c l t0 ≡ false)
      → h' l0 ≡ none
      → ((l : ℕ) → l ≢ l0 → h' l ≡ h l)
      → v' l0 ≡ v l0 + 1
      → ((l : ℕ) → l ≢ l0 → v' l ≡ v l)
      → Excl h' v' c
  Excl-release h' v' l0 t0 held clear e eh w ev = record {
    one = λ l t u. ground (arith, x.one l t u, eh l, e);
    free = λ l t. ground (arith, x.free l t, x.one l0 t0 t, x.free l0 t0, eh l, ev l, clear l);
    low = λ l. ground (arith, x.low l, x.free l0 t0, ev l);
  }
