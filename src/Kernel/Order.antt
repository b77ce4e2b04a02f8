-- ===== src/Kernel/Order.antt =====
-- The order of the sleep queue, and `list_insert_ordered` by `compare_thread`.
use project_os.Base.{ℕ, ◌≤◌, ◌≡◌, refl, inl, inr, List, [], ◌∷◌, arith, Bool-cases, count}
use project_os.Kernel.{Kernel}
use project_os.Kernel.Timer.{wake_time, compare_thread, insert_ordered}
use project_os.Kernel.Invariant.{count}

-- No thread of the list is due before `n`.
abbrev pub NotBefore : Kernel → ℕ → List ℕ → Type 0
NotBefore k n [] = Unit
NotBefore k n (x ∷ xs) = (n ≤ wake_time k x) × NotBefore k n xs

-- The list is in the order of the times to wake.
abbrev pub InOrder : Kernel → List ℕ → Type 0
InOrder k [] = Unit
InOrder k (x ∷ xs) = NotBefore k (wake_time k x) xs × InOrder k xs

pub NotBefore-le :
    (k : Kernel) (m n : ℕ) (xs : List ℕ) → m ≤ n → NotBefore k n xs → NotBefore k m xs
NotBefore-le k m n [] h a = tt
NotBefore-le k m n (x ∷ xs) h (p, a) = (omega arith, NotBefore-le k m n xs h a)

module _ (k : Kernel) (t : ℕ) where
  pub count-insert_ordered :
      (u : ℕ) (xs : List ℕ) → count u (insert_ordered k t xs) ≡ count u (t ∷ xs)
  unfolding insert_ordered
  count-insert_ordered u [] = refl
  count-insert_ordered u (x ∷ xs) = ground (arith, count-insert_ordered u xs)

  insert_ordered-NotBefore :
      (n : ℕ) (xs : List ℕ)
      → n ≤ wake_time k t
      → NotBefore k n xs
      → NotBefore k n (insert_ordered k t xs)
  unfolding insert_ordered
  insert_ordered-NotBefore n [] h a = (h, tt)
  insert_ordered-NotBefore n (x ∷ xs) h (p, a) = elim (Bool-cases (compare_thread k t x)) [
    | inl less ↦ rw less (h, (p, a))
    | inr more ↦ rw more (p, insert_ordered-NotBefore n xs h a)
  ]

  -- Inserting keeps the order of the sleep queue.
  pub insert_ordered-InOrder : (xs : List ℕ) → InOrder k xs → InOrder k (insert_ordered k t xs)
  unfolding insert_ordered
  insert_ordered-InOrder [] o = (tt, tt)
  insert_ordered-InOrder (x ∷ xs) (p, o) = elim (Bool-cases (compare_thread k t x)) [
    | inl less ↦ rw less ((ground arith, NotBefore-le k _ _ xs (ground arith) p), (p, o))
    | inr more ↦
        rw more (
          insert_ordered-NotBefore (wake_time k x) xs (ground arith) p,
          insert_ordered-InOrder xs o,
        )
  ]

module _ (k k' : Kernel) (same : (t : ℕ) → wake_time k' t ≡ wake_time k t) where
  NotBefore-same : (n : ℕ) (xs : List ℕ) → NotBefore k n xs → NotBefore k' n xs
  NotBefore-same n [] a = tt
  NotBefore-same n (x ∷ xs) (p, a) = (omega (arith, same x), NotBefore-same n xs a)

  pub InOrder-same : (xs : List ℕ) → InOrder k xs → InOrder k' xs
  InOrder-same [] o = tt
  InOrder-same (x ∷ xs) (p, o) = (rw (same x) (NotBefore-same _ xs p), InOrder-same xs o)
