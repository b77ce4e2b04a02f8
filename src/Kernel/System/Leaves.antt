-- ===== src/Kernel/System/Leaves.antt =====
-- The steps of the system that leave the running thread with an interrupt level to restore.
use mathlib.Core.Path.{subst}
use project_os.Base.{
  ℕ, ◌≡◌, ◌⊎◌, refl, sym, ◌∙◌, ap, inl, inr, true, false, some, ◌∷◌, arith, ◌==◌, if◌then◌else◌,
  Bool-cases,
}
use project_os.Kernel.{Kernel, Frame}
use project_os.Kernel.Sched.{thread_yield, yielding, push_frame}
use project_os.Kernel.Timer.{timer_sleep}
use project_os.Kernel.Invariant.{Place, Inv}
use project_os.Kernel.Order.{InOrder, InOrder-same}
use project_os.Kernel.Keep.{Turns}
use project_os.Kernel.Block.{thread_yield-Inv}
use project_os.Kernel.Sleep.{enqueued, dozing, timer_sleep-Inv}
use project_os.Kernel.System.{
  sem_of, claims, is_down, IsRested, holders, values, claimers, Sys, AtRest, NotIdle,
}
use project_os.Kernel.System.Owners.{Excl-same}
use project_os.Kernel.System.Down.{HasNext-idle}
use project_os.Kernel.System.Steps.{Shape-IsRested, Moved-Sys}

module _ (k : Kernel) (s : Sys k) where
  -- The running thread leaves a frame that restores the interrupt level, and another one runs.
  left_level :
      (left k' : Kernel) (p : ℕ → Place)
      → Turns left k'
      → Inv k' p
      → IsRested (k.frames k.current)
      → InOrder left left.blocked_list
      → left.idle_thread ≡ k.idle_thread
      → left.intr_context ≡ k.intr_context
      → left.intr_on ≡ false
      → left.locks ≡ k.locks
      → left.semas ≡ k.semas
      → ((t : ℕ)
          → left.frames t ≡ (
              if t == k.current
              then Frame.set_level k.intr_on ∷ k.frames k.current
              else k.frames t))
      → Sys k'
  left_level left k' p q v rested order idle context off locks semas frames =
      let sems : (l : ℕ) → sem_of k' l ≡ sem_of k l =
        λ l. ap (λ g. (g l).semaphore) (q.calm.locks ∙ locks) in
      Moved-Sys k k' (Frame.set_level k.intr_on ∷ k.frames k.current) s (record {
        place = p;
        inv = v;
        order = rw (q.sleepers) (InOrder-same left k' q.times left.blocked_list order);
        idle = q.calm.idle ∙ idle;
        outside = q.calm.context ∙ context ∙ s.outside;
        sems = sems;
        frames = λ t. ap (λ g. g t) q.calm.frames ∙ frames t;
        shape = rested;
        idles = λ i. i;
        level = λ d. q.calm.level ∙ off;
        excl =
            Excl-same (holders k) (values k) (claimers k) s.excl _ _ _
              (λ l. ap (λ g. (g l).holder) (q.calm.locks ∙ locks))
              (λ l.
                ap (λ r. (k'.semas r).value) (sems l)
                ∙ ap (λ g. (g (sem_of k l)).value) (q.semas ∙ semas))
              (λ l t.
                ap (λ g. claims l (g t)) q.calm.frames
                ∙ ap (claims l) (frames t)
                ∙ same_claims l t);
      })
    where
      same_claims :
          (l t : ℕ)
          → claims l (
              if t == k.current then Frame.set_level k.intr_on ∷ k.frames k.current else k.frames t)
            ≡ claims l (k.frames t)
      same_claims l t = elim (Bool-cases (t == k.current)) [
        | inl at ↦
            let here : t ≡ k.current = ground arith in
            rw at (ap (λ u. claims l (k.frames u)) (sym here))
        | inr away ↦ rw away refl
      ]

  IsRested-on : (k.intr_on ≡ true) ⊎ AtRest k → IsRested (k.frames k.current)
  IsRested-on (inr rest) = subst IsRested (sym rest) tt
  IsRested-on (inl on) =
      Shape-IsRested (sem_of k) (k.frames k.current) (s.shapes k.current)
        (elim (Bool-cases (is_down (k.frames k.current))) [
          | inl d ↦ absurd (both_levels on (s.level d))
          | inr d ↦ d
        ])
    where
      both_levels : k.intr_on ≡ true → k.intr_on ≡ false → ⊥
      both_levels a b = cc

  pub yield-Sys :
      (k.intr_on ≡ true) ⊎ AtRest k → (k' : Kernel) × (thread_yield k ≡ some k') × Sys k'
  unfolding yielding push_frame
  yield-Sys ok =
      let (k', e, (p, v), q) = thread_yield-Inv k s.place s.inv s.outside in
      (
        k',
        e,
        left_level (yielding k k.current) k' p q v (IsRested-on ok)
            (InOrder-same k (yielding k k.current) (λ t. ground arith) k.blocked_list s.order) refl
            refl refl refl refl (λ t. ground arith),
      )

  pub sleep-Sys :
      (n : ℕ)
      → NotIdle k
      → AtRest k
      → k.intr_on ≡ true
      → (k' : Kernel) × (timer_sleep k n ≡ some k') × Sys k'
  unfolding push_frame
  sleep-Sys n busy rest on =
      let (k', e, (p, v), q, o) =
        timer_sleep-Inv k s.place s.inv n on s.outside busy (HasNext-idle k s.idle s.is_idle)
          s.order in
      (
        k',
        e,
        left_level (dozing (enqueued k n)) k' p q v (IsRested-on (inr rest))
            (subst (InOrder (dozing (enqueued k n))) q.sleepers
              (InOrder-same k' (dozing (enqueued k n)) (λ t. sym (q.times t)) k'.blocked_list o))
            refl refl refl refl refl (λ t. ground arith),
      )
