-- ===== src/Kernel/System/Continue.antt =====
-- `continue_frame` in the system: the running thread goes on with the call that it left.
use mathlib.Core.Path.{subst}
use project_os.Base.{
  ℕ, ◌≡◌, ◌≢◌, refl, sym, ◌∙◌, ap, inl, inr, Bool, true, false, some, List, [], ◌∷◌, arith, ◌==◌,
  if◌then◌else◌, Bool-cases, assert-not, some->>=,
}
use project_os.Kernel.{Kernel, Lock, Frame}
use project_os.Kernel.Sync.{sema_down, continue_frame, run_frame, pop_frame, down_round, set_lock}
use project_os.Kernel.Invariant.{Place, Inv}
use project_os.Kernel.Order.{InOrder-same}
use project_os.Kernel.Block.{thread_current-some}
use project_os.Kernel.System.{
  sem_of, claims, is_down, IsRested, IsIdle, Shape, holders, values, claimers, Sys,
}
use project_os.Kernel.System.Owners.{Excl, Excl-same, Excl-own}
use project_os.Kernel.System.Down.{Calls, sema_down-Sys}
use project_os.Kernel.System.Resume.{unclaimed}
use project_os.Kernel.System.Steps.{IsRested-Shape, IsRested-is_down, Moved-Sys}

-- The invariant of the scheduler is not about calls, holders and interrupts.
aside-Inv :
    (k : Kernel) (fr : ℕ → List Frame) (locks : ℕ → Lock) (b : Bool) (p : ℕ → Place)
    → Inv k p
    → Inv (record k { frames = fr; locks = locks; intr_on = b }) p
aside-Inv k fr locks b p v =
    let f = v.filed in
    record {
      filed = record {
        on_ready = f.on_ready;
        on_sleep = f.on_sleep;
        on_sema = f.on_sema;
        fits = f.fits;
        real = f.real;
        idle_free = f.idle_free;
        idle_real = f.idle_real;
      };
      current_runs = v.current_runs;
      current_real = v.current_real;
      one_runs = v.one_runs;
    }

module _ (k : Kernel) (s : Sys k) where
  -- The state in which a call that was left in `sema_down` goes on.
  abbrev again : List Frame → Bool → Kernel
  again fs old = record (pop_frame k k.current fs) { intr_on = old }

  popped :
      (fs : List Frame) (t : ℕ)
      → (pop_frame k k.current fs).frames t ≡ (if t == k.current then fs else k.frames t)
  unfolding pop_frame
  popped fs t = refl

  popped_level :
      (fs : List Frame)
      → IsRested fs
      → is_down (if k.current == k.current then fs else k.frames k.current) ≡ true
      → ⊥
  popped_level fs r d = ground (arith, IsRested-is_down fs r)

  popped_claims :
      (old : Bool) (fs : List Frame)
      → k.frames k.current ≡ Frame.set_level old ∷ fs
      → (m t : ℕ) → claims m (if t == k.current then fs else k.frames t) ≡ claims m (k.frames t)
  popped_claims old fs e m t = elim (Bool-cases (t == k.current)) [
    | inl at ↦
        let here : t ≡ k.current = ground arith in
        rw at (sym (ap (λ u. claims m (k.frames u)) here ∙ ap (claims m) e))
    | inr away ↦ rw away refl
  ]

  again-Calls :
      (r : ℕ) (old : Bool) (fs : List Frame)
      → k.frames k.current ≡ Frame.down r old ∷ fs
      → Calls (again fs old) r fs
  unfolding pop_frame
  again-Calls r old fs e = record {
    place = s.place;
    inv = aside-Inv k _ _ _ s.place s.inv;
    order = InOrder-same k (again fs old) (λ t. refl) k.blocked_list s.order;
    idle = s.idle;
    is_idle = s.is_idle;
    outside = s.outside;
    apart = s.apart;
    busy = ground (arith, s.is_idle, idle_away);
    frames = ground arith;
    follows = subst (Shape (sem_of k)) e (s.shapes k.current);
    shapes = λ t ne. subst (Shape (sem_of k)) (kept t ne) (s.shapes t);
    idles = subst IsIdle (kept s.idle idle_away) s.idles;
    excl =
        Excl-same (holders k) (values k) (claimers k) s.excl _ _ _ (λ m. refl) (λ m. refl)
          (λ m t. cleared m t ∙ unclaimed k s m t (ap (claims m) e));
  }
    where
      idle_away : s.idle ≢ k.current
      idle_away q = elim (subst IsIdle (ap k.frames q ∙ e) s.idles) [ ]

      kept : (t : ℕ) → t ≢ k.current → k.frames t ≡ (again fs old).frames t
      kept t ne = ground arith

      cleared :
          (m t : ℕ)
          → claims m (if t == k.current then [] else (again fs old).frames t)
            ≡ claims m (if t == k.current then [] else k.frames t)
      cleared m t = elim (Bool-cases (t == k.current)) [
        | inl at ↦ rw at refl
        | inr away ↦
            ap (λ fs. claims m (if t == k.current then [] else fs)) (sym (kept t (ground arith)))
      ]

  -- With interrupts off, going on with `sema_down` is the same as calling it.
  again_down :
      (r : ℕ) (old : Bool) (fs : List Frame)
      → k.intr_on ≡ false
      → sema_down (again fs old) r ≡ down_round (pop_frame k k.current fs) r old
  unfolding sema_down pop_frame
  again_down r old fs off =
      assert-not k.intr_context _ s.outside
      ∙ ap (λ b. down_round (record (pop_frame k k.current fs) { intr_on = b }) r old) (sym off)

  abbrev owned : ℕ → List Frame → Kernel
  owned l fs =
      set_lock (pop_frame k k.current fs) l (record (k.locks l) { holder = some k.current })

  owned-Excl :
      (l : ℕ) (fs : List Frame)
      → k.frames k.current ≡ Frame.own l ∷ fs
      → fs ≡ []
      → Excl (holders (owned l fs)) (values k) (claimers (owned l fs))
  unfolding pop_frame
  owned-Excl l fs e last =
      Excl-own (holders k) (values k) (claimers k) s.excl (holders (owned l fs))
        (claimers (owned l fs)) l k.current (ap (claims l) e ∙ ground arith) (ground arith)
        (λ m ne. ground arith)
        (λ m t. elim (Bool-cases (t == k.current)) [
          | inl at ↦
              let here : t ≡ k.current = ground arith in
              let old : claimers k m t ≡ (m == l) =
                ap (λ u. claims m (k.frames u)) here ∙ ap (claims m) e in
              let new : claimers (owned l fs) m t ≡ false = rw at (ap (claims m) last) in
              new ∙ rw (old, at) (ground arith)
          | inr away ↦
              let new : claimers (owned l fs) m t ≡ claimers k m t = rw away refl in
              new ∙ ground (arith, away)
        ])

  owned_sem : (l : ℕ) (fs : List Frame) (m : ℕ) → sem_of (owned l fs) m ≡ sem_of k m
  unfolding pop_frame
  owned_sem l fs m = ground arith

  continue_frame_of :
      (gs : List Frame)
      → k.frames k.current ≡ gs
      → (k' : Kernel) × (continue_frame k ≡ some k') × Sys k'
  unfolding continue_frame run_frame pop_frame
  continue_frame_of [] e = (k, ap (run_frame k) e, s)
  continue_frame_of (Frame.set_level old ∷ fs) e =
      let rested : IsRested fs = subst (Shape (sem_of k)) e (s.shapes k.current) in
      (
        again fs old,
        ap (run_frame k) e,
        Moved-Sys k (again fs old) fs s (record {
          place = s.place;
          inv = aside-Inv k _ _ _ s.place s.inv;
          order = InOrder-same k (again fs old) (λ t. refl) k.blocked_list s.order;
          idle = refl;
          outside = s.outside;
          sems = λ l. refl;
          frames = popped fs;
          shape = IsRested-Shape (sem_of k) fs rested;
          idles = λ i. subst IsIdle e i;
          level = λ d. absurd (popped_level fs rested d);
          excl =
              Excl-same (holders k) (values k) (claimers k) s.excl _ _ _ (λ m. refl) (λ m. refl)
                (λ m t. popped_claims old fs e m t);
        }),
      )
  continue_frame_of (Frame.down r old ∷ fs) e =
      let (k', e', w) = sema_down-Sys (again fs old) r fs (again-Calls r old fs e) in
      (k', ap (run_frame k) e ∙ sym (again_down r old fs (s.level (ap is_down e))) ∙ e', w)
  continue_frame_of (Frame.own l ∷ fs) e =
      let last : fs ≡ [] = subst (Shape (sem_of k)) e (s.shapes k.current) in
      (
        owned l fs,
        ap (run_frame k) e
            ∙ some->>= _ k.current _ (
                thread_current-some (pop_frame k k.current fs) s.inv.current_real
                  s.inv.current_runs),
        Moved-Sys k (owned l fs) fs s (record {
          place = s.place;
          inv = aside-Inv k _ _ _ s.place s.inv;
          order = InOrder-same k (owned l fs) (λ t. refl) k.blocked_list s.order;
          idle = refl;
          outside = s.outside;
          sems = owned_sem l fs;
          frames = popped fs;
          shape = subst (Shape (sem_of k)) (sym last) tt;
          idles = λ i. elim (subst IsIdle e i) [ ];
          level = λ d. absurd (popped_level fs (subst IsRested (sym last) tt) d);
          excl =
              Excl-same (holders (owned l fs)) (values k) (claimers (owned l fs))
                (owned-Excl l fs e last) _ _ _ (λ m. refl)
                (λ m. ap (λ q. (k.semas q).value) (owned_sem l fs m)) (λ m t. refl);
        }),
      )

  pub resume-Sys : (k' : Kernel) × (continue_frame k ≡ some k') × Sys k'
  resume-Sys = continue_frame_of (k.frames k.current) refl
