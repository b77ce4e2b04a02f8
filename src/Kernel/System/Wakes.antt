-- ===== src/Kernel/System/Wakes.antt =====
-- The steps of the system that go on with the same thread: `sema_up`, `lock_release`, an interrupt.
use mathlib.Core.Path.{subst}
use project_os.Base.{
  ℕ, ◌+◌, ◌%◌, ◌^◌, Bool-cases, inl, inr, ◌≡◌, ◌≢◌, refl, ◌∙◌, ap, Bool, true, false, none, some,
  arith, some->>=,
}
use project_os.Kernel.{Kernel, points_to}
use project_os.Kernel.Sync.{lock_release, sema_up}
use project_os.Kernel.Invariant.{Place, Inv}
use project_os.Kernel.Order.{InOrder-same}
use project_os.Kernel.Wake.{Ups, sema_up-Ups}
use project_os.Kernel.Tick.{timer_interrupt-Wakes}
use project_os.Kernel.Locks.{Releases, given_up, linked, lock_release-Releases}
use project_os.Kernel.System.{
  sem_of, claims, IsFree, holders, values, claimers, Sys, AtRest, interrupt, entered,
}
use project_os.Kernel.System.Owners.{Excl-same, Excl-release}
use project_os.Kernel.System.Resume.{same-Sys, none-Sys}
use project_os.Kernel.System.Steps.{Moved, Moved-Sys, level_kept, frames_kept}

-- The flags of an interrupt have no part in the lists.
context-Inv :
    (k : Kernel) (on b y : Bool) (p : ℕ → Place)
    → Inv k p
    → Inv (record k { intr_on = on; intr_context = b; yield_on_return = y }) p
context-Inv k on b y p v =
    let f = v.filed in
    record {
      filed = record {
        on_ready = f.on_ready;
        on_sleep = f.on_sleep;
        on_sema = f.on_sema;
        fits = f.fits;
        real = f.real;
        idle_free = f.idle_free;
        idle_real = f.idle_real;
      };
      current_runs = v.current_runs;
      current_real = v.current_real;
      one_runs = v.one_runs;
    }

module _ (k : Kernel) (s : Sys k) where
  pub up-Sys : (r : ℕ) → IsFree (sem_of k) r → (k' : Kernel) × (sema_up k r ≡ some k') × Sys k'
  up-Sys r free =
      let (k', e, (p, v), u) = sema_up-Ups k s.place r s.inv in
      let sems : (l : ℕ) → sem_of k' l ≡ sem_of k l = λ l. ap (λ g. (g l).semaphore) u.calm.locks in
      (
        k',
        e,
        Moved-Sys k k' (k.frames k.current) s (record {
          place = p;
          inv = v;
          order = rw (u.sleepers) (InOrder-same k k' u.times k.blocked_list s.order);
          idle = u.calm.idle;
          outside = u.calm.context ∙ s.outside;
          sems = sems;
          frames = frames_kept k s k' u.calm.frames;
          shape = s.shapes k.current;
          idles = λ i. i;
          level = level_kept k s k' u.calm.frames u.current u.calm.level;
          excl =
              Excl-same (holders k) (values k) (claimers k) s.excl _ _ _
                (λ l. ap (λ g. (g l).holder) u.calm.locks)
                (λ l.
                  ap (λ q. (k'.semas q).value) (sems l)
                  ∙ ap (λ x. x.value) (u.others (sem_of k l) (free l)))
                (λ l t. ap (λ g. claims l (g t)) u.calm.frames);
        }),
      )

  pub tick-Sys : (k' : Kernel) × (interrupt k ≡ some k') × Sys k'
  unfolding interrupt
  tick-Sys =
      let inside : Kernel = entered k in
      let (k1, e, (p, v), w, c, y) =
        timer_interrupt-Wakes inside s.place (context-Inv k false true false s.place s.inv) refl
          s.order in
      let k' : Kernel = record k1 { intr_context = false; intr_on = k.intr_on } in
      let sems : (l : ℕ) → sem_of k' l ≡ sem_of k l = λ l. ap (λ g. (g l).semaphore) w.calm.locks in
      (
        k',
        some->>= _ k1 _ e,
        Moved-Sys k k' (k.frames k.current) s (record {
          place = p;
          inv = context-Inv k1 k.intr_on false k1.yield_on_return p v;
          order = InOrder-same k1 k' (λ t. refl) k1.blocked_list w.order;
          idle = w.calm.idle;
          outside = refl;
          sems = sems;
          frames = frames_kept k s k' w.calm.frames;
          shape = s.shapes k.current;
          idles = λ i. i;
          level = level_kept k s k' w.calm.frames w.same_current refl;
          excl =
              Excl-same (holders k) (values k) (claimers k) s.excl _ _ _
                (λ l. ap (λ g. (g l).holder) w.calm.locks)
                (λ l.
                  ap (λ q. (k'.semas q).value) (sems l) ∙ ap (λ g. (g (sem_of k l)).value) w.semas)
                (λ l t. ap (λ g. claims l (g t)) w.calm.frames);
        }),
      )

  given_holder : (l m : ℕ) → m ≢ l → holders (given_up k l) m ≡ holders k m
  given_holder l m ne = ground arith

  given_sem : (l m : ℕ) → sem_of (given_up k l) m ≡ sem_of k m
  given_sem l m = ground arith

  module _ (l : ℕ) (rest : AtRest k) (held : points_to (k.locks l).holder k.current ≡ true) where
    after_release :
        (k' : Kernel) (p : ℕ → Place)
        → Inv k' p
        → (k'.locks l).holder ≡ none
        → Ups (given_up k l) (sem_of k l) k'
        → Moved k k' (k.frames k.current)
    after_release k' p v h u =
        let sems : (m : ℕ) → sem_of k' m ≡ sem_of k m =
          λ m. ap (λ g. (g m).semaphore) u.calm.locks ∙ given_sem l m in
        let no_wrap : (values k l + 1) % 2 ^ 32 ≡ values k l + 1 = omega (arith, s.excl.low l) in
        record {
          place = p;
          inv = v;
          order = rw (u.sleepers) (InOrder-same k k' u.times k.blocked_list s.order);
          idle = u.calm.idle;
          outside = u.calm.context ∙ s.outside;
          sems = sems;
          frames = frames_kept k s k' u.calm.frames;
          shape = s.shapes k.current;
          idles = λ i. i;
          level = level_kept k s k' u.calm.frames u.current u.calm.level;
          excl =
              Excl-same (holders k') (values k') (claimers k)
                (Excl-release (holders k) (values k) (claimers k) s.excl (holders k') (values k') l
                  k.current held (λ m. ap (claims m) rest) h
                  (λ m ne. ap (λ g. (g m).holder) u.calm.locks ∙ given_holder l m ne)
                  (ap (λ r. (k'.semas r).value) (sems l) ∙ u.value ∙ no_wrap)
                  (λ m ne.
                    ap (λ r. (k'.semas r).value) (sems m)
                    ∙ ap (λ x. x.value) (u.others (sem_of k m) (λ q. ne (s.apart m l q)))))
                _ _ _ (λ m. refl) (λ m. refl) (λ m t. ap (λ g. claims m (g t)) u.calm.frames);
        }

    -- `lock_release` leads to a state of the system, if it does not panic.
    pub release-Sys : (k' : Kernel) → lock_release k l ≡ some k' → Sys k'
    release-Sys k' done = elim (Bool-cases (linked k l)) [
      | inl on ↦
          let (k1, e, (p, v), h, links, u) =
            subst (λ b. Releases b true k l (lock_release k l)) held
              (subst
                (λ b. Releases (points_to (k.locks l).holder k.current) b k l (lock_release k l)) on
                (lock_release-Releases k s.place l s.inv)) in
          same-Sys k1 k' e done (Moved-Sys k k1 (k.frames k.current) s (after_release k1 p v h u))
      | inr off ↦
          none-Sys k'
            (subst (λ b. Releases b false k l (lock_release k l)) held
              (subst
                (λ b. Releases (points_to (k.locks l).holder k.current) b k l (lock_release k l))
                off (lock_release-Releases k s.place l s.inv)))
            done
    ]
