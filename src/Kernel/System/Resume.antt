-- ===== src/Kernel/System/Resume.antt =====
-- The steps of the system that take semaphores and locks, and those that go on after a switch.
use mathlib.Core.Path.{subst}
use project_os.Base.{
  ℕ, ◌≡◌, ◌≢◌, refl, sym, ◌∙◌, ap, inl, inr, false, Option, none, some, Option-cases, none->>=, [],
  ◌∷◌, arith, ◌==◌, if◌then◌else◌, Bool-cases, if-true, if-false, assert-not, some->>=,
}
use project_os.LinkedList.{Heap, list_push_back}
use project_os.Kernel.{Kernel, Frame, points_to}
use project_os.Kernel.Sched.{push_frame}
use project_os.Kernel.Sync.{lock_acquire, acquire_free, sema_down, push_lock}
use project_os.Kernel.Invariant.{Inv}
use project_os.Kernel.Order.{InOrder-same}
use project_os.Kernel.Block.{thread_current-some}
use project_os.Kernel.Locks.{held-points_to}
use project_os.Kernel.System.{
  sem_of, claims, IsIdle, IsFree, Shape, holders, values, claimers, Sys, AtRest, NotIdle,
}
use project_os.Kernel.System.Owners.{Excl-same}
use project_os.Kernel.System.Down.{Calls, sema_down-Sys}

-- The state in which `lock_acquire` calls `sema_down`, with the links `h`.
abbrev asking : Kernel → Heap → ℕ → Kernel
asking k h l = push_frame (record k { elems = h }) k.current (Frame.own l)

-- A call that returns, returns one state.
pub same-Sys : {r : Option Kernel} (m k' : Kernel) → r ≡ some m → r ≡ some k' → Sys m → Sys k'
same-Sys m k' e f w =
    let both : ◌≡◌ {A = Option Kernel} (some k') (some m) = sym f ∙ e in
    let same : k' ≡ m = cc in rw same w

pub none-Sys : {r : Option Kernel} (k' : Kernel) → r ≡ none → r ≡ some k' → Sys k'
none-Sys k' e f = let both : ◌≡◌ {A = Option Kernel} (some k') none = sym f ∙ e in absurd cc

module _ (k : Kernel) (s : Sys k) where
  asking-Inv : (h : Heap) (l : ℕ) → Inv (asking k h l) s.place
  unfolding push_frame
  asking-Inv h l =
      let v = s.inv in
      let f = s.inv.filed in
      record {
        filed = record {
          on_ready = f.on_ready;
          on_sleep = f.on_sleep;
          on_sema = f.on_sema;
          fits = λ u. ground (arith, f.fits u);
          real = λ u. ground (arith, f.real u);
          idle_free = f.idle_free;
          idle_real = λ u. ground (arith, f.idle_real u);
        };
        current_runs = ground (arith, v.current_runs);
        current_real = ground (arith, v.current_real);
        one_runs = λ u. ground (arith, v.one_runs u);
      }

  -- At rest, or left in `sema_down`, the running thread claims no lock.
  pub unclaimed :
      (l t : ℕ)
      → claims l (k.frames k.current) ≡ false
      → claims l (if t == k.current then [] else k.frames t) ≡ claimers k l t
  unclaimed l t none_yet = elim (Bool-cases (t == k.current)) [
    | inl at ↦
        let here : t ≡ k.current = ground arith in
        rw at (sym (ap (λ u. claims l (k.frames u)) here ∙ none_yet))
    | inr away ↦ rw away refl
  ]

  idle_away : NotIdle k → (s.idle == k.current) ≡ false
  idle_away busy = ground (arith, s.is_idle)

  asking-Calls :
      (h : Heap) (l : ℕ)
      → AtRest k
      → NotIdle k
      → Calls (asking k h l) (sem_of k l) (Frame.own l ∷ [])
  unfolding push_frame
  asking-Calls h l rest busy = record {
    place = s.place;
    inv = asking-Inv h l;
    order = InOrder-same k (asking k h l) (λ t. ground arith) k.blocked_list s.order;
    idle = s.idle;
    is_idle = s.is_idle;
    outside = s.outside;
    apart = s.apart;
    busy = busy;
    frames = ground (arith, rest);
    follows = (refl, refl);
    shapes = λ t ne. subst (Shape (sem_of k)) (kept t ne) (s.shapes t);
    idles = subst IsIdle (kept s.idle (λ e. apart_idle e)) s.idles;
    excl =
        Excl-same (holders k) (values k) (claimers k) s.excl _ _ _ (λ m. refl) (λ m. refl)
          (λ m t. cleared m t ∙ unclaimed m t (ap (claims m) rest));
  }
    where
      kept : (t : ℕ) → t ≢ k.current → k.frames t ≡ (asking k h l).frames t
      kept t ne = ground arith

      apart_idle : s.idle ≡ k.current → ⊥
      apart_idle e = ground (arith, idle_away busy)

      cleared :
          (m t : ℕ)
          → claims m (if t == k.current then [] else (asking k h l).frames t)
            ≡ claims m (if t == k.current then [] else k.frames t)
      cleared m t = elim (Bool-cases (t == k.current)) [
        | inl at ↦ rw at refl
        | inr away ↦
            ap (λ fs. claims m (if t == k.current then [] else fs)) (sym (kept t (ground arith)))
      ]

  pushed :
      (l : ℕ) (h : Heap)
      → list_push_back k.elems (k.threads k.current).locks (k.locks l).lock_elem ≡ some h
      → push_lock k k.current l ≡ some (record k { elems = h })
  unfolding push_lock
  pushed l h e = some->>= _ h _ e

  not_pushed :
      (l : ℕ)
      → list_push_back k.elems (k.threads k.current).locks (k.locks l).lock_elem ≡ none
      → push_lock k k.current l ≡ none
  unfolding push_lock
  not_pushed l e = none->>= _ _ e

  -- `lock_acquire` leads to a state of the system, if it does not panic.
  pub acquire-Sys :
      (l : ℕ) → AtRest k → NotIdle k → (k' : Kernel) → lock_acquire k l ≡ some k' → Sys k'
  unfolding lock_acquire acquire_free
  acquire-Sys l rest busy k' done =
      let held = held-points_to k s.place l s.inv in
      let runs = thread_current-some k s.inv.current_real s.inv.current_runs in
      let start : lock_acquire k l ≡ (
          if points_to (k.locks l).holder k.current then some k else acquire_free k k.current l) =
        assert-not k.intr_context _ s.outside
        ∙ some->>= _ (points_to (k.locks l).holder k.current) _ held
        ∙ some->>= _ k.current _ runs in
      elim (Bool-cases (points_to (k.locks l).holder k.current)) [
        | inl own ↦ same-Sys k k' (start ∙ if-true _ _ _ own) done s
        | inr other ↦
            elim (Option-cases
              (list_push_back k.elems (k.threads k.current).locks (k.locks l).lock_elem)) [
                | inl n ↦
                    none-Sys k'
                      (start
                        ∙ if-false _ _ _ other
                        ∙ none->>= (push_lock k k.current l) _ (not_pushed l n))
                      done
                | inr (h, m) ↦
                    let (k1, e, w) =
                      sema_down-Sys (asking k h l) (sem_of k l) _ (asking-Calls h l rest busy) in
                    same-Sys k1 k'
                      (start
                        ∙ if-false _ _ _ other
                        ∙ some->>= (push_lock k k.current l) _ _ (pushed l h m)
                        ∙ e)
                      done w
              ]
      ]

  pub down-Sys :
      (r : ℕ)
      → AtRest k
      → NotIdle k
      → IsFree (sem_of k) r
      → (k' : Kernel) × (sema_down k r ≡ some k') × Sys k'
  down-Sys r rest busy free = sema_down-Sys k r [] (record {
    place = s.place;
    inv = s.inv;
    order = s.order;
    idle = s.idle;
    is_idle = s.is_idle;
    outside = s.outside;
    apart = s.apart;
    busy = busy;
    frames = rest;
    follows = free;
    shapes = λ t ne. s.shapes t;
    idles = s.idles;
    excl =
        Excl-same (holders k) (values k) (claimers k) s.excl _ _ _ (λ m. refl) (λ m. refl)
          (λ m t. unclaimed m t (ap (claims m) rest));
  })
