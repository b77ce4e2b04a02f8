-- ===== src/Kernel/System/Down.antt =====
-- `sema_down` in the system: for a semaphore by itself, or as a part of `lock_acquire`.
use project_os.Base.{
  ℕ, ◌+◌, ◌≡◌, ◌≢◌, refl, sym, ◌∙◌, ap, inl, inr, Bool, true, false, ◌&&◌, ◌||◌, some, List, [],
  ◌∷◌, arith, ◌==◌, if◌then◌else◌, Bool-cases,
}
use project_os.Kernel.{Kernel, Frame, Status, set_status, points_to}
use project_os.Kernel.Sched.{push_frame}
use project_os.Kernel.Sync.{sema_down, waiting}
use project_os.Kernel.Invariant.{Place, Inv, HasNext}
use project_os.Kernel.Order.{InOrder, InOrder-same}
use project_os.Kernel.Keep.{Turns}
use project_os.Kernel.Block.{Passes, sema_down-Turns}
use project_os.Kernel.System.{
  sem_of, claims, is_down, IsIdle, Follows, Shape, holders, values, claimers, Sys,
}
use project_os.Kernel.System.Owners.{Excl, Excl-same, Excl-take}
use mathlib.Core.Path.{subst, fun_ext}
use native.Mathlib.Decide.{ℕ_discrete}

-- The state in which the running thread calls `sema_down`, with `fs` to follow.
pub record Calls (k : Kernel) (s : ℕ) (fs : List Frame) : Type 0 where
  pub place : ℕ → Place
  pub inv : Inv k place
  pub order : InOrder k k.blocked_list
  pub idle : ℕ
  pub is_idle : k.idle_thread ≡ some idle
  pub outside : k.intr_context ≡ false
  pub apart : (l m : ℕ) → sem_of k l ≡ sem_of k m → l ≡ m
  pub busy : points_to k.idle_thread k.current ≡ false
  pub frames : k.frames k.current ≡ fs
  pub follows : Follows (sem_of k) s fs
  pub shapes : (t : ℕ) → t ≢ k.current → Shape (sem_of k) (k.frames t)
  pub idles : IsIdle (k.frames idle)
  pub excl :
      Excl (holders k) (values k) (λ l t. claims l (if t == k.current then [] else k.frames t))

Follows-Shape : (sem : ℕ → ℕ) (s : ℕ) (fs : List Frame) → Follows sem s fs → Shape sem fs
Follows-Shape sem s [] f = tt
Follows-Shape sem s (Frame.set_level old ∷ fs) f = elim f [ ]
Follows-Shape sem s (Frame.down r old ∷ fs) f = elim f [ ]
Follows-Shape sem s (Frame.own l ∷ fs) (e, f) = f

Follows-is_down : (sem : ℕ → ℕ) (s : ℕ) (fs : List Frame) → Follows sem s fs → is_down fs ≡ false
Follows-is_down sem s [] f = refl
Follows-is_down sem s (Frame.set_level old ∷ fs) f = elim f [ ]
Follows-is_down sem s (Frame.down r old ∷ fs) f = elim f [ ]
Follows-is_down sem s (Frame.own l ∷ fs) f = refl

pub HasNext-idle : (k : Kernel) (i : ℕ) → k.idle_thread ≡ some i → HasNext k
HasNext-idle k i e _ = (i, e)

-- The semaphores of the locks are the same, so the shapes are.
pub Shape-same :
    (sem sem' : ℕ → ℕ) (fs : List Frame) → ((l : ℕ) → sem' l ≡ sem l) → Shape sem fs → Shape sem' fs
Shape-same sem sem' fs e f = subst (λ g. Shape g fs) (sym (fun_ext e)) f

not_true : false ≡ true → ⊥
not_true e = cc

and_swap : (a b : Bool) → (a && b) ≡ (b && a)
and_swap true true = refl
and_swap true false = refl
and_swap false true = refl
and_swap false false = refl

module _ (k : Kernel) (s : ℕ) (fs : List Frame) (c : Calls k s fs) where
  Shape-now : (t : ℕ) → Shape (sem_of k) (k.frames t)
  Shape-now t = elim (ℕ_discrete t k.current) [
    | yes at ↦
        subst (Shape (sem_of k)) (sym (ap k.frames at ∙ c.frames))
          (Follows-Shape (sem_of k) s fs c.follows)
    | no away ↦ c.shapes t away
  ]

  abbrev seen : ℕ → ℕ → Bool
  seen l t = claims l (if t == k.current then [] else k.frames t)

  claims-seen : (l t : ℕ) → claims l (k.frames t) ≡ ((t == k.current && claims l fs) || seen l t)
  claims-seen l t = elim (Bool-cases (t == k.current)) [
    | inl at ↦
        let here : t ≡ k.current = ground arith in
        rw at
          (ap (λ u. claims l (k.frames u)) here ∙ ap (claims l) c.frames ∙ or_false (claims l fs))
    | inr away ↦ rw away refl
  ]
    where
      or_false : (b : Bool) → b ≡ (b || false)
      or_false true = refl
      or_false false = refl

  module _ (k' : Kernel) (p : Passes k s k') where
    sem_kept : (l : ℕ) → sem_of k' l ≡ sem_of k l
    sem_kept l = ap (λ g. (g l).semaphore) p.calm.locks

    holder_kept : (l : ℕ) → holders k' l ≡ holders k l
    holder_kept l = ap (λ g. (g l).holder) p.calm.locks

    value_kept : (l : ℕ) → sem_of k l ≢ s → values k' l ≡ values k l
    value_kept l ne =
        ap (λ r. (k'.semas r).value) (sem_kept l) ∙ ap (λ x. x.value) (p.others (sem_of k l) ne)

    claims_kept : (l t : ℕ) → claimers k' l t ≡ ((t == k.current && claims l fs) || seen l t)
    claims_kept l t = ap (λ g. claims l (g t)) p.calm.frames ∙ claims-seen l t

  -- The semaphore was not 0.
  passed-Excl :
      (gs : List Frame)
      → fs ≡ gs
      → Follows (sem_of k) s gs
      → (k' : Kernel) → Passes k s k'
      → Excl (holders k') (values k') (claimers k')
  passed-Excl [] e free k' p =
      Excl-same (holders k) (values k) seen c.excl _ _ _ (holder_kept k' p)
        (λ l. value_kept k' p l (free l))
        (λ l t.
          claims_kept k' p l t
          ∙ ap (λ g. (t == k.current && claims l g) || seen l t) e
          ∙ drop_false _ _)
    where
      drop_false : (a b : Bool) → ((a && false) || b) ≡ b
      drop_false true b = refl
      drop_false false b = refl
  passed-Excl (Frame.set_level old ∷ gs) e f k' p = elim f [ ]
  passed-Excl (Frame.down r old ∷ gs) e f k' p = elim f [ ]
  passed-Excl (Frame.own l ∷ gs) e (at, last) k' p =
      Excl-same (holders k) (values k') (claimers k') took _ _ _ (holder_kept k' p) (λ m. refl)
        (λ m t. refl)
    where
      took : Excl (holders k) (values k') (claimers k')
      took =
          Excl-take (holders k) (values k) seen c.excl (values k') (claimers k') l k.current
            (ap (λ r. (k'.semas r).value + 1) (sem_kept k' p l ∙ at)
              ∙ p.value
              ∙ ap (λ r. (k.semas r).value) (sym at))
            (λ m ne. value_kept k' p m (λ q. ne (c.apart m l (q ∙ sym at))))
            (λ m t.
              claims_kept k' p m t
              ∙ ap (λ g. (t == k.current && claims m g) || seen m t) e
              ∙ ap (λ b. b || seen m t) (and_swap (t == k.current) (m == l)))

  passed-Sys : (k' p : _) → Passes k s k' → Inv k' p → Sys k'
  passed-Sys k' p q v = record {
    place = p;
    inv = v;
    order = rw (q.sleepers) (InOrder-same k k' q.times k.blocked_list c.order);
    idle = c.idle;
    is_idle = q.calm.idle ∙ c.is_idle;
    outside = q.calm.context ∙ c.outside;
    apart = λ l m e. c.apart l m (sym (sem_kept k' q l) ∙ e ∙ sem_kept k' q m);
    shapes = λ t.
        subst (λ g. Shape (sem_of k') (g t)) (sym q.calm.frames)
          (Shape-same (sem_of k) (sem_of k') (k.frames t) (sem_kept k' q) (Shape-now t));
    idles = subst (λ g. IsIdle (g c.idle)) (sym q.calm.frames) c.idles;
    level = λ d. absurd (
        not_true (
          sym (
            ap (λ g. is_down (g k'.current)) q.calm.frames
            ∙ ap (λ t. is_down (k.frames t)) q.current
            ∙ ap is_down c.frames
            ∙ Follows-is_down (sem_of k) s fs c.follows)
          ∙ d));
    excl = passed-Excl fs refl c.follows k' q;
  }

  -- The state that `thread_block` leaves to `schedule`.
  abbrev left : Kernel
  left =
      set_status (waiting (record k { intr_on = false }) s k.intr_on k.current) k.current
        Status.blocked

  left_frames :
      (t : ℕ) → left.frames t ≡ (if t == k.current then Frame.down s k.intr_on ∷ fs else k.frames t)
  unfolding waiting push_frame
  left_frames t = ground (arith, c.frames)

  left_claims : (l t : ℕ) → claims l (left.frames t) ≡ seen l t
  left_claims l t = elim (Bool-cases (t == k.current)) [
    | inl at ↦ ap (claims l) (left_frames t) ∙ rw at refl
    | inr away ↦ ap (claims l) (left_frames t) ∙ rw away refl
  ]

  left_value : (r : ℕ) → (left.semas r).value ≡ (k.semas r).value
  unfolding waiting push_frame
  left_value r = ground arith

  left-Shape : (t : ℕ) → Shape (sem_of k) (left.frames t)
  left-Shape t = elim (Bool-cases (t == k.current)) [
    | inl at ↦ subst (Shape (sem_of k)) (sym (left_frames t)) (rw at c.follows)
    | inr away ↦
        subst (Shape (sem_of k)) (sym (left_frames t)) (rw away (c.shapes t (ground arith)))
  ]

  left_idles : IsIdle (left.frames c.idle)
  left_idles =
      let away : (c.idle == k.current) ≡ false = ground (arith, c.busy, c.is_idle) in
      subst IsIdle (sym (left_frames c.idle)) (rw away c.idles)

  blocked-Sys : (k' : Kernel) (p : ℕ → Place) → Turns left k' → Inv k' p → Sys k'
  unfolding waiting push_frame
  blocked-Sys k' p q v = record {
    place = p;
    inv = v;
    order = rw (q.sleepers) (InOrder-same left k' q.times k.blocked_list left_order);
    idle = c.idle;
    is_idle = q.calm.idle ∙ c.is_idle;
    outside = q.calm.context ∙ c.outside;
    apart = λ l m e. c.apart l m (sym (sems l) ∙ e ∙ sems m);
    shapes = λ t.
        subst (λ g. Shape (sem_of k') (g t)) (sym q.calm.frames)
          (Shape-same (sem_of k) (sem_of k') (left.frames t) sems (left-Shape t));
    idles = subst (λ g. IsIdle (g c.idle)) (sym q.calm.frames) left_idles;
    level = λ d. q.calm.level;
    excl =
        Excl-same (holders k) (values k) seen c.excl _ _ _
          (λ l. ap (λ g. (g l).holder) q.calm.locks)
          (λ l.
            ap (λ r. (k'.semas r).value) (sems l)
            ∙ ap (λ g. (g (sem_of k l)).value) q.semas
            ∙ left_value (sem_of k l))
          (λ l t. ap (λ g. claims l (g t)) q.calm.frames ∙ left_claims l t);
  }
    where
      sems : (l : ℕ) → sem_of k' l ≡ sem_of k l
      sems l = ap (λ g. (g l).semaphore) q.calm.locks

      left_order : InOrder left k.blocked_list
      left_order = InOrder-same k left (λ t. ground arith) k.blocked_list c.order

  -- `sema_down` in such a state does not panic, and leads to a state of the system.
  pub sema_down-Sys : (k' : Kernel) × (sema_down k s ≡ some k') × Sys k'
  sema_down-Sys =
      let (k', e, (p, v), d) =
        sema_down-Turns k c.place s c.inv c.outside c.busy (HasNext-idle k c.idle c.is_idle) in
      (k', e, elim d [ inl q ↦ passed-Sys k' p q v | inr (z, q) ↦ blocked-Sys k' p q v ])
